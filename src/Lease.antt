-- ===== src/Lease.antt =====
-- internal/leaderlease/leaderlease.go: the rows of leader_leases, of which the primary key allows one
-- for each job. Processes send the three statements of TryAcquire one by one.
pub mod Exclusive
pub mod Free
pub mod Tests
use idpforge.Base.{
  ℕ, Bool, true, false, not, ◌&&◌, ◌||◌, ◌==◌, List, [], ◌∷◌, ◌++◌, any, keep, map, if◌then◌else◌,
  ltb, Str, str_eq,
}

pub record Row : Type 0 where
  pub job_name : Str
  pub holder_id : Str
  pub expires_at : ℕ

abbrev pub is_for : Str → Row → Bool
is_for job r = str_eq r.job_name job

abbrev pub is_held : Str → Str → Row → Bool
is_held job holder r = str_eq r.job_name job && str_eq r.holder_id holder

-- DELETE FROM leader_leases WHERE job_name = job AND expires_at < now
unfoldable pub delete_expired : Str → ℕ → List Row → List Row
delete_expired job now = keep (λ (r : Row). not (is_for job r && ltb r.expires_at now))

-- The INSERT; its failure is ignored.
unfoldable pub insert : Str → Str → ℕ → List Row → List Row
insert job holder expires_at rows =
    if any (is_for job) rows
    then rows
    else rows ++ record { job_name = job; holder_id = holder; expires_at = expires_at } ∷ []

abbrev pub renewed : Str → Str → ℕ → Row → Row
renewed job holder expires_at r =
    if is_held job holder r then record r { expires_at = expires_at } else r

-- The UPDATE of the holder's own row.
unfoldable pub renew : Str → Str → ℕ → List Row → List Row
renew job holder expires_at = map (renewed job holder expires_at)

-- The row counts for the UPDATE: where the driver counts the rows that it changes, as that of MySQL
-- does without `clientFoundRows`, a row that has the time already does not.
abbrev pub counts : Bool → Str → Str → ℕ → Row → Bool
counts counts_changed job holder expires_at r =
    is_held job holder r && (not counts_changed || not (r.expires_at == expires_at))

-- `n > 0` for the rows that the driver counts.
unfoldable pub wins : Bool → Str → Str → ℕ → List Row → Bool
wins counts_changed job holder expires_at = any (counts counts_changed job holder expires_at)

-- `TryAcquire`, at `now`, for a lease until `expires_at`.
unfoldable pub try_acquire : Bool → ℕ → ℕ → Str → Str → List Row → List Row × Bool
unfolding delete_expired insert renew wins
try_acquire counts_changed now expires_at job holder rows =
    let before = insert job holder expires_at (delete_expired job now rows) in
    (renew job holder expires_at before, wins counts_changed job holder expires_at before)

-- The statements of all processes, in the order in which the database takes them.
pub data Statement : Type 0 where
  deletes : (job : Str) (now : ℕ) → Statement
  inserts updates : (job holder : Str) (expires_at : ℕ) → Statement

unfoldable pub execute : Statement → List Row → List Row
unfolding delete_expired insert renew
execute (deletes job now) rows = delete_expired job now rows
execute (inserts job holder expires_at) rows = insert job holder expires_at rows
execute (updates job holder expires_at) rows = renew job holder expires_at rows

abbrev pub run : List Statement → List Row → List Row
run [] rows = rows
run (s ∷ ss) rows = run ss (execute s rows)
