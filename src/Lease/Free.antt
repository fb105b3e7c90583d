-- ===== src/Lease/Free.antt =====
-- internal/leaderlease/leaderlease.go: a process on its own gets a job that nobody else holds.
use idpforge.Base.{
  ℕ, ◌<◌, ◌≡◌, ◌⊎◌, refl, sym, ap, ap₂, subst, inl, inr, Bool, true, false, not, ◌&&◌, ◌||◌, List,
  [], ◌∷◌, ◌++◌, All, In, In-append_right, In-keep, any, any_iff, ltb, arith, Str, str_eq_refl,
  str_eq_iff, Bool-cases,
}
use idpforge.Lease.{Row, is_for, is_held, counts, delete_expired, insert, wins, try_acquire}

-- The job is free for a process: each row of it has run out, or is the process's own.
abbrev pub FreeFor : ℕ → Str → Str → List Row → Type 0
FreeFor now job holder =
    All (λ (r : Row). is_for job r ≡ true → (r.expires_at < now) ⊎ (r.holder_id ≡ holder))

at : (P : Row → Type 0) (rows : List Row) (r : Row) → All P rows → In r rows → P r
at P [] r h m = elim m [ ]
at P (s ∷ rows) r (h, hs) (inl e) = subst P (sym e) h
at P (s ∷ rows) r (h, hs) (inr m) = at P rows r hs m

live_rows_held :
    (now : ℕ) (job holder : Str) (rows : List Row)
    → FreeFor now job holder rows
    → any (is_for job) (delete_expired job now rows) ≡ true
    → any (is_held job holder) (delete_expired job now rows) ≡ true
unfolding delete_expired
live_rows_held now job holder rows free e =
    let (r, m, p) = (any_iff (is_for job) (delete_expired job now rows)).0 e in
    let (there, alive) =
      (In-keep (λ (r : Row). not (is_for job r && ltb r.expires_at now)) rows r).0 m in
    (any_iff (is_held job holder) (delete_expired job now rows)).1 (
      r,
      m,
      elim (at _ rows r free there p) [
        | inl dead ↦ absurd (expired r p dead alive)
        | inr own ↦ ap₂ (λ a b. a && b) p ((str_eq_iff r.holder_id holder).1 own)
      ],
    )
  where
    expired :
        (r : Row)
        → is_for job r ≡ true
        → r.expires_at < now
        → not (is_for job r && ltb r.expires_at now) ≡ true
        → ⊥
    expired r p dead alive = ground arith

all_counts :
    (job holder : Str) (until : ℕ) (rows : List Row)
    → any (is_held job holder) rows ≡ true
    → wins false job holder until rows ≡ true
unfolding wins
all_counts job holder until rows h =
    let (r, m, p) = (any_iff (is_held job holder) rows).0 h in
    (any_iff (counts false job holder until) rows).1 (r, m, ap (λ b. b && true) p)

wins-append_same :
    (job holder : Str) (until : ℕ) (rows : List Row)
    → wins true job holder until
        (rows ++ record { job_name = job; holder_id = holder; expires_at = until } ∷ [])
      ≡ wins true job holder until rows
unfolding wins
wins-append_same job holder until [] = ground arith
wins-append_same job holder until (r ∷ rows) =
    ap (λ b. counts true job holder until r || b) (wins-append_same job holder until rows)

-- A process on its own gets a job that is free for it where the driver counts the rows that an
-- UPDATE finds. Where it counts those that the UPDATE changes, the process gets the job only if it
-- holds a lease already, with another time: a lease that was just inserted is not reported.
pub free_job_is_won :
    (counts_changed : Bool) (now until : ℕ) (job holder : Str) (rows : List Row)
    → FreeFor now job holder rows
    → (try_acquire counts_changed now until job holder rows).1
      ≡ (not counts_changed || wins true job holder until (delete_expired job now rows))
unfolding try_acquire insert
free_job_is_won true now until job holder rows free =
    elim (Bool-cases (any (is_for job) (delete_expired job now rows))) [
      | inl e ↦ rw e refl
      | inr e ↦ rw e (wins-append_same job holder until (delete_expired job now rows))
    ]
free_job_is_won false now until job holder rows free =
    elim (Bool-cases (any (is_for job) (delete_expired job now rows))) [
      | inl e ↦ rw e (
          all_counts job holder until (delete_expired job now rows)
            (live_rows_held now job holder rows free e))
      | inr e ↦ rw e (
          all_counts job holder until _ (
            (any_iff (is_held job holder) _).1 (
              _,
              In-append_right _ (delete_expired job now rows) _ (inl refl),
              ap₂ (λ a b. a && b) (str_eq_refl job) (str_eq_refl holder),
            )))
    ]
