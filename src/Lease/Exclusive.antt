-- ===== src/Lease/Exclusive.antt =====
-- internal/leaderlease/leaderlease.go: one process at a time holds a job.
use idpforge.Base.{
  ℕ, ◌≤◌, ◌≡◌, refl, sym, ap, ap₂, subst, ◌∙◌, inl, inr, Bool, true, false, ◌&&◌, ◌||◌, List, [],
  ◌∷◌, ◌++◌, All, All-append, In-append_left, Apart, keep-Apart, append-Apart, any, any_iff, keep,
  map, if_cases, arith, Str, str_eq, str_eq-swap, str_eq_iff, Bool-cases,
}
use idpforge.Lease.{
  Row, is_for, is_held, counts, renewed, delete_expired, insert, renew, wins, Statement, deletes,
  inserts, updates, execute, run,
}

abbrev same_job : Row → Row → Bool
same_job r = is_for r.job_name

-- No job has two rows.
abbrev pub OnePerJob : List Row → Type 0
OnePerJob = Apart same_job

same_job-swap : (r s : Row) → same_job r s ≡ same_job s r
same_job-swap r s = str_eq-swap s.job_name r.job_name

-- Every row of the job is the holder's, until an instant at least; and there is one.
abbrev pub Holds : Str → Str → ℕ → List Row → Type 0
Holds job holder until rows =
    (any (is_for job) rows ≡ true)
    × All (λ (r : Row). is_for job r ≡ true → (r.holder_id ≡ holder) × (until ≤ r.expires_at)) rows

renewed-job : (job holder : Str) (e : ℕ) (r : Row) → (renewed job holder e r).job_name ≡ r.job_name
renewed-job job holder e r =
    if_cases (λ (x : Row). x.job_name ≡ r.job_name) (is_held job holder r) _ _ refl refl

any-renew :
    (j job holder : Str) (e : ℕ) (rows : List Row)
    → any (is_for j) (renew job holder e rows) ≡ any (is_for j) rows
unfolding renew
any-renew j job holder e [] = refl
any-renew j job holder e (r ∷ rows) =
    ap₂ (λ a b. str_eq a j || b) (renewed-job job holder e r) (any-renew j job holder e rows)

renew-OnePerJob :
    (job holder : Str) (e : ℕ) (rows : List Row)
    → OnePerJob rows
    → OnePerJob (renew job holder e rows)
unfolding renew
renew-OnePerJob job holder e [] h = tt
renew-OnePerJob job holder e (r ∷ rows) (h, hs) = (
  ap (λ j. any (is_for j) (renew job holder e rows)) (renewed-job job holder e r)
      ∙ any-renew r.job_name job holder e rows
      ∙ h,
  renew-OnePerJob job holder e rows hs,
)

execute-OnePerJob : (s : Statement) (rows : List Row) → OnePerJob rows → OnePerJob (execute s rows)
unfolding execute delete_expired insert
execute-OnePerJob (deletes job now) rows h = keep-Apart same_job _ rows h
execute-OnePerJob (inserts job holder e) rows h = elim (Bool-cases (any (is_for job) rows)) [
  | inl f ↦ rw f h
  | inr f ↦ rw f (
      append-Apart same_job rows (record { job_name = job; holder_id = holder; expires_at = e })
        same_job-swap h f)
]
execute-OnePerJob (updates job holder e) rows h = renew-OnePerJob job holder e rows h

run-OnePerJob : (ss : List Statement) (rows : List Row) → OnePerJob rows → OnePerJob (run ss rows)
run-OnePerJob [] rows h = h
run-OnePerJob (s ∷ ss) rows h = run-OnePerJob ss (execute s rows) (execute-OnePerJob s rows h)

abbrev HeldRow : Str → Str → ℕ → Row → Type 0
HeldRow job holder until r = is_for job r ≡ true → (r.holder_id ≡ holder) × (until ≤ r.expires_at)

no_rows :
    (job holder : Str) (until : ℕ) (rows : List Row)
    → any (is_for job) rows ≡ false
    → All (HeldRow job holder until) rows
no_rows job holder until [] h = tt
no_rows job holder until (r ∷ rows) h = (
  λ e. (let clash : true ≡ false = sym (ap (λ b. b || any (is_for job) rows) e) ∙ h in cc),
  no_rows job holder until rows (ground arith),
)

both : (a b : Bool) → (a && b) ≡ true → (a ≡ true) × (b ≡ true)
both true b e = (refl, e)
both false b e = cc

or_right : (a : Bool) {b : Bool} → b ≡ true → (a || b) ≡ true
or_right true e = refl
or_right false e = e

-- A row that counts for an UPDATE is the holder's.
held_of_wins :
    (counts_changed : Bool) (job holder : Str) (e : ℕ) (rows : List Row)
    → wins counts_changed job holder e rows ≡ true
    → any (is_held job holder) rows ≡ true
unfolding wins
held_of_wins counts_changed job holder e rows w =
    let (r, m, p) = (any_iff (counts counts_changed job holder e) rows).0 w in
    (any_iff (is_held job holder) rows).1 (r, m, (both (is_held job holder r) _ p).0)

-- Who wins a job holds it.
won-Holds :
    (job holder : Str) (e : ℕ) (rows : List Row)
    → OnePerJob rows
    → any (is_held job holder) rows ≡ true
    → Holds job holder e (renew job holder e rows)
unfolding renew
won-Holds job holder e [] h w = cc
won-Holds job holder e (r ∷ rows) (h, hs) w = elim (Bool-cases (is_held job holder r)) [
  | inl f ↦
      let (for_job, by_holder) = both (is_for job r) (str_eq r.holder_id holder) f in
      let name = (str_eq_iff r.job_name job).0 for_job in
      let rest =
        any-renew job job holder e rows ∙ subst (λ j. any (is_for j) rows ≡ false) name h in
      rw f (
        ap (λ b. b || any (is_for job) (map (renewed job holder e) rows)) for_job,
        (
          (λ x. ((str_eq_iff r.holder_id holder).0 by_holder, omega arith)),
          no_rows job holder e _ rest,
        ),
      )
  | inr f ↦
      let (some_row, all_held) = won-Holds job holder e rows hs (ground arith) in
      let is_another : is_for job r ≡ true → true ≡ false = λ x.
        sym some_row
        ∙ any-renew job job holder e rows
        ∙ subst (λ j. any (is_for j) rows ≡ false) ((str_eq_iff r.job_name job).0 x) h in
      rw f (
        or_right (is_for job r) some_row,
        ((λ x. (let clash : true ≡ false = is_another x in cc)), all_held),
      )
]

loses :
    (job holder other : Str) (until : ℕ) (rows : List Row)
    → str_eq holder other ≡ false
    → All (HeldRow job holder until) rows
    → any (is_held job other) rows ≡ false
loses job holder other until [] apart h = refl
loses job holder other until (r ∷ rows) apart (h, hs) =
    let rest = loses job holder other until rows apart hs in
    elim (Bool-cases (is_for job r)) [
      | inl e ↦ rw (e, ap (λ i. str_eq i other) (h e).0 ∙ apart, rest) refl
      | inr e ↦ rw (e, rest) refl
    ]

-- What does not end a lease: no deletion at a later instant, and no shorter renewal.
abbrev pub Keeps : Str → Str → ℕ → Statement → Type 0
Keeps job holder until (deletes j now) = j ≡ job → now ≤ until
Keeps job holder until (inserts j h e) = Unit
Keeps job holder until (updates j h e) = j ≡ job → h ≡ holder → until ≤ e

-- A row of the job that every test passes is kept.
keep-Holds :
    (q : Row → Bool) (job holder : Str) (until : ℕ) (rows : List Row)
    → ((r : Row) → is_for job r ≡ true → until ≤ r.expires_at → q r ≡ true)
    → Holds job holder until rows
    → Holds job holder until (keep q rows)
keep-Holds q job holder until rows passes (some_row, all_held) =
    (kept rows all_held some_row, left rows all_held)
  where
    kept :
        (rows : List Row)
        → All (HeldRow job holder until) rows
        → any (is_for job) rows ≡ true
        → any (is_for job) (keep q rows) ≡ true
    kept [] h e = cc
    kept (r ∷ rows) (h, hs) e = elim (Bool-cases (is_for job r)) [
      | inl f ↦ rw (passes r f (h f).1, f) refl
      | inr f ↦ elim (Bool-cases (q r)) [
        | inl k ↦ rw k (
            or_right (is_for job r)
              (kept rows hs (sym (ap (λ b. b || any (is_for job) rows) f) ∙ e)))
        | inr k ↦ rw k (kept rows hs (sym (ap (λ b. b || any (is_for job) rows) f) ∙ e))
      ]
    ]

    left :
        (rows : List Row)
        → All (HeldRow job holder until) rows
        → All (HeldRow job holder until) (keep q rows)
    left [] h = tt
    left (r ∷ rows) (h, hs) = elim (Bool-cases (q r)) [
      | inl k ↦ rw k (h, left rows hs)
      | inr k ↦ rw k (left rows hs)
    ]

added-Holds :
    (job holder : Str) (until : ℕ) (rows : List Row) (x : Row)
    → is_for job x ≡ false
    → any (is_for job) rows ≡ true
    → All (HeldRow job holder until) rows
    → Holds job holder until (rows ++ x ∷ [])
added-Holds job holder until rows x f e h =
    let (r, m, p) = (any_iff (is_for job) rows).0 e in
    (
      (any_iff (is_for job) (rows ++ x ∷ [])).1 (r, In-append_left r rows (x ∷ []) m, p),
      All-append (HeldRow job holder until) rows (x ∷ []) h
          ((λ g. (let clash : true ≡ false = sym g ∙ f in cc)), tt),
    )

renewed-Held :
    (job holder : Str) (until : ℕ) (j i : Str) (e : ℕ)
    → (j ≡ job → i ≡ holder → until ≤ e)
    → (rows : List Row) → All (HeldRow job holder until) rows
    → All (HeldRow job holder until) (renew j i e rows)
unfolding renew
renewed-Held job holder until j i e k [] h = tt
renewed-Held job holder until j i e k (r ∷ rows) (h, hs) = (
  elim (Bool-cases (is_held j i r)) [
    | inl f ↦
        let (for_job, by_holder) = both (is_for j r) (str_eq r.holder_id i) f in
        rw f (λ x. (
          (h x).0,
          k (sym ((str_eq_iff r.job_name j).0 for_job) ∙ (str_eq_iff r.job_name job).0 x)
              (sym ((str_eq_iff r.holder_id i).0 by_holder) ∙ (h x).0),
        ))
    | inr f ↦ rw f h
  ],
  renewed-Held job holder until j i e k rows hs,
)

execute-Holds :
    (job holder : Str) (until : ℕ) (s : Statement) (rows : List Row)
    → Keeps job holder until s
    → Holds job holder until rows
    → Holds job holder until (execute s rows)
unfolding execute delete_expired insert renew
execute-Holds job holder until (deletes j now) rows k h =
    keep-Holds _ job holder until rows
      (λ r f le. elim (Bool-cases (is_for j r)) [
        | inl g ↦
            let early = k (sym ((str_eq_iff r.job_name j).0 g) ∙ (str_eq_iff r.job_name job).0 f) in
            rw g (ground arith)
        | inr g ↦ rw g refl
      ])
      h
execute-Holds job holder until (inserts j i e) rows k h = elim (Bool-cases (any (is_for j) rows)) [
  | inl g ↦ rw g h
  | inr g ↦ elim (Bool-cases (str_eq j job)) [
    | inl f ↦
        let clash : true ≡ false =
          sym h.0 ∙ subst (λ n. any (is_for n) rows ≡ false) ((str_eq_iff j job).0 f) g in
        cc
    | inr f ↦ rw g (added-Holds job holder until rows _ f h.0 h.1)
  ]
]
execute-Holds job holder until (updates j i e) rows k (some_row, all_held) =
    (any-renew job j i e rows ∙ some_row, renewed-Held job holder until j i e k rows all_held)

run-Holds :
    (job holder : Str) (until : ℕ) (ss : List Statement) (rows : List Row)
    → All (Keeps job holder until) ss
    → Holds job holder until rows
    → Holds job holder until (run ss rows)
run-Holds job holder until [] rows k h = h
run-Holds job holder until (s ∷ ss) rows (k, ks) h =
    run-Holds job holder until ss (execute s rows) ks (execute-Holds job holder until s rows k h)

-- While a process holds a lease, no other gets it: whatever statements the processes sent before,
-- when the UPDATE of a holder reports that it has the job until an instant, then no UPDATE of
-- another reports the same, as long as no process deletes at a later instant and the holder's own
-- renewals do not shorten the lease. It holds on drivers that count the rows that an UPDATE finds
-- and on those that count the rows that it changes.
pub lease_is_exclusive :
    (counts_changed : Bool) (job holder other : Str) (until wanted : ℕ)
    (before after : List Statement)
    → str_eq holder other ≡ false
    → wins counts_changed job holder until (run before []) ≡ true
    → All (Keeps job holder until) after
    → wins counts_changed job other wanted (run after (renew job holder until (run before [])))
      ≡ false
lease_is_exclusive counts_changed job holder other until wanted before after apart won kept =
    let rows = run before [] in
    let end = run after (renew job holder until rows) in
    let held =
      won-Holds job holder until rows (run-OnePerJob before [] tt)
        (held_of_wins counts_changed job holder until rows won) in
    let still = run-Holds job holder until after (renew job holder until rows) kept held in
    let none_held = loses job holder other until end apart still.1 in
    elim (Bool-cases (wins counts_changed job other wanted end)) [
      | inl w ↦
          let clash : true ≡ false =
            sym (held_of_wins counts_changed job other wanted end w) ∙ none_held in
          cc
      | inr w ↦ w
    ]
