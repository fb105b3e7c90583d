-- ===== src/Lease/Tests.antt =====
-- Two processes and one job.
use idpforge.Base.{◌≡◌, refl, inl, true, false, not, ◌||◌, List, [], ◌∷◌, Str, codes, str_eq, arith}
use idpforge.Lease.{
  Row, wins, renew, run, try_acquire, Statement, deletes, inserts, updates, execute, insert,
  delete_expired,
}
use idpforge.Lease.Free.{free_job_is_won}
use idpforge.Lease.Exclusive.{lease_is_exclusive}

abbrev job : Str
job = codes "update-checker"

-- Both processes delete, then both insert.
abbrev before : List Statement
before =
    deletes job 10 ∷ deletes job 11 ∷ inserts job (codes "a") 70 ∷ inserts job (codes "b") 71 ∷ []

abbrev after : List Statement
after = updates job (codes "b") 71 ∷ deletes job 65 ∷ inserts job (codes "b") 125 ∷ []

other_process : str_eq (codes "a") (codes "b") ≡ false
unfolding str_eq
other_process = refl

a_wins : wins true job (codes "a") 71 (run before []) ≡ true
unfolding wins execute insert delete_expired str_eq
a_wins = refl

lease_is_exclusive_example :
    wins true job (codes "b") 125 (run after (renew job (codes "a") 71 (run before []))) ≡ false
lease_is_exclusive_example =
    lease_is_exclusive true job (codes "a") (codes "b") 71 125 before after other_process a_wins
      ((λ e h. omega arith), ((λ e. omega arith), (tt, tt)))

-- The lease of "a" has run out, and MySQL does not report that of "b".
abbrev left_over : List Row
left_over = record { job_name = job; holder_id = codes "a"; expires_at = 70 } ∷ []

free_job_is_won_example :
    (try_acquire true 80 140 job (codes "b") left_over).1
    ≡ (not true || wins true job (codes "b") 140 (delete_expired job 80 left_over))
free_job_is_won_example =
    free_job_is_won true 80 140 job (codes "b") left_over ((λ e. inl (omega arith)), tt)

fresh_lease_is_refused : (try_acquire true 80 140 job (codes "b") left_over).1 ≡ false
unfolding try_acquire insert delete_expired wins str_eq
fresh_lease_is_refused = refl
