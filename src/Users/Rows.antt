-- ===== src/Users/Rows.antt =====
-- internal/users/repository.go: what a query finds after an update of a row.
use idpforge.Base.{
  ◌≡◌, refl, Bool, true, Option, none, some, List, [], ◌∷◌, Str, if◌then◌else◌, Bool-cases, inl,
  inr, arith, any,
}
use idpforge.Users.{User, Account, find, user_of, with_id, update_row}

-- The update of a row, if it is the one that is found.
abbrev pub updated : (Account → Account) → Str → Option Account → Option Account
updated f id none = none
updated f id (some a) = some (if with_id id a then f a else a)

-- A query that reads nothing of what an update writes finds the same row, updated.
pub find-update_row :
    (p : Account → Bool) (f : Account → Account) (id : Str) (rows : List Account)
    → ((a : Account) → p (f a) ≡ p a)
    → find p (update_row f id rows) ≡ updated f id (find p rows)
unfolding find update_row
find-update_row p f id [] h = refl
find-update_row p f id (a ∷ rows) h = elim (Bool-cases (with_id id a)) [
  | inl e ↦ elim (Bool-cases (p a)) [
    | inl q ↦ rw (e, h a, q, e)
    | inr q ↦ rw (e, h a, q) (find-update_row p f id rows h)
  ]
  | inr e ↦ elim (Bool-cases (p a)) [
    | inl q ↦ rw (e, q, e)
    | inr q ↦ rw (e, q) (find-update_row p f id rows h)
  ]
]

pub find_sound :
    (p : Account → Bool) (rows : List Account) (a : Account) → find p rows ≡ some a → p a ≡ true
unfolding find
find_sound p [] a h = cc
find_sound p (b ∷ rows) a h = elim (Bool-cases (p b)) [
  | inl q ↦ ground arith
  | inr q ↦ find_sound p rows a (ground arith)
]

pub user_of_inv :
    (o : Option Account) (u : User)
    → user_of o ≡ some u
    → (a : Account) × (o ≡ some a) × (a.user ≡ u)
user_of_inv none u h = cc
user_of_inv (some a) u h = (a, refl, ground arith)

pub any-update_row :
    (p : Account → Bool) (f : Account → Account) (id : Str) (rows : List Account)
    → ((a : Account) → p (f a) ≡ p a)
    → any p (update_row f id rows) ≡ any p rows
unfolding update_row
any-update_row p f id [] h = refl
any-update_row p f id (a ∷ rows) h = elim (Bool-cases (with_id id a)) [
  | inl e ↦ rw (e, h a, any-update_row p f id rows h)
  | inr e ↦ rw (e, any-update_row p f id rows h)
]
