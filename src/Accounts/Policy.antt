-- ===== src/Accounts/Policy.antt =====
-- internal/users/policy.go: the passwords that the policy lets pass.
use idpforge.Base.{
  ◌≡◌, refl, ◌∙◌, ◌↔◌, Bool, true, false, not, ◌&&◌, ◌||◌, none, [], ◌∷◌, Str, any, arith, ◌≤◌,
  Bool-cases, inl, inr, ℕ, str_eq,
}
use idpforge.Accounts.{
  PasswordPolicy, Classes, special, byte_length, flag, flags, Flags, no_flags, validate_password,
}

-- The class of a character: the first that the switch names.
abbrev pub counts_special : Classes → ℕ → Bool
counts_special u c =
    not (u.is_upper c)
    && not (u.is_lower c)
    && not (u.is_number c)
    && any (λ d. str_eq (d ∷ []) (c ∷ [])) special

abbrev pub counts_lower : Classes → ℕ → Bool
counts_lower u c = not (u.is_upper c) && u.is_lower c

abbrev pub counts_number : Classes → ℕ → Bool
counts_number u c = not (u.is_upper c) && not (u.is_lower c) && u.is_number c

-- What a set of flags says of a text that has been read.
abbrev Says : Classes → Flags → Str → Flags → Type 0
Says u f s g =
    (g.has_upper ≡ (f.has_upper || any u.is_upper s))
    × (g.has_lower ≡ (f.has_lower || any (counts_lower u) s))
    × (g.has_number ≡ (f.has_number || any (counts_number u) s))
    × (g.has_special ≡ (f.has_special || any (counts_special u) s))

flag-Says : (u : Classes) (c : ℕ) (f : Flags) → Says u f (c ∷ []) (flag u c f)
unfolding flag
flag-Says u c f = elim (Bool-cases (u.is_upper c)) [
  | inl a ↦ rw a (or_true _, or_false _, or_false _, or_false _)
  | inr a ↦ elim (Bool-cases (u.is_lower c)) [
    | inl b ↦ rw (a, b) (or_false _, or_true _, or_false _, or_false _)
    | inr b ↦ elim (Bool-cases (u.is_number c)) [
      | inl d ↦ rw (a, b, d) (or_false _, or_false _, or_true _, or_false _)
      | inr d ↦ elim (Bool-cases (any (λ e. str_eq (e ∷ []) (c ∷ [])) special)) [
        | inl e ↦ rw (a, b, d, e) (or_false _, or_false _, or_false _, or_true _)
        | inr e ↦ rw (a, b, d, e) (or_false _, or_false _, or_false _, or_false _)
      ]
    ]
  ]
]
  where
    or_true : (b : Bool) → true ≡ (b || true)
    or_true true = refl
    or_true false = refl

    or_false : (b : Bool) → b ≡ (b || false)
    or_false true = refl
    or_false false = refl

-- The loop sets a flag exactly where a character of the class stands.
flags-Says : (u : Classes) (s : Str) (f : Flags) → Says u f s (flags u s f)
unfolding flags
flags-Says u [] f = (or_false _, or_false _, or_false _, or_false _)
  where
    or_false : (b : Bool) → b ≡ (b || false)
    or_false true = refl
    or_false false = refl
flags-Says u (c ∷ s) f =
    let (a, b, d, e) = flag-Says u c f in
    let (x, y, z, w) = flags-Says u s (flag u c f) in
    (
      x ∙ join f.has_upper (u.is_upper c) (any u.is_upper s) (flag u c f).has_upper a,
      y ∙ join f.has_lower (counts_lower u c) (any (counts_lower u) s) (flag u c f).has_lower b,
      z ∙ join f.has_number (counts_number u c) (any (counts_number u) s) (flag u c f).has_number d,
      w
          ∙ join f.has_special (counts_special u c) (any (counts_special u) s)
              (flag u c f).has_special e,
    )
  where
    join : (q r t p : Bool) → p ≡ (q || (r || false)) → (p || t) ≡ (q || (r || t))
    join q r t p h = ground arith

-- A password passes exactly where it has the bytes that the policy asks for, and a character of
-- every class that it asks for; a character belongs to the first class that the code tests.
pub validate_password_iff :
    (u : Classes) (password : Str) (policy : PasswordPolicy)
    → (validate_password u password policy ≡ none) ↔ (
        (policy.min_length ≤ byte_length password)
        × ((not policy.require_uppercase || any u.is_upper password) ≡ true)
        × ((not policy.require_lowercase || any (counts_lower u) password) ≡ true)
        × ((not policy.require_number || any (counts_number u) password) ≡ true)
        × ((not policy.require_special || any (counts_special u) password) ≡ true))
unfolding validate_password
validate_password_iff u password policy =
    let (a, b, d, e) = flags-Says u password no_flags in
    rw (a, b, d, e)
      (
        λ h. (ground arith, ground arith, ground arith, ground arith, ground arith),
        λ (l, x, y, z, w). ground arith,
      )
