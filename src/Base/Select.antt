-- ===== src/Base/Select.antt =====
-- Membership in lists that are filtered, mapped and tested.
use mathlib.Core.Path.{◌≡◌, refl, ap, sym, ◌∙◌}
use mathlib.Core.Logic.{inl, inr, ◌↔◌}
use mathlib.Core.Bool.{Bool, true, false}
use mathlib.Core.List.{List, [], ◌∷◌, ◌++◌, map}
use native.Mathlib.Omega.{arith}
use idpforge.Base.Tests.{if◌then◌else◌, Bool-cases}
use idpforge.Base.Lists.{In, keep, any}

module _ {A : Type 0} (p : A → Bool) where
  In-keep_from : (xs : List A) (a : A) → In a (keep p xs) → In a xs × (p a ≡ true)
  In-keep_from [] a m = elim m [ ]
  In-keep_from (x ∷ xs) a m = kept (p x) refl m (In-keep_from xs a)
    where
      kept :
          (b : Bool)
          → p x ≡ b
          → In a (if b then x ∷ keep p xs else keep p xs)
          → (In a (keep p xs) → In a xs × (p a ≡ true))
          → In a (x ∷ xs) × (p a ≡ true)
      kept true h (inl e) ih = (inl e, ap p e ∙ h)
      kept true h (inr m) ih = (inr (ih m).0, (ih m).1)
      kept false h m ih = (inr (ih m).0, (ih m).1)

  In-keep_to : (xs : List A) (a : A) → In a xs → p a ≡ true → In a (keep p xs)
  In-keep_to [] a m h = elim m [ ]
  In-keep_to (x ∷ xs) a (inl e) h = rw (sym (ap p e) ∙ h) (inl e)
  In-keep_to (x ∷ xs) a (inr m) h = elim (Bool-cases (p x)) [
    | inl e ↦ rw e (inr (In-keep_to xs a m h))
    | inr e ↦ rw e (In-keep_to xs a m h)
  ]

  pub In-keep : (xs : List A) (a : A) → In a (keep p xs) ↔ (In a xs × (p a ≡ true))
  In-keep xs a = (In-keep_from xs a, λ (m, h). In-keep_to xs a m h)

  any_to : (xs : List A) → any p xs ≡ true → (a : A) × In a xs × (p a ≡ true)
  any_to [] h = cc
  any_to (x ∷ xs) h = elim (Bool-cases (p x)) [
    | inl e ↦ (x, inl refl, e)
    | inr e ↦ let (a, m, q) = any_to xs (ground arith) in (a, inr m, q)
  ]

  any_from : (xs : List A) (a : A) → In a xs → p a ≡ true → any p xs ≡ true
  any_from [] a m h = elim m [ ]
  any_from (x ∷ xs) a (inl e) h = rw (sym (ap p e) ∙ h)
  any_from (x ∷ xs) a (inr m) h = ground (arith, any_from xs a m h)

  pub any_iff : (xs : List A) → (any p xs ≡ true) ↔ ((a : A) × In a xs × (p a ≡ true))
  any_iff xs = (any_to xs, λ (a, m, h). any_from xs a m h)

module _ {A B : Type 0} (f : A → B) where
  In-map_from : (xs : List A) (b : B) → In b (map f xs) → (a : A) × In a xs × (b ≡ f a)
  In-map_from [] b m = elim m [ ]
  In-map_from (x ∷ xs) b (inl e) = (x, inl refl, e)
  In-map_from (x ∷ xs) b (inr m) = let (a, l, e) = In-map_from xs b m in (a, inr l, e)

  In-map_to : (xs : List A) (a : A) (b : B) → In a xs → b ≡ f a → In b (map f xs)
  In-map_to [] a b m e = elim m [ ]
  In-map_to (x ∷ xs) a b (inl h) e = inl (e ∙ ap f h)
  In-map_to (x ∷ xs) a b (inr m) e = inr (In-map_to xs a b m e)

  pub In-map : (xs : List A) (b : B) → In b (map f xs) ↔ ((a : A) × In a xs × (b ≡ f a))
  In-map xs b = (In-map_from xs b, λ (a, m, e). In-map_to xs a b m e)

module _ {ℓ} {A : Type ℓ} (p : A → Bool) where
  pub keep-append : (xs ys : List A) → keep p (xs ++ ys) ≡ keep p xs ++ keep p ys
  keep-append [] ys = refl
  keep-append (x ∷ xs) ys = elim (Bool-cases (p x)) [
    | inl e ↦ rw (e, keep-append xs ys)
    | inr e ↦ rw (e, keep-append xs ys)
  ]

  -- A second filter that the first one implies changes nothing.
  pub keep_of_imp :
      (q : A → Bool) (xs : List A)
      → ((x : A) → p x ≡ true → q x ≡ true)
      → keep p (keep q xs) ≡ keep p xs
  keep_of_imp q [] h = refl
  keep_of_imp q (x ∷ xs) h = elim (Bool-cases (q x)) [
    | inl e ↦ rw (e, keep_of_imp q xs h)
    | inr e ↦ elim (Bool-cases (p x)) [
      | inl f ↦ cc (h x f)
      | inr f ↦ rw (e, f) (keep_of_imp q xs h)
    ]
  ]
