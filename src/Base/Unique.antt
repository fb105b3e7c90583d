-- ===== src/Base/Unique.antt =====
-- Lists no two elements of which are the same in some respect, as a unique column keeps them.
use mathlib.Core.Path.{◌≡◌, refl, ◌∙◌}
use mathlib.Core.Logic.{inl, inr}
use mathlib.Core.Bool.{Bool, true, false, ◌||◌}
use mathlib.Core.List.{List, [], ◌∷◌, ◌++◌}
use native.Mathlib.Omega.{arith}
use idpforge.Base.Tests.{Bool-cases}
use idpforge.Base.Lists.{keep, any}

module _ {A : Type 0} (same : A → A → Bool) where
  abbrev pub Apart : List A → Type 0
  Apart [] = Unit
  Apart (x ∷ xs) = (any (same x) xs ≡ false) × Apart xs

  any-append :
      (p : A → Bool) (xs : List A) (x : A)
      → any p xs ≡ false
      → p x ≡ false
      → any p (xs ++ x ∷ []) ≡ false
  any-append p [] x h k = ground arith
  any-append p (y ∷ xs) x h k = ground (arith, any-append p xs x)

  any-keep : (p q : A → Bool) (xs : List A) → any p xs ≡ false → any p (keep q xs) ≡ false
  any-keep p q [] h = refl
  any-keep p q (x ∷ xs) h = elim (Bool-cases (q x)) [
    | inl e ↦ ground (arith, any-keep p q xs)
    | inr e ↦ ground (arith, any-keep p q xs)
  ]

  pub keep-Apart : (q : A → Bool) (xs : List A) → Apart xs → Apart (keep q xs)
  keep-Apart q [] h = tt
  keep-Apart q (x ∷ xs) (h, hs) = elim (Bool-cases (q x)) [
    | inl e ↦ rw e (any-keep (same x) q xs h, keep-Apart q xs hs)
    | inr e ↦ rw e (keep-Apart q xs hs)
  ]

  neither : (a b : Bool) → (a || b) ≡ false → (a ≡ false) × (b ≡ false)
  neither true b e = cc
  neither false b e = (refl, e)

  pub append-Apart :
      (xs : List A) (x : A)
      → ((y z : A) → same y z ≡ same z y)
      → Apart xs
      → any (same x) xs ≡ false
      → Apart (xs ++ x ∷ [])
  append-Apart [] x swap h k = (refl, tt)
  append-Apart (y ∷ xs) x swap (h, hs) k =
      let (apart, rest) = neither (same x y) (any (same x) xs) k in
      (any-append (same y) xs x h (swap y x ∙ apart), append-Apart xs x swap hs rest)
