-- ===== src/Base/Text.antt =====
-- Text as the list of its code units, which the program walks, cuts and compares.
use Prim.Native.Char.{code}
use Prim.Native.String.{String}
use Prim.Native.Nat.{ℕ}
use mathlib.Core.Path.{◌≡◌, refl, ap, sym}
use mathlib.Core.Logic.{◌⊎◌, inl, inr, ◌↔◌, ◌≢◌}
use mathlib.Core.Bool.{Bool, true, false, ◌&&◌}
use mathlib.Core.Option.{Option, none, some}
use mathlib.Core.List.{List, [], ◌∷◌, ◌++◌}
use native.Mathlib.Omega.{arith}
use idpforge.Base.Tests.{◌==◌, if◌then◌else◌, Bool-cases, Option-cases}
use idpforge.Base.Lists.{length, length-append, In}

abbrev pub Str : Type 0
Str = List ℕ

-- A literal as its code units.
abbrev pub codes : String → Str
codes String.[] = []
codes (String.◌∷◌ c s) = code c ∷ codes s

unfoldable pub str_eq : Str → Str → Bool
str_eq [] [] = true
str_eq (x ∷ xs) (y ∷ ys) = (x == y) && str_eq xs ys
str_eq _ _ = false

pub str_eq_iff : (s t : Str) → (str_eq s t ≡ true) ↔ (s ≡ t)
unfolding str_eq
str_eq_iff [] [] = ground arith
str_eq_iff [] (y ∷ ys) = ground arith
str_eq_iff (x ∷ xs) [] = ground arith
str_eq_iff (x ∷ xs) (y ∷ ys) = ground (arith, str_eq_iff xs ys)

pub str_eq-swap : (s t : Str) → str_eq s t ≡ str_eq t s
unfolding str_eq
str_eq-swap [] [] = refl
str_eq-swap [] (y ∷ t) = refl
str_eq-swap (x ∷ s) [] = refl
str_eq-swap (x ∷ s) (y ∷ t) = ground (arith, str_eq-swap s t)

pub str_eq_refl : (s : Str) → str_eq s s ≡ true
str_eq_refl s = (str_eq_iff s s).1 refl

-- `strings.HasPrefix`, `startsWith`.
unfoldable pub has_prefix : Str → Str → Bool
has_prefix s [] = true
has_prefix [] (p ∷ ps) = false
has_prefix (c ∷ s) (p ∷ ps) = (c == p) && has_prefix s ps

-- What is left of a text behind a prefix that it has.
prefix_rest : (s p : Str) → has_prefix s p ≡ true → (r : Str) × (s ≡ p ++ r)
unfolding has_prefix
prefix_rest s [] h = (s, refl)
prefix_rest [] (q ∷ p) h = cc
prefix_rest (c ∷ s) (q ∷ p) h = let (r, e) = prefix_rest s p (ground arith) in (r, ground arith)

pub has_prefix-append : (p r : Str) → has_prefix (p ++ r) p ≡ true
unfolding has_prefix
has_prefix-append [] r = refl
has_prefix-append (q ∷ p) r = ground (arith, has_prefix-append p r)

pub has_prefix_iff : (s p : Str) → (has_prefix s p ≡ true) ↔ ((r : Str) × (s ≡ p ++ r))
has_prefix_iff s p = (prefix_rest s p, λ (r, e). rw e (has_prefix-append p r))

-- A character put before the first part of a pair of parts, or before a text.
abbrev pub onto_first : ℕ → Option (Str × Str) → Option (Str × Str)
onto_first c none = none
onto_first c (some (a, b)) = some (c ∷ a, b)

abbrev pub onto : ℕ → Option Str → Option Str
onto c none = none
onto c (some s) = some (c ∷ s)

-- `strings.Cut` by one character: the parts before and behind its first place.
unfoldable pub cut : ℕ → Str → Option (Str × Str)
cut sep [] = none
cut sep (c ∷ s) = if c == sep then some ([], s) else onto_first c (cut sep s)

-- `strings.CutSuffix`: the part before a suffix that the text has.
unfoldable pub cut_suffix : Str → Str → Option Str
unfolding str_eq
cut_suffix [] suffix = if str_eq [] suffix then some [] else none
cut_suffix (c ∷ s) suffix = if str_eq (c ∷ s) suffix then some [] else onto c (cut_suffix s suffix)

-- A text without the character.
abbrev pub Free : ℕ → Str → Type 0
Free sep [] = Unit
Free sep (c ∷ s) = (c ≢ sep) × Free sep s

pub cut-append : (sep : ℕ) (a b : Str) → Free sep a → cut sep (a ++ sep ∷ b) ≡ some (a, b)
unfolding cut
cut-append sep [] b f = ground arith
cut-append sep (c ∷ a) b f = ground (arith, cut-append sep a b f.1)

pub cut_sound : (sep : ℕ) (s a b : Str) → cut sep s ≡ some (a, b) → (s ≡ a ++ sep ∷ b) × Free sep a
unfolding cut
cut_sound sep [] a b h = cc
cut_sound sep (c ∷ s) a b h = elim (Bool-cases (c == sep)) [
  | inl same ↦ ground arith
  | inr other ↦ elim (Option-cases (cut sep s)) [
    | inl missed ↦ ground arith
    | inr ((d, e), found) ↦ ground (arith, cut_sound sep s d e found)
  ]
]

-- The parts before and behind the last place, as `splitScope` finds them from the right.
unfoldable pub cut_last : ℕ → Str → Option (Str × Str)
cut_last sep [] = none
cut_last sep (c ∷ s) = elim (cut_last sep s) [
  | some (a, b) ↦ some (c ∷ a, b)
  | none ↦ if c == sep then some ([], s) else none
]

pub cut_last-Free : (sep : ℕ) (s : Str) → Free sep s → cut_last sep s ≡ none
unfolding cut_last
cut_last-Free sep [] f = refl
cut_last-Free sep (c ∷ s) f = ground (arith, cut_last-Free sep s f.1)

pub cut_last-append : (sep : ℕ) (a b : Str) → Free sep b → cut_last sep (a ++ sep ∷ b) ≡ some (a, b)
unfolding cut_last
cut_last-append sep [] b f = ground (arith, cut_last-Free sep b f)
cut_last-append sep (c ∷ a) b f = rw (cut_last-append sep a b f)

cut_suffix_sound : (s suffix p : Str) → cut_suffix s suffix ≡ some p → s ≡ p ++ suffix
unfolding cut_suffix
cut_suffix_sound [] suffix p h = ground (arith, str_eq_iff [] suffix)
cut_suffix_sound (c ∷ s) suffix p h = elim (Option-cases (cut_suffix s suffix)) [
  | inl missed ↦ ground (arith, str_eq_iff (c ∷ s) suffix)
  | inr (q, found) ↦ ground (arith, str_eq_iff (c ∷ s) suffix, cut_suffix_sound s suffix q found)
]

longer : (c : ℕ) (p suffix : Str) → c ∷ p ++ suffix ≢ suffix
longer c p suffix e = omega (arith, ap (length {0}) e, length-append p suffix)

pub cut_suffix-append : (p suffix : Str) → cut_suffix (p ++ suffix) suffix ≡ some p
unfolding cut_suffix
cut_suffix-append [] [] = refl
cut_suffix-append [] (c ∷ s) = rw (str_eq_refl (c ∷ s))
cut_suffix-append (c ∷ p) suffix =
    ground
      (arith, str_eq_iff (c ∷ (p ++ suffix)) suffix, longer c p suffix, cut_suffix-append p suffix)

-- The part before a suffix is found exactly where the text ends in the suffix.
pub cut_suffix_iff : (s suffix p : Str) → (cut_suffix s suffix ≡ some p) ↔ (s ≡ p ++ suffix)
cut_suffix_iff s suffix p = (cut_suffix_sound s suffix p, λ e. rw e (cut_suffix-append p suffix))

-- Two ways to split one text: the longer first part continues the shorter.
pub append_split :
    (p a q b : Str)
    → p ++ a ≡ q ++ b
    → ((t : Str) × (q ≡ p ++ t) × (a ≡ t ++ b)) ⊎ ((t : Str) × (p ≡ q ++ t) × (b ≡ t ++ a))
append_split [] a q b e = inl (q, refl, e)
append_split (c ∷ p) a [] b e = inr (c ∷ p, refl, sym e)
append_split (c ∷ p) a (d ∷ q) b e = elim (append_split p a q b (ground arith)) [
  | inl (t, l, r) ↦ inl (t, ground arith, r)
  | inr (t, l, r) ↦ inr (t, ground arith, r)
]

-- A list read as a set of texts.
abbrev pub member : Str → List Str → Bool
member k [] = false
member k (x ∷ xs) = if str_eq k x then true else member k xs

member-In : (k : Str) (xs : List Str) → member k xs ≡ true → In k xs
member-In k [] h = cc
member-In k (x ∷ xs) h = elim (Bool-cases (str_eq k x)) [
  | inl e ↦ inl ((str_eq_iff k x).0 e)
  | inr e ↦ inr (member-In k xs (ground arith))
]

In-member : (k : Str) (xs : List Str) → In k xs → member k xs ≡ true
In-member k [] m = elim m [ ]
In-member k (x ∷ xs) (inl e) = ground (arith, str_eq_iff k x)
In-member k (x ∷ xs) (inr m) = ground (arith, In-member k xs m)

pub member_iff : (k : Str) (xs : List Str) → (member k xs ≡ true) ↔ In k xs
member_iff k xs = (member-In k xs, In-member k xs)

abbrev pub is_empty : Str → Bool
is_empty [] = true
is_empty (c ∷ s) = false
