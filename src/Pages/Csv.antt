-- ===== src/Pages/Csv.antt =====
-- `splitCSV` of web/app/(app)/iot/page.tsx, which api-clients/page.tsx writes out: the entries of a
-- text between commas.
use idpforge.Base.{
  ℕ, ◌≡◌, refl, ap, ◌∙◌, Bool, false, not, ◌&&◌, ◌||◌, List, [], ◌∷◌, ◌++◌, All, Str, is_empty,
  if◌then◌else◌, leb, ◌==◌, arith, keep, map, Free,
}

-- What `String.prototype.trim` takes off.
unfoldable pub is_space : ℕ → Bool
is_space c =
    (leb 9 c && leb c 13)
    || c == 32
    || c == 160
    || c == 5760
    || (leb 8192 c && leb c 8202)
    || c == 8232
    || c == 8233
    || c == 8239
    || c == 8287
    || c == 12288
    || c == 65279

-- Takes the white space off the front.
unfoldable pub trim_start : Str → Str
trim_start [] = []
trim_start (c ∷ s) = let rest = trim_start s in if is_space c then rest else c ∷ s

-- Takes it off the end.
unfoldable pub trim_end : Str → Str
trim_end [] = []
trim_end (c ∷ s) = let rest = trim_end s in if is_space c && is_empty rest then [] else c ∷ rest

unfoldable pub trim : Str → Str
unfolding trim_start trim_end
trim s = trim_end (trim_start s)

abbrev pub comma : ℕ
comma = b','

abbrev pub on_head : ℕ → List Str → List Str
on_head c [] = (c ∷ []) ∷ []
on_head c (x ∷ xs) = (c ∷ x) ∷ xs

-- `split(",")`
unfoldable pub split : Str → List Str
split [] = [] ∷ []
split (c ∷ s) = let rest = split s in if c == comma then [] ∷ rest else on_head c rest

unfoldable pub split_csv : Str → List Str
unfolding split trim
split_csv s = keep (λ v. not (is_empty v)) (map trim (split s))

-- An entry that is its own trimming, not empty, and without a comma.
pub record IsEntry (v : Str) : Type 0 where
  pub trimmed : trim v ≡ v
  pub filled : is_empty v ≡ false
  pub one : Free comma v

-- `join(", ")`
unfoldable pub join : List Str → Str
join [] = []
join (x ∷ []) = x
join (x ∷ y ∷ xs) = x ++ comma ∷ b' ' ∷ join (y ∷ xs)

split-Free : (v : Str) → Free comma v → split v ≡ v ∷ []
unfolding split
split-Free [] f = refl
split-Free (c ∷ v) f = ground (arith, split-Free v f.1)

split-append : (v s : Str) → Free comma v → split (v ++ comma ∷ s) ≡ v ∷ split s
unfolding split
split-append [] s f = refl
split-append (c ∷ v) s f = ground (arith, split-append v s f.1)

drop_space :
    (l : List Str)
    → keep (λ v. not (is_empty v)) (map trim (on_head b' ' l))
      ≡ keep (λ v. not (is_empty v)) (map trim l)
unfolding trim is_space
drop_space [] = refl
drop_space (x ∷ xs) = refl

split_csv-space : (s : Str) → split_csv (b' ' ∷ s) ≡ split_csv s
unfolding split_csv split
split_csv-space s = drop_space (split s)

split_csv-entry : (v : Str) → IsEntry v → split_csv v ≡ v ∷ []
unfolding split_csv
split_csv-entry v e = rw (split-Free v e.one, e.trimmed, e.filled) refl

split_csv-append : (v s : Str) → IsEntry v → split_csv (v ++ comma ∷ s) ≡ v ∷ split_csv s
unfolding split_csv
split_csv-append v s e = rw (split-append v s e.one, e.trimmed, e.filled) refl

split_csv_nothing : split_csv [] ≡ []
unfolding split_csv split trim
split_csv_nothing = refl

-- The entries that a text lists are read back.
pub split_csv-join : (vs : List Str) → All IsEntry vs → split_csv (join vs) ≡ vs
unfolding join
split_csv-join [] h = split_csv_nothing
split_csv-join (x ∷ []) (h, _) = split_csv-entry x h
split_csv-join (x ∷ y ∷ xs) (h, hs) =
    split_csv-append x (b' ' ∷ join (y ∷ xs)) h
    ∙ ap (λ t. x ∷ t) (split_csv-space (join (y ∷ xs)) ∙ split_csv-join (y ∷ xs) hs)
