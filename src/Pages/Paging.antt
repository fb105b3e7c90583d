-- ===== src/Pages/Paging.antt =====
-- web/components/ui.tsx, `Pagination`, on the list that a page asks for.
use idpforge.Base.{
  ℕ, zero, suc, ◌+◌, ◌-◌, ◌*◌, ◌≤◌, ◌≡◌, refl, ap, ◌∙◌, true, some, List, [], ◌∷◌, take, drop,
  length, arith, subst, ltb, min,
}
use idpforge.Pages.{Footer, pagination, page_size, on_prev, on_next}

-- What the server gives for an offset: LIMIT and OFFSET.
abbrev pub page_at {ℓ} : {A : Type ℓ} → ℕ → List A → List A
page_at offset rows = take page_size (drop offset rows)

-- The offsets that the two buttons reach from the first page.
pub data Reached {ℓ} {A : Type ℓ} (rows : List A) : ℕ → Type 0 where
  first_page : Reached rows 0
  next_page :
      {o : ℕ} {f : Footer}
      → Reached rows o
      → pagination o page_size (length (page_at o rows)) ≡ some f
      → f.has_next ≡ true
      → Reached rows (on_next o)
  prev_page : {o : ℕ} → Reached rows o → Reached rows (on_prev o)

length-take {ℓ} : {A : Type ℓ} (n : ℕ) (xs : List A) → length (take n xs) ≡ min n (length xs)
length-take zero xs = omega arith
length-take (suc n) [] = omega arith
length-take (suc n) (x ∷ xs) = omega (arith, length-take n xs)

length-drop {ℓ} : {A : Type ℓ} (n : ℕ) (xs : List A) → length (drop n xs) ≡ length xs - n
length-drop zero xs = omega arith
length-drop (suc n) [] = omega arith
length-drop (suc n) (x ∷ xs) = omega (arith, length-drop n xs)

pub length-page_at {ℓ} :
    {A : Type ℓ} (o : ℕ) (rows : List A) → length (page_at o rows) ≡ min page_size (length rows - o)
length-page_at o rows =
    length-take page_size (drop o rows) ∙ ap (min page_size) (length-drop o rows)

full_page {ℓ} :
    {A : Type ℓ} (rows : List A) (o : ℕ) (f : Footer)
    → pagination o page_size (length (page_at o rows)) ≡ some f
    → f.has_next ≡ true
    → o + page_size ≤ length rows
unfolding pagination
full_page rows o f p n = ground (arith, length-page_at o rows)

-- The buttons lead to the start of a page, and never past the end of the list.
pub Reached-within {ℓ} :
    {A : Type ℓ} (rows : List A) (o : ℕ)
    → Reached rows o
    → (o ≤ length rows) × ((k : ℕ) × (o ≡ k * page_size))
unfolding on_prev on_next
Reached-within rows o first_page = (omega arith, (0, refl))
Reached-within rows o (next_page {o = p} {f = f} r e n) =
    let (_, (k, q)) = Reached-within rows p r in (full_page rows p f e n, (k + 1, omega (arith, q)))
Reached-within rows o (prev_page {o = p} r) =
    let (h, (k, q)) = Reached-within rows p r in (omega (arith, h), (k - 1, omega (arith, q)))

next_works :
    {A : Type 0} (rows : List A) (o : ℕ)
    → o + page_size ≤ length rows
    → (f : Footer) × (pagination o page_size (length (page_at o rows)) ≡ some f)
      × (f.has_next ≡ true)
unfolding pagination
next_works rows o h =
    let full : length (page_at o rows) ≡ page_size = length-page_at o rows ∙ omega arith in
    (
      record { first = o + 1; last = o + page_size; has_prev = ltb 0 o; has_next = true },
      rw full (ground arith),
      refl,
    )

-- Every row is on a page that the buttons reach.
pub reaches_all :
    {A : Type 0} (rows : List A) (k : ℕ)
    → k * page_size ≤ length rows
    → Reached rows (k * page_size)
unfolding on_next
reaches_all rows zero h = first_page
reaches_all rows (suc k) h =
    let (f, e, n) = next_works rows (k * page_size) (omega (arith, h)) in
    subst (Reached rows) omega arith (next_page (reaches_all rows k (omega (arith, h))) e n)
