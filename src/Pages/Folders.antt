-- ===== src/Pages/Folders.antt =====
-- The lists of web/app/(app)/api-clients/page.tsx and web/app/(app)/iot/page.tsx, whose rows are
-- shown by folder.
use idpforge.Base.{
  ◌≡◌, refl, sym, ap, ◌∙◌, inl, inr, ◌⊎◌, true, false, List, [], ◌∷◌, ◌++◌, Str, codes, arith,
  if◌then◌else◌, str_eq, str_eq_iff, keep, In, All, All-append, Bool-cases, append_assoc,
  append-nil, map, subst,
}
use idpforge.Rbac.Climb.{Unique}
use idpforge.Console.Response.{or_else}

-- `NO_FOLDER`
abbrev pub no_folder : Str
no_folder = codes "(no folder)"

module _ {A : Type 0} where
  -- `groups.set(key, [...(groups.get(key) ?? []), c])`
  unfoldable pub add_row : Str → A → List (Str × List A) → List (Str × List A)
  add_row key r [] = (key, r ∷ []) ∷ []
  add_row key r ((k, rs) ∷ groups) =
      let rest = add_row key r groups in
      if str_eq k key then (k, rs ++ r ∷ []) ∷ groups else (k, rs) ∷ rest

  -- The rows of a folder.
  abbrev pub rows_of : Str → List (Str × List A) → List A
  rows_of k [] = []
  rows_of k ((j, rs) ∷ groups) = let rest = rows_of k groups in if str_eq j k then rs else rest

  abbrev pub folders : List (Str × List A) → List Str
  folders = map (λ g. g.0)

  add_here :
      (key k : Str) (r : A) (rs : List A) (groups : List (Str × List A))
      → str_eq k key ≡ true
      → add_row key r ((k, rs) ∷ groups) ≡ (k, rs ++ r ∷ []) ∷ groups
  unfolding add_row
  add_here key k r rs groups e = rw e refl

  add_below :
      (key k : Str) (r : A) (rs : List A) (groups : List (Str × List A))
      → str_eq k key ≡ false
      → add_row key r ((k, rs) ∷ groups) ≡ (k, rs) ∷ add_row key r groups
  unfolding add_row
  add_below key k r rs groups e = rw e refl

  rows_of-add_row :
      (k key : Str) (r : A) (groups : List (Str × List A))
      → rows_of k (add_row key r groups) ≡ rows_of k groups ++ (if str_eq key k then r ∷ [] else [])
  unfolding add_row
  rows_of-add_row k key r [] = refl
  rows_of-add_row k key r ((j, rs) ∷ groups) = elim (Bool-cases (str_eq j key)) [
    | inl e ↦ elim (Bool-cases (str_eq j k)) [
      | inl f ↦ rw (e, f, same e, f) refl
      | inr f ↦ rw (e, f, same e, f) (sym (append-nil (rows_of k groups)))
    ]
    | inr e ↦ elim (Bool-cases (str_eq j k)) [
      | inl f ↦ rw (e, f, apart e f) (sym (append-nil rs))
      | inr f ↦ rw (e, f) (rows_of-add_row k key r groups)
    ]
  ]
    where
      same : str_eq j key ≡ true → key ≡ j
      same e = sym ((str_eq_iff j key).0 e)

      apart : str_eq j key ≡ false → str_eq j k ≡ true → str_eq key k ≡ false
      apart e f = ground (arith, str_eq_iff j key, str_eq_iff j k, str_eq_iff key k)

  In-add_row :
      (n key : Str) (r : A) (groups : List (Str × List A))
      → In n (folders (add_row key r groups))
      → In n (folders groups) ⊎ (n ≡ key)
  unfolding add_row
  In-add_row n key r [] (inl m) = inr m
  In-add_row n key r [] (inr m) = elim m [ ]
  In-add_row n key r ((j, rs) ∷ groups) m = elim (Bool-cases (str_eq j key)) [
    | inl e ↦ inl (subst (λ g. In n (folders g)) (add_here key j r rs groups e) m)
    | inr e ↦ elim (subst (λ g. In n (folders g)) (add_below key j r rs groups e) m) [
      | inl at ↦ inl (inl at)
      | inr below ↦ elim (In-add_row n key r groups below) [
        | inl old ↦ inl (inr old)
        | inr new ↦ inr new
      ]
    ]
  ]

  add_row-Unique :
      (key : Str) (r : A) (groups : List (Str × List A))
      → Unique (folders groups)
      → Unique (folders (add_row key r groups))
  unfolding add_row
  add_row-Unique key r [] u = ((λ m. m), tt)
  add_row-Unique key r ((j, rs) ∷ groups) (n, u) = elim (Bool-cases (str_eq j key)) [
    | inl e ↦ subst (λ g. Unique (folders g)) (sym (add_here key j r rs groups e)) (n, u)
    | inr e ↦
        subst (λ g. Unique (folders g)) (sym (add_below key j r rs groups e))
          (
            λ m. elim (In-add_row j key r groups m) [
              | inl old ↦ n old
              | inr new ↦ ground (arith, str_eq_iff j key)
            ],
            add_row-Unique key r groups u,
          )
  ]

  add_row-All :
      (P : A → Type 0) (key : Str) (r : A) (groups : List (Str × List A))
      → P r
      → All (λ g. All P g.1) groups
      → All (λ g. All P g.1) (add_row key r groups)
  unfolding add_row
  add_row-All P key r [] h k = ((h, tt), tt)
  add_row-All P key r ((j, rs) ∷ groups) h (k, ks) = elim (Bool-cases (str_eq j key)) [
    | inl e ↦
        subst (All (λ g. All P g.1)) (sym (add_here key j r rs groups e))
          (All-append P rs (r ∷ []) k (h, tt), ks)
    | inr e ↦
        subst (All (λ g. All P g.1)) (sym (add_below key j r rs groups e))
          (k, add_row-All P key r groups h ks)
  ]

  module _ (folder_of : A → Str) where
    abbrev pub key_of : A → Str
    key_of r = or_else (folder_of r) no_folder

    -- The loop of `grouped`, and of `groupedDevices`, from the groups so far.
    unfoldable pub group_rows : List A → List (Str × List A) → List (Str × List A)
    group_rows [] groups = groups
    group_rows (r ∷ rs) groups = group_rows rs (add_row (key_of r) r groups)

    -- What holds of every row holds of every row of every group.
    pub group_rows-All :
        (P : A → Type 0) (rs : List A) (groups : List (Str × List A))
        → All P rs
        → All (λ g. All P g.1) groups
        → All (λ g. All P g.1) (group_rows rs groups)
    unfolding group_rows
    group_rows-All P [] groups h k = k
    group_rows-All P (r ∷ rs) groups (h, hs) k =
        group_rows-All P rs (add_row (key_of r) r groups) hs (add_row-All P (key_of r) r groups h k)

    group_rows-rows_of :
        (k : Str) (rs : List A) (groups : List (Str × List A))
        → rows_of k (group_rows rs groups) ≡ rows_of k groups ++ keep (λ r. str_eq (key_of r) k) rs
    unfolding group_rows
    group_rows-rows_of k [] groups = sym (append-nil (rows_of k groups))
    group_rows-rows_of k (r ∷ rs) groups =
        group_rows-rows_of k rs (add_row (key_of r) r groups)
        ∙ ap (λ t. t ++ keep (λ r. str_eq (key_of r) k) rs) (rows_of-add_row k (key_of r) r groups)
        ∙ elim (Bool-cases (str_eq (key_of r) k)) [
          | inl e ↦ rw e (append_assoc (rows_of k groups) (r ∷ []) _)
          | inr e ↦ rw (e, append-nil (rows_of k groups)) refl
        ]

    group_rows-Unique :
        (rs : List A) (groups : List (Str × List A))
        → Unique (folders groups)
        → Unique (folders (group_rows rs groups))
    unfolding group_rows
    group_rows-Unique [] groups u = u
    group_rows-Unique (r ∷ rs) groups u =
        group_rows-Unique rs (add_row (key_of r) r groups) (add_row-Unique (key_of r) r groups u)

    -- No folder is shown twice, and the rows under a name are those that have it as their folder, in
    -- the order of the list; a row without a folder stands under "(no folder)".
    pub shown_by_folder :
        (rs : List A)
        → Unique (folders (group_rows rs []))
          × ((k : Str) → rows_of k (group_rows rs []) ≡ keep (λ r. str_eq (key_of r) k) rs)
    shown_by_folder rs = (group_rows-Unique rs [] tt, λ k. group_rows-rows_of k rs [])
