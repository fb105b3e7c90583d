-- ===== src/Rbac/NewGroup.antt =====
-- internal/rbac: a new group, which no row names yet, leaves every resolution as it is.
use idpforge.Base.{
  ℕ, zero, suc, ◌≡◌, refl, sym, ap, ◌∙◌, ◌≢◌, inl, inr, ◌||◌, Option, none, some, List, [], ◌∷◌,
  ◌++◌, arith, Str, str_eq, str_eq_iff, All, Bool-cases, is_empty,
}
use idpforge.Rbac.{
  Db, Group, Walk, seconds, parents, add_link, links, climb, climb_all, visit, max_depth, no_walk,
  expand_ancestor_groups, role_ids_for, resolve_from_db,
}
use idpforge.Rbac.Unaffected.{IsFresh, Unnamed}

-- The links with one more group at the end.
parents-append :
    (m : Str → Str) (gs : List Group) (g : Group) (k : Str)
    → k ≢ g.id
    → parents m (gs ++ g ∷ []) k ≡ parents m gs k
unfolding parents
parents-append m [] g k h = last g.parent_group_id
  where
    last : (o : Option Str) → add_link g.id o m k ≡ m k
    last none = refl
    last (some p) = ground (arith, str_eq_iff g.id k)
parents-append m (x ∷ gs) g k h = parents-append (add_link x.id x.parent_group_id m) gs g k h

parents_ne :
    (m : Str → Str) (gs : List Group) (id k : Str)
    → All (λ (g : Group). g.parent_group_id ≢ some id) gs
    → ((j : Str) → m j ≢ id)
    → parents m gs k ≢ id
unfolding parents
parents_ne m [] id k f h = h k
parents_ne m (g ∷ gs) id k (f, fs) h =
    parents_ne (add_link g.id g.parent_group_id m) gs id k fs (λ j. step g.parent_group_id j f)
  where
    step : (o : Option Str) (j : Str) → o ≢ some id → add_link g.id o m j ≢ id
    step none j e = h j
    step (some p) j e = elim (Bool-cases (str_eq g.id j)) [
      | inl same ↦ λ x. e (ap some (sym (rw same refl) ∙ x))
      | inr other ↦ λ x. h j (sym (rw other refl) ∙ x)
    ]

-- A walk does not see a change of the links at a group that it cannot come to.
module _ (parent other : Str → Str) (id : Str) (same : (k : Str) → k ≢ id → parent k ≡ other k)
    (away : (k : Str) → parent k ≢ id) where
  climb-same :
      (n : ℕ) (cur : Str) (w : Walk) → cur ≢ id → climb n other cur w ≡ climb n parent cur w
  unfolding climb
  climb-same zero cur w h = refl
  climb-same (suc n) cur w h = elim (Bool-cases (is_empty cur || w.seen cur)) [
    | inl e ↦ ground arith
    | inr e ↦ ground (arith, same cur h, climb-same n (parent cur) (visit cur w) (away cur))
  ]

  climb_all-same :
      (n : ℕ) (gs : List Str) (w : Walk)
      → All (λ g. g ≢ id) gs
      → climb_all n other gs w ≡ climb_all n parent gs w
  unfolding climb_all
  climb_all-same n [] w h = refl
  climb_all-same n (g ∷ gs) w (h, hs) =
      ap (climb_all n other gs) (climb-same n g w h) ∙ climb_all-same n gs (climb n parent g w) hs

ne_of_In :
    (id : Str) (u : Str) (rows : List (Str × Str))
    → Unnamed id rows
    → All (λ g. g ≢ id) (seconds u rows)
ne_of_In id u [] f = tt
ne_of_In id u (r ∷ rows) (f, fs) = elim (Bool-cases (str_eq r.0 u)) [
  | inl e ↦ rw e (f, ne_of_In id u rows fs)
  | inr e ↦ rw e (ne_of_In id u rows fs)
]

expand-append :
    (groups : List Group) (g : Group) (gs : List Str)
    → All (λ (x : Group). x.parent_group_id ≢ some g.id) groups
    → g.id ≢ []
    → All (λ x. x ≢ g.id) gs
    → expand_ancestor_groups (groups ++ g ∷ []) gs ≡ expand_ancestor_groups groups gs
unfolding expand_ancestor_groups links
expand-append groups g [] f h t = refl
expand-append groups g (x ∷ gs) f h t =
    ap (λ (w : Walk). w.result)
      (climb_all-same (links groups) (links (groups ++ g ∷ [])) g.id
        (λ k e. sym (parents-append (λ _. []) groups g k e))
        (λ k. parents_ne (λ _. []) groups g.id k f (λ _ e. h (sym e))) max_depth (x ∷ gs) no_walk t)

pub insert_group :
    (db : Db) (u : Str) (g : Group)
    → IsFresh g.id db
    → g.id ≢ []
    → resolve_from_db (record db { groups = db.groups ++ g ∷ [] }) u ≡ resolve_from_db db u
unfolding resolve_from_db role_ids_for
insert_group db u g f some_id = rw (
    expand-append db.groups g (seconds u db.user_groups) f.in_groups some_id
      (ne_of_In g.id u db.user_groups f.in_user_groups))
