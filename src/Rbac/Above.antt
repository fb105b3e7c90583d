-- ===== src/Rbac/Above.antt =====
-- internal/rbac/resolve.go, `expandAncestorGroups`: the groups that it collects, against the rows of
-- the table of groups.
use idpforge.Base.{
  ◌≡◌, refl, sym, ap, subst, ◌∙◌, ◌≢◌, ◌↔◌, ◌⊎◌, inl, inr, Bool, true, false, some, List, [], ◌∷◌,
  Str, In, All, Apart, any, any_iff, if◌then◌else◌, str_eq, str_eq_iff, str_eq_refl, Bool-cases,
  Option-cases,
}
use idpforge.Rbac.{Group, add_link, parents, links, max_depth, expand_ancestor_groups}
use idpforge.Rbac.Climb.{Ancestor, self, up, Ends}
use idpforge.Rbac.Groups.{expand_links_iff}

-- `b` is `a`, or a group above it by the rows: the parent of each group is that of its row, and the
-- group "" has none.
pub data IsAbove (groups : List Group) (a : Str) : Str → Type 0 where
  itself : IsAbove groups a a
  by_row :
      {p : Str} (g : Group)
      → IsAbove groups a g.id
      → g.id ≢ []
      → In g groups
      → g.parent_group_id ≡ some p
      → IsAbove groups a p

abbrev same_id : Group → Group → Bool
same_id g h = str_eq g.id h.id

-- No two groups have one ID.
abbrev pub UniqueIds : List Group → Type 0
UniqueIds = Apart same_id

-- The link of a group comes from its row, or was there before.
parents_found :
    (m : Str → Str) (groups : List Group) (k : Str)
    → (parents m groups k ≡ m k)
      ⊎ ((g : Group) × In g groups × (g.id ≡ k) × (g.parent_group_id ≡ some (parents m groups k)))
unfolding parents
parents_found m [] k = inl refl
parents_found m (x ∷ xs) k = elim (parents_found (add_link x.id x.parent_group_id m) xs k) [
  | inr (g, l, e, p) ↦ inr (g, inr l, e, p)
  | inl e ↦ elim (Option-cases x.parent_group_id) [
    | inl n ↦ inl (e ∙ ap (λ o. add_link x.id o m k) n)
    | inr (p, n) ↦ elim (Bool-cases (str_eq x.id k)) [
      | inl f ↦ inr (
        x,
        inl refl,
        (str_eq_iff x.id k).0 f,
        n ∙ sym (ap some (e ∙ ap (λ o. add_link x.id o m k) n ∙ ap (λ b. if b then p else m k) f)),
      )
      | inr f ↦ inl (e ∙ ap (λ o. add_link x.id o m k) n ∙ ap (λ b. if b then p else m k) f)
    ]
  ]
]

-- A group without a row keeps what was there.
parents_other :
    (m : Str → Str) (groups : List Group) (k : Str)
    → any (λ (g : Group). str_eq k g.id) groups ≡ false
    → parents m groups k ≡ m k
parents_other m groups k h = elim (parents_found m groups k) [
  | inl e ↦ e
  | inr (g, l, e, p) ↦
      let there =
        (any_iff (λ (x : Group). str_eq k x.id) groups).1 (g, l, (str_eq_iff k g.id).1 (sym e)) in
      let clash : true ≡ false = sym there ∙ h in cc
]

parents_row :
    (groups : List Group) (m : Str → Str) (g : Group) (p : Str)
    → UniqueIds groups
    → In g groups
    → g.parent_group_id ≡ some p
    → parents m groups g.id ≡ p
unfolding parents
parents_row [] m g p u l e = elim l [ ]
parents_row (x ∷ xs) m g p (apart, u) (inr l) e =
    parents_row xs (add_link x.id x.parent_group_id m) g p u l e
parents_row (x ∷ xs) m g p (apart, u) (inl f) e =
    ap (λ (y : Group). parents (add_link x.id x.parent_group_id m) xs y.id) f
    ∙ parents_other (add_link x.id x.parent_group_id m) xs x.id apart
    ∙ ap (λ o. add_link x.id o m x.id) (ap (λ (y : Group). y.parent_group_id) (sym f) ∙ e)
    ∙ ap (λ b. if b then p else m x.id) (str_eq_refl x.id)

IsAbove-links :
    (groups : List Group) (a k : Str) → k ≢ [] → Ancestor (links groups) a k → IsAbove groups a k
unfolding links
IsAbove-links groups a k some_id self = itself
IsAbove-links groups a k some_id (up {b} p below) = elim (parents_found (λ j. []) groups b) [
  | inl e ↦ absurd (some_id e)
  | inr (g, l, e, q) ↦
      by_row g (subst (IsAbove groups a) (sym e) (IsAbove-links groups a b below p))
        (λ f. below (sym e ∙ f)) l q
]

Ancestor-rows :
    (groups : List Group) (a k : Str)
    → UniqueIds groups
    → IsAbove groups a k
    → Ancestor (links groups) a k
unfolding links
Ancestor-rows groups a k u itself = self
Ancestor-rows groups a k u (by_row g p some_id l e) =
    subst (Ancestor (links groups) a) (parents_row groups (λ j. []) g k u l e)
      (up (Ancestor-rows groups a g.id u p) some_id)

-- Where the IDs of the groups are unique and every chain of links ends within the depth guard, the
-- groups collected are exactly the starting groups and those above them by the rows of the table,
-- without "".
pub expand_iff :
    (groups : List Group) (gs : List Str) (k : Str)
    → UniqueIds groups
    → All (Ends (links groups) max_depth) gs
    → In k (expand_ancestor_groups groups gs)
      ↔ ((k ≢ []) × (g : Str) × In g gs × IsAbove groups g k)
expand_iff groups gs k u t =
    let (down, back) = expand_links_iff groups gs k t in
    (
      λ m. let (some_id, g, l, p) = down m in (some_id, g, l, IsAbove-links groups g k some_id p),
      λ (some_id, g, l, p). back (some_id, g, l, Ancestor-rows groups g k u p),
    )
