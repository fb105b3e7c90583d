-- ===== src/Rbac/Rows.antt =====
-- What the queries of internal/rbac/resolve.go select.
use idpforge.Base.{
  ◌≡◌, refl, sym, subst, ◌∙◌, ◌⊎◌, inl, inr, ◌↔◌, Bool, true, false, ◌&&◌, List, [], ◌∷◌, map,
  arith, if◌then◌else◌, Str, str_eq, str_eq_iff, str_eq_refl, In, In-keep, In-map, any, any_iff,
  keep, member, member_iff,
}
use idpforge.Permission.{Permission}
use idpforge.Rbac.{
  PermissionRecord, seconds, seconds_in, distinct, same_permission, distinct_permissions, granted,
  permissions_for,
}

pub In-seconds : (k r : Str) (rows : List (Str × Str)) → In r (seconds k rows) ↔ In (k, r) rows
In-seconds k r rows = (
  λ m.
      let ((j, s), l, e) =
        (In-map (λ (x : Str × Str). x.1) (keep (λ x. str_eq x.0 k) rows) r).0 m in
      let (l', h) = (In-keep (λ (x : Str × Str). str_eq x.0 k) rows (j, s)).0 l in
      let f : j ≡ k = (str_eq_iff j k).0 h in
      subst (λ (x : Str × Str). In x rows) (λ i. (f i, sym e i)) l',
  λ m.
      (In-map (λ (x : Str × Str). x.1) (keep (λ x. str_eq x.0 k) rows) r).1 (
        (k, r),
        (In-keep (λ (x : Str × Str). str_eq x.0 k) rows (k, r)).1 (m, str_eq_refl k),
        refl,
      ),
)

pub In-seconds_in :
    (ks : List Str) (r : Str) (rows : List (Str × Str))
    → In r (seconds_in ks rows) ↔ ((k : Str) × In k ks × In (k, r) rows)
In-seconds_in ks r rows = (
  λ m.
      let ((j, s), l, e) =
        (In-map (λ (x : Str × Str). x.1) (keep (λ x. member x.0 ks) rows) r).0 m in
      let (l', h) = (In-keep (λ (x : Str × Str). member x.0 ks) rows (j, s)).0 l in
      (j, (member_iff j ks).0 h, subst (λ (x : Str × Str). In x rows) (λ i. (j, sym e i)) l'),
  λ (k, m, l). (In-map (λ (x : Str × Str). x.1) (keep (λ x. member x.0 ks) rows) r).1 (
    (k, r),
    (In-keep (λ (x : Str × Str). member x.0 ks) rows (k, r)).1 (l, (member_iff k ks).1 m),
    refl,
  ),
)

-- One round of a removal of doubles: the new element is dropped if `b` says that it is there.
module _ {A : Type 0} (x : A) (rest : List A) (a : A) where
  dropped_from : (b : Bool) → In a (if b then rest else x ∷ rest) → (a ≡ x) ⊎ In a rest
  dropped_from true m = inr m
  dropped_from false m = m

  dropped_to :
      (b : Bool)
      → (b ≡ true → a ≡ x → In a rest)
      → (a ≡ x) ⊎ In a rest
      → In a (if b then rest else x ∷ rest)
  dropped_to true there (inl e) = there refl e
  dropped_to true there (inr m) = m
  dropped_to false there m = m

distinct_from : (xs : List Str) (a : Str) → In a (distinct xs) → In a xs
unfolding distinct
distinct_from [] a m = m
distinct_from (x ∷ xs) a m = elim (dropped_from x (distinct xs) a (member x (distinct xs)) m) [
  | inl e ↦ inl e
  | inr l ↦ inr (distinct_from xs a l)
]

distinct_to : (xs : List Str) (a : Str) → In a xs → In a (distinct xs)
unfolding distinct
distinct_to [] a m = m
distinct_to (x ∷ xs) a m =
    dropped_to x (distinct xs) a (member x (distinct xs))
      (λ h e. subst (λ y. In y (distinct xs)) (sym e) ((member_iff x (distinct xs)).0 h))
      (elim m [ inl e ↦ inl e | inr l ↦ inr (distinct_to xs a l) ])

pub In-distinct : (xs : List Str) (a : Str) → In a (distinct xs) ↔ In a xs
In-distinct xs a = (distinct_from xs a, distinct_to xs a)

same_permission_sound : (p q : Permission) → same_permission p q ≡ true → p ≡ q
same_permission_sound p q h =
    ground (arith, str_eq_iff p.resource q.resource, str_eq_iff p.action q.action)

distinct_permissions_from :
    (xs : List Permission) (a : Permission) → In a (distinct_permissions xs) → In a xs
unfolding distinct_permissions
distinct_permissions_from [] a m = m
distinct_permissions_from (x ∷ xs) a m =
    elim (dropped_from x (distinct_permissions xs) a
      (any (same_permission x) (distinct_permissions xs)) m) [
        | inl e ↦ inl e
        | inr l ↦ inr (distinct_permissions_from xs a l)
      ]

distinct_permissions_to :
    (xs : List Permission) (a : Permission) → In a xs → In a (distinct_permissions xs)
unfolding distinct_permissions
distinct_permissions_to [] a m = m
distinct_permissions_to (x ∷ xs) a m =
    dropped_to x (distinct_permissions xs) a (any (same_permission x) (distinct_permissions xs))
      (λ h e.
        let (q, l, f) = (any_iff (same_permission x) (distinct_permissions xs)).0 h in
        subst (λ y. In y (distinct_permissions xs)) (sym (e ∙ same_permission_sound x q f)) l)
      (elim m [ inl e ↦ inl e | inr l ↦ inr (distinct_permissions_to xs a l) ])

pub In-distinct_permissions :
    (xs : List Permission) (a : Permission) → In a (distinct_permissions xs) ↔ In a xs
In-distinct_permissions xs a = (distinct_permissions_from xs a, distinct_permissions_to xs a)

-- A record of the permissions table is granted to one of the roles.
pub granted_iff :
    (grants : List (Str × Str)) (ids : List Str) (p : PermissionRecord)
    → (granted grants ids p ≡ true) ↔ ((role : Str) × In role ids × In (role, p.id) grants)
granted_iff grants ids p = (
  λ h.
      let ((role, pid), m, q) =
        (any_iff (λ (rp : Str × Str). str_eq rp.1 p.id && member rp.0 ids) grants).0 h in
      let e : pid ≡ p.id = (str_eq_iff pid p.id).0 (ground arith) in
      let l : member role ids ≡ true = ground arith in
      (role, (member_iff role ids).0 l, subst (λ x. In (role, x) grants) e m),
  λ (role, l, m).
      (any_iff (λ (rp : Str × Str). str_eq rp.1 p.id && member rp.0 ids) grants).1
        ((role, p.id), m, ground (arith, str_eq_refl p.id, (member_iff role ids).1 l)),
)

abbrev as_permission : PermissionRecord → Permission
as_permission p = record { resource = p.resource; action = p.action }

-- What `permissionsFor` returns: the records granted to one of the roles.
pub In-permissions_for :
    (table : List PermissionRecord) (grants : List (Str × Str)) (ids : List Str) (a : Permission)
    → In a (permissions_for table grants ids) ↔ (
        (p : PermissionRecord) × (role : Str) × In p table
        × In role ids
        × In (role, p.id) grants
        × (a ≡ as_permission p))
unfolding permissions_for
In-permissions_for table grants [] a = ((λ m. elim m [ ]), λ h. elim h.3 [ ])
In-permissions_for table grants (i ∷ ids) a = (
  λ m.
      let rows = keep (granted grants (i ∷ ids)) table in
      let (p, l, e) =
        (In-map as_permission rows a).0
          ((In-distinct_permissions (map as_permission rows) a).0 m) in
      let (l', g) = (In-keep (granted grants (i ∷ ids)) table p).0 l in
      let (role, r, g') = (granted_iff grants (i ∷ ids) p).0 g in (p, role, l', r, g', e),
  λ (p, role, l, r, g, e).
      let rows = keep (granted grants (i ∷ ids)) table in
      (In-distinct_permissions (map as_permission rows) a).1 (
        (In-map as_permission rows a).1 (
          p,
          (In-keep (granted grants (i ∷ ids)) table p).1
              (l, (granted_iff grants (i ∷ ids) p).1 (role, r, g)),
          e,
        )),
)
