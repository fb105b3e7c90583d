-- ===== src/Rbac/Unaffected.antt =====
-- internal/rbac: writes that leave the resolution of a user as it is.
use idpforge.Base.{
  ◌≡◌, refl, sym, ap, ◌∙◌, ◌≢◌, inl, inr, true, false, not, some, List, [], ◌∷◌, ◌++◌, map, arith,
  keep, keep-append, keep_of_imp, Str, str_eq, str_eq_iff, In, In-append, All, Bool-cases,
  append-nil, member, member_iff,
}
use idpforge.Rbac.{
  Db, Group, Role, PermissionRecord, seconds, expand_ancestor_groups, role_ids_for, role_names_for,
  granted, permissions_for, resolve_from_db,
}
use idpforge.Rbac.Admin.{same_pair, delete_pair, drop_first, drop_user}
use idpforge.Rbac.Rows.{In-seconds, In-seconds_in, In-distinct}

seconds-append_ne :
    (u v x : Str) (rows : List (Str × Str))
    → u ≢ v
    → seconds u (rows ++ (v, x) ∷ []) ≡ seconds u rows
seconds-append_ne u v x rows h = ap (map (λ (r : Str × Str). r.1)) (
    keep-append (λ (r : Str × Str). str_eq r.0 u) rows ((v, x) ∷ [])
    ∙ ap (λ t. keep (λ (r : Str × Str). str_eq r.0 u) rows ++ t) last
    ∙ append-nil _)
  where
    last : keep (λ (r : Str × Str). str_eq r.0 u) ((v, x) ∷ []) ≡ []
    last = elim (Bool-cases (str_eq v u)) [
      | inl e ↦ absurd (h (sym ((str_eq_iff v u).0 e)))
      | inr e ↦ rw e
    ]

seconds-delete_pair_ne :
    (u v x : Str) (rows : List (Str × Str))
    → u ≢ v
    → seconds u (delete_pair v x rows) ≡ seconds u rows
seconds-delete_pair_ne u v x rows h =
    ap (map (λ (r : Str × Str). r.1))
      (keep_of_imp (λ (r : Str × Str). str_eq r.0 u) (λ r. not (same_pair v x r)) rows other)
  where
    other : (r : Str × Str) → str_eq r.0 u ≡ true → not (same_pair v x r) ≡ true
    other (a, b) e = elim (Bool-cases (str_eq a v)) [
      | inl f ↦ absurd (h (sym ((str_eq_iff a u).0 e) ∙ (str_eq_iff a v).0 f))
      | inr f ↦ rw f
    ]

-- The resolution reads the user's own rows of the two tables of users.
pub same_rows :
    (db : Db) (u : Str) (user_groups user_roles : List (Str × Str))
    → seconds u user_groups ≡ seconds u db.user_groups
    → seconds u user_roles ≡ seconds u db.user_roles
    → resolve_from_db (record db { user_groups = user_groups; user_roles = user_roles }) u
      ≡ resolve_from_db db u
unfolding resolve_from_db role_ids_for
same_rows db u user_groups user_roles e f = rw (e, f)

pub insert_user_role :
    (db : Db) (u v x : Str)
    → u ≢ v
    → resolve_from_db (record db { user_roles = db.user_roles ++ (v, x) ∷ [] }) u
      ≡ resolve_from_db db u
insert_user_role db u v x h = same_rows db u _ _ refl (seconds-append_ne u v x db.user_roles h)

pub delete_user_role :
    (db : Db) (u v x : Str)
    → u ≢ v
    → resolve_from_db (record db { user_roles = delete_pair v x db.user_roles }) u
      ≡ resolve_from_db db u
delete_user_role db u v x h = same_rows db u _ _ refl (seconds-delete_pair_ne u v x db.user_roles h)

pub insert_user_group :
    (db : Db) (u v x : Str)
    → u ≢ v
    → resolve_from_db (record db { user_groups = db.user_groups ++ (v, x) ∷ [] }) u
      ≡ resolve_from_db db u
insert_user_group db u v x h = same_rows db u _ _ (seconds-append_ne u v x db.user_groups h) refl

pub delete_user_group :
    (db : Db) (u v x : Str)
    → u ≢ v
    → resolve_from_db (record db { user_groups = delete_pair v x db.user_groups }) u
      ≡ resolve_from_db db u
delete_user_group db u v x h =
    same_rows db u _ _ (seconds-delete_pair_ne u v x db.user_groups h) refl

-- An ID that no row names yet, as a new UUID is.
abbrev pub Unnamed : Str → List (Str × Str) → Type 0
Unnamed id rows = All (λ (r : Str × Str). r.1 ≢ id) rows

pub record IsFresh (id : Str) (db : Db) : Type 0 where
  pub in_user_roles : Unnamed id db.user_roles
  pub in_group_roles : Unnamed id db.group_roles
  pub in_role_permissions : Unnamed id db.role_permissions
  pub in_user_groups : Unnamed id db.user_groups
  pub in_groups : All (λ (g : Group). g.parent_group_id ≢ some id) db.groups

Unnamed-In : (id a : Str) (rows : List (Str × Str)) → Unnamed id rows → ¬ In (a, id) rows
Unnamed-In id a [] f m = m
Unnamed-In id a (r ∷ rows) (f, fs) (inl e) = f (ap (λ (x : Str × Str). x.1) (sym e))
Unnamed-In id a (r ∷ rows) (f, fs) (inr m) = Unnamed-In id a rows fs m

-- A role that no row names is not among the resolved roles.
new_role :
    (db : Db) (u id : Str) (gs : List Str)
    → IsFresh id db
    → member id (role_ids_for db u gs) ≡ false
unfolding role_ids_for
new_role db u id gs f = elim (Bool-cases (member id (role_ids_for db u gs))) [
  | inr e ↦ e
  | inl e ↦ absurd (elim (In-append id _ _ ((In-distinct _ id).0 ((member_iff id _).0 e))) [
    | inl m ↦ Unnamed-In id u db.user_roles f.in_user_roles ((In-seconds u id db.user_roles).0 m)
    | inr m ↦
        let (g, l, r) = (In-seconds_in gs id db.group_roles).0 m in
        Unnamed-In id g db.group_roles f.in_group_roles r
  ])
]

role_names-append :
    (roles : List Role) (r : Role) (ids : List Str)
    → member r.id ids ≡ false
    → role_names_for (roles ++ r ∷ []) ids ≡ role_names_for roles ids
unfolding role_names_for
role_names-append roles r [] h = refl
role_names-append roles r (i ∷ ids) h = ap (map (λ (x : Role). x.name)) (
    keep-append (λ (x : Role). member x.id (i ∷ ids)) roles (r ∷ [])
    ∙ ap (λ t. keep (λ (x : Role). member x.id (i ∷ ids)) roles ++ t) (rw h)
    ∙ append-nil _)

pub insert_role :
    (db : Db) (u : Str) (r : Role)
    → IsFresh r.id db
    → resolve_from_db (record db { roles = db.roles ++ r ∷ [] }) u ≡ resolve_from_db db u
unfolding resolve_from_db role_ids_for
insert_role db u r f =
    let gs = expand_ancestor_groups db.groups (seconds u db.user_groups) in
    rw (role_names-append db.roles r (role_ids_for db u gs) (new_role db u r.id gs f))

not_granted :
    (grants : List (Str × Str)) (ids : List Str) (p : PermissionRecord)
    → Unnamed p.id grants
    → granted grants ids p ≡ false
not_granted [] ids p f = refl
not_granted ((role, id) ∷ grants) ids p (f, fs) =
    ground (arith, str_eq_iff id p.id, not_granted grants ids p fs)

permissions-append :
    (table : List PermissionRecord) (p : PermissionRecord) (grants : List (Str × Str))
    (ids : List Str)
    → Unnamed p.id grants
    → permissions_for (table ++ p ∷ []) grants ids ≡ permissions_for table grants ids
unfolding permissions_for
permissions-append table p grants [] f = refl
permissions-append table p grants (i ∷ ids) f =
    let same =
      keep-append (granted grants (i ∷ ids)) table (p ∷ [])
      ∙ ap (λ t. keep (granted grants (i ∷ ids)) table ++ t) none_left
      ∙ append-nil (keep (granted grants (i ∷ ids)) table) in
    rw same
  where
    none_left : keep (granted grants (i ∷ ids)) (p ∷ []) ≡ []
    none_left = rw (not_granted grants (i ∷ ids) p f)

pub insert_permission :
    (db : Db) (u : Str) (p : PermissionRecord)
    → IsFresh p.id db
    → resolve_from_db (record db { permissions = db.permissions ++ p ∷ [] }) u
      ≡ resolve_from_db db u
unfolding resolve_from_db role_ids_for
insert_permission db u p f =
    let gs = expand_ancestor_groups db.groups (seconds u db.user_groups) in
    rw (
      permissions-append db.permissions p db.role_permissions (role_ids_for db u gs)
        f.in_role_permissions)

seconds-drop_first_ne :
    (u v : Str) (rows : List (Str × Str)) → u ≢ v → seconds u (drop_first v rows) ≡ seconds u rows
seconds-drop_first_ne u v rows h =
    ap (map (λ (r : Str × Str). r.1))
      (keep_of_imp (λ (r : Str × Str). str_eq r.0 u) (λ r. not (str_eq r.0 v)) rows other)
  where
    other : (r : Str × Str) → str_eq r.0 u ≡ true → not (str_eq r.0 v) ≡ true
    other (a, b) e = elim (Bool-cases (str_eq a v)) [
      | inl f ↦ absurd (h (sym ((str_eq_iff a u).0 e) ∙ (str_eq_iff a v).0 f))
      | inr f ↦ rw f
    ]

pub resolve-drop_user :
    (db : Db) (u v : Str) → u ≢ v → resolve_from_db (drop_user v db) u ≡ resolve_from_db db u
unfolding drop_user resolve_from_db role_ids_for
resolve-drop_user db u v h = elim (Bool-cases db.enforced) [
  | inl e ↦ rw e (
      same_rows db u _ _ (seconds-drop_first_ne u v db.user_groups h)
        (seconds-drop_first_ne u v db.user_roles h))
  | inr e ↦ rw e (same_rows db u _ _ refl refl)
]
