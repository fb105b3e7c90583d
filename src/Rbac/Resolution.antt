-- ===== src/Rbac/Resolution.antt =====
-- internal/rbac/resolve.go, `resolveFromDB`: what a resolved user may do, against the tables.
use idpforge.Base.{
  ◌≡◌, refl, sym, ap, subst, ◌∙◌, ◌≢◌, ◌⊎◌, inl, inr, ◌↔◌, true, List, [], ◌++◌, Str, In, In-append,
  In-append_left, In-append_right, All,
}
use idpforge.Permission.{Permission, has}
use idpforge.Permission.Wildcard.{Covers, has_iff}
use idpforge.Rbac.{
  Db, PermissionRecord, links, max_depth, seconds, seconds_in, expand_ancestor_groups, role_ids_for,
  resolve_from_db,
}
use idpforge.Rbac.Climb.{Ancestor, Ends}
use idpforge.Rbac.Groups.{expand_links_iff}
use idpforge.Rbac.Rows.{In-seconds, In-seconds_in, In-distinct, In-permissions_for}

-- The user is in the group, or in a group below it.
abbrev pub MemberOf : Db → Str → Str → Type 0
MemberOf db user group =
    (group ≢ []) × (g : Str) × In (user, g) db.user_groups × Ancestor (links db.groups) g group

-- The user has the role itself, or by a group.
abbrev pub HoldsRole : Db → Str → Str → Type 0
HoldsRole db user role =
    In (user, role) db.user_roles
    ⊎ ((group : Str) × MemberOf db user group × In (group, role) db.group_roles)

-- The tables allow the user the action on the resource.
abbrev pub Allowed : Db → Str → Str → Str → Type 0
Allowed db user resource action =
    (p : PermissionRecord) × (role : Str) × In p db.permissions
    × HoldsRole db user role
    × In (role, p.id) db.role_permissions
    × (p.action ≡ action)
    × Covers p.resource resource

-- The links above each of the user's groups end within the depth guard.
abbrev pub WithinDepth : Db → Str → Type 0
WithinDepth db user = All (Ends (links db.groups) max_depth) (seconds user db.user_groups)

role_ids : Db → Str → List Str
role_ids db user =
    role_ids_for db user (expand_ancestor_groups db.groups (seconds user db.user_groups))

In-role_ids :
    (db : Db) (user role : Str)
    → WithinDepth db user
    → In role (role_ids db user) ↔ HoldsRole db user role
unfolding role_ids role_ids_for
In-role_ids db user role t =
    let groups = expand_ancestor_groups db.groups (seconds user db.user_groups) in
    let direct = seconds user db.user_roles in
    let via = seconds_in groups db.group_roles in
    (
      λ m. elim (In-append role direct via ((In-distinct (direct ++ via) role).0 m)) [
        | inl d ↦ inl ((In-seconds user role db.user_roles).0 d)
        | inr v ↦
            let (group, l, r) = (In-seconds_in groups role db.group_roles).0 v in
            let (some_id, g, i, p) =
              (expand_links_iff db.groups (seconds user db.user_groups) group t).0 l in
            inr (group, (some_id, g, (In-seconds user g db.user_groups).0 i, p), r)
      ],
      λ h. (In-distinct (direct ++ via) role).1 (elim h [
        | inl d ↦ In-append_left role direct via ((In-seconds user role db.user_roles).1 d)
        | inr (group, (some_id, g, i, p), r) ↦ In-append_right role direct via (
            (In-seconds_in groups role db.group_roles).1 (
              group,
              (expand_links_iff db.groups (seconds user db.user_groups) group t).1
                  (some_id, g, (In-seconds user g db.user_groups).1 i, p),
              r,
            ))
      ]),
    )

-- The resolved user may do exactly what the tables allow.
pub resolve_iff :
    (db : Db) (user resource action : Str)
    → WithinDepth db user
    → (has (resolve_from_db db user) resource action ≡ true) ↔ Allowed db user resource action
unfolding resolve_from_db role_ids
resolve_iff db user resource action t = (
  λ h.
      let (a, m, f, c) = (has_iff (resolve_from_db db user) resource action).0 h in
      let (p, role, l, r, g, e) =
        (In-permissions_for db.permissions db.role_permissions (role_ids db user) a).0 m in
      (
        p,
        role,
        l,
        (In-role_ids db user role t).0 r,
        g,
        ap (λ (x : Permission). x.action) (sym e) ∙ f,
        subst (λ (x : Permission). Covers x.resource resource) e c,
      ),
  λ (p, role, l, r, g, f, c).
      let a : Permission = record { resource = p.resource; action = p.action } in
      (has_iff (resolve_from_db db user) resource action).1 (
        a,
        (In-permissions_for db.permissions db.role_permissions (role_ids db user) a).1
            (p, role, l, (In-role_ids db user role t).1 r, g, refl),
        f,
        c,
      ),
)
