-- ===== src/Rbac/Removal.antt =====
-- internal/rbac: what becomes of permissions when a role is deleted.
use idpforge.Base.{
  if◌then◌else◌, subst, ◌≡◌, sym, ap, inl, inr, true, false, not, List, Str, str_eq, str_eq_refl,
  In, In-keep, keep,
}
use idpforge.Rbac.{Db, Role, role_ids_for, resolve_from_db}
use idpforge.Rbac.Admin.{drop_role, drop_role_rows, drop_first, drop_second}
use idpforge.Rbac.Resolution.{HoldsRole}

drop_role_plain :
    (role : Str) (db : Db)
    → db.enforced ≡ false
    → drop_role role db ≡ record db { roles = keep (λ (r : Role). not (str_eq r.id role)) db.roles }
unfolding drop_role
drop_role_plain role db h =
    ap
      (λ b.
        if b
        then drop_role_rows role db
        else record db { roles = keep (λ (r : Role). not (str_eq r.id role)) db.roles })
      h

drop_role_cascade :
    (role : Str) (db : Db) → db.enforced ≡ true → drop_role role db ≡ drop_role_rows role db
unfolding drop_role
drop_role_cascade role db h =
    ap
      (λ b.
        if b
        then drop_role_rows role db
        else record db { roles = keep (λ (r : Role). not (str_eq r.id role)) db.roles })
      h

-- Where the driver does not keep foreign keys, as SQLite does not unless it is told to, deleting a
-- role takes no permission from anybody: every user resolves to the same permissions.
pub permissions-drop_role :
    (db : Db) (role u : Str)
    → db.enforced ≡ false
    → (resolve_from_db (drop_role role db) u).permissions ≡ (resolve_from_db db u).permissions
unfolding resolve_from_db role_ids_for
permissions-drop_role db role u h =
    ap (λ (d : Db). (resolve_from_db d u).permissions) (drop_role_plain role db h)

not-In-drop_first : (k x : Str) (rows : List (Str × Str)) → ¬ In (k, x) (drop_first k rows)
not-In-drop_first k x rows m =
    let (_, h) = (In-keep (λ (r : Str × Str). not (str_eq r.0 k)) rows (k, x)).0 m in
    cc (h, ap not (str_eq_refl k))

not-In-drop_second : (k x : Str) (rows : List (Str × Str)) → ¬ In (x, k) (drop_second k rows)
not-In-drop_second k x rows m =
    let (_, h) = (In-keep (λ (r : Str × Str). not (str_eq r.1 k)) rows (x, k)).0 m in
    cc (h, ap not (str_eq_refl k))

-- Where it keeps them, nobody holds the deleted role, and no permission is granted to it.
pub drop_role-HoldsRole :
    (db : Db) (role u : Str)
    → db.enforced ≡ true
    → (¬ HoldsRole (drop_role role db) u role)
      × ((p : Str) → ¬ In (role, p) (drop_role role db).role_permissions)
drop_role-HoldsRole db role u h =
    subst (λ (d : Db). (¬ HoldsRole d u role) × ((p : Str) → ¬ In (role, p) d.role_permissions))
      (sym (drop_role_cascade role db h))
      (
        λ held. elim held [
          | inl m ↦ not-In-drop_second role u db.user_roles m
          | inr (g, _, m) ↦ not-In-drop_second role g db.group_roles m
        ],
        λ p m. not-In-drop_first role p db.role_permissions m,
      )
