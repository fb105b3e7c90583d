-- ===== src/Rbac/Admin.antt =====
-- internal/rbac/admin.go: the writes to the RBAC tables, each with its invalidation of the cached
-- resolutions, and the cached `Resolve` of internal/rbac/resolve.go. A write that the database
-- refuses returns `none` and leaves everything as it is. The IDs that `uuid.NewString` makes are
-- arguments.
use idpforge.Base.{
  ℕ, ◌*◌, Bool, true, not, ◌&&◌, ◌||◌, Option, none, some, List, [], ◌∷◌, ◌++◌, if◌then◌else◌, any,
  keep, Str, codes, str_eq,
}
use idpforge.Permission.{Resolved, has}
use idpforge.Cache.{Cache, Value, resolved, get, set, delete, delete_prefix}
use idpforge.Rbac.{Db, Group, Role, PermissionRecord, granted, resolve_from_db}

pub record Store : Type 0 where
  pub db : Db
  pub cache : Cache

abbrev pub cache_key_prefix : Str
cache_key_prefix = codes "rbac:user:"

abbrev pub cache_key : Str → Str
cache_key user_id = cache_key_prefix ++ user_id

-- Five minutes in nanoseconds.
abbrev pub default_ttl : ℕ
default_ttl = 5 * 60 * 1_000_000_000

abbrev pub as_resolved : Option Value → Option Resolved
as_resolved (some (resolved r)) = some r
as_resolved _ = none

-- The end of `Resolver.Resolve`: a resolution that was read from the tables is stored.
abbrev pub remember : ℕ → Str → Resolved → Store → Store
remember now user_id r s = record s {
  cache = set now (cache_key user_id) (resolved r) default_ttl s.cache;
}

-- `Resolver.Resolve`
unfoldable pub resolve : ℕ → Str → Store → Store × Resolved
resolve now user_id s = elim (as_resolved (get now (cache_key user_id) s.cache)) [
  | some r ↦ (s, r)
  | none ↦ let r = resolve_from_db s.db user_id in (remember now user_id r s, r)
]

-- `Resolver.HasPermission`
unfoldable pub has_permission : ℕ → Str → Str → Str → Store → Store × Bool
has_permission now user_id resource action s =
    let q = resolve now user_id s in (q.0, has q.1 resource action)

-- `Resolver.Invalidate`
unfoldable pub invalidate : Str → Cache → Cache
invalidate user_id = delete (cache_key user_id ∷ [])

-- `Resolver.InvalidateAll`
unfoldable pub invalidate_all : Cache → Cache
invalidate_all = delete_prefix cache_key_prefix

-- INSERT of a pair whose columns are the primary key; `valid` says that the foreign keys hold.
abbrev pub same_pair : Str → Str → Str × Str → Bool
same_pair a b r = str_eq r.0 a && str_eq r.1 b

-- What the database refuses: a broken foreign key, or a pair that is there already.
abbrev pub refused : Bool → Str → Str → List (Str × Str) → Bool
refused valid a b rows = not valid || any (same_pair a b) rows

-- DELETE WHERE first = a AND second = b
abbrev pub delete_pair : Str → Str → List (Str × Str) → List (Str × Str)
delete_pair a b = keep (λ r. not (same_pair a b r))

abbrev pub drop_first : Str → List (Str × Str) → List (Str × Str)
drop_first a = keep (λ r. not (str_eq r.0 a))

abbrev pub drop_second : Str → List (Str × Str) → List (Str × Str)
drop_second b = keep (λ r. not (str_eq r.1 b))

abbrev pub has_user : Db → Str → Bool
has_user db u = not db.enforced || any (str_eq u) db.users

abbrev pub has_role : Db → Str → Bool
has_role db i = not db.enforced || any (λ (r : Role). str_eq r.id i) db.roles

abbrev pub has_group : Db → Str → Bool
has_group db i = not db.enforced || any (λ (g : Group). str_eq g.id i) db.groups

abbrev pub has_permission_id : Db → Str → Bool
has_permission_id db i =
    not db.enforced || any (λ (p : PermissionRecord). str_eq p.id i) db.permissions

unfoldable pub create_role : Str → Str → Str → Store → Option Store
create_role id name description s =
    if any (λ (r : Role). str_eq r.id id || str_eq r.name name) s.db.roles
    then none
    else some (record s {
      db = record (s.db) {
        roles = s.db.roles ++ record { id = id; name = name; description = description } ∷ [];
      };
    })

-- The rows that are left without a role: the cascade of the foreign keys.
abbrev pub drop_role_rows : Str → Db → Db
drop_role_rows id db = record db {
  roles = keep (λ (r : Role). not (str_eq r.id id)) db.roles;
  group_roles = drop_second id db.group_roles;
  user_roles = drop_second id db.user_roles;
  role_permissions = drop_first id db.role_permissions;
}

-- DELETE FROM roles, with the cascade where the foreign keys are kept.
unfoldable pub drop_role : Str → Db → Db
drop_role id db =
    if db.enforced
    then drop_role_rows id db
    else record db { roles = keep (λ (r : Role). not (str_eq r.id id)) db.roles }

unfoldable pub delete_role : Str → Store → Option Store
delete_role id s = some (record { db = drop_role id s.db; cache = invalidate_all s.cache })

unfoldable pub create_permission : Str → Str → Str → Store → Option Store
create_permission id resource action s =
    if any
      (λ (p : PermissionRecord).
        str_eq p.id id || (str_eq p.resource resource && str_eq p.action action))
      s.db.permissions
    then none
    else some (record s {
      db = record (s.db) {
        permissions =
            s.db.permissions ++ record { id = id; resource = resource; action = action } ∷ [];
      };
    })

unfoldable pub grant_permission_to_role : Str → Str → Store → Option Store
grant_permission_to_role role_id permission_id s =
    if refused (has_role s.db role_id && has_permission_id s.db permission_id) role_id permission_id
      s.db.role_permissions
    then none
    else some (record {
      db = record (s.db) {
        role_permissions = s.db.role_permissions ++ (role_id, permission_id) ∷ [];
      };
      cache = invalidate_all s.cache;
    })

unfoldable pub revoke_permission_from_role : Str → Str → Store → Option Store
revoke_permission_from_role role_id permission_id s = some (record {
  db = record (s.db) { role_permissions = delete_pair role_id permission_id s.db.role_permissions };
  cache = invalidate_all s.cache;
})

unfoldable pub assign_role_to_user : Str → Str → Store → Option Store
assign_role_to_user user_id role_id s =
    if refused (has_user s.db user_id && has_role s.db role_id) user_id role_id s.db.user_roles
    then none
    else some (record {
      db = record (s.db) { user_roles = s.db.user_roles ++ (user_id, role_id) ∷ [] };
      cache = invalidate user_id s.cache;
    })

unfoldable pub remove_role_from_user : Str → Str → Store → Option Store
remove_role_from_user user_id role_id s = some (record {
  db = record (s.db) { user_roles = delete_pair user_id role_id s.db.user_roles };
  cache = invalidate user_id s.cache;
})

unfoldable pub assign_role_to_group : Str → Str → Store → Option Store
assign_role_to_group group_id role_id s =
    if refused (has_group s.db group_id && has_role s.db role_id) group_id role_id s.db.group_roles
    then none
    else some (record {
      db = record (s.db) { group_roles = s.db.group_roles ++ (group_id, role_id) ∷ [] };
      cache = invalidate_all s.cache;
    })

unfoldable pub remove_role_from_group : Str → Str → Store → Option Store
remove_role_from_group group_id role_id s = some (record {
  db = record (s.db) { group_roles = delete_pair group_id role_id s.db.group_roles };
  cache = invalidate_all s.cache;
})

abbrev pub has_parent : Db → Option Str → Bool
has_parent db none = true
has_parent db (some p) = has_group db p

unfoldable pub create_group : Str → Str → Option Str → Store → Option Store
create_group id name parent_group_id s =
    if any (λ (g : Group). str_eq g.id id || str_eq g.name name) s.db.groups
      || not (has_parent s.db parent_group_id)
    then none
    else some (record s {
      db = record (s.db) {
        groups =
            s.db.groups ++ record { id = id; name = name; parent_group_id = parent_group_id } ∷ [];
      };
    })

unfoldable pub add_user_to_group : Str → Str → Store → Option Store
add_user_to_group user_id group_id s =
    if refused (has_user s.db user_id && has_group s.db group_id) user_id group_id s.db.user_groups
    then none
    else some (record {
      db = record (s.db) { user_groups = s.db.user_groups ++ (user_id, group_id) ∷ [] };
      cache = invalidate user_id s.cache;
    })

unfoldable pub remove_user_from_group : Str → Str → Store → Option Store
remove_user_from_group user_id group_id s = some (record {
  db = record (s.db) { user_groups = delete_pair user_id group_id s.db.user_groups };
  cache = invalidate user_id s.cache;
})

-- `ListRolePermissions`: the records granted to the role.
unfoldable pub list_role_permissions : Str → Db → List PermissionRecord
list_role_permissions role_id db = keep (granted db.role_permissions (role_id ∷ [])) db.permissions

-- `GetRole`; `none` is `ErrNotFound`.
unfoldable pub find_role : Str → List Role → Option Role
find_role id [] = none
find_role id (r ∷ roles) = if str_eq r.id id then some r else find_role id roles

-- `ListUserRoles`: the roles that the user has itself.
unfoldable pub list_user_roles : Str → Db → List Role
list_user_roles user_id db =
    keep (λ r. any (λ (ur : Str × Str). str_eq ur.1 r.id && str_eq ur.0 user_id) db.user_roles)
      db.roles

-- The row goes; with the foreign keys kept, so do the user's rows.
unfoldable pub drop_user : Str → Db → Db
drop_user id db =
    let rest = keep (λ u. not (str_eq id u)) db.users in
    if db.enforced
    then record db {
      users = rest;
      user_groups = drop_first id db.user_groups;
      user_roles = drop_first id db.user_roles;
    }
    else record db { users = rest }

-- `users.Repository.Delete` with the invalidation of `handleDeleteUser`; `none` is `ErrNotFound`.
unfoldable pub delete_user : Str → Store → Option Store
delete_user id s =
    if not (any (str_eq id) s.db.users)
    then none
    else some (record { db = drop_user id s.db; cache = invalidate id s.cache })
