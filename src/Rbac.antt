-- ===== src/Rbac.antt =====
-- internal/rbac/resolve.go and the tables of internal/db/migrations that it reads. A table is the
-- list of its rows, and a query the rows that it selects, in the table's order. A failure of the
-- database itself is not modelled.
pub mod Climb
pub mod Groups
pub mod Rows
pub mod Resolution
pub mod Above
pub mod Admin
pub mod Coherence
pub mod Unaffected
pub mod NewGroup
pub mod History
pub mod Removal
pub mod Race
pub mod Tests
use idpforge.Base.{
  is_empty, ℕ, zero, suc, Bool, true, false, ◌&&◌, ◌||◌, Option, none, some, List, [], ◌∷◌, ◌++◌,
  map, if◌then◌else◌, any, keep, Str, str_eq, member,
}
use idpforge.Permission.{Permission, Resolved}

pub record Group : Type 0 where
  pub id : Str
  pub name : Str
  pub parent_group_id : Option Str

pub record Role : Type 0 where
  pub id : Str
  pub name : Str
  pub description : Str

pub record PermissionRecord : Type 0 where
  pub id : Str
  pub resource : Str
  pub action : Str

-- The tables of 0001_init.sql that the resolver reads; `enforced` says whether the driver keeps the
-- foreign keys.
pub record Db : Type 0 where
  pub enforced : Bool
  pub users : List Str
  pub groups : List Group
  pub roles : List Role
  pub permissions : List PermissionRecord
  pub user_groups : List (Str × Str)
  pub group_roles : List (Str × Str)
  pub user_roles : List (Str × Str)
  pub role_permissions : List (Str × Str)

-- SELECT second FROM rows WHERE first = key
abbrev pub seconds : Str → List (Str × Str) → List Str
seconds key rows = map (λ r. r.1) (keep (λ r. str_eq r.0 key) rows)

-- SELECT second FROM rows WHERE first IN (keys)
abbrev pub seconds_in : List Str → List (Str × Str) → List Str
seconds_in keys rows = map (λ r. r.1) (keep (λ r. member r.0 keys) rows)

-- A Go map from texts to texts; a missing key reads "".
abbrev pub assign : Str → Str → (Str → Str) → Str → Str
assign k v m j = if str_eq k j then v else m j

-- One row of the loop that fills `parent`: a NULL link is skipped.
abbrev pub add_link : Str → Option Str → (Str → Str) → Str → Str
add_link id none m = m
add_link id (some p) m = assign id p m

-- The loop that fills `parent`.
unfoldable pub parents : (Str → Str) → List Group → Str → Str
parents m [] = m
parents m (g ∷ gs) = parents (add_link g.id g.parent_group_id m) gs

-- `parent`, as it is filled from the table.
unfoldable pub links : List Group → Str → Str
unfolding parents
links groups = parents (λ k. []) groups

-- `seen` and `result`, which hold the same IDs.
pub record Walk : Type 0 where
  pub seen : Str → Bool
  pub result : List Str

abbrev pub visit : Str → Walk → Walk
visit cur w = record {
  seen = λ k. if str_eq cur k then true else w.seen k;
  result = w.result ++ cur ∷ [];
}

-- The inner loop of `expandAncestorGroups`; the fuel is its depth guard.
unfoldable pub climb : ℕ → (Str → Str) → Str → Walk → Walk
climb zero parent cur w = w
climb (suc n) parent cur w = elim (is_empty cur || w.seen cur) [
  | true ↦ w
  | false ↦ climb n parent (parent cur) (visit cur w)
]

-- The outer loop.
unfoldable pub climb_all : ℕ → (Str → Str) → List Str → Walk → Walk
climb_all n parent [] w = w
climb_all n parent (g ∷ gs) w = climb_all n parent gs (climb n parent g w)

abbrev pub no_walk : Walk
no_walk = record { seen = λ k. false; result = [] }

abbrev pub max_depth : ℕ
max_depth = 100

-- `expandAncestorGroups`
unfoldable pub expand_ancestor_groups : List Group → List Str → List Str
expand_ancestor_groups groups [] = []
expand_ancestor_groups groups (g ∷ gs) =
    (climb_all max_depth (links groups) (g ∷ gs) no_walk).result

-- What a Go map keeps of the keys that are put in; its order is not the program's.
unfoldable pub distinct : List Str → List Str
distinct [] = []
distinct (x ∷ xs) = let rest = distinct xs in if member x rest then rest else x ∷ rest

-- The first part of `roleIDsFor`: the IDs of the roles.
unfoldable pub role_ids_for : Db → Str → List Str → List Str
role_ids_for db user_id group_ids =
    distinct (seconds user_id db.user_roles ++ seconds_in group_ids db.group_roles)

-- The second part of `roleIDsFor`: their names.
unfoldable pub role_names_for : List Role → List Str → List Str
role_names_for roles [] = []
role_names_for roles (i ∷ ids) =
    map (λ (r : Role). r.name) (keep (λ r. member r.id (i ∷ ids)) roles)

abbrev pub same_permission : Permission → Permission → Bool
same_permission p q = str_eq p.resource q.resource && str_eq p.action q.action

-- SELECT DISTINCT
unfoldable pub distinct_permissions : List Permission → List Permission
distinct_permissions [] = []
distinct_permissions (p ∷ ps) =
    let rest = distinct_permissions ps in if any (same_permission p) rest then rest else p ∷ rest

abbrev pub granted : List (Str × Str) → List Str → PermissionRecord → Bool
granted grants ids p = any (λ (rp : Str × Str). str_eq rp.1 p.id && member rp.0 ids) grants

-- `permissionsFor`; the tables are `permissions` and `role_permissions`.
unfoldable pub permissions_for :
    List PermissionRecord → List (Str × Str) → List Str → List Permission
unfolding distinct_permissions
permissions_for permissions grants [] = []
permissions_for permissions grants (i ∷ ids) = distinct_permissions (
    map (λ (p : PermissionRecord). record { resource = p.resource; action = p.action })
      (keep (granted grants (i ∷ ids)) permissions))

-- `resolveFromDB`
unfoldable pub resolve_from_db : Db → Str → Resolved
resolve_from_db db user_id =
    let group_ids = expand_ancestor_groups db.groups (seconds user_id db.user_groups) in
    let role_ids = role_ids_for db user_id group_ids in
    record {
      user_id = user_id;
      role_names = role_names_for db.roles role_ids;
      permissions = permissions_for db.permissions db.role_permissions role_ids;
    }
