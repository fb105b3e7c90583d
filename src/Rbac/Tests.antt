-- ===== src/Rbac/Tests.antt =====
-- A small directory of users, groups and roles.
use idpforge.Base.{
  ◌≡◌, refl, ◌≢◌, ◌↔◌, Bool, true, false, some, none, List, [], ◌∷◌, arith, codes, Str, In, All,
  cut_suffix, has_prefix, str_eq,
}
use idpforge.Permission.{has, matches}
use idpforge.Cache.{empty, delete, get}
use idpforge.Rbac.{
  Db, Group, links, max_depth, expand_ancestor_groups, resolve_from_db, climb, climb_all, distinct,
  permissions_for, role_ids_for,
}
use idpforge.Rbac.Admin
use idpforge.Rbac.Admin.{
  Store, resolve, has_permission, remember, default_ttl, drop_role, invalidate,
}
use idpforge.Rbac.Climb.{Ends, root, link, Unique}
use idpforge.Rbac.Above.{IsAbove, UniqueIds, expand_iff}
use idpforge.Rbac.Groups.{expand-Unique}
use idpforge.Rbac.Resolution.{WithinDepth, Allowed, resolve_iff}
use idpforge.Rbac.History.{
  Op, add_user_to_group, delete_role, resolves, step, run, resolve-run, empty-Coherent,
}
use idpforge.Rbac.Race.{late_store_keeps_permission}

abbrev pub staff : Group
staff = record { id = codes "g1"; name = codes "staff"; parent_group_id = none }

abbrev pub devs : Group
devs = record { id = codes "g2"; name = codes "devs"; parent_group_id = some (codes "g1") }

-- Two groups that are each other's parent.
abbrev knot : List Group
knot =
    record { id = codes "g1"; name = codes "a"; parent_group_id = some (codes "g2") }
    ∷ record { id = codes "g2"; name = codes "b"; parent_group_id = some (codes "g1") }
    ∷ []

abbrev pub tables : Bool → Db
tables enforced = record {
  enforced = enforced;
  users = codes "u1" ∷ [];
  groups = staff ∷ devs ∷ [];
  roles = record { id = codes "r1"; name = codes "reader"; description = [] } ∷ [];
  permissions = record { id = codes "p1"; resource = codes "db/*"; action = codes "read" } ∷ [];
  user_groups = (codes "u1", codes "g2") ∷ [];
  group_roles = (codes "g1", codes "r1") ∷ [];
  user_roles = [];
  role_permissions = (codes "r1", codes "p1") ∷ [];
}

by_parent_group :
    has (resolve_from_db (tables true) (codes "u1")) (codes "db/x") (codes "read") ≡ true
unfolding has resolve_from_db permissions_for role_ids_for distinct expand_ancestor_groups str_eq
    climb_all climb links matches cut_suffix has_prefix
by_parent_group = refl

knot_is_walked : expand_ancestor_groups knot (codes "g1" ∷ []) ≡ codes "g1" ∷ codes "g2" ∷ []
unfolding expand_ancestor_groups climb_all climb links str_eq
knot_is_walked = refl

expand-Unique_example : Unique (expand_ancestor_groups knot (codes "g1" ∷ codes "g2" ∷ []))
expand-Unique_example = expand-Unique knot (codes "g1" ∷ codes "g2" ∷ [])

devs_end : All (Ends (links (staff ∷ devs ∷ [])) max_depth) (codes "g2" ∷ [])
unfolding links str_eq
devs_end = (link (link (root refl)), tt)

two_ids : UniqueIds (staff ∷ devs ∷ [])
unfolding str_eq
two_ids = (refl, (refl, tt))

expand_iff_example :
    In (codes "g1") (expand_ancestor_groups (staff ∷ devs ∷ []) (codes "g2" ∷ [])) ↔ (
      (codes "g1" ≢ [])
      × (g : Str) × In g (codes "g2" ∷ [])
      × IsAbove (staff ∷ devs ∷ []) g (codes "g1"))
expand_iff_example = expand_iff (staff ∷ devs ∷ []) (codes "g2" ∷ []) (codes "g1") two_ids devs_end

within : WithinDepth (tables true) (codes "u1")
unfolding str_eq
within = devs_end

resolve_iff_example :
    (has (resolve_from_db (tables true) (codes "u1")) (codes "db/x") (codes "read") ≡ true)
    ↔ Allowed (tables true) (codes "u1") (codes "db/x") (codes "read")
resolve_iff_example = resolve_iff (tables true) (codes "u1") (codes "db/x") (codes "read") within

-- The user is resolved, joins a group, and the role goes.
abbrev ops : List Op
ops =
    resolves 0 (codes "u1")
    ∷ add_user_to_group (codes "u1") (codes "g1")
    ∷ resolves 1 (codes "u1")
    ∷ delete_role (codes "r1")
    ∷ []

abbrev start : Store
start = record { db = tables true; cache = empty }

resolve-run_example :
    (resolve 2 (codes "u1") (run ops start)).1 ≡ resolve_from_db (run ops start).db (codes "u1")
resolve-run_example = resolve-run (tables true) ops 2 (codes "u1") (tt, (tt, (tt, (tt, tt))))

before_delete : has (resolve_from_db start.db (codes "u1")) (codes "db/x") (codes "read") ≡ true
unfolding has resolve_from_db permissions_for role_ids_for distinct expand_ancestor_groups str_eq
    climb_all climb links matches cut_suffix has_prefix
before_delete = refl

after_delete :
    has
      (resolve_from_db (step (delete_role (codes "r1")) start).db (codes "u1"))
      (codes "db/x")
      (codes "read")
    ≡ false
unfolding has resolve_from_db permissions_for role_ids_for distinct expand_ancestor_groups str_eq
    climb_all climb links matches cut_suffix has_prefix step Admin.delete_role drop_role
after_delete = refl

late_store_keeps_permission_example :
    let read = resolve_from_db start.db (codes "u1") in
    ((has_permission 5
        (codes "u1")
        (codes "db/x")
        (codes "read")
        (step (delete_role (codes "r1")) (remember 0 (codes "u1") read start))).1
      ≡ false)
    × ((has_permission 5
          (codes "u1")
          (codes "db/x")
          (codes "read")
          (remember 0 (codes "u1") read (step (delete_role (codes "r1")) start))).1
        ≡ true)
late_store_keeps_permission_example =
    late_store_keeps_permission start (delete_role (codes "r1")) 0 5 (codes "u1") (codes "db/x")
      (codes "read") (omega arith) (empty-Coherent (tables true)) tt before_delete after_delete

within_run : WithinDepth (run ops start).db (codes "u1")
unfolding run step Admin.delete_role drop_role resolve get Admin.add_user_to_group str_eq invalidate
    delete links
within_run = (link (link (root refl)), (link (root refl), tt))
