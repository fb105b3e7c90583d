-- ===== src/Pages/RoleList.antt =====
-- web/app/(app)/roles/page.tsx: the roles, the permissions and the groups.
use idpforge.Base.{
  ◌≡◌, true, false, Option, none, some, List, [], ◌∷◌, ◌++◌, All, All-map_of, All-of, Str, codes,
  is_empty, if◌then◌else◌, map, inl, inr, Bool-cases,
}
use idpforge.Permission.{Locals, Resolved, has_permission_ui}
use idpforge.Router.Fiber.{Fiber}
use idpforge.Router.Serve.{Gate}
use idpforge.Console.{
  Call, roles, permissions, groups, create_role, delete_role, create_permission, create_group,
}
use idpforge.Console.Nav.{me_permissions}
use idpforge.Console.Response.{Reply}
use idpforge.Pages.Data.{Role, PermissionRecord, Group}
use idpforge.Pages.View.{
  Shown, title, text, link, input, button, ask, each, sections, ◌&◌, AllOffered,
  AllOffered-sections, AllOffered-each, AllOffered-map,
}
use idpforge.Pages.Report.{
  Flash, show_flash, Task, load, send, flash_of, reload, AllPermitted, AllServed,
  AllPermitted-AllServed, SignedIn, AllOffered-show_flash,
}

pub record RoleList : Type 0 where
  pub roles : List Role
  pub permissions : List PermissionRecord
  pub groups : List Group
  pub role_name : Str
  pub role_desc : Str
  pub perm_resource : Str
  pub perm_action : Str
  pub group_name : Str
  pub group_parent : Str
  pub flash : Option Flash

-- `refresh`
abbrev pub refresh : List Call
refresh = roles ∷ permissions ∷ groups ∷ []

abbrev pub opened : RoleList × List Task
opened = (
  record {
    roles = [];
    permissions = [];
    groups = [];
    role_name = [];
    role_desc = [];
    perm_resource = [];
    perm_action = [];
    group_name = [];
    group_parent = [];
    flash = none;
  },
  map load refresh,
)

pub data Event : Type 0 where
  got_roles : List Role → Event
  got_permissions : List PermissionRecord → Event
  got_groups : List Group → Event
  reported : Str → Str → Reply (Unit {0}) → Event
  sets_name sets_desc sets_resource sets_action sets_group sets_parent : Str → Event
  creates_role creates_permission creates_group : Event
  deletes : Str → Event

unfoldable pub update : Event → RoleList → RoleList × List Task
update (got_roles rs) s = (record s { roles = rs }, [])
update (got_permissions ps) s = (record s { permissions = ps }, [])
update (got_groups gs) s = (record s { groups = gs }, [])
update (reported ok_msg fail_msg r) s =
    (record s { flash = some (flash_of ok_msg fail_msg r) }, reload r refresh)
update (sets_name t) s = (record s { role_name = t }, [])
update (sets_desc t) s = (record s { role_desc = t }, [])
update (sets_resource t) s = (record s { perm_resource = t }, [])
update (sets_action t) s = (record s { perm_action = t }, [])
update (sets_group t) s = (record s { group_name = t }, [])
update (sets_parent t) s = (record s { group_parent = t }, [])
update creates_role s = if is_empty s.role_name then (s, []) else (
  record s { role_name = []; role_desc = [] },
  send (create_role s.role_name s.role_desc) (codes "Role created") (codes "Could not create role")
      ∷ [],
)
update (deletes id) s =
    (s, send (delete_role id) (codes "Role deleted") (codes "Could not delete role") ∷ [])
update creates_permission s =
    if is_empty s.perm_resource then (s, []) else if is_empty s.perm_action then (s, []) else (
      record s { perm_resource = []; perm_action = [] },
      send (create_permission s.perm_resource s.perm_action) (codes "Permission created")
            (codes "Could not create permission")
          ∷ [],
    )
update creates_group s = if is_empty s.group_name then (s, []) else (
  record s { group_name = []; group_parent = [] },
  send (create_group s.group_name s.group_parent) (codes "Group created")
        (codes "Could not create group")
      ∷ [],
)

abbrev pub role_row : Role → List (Shown Event)
role_row r =
    link (codes "/roles/detail?id=" ++ r.id) r.name
    ∷ Shown.value r.description
    ∷ link (codes "/roles/detail?id=" ++ r.id) (codes "Manage")
    ∷ ask "Delete" "Delete this role?" (deletes r.id)
    ∷ []

abbrev pub permission_row : PermissionRecord → List (Shown Event)
permission_row p = Shown.value p.resource ∷ Shown.value p.action ∷ []

abbrev pub group_row : Group → List (Shown Event)
group_row g =
    Shown.value g.name
    ∷ Shown.value (if is_empty g.parent_group_id then codes "-" else g.parent_group_id)
    ∷ []

abbrev pub parts : RoleList → List (List (Shown Event))
parts s =
    (title "Roles & permissions" ∷ [])
    ∷ show_flash s.flash
    ∷ (title "Add role"
        ∷ text "Name"
        ∷ input s.role_name sets_name
        ∷ text "Description"
        ∷ input s.role_desc sets_desc
        ∷ button true "Create" creates_role
        ∷ [])
    ∷ (text "Role" ∷ text "Description" ∷ each role_row s.roles)
    ∷ (title "All permissions"
        ∷ text "Resource"
        ∷ text "Action"
        ∷ each permission_row s.permissions)
    ∷ (text "Resource"
        ∷ input s.perm_resource sets_resource
        ∷ text "Action"
        ∷ input s.perm_action sets_action
        ∷ button true "Create permission" creates_permission
        ∷ [])
    ∷ (title "Groups" ∷ text "Name" ∷ text "Parent group" ∷ each group_row s.groups)
    ∷ (text "Name"
        ∷ input s.group_name sets_group
        ∷ text "Parent group ID (optional)"
        ∷ input s.group_parent sets_parent
        ∷ button true "Create group" creates_group
        ∷ [])
    ∷ []

unfoldable pub view : RoleList → List (Shown Event)
view s = sections (parts s)

module _ (perms : List Str) (s : RoleList) where
  abbrev P : Event → Type 0
  P e = AllPermitted perms (update e s).1

  module _ (may : has_permission_ui perms (codes "rbac") (codes "manage") ≡ true) where
    role-permitted : P creates_role
    unfolding update
    role-permitted = elim (Bool-cases (is_empty s.role_name)) [
      | inl e ↦ rw e tt
      | inr e ↦ rw e (((may & tt) & tt) & tt)
    ]

    permission-permitted : P creates_permission
    unfolding update
    permission-permitted = elim (Bool-cases (is_empty s.perm_resource)) [
      | inl e ↦ rw e tt
      | inr e ↦ elim (Bool-cases (is_empty s.perm_action)) [
        | inl f ↦ rw (e, f) tt
        | inr f ↦ rw (e, f) (((may & tt) & tt) & tt)
      ]
    ]

    group-permitted : P creates_group
    unfolding update
    group-permitted = elim (Bool-cases (is_empty s.group_name)) [
      | inl e ↦ rw e tt
      | inr e ↦ rw e (((may & tt) & tt) & tt)
    ]

    offers_permitted : All (λ (r : Role). is_empty r.id ≡ false) s.roles → AllOffered P (view s)
    unfolding view update
    offers_permitted named = AllOffered-sections P (parts s) (
        tt
        & AllOffered-show_flash P s.flash
        & ((λ t. tt) & (λ t. tt) & (λ on. role-permitted) & tt)
        & AllOffered-each P role_row s.roles
            (All-map_of (λ r h. (((may & tt) & h) & tt) & tt) s.roles named)
        & AllOffered-each P permission_row s.permissions (All-of (λ p. tt) s.permissions)
        & ((λ t. tt) & (λ t. tt) & (λ on. permission-permitted) & tt)
        & AllOffered-each P group_row s.groups (All-of (λ g. tt) s.groups)
        & ((λ t. tt) & (λ t. tt) & (λ on. group-permitted) & tt)
        & tt)

-- Every call that the page of the roles offers to a user who is shown it is served.
pub role_list_served :
    (f : Fiber) (g : Gate) (c : Locals) (r : Resolved) (s : RoleList)
    → SignedIn g c r
    → has_permission_ui (me_permissions (some r)) (codes "rbac") (codes "manage") ≡ true
    → All (λ (x : Role). is_empty x.id ≡ false) s.roles
    → AllOffered (λ e. AllServed f g (update e s).1) (view s)
role_list_served f g c r s signed may named =
    AllOffered-map _ _ (view s) (λ e h. AllPermitted-AllServed f g c r (update e s).1 signed h)
      (offers_permitted (me_permissions (some r)) s may named)
