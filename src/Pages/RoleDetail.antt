-- ===== src/Pages/RoleDetail.antt =====
-- web/app/(app)/roles/detail/page.tsx: one role, with the permissions that it is granted.
use idpforge.Base.{
  ◌≡◌, true, false, Option, none, some, List, [], ◌∷◌, ◌++◌, All, All-map_of, Str, codes, is_empty,
  if◌then◌else◌, map, inl, inr, Bool-cases,
}
use idpforge.Permission.{Locals, Resolved, has_permission_ui}
use idpforge.Router.Fiber.{Fiber}
use idpforge.Router.Serve.{Gate}
use idpforge.Console.{
  Call, get_role, role_permissions, permissions, grant_permission, revoke_permission,
}
use idpforge.Console.Nav.{me_permissions}
use idpforge.Console.Response.{Reply}
use idpforge.Pages.Data.{Role, PermissionRecord}
use idpforge.Pages.View.{
  Shown, title, text, link, select, button, each, sections, ◌&◌, AllOffered, AllOffered-sections,
  AllOffered-each, AllOffered-map,
}
use idpforge.Pages.Report.{
  Flash, show_flash, Task, load, send, flash_of, reload, AllPermitted, AllServed,
  AllPermitted-AllServed, SignedIn, AllOffered-show_flash,
}

pub record RoleDetail : Type 0 where
  pub role : Option Role
  pub granted : List PermissionRecord
  pub all : List PermissionRecord
  pub selected : Str
  pub flash : Option Flash

-- `refresh`
abbrev pub refresh : Str → List Call
refresh id = get_role id ∷ role_permissions id ∷ permissions ∷ []

abbrev pub opened : Str → RoleDetail × List Task
opened id = (
  record { role = none; granted = []; all = []; selected = []; flash = none },
  map load (refresh id),
)

pub data Event : Type 0 where
  got_role : Role → Event
  got_granted got_all : List PermissionRecord → Event
  reported : Str → Str → Reply (Unit {0}) → Event
  revokes selects : Str → Event
  grants : Event

unfoldable pub update : Str → Event → RoleDetail → RoleDetail × List Task
update id (got_role r) s = (record s { role = some r }, [])
update id (got_granted ps) s = (record s { granted = ps }, [])
update id (got_all ps) s = (record s { all = ps }, [])
update id (reported ok_msg fail_msg r) s =
    (record s { flash = some (flash_of ok_msg fail_msg r) }, reload r (refresh id))
update id (revokes permission_id) s = (
  s,
  send (revoke_permission id permission_id) (codes "Permission revoked")
        (codes "Could not revoke permission")
      ∷ [],
)
update id (selects t) s = (record s { selected = t }, [])
update id grants s = if is_empty s.selected then (s, []) else (
  s,
  send (grant_permission id s.selected) (codes "Permission granted")
        (codes "Could not grant permission")
      ∷ [],
)

abbrev pub granted_row : PermissionRecord → List (Shown Event)
granted_row p =
    Shown.value p.resource ∷ Shown.value p.action ∷ button true "Revoke" (revokes p.id) ∷ []

abbrev pub role_title : Option Role → List (Shown Event)
role_title none = title "Role" ∷ []
role_title (some r) = Shown.value r.name ∷ []

abbrev pub parts : RoleDetail → List (List (Shown Event))
parts s =
    role_title s.role
    ∷ show_flash s.flash
    ∷ (text "Resource" ∷ text "Action" ∷ each granted_row s.granted)
    ∷ (select
          (([], codes "Select a permission")
            ∷ map (λ (p : PermissionRecord). (p.id, p.resource ++ codes ":" ++ p.action)) s.all)
          s.selected selects
        ∷ button true "Grant" grants
        ∷ [])
    ∷ (link (codes "/roles") (codes "back to roles") ∷ [])
    ∷ []

unfoldable pub view : RoleDetail → List (Shown Event)
view s = sections (parts s)

module _ (perms : List Str) (id : Str) (s : RoleDetail)
    (may : has_permission_ui perms (codes "rbac") (codes "manage") ≡ true)
    (named : is_empty id ≡ false) where
  abbrev P : Event → Type 0
  P e = AllPermitted perms (update id e s).1

  grant-permitted : P grants
  unfolding update
  grant-permitted = elim (Bool-cases (is_empty s.selected)) [
    | inl e ↦ rw e tt
    | inr e ↦ rw e (((may & tt) & named) & tt)
  ]

  title-permitted : (o : Option Role) → AllOffered P (role_title o)
  title-permitted none = tt
  title-permitted (some r) = tt

  offers_permitted :
      All (λ (p : PermissionRecord). is_empty p.id ≡ false) s.granted → AllOffered P (view s)
  unfolding view update
  offers_permitted rows = AllOffered-sections P (parts s) (
      title-permitted s.role
      & AllOffered-show_flash P s.flash
      & AllOffered-each P granted_row s.granted
          (All-map_of (λ p h. (λ on. ((may & tt) & (named, h)) & tt) & tt) s.granted rows)
      & ((λ t. tt) & (λ on. grant-permitted) & tt)
      & tt
      & tt)

-- Every call that the page of a role offers to a user who may manage the roles is served.
pub role_detail_served :
    (f : Fiber) (g : Gate) (c : Locals) (r : Resolved) (id : Str) (s : RoleDetail)
    → SignedIn g c r
    → has_permission_ui (me_permissions (some r)) (codes "rbac") (codes "manage") ≡ true
    → is_empty id ≡ false
    → All (λ (p : PermissionRecord). is_empty p.id ≡ false) s.granted
    → AllOffered (λ e. AllServed f g (update id e s).1) (view s)
role_detail_served f g c r id s signed may named rows =
    AllOffered-map _ _ (view s) (λ e h. AllPermitted-AllServed f g c r (update id e s).1 signed h)
      (offers_permitted (me_permissions (some r)) id s may named rows)
