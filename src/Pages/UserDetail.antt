-- ===== src/Pages/UserDetail.antt =====
-- web/app/(app)/users/detail/page.tsx: one user, with the roles and the device credentials.
pub mod Served
use idpforge.Base.{
  ℕ, ◌≡◌, refl, inl, inr, Bool, true, false, not, Option, none, some, List, [], ◌∷◌, ◌++◌, All, Str,
  codes, is_empty, if◌then◌else◌, str_eq, arith, map, All-map_of, Bool-cases,
}
use idpforge.Permission.{Locals, Resolved, has_permission_ui}
use idpforge.Router.Fiber.{Fiber}
use idpforge.Router.Serve.{Gate}
use idpforge.Console.{
  Call, users_get, users_update, users_reset_password, users_offboard, users_remove,
  users_credentials, users_add_credential, users_remove_credential, user_roles, roles,
  assign_role_to_user, remove_role_from_user,
}
use idpforge.Console.Nav.{me_permissions}
use idpforge.Console.Response.{Reply}
use idpforge.Pages.{Choice, choose, type_in, open_choice}
use idpforge.Pages.Data.{User, Role, DeviceCredential}
use idpforge.Pages.View.{
  Shown, Tone, plain, good, danger, title, text, badge, image, input, select, button, ask, when,
  each, sections, select_or_custom, ◌&◌, AllOffered, AllOffered-sections, AllOffered-each,
  AllOffered-when, AllOffered-if, AllOffered-map, AllOffered-select_or_custom,
}
use idpforge.Pages.Report.{
  Flash, show_flash, Task, load, send, flash_of, reload, AllPermitted, AllServed,
  AllPermitted-AllServed, SignedIn, AllOffered-show_flash,
}

-- `CREDENTIAL_TYPES`
abbrev pub credential_types : List Str
credential_types =
    codes "card" ∷ codes "face_2d" ∷ codes "face_3d" ∷ codes "fingerprint" ∷ codes "iris" ∷ []

pub record UserDetail : Type 0 where
  pub user : Option User
  pub user_roles : List Role
  pub all_roles : List Role
  pub credentials : List DeviceCredential
  pub selected_role : Str
  pub cred_type : Choice
  pub cred_ref : Str
  pub cred_label : Str
  pub employee_id_draft : Str
  pub flash : Option Flash

-- `refresh`
abbrev pub refresh : Str → List Call
refresh id = users_get id ∷ user_roles id ∷ roles ∷ users_credentials id ∷ []

abbrev pub opened : Str → UserDetail × List Task
opened id = (
  record {
    user = none;
    user_roles = [];
    all_roles = [];
    credentials = [];
    selected_role = [];
    cred_type = open_choice credential_types [];
    cred_ref = [];
    cred_label = [];
    employee_id_draft = [];
    flash = none;
  },
  map load (refresh id),
)

pub data Event : Type 0 where
  got_user : User → Event
  got_user_roles got_roles : List Role → Event
  got_credentials : List DeviceCredential → Event
  -- The answer of a call that `report` sent, with its two messages.
  reported : Str → Str → Reply (Unit {0}) → Event
  drafts picks_role picks_type types_type sets_ref sets_label : Str → Event
  saves resets offboards deletes assigns adds : Event
  removes_role removes_credential : Str → Event

-- What is left in the form after its credential is sent.
abbrev pub cleared : UserDetail → UserDetail
cleared s = record s { cred_type = type_in [] s.cred_type; cred_ref = []; cred_label = [] }

unfoldable pub update : Str → Event → UserDetail → UserDetail × List Task
update id (got_user u) s = (record s { user = some u; employee_id_draft = u.employee_id }, [])
update id (got_user_roles rs) s = (record s { user_roles = rs }, [])
update id (got_roles rs) s = (record s { all_roles = rs }, [])
update id (got_credentials cs) s = (record s { credentials = cs }, [])
update id (reported ok_msg fail_msg r) s =
    (record s { flash = some (flash_of ok_msg fail_msg r) }, reload r (refresh id))
update id (drafts t) s = (record s { employee_id_draft = t }, [])
update id (picks_role t) s = (record s { selected_role = t }, [])
update id (picks_type t) s = (record s { cred_type = choose t s.cred_type }, [])
update id (types_type t) s = (record s { cred_type = type_in t s.cred_type }, [])
update id (sets_ref t) s = (record s { cred_ref = t }, [])
update id (sets_label t) s = (record s { cred_label = t }, [])
update id saves s = (
  s,
  send (users_update id none (some s.employee_id_draft) none) (codes "Employee ID updated")
        (codes "Could not update employee ID")
      ∷ [],
)
update id resets s = (
  s,
  send (users_reset_password id)
        (codes "Password reset to the default; user must change it on next login")
        (codes "Could not reset password")
      ∷ [],
)
update id offboards s =
    (s, send (users_offboard id) (codes "User offboarded") (codes "Could not offboard user") ∷ [])
update id deletes s =
    (s, send (users_remove id) (codes "User deleted") (codes "Could not delete user") ∷ [])
update id (removes_role role_id) s = (
  s,
  send (remove_role_from_user id role_id) (codes "Role removed") (codes "Could not remove role")
      ∷ [],
)
update id assigns s = (
  s,
  if is_empty s.selected_role
      then []
      else send (assign_role_to_user id s.selected_role) (codes "Role assigned")
          (codes "Could not assign role")
        ∷ [],
)
update id (removes_credential cred_id) s = (
  s,
  send (users_remove_credential id cred_id) (codes "Credential removed")
        (codes "Could not remove credential")
      ∷ [],
)
update id adds s =
    if is_empty s.cred_type.value then (s, []) else if is_empty s.cred_ref then (s, []) else (
      cleared s,
      send (users_add_credential id s.cred_type.value s.cred_ref s.cred_label)
            (codes "Credential added")
            (codes "Could not add credential (already enrolled to someone?)")
          ∷ [],
    )

-- The row of the employee ID.
abbrev pub employee_row : Bool → User → UserDetail → List (Shown Event)
employee_row can_manage_users u s =
    if can_manage_users
    then input s.employee_id_draft drafts
      ∷ when (not (str_eq s.employee_id_draft u.employee_id)) (button true "Save" saves ∷ [])
    else Shown.value (if is_empty u.employee_id then codes "-" else u.employee_id) ∷ []

abbrev pub account_buttons : List (Shown Event)
account_buttons =
    ask "Reset to default password"
      "Reset this user's password to the organization default? They will be required to change it on next login."
      resets
    ∷ ask "Offboard" "Disable this account?" offboards
    ∷ ask "Delete" "Permanently delete this user?" deletes
    ∷ []

abbrev pub role_row : Bool → Role → List (Shown Event)
role_row can_manage_rbac r =
    Shown.value r.name ∷ when can_manage_rbac (button true "Remove" (removes_role r.id) ∷ [])

abbrev pub role_form : UserDetail → List (Shown Event)
role_form s =
    text "Assign role"
    ∷ select (([], codes "Select a role") ∷ map (λ (r : Role). (r.id, r.name)) s.all_roles)
        s.selected_role picks_role
    ∷ button true "Assign" assigns
    ∷ []

abbrev pub credential_row : Bool → DeviceCredential → List (Shown Event)
credential_row can_manage_users c =
    Shown.value c.credential_type
    ∷ Shown.value c.credential_ref
    ∷ Shown.value c.label
    ∷ when can_manage_users (button true "Remove" (removes_credential c.id) ∷ [])

abbrev pub credential_form : UserDetail → List (List (Shown Event))
credential_form s =
    (text "Type" ∷ [])
    ∷ select_or_custom credential_types s.cred_type picks_type types_type
    ∷ (text "Reference (card number / device template ID, never raw biometric data)"
        ∷ input s.cred_ref sets_ref
        ∷ text "Label"
        ∷ input s.cred_label sets_label
        ∷ button true "Add" adds
        ∷ [])
    ∷ []

module _ (format_date_time : Str → Str) where
  abbrev pub facts : User → List (Shown Event)
  facts u =
      text "Status"
      ∷ badge plain u.status
      ∷ text "MFA enabled"
      ∷ text (if u.mfa_enabled then "yes" else "no")
      ∷ text "Source"
      ∷ Shown.value u.source
      ∷ text "Password"
      ∷ badge (if u.force_password_change then danger else good) (
          if u.force_password_change then codes "must change on next login" else codes "up to date")
      ∷ text "Created"
      ∷ Shown.value (format_date_time u.created_at)
      ∷ []

  abbrev pub parts : Bool → Bool → User → UserDetail → List (List (Shown Event))
  parts can_manage_users can_manage_rbac u s =
      when (not (is_empty u.avatar_url)) (image u.avatar_url ∷ [])
      ∷ (Shown.value u.username ∷ [])
      ∷ show_flash s.flash
      ∷ (text "Email" ∷ Shown.value u.email ∷ text "Employee ID" ∷ [])
      ∷ employee_row can_manage_users u s
      ∷ facts u
      ∷ when can_manage_users account_buttons
      ∷ (title "Assigned roles" ∷ text "Role" ∷ [])
      ∷ each (role_row can_manage_rbac) s.user_roles
      ∷ when can_manage_rbac (role_form s)
      ∷ (title "Device credentials (card / face / fingerprint)"
          ∷ text "Type"
          ∷ text "Reference"
          ∷ text "Label"
          ∷ [])
      ∷ each (credential_row can_manage_users) s.credentials
      ∷ when can_manage_users (sections (credential_form s))
      ∷ []

  abbrev pub loaded_view : List Str → Option User → UserDetail → List (Shown Event)
  loaded_view permissions none s = text "Loading..." ∷ []
  loaded_view permissions (some u) s = sections (
      parts (has_permission_ui permissions (codes "users") (codes "manage"))
        (has_permission_ui permissions (codes "rbac") (codes "manage")) u s)

  unfoldable pub view : List Str → UserDetail → List (Shown Event)
  view permissions s = loaded_view permissions s.user s
