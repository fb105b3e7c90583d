-- ===== src/Pages/UserDetail/Served.antt =====
-- users/detail/page.tsx: the calls behind its buttons, and those that open it, against the server.
use idpforge.Base.{
  ◌≡◌, refl, ◌∙◌, inl, inr, Bool, true, false, not, Option, none, some, List, [], ◌∷◌, All,
  All-map_of, Str, codes, is_empty, str_eq, arith, In, Bool-cases,
}
use idpforge.Permission
use idpforge.Permission.{Locals, Resolved, has, has_permission_ui}
use idpforge.Router.Fiber.{Fiber}
use idpforge.Router.Table.{register_routes}
use idpforge.Router.Serve.{Gate, serve, no_locals, refused}
use idpforge.Console.{request_of, user_roles}
use idpforge.Console.Served.{guarded, call_is_served}
use idpforge.Console.Nav.{me_permissions}
use idpforge.Pages.Data.{User, Role, DeviceCredential}
use idpforge.Pages.View.{
  image, button, sections, ◌&◌, AllOffered, AllOffered-sections, AllOffered-each, AllOffered-when,
  AllOffered-if, AllOffered-map, AllOffered-select_or_custom,
}
use idpforge.Pages.Report.{
  load, AllPermitted, AllServed, AllPermitted-AllServed, SignedIn, AllOffered-show_flash,
}
use idpforge.Pages.UserDetail.{
  UserDetail, opened, Event, update, view, loaded_view, parts, account_buttons, role_row, role_form,
  credential_row, credential_form, picks_type, types_type, assigns, adds, removes_role,
  removes_credential, credential_types,
}

-- The rows that the server has sent carry their IDs.
pub record HasRowIds (s : UserDetail) : Type 0 where
  pub roles_named : All (λ (r : Role). is_empty r.id ≡ false) s.user_roles
  pub credentials_named : All (λ (c : DeviceCredential). is_empty c.id ≡ false) s.credentials

module _ (permissions : List Str) (id : Str) (s : UserDetail) (named : is_empty id ≡ false) where
  abbrev P : Event → Type 0
  P e = AllPermitted permissions (update id e s).1

  abbrev users_manage : Bool
  users_manage = has_permission_ui permissions (codes "users") (codes "manage")

  abbrev rbac_manage : Bool
  rbac_manage = has_permission_ui permissions (codes "rbac") (codes "manage")

  assigns-permitted : rbac_manage ≡ true → P assigns
  unfolding update
  assigns-permitted may = elim (Bool-cases (is_empty s.selected_role)) [
    | inl e ↦ rw e tt
    | inr e ↦ rw e (((may & tt) & named) & tt)
  ]

  adds-permitted : users_manage ≡ true → P adds
  unfolding update
  adds-permitted may = elim (Bool-cases (is_empty s.cred_type.value)) [
    | inl e ↦ rw e tt
    | inr e ↦ elim (Bool-cases (is_empty s.cred_ref)) [
      | inl f ↦ rw (e, f) tt
      | inr f ↦ rw (e, f) (((may & tt) & named) & tt)
    ]
  ]

  offers_permitted :
      (format_date_time : Str → Str) (u : User)
      → HasRowIds s
      → AllOffered P (loaded_view format_date_time permissions (some u) s)
  unfolding update
  offers_permitted format_date_time u rows =
      AllOffered-sections P (parts format_date_time users_manage rbac_manage u s) (
        AllOffered-when P (not (is_empty u.avatar_url)) (image u.avatar_url ∷ []) (λ on. tt)
        & tt
        & AllOffered-show_flash P s.flash
        & tt
        & AllOffered-if P users_manage _ _
            (λ may.
              (λ t. tt)
              & AllOffered-when P (not (str_eq s.employee_id_draft u.employee_id))
                  (button true "Save" Event.saves ∷ [])
                  (λ on. (λ b. ((may & tt) & named) & tt) & tt))
            tt
        & tt
        & AllOffered-when P users_manage account_buttons (λ may.
          (((may & tt) & named) & tt)
          & (((may & tt) & named) & tt)
          & (((may & tt) & named) & tt)
          & tt)
        & tt
        & AllOffered-each P (role_row rbac_manage) s.user_roles (
            All-map_of
              (λ r h.
                AllOffered-when P rbac_manage (button true "Remove" (removes_role r.id) ∷ [])
                  (λ may. (λ on. ((may & tt) & (named, h)) & tt) & tt))
              s.user_roles rows.roles_named)
        & AllOffered-when P rbac_manage (role_form s)
            (λ may. (λ t. tt) & (λ on. assigns-permitted may) & tt)
        & tt
        & AllOffered-each P (credential_row users_manage) s.credentials (
            All-map_of
              (λ c h.
                AllOffered-when P users_manage (button true "Remove" (removes_credential c.id) ∷ [])
                  (λ may. (λ on. ((may & tt) & (named, h)) & tt) & tt))
              s.credentials rows.credentials_named)
        & AllOffered-when P users_manage (sections (credential_form s)) (λ may.
          AllOffered-sections P (credential_form s) (
            tt
            & AllOffered-select_or_custom P credential_types s.cred_type picks_type types_type
                (λ t. tt) (λ t. tt)
            & ((λ t. tt) & (λ t. tt) & (λ on. adds-permitted may) & tt)
            & tt))
        & tt)

offers_permitted_any :
    (permissions : List Str) (id : Str) (format_date_time : Str → Str) (s : UserDetail)
    → is_empty id ≡ false
    → HasRowIds s
    → AllOffered
        (λ e. AllPermitted permissions (update id e s).1)
        (view format_date_time permissions s)
unfolding view
offers_permitted_any permissions id format_date_time s named rows = shown s.user
  where
    shown :
        (o : Option User)
        → AllOffered
            (λ e. AllPermitted permissions (update id e s).1)
            (loaded_view format_date_time permissions o s)
    shown none = tt
    shown (some u) = offers_permitted permissions id s named format_date_time u rows

-- Every call that the page of a user offers is one that the server serves: a button is shown to the
-- users alone who may do what it does. The page was opened with an ID, and its rows carry theirs.
pub user_detail_served :
    (f : Fiber) (g : Gate) (c : Locals) (r : Resolved) (id : Str) (format_date_time : Str → Str)
    (s : UserDetail)
    → SignedIn g c r
    → is_empty id ≡ false
    → HasRowIds s
    → AllOffered
        (λ e. AllServed f g (update id e s).1)
        (view format_date_time (me_permissions (some r)) s)
user_detail_served f g c r id format_date_time s signed named rows =
    AllOffered-map _ _ (view format_date_time (me_permissions (some r)) s)
      (λ e h. AllPermitted-AllServed f g c r (update id e s).1 signed h)
      (offers_permitted_any (me_permissions (some r)) id format_date_time s named rows)

-- A user who may read the users but not manage the roles opens the page of any user without the
-- roles: the call for them is refused.
pub roles_are_refused :
    (f : Fiber) (g : Gate) (c : Locals) (r : Resolved) (id : Str)
    → SignedIn g c r
    → is_empty id ≡ false
    → has r (codes "rbac") (codes "manage") ≡ false
    → In (load (user_roles id)) (opened id).1
      × (serve g no_locals (
            f.chain register_routes
              (request_of (user_roles id)).method
              (request_of (user_roles id)).path)
          ≡ refused 403)
unfolding guarded Permission.require_permission
roles_are_refused f g c r id s named may_not = (
  inr (inl refl),
  call_is_served f g c (user_roles id) s.known s.named s.passes named
      ∙ (let found = s.found in let named = s.named in ground arith),
)
