-- ===== src/Router.antt =====
-- internal/httpserver/router.go and the global middleware of server.go: the handlers that are
-- registered, in their order. A path is the list of its segments.
pub mod Table
pub mod Fiber
pub mod Serve
pub mod ApiClients
use idpforge.Base.{
  ℕ, Bool, true, false, not, ◌&&◌, List, [], ◌∷◌, ◌++◌, map, if◌then◌else◌, leb, ◌+◌, Str, str_eq,
  is_empty, has_prefix,
}

pub data Method : Type 0 where
  get post put patch delete : Method

-- A segment of a route's pattern: a text, or a parameter such as ":id".
pub data Segment : Type 0 where
  lit : Str → Segment
  param : Segment

-- The last handler of each route.
pub data Action : Type 0 where
  health metrics discovery jwks authorize token userinfo : Action
  login logout : Action
  create_user list_users get_user update_user delete_user offboard_user reset_user_password : Action
  add_device_credential list_device_credentials delete_device_credential : Action
  upload_avatar me change_password : Action
  web_authn_register_begin web_authn_register_finish : Action
  web_authn_login_begin web_authn_login_finish : Action
  mfa_enroll mfa_confirm mfa_verify mfa_disable : Action
  create_role list_roles get_role list_role_permissions delete_role : Action
  grant_permission_to_role revoke_permission_from_role create_permission list_permissions : Action
  create_group list_groups assign_role_to_group remove_role_from_group : Action
  add_user_to_group remove_user_from_group : Action
  list_user_roles assign_role_to_user remove_role_from_user : Action
  create_device list_devices query_events : Action
  create_api_client list_api_clients delete_api_client : Action
  query_audit_logs metrics_history get_settings : Action
  list_announcements create_announcement ws : Action
  device_checkin external_login external_get_user external_create_user forward_auth : Action

pub data Handler : Type 0 where
  request_id metrics_middleware security_headers csrf_origin_check : Handler
  rate_limit_global rate_limit_login : Handler
  authenticate_any require_user_actor require_device_key require_api_client : Handler
  ws_auth_context ws_upgrade_guard spa : Handler
  require_permission : Str → Str → Handler
  handle : Action → Handler

-- What an application registers: handlers for every path below a prefix (`Use`, and `Group` with
-- handlers), or for one method and pattern.
pub data Registration : Type 0 where
  uses : List Str → List Handler → Registration
  route : Method → List Segment → List Handler → Registration

abbrev pub lower : ℕ → ℕ
lower c = if leb b'A' c && leb c b'Z' then c + 32 else c

abbrev pub lower_case : Str → Str
lower_case = map lower

unfoldable pub method_eq : Method → Method → Bool
method_eq get get = true
method_eq post post = true
method_eq put put = true
method_eq patch patch = true
method_eq delete delete = true
method_eq _ _ = false

-- The path is the prefix or lies below it, whatever the case of its letters.
unfoldable pub below : List Str → List Str → Bool
below [] path = true
below (p ∷ ps) [] = false
below (p ∷ ps) (s ∷ path) = str_eq p (lower_case s) && below ps path

-- The text of the path starts with the text of the prefix: the last segment of the prefix may be
-- the start of a longer one.
unfoldable pub starts : List Str → List Str → Bool
starts [] path = true
starts (p ∷ ps) [] = false
starts (p ∷ []) (s ∷ path) = has_prefix (lower_case s) p
starts (p ∷ q ∷ ps) (s ∷ path) = str_eq p (lower_case s) && starts (q ∷ ps) path

-- A parameter stands for one segment that is not empty.
unfoldable pub fits : List Segment → List Str → Bool
fits [] [] = true
fits [] (s ∷ path) = false
fits (p ∷ ps) [] = false
fits (lit t ∷ ps) (s ∷ path) = str_eq t (lower_case s) && fits ps path
fits (param ∷ ps) (s ∷ path) = not (is_empty s) && fits ps path
