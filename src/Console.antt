-- ===== src/Console.antt =====
-- web/lib/api.ts: the console's requests to the server's API.
pub mod Access
pub mod Served
pub mod Nav
pub mod Response
pub mod Realtime
pub mod Base64
pub mod SecurityKey
pub mod Tests
use idpforge.Base.{
  ℕ, Bool, true, false, ◌&&◌, Option, none, some, List, [], ◌∷◌, ◌++◌, if◌then◌else◌, leb, ltb,
  ◌==◌, Str, codes, is_empty,
}
use idpforge.Router.{Method}

-- A value of a JSON body; `absent` is `undefined`, which `JSON.stringify` leaves out.
pub data Field : Type 0 where
  text : Str → Field
  number : ℕ → Field
  texts : List Str → Field
  absent : Field

pub data Body : Type 0 where
  json : List (Str × Field) → Body
  raw : Str → Body
  -- What a caller passes on as it is.
  opaque_json : Str → Body

pub data Query : Type 0 where
  no_query : Query
  numbers : List (Str × ℕ) → Query
  as_given : Str → Query

-- What `request` fetches; the session cookie goes with it.
pub record Request : Type 0 where
  pub method : Method
  pub path : List Str
  pub query : Query
  pub body : Option Body
  pub content_type : Str

abbrev pub application_json : Str
application_json = codes "application/json"

abbrev pub request : Method → List Str → Query → Option Body → Request
request m path query body = record {
  method = m;
  path = codes "api" ∷ codes "v1" ∷ path;
  query = query;
  body = body;
  content_type = application_json;
}

abbrev pub get : List Str → Request
get path = request Method.get path no_query none

abbrev pub get_with : List Str → Query → Request
get_with path query = request Method.get path query none

abbrev pub post : List Str → List (Str × Field) → Request
post path fields = request Method.post path no_query (some (json fields))

-- `post` without a body.
abbrev pub post_nothing : List Str → Request
post_nothing path = request Method.post path no_query none

abbrev pub patch : List Str → List (Str × Field) → Request
patch path fields = request Method.patch path no_query (some (json fields))

abbrev pub del : List Str → Request
del path = request Method.delete path no_query none

abbrev pub post_raw : List Str → Str → Str → Request
post_raw path body content_type = record (request Method.post path no_query (some (raw body))) {
  content_type = content_type;
}

abbrev pub optional : Option Str → Field
optional none = absent
optional (some s) = text s

-- `s || undefined`
abbrev pub or_undefined : Str → Field
or_undefined [] = absent
or_undefined (c ∷ s) = text (c ∷ s)

-- The methods of `api`, with their arguments.
pub data Call : Type 0 where
  login : Str → Str → Str → Str → Call
  logout : Call
  users_list : ℕ → ℕ → Call
  users_get : Str → Call
  users_create : Str → Str → Option Str → Call
  users_update : Str → Option Str → Option Str → Option Str → Call
  users_remove users_offboard users_reset_password users_credentials : Str → Call
  users_add_credential : Str → Str → Str → Str → Call
  users_remove_credential : Str → Str → Call
  roles : Call
  get_role role_permissions : Str → Call
  create_role : Str → Str → Call
  delete_role : Str → Call
  permissions : Call
  create_permission grant_permission revoke_permission : Str → Str → Call
  user_roles : Str → Call
  groups : Call
  create_group assign_role_to_user remove_role_from_user : Str → Str → Call
  mfa_enroll : Call
  mfa_confirm mfa_disable : Str → Call
  webauthn_register_begin : Call
  webauthn_register_finish : Str → Call
  avatar_upload : Str → Str → Str → Call
  api_clients_list : Call
  api_clients_create : Str → Option Str → List Str → List Str → List Str → ℕ → ℕ → Call
  api_clients_remove : Str → Call
  iot_devices : Call
  iot_create_device : Str → Str → Str → Option Str → List Str → Call
  iot_events audit_logs : Str → Call
  metrics_history : ℕ → Call
  settings announcements_list : Call
  announcements_create : Str → Str → Call

abbrev pub users : List Str → List Str
users rest = codes "users" ∷ rest

abbrev pub rbac : List Str → List Str
rbac rest = codes "rbac" ∷ rest

-- An ID that is put into a path is one segment of it, as an ID without a slash is.
unfoldable pub request_of : Call → Request
request_of (login username password mfa_code captcha_token) = post (codes "login" ∷ []) (
    (codes "username", text username)
    ∷ (codes "password", text password)
    ∷ (codes "mfa_code", text mfa_code)
    ∷ (codes "captcha_token", text captcha_token)
    ∷ [])
request_of logout = post_nothing (codes "logout" ∷ [])
request_of (users_list limit offset) =
    get_with (users []) (numbers ((codes "limit", limit) ∷ (codes "offset", offset) ∷ []))
request_of (users_get id) = get (users (id ∷ []))
request_of (users_create username email employee_id) = post (users []) (
    (codes "username", text username)
    ∷ (codes "email", text email)
    ∷ (codes "employee_id", optional employee_id)
    ∷ [])
request_of (users_update id email employee_id status) = patch (users (id ∷ [])) (
    (codes "email", optional email)
    ∷ (codes "employee_id", optional employee_id)
    ∷ (codes "status", optional status)
    ∷ [])
request_of (users_remove id) = del (users (id ∷ []))
request_of (users_offboard id) = post_nothing (users (id ∷ codes "offboard" ∷ []))
request_of (users_reset_password id) = post_nothing (users (id ∷ codes "reset-password" ∷ []))
request_of (users_credentials id) = get (users (id ∷ codes "device-credentials" ∷ []))
request_of (users_add_credential id credential_type credential_ref label) =
    post (users (id ∷ codes "device-credentials" ∷ [])) (
      (codes "credential_type", text credential_type)
      ∷ (codes "credential_ref", text credential_ref)
      ∷ (codes "label", text label)
      ∷ [])
request_of (users_remove_credential id cred_id) =
    del (users (id ∷ codes "device-credentials" ∷ cred_id ∷ []))
request_of roles = get (rbac (codes "roles" ∷ []))
request_of (get_role id) = get (rbac (codes "roles" ∷ id ∷ []))
request_of (role_permissions id) = get (rbac (codes "roles" ∷ id ∷ codes "permissions" ∷ []))
request_of (create_role name description) =
    post (rbac (codes "roles" ∷ []))
      ((codes "name", text name) ∷ (codes "description", text description) ∷ [])
request_of (delete_role id) = del (rbac (codes "roles" ∷ id ∷ []))
request_of permissions = get (rbac (codes "permissions" ∷ []))
request_of (create_permission resource action) =
    post (rbac (codes "permissions" ∷ []))
      ((codes "resource", text resource) ∷ (codes "action", text action) ∷ [])
request_of (grant_permission role_id permission_id) =
    post (rbac (codes "roles" ∷ role_id ∷ codes "permissions" ∷ []))
      ((codes "permission_id", text permission_id) ∷ [])
request_of (revoke_permission role_id permission_id) =
    del (rbac (codes "roles" ∷ role_id ∷ codes "permissions" ∷ permission_id ∷ []))
request_of (user_roles user_id) = get (rbac (users (user_id ∷ codes "roles" ∷ [])))
request_of groups = get (rbac (codes "groups" ∷ []))
request_of (create_group name parent_group_id) =
    post (rbac (codes "groups" ∷ []))
      ((codes "name", text name) ∷ (codes "parent_group_id", or_undefined parent_group_id) ∷ [])
request_of (assign_role_to_user user_id role_id) =
    post (rbac (users (user_id ∷ codes "roles" ∷ []))) ((codes "role_id", text role_id) ∷ [])
request_of (remove_role_from_user user_id role_id) =
    del (rbac (users (user_id ∷ codes "roles" ∷ role_id ∷ [])))
request_of mfa_enroll = post_nothing (codes "mfa" ∷ codes "enroll" ∷ [])
request_of (mfa_confirm code) =
    post (codes "mfa" ∷ codes "confirm" ∷ []) ((codes "code", text code) ∷ [])
request_of (mfa_disable current_password) =
    post (codes "mfa" ∷ codes "disable" ∷ [])
      ((codes "current_password", text current_password) ∷ [])
request_of webauthn_register_begin =
    post_nothing (codes "webauthn" ∷ codes "register" ∷ codes "begin" ∷ [])
request_of (webauthn_register_finish body) =
    request Method.post (codes "webauthn" ∷ codes "register" ∷ codes "finish" ∷ []) no_query
      (some (opaque_json body))
request_of (avatar_upload id file content_type) =
    post_raw (users (id ∷ codes "avatar" ∷ [])) file content_type
request_of api_clients_list = get (codes "api-clients" ∷ [])
request_of (api_clients_create name folder scopes fields ips rate_max rate_window) =
    post (codes "api-clients" ∷ []) (
      (codes "name", text name)
      ∷ (codes "folder", optional folder)
      ∷ (codes "scopes", texts scopes)
      ∷ (codes "allowed_fields", texts fields)
      ∷ (codes "allowed_ips", texts ips)
      ∷ (codes "rate_limit_max", number rate_max)
      ∷ (codes "rate_limit_window_seconds", number rate_window)
      ∷ [])
request_of (api_clients_remove id) = del (codes "api-clients" ∷ id ∷ [])
request_of iot_devices = get (codes "iot" ∷ codes "devices" ∷ [])
request_of (iot_create_device name device_type location folder ips) =
    post (codes "iot" ∷ codes "devices" ∷ []) (
      (codes "name", text name)
      ∷ (codes "device_type", text device_type)
      ∷ (codes "location", text location)
      ∷ (codes "folder", optional folder)
      ∷ (codes "allowed_ips", texts ips)
      ∷ [])
request_of (iot_events params) = get_with (codes "iot" ∷ codes "events" ∷ []) (as_given params)
request_of (audit_logs params) = get_with (codes "audit-logs" ∷ []) (as_given params)
request_of (metrics_history days) =
    get_with (codes "metrics" ∷ codes "history" ∷ []) (numbers ((codes "days", days) ∷ []))
request_of settings = get (codes "settings" ∷ [])
request_of announcements_list = get (codes "announcements" ∷ [])
request_of (announcements_create message level) =
    post (codes "announcements" ∷ [])
      ((codes "message", text message) ∷ (codes "level", text level) ∷ [])
