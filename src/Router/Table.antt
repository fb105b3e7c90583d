-- ===== src/Router/Table.antt =====
-- internal/httpserver/router.go, `registerRoutes`, and the middleware that `New` in server.go
-- registers before it.
use idpforge.Base.{List, [], ◌∷◌, ◌++◌, Str, codes}
use idpforge.Router.{
  get, post, patch, delete, Segment, lit, param, Handler, Registration, uses, route, request_id,
  metrics_middleware, security_headers, csrf_origin_check, rate_limit_global, rate_limit_login,
  authenticate_any, require_user_actor, require_device_key, require_api_client, ws_auth_context,
  ws_upgrade_guard, spa, require_permission, handle, Action,
}

-- The registrations of `New`.
abbrev pub global_middleware : List Registration
global_middleware =
    uses [] (request_id ∷ [])
    ∷ uses [] (metrics_middleware ∷ [])
    ∷ uses [] (security_headers ∷ [])
    ∷ uses [] (csrf_origin_check ∷ [])
    ∷ []

abbrev pub api_v1 : List Segment → List Segment
api_v1 rest = lit (codes "api") ∷ lit (codes "v1") ∷ rest

abbrev pub api_prefix : List Str → List Str
api_prefix rest = codes "api" ∷ codes "v1" ∷ rest

-- The routes before the group of "/api/v1".
abbrev pub public_routes : List Registration
public_routes =
    route get (lit (codes "healthz") ∷ []) (handle Action.health ∷ [])
    ∷ route get (lit (codes "metrics") ∷ []) (handle Action.metrics ∷ [])
    ∷ uses (codes ".well-known" ∷ []) (rate_limit_global ∷ [])
    ∷ route get (lit (codes ".well-known") ∷ lit (codes "openid-configuration") ∷ [])
        (handle Action.discovery ∷ [])
    ∷ uses (codes "oauth2" ∷ []) (rate_limit_global ∷ [])
    ∷ route get (lit (codes "oauth2") ∷ lit (codes "jwks") ∷ []) (handle Action.jwks ∷ [])
    ∷ route get (lit (codes "oauth2") ∷ lit (codes "authorize") ∷ []) (handle Action.authorize ∷ [])
    ∷ route post (lit (codes "oauth2") ∷ lit (codes "token") ∷ []) (handle Action.token ∷ [])
    ∷ route get (lit (codes "oauth2") ∷ lit (codes "userinfo") ∷ []) (handle Action.userinfo ∷ [])
    ∷ route post (api_v1 (lit (codes "login") ∷ [])) (rate_limit_login ∷ handle Action.login ∷ [])
    ∷ route post (api_v1 (lit (codes "logout") ∷ [])) (handle Action.logout ∷ [])
    ∷ uses (api_prefix []) (authenticate_any ∷ rate_limit_global ∷ [])
    ∷ []

abbrev pub users : List Segment → List Segment
users rest = api_v1 (lit (codes "users") ∷ rest)

abbrev pub may : Str → Str → Handler
may = require_permission

abbrev pub users_routes : List Registration
users_routes =
    route post (users []) (may (codes "users") (codes "manage") ∷ handle Action.create_user ∷ [])
    ∷ route get (users []) (may (codes "users") (codes "read") ∷ handle Action.list_users ∷ [])
    ∷ route get (users (param ∷ []))
        (may (codes "users") (codes "read") ∷ handle Action.get_user ∷ [])
    ∷ route patch (users (param ∷ []))
        (may (codes "users") (codes "manage") ∷ handle Action.update_user ∷ [])
    ∷ route delete (users (param ∷ []))
        (may (codes "users") (codes "manage") ∷ handle Action.delete_user ∷ [])
    ∷ route post (users (param ∷ lit (codes "offboard") ∷ []))
        (may (codes "users") (codes "manage") ∷ handle Action.offboard_user ∷ [])
    ∷ route post (users (param ∷ lit (codes "reset-password") ∷ []))
        (may (codes "users") (codes "manage") ∷ handle Action.reset_user_password ∷ [])
    ∷ route post (users (param ∷ lit (codes "device-credentials") ∷ []))
        (may (codes "users") (codes "manage") ∷ handle Action.add_device_credential ∷ [])
    ∷ route get (users (param ∷ lit (codes "device-credentials") ∷ []))
        (may (codes "users") (codes "read") ∷ handle Action.list_device_credentials ∷ [])
    ∷ route delete (users (param ∷ lit (codes "device-credentials") ∷ param ∷ []))
        (may (codes "users") (codes "manage") ∷ handle Action.delete_device_credential ∷ [])
    ∷ []

-- The routes of the group `self`.
abbrev pub self_tail : List Registration
self_tail =
    route post (users (param ∷ lit (codes "avatar") ∷ [])) (handle Action.upload_avatar ∷ [])
    ∷ route get (api_v1 (lit (codes "me") ∷ [])) (handle Action.me ∷ [])
    ∷ route post (api_v1 (lit (codes "change-password") ∷ [])) (handle Action.change_password ∷ [])
    ∷ route post
        (api_v1 (lit (codes "webauthn") ∷ lit (codes "register") ∷ lit (codes "begin") ∷ []))
        (handle Action.web_authn_register_begin ∷ [])
    ∷ route post
        (api_v1 (lit (codes "webauthn") ∷ lit (codes "register") ∷ lit (codes "finish") ∷ []))
        (handle Action.web_authn_register_finish ∷ [])
    ∷ route post (api_v1 (lit (codes "webauthn") ∷ lit (codes "login") ∷ lit (codes "begin") ∷ []))
        (handle Action.web_authn_login_begin ∷ [])
    ∷ route post (api_v1 (lit (codes "webauthn") ∷ lit (codes "login") ∷ lit (codes "finish") ∷ []))
        (handle Action.web_authn_login_finish ∷ [])
    ∷ route post (api_v1 (lit (codes "mfa") ∷ lit (codes "enroll") ∷ []))
        (handle Action.mfa_enroll ∷ [])
    ∷ route post (api_v1 (lit (codes "mfa") ∷ lit (codes "confirm") ∷ []))
        (handle Action.mfa_confirm ∷ [])
    ∷ route post (api_v1 (lit (codes "mfa") ∷ lit (codes "verify") ∷ []))
        (handle Action.mfa_verify ∷ [])
    ∷ route post (api_v1 (lit (codes "mfa") ∷ lit (codes "disable") ∷ []))
        (handle Action.mfa_disable ∷ [])
    ∷ []

-- The group of "/" with `requireUserActor` covers what "/api/v1" covers.
abbrev pub self_routes : List Registration
self_routes = uses (api_prefix []) (require_user_actor ∷ []) ∷ self_tail

abbrev pub rbac : List Segment → List Segment
rbac rest = api_v1 (lit (codes "rbac") ∷ rest)

abbrev pub roles : List Segment → List Segment
roles rest = rbac (lit (codes "roles") ∷ rest)

abbrev pub groups : List Segment → List Segment
groups rest = rbac (lit (codes "groups") ∷ rest)

abbrev pub rbac_users : List Segment → List Segment
rbac_users rest = rbac (lit (codes "users") ∷ param ∷ lit (codes "roles") ∷ rest)

abbrev pub rbac_routes : List Registration
rbac_routes =
    uses (api_prefix (codes "rbac" ∷ [])) (may (codes "rbac") (codes "manage") ∷ [])
    ∷ route post (roles []) (handle Action.create_role ∷ [])
    ∷ route get (roles []) (handle Action.list_roles ∷ [])
    ∷ route get (roles (param ∷ [])) (handle Action.get_role ∷ [])
    ∷ route get (roles (param ∷ lit (codes "permissions") ∷ []))
        (handle Action.list_role_permissions ∷ [])
    ∷ route delete (roles (param ∷ [])) (handle Action.delete_role ∷ [])
    ∷ route post (roles (param ∷ lit (codes "permissions") ∷ []))
        (handle Action.grant_permission_to_role ∷ [])
    ∷ route delete (roles (param ∷ lit (codes "permissions") ∷ param ∷ []))
        (handle Action.revoke_permission_from_role ∷ [])
    ∷ route post (rbac (lit (codes "permissions") ∷ [])) (handle Action.create_permission ∷ [])
    ∷ route get (rbac (lit (codes "permissions") ∷ [])) (handle Action.list_permissions ∷ [])
    ∷ route post (groups []) (handle Action.create_group ∷ [])
    ∷ route get (groups []) (handle Action.list_groups ∷ [])
    ∷ route post (groups (param ∷ lit (codes "roles") ∷ []))
        (handle Action.assign_role_to_group ∷ [])
    ∷ route delete (groups (param ∷ lit (codes "roles") ∷ param ∷ []))
        (handle Action.remove_role_from_group ∷ [])
    ∷ route post (groups (param ∷ lit (codes "users") ∷ param ∷ []))
        (handle Action.add_user_to_group ∷ [])
    ∷ route delete (groups (param ∷ lit (codes "users") ∷ param ∷ []))
        (handle Action.remove_user_from_group ∷ [])
    ∷ route get (rbac_users []) (handle Action.list_user_roles ∷ [])
    ∷ route post (rbac_users []) (handle Action.assign_role_to_user ∷ [])
    ∷ route delete (rbac_users (param ∷ [])) (handle Action.remove_role_from_user ∷ [])
    ∷ []

abbrev pub iot : List Segment → List Segment
iot rest = api_v1 (lit (codes "iot") ∷ rest)

abbrev pub api_clients : List Segment → List Segment
api_clients rest = api_v1 (lit (codes "api-clients") ∷ rest)

abbrev pub admin_routes : List Registration
admin_routes =
    uses (api_prefix (codes "iot" ∷ [])) (may (codes "iot") (codes "manage") ∷ [])
    ∷ route post (iot (lit (codes "devices") ∷ [])) (handle Action.create_device ∷ [])
    ∷ route get (iot (lit (codes "devices") ∷ [])) (handle Action.list_devices ∷ [])
    ∷ uses (api_prefix (codes "iot" ∷ [])) (may (codes "iot") (codes "read") ∷ [])
    ∷ route get (iot (lit (codes "events") ∷ [])) (handle Action.query_events ∷ [])
    ∷ uses (api_prefix (codes "api-clients" ∷ [])) (may (codes "api_clients") (codes "manage") ∷ [])
    ∷ route post (api_clients []) (handle Action.create_api_client ∷ [])
    ∷ route get (api_clients []) (handle Action.list_api_clients ∷ [])
    ∷ route delete (api_clients (param ∷ [])) (handle Action.delete_api_client ∷ [])
    ∷ route get (api_v1 (lit (codes "audit-logs") ∷ []))
        (may (codes "audit") (codes "read") ∷ handle Action.query_audit_logs ∷ [])
    ∷ route get (api_v1 (lit (codes "metrics") ∷ lit (codes "history") ∷ []))
        (may (codes "metrics") (codes "read") ∷ handle Action.metrics_history ∷ [])
    ∷ route get (api_v1 (lit (codes "settings") ∷ []))
        (may (codes "settings") (codes "read") ∷ handle Action.get_settings ∷ [])
    ∷ route get (api_v1 (lit (codes "announcements") ∷ [])) (handle Action.list_announcements ∷ [])
    ∷ route post (api_v1 (lit (codes "announcements") ∷ []))
        (may (codes "announcements") (codes "manage") ∷ handle Action.create_announcement ∷ [])
    ∷ route get (api_v1 (lit (codes "ws") ∷ []))
        (ws_auth_context ∷ ws_upgrade_guard ∷ handle Action.ws ∷ [])
    ∷ []

-- The routes behind "/api/v1", with the SPA that takes what is left.
abbrev pub other_routes : List Registration
other_routes =
    uses (codes "device" ∷ codes "v1" ∷ []) (require_device_key ∷ [])
    ∷ route post (lit (codes "device") ∷ lit (codes "v1") ∷ lit (codes "checkin") ∷ [])
        (handle Action.device_checkin ∷ [])
    ∷ uses (codes "external" ∷ codes "v1" ∷ []) (require_api_client ∷ [])
    ∷ route post (lit (codes "external") ∷ lit (codes "v1") ∷ lit (codes "login") ∷ [])
        (handle Action.external_login ∷ [])
    ∷ route get (lit (codes "external") ∷ lit (codes "v1") ∷ lit (codes "users") ∷ param ∷ [])
        (handle Action.external_get_user ∷ [])
    ∷ route post (lit (codes "external") ∷ lit (codes "v1") ∷ lit (codes "users") ∷ [])
        (handle Action.external_create_user ∷ [])
    ∷ route get (lit (codes "forwardauth") ∷ []) (handle Action.forward_auth ∷ [])
    ∷ uses [] (spa ∷ [])
    ∷ []

unfoldable pub register_routes : List Registration
register_routes =
    global_middleware ++ public_routes ++ users_routes ++ self_routes ++ rbac_routes ++ admin_routes
    ++ other_routes
