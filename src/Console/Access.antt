-- ===== src/Console/Access.antt =====
-- web/lib/api.ts against internal/httpserver/router.go: the handler that a call of the console is
-- for, and the permissions that it needs.
use idpforge.Base.{false, ◌≡◌, List, [], ◌∷◌, Str, codes, is_empty}
use idpforge.Router.{Action}
use idpforge.Console.{
  Call, login, logout, users_list, users_get, users_create, users_update, users_remove,
  users_offboard, users_reset_password, users_credentials, users_add_credential,
  users_remove_credential, roles, get_role, role_permissions, create_role, delete_role, permissions,
  create_permission, grant_permission, revoke_permission, user_roles, groups, create_group,
  assign_role_to_user, remove_role_from_user, mfa_enroll, mfa_confirm, mfa_disable,
  webauthn_register_begin, webauthn_register_finish, avatar_upload, api_clients_list,
  api_clients_create, api_clients_remove, iot_devices, iot_create_device, iot_events, audit_logs,
  metrics_history, settings, announcements_list, announcements_create,
}

-- The handler that a call is for.
abbrev pub action_of : Call → Action
action_of (login _ _ _ _) = Action.login
action_of logout = Action.logout
action_of (users_list _ _) = Action.list_users
action_of (users_get _) = Action.get_user
action_of (users_create _ _ _) = Action.create_user
action_of (users_update _ _ _ _) = Action.update_user
action_of (users_remove _) = Action.delete_user
action_of (users_offboard _) = Action.offboard_user
action_of (users_reset_password _) = Action.reset_user_password
action_of (users_credentials _) = Action.list_device_credentials
action_of (users_add_credential _ _ _ _) = Action.add_device_credential
action_of (users_remove_credential _ _) = Action.delete_device_credential
action_of roles = Action.list_roles
action_of (get_role _) = Action.get_role
action_of (role_permissions _) = Action.list_role_permissions
action_of (create_role _ _) = Action.create_role
action_of (delete_role _) = Action.delete_role
action_of permissions = Action.list_permissions
action_of (create_permission _ _) = Action.create_permission
action_of (grant_permission _ _) = Action.grant_permission_to_role
action_of (revoke_permission _ _) = Action.revoke_permission_from_role
action_of (user_roles _) = Action.list_user_roles
action_of groups = Action.list_groups
action_of (create_group _ _) = Action.create_group
action_of (assign_role_to_user _ _) = Action.assign_role_to_user
action_of (remove_role_from_user _ _) = Action.remove_role_from_user
action_of mfa_enroll = Action.mfa_enroll
action_of (mfa_confirm _) = Action.mfa_confirm
action_of (mfa_disable _) = Action.mfa_disable
action_of webauthn_register_begin = Action.web_authn_register_begin
action_of (webauthn_register_finish _) = Action.web_authn_register_finish
action_of (avatar_upload _ _ _) = Action.upload_avatar
action_of api_clients_list = Action.list_api_clients
action_of (api_clients_create _ _ _ _ _ _ _) = Action.create_api_client
action_of (api_clients_remove _) = Action.delete_api_client
action_of iot_devices = Action.list_devices
action_of (iot_create_device _ _ _ _ _) = Action.create_device
action_of (iot_events _) = Action.query_events
action_of (audit_logs _) = Action.query_audit_logs
action_of (metrics_history _) = Action.metrics_history
action_of settings = Action.get_settings
action_of announcements_list = Action.list_announcements
action_of (announcements_create _ _) = Action.create_announcement

abbrev users_read : List (Str × Str)
users_read = (codes "users", codes "read") ∷ []

abbrev users_manage : List (Str × Str)
users_manage = (codes "users", codes "manage") ∷ []

abbrev rbac_manage : List (Str × Str)
rbac_manage = (codes "rbac", codes "manage") ∷ []

-- The permissions that a call needs, in the order in which they are asked for. The events of the
-- devices need two.
abbrev pub needs : Call → List (Str × Str)
needs (users_list _ _) = users_read
needs (users_get _) = users_read
needs (users_create _ _ _) = users_manage
needs (users_update _ _ _ _) = users_manage
needs (users_remove _) = users_manage
needs (users_offboard _) = users_manage
needs (users_reset_password _) = users_manage
needs (users_credentials _) = users_read
needs (users_add_credential _ _ _ _) = users_manage
needs (users_remove_credential _ _) = users_manage
needs roles = rbac_manage
needs (get_role _) = rbac_manage
needs (role_permissions _) = rbac_manage
needs (create_role _ _) = rbac_manage
needs (delete_role _) = rbac_manage
needs permissions = rbac_manage
needs (create_permission _ _) = rbac_manage
needs (grant_permission _ _) = rbac_manage
needs (revoke_permission _ _) = rbac_manage
needs (user_roles _) = rbac_manage
needs groups = rbac_manage
needs (create_group _ _) = rbac_manage
needs (assign_role_to_user _ _) = rbac_manage
needs (remove_role_from_user _ _) = rbac_manage
needs api_clients_list = (codes "api_clients", codes "manage") ∷ []
needs (api_clients_create _ _ _ _ _ _ _) = (codes "api_clients", codes "manage") ∷ []
needs (api_clients_remove _) = (codes "api_clients", codes "manage") ∷ []
needs iot_devices = (codes "iot", codes "manage") ∷ []
needs (iot_create_device _ _ _ _ _) = (codes "iot", codes "manage") ∷ []
needs (iot_events _) = (codes "iot", codes "manage") ∷ (codes "iot", codes "read") ∷ []
needs (audit_logs _) = (codes "audit", codes "read") ∷ []
needs (metrics_history _) = (codes "metrics", codes "read") ∷ []
needs settings = (codes "settings", codes "read") ∷ []
needs (announcements_create _ _) = (codes "announcements", codes "manage") ∷ []
needs _ = []

-- The IDs that are put into the path of a call are not empty.
abbrev pub HasIds : Call → Type 0
HasIds (users_get id) = is_empty id ≡ false
HasIds (users_update id _ _ _) = is_empty id ≡ false
HasIds (users_remove id) = is_empty id ≡ false
HasIds (users_offboard id) = is_empty id ≡ false
HasIds (users_reset_password id) = is_empty id ≡ false
HasIds (users_credentials id) = is_empty id ≡ false
HasIds (users_add_credential id _ _ _) = is_empty id ≡ false
HasIds (users_remove_credential id cred_id) = (is_empty id ≡ false) × (is_empty cred_id ≡ false)
HasIds (get_role id) = is_empty id ≡ false
HasIds (role_permissions id) = is_empty id ≡ false
HasIds (delete_role id) = is_empty id ≡ false
HasIds (grant_permission role_id _) = is_empty role_id ≡ false
HasIds (revoke_permission role_id id) = (is_empty role_id ≡ false) × (is_empty id ≡ false)
HasIds (user_roles id) = is_empty id ≡ false
HasIds (assign_role_to_user id _) = is_empty id ≡ false
HasIds (remove_role_from_user id role_id) = (is_empty id ≡ false) × (is_empty role_id ≡ false)
HasIds (avatar_upload id _ _) = is_empty id ≡ false
HasIds (api_clients_remove id) = is_empty id ≡ false
HasIds _ = Unit
