-- ===== src/Console/Served.antt =====
-- web/lib/api.ts against internal/httpserver/router.go: what becomes of a call of the console.
use idpforge.Base.{
  ◌≡◌, refl, ap, ◌∙◌, true, false, List, [], ◌∷◌, ◌++◌, map, Str, is_empty, arith, str_eq,
  has_prefix,
}
use idpforge.Permission
use idpforge.Permission.{Locals, Resolved, next, fail}
use idpforge.Router.{
  Handler, require_permission, require_user_actor, handle, below, starts, fits, method_eq,
  request_id, metrics_middleware, security_headers, csrf_origin_check, rate_limit_login, Action,
}
use idpforge.Router.Table.{register_routes}
use idpforge.Router.Fiber.{Fiber, dispatch, is_clear, chain-dispatch}
use idpforge.Router.Serve.{
  Gate, accepted, serve, Outcome, reached, refused, no_locals, check_user_actor,
}
use idpforge.Router.ApiClients.{on_the_way, serve-on_the_way}
use idpforge.Console.Access.{action_of, needs, HasIds}
use idpforge.Console.{
  Call, request_of, login, logout, users_list, users_get, users_create, users_update, users_remove,
  users_offboard, users_reset_password, users_credentials, users_add_credential,
  users_remove_credential, roles, get_role, role_permissions, create_role, delete_role, permissions,
  create_permission, grant_permission, revoke_permission, user_roles, groups, create_group,
  assign_role_to_user, remove_role_from_user, mfa_enroll, mfa_confirm, mfa_disable,
  webauthn_register_begin, webauthn_register_finish, avatar_upload, api_clients_list,
  api_clients_create, api_clients_remove, iot_devices, iot_create_device, iot_events, audit_logs,
  metrics_history, settings, announcements_list, announcements_create,
}

-- The outcome of a handler behind permissions.
unfoldable pub guarded : Gate → Locals → List (Str × Str) → Action → Outcome
guarded g c [] a = reached a
guarded g c ((resource, action) ∷ ns) a =
    elim (Permission.require_permission g.resolve resource action c) [
      | next ↦ guarded g c ns a
      | fail code ↦ refused code
    ]

abbrev asks : List (Str × Str) → List Handler
asks = map (λ n. require_permission n.0 n.1)

serve-asks :
    (g : Gate) (c : Locals) (ns : List (Str × Str)) (a : Action) (hs : List Handler)
    → serve g c (asks ns ++ handle a ∷ hs) ≡ guarded g c ns a
unfolding serve guarded
serve-asks g c [] a hs = refl
serve-asks g c ((resource, action) ∷ ns) a hs = ground (arith, serve-asks g c ns a hs)

serve-user_asks :
    (g : Gate) (c : Locals) (ns : List (Str × Str)) (a : Action) (hs : List Handler)
    → is_empty c.user_id ≡ false
    → serve g c (require_user_actor ∷ asks ns ++ handle a ∷ hs) ≡ guarded g c ns a
unfolding serve check_user_actor
serve-user_asks g c ns a hs u = ground (arith, serve-asks g c ns a hs)

-- The handlers that a call meets, up to the one that it is for: none on the way to the login, the
-- permissions alone, or the check of the user before them.
data Way (q : Call) (hs : List Handler) : Type 0 where
  to_login :
      (rest : List Handler)
      → hs
        ≡ request_id
          ∷ metrics_middleware
          ∷ security_headers
          ∷ csrf_origin_check
          ∷ rate_limit_login
          ∷ handle (action_of q)
          ∷ rest
      → needs q ≡ []
      → Way q hs
  to_logout :
      (rest : List Handler)
      → hs
        ≡ request_id
          ∷ metrics_middleware
          ∷ security_headers
          ∷ csrf_origin_check
          ∷ handle (action_of q)
          ∷ rest
      → needs q ≡ []
      → Way q hs
  by_permission :
      (rest : List Handler)
      → hs ≡ on_the_way ++ asks (needs q) ++ handle (action_of q) ∷ rest
      → Way q hs
  by_user :
      (rest : List Handler)
      → hs ≡ on_the_way ++ require_user_actor ∷ asks (needs q) ++ handle (action_of q) ∷ rest
      → Way q hs

abbrev handlers_of : Call → List Handler
handlers_of q = dispatch register_routes (request_of q).method (request_of q).path

way : (q : Call) → HasIds q → Way q (handlers_of q)
unfolding dispatch register_routes below fits method_eq str_eq request_of
way (login _ _ _ _) h = to_login _ refl refl
way logout h = to_logout _ refl refl
way (users_list _ _) h = by_permission _ refl
way (users_get id) h = rw h (by_permission _ refl)
way (users_create _ _ _) h = by_permission _ refl
way (users_update id _ _ _) h = rw h (by_permission _ refl)
way (users_remove id) h = rw h (by_permission _ refl)
way (users_offboard id) h = rw h (by_permission _ refl)
way (users_reset_password id) h = rw h (by_permission _ refl)
way (users_credentials id) h = rw h (by_permission _ refl)
way (users_add_credential id _ _ _) h = rw h (by_permission _ refl)
way (users_remove_credential id cred_id) (h, k) = rw (h, k) (by_permission _ refl)
way roles h = by_user _ refl
way (get_role id) h = rw h (by_user _ refl)
way (role_permissions id) h = rw h (by_user _ refl)
way (create_role _ _) h = by_user _ refl
way (delete_role id) h = rw h (by_user _ refl)
way permissions h = by_user _ refl
way (create_permission _ _) h = by_user _ refl
way (grant_permission role_id _) h = rw h (by_user _ refl)
way (revoke_permission role_id id) (h, k) = rw (h, k) (by_user _ refl)
way (user_roles id) h = rw h (by_user _ refl)
way groups h = by_user _ refl
way (create_group _ _) h = by_user _ refl
way (assign_role_to_user id _) h = rw h (by_user _ refl)
way (remove_role_from_user id role_id) (h, k) = rw (h, k) (by_user _ refl)
way mfa_enroll h = by_user _ refl
way (mfa_confirm _) h = by_user _ refl
way (mfa_disable _) h = by_user _ refl
way webauthn_register_begin h = by_user _ refl
way (webauthn_register_finish _) h = by_user _ refl
way (avatar_upload id _ _) h = rw h (by_user _ refl)
way api_clients_list h = by_user _ refl
way (api_clients_create _ _ _ _ _ _ _) h = by_user _ refl
way (api_clients_remove id) h = rw h (by_user _ refl)
way iot_devices h = by_user _ refl
way (iot_create_device _ _ _ _ _) h = by_user _ refl
way (iot_events _) h = by_user _ refl
way (audit_logs _) h = by_user _ refl
way (metrics_history _) h = by_user _ refl
way settings h = by_user _ refl
way announcements_list h = by_user _ refl
way (announcements_create _ _) h = by_user _ refl

clear : (q : Call) → is_clear register_routes (request_of q).path ≡ true
unfolding is_clear register_routes below starts has_prefix str_eq request_of
clear (login _ _ _ _) = refl
clear logout = refl
clear (users_list _ _) = refl
clear (users_get _) = refl
clear (users_create _ _ _) = refl
clear (users_update _ _ _ _) = refl
clear (users_remove _) = refl
clear (users_offboard _) = refl
clear (users_reset_password _) = refl
clear (users_credentials _) = refl
clear (users_add_credential _ _ _ _) = refl
clear (users_remove_credential _ _) = refl
clear roles = refl
clear (get_role _) = refl
clear (role_permissions _) = refl
clear (create_role _ _) = refl
clear (delete_role _) = refl
clear permissions = refl
clear (create_permission _ _) = refl
clear (grant_permission _ _) = refl
clear (revoke_permission _ _) = refl
clear (user_roles _) = refl
clear groups = refl
clear (create_group _ _) = refl
clear (assign_role_to_user _ _) = refl
clear (remove_role_from_user _ _) = refl
clear mfa_enroll = refl
clear (mfa_confirm _) = refl
clear (mfa_disable _) = refl
clear webauthn_register_begin = refl
clear (webauthn_register_finish _) = refl
clear (avatar_upload _ _ _) = refl
clear api_clients_list = refl
clear (api_clients_create _ _ _ _ _ _ _) = refl
clear (api_clients_remove _) = refl
clear iot_devices = refl
clear (iot_create_device _ _ _ _ _) = refl
clear (iot_events _) = refl
clear (audit_logs _) = refl
clear (metrics_history _) = refl
clear settings = refl
clear announcements_list = refl
clear (announcements_create _ _) = refl

serve-Way :
    (g : Gate) (c : Locals) (q : Call) (hs : List Handler)
    → Way q hs
    → g.caller ≡ accepted c
    → is_empty c.user_id ≡ false
    → ((h : Handler) → g.middleware h ≡ next)
    → serve g no_locals hs ≡ guarded g c (needs q) (action_of q)
unfolding serve guarded
serve-Way g c q hs (to_login rest s n) e u passes =
    rw (s, n)
      (ground (
        arith,
        passes request_id,
        passes metrics_middleware,
        passes security_headers,
        passes csrf_origin_check,
        passes rate_limit_login,
      ))
serve-Way g c q hs (to_logout rest s n) e u passes =
    rw (s, n)
      (ground (
        arith,
        passes request_id,
        passes metrics_middleware,
        passes security_headers,
        passes csrf_origin_check,
      ))
serve-Way g c q hs (by_permission rest s) e u passes =
    ap (serve g no_locals) s
    ∙ serve-on_the_way g c (asks (needs q) ++ handle (action_of q) ∷ rest) e passes
    ∙ serve-asks g c (needs q) (action_of q) rest
serve-Way g c q hs (by_user rest s) e u passes =
    ap (serve g no_locals) s
    ∙ serve-on_the_way g c (require_user_actor ∷ asks (needs q) ++ handle (action_of q) ∷ rest) e
        passes
    ∙ serve-user_asks g c (needs q) (action_of q) rest u

-- Every call of the console is answered by its handler, where the signed-in user has the
-- permissions that the call needs, and is refused by the first permission that the user lacks; the
-- IDs in its path are not empty, and the other middleware lets the request pass.
pub call_is_served :
    (f : Fiber) (g : Gate) (c : Locals) (q : Call)
    → g.caller ≡ accepted c
    → is_empty c.user_id ≡ false
    → ((h : Handler) → g.middleware h ≡ next)
    → HasIds q
    → serve g no_locals (f.chain register_routes (request_of q).method (request_of q).path)
      ≡ guarded g c (needs q) (action_of q)
call_is_served f g c q e u passes ids =
    ap (serve g no_locals)
      (chain-dispatch f register_routes (request_of q).method (request_of q).path (clear q))
    ∙ serve-Way g c q (handlers_of q) (way q ids) e u passes
