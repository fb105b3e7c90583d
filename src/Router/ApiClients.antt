-- ===== src/Router/ApiClients.antt =====
-- What an API client reaches.
use idpforge.Base.{
  ◌≡◌, refl, ap, ◌∙◌, ap₂, true, false, List, [], ◌∷◌, ◌++◌, Str, codes, str_eq, has_prefix,
  is_empty, arith,
}
use idpforge.Permission.{Locals, next}
use idpforge.Router.{
  Method, get, post, put, patch, delete, below, starts, fits, method_eq, Handler, lower_case,
  Registration, request_id, metrics_middleware, security_headers, csrf_origin_check,
  rate_limit_global, authenticate_any, require_user_actor, uses,
}
use idpforge.Router.Table.{
  register_routes, global_middleware, public_routes, users_routes, self_tail, rbac_routes,
  admin_routes, other_routes, api_prefix,
}
use idpforge.Router.Fiber.{Fiber, dispatch, is_clear, chain-append}
use idpforge.Router.Serve.{Gate, accepted, serve, refused, no_locals, check_user_actor}

abbrev before_self : List Registration
before_self = global_middleware ++ public_routes ++ users_routes

abbrev pub on_the_way : List Handler
on_the_way =
    request_id ∷ metrics_middleware ∷ security_headers ∷ csrf_origin_check ∷ authenticate_any
    ∷ rate_limit_global ∷ []

-- A path below "/api/v1" for something other than the users and the login.
abbrev pub Elsewhere : Str → Type 0
Elsewhere area =
    (str_eq (codes "users") (lower_case area) ≡ false)
    × (str_eq (codes "login") (lower_case area) ≡ false)
    × (str_eq (codes "logout") (lower_case area) ≡ false)

dispatch-before_self :
    (m : Method) (area : Str) (rest : List Str)
    → Elsewhere area
    → dispatch before_self m (api_prefix (area ∷ rest)) ≡ on_the_way
unfolding dispatch below fits method_eq str_eq
dispatch-before_self get area rest (u, i, o) = rw u
dispatch-before_self post area rest (u, i, o) = rw (u, i, o)
dispatch-before_self put area rest (u, i, o) = refl
dispatch-before_self patch area rest (u, i, o) = rw u
dispatch-before_self delete area rest (u, i, o) = rw u

clear_before_self :
    (area : Str) (rest : List Str) → is_clear before_self (api_prefix (area ∷ rest)) ≡ true
unfolding is_clear below starts str_eq has_prefix
clear_before_self area rest = refl

abbrev register_routes_tail : List Registration
register_routes_tail = self_tail ++ rbac_routes ++ admin_routes ++ other_routes

below_api : (area : Str) (rest : List Str) → below (api_prefix []) (api_prefix (area ∷ rest)) ≡ true
unfolding below str_eq
below_api area rest = refl

routes_split :
    register_routes
    ≡ before_self ++ uses (api_prefix []) (require_user_actor ∷ []) ∷ register_routes_tail
unfolding register_routes
routes_split = refl

chain-Elsewhere :
    (f : Fiber) (m : Method) (area : Str) (rest : List Str)
    → Elsewhere area
    → f.chain register_routes m (api_prefix (area ∷ rest))
      ≡ on_the_way ++ require_user_actor ∷ f.chain register_routes_tail m (api_prefix (area ∷ rest))
chain-Elsewhere f m area rest e =
    let path = api_prefix (area ∷ rest) in
    ap (λ t. f.chain t m path) routes_split
    ∙ chain-append f before_self
        (uses (api_prefix []) (require_user_actor ∷ []) ∷ register_routes_tail) m path
        (clear_before_self area rest)
    ∙ ap₂ (λ x y. x ++ y) (dispatch-before_self m area rest e)
        (f.uses_below (api_prefix []) (require_user_actor ∷ []) register_routes_tail m path
          (below_api area rest))

-- The handlers that a caller meets first on a path below "/api/v1".
pub serve-on_the_way :
    (g : Gate) (c : Locals) (hs : List Handler)
    → g.caller ≡ accepted c
    → ((h : Handler) → g.middleware h ≡ next)
    → serve g no_locals (on_the_way ++ hs) ≡ serve g c hs
unfolding serve
serve-on_the_way g c hs e passes = ground (
  arith,
  passes request_id,
  passes metrics_middleware,
  passes security_headers,
  passes csrf_origin_check,
  passes rate_limit_global,
)

serve-user_actor :
    (g : Gate) (c : Locals) (hs : List Handler)
    → is_empty c.user_id ≡ true
    → serve g c (require_user_actor ∷ hs) ≡ refused 403
unfolding serve check_user_actor
serve-user_actor g c hs e = ground arith

-- An API client is refused with 403 on every path below "/api/v1" outside "/api/v1/users",
-- "/api/v1/login" and "/api/v1/logout", whatever its scopes, where the other middleware lets the
-- request pass.
pub api_client_refused :
    (f : Fiber) (g : Gate) (c : Locals) (m : Method) (area : Str) (rest : List Str)
    → g.caller ≡ accepted c
    → is_empty c.user_id ≡ true
    → ((h : Handler) → g.middleware h ≡ next)
    → Elsewhere area
    → serve g no_locals (f.chain register_routes m (api_prefix (area ∷ rest))) ≡ refused 403
api_client_refused f g c m area rest e client passes away =
    ap (serve g no_locals) (chain-Elsewhere f m area rest away)
    ∙ serve-on_the_way g c _ e passes
    ∙ serve-user_actor g c _ client
