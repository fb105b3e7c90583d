-- ===== src/Console/Tests.antt =====
-- A concrete framework, and requests to it.
use idpforge.Base.{
  ◌≡◌, ℕ, Free, All, refl, true, false, List, [], ◌∷◌, Str, codes, some, none, arith, has_prefix,
  str_eq, str_eq_iff, has_prefix-append, append-nil, ◌∙◌, sym, ap,
}
use idpforge.Permission.{Locals, Client, Permission, Resolved, next, has, matches, colon}
use idpforge.Router.{get, below, starts, lower_case}
use idpforge.Router.Table.{register_routes, api_prefix}
use idpforge.Router.Fiber.{Fiber, dispatch}
use idpforge.Router.Serve.{Gate, accepted, serve, refused, no_locals}
use idpforge.Router.ApiClients.{Elsewhere, api_client_refused}
use idpforge.Console.{request_of, users_list}
use idpforge.Console.Access.{needs, action_of}
use idpforge.Console.Served.{guarded, call_is_served}
use idpforge.Console.Response.{
  fiber_error, error_handler, read_response, api_error, read_response-error_handler,
}
use idpforge.Console.Base64.{base64url_to_buffer}
use idpforge.Console.SecurityKey.{
  PublicKey, Credential, Registration, HasBytes, options_of, register_security_key,
  register_keeps_bytes,
}
use idpforge.Console.Realtime.{closes, timer_fires, unmounts, step, run, mounted, unmount_is_final}

pub prefix_itself : (s : Str) → has_prefix s s ≡ true
prefix_itself s = ap (λ t. has_prefix t s) (sym (append-nil s)) ∙ has_prefix-append s []

pub below-starts : (prefix path : List Str) → starts prefix path ≡ false → below prefix path ≡ false
unfolding starts below
below-starts [] path h = cc
below-starts (p ∷ ps) [] h = refl
below-starts (p ∷ []) (s ∷ path) h = ground (arith, str_eq_iff p (lower_case s), prefix_itself p)
below-starts (p ∷ q ∷ ps) (s ∷ path) h = ground (arith, below-starts (q ∷ ps) path)

-- The framework that runs just what `dispatch` finds.
abbrev pub framework : Fiber
unfolding dispatch
framework = record {
  chain = dispatch;
  chain_nil = λ m path. refl;
  uses_below = λ prefix hs rs m path h. rw h;
  uses_apart = λ prefix hs rs m path h. rw (below-starts prefix path h);
  route_fits = λ n pattern hs rs m path h. rw h;
  route_misses = λ n pattern hs rs m path h. rw h;
}

abbrev robot : Client
robot = record {
  id = codes "c1";
  name = codes "robot";
  folder = [];
  allowed_fields = [];
  scopes = codes "*:manage" ∷ codes "*:read" ∷ [];
  allowed_ips = [];
  rate_limit_max = 60;
  rate_limit_window_seconds = 60;
  enabled = true;
}

abbrev robot_gate : Gate
robot_gate = record {
  resolve = λ u. none;
  caller = accepted (record { user_id = []; api_client = some robot });
  middleware = λ h. next;
}

audit_is_Elsewhere : Elsewhere (codes "audit-logs")
unfolding str_eq
audit_is_Elsewhere = (refl, refl, refl)

api_client_refused_example :
    serve robot_gate no_locals
      (framework.chain register_routes get (api_prefix (codes "audit-logs" ∷ [])))
    ≡ refused 403
api_client_refused_example =
    api_client_refused framework robot_gate (record { user_id = []; api_client = some robot }) get
      (codes "audit-logs") [] refl refl (λ h. refl) audit_is_Elsewhere

abbrev pub reader : Resolved
reader = record {
  user_id = codes "u1";
  role_names = [];
  permissions =
      record { resource = codes "iot"; action = codes "read" }
      ∷ record { resource = codes "users"; action = codes "read" }
      ∷ [];
}

abbrev pub as_reader : Locals
as_reader = record { user_id = codes "u1"; api_client = none }

abbrev pub reader_gate : Gate
reader_gate = record {
  resolve = λ u. some reader;
  caller = accepted as_reader;
  middleware = λ h. next;
}

call_is_served_example :
    serve reader_gate no_locals (
      framework.chain register_routes
        (request_of (users_list 50 0)).method
        (request_of (users_list 50 0)).path)
    ≡ guarded reader_gate as_reader (needs (users_list 50 0)) (action_of (users_list 50 0))
call_is_served_example =
    call_is_served framework reader_gate as_reader (users_list 50 0) refl refl (λ h. refl) tt

may_read : has reader (codes "iot") (codes "read") ≡ true
unfolding has str_eq matches
may_read = refl

may_not_manage : has reader (codes "iot") (codes "manage") ≡ false
unfolding has str_eq
may_not_manage = refl

pub no_colons : All (λ (p : Permission). Free colon p.resource) reader.permissions
no_colons = (
  (λ e. omega (arith, e), (λ e. omega (arith, e), (λ e. omega (arith, e), tt))),
  (
    (
      λ e. omega (arith, e),
      (
        λ e. omega (arith, e),
        (λ e. omega (arith, e), (λ e. omega (arith, e), (λ e. omega (arith, e), tt))),
      ),
    ),
    tt,
  ),
)

abbrev texts : ℕ → Str
texts code = codes "Service Unavailable"

read_response-error_handler_example :
    read_response {A = Str} (error_handler texts (fiber_error 404 (codes "user not found")))
    ≡ api_error 404 (codes "user not found")
read_response-error_handler_example =
    read_response-error_handler {A = Str} texts (fiber_error 404 (codes "user not found"))
      (omega arith) refl

unmount_is_final_example :
    (run (timer_fires ∷ closes ∷ []) (step unmounts (run (closes ∷ []) mounted))).sockets
    ≡ (run (closes ∷ []) mounted).sockets
unmount_is_final_example = unmount_is_final (closes ∷ []) (timer_fires ∷ closes ∷ [])

abbrev key_of_user : PublicKey
key_of_user = record {
  challenge = 255 ∷ 251 ∷ 240 ∷ 7 ∷ [];
  user_id = 1 ∷ 2 ∷ [];
  exclude_credentials = (9 ∷ []) ∷ [];
}

abbrev new_credential : Credential
new_credential = record {
  id = codes "AQ";
  raw_id = 1 ∷ [];
  kind = codes "public-key";
  attestation_object = 163 ∷ 99 ∷ 255 ∷ [];
  client_data_json = b'{' ∷ b'}' ∷ [];
  extensions = codes "{}";
}

encoded_input : HasBytes key_of_user new_credential
encoded_input = record {
  challenge = (omega arith, (omega arith, (omega arith, (omega arith, tt))));
  user_id = (omega arith, (omega arith, tt));
  exclude_credentials = ((omega arith, tt), tt);
  raw_id = (omega arith, tt);
  attestation_object = (omega arith, (omega arith, (omega arith, tt)));
  client_data_json = (omega arith, (omega arith, tt));
}

register_keeps_bytes_example :
    (a : Registration) × (register_security_key (λ k. some new_credential) (options_of key_of_user)
      ≡ some a)
    × (a.id ≡ codes "AQ")
    × (a.kind ≡ new_credential.kind)
    × (a.extensions ≡ new_credential.extensions)
    × (base64url_to_buffer a.raw_id ≡ some (1 ∷ []))
    × (base64url_to_buffer a.attestation_object ≡ some (163 ∷ 99 ∷ 255 ∷ []))
    × (base64url_to_buffer a.client_data_json ≡ some (b'{' ∷ b'}' ∷ []))
register_keeps_bytes_example =
    register_keeps_bytes (λ k. some new_credential) key_of_user new_credential encoded_input refl
