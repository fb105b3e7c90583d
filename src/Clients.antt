-- ===== src/Clients.antt =====
-- internal/apiclient/repository.go, internal/netutil/ipmatch.go, and the checks of a key in
-- internal/httpserver: `authenticateAny` of actor.go and `requireAPIClient` of api_client_auth.go.
pub mod RateLimit
pub mod Sessions
pub mod Tests
use idpforge.Base.{
  ℕ, zero, suc, ◌+◌, ◌*◌, ◌/◌, ◌%◌, Bool, true, false, not, ◌&&◌, ◌||◌, Option, none, some, List,
  [], ◌∷◌, ◌++◌, any, keep, map, if◌then◌else◌, ltb, ◌==◌, Str, codes, str_eq, is_empty,
}
use idpforge.Permission.{Client, Locals, Answer, next, fail}
use idpforge.Cache.{Cache, increment}
use idpforge.Auth.{get_session}
use idpforge.Router.Serve.{Caller, accepted, rejected}

-- A row of api_clients.
pub record Row : Type 0 where
  pub client : Client
  pub api_key_hash : Str

-- What the code asks of other packages: SHA-256 in hexadecimal, whether a text is an IP address,
-- and whether a text is a CIDR range that holds an address.
pub record Library : Type 0 where
  pub hash_key : Str → Str
  pub is_ip : Str → Bool
  pub in_range : Str → Str → Bool

-- The digits of a number, as `%d` prints it; the fuel is a bound on their count.
unfoldable pub digits : ℕ → ℕ → Str → Str
digits zero n rest = rest
digits (suc fuel) n rest =
    let more = digits fuel (n / 10) ((b'0' + n % 10) ∷ rest) in
    if ltb n 10 then (b'0' + n) ∷ rest else more

abbrev pub decimal : ℕ → Str
decimal n = digits (n + 1) n []

-- `IPAllowed`
unfoldable pub ip_allowed : Library → Str → List Str → Bool
ip_allowed l ip [] = true
ip_allowed l ip (entry ∷ allowed) =
    l.is_ip ip && any (λ e. str_eq e ip || l.in_range e ip) (entry ∷ allowed)

-- `Repository.Create`, with the key and the ID that are made for it; `none` is an error.
unfoldable pub create_client :
    Library
    → Str
    → Str
    → Str
    → Str
    → List Str
    → List Str
    → List Str
    → ℕ
    → ℕ
    → List Row
    → Option (List Row × Client)
create_client l id key name folder allowed_fields scopes allowed_ips max window rows =
    if any (λ (r : Row). str_eq r.client.id id || str_eq r.client.name name) rows
    then none
    else (let client : Client = record {
      id = id;
      name = name;
      folder = folder;
      allowed_fields = elim allowed_fields [
        | [] ↦ codes "id" ∷ codes "username" ∷ []
        | ◌∷◌ f fs ↦ f ∷ fs
      ];
      scopes = scopes;
      allowed_ips = allowed_ips;
      rate_limit_max = max;
      rate_limit_window_seconds = window;
      enabled = true;
    } in
        some (rows ++ record { client = client; api_key_hash = l.hash_key key } ∷ [], client))

-- `Repository.Authenticate`: the first enabled row with the hash of the key.
unfoldable pub authenticate : Library → Str → List Row → Option Client
authenticate l key [] = none
authenticate l key (r ∷ rows) =
    if str_eq r.api_key_hash (l.hash_key key) && r.client.enabled
    then some r.client
    else authenticate l key rows

-- `Repository.Delete`
unfoldable pub delete_client : Str → List Row → List Row
delete_client id = keep (λ (r : Row). not (str_eq r.client.id id))

abbrev pub second : ℕ
second = 1_000_000_000

abbrev pub rate_key : ℕ → Client → Str
rate_key now client =
    codes "apiclient_rl:"
    ++ client.id
    ++ codes ":"
    ++ decimal (now / second / client.rate_limit_window_seconds)

-- The counting of a request against its client's limit, and whether it is over it.
unfoldable pub count_request : ℕ → Client → Cache → Cache × Bool
count_request now client c =
    let r = increment now (rate_key now client) (client.rate_limit_window_seconds * second) c in
    (r.0, ltb client.rate_limit_max r.1)

abbrev pub as_client : Client → Locals
as_client client = record { user_id = []; api_client = some client }

-- The checks of a key that both middlewares make.
unfoldable pub check_key : Library → ℕ → Str → Str → List Row → Cache → Cache × Caller
check_key l now key ip rows c = elim (authenticate l key rows) [
  | none ↦ (c, rejected 401)
  | some client ↦
      let counted = count_request now client c in
      if not (ip_allowed l ip client.allowed_ips)
      then (c, rejected 403)
      else (counted.0, if counted.1 then rejected 429 else accepted (as_client client))
]

-- `requireAPIClient`; "" is a header that is not there.
unfoldable pub require_api_client : Library → ℕ → Str → Str → List Row → Cache → Cache × Caller
require_api_client l now key ip rows c =
    if is_empty key then (c, rejected 401) else check_key l now key ip rows c

-- `authenticateAny`: the session cookie, or else the key.
unfoldable pub authenticate_any : Library → ℕ → Str → Str → Str → List Row → Cache → Cache × Caller
authenticate_any l now cookie key ip rows c =
    elim (if is_empty cookie then none else get_session now cookie c) [
      | some user_id ↦ (c, accepted (record { user_id = user_id; api_client = none }))
      | none ↦ if is_empty key then (c, rejected 401) else check_key l now key ip rows c
    ]

-- `FilterFields`, over the fields of a user as JSON shows them; the order of a Go map is not the
-- program's.
unfoldable pub lookup {ℓ} : {A : Type ℓ} → Str → List (Str × A) → Option A
lookup k [] = none
lookup k ((j, v) ∷ fields) = if str_eq j k then some v else lookup k fields
