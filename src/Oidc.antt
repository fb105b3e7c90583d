-- ===== src/Oidc.antt =====
-- internal/auth/oidc/provider.go and clients.go: authorization codes and refresh tokens, in the cache
-- that the resolutions of permissions are in as well. The signing of a token is a parameter; what is
-- made at random, and the time of a call, are arguments.
pub mod Codes
pub mod Tests
use idpforge.Base.{
  ℕ, ◌+◌, ◌*◌, ◌/◌, Bool, true, false, not, ◌&&◌, ◌||◌, Option, none, some, List, [], ◌∷◌, ◌++◌,
  any, if◌then◌else◌, Str, codes, str_eq, is_empty,
}
use idpforge.Cache.{Value, AuthCode, RefreshRecord, code_record, refresh_record, get, set, delete}
use idpforge.Rbac.Admin.{Store, resolve}

pub record Client : Type 0 where
  pub id : Str
  pub secret_hash : Str
  pub redirect_uris : List Str
  pub allowed_scopes : List Str

-- `AllowsRedirect`
abbrev pub allows_redirect : Client → Str → Bool
allows_redirect c uri = any (λ u. str_eq u uri) c.redirect_uris

-- `ClientStore.Get`, on the enabled applications whose configuration can be read.
unfoldable pub get_client : Str → List Client → Option Client
get_client client_id [] = none
get_client client_id (c ∷ cs) = if str_eq c.id client_id then some c else get_client client_id cs

-- The claims of the two tokens.
pub data Claims : Type 0 where
  access : (iss sub aud scope : Str) (roles : List Str) (iat exp : ℕ) → Claims
  identity : (iss sub aud : Str) (iat exp : ℕ) → Claims

-- The configuration, SHA-256 in hexadecimal and in base64url, and the signing, which may fail.
pub record Provider : Type 0 where
  pub issuer : Str
  pub access_token_ttl : ℕ
  pub id_token_ttl : ℕ
  pub refresh_token_ttl : ℕ
  pub hex_digest : Str → Str
  pub url_digest : Str → Str
  pub sign : Claims → Option Str
  pub clients : List Client

pub record TokenResponse : Type 0 where
  pub access_token : Str
  pub id_token : Str
  pub refresh_token : Str
  pub expires_in : ℕ
  pub scope : Str

pub data Refusal : Type 0 where
  unknown_client bad_credentials bad_redirect pkce_required : Refusal
  invalid_code code_mismatch bad_verifier : Refusal
  invalid_refresh refresh_mismatch signing_failed : Refusal

pub data Grant : Type 0 where
  issued : TokenResponse → Grant
  refused : Refusal → Grant

abbrev pub second : ℕ
second = 1_000_000_000

abbrev pub code_key : Str → Str
code_key code = codes "oidc:code:" ++ code

abbrev pub refresh_key : Provider → Str → Str
refresh_key p token = codes "oidc:refresh:" ++ p.url_digest token

abbrev pub as_code : Option Value → Option AuthCode
as_code (some (code_record r)) = some r
as_code _ = none

abbrev pub as_refresh : Option Value → Option RefreshRecord
as_refresh (some (refresh_record r)) = some r
as_refresh _ = none

pub record AuthorizeRequest : Type 0 where
  pub client_id : Str
  pub redirect_uri : Str
  pub scope : Str
  pub code_challenge : Str
  pub code_challenge_method : Str
  pub user_id : Str

abbrev pub code_of : AuthorizeRequest → AuthCode
code_of req = record {
  client_id = req.client_id;
  redirect_uri = req.redirect_uri;
  scope = req.scope;
  user_id = req.user_id;
  code_challenge = req.code_challenge;
  code_challenge_method = req.code_challenge_method;
}

-- Two minutes.
abbrev pub code_ttl : ℕ
code_ttl = 120 * second

abbrev pub remember_code : ℕ → Str → AuthorizeRequest → Store → Store
remember_code now code req s = record s {
  cache = set now (code_key code) (code_record (code_of req)) code_ttl s.cache;
}

-- `Authorize` from the client on.
abbrev pub authorized : ℕ → Str → AuthorizeRequest → Store → Option Client → Store × Option Refusal
authorized now code req s none = (s, some unknown_client)
authorized now code req s (some client) =
    if not (allows_redirect client req.redirect_uri)
    then (s, some bad_redirect)
    else if is_empty req.code_challenge || not (str_eq req.code_challenge_method (codes "S256"))
    then (s, some pkce_required)
    else (remember_code now code req s, none)

-- `Authorize`, with the code that is made; `none` is its success.
unfoldable pub authorize : Provider → ℕ → Str → AuthorizeRequest → Store → Store × Option Refusal
authorize p now code req s = authorized now code req s (get_client req.client_id p.clients)

-- `authenticateClient`; `none` is its success.
unfoldable pub authenticate_client : Provider → Str → Str → Option Refusal
authenticate_client p client_id client_secret = elim (get_client client_id p.clients) [
  | none ↦ some unknown_client
  | some client ↦
      if is_empty client.secret_hash
      then none
      else if str_eq (p.hex_digest client_secret) client.secret_hash
      then none
      else some bad_credentials
]

-- What a grant does for a client that is authentic.
abbrev pub if_authentic : Option Refusal → Store → Store × Grant → Store × Grant
if_authentic (some e) s g = (s, refused e)
if_authentic none s g = g

-- `issueTokens` behind its two signatures; `refresh` is the new refresh token, if one is asked for.
abbrev pub issue_signed :
    Provider → ℕ → Option Str → Str → Str → Str → Store → Option Str → Option Str → Store × Grant
issue_signed p now refresh client_id user_id scope s none id_token = (s, refused signing_failed)
issue_signed p now refresh client_id user_id scope s (some access_token) none =
    (s, refused signing_failed)
issue_signed p now none client_id user_id scope s (some access_token) (some id_token) = (
  s,
  issued (record {
    access_token = access_token;
    id_token = id_token;
    refresh_token = [];
    expires_in = p.access_token_ttl / second;
    scope = scope;
  }),
)
issue_signed p now (some token) client_id user_id scope s (some access_token) (some id_token) = (
  record s {
    cache =
        set now (refresh_key p token)
          (refresh_record (record { client_id = client_id; user_id = user_id; scope = scope }))
          p.refresh_token_ttl s.cache;
  },
  issued (record {
    access_token = access_token;
    id_token = id_token;
    refresh_token = token;
    expires_in = p.access_token_ttl / second;
    scope = scope;
  }),
)

abbrev pub access_claims : Provider → ℕ → Str → Str → Str → List Str → Claims
access_claims p now client_id user_id scope roles =
    access p.issuer user_id client_id scope roles (now / second)
      ((now + p.access_token_ttl) / second)

abbrev pub id_claims : Provider → ℕ → Str → Str → Claims
id_claims p now client_id user_id =
    identity p.issuer user_id client_id (now / second) ((now + p.id_token_ttl) / second)

-- `issueTokens`
unfoldable pub issue_tokens : Provider → ℕ → Option Str → Str → Str → Str → Store → Store × Grant
issue_tokens p now refresh client_id user_id scope s =
    let q = resolve now user_id s in
    issue_signed p now refresh client_id user_id scope q.0
      (p.sign (access_claims p now client_id user_id scope q.1.role_names))
      (p.sign (id_claims p now client_id user_id))

-- `verifyPKCE`
abbrev pub verify_pkce : Provider → Str → Str → Bool
verify_pkce p challenge verifier = str_eq (p.url_digest verifier) challenge

-- `ExchangeCode` from the reading of the code on.
abbrev pub redeem :
    Provider → ℕ → Str → Str → Str → Str → Str → Store → Option AuthCode → Store × Grant
redeem p now token client_id code redirect_uri verifier s none = (s, refused invalid_code)
redeem p now token client_id code redirect_uri verifier s (some r) =
    let s' : Store = record s { cache = delete (code_key code ∷ []) s.cache } in
    if not (str_eq r.client_id client_id) || not (str_eq r.redirect_uri redirect_uri)
    then (s', refused code_mismatch)
    else if not (verify_pkce p r.code_challenge verifier)
    then (s', refused bad_verifier)
    else issue_tokens p now (some token) client_id r.user_id r.scope s'

-- `ExchangeCode`; `token` is the refresh token that is made.
unfoldable pub exchange_code :
    Provider → ℕ → Str → Str → Str → Str → Str → Str → Store → Store × Grant
exchange_code p now token client_id client_secret code redirect_uri verifier s =
    if_authentic (authenticate_client p client_id client_secret) s (
      redeem p now token client_id code redirect_uri verifier s
        (as_code (get now (code_key code) s.cache)))

-- `RefreshTokens` from the reading of the record on.
abbrev pub rotate : Provider → ℕ → Str → Str → Str → Store → Option RefreshRecord → Store × Grant
rotate p now token client_id refresh_token s none = (s, refused invalid_refresh)
rotate p now token client_id refresh_token s (some r) =
    if not (str_eq r.client_id client_id)
    then (s, refused refresh_mismatch)
    else issue_tokens p now (some token) client_id r.user_id r.scope
        (record s { cache = delete (refresh_key p refresh_token ∷ []) s.cache })

-- `RefreshTokens`
unfoldable pub refresh_tokens : Provider → ℕ → Str → Str → Str → Str → Store → Store × Grant
refresh_tokens p now token client_id client_secret refresh_token s =
    if_authentic (authenticate_client p client_id client_secret) s (
      rotate p now token client_id refresh_token s
        (as_refresh (get now (refresh_key p refresh_token) s.cache)))

-- `strings.Join` by a space.
abbrev pub join_scopes : List Str → Str
join_scopes [] = []
join_scopes (x ∷ []) = x
join_scopes (x ∷ y ∷ xs) = x ++ b' ' ∷ join_scopes (y ∷ xs)

-- `ClientCredentials`
unfoldable pub client_credentials : Provider → ℕ → Str → Str → Store → Store × Grant
client_credentials p now client_id client_secret s =
    if_authentic (authenticate_client p client_id client_secret) s
      (elim (get_client client_id p.clients) [
        | none ↦ (s, refused unknown_client)
        | some client ↦
            issue_tokens p now none client_id client_id (join_scopes client.allowed_scopes) s
      ])
