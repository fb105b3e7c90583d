-- ===== src/Oidc/Tests.antt =====
-- One application, and a user who signs in to it.
use idpforge.Base.{◌≡◌, refl, none, some, List, [], ◌∷◌, ◌++◌, ◌*◌, true, Str, codes, str_eq, arith}
use idpforge.Cache.{empty, get, set}
use idpforge.Rbac.Admin.{Store}
use idpforge.Rbac.Tests.{tables}
use idpforge.Oidc.{
  Client, Claims, access, identity, Provider, TokenResponse, issued, refused, invalid_code,
  AuthorizeRequest, authorize, get_client, code_of, authenticate_client, exchange_code,
  access_claims, code_key, as_code, second,
}
use idpforge.Oidc.Codes.{code_is_single_use, code_gives_its_user, code_is_bound}

abbrev wiki : Client
wiki = record {
  id = codes "wiki";
  secret_hash = [];
  redirect_uris = codes "https://wiki.example/cb" ∷ [];
  allowed_scopes = [];
}

abbrev claims_text : Claims → Str
claims_text (access iss sub aud scope roles iat exp) = codes "a." ++ sub
claims_text (identity iss sub aud iat exp) = codes "i." ++ sub

abbrev provider : Provider
provider = record {
  issuer = codes "https://id.example";
  access_token_ttl = 900 * second;
  id_token_ttl = 900 * second;
  refresh_token_ttl = 3_600 * second;
  hex_digest = λ s. s;
  url_digest = λ s. s;
  sign = λ c. some (claims_text c);
  clients = wiki ∷ [];
}

abbrev request : AuthorizeRequest
request = record {
  client_id = codes "wiki";
  redirect_uri = codes "https://wiki.example/cb";
  scope = codes "openid";
  code_challenge = codes "v1";
  code_challenge_method = codes "S256";
  user_id = codes "u1";
}

abbrev store : Store
store = record { db = tables true; cache = empty }

made : (authorize provider 10 (codes "c1") request store).1 ≡ none
unfolding authorize get_client str_eq
made = refl

known : authenticate_client provider (codes "wiki") [] ≡ none
unfolding authenticate_client get_client str_eq
known = refl

found :
    as_code
      (get 20 (code_key (codes "c1")) (authorize provider 10 (codes "c1") request store).0.cache)
    ≡ some (code_of request)
unfolding authorize get_client str_eq get set
found = refl

code_is_single_use_example :
    let first =
      exchange_code provider 20
        (codes "t1")
        (codes "wiki")
        []
        (codes "c1")
        (codes "https://wiki.example/cb")
        (codes "v1")
        (authorize provider 10 (codes "c1") request store).0 in
    (exchange_code provider 30
      (codes "t2")
      (codes "wiki")
      []
      (codes "c1")
      (codes "https://wiki.example/cb")
      (codes "v1")
      first.0).1
    ≡ refused invalid_code
code_is_single_use_example =
    code_is_single_use provider 20 30 (codes "t1") (codes "wiki") [] (codes "c1")
      (codes "https://wiki.example/cb") (codes "v1") (codes "t2") (codes "wiki") []
      (codes "https://wiki.example/cb") (codes "v1")
      (authorize provider 10 (codes "c1") request store).0 (code_of request) known found known

code_gives_its_user_example :
    (g : TokenResponse) × (roles : List Str) × ((exchange_code provider 20
        (codes "t1")
        (codes "wiki")
        []
        (codes "c1")
        (codes "https://wiki.example/cb")
        (codes "v1")
        (authorize provider 10 (codes "c1") request store).0).1
      ≡ issued g)
    × (g.access_token
        ≡ claims_text
            (access_claims provider 20 (codes "wiki") (codes "u1") (codes "openid") roles))
code_gives_its_user_example =
    code_gives_its_user provider claims_text 10 20 (codes "t1") [] (codes "c1") (codes "v1") request
      store (λ c. refl) made known refl (omega arith)

tokens :
    (g : TokenResponse) × (roles : List Str) × ((exchange_code provider 20
        (codes "t1")
        (codes "wiki")
        []
        (codes "c1")
        (codes "https://wiki.example/cb")
        (codes "v1")
        (authorize provider 10 (codes "c1") request store).0).1
      ≡ issued g)
    × (g.access_token
        ≡ claims_text
            (access_claims provider 20 (codes "wiki") (codes "u1") (codes "openid") roles))
tokens =
    code_gives_its_user provider claims_text 10 20 (codes "t1") [] (codes "c1") (codes "v1") request
      store (λ c. refl) made known refl (omega arith)

code_is_bound_example :
    (codes "wiki" ≡ request.client_id)
    × (codes "https://wiki.example/cb" ≡ request.redirect_uri)
    × (provider.url_digest (codes "v1") ≡ request.code_challenge)
code_is_bound_example =
    code_is_bound provider 10 20 (codes "t1") (codes "wiki") [] (codes "c1")
      (codes "https://wiki.example/cb") (codes "v1") request store made known (omega arith) tokens.0
      tokens.2
