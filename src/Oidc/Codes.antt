-- ===== src/Oidc/Codes.antt =====
-- internal/auth/oidc/provider.go: what an authorization code is good for, and how often.
use idpforge.Base.{
  ℕ, ◌+◌, ◌≤◌, ◌≡◌, refl, sym, ap, ◌∙◌, inl, inr, Bool, true, false, not, ◌&&◌, ◌||◌, Option, none,
  some, List, [], ◌∷◌, if◌then◌else◌, if_cases, ltb, Str, codes, str_eq, str_eq_iff, str_eq_refl,
  is_empty, arith, Option-cases,
}
use idpforge.Cache.{AuthCode, code_record, resolved, get, delete}
use idpforge.Cache.Laws.{get-set, get-delete}
use idpforge.Rbac.{resolve_from_db}
use idpforge.Rbac.Admin.{Store, resolve, as_resolved, cache_key, default_ttl}
use idpforge.Oidc.{
  Provider, Claims, Client, Refusal, allows_redirect, get_client, authorize, authorized,
  TokenResponse, Grant, issued, refused, invalid_code, code_mismatch, bad_verifier, code_key,
  refresh_key, as_code, AuthorizeRequest, code_of, code_ttl, remember_code, authenticate_client,
  if_authentic, issue_signed, issue_tokens, access_claims, id_claims, verify_pkce, redeem,
  exchange_code,
}

-- The reading of a code is not touched by a resolution.
get-resolve :
    (now t : ℕ) (u code : Str) (s : Store)
    → get t (code_key code) (resolve now u s).0.cache ≡ get t (code_key code) s.cache
unfolding resolve str_eq
get-resolve now t u code s = elim (Option-cases (as_resolved (get now (cache_key u) s.cache))) [
  | inl e ↦
      rw (e, resolve)
        (get-set now t (cache_key u) (code_key code) (resolved (resolve_from_db s.db u)) default_ttl
          s.cache)
  | inr (r, e) ↦ rw (e, resolve) refl
]

get-issue_signed :
    (p : Provider) (now t : ℕ) (refresh : Option Str) (client_id user_id scope code : Str)
    (s : Store) (a b : Option Str)
    → get t (code_key code) (issue_signed p now refresh client_id user_id scope s a b).0.cache
      ≡ get t (code_key code) s.cache
unfolding str_eq
get-issue_signed p now t refresh client_id user_id scope code s none b = refl
get-issue_signed p now t refresh client_id user_id scope code s (some a) none = refl
get-issue_signed p now t none client_id user_id scope code s (some a) (some b) = refl
get-issue_signed p now t (some token) client_id user_id scope code s (some a) (some b) =
    get-set now t (refresh_key p token) (code_key code) _ p.refresh_token_ttl s.cache

get-issue_tokens :
    (p : Provider) (now t : ℕ) (refresh : Option Str) (client_id user_id scope code : Str)
    (s : Store)
    → get t (code_key code) (issue_tokens p now refresh client_id user_id scope s).0.cache
      ≡ get t (code_key code) s.cache
unfolding issue_tokens
get-issue_tokens p now t refresh client_id user_id scope code s =
    get-issue_signed p now t refresh client_id user_id scope code (resolve now user_id s).0 _ _
    ∙ get-resolve now t user_id code s

-- A code that was found is gone, whatever came of it.
spent :
    (p : Provider) (now t : ℕ) (token client_id code redirect_uri verifier : Str) (s : Store)
    (r : AuthCode)
    → get t
        (code_key code)
        (redeem p now token client_id code redirect_uri verifier s (some r)).0.cache
      ≡ none
spent p now t token client_id code redirect_uri verifier s r =
    if_cases Gone (not (str_eq r.client_id client_id) || not (str_eq r.redirect_uri redirect_uri)) _
      _ gone
      (if_cases Gone (not (verify_pkce p r.code_challenge verifier)) _ _ gone
        (get-issue_tokens p now t (some token) client_id r.user_id r.scope code s' ∙ gone))
  where
    Gone : Store × Grant → Type 0
    Gone x = get t (code_key code) x.0.cache ≡ none

    s' : Store
    s' = record s { cache = delete (code_key code ∷ []) s.cache }

    gone : get t (code_key code) s'.cache ≡ none
    gone =
        get-delete t (code_key code ∷ []) (code_key code) s.cache
        ∙ ap (λ b. if b || false then none else get t (code_key code) s.cache)
            (str_eq_refl (code_key code))

-- The exchange of a code that is found, by an authentic client.
presented :
    (p : Provider) (now : ℕ) (token client_id client_secret code redirect_uri verifier : Str)
    (s : Store) (r : AuthCode)
    → authenticate_client p client_id client_secret ≡ none
    → as_code (get now (code_key code) s.cache) ≡ some r
    → exchange_code p now token client_id client_secret code redirect_uri verifier s
      ≡ redeem p now token client_id code redirect_uri verifier s (some r)
unfolding exchange_code
presented p now token client_id client_secret code redirect_uri verifier s r known found =
    ap
      (λ o. if_authentic o s (
        redeem p now token client_id code redirect_uri verifier s
          (as_code (get now (code_key code) s.cache))))
      known
    ∙ ap (redeem p now token client_id code redirect_uri verifier s) found

-- A code is good for one exchange: once an authentic client has presented it and it was found,
-- whatever came of that, no authentic client gets anything for it again.
pub code_is_single_use :
    (p : Provider) (now t : ℕ) (token client_id client_secret code redirect_uri verifier : Str)
    (token' client_id' client_secret' redirect_uri' verifier' : Str) (s : Store) (r : AuthCode)
    → authenticate_client p client_id client_secret ≡ none
    → as_code (get now (code_key code) s.cache) ≡ some r
    → authenticate_client p client_id' client_secret' ≡ none
    → let first = exchange_code p now token client_id client_secret code redirect_uri verifier s in
      (exchange_code p t token' client_id' client_secret' code redirect_uri' verifier' first.0).1
      ≡ refused invalid_code
unfolding exchange_code
code_is_single_use p now t token client_id client_secret code redirect_uri verifier token'
      client_id' client_secret' redirect_uri' verifier' s r known found known' =
    let first = exchange_code p now token client_id client_secret code redirect_uri verifier s in
    let first_lem : first ≡ redeem p now token client_id code redirect_uri verifier s (some r) =
      presented p now token client_id client_secret code redirect_uri verifier s r known found in
    let gone : get t (code_key code) first.0.cache ≡ none =
      ap (λ (x : Store × Grant). get t (code_key code) x.0.cache) first_lem
      ∙ spent p now t token client_id code redirect_uri verifier s r in
    ap
      (λ o.
        (if_authentic o first.0 (
          redeem p t token' client_id' code redirect_uri' verifier' first.0
            (as_code (get t (code_key code) first.0.cache)))).1)
      known'
    ∙ ap (λ v. (redeem p t token' client_id' code redirect_uri' verifier' first.0 (as_code v)).1)
        gone

-- The signing of any claims succeeds, and gives their text.
abbrev pub Signs : Provider → (Claims → Str) → Type 0
Signs p text = (c : Claims) → p.sign c ≡ some (text c)

-- What `issueTokens` hands out where signing succeeds.
issue_tokens_lem :
    (p : Provider) (text : Claims → Str) (now : ℕ) (token client_id user_id scope : Str) (s : Store)
    → Signs p text
    → (g : TokenResponse) × ((issue_tokens p now (some token) client_id user_id scope s).1
        ≡ issued g)
      × (g.access_token
          ≡ text (access_claims p now client_id user_id scope (resolve now user_id s).1.role_names))
      × (g.refresh_token ≡ token)
unfolding issue_tokens
issue_tokens_lem p text now token client_id user_id scope s signs =
    rw
      (
        signs (access_claims p now client_id user_id scope (resolve now user_id s).1.role_names),
        signs (id_claims p now client_id user_id),
      )
      (_, refl, refl, refl)

-- The code of an authorization can be found for two minutes.
code_is_found :
    (p : Provider) (now t : ℕ) (code : Str) (req : AuthorizeRequest) (s : Store)
    → (authorize p now code req s).1 ≡ none
    → t ≤ now + code_ttl
    → as_code (get t (code_key code) (authorize p now code req s).0.cache) ≡ some (code_of req)
unfolding authorize
code_is_found p now t code req s made soon =
    ap (λ (x : Store). as_code (get t (code_key code) x.cache))
      (remembered (get_client req.client_id p.clients) made)
    ∙ ap as_code (
        get-set now t (code_key code) (code_key code) (code_record (code_of req)) code_ttl s.cache
        ∙ ap
            (λ b.
              if b
              then (if ltb 0 code_ttl && ltb (now + code_ttl) t
                  then none
                  else some (code_record (code_of req)))
              else get t (code_key code) s.cache)
            (str_eq_refl (code_key code))
        ∙ live)
  where
    Made : Store × Option Refusal → Type 0
    Made x = x.1 ≡ none → x.0 ≡ remember_code now code req s

    remembered : (o : Option Client) → Made (authorized now code req s o)
    remembered none = λ e. cc
    remembered (some c) =
        if_cases Made (not (allows_redirect c req.redirect_uri)) _ _ (λ e. cc)
          (if_cases Made
            (is_empty req.code_challenge || not (str_eq req.code_challenge_method (codes "S256"))) _
            _ (λ e. cc) (λ e. refl))

    live :
        (if ltb 0 code_ttl && ltb (now + code_ttl) t
          then none
          else some (code_record (code_of req)))
        ≡ some (code_record (code_of req))
    live = ground arith

-- The code of an authorization, presented within two minutes by the client that it was made for,
-- with the same redirect and the verifier of its challenge, gives an access token for the user who
-- was signed in, with the scope asked for.
pub code_gives_its_user :
    (p : Provider) (text : Claims → Str) (now t : ℕ) (token client_secret code verifier : Str)
    (req : AuthorizeRequest) (s : Store)
    → Signs p text
    → (authorize p now code req s).1 ≡ none
    → authenticate_client p req.client_id client_secret ≡ none
    → p.url_digest verifier ≡ req.code_challenge
    → t ≤ now + code_ttl
    → let s' = (authorize p now code req s).0 in
      (g : TokenResponse) × (roles : List Str) × ((exchange_code p t token req.client_id
          client_secret code req.redirect_uri verifier s').1
        ≡ issued g)
      × (g.access_token ≡ text (access_claims p t req.client_id req.user_id req.scope roles))
code_gives_its_user p text now t token client_secret code verifier req s signs made known proved
      soon =
    let s' = (authorize p now code req s).0 in
    let found = code_is_found p now t code req s made soon in
    let s'' : Store = record s' { cache = delete (code_key code ∷ []) s'.cache } in
    let (g, given, access_token, _) =
      issue_tokens_lem p text t token req.client_id req.user_id req.scope s'' signs in
    let verified : verify_pkce p req.code_challenge verifier ≡ true =
      (str_eq_iff (p.url_digest verifier) req.code_challenge).1 proved in
    let right : redeem p t token req.client_id code req.redirect_uri verifier s'
          (some (code_of req))
        ≡ issue_tokens p t (some token) req.client_id req.user_id req.scope s'' =
      rw (str_eq_refl req.client_id, str_eq_refl req.redirect_uri, verified) refl in
    (
      g,
      (resolve t req.user_id s'').1.role_names,
      ap (λ (x : Store × Grant). x.1)
            (presented p t token req.client_id client_secret code req.redirect_uri verifier s'
                (code_of req) known found
              ∙ right)
          ∙ given,
      access_token,
    )

-- What an authentic client is issued for the code of an authorization, within two minutes, needs
-- the client that the code was made for, the same redirect, and the verifier of its challenge.
pub code_is_bound :
    (p : Provider) (now t : ℕ) (token client_id client_secret code redirect_uri verifier : Str)
    (req : AuthorizeRequest) (s : Store)
    → (authorize p now code req s).1 ≡ none
    → authenticate_client p client_id client_secret ≡ none
    → t ≤ now + code_ttl
    → (g : TokenResponse)
    → (exchange_code p t token client_id client_secret code redirect_uri verifier
        (authorize p now code req s).0).1
      ≡ issued g
    → (client_id ≡ req.client_id)
      × (redirect_uri ≡ req.redirect_uri)
      × (p.url_digest verifier ≡ req.code_challenge)
code_is_bound p now t token client_id client_secret code redirect_uri verifier req s made known soon
      g e =
    let s' = (authorize p now code req s).0 in
    let found = code_is_found p now t code req s made soon in
    let given =
      sym (
        ap (λ (x : Store × Grant). x.1)
          (presented p t token client_id client_secret code redirect_uri verifier s' (code_of req)
            known found))
      ∙ e in
    let (client, redirect, verified) =
      passed (record s' { cache = delete (code_key code ∷ []) s'.cache })
        (str_eq req.client_id client_id) (str_eq req.redirect_uri redirect_uri)
        (verify_pkce p req.code_challenge verifier) _ given in
    (
      sym ((str_eq_iff req.client_id client_id).0 client),
      sym ((str_eq_iff req.redirect_uri redirect_uri).0 redirect),
      (str_eq_iff (p.url_digest verifier) req.code_challenge).0 verified,
    )
  where
    passed :
        (x : Store) (a b c : Bool) (y : Store × Grant)
        → (if not a || not b
            then (x, refused code_mismatch)
            else if not c
            then (x, refused bad_verifier)
            else y).1
          ≡ issued g
        → (a ≡ true) × (b ≡ true) × (c ≡ true)
    passed x false b c y k = cc
    passed x true false c y k = cc
    passed x true true false y k = cc
    passed x true true true y k = (refl, refl, refl)
