-- ===== src/Permission.antt =====
-- Who may do what: internal/rbac/models.go, internal/apiclient/models.go (HasScope),
-- web/lib/permissions.ts, and the scope check of internal/httpserver/actor.go. A text is the list
-- of its code units.
pub mod Wildcard
pub mod Agreement
pub mod Tame
pub mod Grant
pub mod Tests
use idpforge.Base.{
  ℕ, ◌+◌, ◌-◌, Bool, true, false, ◌&&◌, ◌||◌, Option, none, some, List, [], ◌∷◌, ◌++◌,
  if◌then◌else◌, ◌==◌, leb, length, take, drop, any, Str, codes, str_eq, has_prefix, cut, cut_last,
  cut_suffix, suc, not, is_empty,
}

pub record Permission : Type 0 where
  pub resource : Str
  pub action : Str

abbrev pub star : Str
star = codes "*"

abbrev pub slash_star : Str
slash_star = codes "/*"

abbrev pub colon : ℕ
colon = b':'

abbrev pub slash : ℕ
slash = b'/'

-- `Permission.matches`
unfoldable pub matches : Permission → Str → Bool
matches p resource =
    if str_eq p.resource resource || str_eq p.resource star
    then true
    else elim (cut_suffix p.resource slash_star) [
      | some prefix ↦ str_eq resource prefix || has_prefix resource (prefix ++ slash ∷ [])
      | none ↦ false
    ]

-- `Permission.String`
unfoldable pub to_string : Permission → Str
to_string p = p.resource ++ colon ∷ p.action

pub record Resolved : Type 0 where
  pub user_id : Str
  pub role_names : List Str
  pub permissions : List Permission

-- The loop of `Resolved.Has`.
unfoldable pub has_in : List Permission → Str → Str → Bool
has_in [] resource action = false
has_in (p ∷ ps) resource action =
    if str_eq p.action action && matches p resource then true else has_in ps resource action

unfoldable pub has : Resolved → Str → Str → Bool
unfolding has_in
has r resource action = has_in r.permissions resource action

-- One scope of `Client.HasScope`: the body of its loop.
unfoldable pub scope_grants : Str → Str → Str → Bool
scope_grants s resource action = elim (cut colon s) [
  | none ↦ false
  | some (res, act) ↦
      if not (str_eq act action)
      then false
      else if str_eq res resource || str_eq res star
      then true
      else elim (cut_suffix res slash_star) [
        | some prefix ↦
            if str_eq resource prefix || has_prefix resource (prefix ++ slash ∷ [])
            then true
            else false
        | none ↦ false
      ]
]

unfoldable pub has_scope : List Str → Str → Str → Bool
has_scope [] resource action = false
has_scope (s ∷ scopes) resource action =
    if scope_grants s resource action then true else has_scope scopes resource action

-- JavaScript's `indexOf` for one character; `none` is -1.
unfoldable pub index_of : ℕ → Str → Option ℕ
index_of sep [] = none
index_of sep (c ∷ s) =
    if c == sep then some 0 else elim (index_of sep s) [ none ↦ none | some i ↦ some (suc i) ]

-- JavaScript's `endsWith`.
unfoldable pub ends_with : Str → Str → Bool
ends_with s t = leb (length t) (length s) && str_eq (drop (length s - length t) s) t

-- The test of one permission string in `hasPermission`.
unfoldable pub grants_ui : Str → Str → Str → Bool
unfolding index_of ends_with
grants_ui p resource action = elim (index_of colon p) [
  | none ↦ false
  | some sep ↦
      let res : Str = take sep p in
      let act : Str = drop (sep + 1) p in
      if not (str_eq act action)
      then false
      else if str_eq res resource || str_eq res star
      then true
      else if ends_with res slash_star
      then (let prefix : Str = take (length res - 2) res in
          str_eq resource prefix || has_prefix resource (prefix ++ slash ∷ []))
      else false
]

unfoldable pub has_permission_ui : List Str → Str → Str → Bool
has_permission_ui permissions resource action = any (λ p. grants_ui p resource action) permissions

pub record Client : Type 0 where
  pub id : Str
  pub name : Str
  pub folder : Str
  pub allowed_fields : List Str
  pub scopes : List Str
  pub allowed_ips : List Str
  pub rate_limit_max : ℕ
  pub rate_limit_window_seconds : ℕ
  pub enabled : Bool

-- What the middleware leaves in the request's locals; "" is a user ID that is not there.
pub record Locals : Type 0 where
  pub user_id : Str
  pub api_client : Option Client

-- A handler's answer: it goes on, or ends with an HTTP status.
pub data Answer : Type 0 where
  next : Answer
  fail : ℕ → Answer

-- `splitScope`
unfoldable pub split_scope : Str → Option (Str × Str)
split_scope scope = cut_last colon scope

-- `resolve` is `Resolver.Resolve` at the time of the request; `none` is an error.
module _ (resolve : Str → Option Resolved) where
  -- The body of the loop of `requireOwnScopes`, for one scope.
  unfoldable pub require_own_scope : Locals → Str → Answer
  unfolding split_scope
  require_own_scope c scope = elim (split_scope scope) [
    | none ↦ fail 400
    | some (resource, action) ↦
        if not (is_empty c.user_id)
        then elim (resolve c.user_id) [
          | none ↦ fail 500
          | some r ↦ if has r resource action then next else fail 403
        ]
        else elim c.api_client [
          | some client ↦ if has_scope client.scopes resource action then next else fail 403
          | none ↦ fail 401
        ]
  ]

  unfoldable pub require_own_scopes : Locals → List Str → Answer
  require_own_scopes c [] = next
  require_own_scopes c (scope ∷ scopes) = elim (require_own_scope c scope) [
    | next ↦ require_own_scopes c scopes
    | fail code ↦ fail code
  ]

  -- `requirePermission`, the guard of a route.
  unfoldable pub require_permission : Str → Str → Locals → Answer
  require_permission resource action c =
      if not (is_empty c.user_id)
      then elim (resolve c.user_id) [
        | none ↦ fail 500
        | some r ↦ if has r resource action then next else fail 403
      ]
      else elim c.api_client [
        | some client ↦ if has_scope client.scopes resource action then next else fail 403
        | none ↦ fail 401
      ]
