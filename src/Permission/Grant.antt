-- ===== src/Permission/Grant.antt =====
-- internal/httpserver/actor.go, `requireOwnScopes`: the scopes that an actor may give to a new API
-- client. It looks a scope's pattern up as if it were a resource.
use idpforge.Base.{
  is_empty, if◌then◌else◌, ◌≡◌, refl, sym, ◌∙◌, inl, inr, Bool, true, false, Option, none, some,
  List, [], ◌∷◌, ◌++◌, arith, not, Str, str_eq, str_eq_iff, cut, cut-append, cut_sound,
  cut_last-append, Free, In, all, Bool-cases, Option-cases, codes, ◌≢◌, has_prefix, cut_suffix,
}
use idpforge.Permission.{
  star, colon, matches, Resolved, has, Locals, next, fail, scope_grants, has_scope, split_scope,
  require_own_scope, require_own_scopes, require_permission,
}
use idpforge.Permission.Wildcard.{Covers, everything, folder, has_iff, matches_iff}
use idpforge.Permission.Tame.{is_tame, Covers-trans}

abbrev scope_tame : Str → Bool
scope_tame s = elim (cut colon s) [ none ↦ true | some (resource, act) ↦ is_tame resource ]

-- All that the actor holds is tame: a user's permissions, or an API client's scopes.
unfoldable pub actor_tame : (Str → Option Resolved) → Locals → Bool
actor_tame resolve c =
    if not (is_empty c.user_id)
    then elim (resolve c.user_id) [
      | none ↦ true
      | some r ↦ all (λ p. is_tame p.resource) r.permissions
    ]
    else elim c.api_client [ none ↦ true | some client ↦ all scope_tame client.scopes ]

-- A scope grants what its pattern covers, for its action.
scope_grants_sound :
    (s resource action : Str)
    → scope_grants s resource action ≡ true
    → (pattern : Str) × (cut colon s ≡ some (pattern, action)) × Covers pattern resource
unfolding scope_grants matches
scope_grants_sound s resource action h = elim (Option-cases (cut colon s)) [
  | inl missed ↦ ground arith
  | inr ((pattern, act), found) ↦ (
    pattern,
    ground (arith, str_eq_iff act action),
    (matches_iff (record { resource = pattern; action = act }) resource).0 ground arith,
  )
]

scope_grants_complete :
    (s resource action pattern : Str)
    → cut colon s ≡ some (pattern, action)
    → Covers pattern resource
    → scope_grants s resource action ≡ true
unfolding scope_grants matches
scope_grants_complete s resource action pattern found c =
    let m = (matches_iff (record { resource = pattern; action = action }) resource).1 c in
    ground (arith, str_eq_iff action action)

all-In : {A : Type 0} (p : A → Bool) (xs : List A) (a : A) → all p xs ≡ true → In a xs → p a ≡ true
all-In p [] a h m = elim m [ ]
all-In p (x ∷ xs) a h (inl e) = rw e (ground arith)
all-In p (x ∷ xs) a h (inr m) = all-In p xs a (ground arith) m

-- What tame permissions say of a pattern they say of all that it covers.
has-Covers :
    (r : Resolved) (pattern resource action : Str)
    → all (λ p. is_tame p.resource) r.permissions ≡ true
    → has r pattern action ≡ true
    → Covers pattern resource
    → has r resource action ≡ true
has-Covers r pattern resource action t h c =
    let (p, m, a, d) = (has_iff r pattern action).0 h in
    (has_iff r resource action).1 (
      p,
      m,
      a,
      Covers-trans p.resource pattern resource
          (all-In (λ p. is_tame p.resource) r.permissions p t m) d c,
    )

has_scope-Covers :
    (ss : List Str) (pattern resource action : Str)
    → all scope_tame ss ≡ true
    → has_scope ss pattern action ≡ true
    → Covers pattern resource
    → has_scope ss resource action ≡ true
unfolding has_scope
has_scope-Covers [] pattern resource action t h c = h
has_scope-Covers (s ∷ ss) pattern resource action t h c =
    elim (Bool-cases (scope_grants s pattern action)) [
      | inl here ↦
          let (held, found, d) = scope_grants_sound s pattern action here in
          let tame : is_tame held ≡ true = ground arith in
          let now =
            scope_grants_complete s resource action held found
              (Covers-trans held pattern resource tame d c) in
          ground (arith, now)
      | inr later ↦
          let rest = has_scope-Covers ss pattern resource action ground arith ground arith c in
          ground (arith, rest)
    ]

-- Where the action has no colon, the first colon of the scope is the last.
split_scope_lem :
    (s pattern action : Str)
    → Free colon action
    → cut colon s ≡ some (pattern, action)
    → split_scope s ≡ some (pattern, action)
unfolding split_scope
split_scope_lem s pattern action f found =
    rw ((cut_sound colon s pattern action found).0) (cut_last-append colon pattern action f)

module _ (resolve : Str → Option Resolved) (c : Locals) where
  -- The check of a scope is the check of a route that asks for the scope's parts.
  own_scope-eq-permission :
      (s pattern action : Str)
      → split_scope s ≡ some (pattern, action)
      → require_own_scope resolve c s ≡ require_permission resolve pattern action c
  unfolding require_own_scope require_permission
  own_scope-eq-permission s pattern action e = ground arith

  permission_Covers :
      (pattern resource action : Str)
      → actor_tame resolve c ≡ true
      → require_permission resolve pattern action c ≡ next
      → Covers pattern resource
      → require_permission resolve resource action c ≡ next
  unfolding require_permission actor_tame
  permission_Covers pattern resource action t h covers = elim (Bool-cases (is_empty c.user_id)) [
    | inl e ↦ elim (Option-cases c.api_client) [
      | inl missed ↦ ground arith
      | inr (client, found) ↦
          let more =
            has_scope-Covers client.scopes pattern resource action ground arith ground arith
              covers in
          ground arith
    ]
    | inr e ↦ elim (Option-cases (resolve c.user_id)) [
      | inl missed ↦ ground arith
      | inr (r, found) ↦
          let more = has-Covers r pattern resource action ground arith ground arith covers in
          ground arith
    ]
  ]

scope_no_escalation :
    (resolve : Str → Option Resolved) (c : Locals) (s resource action : Str)
    → actor_tame resolve c ≡ true
    → Free colon action
    → require_own_scope resolve c s ≡ next
    → scope_grants s resource action ≡ true
    → require_permission resolve resource action c ≡ next
scope_no_escalation resolve c s resource action t f h g =
    let (pattern, found, covers) = scope_grants_sound s resource action g in
    permission_Covers resolve c pattern resource action t
      (sym (
          own_scope-eq-permission resolve c s pattern action
            (split_scope_lem s pattern action f found))
        ∙ h)
      covers

-- Every route that a new API client's scopes open is open to the actor who gave them, where all
-- that the actor holds is tame and the route's action has no colon.
pub no_escalation :
    (resolve : Str → Option Resolved) (c : Locals) (scopes : List Str) (resource action : Str)
    → actor_tame resolve c ≡ true
    → Free colon action
    → require_own_scopes resolve c scopes ≡ next
    → has_scope scopes resource action ≡ true
    → require_permission resolve resource action c ≡ next
unfolding require_own_scopes has_scope
no_escalation resolve c [] resource action t f h g = cc
no_escalation resolve c (s ∷ ss) resource action t f h g =
    elim (Bool-cases (scope_grants s resource action)) [
      | inl here ↦ scope_no_escalation resolve c s resource action t f ground arith here
      | inr later ↦ no_escalation resolve c ss resource action t f ground arith ground arith
    ]

-- A user whose only permission is for "*/*".
abbrev pub double_star : Str → Str → Resolved
double_star uid action = record {
  user_id = uid;
  role_names = [];
  permissions = record { resource = codes "*/*"; action = action } ∷ [];
}

double_star-has : (uid action : Str) → has (double_star uid action) star action ≡ true
double_star-has uid action =
    (has_iff (double_star uid action) star action).1
      (record { resource = codes "*/*"; action = action }, inl refl, refl, folder refl)

double_star_misses :
    (uid action resource : Str)
    → resource ≢ codes "*"
    → resource ≢ codes "*/*"
    → has_prefix resource (codes "*/") ≡ false
    → has (double_star uid action) resource action ≡ false
unfolding has matches cut_suffix str_eq
double_star_misses uid action resource a b p =
    ground (arith, str_eq_iff resource (codes "*"), str_eq_iff (codes "*/*") resource)

-- The escalation: such a user may give a client the scope "*", which then reaches every resource
-- that the user does not reach.
pub double_star_escalates :
    (resolve : Str → Option Resolved) (c : Locals) (action resource : Str)
    → is_empty c.user_id ≡ false
    → resolve c.user_id ≡ some (double_star c.user_id action)
    → Free colon action
    → resource ≢ codes "*"
    → resource ≢ codes "*/*"
    → has_prefix resource (codes "*/") ≡ false
    → (require_own_scopes resolve c ((codes "*" ++ colon ∷ action) ∷ []) ≡ next)
      × (has_scope ((codes "*" ++ colon ∷ action) ∷ []) resource action ≡ true)
      × (require_permission resolve resource action c ≡ fail 403)
unfolding require_own_scopes require_permission has_scope
double_star_escalates resolve c action resource u r f a b p =
    let scope = codes "*" ++ colon ∷ action in
    let parts : cut colon scope ≡ some (star, action) =
      cut-append colon (codes "*") action (omega arith, tt) in
    let check =
      own_scope-eq-permission resolve c scope star action
        (split_scope_lem scope star action f parts) in
    (
      ground (arith, check, double_star-has c.user_id action),
      ground (arith, scope_grants_complete scope resource action star parts (everything refl)),
      ground (arith, double_star_misses c.user_id action resource a b p),
    )
