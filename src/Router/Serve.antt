-- ===== src/Router/Serve.antt =====
-- internal/httpserver: a chain of handlers, run on a request.
use idpforge.Base.{ℕ, Option, none, List, [], ◌∷◌, Str, if◌then◌else◌, is_empty}
use idpforge.Permission
use idpforge.Permission.{Resolved, Locals, Answer, next, fail}
use idpforge.Router.{
  Action, Handler, authenticate_any, require_user_actor, require_permission, handle,
}

-- `requireUserActor` of actor.go
unfoldable pub check_user_actor : Locals → Answer
check_user_actor c = if is_empty c.user_id then fail 403 else next

-- What `authenticateAny` makes of a request: an error, or the locals that it sets.
pub data Caller : Type 0 where
  rejected : ℕ → Caller
  accepted : Locals → Caller

pub data Outcome : Type 0 where
  reached : Action → Outcome
  refused : ℕ → Outcome
  missing : Outcome

-- What a request meets on its way: the resolver, `authenticateAny`, and the other middleware.
pub record Gate : Type 0 where
  pub resolve : Str → Option Resolved
  pub caller : Caller
  pub middleware : Handler → Answer

-- The handlers up to the first that does not call `Next`.
unfoldable pub serve : Gate → Locals → List Handler → Outcome
serve g c [] = missing
serve g c (authenticate_any ∷ hs) = elim g.caller [
  | rejected code ↦ refused code
  | accepted l ↦ serve g l hs
]
serve g c (require_user_actor ∷ hs) = elim (check_user_actor c) [
  | next ↦ serve g c hs
  | fail code ↦ refused code
]
serve g c (require_permission resource action ∷ hs) =
    elim (Permission.require_permission g.resolve resource action c) [
      | next ↦ serve g c hs
      | fail code ↦ refused code
    ]
serve g c (handle a ∷ hs) = reached a
serve g c (h ∷ hs) = elim (g.middleware h) [ next ↦ serve g c hs | fail code ↦ refused code ]

abbrev pub no_locals : Locals
no_locals = record { user_id = []; api_client = none }
