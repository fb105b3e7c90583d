-- ===== src/Pages/Report.antt =====
-- `report` of web/app/(app)/roles/page.tsx, roles/detail/page.tsx and users/detail/page.tsx: a call
-- that an action sends, and the message of its answer. And what it means that the server serves it.
use idpforge.Base.{
  ◌≡◌, refl, sym, ◌∙◌, Bool, true, false, Option, none, some, List, [], ◌∷◌, map, All, Str,
  is_empty, arith, Free, if◌then◌else◌,
}
use idpforge.Permission
use idpforge.Permission.{
  Permission, Locals, Resolved, to_string, has, has_in, has_permission_ui, next, fail, colon,
}
use idpforge.Permission.Agreement.{has_permission_ui-eq-has}
use idpforge.Router.{Handler, Action}
use idpforge.Router.Table.{register_routes}
use idpforge.Router.Fiber.{Fiber}
use idpforge.Router.Serve.{Gate, accepted, serve, reached, no_locals}
use idpforge.Console.{Call, request_of}
use idpforge.Console.Access.{action_of, needs, HasIds}
use idpforge.Console.Served.{guarded, call_is_served}
use idpforge.Console.Nav.{me_permissions}
use idpforge.Console.Response.{Reply, value, undefined, api_error, broken}
use idpforge.Pages.View.{Shown, good, danger, badge, AllOffered}

pub record Flash : Type 0 where
  pub msg : Str
  pub is_ok : Bool

-- The component `Flash` of ui.tsx, for `flash && …`; it shows no empty message.
abbrev pub show_flash : {Ev : Type 0} → Option Flash → List (Shown Ev)
show_flash none = []
show_flash (some f) =
    if is_empty f.msg then [] else badge (if f.is_ok then good else danger) f.msg ∷ []

pub AllOffered-show_flash :
    {Ev : Type 0} (P : Ev → Type 0) (f : Option Flash) → AllOffered P (show_flash f)
AllOffered-show_flash P none = tt
AllOffered-show_flash P (some f) = quiet (is_empty f.msg)
  where
    quiet :
        (b : Bool)
        → AllOffered P (if b then [] else badge (if f.is_ok then good else danger) f.msg ∷ [])
    quiet true = tt
    quiet false = tt

-- A call that a handler sends: one whose answer is reported, with the messages for its success and
-- for a failure that is no error of the API, or one that loads what the page shows.
pub data Task : Type 0 where
  send : Call → Str → Str → Task
  load : Call → Task

abbrev pub call_of : Task → Call
call_of (send q ok_msg fail_msg) = q
call_of (load q) = q

-- The message of an answer; a request that fails as such is `broken`.
abbrev pub flash_of : {A : Type 0} → Str → Str → Reply A → Flash
flash_of ok_msg fail_msg (value a) = record { msg = ok_msg; is_ok = true }
flash_of ok_msg fail_msg undefined = record { msg = ok_msg; is_ok = true }
flash_of ok_msg fail_msg (api_error status message) = record { msg = message; is_ok = false }
flash_of ok_msg fail_msg broken = record { msg = fail_msg; is_ok = false }

-- What a page loads again after an answer: all of it where the call succeeded.
abbrev pub reload : {A : Type 0} → Reply A → List Call → List Task
reload (value a) calls = map load calls
reload undefined calls = map load calls
reload (api_error status message) calls = []
reload broken calls = []

-- The user has every permission that the call needs, and its path names what it is about.
abbrev pub Permitted : List Str → Call → Type 0
Permitted permissions q =
    All (λ n. has_permission_ui permissions n.0 n.1 ≡ true) (needs q) × HasIds q

abbrev pub AllPermitted : List Str → List Task → Type 0
AllPermitted permissions = All (λ t. Permitted permissions (call_of t))

-- A signed-in user whom the server resolves, no resource of whose permissions holds a colon, and
-- the other middleware lets pass.
pub record SignedIn (g : Gate) (c : Locals) (r : Resolved) : Type 0 where
  pub known : g.caller ≡ accepted c
  pub named : is_empty c.user_id ≡ false
  pub passes : (h : Handler) → g.middleware h ≡ next
  pub found : g.resolve c.user_id ≡ some r
  pub colon_free : All (λ (p : Permission). Free colon p.resource) r.permissions

-- The server runs the handler of the call.
abbrev pub Served : Fiber → Gate → Call → Type 0
Served f g q =
    serve g no_locals (f.chain register_routes (request_of q).method (request_of q).path)
    ≡ reached (action_of q)

abbrev pub AllServed : Fiber → Gate → List Task → Type 0
AllServed f g = All (λ t. Served f g (call_of t))

guarded_open :
    (g : Gate) (c : Locals) (r : Resolved) (ns : List (Str × Str)) (a : Action)
    → is_empty c.user_id ≡ false
    → g.resolve c.user_id ≡ some r
    → All (λ (p : Permission). Free colon p.resource) r.permissions
    → All (λ n. has_permission_ui (me_permissions (some r)) n.0 n.1 ≡ true) ns
    → guarded g c ns a ≡ reached a
unfolding guarded Permission.require_permission me_permissions has
guarded_open g c r [] a u e free h = refl
guarded_open g c r ((resource, action) ∷ ns) a u e free (h, hs) =
    let held : has_in r.permissions resource action ≡ true =
      sym (has_permission_ui-eq-has r.permissions resource action free) ∙ h in
    let rest = guarded_open g c r ns a u e free hs in ground arith

-- What the console knows to be permitted, the server serves.
pub Permitted-Served :
    (f : Fiber) (g : Gate) (c : Locals) (r : Resolved) (q : Call)
    → SignedIn g c r
    → Permitted (me_permissions (some r)) q
    → Served f g q
Permitted-Served f g c r q s (granted, ids) =
    call_is_served f g c q s.known s.named s.passes ids
    ∙ guarded_open g c r (needs q) (action_of q) s.named s.found s.colon_free granted

pub AllPermitted-AllServed :
    (f : Fiber) (g : Gate) (c : Locals) (r : Resolved) (ts : List Task)
    → SignedIn g c r
    → AllPermitted (me_permissions (some r)) ts
    → AllServed f g ts
AllPermitted-AllServed f g c r [] s h = tt
AllPermitted-AllServed f g c r (t ∷ ts) s (h, hs) =
    (Permitted-Served f g c r (call_of t) s h, AllPermitted-AllServed f g c r ts s hs)
