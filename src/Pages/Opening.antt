-- ===== src/Pages/Opening.antt =====
-- web/app/(app): the calls that each page sends as it opens, and who may open it.
use idpforge.Base.{
  ◌≡◌, ◌↔◌, sym, ◌∙◌, inl, inr, true, false, some, List, [], ◌∷◌, ◌++◌, All, All-append, Str, codes,
  is_empty, arith, Bool-cases, Free,
}
use idpforge.Permission
use idpforge.Permission.{
  Permission, Locals, Resolved, has, has_in, has_permission_ui, next, fail, colon,
}
use idpforge.Permission.Agreement.{has_permission_ui-eq-has}
use idpforge.Router.{Action}
use idpforge.Router.Fiber.{Fiber}
use idpforge.Router.Serve.{Gate, reached}
use idpforge.Console.{Call}
use idpforge.Console.Access.{action_of, needs, HasIds}
use idpforge.Console.Served.{guarded, call_is_served}
use idpforge.Console.Nav.{me_permissions}
use idpforge.Pages.View.{◌&◌}
use idpforge.Pages.Report.{Task, call_of, Served, AllServed, SignedIn, Permitted-Served}
use idpforge.Pages.UserList
use idpforge.Pages.UserDetail
use idpforge.Pages.RoleList
use idpforge.Pages.RoleDetail
use idpforge.Pages.ApiClients
use idpforge.Pages.Devices
use idpforge.Pages.Usage
use idpforge.Pages.Dashboard
use idpforge.Pages.Settings

-- A page by its address.
pub data Address : Type 0 where
  dashboard users roles api_clients devices usage settings : Address
  user role : Str → Address

-- The calls that it sends as it opens.
unfoldable pub opening : Address → List Task
opening dashboard = Dashboard.opened.1
opening users = UserList.opened.1
opening roles = RoleList.opened.1
opening api_clients = ApiClients.opened.1
opening devices = Devices.opened.1
opening usage = Usage.opened.1
opening settings = Settings.opened.1
opening (user id) = (UserDetail.opened id).1
opening (role id) = (RoleDetail.opened id).1

-- The permissions that a user needs for all of a page.
abbrev pub asked_of : Address → List (Str × Str)
asked_of dashboard =
    (codes "users", codes "read")
    ∷ (codes "rbac", codes "manage")
    ∷ (codes "api_clients", codes "manage")
    ∷ (codes "iot", codes "manage")
    ∷ []
asked_of users = (codes "users", codes "read") ∷ []
asked_of roles = (codes "rbac", codes "manage") ∷ []
asked_of api_clients = (codes "api_clients", codes "manage") ∷ []
asked_of devices = (codes "iot", codes "manage") ∷ (codes "iot", codes "read") ∷ []
asked_of usage = (codes "metrics", codes "read") ∷ []
asked_of settings = (codes "settings", codes "read") ∷ []
asked_of (user id) = (codes "users", codes "read") ∷ (codes "rbac", codes "manage") ∷ []
asked_of (role id) = (codes "rbac", codes "manage") ∷ []

-- An ID in the address is not empty.
abbrev pub Named : Address → Type 0
Named (user id) = is_empty id ≡ false
Named (role id) = is_empty id ≡ false
Named a = Unit

abbrev pub Granted : List Str → Str × Str → Type 0
Granted permissions n = has_permission_ui permissions n.0 n.1 ≡ true

guarded_only :
    (g : Gate) (c : Locals) (r : Resolved) (ns : List (Str × Str)) (a : Action)
    → is_empty c.user_id ≡ false
    → g.resolve c.user_id ≡ some r
    → All (λ (p : Permission). Free colon p.resource) r.permissions
    → guarded g c ns a ≡ reached a
    → All (Granted (me_permissions (some r))) ns
unfolding guarded Permission.require_permission me_permissions has
guarded_only g c r [] a u e free h = tt
guarded_only g c r ((resource, action) ∷ ns) a u e free h =
    let same = has_permission_ui-eq-has r.permissions resource action free in
    elim (Bool-cases (has_in r.permissions resource action)) [
      | inl held ↦ (same ∙ held, guarded_only g c r ns a u e free (ground arith))
      | inr held ↦ absurd (ground arith)
    ]

-- The server serves a call only to a user who has the permissions for it.
pub call_asks :
    (f : Fiber) (g : Gate) (c : Locals) (r : Resolved) (q : Call)
    → SignedIn g c r
    → HasIds q
    → Served f g q
    → All (Granted (me_permissions (some r))) (needs q)
call_asks f g c r q s ids h =
    guarded_only g c r (needs q) (action_of q) s.named s.found s.colon_free
      (sym (call_is_served f g c q s.known s.named s.passes ids) ∙ h)

-- All that the calls of a page need.
abbrev all_needs : List Task → List (Str × Str)
all_needs [] = []
all_needs (t ∷ ts) = needs (call_of t) ++ all_needs ts

calls_ask :
    (f : Fiber) (g : Gate) (c : Locals) (r : Resolved) (ts : List Task)
    → SignedIn g c r
    → All (λ t. HasIds (call_of t)) ts
    → AllServed f g ts
    → All (Granted (me_permissions (some r))) (all_needs ts)
calls_ask f g c r [] s ids h = tt
calls_ask f g c r (t ∷ ts) s (i, ids) (h, hs) =
    All-append (Granted (me_permissions (some r))) (needs (call_of t)) (all_needs ts)
      (call_asks f g c r (call_of t) s i h) (calls_ask f g c r ts s ids hs)

opening-HasIds : (a : Address) → Named a → All (λ t. HasIds (call_of t)) (opening a)
unfolding opening
opening-HasIds dashboard n = tt & tt & tt & tt & tt
opening-HasIds users n = tt & tt
opening-HasIds roles n = tt & tt & tt & tt
opening-HasIds api_clients n = tt & tt
opening-HasIds devices n = tt & tt & tt
opening-HasIds usage n = tt & tt
opening-HasIds settings n = tt & tt
opening-HasIds (user id) n = n & n & tt & n & tt
opening-HasIds (role id) n = n & n & tt & tt

-- The permissions of the table are those that the calls need.
asked_iff :
    (P : Str × Str → Type 0) (a : Address) → All P (all_needs (opening a)) ↔ All P (asked_of a)
unfolding opening
asked_iff P dashboard = (λ h. h, λ h. h)
asked_iff P users = (λ h. h, λ h. h)
asked_iff P roles = (λ (m, _). m & tt, λ (m, _). m & m & m & tt)
asked_iff P api_clients = (λ h. h, λ h. h)
asked_iff P devices = (λ (m, (_, (r, _))). m & r & tt, λ (m, (r, _)). m & m & r & tt)
asked_iff P usage = (λ h. h, λ h. h)
asked_iff P settings = (λ h. h, λ h. h)
asked_iff P (user id) = (λ (u, (m, _)). u & m & tt, λ (u, (m, _)). u & m & m & u & tt)
asked_iff P (role id) = (λ (m, _). m & tt, λ (m, _). m & m & m & tt)

All-split :
    (P : Str × Str → Type 0) (xs ys : List (Str × Str)) → All P (xs ++ ys) → All P xs × All P ys
All-split P [] ys h = (tt, h)
All-split P (x ∷ xs) ys (h, hs) = let (l, r) = All-split P xs ys hs in ((h, l), r)

calls_pass :
    (f : Fiber) (g : Gate) (c : Locals) (r : Resolved) (ts : List Task)
    → SignedIn g c r
    → All (λ t. HasIds (call_of t)) ts
    → All (Granted (me_permissions (some r))) (all_needs ts)
    → AllServed f g ts
calls_pass f g c r [] s ids h = tt
calls_pass f g c r (t ∷ ts) s (i, ids) h =
    let (mine, rest) =
      All-split (Granted (me_permissions (some r))) (needs (call_of t)) (all_needs ts) h in
    (Permitted-Served f g c r (call_of t) s (mine, i), calls_pass f g c r ts s ids rest)

-- The server serves a signed-in user all that a page asks for as it opens exactly where the user
-- has the permissions of the page's row in the table of `asked_of`; the ID in its address, if it
-- has one, is not empty.
pub opening_iff :
    (f : Fiber) (g : Gate) (c : Locals) (r : Resolved) (a : Address)
    → SignedIn g c r
    → Named a
    → AllServed f g (opening a) ↔ All (Granted (me_permissions (some r))) (asked_of a)
opening_iff f g c r a s named =
    let ids = opening-HasIds a named in
    let (to_asked, from_asked) = asked_iff (Granted (me_permissions (some r))) a in
    (
      λ h. to_asked (calls_ask f g c r (opening a) s ids h),
      λ h. calls_pass f g c r (opening a) s ids (from_asked h),
    )
