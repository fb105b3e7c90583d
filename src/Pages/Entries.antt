-- ===== src/Pages/Entries.antt =====
-- web/components/AppShell.tsx: the entries of the navigation, against the calls of the pages of
-- web/app/(app) that they lead to.
use idpforge.Base.{
  ◌≡◌, refl, sym, ap, ◌∙◌, ◌↔◌, inl, inr, Bool, true, false, some, List, [], ◌∷◌, Str, codes, In,
  In-keep, Apart, any_iff, str_eq, str_eq_iff,
}
use idpforge.Permission.{Locals, Resolved}
use idpforge.Router.Fiber.{Fiber}
use idpforge.Router.Serve.{Gate}
use idpforge.Console.{audit_logs}
use idpforge.Console.Nav.{Item, item, nav, is_visible, visible_nav, me_permissions}
use idpforge.Pages.View.{◌&◌}
use idpforge.Pages.Report.{Task, load, AllServed, SignedIn, Permitted-Served}
use idpforge.Pages.Opening
use idpforge.Pages.Opening.{opening, opening_iff, call_asks}

-- The address of an entry, and the calls that its page sends as it opens; of the audit log the
-- request for its entries.
pub data LeadsTo : Str → List Task → Type 0 where
  users : LeadsTo (codes "/users") (opening Opening.users)
  roles : LeadsTo (codes "/roles") (opening Opening.roles)
  api_clients : LeadsTo (codes "/api-clients") (opening Opening.api_clients)
  usage : LeadsTo (codes "/usage") (opening Opening.usage)
  audit : (params : Str) → LeadsTo (codes "/audit") (load (audit_logs params) ∷ [])
  settings : LeadsTo (codes "/settings") (opening Opening.settings)

-- An entry with this address is shown.
abbrev pub Shows : List Str → Str → Type 0
Shows permissions href = (i : Item) × In i (visible_nav permissions) × (i.href ≡ href)

abbrev same_href : Item → Item → Bool
same_href i j = str_eq i.href j.href

nav-Apart : Apart same_href nav
unfolding str_eq
nav-Apart = (refl, (refl, (refl, (refl, (refl, (refl, (refl, (refl, tt))))))))

one_entry :
    (xs : List Item) (i j : Item) → Apart same_href xs → In i xs → In j xs → i.href ≡ j.href → i ≡ j
one_entry [] i j h m n e = elim m [ ]
one_entry (x ∷ xs) i j (h, hs) (inl m) (inl n) e = m ∙ sym n
one_entry (x ∷ xs) i j (h, hs) (inr m) (inr n) e = one_entry xs i j hs m n e
one_entry (x ∷ xs) i j (h, hs) (inl m) (inr n) e =
    let there =
      (any_iff (same_href x) xs).1
        (j, n, (str_eq_iff x.href j.href).1 (ap (λ (y : Item). y.href) (sym m) ∙ e)) in
    let clash : true ≡ false = sym there ∙ h in cc
one_entry (x ∷ xs) i j (h, hs) (inr m) (inl n) e =
    let there =
      (any_iff (same_href x) xs).1
        (i, m, (str_eq_iff x.href i.href).1 (ap (λ (y : Item). y.href) (sym n) ∙ sym e)) in
    let clash : true ≡ false = sym there ∙ h in cc

Shows-is_visible :
    (permissions : List Str) (i : Item)
    → In i nav
    → Shows permissions i.href ↔ (is_visible permissions i ≡ true)
unfolding visible_nav
Shows-is_visible permissions i m = (
  λ (j, n, e).
      let (there, seen) = (In-keep (is_visible permissions) nav j).0 n in
      ap (is_visible permissions) (one_entry nav i j nav-Apart m there (sym e)) ∙ seen,
  λ h. (i, (In-keep (is_visible permissions) nav i).1 (m, h), refl),
)

-- The navigation shows a signed-in user the entry of the users, the roles, the API clients, the
-- usage, the audit log or the settings exactly where the server serves the calls that the page of
-- the entry sends as it opens; of the audit log the request for its entries.
pub nav_iff :
    (f : Fiber) (g : Gate) (c : Locals) (r : Resolved) (href : Str) (calls : List Task)
    → SignedIn g c r
    → LeadsTo href calls
    → Shows (me_permissions (some r)) href ↔ AllServed f g calls
nav_iff f g c r _ _ s users =
    let (shown, show) =
      Shows-is_visible (me_permissions (some r))
        (item (codes "/users") (codes "Users") (codes "users") (codes "read")) (inr (inl refl)) in
    let (asks, pass) = opening_iff f g c r Opening.users s tt in
    (λ h. pass (shown h & tt), λ h. show (asks h).0)
nav_iff f g c r _ _ s roles =
    let (shown, show) =
      Shows-is_visible (me_permissions (some r))
        (item (codes "/roles") (codes "Roles") (codes "rbac") (codes "manage"))
        (inr (inr (inl refl))) in
    let (asks, pass) = opening_iff f g c r Opening.roles s tt in
    (λ h. pass (shown h & tt), λ h. show (asks h).0)
nav_iff f g c r _ _ s api_clients =
    let (shown, show) =
      Shows-is_visible (me_permissions (some r))
        (item (codes "/api-clients") (codes "API clients") (codes "api_clients") (codes "manage"))
        (inr (inr (inr (inl refl)))) in
    let (asks, pass) = opening_iff f g c r Opening.api_clients s tt in
    (λ h. pass (shown h & tt), λ h. show (asks h).0)
nav_iff f g c r _ _ s usage =
    let (shown, show) =
      Shows-is_visible (me_permissions (some r))
        (item (codes "/usage") (codes "Usage") (codes "metrics") (codes "read"))
        (inr (inr (inr (inr (inr (inl refl)))))) in
    let (asks, pass) = opening_iff f g c r Opening.usage s tt in
    (λ h. pass (shown h & tt), λ h. show (asks h).0)
nav_iff f g c r _ _ s (audit params) =
    let (shown, show) =
      Shows-is_visible (me_permissions (some r))
        (item (codes "/audit") (codes "Audit log") (codes "audit") (codes "read"))
        (inr (inr (inr (inr (inr (inr (inl refl))))))) in
    (
      λ h. (Permitted-Served f g c r (audit_logs params) s ((shown h & tt) & tt), tt),
      λ (h, _). show (call_asks f g c r (audit_logs params) s tt h).0,
    )
nav_iff f g c r _ _ s settings =
    let (shown, show) =
      Shows-is_visible (me_permissions (some r))
        (item (codes "/settings") (codes "Settings") (codes "settings") (codes "read"))
        (inr (inr (inr (inr (inr (inr (inr (inl refl)))))))) in
    let (asks, pass) = opening_iff f g c r Opening.settings s tt in
    (λ h. pass (shown h & tt), λ h. show (asks h).0)
