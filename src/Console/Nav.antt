-- ===== src/Console/Nav.antt =====
-- web/components/AppShell.tsx: the entries of the navigation, against what the server serves; and
-- the permissions that handleMe in internal/httpserver/me_handlers.go sends to the console.
use idpforge.Base.{
  ◌≡◌, refl, sym, ◌∙◌, ◌↔◌, inl, inr, Bool, true, false, Option, none, some, List, [], ◌∷◌, map,
  Str, codes, is_empty, arith, In, In-keep, keep, All, Free,
}
use idpforge.Permission
use idpforge.Permission.{
  Permission, Locals, Resolved, to_string, has, has_in, has_permission_ui, next, fail, colon,
}
use idpforge.Permission.Agreement.{has_permission_ui-eq-has}
use idpforge.Router.{Handler}
use idpforge.Router.Table.{register_routes}
use idpforge.Router.Fiber.{Fiber}
use idpforge.Router.Serve.{Gate, accepted, serve, refused, no_locals}
use idpforge.Console.{request_of, iot_devices, iot_events}
use idpforge.Console.Served.{guarded, call_is_served}

-- An entry of `NAV`; its icon is left out.
pub record Item : Type 0 where
  pub href : Str
  pub label : Str
  pub requires : Option (Str × Str)

abbrev pub item : Str → Str → Str → Str → Item
item href label resource action = record {
  href = href;
  label = label;
  requires = some (resource, action);
}

abbrev pub iot_item : Item
iot_item = item (codes "/iot") (codes "IoT devices") (codes "iot") (codes "read")

-- `NAV`
abbrev pub nav : List Item
nav =
    record { href = codes "/"; label = codes "Dashboard"; requires = none }
    ∷ item (codes "/users") (codes "Users") (codes "users") (codes "read")
    ∷ item (codes "/roles") (codes "Roles") (codes "rbac") (codes "manage")
    ∷ item (codes "/api-clients") (codes "API clients") (codes "api_clients") (codes "manage")
    ∷ iot_item
    ∷ item (codes "/usage") (codes "Usage") (codes "metrics") (codes "read")
    ∷ item (codes "/audit") (codes "Audit log") (codes "audit") (codes "read")
    ∷ item (codes "/settings") (codes "Settings") (codes "settings") (codes "read")
    ∷ []

abbrev pub is_visible : List Str → Item → Bool
is_visible permissions i = elim i.requires [
  | none ↦ true
  | some (resource, action) ↦ has_permission_ui permissions resource action
]

-- `visibleNav`
unfoldable pub visible_nav : List Str → List Item
visible_nav permissions = keep (is_visible permissions) nav

-- The `permissions` of the answer of `handleMe`.
unfoldable pub me_permissions : Option Resolved → List Str
me_permissions none = []
me_permissions (some r) = map to_string r.permissions

visible_iff :
    (r : Resolved) (i : Item) (resource action : Str)
    → In i nav
    → i.requires ≡ some (resource, action)
    → All (λ (p : Permission). Free colon p.resource) r.permissions
    → In i (visible_nav (me_permissions (some r))) ↔ (has r resource action ≡ true)
unfolding visible_nav me_permissions has
visible_iff r i resource action m e f =
    let shown : is_visible (map to_string r.permissions) i ≡ has_in r.permissions resource action =
      rw e (has_permission_ui-eq-has r.permissions resource action f) in
    let kept = In-keep (is_visible (map to_string r.permissions)) nav i in
    (λ n. sym shown ∙ (kept.0 n).1, λ h. kept.1 (m, shown ∙ h))

-- A user who may read the devices but not manage them is shown the entry of the devices, while the
-- server refuses both calls that its page makes at first.
pub nav_shows_refused :
    (f : Fiber) (g : Gate) (c : Locals) (r : Resolved)
    → g.caller ≡ accepted c
    → is_empty c.user_id ≡ false
    → ((h : Handler) → g.middleware h ≡ next)
    → g.resolve c.user_id ≡ some r
    → All (λ (p : Permission). Free colon p.resource) r.permissions
    → has r (codes "iot") (codes "read") ≡ true
    → has r (codes "iot") (codes "manage") ≡ false
    → In iot_item (visible_nav (me_permissions (some r)))
      × (serve g no_locals
            (f.chain register_routes (request_of iot_devices).method (request_of iot_devices).path)
          ≡ refused 403)
      × (serve g no_locals (
            f.chain register_routes
              (request_of (iot_events [])).method
              (request_of (iot_events [])).path)
          ≡ refused 403)
unfolding guarded Permission.require_permission
nav_shows_refused f g c r e u passes found free may_read may_not = (
  (visible_iff r iot_item (codes "iot") (codes "read") (inr (inr (inr (inr (inl refl))))) refl
        free).1
      may_read,
  call_is_served f g c iot_devices e u passes tt ∙ ground arith,
  call_is_served f g c (iot_events []) e u passes tt ∙ ground arith,
)
