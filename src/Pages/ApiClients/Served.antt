-- ===== src/Pages/ApiClients/Served.antt =====
-- api-clients/page.tsx: the calls behind its buttons, against the server.
use idpforge.Base.{
  ℕ, ◌≡◌, true, false, not, some, List, [], All, All-of, All-map_of, Str, codes, is_empty,
}
use idpforge.Permission.{Locals, Resolved, has_permission_ui}
use idpforge.Router.Fiber.{Fiber}
use idpforge.Router.Serve.{Gate}
use idpforge.Console.Nav.{me_permissions}
use idpforge.Pages.Data.{ApiClient}
use idpforge.Pages.Folders.{group_rows, group_rows-All}
use idpforge.Pages.View.{
  ◌&◌, AllOffered, AllOffered-sections, AllOffered-each, AllOffered-when, AllOffered-map,
}
use idpforge.Pages.Report.{
  AllPermitted, AllServed, AllPermitted-AllServed, SignedIn, AllOffered-show_flash,
}
use idpforge.Pages.ApiClients.{ApiClients, Event, update, scope_options, field_options}
use idpforge.Pages.ApiClients.Rows.{
  view, parts, key_panel, scope_box, field_box, client_row, folder_rows, folder_of,
}

abbrev pub Named : ApiClient → Type 0
Named c = is_empty c.id ≡ false

abbrev pub AllNamed : Str × List ApiClient → Type 0
AllNamed g = All Named g.1

module _ (to_number : Str → ℕ) (origin : Str)
    (by_name : List (Str × List ApiClient) → List (Str × List ApiClient))
    (sorts : (gs : List (Str × List ApiClient)) → All AllNamed gs → All AllNamed (by_name gs)) where
  offers_permitted :
      (perms : List Str) (s : ApiClients)
      → has_permission_ui perms (codes "api_clients") (codes "manage") ≡ true
      → All Named s.clients
      → AllOffered (λ e. AllPermitted perms (update to_number e s).1) (view origin by_name s)
  unfolding view update
  offers_permitted perms s may named =
      let P = λ (e : Event). AllPermitted perms (update to_number e s).1 in
      AllOffered-sections P (parts origin by_name s) (
        tt
        & AllOffered-show_flash P s.flash
        & AllOffered-when P (not (is_empty s.new_key)) (key_panel origin by_name s.new_key)
            (λ on. tt)
        & ((λ t. tt) & (λ t. tt) & tt)
        & AllOffered-each P (scope_box s) scope_options (All-of (λ o. tt & tt) scope_options)
        & tt
        & AllOffered-each P (field_box s) field_options (All-of (λ o. tt & tt) field_options)
        & ((λ t. tt) & (λ t. tt) & (λ t. tt) & (λ on. ((may & tt) & tt) & tt) & tt)
        & AllOffered-each P folder_rows (by_name (group_rows folder_of s.clients [])) (
            All-map_of
              (λ g h.
                AllOffered-each P client_row g.1
                  (All-map_of (λ c k. (((may & tt) & k) & tt) & tt) g.1 h))
              (by_name (group_rows folder_of s.clients []))
              (sorts _ (group_rows-All folder_of Named s.clients [] named tt)))
        & tt)

  -- Every call that the page of the API clients offers to a user who is shown it is served; the
  -- sorting of the folders by name loses no row and makes none up.
  pub api_clients_served :
      (f : Fiber) (g : Gate) (c : Locals) (r : Resolved) (s : ApiClients)
      → SignedIn g c r
      → has_permission_ui (me_permissions (some r)) (codes "api_clients") (codes "manage") ≡ true
      → All Named s.clients
      → AllOffered (λ e. AllServed f g (update to_number e s).1) (view origin by_name s)
  api_clients_served f g c r s signed may named =
      AllOffered-map _ _ (view origin by_name s)
        (λ e h. AllPermitted-AllServed f g c r (update to_number e s).1 signed h)
        (offers_permitted (me_permissions (some r)) s may named)
