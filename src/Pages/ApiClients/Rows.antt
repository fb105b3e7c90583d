-- ===== src/Pages/ApiClients/Rows.antt =====
-- api-clients/page.tsx: what the page shows.
use idpforge.Base.{not, List, [], ◌∷◌, ◌++◌, Str, codes, is_empty, member, length}
use idpforge.Clients.{decimal}
use idpforge.Pages.Data.{ApiClient}
use idpforge.Pages.Folders.{group_rows}
use idpforge.Pages.View.{
  Shown, title, text, number, input, checkbox, button, ask, when, each, sections,
}
use idpforge.Pages.Report.{show_flash}
use idpforge.Pages.ApiClients.{
  ApiClients, Event, scope_options, field_options, sets_name, sets_folder, sets_ips, sets_max,
  sets_window, toggles_scope, toggles_field, submits, revokes,
}

abbrev pub spaced : List Str → Str
spaced [] = []
spaced (x ∷ []) = x
spaced (x ∷ y ∷ xs) = x ++ codes " " ++ spaced (y ∷ xs)

abbrev pub scope_box : ApiClients → Str → List (Shown Event)
scope_box s scope = checkbox scope (member scope s.scopes) (toggles_scope scope) ∷ []

abbrev pub field_box : ApiClients → Str → List (Shown Event)
field_box s field = checkbox field (member field s.allowed_fields) (toggles_field field) ∷ []

abbrev pub client_row : ApiClient → List (Shown Event)
client_row c =
    Shown.value c.name
    ∷ Shown.value (spaced c.scopes)
    ∷ Shown.value (spaced c.allowed_fields)
    ∷ number c.rate_limit_max
    ∷ text "/"
    ∷ number c.rate_limit_window_seconds
    ∷ text "s"
    ∷ ask "Revoke" "Revoke this API client?" (revokes c.id)
    ∷ []

abbrev pub folder_rows : Str × List ApiClient → List (Shown Event)
folder_rows g = Shown.value g.0 ∷ number (length g.1) ∷ each client_row g.1

abbrev pub folder_of : ApiClient → Str
folder_of c = c.folder

-- `origin` is the page's own, and `by_name` sorts by `localeCompare`.
module _ (origin : Str) (by_name : List (Str × List ApiClient) → List (Str × List ApiClient)) where
  -- The panel of a new key.
  abbrev pub key_panel : Str → List (Shown Event)
  key_panel key =
      text "New API key created. Copy it now, it cannot be shown again:"
      ∷ Shown.value key
      ∷ title "How to use it"
      ∷ text
          "Send it as the X-API-Key header. Which base path to call depends on what you granted above: scopes work against the full admin API, allowed fields against the simple read-only path."
      ∷ Shown.value (
          codes "curl -H \"X-API-Key: "
          ++ (key ++ (codes "\" \\\n  " ++ (origin ++ codes "/api/v1/users"))))
      ∷ Shown.value (
          codes "curl -H \"X-API-Key: "
          ++ (key ++ (codes "\" \\\n  " ++ (origin ++ codes "/external/v1/users/<user-id>"))))
      ∷ []

  abbrev pub parts : ApiClients → List (List (Shown Event))
  parts s =
      (title "API clients" ∷ [])
      ∷ show_flash s.flash
      ∷ when (not (is_empty s.new_key)) (key_panel s.new_key)
      ∷ (title "New API client"
          ∷ text "Name"
          ∷ input s.name sets_name
          ∷ text "Folder (optional, for organizing the list below)"
          ∷ input s.folder sets_folder
          ∷ text
              "Purely organizational -- it groups related clients in the list, it doesn't grant anything by itself. If several people/services genuinely need the exact same access, it's fine to hand out this one client's key to all of them; if you want each caller individually revocable and traceable in the audit log, create one client per caller and give them the same folder name."
          ∷ text "Scopes (full admin API access, /api/v1)"
          ∷ [])
      ∷ each (scope_box s) scope_options
      ∷ (text "Allowed fields (simple read-only path, /external/v1)" ∷ [])
      ∷ each (field_box s) field_options
      ∷ (text "Allowed IPs / CIDRs (comma-separated, blank = unrestricted)"
          ∷ input s.allowed_ips sets_ips
          ∷ text "Rate limit (requests per window)"
          ∷ input (decimal s.rate_limit_max) sets_max
          ∷ text "Rate limit window (seconds)"
          ∷ input (decimal s.rate_limit_window) sets_window
          ∷ button (not (is_empty s.name)) "Create" submits
          ∷ [])
      ∷ (text "Name"
          ∷ text "Scopes"
          ∷ text "Allowed fields"
          ∷ text "Rate limit"
          ∷ each folder_rows (by_name (group_rows folder_of s.clients [])))
      ∷ []

  unfoldable pub view : ApiClients → List (Shown Event)
  view s = sections (parts s)
