-- ===== src/Pages/Devices/Served.antt =====
-- iot/page.tsx: the calls behind its buttons, against the server.
use idpforge.Base.{
  ℕ, ◌≡◌, Bool, true, false, not, some, List, [], All-of, Str, codes, is_empty, ◌==◌, length,
  if◌then◌else◌,
}
use idpforge.Permission.{Locals, Resolved, has_permission_ui}
use idpforge.Router.Fiber.{Fiber}
use idpforge.Router.Serve.{Gate}
use idpforge.Console.Nav.{me_permissions}
use idpforge.Pages.{page_size, pagination, on_prev, on_next}
use idpforge.Pages.Data.{Device}
use idpforge.Pages.Folders.{group_rows}
use idpforge.Pages.View.{
  sections, ◌&◌, AllOffered, AllOffered-sections, AllOffered-each, AllOffered-when, AllOffered-map,
  AllOffered-page_footer, AllOffered-select_or_custom,
}
use idpforge.Pages.Report.{
  AllPermitted, AllServed, AllPermitted-AllServed, SignedIn, AllOffered-show_flash,
}
use idpforge.Pages.Devices.{
  Devices, Event, update, refresh, move_to, device_types, picks_type, types_type, previous, next,
}
use idpforge.Pages.Devices.Rows.{
  view, parts, form, key_panel, folder_rows, event_row, device_row, folder_of,
}

module _ (perms : List Str)
    (may_manage : has_permission_ui perms (codes "iot") (codes "manage") ≡ true)
    (may_read : has_permission_ui perms (codes "iot") (codes "read") ≡ true) where
  move_to-permitted : (o : ℕ) (s : Devices) → AllPermitted perms (move_to o s).1
  unfolding move_to
  move_to-permitted o s = same (o == s.events_offset)
    where
      same : (b : Bool) → AllPermitted perms (if b then [] else refresh o)
      same true = tt
      same false = ((may_manage & tt) & tt) & ((may_manage & may_read & tt) & tt) & tt

  offers_permitted :
      (format_date format_date_time : Str → Str)
      (by_name : List (Str × List Device) → List (Str × List Device)) (s : Devices)
      → AllOffered
          (λ e. AllPermitted perms (update e s).1)
          (view format_date format_date_time by_name perms s)
  unfolding view update
  offers_permitted format_date format_date_time by_name s =
      let P = λ (e : Event). AllPermitted perms (update e s).1 in
      AllOffered-sections P (parts format_date format_date_time by_name perms s) (
        tt
        & AllOffered-show_flash P s.flash
        & AllOffered-when P (not (is_empty s.new_key)) (key_panel s.new_key) (λ on. tt)
        & tt
        & AllOffered-when P (has_permission_ui perms (codes "iot") (codes "manage"))
            (sections (form s))
            (λ may. AllOffered-sections P (form s) (
              ((λ t. tt) & tt)
              & AllOffered-select_or_custom P device_types s.device_type picks_type types_type
                  (λ t. tt) (λ t. tt)
              & ((λ t. tt) & (λ t. tt) & (λ t. tt) & (λ on. ((may & tt) & tt) & tt) & tt)
              & tt))
        & AllOffered-each P (folder_rows format_date format_date_time by_name)
            (by_name (group_rows folder_of s.devices []))
            (All-of
              (λ g.
                AllOffered-each P (device_row format_date format_date_time by_name) g.1
                  (All-of (λ d. tt) g.1))
              (by_name (group_rows folder_of s.devices [])))
        & AllOffered-each P (event_row format_date format_date_time by_name) s.events
            (All-of (λ e. tt) s.events)
        & AllOffered-page_footer P (pagination s.events_offset page_size (length s.events)) previous
            next (move_to-permitted (on_prev s.events_offset) s)
            (move_to-permitted (on_next s.events_offset) s)
        & tt)

-- Every call that the page of the devices offers to a user who may read and manage them is served.
pub devices_served :
    (f : Fiber) (g : Gate) (c : Locals) (r : Resolved) (format_date format_date_time : Str → Str)
    (by_name : List (Str × List Device) → List (Str × List Device)) (s : Devices)
    → SignedIn g c r
    → has_permission_ui (me_permissions (some r)) (codes "iot") (codes "manage") ≡ true
    → has_permission_ui (me_permissions (some r)) (codes "iot") (codes "read") ≡ true
    → AllOffered
        (λ e. AllServed f g (update e s).1)
        (view format_date format_date_time by_name (me_permissions (some r)) s)
devices_served f g c r format_date format_date_time by_name s signed may_manage may_read =
    AllOffered-map _ _ (view format_date format_date_time by_name (me_permissions (some r)) s)
      (λ e h. AllPermitted-AllServed f g c r (update e s).1 signed h)
      (offers_permitted (me_permissions (some r)) may_manage may_read format_date format_date_time
        by_name s)
