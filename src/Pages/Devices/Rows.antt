-- ===== src/Pages/Devices/Rows.antt =====
-- iot/page.tsx: what the page shows.
use idpforge.Base.{not, List, [], ◌∷◌, Str, codes, is_empty, length, if◌then◌else◌, str_eq}
use idpforge.Permission.{has_permission_ui}
use idpforge.Pages.{page_size, pagination}
use idpforge.Pages.Data.{Device, DeviceEvent}
use idpforge.Pages.Folders.{group_rows}
use idpforge.Pages.View.{
  Shown, good, danger, title, text, number, badge, input, button, when, each, sections, page_footer,
  select_or_custom,
}
use idpforge.Pages.Report.{show_flash}
use idpforge.Pages.Devices.{
  Devices, Event, device_types, sets_name, picks_type, types_type, sets_location, sets_folder,
  sets_ips, submits, previous, next,
}

abbrev pub key_panel : Str → List (Shown Event)
key_panel key =
    text "New device key created. Copy it now, it cannot be shown again:"
    ∷ Shown.value key
    ∷ text "The reader sends this as the X-Device-Key header when it calls POST /device/v1/checkin."
    ∷ []

-- "How a reader connects"
abbrev pub instructions : List (Shown Event)
instructions =
    title "How a reader connects"
    ∷ text "Register the device below to get its key (shown once, like an API client's)."
    ∷ text
        "Matching happens on the device itself (face/fingerprint/card), same as WebAuthn -- this server never receives or stores a raw scan or image. The device only sends the reference it already resolved locally (a card number, or its own template ID for that face/fingerprint)."
    ∷ text
        "To check someone in, the device calls POST /device/v1/checkin with its key as X-Device-Key:"
    ∷ text
        "{\n  \"credentials\": [{ \"credential_type\": \"face_2d\", \"credential_ref\": \"TEMPLATE-1234\" }],\n  \"event_type\": \"door_access\",\n  \"resource\": \"front-door\"\n}"
    ∷ text
        "The response tells the device whether it's allowed and whether this already happened today, so the device (or a door controller/kiosk behind it) applies its own policy -- unlock the door, dispense a discount, log the entry, whatever it's for."
    ∷ text
        "To enroll a new reference for someone (e.g. after the device confirms a high-confidence match during an enrollment flow), an admin adds it on that user's detail page, or a scoped API client with users:manage calls POST /api/v1/users/:id/device-credentials. There's no self-enrollment path for a device to write its own credential yet -- ask if you need one; it's a design question worth deciding deliberately (should hardware be trusted to enroll without a human approving it?)."
    ∷ []

abbrev pub form : Devices → List (List (Shown Event))
form s =
    (title "Register device" ∷ text "Name" ∷ input s.name sets_name ∷ text "Type" ∷ [])
    ∷ select_or_custom device_types s.device_type picks_type types_type
    ∷ (text "Location"
        ∷ input s.location sets_location
        ∷ text "Folder (optional, for organizing the list below)"
        ∷ input s.folder sets_folder
        ∷ text
            "Organizational only. Each device still gets its own key regardless of folder -- compromising one reader shouldn't compromise every door."
        ∷ text "Allowed IPs / CIDRs (comma-separated, blank = unrestricted)"
        ∷ input s.allowed_ips sets_ips
        ∷ button (not (is_empty s.name)) "Register" submits
        ∷ [])
    ∷ []

abbrev pub folder_of : Device → Str
folder_of d = d.folder

-- The two formats are those of time.ts, and `by_name` sorts by `localeCompare`.
module _ (format_date format_date_time : Str → Str)
    (by_name : List (Str × List Device) → List (Str × List Device)) where
  abbrev pub device_row : Device → List (Shown Event)
  device_row d =
      Shown.value d.name
      ∷ Shown.value d.device_type
      ∷ Shown.value d.location
      ∷ text (if d.enabled then "yes" else "no")
      ∷ Shown.value (format_date d.created_at)
      ∷ []

  abbrev pub folder_rows : Str × List Device → List (Shown Event)
  folder_rows g = Shown.value g.0 ∷ number (length g.1) ∷ each device_row g.1

  abbrev pub event_row : DeviceEvent → List (Shown Event)
  event_row e =
      Shown.value (format_date_time e.timestamp)
      ∷ Shown.value e.event_type
      ∷ Shown.value e.resource
      ∷ Shown.value e.user_id
      ∷ badge (if str_eq e.status (codes "matched") then good else danger) e.status
      ∷ []

  abbrev pub parts : List Str → Devices → List (List (Shown Event))
  parts permissions s =
      (title "IoT devices" ∷ [])
      ∷ show_flash s.flash
      ∷ when (not (is_empty s.new_key)) (key_panel s.new_key)
      ∷ instructions
      ∷ when (has_permission_ui permissions (codes "iot") (codes "manage")) (sections (form s))
      ∷ (text "Name"
          ∷ text "Type"
          ∷ text "Location"
          ∷ text "Enabled"
          ∷ text "Registered"
          ∷ each folder_rows (by_name (group_rows folder_of s.devices [])))
      ∷ (title "Recent check-in events"
          ∷ text "Time"
          ∷ text "Event"
          ∷ text "Resource"
          ∷ text "User"
          ∷ text "Status"
          ∷ each event_row s.events)
      ∷ page_footer (pagination s.events_offset page_size (length s.events)) previous next
      ∷ []

  unfoldable pub view : List Str → Devices → List (Shown Event)
  view permissions s = sections (parts permissions s)
