-- ===== src/Pages/Devices.antt =====
-- web/app/(app)/iot/page.tsx: the devices by folder, the form that registers one, and their events.
pub mod Rows
pub mod Served
use idpforge.Base.{
  ℕ, Bool, true, false, Option, none, some, List, [], ◌∷◌, ◌++◌, map, Str, codes, if◌then◌else◌,
  ◌==◌,
}
use idpforge.Clients.{decimal}
use idpforge.Console.{Call, iot_devices, iot_events, iot_create_device}
use idpforge.Console.Response.{Reply, value, undefined, api_error, broken}
use idpforge.Pages.{page_size, on_prev, on_next, Choice, choose, type_in, open_choice}
use idpforge.Pages.Csv.{trim, split_csv}
use idpforge.Pages.Data.{Device, DeviceEvent}
use idpforge.Pages.Report.{Flash, Task, load, send}
use idpforge.Pages.UserList.{or_none}

-- `DEVICE_TYPES`
abbrev pub device_types : List Str
device_types =
    codes "card_reader"
    ∷ codes "face_2d"
    ∷ codes "face_3d"
    ∷ codes "fingerprint"
    ∷ codes "door_controller"
    ∷ codes "kiosk"
    ∷ []

pub record Devices : Type 0 where
  pub devices : List Device
  pub events : List DeviceEvent
  pub events_offset : ℕ
  pub name : Str
  pub device_type : Choice
  pub location : Str
  pub folder : Str
  pub allowed_ips : Str
  pub new_key : Str
  pub flash : Option Flash

-- `refresh`; `EVENTS_PAGE_SIZE` is that of the other pages.
abbrev pub refresh : ℕ → List Task
refresh offset =
    load iot_devices
    ∷ load (
        iot_events (codes "?limit=" ++ (decimal page_size ++ (codes "&offset=" ++ decimal offset))))
    ∷ []

abbrev pub opened : Devices × List Task
opened = (
  record {
    devices = [];
    events = [];
    events_offset = 0;
    name = [];
    device_type = open_choice device_types [];
    location = [];
    folder = [];
    allowed_ips = [];
    new_key = [];
    flash = none;
  },
  refresh 0,
)

pub data Event : Type 0 where
  got_devices : List Device → Event
  got_events : List DeviceEvent → Event
  sets_name picks_type types_type sets_location sets_folder sets_ips : Str → Event
  submits previous next : Event
  -- The answer of `createDevice`, with the new key.
  created : Reply Str → Event

-- `setEventsOffset`, with the effect that loads again where the offset has changed.
unfoldable pub move_to : ℕ → Devices → Devices × List Task
move_to o s = (record s { events_offset = o }, if o == s.events_offset then [] else refresh o)

abbrev pub create_failed : Flash
create_failed = record { msg = codes "Could not register device"; is_ok = false }

-- `handleCreate` from its answer on; the list of the types stays in its own mode.
unfoldable pub finish_create : Reply Str → Devices → Devices × List Task
finish_create (value key) s = (
  record s {
    new_key = key;
    flash = some (record { msg = codes "Device registered"; is_ok = true });
    name = [];
    device_type = type_in [] s.device_type;
    location = [];
    folder = [];
    allowed_ips = [];
  },
  refresh s.events_offset,
)
finish_create (api_error status message) s =
    (record s { flash = some (record { msg = message; is_ok = false }) }, [])
finish_create undefined s = (record s { flash = some create_failed }, [])
finish_create broken s = (record s { flash = some create_failed }, [])

unfoldable pub update : Event → Devices → Devices × List Task
update (got_devices ds) s = (record s { devices = ds }, [])
update (got_events es) s = (record s { events = es }, [])
update (sets_name t) s = (record s { name = t }, [])
update (picks_type t) s = (record s { device_type = choose t s.device_type }, [])
update (types_type t) s = (record s { device_type = type_in t s.device_type }, [])
update (sets_location t) s = (record s { location = t }, [])
update (sets_folder t) s = (record s { folder = t }, [])
update (sets_ips t) s = (record s { allowed_ips = t }, [])
update submits s = (
  s,
  send
        (iot_create_device s.name s.device_type.value s.location (or_none (trim s.folder))
          (split_csv s.allowed_ips))
        (codes "Device registered") (codes "Could not register device")
      ∷ [],
)
update previous s = move_to (on_prev s.events_offset) s
update next s = move_to (on_next s.events_offset) s
update (created r) s = finish_create r s
