-- ===== src/Iot/Handlers.antt =====
-- internal/httpserver/iot_handlers.go and device_auth.go: the enrolment of devices and credentials by
-- an administrator, the key of a device, and the check-in that a device reports.
use idpforge.Base.{
  ℕ, Bool, true, false, ◌||◌, Option, none, some, List, [], ◌∷◌, ◌++◌, if◌then◌else◌, Str, codes,
  is_empty,
}
use idpforge.Clients.{Library, ip_allowed}
use idpforge.Auth.{LogEntry}
use idpforge.Accounts.{entry}
use idpforge.Rbac.Admin.{Store, has_permission}
use idpforge.Iot.{
  Device, Credential, Event, Tables, CredentialProof, Resolution, matched, no_credentials,
  not_found, mismatch, create_device, authenticate_device, add_credential, delete_credential,
  resolve_user, record_event, has_event_today,
}

-- The rows, with the entries of the audit log.
pub record Site : Type 0 where
  pub tables : Tables
  pub log : List LogEntry

pub data Reply : Type 0 where
  device_created : Device → Str → Reply
  credential_added : Credential → Reply
  no_content : Reply
  failed : ℕ → Reply

-- The answer to the attempt to create a device.
abbrev pub device_made : Str → Str → Site → Option (Tables × Device) → Site × Reply
device_made actor api_key w none = (w, failed 409)
device_made actor api_key w (some (t, d)) = (
  record w { tables = t; log = w.log ++ entry actor (codes "iot_device.create") d.id ∷ [] },
  device_created d api_key,
)

-- `handleCreateDevice`, with the ID and the key that are made.
unfoldable pub handle_create_device :
    (Str → Str) → Str → Str → Str → Str → Str → Str → Str → List Str → Site → Site × Reply
handle_create_device hash_key actor id api_key name device_type location folder allowed_ips w =
    if is_empty name || is_empty device_type
    then (w, failed 400)
    else device_made actor api_key w
        (create_device hash_key id api_key name device_type location folder allowed_ips w.tables)

-- The answer to the attempt to add a credential.
abbrev pub added : Str → Str → Site → Option (Tables × Credential) → Site × Reply
added actor user_id w none = (w, failed 409)
added actor user_id w (some (t, c)) = (
  record w {
    tables = t;
    log = w.log ++ entry actor (codes "device_credential.create") user_id ∷ [];
  },
  credential_added c,
)

-- `handleAddDeviceCredential`
unfoldable pub handle_add_device_credential :
    Str → Str → Str → Str → Str → Str → Site → Site × Reply
handle_add_device_credential actor id user_id credential_type credential_ref label w =
    if is_empty credential_type || is_empty credential_ref
    then (w, failed 400)
    else added actor user_id w
        (add_credential id user_id credential_type credential_ref label w.tables)

-- `handleDeleteDeviceCredential`
unfoldable pub handle_delete_device_credential : Str → Site → Site × Reply
handle_delete_device_credential cred_id w =
    (record w { tables = delete_credential cred_id w.tables }, no_content)

pub data DeviceCaller : Type 0 where
  from_device : Str → DeviceCaller
  rejected : ℕ → DeviceCaller

-- `requireDeviceKey`; "" is a header that is not there.
unfoldable pub require_device_key : Library → Str → Str → Tables → DeviceCaller
require_device_key l key ip t =
    if is_empty key then rejected 401 else elim (authenticate_device l.hash_key key t.devices) [
      | none ↦ rejected 401
      | some device ↦
          if ip_allowed l ip device.allowed_ips then from_device device.id else rejected 403
    ]

-- `CheckinRequest`, its metadata as JSON text.
pub record CheckinRequest : Type 0 where
  pub credentials : List CredentialProof
  pub event_type : Str
  pub resource : Str
  pub metadata : Str

-- `CheckinResponse`
pub record CheckinResponse : Type 0 where
  pub allowed : Bool
  pub already_today : Bool
  pub user_id : Str
  pub event_id : ℕ
  pub reason : Str

pub data Checked : Type 0 where
  answers : CheckinResponse → Checked
  refuses : ℕ → Checked

abbrev pub found_user : Resolution → Str
found_user (matched u) = u
found_user no_credentials = []
found_user not_found = []
found_user mismatch = []

abbrev pub status_of : Resolution → Str
status_of (matched u) = codes "matched"
status_of no_credentials = codes "unmatched"
status_of not_found = codes "unmatched"
status_of mismatch = codes "mismatch"

-- `err.Error()`
abbrev pub reason_of : Resolution → Str
reason_of (matched u) = []
reason_of no_credentials = codes "no credentials supplied"
reason_of not_found = codes "not found"
reason_of mismatch = codes "credentials resolve to different users"

-- The event of a check-in; `primary` is the first of its proofs.
abbrev pub checkin_event : ℕ → Str → CheckinRequest → CredentialProof → Resolution → Event
checkin_event now device_id req primary r = record {
  id = 0;
  device_id = device_id;
  user_id = found_user r;
  credential_type = primary.credential_type;
  credential_ref = primary.credential_ref;
  event_type = req.event_type;
  resource = req.resource;
  metadata = req.metadata;
  status = status_of r;
  timestamp = now;
}

-- `allowed`: a check-in that names no resource is allowed to every user who is found.
unfoldable pub access : ℕ → Str → Str → Store → Store × Bool
access now user_id resource s =
    if is_empty resource then (s, true) else has_permission now user_id resource (codes "access") s

-- The answer of a check-in behind the recording of its event.
unfoldable pub checkin_answer :
    ℕ → CheckinRequest → Resolution → ℕ → Store → Tables → Store × CheckinResponse
unfolding access
checkin_answer later req (matched user_id) event_id s t =
    let q = access later user_id req.resource s in
    (
      q.0,
      record {
        allowed = q.1;
        already_today = has_event_today later user_id req.event_type req.resource t.events;
        user_id = user_id;
        event_id = event_id;
        reason = [];
      },
    )
checkin_answer later req r event_id s t = (
  s,
  record {
    allowed = false;
    already_today = false;
    user_id = [];
    event_id = event_id;
    reason = reason_of r;
  },
)

-- What is left of a check-in behind the attempt to record its event.
abbrev pub recorded :
    ℕ
    → CheckinRequest
    → Resolution
    → Store
    → Tables
    → Option (Tables × ℕ)
    → (Store × Tables) × Checked
recorded later req r s t none = ((s, t), refuses 500)
recorded later req r s t (some (t', event_id)) =
    let a = checkin_answer later req r event_id s t' in ((a.0, t'), answers a.1)

-- The check-in, by its proofs.
abbrev pub checkin :
    ℕ
    → ℕ
    → Str
    → CheckinRequest
    → List CredentialProof
    → Store
    → Tables
    → (Store × Tables) × Checked
checkin now later device_id req [] s t = ((s, t), refuses 400)
checkin now later device_id req (primary ∷ proofs) s t =
    if is_empty req.event_type
    then ((s, t), refuses 400)
    else (let r = resolve_user (primary ∷ proofs) t.credentials in
        recorded later req r s t (record_event (checkin_event now device_id req primary r) t))

-- `handleDeviceCheckin`: the event is recorded at `now`, and the questions behind it are asked at
-- `later`.
unfoldable pub handle_device_checkin :
    ℕ → ℕ → Str → CheckinRequest → Store → Tables → (Store × Tables) × Checked
handle_device_checkin now later device_id req s t =
    checkin now later device_id req req.credentials s t
