-- ===== src/Iot.antt =====
-- internal/iot/repository.go: the devices, the credentials that are enrolled for them, and their
-- events, as the rows of the three tables of internal/db/migrations. A write that a constraint
-- refuses returns `none`. Times are nanoseconds; IDs and keys that are made at random are arguments.
pub mod Handlers
pub mod Checkin
pub mod Enrolment
pub mod Tests
use idpforge.Base.{
  ℕ, ◌+◌, ◌-◌, ◌*◌, ◌%◌, Bool, true, false, not, ◌&&◌, ◌||◌, Option, none, some, List, [], ◌∷◌,
  ◌++◌, any, keep, length, if◌then◌else◌, leb, ltb, Str, str_eq, is_empty, member, codes,
}

pub record Device : Type 0 where
  pub id : Str
  pub name : Str
  pub device_type : Str
  pub location : Str
  pub folder : Str
  pub allowed_ips : List Str
  pub enabled : Bool

-- A row of iot_devices.
pub record DeviceRow : Type 0 where
  pub device : Device
  pub api_key_hash : Str

pub record Credential : Type 0 where
  pub id : Str
  pub user_id : Str
  pub credential_type : Str
  pub credential_ref : Str
  pub label : Str

-- "" stands for NULL in `user_id`, `credential_type`, `credential_ref` and `resource`.
pub record Event : Type 0 where
  pub id : ℕ
  pub device_id : Str
  pub user_id : Str
  pub credential_type : Str
  pub credential_ref : Str
  pub event_type : Str
  pub resource : Str
  pub metadata : Str
  pub status : Str
  pub timestamp : ℕ

-- `users` are the IDs of the accounts, which rows refer to where foreign keys are enforced.
pub record Tables : Type 0 where
  pub enforced : Bool
  pub users : List Str
  pub devices : List DeviceRow
  pub credentials : List Credential
  pub events : List Event

abbrev pub is_device : Str → DeviceRow → Bool
is_device id r = str_eq r.device.id id

-- `Repository.CreateDevice`
unfoldable pub create_device :
    (Str → Str) → Str → Str → Str → Str → Str → Str → List Str → Tables → Option (Tables × Device)
create_device hash_key id api_key name device_type location folder allowed_ips t =
    if any (λ (r : DeviceRow). str_eq r.device.id id || str_eq r.device.name name) t.devices
    then none
    else (let d : Device = record {
      id = id;
      name = name;
      device_type = device_type;
      location = location;
      folder = folder;
      allowed_ips = allowed_ips;
      enabled = true;
    } in
        some (
          record t {
            devices = t.devices ++ record { device = d; api_key_hash = hash_key api_key } ∷ [];
          },
          d,
        ))

-- `Repository.AuthenticateDevice`: the first enabled device with the hash of the key.
unfoldable pub authenticate_device : (Str → Str) → Str → List DeviceRow → Option Device
authenticate_device hash_key key [] = none
authenticate_device hash_key key (r ∷ rows) =
    if str_eq r.api_key_hash (hash_key key) && r.device.enabled
    then some r.device
    else authenticate_device hash_key key rows

abbrev pub proves : Str → Str → Credential → Bool
proves credential_type credential_ref c =
    str_eq c.credential_type credential_type && str_eq c.credential_ref credential_ref

-- `Repository.AddCredential`, with the constraints of the table: the ID, the pair of type and
-- reference, and the user that it refers to.
unfoldable pub add_credential : Str → Str → Str → Str → Str → Tables → Option (Tables × Credential)
add_credential id user_id credential_type credential_ref label t =
    if any (λ (c : Credential). str_eq c.id id || proves credential_type credential_ref c)
      t.credentials
    then none
    else if t.enforced && not (member user_id t.users)
    then none
    else (let c : Credential = record {
      id = id;
      user_id = user_id;
      credential_type = credential_type;
      credential_ref = credential_ref;
      label = label;
    } in
        some (record t { credentials = t.credentials ++ c ∷ [] }, c))

-- `Repository.ListCredentials`, in the order in which they were added.
unfoldable pub list_credentials : Str → Tables → List Credential
list_credentials user_id t = keep (λ (c : Credential). str_eq c.user_id user_id) t.credentials

-- `Repository.DeleteCredential`
unfoldable pub delete_credential : Str → Tables → Tables
delete_credential id t = record t {
  credentials = keep (λ (c : Credential). not (str_eq c.id id)) t.credentials;
}

-- `Repository.resolveCredential`; `none` is ErrNotFound.
unfoldable pub resolve_credential : Str → Str → List Credential → Option Str
resolve_credential credential_type credential_ref [] = none
resolve_credential credential_type credential_ref (c ∷ cs) =
    if proves credential_type credential_ref c
    then some c.user_id
    else resolve_credential credential_type credential_ref cs

-- `CredentialProof`; its confidence is never read.
pub record CredentialProof : Type 0 where
  pub credential_type : Str
  pub credential_ref : Str

pub data Resolution : Type 0 where
  matched : Str → Resolution
  no_credentials not_found mismatch : Resolution

-- One round of the loop of `ResolveUser`, over what the later rounds give.
abbrev pub after_proof : Option Str → Str → Resolution → Resolution
after_proof none user_id rest = not_found
after_proof (some resolved) user_id rest = if str_eq resolved user_id then rest else mismatch

-- The rounds of the loop of `ResolveUser` behind the first, which has found `user_id`.
unfoldable pub agree : List Credential → Str → List CredentialProof → Resolution
agree cs user_id [] = matched user_id
agree cs user_id (p ∷ proofs) =
    let rest = agree cs user_id proofs in
    after_proof (resolve_credential p.credential_type p.credential_ref cs) user_id rest

-- The first round, and those behind it.
abbrev pub after_first : List Credential → List CredentialProof → Option Str → Resolution
after_first cs proofs none = not_found
after_first cs proofs (some user_id) = agree cs user_id proofs

-- `Repository.ResolveUser`
unfoldable pub resolve_user : List CredentialProof → List Credential → Resolution
resolve_user [] cs = no_credentials
resolve_user (p ∷ proofs) cs =
    after_first cs proofs (resolve_credential p.credential_type p.credential_ref cs)

-- The row of an event; the ID counts the events, of which none is ever deleted.
abbrev pub with_event : Event → Tables → Tables
with_event e t = record t {
  events =
      t.events
      ++ record e {
        id = length t.events + 1;
        metadata = if is_empty e.metadata then codes "{}" else e.metadata;
      }
        ∷ [];
}

-- Whether the event refers to rows that are there.
abbrev pub refers : Event → Tables → Bool
refers e t =
    any (is_device e.device_id) t.devices && (is_empty e.user_id || member e.user_id t.users)

-- `Repository.RecordEvent`
unfoldable pub record_event : Event → Tables → Option (Tables × ℕ)
record_event e t =
    if t.enforced && not (refers e t) then none else some (with_event e t, length t.events + 1)

-- A test `column = value` on a column that may be NULL, which equals nothing.
abbrev pub equals : Str → Str → Bool
equals column value = not (is_empty column) && str_eq column value

abbrev pub day : ℕ
day = 24 * 3_600 * 1_000_000_000

-- `Truncate(24 * time.Hour)`
abbrev pub start_of_day : ℕ → ℕ
start_of_day now = now - now % day

abbrev pub is_repeat : ℕ → Str → Str → Str → Event → Bool
is_repeat since user_id event_type resource e =
    equals e.user_id user_id
    && str_eq e.event_type event_type
    && equals e.resource resource
    && leb since e.timestamp

-- `Repository.HasEventToday`
unfoldable pub has_event_today : ℕ → Str → Str → Str → List Event → Bool
has_event_today now user_id event_type resource =
    any (is_repeat (start_of_day now) user_id event_type resource)
