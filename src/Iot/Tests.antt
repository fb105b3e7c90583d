-- ===== src/Iot/Tests.antt =====
-- A door with a reader, and a user with a card and a face.
use idpforge.Base.{
  ◌+◌, ◌≡◌, ◌↔◌, refl, inl, true, false, some, List, [], ◌∷◌, In, codes, str_eq, any, ◌||◌, member,
  arith,
}
use idpforge.Clients.Tests.{library}
use idpforge.Cache.{empty}
use idpforge.Rbac.{Db, resolve_from_db}
use idpforge.Rbac.Admin.{Store, resolve}
use idpforge.Rbac.Resolution.{Allowed}
use idpforge.Rbac.History.{resolve-run}
use idpforge.Iot.{
  Device, DeviceRow, Credential, Tables, add_credential, delete_credential, CredentialProof,
  matched, resolve_credential, resolve_user, agree, day,
}
use idpforge.Iot.Handlers.{
  Site, handle_add_device_credential, handle_delete_device_credential, CheckinRequest,
  CheckinResponse, answers, handle_device_checkin,
}
use idpforge.Iot.Checkin.{used_from_the_first, allowed_iff}
use idpforge.Iot.Enrolment.{Op, adds, deletes, step, run, OneEach, enrolled_resolves}

abbrev reader : Device
reader = record {
  id = codes "d1";
  name = codes "front door";
  device_type = codes "reader";
  location = [];
  folder = [];
  allowed_ips = [];
  enabled = true;
}

abbrev card : Credential
card = record {
  id = codes "c1";
  user_id = codes "u1";
  credential_type = codes "card";
  credential_ref = codes "4711";
  label = [];
}

abbrev face : Credential
face = record {
  id = codes "c2";
  user_id = codes "u1";
  credential_type = codes "face_2d";
  credential_ref = codes "t9";
  label = [];
}

abbrev tables : Tables
tables = record {
  enforced = true;
  users = codes "u1" ∷ [];
  devices = record { device = reader; api_key_hash = codes "k1" } ∷ [];
  credentials = card ∷ face ∷ [];
  events = [];
}

abbrev both : List CredentialProof
both =
    record { credential_type = codes "card"; credential_ref = codes "4711" }
    ∷ record { credential_type = codes "face_2d"; credential_ref = codes "t9" }
    ∷ []

abbrev request : CheckinRequest
request = record {
  credentials = both;
  event_type = codes "door_access";
  resource = codes "door";
  metadata = [];
}

both_match : resolve_user both tables.credentials ≡ matched (codes "u1")
unfolding resolve_user agree resolve_credential str_eq
both_match = refl

door_is_known : any (λ r. str_eq r.device.id (codes "d1")) tables.devices ≡ true
unfolding str_eq
door_is_known = refl

user_is_known : member (codes "u1") tables.users ≡ true
unfolding str_eq
user_is_known = refl

abbrev db : Db
db = record {
  enforced = true;
  users = codes "u1" ∷ [];
  groups = [];
  roles = record { id = codes "r1"; name = codes "staff"; description = [] } ∷ [];
  permissions = record { id = codes "p1"; resource = codes "door"; action = codes "access" } ∷ [];
  user_groups = [];
  group_roles = [];
  user_roles = (codes "u1", codes "r1") ∷ [];
  role_permissions = (codes "r1", codes "p1") ∷ [];
}

abbrev store : Store
store = record { db = db; cache = empty }

used_from_the_first_example :
    (a : CheckinResponse) × ((handle_device_checkin
        (day + 5)
        (day + 9)
        (codes "d1")
        request
        store
        tables).1
      ≡ answers a)
    × (a.user_id ≡ codes "u1")
    × (a.already_today ≡ true)
used_from_the_first_example =
    used_from_the_first (day + 5) (day + 9) (codes "d1") (codes "u1") request store tables
      both_match refl refl refl door_is_known user_is_known (omega arith)

store_is_fresh : (resolve (day + 9) (codes "u1") store).1 ≡ resolve_from_db db (codes "u1")
unfolding idpforge.Rbac.History.run
store_is_fresh = resolve-run db [] (day + 9) (codes "u1") tt

allowed_iff_example :
    (a : CheckinResponse) × ((handle_device_checkin
        (day + 5)
        (day + 9)
        (codes "d1")
        request
        store
        tables).1
      ≡ answers a)
    × ((a.allowed ≡ true) ↔ Allowed db (codes "u1") (codes "door") (codes "access"))
allowed_iff_example =
    allowed_iff (day + 5) (day + 9) (codes "d1") (codes "u1") request store tables both_match refl
      refl door_is_known user_is_known store_is_fresh tt

abbrev site : Site
site = record { tables = tables; log = [] }

abbrev badge : Op
badge = adds (codes "admin") (codes "c3") (codes "u1") (codes "card") (codes "4712") []

one_each : OneEach (card ∷ face ∷ [])
unfolding str_eq
one_each = (refl, (refl, tt))

face_is_left : In face (run (badge ∷ deletes (codes "c1") ∷ []) site).tables.credentials
unfolding step handle_add_device_credential handle_delete_device_credential add_credential
    delete_credential str_eq
face_is_left = inl refl

enrolled_resolves_example :
    resolve_credential
      (codes "face_2d")
      (codes "t9")
      (run (badge ∷ deletes (codes "c1") ∷ []) site).tables.credentials
    ≡ some (codes "u1")
enrolled_resolves_example =
    enrolled_resolves (badge ∷ deletes (codes "c1") ∷ []) site face one_each face_is_left

door_is_new :
    any
      (λ (r : DeviceRow).
        str_eq r.device.id (codes "d2") || str_eq r.device.name (codes "back door"))
      tables.devices
    ≡ false
unfolding str_eq
door_is_new = refl

key_is_new :
    any (λ (r : DeviceRow). str_eq r.api_key_hash (library.hash_key (codes "k2"))) tables.devices
    ≡ false
unfolding str_eq
key_is_new = refl
