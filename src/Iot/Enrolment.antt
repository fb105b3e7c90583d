-- ===== src/Iot/Enrolment.antt =====
-- internal/iot/repository.go: the credentials stay proofs of one user each, and the key that a new
-- device is given is its own.
use idpforge.Base.{
  ◌≡◌, refl, sym, ap₂, ◌∙◌, inl, inr, Bool, true, false, not, ◌&&◌, ◌||◌, Option, none, some, List,
  [], ◌∷◌, ◌++◌, In, Str, str_eq, str_eq-swap, Apart, keep-Apart, append-Apart, str_eq_refl,
  is_empty, any, any_iff, if◌then◌else◌, if_cases, member, arith, Bool-cases,
}
use idpforge.Clients.{Library, ip_allowed}
use idpforge.Iot.{
  Device, DeviceRow, Credential, Tables, proves, resolve_credential, add_credential,
  delete_credential, authenticate_device, create_device,
}
use idpforge.Iot.Handlers.{
  Site, Reply, device_created, added, failed, from_device, rejected, handle_create_device,
  handle_add_device_credential, handle_delete_device_credential, require_device_key,
}

abbrev same_proof : Credential → Credential → Bool
same_proof c = proves c.credential_type c.credential_ref

-- No two credentials have the same type and reference.
abbrev pub OneEach : List Credential → Type 0
OneEach = Apart same_proof

same_proof-swap : (c d : Credential) → same_proof c d ≡ same_proof d c
same_proof-swap c d =
    ap₂ (λ a b. a && b) (str_eq-swap d.credential_type c.credential_type)
      (str_eq-swap d.credential_ref c.credential_ref)

-- The credentials are stored as proofs of their users.
resolve_credential-In :
    (cs : List Credential) (c : Credential)
    → OneEach cs
    → In c cs
    → resolve_credential c.credential_type c.credential_ref cs ≡ some c.user_id
unfolding resolve_credential
resolve_credential-In [] c h m = elim m [ ]
resolve_credential-In (d ∷ cs) c h (inl e) =
    rw (sym e, str_eq_refl c.credential_type, str_eq_refl c.credential_ref) refl
resolve_credential-In (d ∷ cs) c (h, hs) (inr m) =
    let later = resolve_credential-In cs c hs m in
    elim (Bool-cases (proves c.credential_type c.credential_ref d)) [
      | inl e ↦
          let twice =
            (any_iff (proves d.credential_type d.credential_ref) cs).1
              (c, m, same_proof-swap d c ∙ e) in
          let clash : true ≡ false = sym twice ∙ h in cc
      | inr e ↦ rw e later
    ]

-- What the two handlers of the credentials do, as steps.
pub data Op : Type 0 where
  adds : (actor id user_id credential_type credential_ref label : Str) → Op
  deletes : Str → Op

unfoldable pub step : Op → Site → Site
step (adds actor id user_id credential_type credential_ref label) w =
    (handle_add_device_credential actor id user_id credential_type credential_ref label w).0
step (deletes id) w = (handle_delete_device_credential id w).0

abbrev pub run : List Op → Site → Site
run [] w = w
run (op ∷ ops) w = run ops (step op w)

any_weaken :
    (p q : Credential → Bool) (cs : List Credential)
    → any (λ c. p c || q c) cs ≡ false
    → any q cs ≡ false
any_weaken p q [] h = refl
any_weaken p q (c ∷ cs) h = ground (arith, any_weaken p q cs)

-- What holds of the tables behind a write that may be refused.
abbrev Kept : Option (Tables × Credential) → Type 0
Kept none = Unit
Kept (some r) = OneEach r.0.credentials

add_credential-Kept :
    (id user_id credential_type credential_ref label : Str) (t : Tables)
    → OneEach t.credentials
    → Kept (add_credential id user_id credential_type credential_ref label t)
unfolding add_credential
add_credential-Kept id user_id credential_type credential_ref label t h =
    elim (Bool-cases
      (any (λ c. str_eq c.id id || proves credential_type credential_ref c) t.credentials)) [
        | inl e ↦ rw e tt
        | inr e ↦ rw e (
            if_cases Kept (t.enforced && not (member user_id t.users)) _ _ tt (
              append-Apart same_proof t.credentials _ same_proof-swap h (
                any_weaken (λ c. str_eq c.id id) (proves credential_type credential_ref)
                  t.credentials e)))
      ]

added-Kept :
    (actor user_id : Str) (w : Site) (o : Option (Tables × Credential))
    → OneEach w.tables.credentials
    → Kept o
    → OneEach (added actor user_id w o).0.tables.credentials
added-Kept actor user_id w none h k = h
added-Kept actor user_id w (some r) h k = k

step-OneEach :
    (op : Op) (w : Site) → OneEach w.tables.credentials → OneEach (step op w).tables.credentials
unfolding step handle_add_device_credential handle_delete_device_credential delete_credential
step-OneEach (adds actor id user_id credential_type credential_ref label) w h =
    if_cases (λ (x : Site × Reply). OneEach x.0.tables.credentials)
      (is_empty credential_type || is_empty credential_ref) (w, failed 400)
      (added actor user_id w
        (add_credential id user_id credential_type credential_ref label w.tables))
      h
      (added-Kept actor user_id w
        (add_credential id user_id credential_type credential_ref label w.tables) h
        (add_credential-Kept id user_id credential_type credential_ref label w.tables h))
step-OneEach (deletes id) w h = keep-Apart same_proof _ w.tables.credentials h

run-OneEach :
    (ops : List Op) (w : Site)
    → OneEach w.tables.credentials
    → OneEach (run ops w).tables.credentials
run-OneEach [] w h = h
run-OneEach (op ∷ ops) w h = run-OneEach ops (step op w) (step-OneEach op w h)

-- After any history of enrolments and deletions, on tables where no two credentials have the same
-- type and reference, every credential that is enrolled proves the user whom it is enrolled for,
-- and nobody else.
pub enrolled_resolves :
    (ops : List Op) (w : Site) (c : Credential)
    → OneEach w.tables.credentials
    → In c (run ops w).tables.credentials
    → resolve_credential c.credential_type c.credential_ref (run ops w).tables.credentials
      ≡ some c.user_id
enrolled_resolves ops w c h m =
    resolve_credential-In (run ops w).tables.credentials c (run-OneEach ops w h) m

-- The row that is first to match is the last one, where no other has the hash of the key.
authenticate_last :
    (l : Library) (key : Str) (rows : List DeviceRow) (d : Device)
    → any (λ (r : DeviceRow). str_eq r.api_key_hash (l.hash_key key)) rows ≡ false
    → d.enabled ≡ true
    → authenticate_device l.hash_key key
        (rows ++ record { device = d; api_key_hash = l.hash_key key } ∷ [])
      ≡ some d
unfolding authenticate_device
authenticate_last l key [] d h on = ground (arith, str_eq_refl (l.hash_key key))
authenticate_last l key (r ∷ rows) d h on = ground (arith, authenticate_last l key rows d)

-- The key that a new device is given identifies this device, and from its allowed addresses alone,
-- where no other device has a key with the same hash.
pub new_key_identifies :
    (l : Library) (actor id key name device_type location folder ip : Str) (allowed_ips : List Str)
    (w : Site)
    → is_empty key ≡ false
    → is_empty name ≡ false
    → is_empty device_type ≡ false
    → any (λ (r : DeviceRow). str_eq r.device.id id || str_eq r.device.name name) w.tables.devices
      ≡ false
    → any (λ (r : DeviceRow). str_eq r.api_key_hash (l.hash_key key)) w.tables.devices ≡ false
    → let made =
        handle_create_device l.hash_key actor id key name device_type location folder allowed_ips
          w in
      (d : Device) × (made.1 ≡ device_created d key)
      × (require_device_key l key ip made.0.tables
          ≡ (if ip_allowed l ip allowed_ips then from_device id else rejected 403))
unfolding handle_create_device require_device_key create_device
new_key_identifies l actor id key name device_type location folder ip allowed_ips w some_key named
      typed new apart =
    let d : Device = record {
      id = id;
      name = name;
      device_type = device_type;
      location = location;
      folder = folder;
      allowed_ips = allowed_ips;
      enabled = true;
    } in
    let last = authenticate_last l key w.tables.devices d apart refl in
    rw (named, typed, new, some_key, last) (d, refl, refl)
