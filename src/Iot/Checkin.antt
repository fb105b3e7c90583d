-- ===== src/Iot/Checkin.antt =====
-- internal/httpserver/iot_handlers.go: whom the proofs of a check-in name, and what a device is told.
use idpforge.Base.{
  ℕ, ◌+◌, ◌≤◌, ◌≡◌, ◌≢◌, ◌↔◌, refl, sym, ap, ◌∙◌, subst, inl, inr, true, false, Option, none, some,
  List, [], ◌∷◌, All, Str, codes, is_empty, str_eq, str_eq_iff, str_eq_refl, member, any, any_iff,
  if◌then◌else◌, length, arith, Bool-cases, In-append_right,
}
use idpforge.Permission.{has}
use idpforge.Rbac.Admin.{Store, has_permission, resolve}
use idpforge.Rbac.{resolve_from_db}
use idpforge.Rbac.Resolution.{Allowed, WithinDepth, resolve_iff}
use idpforge.Iot.{
  Credential, Event, Tables, CredentialProof, Resolution, matched, mismatch, resolve_credential,
  after_proof, after_first, agree, resolve_user, with_event, record_event, has_event_today,
  is_repeat, is_device, start_of_day,
}
use idpforge.Iot.Handlers.{
  CheckinRequest, CheckinResponse, answers, refuses, access, checkin_answer, checkin_event, checkin,
  recorded, handle_device_checkin,
}

-- The proof is enrolled for the user.
abbrev pub Names : List Credential → Str → CredentialProof → Type 0
Names cs u p = resolve_credential p.credential_type p.credential_ref cs ≡ some u

after_proof_inv :
    (o : Option Str) (u v : Str) (rest : Resolution)
    → after_proof o u rest ≡ matched v
    → (o ≡ some u) × (rest ≡ matched v)
after_proof_inv none u v rest h = cc
after_proof_inv (some w) u v rest h = elim (Bool-cases (str_eq w u)) [
  | inl q ↦ (ap some ((str_eq_iff w u).0 q), sym (ap (λ b. if b then rest else mismatch) q) ∙ h)
  | inr q ↦ absurd (unlike (sym (ap (λ b. if b then rest else mismatch) q) ∙ h))
]
  where
    unlike : mismatch ≡ matched v → ⊥
    unlike e = cc

agree_to :
    (cs : List Credential) (u v : Str) (proofs : List CredentialProof)
    → agree cs u proofs ≡ matched v
    → (u ≡ v) × All (Names cs u) proofs
unfolding agree
agree_to cs u v [] h = (cc, tt)
agree_to cs u v (p ∷ proofs) h =
    let (e, rest) =
      after_proof_inv (resolve_credential p.credential_type p.credential_ref cs) u v
        (agree cs u proofs) h in
    let (same, all_name) = agree_to cs u v proofs rest in (same, (e, all_name))

agree_from :
    (cs : List Credential) (u : Str) (proofs : List CredentialProof)
    → All (Names cs u) proofs
    → agree cs u proofs ≡ matched u
unfolding agree
agree_from cs u [] h = refl
agree_from cs u (p ∷ proofs) (h, hs) =
    ap (λ o. after_proof o u (agree cs u proofs)) h
    ∙ ap (λ b. if b then agree cs u proofs else mismatch) (str_eq_refl u)
    ∙ agree_from cs u proofs hs

-- A check-in is matched to a user exactly where there is a proof, and all of them are enrolled for
-- that user.
pub resolve_user_iff :
    (proofs : List CredentialProof) (cs : List Credential) (u : Str)
    → (resolve_user proofs cs ≡ matched u) ↔ ((proofs ≢ []) × All (Names cs u) proofs)
unfolding resolve_user
resolve_user_iff [] cs u = (λ h. cc, λ h. absurd (h.0 refl))
resolve_user_iff (p ∷ proofs) cs u = (
  first (resolve_credential p.credential_type p.credential_ref cs),
  λ (some_proof, (h, hs)). ap (after_first cs proofs) h ∙ agree_from cs u proofs hs,
)
  where
    first :
        (o : Option Str)
        → after_first cs proofs o ≡ matched u
        → ((p ∷ proofs) ≢ []) × ((o ≡ some u) × All (Names cs u) proofs)
    first none h = cc
    first (some w) h =
        let (same, all_name) = agree_to cs w u proofs h in
        (λ e. cc, (ap some same, subst (λ x. All (Names cs x) proofs) same all_name))

-- Where the device and the user are rows, the event of a check-in is recorded.
record_event_lem :
    (e : Event) (t : Tables)
    → any (is_device e.device_id) t.devices ≡ true
    → member e.user_id t.users ≡ true
    → record_event e t ≡ some (with_event e t, length t.events + 1)
unfolding record_event
record_event_lem e t device user = ground arith

abbrev AnswersOf : ℕ → ℕ → Str → Str → CheckinRequest → Store → Tables → CredentialProof → Type 0
AnswersOf now later device_id u req s t primary =
    (handle_device_checkin now later device_id req s t).1
    ≡ answers
        (checkin_answer later req (matched u) (length t.events + 1) s
          (with_event (checkin_event now device_id req primary (matched u)) t)).1

checkin_matched :
    (now later : ℕ) (device_id u : Str) (req : CheckinRequest) (s : Store) (t : Tables)
    → resolve_user req.credentials t.credentials ≡ matched u
    → is_empty req.event_type ≡ false
    → any (is_device device_id) t.devices ≡ true
    → member u t.users ≡ true
    → (primary : CredentialProof) × AnswersOf now later device_id u req s t primary
unfolding handle_device_checkin
checkin_matched now later device_id u req s t h typed device user = by_proofs req.credentials h
  where
    by_proofs :
        (ps : List CredentialProof)
        → resolve_user ps t.credentials ≡ matched u
        → (primary : CredentialProof) × ((checkin now later device_id req ps s t).1
            ≡ answers
                (checkin_answer later req
                  (matched u)
                  (length t.events + 1)
                  s
                  (with_event (checkin_event now device_id req primary (matched u)) t)).1)
    by_proofs [] k = absurd (((resolve_user_iff [] t.credentials u).0 k).0 refl)
    by_proofs (p ∷ ps) k = (
      p,
      ap
            (λ b.
              (if b
                then ((s, t), refuses 400)
                else (let r = resolve_user (p ∷ ps) t.credentials in
                    recorded later req r s t
                      (record_event (checkin_event now device_id req p r) t))).1)
            typed
          ∙ ap
              (λ r.
                (recorded later req r s t (record_event (checkin_event now device_id req p r) t)).1)
              k
          ∙ ap (λ o. (recorded later req (matched u) s t o).1)
              (record_event_lem (checkin_event now device_id req p (matched u)) t device user),
    )

-- The event that a check-in records is a repeat of itself.
used :
    (now later : ℕ) (device_id u : Str) (req : CheckinRequest) (p : CredentialProof) (t : Tables)
    → is_empty u ≡ false
    → is_empty req.resource ≡ false
    → start_of_day later ≤ now
    → has_event_today later u req.event_type req.resource
        (with_event (checkin_event now device_id req p (matched u)) t).events
      ≡ true
unfolding has_event_today
used now later device_id u req p t named about today =
    (any_iff (is_repeat (start_of_day later) u req.event_type req.resource) _).1 (
      _,
      In-append_right _ t.events _ (inl refl),
      ground (arith, str_eq_refl u, str_eq_refl req.event_type, str_eq_refl req.resource),
    )

-- The check-in of a known user at a known device always answers that the resource it names is used
-- already, on the first one of a day too: its own event is recorded before the question is asked,
-- which is on the same day.
pub used_from_the_first :
    (now later : ℕ) (device_id u : Str) (req : CheckinRequest) (s : Store) (t : Tables)
    → resolve_user req.credentials t.credentials ≡ matched u
    → is_empty u ≡ false
    → is_empty req.event_type ≡ false
    → is_empty req.resource ≡ false
    → any (is_device device_id) t.devices ≡ true
    → member u t.users ≡ true
    → start_of_day later ≤ now
    → (a : CheckinResponse) × ((handle_device_checkin now later device_id req s t).1 ≡ answers a)
      × (a.user_id ≡ u)
      × (a.already_today ≡ true)
unfolding checkin_answer
used_from_the_first now later device_id u req s t h named typed about device user today =
    let (p, e) = checkin_matched now later device_id u req s t h typed device user in
    (_, e, refl, used now later device_id u req p t named about today)

-- A check-in of a known user at a known device, for a resource, is answered; and it is allowed
-- exactly where the tables allow the user the access to the resource, where `Resolve` returns what
-- the tables give and the links above the user's groups end within the depth guard.
pub allowed_iff :
    (now later : ℕ) (device_id u : Str) (req : CheckinRequest) (s : Store) (t : Tables)
    → resolve_user req.credentials t.credentials ≡ matched u
    → is_empty req.event_type ≡ false
    → is_empty req.resource ≡ false
    → any (is_device device_id) t.devices ≡ true
    → member u t.users ≡ true
    → (resolve later u s).1 ≡ resolve_from_db s.db u
    → WithinDepth s.db u
    → (a : CheckinResponse) × ((handle_device_checkin now later device_id req s t).1 ≡ answers a)
      × ((a.allowed ≡ true) ↔ Allowed s.db u req.resource (codes "access"))
unfolding checkin_answer access has_permission
allowed_iff now later device_id u req s t h typed about device user fresh depth =
    let (p, e) = checkin_matched now later device_id u req s t h typed device user in
    let permitted : (access later u req.resource s).1
        ≡ has (resolve_from_db s.db u) req.resource (codes "access") =
      ap (λ b. (if b then (s, true) else has_permission later u req.resource (codes "access") s).1)
        about
      ∙ ap (λ r. has r req.resource (codes "access")) fresh in
    let given = resolve_iff s.db u req.resource (codes "access") depth in
    (_, e, (λ x. given.0 (sym permitted ∙ x), λ y. permitted ∙ given.1 y))
