-- ===== src/Accounts/Me.antt =====
-- internal/httpserver/me_handlers.go, `handleMe`, and web/lib/useMe.ts, which asks for it before a
-- page is shown.
use idpforge.Base.{
  ℕ, ◌+◌, ◌≤◌, ◌≡◌, refl, sym, ap, ◌∙◌, inl, inr, Bool, true, false, not, ◌&&◌, Option, none, some,
  List, [], map, Str, if◌then◌else◌, str_eq, codes, arith, Bool-cases, ltb, str_eq_refl,
}
use idpforge.Permission.{Resolved, to_string}
use idpforge.Cache.{Cache, Value, session, get, set}
use idpforge.Cache.Laws.{get-set}
use idpforge.Users.{User, Account, get_user, update_row, with_id, find, with_password}
use idpforge.Users.Rows.{find-update_row, user_of_inv}
use idpforge.Auth.{
  Settings, Verifiers, LoginRequest, Login, logged_in, denied, World, get_full, as_session,
  session_key, session_ttl, create_session, clear_must_change_password, handle_login, finish_login,
}
use idpforge.Auth.Outcome.{IsRight, login_of_right}
use idpforge.Accounts.{Classes, PasswordPolicy, handle_change_password, done}
use idpforge.Accounts.Passwords.{change_accounts}

-- The answer of `handleMe`.
pub record Me : Type 0 where
  pub user : User
  pub must_change_password : Bool
  pub permissions : List Str

-- `handleMe`; `none` is an answer that is no success, and `resolve` the resolver.
unfoldable pub handle_me : (Str → Option Resolved) → ℕ → Str → World → Option Me
handle_me resolve now cookie w = elim (get_full now cookie w.cache) [
  | none ↦ none
  | some d ↦ elim (get_user d.user_id w.accounts) [
    | none ↦ none
    | some user ↦ some (record {
      user = user;
      must_change_password = d.must_change_password;
      permissions = elim (resolve d.user_id) [ none ↦ [] | some r ↦ map to_string r.permissions ];
    })
  ]
]

-- What `useMe` does with an answer that comes before the component is gone.
pub data Next : Type 0 where
  replaces : Str → Next
  shows_page : Me → Next

abbrev pub change_password_path : Str
change_password_path = codes "/change-password"

unfoldable pub use_me : Str → Option Me → Next
use_me path none = replaces (codes "/login")
use_me path (some me) =
    if me.must_change_password && not (str_eq path change_password_path)
    then replaces change_password_path
    else shows_page me

get_full-create_session :
    (now t : ℕ) (id user_id : Str) (must : Bool) (c : Cache)
    → t ≤ now + session_ttl
    → get_full t id (create_session now id user_id must c)
      ≡ some (record { user_id = user_id; must_change_password = must })
unfolding get_full create_session
get_full-create_session now t id user_id must c h = ap as_session stored
  where
    data_of : Value
    data_of = session (record { user_id = user_id; must_change_password = must })

    live :
        (if ltb 0 session_ttl && ltb (now + session_ttl) t then none else some data_of)
        ≡ some data_of
    live = ground arith

    stored : get t (session_key id) (set now (session_key id) data_of session_ttl c) ≡ some data_of
    stored =
        get-set now t (session_key id) (session_key id) data_of session_ttl c
        ∙ rw (str_eq_refl (session_key id)) live

use_me_lem :
    (path : Str) (me : Me)
    → str_eq path change_password_path ≡ false
    → use_me path (some me)
      ≡ (if me.must_change_password then replaces change_password_path else shows_page me)
unfolding use_me
use_me_lem path me p = rw p (held me.must_change_password)
  where
    held :
        (b : Bool)
        → (if b && true then replaces change_password_path else shows_page me)
          ≡ (if b then replaces change_password_path else shows_page me)
    held true = refl
    held false = refl

abbrev me_of : (Str → Option Resolved) → Str → Bool → User → Me
me_of resolve user_id must user = record {
  user = user;
  must_change_password = must;
  permissions = elim (resolve user_id) [ none ↦ [] | some r ↦ map to_string r.permissions ];
}

handle_me_lem :
    (resolve : Str → Option Resolved) (t : ℕ) (sid user_id : Str) (must : Bool) (user : User)
    (w : World)
    → get_full t sid w.cache ≡ some (record { user_id = user_id; must_change_password = must })
    → get_user user_id w.accounts ≡ some user
    → handle_me resolve t sid w ≡ some (me_of resolve user_id must user)
unfolding handle_me
handle_me_lem resolve t sid user_id must user w s g = rw (handle_me, s, g)

abbrev must_of : Login → Bool
must_of (logged_in _ _ _ must) = must
must_of (denied code) = false

-- The session of a login keeps what the login was told.
session_of_login :
    (v : Verifiers) (cfg : Settings) (now t : ℕ) (sid : Str) (req : LoginRequest) (w : World)
    (user : User) (must : Bool)
    → IsRight v now req w user
    → must_of (handle_login v cfg now sid req w).1 ≡ must
    → t ≤ now + session_ttl
    → get_full t sid (handle_login v cfg now sid req w).0.cache
      ≡ some (record { user_id = user.id; must_change_password = must })
unfolding finish_login
session_of_login v cfg now t sid req w user must r e h =
    let told =
      ap (λ (q : World × Login). must_of q.1) (login_of_right v cfg now sid req w user r) in
    rw (login_of_right v cfg now sid req w user r) (
      get_full-create_session now t sid user.id _ _ h
      ∙ ap (λ b. some (record { user_id = user.id; must_change_password = b })) (sym told ∙ e))

-- A login that is told to change the password is sent to the change of the password by every other
-- page, as long as the session lasts. The attempt is right, and the account is found by its ID when
-- the page is opened.
pub held_until_change :
    (v : Verifiers) (cfg : Settings) (resolve : Str → Option Resolved) (now t : ℕ) (sid path : Str)
    (req : LoginRequest) (w : World) (user found : User) (mfa : Bool)
    → IsRight v now req w user
    → (handle_login v cfg now sid req w).1 ≡ logged_in sid user.id mfa true
    → get_user user.id (handle_login v cfg now sid req w).0.accounts ≡ some found
    → t ≤ now + session_ttl
    → str_eq path change_password_path ≡ false
    → use_me path (handle_me resolve t sid (handle_login v cfg now sid req w).0)
      ≡ replaces change_password_path
held_until_change v cfg resolve now t sid path req w user found mfa r e g h p =
    let after : World = (handle_login v cfg now sid req w).0 in
    ap (use_me path) (
      handle_me_lem resolve t sid user.id true found after
        (session_of_login v cfg now t sid req w user true r (ap must_of e) h) g)
    ∙ use_me_lem path (me_of resolve user.id true found) p

found-after_password :
    (now : ℕ) (h id : Str) (rows : List Account) (user : User)
    → get_user id rows ≡ some user
    → (u : User) × (get_user id (update_row (with_password h now false) id rows) ≡ some u)
unfolding get_user
found-after_password now h id rows user g =
    let (a, found, same) = user_of_inv (find (with_id id) rows) user g in
    let step = find-update_row (with_id id) (with_password h now false) id rows (λ b. refl) in
    elim (Bool-cases (with_id id a)) [
      | inl e ↦ ((with_password h now false a).user, rw (step, found, e) refl)
      | inr e ↦ (a.user, rw (step, found, e) refl)
    ]

-- A change of the password that succeeds lifts this: every page is shown again, as long as the
-- session lasts from then on.
pub change_lifts_hold :
    (u : Classes) (policy : PasswordPolicy) (v : Verifiers) (hash : Str → Option Str)
    (resolve : Str → Option Resolved) (now t : ℕ) (sid id current new path : Str) (user : User)
    (w : World)
    → (handle_change_password u policy v hash now sid id current new w).1 ≡ done
    → get_user id w.accounts ≡ some user
    → t ≤ now + session_ttl
    → str_eq path change_password_path ≡ false
    → (me : Me) × (use_me path (
          handle_me resolve t sid
            (handle_change_password u policy v hash now sid id current new w).0)
        ≡ shows_page me)
unfolding clear_must_change_password
change_lifts_hold u policy v hash resolve now t sid id current new path user w d g h p =
    let after : World = (handle_change_password u policy v hash now sid id current new w).0 in
    let (made, _, _, accounts, cache) =
      change_accounts u policy v hash now sid id current new w d in
    let (found, at) = found-after_password now made id w.accounts user g in
    let lifted = get_full-create_session now t sid id false w.cache h in
    (
      me_of resolve id false found,
      ap (use_me path) (
            handle_me_lem resolve t sid id false found after (ap (get_full t sid) cache ∙ lifted)
              (ap (get_user id) accounts ∙ at))
          ∙ use_me_lem path (me_of resolve id false found) p,
    )
