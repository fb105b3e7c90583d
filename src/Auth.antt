-- ===== src/Auth.antt =====
-- internal/httpserver/session.go and auth_handlers.go: sessions, the lockout of an account, and the
-- login. What a random source makes, and the time of a call, are arguments. A call of the cache
-- does not fail, as those of the process-local cache do not.
pub mod Outcome
pub mod Lockout
pub mod Attempts
pub mod Tests
use idpforge.Base.{
  ℕ, ◌+◌, ◌*◌, Bool, true, false, not, ◌&&◌, ◌||◌, Option, none, some, List, [], ◌∷◌, ◌++◌,
  if◌then◌else◌, ltb, ◌==◌, Str, codes, is_empty, is_some,
}
use idpforge.Permission.{Locals}
use idpforge.Cache.{Cache, Value, text, session, SessionData, get, set, delete, increment}
use idpforge.Users.{
  Account, User, get_by_username, get_user, password_hash, password_age, touch_last_login, find,
  with_id,
}

abbrev pub hour : ℕ
hour = 3_600 * 1_000_000_000

-- `sessionTTL`
abbrev pub session_ttl : ℕ
session_ttl = 8 * hour

abbrev pub session_key : Str → Str
session_key id = codes "session:" ++ id

-- `sessionStore.create`, with the ID that `randomID` makes.
unfoldable pub create_session : ℕ → Str → Str → Bool → Cache → Cache
create_session now id user_id must_change_password =
    set now (session_key id)
      (session (record { user_id = user_id; must_change_password = must_change_password }))
      session_ttl

abbrev pub as_session : Option Value → Option SessionData
as_session (some (session d)) = some d
as_session _ = none

-- `sessionStore.getFull`
unfoldable pub get_full : ℕ → Str → Cache → Option SessionData
get_full now id c = as_session (get now (session_key id) c)

abbrev pub user_id_of : Option SessionData → Option Str
user_id_of none = none
user_id_of (some d) = some d.user_id

-- `sessionStore.get`
unfoldable pub get_session : ℕ → Str → Cache → Option Str
get_session now id c = user_id_of (get_full now id c)

-- `sessionStore.clearMustChangePassword`
unfoldable pub clear_must_change_password : ℕ → Str → Str → Cache → Cache
clear_must_change_password now id user_id = create_session now id user_id false

-- `sessionStore.destroy`
unfoldable pub destroy : Str → Cache → Cache
destroy id = delete (session_key id ∷ [])

-- `AccountLockout` and the password expiry of the configuration; 0 stands for every value that
-- switches one off.
pub record Settings : Type 0 where
  pub max_attempts : ℕ
  pub window : ℕ
  pub duration : ℕ
  pub password_expiry_days : ℕ

abbrev pub fail_key : Str → Str
fail_key username = codes "login_fail:" ++ username

abbrev pub lock_key : Str → Str
lock_key username = codes "login_lock:" ++ username

-- `accountLocked`
unfoldable pub account_locked : ℕ → Str → Cache → Bool
account_locked now username c = is_some (get now (lock_key username) c)

-- `recordLoginFailure`
unfoldable pub record_login_failure : Settings → ℕ → Str → Cache → Cache
record_login_failure cfg now username c =
    let counted : Cache × ℕ = increment now (fail_key username) cfg.window c in
    if cfg.max_attempts == 0
    then c
    else if ltb counted.1 cfg.max_attempts
    then counted.0
    else set now (lock_key username) (text (codes "1")) cfg.duration counted.0

-- `clearLoginFailures`
unfoldable pub clear_login_failures : Str → Cache → Cache
clear_login_failures username = delete (fail_key username ∷ lock_key username ∷ [])

-- `passwordExpired`
unfoldable pub password_expired : Settings → ℕ → Str → List Account → Bool
password_expired cfg now user_id rows =
    if cfg.password_expiry_days == 0 then false else elim (password_age now user_id rows) [
      | none ↦ false
      | some age ↦ ltb (cfg.password_expiry_days * (24 * hour)) age
    ]

-- `passwordChangeRequired`
unfoldable pub password_change_required : Settings → ℕ → Str → Bool → List Account → Bool
password_change_required cfg now user_id forced rows =
    forced || password_expired cfg now user_id rows

-- The entries of the audit log that the login writes.
pub record LogEntry : Type 0 where
  pub actor_id : Str
  pub action : Str
  pub target_resource : Str
  pub reason : Str
  pub status : Str

pub record World : Type 0 where
  pub accounts : List Account
  pub cache : Cache
  pub log : List LogEntry

pub record LoginRequest : Type 0 where
  pub username : Str
  pub password : Str
  pub mfa_code : Str
  pub captcha_token : Str

pub data Login : Type 0 where
  logged_in : (session_id user_id : Str) (mfa_required password_change_required : Bool) → Login
  denied : ℕ → Login

-- `logFailedLogin`
unfoldable pub log_failed_login : Str → Str → World → World
log_failed_login username reason w = record w {
  log =
      w.log
      ++ record {
        actor_id = [];
        action = codes "user.login";
        target_resource = username;
        reason = reason;
        status = codes "failure";
      }
        ∷ [];
}

-- A failed attempt that counts.
unfoldable pub fail_login : Settings → ℕ → Str → Str → World → World
fail_login cfg now username reason w =
    let logged : World = log_failed_login username reason w in
    record logged { cache = record_login_failure cfg now username w.cache }

-- The secret of an account, as `mfa.Service.secretFor` reads it; `none` is an error.
unfoldable pub secret_for : Str → List Account → Option Str
secret_for user_id rows = elim (find (with_id user_id) rows) [
  | none ↦ none
  | some a ↦ if is_empty a.mfa_secret then none else some a.mfa_secret
]

-- What the login asks of other code: the captcha's answer to a token, where `none` is an error;
-- bcrypt's comparison of a hash with a password; and that of a one-time code with a secret.
pub record Verifiers : Type 0 where
  pub captcha : Str → Option Bool
  pub verify_password : Str → Str → Bool
  pub validate : ℕ → Str → Str → Bool

module _ (v : Verifiers) where
  -- `mfa.Service.Verify`
  unfoldable pub verify_mfa : ℕ → Str → Str → List Account → Bool
  verify_mfa now user_id code rows = elim (secret_for user_id rows) [
    | none ↦ false
    | some secret ↦ v.validate now code secret
  ]

  abbrev pub captcha_passes : LoginRequest → Bool
  captcha_passes req = elim (v.captcha req.captcha_token) [ none ↦ false | some ok ↦ ok ]

  -- The end of `handleLogin`, once the credentials are right.
  unfoldable pub finish_login : Settings → ℕ → Str → LoginRequest → User → World → World × Login
  finish_login cfg now sid req user w =
      let change : Bool =
        password_change_required cfg now user.id user.force_password_change w.accounts in
      (
        record {
          accounts = touch_last_login now user.id w.accounts;
          cache = create_session now sid user.id change (clear_login_failures req.username w.cache);
          log =
              w.log
              ++ record {
                actor_id = user.id;
                action = codes "user.login";
                target_resource = user.id;
                reason = [];
                status = codes "success";
              }
                ∷ [];
        },
        logged_in sid user.id user.mfa_enabled change,
      )

  -- `handleLogin`, behind the check of the password.
  unfoldable pub login_user : Settings → ℕ → Str → LoginRequest → World → World × Login
  login_user cfg now sid req w = elim (get_by_username req.username w.accounts) [
    | none ↦ (w, denied 401)
    | some user ↦
        if user.mfa_enabled && not (verify_mfa now user.id req.mfa_code w.accounts)
        then (fail_login cfg now req.username (codes "mfa_failed") w, denied 401)
        else finish_login cfg now sid req user w
  ]

  -- `handleLogin`
  unfoldable pub handle_login : Settings → ℕ → Str → LoginRequest → World → World × Login
  handle_login cfg now sid req w =
      if account_locked now req.username w.cache
      then (log_failed_login req.username (codes "locked") w, denied 429)
      else if not (captcha_passes req)
      then (w, denied 403)
      else elim (password_hash req.username w.accounts) [
        | none ↦ (fail_login cfg now req.username (codes "not_found") w, denied 401)
        | some hash ↦
            if is_empty hash || not (v.verify_password hash req.password)
            then (fail_login cfg now req.username (codes "bad_password") w, denied 401)
            else login_user cfg now sid req w
      ]

-- `handleLogout`; "" is a cookie that is not there.
unfoldable pub handle_logout : Str → World → World
handle_logout id w = if is_empty id then w else record w { cache = destroy id w.cache }
