-- ===== src/Accounts.antt =====
-- internal/httpserver/users_handlers.go and me_handlers.go, and internal/users/policy.go: what an
-- administrator does to an account, and what a user does to their own.
pub mod Policy
pub mod Passwords
pub mod Offboard
pub mod Partial
pub mod Me
pub mod Tests
use idpforge.Base.{
  ℕ, ◌+◌, Bool, true, false, not, ◌&&◌, ◌||◌, Option, none, some, List, [], ◌∷◌, ◌++◌,
  if◌then◌else◌, ltb, leb, Str, codes, str_eq, is_empty, member, drop, take, map, any,
}
use idpforge.Cache.{Cache}
use idpforge.Rbac.Admin.{invalidate}
use idpforge.Users.{
  User, Account, get_user, password_hash, set_password, assign_default_password, status_disabled,
  update, UpdateInput, create, CreateInput,
}
use idpforge.Auth.{World, LogEntry, Verifiers, clear_must_change_password}

-- `PasswordPolicyConfig`
pub record PasswordPolicy : Type 0 where
  pub min_length : ℕ
  pub require_uppercase : Bool
  pub require_lowercase : Bool
  pub require_number : Bool
  pub require_special : Bool

-- The classes of the package unicode.
pub record Classes : Type 0 where
  pub is_upper : ℕ → Bool
  pub is_lower : ℕ → Bool
  pub is_number : ℕ → Bool

-- The characters of a text that are special.
abbrev pub special : Str
special = codes "!@#$%^&*()_+-=[]{}|;:'\",.<>/?`~\\"

-- The bytes of a character in UTF-8.
abbrev pub width : ℕ → ℕ
width c = if ltb c 128 then 1 else if ltb c 2_048 then 2 else if ltb c 65_536 then 3 else 4

-- Go's `len` of a text of characters.
unfoldable pub byte_length : Str → ℕ
byte_length [] = 0
byte_length (c ∷ s) = width c + byte_length s

-- The flags of `ValidatePassword`.
pub record Flags : Type 0 where
  pub has_upper : Bool
  pub has_lower : Bool
  pub has_number : Bool
  pub has_special : Bool

abbrev pub no_flags : Flags
no_flags = record { has_upper = false; has_lower = false; has_number = false; has_special = false }

-- One round of its loop.
unfoldable pub flag : Classes → ℕ → Flags → Flags
flag u c f =
    if u.is_upper c
    then record f { has_upper = true }
    else if u.is_lower c
    then record f { has_lower = true }
    else if u.is_number c
    then record f { has_number = true }
    else if any (λ d. str_eq (d ∷ []) (c ∷ [])) special
    then record f { has_special = true }
    else f

unfoldable pub flags : Classes → Str → Flags → Flags
flags u [] f = f
flags u (c ∷ s) f = flags u s (flag u c f)

pub data Weakness : Type 0 where
  too_short no_uppercase no_lowercase no_digit no_special : Weakness

-- `ValidatePassword`; `none` is no error.
unfoldable pub validate_password : Classes → Str → PasswordPolicy → Option Weakness
validate_password u password policy =
    let f = flags u password no_flags in
    if ltb (byte_length password) policy.min_length
    then some too_short
    else if policy.require_uppercase && not f.has_upper
    then some no_uppercase
    else if policy.require_lowercase && not f.has_lower
    then some no_lowercase
    else if policy.require_number && not f.has_number
    then some no_digit
    else if policy.require_special && not f.has_special
    then some no_special
    else none

pub data Reply : Type 0 where
  shows : User → Reply
  done : Reply
  failed : ℕ → Reply

abbrev pub entry : Str → Str → Str → LogEntry
entry actor action target = record {
  actor_id = actor;
  action = action;
  target_resource = target;
  reason = [];
  status = codes "success";
}

-- `handleChangePassword`; `hash` is what bcrypt makes of the new password, `none` an error.
unfoldable pub handle_change_password :
    Classes
    → PasswordPolicy
    → Verifiers
    → (Str → Option Str)
    → ℕ
    → Str
    → Str
    → Str
    → Str
    → World
    → World × Reply
handle_change_password u policy v hash now sid user_id current_password new_password w =
    elim (validate_password u new_password policy) [
      | some weakness ↦ (w, failed 400)
      | none ↦ elim (get_user user_id w.accounts) [
        | none ↦ (w, failed 404)
        | some user ↦ elim (password_hash user.username w.accounts) [
          | none ↦ (w, failed 401)
          | some old ↦
              if is_empty old || not (v.verify_password old current_password)
              then (w, failed 401)
              else elim (hash new_password) [
                | none ↦ (w, failed 500)
                | some h ↦ (
                  record w {
                    accounts = set_password now h user_id w.accounts;
                    cache = clear_must_change_password now sid user_id w.cache;
                  },
                  done,
                )
              ]
        ]
      ]
    ]

-- `handleResetUserPassword`; "" is a default password that is not configured.
unfoldable pub handle_reset_user_password :
    (Str → Option Str) → Str → ℕ → Str → Str → World → World × Reply
handle_reset_user_password hash default_password now actor id w =
    if is_empty default_password then (w, failed 503) else elim (hash default_password) [
      | none ↦ (w, failed 500)
      | some h ↦ elim (assign_default_password now h id w.accounts) [
        | none ↦ (w, failed 404)
        | some rows ↦ elim (get_user id rows) [
          | none ↦ (record w { accounts = rows }, failed 404)
          | some user ↦ (
            record w {
              accounts = rows;
              log = w.log ++ entry actor (codes "user.reset_password") id ∷ [];
            },
            shows user,
          )
        ]
      ]
    ]

-- `handleUpdateUser`
unfoldable pub handle_update_user : ℕ → Str → Str → UpdateInput → World → World × Reply
handle_update_user now actor id i w =
    let r = update now id i w.accounts in
    elim r.1 [
      | none ↦ (record w { accounts = r.0 }, failed 404)
      | some user ↦ (
        record w { accounts = r.0; log = w.log ++ entry actor (codes "user.update") user.id ∷ [] },
        shows user,
      )
    ]

abbrev pub disabling : UpdateInput
disabling = record { email = none; employee_id = none; status = some status_disabled }

-- `handleOffboardUser`
unfoldable pub handle_offboard_user : ℕ → Str → Str → World → World × Reply
handle_offboard_user now actor id w =
    let r = update now id disabling w.accounts in
    elim r.1 [
      | none ↦ (record w { accounts = r.0 }, failed 404)
      | some user ↦ (
        record w {
          accounts = r.0;
          cache = invalidate id w.cache;
          log = w.log ++ entry actor (codes "user.offboard") id ∷ [];
        },
        shows user,
      )
    ]

-- `handleCreateUser`, with the ID that is made.
unfoldable pub handle_create_user :
    (Str → Option Str) → Str → ℕ → Str → Str → CreateInput → World → World × Reply
handle_create_user hash default_password now actor id i w =
    if is_empty i.username || is_empty i.email
    then (w, failed 400)
    else if is_empty default_password
    then (w, failed 503)
    else elim (hash default_password) [
      | none ↦ (w, failed 409)
      | some h ↦ elim (create now id h (record i { source = [] }) w.accounts) [
        | none ↦ (w, failed 409)
        | some rows ↦ elim (get_user id rows) [
          | none ↦ (record w { accounts = rows }, failed 409)
          | some user ↦ (
            record w {
              accounts = rows;
              cache = invalidate user.id w.cache;
              log = w.log ++ entry actor (codes "user.create") user.id ∷ [];
            },
            shows user,
          )
        ]
      ]
    ]
