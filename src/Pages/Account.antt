-- ===== src/Pages/Account.antt =====
-- web/app/(app)/account/page.tsx: the user's own picture, second factor and security keys.
pub mod Served
use idpforge.Base.{
  ℕ, Bool, true, false, not, ◌&&◌, Option, none, some, List, [], ◌∷◌, Str, codes, is_empty, is_some,
  if◌then◌else◌,
}
use idpforge.Console.{
  avatar_upload, mfa_enroll, mfa_confirm, mfa_disable, webauthn_register_begin,
  webauthn_register_finish,
}
use idpforge.Console.Response.{Reply, value, undefined, api_error, broken, or_else}
use idpforge.Pages.Data.{User}
use idpforge.Pages.View.{Shown, title, text, link, image, file, input, button, sections}
use idpforge.Pages.Report.{Flash, show_flash, Task, load, send, flash_of}

-- `reloading`: the timer that loads the page again is set.
pub record Account : Type 0 where
  pub flash : Option Flash
  pub avatar_file : Option (Str × Str)
  pub avatar_busy : Bool
  pub enrolling : Option (Str × Str)
  pub mfa_code : Str
  pub disable_password : Str
  pub key_busy : Bool
  pub reloading : Bool

abbrev pub opened : Account
opened = record {
  flash = none;
  avatar_file = none;
  avatar_busy = false;
  enrolling = none;
  mfa_code = [];
  disable_password = [];
  key_busy = false;
  reloading = false;
}

pub data Event : Type 0 where
  picks_file : Option (Str × Str) → Event
  sets_code sets_password : Str → Event
  uploads enrolls confirms disables registers : Event
  uploaded confirmed disabled finished : Reply (Unit {0}) → Event
  -- The secret and the link of the enrolment.
  enrolled : Reply (Str × Str) → Event
  -- The options for a new key.
  begun : Reply Str → Event
  -- What the browser has made of them; `none` is a ceremony that failed.
  key_made : Option Str → Event

abbrev pub octets : Str
octets = codes "application/octet-stream"

abbrev pub said : Flash → Account → Account
said f s = record s { flash = some f }

-- What the handlers do with the answer to their call. Only a value ends them well where they use it.
unfoldable pub finish_upload : Reply (Unit {0}) → Account → Account
finish_upload (value u) s = record s {
  flash = some (record { msg = codes "Avatar updated"; is_ok = true });
  avatar_file = none;
  avatar_busy = false;
  reloading = true;
}
finish_upload undefined s = record s {
  flash = some (record { msg = codes "Avatar updated"; is_ok = true });
  avatar_file = none;
  avatar_busy = false;
  reloading = true;
}
finish_upload (api_error status message) s = record s {
  flash = some (record { msg = message; is_ok = false });
  avatar_busy = false;
}
finish_upload broken s = record s {
  flash = some (record { msg = codes "Could not upload avatar"; is_ok = false });
  avatar_busy = false;
}

unfoldable pub finish_enroll : Reply (Str × Str) → Account → Account
finish_enroll (value r) s = record s { enrolling = some r }
finish_enroll undefined s = record s { enrolling = none }
finish_enroll (api_error status message) s = said (record { msg = message; is_ok = false }) s
finish_enroll broken s =
    said (record { msg = codes "Could not start MFA enrollment"; is_ok = false }) s

abbrev pub mfa_enabled_now : Account → Account
mfa_enabled_now s = record s {
  flash = some (record { msg = codes "MFA enabled"; is_ok = true });
  enrolling = none;
  mfa_code = [];
  reloading = true;
}

unfoldable pub finish_confirm : Reply (Unit {0}) → Account → Account
finish_confirm (value u) s = mfa_enabled_now s
finish_confirm undefined s = mfa_enabled_now s
finish_confirm (api_error status message) s = said (record { msg = message; is_ok = false }) s
finish_confirm broken s = said (record { msg = codes "Invalid code"; is_ok = false }) s

abbrev pub mfa_disabled_now : Account → Account
mfa_disabled_now s = record s {
  flash = some (record { msg = codes "MFA disabled"; is_ok = true });
  disable_password = [];
  reloading = true;
}

unfoldable pub finish_disable : Reply (Unit {0}) → Account → Account
finish_disable (value u) s = mfa_disabled_now s
finish_disable undefined s = mfa_disabled_now s
finish_disable (api_error status message) s = said (record { msg = message; is_ok = false }) s
finish_disable broken s = said (record { msg = codes "Could not disable MFA"; is_ok = false }) s

abbrev pub key_failed : Flash
key_failed = record { msg = codes "Could not register security key"; is_ok = false }

abbrev pub key_ends : Flash → Account → Account
key_ends f s = record s { flash = some f; key_busy = false }

unfoldable pub finish_begin : Reply Str → Account → Account
finish_begin (value options) s = s
finish_begin undefined s = key_ends key_failed s
finish_begin (api_error status message) s = key_ends (record { msg = message; is_ok = false }) s
finish_begin broken s = key_ends key_failed s

unfoldable pub finish_key : Reply (Unit {0}) → Account → Account
finish_key r s = key_ends (flash_of (codes "Security key registered") key_failed.msg r) s

-- `uploadAvatar` for the file, if any.
abbrev pub upload_task : User → Option (Str × Str) → List Task
upload_task u none = []
upload_task u (some (bytes, content_type)) =
    send (avatar_upload u.id bytes (or_else content_type octets)) (codes "Avatar updated")
      (codes "Could not upload avatar")
    ∷ []

unfoldable pub update : User → Event → Account → Account × List Task
update u (picks_file f) s = (record s { avatar_file = f }, [])
update u (sets_code t) s = (record s { mfa_code = t }, [])
update u (sets_password t) s = (record s { disable_password = t }, [])
update u uploads s = (
  if is_some s.avatar_file then record s { avatar_busy = true } else s,
  upload_task u s.avatar_file,
)
update u (uploaded r) s = (finish_upload r s, [])
update u enrolls s = (s, send mfa_enroll [] (codes "Could not start MFA enrollment") ∷ [])
update u (enrolled r) s = (finish_enroll r s, [])
update u confirms s =
    (s, send (mfa_confirm s.mfa_code) (codes "MFA enabled") (codes "Invalid code") ∷ [])
update u (confirmed r) s = (finish_confirm r s, [])
update u disables s = (
  s,
  send (mfa_disable s.disable_password) (codes "MFA disabled") (codes "Could not disable MFA") ∷ [],
)
update u (disabled r) s = (finish_disable r s, [])
update u registers s = (
  record s { key_busy = true },
  send webauthn_register_begin [] (codes "Could not register security key") ∷ [],
)
update u (begun r) s = (finish_begin r s, [])
update u (key_made none) s = (key_ends key_failed s, [])
update u (key_made (some credential)) s = (
  s,
  send (webauthn_register_finish credential) (codes "Security key registered")
        (codes "Could not register security key")
      ∷ [],
)
update u (finished r) s = (finish_key r s, [])

-- `initial` is the first letter of a name as a capital, and `supported` is `webauthnSupported()`.
module _ (initial : Str → Str) (supported : Bool) where
  abbrev pub picture : User → List (Shown Event)
  picture u =
      (if is_empty u.avatar_url then Shown.value (initial u.username) else image u.avatar_url) ∷ []

  abbrev pub disable_form : Account → List (Shown Event)
  disable_form s =
      text "MFA is enabled on your account."
      ∷ text "Current password (to confirm disabling MFA)"
      ∷ input s.disable_password sets_password
      ∷ button (not (is_empty s.disable_password)) "Disable MFA" disables
      ∷ []

  abbrev pub enroll_form : Option (Str × Str) → Account → List (Shown Event)
  enroll_form none s = button true "Enable MFA" enrolls ∷ []
  enroll_form (some (secret, url)) s =
      text
        "Add this to your authenticator app (Google Authenticator, Authy, 1Password, ...). There's no QR scan here -- enter the secret manually, or open this link on the same device as your authenticator:"
      ∷ Shown.value secret
      ∷ link url url
      ∷ text "Code from your authenticator app"
      ∷ input s.mfa_code sets_code
      ∷ button (not (is_empty s.mfa_code)) "Confirm and enable" confirms
      ∷ []

  abbrev pub key_form : Account → List (Shown Event)
  key_form s =
      if supported
      then text
          "Register a hardware security key or platform authenticator (Touch ID, Windows Hello, ...)."
        ∷ button (not s.key_busy)
            (if s.key_busy then "Waiting for your key..." else "Register a security key") registers
        ∷ []
      else text "Your browser doesn't support WebAuthn." ∷ []

  abbrev pub parts : User → Account → List (List (Shown Event))
  parts u s =
      (title "My account" ∷ [])
      ∷ show_flash s.flash
      ∷ (title "Profile picture" ∷ [])
      ∷ picture u
      ∷ (file picks_file
          ∷ button (is_some s.avatar_file && not s.avatar_busy)
              (if s.avatar_busy then "Uploading..." else "Upload") uploads
          ∷ [])
      ∷ (title "Two-factor authentication (TOTP)" ∷ [])
      ∷ (if u.mfa_enabled then disable_form s else enroll_form s.enrolling s)
      ∷ (title "Security keys (WebAuthn)" ∷ [])
      ∷ key_form s
      ∷ []

  unfoldable pub view : User → Account → List (Shown Event)
  view u s = sections (parts u s)
