-- ===== src/Pages/Settings.antt =====
-- web/app/(app)/settings/page.tsx: what the server's settings are, read-only.
use Prim.Native.String.{String}
use idpforge.Base.{
  ℕ, Bool, true, false, Option, none, some, List, [], ◌∷◌, ◌++◌, Str, codes, is_empty,
  if◌then◌else◌, ltb,
}
use idpforge.Clients.{decimal}
use idpforge.Console.{settings}
use idpforge.Pages.View.{Shown, title, text}
use idpforge.Pages.Report.{Task, load}

pub record Http : Type 0 where
  pub listen_addr : Str
  pub base_url : Str

pub record Database : Type 0 where
  pub driver : Str
  pub dsn : Str

pub record Redis : Type 0 where
  pub enabled : Bool
  pub addr : Str

pub record RateLimit : Type 0 where
  pub enabled : Bool
  pub max : ℕ
  pub window_seconds : ℕ
  pub login_max : ℕ
  pub login_window_seconds : ℕ

pub record Oidc : Type 0 where
  pub issuer : Str
  pub access_token_ttl_minutes : ℕ
  pub id_token_ttl_minutes : ℕ
  pub refresh_token_ttl_hours : ℕ

pub record Backup : Type 0 where
  pub enabled : Bool
  pub dir : Str
  pub schedule : Str
  pub retention_days : ℕ

pub record PasswordPolicy : Type 0 where
  pub min_length : ℕ
  pub require_uppercase : Bool
  pub require_lowercase : Bool
  pub require_number : Bool
  pub require_special : Bool

-- `Settings`; of the objects with one field alone, the field.
pub record Settings : Type 0 where
  pub env : Str
  pub version : Str
  pub timezone : Str
  pub http : Http
  pub database : Database
  pub redis : Redis
  pub rate_limit : RateLimit
  pub captcha_provider : Str
  pub oidc : Oidc
  pub backup : Backup
  pub storage_backend : Str
  pub password_expiry_days : ℕ
  pub default_password : Str
  pub password_policy : PasswordPolicy

-- The page with the call that it sends as it opens; nothing else happens on it.
abbrev pub opened : Option Settings × List Task
opened = (none, load settings ∷ [])

-- `String(b)`
abbrev pub bool_text : Bool → Str
bool_text true = codes "true"
bool_text false = codes "false"

-- A number with its unit.
abbrev pub with_unit : ℕ → String → Str
with_unit n unit = decimal n ++ codes unit

abbrev pub per_window : ℕ → ℕ → Str
per_window max seconds = decimal max ++ (codes " / " ++ with_unit seconds "s")

abbrev pub Rows : Type 0
Rows = List (Shown (Unit {0}))

-- `Row`, before the rows behind it.
abbrev pub row : String → Str → Rows → Rows
row label v rest = text label ∷ Shown.value v ∷ rest

abbrev pub expiry_text : ℕ → Str
expiry_text days = if ltb 0 days then with_unit days " days" else codes "disabled"

abbrev pub or_not_configured : Str → Str
or_not_configured s = if is_empty s then codes "(not configured)" else s

-- The tables of the page, up to the rate limits and behind them.
abbrev pub server_rows : Settings → Rows → Rows
server_rows s rest = row "Version" s.version (
    row "Environment" s.env (
      row "Listen address" s.http.listen_addr (
        row "Base URL" s.http.base_url (
          row "Reference time zone" s.timezone (
            text
              "Timestamps throughout the app are shown in each viewer's own browser time zone automatically, so staff in different offices each see their own local time. The reference zone above is IdpForge's own (for schedules and server-side logs), not something applied to every timestamp."
            ∷ title "Database"
            ∷ row "Driver" s.database.driver (
                row "DSN" s.database.dsn (
                  title "Redis / cache"
                  ∷ row "Enabled" (bool_text s.redis.enabled)
                      (row "Address" s.redis.addr rest))))))))

abbrev pub limit_rows : Settings → Rows → Rows
limit_rows s rest =
    title "Rate limiting"
    ∷ row "Enabled" (bool_text s.rate_limit.enabled) (
        row "Global limit" (per_window s.rate_limit.max s.rate_limit.window_seconds) (
          row "Login limit" (per_window s.rate_limit.login_max s.rate_limit.login_window_seconds)
            (title "Captcha" ∷ row "Provider" s.captcha_provider rest)))

abbrev pub token_rows : Settings → Rows → Rows
token_rows s rest =
    title "OIDC"
    ∷ row "Issuer" s.oidc.issuer (
        row "Access token TTL" (with_unit s.oidc.access_token_ttl_minutes " min") (
          row "ID token TTL" (with_unit s.oidc.id_token_ttl_minutes " min")
            (row "Refresh token TTL" (with_unit s.oidc.refresh_token_ttl_hours " hr") rest)))

abbrev pub backup_rows : Settings → Rows → Rows
backup_rows s rest =
    title "Backup"
    ∷ row "Enabled" (bool_text s.backup.enabled) (
        row "Directory" s.backup.dir (
          row "Schedule" s.backup.schedule (
            row "Retention" (with_unit s.backup.retention_days " days") (
              title "Storage & security"
              ∷ row "Avatar storage backend" s.storage_backend
                  (row "Password expiry" (expiry_text s.password_expiry_days) rest)))))

abbrev pub password_rows : Settings → Rows
password_rows s =
    title "Default password"
    ∷ text
        "Assigned to every new account and to any account an admin resets. Visible here only (admin back office) and via server config (IDPFORGE_DEFAULT_PASSWORD) — never through any other API. Every account carrying it is forced to change it on next login."
    ∷ row "Default password" (or_not_configured s.default_password) (
        row "Minimum length" (with_unit s.password_policy.min_length " characters") (
          row "Requires uppercase" (bool_text s.password_policy.require_uppercase) (
            row "Requires lowercase" (bool_text s.password_policy.require_lowercase) (
              row "Requires number" (bool_text s.password_policy.require_number) (
                row "Requires special character" (bool_text s.password_policy.require_special)
                  [])))))

-- The page, once the settings are there.
abbrev pub rows : Option Settings → Rows
rows none = []
rows (some s) = server_rows s (limit_rows s (token_rows s (backup_rows s (password_rows s))))

unfoldable pub view : Option Settings → Rows
view s =
    title "Settings"
    ∷ text
        "Read-only. Almost everything here is set via environment variables and needs a restart to take effect, the same as nginx.conf or postgresql.conf."
    ∷ rows s
