-- ===== src/Pages/Data.antt =====
-- web/lib/api.ts: what the server's answers hold. "" is a field that is not there; a time is the text
-- that the server writes.
use idpforge.Base.{ℕ, Bool, List, Str}

pub record User : Type 0 where
  pub id : Str
  pub username : Str
  pub email : Str
  pub employee_id : Str
  pub status : Str
  pub mfa_enabled : Bool
  pub source : Str
  pub external_id : Str
  pub avatar_url : Str
  pub force_password_change : Bool
  pub created_at : Str
  pub updated_at : Str
  pub last_login_at : Str

pub record Role : Type 0 where
  pub id : Str
  pub name : Str
  pub description : Str

pub record PermissionRecord : Type 0 where
  pub id : Str
  pub resource : Str
  pub action : Str

pub record Group : Type 0 where
  pub id : Str
  pub name : Str
  pub parent_group_id : Str

pub record ApiClient : Type 0 where
  pub id : Str
  pub name : Str
  pub folder : Str
  pub allowed_fields : List Str
  pub scopes : List Str
  pub allowed_ips : List Str
  pub rate_limit_max : ℕ
  pub rate_limit_window_seconds : ℕ
  pub enabled : Bool
  pub created_at : Str

pub record Device : Type 0 where
  pub id : Str
  pub name : Str
  pub device_type : Str
  pub location : Str
  pub folder : Str
  pub allowed_ips : List Str
  pub enabled : Bool
  pub created_at : Str

pub record DeviceCredential : Type 0 where
  pub id : Str
  pub user_id : Str
  pub credential_type : Str
  pub credential_ref : Str
  pub label : Str
  pub created_at : Str

pub record DeviceEvent : Type 0 where
  pub id : ℕ
  pub device_id : Str
  pub user_id : Str
  pub event_type : Str
  pub resource : Str
  pub status : Str
  pub timestamp : Str

pub data Level : Type 0 where
  info warning critical : Level

-- `created_at` is an instant in milliseconds, as `new Date` reads it.
pub record Announcement : Type 0 where
  pub id : ℕ
  pub message : Str
  pub level : Level
  pub created_by : Str
  pub created_at : ℕ

pub record MetricsSnapshot : Type 0 where
  pub timestamp : Str
  pub http_requests : ℕ
  pub login_success : ℕ
  pub login_failure : ℕ
  pub rate_limit_rejections : ℕ
  pub storage_bytes : ℕ
