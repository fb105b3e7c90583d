-- ===== src/Pages/ApiClients.antt =====
-- web/app/(app)/api-clients/page.tsx: the API clients, with the form that creates one.
pub mod Rows
pub mod Served
use idpforge.Base.{
  ℕ, ◌≡◌, refl, Bool, true, false, not, ◌&&◌, Option, none, some, List, [], ◌∷◌, ◌++◌, All, All-of,
  All-map_of, Str, codes, is_empty, if◌then◌else◌, member, length,
}
use idpforge.Permission.{Locals, Resolved, has_permission_ui}
use idpforge.Router.Fiber.{Fiber}
use idpforge.Router.Serve.{Gate}
use idpforge.Clients.{decimal}
use idpforge.Console.{api_clients_list, api_clients_create, api_clients_remove}
use idpforge.Console.Nav.{me_permissions}
use idpforge.Console.Response.{Reply, value, undefined, api_error, broken}
use idpforge.Pages.{toggle}
use idpforge.Pages.Csv.{trim, split_csv}
use idpforge.Pages.Data.{ApiClient}
use idpforge.Pages.Folders.{group_rows, group_rows-All}
use idpforge.Pages.View.{
  Shown, title, text, number, input, checkbox, button, ask, when, each, sections, ◌&◌, AllOffered,
  AllOffered-sections, AllOffered-each, AllOffered-when, AllOffered-map,
}
use idpforge.Pages.Report.{
  Flash, show_flash, Task, load, send, flash_of, AllPermitted, AllServed, AllPermitted-AllServed,
  SignedIn, AllOffered-show_flash,
}
use idpforge.Pages.UserList.{or_none}

-- `SCOPE_OPTIONS`, as the scopes that are written out of it.
abbrev pub scope_options : List Str
scope_options =
    codes "users:read"
    ∷ codes "users:manage"
    ∷ codes "rbac:manage"
    ∷ codes "iot:read"
    ∷ codes "iot:manage"
    ∷ codes "api_clients:manage"
    ∷ codes "audit:read"
    ∷ codes "metrics:read"
    ∷ codes "settings:read"
    ∷ codes "announcements:manage"
    ∷ []

-- `FIELD_OPTIONS`
abbrev pub field_options : List Str
field_options =
    codes "id"
    ∷ codes "username"
    ∷ codes "email"
    ∷ codes "status"
    ∷ codes "mfa_enabled"
    ∷ codes "source"
    ∷ codes "external_id"
    ∷ codes "avatar_url"
    ∷ codes "force_password_change"
    ∷ codes "created_at"
    ∷ codes "updated_at"
    ∷ codes "last_login_at"
    ∷ []

pub record ApiClients : Type 0 where
  pub clients : List ApiClient
  pub name : Str
  pub folder : Str
  pub scopes : List Str
  pub allowed_fields : List Str
  pub allowed_ips : Str
  pub rate_limit_max : ℕ
  pub rate_limit_window : ℕ
  pub new_key : Str
  pub flash : Option Flash

abbrev pub opened : ApiClients × List Task
opened = (
  record {
    clients = [];
    name = [];
    folder = [];
    scopes = [];
    allowed_fields = codes "id" ∷ codes "username" ∷ codes "email" ∷ [];
    allowed_ips = [];
    rate_limit_max = 60;
    rate_limit_window = 60;
    new_key = [];
    flash = none;
  },
  load api_clients_list ∷ [],
)

pub data Event : Type 0 where
  got_clients : List ApiClient → Event
  sets_name sets_folder sets_ips sets_max sets_window toggles_scope toggles_field : Str → Event
  submits : Event
  -- The answer of `create`, with the new key.
  created : Reply Str → Event
  revokes : Str → Event
  revoked : Reply (Unit {0}) → Event

abbrev pub revoke_failed : Flash
revoke_failed = record { msg = codes "Could not revoke API client"; is_ok = false }

-- `handleCreate` from its answer on.
unfoldable pub finish_create : Reply Str → ApiClients → ApiClients × List Task
finish_create (value key) s = (
  record s {
    new_key = key;
    flash = some (record { msg = codes "API client created"; is_ok = true });
    name = [];
    folder = [];
    scopes = [];
    allowed_ips = [];
  },
  load api_clients_list ∷ [],
)
finish_create (api_error status message) s =
    (record s { flash = some (record { msg = message; is_ok = false }) }, [])
finish_create undefined s = (
  record s { flash = some (record { msg = codes "Could not create API client"; is_ok = false }) },
  [],
)
finish_create broken s = (
  record s { flash = some (record { msg = codes "Could not create API client"; is_ok = false }) },
  [],
)

-- What the button of a row does with its answer: any failure has the same message.
unfoldable pub finish_revoke : Reply (Unit {0}) → ApiClients → ApiClients × List Task
finish_revoke (value u) s = (
  record s { flash = some (record { msg = codes "API client revoked"; is_ok = true }) },
  load api_clients_list ∷ [],
)
finish_revoke undefined s = (
  record s { flash = some (record { msg = codes "API client revoked"; is_ok = true }) },
  load api_clients_list ∷ [],
)
finish_revoke (api_error status message) s = (record s { flash = some revoke_failed }, [])
finish_revoke broken s = (record s { flash = some revoke_failed }, [])

-- `to_number` is JavaScript's `Number`, for the texts of the two fields of numbers.
module _ (to_number : Str → ℕ) where
  unfoldable pub update : Event → ApiClients → ApiClients × List Task
  update (got_clients cs) s = (record s { clients = cs }, [])
  update (sets_name t) s = (record s { name = t }, [])
  update (sets_folder t) s = (record s { folder = t }, [])
  update (sets_ips t) s = (record s { allowed_ips = t }, [])
  update (sets_max t) s = (record s { rate_limit_max = to_number t }, [])
  update (sets_window t) s = (record s { rate_limit_window = to_number t }, [])
  update (toggles_scope t) s = (record s { scopes = toggle s.scopes t }, [])
  update (toggles_field t) s = (record s { allowed_fields = toggle s.allowed_fields t }, [])
  update submits s = (
    s,
    send
          (api_clients_create s.name (or_none (trim s.folder)) s.scopes s.allowed_fields
            (split_csv s.allowed_ips) s.rate_limit_max s.rate_limit_window)
          (codes "API client created") (codes "Could not create API client")
        ∷ [],
  )
  update (created r) s = finish_create r s
  update (revokes id) s = (
    s,
    send (api_clients_remove id) (codes "API client revoked") (codes "Could not revoke API client")
        ∷ [],
  )
  update (revoked r) s = finish_revoke r s
