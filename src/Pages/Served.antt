-- ===== src/Pages/Served.antt =====
-- The pages of web/app/(app) but for the audit log together: what each needs, and the calls that its
-- events send and that follow an answer.
use idpforge.Base.{
  ℕ, ◌≡◌, ◌↔◌, ◌⊎◌, Bool, true, false, Option, none, some, List, All, Str, codes, is_empty,
}
use idpforge.Permission.{Locals, Resolved, has_permission_ui}
use idpforge.Router.Fiber.{Fiber}
use idpforge.Router.Serve.{Gate}
use idpforge.Console.Nav.{me_permissions}
use idpforge.Pages.Data.{User, Role, PermissionRecord, ApiClient, Device}
use idpforge.Pages.View.{AllOffered}
use idpforge.Pages.Report.{AllServed, SignedIn, AllPermitted-AllServed}
use idpforge.Pages.Answers.{
  Fails, AllPermitted-user_list, AllPermitted-role_list, AllPermitted-role_detail,
  AllPermitted-created_client, AllPermitted-revoked_client, AllPermitted-devices,
  AllPermitted-key_made, user_detail_again_iff,
}
use idpforge.Console.Response.{Reply}
use idpforge.Pages.UserList
use idpforge.Pages.UserList.{UserList, user_list_served}
use idpforge.Pages.UserDetail
use idpforge.Pages.UserDetail.{UserDetail}
use idpforge.Pages.UserDetail.Served.{HasRowIds, user_detail_served}
use idpforge.Pages.RoleList
use idpforge.Pages.RoleList.{RoleList, role_list_served}
use idpforge.Pages.RoleDetail
use idpforge.Pages.RoleDetail.{RoleDetail, role_detail_served}
use idpforge.Pages.ApiClients
use idpforge.Pages.ApiClients.{ApiClients}
use idpforge.Pages.ApiClients.Rows
use idpforge.Pages.ApiClients.Served.{Named, AllNamed, api_clients_served}
use idpforge.Pages.Devices
use idpforge.Pages.Devices.{Devices}
use idpforge.Pages.Devices.Rows as DeviceRows
use idpforge.Pages.Devices.Served.{devices_served}
use idpforge.Pages.Account
use idpforge.Pages.Account.{Account}
use idpforge.Pages.Account.Served.{account_served}
use idpforge.Pages.Usage
use idpforge.Pages.Usage.{Usage}
use idpforge.Pages.Usage.Rows as UsageRows
use idpforge.Pages.Usage.Rows.{usage_served}
use idpforge.Pages.Dashboard
use idpforge.Pages.Dashboard.{Counts}
use idpforge.Pages.Settings
use idpforge.Pages.Settings.{Settings}

-- What the pages take from the browser: the formats of its locale, `Number`, the order of
-- `localeCompare`, the origin of the page, and whether it knows security keys.
pub record Browser : Type 0 where
  pub format_date : Str → Str
  pub format_date_time : Str → Str
  pub format_time : Str → Str
  pub to_number : Str → ℕ
  pub initial : Str → Str
  pub origin : Str
  pub clients_by_name : List (Str × List ApiClient) → List (Str × List ApiClient)
  pub devices_by_name : List (Str × List Device) → List (Str × List Device)
  pub supported : Bool

-- A page with its state; a detail page with the ID in its address, the account with its user.
pub data Page : Type 0 where
  user_list : UserList → Page
  user_detail : Str → UserDetail → Page
  role_list : RoleList → Page
  role_detail : Str → RoleDetail → Page
  api_clients : ApiClients → Page
  devices : Devices → Page
  account : User → Account → Page
  usage : Usage → Page
  dashboard : Counts → Option User → Page
  settings : Option Settings → Page

abbrev pub May : List Str → Str → Str → Type 0
May perms resource action = has_permission_ui perms resource action ≡ true

-- The permission that a page is for, and the IDs of what it shows.
abbrev pub Ready : List Str → Page → Type 0
Ready perms (user_list s) = May perms (codes "users") (codes "read")
Ready perms (user_detail id s) = (is_empty id ≡ false) × HasRowIds s
Ready perms (role_list s) =
    May perms (codes "rbac") (codes "manage") × All (λ (x : Role). is_empty x.id ≡ false) s.roles
Ready perms (role_detail id s) =
    May perms (codes "rbac") (codes "manage")
    × (is_empty id ≡ false)
    × All (λ (p : PermissionRecord). is_empty p.id ≡ false) s.granted
Ready perms (api_clients s) = May perms (codes "api_clients") (codes "manage") × All Named s.clients
Ready perms (devices s) =
    May perms (codes "iot") (codes "manage") × May perms (codes "iot") (codes "read")
Ready perms (account u s) = is_empty u.id ≡ false
Ready perms (usage s) = May perms (codes "metrics") (codes "read")
Ready perms (dashboard s u) = Unit
Ready perms (settings s) = Unit

-- The server serves the calls that every event that the page offers sends itself; the last two
-- pages offer no event.
abbrev pub OffersServed : Browser → Fiber → Gate → List Str → Page → Type 0
OffersServed b f g perms (user_list s) =
    AllOffered (λ e. AllServed f g (UserList.update e s).1) (UserList.view b.format_date perms s)
OffersServed b f g perms (user_detail id s) =
    AllOffered (λ e. AllServed f g (UserDetail.update id e s).1)
      (UserDetail.view b.format_date_time perms s)
OffersServed b f g perms (role_list s) =
    AllOffered (λ e. AllServed f g (RoleList.update e s).1) (RoleList.view s)
OffersServed b f g perms (role_detail id s) =
    AllOffered (λ e. AllServed f g (RoleDetail.update id e s).1) (RoleDetail.view s)
OffersServed b f g perms (api_clients s) =
    AllOffered (λ e. AllServed f g (ApiClients.update b.to_number e s).1)
      (Rows.view b.origin b.clients_by_name s)
OffersServed b f g perms (devices s) =
    AllOffered (λ e. AllServed f g (Devices.update e s).1)
      (DeviceRows.view b.format_date b.format_date_time b.devices_by_name perms s)
OffersServed b f g perms (account u s) =
    AllOffered (λ e. AllServed f g (Account.update u e s).1)
      (Account.view b.initial b.supported u s)
OffersServed b f g perms (usage s) =
    AllOffered (λ e. AllServed f g (Usage.update e s).1) (UsageRows.view b.format_time s)
OffersServed b f g perms (dashboard s u) = AllOffered (λ e. ⊥) (Dashboard.view s u)
OffersServed b f g perms (settings s) = AllOffered (λ e. ⊥) (Settings.view s)

-- The calls that follow an answer: those that load the page again, and on the account the one that
-- sends what the browser made. The page of a user asks for more than it is for.
abbrev pub AnswersServed : Browser → Fiber → Gate → List Str → Page → Type 0
AnswersServed b f g perms (user_list s) =
    (a : Reply User) → AllServed f g (UserList.update (UserList.created a) s).1
AnswersServed b f g perms (user_detail id s) =
    (ok_msg fail_msg : Str) (a : Reply (Unit {0}))
    → AllServed f g (UserDetail.update id (UserDetail.reported ok_msg fail_msg a) s).1 ↔ (
        Fails a
        ⊎ (May perms (codes "users") (codes "read") × May perms (codes "rbac") (codes "manage")))
AnswersServed b f g perms (role_list s) =
    (ok_msg fail_msg : Str) (a : Reply (Unit {0}))
    → AllServed f g (RoleList.update (RoleList.reported ok_msg fail_msg a) s).1
AnswersServed b f g perms (role_detail id s) =
    (ok_msg fail_msg : Str) (a : Reply (Unit {0}))
    → AllServed f g (RoleDetail.update id (RoleDetail.reported ok_msg fail_msg a) s).1
AnswersServed b f g perms (api_clients s) =
    ((a : Reply Str) → AllServed f g (ApiClients.update b.to_number (ApiClients.created a) s).1)
    × ((a : Reply (Unit {0}))
        → AllServed f g (ApiClients.update b.to_number (ApiClients.revoked a) s).1)
AnswersServed b f g perms (devices s) =
    (a : Reply Str) → AllServed f g (Devices.update (Devices.created a) s).1
AnswersServed b f g perms (account u s) =
    (key : Option Str) → AllServed f g (Account.update u (Account.key_made key) s).1
AnswersServed b f g perms (usage s) = Unit
AnswersServed b f g perms (dashboard s u) = Unit
AnswersServed b f g perms (settings s) = Unit

answers_served :
    (b : Browser) (f : Fiber) (g : Gate) (c : Locals) (r : Resolved) (p : Page)
    → SignedIn g c r
    → Ready (me_permissions (some r)) p
    → AnswersServed b f g (me_permissions (some r)) p
answers_served b f g c r (user_list s) signed h =
    λ a. AllPermitted-AllServed f g c r _ signed (AllPermitted-user_list _ a s h)
answers_served b f g c r (user_detail id s) signed (named, rows) =
    λ ok_msg fail_msg a. user_detail_again_iff f g c r id ok_msg fail_msg a s signed named
answers_served b f g c r (role_list s) signed (h, rows) = λ ok_msg fail_msg a.
    AllPermitted-AllServed f g c r _ signed (AllPermitted-role_list _ ok_msg fail_msg a s h)
answers_served b f g c r (role_detail id s) signed (h, named, rows) = λ ok_msg fail_msg a.
    AllPermitted-AllServed f g c r _ signed
      (AllPermitted-role_detail _ id ok_msg fail_msg a s named h)
answers_served b f g c r (api_clients s) signed (h, rows) = (
  λ a. AllPermitted-AllServed f g c r _ signed (AllPermitted-created_client _ b.to_number a s h),
  λ a. AllPermitted-AllServed f g c r _ signed (AllPermitted-revoked_client _ b.to_number a s h),
)
answers_served b f g c r (devices s) signed (manage, read) =
    λ a. AllPermitted-AllServed f g c r _ signed (AllPermitted-devices _ a s manage read)
answers_served b f g c r (account u s) signed h =
    λ key. AllPermitted-AllServed f g c r _ signed (AllPermitted-key_made _ u key s)
answers_served b f g c r (usage s) signed h = tt
answers_served b f g c r (dashboard s u) signed h = tt
answers_served b f g c r (settings s) signed h = tt

dashboard_offers_nothing : (s : Counts) (u : Option User) → AllOffered (λ e. ⊥) (Dashboard.view s u)
unfolding Dashboard.view
dashboard_offers_nothing s none = tt
dashboard_offers_nothing s (some u) = tt

settings_offer_nothing : (s : Option Settings) → AllOffered (λ e. ⊥) (Settings.view s)
unfolding Settings.view
settings_offer_nothing none = tt
settings_offer_nothing (some s) = tt

offers_served :
    (b : Browser) (f : Fiber) (g : Gate) (c : Locals) (r : Resolved) (p : Page)
    → SignedIn g c r
    → ((gs : List (Str × List ApiClient)) → All AllNamed gs → All AllNamed (b.clients_by_name gs))
    → Ready (me_permissions (some r)) p
    → OffersServed b f g (me_permissions (some r)) p
offers_served b f g c r (user_list s) signed sorts h =
    user_list_served b.format_date f g c r s signed h
offers_served b f g c r (user_detail id s) signed sorts (named, rows) =
    user_detail_served f g c r id b.format_date_time s signed named rows
offers_served b f g c r (role_list s) signed sorts (h, rows) =
    role_list_served f g c r s signed h rows
offers_served b f g c r (role_detail id s) signed sorts (h, named, rows) =
    role_detail_served f g c r id s signed h named rows
offers_served b f g c r (api_clients s) signed sorts (h, rows) =
    api_clients_served b.to_number b.origin b.clients_by_name sorts f g c r s signed h rows
offers_served b f g c r (devices s) signed sorts (manage, read) =
    devices_served f g c r b.format_date b.format_date_time b.devices_by_name s signed manage read
offers_served b f g c r (account u s) signed sorts h =
    account_served f g c r b.initial b.supported u s signed h
offers_served b f g c r (usage s) signed sorts h = usage_served f g c r b.format_time s signed h
offers_served b f g c r (dashboard s u) signed sorts h = dashboard_offers_nothing s u
offers_served b f g c r (settings s) signed sorts h = settings_offer_nothing s

-- On each of the ten pages of `Page`, in any state of it, for a signed-in user who has the
-- permission that `Ready` asks for the page: the server serves the calls that every event that the
-- page offers sends itself, and those that follow an answer, but on the page of a user. There it
-- serves those after a success exactly where the user may read the users and manage the roles. The
-- shown rows have IDs, and the sorting of the folders by name makes no row up. The dashboard and the
-- settings offer no event at all.
pub every_page_served :
    (b : Browser) (f : Fiber) (g : Gate) (c : Locals) (r : Resolved) (p : Page)
    → SignedIn g c r
    → ((gs : List (Str × List ApiClient)) → All AllNamed gs → All AllNamed (b.clients_by_name gs))
    → Ready (me_permissions (some r)) p
    → OffersServed b f g (me_permissions (some r)) p
      × AnswersServed b f g (me_permissions (some r)) p
every_page_served b f g c r p signed sorts ready =
    (offers_served b f g c r p signed sorts ready, answers_served b f g c r p signed ready)
