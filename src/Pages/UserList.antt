-- ===== src/Pages/UserList.antt =====
-- web/app/(app)/users/page.tsx: the list of the users, with the form that adds one.
use idpforge.Base.{
  ℕ, ◌≡◌, Bool, true, false, not, ◌&&◌, Option, none, some, List, [], ◌∷◌, ◌++◌, Str, codes,
  is_empty, if◌then◌else◌, length, ◌==◌, str_eq, All-of,
}
use idpforge.Permission.{Locals, Resolved, has_permission_ui}
use idpforge.Router.Fiber.{Fiber}
use idpforge.Router.Serve.{Gate}
use idpforge.Console.{users_list, users_create}
use idpforge.Console.Nav.{me_permissions}
use idpforge.Console.Response.{Reply, value, undefined, api_error, broken}
use idpforge.Pages.{page_size, pagination, on_prev, on_next}
use idpforge.Pages.Data.{User}
use idpforge.Pages.View.{
  Shown, good, danger, title, text, badge, link, input, button, when, each, page_footer, ◌&◌,
  AllOffered, AllOffered-sections, sections, AllOffered-each, AllOffered-when, AllOffered-map,
  AllOffered-page_footer,
}
use idpforge.Pages.Report.{
  Flash, show_flash, Task, load, send, AllPermitted, AllServed, AllPermitted-AllServed,
  AllOffered-show_flash, SignedIn,
}

pub record UserList : Type 0 where
  pub users : List User
  pub offset : ℕ
  pub username : Str
  pub email : Str
  pub employee_id : Str
  pub flash : Option Flash

pub data Event : Type 0 where
  set_username set_email set_employee_id : Str → Event
  submits previous next : Event
  loaded : List User → Event
  created : Reply User → Event

abbrev pub opened : UserList × List Task
opened = (
  record { users = []; offset = 0; username = []; email = []; employee_id = []; flash = none },
  load (users_list page_size 0) ∷ [],
)

-- `setOffset`, with the effect that loads the page where the offset has changed.
unfoldable pub move_to : ℕ → UserList → UserList × List Task
move_to o s =
    (record s { offset = o }, if o == s.offset then [] else load (users_list page_size o) ∷ [])

-- `s || undefined`
abbrev pub or_none : Str → Option Str
or_none s = if is_empty s then none else some s

abbrev pub created_msg : Str
created_msg =
    codes "User created with the default password; they'll be asked to change it on first login."

abbrev pub create_failed : Str
create_failed = codes "Could not create user"

-- `handleCreate` after a success: a user that was created is looked for on the first page.
unfoldable pub after_create : UserList → UserList × List Task
unfolding move_to
after_create s =
    let (moved, tasks) = move_to 0 (record s {
      flash = some (record { msg = created_msg; is_ok = true });
      username = [];
      email = [];
      employee_id = [];
    }) in
    (moved, load (users_list page_size 0) ∷ tasks)

-- `handleCreate` from its answer on.
unfoldable pub finish_create : Reply User → UserList → UserList × List Task
unfolding after_create
finish_create (value u) s = after_create s
finish_create undefined s = after_create s
finish_create (api_error status message) s =
    (record s { flash = some (record { msg = message; is_ok = false }) }, [])
finish_create broken s =
    (record s { flash = some (record { msg = create_failed; is_ok = false }) }, [])

unfoldable pub update : Event → UserList → UserList × List Task
update (set_username t) s = (record s { username = t }, [])
update (set_email t) s = (record s { email = t }, [])
update (set_employee_id t) s = (record s { employee_id = t }, [])
update submits s = (
  s,
  send (users_create s.username s.email (or_none s.employee_id)) created_msg create_failed ∷ [],
)
update previous s = move_to (on_prev s.offset) s
update next s = move_to (on_next s.offset) s
update (loaded us) s = (record s { users = us }, [])
update (created r) s = finish_create r s

module _ (format_date : Str → Str) where
  abbrev pub row : User → List (Shown Event)
  row u =
      link (codes "/users/detail?id=" ++ u.id) u.username
      ∷ Shown.value u.employee_id
      ∷ Shown.value u.email
      ∷ badge (if str_eq u.status (codes "active") then good else danger) u.status
      ∷ text (if u.mfa_enabled then "yes" else "no")
      ∷ Shown.value (format_date u.created_at)
      ∷ link (codes "/users/detail?id=" ++ u.id) (codes "Manage")
      ∷ []

  abbrev pub form : UserList → List (Shown Event)
  form s =
      title "Add user"
      ∷ text "Username"
      ∷ input s.username set_username
      ∷ text "Email"
      ∷ input s.email set_email
      ∷ text "Employee ID (optional)"
      ∷ input s.employee_id set_employee_id
      ∷ text
          "New accounts start with the organization's default password (set in Settings) and must change it on first login."
      ∷ button (not (is_empty s.username) && not (is_empty s.email)) "Create" submits
      ∷ []

  abbrev pub parts : List Str → UserList → List (List (Shown Event))
  parts permissions s =
      (title "Users" ∷ [])
      ∷ show_flash s.flash
      ∷ when (has_permission_ui permissions (codes "users") (codes "manage")) (form s)
      ∷ (text "Username"
          ∷ text "Employee ID"
          ∷ text "Email"
          ∷ text "Status"
          ∷ text "MFA"
          ∷ text "Created"
          ∷ each row s.users)
      ∷ page_footer (pagination s.offset page_size (length s.users)) previous next
      ∷ []

  unfoldable pub view : List Str → UserList → List (Shown Event)
  view permissions s = sections (parts permissions s)

  move_to-permitted :
      (permissions : List Str) (o : ℕ) (s : UserList)
      → has_permission_ui permissions (codes "users") (codes "read") ≡ true
      → AllPermitted permissions (move_to o s).1
  unfolding move_to
  move_to-permitted permissions o s h = same (o == s.offset)
    where
      same :
          (b : Bool)
          → AllPermitted permissions (if b then [] else load (users_list page_size o) ∷ [])
      same true = tt
      same false = (((h, tt), tt), tt)

  offers_permitted :
      (permissions : List Str) (s : UserList)
      → has_permission_ui permissions (codes "users") (codes "read") ≡ true
      → AllOffered (λ e. AllPermitted permissions (update e s).1) (view permissions s)
  unfolding view update
  offers_permitted permissions s may_read =
      let P = λ (e : Event). AllPermitted permissions (update e s).1 in
      AllOffered-sections P (parts permissions s) (
        tt
        & AllOffered-show_flash P s.flash
        & AllOffered-when P (has_permission_ui permissions (codes "users") (codes "manage"))
            (form s)
            (λ may. (λ t. tt) & (λ t. tt) & (λ t. tt) & (λ on. ((may & tt) & tt) & tt) & tt)
        & AllOffered-each P row s.users (All-of (λ u. tt) s.users)
        & AllOffered-page_footer P (pagination s.offset page_size (length s.users)) previous next
            (move_to-permitted permissions (on_prev s.offset) s may_read)
            (move_to-permitted permissions (on_next s.offset) s may_read)
        & tt)

  -- Whatever a user who is shown the page does on it, the server serves every call that it sends.
  pub user_list_served :
      (f : Fiber) (g : Gate) (c : Locals) (r : Resolved) (s : UserList)
      → SignedIn g c r
      → has_permission_ui (me_permissions (some r)) (codes "users") (codes "read") ≡ true
      → AllOffered (λ e. AllServed f g (update e s).1) (view (me_permissions (some r)) s)
  user_list_served f g c r s signed may_read =
      AllOffered-map _ _ (view (me_permissions (some r)) s)
        (λ e h. AllPermitted-AllServed f g c r (update e s).1 signed h)
        (offers_permitted (me_permissions (some r)) s may_read)
