-- ===== src/Users.antt =====
-- internal/users: the accounts, in the order of the table. The secret columns of a row stand beside
-- the `User` that is shown. A hash is made by bcrypt, which is a parameter, as are the times of the
-- calls and the IDs that `uuid.NewString` makes. A text that may be NULL is "" where it is.
pub mod Rows
use idpforge.Base.{
  ℕ, ◌-◌, Bool, true, false, not, ◌&&◌, ◌||◌, Option, none, some, List, [], ◌∷◌, ◌++◌, map, any,
  keep, if◌then◌else◌, Str, codes, str_eq, is_empty, take, drop,
}

pub record User : Type 0 where
  pub id : Str
  pub username : Str
  pub email : Str
  pub employee_id : Str
  pub status : Str
  pub mfa_enabled : Bool
  pub source : Str
  pub external_id : Str
  pub avatar_url : Str
  pub force_password_change : Bool
  pub created_at : ℕ
  pub updated_at : ℕ
  pub last_login_at : Option ℕ

pub record Account : Type 0 where
  pub user : User
  pub password_hash : Str
  pub password_changed_at : ℕ
  pub mfa_secret : Str

abbrev pub status_active : Str
status_active = codes "active"

abbrev pub status_disabled : Str
status_disabled = codes "disabled"

-- The first row that a query for one row selects.
unfoldable pub find : (Account → Bool) → List Account → Option Account
find p [] = none
find p (a ∷ rows) = if p a then some a else find p rows

abbrev pub user_of : Option Account → Option User
user_of none = none
user_of (some a) = some a.user

abbrev pub with_id : Str → Account → Bool
with_id id a = str_eq a.user.id id

abbrev pub with_username : Str → Account → Bool
with_username username a = str_eq a.user.username username

-- `Repository.Get`
unfoldable pub get_user : Str → List Account → Option User
get_user id rows = user_of (find (with_id id) rows)

-- `Repository.GetByUsername`
unfoldable pub get_by_username : Str → List Account → Option User
get_by_username username rows = user_of (find (with_username username) rows)

-- UPDATE of the row with an ID.
unfoldable pub update_row : (Account → Account) → Str → List Account → List Account
update_row f id = map (λ a. if with_id id a then f a else a)

abbrev pub hash_of : Option Account → Option Str
hash_of none = none
hash_of (some a) = some a.password_hash

-- `Repository.PasswordHash`; `none` is an error.
unfoldable pub password_hash : Str → List Account → Option Str
password_hash username rows = hash_of (find (with_username username) rows)

-- `Repository.PasswordAge`
unfoldable pub password_age : ℕ → Str → List Account → Option ℕ
password_age now id rows = elim (find (with_id id) rows) [
  | none ↦ none
  | some a ↦ some (now - a.password_changed_at)
]

abbrev pub with_password : Str → ℕ → Bool → Account → Account
with_password hash now forced a = record a {
  user = record (a.user) { force_password_change = forced };
  password_hash = hash;
  password_changed_at = now;
}

-- `Repository.SetPassword`, with the hash that bcrypt made of the new password.
unfoldable pub set_password : ℕ → Str → Str → List Account → List Account
set_password now hash id = update_row (with_password hash now false) id

-- `Repository.AssignDefaultPassword`, with the hash of the default password; `none` is ErrNotFound.
unfoldable pub assign_default_password : ℕ → Str → Str → List Account → Option (List Account)
assign_default_password now hash id rows =
    if any (with_id id) rows then some (update_row (with_password hash now true) id rows) else none

-- What the unique columns refuse; a NULL employee ID is never a duplicate.
abbrev pub clashes : Str → Str → Str → Str → Account → Bool
clashes id username email employee_id a =
    str_eq a.user.id id
    || str_eq a.user.username username
    || str_eq a.user.email email
    || (not (is_empty employee_id) && str_eq a.user.employee_id employee_id)

pub record CreateInput : Type 0 where
  pub username : Str
  pub email : Str
  pub employee_id : Str
  pub source : Str

abbrev pub new_account : ℕ → Str → Str → CreateInput → Account
new_account now id hash i = record {
  user = record {
    id = id;
    username = i.username;
    email = i.email;
    employee_id = i.employee_id;
    status = status_active;
    mfa_enabled = false;
    source = if is_empty i.source then codes "local" else i.source;
    external_id = [];
    avatar_url = [];
    force_password_change = true;
    created_at = now;
    updated_at = now;
    last_login_at = none;
  };
  password_hash = hash;
  password_changed_at = now;
  mfa_secret = [];
}

-- `Repository.Create`, with the hash of the password.
unfoldable pub create : ℕ → Str → Str → CreateInput → List Account → Option (List Account)
create now id hash i rows =
    if any (clashes id i.username i.email i.employee_id) rows
    then none
    else some (rows ++ new_account now id hash i ∷ [])

-- `Repository.TouchLastLogin`
unfoldable pub touch_last_login : ℕ → Str → List Account → List Account
touch_last_login now =
    update_row (λ a. record a { user = record (a.user) { last_login_at = some now } })

pub record UpdateInput : Type 0 where
  pub email : Option Str
  pub employee_id : Option Str
  pub status : Option Str

abbrev pub set_email : ℕ → Option Str → Account → Account
set_email now none a = a
set_email now (some e) a = record a { user = record (a.user) { email = e; updated_at = now } }

abbrev pub set_status : Option Str → Account → Account
set_status none a = a
set_status (some s) a = record a { user = record (a.user) { status = s } }

abbrev pub set_employee_id : ℕ → Option Str → Account → Account
set_employee_id now none a = a
set_employee_id now (some e) a = record a {
  user = record (a.user) { employee_id = e; updated_at = now };
}

-- The rows of the other accounts hold the new value of a unique column.
abbrev pub taken : (Account → Bool) → Str → List Account → Bool
taken p id = any (λ a. not (with_id id a) && p a)

-- One UPDATE of a column that is unique; `none` is an error of the database.
abbrev pub update_unique :
    (Account → Bool) → (Account → Account) → Str → List Account → Option (List Account)
update_unique p f id rows =
    if any (with_id id) rows && taken p id rows then none else some (update_row f id rows)

abbrev pub update_email : ℕ → Str → Option Str → List Account → Option (List Account)
update_email now id none rows = some rows
update_email now id (some e) rows =
    update_unique (λ a. str_eq a.user.email e) (set_email now (some e)) id rows

abbrev pub update_employee_id : ℕ → Str → Option Str → List Account → Option (List Account)
update_employee_id now id none rows = some rows
update_employee_id now id (some e) rows =
    update_unique (λ a. not (is_empty e) && str_eq a.user.employee_id e)
      (set_employee_id now (some e)) id rows

-- `Repository.Update`: the rows after it, and the user or an error. Each column is written by a
-- statement of its own, so an error leaves the statements before it.
unfoldable pub update : ℕ → Str → UpdateInput → List Account → List Account × Option User
update now id i rows = elim (update_email now id i.email rows) [
  | none ↦ (rows, none)
  | some rows_1 ↦
      let rows_2 = update_row (set_status i.status) id rows_1 in
      elim (update_employee_id now id i.employee_id rows_2) [
        | none ↦ (rows_2, none)
        | some rows_3 ↦ (rows_3, get_user id rows_3)
      ]
]
