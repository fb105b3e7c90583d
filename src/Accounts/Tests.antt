-- ===== src/Accounts/Tests.antt =====
-- An account that is changed, reset and offboarded.
use idpforge.Base.{
  ◌≡◌, refl, true, false, Option, none, some, [], ◌∷◌, Str, codes, arith, leb, ◌&&◌, str_eq,
  str_eq_refl, inr,
}
use idpforge.Users.{
  User, Account, with_password, update_row, set_status, find, get_by_username, get_user,
  password_hash, assign_default_password, touch_last_login,
}
use idpforge.Auth.{
  World, logged_in, handle_login, get_session, create_session, account_locked, get_full,
  finish_login, login_user,
}
use idpforge.Auth.Outcome.{IsRight}
use idpforge.Auth.Tests.{verifiers, cfg, world, attempt, alice}
use idpforge.Router.Serve.{accepted}
use idpforge.Clients.{authenticate_any}
use idpforge.Clients.Sessions.{as_user}
use idpforge.Clients.Tests.{library}
use idpforge.Accounts.{
  Classes, PasswordPolicy, validate_password, byte_length, handle_change_password,
  handle_reset_user_password, handle_offboard_user, handle_update_user, done, failed, flag, flags,
}
use idpforge.Accounts.Passwords.{Found, reset_forces_change, change_then_login}
use idpforge.Accounts.Offboard.{offboard_keeps_session}
use idpforge.Accounts.Partial.{status_and_employee_id, update_half_done}
use idpforge.Cache.{get, set}
use idpforge.Permission.{Resolved}
use idpforge.Accounts.Me.{handle_me, use_me, replaces, change_password_path, held_until_change}

abbrev ascii : Classes
ascii = record {
  is_upper = λ c. leb b'A' c && leb c b'Z';
  is_lower = λ c. leb b'a' c && leb c b'z';
  is_number = λ c. leb b'0' c && leb c b'9';
}

abbrev policy : PasswordPolicy
policy = record {
  min_length = 6;
  require_uppercase = false;
  require_lowercase = true;
  require_number = true;
  require_special = false;
}

abbrev hash : Str → Option Str
hash password = some (b'#' ∷ password)

found : Found (codes "u1") alice world.accounts
unfolding str_eq get_user find get_by_username
found = (refl, refl)

fits : (password : Str) → str_eq (b'#' ∷ password) (b'#' ∷ password) ≡ true
fits password = str_eq_refl (b'#' ∷ password)

not_locked : account_locked 20 (codes "alice") world.cache ≡ false
unfolding account_locked get
not_locked = refl

changed :
    (handle_change_password ascii policy verifiers hash 10
      (codes "c")
      (codes "u1")
      (codes "s3cret")
      (codes "pass99")
      world).1
    ≡ done
unfolding handle_change_password validate_password byte_length flags flag get_user find str_eq
    password_hash
changed = refl

change_then_login_example :
    (validate_password ascii (codes "pass99") policy ≡ none)
    × ((handle_login verifiers cfg 20
          (codes "sid")
          (attempt (codes "pass99"))
          (handle_change_password ascii policy verifiers hash 10
            (codes "c")
            (codes "u1")
            (codes "s3cret")
            (codes "pass99")
            world).0).1
        ≡ logged_in (codes "sid") (codes "u1") false false)
change_then_login_example =
    change_then_login ascii policy verifiers cfg hash 10 20 (codes "c") (codes "u1")
      (codes "s3cret") (codes "sid") alice (attempt (codes "pass99")) world changed
      (λ h e. ground (arith, fits (codes "pass99"))) found refl not_locked refl refl
      (inr (omega arith))

abbrev signed_in : World
signed_in = record world { cache = create_session 9 (codes "sid") (codes "u1") false world.cache }

has_session : get_session 20 (codes "sid") signed_in.cache ≡ some (codes "u1")
unfolding get_session get_full get create_session set str_eq
has_session = refl

offboard_keeps_session_example :
    (authenticate_any library 20
      (codes "sid")
      []
      []
      []
      (handle_offboard_user 10 (codes "admin") (codes "u1") signed_in).0.cache).1
    ≡ accepted (as_user (codes "u1"))
offboard_keeps_session_example =
    offboard_keeps_session library 10 20 (codes "admin") (codes "u1") (codes "sid") [] [] []
      signed_in refl has_session

abbrev bob : Account
bob = record {
  user = record alice {
    id = codes "u2";
    username = codes "bob";
    email = codes "b@x";
    employee_id = codes "e2";
  };
  password_hash = [];
  password_changed_at = 0;
  mfa_secret = [];
}

abbrev two : World
two = record world { accounts = bob ∷ world.accounts }

update_half_done_example :
    ((handle_update_user 10
        (codes "admin")
        (codes "u1")
        (status_and_employee_id (codes "suspended") (codes "e2"))
        two).1
      ≡ failed 404)
    × ((handle_update_user 10
          (codes "admin")
          (codes "u1")
          (status_and_employee_id (codes "suspended") (codes "e2"))
          two).0.accounts
        ≡ update_row (set_status (some (codes "suspended"))) (codes "u1") two.accounts)
    × ((handle_update_user 10
          (codes "admin")
          (codes "u1")
          (status_and_employee_id (codes "suspended") (codes "e2"))
          two).0.log
        ≡ two.log)
unfolding str_eq
update_half_done_example =
    update_half_done 10 (codes "admin") (codes "u1") (codes "suspended") (codes "e2") two refl refl

-- The account that an administrator has given a password.
abbrev after_reset : World
after_reset =
    (handle_reset_user_password hash (codes "welcome") 8 (codes "admin") (codes "u1") world).0

abbrev alice_reset : Account
alice_reset = with_password (codes "#welcome") 8 true (record {
  user = alice;
  password_hash = codes "#s3cret";
  password_changed_at = 0;
  mfa_secret = [];
})

abbrev nobody : Str → Option Resolved
nobody user_id = none

reset-IsRight : IsRight verifiers 9 (attempt (codes "welcome")) after_reset alice_reset.user
unfolding account_locked get handle_reset_user_password assign_default_password str_eq get_user find
    update_row get_by_username password_hash
reset-IsRight = (refl, refl, refl, (codes "#welcome", refl, refl, refl), refl)

told_to_change :
    (handle_login verifiers cfg 9 (codes "sid") (attempt (codes "welcome")) after_reset).1
    ≡ logged_in (codes "sid") (codes "u1") false true
unfolding account_locked get
told_to_change =
    reset_forces_change verifiers cfg hash 8 9 (codes "admin") (codes "u1") (codes "#welcome")
      (codes "sid") alice (attempt (codes "welcome")) world found refl refl refl
      (fits (codes "welcome")) refl refl refl refl

abbrev seen : User
seen = record alice_reset.user { last_login_at = some 9; updated_at = 0 }

still_found :
    get_user
      (codes "u1")
      (handle_login verifiers cfg 9
        (codes "sid")
        (attempt (codes "welcome"))
        after_reset).0.accounts
    ≡ some seen
unfolding get_user find handle_login account_locked get handle_reset_user_password
    assign_default_password str_eq update_row password_hash login_user get_by_username finish_login
    touch_last_login
still_found = refl

held_until_change_example :
    use_me (codes "/users") (
      handle_me nobody 20
        (codes "sid")
        (handle_login verifiers cfg 9 (codes "sid") (attempt (codes "welcome")) after_reset).0)
    ≡ replaces change_password_path
unfolding str_eq
held_until_change_example =
    held_until_change verifiers cfg nobody 9 20 (codes "sid") (codes "/users")
      (attempt (codes "welcome")) after_reset alice_reset.user seen false reset-IsRight
      told_to_change still_found (omega arith) refl
