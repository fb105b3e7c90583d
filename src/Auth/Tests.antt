-- ===== src/Auth/Tests.antt =====
-- Logins, sessions and requests of one user.
use idpforge.Base.{◌≡◌, ◌↔◌, refl, inr, true, false, none, some, [], ◌∷◌, Str, codes, arith, str_eq}
use idpforge.Cache.{empty, get}
use idpforge.Users.{User, find, get_by_username, password_hash}
use idpforge.Auth.{Settings, Verifiers, LoginRequest, denied, World, handle_login, account_locked}
use idpforge.Auth.Outcome.{IsRight, Succeeds, login_iff}
use idpforge.Auth.Attempts.{AllWrong, run_attempts, lockout}

abbrev pub alice : User
alice = record {
  id = codes "u1";
  username = codes "alice";
  email = codes "a@x";
  employee_id = [];
  status = codes "active";
  mfa_enabled = false;
  source = codes "local";
  external_id = [];
  avatar_url = [];
  force_password_change = false;
  created_at = 0;
  updated_at = 0;
  last_login_at = none;
}

-- A hash is the password behind a sign.
abbrev pub verifiers : Verifiers
verifiers = record {
  captcha = λ token. some true;
  verify_password = λ hash password. str_eq hash (b'#' ∷ password);
  validate = λ now code secret. str_eq code secret;
}

abbrev pub cfg : Settings
cfg = record { max_attempts = 2; window = 100; duration = 50; password_expiry_days = 90 }

abbrev pub world : World
world = record {
  accounts =
      record {
        user = alice;
        password_hash = codes "#s3cret";
        password_changed_at = 0;
        mfa_secret = [];
      }
      ∷ [];
  cache = empty;
  log = [];
}

abbrev pub attempt : Str → LoginRequest
attempt password = record {
  username = codes "alice";
  password = password;
  mfa_code = [];
  captcha_token = [];
}

login_iff_example :
    Succeeds (handle_login verifiers cfg 1 (codes "sid") (attempt (codes "s3cret")) world).1
    ↔ ((user : User) × IsRight verifiers 1 (attempt (codes "s3cret")) world user)
login_iff_example = login_iff verifiers cfg 1 (codes "sid") (attempt (codes "s3cret")) world

pub is_right : IsRight verifiers 9 (attempt (codes "s3cret")) world alice
unfolding str_eq account_locked get get_by_username find password_hash
is_right = (refl, refl, refl, (codes "#s3cret", refl, refl, refl), refl)

two_wrong :
    AllWrong verifiers cfg
      (codes "alice")
      world
      1
      ((1, [], attempt (codes "a")) ∷ (2, [], attempt (codes "b")) ∷ [])
unfolding str_eq password_hash find
two_wrong = (refl, refl, refl, inr (omega arith), (refl, refl, refl, inr (omega arith), tt))

lockout_example :
    (handle_login verifiers cfg 40 (codes "sid") (attempt (codes "s3cret")) (
      run_attempts verifiers cfg
        ((1, [], attempt (codes "a")) ∷ (2, [], attempt (codes "b")) ∷ [])
        world)).1
    ≡ denied 429
lockout_example =
    lockout verifiers cfg (codes "alice") 1 40 [] (codes "sid") (attempt (codes "a"))
      (attempt (codes "s3cret")) ((2, [], attempt (codes "b")) ∷ []) world refl refl two_wrong refl
      (inr (omega arith)) refl

one_wrong : AllWrong verifiers cfg (codes "alice") world 1 ((1, [], attempt (codes "a")) ∷ [])
unfolding str_eq password_hash find
one_wrong = (refl, refl, refl, inr (omega arith), tt)
