-- ===== src/Clients/Tests.antt =====
-- A client with its key, and the sessions of a user.
use idpforge.Base.{ℕ, ◌≡◌, ◌≢◌, refl, true, List, [], ◌∷◌, codes, arith, min, length, str_eq}
use idpforge.Permission.{Client}
use idpforge.Cache.{empty}
use idpforge.Auth.{handle_login}
use idpforge.Auth.Tests.{verifiers, cfg, world, attempt, is_right, alice}
use idpforge.Router.Serve.{accepted}
use idpforge.Clients.{Library, Row, authenticate_any}
use idpforge.Clients.RateLimit.{admitted, admitted-min}
use idpforge.Clients.Sessions.{as_user, login_gives_session}

abbrev pub library : Library
library = record {
  hash_key = λ k. k;
  is_ip = λ ip. true;
  in_range = λ range ip. str_eq range (codes "10.0.0.0/8");
}

abbrev pub robot : Client
robot = record {
  id = codes "c1";
  name = codes "robot";
  folder = [];
  allowed_fields = [];
  scopes = [];
  allowed_ips = codes "10.0.0.0/8" ∷ [];
  rate_limit_max = 2;
  rate_limit_window_seconds = 60;
  enabled = true;
}

abbrev pub rows : List Row
rows = record { client = robot; api_key_hash = codes "apik_1" } ∷ []

admitted-min_example :
    admitted robot (5 ∷ 6 ∷ 7 ∷ []) empty ≡ min (length {A = ℕ} (5 ∷ 6 ∷ 7 ∷ [])) 2
admitted-min_example =
    admitted-min robot 5 (6 ∷ 7 ∷ []) empty (omega arith) refl
      (omega arith, refl, (omega arith, refl, tt))

login_gives_session_example :
    (authenticate_any library 20
      (codes "sid")
      []
      []
      rows
      (handle_login verifiers cfg 9 (codes "sid") (attempt (codes "s3cret")) world).0.cache).1
    ≡ accepted (as_user (codes "u1"))
login_gives_session_example =
    login_gives_session verifiers cfg library 9 20 (codes "sid") [] [] (attempt (codes "s3cret"))
      world alice rows is_right refl (omega arith)

another : codes "other" ≢ codes "sid"
another = ground arith
