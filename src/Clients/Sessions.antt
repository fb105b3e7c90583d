-- ===== src/Clients/Sessions.antt =====
-- internal/httpserver: who a request is from, after a login and after a logout.
use idpforge.Base.{
  ℕ, ◌+◌, ◌≤◌, ◌≡◌, ◌≢◌, refl, sym, ap, ◌∙◌, Bool, true, false, ◌&&◌, ◌||◌, Option, none, some,
  List, [], ◌∷◌, if◌then◌else◌, ltb, Str, is_empty, arith, str_eq, str_eq_refl, Bool-cases, inl,
  inr, str_eq_iff,
}
use idpforge.Permission.{Locals}
use idpforge.Cache.{Cache, Value, session, get, set}
use idpforge.Cache.Laws.{get-set, get-delete}
use idpforge.Users.{User}
use idpforge.Auth.{
  Settings, Verifiers, LoginRequest, World, session_key, session_ttl, create_session, as_session,
  get_full, get_session, user_id_of, destroy, handle_login, finish_login, handle_logout,
}
use idpforge.Auth.Outcome.{IsRight, login_of_right}
use idpforge.Router.Serve.{accepted}
use idpforge.Clients.{Library, Row, authenticate_any}

abbrev pub as_user : Str → Locals
as_user user_id = record { user_id = user_id; api_client = none }

-- A session until its time to live has passed.
pub get_session-create_session :
    (now t : ℕ) (id user_id : Str) (must : Bool) (c : Cache)
    → t ≤ now + session_ttl
    → get_session t id (create_session now id user_id must c) ≡ some user_id
unfolding get_session get_full create_session
get_session-create_session now t id user_id must c h = ap (λ o. user_id_of (as_session o)) stored
  where
    data_of : Value
    data_of = session (record { user_id = user_id; must_change_password = must })

    live :
        (if ltb 0 session_ttl && ltb (now + session_ttl) t then none else some data_of)
        ≡ some data_of
    live = ground arith

    stored : get t (session_key id) (set now (session_key id) data_of session_ttl c) ≡ some data_of
    stored =
        get-set now t (session_key id) (session_key id) data_of session_ttl c
        ∙ rw (str_eq_refl (session_key id)) live

pub authenticate-get_session :
    (l : Library) (now : ℕ) (cookie key ip user_id : Str) (rows : List Row) (c : Cache)
    → is_empty cookie ≡ false
    → get_session now cookie c ≡ some user_id
    → authenticate_any l now cookie key ip rows c ≡ (c, accepted (as_user user_id))
unfolding authenticate_any
authenticate-get_session l now cookie key ip user_id rows c e s = ground arith

-- The cookie of a login that was right makes the request one of the user's, until the session has
-- run out, whatever key it carries beside the cookie.
pub login_gives_session :
    (v : Verifiers) (cfg : Settings) (l : Library) (now t : ℕ) (sid key ip : Str)
    (req : LoginRequest) (w : World) (user : User) (rows : List Row)
    → IsRight v now req w user
    → is_empty sid ≡ false
    → t ≤ now + session_ttl
    → (authenticate_any l t sid key ip rows (handle_login v cfg now sid req w).0.cache).1
      ≡ accepted (as_user user.id)
unfolding finish_login
login_gives_session v cfg l now t sid key ip req w user rows r e h =
    rw (login_of_right v cfg now sid req w user r) (
      ap (λ q. q.1)
        (authenticate-get_session l t sid key ip user.id rows _ e
          (get_session-create_session now t sid user.id _ _ h)))

get_session-destroy :
    (t : ℕ) (id j : Str) (c : Cache)
    → get_session t j (destroy id c)
      ≡ (if str_eq (session_key id) (session_key j) then none else get_session t j c)
unfolding get_session get_full destroy
get_session-destroy t id j c =
    ap (λ o. user_id_of (as_session o)) (get-delete t (session_key id ∷ []) (session_key j) c)
    ∙ pick (str_eq (session_key id) (session_key j)) (get t (session_key j) c)
  where
    pick :
        (b : Bool) (o : Option Value)
        → user_id_of (as_session (if b || false then none else o))
          ≡ (if b then none else user_id_of (as_session o))
    pick true o = refl
    pick false o = refl

-- After a logout its cookie is nobody's, at any time, and the sessions of other cookies are as they
-- were.
pub logout_ends_session :
    (t : ℕ) (sid j : Str) (w : World)
    → is_empty sid ≡ false
    → j ≢ sid
    → (get_session t sid (handle_logout sid w).cache ≡ none)
      × (get_session t j (handle_logout sid w).cache ≡ get_session t j w.cache)
unfolding handle_logout
logout_ends_session t sid j w e n = rw e (
  get_session-destroy t sid sid w.cache ∙ rw (str_eq_refl (session_key sid)) refl,
  get_session-destroy t sid j w.cache ∙ rw other refl,
)
  where
    same_id : session_key sid ≡ session_key j → sid ≡ j
    same_id h = cc

    other : str_eq (session_key sid) (session_key j) ≡ false
    other = elim (Bool-cases (str_eq (session_key sid) (session_key j))) [
      | inl s ↦ absurd (n (sym (same_id ((str_eq_iff _ _).0 s))))
      | inr s ↦ s
    ]
