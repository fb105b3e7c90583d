-- ===== src/Accounts/Offboard.antt =====
-- internal/httpserver/users_handlers.go: what an offboarded user still reaches.
use idpforge.Base.{
  ℕ, ◌≡◌, refl, ap, ◌∙◌, false, some, List, [], ◌∷◌, Str, arith, Bool-cases, inl, inr, is_empty,
  str_eq, Option-cases, is_some,
}
use idpforge.Cache.{Cache, get}
use idpforge.Cache.Laws.{get-delete}
use idpforge.Rbac.Admin.{invalidate, cache_key}
use idpforge.Users.{
  User, Account, find, with_id, with_username, update_row, update, set_status, get_by_username,
  password_hash, status_disabled,
}
use idpforge.Users.Rows.{find-update_row, user_of_inv}
use idpforge.Auth.{
  Settings, Verifiers, LoginRequest, World, account_locked, handle_login, verify_mfa, secret_for,
  get_session, get_full, session_key, as_session, user_id_of, lock_key,
}
use idpforge.Auth.Outcome.{IsRight, Succeeds, login_iff}
use idpforge.Router.Serve.{accepted}
use idpforge.Clients.{Library, Row, authenticate_any}
use idpforge.Clients.Sessions.{as_user, authenticate-get_session}
use idpforge.Accounts.{handle_offboard_user, disabling}

get-invalidate_session :
    (t : ℕ) (id sid : Str) (c : Cache)
    → get t (session_key sid) (invalidate id c) ≡ get t (session_key sid) c
unfolding invalidate str_eq
get-invalidate_session t id sid c = get-delete t (cache_key id ∷ []) (session_key sid) c

get-invalidate_lock :
    (t : ℕ) (id n : Str) (c : Cache) → get t (lock_key n) (invalidate id c) ≡ get t (lock_key n) c
unfolding invalidate str_eq
get-invalidate_lock t id n c = get-delete t (cache_key id ∷ []) (lock_key n) c

offboard_cache :
    (now : ℕ) (actor id : Str) (w : World)
    → (key : Str) → ((c : Cache) (t : ℕ) → get t key (invalidate id c) ≡ get t key c)
    → (t : ℕ) → get t key (handle_offboard_user now actor id w).0.cache ≡ get t key w.cache
unfolding handle_offboard_user
offboard_cache now actor id w key h t = elim (Option-cases (update now id disabling w.accounts).1) [
  | inl e ↦ rw (handle_offboard_user, e)
  | inr (user, e) ↦ rw (handle_offboard_user, e) (h w.cache t)
]

offboard_accounts :
    (now : ℕ) (actor id : Str) (w : World)
    → (handle_offboard_user now actor id w).0.accounts
      ≡ update_row (set_status (some status_disabled)) id w.accounts
unfolding handle_offboard_user update
offboard_accounts now actor id w = ground arith

get_session-offboard :
    (now t : ℕ) (actor id sid : Str) (w : World)
    → get_session t sid (handle_offboard_user now actor id w).0.cache ≡ get_session t sid w.cache
unfolding get_session get_full
get_session-offboard now t actor id sid w =
    ap (λ o. user_id_of (as_session o))
      (offboard_cache now actor id w (session_key sid) (λ c u. get-invalidate_session u id sid c) t)

-- Offboarding leaves every session: a request with the cookie of a session of the offboarded user
-- is still a request of that user.
pub offboard_keeps_session :
    (l : Library) (now t : ℕ) (actor id sid key ip : Str) (rows : List Row) (w : World)
    → is_empty sid ≡ false
    → get_session t sid w.cache ≡ some id
    → (authenticate_any l t sid key ip rows (handle_offboard_user now actor id w).0.cache).1
      ≡ accepted (as_user id)
offboard_keeps_session l now t actor id sid key ip rows w e s =
    ap (λ q. q.1)
      (authenticate-get_session l t sid key ip id rows (handle_offboard_user now actor id w).0.cache
        e (get_session-offboard now t actor id sid w ∙ s))

abbrev disabled : Account → Account
disabled = set_status (some status_disabled)

secret_for-disabled :
    (user_id id : Str) (rows : List Account)
    → secret_for user_id (update_row disabled id rows) ≡ secret_for user_id rows
unfolding secret_for
secret_for-disabled user_id id rows =
    let step = find-update_row (with_id user_id) disabled id rows (λ a. refl) in
    elim (Option-cases (find (with_id user_id) rows)) [
      | inl missed ↦ rw (secret_for, step, missed)
      | inr (a, found) ↦ elim (Bool-cases (with_id id a)) [
        | inl e ↦ rw (secret_for, step, found, e)
        | inr e ↦ rw (secret_for, step, found, e)
      ]
    ]

password_hash-disabled :
    (n id : Str) (rows : List Account)
    → password_hash n (update_row disabled id rows) ≡ password_hash n rows
unfolding password_hash
password_hash-disabled n id rows =
    let step = find-update_row (with_username n) disabled id rows (λ a. refl) in
    elim (Option-cases (find (with_username n) rows)) [
      | inl missed ↦ rw (step, missed)
      | inr (a, found) ↦ elim (Bool-cases (with_id id a)) [
        | inl e ↦ rw (step, found, e)
        | inr e ↦ rw (step, found, e)
      ]
    ]

-- The user who is found by name, with the same ID and the same use of a second factor.
user-disabled :
    (n id : Str) (user : User) (rows : List Account)
    → get_by_username n rows ≡ some user
    → (u : User) × (get_by_username n (update_row disabled id rows) ≡ some u)
      × (u.id ≡ user.id)
      × (u.mfa_enabled ≡ user.mfa_enabled)
unfolding get_by_username
user-disabled n id user rows g =
    let (a, found, same) = user_of_inv (find (with_username n) rows) user g in
    let step = find-update_row (with_username n) disabled id rows (λ b. refl) in
    elim (Bool-cases (with_id id a)) [
      | inl e ↦ (
        (disabled a).user,
        rw (step, found, e) refl,
        ap (λ (x : User). x.id) same,
        ap (λ (x : User). x.mfa_enabled) same,
      )
      | inr e ↦ (
        a.user,
        rw (step, found, e) refl,
        ap (λ (x : User). x.id) same,
        ap (λ (x : User). x.mfa_enabled) same,
      )
    ]

-- Offboarding keeps nobody from logging in: an attempt that was right before it is right after it,
-- for the offboarded user as for every other.
pub offboard_keeps_login :
    (v : Verifiers) (cfg : Settings) (now t : ℕ) (actor id sid : Str) (req : LoginRequest)
    (w : World) (user : User)
    → IsRight v t req w user
    → Succeeds (handle_login v cfg t sid req (handle_offboard_user now actor id w).0).1
unfolding account_locked verify_mfa
offboard_keeps_login v cfg now t actor id sid req w user (l, c, g, (hash, p, e, k), m) =
    let after : World = (handle_offboard_user now actor id w).0 in
    let accounts = offboard_accounts now actor id w in
    let (u, named, its_id, factor) = user-disabled req.username id user w.accounts g in
    (login_iff v cfg t sid req after).1 (
      u,
      (
        ap is_some (
              offboard_cache now actor id w (lock_key req.username)
                (λ b s. get-invalidate_lock s id req.username b) t)
            ∙ l,
        c,
        rw accounts named,
        (hash, rw accounts (password_hash-disabled req.username id w.accounts ∙ p), e, k),
        rw (accounts, factor, its_id, verify_mfa, secret_for-disabled user.id id w.accounts) m,
      ),
    )
