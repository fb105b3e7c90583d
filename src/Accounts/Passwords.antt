-- ===== src/Accounts/Passwords.antt =====
-- internal/httpserver: the login after a password has been changed or reset.
use idpforge.Base.{
  ℕ, ◌+◌, ◌*◌, ◌≤◌, ◌≡◌, refl, sym, ap, ◌∙◌, Bool, true, false, not, ◌&&◌, ◌||◌, Option, none, some,
  List, [], ◌∷◌, Str, any, arith, Bool-cases, ◌⊎◌, inl, inr, is_empty, str_eq, str_eq_iff,
  Option-cases, is_some,
}
use idpforge.Cache.{Cache}
use idpforge.Cache.Laws.{get-set}
use idpforge.Users.{
  User, Account, find, with_id, with_username, update_row, get_user, get_by_username, password_hash,
  with_password, set_password, assign_default_password, password_age,
}
use idpforge.Users.Rows.{find-update_row, find_sound, user_of_inv}
use idpforge.Auth.{
  Settings, Verifiers, LoginRequest, logged_in, World, account_locked, captcha_passes, handle_login,
  finish_login, verify_mfa, secret_for, password_change_required, password_expired, hour, lock_key,
  session_key, clear_must_change_password, create_session,
}
use idpforge.Auth.Outcome.{IsRight, login_of_right}
use idpforge.Accounts.{
  Classes, PasswordPolicy, validate_password, handle_change_password, handle_reset_user_password,
  done,
}

-- The account is found by its ID and by its name, as it is where both are unique.
abbrev pub Found : Str → User → List Account → Type 0
Found id user rows =
    (get_user id rows ≡ some user) × (get_by_username user.username rows ≡ some user)

Found-row :
    (id : Str) (user : User) (rows : List Account)
    → Found id user rows
    → (b : Account) × (find (with_username user.username) rows ≡ some b)
      × (b.user ≡ user)
      × (with_id id b ≡ true)
unfolding get_user get_by_username
Found-row id user rows (g, n) =
    let (a, found, same) = user_of_inv (find (with_id id) rows) user g in
    let (b, named, also) = user_of_inv (find (with_username user.username) rows) user n in
    (b, named, also, rw (also ∙ sym same) (find_sound (with_id id) rows a found))

-- What is found by name after a password has been set.
after_password :
    (now : ℕ) (h id : Str) (forced : Bool) (user : User) (rows : List Account)
    → Found id user rows
    → let after = update_row (with_password h now forced) id rows in
      (password_hash user.username after ≡ some h)
      × (get_by_username user.username after
          ≡ some (record user { force_password_change = forced }))
unfolding password_hash get_by_username
after_password now h id forced user rows found =
    let (b, named, same, here) = Found-row id user rows found in
    let step =
      find-update_row (with_username user.username) (with_password h now forced) id rows
        (λ a. refl) in
    rw (step, named, here)
      (refl, ap (λ (x : User). some (record x { force_password_change = forced })) same)

-- The second factor is as it was.
secret_for-password :
    (now : ℕ) (h id : Str) (forced : Bool) (user_id : Str) (rows : List Account)
    → secret_for user_id (update_row (with_password h now forced) id rows) ≡ secret_for user_id rows
unfolding secret_for
secret_for-password now h id forced user_id rows =
    let step = find-update_row (with_id user_id) (with_password h now forced) id rows (λ a. refl) in
    elim (Option-cases (find (with_id user_id) rows)) [
      | inl missed ↦ rw (secret_for, step, missed)
      | inr (a, found) ↦ elim (Bool-cases (with_id id a)) [
        | inl e ↦ rw (secret_for, step, found, e)
        | inr e ↦ rw (secret_for, step, found, e)
      ]
    ]

-- A later attempt with the password that was set is right.
IsRight-password :
    (v : Verifiers) (now t : ℕ) (h id : Str) (forced : Bool) (user : User) (req : LoginRequest)
    (w after : World)
    → Found id user w.accounts
    → after.accounts ≡ update_row (with_password h now forced) id w.accounts
    → req.username ≡ user.username
    → is_empty h ≡ false
    → v.verify_password h req.password ≡ true
    → account_locked t req.username after.cache ≡ false
    → captcha_passes v req ≡ true
    → (user.mfa_enabled && not (verify_mfa v t user.id req.mfa_code w.accounts)) ≡ false
    → IsRight v t req after (record user { force_password_change = forced })
unfolding verify_mfa
IsRight-password v now t h id forced user req w after found a n e k l c m =
    let (p, g) = after_password now h id forced user w.accounts found in
    (
      l,
      c,
      rw (a, n) g,
      (h, rw (a, n) p, e, k),
      rw (a, verify_mfa, secret_for-password now h id forced user.id w.accounts) m,
    )

login_after_password :
    (v : Verifiers) (cfg : Settings) (now t : ℕ) (h id sid : Str) (forced : Bool) (user : User)
    (req : LoginRequest) (w after : World)
    → Found id user w.accounts
    → after.accounts ≡ update_row (with_password h now forced) id w.accounts
    → req.username ≡ user.username
    → is_empty h ≡ false
    → v.verify_password h req.password ≡ true
    → account_locked t req.username after.cache ≡ false
    → captcha_passes v req ≡ true
    → (user.mfa_enabled && not (verify_mfa v t user.id req.mfa_code w.accounts)) ≡ false
    → (handle_login v cfg t sid req after).1
      ≡ logged_in sid user.id user.mfa_enabled
          (password_change_required cfg t user.id forced after.accounts)
unfolding finish_login
login_after_password v cfg now t h id sid forced user req w after found a n e k l c m =
    ap (λ q. q.1)
      (login_of_right v cfg t sid req after (record user { force_password_change = forced })
        (IsRight-password v now t h id forced user req w after found a n e k l c m))

any_of_find :
    (p : Account → Bool) (rows : List Account) (a : Account)
    → find p rows ≡ some a
    → any p rows ≡ true
unfolding find
any_of_find p [] a h = cc
any_of_find p (b ∷ rows) a h = elim (Bool-cases (p b)) [
  | inl q ↦ ground arith
  | inr q ↦ ground (arith, any_of_find p rows a (ground arith))
]

reset_accounts :
    (hash : Str → Option Str) (default_password : Str) (now : ℕ) (actor id h : Str) (user : User)
    (w : World)
    → get_user id w.accounts ≡ some user
    → is_empty default_password ≡ false
    → hash default_password ≡ some h
    → ((handle_reset_user_password hash default_password now actor id w).0.accounts
        ≡ update_row (with_password h now true) id w.accounts)
      × ((handle_reset_user_password hash default_password now actor id w).0.cache ≡ w.cache)
unfolding handle_reset_user_password assign_default_password get_user
reset_accounts hash default_password now actor id h user w g e k =
    let (a, found, same) = user_of_inv (find (with_id id) w.accounts) user g in
    let there : any (with_id id) w.accounts ≡ true = any_of_find (with_id id) w.accounts a found in
    let step = find-update_row (with_id id) (with_password h now true) id w.accounts (λ b. refl) in
    ground (arith, there, step, found)

-- After an administrator's reset, the login with the default password goes in and is told that the
-- password must be changed. The account is found by its ID and its name, bcrypt's hash of the
-- default password fits it, the attempt is not locked out and passes the captcha and the second
-- factor.
pub reset_forces_change :
    (v : Verifiers) (cfg : Settings) (hash : Str → Option Str) (now t : ℕ) (actor id h sid : Str)
    (user : User) (req : LoginRequest) (w : World)
    → Found id user w.accounts
    → is_empty req.password ≡ false
    → hash req.password ≡ some h
    → is_empty h ≡ false
    → v.verify_password h req.password ≡ true
    → req.username ≡ user.username
    → account_locked t req.username w.cache ≡ false
    → captcha_passes v req ≡ true
    → (user.mfa_enabled && not (verify_mfa v t user.id req.mfa_code w.accounts)) ≡ false
    → (handle_login v cfg t sid req
        (handle_reset_user_password hash req.password now actor id w).0).1
      ≡ logged_in sid user.id user.mfa_enabled true
unfolding password_change_required
reset_forces_change v cfg hash now t actor id h sid user req w found p k e f n l c m =
    let (accounts, cache) = reset_accounts hash req.password now actor id h user w found.0 p k in
    login_after_password v cfg now t h id sid true user req w
      (handle_reset_user_password hash req.password now actor id w).0 found accounts n e f
      (rw cache l) c m

-- A change that answers "changed" has set the hash that bcrypt made of the new password.
pub change_accounts :
    (u : Classes) (policy : PasswordPolicy) (v : Verifiers) (hash : Str → Option Str) (now : ℕ)
    (sid id current new : Str) (w : World)
    → (handle_change_password u policy v hash now sid id current new w).1 ≡ done
    → (h : Str) × (hash new ≡ some h)
      × (validate_password u new policy ≡ none)
      × ((handle_change_password u policy v hash now sid id current new w).0.accounts
          ≡ update_row (with_password h now false) id w.accounts)
      × ((handle_change_password u policy v hash now sid id current new w).0.cache
          ≡ clear_must_change_password now sid id w.cache)
unfolding handle_change_password set_password
change_accounts u policy v hash now sid id current new w d =
    elim (Option-cases (validate_password u new policy)) [
      | inr (x, a) ↦ ground arith
      | inl a ↦ elim (Option-cases (get_user id w.accounts)) [
        | inl b ↦ ground arith
        | inr (user, b) ↦ elim (Option-cases (password_hash user.username w.accounts)) [
          | inl e ↦ ground arith
          | inr (old, e) ↦ elim (Bool-cases (is_empty old || not (v.verify_password old current))) [
            | inl f ↦ ground arith
            | inr f ↦ elim (Option-cases (hash new)) [
              | inl g ↦ ground arith
              | inr (h, g) ↦ (h, g, a, ground arith, ground arith)
            ]
          ]
        ]
      ]
    ]

locked-clear_must_change :
    (t now : ℕ) (n sid id : Str) (c : Cache)
    → account_locked t n (clear_must_change_password now sid id c) ≡ account_locked t n c
unfolding account_locked clear_must_change_password create_session str_eq
locked-clear_must_change t now n sid id c =
    ap is_some (get-set now t (session_key sid) (lock_key n) _ _ c)

not_expired :
    (cfg : Settings) (now t : ℕ) (h id : Str) (user : User) (rows : List Account)
    → Found id user rows
    → (cfg.password_expiry_days ≡ 0) ⊎ (t ≤ now + cfg.password_expiry_days * (24 * hour))
    → password_expired cfg t user.id (update_row (with_password h now false) id rows) ≡ false
unfolding password_expired password_age get_user
not_expired cfg now t h id user rows found (inl off) = rw off refl
not_expired cfg now t h id user rows found (inr late) =
    let (a, at, same) = user_of_inv (find (with_id id) rows) user found.0 in
    let here : with_id id a ≡ true = find_sound (with_id id) rows a at in
    let its_id : user.id ≡ id = sym (ap (λ (x : User). x.id) same) ∙ (str_eq_iff _ _).0 here in
    let step = find-update_row (with_id id) (with_password h now false) id rows (λ b. refl) in
    rw (its_id, step, at, here) (ground arith)

-- After a change of password that succeeds, the new password passes the policy, and the login with
-- it goes in without being told to change it, where passwords never expire (the setting is 0) or no
-- more than the days of the setting have passed. The account is found by its ID and its name, bcrypt's hash of a password fits it, the attempt is not locked out and
-- passes the captcha and the second factor.
pub change_then_login :
    (u : Classes) (policy : PasswordPolicy) (v : Verifiers) (cfg : Settings)
    (hash : Str → Option Str) (now t : ℕ) (cookie id current sid : Str) (user : User)
    (req : LoginRequest) (w : World)
    → (handle_change_password u policy v hash now cookie id current req.password w).1 ≡ done
    → ((h : Str)
        → hash req.password ≡ some h
        → (is_empty h ≡ false) × (v.verify_password h req.password ≡ true))
    → Found id user w.accounts
    → req.username ≡ user.username
    → account_locked t req.username w.cache ≡ false
    → captcha_passes v req ≡ true
    → (user.mfa_enabled && not (verify_mfa v t user.id req.mfa_code w.accounts)) ≡ false
    → (cfg.password_expiry_days ≡ 0) ⊎ (t ≤ now + cfg.password_expiry_days * (24 * hour))
    → (validate_password u req.password policy ≡ none)
      × ((handle_login v cfg t sid req
            (handle_change_password u policy v hash now cookie id current req.password w).0).1
          ≡ logged_in sid user.id user.mfa_enabled false)
unfolding password_change_required
change_then_login u policy v cfg hash now t cookie id current sid user req w d law found n l c m
      late =
    let (h, made, passes, accounts, cache) =
      change_accounts u policy v hash now cookie id current req.password w d in
    let (full, fits) = law h made in
    (
      passes,
      login_after_password v cfg now t h id sid false user req w
            (handle_change_password u policy v hash now cookie id current req.password w).0 found
            accounts n full fits
            (rw cache (locked-clear_must_change t now req.username cookie id w.cache ∙ l)) c m
          ∙ rw accounts (
              ap (logged_in sid user.id user.mfa_enabled)
                (not_expired cfg now t h id user w.accounts found late)),
    )
