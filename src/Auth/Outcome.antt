-- ===== src/Auth/Outcome.antt =====
-- internal/httpserver/auth_handlers.go: who is logged in.
use idpforge.Base.{
  ◌≡◌, ◌↔◌, inl, inr, true, false, not, ◌&&◌, ◌||◌, some, Str, ℕ, is_empty, arith, Bool-cases,
  Option-cases,
}
use idpforge.Users.{User, get_by_username, password_hash}
use idpforge.Auth.{
  Settings, Verifiers, LoginRequest, Login, logged_in, denied, World, account_locked,
  captcha_passes, verify_mfa, handle_login, login_user, finish_login,
}

-- The attempt is right: the account is not locked, the captcha passes, the password is that of the
-- account, and so is the one-time code where the account has a second factor.
abbrev pub IsRight : Verifiers → ℕ → LoginRequest → World → User → Type 0
IsRight v now req w user =
    (account_locked now req.username w.cache ≡ false)
    × (captcha_passes v req ≡ true)
    × (get_by_username req.username w.accounts ≡ some user)
    × ((hash : Str) × (password_hash req.username w.accounts ≡ some hash)
        × (is_empty hash ≡ false)
        × (v.verify_password hash req.password ≡ true))
    × ((user.mfa_enabled && not (verify_mfa v now user.id req.mfa_code w.accounts)) ≡ false)

abbrev pub Succeeds : Login → Type 0
Succeeds (logged_in _ _ _ _) = Unit
Succeeds (denied code) = ⊥

pub login_of_right :
    (v : Verifiers) (cfg : Settings) (now : ℕ) (sid : Str) (req : LoginRequest) (w : World)
    (user : User)
    → IsRight v now req w user
    → handle_login v cfg now sid req w ≡ finish_login v cfg now sid req user w
unfolding handle_login login_user
login_of_right v cfg now sid req w user (l, c, u, (hash, p, e, k), m) =
    rw (l, c, p, e, k, login_user, u, m)

IsRight-handle_login :
    (v : Verifiers) (cfg : Settings) (now : ℕ) (sid : Str) (req : LoginRequest) (w : World)
    → Succeeds (handle_login v cfg now sid req w).1
    → (user : User) × IsRight v now req w user
unfolding handle_login login_user
IsRight-handle_login v cfg now sid req w s =
    elim (Bool-cases (account_locked now req.username w.cache)) [
      | inl l ↦ absurd (rw l at s)
      | inr l ↦ elim (Bool-cases (captcha_passes v req)) [
        | inr c ↦ absurd (rw (l, c) at s)
        | inl c ↦ elim (Option-cases (password_hash req.username w.accounts)) [
          | inl p ↦ absurd (rw (l, c, p) at s)
          | inr (hash, p) ↦
              elim (Bool-cases (is_empty hash || not (v.verify_password hash req.password))) [
                | inl k ↦ absurd (rw (l, c, p, k) at s)
                | inr k ↦ elim (Option-cases (get_by_username req.username w.accounts)) [
                  | inl u ↦ absurd (rw (l, c, p, k, login_user, u) at s)
                  | inr (user, u) ↦
                      elim (Bool-cases (
                        user.mfa_enabled
                        && not (verify_mfa v now user.id req.mfa_code w.accounts))) [
                          | inl m ↦ absurd (rw (l, c, p, k, login_user, u, m) at s)
                          | inr m ↦ (user, (l, c, u, (hash, p, ground arith, ground arith), m))
                        ]
                ]
              ]
        ]
      ]
    ]

-- A login succeeds exactly where the attempt is right for some account.
pub login_iff :
    (v : Verifiers) (cfg : Settings) (now : ℕ) (sid : Str) (req : LoginRequest) (w : World)
    → Succeeds (handle_login v cfg now sid req w).1 ↔ ((user : User) × IsRight v now req w user)
unfolding finish_login
login_iff v cfg now sid req w = (
  IsRight-handle_login v cfg now sid req w,
  λ (user, r). rw (login_of_right v cfg now sid req w user r) tt,
)
