-- ===== src/Auth/Attempts.antt =====
-- internal/httpserver/auth_handlers.go: attempts to log in with wrong passwords, one after the
-- other.
use idpforge.Base.{
  ℕ, ◌+◌, ◌≤◌, ◌<◌, suc, ◌≡◌, ◌⊎◌, refl, sym, ap, ◌∙◌, inl, inr, Bool, true, false, not, ◌&&◌, ◌||◌,
  none, some, List, [], ◌∷◌, Str, codes, is_empty, arith, if◌then◌else◌, ltb, ◌==◌, str_eq_refl,
  is_some, length, Option-cases,
}
use idpforge.Cache.{Cache, text, get, set, counted}
use idpforge.Cache.Laws.{get-set}
use idpforge.Users.{password_hash, User}
use idpforge.Auth.{
  Settings, Verifiers, LoginRequest, denied, World, account_locked, record_login_failure, fail_key,
  lock_key, captcha_passes, handle_login, fail_login, log_failed_login,
}
use idpforge.Auth.Outcome.{IsRight, Succeeds, login_iff}
use idpforge.Auth.Lockout.{
  Counting, failures_since, counting_on, record_login_failure_lem, Within, counted-Within,
  counting_on-Counting,
}

-- The password is not that of the account, or there is no such account.
abbrev pub is_wrong : Verifiers → World → LoginRequest → Bool
is_wrong v w req = elim (password_hash req.username w.accounts) [
  | none ↦ true
  | some hash ↦ is_empty hash || not (v.verify_password hash req.password)
]

wrong_login :
    (v : Verifiers) (cfg : Settings) (now : ℕ) (sid : Str) (req : LoginRequest) (w : World)
    → account_locked now req.username w.cache ≡ false
    → captcha_passes v req ≡ true
    → is_wrong v w req ≡ true
    → (reason : Str) × (handle_login v cfg now sid req w
        ≡ (fail_login cfg now req.username reason w, denied 401))
unfolding handle_login
wrong_login v cfg now sid req w l c h =
    elim (Option-cases (password_hash req.username w.accounts)) [
      | inl p ↦ (codes "not_found", rw (l, c, p))
      | inr (hash, p) ↦ (codes "bad_password", rw (l, c, p, (rw (is_wrong, p) at h)))
    ]

-- The world after attempts at their times.
unfoldable pub run_attempts : Verifiers → Settings → List (ℕ × Str × LoginRequest) → World → World
run_attempts v cfg [] w = w
run_attempts v cfg ((now, sid, req) ∷ rest) w =
    run_attempts v cfg rest (handle_login v cfg now sid req w).0

abbrev pub Attempt : Type 0
Attempt = ℕ × Str × LoginRequest

-- The attempts are for the account, with wrong passwords, at times at which the counter that
-- started at `start` still counts.
abbrev pub AllWrong : Verifiers → Settings → Str → World → ℕ → List Attempt → Type 0
AllWrong v cfg u w start [] = Unit
AllWrong v cfg u w start ((now, sid, req) ∷ rest) =
    (req.username ≡ u)
    × (captcha_passes v req ≡ true)
    × (is_wrong v w req ≡ true)
    × Within cfg start now
    × AllWrong v cfg u w start rest

AllWrong-same :
    (v : Verifiers) (cfg : Settings) (u : Str) (w x : World) (start : ℕ) (xs : List Attempt)
    → w.accounts ≡ x.accounts
    → AllWrong v cfg u w start xs
    → AllWrong v cfg u x start xs
AllWrong-same v cfg u w x start [] e h = tt
AllWrong-same v cfg u w x start ((now, sid, req) ∷ rest) e (n, c, h, i, hs) =
    (n, c, rw (← e) h, i, AllWrong-same v cfg u w x start rest e hs)

unlocked : (now : ℕ) (u : Str) (c : Cache) → c (lock_key u) ≡ none → account_locked now u c ≡ false
unfolding account_locked get
unlocked now u c h = rw h

-- One wrong attempt on an account that is not locked.
step_wrong :
    (v : Verifiers) (cfg : Settings) (now : ℕ) (sid : Str) (req : LoginRequest) (u : Str)
    (w : World)
    → req.username ≡ u
    → captcha_passes v req ≡ true
    → is_wrong v w req ≡ true
    → w.cache (lock_key u) ≡ none
    → ((handle_login v cfg now sid req w).0.cache ≡ record_login_failure cfg now u w.cache)
      × ((handle_login v cfg now sid req w).0.accounts ≡ w.accounts)
unfolding fail_login log_failed_login
step_wrong v cfg now sid req u w n c h l =
    let (reason, e) =
      wrong_login v cfg now sid req w (unlocked now req.username w.cache (rw n l)) c h in
    (rw (e, n), rw e)

-- The next attempt, at `now`, will be counted as failure number `k + 1`.
abbrev Ready : Settings → Str → ℕ → ℕ → ℕ → Cache → Type 0
Ready cfg u start now k c =
    (counted now cfg.window (c (fail_key u)) ≡ failures_since cfg start k) × (c (lock_key u) ≡ none)

not_zero : (cfg : Settings) (n : ℕ) → suc n ≡ cfg.max_attempts → (cfg.max_attempts == 0) ≡ false
not_zero cfg n e = ground arith

-- A failure that is not the last one allowed is counted.
count_failure :
    (cfg : Settings) (u : Str) (start now k : ℕ) (c : Cache)
    → k + 1 < cfg.max_attempts
    → Ready cfg u start now k c
    → Counting cfg u start (k + 1) (record_login_failure cfg now u c)
count_failure cfg u start now k c m (r, l) =
    rw (record_login_failure_lem cfg u start now k c (ground arith) r, less)
      (counting_on-Counting cfg u start (k + 1) c l)
  where
    less : ltb (k + 1) cfg.max_attempts ≡ true
    less = ground arith

-- The last one locks the account.
lock_on_failure :
    (cfg : Settings) (u : Str) (start now t k : ℕ) (c : Cache)
    → k + 1 ≡ cfg.max_attempts
    → Ready cfg u start now k c
    → (cfg.duration ≡ 0) ⊎ (t ≤ now + cfg.duration)
    → account_locked t u (record_login_failure cfg now u c) ≡ true
unfolding account_locked
lock_on_failure cfg u start now t k c m (r, l) d =
    rw (record_login_failure_lem cfg u start now k c (ground arith) r, least)
      (ap is_some (hit (counting_on cfg u start (k + 1) c)))
  where
    least : ltb (k + 1) cfg.max_attempts ≡ false
    least = ground arith

    live :
        (cfg.duration ≡ 0) ⊎ (t ≤ now + cfg.duration)
        → (if ltb 0 cfg.duration && ltb (now + cfg.duration) t
            then none
            else some (text (codes "1")))
          ≡ some (text (codes "1"))
    live (inl z) = ground arith
    live (inr h) = ground arith

    hit :
        (b : Cache)
        → get t (lock_key u) (set now (lock_key u) (text (codes "1")) cfg.duration b)
          ≡ some (text (codes "1"))
    hit b =
        get-set now t (lock_key u) (lock_key u) (text (codes "1")) cfg.duration b
        ∙ rw (str_eq_refl (lock_key u)) (live d)

abbrev pub last_time : ℕ → List Attempt → ℕ
last_time now [] = now
last_time now ((t, sid, req) ∷ rest) = last_time t rest

run_attempts_cons :
    (v : Verifiers) (cfg : Settings) (now : ℕ) (sid : Str) (req : LoginRequest)
    (rest : List Attempt) (w : World)
    → run_attempts v cfg ((now, sid, req) ∷ rest) w
      ≡ run_attempts v cfg rest (handle_login v cfg now sid req w).0
unfolding run_attempts
run_attempts_cons v cfg now sid req rest w = refl

run_attempts_nil : (v : Verifiers) (cfg : Settings) (w : World) → run_attempts v cfg [] w ≡ w
unfolding run_attempts
run_attempts_nil v cfg w = refl

-- From `k` failures, the attempts up to the allowed number lock the account.
locks :
    (v : Verifiers) (cfg : Settings) (u : Str) (start t k now : ℕ) (sid : Str) (req : LoginRequest)
    (rest : List Attempt) (w : World)
    → AllWrong v cfg u w start ((now, sid, req) ∷ rest)
    → k + 1 + length rest ≡ cfg.max_attempts
    → Ready cfg u start now k w.cache
    → (cfg.duration ≡ 0) ⊎ (t ≤ last_time now rest + cfg.duration)
    → account_locked t u (run_attempts v cfg ((now, sid, req) ∷ rest) w).cache ≡ true
locks v cfg u start t k now sid req [] w (n, c, h, i, hs) m r d =
    let (cache, accounts) = step_wrong v cfg now sid req u w n c h r.1 in
    rw
      (
        run_attempts_cons v cfg now sid req [] w,
        run_attempts_nil v cfg (handle_login v cfg now sid req w).0,
        cache,
      )
      (lock_on_failure cfg u start now t k w.cache (omega arith) r d)
locks v cfg u start t k now sid req ((next_time, next_sid, next_req) ∷ rest) w (n, c, h, i, hs) m r
      d =
    let (cache, accounts) = step_wrong v cfg now sid req u w n c h r.1 in
    let x : World = (handle_login v cfg now sid req w).0 in
    let counting : Counting cfg u start (k + 1) x.cache =
      rw cache (count_failure cfg u start now k w.cache (omega arith) r) in
    rw (run_attempts_cons v cfg now sid req ((next_time, next_sid, next_req) ∷ rest) w) (
      locks v cfg u start t (k + 1) next_time next_sid next_req rest x
        (AllWrong-same v cfg u w x start ((next_time, next_sid, next_req) ∷ rest) (sym accounts) hs)
        (omega arith)
        (
          counted-Within cfg start next_time (k + 1) (x.cache (fail_key u)) hs.3 counting.0,
          counting.1,
        )
        d)

-- As many wrong attempts as are allowed, within the window of the first, lock the account: until
-- the lock has run out, every later attempt for it is refused with 429, right or wrong. No failure
-- was counted and no lock stood before the first.
pub lockout :
    (v : Verifiers) (cfg : Settings) (u : Str) (start t : ℕ) (sid last_sid : Str)
    (req last_req : LoginRequest) (rest : List Attempt) (w : World)
    → w.cache (fail_key u) ≡ none
    → w.cache (lock_key u) ≡ none
    → AllWrong v cfg u w start ((start, sid, req) ∷ rest)
    → length ((start, sid, req) ∷ rest) ≡ cfg.max_attempts
    → (cfg.duration ≡ 0) ⊎ (t ≤ last_time start rest + cfg.duration)
    → last_req.username ≡ u
    → (handle_login v cfg t last_sid last_req (run_attempts v cfg ((start, sid, req) ∷ rest) w)).1
      ≡ denied 429
unfolding handle_login
lockout v cfg u start t sid last_sid req last_req rest w f l h m d n =
    let locked = locks v cfg u start t 0 start sid req rest w h (omega arith) (rw f refl, l) d in
    rw (n, locked)

-- Fewer wrong attempts leave the accounts as they are and the account open.
counts :
    (v : Verifiers) (cfg : Settings) (u : Str) (start k now : ℕ) (sid : Str) (req : LoginRequest)
    (rest : List Attempt) (w : World)
    → AllWrong v cfg u w start ((now, sid, req) ∷ rest)
    → k + 1 + length rest < cfg.max_attempts
    → Ready cfg u start now k w.cache
    → ((run_attempts v cfg ((now, sid, req) ∷ rest) w).cache (lock_key u) ≡ none)
      × ((run_attempts v cfg ((now, sid, req) ∷ rest) w).accounts ≡ w.accounts)
counts v cfg u start k now sid req [] w (n, c, h, i, hs) m r =
    let (cache, accounts) = step_wrong v cfg now sid req u w n c h r.1 in
    let counting = count_failure cfg u start now k w.cache (omega arith) r in
    rw
      (
        run_attempts_cons v cfg now sid req [] w,
        run_attempts_nil v cfg (handle_login v cfg now sid req w).0,
      )
      (rw cache counting.1, accounts)
counts v cfg u start k now sid req ((next_time, next_sid, next_req) ∷ rest) w (n, c, h, i, hs) m r =
    let (cache, accounts) = step_wrong v cfg now sid req u w n c h r.1 in
    let x : World = (handle_login v cfg now sid req w).0 in
    let counting : Counting cfg u start (k + 1) x.cache =
      rw cache (count_failure cfg u start now k w.cache (omega arith) r) in
    let (lock, same) =
      counts v cfg u start (k + 1) next_time next_sid next_req rest x
        (AllWrong-same v cfg u w x start ((next_time, next_sid, next_req) ∷ rest) (sym accounts) hs)
        (omega arith)
        (
          counted-Within cfg start next_time (k + 1) (x.cache (fail_key u)) hs.3 counting.0,
          counting.1,
        ) in
    rw (run_attempts_cons v cfg now sid req ((next_time, next_sid, next_req) ∷ rest) w)
      (lock, same ∙ accounts)

IsRight-later :
    (v : Verifiers) (t : ℕ) (req : LoginRequest) (w x : World) (user : User)
    → x.cache (lock_key req.username) ≡ none
    → x.accounts ≡ w.accounts
    → IsRight v t req w user
    → IsRight v t req x user
IsRight-later v t req w x user l e (_, c, g, (hash, p, n, k), m) =
    (unlocked t req.username x.cache l, c, rw e g, (hash, rw e p, n, k), rw e m)

-- Fewer wrong attempts than are allowed keep nobody out: an attempt after them that is right is
-- logged in, whoever made them and however close they came. The first of them found no failure
-- counted and no lock.
pub few_failures :
    (v : Verifiers) (cfg : Settings) (start t : ℕ) (sid last_sid : Str)
    (req last_req : LoginRequest) (rest : List Attempt) (w : World) (user : User)
    → w.cache (fail_key last_req.username) ≡ none
    → w.cache (lock_key last_req.username) ≡ none
    → AllWrong v cfg last_req.username w start ((start, sid, req) ∷ rest)
    → length ((start, sid, req) ∷ rest) < cfg.max_attempts
    → IsRight v t last_req w user
    → Succeeds
        (handle_login v cfg t last_sid last_req (run_attempts v cfg ((start, sid, req) ∷ rest) w)).1
few_failures v cfg start t sid last_sid req last_req rest w user f l h m r =
    let (lock, same) =
      counts v cfg last_req.username start 0 start sid req rest w h (omega arith) (rw f refl, l) in
    (login_iff v cfg t last_sid last_req (run_attempts v cfg ((start, sid, req) ∷ rest) w)).1 (
      user,
      IsRight-later v t last_req w (run_attempts v cfg ((start, sid, req) ∷ rest) w) user lock same
          r,
    )
