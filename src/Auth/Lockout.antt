-- ===== src/Auth/Lockout.antt =====
-- internal/httpserver/auth_handlers.go: the lockout of an account after failed attempts.
use idpforge.Base.{
  ℕ, ◌+◌, ◌≤◌, ◌≡◌, ◌⊎◌, inl, inr, false, Option, none, some, [], Str, codes, arith, if◌then◌else◌,
  ltb, ◌==◌, str_eq_refl, str_eq,
}
use idpforge.Cache.{Cache, Entry, text, expiry, set, increment, counted, put}
use idpforge.Auth.{Settings, record_login_failure, fail_key, lock_key}

-- The counter of an account's failures since `start`.
abbrev pub failures_since : Settings → ℕ → ℕ → Entry
failures_since cfg start k = record {
  value = text [];
  expires = expiry start cfg.window;
  counter = k;
}

-- `k` failures since `start` have been counted, and the account is not locked.
abbrev pub Counting : Settings → Str → ℕ → ℕ → Cache → Type 0
Counting cfg u start k c =
    (c (fail_key u) ≡ some (failures_since cfg start k)) × (c (lock_key u) ≡ none)

abbrev pub counting_on : Settings → Str → ℕ → ℕ → Cache → Cache
counting_on cfg u start k c = put (fail_key u) (failures_since cfg start k) c

pub record_login_failure_lem :
    (cfg : Settings) (u : Str) (start now k : ℕ) (c : Cache)
    → (cfg.max_attempts == 0) ≡ false
    → counted now cfg.window (c (fail_key u)) ≡ failures_since cfg start k
    → record_login_failure cfg now u c ≡ (
        if ltb (k + 1) cfg.max_attempts
        then counting_on cfg u start (k + 1) c
        else set now
            (lock_key u)
            (text (codes "1"))
            cfg.duration
            (counting_on cfg u start (k + 1) c))
unfolding record_login_failure increment
record_login_failure_lem cfg u start now k c m e = rw (e, m)

-- A time at which a counter that started at `start` still counts.
abbrev pub Within : Settings → ℕ → ℕ → Type 0
Within cfg start now = (cfg.window ≡ 0) ⊎ (now ≤ start + cfg.window)

pub counted-Within :
    (cfg : Settings) (start now k : ℕ) (o : Option Entry)
    → Within cfg start now
    → o ≡ some (failures_since cfg start k)
    → counted now cfg.window o ≡ failures_since cfg start k
counted-Within cfg start now k o w e = rw e (live w)
  where
    live :
        Within cfg start now
        → counted now cfg.window (some (failures_since cfg start k)) ≡ failures_since cfg start k
    live (inl z) = ground arith
    live (inr h) = ground arith

put_same : (k : Str) (e : Entry) (c : Cache) → put k e c k ≡ some e
put_same k e c = rw (str_eq_refl k)

pub counting_on-Counting :
    (cfg : Settings) (u : Str) (start k : ℕ) (c : Cache)
    → c (lock_key u) ≡ none
    → Counting cfg u start k (counting_on cfg u start k c)
unfolding str_eq
counting_on-Counting cfg u start k c h = (put_same (fail_key u) (failures_since cfg start k) c, h)
