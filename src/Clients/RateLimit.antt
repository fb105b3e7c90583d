-- ===== src/Clients/RateLimit.antt =====
-- internal/httpserver: the rate limit of an API client, within one window of its clock.
use native.Mathlib.Omega.{div_any, mod_fact}
use idpforge.Base.{
  ℕ, suc, ◌+◌, ◌*◌, ◌/◌, ◌≤◌, ◌<◌, min, ◌≡◌, refl, ap, false, none, some, List, [], ◌∷◌,
  if◌then◌else◌, ltb, Str, str_eq_refl, arith, length, ◌++◌, ◌-◌, codes,
}
use idpforge.Permission.{Client}
use idpforge.Cache.{Cache, Entry, text, expiry, is_expired, counted, increment, put}
use idpforge.Clients.{count_request, rate_key, second, decimal}

-- The number of the window in which a time falls.
abbrev pub window_of : Client → ℕ → ℕ
window_of client now = now / second / client.rate_limit_window_seconds

-- The times do not fall, and all lie in the window of `start`.
abbrev pub InWindow : Client → ℕ → List ℕ → Type 0
InWindow client start [] = Unit
InWindow client start (t ∷ ts) =
    (start ≤ t) × (window_of client t ≡ window_of client start) × InWindow client start ts

-- How many of the requests at these times are within the limit.
pub admitted : Client → List ℕ → Cache → ℕ
admitted client [] c = 0
admitted client (t ∷ ts) c =
    let r = count_request t client c in
    let rest = admitted client ts r.0 in if r.1 then rest else suc rest

same_window :
    (start t k : ℕ) → t / second / suc k ≡ start / second / suc k → t ≤ start + suc k * second
same_window start t k e =
    let u = div_any (t / second) (suc k) in
    let v = div_any (start / second) (suc k) in
    let m = mod_fact (t / second) k in
    let w : suc k * (t / second / suc k) ≡ suc k * (start / second / suc k) =
      ap (λ q. suc k * q) e in
    omega arith

-- The counter that the first request of a window starts.
abbrev counter : Client → ℕ → ℕ → Entry
counter client start n = record {
  value = text [];
  expires = expiry start (client.rate_limit_window_seconds * second);
  counter = n;
}

same_key :
    (client : Client) (start t : ℕ)
    → window_of client t ≡ window_of client start
    → rate_key t client ≡ rate_key start client
same_key client start t e = ap (λ n. codes "apiclient_rl:" ++ client.id ++ codes ":" ++ decimal n) e

still_counting :
    (client : Client) (k start t n : ℕ)
    → client.rate_limit_window_seconds ≡ suc k
    → window_of client t ≡ window_of client start
    → is_expired t (counter client start n) ≡ false
still_counting client k start t n w e = live (same_window start t k (rw (← w) e))
  where
    live : t ≤ start + suc k * second → is_expired t (counter client start n) ≡ false
    live h = rw w (ground arith)

count_request_lem :
    (client : Client) (start t n : ℕ) (c : Cache)
    → window_of client t ≡ window_of client start
    → counted t (client.rate_limit_window_seconds * second) (c (rate_key start client))
      ≡ counter client start n
    → count_request t client c ≡ (
      put (rate_key start client) (counter client start (n + 1)) c,
      ltb client.rate_limit_max (n + 1),
    )
unfolding count_request increment
count_request_lem client start t n c e h = rw (same_key client start t e, h)

put_same : (k : Str) (e : Entry) (c : Cache) → put k e c k ≡ some e
put_same k e c = rw (str_eq_refl k)

-- One request after `n` of the window.
admitted_cons :
    (client : Client) (start t n : ℕ) (ts : List ℕ) (c : Cache)
    → window_of client t ≡ window_of client start
    → counted t (client.rate_limit_window_seconds * second) (c (rate_key start client))
      ≡ counter client start n
    → let rest =
        admitted client ts (put (rate_key start client) (counter client start (n + 1)) c) in
      admitted client (t ∷ ts) c ≡ (if ltb client.rate_limit_max (n + 1) then rest else suc rest)
unfolding admitted
admitted_cons client start t n ts c e h = rw (count_request_lem client start t n c e h)

admitted_from :
    (client : Client) (k start n : ℕ) (ts : List ℕ) (c : Cache)
    → client.rate_limit_window_seconds ≡ suc k
    → c (rate_key start client) ≡ some (counter client start n)
    → InWindow client start ts
    → admitted client ts c + min n client.rate_limit_max ≡ min (n + length ts) client.rate_limit_max
unfolding admitted
admitted_from client k start n [] c w s h = omega arith
admitted_from client k start n (t ∷ ts) c w s (l, e, hs) =
    let next = put (rate_key start client) (counter client start (n + 1)) c in
    let live : counted t (client.rate_limit_window_seconds * second) (c (rate_key start client))
        ≡ counter client start n =
      rw (s, still_counting client k start t n w e) in
    let rest =
      admitted_from client k start (n + 1) ts next w
        (put_same (rate_key start client) (counter client start (n + 1)) c) hs in
    rw (admitted_cons client start t n ts c e live) (ground (arith, rest))

-- Of the requests that a client makes in one window, exactly as many pass as its limit allows, the
-- later ones being refused; the window is not empty and nothing has been counted in it.
pub admitted-min :
    (client : Client) (start : ℕ) (ts : List ℕ) (c : Cache)
    → 0 < client.rate_limit_window_seconds
    → c (rate_key start client) ≡ none
    → InWindow client start ts
    → admitted client (start ∷ ts) c ≡ min (length (start ∷ ts)) client.rate_limit_max
admitted-min client start ts c w s h =
    let k = client.rate_limit_window_seconds - 1 in
    let next = put (rate_key start client) (counter client start 1) c in
    let rest =
      admitted_from client k start 1 ts next (omega arith)
        (put_same (rate_key start client) (counter client start 1) c) h in
    rw (admitted_cons client start start 0 ts c refl (rw s refl)) (ground (arith, rest))
