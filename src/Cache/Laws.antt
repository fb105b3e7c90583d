-- ===== src/Cache/Laws.antt =====
-- What a read sees after each write.
use idpforge.Base.{
  ℕ, ◌+◌, ◌≡◌, ◌∙◌, ap, refl, Bool, true, false, ◌&&◌, ◌||◌, Option, none, some, List, [], ◌∷◌,
  arith, if◌then◌else◌, ltb, Str, str_eq, has_prefix, any,
}
use idpforge.Cache.{
  Value, Entry, Cache, get, set, delete, delete_prefix, increment, drop_key, is_expired, read,
  expiry, counted,
}

if_read :
    (t : ℕ) (b : Bool) (x y : Option Entry)
    → read t (if b then x else y) ≡ (if b then read t x else read t y)
if_read t true x y = refl
if_read t false x y = refl

read-written :
    (now t : ℕ) (v : Value) (ttl n : ℕ)
    → read t (some (record { value = v; expires = expiry now ttl; counter = n }))
      ≡ (if ltb 0 ttl && ltb (now + ttl) t then none else some v)
read-written now t v ttl n = ground arith

-- A read after a write: the written value until the time to live has passed, for this key alone.
pub get-set :
    (now t : ℕ) (k j : Str) (v : Value) (ttl : ℕ) (c : Cache)
    → get t j (set now k v ttl c) ≡ (
        if str_eq k j then (if ltb 0 ttl && ltb (now + ttl) t then none else some v) else get t j c)
unfolding get set
get-set now t k j v ttl c =
    if_read t (str_eq k j) (some (record { value = v; expires = expiry now ttl; counter = 0 }))
      (c j)
    ∙ ap (λ r. if str_eq k j then r else read t (c j)) (read-written now t v ttl 0)

-- A deletion hides the listed keys and no other.
pub get-delete :
    (t : ℕ) (keys : List Str) (j : Str) (c : Cache)
    → get t j (delete keys c) ≡ (if any (λ k. str_eq k j) keys then none else get t j c)
unfolding get delete
get-delete t [] j c = refl
get-delete t (k ∷ keys) j c =
    get-delete t keys j (drop_key k c)
    ∙ ap (λ r. if any (λ i. str_eq i j) keys then none else r) (if_read t (str_eq k j) none (c j))
    ∙ or_else (str_eq k j) (any (λ i. str_eq i j) keys) (read t (c j))
  where
    or_else :
        (a b : Bool) (r : Option Value)
        → (if b then none else (if a then none else r)) ≡ (if a || b then none else r)
    or_else true true r = refl
    or_else true false r = refl
    or_else false b r = refl

pub get-delete_prefix :
    (t : ℕ) (prefix j : Str) (c : Cache)
    → get t j (delete_prefix prefix c) ≡ (if has_prefix j prefix then none else get t j c)
unfolding get delete_prefix
get-delete_prefix t prefix j c = if_read t (has_prefix j prefix) none (c j)

-- The count that a key stands at: zero where it is missing or expired.
abbrev pub count_at : ℕ → Option Entry → ℕ
count_at t none = 0
count_at t (some e) = if is_expired t e then 0 else e.counter

pub count : ℕ → Str → Cache → ℕ
count t k c = count_at t (c k)

counted-counter : (now ttl : ℕ) (o : Option Entry) → (counted now ttl o).counter ≡ count_at now o
counted-counter now ttl none = refl
counted-counter now ttl (some e) = ground arith

-- A live counter goes up by one; a missing or expired one starts at one.
pub count-increment :
    (now : ℕ) (k : Str) (ttl : ℕ) (c : Cache) → (increment now k ttl c).1 ≡ count now k c + 1
unfolding increment count
count-increment now k ttl c = ap (λ n. n + 1) (counted-counter now ttl (c k))
