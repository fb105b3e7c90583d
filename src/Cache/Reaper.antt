-- ===== src/Cache/Reaper.antt =====
-- internal/cache/memory.go: the background reaper, interleaved with the calls of the cache.
use idpforge.Base.{
  ℕ, ◌+◌, ◌≤◌, ◌≡◌, ◌∙◌, sym, ap, ap₂, refl, Bool, true, false, Option, none, some, List, [], ◌∷◌,
  ◌++◌, arith, if◌then◌else◌, Str, str_eq, has_prefix, keep,
}
use idpforge.Cache.{
  Value, Entry, Cache, get, set, delete, delete_prefix, increment, drop_key, alive, reap, read,
  counted,
}

pub data Op : Type 0 where
  gets : Str → Op
  sets : Str → Value → ℕ → Op
  deletes : List Str → Op
  deletes_prefix : Str → Op
  increments : Str → ℕ → Op
  reaps : Op

pub data Output : Type 0 where
  found : Option Value → Output
  number : ℕ → Output

-- A call at a time: the cache after it, and what the caller gets.
unfoldable pub exec : ℕ → Op → Cache → Cache × List Output
exec t (gets k) c = (c, found (get t k c) ∷ [])
exec t (sets k v ttl) c = (set t k v ttl c, [])
exec t (deletes keys) c = (delete keys c, [])
exec t (deletes_prefix prefix) c = (delete_prefix prefix c, [])
exec t (increments k ttl) c = let r = increment t k ttl c in (r.0, number r.1 ∷ [])
exec t reaps c = (reap t c, [])

unfoldable pub run : List (ℕ × Op) → Cache → List Output
run [] c = []
run ((t, op) ∷ ops) c = let r = exec t op c in r.1 ++ run ops r.0

abbrev pub is_call : Op → Bool
is_call reaps = false
is_call _ = true

-- The calls of a history, without the rounds of the reaper.
abbrev pub calls : List (ℕ × Op) → List (ℕ × Op)
calls = keep (λ e. is_call e.1)

-- The times of a history do not fall, and start at `t` or later.
abbrev pub Timed : ℕ → List (ℕ × Op) → Type 0
Timed t [] = Unit
Timed t ((u, op) ∷ ops) = (t ≤ u) × Timed u ops

-- Two caches that hold the same live entries.
abbrev Sim : ℕ → Cache → Cache → Type 0
Sim t c d = (k : Str) → alive t (c k) ≡ alive t (d k)

alive_later : (t u : ℕ) (o : Option Entry) → t ≤ u → alive u (alive t o) ≡ alive u o
alive_later t u none h = refl
alive_later t u (some e) h = ground arith

Sim-later : (t u : ℕ) (c d : Cache) → t ≤ u → Sim t c d → Sim u c d
Sim-later t u c d h s k =
    sym (alive_later t u (c k) h) ∙ ap (alive u) (s k) ∙ alive_later t u (d k) h

Sim-reap : (t : ℕ) (c d : Cache) → Sim t c d → Sim t (reap t c) d
unfolding reap
Sim-reap t c d s k = alive_later t t (c k) (omega arith) ∙ s k

-- Reads and counts look at live entries only.
read-alive : (t : ℕ) (o : Option Entry) → read t (alive t o) ≡ read t o
read-alive t none = refl
read-alive t (some e) = ground arith

counted-alive : (t ttl : ℕ) (o : Option Entry) → counted t ttl (alive t o) ≡ counted t ttl o
counted-alive t ttl none = refl
counted-alive t ttl (some e) = ground arith

get-Sim : (t : ℕ) (k : Str) (c d : Cache) → Sim t c d → get t k c ≡ get t k d
unfolding get
get-Sim t k c d s = sym (read-alive t (c k)) ∙ ap (read t) (s k) ∙ read-alive t (d k)

counted-Sim :
    (t ttl : ℕ) (k : Str) (c d : Cache) → Sim t c d → counted t ttl (c k) ≡ counted t ttl (d k)
counted-Sim t ttl k c d s =
    sym (counted-alive t ttl (c k)) ∙ ap (counted t ttl) (s k) ∙ counted-alive t ttl (d k)

if_alive :
    (t : ℕ) (b : Bool) (x a y : Option Entry)
    → alive t a ≡ alive t y
    → alive t (if b then x else a) ≡ alive t (if b then x else y)
if_alive t true x a y h = refl
if_alive t false x a y h = h

delete-Sim :
    (t : ℕ) (keys : List Str) (c d : Cache) → Sim t c d → Sim t (delete keys c) (delete keys d)
unfolding delete
delete-Sim t [] c d s = s
delete-Sim t (k ∷ keys) c d s =
    delete-Sim t keys (drop_key k c) (drop_key k d)
      (λ j. if_alive t (str_eq k j) none (c j) (d j) (s j))

exec-Sim : (t : ℕ) (op : Op) (c d : Cache) → Sim t c d → Sim t (exec t op c).0 (exec t op d).0
unfolding exec set delete_prefix increment reap
exec-Sim t (gets k) c d s j = s j
exec-Sim t (sets k v ttl) c d s j = if_alive t (str_eq k j) _ (c j) (d j) (s j)
exec-Sim t (deletes keys) c d s j = delete-Sim t keys c d s j
exec-Sim t (deletes_prefix prefix) c d s j = if_alive t (has_prefix j prefix) none (c j) (d j) (s j)
exec-Sim t (increments k ttl) c d s j =
    rw (counted-Sim t ttl k c d s) (if_alive t (str_eq k j) _ (c j) (d j) (s j))
exec-Sim t reaps c d s k = ap (alive t) (s k)

exec-output : (t : ℕ) (op : Op) (c d : Cache) → Sim t c d → (exec t op c).1 ≡ (exec t op d).1
unfolding exec increment
exec-output t (gets k) c d s = ap (λ r. found r ∷ []) (get-Sim t k c d s)
exec-output t (increments k ttl) c d s =
    ap (λ (e : Entry). number (e.counter + 1) ∷ []) (counted-Sim t ttl k c d s)
exec-output t _ c d s = refl

exec-reaps : (t : ℕ) (c : Cache) → exec t reaps c ≡ (reap t c, [])
unfolding exec
exec-reaps t c = refl

run-Sim :
    (t : ℕ) (ops : List (ℕ × Op)) (c d : Cache)
    → Timed t ops
    → Sim t c d
    → run ops c ≡ run (calls ops) d
unfolding run
run-Sim t [] c d h s = refl
run-Sim t ((u, reaps) ∷ ops) c d (h, hs) s =
    rw (exec-reaps u c) (run-Sim u ops (reap u c) d hs (Sim-reap u c d (Sim-later t u c d h s)))
run-Sim t ((u, op) ∷ ops) c d (h, hs) s =
    let s' = Sim-later t u c d h s in
    ap₂ (λ x y. x ++ y) (exec-output u op c d s')
      (run-Sim u ops (exec u op c).0 (exec u op d).0 hs (exec-Sim u op c d s'))

-- The reaper is invisible: whatever rounds of it are interleaved, every call of a history whose
-- times do not fall gives its caller what it gives with no round at all.
pub run-calls :
    (t : ℕ) (ops : List (ℕ × Op)) (c : Cache) → Timed t ops → run ops c ≡ run (calls ops) c
run-calls t ops c h = run-Sim t ops c c h (λ k. refl)
