-- ===== src/Rbac/Coherence.antt =====
-- internal/rbac: the cached resolutions against the tables.
use idpforge.Base.{
  ℕ, ◌+◌, ◌≡◌, refl, sym, ap, ◌∙◌, ◌≢◌, inl, inr, Bool, true, false, ◌&&◌, ◌||◌, Option, none, some,
  [], ◌∷◌, if◌then◌else◌, ltb, Str, str_eq, str_eq_iff, has_prefix-append, Bool-cases, Option-cases,
}
use idpforge.Permission.{Resolved}
use idpforge.Cache.{Cache, Value, resolved, get, set}
use idpforge.Cache.Laws.{get-set, get-delete, get-delete_prefix}
use idpforge.Rbac.{Db, resolve_from_db}
use idpforge.Rbac.Admin.{
  Store, cache_key, cache_key_prefix, default_ttl, as_resolved, resolve, invalidate, invalidate_all,
}

-- The resolution that a read of the cache gives for a user.
abbrev pub cached : ℕ → Str → Cache → Option Resolved
cached now user c = as_resolved (get now (cache_key user) c)

-- Every cached resolution that can be read, now or later, is the one that the tables give.
abbrev pub Coherent : Store → Type 0
Coherent s =
    (now : ℕ) (u : Str) (r : Resolved) → cached now u s.cache ≡ some r → r ≡ resolve_from_db s.db u

cached-invalidate_all : (now : ℕ) (u : Str) (c : Cache) → cached now u (invalidate_all c) ≡ none
unfolding invalidate_all
cached-invalidate_all now u c =
    rw
      (get-delete_prefix now cache_key_prefix (cache_key u) c, has_prefix-append cache_key_prefix u)

-- After `InvalidateAll` any change of the tables is coherent.
pub invalidate_all-Coherent :
    (db : Db) (c : Cache) → Coherent (record { db = db; cache = invalidate_all c })
invalidate_all-Coherent db c now u r h = cc (cached-invalidate_all now u c)

key_injective : (u v : Str) → cache_key u ≡ cache_key v → u ≡ v
key_injective u v h = cc

read-invalidate :
    (now : ℕ) (u v : Str) (c : Cache)
    → cached now u (invalidate v c)
      ≡ (if str_eq (cache_key v) (cache_key u) then none else cached now u c)
unfolding invalidate
read-invalidate now u v c =
    ap as_resolved (get-delete now (cache_key v ∷ []) (cache_key u) c)
    ∙ pick (str_eq (cache_key v) (cache_key u)) (get now (cache_key u) c)
  where
    pick :
        (b : Bool) (o : Option Value)
        → as_resolved (if b || false then none else o) ≡ (if b then none else as_resolved o)
    pick true o = refl
    pick false o = refl

-- What can be read after `Invalidate` is of another user, and could be read before.
cached-invalidate :
    (now : ℕ) (u v : Str) (r : Resolved) (c : Cache)
    → cached now u (invalidate v c) ≡ some r
    → (u ≢ v) × (cached now u c ≡ some r)
cached-invalidate now u v r c h = elim (Bool-cases (str_eq (cache_key v) (cache_key u))) [
  | inl e ↦ absurd (none_some r (sym (read-invalidate now u v c ∙ rw e) ∙ h))
  | inr e ↦ (λ f. differs e (ap cache_key (sym f)), sym (read-invalidate now u v c ∙ rw e) ∙ h)
]
  where
    none_some : (r : Resolved) → none ≡ some r → ⊥
    none_some r e = cc

    differs : str_eq (cache_key v) (cache_key u) ≡ false → cache_key v ≡ cache_key u → ⊥
    differs e f = cc ((str_eq_iff (cache_key v) (cache_key u)).1 f)

-- `Invalidate` of a user makes a change coherent that leaves the resolution of the others.
pub invalidate-Coherent :
    (s : Store) (v : Str) (db : Db)
    → ((u : Str) → u ≢ v → resolve_from_db db u ≡ resolve_from_db s.db u)
    → Coherent s
    → Coherent (record { db = db; cache = invalidate v s.cache })
invalidate-Coherent s v db same c now u r h =
    let (other, before) = cached-invalidate now u v r s.cache h in
    c now u r before ∙ sym (same u other)

-- So does a change that leaves every resolution, without any invalidation.
pub unchanged-Coherent :
    (s : Store) (db : Db)
    → ((u : Str) → resolve_from_db db u ≡ resolve_from_db s.db u)
    → Coherent s
    → Coherent (record s { db = db })
unchanged-Coherent s db same c now u r h = c now u r h ∙ sym (same u)

pub read-set :
    (now t : ℕ) (u v : Str) (x : Resolved) (ttl : ℕ) (c : Cache)
    → cached t u (set now (cache_key v) (resolved x) ttl c) ≡ (
        if str_eq (cache_key v) (cache_key u)
        then (if ltb 0 ttl && ltb (now + ttl) t then none else some x)
        else cached t u c)
read-set now t u v x ttl c =
    ap as_resolved (get-set now t (cache_key v) (cache_key u) (resolved x) ttl c)
    ∙ pick (str_eq (cache_key v) (cache_key u)) (ltb 0 ttl && ltb (now + ttl) t)
        (get t (cache_key u) c)
  where
    pick :
        (a b : Bool) (o : Option Value)
        → as_resolved (if a then (if b then none else some (resolved x)) else o)
          ≡ (if a then (if b then none else some x) else as_resolved o)
    pick true true o = refl
    pick true false o = refl
    pick false b o = refl

-- A stored resolution that is the tables' keeps the cache coherent.
pub set-Coherent :
    (s : Store) (now : ℕ) (v : Str) (ttl : ℕ)
    → Coherent s
    → Coherent
        (record s { cache = set now (cache_key v) (resolved (resolve_from_db s.db v)) ttl s.cache })
set-Coherent s now v ttl c t u r h = elim (Bool-cases (str_eq (cache_key v) (cache_key u))) [
  | inl e ↦
      let same : v ≡ u = key_injective v u ((str_eq_iff _ _).0 e) in
      stored (ltb 0 ttl && ltb (now + ttl) t) (sym (read-set now t u v _ ttl s.cache ∙ rw e) ∙ h)
      ∙ ap (resolve_from_db s.db) same
  | inr e ↦ c t u r (sym (read-set now t u v _ ttl s.cache ∙ rw e) ∙ h)
]
  where
    stored :
        (b : Bool)
        → (if b then none else some (resolve_from_db s.db v)) ≡ some r
        → r ≡ resolve_from_db s.db v
    stored true e = cc
    stored false e = cc

pub resolve_hit :
    (s : Store) (now : ℕ) (u : Str) (r : Resolved)
    → cached now u s.cache ≡ some r
    → resolve now u s ≡ (s, r)
unfolding resolve
resolve_hit s now u r e = rw (e, resolve)

resolve_miss :
    (s : Store) (now : ℕ) (u : Str)
    → cached now u s.cache ≡ none
    → resolve now u s ≡ (
      record s {
        cache = set now (cache_key u) (resolved (resolve_from_db s.db u)) default_ttl s.cache;
      },
      resolve_from_db s.db u,
    )
unfolding resolve
resolve_miss s now u e = rw (e, resolve)

-- `Resolve` returns what the tables give, and keeps the cache coherent.
pub resolve-Coherent :
    (s : Store) (now : ℕ) (u : Str)
    → Coherent s
    → ((resolve now u s).1 ≡ resolve_from_db s.db u) × Coherent (resolve now u s).0
resolve-Coherent s now u c = elim (Option-cases (cached now u s.cache)) [
  | inl missed ↦ rw (resolve_miss s now u missed) (refl, set-Coherent s now u default_ttl c)
  | inr (r, found) ↦ rw (resolve_hit s now u r found) (c now u r found, c)
]
