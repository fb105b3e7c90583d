-- ===== src/Cache.antt =====
-- internal/cache/memory.go: the process-local cache. The map is a function from keys to entries;
-- the time of a call is an argument, in nanoseconds; `none` is the zero time. What the callers
-- store as JSON text is kept as the value that the text encodes.
pub mod Laws
pub mod Reaper
pub mod Tests
use idpforge.Base.{
  ℕ, ◌+◌, Bool, true, false, not, Option, none, some, List, [], ◌∷◌, if◌then◌else◌, ltb, Str,
  str_eq, has_prefix,
}
use idpforge.Permission.{Resolved}

-- `sessionData` of internal/httpserver/session.go
pub record SessionData : Type 0 where
  pub user_id : Str
  pub must_change_password : Bool

-- `authCode` of internal/auth/oidc/provider.go
pub record AuthCode : Type 0 where
  pub client_id : Str
  pub redirect_uri : Str
  pub scope : Str
  pub user_id : Str
  pub code_challenge : Str
  pub code_challenge_method : Str

-- The record of a refresh token in the same file.
pub record RefreshRecord : Type 0 where
  pub client_id : Str
  pub user_id : Str
  pub scope : Str

pub data Value : Type 0 where
  text : Str → Value
  session : SessionData → Value
  resolved : Resolved → Value
  code_record : AuthCode → Value
  refresh_record : RefreshRecord → Value

-- `memoryEntry`
pub record Entry : Type 0 where
  pub value : Value
  pub expires : Option ℕ
  pub counter : ℕ

abbrev pub Cache : Type 0
Cache = Str → Option Entry

abbrev pub empty : Cache
empty k = none

-- `!e.expires.IsZero() && time.Now().After(e.expires)`
abbrev pub is_expired : ℕ → Entry → Bool
is_expired now e = elim e.expires [ none ↦ false | some t ↦ ltb t now ]

abbrev pub read : ℕ → Option Entry → Option Value
read now none = none
read now (some e) = if is_expired now e then none else some e.value

-- `MemoryCache.Get`
unfoldable pub get : ℕ → Str → Cache → Option Value
get now key c = read now (c key)

-- The write `c.data[key] = e`.
abbrev pub put : Str → Entry → Cache → Cache
put key e c k = if str_eq key k then some e else c k

-- The deletion `delete(c.data, key)`.
abbrev pub drop_key : Str → Cache → Cache
drop_key key c k = if str_eq key k then none else c k

abbrev pub expiry : ℕ → ℕ → Option ℕ
expiry now ttl = if ltb 0 ttl then some (now + ttl) else none

-- `MemoryCache.Set`
unfoldable pub set : ℕ → Str → Value → ℕ → Cache → Cache
set now key value ttl = put key (record { value = value; expires = expiry now ttl; counter = 0 })

-- `MemoryCache.Delete`
unfoldable pub delete : List Str → Cache → Cache
delete [] c = c
delete (k ∷ keys) c = delete keys (drop_key k c)

-- `MemoryCache.DeletePrefix`
unfoldable pub delete_prefix : Str → Cache → Cache
delete_prefix prefix c k = if has_prefix k prefix then none else c k

abbrev pub fresh : ℕ → ℕ → Entry
fresh now ttl = record { value = text []; expires = expiry now ttl; counter = 0 }

-- The entry that `MemoryCache.Increment` counts on.
abbrev pub counted : ℕ → ℕ → Option Entry → Entry
counted now ttl none = fresh now ttl
counted now ttl (some e) = if is_expired now e then fresh now ttl else e

-- `MemoryCache.Increment`
unfoldable pub increment : ℕ → Str → ℕ → Cache → Cache × ℕ
increment now key ttl c =
    let e : Entry = counted now ttl (c key) in
    let n : ℕ = e.counter + 1 in (put key (record e { counter = n }) c, n)

-- An entry that is not expired.
abbrev pub alive : ℕ → Option Entry → Option Entry
alive now none = none
alive now (some e) = if is_expired now e then none else some e

-- One round of the loop of `reaper`.
unfoldable pub reap : ℕ → Cache → Cache
reap now c k = alive now (c k)
