-- ===== src/Console/Base64.antt =====
-- web/lib/webauthn.ts: base64url to bytes and back, over the `btoa` and `atob` of the browser.
pub mod RoundTrip
use idpforge.Base.{
  ℕ, zero, suc, ◌+◌, ◌-◌, ◌*◌, ◌/◌, ◌%◌, ◌≤◌, ◌<◌, ◌≡◌, ◌≢◌, refl, sym, ap, ap₂, ◌∙◌, inl, inr,
  Bool, true, false, ◌&&◌, ◌||◌, Option, none, some, List, [], ◌∷◌, ◌++◌, All, Str, is_empty,
  if◌then◌else◌, length, length-append, ltb, leb, ◌==◌, arith, keep, map,
}

infixl 20 ◌>>=◌
abbrev pub ◌>>=◌ : {A B : Type 0} → Option A → (A → Option B) → Option B
none >>= f = none
some a >>= f = f a

abbrev pub pad : ℕ
pad = b'='

-- The character of six bits.
unfoldable pub digit : ℕ → ℕ
digit n =
    if ltb n 26
    then 65 + n
    else if ltb n 52
    then 71 + n
    else if ltb n 62
    then n - 4
    else if n == 62
    then b'+'
    else b'/'

-- The six bits of a character of the alphabet.
unfoldable pub six_bits : ℕ → Option ℕ
six_bits c =
    if leb 65 c && leb c 90
    then some (c - 65)
    else if leb 97 c && leb c 122
    then some (c - 71)
    else if leb 48 c && leb c 57
    then some (c + 4)
    else if c == b'+'
    then some 62
    else if c == b'/'
    then some 63
    else none

-- `btoa`, on the code units of a binary string.
unfoldable pub btoa : Str → Str
btoa [] = []
btoa (a ∷ []) = digit (a / 4) ∷ digit (a % 4 * 16) ∷ pad ∷ pad ∷ []
btoa (a ∷ b ∷ []) = digit (a / 4) ∷ digit (a % 4 * 16 + b / 16) ∷ digit (b % 16 * 4) ∷ pad ∷ []
btoa (a ∷ b ∷ c ∷ s) =
    digit (a / 4)
    ∷ digit (a % 4 * 16 + b / 16)
    ∷ digit (b % 16 * 4 + c / 64)
    ∷ digit (c % 64)
    ∷ btoa s

-- The white space that `atob` skips.
abbrev pub skipped : ℕ → Bool
skipped c = c == 9 || c == 10 || c == 12 || c == 13 || c == 32

-- Up to two padding characters off the end.
unfoldable pub unpad : Str → Str
unpad [] = []
unpad (a ∷ []) = if a == pad then [] else a ∷ []
unpad (a ∷ b ∷ []) = if b == pad then (if a == pad then [] else a ∷ []) else a ∷ b ∷ []
unpad (a ∷ b ∷ c ∷ s) = a ∷ unpad (b ∷ c ∷ s)

-- Each four characters as three bytes; what is left over by two or three loses its last bits.
unfoldable pub decoded : Str → Option Str
decoded [] = some []
decoded (a ∷ []) = none
decoded (a ∷ b ∷ []) = do x ← six_bits a; y ← six_bits b; some ((x * 4 + y / 16) ∷ [])
decoded (a ∷ b ∷ c ∷ []) = do
  x ← six_bits a
  y ← six_bits b
  z ← six_bits c
  some ((x * 4 + y / 16) ∷ (y % 16 * 16 + z / 4) ∷ [])
decoded (a ∷ b ∷ c ∷ d ∷ s) =
    let behind = decoded s in
    do
      x ← six_bits a
      y ← six_bits b
      z ← six_bits c
      w ← six_bits d
      rest ← behind
      some ((x * 4 + y / 16) ∷ (y % 16 * 16 + z / 4) ∷ (z % 4 * 64 + w) ∷ rest)

-- `atob`; `none` is its exception.
unfoldable pub atob : Str → Option Str
unfolding unpad decoded
atob s =
    let t = keep (λ c. if skipped c then false else true) s in
    decoded (if length t % 4 == 0 then unpad t else t)

-- `replace` of every place of one character by another.
abbrev pub replace : ℕ → ℕ → Str → Str
replace c d = map (λ x. if x == c then d else x)

-- `"=".repeat(n)`
abbrev pub pads : ℕ → Str
pads zero = []
pads (suc n) = pad ∷ pads n

-- `replace(/=+$/, "")`
unfoldable pub drop_pads : Str → Str
drop_pads [] = []
drop_pads (c ∷ s) = let rest = drop_pads s in if c == pad && is_empty rest then [] else c ∷ rest

-- `base64urlToBuffer`
unfoldable pub base64url_to_buffer : Str → Option Str
unfolding atob
base64url_to_buffer s =
    let padding = pads ((4 - length s % 4) % 4) in
    atob (replace b'_' b'/' (replace b'-' b'+' (s ++ padding)))

-- `bufferToBase64url`
unfoldable pub buffer_to_base64url : Str → Str
unfolding btoa drop_pads
buffer_to_base64url bytes = drop_pads (replace b'/' b'_' (replace b'+' b'-' (btoa bytes)))
