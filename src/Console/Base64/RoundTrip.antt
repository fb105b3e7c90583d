-- ===== src/Console/Base64/RoundTrip.antt =====
-- web/lib/webauthn.ts: what `bufferToBase64url` writes, `base64urlToBuffer` reads back.
use idpforge.Base.{
  ℕ, zero, suc, ◌+◌, ◌-◌, ◌*◌, ◌/◌, ◌%◌, ◌≤◌, ◌<◌, ◌≡◌, ◌≢◌, refl, ap, ap₂, true, false, some, [],
  ◌∷◌, ◌++◌, All, Str, if◌then◌else◌, length, length-append, ◌==◌, arith, keep, map,
}
use idpforge.Console.Base64.{
  pad, digit, six_bits, btoa, skipped, unpad, decoded, atob, replace, pads, drop_pads,
  base64url_to_buffer, buffer_to_base64url,
}

-- A buffer holds bytes.
abbrev pub AreBytes : Str → Type 0
AreBytes = All (λ b. b < 256)

-- The encoding without the padding.
unfoldable encoded : Str → Str
encoded [] = []
encoded (a ∷ []) = digit (a / 4) ∷ digit (a % 4 * 16) ∷ []
encoded (a ∷ b ∷ []) = digit (a / 4) ∷ digit (a % 4 * 16 + b / 16) ∷ digit (b % 16 * 4) ∷ []
encoded (a ∷ b ∷ c ∷ s) =
    digit (a / 4)
    ∷ digit (a % 4 * 16 + b / 16)
    ∷ digit (b % 16 * 4 + c / 64)
    ∷ digit (c % 64)
    ∷ encoded s

-- A character in its url form, and back.
abbrev to_url : ℕ → ℕ
to_url c = let d = if c == b'+' then b'-' else c in if d == b'/' then b'_' else d

abbrev from_url : ℕ → ℕ
from_url c = let d = if c == b'-' then b'+' else c in if d == b'_' then b'/' else d

-- A character of the alphabet of base64.
abbrev InAlphabet : ℕ → Type 0
InAlphabet c = (c ≢ pad) × (c ≢ b'-') × (c ≢ b'_') × (skipped c ≡ false)

digit-InAlphabet : (n : ℕ) → n < 64 → InAlphabet (digit n)
unfolding digit
digit-InAlphabet n h = (ground arith, ground arith, ground arith, ground arith)

six_bits-digit : (n : ℕ) → n < 64 → six_bits (digit n) ≡ some n
unfolding digit six_bits
six_bits-digit n h = ground arith

triple :
    {x y z a b c : ℕ} {s : Str}
    → x ≡ a
    → y ≡ b
    → z ≡ c
    → some (x ∷ y ∷ z ∷ s) ≡ some (a ∷ b ∷ c ∷ s)
triple e f g = cc

decoded-encoded : (bs : Str) → AreBytes bs → decoded (encoded bs) ≡ some bs
unfolding decoded encoded
decoded-encoded [] h = refl
decoded-encoded (a ∷ []) h =
    rw (six_bits-digit (a / 4) (omega arith), six_bits-digit (a % 4 * 16) (omega arith))
      (ap (λ x. some (x ∷ [])) (omega arith))
decoded-encoded (a ∷ b ∷ []) h =
    rw
      (
        six_bits-digit (a / 4) (omega arith),
        six_bits-digit (a % 4 * 16 + b / 16) (omega arith),
        six_bits-digit (b % 16 * 4) (omega arith),
      )
      (ap₂ (λ x y. some (x ∷ y ∷ [])) (omega arith) (omega arith))
decoded-encoded (a ∷ b ∷ c ∷ s) h =
    rw
      (
        six_bits-digit (a / 4) (omega arith),
        six_bits-digit (a % 4 * 16 + b / 16) (omega arith),
        six_bits-digit (b % 16 * 4 + c / 64) (omega arith),
        six_bits-digit (c % 64) (omega arith),
        decoded-encoded s h.1.1.1,
      )
      (triple (omega arith) (omega arith) (omega arith))

-- The encoding has no character of the url form, no padding and no white space.
encoded-InAlphabet : (bs : Str) → AreBytes bs → All InAlphabet (encoded bs)
unfolding encoded
encoded-InAlphabet [] h = tt
encoded-InAlphabet (a ∷ []) h =
    (digit-InAlphabet (a / 4) (omega arith), (digit-InAlphabet (a % 4 * 16) (omega arith), tt))
encoded-InAlphabet (a ∷ b ∷ []) h = (
  digit-InAlphabet (a / 4) (omega arith),
  (
    digit-InAlphabet (a % 4 * 16 + b / 16) (omega arith),
    (digit-InAlphabet (b % 16 * 4) (omega arith), tt),
  ),
)
encoded-InAlphabet (a ∷ b ∷ c ∷ s) h = (
  digit-InAlphabet (a / 4) (omega arith),
  (
    digit-InAlphabet (a % 4 * 16 + b / 16) (omega arith),
    (
      digit-InAlphabet (b % 16 * 4 + c / 64) (omega arith),
      (digit-InAlphabet (c % 64) (omega arith), encoded-InAlphabet s h.1.1.1),
    ),
  ),
)

-- Four characters more need the same padding.
pads_cycle : (n : ℕ) → pads ((4 - suc (suc (suc (suc n))) % 4) % 4) ≡ pads ((4 - n % 4) % 4)
pads_cycle n = ap pads (omega arith)

btoa_lem : (bs : Str) → btoa bs ≡ encoded bs ++ pads ((4 - length (encoded bs) % 4) % 4)
unfolding btoa encoded
btoa_lem [] = refl
btoa_lem (a ∷ []) = refl
btoa_lem (a ∷ b ∷ []) = refl
btoa_lem (a ∷ b ∷ c ∷ s) = rw (pads_cycle (length (encoded s)), btoa_lem s) refl

-- The url form without its padding.
drop_pads-replace :
    (s : Str) (n : ℕ)
    → All InAlphabet s
    → drop_pads (replace b'/' b'_' (replace b'+' b'-' (s ++ pads n))) ≡ map to_url s
unfolding drop_pads
drop_pads-replace [] n h = all_pads n
  where
    all_pads : (n : ℕ) → drop_pads (replace b'/' b'_' (replace b'+' b'-' (pads n))) ≡ []
    all_pads zero = refl
    all_pads (suc n) = rw (all_pads n) refl
drop_pads-replace (c ∷ s) n (h, hs) = rw (drop_pads-replace s n hs) (ground arith)

replace-to_url :
    (s : Str) (n : ℕ)
    → All InAlphabet s
    → replace b'_' b'/' (replace b'-' b'+' (map to_url s ++ pads n)) ≡ s ++ pads n
replace-to_url [] zero h = refl
replace-to_url [] (suc n) h = ap (λ t. pad ∷ t) (replace-to_url [] n h)
replace-to_url (c ∷ s) n (h, hs) = ap₂ ◌∷◌ (ground arith) (replace-to_url s n hs)

length-to_url : (s : Str) → length (map to_url s) ≡ length s
length-to_url [] = refl
length-to_url (c ∷ s) = ap suc (length-to_url s)

length-pads : (n : ℕ) → length (pads n) ≡ n
length-pads zero = refl
length-pads (suc n) = ap suc (length-pads n)

abbrev unskipped : Str → Str
unskipped = keep (λ c. if skipped c then false else true)

unskipped-pads : (s : Str) (n : ℕ) → All InAlphabet s → unskipped (s ++ pads n) ≡ s ++ pads n
unskipped-pads [] zero h = refl
unskipped-pads [] (suc n) h = ap (λ t. pad ∷ t) (unskipped-pads [] n h)
unskipped-pads (c ∷ s) n (h, hs) = rw (h.3, unskipped-pads s n hs) refl

-- Up to two padding characters are taken off a text that has none itself.
unpad-pads : (s : Str) (n : ℕ) → All InAlphabet s → n ≤ 2 → unpad (s ++ pads n) ≡ s
unfolding unpad
unpad-pads [] zero h le = refl
unpad-pads [] (suc zero) h le = refl
unpad-pads [] (suc (suc zero)) h le = refl
unpad-pads [] (suc (suc (suc n))) h le = absurd (omega arith)
unpad-pads (a ∷ []) zero (h, _) le = ground arith
unpad-pads (a ∷ []) (suc zero) (h, _) le = ground arith
unpad-pads (a ∷ []) (suc (suc zero)) (h, _) le = refl
unpad-pads (a ∷ []) (suc (suc (suc n))) h le = absurd (omega arith)
unpad-pads (a ∷ b ∷ []) zero (h, (k, _)) le = ground arith
unpad-pads (a ∷ b ∷ []) (suc n) (h, hs) le = ap (λ t. a ∷ t) (unpad-pads (b ∷ []) (suc n) hs le)
unpad-pads (a ∷ b ∷ c ∷ s) n (h, hs) le = ap (λ t. a ∷ t) (unpad-pads (b ∷ c ∷ s) n hs le)

abbrev missing : Str → ℕ
missing s = (4 - length s % 4) % 4

missing-encoded : (bs : Str) → missing (encoded bs) ≤ 2
unfolding encoded
missing-encoded [] = omega arith
missing-encoded (a ∷ []) = omega arith
missing-encoded (a ∷ b ∷ []) = omega arith
missing-encoded (a ∷ b ∷ c ∷ s) = omega (arith, missing-encoded s)

atob_lem : (s : Str) → All InAlphabet s → missing s ≤ 2 → atob (s ++ pads (missing s)) ≡ decoded s
unfolding atob
atob_lem s h le =
    let whole : length (s ++ pads (missing s)) % 4 ≡ 0 =
      rw (length-append s (pads (missing s)), length-pads (missing s)) (omega arith) in
    rw (unskipped-pads s (missing s) h, whole, unpad-pads s (missing s) h le) refl

-- The bytes that `bufferToBase64url` writes are those that `base64urlToBuffer` reads back.
pub base64url_to_buffer-buffer_to_base64url :
    (bytes : Str) → AreBytes bytes → base64url_to_buffer (buffer_to_base64url bytes) ≡ some bytes
unfolding base64url_to_buffer buffer_to_base64url
base64url_to_buffer-buffer_to_base64url bytes h =
    let es = encoded-InAlphabet bytes h in
    rw
      (
        btoa_lem bytes,
        drop_pads-replace (encoded bytes) (missing (encoded bytes)) es,
        length-to_url (encoded bytes),
        replace-to_url (encoded bytes) (missing (encoded bytes)) es,
        atob_lem (encoded bytes) es (missing-encoded bytes),
      )
      (decoded-encoded bytes h)
