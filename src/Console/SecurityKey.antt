-- ===== src/Console/SecurityKey.antt =====
-- `registerSecurityKey` of web/lib/webauthn.ts: the options of the server made fit for the browser,
-- and the browser's new credential made fit for the server.
use idpforge.Base.{ℕ, ◌≡◌, refl, Option, none, some, List, [], ◌∷◌, map, All, Str}
use idpforge.Console.Base64.{◌>>=◌, base64url_to_buffer, buffer_to_base64url}
use idpforge.Console.Base64.RoundTrip.{AreBytes, base64url_to_buffer-buffer_to_base64url}

-- The fields of the options that are converted; the others are passed on as they are.
pub record JsonOptions : Type 0 where
  pub challenge : Str
  pub user_id : Str
  pub exclude_credentials : Option (List Str)

pub record PublicKey : Type 0 where
  pub challenge : List ℕ
  pub user_id : List ℕ
  pub exclude_credentials : List (List ℕ)

-- What the browser gives; `extensions` stands for its results of the extensions.
pub record Credential : Type 0 where
  pub id : Str
  pub raw_id : List ℕ
  pub kind : Str
  pub attestation_object : List ℕ
  pub client_data_json : List ℕ
  pub extensions : Str

pub record Registration : Type 0 where
  pub id : Str
  pub raw_id : Str
  pub kind : Str
  pub attestation_object : Str
  pub client_data_json : Str
  pub extensions : Str

-- `?? []`
abbrev pub or_empty : Option (List Str) → List Str
or_empty none = []
or_empty (some xs) = xs

-- The IDs of the credentials to leave out; one that does not decode fails the whole call.
unfoldable pub decode_all : List Str → Option (List (List ℕ))
decode_all [] = some []
decode_all (x ∷ xs) =
    let rest = decode_all xs in do id ← base64url_to_buffer x; ids ← rest; some (id ∷ ids)

unfoldable pub public_key : JsonOptions → Option PublicKey
unfolding decode_all
public_key options = do
  challenge ← base64url_to_buffer options.challenge
  user_id ← base64url_to_buffer options.user_id
  exclude_credentials ← decode_all (or_empty options.exclude_credentials)
  some (record {
    challenge = challenge;
    user_id = user_id;
    exclude_credentials = exclude_credentials;
  })

abbrev pub registration : Credential → Registration
registration c = record {
  id = c.id;
  raw_id = buffer_to_base64url c.raw_id;
  kind = c.kind;
  attestation_object = buffer_to_base64url c.attestation_object;
  client_data_json = buffer_to_base64url c.client_data_json;
  extensions = c.extensions;
}

-- `create` is `navigator.credentials.create`, which may give no credential. `none` is an exception.
unfoldable pub register_security_key :
    (PublicKey → Option Credential) → JsonOptions → Option Registration
unfolding public_key
register_security_key create options = do
  key ← public_key options
  c ← create key
  some (registration c)

-- The options of a key as the server writes them, which encodes bytes the same way.
abbrev pub options_of : PublicKey → JsonOptions
options_of k = record {
  challenge = buffer_to_base64url k.challenge;
  user_id = buffer_to_base64url k.user_id;
  exclude_credentials = some (map buffer_to_base64url k.exclude_credentials);
}

pub record HasBytes (k : PublicKey) (c : Credential) : Type 0 where
  pub challenge : AreBytes k.challenge
  pub user_id : AreBytes k.user_id
  pub exclude_credentials : All AreBytes k.exclude_credentials
  pub raw_id : AreBytes c.raw_id
  pub attestation_object : AreBytes c.attestation_object
  pub client_data_json : AreBytes c.client_data_json

decode_all-map :
    (xs : List (List ℕ)) → All AreBytes xs → decode_all (map buffer_to_base64url xs) ≡ some xs
unfolding decode_all
decode_all-map [] h = refl
decode_all-map (x ∷ xs) (h, hs) =
    rw (base64url_to_buffer-buffer_to_base64url x h, decode_all-map xs hs) refl

public_key-options_of :
    (k : PublicKey) (c : Credential) → HasBytes k c → public_key (options_of k) ≡ some k
unfolding public_key
public_key-options_of k c h =
    rw
      (
        base64url_to_buffer-buffer_to_base64url k.challenge h.challenge,
        base64url_to_buffer-buffer_to_base64url k.user_id h.user_id,
        decode_all-map k.exclude_credentials h.exclude_credentials,
      )
      refl

-- The browser is asked with the bytes that the server encoded, and where it makes a credential of
-- them, the answer holds the credential: its ID, type and extensions as they are, and its bytes as the
-- server decodes them.
pub register_keeps_bytes :
    (create : PublicKey → Option Credential) (k : PublicKey) (c : Credential)
    → HasBytes k c
    → create k ≡ some c
    → (a : Registration) × (register_security_key create (options_of k) ≡ some a)
      × (a.id ≡ c.id)
      × (a.kind ≡ c.kind)
      × (a.extensions ≡ c.extensions)
      × (base64url_to_buffer a.raw_id ≡ some c.raw_id)
      × (base64url_to_buffer a.attestation_object ≡ some c.attestation_object)
      × (base64url_to_buffer a.client_data_json ≡ some c.client_data_json)
unfolding register_security_key
register_keeps_bytes create k c h made = (
  registration c,
  rw (public_key-options_of k c h, made) refl,
  refl,
  refl,
  refl,
  base64url_to_buffer-buffer_to_base64url c.raw_id h.raw_id,
  base64url_to_buffer-buffer_to_base64url c.attestation_object h.attestation_object,
  base64url_to_buffer-buffer_to_base64url c.client_data_json h.client_data_json,
)

-- Options whose challenge is no base64url end in an exception.
pub register_fails :
    (create : PublicKey → Option Credential) (o : JsonOptions)
    → base64url_to_buffer o.challenge ≡ none
    → register_security_key create o ≡ none
unfolding register_security_key public_key
register_fails create o bad = rw bad refl
