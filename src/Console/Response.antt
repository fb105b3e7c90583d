-- ===== src/Console/Response.antt =====
-- web/lib/api.ts, `request`: what the console makes of a response; and the responses of
-- `errorHandler` in internal/httpserver/server.go.
use idpforge.Base.{
  ℕ, ◌≤◌, ◌≡◌, refl, inl, inr, Bool, false, not, ◌&&◌, Option, none, some, [], Str, codes, is_empty,
  arith, if◌then◌else◌, leb, ltb, ◌==◌, Bool-cases,
}

-- The fields of an error's JSON body; "" is a field that is not there.
pub record ErrorBody : Type 0 where
  pub message : Str
  pub error : Str

-- A response, with its body as `res.json()` reads it: an error's, or what was asked for; `none` is a
-- body that is no JSON.
pub record Response (A : Type 0) : Type 0 where
  pub status : ℕ
  pub status_text : Str
  pub error_body : Option ErrorBody
  pub payload : Option A

pub data Reply (A : Type 0) : Type 0 where
  value : A → Reply A
  undefined : Reply A
  api_error : ℕ → Str → Reply A
  broken : Reply A

-- `res.ok`
abbrev pub is_ok : ℕ → Bool
is_ok status = leb 200 status && ltb status 300

-- `s || t`
abbrev pub or_else : Str → Str → Str
or_else s t = if is_empty s then t else s

abbrev pub error_message : Str → Option ErrorBody → Str
error_message status_text none = status_text
error_message status_text (some b) = or_else b.message (or_else b.error status_text)

-- The part of `request` behind `fetch`.
unfoldable pub read_response : {A : Type 0} → Response A → Reply A
read_response r =
    if not (is_ok r.status)
    then api_error r.status (error_message r.status_text r.error_body)
    else if r.status == 204
    then undefined
    else elim r.payload [ none ↦ broken | some a ↦ value a ]

-- An error that a handler returns: one of the framework, with its code, or any other.
pub data ServerError : Type 0 where
  fiber_error : ℕ → Str → ServerError
  other_error : Str → ServerError

abbrev pub code_of : ServerError → ℕ
code_of (fiber_error code text) = code
code_of (other_error text) = 500

abbrev pub text_of : ServerError → Str
text_of (fiber_error code text) = text
text_of (other_error text) = text

abbrev pub generic : Str
generic = codes "something went wrong on our end"

-- `errorHandler`, without the entry that it logs; `status_text` is that of the code.
unfoldable pub error_handler : {A : Type 0} → (ℕ → Str) → ServerError → Response A
error_handler status_text e = record {
  status = code_of e;
  status_text = status_text (code_of e);
  error_body = some (
      if leb 500 (code_of e)
      then record { message = generic; error = codes "internal_error" }
      else record { message = []; error = text_of e });
  payload = none;
}

-- The console shows the text of a client's error, and of a server's error nothing but that there was
-- one: its text stays on the server.
pub read_response-error_handler :
    {A : Type 0} (status_text : ℕ → Str) (e : ServerError)
    → 400 ≤ code_of e
    → is_empty (text_of e) ≡ false
    → read_response {A = A} (error_handler status_text e)
      ≡ api_error (code_of e) (if leb 500 (code_of e) then generic else text_of e)
unfolding read_response error_handler
read_response-error_handler status_text e h t = elim (Bool-cases (leb 500 (code_of e))) [
  | inl s ↦ rw (s, refused) refl
  | inr s ↦ rw (s, refused, t) refl
]
  where
    refused : is_ok (code_of e) ≡ false
    refused = ground arith
