-- ===== src/Pages/SignIn.antt =====
-- web/app/login/page.tsx and web/app/change-password/page.tsx: the two forms.
use idpforge.Base.{
  ℕ, ◌≤◌, ◌≡◌, inl, inr, Bool, true, false, not, Option, none, some, [], Str, codes, is_empty,
  arith, if◌then◌else◌, str_eq, str_eq_iff, leb, Bool-cases,
}
use idpforge.Console.{Call, login}
use idpforge.Console.Response.{
  Reply, value, undefined, api_error, broken, Response, error_message, is_ok, ServerError,
  error_handler, code_of, text_of, generic, read_response, read_response-error_handler,
}

-- The result of `api.login`.
pub record LoginResult : Type 0 where
  pub user_id : Str
  pub mfa_required : Bool
  pub password_change_required : Bool

-- The state of `LoginPage`; `path` is where its router has gone.
pub record LoginPage : Type 0 where
  pub username : Str
  pub password : Str
  pub mfa_code : Str
  pub error : Str
  pub busy : Bool
  pub path : Str

-- `handleSubmit` up to its call.
unfoldable pub submit_login : LoginPage → LoginPage × Call
submit_login s = (record s { error = []; busy = true }, login s.username s.password s.mfa_code [])

-- `handleSubmit` from the answer on; an answer that is not a value or an error of the API fails.
unfoldable pub finish_submit : Reply LoginResult → LoginPage → LoginPage
finish_submit (value r) s = record s {
  path = if r.password_change_required then codes "/change-password" else codes "/";
  busy = false;
}
finish_submit (api_error status message) s = record s { error = message; busy = false }
finish_submit undefined s = record s { error = codes "Login failed"; busy = false }
finish_submit broken s = record s { error = codes "Login failed"; busy = false }

-- The state of `ChangePasswordPage`.
pub record ChangePage : Type 0 where
  pub current_password : Str
  pub new_password : Str
  pub confirm : Str
  pub error : Str
  pub busy : Bool
  pub path : Str

-- What its form sends: the current password and the new one.
unfoldable pub submit_change : ChangePage → ChangePage × Option (Str × Str)
submit_change s =
    if not (str_eq s.new_password s.confirm)
    then (record s { error = codes "New passwords do not match" }, none)
    else (record s { error = []; busy = true }, some (s.current_password, s.new_password))

-- Its answer, `none` where the request itself failed.
unfoldable pub finish_change : {A : Type 0} → Option (Response A) → ChangePage → ChangePage
finish_change none s = record s { error = codes "Could not change password"; busy = false }
finish_change (some r) s =
    if not (is_ok r.status)
    then record s {
      error = error_message (codes "Could not change password") r.error_body;
      busy = false;
    }
    else record s { path = codes "/"; busy = false }

-- The passwords that a form sends are the ones that were typed twice alike.
pub sends_confirmed :
    (s : ChangePage) (sent : Str × Str)
    → (submit_change s).1 ≡ some sent
    → (sent ≡ (s.current_password, s.new_password)) × (s.new_password ≡ s.confirm)
unfolding submit_change
sends_confirmed s sent h = elim (Bool-cases (str_eq s.new_password s.confirm)) [
  | inl e ↦ (ground arith, (str_eq_iff _ _).0 e)
  | inr e ↦ ground arith
]

-- A refused login stays on the page, no longer busy, and shows the text of the refusal; where the
-- server fails, it shows that something went wrong and nothing of the server's text.
pub refused_login :
    (status_text : ℕ → Str) (e : ServerError) (s : LoginPage)
    → 400 ≤ code_of e
    → is_empty (text_of e) ≡ false
    → finish_submit (read_response (error_handler status_text e)) (submit_login s).0
      ≡ record s { error = if leb 500 (code_of e) then generic else text_of e; busy = false }
unfolding finish_submit submit_login
refused_login status_text e s h t =
    rw (read_response-error_handler {A = LoginResult} status_text e h t)
