-- ===== src/Pages/Account/Served.antt =====
-- account/page.tsx: the calls behind its buttons, against the server.
use idpforge.Console.Response.{Reply, value, undefined, api_error, broken}
use idpforge.Base.{
  ℕ, refl, ◌≡◌, Bool, true, false, Option, none, some, List, [], ◌∷◌, Str, is_empty, if◌then◌else◌,
}
use idpforge.Permission.{Locals, Resolved}
use idpforge.Router.Fiber.{Fiber}
use idpforge.Router.Serve.{Gate}
use idpforge.Console.Nav.{me_permissions}
use idpforge.Pages.Data.{User}
use idpforge.Pages.View.{Shown, ◌&◌, AllOffered, AllOffered-sections, AllOffered-if, AllOffered-map}
use idpforge.Pages.Report.{
  AllPermitted, AllServed, AllPermitted-AllServed, SignedIn, AllOffered-show_flash,
}
use idpforge.Pages.Account.{
  Account, Event, update, view, parts, disable_form, enroll_form, upload_task, begun, key_made,
  finished, uploaded, finish_begin, finish_key, finish_upload,
}

module _ (perms : List Str) (initial : Str → Str) (supported : Bool) (u : User) (s : Account)
    (named : is_empty u.id ≡ false) where
  abbrev P : Event → Type 0
  P e = AllPermitted perms (update u e s).1

  upload-permitted : (f : Option (Str × Str)) → AllPermitted perms (upload_task u f)
  upload-permitted none = tt
  upload-permitted (some f) = (tt & named) & tt

  second_factor :
      (b : Bool) (e : Option (Str × Str))
      → AllOffered P
          (if b then disable_form initial supported s else enroll_form initial supported e s)
  unfolding update
  second_factor true e = (λ t. tt) & (λ on. (tt & tt) & tt) & tt
  second_factor false none = (λ on. (tt & tt) & tt) & tt
  second_factor false (some e) = (λ t. tt) & (λ on. (tt & tt) & tt) & tt

  pictured :
      (b : Bool)
      → AllOffered P
          ((if b then Shown.value (initial u.username) else Shown.image u.avatar_url) ∷ [])
  pictured true = tt
  pictured false = tt

  offers_permitted : AllOffered P (view initial supported u s)
  unfolding view update
  offers_permitted = AllOffered-sections P (parts initial supported u s) (
      tt
      & AllOffered-show_flash P s.flash
      & tt
      & pictured (is_empty u.avatar_url)
      & ((λ f. tt) & (λ on. upload-permitted s.avatar_file) & tt)
      & tt
      & second_factor u.mfa_enabled s.enrolling
      & tt
      & AllOffered-if P supported _ _ (λ on. (λ b. (tt & tt) & tt) & tt) tt
      & tt)

-- Every call that the page of the account offers is served, whatever permissions the user has.
pub account_served :
    (f : Fiber) (g : Gate) (c : Locals) (r : Resolved) (initial : Str → Str) (supported : Bool)
    (u : User) (s : Account)
    → SignedIn g c r
    → is_empty u.id ≡ false
    → AllOffered (λ e. AllServed f g (update u e s).1) (view initial supported u s)
account_served f g c r initial supported u s signed named =
    AllOffered-map _ _ (view initial supported u s)
      (λ e h. AllPermitted-AllServed f g c r (update u e s).1 signed h)
      (offers_permitted (me_permissions (some r)) initial supported u s named)

-- The answer that ends the registration of a key.
data EndsKey : Event → Type 0 where
  refused : (status : ℕ) (m : Str) → EndsKey (begun (api_error status m))
  lost : EndsKey (begun broken)
  empty : EndsKey (begun undefined)
  no_key : EndsKey (key_made none)
  stored : (r : Reply (Unit {0})) → EndsKey (finished r)

ends_key : (u : User) (e : Event) (s : Account) → EndsKey e → (update u e s).0.key_busy ≡ false
unfolding update finish_begin finish_key
ends_key u _ s (refused status m) = refl
ends_key u _ s lost = refl
ends_key u _ s empty = refl
ends_key u _ s no_key = refl
ends_key u _ s (stored r) = refl

ends_upload :
    (u : User) (r : Reply (Unit {0})) (s : Account)
    → (update u (uploaded r) s).0.avatar_busy ≡ false
unfolding update finish_upload
ends_upload u (value a) s = refl
ends_upload u undefined s = refl
ends_upload u (api_error status m) s = refl
ends_upload u broken s = refl
