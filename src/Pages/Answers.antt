-- ===== src/Pages/Answers.antt =====
-- The pages of web/app/(app): the calls that follow an answer.
use idpforge.Base.{
  ℕ, List, ◌≡◌, ◌↔◌, ◌⊎◌, inl, inr, Bool, true, false, Option, none, some, [], ◌∷◌, Str, codes,
  is_empty, if◌then◌else◌, ◌==◌,
}
use idpforge.Console.{users_list}
use idpforge.Pages.{page_size}
use idpforge.Permission.{Locals, Resolved}
use idpforge.Router.Fiber.{Fiber}
use idpforge.Router.Serve.{Gate}
use idpforge.Console.Nav.{me_permissions}
use idpforge.Console.Response.{Reply, value, undefined, api_error, broken}
use idpforge.Pages.Data
use idpforge.Pages.View.{◌&◌}
use idpforge.Pages.Report.{load, AllPermitted, AllServed, SignedIn}
use idpforge.Pages.Opening
use idpforge.Pages.Opening.{Granted, opening, opening_iff}
use idpforge.Pages.UserList
use idpforge.Pages.UserList.{UserList}
use idpforge.Pages.UserDetail
use idpforge.Pages.UserDetail.{UserDetail}
use idpforge.Pages.RoleList
use idpforge.Pages.RoleList.{RoleList}
use idpforge.Pages.RoleDetail
use idpforge.Pages.RoleDetail.{RoleDetail}
use idpforge.Pages.ApiClients
use idpforge.Pages.ApiClients.{ApiClients}
use idpforge.Pages.Devices
use idpforge.Pages.Devices.{Devices}
use idpforge.Pages.Account
use idpforge.Pages.Account.{Account}

-- The answer is an error, or did not come.
abbrev pub Fails : {A : Type 0} → Reply A → Type 0
Fails (value a) = ⊥
Fails undefined = ⊥
Fails (api_error status message) = Unit
Fails broken = Unit

module _ (perms : List Str) where
  first_page :
      Granted perms (codes "users", codes "read")
      → (b : Bool)
      → AllPermitted perms
          (load (users_list page_size 0) ∷ (if b then [] else load (users_list page_size 0) ∷ []))
  first_page h true = ((h & tt) & tt) & tt
  first_page h false = ((h & tt) & tt) & ((h & tt) & tt) & tt

  pub AllPermitted-user_list :
      (a : Reply Data.User) (s : UserList)
      → Granted perms (codes "users", codes "read")
      → AllPermitted perms (UserList.update (UserList.created a) s).1
  unfolding UserList.update UserList.finish_create UserList.after_create UserList.move_to
  AllPermitted-user_list (value u) s h = first_page h (0 == s.offset)
  AllPermitted-user_list undefined s h = first_page h (0 == s.offset)
  AllPermitted-user_list (api_error status message) s h = tt
  AllPermitted-user_list broken s h = tt

  pub AllPermitted-role_list :
      (ok_msg fail_msg : Str) (a : Reply (Unit {0})) (s : RoleList)
      → Granted perms (codes "rbac", codes "manage")
      → AllPermitted perms (RoleList.update (RoleList.reported ok_msg fail_msg a) s).1
  unfolding RoleList.update
  AllPermitted-role_list ok_msg fail_msg (value u) s h =
      ((h & tt) & tt) & ((h & tt) & tt) & ((h & tt) & tt) & tt
  AllPermitted-role_list ok_msg fail_msg undefined s h =
      ((h & tt) & tt) & ((h & tt) & tt) & ((h & tt) & tt) & tt
  AllPermitted-role_list ok_msg fail_msg (api_error status message) s h = tt
  AllPermitted-role_list ok_msg fail_msg broken s h = tt

  pub AllPermitted-role_detail :
      (id ok_msg fail_msg : Str) (a : Reply (Unit {0})) (s : RoleDetail)
      → is_empty id ≡ false
      → Granted perms (codes "rbac", codes "manage")
      → AllPermitted perms (RoleDetail.update id (RoleDetail.reported ok_msg fail_msg a) s).1
  unfolding RoleDetail.update
  AllPermitted-role_detail id ok_msg fail_msg (value u) s n h =
      ((h & tt) & n) & ((h & tt) & n) & ((h & tt) & tt) & tt
  AllPermitted-role_detail id ok_msg fail_msg undefined s n h =
      ((h & tt) & n) & ((h & tt) & n) & ((h & tt) & tt) & tt
  AllPermitted-role_detail id ok_msg fail_msg (api_error status message) s n h = tt
  AllPermitted-role_detail id ok_msg fail_msg broken s n h = tt

  pub AllPermitted-created_client :
      (to_number : Str → ℕ) (a : Reply Str) (s : ApiClients)
      → Granted perms (codes "api_clients", codes "manage")
      → AllPermitted perms (ApiClients.update to_number (ApiClients.created a) s).1
  unfolding ApiClients.update ApiClients.finish_create
  AllPermitted-created_client to_number (value key) s h = ((h & tt) & tt) & tt
  AllPermitted-created_client to_number undefined s h = tt
  AllPermitted-created_client to_number (api_error status message) s h = tt
  AllPermitted-created_client to_number broken s h = tt

  pub AllPermitted-revoked_client :
      (to_number : Str → ℕ) (a : Reply (Unit {0})) (s : ApiClients)
      → Granted perms (codes "api_clients", codes "manage")
      → AllPermitted perms (ApiClients.update to_number (ApiClients.revoked a) s).1
  unfolding ApiClients.update ApiClients.finish_revoke
  AllPermitted-revoked_client to_number (value u) s h = ((h & tt) & tt) & tt
  AllPermitted-revoked_client to_number undefined s h = ((h & tt) & tt) & tt
  AllPermitted-revoked_client to_number (api_error status message) s h = tt
  AllPermitted-revoked_client to_number broken s h = tt

  pub AllPermitted-devices :
      (a : Reply Str) (s : Devices)
      → Granted perms (codes "iot", codes "manage")
      → Granted perms (codes "iot", codes "read")
      → AllPermitted perms (Devices.update (Devices.created a) s).1
  unfolding Devices.update Devices.finish_create
  AllPermitted-devices (value key) s m r = ((m & tt) & tt) & ((m & r & tt) & tt) & tt
  AllPermitted-devices undefined s m r = tt
  AllPermitted-devices (api_error status message) s m r = tt
  AllPermitted-devices broken s m r = tt

  -- What the browser made of the options is sent to the server.
  pub AllPermitted-key_made :
      (u : Data.User) (o : Option Str) (s : Account)
      → AllPermitted perms (Account.update u (Account.key_made o) s).1
  unfolding Account.update
  AllPermitted-key_made u none s = tt
  AllPermitted-key_made u (some credential) s = (tt & tt) & tt

-- The page of a user is loaded again after a success, which takes two permissions.
pub user_detail_again_iff :
    (f : Fiber) (g : Gate) (c : Locals) (r : Resolved) (id ok_msg fail_msg : Str)
    (a : Reply (Unit {0})) (s : UserDetail)
    → SignedIn g c r
    → is_empty id ≡ false
    → AllServed f g (UserDetail.update id (UserDetail.reported ok_msg fail_msg a) s).1 ↔ (
        Fails a
        ⊎ (Granted (me_permissions (some r)) (codes "users", codes "read")
            × Granted (me_permissions (some r)) (codes "rbac", codes "manage")))
unfolding UserDetail.update opening
user_detail_again_iff f g c r id ok_msg fail_msg (value u) s signed n =
    let (asks, pass) = opening_iff f g c r (Opening.user id) signed n in
    (
      λ h. let (read, (manage, _)) = asks h in inr (read, manage),
      λ x. elim x [ inl e ↦ elim e [ ] | inr (read, manage) ↦ pass (read & manage & tt) ],
    )
user_detail_again_iff f g c r id ok_msg fail_msg undefined s signed n =
    let (asks, pass) = opening_iff f g c r (Opening.user id) signed n in
    (
      λ h. let (read, (manage, _)) = asks h in inr (read, manage),
      λ x. elim x [ inl e ↦ elim e [ ] | inr (read, manage) ↦ pass (read & manage & tt) ],
    )
user_detail_again_iff f g c r id ok_msg fail_msg (api_error status message) s signed n =
    (λ h. inl tt, λ x. tt)
user_detail_again_iff f g c r id ok_msg fail_msg broken s signed n = (λ h. inl tt, λ x. tt)
