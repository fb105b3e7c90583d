-- ===== src/Accounts/Partial.antt =====
-- internal/users/repository.go, `Update`, and `handleUpdateUser`: an update that the database
-- refuses half way.
use idpforge.Base.{ℕ, ◌≡◌, refl, ap, Bool, true, not, ◌&&◌, none, some, Str, any, is_empty, str_eq}
use idpforge.Users.{Account, with_id, update_row, update, UpdateInput, set_status, taken}
use idpforge.Users.Rows.{any-update_row}
use idpforge.Auth.{World}
use idpforge.Accounts.{handle_update_user, failed}

abbrev pub has_employee_id : Str → Account → Bool
has_employee_id e a = not (is_empty e) && str_eq a.user.employee_id e

abbrev pub status_and_employee_id : Str → Str → UpdateInput
status_and_employee_id status employee_id = record {
  email = none;
  employee_id = some employee_id;
  status = some status;
}

-- An update of a status and an employee ID that another account holds answers 404, though the
-- account is there; the new status stays, and the audit log has no entry of it.
pub update_half_done :
    (now : ℕ) (actor id status employee_id : Str) (w : World)
    → any (with_id id) w.accounts ≡ true
    → taken (has_employee_id employee_id) id w.accounts ≡ true
    → ((handle_update_user now actor id (status_and_employee_id status employee_id) w).1
        ≡ failed 404)
      × ((handle_update_user now actor id (status_and_employee_id status employee_id) w).0.accounts
          ≡ update_row (set_status (some status)) id w.accounts)
      × ((handle_update_user now actor id (status_and_employee_id status employee_id) w).0.log
          ≡ w.log)
unfolding handle_update_user update
update_half_done now actor id status employee_id w here used =
    let there = any-update_row (with_id id) (set_status (some status)) id w.accounts (λ a. refl) in
    let other =
      any-update_row (λ a. not (with_id id a) && has_employee_id employee_id a)
        (set_status (some status)) id w.accounts (λ a. refl) in
    let half : update now id (status_and_employee_id status employee_id) w.accounts
        ≡ (update_row (set_status (some status)) id w.accounts, none) =
      rw (update, there, other, here, used) in
    rw (handle_update_user, half) (refl, ap (λ r. r.0) half, refl)
