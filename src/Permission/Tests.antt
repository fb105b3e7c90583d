-- ===== src/Permission/Tests.antt =====
-- Concrete permissions, users and API clients.
use idpforge.Base.{
  ◌≡◌, refl, true, false, Option, none, some, [], ◌∷◌, arith, Str, codes, str_eq, if◌then◌else◌,
  map, cut, cut_last, cut_suffix, has_prefix,
}
use idpforge.Permission.{
  Permission, matches, to_string, Resolved, has, has_in, has_scope, has_permission_ui, Locals, next,
  fail, require_own_scopes, require_permission, require_own_scope, scope_grants,
}
use idpforge.Permission.Agreement.{has_permission_ui-eq-has}
use idpforge.Permission.Grant.{actor_tame, no_escalation, double_star, double_star_escalates}
use idpforge.Permission.Tame.{is_tame}

abbrev read_db : Permission
read_db = record { resource = codes "db/*"; action = codes "r" }

abbrev alice : Resolved
alice = record { user_id = codes "alice"; role_names = []; permissions = read_db ∷ [] }

abbrev resolve_alice : Str → Option Resolved
resolve_alice u = if str_eq u (codes "alice") then some alice else none

abbrev as_alice : Locals
as_alice = record { user_id = codes "alice"; api_client = none }

inside_folder : matches read_db (codes "db/prod") ≡ true
unfolding matches str_eq cut_suffix has_prefix
inside_folder = refl

outside_folder : matches read_db (codes "dbx/prod") ≡ false
unfolding matches str_eq cut_suffix has_prefix
outside_folder = refl

narrower_is_refused : require_own_scopes resolve_alice as_alice (codes "*:r" ∷ []) ≡ fail 403
unfolding require_own_scopes require_own_scope cut_last str_eq has matches cut_suffix has_prefix
narrower_is_refused = refl

has_permission_ui-eq-has_example :
    has_permission_ui (map to_string (read_db ∷ [])) (codes "db/prod") (codes "r")
    ≡ has_in (read_db ∷ []) (codes "db/prod") (codes "r")
has_permission_ui-eq-has_example =
    has_permission_ui-eq-has (read_db ∷ []) (codes "db/prod") (codes "r") (ground arith)

alice_is_tame : actor_tame resolve_alice as_alice ≡ true
unfolding actor_tame str_eq is_tame cut_suffix
alice_is_tame = refl

may_give : require_own_scopes resolve_alice as_alice (codes "db/*:r" ∷ []) ≡ next
unfolding require_own_scopes require_own_scope cut_last str_eq has matches
may_give = refl

reaches : has_scope (codes "db/*:r" ∷ []) (codes "db/prod") (codes "r") ≡ true
unfolding has_scope scope_grants cut str_eq cut_suffix has_prefix
reaches = refl

no_escalation_example :
    require_permission resolve_alice (codes "db/prod") (codes "r") as_alice ≡ next
no_escalation_example =
    no_escalation resolve_alice as_alice (codes "db/*:r" ∷ []) (codes "db/prod") (codes "r")
      alice_is_tame (ground arith) may_give reaches

abbrev mallory : Locals
mallory = record { user_id = codes "mallory"; api_client = none }

abbrev resolve_mallory : Str → Option Resolved
resolve_mallory u = some (double_star u (codes "r"))

double_star_escalates_example :
    (require_own_scopes resolve_mallory mallory (codes "*:r" ∷ []) ≡ next)
    × (has_scope (codes "*:r" ∷ []) (codes "api-clients") (codes "r") ≡ true)
    × (require_permission resolve_mallory (codes "api-clients") (codes "r") mallory ≡ fail 403)
unfolding has_prefix
double_star_escalates_example =
    double_star_escalates resolve_mallory mallory (codes "r") (codes "api-clients") refl refl
      (ground arith) (ground arith) (ground arith) refl
