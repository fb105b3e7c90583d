-- ===== src/Pages/Usage/Rows.antt =====
-- usage/page.tsx: what the page shows, and the calls behind its buttons. A chart stands as the values
-- of its points.
use Prim.Native.String.{String}
use idpforge.Base.{
  ℕ, ◌≡◌, Bool, true, false, Option, none, some, List, [], ◌∷◌, Str, codes, if◌then◌else◌, ◌==◌,
  All-of,
}
use idpforge.Permission.{Locals, Resolved, has_permission_ui}
use idpforge.Router.Fiber.{Fiber}
use idpforge.Router.Serve.{Gate}
use idpforge.Console.{metrics_history}
use idpforge.Console.Nav.{me_permissions}
use idpforge.Pages.Data.{MetricsSnapshot}
use idpforge.Pages.View.{
  Shown, title, text, number, button, each, sections, ◌&◌, AllOffered, AllOffered-sections,
  AllOffered-each, AllOffered-map,
}
use idpforge.Pages.Report.{load, AllPermitted, AllServed, AllPermitted-AllServed, SignedIn}
use idpforge.Pages.Usage.{
  Usage, Event, DeltaPoint, StoragePoint, update, latest, to_deltas, to_storage_points,
  format_bytes, size_text, sets_days,
}

abbrev pub cards : Option MetricsSnapshot → List (Shown Event)
cards none = []
cards (some m) =
    number m.http_requests
    ∷ text "Total requests (lifetime)"
    ∷ number m.login_success
    ∷ text "Successful logins (lifetime)"
    ∷ number m.login_failure
    ∷ text "Failed logins (lifetime)"
    ∷ number m.rate_limit_rejections
    ∷ text "Rate limit rejections (lifetime)"
    ∷ Shown.value (size_text (format_bytes m.storage_bytes))
    ∷ text "Storage used (avatars)"
    ∷ []

abbrev pub chart : {A : Type 0} → String → (A → List (Shown Event)) → List A → List (Shown Event)
chart without point [] = text without ∷ []
chart without point (x ∷ xs) = each point (x ∷ xs)

abbrev pub requests_point : DeltaPoint → List (Shown Event)
requests_point p = Shown.value p.time ∷ number p.requests ∷ []

abbrev pub logins_point : DeltaPoint → List (Shown Event)
logins_point p = Shown.value p.time ∷ number p.login_success ∷ number p.login_failure ∷ []

abbrev pub rejections_point : DeltaPoint → List (Shown Event)
rejections_point p = Shown.value p.time ∷ number p.rate_limit_rejections ∷ []

abbrev pub storage_point : StoragePoint → List (Shown Event)
storage_point p = Shown.value p.time ∷ Shown.value (size_text (format_bytes p.bytes)) ∷ []

abbrev pub not_enough : String
not_enough = "Not enough history yet, snapshots are taken every 10 minutes. Check back shortly."

abbrev pub parts : (Str → Str) → Usage → List (List (Shown Event))
parts format_time s =
    (title "Usage" ∷ [])
    ∷ (button true "7 days" (sets_days 7)
        ∷ button true "30 days" (sets_days 30)
        ∷ button true "90 days" (sets_days 90)
        ∷ [])
    ∷ cards (latest s.snapshots)
    ∷ (title "HTTP requests per interval" ∷ [])
    ∷ chart not_enough requests_point (to_deltas format_time s.snapshots)
    ∷ (title "Logins per interval" ∷ [])
    ∷ chart "No history yet." logins_point (to_deltas format_time s.snapshots)
    ∷ (title "Rate limit rejections per interval" ∷ [])
    ∷ chart "No history yet." rejections_point (to_deltas format_time s.snapshots)
    ∷ (title "Storage used over time" ∷ [])
    ∷ chart not_enough storage_point (to_storage_points format_time s.snapshots)
    ∷ []

unfoldable pub view : (Str → Str) → Usage → List (Shown Event)
view format_time s = sections (parts format_time s)

module _ (perms : List Str) (s : Usage)
    (may : has_permission_ui perms (codes "metrics") (codes "read") ≡ true) where
  abbrev P : Event → Type 0
  P e = AllPermitted perms (update e s).1

  days-permitted : (d : ℕ) → P (sets_days d)
  unfolding update
  days-permitted d = loads (d == s.days)
    where
      loads : (b : Bool) → AllPermitted perms (if b then [] else load (metrics_history d) ∷ [])
      loads true = tt
      loads false = ((may & tt) & tt) & tt

  carded : (m : Option MetricsSnapshot) → AllOffered P (cards m)
  carded none = tt
  carded (some m) = tt

  charted :
      {A : Type 0} (without : String) (point : A → List (Shown Event)) (xs : List A)
      → ((a : A) → AllOffered P (point a))
      → AllOffered P (chart without point xs)
  charted without point [] h = tt
  charted without point (x ∷ xs) h = AllOffered-each P point (x ∷ xs) (All-of h (x ∷ xs))

  offers_permitted : (format_time : Str → Str) → AllOffered P (view format_time s)
  unfolding view
  offers_permitted format_time = AllOffered-sections P (parts format_time s) (
      tt
      & ((λ on. days-permitted 7) & (λ on. days-permitted 30) & (λ on. days-permitted 90) & tt)
      & carded (latest s.snapshots)
      & tt
      & charted not_enough requests_point (to_deltas format_time s.snapshots) (λ p. tt)
      & tt
      & charted "No history yet." logins_point (to_deltas format_time s.snapshots) (λ p. tt)
      & tt
      & charted "No history yet." rejections_point (to_deltas format_time s.snapshots) (λ p. tt)
      & tt
      & charted not_enough storage_point (to_storage_points format_time s.snapshots) (λ p. tt)
      & tt)

-- Every call that the page of the usage offers to a user who is shown it is served.
pub usage_served :
    (f : Fiber) (g : Gate) (c : Locals) (r : Resolved) (format_time : Str → Str) (s : Usage)
    → SignedIn g c r
    → has_permission_ui (me_permissions (some r)) (codes "metrics") (codes "read") ≡ true
    → AllOffered (λ e. AllServed f g (update e s).1) (view format_time s)
usage_served f g c r format_time s signed may =
    AllOffered-map _ _ (view format_time s)
      (λ e h. AllPermitted-AllServed f g c r (update e s).1 signed h)
      (offers_permitted (me_permissions (some r)) s may format_time)
