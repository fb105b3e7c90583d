-- ===== src/Pages/Shell/Served.antt =====
-- AppShell.tsx: the states that the frame can be in, and the calls that it offers there.
use idpforge.Base.{
  ℕ, ◌≡◌, ◌≢◌, ◌↔◌, ◌⊎◌, refl, ap, ◌∙◌, inl, inr, Bool, true, false, not, ◌&&◌, Option, some, List,
  [], ◌∷◌, ◌++◌, All-of, Str, codes, is_empty, if◌then◌else◌, if_cases, length, ltb, ◌==◌, arith,
}
use idpforge.Permission
use idpforge.Permission.{Locals, Resolved, has, has_permission_ui}
use idpforge.Router.Fiber.{Fiber}
use idpforge.Router.Table.{register_routes}
use idpforge.Router.Serve.{Gate, serve, no_locals, refused}
use idpforge.Console.{request_of, users_list}
use idpforge.Console.Response.{Reply, value, undefined, api_error, broken}
use idpforge.Console.Served.{guarded, call_is_served}
use idpforge.Console.Nav.{me_permissions, visible_nav}
use idpforge.Pages.Data.{User, Announcement}
use idpforge.Pages.View.{
  Shown, button, input, each, sections, ◌&◌, AllOffered, Offered, AllOffered-sections,
  AllOffered-each, AllOffered-when, AllOffered-map, AllOffered-Offered, Offered-append_right, link,
}
use idpforge.Pages.Report.{
  load, AllPermitted, AllServed, AllPermitted-AllServed, SignedIn, Permitted-Served,
}
use idpforge.Pages.Opening.{call_asks}
use idpforge.Pages.Shell.{
  Shell, Event, opened, update, open_bell, open_search, toggle_theme, finish_post, matches,
  unread_count, got_users, got_announcements, announced, beside_search, beside_bell, beside_profile,
  posted, logged_out, types_query, toggles_composer, opens_search, toggles_bell,
}
use idpforge.Pages.Shell.Rows.{
  view, parts, behind_search, nav_link, match_link, some_match, search_part, composer,
  announcement_row, announcement_rows, bell_part,
}

-- What reaches the frame from elsewhere: answers, the feed, clicks beside its panels.
pub data FromOutside : Event → Type 0 where
  users_come : (us : List User) → FromOutside (got_users us)
  announcements_come : (xs : List Announcement) → FromOutside (got_announcements xs)
  feed : (a : Announcement) → FromOutside (announced a)
  beside_the_search : FromOutside beside_search
  beside_the_bell : FromOutside beside_bell
  beside_the_menu : FromOutside beside_profile
  answer_comes : (r : Reply (Unit {0})) → FromOutside (posted r)
  logout_ends : FromOutside logged_out

module _ (lower initial : Str → Str) (format_relative : ℕ → Str) (perms : List Str) (u : User)
    (version path : Str) where
  abbrev shown : ℕ → Bool → Shell → List (Shown Event)
  shown now writable s = view lower initial format_relative now writable perms u version path s

  -- The states that the user and the outside can bring about.
  pub data Reached : Shell → Type 0 where
    start : (stored : Option ℕ) (dark : Bool) → Reached (opened stored dark).0
    by_user :
        {s : Shell} (e : Event) (now : ℕ) (writable : Bool)
        → Reached s
        → Offered e (shown now writable s)
        → Reached (update e s).0
    by_outside : {s : Shell} (e : Event) → Reached s → FromOutside e → Reached (update e s).0

  abbrev may_post : Bool
  may_post = has_permission_ui perms (codes "announcements") (codes "manage")

  -- The form of an announcement is open to those alone who may post one.
  abbrev Composes : Shell → Type 0
  Composes s = s.composer_open ≡ true → may_post ≡ true

  outside-Composes : (s : Shell) (e : Event) → FromOutside e → Composes s → Composes (update e s).0
  unfolding update finish_post
  outside-Composes s _ (users_come us) h = h
  outside-Composes s _ (announcements_come xs) h = h
  outside-Composes s _ (feed a) h = h
  outside-Composes s _ beside_the_search h = h
  outside-Composes s _ beside_the_bell h = h
  outside-Composes s _ beside_the_menu h = h
  outside-Composes s _ (answer_comes (value a)) h = λ e. cc
  outside-Composes s _ (answer_comes undefined) h = λ e. cc
  outside-Composes s _ (answer_comes (api_error status m)) h = h
  outside-Composes s _ (answer_comes broken) h = h
  outside-Composes s _ logout_ends h = h

  searched :
      (P : Event → Type 0) (s : Shell) (b : Bool)
      → (b ≡ false → P opens_search)
      → ((t : Str) → P (types_query t))
      → AllOffered P (
          if b
          then input s.query types_query ∷ []
          else button true "Search users" opens_search ∷ [])
  searched P s true search query = query & tt
  searched P s false search query = (λ on. search refl) & tt

  pictured :
      (P : Event → Type 0) (b : Bool)
      → AllOffered P
          ((if b then Shown.value (initial u.username) else Shown.image u.avatar_url) ∷ [])
  pictured P true = tt
  pictured P false = tt

  announcements_offered :
      (P : Event → Type 0) (now : ℕ) (writable : Bool) (xs : List Announcement)
      → AllOffered P (announcement_rows lower initial format_relative now writable xs)
  announcements_offered P now writable [] = tt
  announcements_offered P now writable (a ∷ xs) =
      AllOffered-each P (announcement_row lower initial format_relative now writable) (a ∷ xs)
        (All-of (λ b. tt) (a ∷ xs))

  -- The parts of the view, for any property of events.
  all_offered :
      (P : Event → Type 0) (now : ℕ) (writable : Bool) (s : Shell)
      → (s.search_open ≡ false → P opens_search)
      → ((t : Str) → P (Event.types_query t))
      → P Event.picks_match
      → P (toggles_bell now writable)
      → (may_post ≡ true → P toggles_composer)
      → (s.composer_open ≡ true → ((t : Str) → P (Event.types_composer t)) × P Event.posts)
      → P (Event.toggles_theme writable)
      → P Event.toggles_profile
      → P Event.picks_account
      → P Event.logs_out
      → AllOffered P (shown now writable s)
  unfolding view
  all_offered P now writable s search query pick bell compose post theme profile account leave =
      AllOffered-sections P
        (parts lower initial format_relative now writable perms u version path s)
        (tt
          & AllOffered-each P (nav_link path) (visible_nav perms)
              (All-of (λ i. tt) (visible_nav perms))
          & searched P s s.search_open search query
          & AllOffered-when P (s.search_open && some_match (matches lower s))
              (each match_link (matches lower s))
              (λ on.
                AllOffered-each P match_link (matches lower s)
                  (All-of (λ m. pick & tt) (matches lower s)))
          & ((λ on. bell) & AllOffered-when P (ltb 0 (unread_count s)) _ (λ on. tt))
          & AllOffered-when P s.bell_open _ (λ on.
            AllOffered-sections P (bell_part lower initial format_relative now writable perms s) (
              tt
              & AllOffered-when P may_post _ (λ may. (λ b. compose may) & tt)
              & AllOffered-when P s.composer_open _ (λ open_now.
                AllOffered-sections P (composer s) (
                  ((post open_now).0 & tt)
                  & AllOffered-when P (not (is_empty s.composer_error)) _ (λ on. tt)
                  & ((λ on. (post open_now).1) & tt)
                  & tt))
              & announcements_offered P now writable s.announcement_list
              & tt))
          & ((λ on. theme) & tt)
          & ((λ on. profile) & pictured P (is_empty u.avatar_url))
          & AllOffered-when P s.profile_open _ (λ on.
            account & (λ b. leave) & AllOffered-when P (not (is_empty version)) _ (λ on. tt))
          & tt)

  bell-Composes :
      (now : ℕ) (writable : Bool) (s : Shell) → Composes s → Composes (open_bell now writable s)
  unfolding open_bell
  bell-Composes now writable s h = if_cases Composes s.bell_open _ _ h h

  user-Composes :
      (now : ℕ) (writable : Bool) (s : Shell)
      → Composes s
      → AllOffered (λ e. Composes (update e s).0) (shown now writable s)
  unfolding update open_search toggle_theme
  user-Composes now writable s h =
      all_offered (λ e. Composes (update e s).0) now writable s (λ on. h) (λ t. h) h
        (bell-Composes now writable s h) (λ may e. may) (λ on. (λ t. h) & h) h h h h

  Reached-Composes : (s : Shell) → Reached s → Composes s
  Reached-Composes _ (start stored dark) = λ e. cc
  Reached-Composes _ (by_user {s = s} e now writable r o) =
      AllOffered-Offered (λ d. Composes (update d s).0) e (shown now writable s)
        (user-Composes now writable s (Reached-Composes s r)) o
  Reached-Composes _ (by_outside {s = s} e r o) = outside-Composes s e o (Reached-Composes s r)

  -- The search aside, what is offered is permitted.
  offers_permitted :
      (now : ℕ) (writable : Bool) (s : Shell)
      → Composes s
      → AllOffered
          (λ e. (e ≡ opens_search) ⊎ AllPermitted perms (update e s).1)
          (shown now writable s)
  unfolding update
  offers_permitted now writable s h =
      all_offered (λ e. (e ≡ opens_search) ⊎ AllPermitted perms (update e s).1) now writable s
        (λ on. inl refl) (λ t. inr tt) (inr tt) (inr tt) (λ on. inr tt)
        (λ on. (λ t. inr tt) & inr (((h on & tt) & tt) & tt)) (inr tt) (inr tt) (inr tt)
        (inr ((tt & tt) & tt))

-- The list that the search looks in is loaded where it is empty.
search_iff :
    (f : Fiber) (g : Gate) (c : Locals) (r : Resolved) (us : List User)
    → SignedIn g c r
    → AllServed f g (if length us == 0 then load (users_list 500 0) ∷ [] else []) ↔ (
        (us ≢ [])
        ⊎ (has_permission_ui (me_permissions (some r)) (codes "users") (codes "read") ≡ true))
search_iff f g c r [] signed = (
  λ (h, _). inr (call_asks f g c r (users_list 500 0) signed tt h).0,
  λ x. elim x [
    | inl some_user ↦ absurd (some_user refl)
    | inr may ↦ (Permitted-Served f g c r (users_list 500 0) signed ((may & tt) & tt), tt)
  ],
)
search_iff f g c r (u ∷ us) signed =
    let some_user : (length (u ∷ us) == 0) ≡ false = ground arith in
    (λ h. inl (λ e. cc), λ x. rw some_user tt)

-- Whatever the user and the server have done before, the server serves a signed-in user the calls
-- of every event that the frame offers, the post of an announcement included, except for the
-- opening of the search: this one it serves exactly where the users are loaded already or the user
-- may read them.
pub shell_served :
    (lower initial : Str → Str) (format_relative : ℕ → Str) (f : Fiber) (g : Gate) (c : Locals)
    (r : Resolved) (u : User) (version path : Str) (now : ℕ) (writable : Bool) (s : Shell)
    → SignedIn g c r
    → Reached lower initial format_relative (me_permissions (some r)) u version path s
    → AllOffered
        (λ e. (e ≡ opens_search) ⊎ AllServed f g (update e s).1)
        (view lower initial format_relative now writable (me_permissions (some r)) u version path s)
      × (AllServed f g (update opens_search s).1 ↔ (
          (s.all_users ≢ [])
          ⊎ (has_permission_ui (me_permissions (some r)) (codes "users") (codes "read") ≡ true)))
unfolding update open_search
shell_served lower initial format_relative f g c r u version path now writable s signed reached =
    let perms = me_permissions (some r) in
    (
      AllOffered-map _ _ (view lower initial format_relative now writable perms u version path s)
          (λ e h. elim h [
            | inl search ↦ inl search
            | inr permitted ↦ inr (AllPermitted-AllServed f g c r (update e s).1 signed permitted)
          ])
          (offers_permitted lower initial format_relative perms u version path now writable s
            (Reached-Composes lower initial format_relative perms u version path s reached)),
      search_iff f g c r s.all_users signed,
    )

closed_search :
    (s : Shell) (rest : List (Shown Event))
    → s.search_open ≡ false
    → Offered opens_search (search_part s ++ rest)
closed_search s rest shut = shown_closed s.search_open shut
  where
    shown_closed :
        (b : Bool)
        → b ≡ false
        → Offered opens_search (
            (if b
              then input s.query types_query ∷ []
              else button true "Search users" opens_search ∷ [])
            ++ rest)
    shown_closed true e = cc
    shown_closed false e = inl (refl, refl)

loads_users : (s : Shell) → s.all_users ≡ [] → (open_search s).1 ≡ load (users_list 500 0) ∷ []
unfolding open_search
loads_users s e = ap (λ us. if length us == 0 then load (users_list 500 0) ∷ [] else []) e

-- The search is offered to every user; to one who may not read the users, the server refuses the
-- call that fills it.
pub search_refused :
    (lower initial : Str → Str) (format_relative : ℕ → Str) (f : Fiber) (g : Gate) (c : Locals)
    (r : Resolved) (u : User) (version path : Str) (now : ℕ) (writable : Bool) (s : Shell)
    → SignedIn g c r
    → has r (codes "users") (codes "read") ≡ false
    → s.search_open ≡ false
    → s.all_users ≡ []
    → Offered opens_search
        (view lower initial format_relative now writable (me_permissions (some r)) u version path s)
      × ((update opens_search s).1 ≡ load (users_list 500 0) ∷ [])
      × (serve g no_locals (
            f.chain register_routes
              (request_of (users_list 500 0)).method
              (request_of (users_list 500 0)).path)
          ≡ refused 403)
unfolding update open_search view guarded Permission.require_permission
search_refused lower initial format_relative f g c r u version path now writable s signed may_not
      shut empty =
    let rest = sections (
      behind_search lower initial format_relative now writable (me_permissions (some r)) u version
        s) in
    (
      Offered-append_right opens_search (link (codes "/") (codes "IdpForge") ∷ [])
          (each (nav_link path) (visible_nav (me_permissions (some r))) ++ (search_part s ++ rest))
          (Offered-append_right opens_search
            (each (nav_link path) (visible_nav (me_permissions (some r)))) (search_part s ++ rest)
            (closed_search s rest shut)),
      loads_users s empty,
      call_is_served f g c (users_list 500 0) signed.known signed.named signed.passes tt
          ∙ (let found = signed.found in let named = signed.named in ground arith),
    )
