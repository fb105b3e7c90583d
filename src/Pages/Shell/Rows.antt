-- ===== src/Pages/Shell/Rows.antt =====
-- AppShell.tsx: what the frame shows.
use idpforge.Base.{
  ℕ, Bool, true, false, not, ◌&&◌, List, [], ◌∷◌, ◌++◌, Str, codes, is_empty, if◌then◌else◌, ltb,
  str_eq,
}
use idpforge.Clients.{decimal}
use idpforge.Permission.{has_permission_ui}
use idpforge.Console.Nav.{Item, visible_nav}
use idpforge.Pages.Csv.{trim}
use idpforge.Pages.Data.{User, Announcement, Level, info, warning, critical}
use idpforge.Pages.View.{
  Shown, Tone, plain, good, danger, text, badge, link, link_to, image, input, button, when, each,
  sections,
}
use idpforge.Pages.Shell.{
  Shell, Event, matches, unread_count, opens_search, types_query, picks_match, toggles_bell,
  toggles_composer, types_composer, posts, toggles_theme, toggles_profile, picks_account, logs_out,
}

-- `levelDotClass`
abbrev pub dot : Level → Tone
dot critical = danger
dot warning = plain
dot info = good

abbrev pub nav_link : Str → Item → List (Shown Event)
nav_link path i =
    badge (if str_eq path i.href then good else plain) i.label ∷ link i.href i.label ∷ []

abbrev pub match_link : User → List (Shown Event)
match_link u =
    link_to (codes "/users/detail?id=" ++ u.id) u.username picks_match ∷ Shown.value u.email ∷ []

abbrev pub some_match : List User → Bool
some_match [] = false
some_match (u ∷ us) = true

abbrev pub search_part : Shell → List (Shown Event)
search_part s =
    if s.search_open
    then input s.query types_query ∷ []
    else button true "Search users" opens_search ∷ []

abbrev pub unread_badge : ℕ → List (Shown Event)
unread_badge n = when (ltb 0 n) (badge danger (if ltb 9 n then codes "9+" else decimal n) ∷ [])

abbrev pub composer : Shell → List (List (Shown Event))
composer s =
    (input s.composer_text types_composer ∷ [])
    ∷ when (not (is_empty s.composer_error)) (badge danger s.composer_error ∷ [])
    ∷ (button (not (is_empty (trim s.composer_text))) "Post" posts ∷ [])
    ∷ []

-- `format_relative` is that of time.ts, with its text; the instant is the one of a click, and
-- `writable` says whether the browser's storage can be written.
module _ (lower : Str → Str) (initial : Str → Str) (format_relative : ℕ → Str) (now : ℕ)
    (writable : Bool) where
  abbrev pub announcement_row : Announcement → List (Shown Event)
  announcement_row a =
      badge (dot a.level) a.message ∷ Shown.value (format_relative a.created_at) ∷ []

  abbrev pub announcement_rows : List Announcement → List (Shown Event)
  announcement_rows [] = text "No announcements yet" ∷ []
  announcement_rows (a ∷ xs) = each announcement_row (a ∷ xs)

  abbrev pub bell_part : List Str → Shell → List (List (Shown Event))
  bell_part permissions s =
      (text "Notifications" ∷ [])
      ∷ when (has_permission_ui permissions (codes "announcements") (codes "manage"))
          (button true "Post an announcement" toggles_composer ∷ [])
      ∷ when s.composer_open (sections (composer s))
      ∷ announcement_rows s.announcement_list
      ∷ []

  abbrev pub picture : User → List (Shown Event)
  picture u =
      (if is_empty u.avatar_url then Shown.value (initial u.username) else image u.avatar_url) ∷ []

  abbrev pub profile_part : User → Str → List (Shown Event)
  profile_part u version =
      Shown.value u.username
      ∷ Shown.value u.email
      ∷ link_to (codes "/account") (codes "My account") picks_account
      ∷ button true "Log out" logs_out
      ∷ when (not (is_empty version)) (text "IdpForge" ∷ Shown.value version ∷ [])

  -- What stands behind the search field.
  abbrev pub behind_search : List Str → User → Str → Shell → List (List (Shown Event))
  behind_search permissions u version s =
      when (s.search_open && some_match (matches lower s)) (each match_link (matches lower s))
      ∷ (button true "Notifications" (toggles_bell now writable) ∷ unread_badge (unread_count s))
      ∷ when s.bell_open (sections (bell_part permissions s))
      ∷ (button true "Toggle theme" (toggles_theme writable) ∷ [])
      ∷ (button true "Profile" toggles_profile ∷ picture u)
      ∷ when s.profile_open (profile_part u version)
      ∷ []

  abbrev pub parts : List Str → User → Str → Str → Shell → List (List (Shown Event))
  parts permissions u version path s =
      (link (codes "/") (codes "IdpForge") ∷ [])
      ∷ each (nav_link path) (visible_nav permissions)
      ∷ search_part s
      ∷ behind_search permissions u version s

  unfoldable pub view : List Str → User → Str → Str → Shell → List (Shown Event)
  view permissions u version path s = sections (parts permissions u version path s)
