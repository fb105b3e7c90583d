-- ===== src/Pages/Shell.antt =====
-- web/components/AppShell.tsx: the frame of every page, with its search, its announcements and the
-- user's menu.
pub mod Rows
pub mod Served
pub mod Announcements
use idpforge.Base.{
  ℕ, Bool, true, false, not, ◌&&◌, ◌||◌, Option, none, some, List, [], ◌∷◌, Str, codes, is_empty,
  if◌then◌else◌, keep, take, length, ltb, ◌==◌, has_prefix,
}
use idpforge.Console.{users_list, announcements_list, announcements_create, logout}
use idpforge.Console.Response.{Reply, value, undefined, api_error, broken}
use idpforge.Pages.Csv.{trim}
use idpforge.Pages.Data.{User, Announcement}
use idpforge.Pages.Report.{Task, load, send}

-- `dark` is the class of the page; `stored_seen` and `stored_dark` are what the browser's storage
-- keeps of the last look at the announcements and of the theme, where it keeps anything.
pub record Shell : Type 0 where
  pub search_open : Bool
  pub query : Str
  pub all_users : List User
  pub bell_open : Bool
  pub announcement_list : List Announcement
  pub last_seen : ℕ
  pub profile_open : Bool
  pub composer_open : Bool
  pub composer_text : Str
  pub composer_error : Str
  pub dark : Bool
  pub stored_seen : Option ℕ
  pub stored_dark : Option Bool
  pub to_login : Bool

-- `Number(localStorage.getItem(SEEN_KEY) ?? 0)`
abbrev pub seen_of : Option ℕ → ℕ
seen_of none = 0
seen_of (some n) = n

-- The frame as it is opened for a user.
abbrev pub opened : Option ℕ → Bool → Shell × List Task
opened stored dark = (
  record {
    search_open = false;
    query = [];
    all_users = [];
    bell_open = false;
    announcement_list = [];
    last_seen = seen_of stored;
    profile_open = false;
    composer_open = false;
    composer_text = [];
    composer_error = [];
    dark = dark;
    stored_seen = stored;
    stored_dark = none;
    to_login = false;
  },
  load announcements_list ∷ [],
)

pub data Event : Type 0 where
  got_users : List User → Event
  got_announcements : List Announcement → Event
  -- From the live feed.
  announced : Announcement → Event
  -- A click beside the search, the announcements or the menu.
  beside_search beside_bell beside_profile : Event
  opens_search picks_match : Event
  types_query : Str → Event
  -- At an instant; `false` is a storage that cannot be written.
  toggles_bell : ℕ → Bool → Event
  toggles_theme : Bool → Event
  toggles_composer : Event
  types_composer : Str → Event
  posts : Event
  posted : Reply (Unit {0}) → Event
  toggles_profile picks_account logs_out logged_out : Event

-- `openBell`
unfoldable pub open_bell : ℕ → Bool → Shell → Shell
open_bell now writable s = if s.bell_open then record s { bell_open = false } else record s {
  bell_open = true;
  last_seen = now;
  stored_seen = if writable then some now else s.stored_seen;
}

-- `openSearch`; the users are loaded once.
unfoldable pub open_search : Shell → Shell × List Task
open_search s = (
  record s { search_open = true },
  if length s.all_users == 0 then load (users_list 500 0) ∷ [] else [],
)

abbrev pub post_failed : Str
post_failed = codes "Could not post announcement"

-- `submitAnnouncement` from its answer on.
unfoldable pub finish_post : Reply (Unit {0}) → Shell → Shell
finish_post (value u) s = record s { composer_text = []; composer_open = false }
finish_post undefined s = record s { composer_text = []; composer_open = false }
finish_post (api_error status message) s = record s { composer_error = message }
finish_post broken s = record s { composer_error = post_failed }

-- `toggleTheme`
unfoldable pub toggle_theme : Bool → Shell → Shell
toggle_theme writable s = record s {
  dark = not s.dark;
  stored_dark = if writable then some (not s.dark) else s.stored_dark;
}

unfoldable pub update : Event → Shell → Shell × List Task
update (got_users us) s = (record s { all_users = us }, [])
update (got_announcements xs) s = (record s { announcement_list = xs }, [])
update (announced a) s = (record s { announcement_list = take 20 (a ∷ s.announcement_list) }, [])
update beside_search s = (record s { search_open = false }, [])
update beside_bell s = (record s { bell_open = false }, [])
update beside_profile s = (record s { profile_open = false }, [])
update opens_search s = open_search s
update picks_match s = (record s { search_open = false }, [])
update (types_query t) s = (record s { query = t }, [])
update (toggles_bell now writable) s = (open_bell now writable s, [])
update (toggles_theme writable) s = (toggle_theme writable s, [])
update toggles_composer s = (record s { composer_open = not s.composer_open }, [])
update (types_composer t) s = (record s { composer_text = t }, [])
update posts s = (
  record s { composer_error = [] },
  send (announcements_create s.composer_text (codes "info")) [] post_failed ∷ [],
)
update (posted r) s = (finish_post r s, [])
update toggles_profile s = (record s { profile_open = not s.profile_open }, [])
update picks_account s = (record s { profile_open = false }, [])
update logs_out s = (s, send logout [] [] ∷ [])
update logged_out s = (record s { to_login = true }, [])

-- `unreadCount`
unfoldable pub unread_count : Shell → ℕ
unread_count s =
    length (keep (λ (a : Announcement). ltb s.last_seen a.created_at) s.announcement_list)

-- `includes` of a text.
unfoldable pub includes : Str → Str → Bool
includes s [] = true
includes [] (q ∷ qs) = false
includes (c ∷ s) (q ∷ qs) = has_prefix (c ∷ s) (q ∷ qs) || includes s (q ∷ qs)

-- `lower` is `toLowerCase`.
module _ (lower : Str → Str) where
  abbrev pub fits : Str → User → Bool
  fits q u = includes (lower u.username) q || includes (lower u.email) q

  -- `matches`
  unfoldable pub matches : Shell → List User
  unfolding includes
  matches s =
      if is_empty (trim s.query) then [] else take 8 (keep (fits (lower s.query)) s.all_users)
