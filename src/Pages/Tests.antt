-- ===== src/Pages/Tests.antt =====
-- An audit page with a short feed, and the pages and the frame of a user who may read the users.
use idpforge.Base.{
  ℕ, ◌≡◌, ◌<◌, ◌↔◌, ◌≢◌, ◌⊎◌, All, refl, true, false, some, List, [], ◌∷◌, Str, codes, is_empty,
  arith, take, length, str_eq, has_prefix,
}
use idpforge.Permission.{Resolved, has, has_permission_ui, to_string, grants_ui}
use idpforge.Router.Serve.{Gate}
use idpforge.Console.Nav.{me_permissions}
use idpforge.Console.Tests.{framework, reader, as_reader, reader_gate, no_colons}
use idpforge.Pages.Data.{User, Announcement, info}
use idpforge.Pages.View.{AllOffered}
use idpforge.Pages.Report.{SignedIn, AllServed}
use idpforge.Pages.Served.{Browser, user_list, May, OffersServed, AnswersServed, every_page_served}
use idpforge.Pages.Opening.{opening, user, asked_of, Granted, opening_iff}
use idpforge.Pages.Opening
use idpforge.Pages.Entries.{LeadsTo, Shows, nav_iff}
use idpforge.Pages.UserList
use idpforge.Pages.Shell
use idpforge.Pages.Shell.{
  Shell, announced, toggles_bell, opens_search, unread_count, matches, fits, includes,
}
use idpforge.Pages.Shell.Rows
use idpforge.Pages.Shell.Served.{start, shell_served}
use idpforge.Pages.Shell.Announcements.{bell_clears_unread}
use idpforge.Pages.Csv.{
  IsEntry, split_csv, join, trim, trim_start, trim_end, is_space, split_csv-join,
}
use idpforge.Pages.Usage.{Reads, format_bytes, format_bytes-Reads}
use idpforge.Pages.Dashboard.{Counts}
use idpforge.Pages.Audit.{
  AuditPage, AuditEvent, FeedEvent, Entry, stored, opened, audit_log, announcement,
}

abbrev rows : List ℕ
rows = 1 ∷ 2 ∷ 3 ∷ []

abbrev event : AuditEvent
event = record {
  actor_id = codes "u1";
  action = codes "user.login";
  target_resource = codes "users/u1";
  status = codes "success";
  timestamp = codes "2024-01-01T00:00:00Z";
}

abbrev feed : List FeedEvent
feed = audit_log event ∷ announcement (codes "hello") ∷ audit_log event ∷ []

abbrev stored_entry : ℕ → AuditEvent → Entry
stored_entry n e = record {
  id = stored n;
  actor_id = e.actor_id;
  actor_ip = codes "10.0.0.1";
  action = e.action;
  target_resource = e.target_resource;
  target_app = codes "console";
  status = e.status;
  timestamp = e.timestamp;
}

abbrev written : List Entry
written = stored_entry 9 event ∷ stored_entry 8 event ∷ []

abbrev second_page : AuditPage
second_page = record opened { offset = 50 }

-- A page of users, to a user who may read them.
abbrev browser : Browser
browser = record {
  format_date = λ s. s;
  format_date_time = λ s. s;
  format_time = λ s. s;
  to_number = length;
  initial = take 1;
  origin = codes "https://id.example";
  clients_by_name = λ gs. gs;
  devices_by_name = λ gs. gs;
  supported = true;
}

signed_reader : SignedIn reader_gate as_reader reader
signed_reader = record {
  known = refl;
  named = refl;
  passes = λ h. refl;
  found = refl;
  colon_free = no_colons;
}

reader_reads : May (me_permissions (some reader)) (codes "users") (codes "read")
unfolding has_permission_ui me_permissions str_eq to_string grants_ui
reader_reads = refl

every_page_served_example :
    OffersServed browser framework reader_gate
      (me_permissions (some reader))
      (user_list UserList.opened.0)
    × AnswersServed browser framework reader_gate
        (me_permissions (some reader))
        (user_list UserList.opened.0)
every_page_served_example =
    every_page_served browser framework reader_gate as_reader reader (user_list UserList.opened.0)
      signed_reader (λ gs h. h) reader_reads

abbrev alice : User
alice = record {
  id = codes "u1";
  username = codes "alice";
  email = codes "alice@example.com";
  employee_id = [];
  status = codes "active";
  mfa_enabled = false;
  source = codes "local";
  external_id = [];
  avatar_url = [];
  force_password_change = false;
  created_at = [];
  updated_at = [];
  last_login_at = [];
}

abbrev ago : ℕ → Str
ago t = codes "just now"

abbrev frame : Shell
frame = (Shell.opened (some 5) false).0

shell_served_example :
    AllOffered
      (λ e. (e ≡ opens_search) ⊎ AllServed framework reader_gate (Shell.update e frame).1)
      (Rows.view
        (λ s. s)
        (take 1)
        ago
        10
        true
        (me_permissions (some reader))
        alice
        []
        (codes "/users")
        frame)
    × (AllServed framework reader_gate (Shell.update opens_search frame).1 ↔ (
        (frame.all_users ≢ []) ⊎ May (me_permissions (some reader)) (codes "users") (codes "read")))
shell_served_example =
    shell_served (λ s. s) (take 1) ago framework reader_gate as_reader reader alice []
      (codes "/users") 10 true frame signed_reader (start (some 5) false)

-- A user without any permission.
abbrev guest : Resolved
guest = record { user_id = codes "u1"; role_names = []; permissions = [] }

abbrev guest_gate : Gate
guest_gate = record reader_gate { resolve = λ u. some guest }

signed_guest : SignedIn guest_gate as_reader guest
signed_guest = record {
  known = refl;
  named = refl;
  passes = λ h. refl;
  found = refl;
  colon_free = tt;
}

guest_may_nothing : has guest (codes "users") (codes "read") ≡ false
unfolding has
guest_may_nothing = refl

abbrev notice : ℕ → Announcement
notice at = record {
  id = at;
  message = codes "hello";
  level = info;
  created_by = [];
  created_at = at;
}

abbrev told_frame : Shell
told_frame = record frame { announcement_list = notice 7 ∷ notice 3 ∷ [] }

bell_clears_unread_example :
    (unread_count (Shell.update (toggles_bell 10 true) told_frame).0 ≡ 0)
    × (unread_count
          (Shell.update
            (announced (notice 12))
            (Shell.update (toggles_bell 10 true) told_frame).0).0
        ≡ 1)
bell_clears_unread_example =
    bell_clears_unread 10 true told_frame (notice 12) refl (omega arith, (omega arith, tt))
      (omega arith)

abbrev asked : Shell
asked = record frame { search_open = true; query = codes "ali"; all_users = alice ∷ [] }

asked_text : is_empty (trim asked.query) ≡ false
unfolding trim trim_start trim_end is_space
asked_text = refl

one_match : length (matches (λ s. s) asked) < 8
unfolding matches includes trim trim_start trim_end is_space has_prefix
one_match = omega arith

lan : IsEntry (codes "10.0.0.1")
unfolding trim trim_start trim_end is_space
lan = record { trimmed = refl; filled = refl; one = ground arith }

host : IsEntry (codes "::1")
unfolding trim trim_start trim_end is_space
host = record { trimmed = refl; filled = refl; one = ground arith }

split_csv-join_example :
    split_csv (join (codes "10.0.0.1" ∷ codes "::1" ∷ [])) ≡ codes "10.0.0.1" ∷ codes "::1" ∷ []
split_csv-join_example = split_csv-join (codes "10.0.0.1" ∷ codes "::1" ∷ []) (lan, (host, tt))

format_bytes-Reads_example : Reads 1_048_600 (format_bytes 1_048_600)
format_bytes-Reads_example = format_bytes-Reads 1_048_600

abbrev counts : Counts
counts = record { users = 1; roles = 2; api_clients = 3; devices = 4 }

opening_iff_example :
    AllServed framework reader_gate (opening (user (codes "u2")))
    ↔ All (Granted (me_permissions (some reader))) (asked_of (user (codes "u2")))
opening_iff_example =
    opening_iff framework reader_gate as_reader reader (user (codes "u2")) signed_reader refl

nav_iff_example :
    Shows (me_permissions (some reader)) (codes "/usage")
    ↔ AllServed framework reader_gate (opening Opening.usage)
nav_iff_example =
    nav_iff framework reader_gate as_reader reader (codes "/usage") (opening Opening.usage)
      signed_reader LeadsTo.usage
