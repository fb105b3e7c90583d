-- ===== src/Pages.antt =====
-- web/app and web/components/ui.tsx: the state of the console's pages and what their handlers do to
-- it. A request is sent by a handler, and its answer comes as a later event.
pub mod Data
pub mod View
pub mod Report
pub mod UserList
pub mod UserDetail
pub mod RoleList
pub mod RoleDetail
pub mod Csv
pub mod Answers
pub mod ApiClients
pub mod Devices
pub mod Entries
pub mod Account
pub mod Shell
pub mod Usage
pub mod Dashboard
pub mod Settings
pub mod Opening
pub mod Served
pub mod Paging
pub mod Audit
pub mod Folders
pub mod Time
pub mod SignIn
pub mod Tests
use idpforge.Base.{
  ℕ, ◌+◌, ◌-◌, ◌*◌, Bool, true, false, not, ◌&&◌, ◌||◌, Option, none, some, List, [], ◌∷◌, ◌++◌,
  take, length, if◌then◌else◌, ltb, ◌==◌, Str, codes, str_eq, is_empty, member,
}

-- `Pagination` of ui.tsx: nothing, or the numbers that it shows and the buttons that work.
pub record Footer : Type 0 where
  pub first : ℕ
  pub last : ℕ
  pub has_prev : Bool
  pub has_next : Bool

unfoldable pub pagination : ℕ → ℕ → ℕ → Option Footer
pagination offset limit count =
    let has_prev = ltb 0 offset in
    let has_next = count == limit in
    if not has_prev && not has_next
    then none
    else some (record {
      first = if count == 0 then 0 else offset + 1;
      last = offset + count;
      has_prev = has_prev;
      has_next = has_next;
    })

abbrev pub page_size : ℕ
page_size = 50

-- `onPrev` and `onNext` of a page.
unfoldable pub on_prev : ℕ → ℕ
on_prev o = o - page_size

unfoldable pub on_next : ℕ → ℕ
on_next o = o + page_size

-- `SelectOrCustom` of ui.tsx: its own state, and the value that its owner keeps.
pub record Choice : Type 0 where
  pub custom_mode : Bool
  pub value : Str

abbrev pub custom : Str
custom = codes "__custom__"

unfoldable pub open_choice : List Str → Str → Choice
open_choice options value = record {
  custom_mode = not (is_empty value) && not (member value options);
  value = value;
}

-- The `onChange` of its select.
unfoldable pub choose : Str → Choice → Choice
choose picked c =
    if str_eq picked custom
    then record { custom_mode = true; value = [] }
    else record { custom_mode = false; value = picked }

-- The `onChange` of its input.
unfoldable pub type_in : Str → Choice → Choice
type_in text c = record c { value = text }

-- What its select shows.
unfoldable pub shown_value : Choice → Str
shown_value c = if c.custom_mode then custom else c.value

-- `toggle` of the page of the API clients.
unfoldable pub toggle : List Str → Str → List Str
toggle list value = if member value list then remove value list else list ++ value ∷ []
  where
    remove : Str → List Str → List Str
    remove v [] = []
    remove v (x ∷ xs) = if str_eq x v then remove v xs else x ∷ remove v xs
