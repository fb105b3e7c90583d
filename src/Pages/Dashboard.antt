-- ===== src/Pages/Dashboard.antt =====
-- web/app/(app)/page.tsx: the counts of the first page.
use idpforge.Base.{
  ℕ, ◌≡◌, ◌⊎◌, refl, ◌∙◌, inl, inr, Option, none, some, List, [], ◌∷◌, min, length, map, arith,
}
use idpforge.Console.{users_list, roles, api_clients_list, iot_devices}
use idpforge.Console.Response.{Reply, value, undefined, api_error, broken}
use idpforge.Pages.{page_size}
use idpforge.Pages.Data.{User, Role, ApiClient, Device}
use idpforge.Pages.View.{Shown, title, text, number}
use idpforge.Pages.Report.{Task, load}
use idpforge.Pages.Paging.{page_at, length-page_at}

pub record Counts : Type 0 where
  pub users : ℕ
  pub roles : ℕ
  pub api_clients : ℕ
  pub devices : ℕ

abbrev pub opened : Counts × List Task
opened = (
  record { users = 0; roles = 0; api_clients = 0; devices = 0 },
  map load (users_list page_size 0 ∷ roles ∷ api_clients_list ∷ iot_devices ∷ []),
)

-- What `Promise.all` gives: the four values, or nothing where one of them is refused. A value that
-- is `undefined` fails as it is read.
abbrev pub value_of : {A : Type 0} → Reply A → Option A
value_of (value a) = some a
value_of undefined = none
value_of (api_error status message) = none
value_of broken = none

unfoldable pub counted :
    Option (List User)
    → Option (List Role)
    → Option (List ApiClient)
    → Option (List Device)
    → Counts
    → Counts
counted (some u) (some r) (some c) (some d) s = record {
  users = length u;
  roles = length r;
  api_clients = length c;
  devices = length d;
}
counted (some u) (some r) (some c) none s = s
counted (some u) (some r) none d s = s
counted (some u) none c d s = s
counted none r c d s = s

-- The effect from its four answers on.
unfoldable pub finish_counts :
    Reply (List User)
    → Reply (List Role)
    → Reply (List ApiClient)
    → Reply (List Device)
    → Counts
    → Counts
unfolding counted
finish_counts u r c d s = counted (value_of u) (value_of r) (value_of c) (value_of d) s

unfoldable pub view : Counts → Option User → List (Shown (Unit {0}))
view s u =
    title "Dashboard"
    ∷ text "Users"
    ∷ number s.users
    ∷ text "Roles"
    ∷ number s.roles
    ∷ text "API clients"
    ∷ number s.api_clients
    ∷ text "IoT devices"
    ∷ number s.devices
    ∷ elim u [ none ↦ [] | some me ↦ text "Signed in as" ∷ Shown.value me.username ∷ [] ]

abbrev pub Fails : {A : Type 0} → Reply A → Type 0
Fails r = value_of r ≡ none

-- One count that is refused hides all four: the page goes on showing what it showed before.
pub one_refusal_hides_all :
    (u : Reply (List User)) (r : Reply (List Role)) (c : Reply (List ApiClient))
    (d : Reply (List Device)) (s : Counts)
    → Fails u ⊎ (Fails r ⊎ (Fails c ⊎ Fails d))
    → finish_counts u r c d s ≡ s
unfolding finish_counts
one_refusal_hides_all u r c d s h = hidden (value_of u) (value_of r) (value_of c) (value_of d) h
  where
    hidden :
        (a : Option (List User)) (b : Option (List Role)) (e : Option (List ApiClient))
        (f : Option (List Device))
        → (a ≡ none) ⊎ ((b ≡ none) ⊎ ((e ≡ none) ⊎ (f ≡ none)))
        → counted a b e f s ≡ s
    hidden none b e f k = refl
    hidden (some a) none e f k = refl
    hidden (some a) (some b) none f k = refl
    hidden (some a) (some b) (some e) none k = refl
    hidden (some a) (some b) (some e) (some f) (inl k) = cc
    hidden (some a) (some b) (some e) (some f) (inr (inl k)) = cc
    hidden (some a) (some b) (some e) (some f) (inr (inr (inl k))) = cc
    hidden (some a) (some b) (some e) (some f) (inr (inr (inr k))) = cc

-- The count of the users stops at the size of a page, since the server is asked for one page.
pub counts_one_page :
    (rows : List User) (r : List Role) (c : List ApiClient) (d : List Device) (s : Counts)
    → (finish_counts (value (page_at 0 rows)) (value r) (value c) (value d) s).users
      ≡ min page_size (length rows)
unfolding finish_counts
counts_one_page rows r c d s = length-page_at 0 rows ∙ omega arith
