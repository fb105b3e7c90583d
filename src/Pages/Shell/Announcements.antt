-- ===== src/Pages/Shell/Announcements.antt =====
-- AppShell.tsx: the count of the unread announcements, and the users that the search shows.
use idpforge.Base.{
  ℕ, zero, suc, ◌≤◌, ◌<◌, ◌≡◌, ◌↔◌, refl, sym, ap, ◌∙◌, Bool, true, false, List, [], ◌∷◌, All, In,
  In-keep, subst, some, Str, is_empty, if◌then◌else◌, keep, take, length, ltb, arith,
}
use idpforge.Pages.Csv.{trim}
use idpforge.Pages.Data.{User, Announcement}
use idpforge.Pages.Shell.{
  Shell, update, open_bell, announced, toggles_bell, unread_count, fits, matches,
}

-- Made no later than an instant.
abbrev pub NotAfter : ℕ → Announcement → Type 0
NotAfter now a = a.created_at ≤ now

none_unread :
    (now : ℕ) (xs : List Announcement)
    → All (NotAfter now) xs
    → keep (λ (a : Announcement). ltb now a.created_at) xs ≡ []
none_unread now [] h = refl
none_unread now (a ∷ xs) (h, hs) = ground (arith, none_unread now xs hs)

All-take :
    (now n : ℕ) (xs : List Announcement) → All (NotAfter now) xs → All (NotAfter now) (take n xs)
All-take now zero xs h = tt
All-take now (suc n) [] h = tt
All-take now (suc n) (x ∷ xs) (h, hs) = (h, All-take now n xs hs)

one_unread :
    (now : ℕ) (a : Announcement) (xs : List Announcement)
    → All (NotAfter now) xs
    → now < a.created_at
    → length (keep (λ (b : Announcement). ltb now b.created_at) (a ∷ xs)) ≡ 1
one_unread now a xs past later = ground (arith, none_unread now xs past)

-- The state behind a click on the closed bell.
rung : ℕ → Bool → Shell → Shell
rung now writable s = record s {
  bell_open = true;
  last_seen = now;
  stored_seen = if writable then some now else s.stored_seen;
}

open_bell_lem :
    (now : ℕ) (writable : Bool) (s : Shell)
    → s.bell_open ≡ false
    → open_bell now writable s ≡ rung now writable s
unfolding open_bell rung
open_bell_lem now writable s shut =
    ap (λ b. if b then record s { bell_open = false } else rung now writable s) shut

-- A click on the closed bell reads all the announcements, where none is of a later instant; one
-- that the feed brings after that, of a later instant, counts as unread, alone.
pub bell_clears_unread :
    (now : ℕ) (writable : Bool) (s : Shell) (a : Announcement)
    → s.bell_open ≡ false
    → All (NotAfter now) s.announcement_list
    → now < a.created_at
    → (unread_count (update (toggles_bell now writable) s).0 ≡ 0)
      × (unread_count (update (announced a) (update (toggles_bell now writable) s).0).0 ≡ 1)
unfolding unread_count update rung
bell_clears_unread now writable s a shut past later =
    let quiet = ap length (none_unread now s.announcement_list past) in
    let loud =
      one_unread now a (take 19 s.announcement_list) (All-take now 19 s.announcement_list past)
        later in
    (
      ap unread_count (open_bell_lem now writable s shut) ∙ quiet,
      ap (λ t. unread_count (record t { announcement_list = take 20 (a ∷ t.announcement_list) }))
            (open_bell_lem now writable s shut)
          ∙ loud,
    )

take-short : {A : Type 0} (n : ℕ) (xs : List A) → length (take n xs) < n → take n xs ≡ xs
take-short zero xs h = absurd (omega arith)
take-short (suc n) [] h = refl
take-short (suc n) (x ∷ xs) h = ap (λ t. x ∷ t) (take-short n xs (omega arith))

-- The search shows at most eight users, each of them one that fits what is typed; and where it
-- shows fewer, it shows all that fit.
pub matches_iff :
    (lower : Str → Str) (s : Shell) (u : User)
    → is_empty (trim s.query) ≡ false
    → length (matches lower s) < 8
    → In u (matches lower s) ↔ (In u s.all_users × (fits lower (lower s.query) u ≡ true))
unfolding matches
matches_iff lower s u typed few =
    let fitting = keep (fits lower (lower s.query)) s.all_users in
    let first : matches lower s ≡ take 8 fitting =
      ap (λ b. if b then [] else take 8 fitting) typed in
    let whole = first ∙ take-short 8 fitting (rw (← first) few) in
    let kept = In-keep (fits lower (lower s.query)) s.all_users u in
    (λ m. kept.0 (subst (In u) whole m), λ h. subst (In u) (sym whole) (kept.1 h))
