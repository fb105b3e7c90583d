-- ===== src/Cache/Tests.antt =====
-- Concrete caches.
use idpforge.Base.{◌≡◌, refl, some, none, [], ◌∷◌, List, arith, codes, ℕ, str_eq}
use idpforge.Cache.{Cache, Value, text, empty, get, set}
use idpforge.Cache.Reaper.{Op, gets, increments, reaps, run, calls, run-calls}

abbrev page : Value
page = text (codes "page")

abbrev one : Cache
one = set 10 (codes "a") page 5 empty

still_there : get 15 (codes "a") one ≡ some page
unfolding get set str_eq
still_there = refl

gone : get 16 (codes "a") one ≡ none
unfolding get set str_eq
gone = refl

-- A counter that expires, with rounds of the reaper in between.
abbrev history : List (ℕ × Op)
history =
    (1, increments (codes "a") 9)
    ∷ (4, reaps)
    ∷ (5, increments (codes "a") 9)
    ∷ (12, reaps)
    ∷ (13, gets (codes "a"))
    ∷ (13, increments (codes "a") 9)
    ∷ []

run-calls_example : run history empty ≡ run (calls history) empty
run-calls_example = run-calls 1 history empty (ground arith)
