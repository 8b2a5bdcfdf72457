-- ===== src/HotCache/Tests.antt =====
-- The local cache at concrete times.
use nest_shortlink_platform.Common.{
  ℕ, ◌≡◌, refl, String, List, [], ◌∷◌, none, some, string_eq, arith,
}
use nest_shortlink_platform.HotCache.{HotCache, get}
use nest_shortlink_platform.HotCache.Map.{Call, gets, sets, deletes, run, map_run, run-map_run}

abbrev a_key : String
a_key = "a"

abbrev b_key : String
b_key = "b"

abbrev one_item : HotCache ℕ
one_item = ("a", record { value = 7; expire_at = 2000 }) ∷ []

reads : ((get "a" 1999 one_item).0 ≡ some 7) × ((get "a" 2000 one_item).0 ≡ none)
unfolding get
reads = (refl, refl)

abbrev calls : List (Call ℕ)
calls = sets "b" 9 2000 100 ∷ gets "a" 2500 ∷ deletes "a" ∷ sets "b" 8 1000 2600 ∷ []

run-map_run_example :
    (get b_key 3000 (run calls one_item)).0 ≡ map_run calls b_key 3000 (get b_key 3000 one_item).0
run-map_run_example = run-map_run calls b_key 3000 one_item (tt, (omega arith, (tt, (tt, tt))))
