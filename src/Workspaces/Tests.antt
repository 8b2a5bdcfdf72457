-- ===== src/Workspaces/Tests.antt =====
-- Operations on a database with two workspaces.
use nest_shortlink_platform.Common.{
  String, List, [], ◌∷◌, ◌≡◌, ◌≢◌, refl, ◌==◌, string_eq, eq_iff, true, false,
}
use nest_shortlink_platform.Workspaces.Sample.{sample, sample-IsValid}
use nest_shortlink_platform.Workspaces.Invariant.{IsValid}
use nest_shortlink_platform.Workspaces.Isolation.{
  Operation, adds, assigns, expels, perform_all, perform_all-IsValid, perform_all-elsewhere,
}
use nest_shortlink_platform.Authorization.{get_workspace_access}

abbrev operations : List Operation
operations = adds "m3" "w1" "bob@example.com" ∷ assigns "w1" "m3" "OWNER" ∷ expels "w1" "m1" ∷ []

apart : (x y : String) → (x == y) ≡ false → x ≢ y
apart x y different e = let alike : (x == y) ≡ true = (eq_iff x y).1 e in cc

perform_all-IsValid_example : IsValid (perform_all (λ code. code) operations sample)
perform_all-IsValid_example = perform_all-IsValid (λ code. code) operations sample sample-IsValid

perform_all-elsewhere_example :
    get_workspace_access (perform_all (λ code. code) operations sample) "u2" "w2"
    ≡ get_workspace_access sample "u2" "w2"
perform_all-elsewhere_example =
    perform_all-elsewhere (λ code. code) operations sample "u2" "w2" sample-IsValid
      (apart "w2" "w1" refl, (apart "w2" "w1" refl, (apart "w2" "w1" refl, tt)))
