-- ===== src/Users/Tests.antt =====
-- Pages of a table of two users.
use nest_shortlink_platform.Common.{
  ℕ, zero, suc, ◌≡◌, ◌≤◌, refl, List, [], ◌∷◌, none, length, arith,
}
use nest_shortlink_platform.Workspaces.{User}
use nest_shortlink_platform.Workspaces.Sample.{sample}
use nest_shortlink_platform.Users.{find_all}
use nest_shortlink_platform.Users.Pages.{Listing, pages, pages-users}

abbrev kept : ℕ → List User → List User
kept page rows = rows

listed : Listing sample.users sample.users
listed = (((omega arith, tt), (tt, tt)), ((λ u m. m), (λ u m. m)), refl)

pages-users_example :
    (pages kept (find_all (kept 1) 1 1 sample).total_pages 1 sample ≡ sample.users)
    × (length (find_all (kept 1) 1 1 sample).rows ≤ 1)
pages-users_example = pages-users kept 1 1 sample sample.users (omega arith) (λ k. listed) listed

abbrev ann : User
ann = record {
  id = "u1";
  email = "ann@example.com";
  name = none;
  password_hash = "h1";
  created_at = 1;
}

abbrev bob : User
bob = record {
  id = "u2";
  email = "bob@example.com";
  name = none;
  password_hash = "h2";
  created_at = 1;
}

-- Two users of the same time, whom the second query puts in another order than the first.
abbrev tied : ℕ → List User → List User
tied (suc zero) rows = ann ∷ bob ∷ []
tied page rows = bob ∷ ann ∷ []

-- No page shows Bob, and two show Ann.
bob_lost : pages tied 2 1 (record sample { users = ann ∷ bob ∷ [] }) ≡ ann ∷ ann ∷ []
unfolding pages find_all
bob_lost = refl
