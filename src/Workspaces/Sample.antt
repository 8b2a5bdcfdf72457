-- ===== src/Workspaces/Sample.antt =====
-- A database with two workspaces, for the tests.
use nest_shortlink_platform.Common.{[], ◌∷◌, none, string_eq, refl}
use nest_shortlink_platform.Workspaces.{Database, collides, same_membership}
use nest_shortlink_platform.Workspaces.Invariant.{IsValid}

abbrev pub sample : Database
sample = record {
  users =
      record {
        id = "u1";
        email = "ann@example.com";
        name = none;
        password_hash = "h1";
        created_at = 2;
      }
      ∷ record {
        id = "u2";
        email = "bob@example.com";
        name = none;
        password_hash = "h2";
        created_at = 1;
      }
      ∷ [];
  roles =
      record { id = "r1"; code = "OWNER"; permissions = "links.create" ∷ "members.manage" ∷ [] }
      ∷ record { id = "r2"; code = "MEMBER"; permissions = "links.create" ∷ [] }
      ∷ [];
  workspaces =
      record { id = "w1"; name = "One"; slug = "one" }
      ∷ record { id = "w2"; name = "Two"; slug = "two" }
      ∷ [];
  members =
      record { id = "m1"; workspace_id = "w1"; user_id = "u1" }
      ∷ record { id = "m2"; workspace_id = "w2"; user_id = "u2" }
      ∷ [];
  member_roles =
      record { member_id = "m1"; role_id = "r1" }
      ∷ record { member_id = "m2"; role_id = "r1" }
      ∷ [];
}

pub sample-IsValid : IsValid sample
unfolding collides same_membership
sample-IsValid =
    (((refl, tt), (tt, tt)), ((refl, tt), (tt, tt)), ((refl, tt), (tt, tt)), (refl, (refl, tt)))
