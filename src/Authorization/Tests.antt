-- ===== src/Authorization/Tests.antt =====
-- The guard of a workspace on a database with two workspaces.
use nest_shortlink_platform.Common.{String, List, [], ◌∷◌, ◌≡◌, ◌↔◌, ◌⊎◌, refl, none, some, true}
use nest_shortlink_platform.Workspaces.Sample.{sample, sample-IsValid}
use nest_shortlink_platform.Authorization.{workspace_guard}
use nest_shortlink_platform.Authorization.Guard.{Passes, Entitled, workspace_guard-Holds}

abbrev required : List String
required = "members.manage" ∷ []

workspace_guard-Holds_example :
    Passes (workspace_guard (λ id. true) sample required "u1" (some "w1") none)
    ↔ ((required ≡ []) ⊎ Entitled sample (λ id. true) required "u1" (some "w1"))
workspace_guard-Holds_example =
    workspace_guard-Holds sample ((refl, tt), (tt, tt)) sample-IsValid.1 (λ id. true) required "u1"
      (some "w1") none
