-- ===== src/Workspaces/Isolation.antt =====
-- The operations of the service in any order: what they keep of the tables, and of the access to
-- other workspaces.
use nest_shortlink_platform.Common.{
  ◌≡◌, ◌≢◌, refl, ◌∙◌, String, List, [], ◌∷◌, Option, All, string_eq, nat_eq,
}
use nest_shortlink_platform.Common.Effects.{state_of}
use nest_shortlink_platform.Common.Ensures.{Ensures-state}
use nest_shortlink_platform.Workspaces.{Database}
use nest_shortlink_platform.Workspaces.Service.{
  create_workspace, update_workspace, remove_workspace, add_member, assign_role, remove_member,
}
use nest_shortlink_platform.Workspaces.Invariant.{IsValid, Kept}
use nest_shortlink_platform.Authorization.{get_workspace_access}
use nest_shortlink_platform.Workspaces.Operations.{
  add_member-Kept, create_workspace-Kept, assign_role-Kept, remove_member-Kept,
  remove_workspace-Kept, update_workspace-Kept,
}

-- A call of the service, with the identifiers that the database draws.
pub data Operation : Type 0 where
  creates : String → String → String → String → String → Operation
  renames : String → Option String → Operation
  removes : String → Operation
  adds : String → String → String → Operation
  assigns : String → String → String → Operation
  expels : String → String → Operation

-- The workspace that it works on.
abbrev pub workspace_of : Operation → String
workspace_of (creates id member user name slug) = id
workspace_of (renames workspace name) = workspace
workspace_of (removes workspace) = workspace
workspace_of (adds member workspace email) = workspace
workspace_of (assigns workspace member code) = workspace
workspace_of (expels workspace member) = workspace

unfoldable pub perform : (String → String) → Operation → Database → Database
perform upper (creates id member user name slug) db =
    state_of (create_workspace id member user name slug db)
perform upper (renames workspace name) db = state_of (update_workspace workspace name db)
perform upper (removes workspace) db = state_of (remove_workspace workspace db)
perform upper (adds member workspace email) db = state_of (add_member member workspace email db)
perform upper (assigns workspace member code) db =
    state_of (assign_role upper workspace member code db)
perform upper (expels workspace member) db = state_of (remove_member workspace member db)

unfoldable pub perform_all : (String → String) → List Operation → Database → Database
perform_all upper [] db = db
perform_all upper (op ∷ ops) db = perform_all upper ops (perform upper op db)

perform-Kept :
    (upper : String → String) (op : Operation) (before db : Database)
    → Kept before (workspace_of op) db
    → Kept before (workspace_of op) (perform upper op db)
unfolding perform
perform-Kept upper (creates id member user name slug) before db k =
    Ensures-state (Kept before id) (λ x. Unit {0}) _
      (create_workspace-Kept before id member user name slug db k)
perform-Kept upper (renames workspace name) before db k =
    update_workspace-Kept before workspace name db k
perform-Kept upper (removes workspace) before db k = remove_workspace-Kept before workspace db k
perform-Kept upper (adds member workspace email) before db k =
    Ensures-state (Kept before workspace) (λ x. Unit {0}) _
      (add_member-Kept before workspace member email db k)
perform-Kept upper (assigns workspace member code) before db k =
    Ensures-state (Kept before workspace) (λ x. Unit {0}) _
      (assign_role-Kept before workspace upper member code db k)
perform-Kept upper (expels workspace member) before db k =
    remove_member-Kept before workspace member db k

-- Whatever calls come, in any order: a user has at most one membership in a workspace, no slug and no
-- identifier occurs twice, no role is bound to a member twice, and none to a member that is not
-- there, if it was so before.
pub perform_all-IsValid :
    (upper : String → String) (ops : List Operation) (db : Database)
    → IsValid db
    → IsValid (perform_all upper ops db)
unfolding perform_all
perform_all-IsValid upper [] db v = v
perform_all-IsValid upper (op ∷ ops) db v =
    perform_all-IsValid upper ops (perform upper op db)
      (perform-Kept upper op db db (v, refl, (λ user other apart. refl))).0

-- The access of a user to a workspace, with the roles and the permissions, is what it was, whatever
-- calls come that work on other workspaces.
pub perform_all-elsewhere :
    (upper : String → String) (ops : List Operation) (db : Database) (user workspace : String)
    → IsValid db
    → All (λ op. workspace ≢ workspace_of op) ops
    → get_workspace_access (perform_all upper ops db) user workspace
      ≡ get_workspace_access db user workspace
unfolding perform_all
perform_all-elsewhere upper [] db user workspace v h = refl
perform_all-elsewhere upper (op ∷ ops) db user workspace v (h, hs) =
    let (valid, roles, same) = perform-Kept upper op db db (v, refl, (λ user other apart. refl)) in
    perform_all-elsewhere upper ops (perform upper op db) user workspace valid hs
    ∙ same user workspace h
