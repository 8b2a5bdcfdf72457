-- ===== src/Authorization.antt =====
-- src/authorization: the access of a user to a workspace (authorization.service.ts), and the guards
-- (guards/workspace-permission.guard.ts, guards/permission.guard.ts).
pub mod Roles
pub mod Guard
mod Tests
use nest_shortlink_platform.Common.{
  ◌≡◌, String, List, [], ◌∷◌, ◌++◌, any, find, Option, none, some, Bool, true, false, not, ◌&&◌,
  ◌||◌, ◌==◌, string_eq, if◌then◌else◌, map,
}
use nest_shortlink_platform.Common.Effects.{Outcome, ok, threw, Eff, pure, throw, ◌>>=◌, ◌>>◌}
use nest_shortlink_platform.Http.{HttpError, bad_request, not_found, forbidden, unauthorized}
use nest_shortlink_platform.Workspaces.{Role, WorkspaceMember, Database, same_membership}
use nest_shortlink_platform.Workspaces.Service.{roles_of, role_codes}

-- `Set.has` and `Set.add`.
unfoldable pub has : String → List String → Bool
has code codes = any (λ c. c == code) codes

unfoldable pub insert_code : String → List String → List String
unfolding has
insert_code code codes = if has code codes then codes else codes ++ (code ∷ [])

-- The inner loop of `getWorkspaceAccess`, and the outer one.
unfoldable pub add_codes : List String → List String → List String
unfolding insert_code
add_codes [] set = set
add_codes (code ∷ codes) set = add_codes codes (insert_code code set)

unfoldable pub add_roles : List Role → List String → List String
unfolding add_codes
add_roles [] set = set
add_roles (role ∷ roles) set = add_roles roles (add_codes role.permissions set)

pub record Access : Type 0 where
  pub member_id : String
  pub roles : List String
  pub permission_codes : List String

unfoldable pub access_of : Database → Option WorkspaceMember → Option Access
unfolding add_roles roles_of
access_of db none = none
access_of db (some member) = some (record {
  member_id = member.id;
  roles = role_codes db member;
  permission_codes = add_roles (roles_of db.roles member.id db.member_roles) [];
})

unfoldable pub get_workspace_access : Database → String → String → Option Access
unfolding access_of same_membership
get_workspace_access db user workspace =
    access_of db (find (same_membership workspace user) db.members)

-- `required.every((permission) => codes.has(permission))`.
unfoldable pub has_all : List String → List String → Bool
unfolding has
has_all [] codes = true
has_all (permission ∷ required) codes = has permission codes && has_all required codes

-- `getPermissionCodes` and `hasAllPermissions`: no user holds a permission of the platform.
unfoldable pub get_permission_codes : String → List String
get_permission_codes user = []

unfoldable pub has_all_permissions : String → List String → Bool
unfolding has_all get_permission_codes
has_all_permissions user required = has_all required (get_permission_codes user)

unfoldable pub is_empty : List String → Bool
is_empty [] = true
is_empty (x ∷ xs) = false

-- PermissionGuard; the absence of a decorator is an empty list.
unfoldable pub permission_guard : List String → Option String → Eff HttpError (Unit {0}) Bool
unfolding has_all_permissions is_empty
permission_guard required none =
    if is_empty required then pure true else throw (unauthorized "Unauthorized")
permission_guard required (some user) =
    if is_empty required
    then pure true
    else if has_all_permissions user required
    then pure true
    else throw (forbidden "Insufficient permission")

-- `request.workspaceAccess`.
pub record WorkspaceAccess : Type 0 where
  pub workspace_id : String
  pub access : Access

unfoldable pub permit :
    List String → String → Option Access → Eff HttpError (Option WorkspaceAccess) Bool
unfolding has_all
permit required workspace none request = threw (not_found "Workspace not found") request
permit required workspace (some access) request =
    if has_all required access.permission_codes
    then ok true (some (record { workspace_id = workspace; access = access }))
    else threw (forbidden "Insufficient workspace permission") request

-- WorkspacePermissionGuard, with `isUUID` of class-validator, which an empty text does not pass.
unfoldable pub workspace_guard :
    (String → Bool)
    → Database
    → List String
    → String
    → Option String
    → Eff HttpError (Option WorkspaceAccess) Bool
unfolding is_empty permit get_workspace_access
workspace_guard is_uuid db required user workspace =
    if is_empty required then pure true else elim workspace [
      | none ↦ throw (bad_request "Invalid workspaceId")
      | some id ↦
          if (id == "") || not (is_uuid id)
          then throw (bad_request "Invalid workspaceId")
          else permit required id (get_workspace_access db user id)
    ]
