-- ===== src/Workspaces.antt =====
-- The workspaces, their members and the roles of the members (prisma/schema.prisma), and the
-- statements that src/workspaces/workspaces.service.ts makes on these tables.
pub mod Isolation
pub mod Sample
mod Tests
pub mod Service
pub mod Invariant
pub mod Cascade
pub mod Operations
use nest_shortlink_platform.Common.{
  ℕ, ◌≡◌, String, List, [], ◌∷◌, length, any, filter, find, Option, none, some, Bool, true, false,
  not, ◌&&◌, ◌||◌, ◌==◌, string_eq, if◌then◌else◌,
}
use nest_shortlink_platform.Common.Effects.{Outcome, ok, threw, Eff, pure, throw}
use nest_shortlink_platform.Http.{HttpError}

pub record User : Type 0 where
  pub id : String
  pub email : String
  pub name : Option String
  pub password_hash : String
  pub created_at : ℕ

-- A role with the codes of its permissions, joined from RolePermission and Permission.
pub record Role : Type 0 where
  pub id : String
  pub code : String
  pub permissions : List String

pub record WorkspaceRow : Type 0 where
  pub id : String
  pub name : String
  pub slug : String

pub record WorkspaceMember : Type 0 where
  pub id : String
  pub workspace_id : String
  pub user_id : String

pub record WorkspaceMemberRole : Type 0 where
  pub member_id : String
  pub role_id : String

pub record Database : Type 0 where
  pub users : List User
  pub roles : List Role
  pub workspaces : List WorkspaceRow
  pub members : List WorkspaceMember
  pub member_roles : List WorkspaceMemberRole

-- What a service throws: an exception of NestJS, or one of Prisma by its code.
pub data Failure : Type 0 where
  http : HttpError → Failure
  prisma : String → Failure

abbrev pub Service : Type 0 → Type 0
Service A = Eff Failure Database A

-- `@@unique([workspaceId, userId])` and the primary key.
unfoldable pub same_membership : String → String → WorkspaceMember → Bool
same_membership workspace user row = (row.workspace_id == workspace) && (row.user_id == user)

unfoldable pub collides : WorkspaceMember → WorkspaceMember → Bool
unfolding same_membership
collides new row = (row.id == new.id) || same_membership new.workspace_id new.user_id row

abbrev pub same_grant : WorkspaceMemberRole → WorkspaceMemberRole → Bool
same_grant new row = (row.member_id == new.member_id) && (row.role_id == new.role_id)

abbrev pub is_member : String → WorkspaceMember → Bool
is_member id row = row.id == id

-- `workspace.create`: the slug and the id are unique.
unfoldable pub insert_workspace : WorkspaceRow → Service WorkspaceRow
insert_workspace row db =
    if any (λ (old : WorkspaceRow). (old.id == row.id) || (old.slug == row.slug)) db.workspaces
    then threw (prisma "P2002") db
    else ok row (record db { workspaces = row ∷ db.workspaces })

-- `workspaceMember.create`: the workspace and the user are there, and the user is no member yet.
unfoldable pub insert_member : WorkspaceMember → Service WorkspaceMember
unfolding collides
insert_member row db =
    if any (collides row) db.members
    then threw (prisma "P2002") db
    else if any (λ (w : WorkspaceRow). w.id == row.workspace_id) db.workspaces
        && any (λ (u : User). u.id == row.user_id) db.users
    then ok row (record db { members = row ∷ db.members })
    else threw (prisma "P2003") db

-- `workspaceMemberRole.create`: the member and the role are there, and the pair is not.
unfoldable pub insert_member_role : WorkspaceMemberRole → Service (Unit {0})
insert_member_role row db =
    if any (same_grant row) db.member_roles
    then threw (prisma "P2002") db
    else if any (is_member row.member_id) db.members
        && any (λ (r : Role). r.id == row.role_id) db.roles
    then ok tt (record db { member_roles = row ∷ db.member_roles })
    else threw (prisma "P2003") db

-- The rows of the members that are deleted go with them: `onDelete: Cascade`.
unfoldable pub delete_members : (WorkspaceMember → Bool) → Database → Database
delete_members gone db = record db {
  members = filter (λ row. not (gone row)) db.members;
  member_roles =
      filter (λ row. not (any (is_member row.member_id) (filter gone db.members))) db.member_roles;
}

-- `$transaction`: what it did is undone when it throws.
module _ {A : Type 0} where
  undone : Database → Outcome Failure Database A → Outcome Failure Database A
  undone before (ok a db) = ok a db
  undone before (threw e db) = threw e before

  unfoldable pub transaction : Service A → Service A
  unfolding undone
  transaction body db = undone db (body db)
