-- ===== src/Workspaces/Service.antt =====
-- The operations of src/workspaces/workspaces.service.ts. Identifiers are drawn by the database and
-- are arguments here.
use nest_shortlink_platform.Common.{
  String, List, [], ◌∷◌, length, map, any, filter, find, Option, none, some, Bool, not, ◌&&◌, ◌==◌,
  string_eq, nat_eq, if◌then◌else◌,
}
use nest_shortlink_platform.Common.Effects.{ok, threw, pure, throw, ◌>>=◌, ◌>>◌, catch}
use nest_shortlink_platform.Http.{HttpError, not_found, conflict, internal_server_error}
use nest_shortlink_platform.Workspaces.{
  User, Role, WorkspaceRow, WorkspaceMember, WorkspaceMemberRole, Database, Failure, http, prisma,
  Service, same_grant, insert_workspace, insert_member, insert_member_role, delete_members,
  transaction,
}

-- A row that has to be there.
unfoldable pub or_throw : {A : Type 0} → HttpError → Option A → Service A
or_throw error none = throw (http error)
or_throw error (some x) = pure x

abbrev pub role_of_code : String → Database → Option Role
role_of_code code db = find (λ role. role.code == code) db.roles

-- The two rows of a new member.
unfoldable pub enroll : String → String → String → Role → Service (Unit {0})
unfolding insert_member insert_member_role
enroll id workspace user role = do
  member ← insert_member (record { id = id; workspace_id = workspace; user_id = user })
  insert_member_role (record { member_id = member.id; role_id = role.id })

-- `create`. The transaction is returned without `await`, so that the `catch` around it never sees
-- its exceptions.
unfoldable pub create_workspace : String → String → String → String → String → Service WorkspaceRow
unfolding transaction or_throw insert_workspace enroll
create_workspace id member_id user name slug = transaction do
  role ← λ db.
      or_throw (internal_server_error "OWNER role is not initialized") (role_of_code "OWNER" db) db
  workspace ← insert_workspace (record { id = id; name = name; slug = slug })
  enroll member_id workspace.id user role
  pure workspace

abbrev pub join : Option Role → List Role → List Role
join none rest = rest
join (some role) rest = role ∷ rest

-- The rows of the roles of a member, joined with the table Role.
unfoldable pub roles_of : List Role → String → List WorkspaceMemberRole → List Role
roles_of roles member [] = []
roles_of roles member (row ∷ rows) =
    let rest = roles_of roles member rows in
    if row.member_id == member
    then join (find (λ (role : Role). role.id == row.role_id) roles) rest
    else rest

abbrev pub role_codes : Database → WorkspaceMember → List String
role_codes db member = map (λ role. role.code) (roles_of db.roles member.id db.member_roles)

-- An item of `findMime` and of `findMembers`: a membership with the row it is joined with.
pub record Mine : Type 0 where
  pub membership_id : String
  pub workspace : Option WorkspaceRow
  pub roles : List String

-- `findMime`; the rows of a table are held latest first.
unfoldable pub find_mine : String → Database → List Mine
unfolding roles_of
find_mine user db =
    map
      (λ member. record {
        membership_id = member.id;
        workspace = find (λ (w : WorkspaceRow). w.id == member.workspace_id) db.workspaces;
        roles = role_codes db member;
      })
      (filter (λ member. member.user_id == user) db.members)

-- `findOne`.
unfoldable pub find_workspace : String → Service WorkspaceRow
unfolding or_throw
find_workspace id db =
    or_throw (not_found "Workspace not found")
      (find (λ workspace. workspace.id == id) db.workspaces) db

-- A DTO with no name leaves it as it is.
abbrev pub new_name : Option String → String → String
new_name none kept = kept
new_name (some name) kept = name

abbrev pub renamed : String → Option String → List WorkspaceRow → List WorkspaceRow
renamed id name [] = []
renamed id name (row ∷ rows) =
    let rest = renamed id name rows in
    (if row.id == id then record row { name = new_name name row.name } else row) ∷ rest

-- `update`, with the name of the DTO, if there is one.
unfoldable pub update_workspace : String → Option String → Service (Unit {0})
update_workspace id name db =
    if any (λ (row : WorkspaceRow). row.id == id) db.workspaces
    then ok tt (record db { workspaces = renamed id name db.workspaces })
    else threw (prisma "P2025") db

-- `remove`; the members of the workspace go with it.
unfoldable pub remove_workspace : String → Service (Unit {0})
unfolding delete_members
remove_workspace id db =
    if any (λ (row : WorkspaceRow). row.id == id) db.workspaces
    then ok tt (
        delete_members (λ member. member.workspace_id == id)
          (record db { workspaces = filter (λ row. not (row.id == id)) db.workspaces }))
    else threw (prisma "P2025") db

-- P2002 is a conflict.
unfoldable pub as_conflict : {A : Type 0} → String → Failure → Service A
as_conflict text (http error) = throw (http error)
as_conflict text (prisma code) =
    if code == "P2002" then throw (http (conflict text)) else throw (prisma code)

-- `addMember`.
unfoldable pub add_member : String → String → String → Service (String × User)
unfolding transaction or_throw enroll as_conflict
add_member member_id workspace email = do
  user ← λ db.
      or_throw (not_found "User not found") (find (λ (u : User). u.email == email) db.users) db
  role ← λ db.
      or_throw (internal_server_error "MEMBER role is not initialized") (role_of_code "MEMBER" db)
        db
  catch (transaction do enroll member_id workspace user.id role; pure (member_id, user))
      (as_conflict "User is already a workspace member")

unfoldable pub is_membership : String → String → WorkspaceMember → Bool
is_membership workspace member row = (row.id == member) && (row.workspace_id == workspace)

-- `upsert` with an empty update.
unfoldable pub upsert_member_role : WorkspaceMemberRole → Service (Unit {0})
unfolding insert_member_role
upsert_member_role row db =
    if any (same_grant row) db.member_roles then ok tt db else insert_member_role row db

-- `assignRole`; `upper` is `toUpperCase`.
unfoldable pub assign_role :
    (String → String) → String → String → String → Service (String × String)
unfolding or_throw is_membership upsert_member_role
assign_role upper workspace member code = do
  found ← λ db.
      or_throw (not_found "Workspace member not found")
        (find (is_membership workspace member) db.members) db
  role ← λ db. or_throw (not_found "Role not found") (role_of_code (upper code) db) db
  upsert_member_role (record { member_id = member; role_id = role.id })
  pure (member, role.code)

-- `removeMember`.
unfoldable pub remove_member : String → String → Service (Unit {0})
unfolding delete_members is_membership
remove_member workspace member db =
    let count = length (filter (is_membership workspace member) db.members) in
    let after = delete_members (is_membership workspace member) db in
    if count == 1 then ok tt after else threw (http (not_found "Workspace member not found")) after
