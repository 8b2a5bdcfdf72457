-- ===== src/Users.antt =====
-- src/users/users.service.ts: the table User.
pub mod Pages
mod Tests
use nest_shortlink_platform.Common.{
  ℕ, zero, suc, ◌+◌, ◌-◌, ◌*◌, ◌/◌, String, List, [], ◌∷◌, ◌++◌, length, any, filter, find, Option,
  none, some, Bool, true, false, not, ◌&&◌, ◌||◌, ◌==◌, string_eq, if◌then◌else◌,
}
use nest_shortlink_platform.Common.Effects.{
  Outcome, ok, threw, Eff, pure, throw, ◌>>=◌, ◌>>◌, catch,
}
use nest_shortlink_platform.Http.{not_found, conflict, internal_server_error}
use nest_shortlink_platform.Workspaces.{
  User, Role, Database, Failure, http, prisma, Service, transaction, delete_members,
}
use nest_shortlink_platform.Workspaces.Service.{or_throw, role_of_code, as_conflict}

-- `user.create`: the id and the email are unique.
unfoldable pub insert_user : User → Service User
insert_user row db =
    if any (λ (old : User). (old.id == row.id) || (old.email == row.email)) db.users
    then threw (prisma "P2002") db
    else ok row (record db { users = row ∷ db.users })

-- `createForAuth`; the id is drawn by the database.
unfoldable pub create_for_auth : User → Service User
unfolding transaction or_throw insert_user as_conflict
create_for_auth input =
    catch
      (transaction do
        role ← λ db.
            or_throw (internal_server_error "Default MEMBER role is not initialized")
              (role_of_code "MEMBER" db) db
        insert_user input)
      (as_conflict "Email already exists")

-- `findOne`.
unfoldable pub find_user : String → Service User
unfolding or_throw
find_user id db = or_throw (not_found "User not found") (find (λ user. user.id == id) db.users) db

pub record UpdateUserDto : Type 0 where
  pub email : Option String
  pub name : Option String

-- A field that is absent is left as it is.
abbrev or_email : Option String → String → String
or_email none kept = kept
or_email (some new) kept = new

abbrev or_name : Option String → Option String → Option String
or_name none kept = kept
or_name (some new) kept = some new

abbrev pub changed : UpdateUserDto → User → User
changed dto row = record row {
  email = or_email dto.email row.email;
  name = or_name dto.name row.name;
}

abbrev changed_rows : String → UpdateUserDto → List User → List User
changed_rows id dto [] = []
changed_rows id dto (row ∷ rows) =
    let rest = changed_rows id dto rows in (if row.id == id then changed dto row else row) ∷ rest

-- Whether another user has the email that is asked for.
abbrev email_taken : String → Option String → List User → Bool
email_taken id none rows = false
email_taken id (some email) rows =
    any (λ (row : User). not (row.id == id) && (row.email == email)) rows

unfoldable pub write_user : String → UpdateUserDto → Service (Unit {0})
write_user id dto db =
    if email_taken id dto.email db.users
    then threw (prisma "P2002") db
    else ok tt (record db { users = changed_rows id dto db.users })

-- `update`.
unfoldable pub update_user : String → UpdateUserDto → Service (Unit {0})
unfolding find_user write_user as_conflict
update_user id dto = do find_user id; catch (write_user id dto) (as_conflict "Email already exists")

-- `remove`, for a user who created no links; the memberships go with the user.
unfoldable pub remove_user : String → Service (Unit {0})
unfolding find_user delete_members
remove_user id = do
  find_user id
  λ db. ok tt (
      delete_members (λ member. member.user_id == id)
        (record db { users = filter (λ row. not (row.id == id)) db.users }))

-- `skip` and `take`.
abbrev pub drop : ℕ → List User → List User
drop n [] = []
drop zero (row ∷ rows) = row ∷ rows
drop (suc n) (row ∷ rows) = drop n rows

abbrev pub take : ℕ → List User → List User
take n [] = []
take zero (row ∷ rows) = []
take (suc n) (row ∷ rows) = row ∷ take n rows

-- The answer of `findAll`.
pub record Page : Type 0 where
  pub rows : List User
  pub page : ℕ
  pub page_size : ℕ
  pub total : ℕ
  pub total_pages : ℕ

-- `findAll`. `order_by` is how this query's `ORDER BY "createdAt" DESC` puts the rows: the times need
-- not differ, and rows of the same time come in any order, another one at another query.
unfoldable pub find_all : (List User → List User) → ℕ → ℕ → Database → Page
find_all order_by page page_size db = record {
  rows = take page_size (drop ((page - 1) * page_size) (order_by db.users));
  page = page;
  page_size = page_size;
  total = length db.users;
  total_pages = (length db.users + (page_size - 1)) / page_size;
}
