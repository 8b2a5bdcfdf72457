-- ===== src/Workspaces/Operations.antt =====
-- What each operation of the service keeps of the tables, and of the access to other workspaces.
use nest_shortlink_platform.Common.{
  ◌≡◌, refl, sym, ap, ◌∙◌, inl, inr, String, List, [], ◌∷◌, any, filter, length, find, find-Memᴰ,
  All, Unique, Option, none, some, false, not, ◌==◌, string_eq, nat_eq, if_elim, eq_iff, arith,
  Bool-cases,
}
use mathlib.Core.Path.{subst}
use nest_shortlink_platform.Common.Effects.{Outcome, ok, threw, pure, ◌>>=◌, ◌>>◌, state_of}
use nest_shortlink_platform.Common.Ensures.{Ensures, Ensures-bind, Ensures-catch}
use nest_shortlink_platform.Http.{HttpError, not_found, internal_server_error}
use nest_shortlink_platform.Workspaces.{
  User, Role, WorkspaceRow, WorkspaceMemberRole, Database, Failure, http, prisma, Service, undone,
  transaction, insert_workspace, insert_member_role, same_grant,
}
use nest_shortlink_platform.Workspaces.Service.{
  enroll, or_throw, role_of_code, create_workspace, update_workspace, remove_workspace, add_member,
  assign_role, remove_member, as_conflict, is_membership, upsert_member_role, renamed, new_name,
}
use nest_shortlink_platform.Workspaces.Invariant.{
  Kept, Belongs, same_workspace, insert_workspace-Kept, insert_member_role-Kept, enroll-Kept,
  filter-Unique, access-same,
}
use nest_shortlink_platform.Workspaces.Cascade.{delete_members-Kept}

alike_row :
    (row new other : WorkspaceRow)
    → (new.id ≡ row.id) × (new.slug ≡ row.slug)
    → same_workspace row other ≡ false
    → same_workspace new other ≡ false
alike_row row new other (e, f) h = rw (e, f) h

renamed-apart :
    (id : String) (name : Option String) (row new : WorkspaceRow) (rows : List WorkspaceRow)
    → (new.id ≡ row.id) × (new.slug ≡ row.slug)
    → All (λ other. same_workspace row other ≡ false) rows
    → All (λ other. same_workspace new other ≡ false) (renamed id name rows)
renamed-apart id name row new [] e h = tt
renamed-apart id name row new (other ∷ rows) e (h, hs) = (
  if_elim (λ (o : WorkspaceRow). same_workspace new o ≡ false) (other.id == id) _ _
      (λ _. alike_row row new other e h) (λ _. alike_row row new other e h),
  renamed-apart id name row new rows e hs,
)

renamed-Unique :
    (id : String) (name : Option String) (rows : List WorkspaceRow)
    → Unique same_workspace rows
    → Unique same_workspace (renamed id name rows)
renamed-Unique id name [] u = tt
renamed-Unique id name (row ∷ rows) (h, u) = (
  if_elim
      (λ (o : WorkspaceRow). All (λ other. same_workspace o other ≡ false) (renamed id name rows))
      (row.id == id) _ _
      (λ _.
        renamed-apart id name row (record row { name = new_name name row.name }) rows (refl, refl)
          h)
      (λ _. renamed-apart id name row row rows (refl, refl) h),
  renamed-Unique id name rows u,
)

module _ (before : Database) (workspace : String) where
  or_throw-Kept :
      {A : Type 0} (e : HttpError) (found : Option A) (db : Database)
      → Kept before workspace db
      → Ensures (Kept before workspace) (λ x. found ≡ some x) (or_throw e found db)
  unfolding or_throw
  or_throw-Kept e none db k = k
  or_throw-Kept e (some x) db k = (refl, k)

  transaction-Kept :
      {A : Type 0} (body : Service A) (db : Database)
      → Kept before workspace db
      → Ensures (Kept before workspace) (λ x. Unit {0}) (body db)
      → Ensures (Kept before workspace) (λ x. Unit {0}) (transaction body db)
  unfolding transaction
  transaction-Kept {A} body db k h = go (body db) h
    where
      go :
          (r : Outcome Failure Database A)
          → Ensures (Kept before workspace) (λ x. Unit {0}) r
          → Ensures (Kept before workspace) (λ x. Unit {0}) (undone db r)
      go (ok x after) h = h
      go (threw e after) h = k

  as_conflict-Kept :
      (A : Type 0) (text : String) (e : Failure) (db : Database)
      → Kept before workspace db
      → Ensures {A = A} (Kept before workspace) (λ x. Unit {0}) (as_conflict text e db)
  unfolding as_conflict
  as_conflict-Kept A text (http e) db k = k
  as_conflict-Kept A text (prisma code) db k = elim (Bool-cases (code == "P2002")) [
    | inl taken ↦ rw taken k
    | inr other ↦ rw other k
  ]

  pub add_member-Kept :
      (id email : String) (db : Database)
      → Kept before workspace db
      → Ensures (Kept before workspace) (λ x. Unit {0}) (add_member id workspace email db)
  unfolding add_member
  add_member-Kept id email db k =
      Ensures-bind (Kept before workspace) (λ user. _) (λ x. Unit {0})
        (or_throw (not_found "User not found") (find (λ (u : User). u.email == email) db.users) db)
        _ (or_throw-Kept _ _ db k)
        (λ user db e k.
          Ensures-bind (Kept before workspace) (λ role. _) (λ x. Unit {0})
            (or_throw (internal_server_error "MEMBER role is not initialized")
              (role_of_code "MEMBER" db) db)
            _ (or_throw-Kept _ _ db k)
            (λ role db e k.
              let body : Service (String × User) =
                enroll id workspace user.id role >> pure (id, user) in
              Ensures-catch (Kept before workspace) (λ x. Unit {0}) (transaction body) _ db
                (transaction-Kept body db k (
                  Ensures-bind (Kept before workspace) (λ x. Unit {0}) (λ x. Unit {0})
                    (enroll id workspace user.id role db) (λ done. pure (id, user))
                    (enroll-Kept before workspace id user.id role db k) (λ done db h k. (tt, k))))
                (as_conflict-Kept _ "User is already a workspace member")))

  pub create_workspace-Kept :
      (member user name slug : String) (db : Database)
      → Kept before workspace db
      → Ensures
          (Kept before workspace)
          (λ x. Unit {0})
          (create_workspace workspace member user name slug db)
  unfolding create_workspace
  create_workspace-Kept member user name slug db k =
      let made : Role → Service WorkspaceRow = λ role.
        insert_workspace (record { id = workspace; name = name; slug = slug })
        >>= (λ row. enroll member row.id user role >> pure row) in
      let body : Service WorkspaceRow =
        (λ db.
          or_throw (internal_server_error "OWNER role is not initialized") (role_of_code "OWNER" db)
            db)
        >>= made in
      transaction-Kept body db k (
        Ensures-bind (Kept before workspace) (λ role. _) (λ x. Unit {0})
          (or_throw (internal_server_error "OWNER role is not initialized")
            (role_of_code "OWNER" db) db)
          made (or_throw-Kept _ _ db k)
          (λ role db e k.
            Ensures-bind (Kept before workspace) _ (λ x. Unit {0}) _
              (λ row. enroll member row.id user role >> pure row)
              (insert_workspace-Kept before workspace
                (record { id = workspace; name = name; slug = slug }) db k)
              (λ row db e k.
                Ensures-bind (Kept before workspace) (λ x. Unit {0}) (λ x. Unit {0})
                  (enroll member row.id user role db) (λ done. pure row)
                  (subst
                    (λ w.
                      Ensures (Kept before workspace) (λ x. Unit {0})
                        (enroll member w user role db))
                    (ap (λ (x : WorkspaceRow). x.id) (sym e))
                    (enroll-Kept before workspace member user role db k))
                  (λ done db h k. (tt, k)))))

  or_throw-bind :
      {A B : Type 0} (e : HttpError) (found : Option A) (f : A → Service B) (db : Database)
      → Kept before workspace db
      → ((x : A) → found ≡ some x → Ensures (Kept before workspace) (λ y. Unit {0}) (f x db))
      → Ensures
          (Kept before workspace)
          (λ y. Unit {0})
          (elim (or_throw e found db) [ ok x db ↦ f x db | threw e db ↦ threw e db ])
  unfolding or_throw
  or_throw-bind e none f db k h = k
  or_throw-bind e (some x) f db k h = h x refl

  upsert_member_role-Kept :
      (row : WorkspaceMemberRole) (db : Database)
      → Kept before workspace db
      → Belongs before workspace db row.member_id
      → Ensures (Kept before workspace) (λ x. Unit {0}) (upsert_member_role row db)
  unfolding upsert_member_role
  upsert_member_role-Kept row db k b =
      if_elim {A = Outcome Failure Database (Unit {0})}
        (Ensures (Kept before workspace) (λ x. Unit {0})) (any (same_grant row) db.member_roles)
        (ok tt db) (insert_member_role row db) (λ _. (tt, k))
        (λ _. insert_member_role-Kept before workspace row db k b)

  pub assign_role-Kept :
      (upper : String → String) (member code : String) (db : Database)
      → Kept before workspace db
      → Ensures (Kept before workspace) (λ x. Unit {0}) (assign_role upper workspace member code db)
  unfolding assign_role is_membership
  assign_role-Kept upper member code db k =
      let bind_role : Role → Service (String × String) = λ role.
        upsert_member_role (record { member_id = member; role_id = role.id })
        >> pure (member, role.code) in
      or_throw-bind (not_found "Workspace member not found")
        (find (is_membership workspace member) db.members)
        (λ found.
          (λ db. or_throw (not_found "Role not found") (role_of_code (upper code) db) db)
          >>= bind_role)
        db k
        (λ row found.
          let (m, same) = find-Memᴰ (is_membership workspace member) row db.members found in
          or_throw-bind (not_found "Role not found") (role_of_code (upper code) db) bind_role db k
            (λ role _.
              Ensures-bind (Kept before workspace) (λ x. Unit {0}) (λ x. Unit {0})
                (upsert_member_role (record { member_id = member; role_id = role.id }) db)
                (λ done. pure (member, role.code))
                (upsert_member_role-Kept (record { member_id = member; role_id = role.id }) db k
                  (
                    row,
                    m,
                    (eq_iff row.id member).0 (ground (arith, same)),
                    (eq_iff row.workspace_id workspace).0 (ground (arith, same)),
                  ))
                (λ done db h k. (tt, k))))

  pub remove_member-Kept :
      (member : String) (db : Database)
      → Kept before workspace db
      → Kept before workspace (state_of (remove_member workspace member db))
  unfolding remove_member is_membership
  remove_member-Kept member db k =
      let after =
        delete_members-Kept before workspace (is_membership workspace member)
          (λ row h. (eq_iff row.workspace_id workspace).0 (ground (arith, h))) db k in
      elim (Bool-cases (length (filter (is_membership workspace member) db.members) == 1)) [
        | inl one ↦ rw (one, state_of) after
        | inr other ↦ rw (other, state_of) after
      ]

  pub remove_workspace-Kept :
      (db : Database)
      → Kept before workspace db
      → Kept before workspace (state_of (remove_workspace workspace db))
  unfolding remove_workspace
  remove_workspace-Kept db ((w, m, g, r), e, k) =
      let left : Database = record db {
        workspaces = filter (λ row. not (row.id == workspace)) db.workspaces;
      } in
      let placed : Kept before workspace left = (
        (filter-Unique same_workspace (λ row. not (row.id == workspace)) db.workspaces w, m, g, r),
        e,
        (λ user other apart.
            access-same db left user other refl refl (λ member found. refl) ∙ k user other apart),
      ) in
      let after =
        delete_members-Kept before workspace (λ member. member.workspace_id == workspace)
          (λ row h. (eq_iff row.workspace_id workspace).0 h) left placed in
      elim (Bool-cases (any (λ (row : WorkspaceRow). row.id == workspace) db.workspaces)) [
        | inl there ↦ rw (there, state_of) after
        | inr missing ↦ rw (missing, state_of) ((w, m, g, r), e, k)
      ]

  pub update_workspace-Kept :
      (name : Option String) (db : Database)
      → Kept before workspace db
      → Kept before workspace (state_of (update_workspace workspace name db))
  unfolding update_workspace
  update_workspace-Kept name db ((w, m, g, r), e, k) =
      let left : Database = record db { workspaces = renamed workspace name db.workspaces } in
      let after : Kept before workspace left = (
        (renamed-Unique workspace name db.workspaces w, m, g, r),
        e,
        (λ user other apart.
            access-same db left user other refl refl (λ member found. refl) ∙ k user other apart),
      ) in
      elim (Bool-cases (any (λ (row : WorkspaceRow). row.id == workspace) db.workspaces)) [
        | inl there ↦ rw (there, state_of) after
        | inr missing ↦ rw (missing, state_of) ((w, m, g, r), e, k)
      ]
