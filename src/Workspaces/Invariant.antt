-- ===== src/Workspaces/Invariant.antt =====
-- What the statements on the tables of workspaces keep: the keys are unique, a role is bound to a
-- member that is there, and the access to other workspaces is as before.
use nest_shortlink_platform.Common.{
  ◌≡◌, ◌≢◌, refl, sym, ap, ◌∙◌, inl, inr, String, List, [], ◌∷◌, any, any-NoneIs, filter, find,
  find-Memᴰ, Unique, Unique-same, All, All-map, All-filter, some, Bool, true, false, not, ◌&&◌,
  ◌||◌, ◌==◌, string_eq, if_elim, eq_iff, arith, Bool-cases, Option-cases,
}
use mathlib.Core.List.{Memᴰ}
use mathlib.Core.List.Memᴰ.{head}
use nest_shortlink_platform.Common.Effects.{Outcome, ok, threw}
use nest_shortlink_platform.Common.Ensures.{Ensures}
use nest_shortlink_platform.Workspaces.{
  User, Role, WorkspaceRow, WorkspaceMember, WorkspaceMemberRole, Database, Failure,
  same_membership, collides, same_grant, is_member, insert_workspace, insert_member,
  insert_member_role,
}
use nest_shortlink_platform.Workspaces.Service.{roles_of, enroll}
use nest_shortlink_platform.Authorization.{get_workspace_access, access_of}

abbrev pub same_workspace : WorkspaceRow → WorkspaceRow → Bool
same_workspace new old = (old.id == new.id) || (old.slug == new.slug)

-- The member of a role's row is there.
abbrev pub Refers : List WorkspaceMember → WorkspaceMemberRole → Type 0
Refers members row = any (is_member row.member_id) members ≡ true

abbrev pub IsValid : Database → Type 0
IsValid db =
    Unique same_workspace db.workspaces
    × Unique collides db.members
    × Unique same_grant db.member_roles
    × All (Refers db.members) db.member_roles

-- What a database keeps of one before, when only a workspace is worked on.
abbrev pub Kept : Database → String → Database → Type 0
Kept before workspace db =
    IsValid db
    × (db.roles ≡ before.roles)
    × ((user other : String)
        → other ≢ workspace
        → get_workspace_access db user other ≡ get_workspace_access before user other)

pub filter-Unique :
    {A : Type 0} (alike : A → A → Bool) (p : A → Bool) (xs : List A)
    → Unique alike xs
    → Unique alike (filter p xs)
filter-Unique alike p [] u = tt
filter-Unique {A} alike p (x ∷ xs) (h, u) =
    if_elim {A = List A} (Unique alike) (p x) _ _
      (λ _. (All-filter (λ y. alike x y ≡ false) p xs h, filter-Unique alike p xs u))
      (λ _. filter-Unique alike p xs u)

-- The access stays where the membership and its roles do.
pub access-same :
    (db after : Database) (user workspace : String)
    → after.roles ≡ db.roles
    → find (same_membership workspace user) after.members
      ≡ find (same_membership workspace user) db.members
    → ((member : WorkspaceMember)
        → find (same_membership workspace user) db.members ≡ some member
        → roles_of after.roles member.id after.member_roles
          ≡ roles_of db.roles member.id db.member_roles)
    → get_workspace_access after user workspace ≡ get_workspace_access db user workspace
unfolding get_workspace_access access_of
access-same db after user workspace e f g =
    elim (Option-cases (find (same_membership workspace user) db.members)) [
      | inl gone ↦ ap (access_of after) (f ∙ gone) ∙ sym (ap (access_of db) gone)
      | inr (member, found) ↦
          ap (access_of after) (f ∙ found)
          ∙ rw (g member found) refl
          ∙ sym (ap (access_of db) found)
    ]

any-later :
    (member : String) (row : WorkspaceMember) (members : List WorkspaceMember)
    → any (is_member member) members ≡ true
    → any (is_member member) (row ∷ members) ≡ true
any-later member row members h = ground (arith, h)

pub elsewhere : (b : Bool) → (b ≡ true → ⊥) → not b ≡ true
elsewhere true h = absurd (h refl)
elsewhere false h = refl

pub place_of :
    (row : WorkspaceMember) (user other : String)
    → same_membership other user row ≡ true
    → row.workspace_id ≡ other
unfolding same_membership
place_of row user other h = (eq_iff row.workspace_id other).0 (ground (arith, h))

module _ (before : Database) (workspace : String) where
  pub insert_workspace-Kept :
      (row : WorkspaceRow) (db : Database)
      → Kept before workspace db
      → Ensures (Kept before workspace) (λ new. new ≡ row) (insert_workspace row db)
  unfolding insert_workspace
  insert_workspace-Kept row db ((w, m, g, r), e, k) =
      elim (Bool-cases (any (same_workspace row) db.workspaces)) [
        | inl taken ↦ rw taken ((w, m, g, r), e, k)
        | inr free ↦ rw free (
          refl,
          (
            ((any-NoneIs (same_workspace row) db.workspaces free, w), m, g, r),
            e,
            λ user other apart.
                access-same db (record db { workspaces = row ∷ db.workspaces }) user other refl refl
                  (λ member found. refl)
                ∙ k user other apart,
          ),
        )
      ]

  other-membership :
      (row : WorkspaceMember) (user other : String)
      → row.workspace_id ≡ workspace
      → other ≢ workspace
      → same_membership other user row ≡ false
  unfolding same_membership
  other-membership row user other e apart =
      let same = eq_iff row.workspace_id other in ground (arith, e, apart, same)

  abbrev pub Belongs : Database → String → Type 0
  Belongs db member =
      (row : WorkspaceMember) × Memᴰ row db.members
      × (row.id ≡ member)
      × (row.workspace_id ≡ workspace)

  -- The roles of members elsewhere are not those of a member here.
  pub member_apart :
      (db : Database) (here : String) (user other : String) (member : WorkspaceMember)
      → IsValid db
      → Belongs db here
      → other ≢ workspace
      → find (same_membership other user) db.members ≡ some member
      → (here == member.id) ≡ false
  unfolding same_membership collides
  member_apart db here user other member valid (row, m, e, i) apart found =
      let (n, same) = find-Memᴰ (same_membership other user) member db.members found in
      elim (Bool-cases (here == member.id)) [
        | inl alike ↦
            let ids : row.id ≡ member.id = e ∙ (eq_iff here member.id).0 alike in
            let one : row ≡ member =
              Unique-same collides row member db.members valid.1 m n
                (ground (arith, ids, eq_iff row.id member.id, eq_iff member.id row.id))
                (ground (arith, ids, eq_iff row.id member.id, eq_iff member.id row.id)) in
            let places : row.workspace_id ≡ member.workspace_id = ap (λ x. x.workspace_id) one in
            absurd (
              apart (
                sym ((eq_iff member.workspace_id other).0 (ground (arith, same))) ∙ sym places ∙ i))
        | inr differ ↦ differ
      ]

  pub insert_member_role-Kept :
      (row : WorkspaceMemberRole) (db : Database)
      → Kept before workspace db
      → Belongs db row.member_id
      → Ensures (Kept before workspace) (λ done. Unit {0}) (insert_member_role row db)
  unfolding insert_member_role roles_of
  insert_member_role-Kept row db ((w, m, g, r), e, k) b =
      let known = any (is_member row.member_id) db.members in
      let bound = any (λ (role : Role). role.id == row.role_id) db.roles in
      elim (Bool-cases (any (same_grant row) db.member_roles)) [
        | inl taken ↦ rw taken ((w, m, g, r), e, k)
        | inr free ↦ elim (Bool-cases (known && bound)) [
          | inl there ↦
              rw (free, there)
                (
                  tt,
                  (
                    (
                      w,
                      m,
                      (any-NoneIs (same_grant row) db.member_roles free, g),
                      (ground (arith, there), r),
                    ),
                    e,
                    λ user other apart.
                        access-same db (record db { member_roles = row ∷ db.member_roles }) user
                          other refl refl
                          (λ member found.
                            rw
                              (member_apart db row.member_id user other member (w, m, g, r) b apart
                                found)
                              refl)
                        ∙ k user other apart,
                  ),
                )
          | inr missing ↦ rw (free, missing) ((w, m, g, r), e, k)
        ]
      ]

  -- A member that was inserted is there.
  abbrev Joined : WorkspaceMember → Outcome Failure Database WorkspaceMember → Type 0
  Joined row (ok member db) = (member ≡ row) × Memᴰ row db.members × Kept before workspace db
  Joined row (threw e db) = Kept before workspace db

  insert_member-Kept :
      (row : WorkspaceMember) (db : Database)
      → row.workspace_id ≡ workspace
      → Kept before workspace db
      → Joined row (insert_member row db)
  unfolding insert_member
  insert_member-Kept row db here ((w, m, g, r), e, k) =
      let placed = any (λ (place : WorkspaceRow). place.id == row.workspace_id) db.workspaces in
      let known = any (λ (user : User). user.id == row.user_id) db.users in
      let joined : Database = record db { members = row ∷ db.members } in
      elim (Bool-cases (any (collides row) db.members)) [
        | inl taken ↦ rw taken ((w, m, g, r), e, k)
        | inr free ↦ elim (Bool-cases (placed && known)) [
          | inr missing ↦ rw (free, missing) ((w, m, g, r), e, k)
          | inl there ↦
              rw (free, there)
                (
                  refl,
                  head refl,
                  (
                    (
                      w,
                      (any-NoneIs (collides row) db.members free, m),
                      g,
                      All-map (Refers db.members) (Refers joined.members) db.member_roles
                          (λ grant h. any-later grant.member_id row db.members h) r,
                    ),
                    e,
                    λ user other apart.
                        access-same db joined user other refl
                          (rw (other-membership row user other here apart) refl)
                          (λ member found. refl)
                        ∙ k user other apart,
                  ),
                )
        ]
      ]

  pub enroll-Kept :
      (id user : String) (role : Role) (db : Database)
      → Kept before workspace db
      → Ensures (Kept before workspace) (λ done. Unit {0}) (enroll id workspace user role db)
  unfolding enroll
  enroll-Kept id user role db k = go (insert_member row db) (insert_member-Kept row db refl k)
    where
      row : WorkspaceMember
      row = record { id = id; workspace_id = workspace; user_id = user }

      go :
          (r : Outcome Failure Database WorkspaceMember)
          → Joined row r
          → Ensures
              (Kept before workspace)
              (λ done. Unit {0})
              (elim r [
                | ok member db ↦
                    insert_member_role (record { member_id = member.id; role_id = role.id }) db
                | threw e db ↦ threw e db
              ])
      go (ok member after) (e, b, k) =
          insert_member_role-Kept (record { member_id = member.id; role_id = role.id }) after k
            (row, b, ap (λ x. x.id) (sym e), refl)
      go (threw e after) k = k
