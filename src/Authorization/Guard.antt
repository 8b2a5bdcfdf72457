-- ===== src/Authorization/Guard.antt =====
-- What the guard of a workspace lets through.
use nest_shortlink_platform.Common.{
  ◌≡◌, ◌↔◌, ◌⊎◌, inl, inr, refl, sym, ap, ◌∙◌, String, List, [], ◌∷◌, any, Option, none, some, Bool,
  true, false, not, ◌||◌, ◌==◌, string_eq, All, All-map, Unique, find, find-Memᴰ, find-Unique,
  eq_iff, arith, Bool-cases, Option-cases,
}
use mathlib.Core.List.{Memᴰ}
use mathlib.Core.Path.{subst}
use mathlib.Core.Option.{some-injective, none-ne-some}
use nest_shortlink_platform.Common.Effects.{Outcome, ok, threw}
use nest_shortlink_platform.Http.{HttpError}
use nest_shortlink_platform.Workspaces.{
  Role, WorkspaceMember, WorkspaceMemberRole, Database, same_membership, collides,
}
use nest_shortlink_platform.Workspaces.Service.{roles_of}
use nest_shortlink_platform.Authorization.{
  has, add_roles, has_all, access_of, get_workspace_access, permit, is_empty, workspace_guard,
  Access, WorkspaceAccess,
}
use nest_shortlink_platform.Authorization.Roles.{
  has-add_roles, has-Memᴰ, role_named, roles_of-Bound, Bound-roles_of,
}

-- The user is a member of the workspace and has a role there that has the permission.
abbrev pub Holds : Database → String → String → String → Type 0
Holds db user workspace permission =
    (member : WorkspaceMember) × (row : WorkspaceMemberRole) × (role : Role) × Memᴰ member
      db.members
    × (member.workspace_id ≡ workspace)
    × (member.user_id ≡ user)
    × Memᴰ row db.member_roles
    × (row.member_id ≡ member.id)
    × Memᴰ role db.roles
    × (row.role_id ≡ role.id)
    × Memᴰ permission role.permissions

-- The guard lets a request through.
abbrev pub Passes : Outcome HttpError (Option WorkspaceAccess) Bool → Type 0
Passes (ok b request) = b ≡ true
Passes (threw e request) = ⊥

-- Identifiers are unique.
abbrev pub UniqueRoles : Database → Type 0
UniqueRoles db = Unique (λ (a b : Role). a.id == b.id) db.roles

abbrev pub UniqueMembers : Database → Type 0
UniqueMembers db = Unique collides db.members

has_all-All :
    (required codes : List String)
    → (has_all required codes ≡ true) ↔ All (λ code. has code codes ≡ true) required
unfolding has_all
has_all-All [] codes = ((λ h. tt), (λ h. refl))
has_all-All (code ∷ required) codes =
    let (to, from) = has_all-All required codes in
    (
      (λ h. (ground (arith, h), to (ground (arith, h)))),
      (λ h. let first = h.0 in let rest = from h.1 in ground (arith, first, rest)),
    )

permit-none :
    (required : List String) (workspace : String) (request : Option WorkspaceAccess)
    → Passes (permit required workspace none request)
    → ⊥
unfolding permit
permit-none required workspace request h = h

permit-some :
    (required : List String) (workspace : String) (access : Access)
    (request : Option WorkspaceAccess)
    → Passes (permit required workspace (some access) request)
      ↔ (has_all required access.permission_codes ≡ true)
unfolding permit
permit-some required workspace access request =
    elim (Bool-cases (has_all required access.permission_codes)) [
      | inl passes ↦ rw passes ((λ h. refl), (λ h. refl))
      | inr fails ↦ rw fails ((λ h. absurd h), (λ h. ground (arith, h)))
    ]

cons-nil : {x : String} {xs : List String} → x ∷ xs ≡ [] → ⊥
cons-nil e = ground (arith, e)

refused :
    (id other : String) (is_uuid : String → Bool)
    → id ≡ other
    → (other == "") ≡ false
    → is_uuid other ≡ true
    → ((id == "") || not (is_uuid id)) ≡ true
    → ⊥
refused id other is_uuid e f g h =
    let k = subst (λ x. ((x == "") || not (is_uuid x)) ≡ true) e h in ground (arith, f, g, k)

-- The request names a workspace by a UUID, where the user holds every permission that is required.
abbrev pub Entitled : Database → (String → Bool) → List String → String → Option String → Type 0
Entitled db is_uuid required user workspace =
    (id : String) × (workspace ≡ some id)
    × ((id == "") ≡ false)
    × (is_uuid id ≡ true)
    × All (Holds db user id) required

module _ (db : Database) (unique_roles : UniqueRoles db) (unique_members : UniqueMembers db) where
  role_unique :
      (role : Role) (id : String)
      → Memᴰ role db.roles
      → id ≡ role.id
      → role_named db.roles id ≡ some role
  role_unique role id m e =
      find-Unique (λ (r : Role). r.id == id) (λ (a b : Role). a.id == b.id) role db.roles
        (λ y z h k. (eq_iff y.id z.id).1 ((eq_iff y.id id).0 h ∙ sym ((eq_iff z.id id).0 k)))
        unique_roles m ((eq_iff role.id id).1 (sym e))

  member_unique :
      (member : WorkspaceMember) (user workspace : String)
      → Memᴰ member db.members
      → member.workspace_id ≡ workspace
      → member.user_id ≡ user
      → find (same_membership workspace user) db.members ≡ some member
  unfolding same_membership collides
  member_unique member user workspace m e f =
      find-Unique (same_membership workspace user) collides member db.members
        (λ y z h k. ground (
          arith,
          h,
          k,
          eq_iff y.workspace_id workspace,
          eq_iff z.workspace_id workspace,
          eq_iff y.user_id user,
          eq_iff z.user_id user,
          eq_iff z.workspace_id y.workspace_id,
          eq_iff z.user_id y.user_id,
        ))
        unique_members m
        (ground (arith, e, f, eq_iff member.workspace_id workspace, eq_iff member.user_id user))

  -- What the access of a member holds.
  codes-Holds :
      (user workspace code : String) (member : WorkspaceMember)
      → find (same_membership workspace user) db.members ≡ some member
      → (has code (add_roles (roles_of db.roles member.id db.member_roles) []) ≡ true)
        ↔ Holds db user workspace code
  unfolding same_membership has
  codes-Holds user workspace code member found = (to, from)
    where
      q : Role → Bool
      q role = has code role.permissions

      joined :
          has code (add_roles (roles_of db.roles member.id db.member_roles) [])
          ≡ any q (roles_of db.roles member.id db.member_roles)
      joined = has-add_roles code (roles_of db.roles member.id db.member_roles) []

      to :
          has code (add_roles (roles_of db.roles member.id db.member_roles) []) ≡ true
          → Holds db user workspace code
      to h =
          let (row, role, m, e, f, k) =
            roles_of-Bound db.roles member.id q db.member_roles (sym joined ∙ h) in
          let (n, same) = find-Memᴰ (same_membership workspace user) member db.members found in
          let (o, named) = find-Memᴰ (λ (r : Role). r.id == row.role_id) role db.roles f in
          (
            member,
            row,
            role,
            n,
            ground (arith, same, eq_iff member.workspace_id workspace),
            ground (arith, same, eq_iff member.user_id user),
            m,
            e,
            o,
            sym ((eq_iff role.id row.role_id).0 named),
            (has-Memᴰ code role.permissions).0 k,
          )

      from :
          Holds db user workspace code
          → has code (add_roles (roles_of db.roles member.id db.member_roles) []) ≡ true
      from (other, row, role, n, w, u, m, e, o, f, p) =
          let same : member ≡ other =
            some-injective member other (sym found ∙ member_unique other user workspace n w u) in
          joined
          ∙ Bound-roles_of db.roles member.id q db.member_roles (
            row,
            role,
            m,
            e ∙ ap (λ x. x.id) (sym same),
            role_unique role row.role_id o f,
            (has-Memᴰ code role.permissions).1 p,
          )

  permit-Holds :
      (first : String) (required : List String) (user workspace : String)
      (request : Option WorkspaceAccess)
      → Passes
          (permit (first ∷ required) workspace (get_workspace_access db user workspace) request)
        ↔ All (Holds db user workspace) (first ∷ required)
  unfolding get_workspace_access access_of
  permit-Holds first required user workspace request =
      elim (Option-cases (find (same_membership workspace user) db.members)) [
        | inl gone ↦
            let access = ap (access_of db) gone in
            (
              λ h. absurd (
                  permit-none _ workspace request
                    (subst (λ x. Passes (permit (first ∷ required) workspace x request)) access h)),
              λ h.
                  let (other, row, role, n, w, u, a, b, c, d, e) = h.0 in
                  absurd (none-ne-some other (sym gone ∙ member_unique other user workspace n w u)),
            )
        | inr (member, found) ↦
            let access = ap (access_of db) found in
            let codes = add_roles (roles_of db.roles member.id db.member_roles) [] in
            let (to, from) = has_all-All (first ∷ required) codes in
            (
              λ h.
                  All-map _ _ (first ∷ required)
                    (λ code k. (codes-Holds user workspace code member found).0 k)
                    (to (
                      (permit-some _ workspace _ request).0 (
                        subst (λ x. Passes (permit (first ∷ required) workspace x request)) access
                          h))),
              λ h.
                  subst (λ x. Passes (permit (first ∷ required) workspace x request)) (sym access)
                    ((permit-some _ workspace _ request).1 (
                      from (
                        All-map _ _ (first ∷ required)
                          (λ code k. (codes-Holds user workspace code member found).1 k) h))),
            )
      ]

  -- The guard lets a request through exactly if the route requires no permission, or the request
  -- names a workspace by a UUID in which the user is a member and has, for every permission that is
  -- required, a role with it. Roles and members are unique in the database.
  pub workspace_guard-Holds :
      (is_uuid : String → Bool) (required : List String) (user : String) (workspace : Option String)
      (request : Option WorkspaceAccess)
      → Passes (workspace_guard is_uuid db required user workspace request)
        ↔ ((required ≡ []) ⊎ Entitled db is_uuid required user workspace)
  unfolding workspace_guard is_empty
  workspace_guard-Holds is_uuid [] user workspace request = ((λ h. inl refl), (λ h. refl))
  workspace_guard-Holds is_uuid (first ∷ required) user none request = (
    λ h. absurd h,
    λ h. elim h [ inl e ↦ absurd (cons-nil e) | inr (id, e, f, g, k) ↦ absurd (none-ne-some id e) ],
  )
  workspace_guard-Holds is_uuid (first ∷ required) user (some id) request =
      let (to, from) = permit-Holds first required user id request in
      elim (Bool-cases ((id == "") || not (is_uuid id))) [
        | inl bad ↦ rw bad (
          λ h. absurd h,
          λ h. elim h [
            | inl e ↦ absurd (cons-nil e)
            | inr (other, e, f, g, k) ↦
                absurd (refused id other is_uuid (some-injective id other e) f g bad)
          ],
        )
        | inr good ↦ rw good (
          λ h. inr (id, refl, ground (arith, good), ground (arith, good), to h),
          λ h. elim h [
            | inl e ↦ absurd (cons-nil e)
            | inr (other, e, f, g, k) ↦ from (
                subst (λ x. All (Holds db user x) (first ∷ required))
                  (sym (some-injective id other e)) k)
          ],
        )
      ]
