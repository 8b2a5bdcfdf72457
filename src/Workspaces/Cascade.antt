-- ===== src/Workspaces/Cascade.antt =====
-- What the deletion of members keeps.
use nest_shortlink_platform.Common.{
  ◌≡◌, ◌≢◌, refl, sym, ◌∙◌, inl, inr, String, List, [], ◌∷◌, any, any-Memᴰ, any-filter, filter,
  filter-Memᴰ, find-filter, All-filter_map, find, some, Bool, true, not, ◌==◌, string_eq, eq_iff,
  arith, Bool-cases,
}
use nest_shortlink_platform.Workspaces.{
  Role, WorkspaceMember, WorkspaceMemberRole, Database, same_membership, collides, same_grant,
  is_member, delete_members,
}
use nest_shortlink_platform.Workspaces.Service.{roles_of}
use nest_shortlink_platform.Workspaces.Invariant.{
  Refers, IsValid, Kept, filter-Unique, access-same, member_apart, place_of, elsewhere,
}

module _ (before : Database) (workspace : String) where
  module _ (gone : WorkspaceMember → Bool)
      (here : (row : WorkspaceMember) → gone row ≡ true → row.workspace_id ≡ workspace) where
    -- The rows of a member elsewhere are not deleted.
    kept_elsewhere :
        (db : Database) (user other : String) (member : WorkspaceMember)
        (grant : WorkspaceMemberRole)
        → IsValid db
        → other ≢ workspace
        → find (same_membership other user) db.members ≡ some member
        → (grant.member_id == member.id) ≡ true
        → not (any (is_member grant.member_id) (filter gone db.members)) ≡ true
    kept_elsewhere db user other member grant valid apart found h =
        elim (Bool-cases (any (is_member grant.member_id) (filter gone db.members))) [
          | inl lost ↦
              let (row, m, same) =
                any-Memᴰ (is_member grant.member_id) (filter gone db.members) lost in
              let (n, k) = filter-Memᴰ gone row db.members m in
              let different =
                member_apart before workspace db grant.member_id user other member valid
                  (row, n, (eq_iff row.id grant.member_id).0 same, here row k) apart found in
              absurd (ground (arith, different, h))
          | inr kept ↦ ground (arith, kept)
        ]

    roles_of-filter :
        (roles : List Role) (member : String) (keep : WorkspaceMemberRole → Bool)
        (rows : List WorkspaceMemberRole)
        → ((row : WorkspaceMemberRole) → (row.member_id == member) ≡ true → keep row ≡ true)
        → roles_of roles member (filter keep rows) ≡ roles_of roles member rows
    unfolding roles_of
    roles_of-filter roles member keep [] h = refl
    roles_of-filter roles member keep (row ∷ rows) h =
        let rest = roles_of-filter roles member keep rows h in
        elim (Bool-cases (row.member_id == member)) [
          | inl same ↦ rw (h row same, same, rest) refl
          | inr other ↦ elim (Bool-cases (keep row)) [
            | inl kept ↦ rw (kept, other, rest) refl
            | inr lost ↦ rw (lost, other, rest) refl
          ]
        ]

    pub delete_members-Kept :
        (db : Database) → Kept before workspace db → Kept before workspace (delete_members gone db)
    unfolding delete_members
    delete_members-Kept db ((w, m, g, r), e, k) =
        let keep : WorkspaceMemberRole → Bool =
          λ grant. not (any (is_member grant.member_id) (filter gone db.members)) in
        (
          (
            w,
            filter-Unique collides (λ row. not (gone row)) db.members m,
            filter-Unique same_grant keep db.member_roles g,
            All-filter_map (Refers db.members) (Refers (filter (λ row. not (gone row)) db.members))
                keep db.member_roles
                (λ grant kept h.
                  let split = any-filter (is_member grant.member_id) gone db.members in
                  ground (arith, split, kept, h))
                r,
          ),
          e,
          λ user other apart.
              access-same db (delete_members gone db) user other refl
                (find-filter (same_membership other user) (λ row. not (gone row)) db.members
                  (λ row h.
                    elsewhere (gone row)
                      (λ k. apart (sym (place_of row user other h) ∙ here row k))))
                (λ member found.
                  roles_of-filter db.roles member.id keep db.member_roles (λ grant h.
                    kept_elsewhere db user other member grant (w, m, g, r) apart found h))
              ∙ k user other apart,
        )
