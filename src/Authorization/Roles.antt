-- ===== src/Authorization/Roles.antt =====
-- What the loops of getWorkspaceAccess collect: the permissions of the roles that are bound to a member.
use nest_shortlink_platform.Common.{
  ◌≡◌, ◌↔◌, inl, inr, refl, sym, ap, ◌∙◌, String, List, [], ◌∷◌, ◌++◌, any, Option, none, some,
  Bool, true, false, ◌&&◌, ◌||◌, ◌==◌, string_eq, if◌then◌else◌, if_elim, find, eq_iff, arith,
  Bool-cases,
}
use mathlib.Core.List.{Memᴰ}
use mathlib.Core.List.Memᴰ.{head, tail}
use mathlib.Core.Path.{subst}
use nest_shortlink_platform.Workspaces.{Role, WorkspaceMemberRole}
use nest_shortlink_platform.Workspaces.Service.{join, roles_of}
use nest_shortlink_platform.Authorization.{has, insert_code, add_codes, add_roles}

-- What a set holds after an insertion.
has-append :
    (code c : String) (set : List String)
    → has code (set ++ (c ∷ [])) ≡ (has code set || (c == code))
unfolding has
has-append code c [] = ground arith
has-append code c (x ∷ set) = let rest = has-append code c set in ground (arith, rest)

has-insert_code :
    (code c : String) (set : List String)
    → has code (insert_code c set) ≡ (has code set || (c == code))
unfolding insert_code
has-insert_code code c set =
    if_elim {A = List String} (λ s. has code s ≡ (has code set || (c == code))) (has c set) _ _
      (λ h.
        held (has code set) (c == code)
          (λ e. subst (λ x. has x set ≡ true) ((eq_iff c code).0 e) h))
      (λ h. has-append code c set)
  where
    held : (a b : Bool) → (b ≡ true → a ≡ true) → a ≡ (a || b)
    held a b h = ground (arith, h)

has-add_codes :
    (code : String) (codes set : List String)
    → has code (add_codes codes set) ≡ (has code set || has code codes)
unfolding add_codes has
has-add_codes code [] set = ground arith
has-add_codes code (c ∷ codes) set =
    let rest = has-add_codes code codes (insert_code c set) in
    let one = has-insert_code code c set in ground (arith, rest, one)

pub has-add_roles :
    (code : String) (roles : List Role) (set : List String)
    → has code (add_roles roles set)
      ≡ (has code set || any (λ role. has code role.permissions) roles)
unfolding add_roles
has-add_roles code [] set = ground arith
has-add_roles code (role ∷ roles) set =
    let rest = has-add_roles code roles (add_codes role.permissions set) in
    let one = has-add_codes code role.permissions set in ground (arith, rest, one)

pub has-Memᴰ : (code : String) (codes : List String) → (has code codes ≡ true) ↔ Memᴰ code codes
unfolding has
has-Memᴰ code codes = (to codes, from codes)
  where
    to : (codes : List String) → any (λ c. c == code) codes ≡ true → Memᴰ code codes
    to [] h = ground (arith, h)
    to (c ∷ codes) h = elim (Bool-cases (c == code)) [
      | inl same ↦ head (sym ((eq_iff c code).0 same))
      | inr other ↦ tail (to codes (ground (arith, h, other)))
    ]

    from : (codes : List String) → Memᴰ code codes → any (λ c. c == code) codes ≡ true
    from [] m = elim m [ ]
    from (c ∷ codes) (head e) = let same = (eq_iff c code).1 (sym e) in ground (arith, same)
    from (c ∷ codes) (tail m) = let rest = from codes m in ground (arith, rest)

-- A role of a member, by the row that binds it.
abbrev pub Bound : List Role → String → (Role → Bool) → List WorkspaceMemberRole → Type 0
Bound roles member q rows =
    (row : WorkspaceMemberRole) × (role : Role) × Memᴰ row rows
    × (row.member_id ≡ member)
    × (find (λ (r : Role). r.id == row.role_id) roles ≡ some role)
    × (q role ≡ true)

abbrev some_passes : (Role → Bool) → Option Role → Bool
some_passes q none = false
some_passes q (some role) = q role

any-join :
    (q : Role → Bool) (b : Bool) (found : Option Role) (rest : List Role)
    → any q (if b then join found rest else rest) ≡ ((b && some_passes q found) || any q rest)
any-join q true none rest = refl
any-join q true (some role) rest = refl
any-join q false found rest = refl

some_passes-role :
    (q : Role → Bool) (found : Option Role)
    → some_passes q found ≡ true
    → (role : Role) × (found ≡ some role) × (q role ≡ true)
some_passes-role q none h = ground (arith, h)
some_passes-role q (some role) h = (role, refl, h)

abbrev pub role_named : List Role → String → Option Role
role_named roles id = find (λ (r : Role). r.id == id) roles

pub roles_of-Bound :
    (roles : List Role) (member : String) (q : Role → Bool) (rows : List WorkspaceMemberRole)
    → any q (roles_of roles member rows) ≡ true
    → Bound roles member q rows
unfolding roles_of
roles_of-Bound roles member q [] h = ground (arith, h)
roles_of-Bound roles member q (row ∷ rows) h =
    let found = role_named roles row.role_id in
    let split = any-join q (row.member_id == member) found (roles_of roles member rows) in
    elim (Bool-cases ((row.member_id == member) && some_passes q found)) [
      | inl passes ↦
          let (role, e, k) = some_passes-role q found (ground (arith, passes)) in
          (row, role, head refl, (eq_iff row.member_id member).0 (ground (arith, passes)), e, k)
      | inr fails ↦
          let (r, role, m, e, f, k) =
            roles_of-Bound roles member q rows (ground (arith, h, split, fails)) in
          (r, role, tail m, e, f, k)
    ]

pub Bound-roles_of :
    (roles : List Role) (member : String) (q : Role → Bool) (rows : List WorkspaceMemberRole)
    → Bound roles member q rows
    → any q (roles_of roles member rows) ≡ true
unfolding roles_of
Bound-roles_of roles member q [] (row, role, m, e, f, k) = elim m [ ]
Bound-roles_of roles member q (row ∷ rows) (r, role, head s, e, f, k) =
    let found = role_named roles row.role_id in
    let split = any-join q (row.member_id == member) found (roles_of roles member rows) in
    let same = (eq_iff row.member_id member).1 (ap (λ x. x.member_id) (sym s) ∙ e) in
    let passes : some_passes q found ≡ true =
      ap (λ x. some_passes q (role_named roles x.role_id)) (sym s) ∙ ap (some_passes q) f ∙ k in
    ground (arith, split, same, passes)
Bound-roles_of roles member q (row ∷ rows) (r, role, tail m, e, f, k) =
    let found = role_named roles row.role_id in
    let split = any-join q (row.member_id == member) found (roles_of roles member rows) in
    let rest = Bound-roles_of roles member q rows (r, role, m, e, f, k) in
    ground (arith, split, rest)
