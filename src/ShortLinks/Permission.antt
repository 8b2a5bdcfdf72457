-- ===== src/ShortLinks/Permission.antt =====
-- Who may change a link, and what a change of its access does to it.
use mathlib.Core.Option
use mathlib.Core.Path.{subst}
use nest_shortlink_platform.Common.{
  arith, Bool, ◌||◌, ◌==◌, string_eq, eq_iff, ◌≢◌, All, List, [], ◌∷◌, ◌+◌, ℕ, ◌≡◌, refl, sym, ap,
  ◌∙◌, String, Option, none, some, true, false, Bool-cases, inl, inr, ◌⊎◌,
}
use nest_shortlink_platform.Common.Effects.{Outcome, ok, threw, state_of, ◌>>=◌}
use nest_shortlink_platform.Http.{HttpError, bad_request, not_found, forbidden, truthy}
use nest_shortlink_platform.Links.{ShortLink}
use nest_shortlink_platform.Redirects.{is_password}
use nest_shortlink_platform.ShortLinks.{
  includes, Workspace, UpdateShortLinkDto, SetShortLinkAccessDto, can_manage, find_first, managed,
  managed_link, assert_can_manage_short_link, update, remove, set_access, is_link, update_rows,
  shared, new_password, hashed, or_kept,
}

-- The request may not manage the link: there is none in the workspace, or the user neither created
-- it nor has one of the roles OWNER and ADMIN.
abbrev pub Refused : Option ShortLink → String → List String → HttpError → Type 0
Refused none user roles error = error ≡ not_found "Short link not found"
Refused (some row) user roles error =
    (can_manage user roles row.created_by_id ≡ false)
    × (error ≡ forbidden "You can only manage links you created")

managed-threw :
    (found : Option ShortLink) (user : String) (roles : List String) (error : HttpError)
    (w : Workspace)
    → Refused found user roles error
    → managed user roles found w ≡ threw error w
unfolding managed assert_can_manage_short_link
managed-threw none user roles error w e = ap (λ x. threw x w) (sym e)
managed-threw (some row) user roles error w (no_right, e) = rw (no_right, e) refl

managed_link-threw :
    (ws id user : String) (roles : List String) (w : Workspace) (error : HttpError)
    → Refused (find_first ws id w.links) user roles error
    → managed_link ws id user roles w ≡ threw error w
unfolding managed_link
managed_link-threw ws id user roles w error h =
    managed-threw (find_first ws id w.links) user roles error w h

all_Refused :
    (argon2_hash : String → String) (now : ℕ) (ws id user : String) (roles : List String)
    (update_dto : UpdateShortLinkDto) (access_dto : SetShortLinkAccessDto) (w : Workspace)
    (error : HttpError)
    → Refused (find_first ws id w.links) user roles error
    → (update now ws user id roles update_dto w ≡ threw error w)
      × (remove ws id user roles w ≡ threw error w)
      × (set_access argon2_hash ws id user roles access_dto w ≡ threw error w)
unfolding update remove set_access
all_Refused argon2_hash now ws id user roles update_dto access_dto w error h =
    let stopped : managed_link ws id user roles w ≡ threw error w =
      managed_link-threw ws id user roles w error h in
    (rw (stopped, ◌>>=◌) refl, rw (stopped, ◌>>=◌) refl, rw (stopped, ◌>>=◌) refl)

-- The workspace has no such link, or the user neither created it nor has one of the two roles.
abbrev pub Unmanaged : Option ShortLink → String → List String → HttpError → Type 0
Unmanaged none user roles error = error ≡ not_found "Short link not found"
Unmanaged (some row) user roles error =
    (row.created_by_id ≢ user)
    × All (λ r. (r ≢ "OWNER") × (r ≢ "ADMIN")) roles
    × (error ≡ forbidden "You can only manage links you created")

no_role :
    (roles : List String)
    → All (λ r. (r ≢ "OWNER") × (r ≢ "ADMIN")) roles
    → (includes "OWNER" roles ≡ false) × (includes "ADMIN" roles ≡ false)
unfolding includes
no_role [] h = (refl, refl)
no_role (r ∷ roles) ((owner, admin), hs) =
    let (no_owner, no_admin) = no_role roles hs in
    (
      neither (r == "OWNER") (includes "OWNER" roles) (differs r "OWNER" owner) no_owner,
      neither (r == "ADMIN") (includes "ADMIN" roles) (differs r "ADMIN" admin) no_admin,
    )
  where
    neither : (a b : Bool) → a ≡ false → b ≡ false → (a || b) ≡ false
    neither a b k l = ground arith

    differs : (x y : String) → x ≢ y → (x == y) ≡ false
    differs x y k = ground (arith, eq_iff x y)

can_manage-no_role :
    (user : String) (roles : List String) (creator : String)
    → creator ≢ user
    → All (λ r. (r ≢ "OWNER") × (r ≢ "ADMIN")) roles
    → can_manage user roles creator ≡ false
unfolding can_manage
can_manage-no_role user roles creator other h =
    let (no_owner, no_admin) = no_role roles h in
    none_of (includes "OWNER" roles) (includes "ADMIN" roles) (creator == user) no_owner no_admin
      (differs creator user other)
  where
    none_of : (a b c : Bool) → a ≡ false → b ≡ false → c ≡ false → ((a || b) || c) ≡ false
    none_of a b c k l m = ground arith

    differs : (x y : String) → x ≢ y → (x == y) ≡ false
    differs x y k = ground (arith, eq_iff x y)

Unmanaged-Refused :
    (found : Option ShortLink) (user : String) (roles : List String) (error : HttpError)
    → Unmanaged found user roles error
    → Refused found user roles error
Unmanaged-Refused none user roles error h = h
Unmanaged-Refused (some row) user roles error (other, h, e) =
    (can_manage-no_role user roles row.created_by_id other h, e)

-- A user who neither created a link of the workspace nor has one of the roles OWNER and ADMIN is
-- refused by `update`, `remove` and `set_access` alike, with the same exception and with
-- everything left as it was; so is any user if the workspace has no such link.
pub managers_only :
    (argon2_hash : String → String) (now : ℕ) (ws id user : String) (roles : List String)
    (update_dto : UpdateShortLinkDto) (access_dto : SetShortLinkAccessDto) (w : Workspace)
    (error : HttpError)
    → Unmanaged (find_first ws id w.links) user roles error
    → (update now ws user id roles update_dto w ≡ threw error w)
      × (remove ws id user roles w ≡ threw error w)
      × (set_access argon2_hash ws id user roles access_dto w ≡ threw error w)
managers_only argon2_hash now ws id user roles update_dto access_dto w error h =
    all_Refused argon2_hash now ws id user roles update_dto access_dto w error
      (Unmanaged-Refused (find_first ws id w.links) user roles error h)

is_link-shared :
    (ws id : String) (dto : SetShortLinkAccessDto) (hash : Option (Option String)) (row : ShortLink)
    → is_link ws id (shared dto hash row) ≡ is_link ws id row
unfolding is_link
is_link-shared ws id dto hash row = refl

find_first-update_rows :
    (ws id : String) (dto : SetShortLinkAccessDto) (hash : Option (Option String))
    (rows : List ShortLink) (row : ShortLink)
    → find_first ws id rows ≡ some row
    → find_first ws id (update_rows (is_link ws id) (shared dto hash) rows)
      ≡ some (shared dto hash row)
unfolding find_first update_rows
find_first-update_rows ws id dto hash [] row h = cc
find_first-update_rows ws id dto hash (r ∷ rows) row h = elim (Bool-cases (is_link ws id r)) [
  | inl here ↦
      let found : some r ≡ some row = rw here at h in
      rw (here, is_link-shared ws id dto hash r, here) (ap (Option.map (shared dto hash)) found)
  | inr there ↦ rw (there, there) (find_first-update_rows ws id dto hash rows row (rw there at h))
]

-- A link behind a password has one, if the hash of a text is never empty.
abbrev pub Guarded : SetShortLinkAccessDto → Option (Option String) → Option String → Type 0
Guarded dto hash stored = is_password dto.visibility ≡ true → truthy (or_kept hash stored) ≡ true

HashCases :
    (argon2_hash : String → String) (dto : SetShortLinkAccessDto) (stored : Option String)
    (w : Workspace)
    → Type 0
HashCases argon2_hash dto stored w =
    (new_password argon2_hash dto stored w
      ≡ threw (bad_request "Password is required for PASSWORD visibility") w)
    ⊎ ((hash : Option (Option String)) × (new_password argon2_hash dto stored w ≡ ok hash w)
        × Guarded dto hash stored)

hash_truthy :
    (argon2_hash : String → String)
    → ((text : String) → (argon2_hash text == "") ≡ false)
    → (given : Option String) → truthy given ≡ true
    → truthy (hashed argon2_hash given) ≡ true
unfolding truthy hashed
hash_truthy argon2_hash filled none h = h
hash_truthy argon2_hash filled (some text) h = rw (filled text) refl

new_password-cases :
    (argon2_hash : String → String) (dto : SetShortLinkAccessDto) (stored : Option String)
    (w : Workspace)
    → ((text : String) → (argon2_hash text == "") ≡ false)
    → HashCases argon2_hash dto stored w
unfolding new_password HashCases
new_password-cases argon2_hash dto stored w filled =
    elim (Bool-cases (is_password dto.visibility)) [
      | inr open_link ↦ inr (some none, rw open_link refl, λ e. absurd (never (rw open_link at e)))
      | inl guarded ↦ elim (Bool-cases (truthy dto.password)) [
        | inl given ↦ inr (
          some (hashed argon2_hash dto.password),
          rw (guarded, given) refl,
          λ e. hash_truthy argon2_hash filled dto.password given,
        )
        | inr missing ↦ elim (Bool-cases (truthy stored)) [
          | inl kept ↦ inr (none, rw (guarded, missing, kept) refl, λ e. kept)
          | inr absent ↦ inl (rw (guarded, missing, absent) refl)
        ]
      ]
    ]
  where
    never : false ≡ true → ⊥
    never e = cc

managed_link-ok :
    (ws id user : String) (roles : List String) (w : Workspace) (row : ShortLink)
    → find_first ws id w.links ≡ some row
    → can_manage user roles row.created_by_id ≡ true
    → managed_link ws id user roles w ≡ ok row w
unfolding managed_link managed assert_can_manage_short_link
managed_link-ok ws id user roles w row found allowed =
    ap (λ f. managed user roles f w) found ∙ granted
  where
    granted : managed user roles (some row) w ≡ ok row w
    granted = rw allowed refl

abbrev changed :
    String
    → String
    → SetShortLinkAccessDto
    → Option (Option String)
    → String
    → Workspace
    → Workspace
changed ws id dto hash code w = record w {
  links = update_rows (is_link ws id) (shared dto hash) w.links;
  invalidated = code ∷ code ∷ w.invalidated;
}

set_access-ok :
    (argon2_hash : String → String) (ws id user : String) (roles : List String)
    (dto : SetShortLinkAccessDto) (w : Workspace) (row : ShortLink) (hash : Option (Option String))
    → managed_link ws id user roles w ≡ ok row w
    → new_password argon2_hash dto row.password_hash w ≡ ok hash w
    → set_access argon2_hash ws id user roles dto w
      ≡ ok
          (find_first ws id (changed ws id dto hash row.code w).links)
          (changed ws id dto hash row.code w)
unfolding set_access
set_access-ok argon2_hash ws id user roles dto w row hash m n = rw (m, ◌>>=◌, n) refl

set_access-no_password :
    (argon2_hash : String → String) (ws id user : String) (roles : List String)
    (dto : SetShortLinkAccessDto) (w : Workspace) (row : ShortLink) (error : HttpError)
    → managed_link ws id user roles w ≡ ok row w
    → new_password argon2_hash dto row.password_hash w ≡ threw error w
    → set_access argon2_hash ws id user roles dto w ≡ threw error w
unfolding set_access
set_access-no_password argon2_hash ws id user roles dto w row error m n = rw (m, ◌>>=◌, n) refl

threw_is_not_ok :
    (r : Outcome HttpError Workspace (Option ShortLink)) (e : HttpError) (w t : Workspace)
    (answer : Option ShortLink)
    → r ≡ threw e w
    → r ≡ ok answer t
    → ⊥
threw_is_not_ok r e w t answer h k = cc

ok-state :
    (r : Outcome HttpError Workspace (Option ShortLink)) (w t : Workspace)
    (found answer : Option ShortLink)
    → r ≡ ok found w
    → r ≡ ok answer t
    → w ≡ t
ok-state r w t found answer h k = ap state_of (sym h ∙ k)

ok-answer :
    (r : Outcome HttpError Workspace (Option ShortLink)) (w t : Workspace)
    (found answer : Option ShortLink)
    → r ≡ ok found w
    → r ≡ ok answer t
    → found ≡ answer
ok-answer r w t found answer h k = cc

-- If hashes of passwords are not empty, then whenever a change of access to a link that the
-- workspace has succeeds: the user may manage the link, and the link has the new visibility and
-- the next access version afterwards, and a password if that visibility asks for one; it
-- is that link which is returned.
pub set_access_lem :
    (argon2_hash : String → String) (ws id user : String) (roles : List String)
    (dto : SetShortLinkAccessDto) (w t : Workspace) (row : ShortLink) (answer : Option ShortLink)
    → ((text : String) → (argon2_hash text == "") ≡ false)
    → find_first ws id w.links ≡ some row
    → set_access argon2_hash ws id user roles dto w ≡ ok answer t
    → (later : ShortLink) × (find_first ws id t.links ≡ some later)
      × (later.access_version ≡ row.access_version + 1)
      × (later.visibility ≡ dto.visibility)
      × (is_password dto.visibility ≡ true → truthy later.password_hash ≡ true)
      × (can_manage user roles row.created_by_id ≡ true)
      × (answer ≡ some later)
unfolding HashCases
set_access_lem argon2_hash ws id user roles dto w t row answer filled found done =
    elim (Bool-cases (can_manage user roles row.created_by_id)) [
      | inr forbidden_user ↦ absurd (
          threw_is_not_ok _ _ w t answer
            (all_Refused argon2_hash 0 ws id user roles nothing dto w
              (forbidden "You can only manage links you created")
              (subst (λ f. Refused f user roles (forbidden "You can only manage links you created"))
                (sym found) (forbidden_user, refl))).2
            done)
      | inl allowed ↦
          let m : managed_link ws id user roles w ≡ ok row w =
            managed_link-ok ws id user roles w row found allowed in
          elim (new_password-cases argon2_hash dto row.password_hash w filled) [
            | inl refused ↦ absurd (
                threw_is_not_ok _ _ w t answer
                  (set_access-no_password argon2_hash ws id user roles dto w row _ m refused) done)
            | inr (hash, given, guarded) ↦
                let succeeds = set_access-ok argon2_hash ws id user roles dto w row hash m given in
                let after : changed ws id dto hash row.code w ≡ t =
                  ok-state _ _ t _ answer succeeds done in
                let held = find_first-update_rows ws id dto hash w.links row found in
                (
                  shared dto hash row,
                  subst (λ (s : Workspace). find_first ws id s.links ≡ some (shared dto hash row))
                      after held,
                  refl,
                  refl,
                  guarded,
                  allowed,
                  sym (ok-answer _ _ t _ answer succeeds done) ∙ held,
                )
          ]
    ]
  where
    nothing : UpdateShortLinkDto
    nothing = record {
      original_url = none;
      title = none;
      visibility = none;
      max_visits = none;
      status = none;
      expires_at = none;
    }
