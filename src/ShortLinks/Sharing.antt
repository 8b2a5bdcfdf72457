-- ===== src/ShortLinks/Sharing.antt =====
-- src/short-links/short-link-sharing.service.ts: the users a link is granted to (grantUser, revokeUser,
-- listSharedUsers), on the table ShortLinkShareUser.
use nest_shortlink_platform.Common.{
  ◌≡◌, refl, ap, ◌∙◌, inl, inr, String, List, [], ◌∷◌, any, filter, find, Option, none, some, Bool,
  true, not, ◌&&◌, ◌||◌, ◌==◌, string_eq, eq_iff, if◌then◌else◌, if_elim, Bool-cases, arith,
}
use nest_shortlink_platform.Common.Effects.{Outcome, ok, threw, Eff, pure, throw, ◌>>=◌, ◌>>◌}
use nest_shortlink_platform.Http.{HttpError, not_found, forbidden}
use nest_shortlink_platform.Links.{ShortLink}
use nest_shortlink_platform.Workspaces.{User}
use nest_shortlink_platform.ShortLinks.{find_first, can_manage}

pub record ShareUser : Type 0 where
  pub short_link_id : String
  pub user_id : String

-- The tables that the service reads and writes.
pub record Shares : Type 0 where
  pub links : List ShortLink
  pub users : List User
  pub share_users : List ShareUser

abbrev pub Sharing : Type 0 → Type 0
Sharing A = Eff HttpError Shares A

-- `shortLinkId_userId`.
unfoldable pub is_grant : String → String → ShareUser → Bool
is_grant link user row = (row.short_link_id == link) && (row.user_id == user)

-- The link, if the user may manage it.
unfoldable pub manage : String → List String → Option ShortLink → Sharing ShortLink
manage user roles none = throw (not_found "Short link not found")
manage user roles (some link) =
    if can_manage user roles link.created_by_id
    then pure link
    else throw (forbidden "You can only manage links you created")

unfoldable pub upsert_rows : String → String → List ShareUser → List ShareUser
unfolding is_grant
upsert_rows link user rows =
    if any (is_grant link user) rows
    then rows
    else record { short_link_id = link; user_id = user } ∷ rows

-- `upsert` with an empty update.
unfoldable pub upsert_share : String → String → Sharing (Unit {0})
unfolding upsert_rows
upsert_share link user s = ok tt (record s { share_users = upsert_rows link user s.share_users })

unfoldable pub delete_shares : String → String → Sharing (Unit {0})
unfolding is_grant
delete_shares link user s =
    ok tt (record s { share_users = filter (λ row. not (is_grant link user row)) s.share_users })

unfoldable pub target_user : Option User → Sharing User
target_user none = throw (not_found "User not found")
target_user (some user) = pure user

-- `grantUser`.
unfoldable pub grant_user : String → String → String → List String → String → Sharing User
unfolding manage target_user upsert_share
grant_user workspace id current roles email = do
  link ← λ s. manage current roles (find_first workspace id s.links) s
  target ← λ s. target_user (find (λ (user : User). user.email == email) s.users) s
  upsert_share link.id target.id
  pure target

-- `revokeUser`.
unfoldable pub revoke_user : String → String → String → String → List String → Sharing (Unit {0})
unfolding manage delete_shares
revoke_user workspace id target current roles = do
  link ← λ s. manage current roles (find_first workspace id s.links) s
  delete_shares link.id target

-- The users of the rows of a link, joined with the table User.
unfoldable pub joined_users : String → List User → List ShareUser → List User
joined_users link users [] = []
joined_users link users (row ∷ rows) =
    let rest = joined_users link users rows in
    if row.short_link_id == link
    then elim (find (λ (user : User). user.id == row.user_id) users) [
      | none ↦ rest
      | some user ↦ user ∷ rest
    ]
    else rest

-- `listSharedUsers`.
unfoldable pub list_shared_users : String → String → String → List String → Sharing (List User)
unfolding manage joined_users
list_shared_users workspace id current roles = do
  link ← λ s. manage current roles (find_first workspace id s.links) s
  λ s. ok (joined_users link.id s.users s.share_users) s

-- Whether a link is granted to a user.
abbrev pub granted_to : String → String → Shares → Bool
granted_to link user s = any (is_grant link user) s.share_users

any-remove :
    (link user l u : String) (rows : List ShareUser)
    → any (is_grant l u) (filter (λ row. not (is_grant link user row)) rows)
      ≡ (any (is_grant l u) rows && not ((link == l) && (user == u)))
unfolding is_grant
any-remove link user l u [] = refl
any-remove link user l u (row ∷ rows) =
    let rest = any-remove link user l u rows in
    ground (
      arith,
      rest,
      eq_iff row.short_link_id link,
      eq_iff row.user_id user,
      eq_iff row.short_link_id l,
      eq_iff row.user_id u,
      eq_iff link l,
      eq_iff user u,
    )

any-same :
    (link user l u : String) (rows : List ShareUser)
    → ((link == l) && (user == u)) ≡ true
    → any (is_grant link user) rows ≡ any (is_grant l u) rows
any-same link user l u rows h =
    let a : link ≡ l = (eq_iff link l).0 (ground (arith, h)) in
    let b : user ≡ u = (eq_iff user u).0 (ground (arith, h)) in
    ap (λ x. any (is_grant x user) rows) a ∙ ap (λ x. any (is_grant l x) rows) b

any-upsert :
    (link user l u : String) (rows : List ShareUser)
    → any (is_grant l u) (upsert_rows link user rows)
      ≡ (any (is_grant l u) rows || ((link == l) && (user == u)))
unfolding upsert_rows
any-upsert link user l u rows =
    if_elim {A = List ShareUser}
      (λ x. any (is_grant l u) x ≡ (any (is_grant l u) rows || ((link == l) && (user == u))))
      (any (is_grant link user) rows) rows (record { short_link_id = link; user_id = user } ∷ rows)
      (λ there. held _ _ _ there (any-same link user l u rows)) (λ _. ground arith)
  where
    held : (a b c : Bool) → a ≡ true → (c ≡ true → a ≡ b) → b ≡ (b || c)
    held a b c h k = ground (arith, h, k)

manage-bind :
    {A : Type 0} (P : Outcome HttpError Shares A → Type 0) (k : ShortLink → Sharing A)
    (user : String) (roles : List String) (found : Option ShortLink) (s : Shares)
    → ((e : HttpError) → P (threw e s))
    → ((link : ShortLink)
        → found ≡ some link
        → can_manage user roles link.created_by_id ≡ true
        → P (k link s))
    → P (elim (manage user roles found s) [ ok a t ↦ k a t | threw e t ↦ threw e t ])
unfolding manage
manage-bind P k user roles none s f g = f (not_found "Short link not found")
manage-bind P k user roles (some link) s f g =
    elim (Bool-cases (can_manage user roles link.created_by_id)) [
      | inl allowed ↦ rw allowed (g link refl allowed)
      | inr refused ↦ rw refused (f (forbidden "You can only manage links you created"))
    ]

-- The request names a link of the workspace that the user may manage.
abbrev pub Manages : String → String → String → List String → Shares → ShortLink → Type 0
Manages workspace id current roles s link =
    (find_first workspace id s.links ≡ some link)
    × (can_manage current roles link.created_by_id ≡ true)

module _ (workspace id current : String) (roles : List String) (s : Shares) (l u : String) where
  abbrev pub Granted : String → Outcome HttpError Shares User → Type 0
  Granted email (ok target t) =
      (link : ShortLink) × Manages workspace id current roles s link
      × (find (λ (user : User). user.email == email) s.users ≡ some target)
      × (granted_to l u t ≡ (granted_to l u s || ((link.id == l) && (target.id == u))))
  Granted email (threw e t) = t ≡ s

  abbrev pub Revoked : String → Outcome HttpError Shares (Unit {0}) → Type 0
  Revoked target (ok done t) =
      (link : ShortLink) × Manages workspace id current roles s link
      × (granted_to l u t ≡ (granted_to l u s && not ((link.id == l) && (target == u))))
  Revoked target (threw e t) = t ≡ s

  grant_user-Granted :
      (email : String) → Granted email (grant_user workspace id current roles email s)
  unfolding grant_user target_user upsert_share
  grant_user-Granted email =
      manage-bind (Granted email) _ current roles (find_first workspace id s.links) s (λ e. refl)
        (λ link found allowed.
          go link (found, allowed) (find (λ (user : User). user.email == email) s.users) refl)
    where
      go :
          (link : ShortLink)
          → Manages workspace id current roles s link
          → (target : Option User) → find (λ (user : User). user.email == email) s.users ≡ target
          → Granted email (elim (target_user target s) [
            | ok user t ↦ (upsert_share link.id user.id >> pure user) t
            | threw e t ↦ threw e t
          ])
      go link m none e = refl
      go link m (some user) e = (link, m, e, any-upsert link.id user.id l u s.share_users)

  revoke_user-Revoked :
      (target : String) → Revoked target (revoke_user workspace id target current roles s)
  unfolding revoke_user delete_shares
  revoke_user-Revoked target =
      manage-bind (Revoked target) (λ link. delete_shares link.id target) current roles
        (find_first workspace id s.links) s (λ e. refl)
        (λ link found allowed.
          (link, (found, allowed), any-remove link.id target l u s.share_users))

  -- A grant and a revocation work only for who may manage the link: the owners and the
  -- administrators of its workspace, and who created it. A grant adds the user with the email to
  -- those the link is granted to, a revocation takes the user away, and for every other link and user
  -- all is as it was. Any other end is an exception and changes nothing.
  pub grant_user-revoke_user :
      (email target : String)
      → Granted email (grant_user workspace id current roles email s)
        × Revoked target (revoke_user workspace id target current roles s)
  grant_user-revoke_user email target = (grant_user-Granted email, revoke_user-Revoked target)
