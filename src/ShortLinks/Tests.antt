-- ===== src/ShortLinks/Tests.antt =====
-- Links of a workspace at work.
use nest_shortlink_platform.Common.{
  ◌==◌, string_eq, eq_iff, ◌≢◌, ◌≡◌, refl, String, [], ◌∷◌, none, some, true, false,
}
use nest_shortlink_platform.Common.Effects.{threw}
use nest_shortlink_platform.Common.Ensures.{Ensures}
use nest_shortlink_platform.Http.{forbidden, truthy}
use nest_shortlink_platform.Links.{ShortLink}
use nest_shortlink_platform.Cache.Redirect.{public, password}
use nest_shortlink_platform.Redirects.{is_password}
use nest_shortlink_platform.ShortLinks.{
  Workspace, CreateShortLinkDto, UpdateShortLinkDto, SetShortLinkAccessDto, code_taken, new_link,
  create, find_first, is_link, can_manage, includes, update, remove, set_access, shared,
  managed_link, managed, assert_can_manage_short_link, new_password, hashed, update_rows,
}
use nest_shortlink_platform.ShortLinks.Codes.{HasUniqueCodes, create-HasUniqueCodes}
use nest_shortlink_platform.ShortLinks.Sharing.{
  Shares, Granted, Revoked, grant_user, revoke_user, grant_user-revoke_user,
}
use nest_shortlink_platform.ShortLinks.Permission.{managers_only, set_access_lem}

abbrev create_dto : CreateShortLinkDto
create_dto = record {
  original_url = "https://example.com";
  title = none;
  visibility = public;
  expires_at = none;
  max_visits = none;
}

abbrev row : ShortLink
row = new_link "1" "w" "u" "abc" create_dto

abbrev w : Workspace
w = record { links = row ∷ []; audits = []; bloom = []; invalidated = []; stats_deleted = [] }

abbrev codes : String × String × String × String × String
codes = ("abc", "def", "ghi", "jkl", "mno")

create-HasUniqueCodes_example :
    Ensures
      (λ t. HasUniqueCodes t.links)
      (λ link. code_taken link.code (row ∷ []) ≡ false)
      (create false "2" 0 codes "w" "u" create_dto w)
unfolding code_taken
create-HasUniqueCodes_example =
    create-HasUniqueCodes false "2" 0 codes "w" "u" create_dto w (refl, tt)

abbrev update_dto : UpdateShortLinkDto
update_dto = record {
  original_url = none;
  title = some "x";
  visibility = none;
  max_visits = none;
  status = none;
  expires_at = none;
}

abbrev access_dto : SetShortLinkAccessDto
access_dto = record { visibility = password; password = some "secret" }

abbrev hash : String → String
hash text = "hash"

apart : (x y : String) → (x == y) ≡ false → x ≢ y
apart x y different e = let alike : (x == y) ≡ true = (eq_iff x y).1 e in cc

managers_only_example :
    (update 0 "w" "stranger" "1" ("MEMBER" ∷ []) update_dto w
      ≡ threw (forbidden "You can only manage links you created") w)
    × (remove "w" "1" "stranger" ("MEMBER" ∷ []) w
        ≡ threw (forbidden "You can only manage links you created") w)
    × (set_access hash "w" "1" "stranger" ("MEMBER" ∷ []) access_dto w
        ≡ threw (forbidden "You can only manage links you created") w)
unfolding find_first is_link can_manage includes
managers_only_example =
    managers_only hash 0 "w" "1" "stranger" ("MEMBER" ∷ []) update_dto access_dto w
      (forbidden "You can only manage links you created")
      (
        apart "u" "stranger" refl,
        ((apart "MEMBER" "OWNER" refl, apart "MEMBER" "ADMIN" refl), tt),
        refl,
      )

set_access_lem_example :
    (later : ShortLink) × (find_first "w" "1" (shared access_dto (some (some "hash")) row ∷ [])
      ≡ some later)
    × (later.access_version ≡ 1)
    × (later.visibility ≡ password)
    × (is_password password ≡ true → truthy later.password_hash ≡ true)
    × (can_manage "u" [] "u" ≡ true)
    × (some (shared access_dto (some (some "hash")) row) ≡ some later)
unfolding find_first is_link set_access managed_link managed assert_can_manage_short_link
    new_password hashed can_manage includes truthy is_password update_rows
set_access_lem_example =
    set_access_lem hash "w" "1" "u" [] access_dto w
      (record w {
        links = shared access_dto (some (some "hash")) row ∷ [];
        invalidated = "abc" ∷ "abc" ∷ [];
      })
      row (some (shared access_dto (some (some "hash")) row)) (λ text. refl) refl refl

abbrev shares : Shares
shares = record {
  links = row ∷ [];
  users =
      record {
        id = "v";
        email = "bob@example.com";
        name = none;
        password_hash = "h";
        created_at = 1;
      }
      ∷ [];
  share_users = record { short_link_id = "1"; user_id = "x" } ∷ [];
}

grant_user-revoke_user_example :
    Granted "w" "1" "u" [] shares "1" "v" "bob@example.com"
      (grant_user "w" "1" "u" [] "bob@example.com" shares)
    × Revoked "w" "1" "u" [] shares "1" "v" "x" (revoke_user "w" "1" "x" "u" [] shares)
grant_user-revoke_user_example =
    grant_user-revoke_user "w" "1" "u" [] shares "1" "v" "bob@example.com" "x"
