-- ===== src/ShortLinks.antt =====
-- src/short-links: the links of a workspace are created, changed, removed and shared
-- (short-links.service.ts, short-link-sharing.service.ts, short-link-authorization.ts).
pub mod Codes
pub mod Permission
pub mod Sharing
mod Tests
use nest_shortlink_platform.Common.{
  ℕ, zero, suc, ◌+◌, String, List, [], ◌∷◌, ◌++◌, Option, none, some, Bool, true, false, not, ◌&&◌,
  ◌||◌, ◌==◌, string_eq, nat_eq, if◌then◌else◌,
}
use nest_shortlink_platform.Common.Effects.{Outcome, ok, threw, Eff, pure, throw, ◌>>=◌, ◌>>◌}
use nest_shortlink_platform.Http.{
  HttpError, bad_request, not_found, forbidden, service_unavailable, truthy,
}
use nest_shortlink_platform.Links.{ShortLink}
use nest_shortlink_platform.Cache.Redirect.{LinkStatus, Visibility, active, password}
use nest_shortlink_platform.Redirects.{expired, is_password}

-- The table ShortLink, the actions written to the outbox with their links, the codes added to the
-- Bloom filter and those invalidated in the cache, and the links whose counters were deleted, latest
-- first.
pub record Workspace : Type 0 where
  pub links : List ShortLink
  pub audits : List (String × String)
  pub bloom : List String
  pub invalidated : List String
  pub stats_deleted : List String

abbrev pub Service : Type 0 → Type 0
Service A = Eff HttpError Workspace A

pub record CreateShortLinkDto : Type 0 where
  pub original_url : String
  pub title : Option String
  pub visibility : Visibility
  pub expires_at : Option ℕ
  pub max_visits : Option ℕ

-- A field that is absent is left as it is.
pub record UpdateShortLinkDto : Type 0 where
  pub original_url : Option String
  pub title : Option String
  pub visibility : Option Visibility
  pub max_visits : Option ℕ
  pub status : Option LinkStatus
  pub expires_at : Option ℕ

pub record SetShortLinkAccessDto : Type 0 where
  pub visibility : Visibility
  pub password : Option String

abbrev pub or_kept : {A : Type 0} → Option A → A → A
or_kept none kept = kept
or_kept (some new) kept = new

abbrev pub or_kept_some : {A : Type 0} → Option A → Option A → Option A
or_kept_some none kept = kept
or_kept_some (some new) kept = some new

unfoldable pub includes : String → List String → Bool
includes role [] = false
includes role (r ∷ roles) = (r == role) || includes role roles

unfoldable pub can_manage : String → List String → String → Bool
unfolding includes
can_manage user roles creator =
    (includes "OWNER" roles || includes "ADMIN" roles) || (creator == user)

unfoldable pub assert_can_manage_short_link : String → List String → String → Service (Unit {0})
unfolding can_manage
assert_can_manage_short_link user roles creator =
    if can_manage user roles creator
    then pure tt
    else throw (forbidden "You can only manage links you created")

unfoldable pub code_taken : String → List ShortLink → Bool
code_taken code [] = false
code_taken code (row ∷ rows) = (row.code == code) || code_taken code rows

abbrev pub new_link : String → String → String → String → CreateShortLinkDto → ShortLink
new_link id workspace user code dto = record {
  id = id;
  workspace_id = workspace;
  created_by_id = user;
  code = code;
  original_url = dto.original_url;
  title = dto.title;
  visibility = dto.visibility;
  status = active;
  expires_at = dto.expires_at;
  max_visits = dto.max_visits;
  visit_count = 0;
  password_hash = none;
  access_version = 0;
}

abbrev pub invalidate : String → Service (Unit {0})
invalidate code w = ok tt (record w { invalidated = code ∷ w.invalidated })

-- `bloom.add`, whose exception is logged and goes no further.
abbrev pub add_to_bloom : Bool → String → List String → List String
add_to_bloom true code bloom = bloom
add_to_bloom false code bloom = code ∷ bloom

-- An attempt whose code was free: the row, the filter, which may throw, and the cache.
abbrev pub insert_link : Bool → ShortLink → Workspace → Workspace
insert_link bloom_fails link w = record w {
  links = link ∷ w.links;
  bloom = add_to_bloom bloom_fails link.code w.bloom;
  invalidated = link.code ∷ w.invalidated;
}

-- The loop of `create`; the codes are those that `generateShortCode` will give, one for each attempt
-- that is left. The unique index on `code` refuses one that is taken.
unfoldable pub allocate :
    Bool → String → String → String → CreateShortLinkDto → List String → Service ShortLink
unfolding code_taken
allocate bloom_fails id workspace user dto [] w =
    threw (service_unavailable "Unable to allocate a short code") w
allocate bloom_fails id workspace user dto (code ∷ codes) w =
    let rest = allocate bloom_fails id workspace user dto codes w in
    if code_taken code w.links
    then rest
    else ok (new_link id workspace user code dto)
        (insert_link bloom_fails (new_link id workspace user code dto) w)

-- `create`, with whether the filter throws, and the codes of its five attempts.
unfoldable pub create :
    Bool
    → String
    → ℕ
    → (String × String × String × String × String)
    → String
    → String
    → CreateShortLinkDto
    → Service ShortLink
unfolding allocate
create bloom_fails id now (a, b, c, d, e) workspace user dto w =
    if expired dto.expires_at now
    then threw (bad_request "expiresAt must be in the future") w
    else allocate bloom_fails id workspace user dto (a ∷ b ∷ c ∷ d ∷ e ∷ []) w

unfoldable pub is_link : String → String → ShortLink → Bool
is_link workspace id row = (row.id == id) && (row.workspace_id == workspace)

unfoldable pub find_first : String → String → List ShortLink → Option ShortLink
unfolding is_link
find_first workspace id [] = none
find_first workspace id (row ∷ rows) =
    if is_link workspace id row then some row else find_first workspace id rows

-- The row that was found, if the user may manage it.
unfoldable pub managed : String → List String → Option ShortLink → Service ShortLink
unfolding assert_can_manage_short_link
managed user roles none = throw (not_found "Short link not found")
managed user roles (some link) = do
  assert_can_manage_short_link user roles link.created_by_id
  pure link

unfoldable pub managed_link : String → String → String → List String → Service ShortLink
unfolding find_first managed
managed_link workspace id user roles w = managed user roles (find_first workspace id w.links) w

unfoldable pub update_rows :
    (ShortLink → Bool) → (ShortLink → ShortLink) → List ShortLink → List ShortLink
update_rows where_ change [] = []
update_rows where_ change (row ∷ rows) =
    (if where_ row then change row else row) ∷ update_rows where_ change rows

unfoldable pub delete_rows : (ShortLink → Bool) → List ShortLink → List ShortLink
delete_rows where_ [] = []
delete_rows where_ (row ∷ rows) =
    if where_ row then delete_rows where_ rows else row ∷ delete_rows where_ rows

abbrev pub updated : UpdateShortLinkDto → ShortLink → ShortLink
updated dto row = record row {
  original_url = or_kept dto.original_url row.original_url;
  title = or_kept_some dto.title row.title;
  visibility = or_kept dto.visibility row.visibility;
  max_visits = or_kept_some dto.max_visits row.max_visits;
  status = or_kept dto.status row.status;
  expires_at = or_kept_some dto.expires_at row.expires_at;
}

abbrev pub audit : String → String → Service (Unit {0})
audit action id w = ok tt (record w { audits = (action, id) ∷ w.audits })

abbrev pub write_rows : (List ShortLink → List ShortLink) → Service (Unit {0})
write_rows f w = ok tt (record w { links = f w.links })

unfoldable pub reject_expired : Option ℕ → ℕ → Service (Unit {0})
reject_expired expires_at now =
    if expired expires_at now
    then throw (bad_request "expiresAt must be in the future")
    else pure tt

unfoldable pub update :
    ℕ → String → String → String → List String → UpdateShortLinkDto → Service (Unit {0})
unfolding managed_link reject_expired
update now workspace user id roles dto = do
  link ← managed_link workspace id user roles
  reject_expired dto.expires_at now
  write_rows (update_rows (is_link workspace id) (updated dto))
  audit "shortlink.update" link.id
  invalidate link.code

unfoldable pub count_rows : (ShortLink → Bool) → List ShortLink → ℕ
count_rows where_ [] = 0
count_rows where_ (row ∷ rows) =
    if where_ row then count_rows where_ rows + 1 else count_rows where_ rows

-- Exactly one row is deleted, or the transaction is rolled back.
unfoldable pub delete_one : String → String → Service (Unit {0})
unfolding count_rows delete_rows
delete_one workspace id w =
    if count_rows (is_link workspace id) w.links == 1
    then ok tt (record w { links = delete_rows (is_link workspace id) w.links })
    else threw (not_found "Short link not found") w

abbrev pub delete_stats : String → Service (Unit {0})
delete_stats id w = ok tt (record w { stats_deleted = id ∷ w.stats_deleted })

unfoldable pub remove : String → String → String → List String → Service (Unit {0})
unfolding managed_link delete_one
remove workspace id user roles = do
  link ← managed_link workspace id user roles
  delete_one workspace id
  invalidate link.code
  delete_stats link.id
  audit "shortlink.delete" link.id

unfoldable pub hashed : (String → String) → Option String → Option String
hashed argon2_hash none = none
hashed argon2_hash (some text) = some (argon2_hash text)

-- The hash to write, if any: nothing is left as it is, and `some none` is null.
unfoldable pub new_password :
    (String → String) → SetShortLinkAccessDto → Option String → Service (Option (Option String))
unfolding hashed
new_password argon2_hash dto stored =
    if is_password dto.visibility
    then if truthy dto.password
      then pure (some (hashed argon2_hash dto.password))
      else if truthy stored
      then pure none
      else throw (bad_request "Password is required for PASSWORD visibility")
    else pure (some none)

abbrev pub shared : SetShortLinkAccessDto → Option (Option String) → ShortLink → ShortLink
shared dto hash row = record row {
  visibility = dto.visibility;
  password_hash = or_kept hash row.password_hash;
  access_version = row.access_version + 1;
}

-- The row that is read again at the end, of which some columns are selected.
abbrev pub returned : String → String → Service (Option ShortLink)
returned workspace id w = ok (find_first workspace id w.links) w

-- Each `do` line is one statement of the source, in its order; they are no transaction, so what other
-- requests do between them is not part of this function.
unfoldable pub set_access :
    (String → String)
    → String
    → String
    → String
    → List String
    → SetShortLinkAccessDto
    → Service (Option ShortLink)
unfolding managed_link new_password find_first
set_access argon2_hash workspace id user roles dto = do
  link ← managed_link workspace id user roles
  hash ← new_password argon2_hash dto link.password_hash
  invalidate link.code
  write_rows (update_rows (is_link workspace id) (shared dto hash))
  invalidate link.code
  returned workspace id
