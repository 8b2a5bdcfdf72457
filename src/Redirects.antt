-- ===== src/Redirects.antt =====
-- src/redirects/redirects.service.ts and src/redirects/share-access-token.service.ts: from a code to
-- its target, for whoever may see it. Spans are left out.
pub mod Access
pub mod Limit
pub mod Unlock
mod Tests
use nest_shortlink_platform.Common.{
  ℕ, ◌+◌, String, List, [], ◌∷◌, Option, none, some, Bool, true, false, not, ◌&&◌, leb, ◌==◌,
  string_eq, nat_eq, if◌then◌else◌,
}
use nest_shortlink_platform.Common.Effects.{Outcome, ok, threw, Eff, pure, throw, ◌>>=◌, ◌>>◌}
use nest_shortlink_platform.Http.{HttpError, not_found, gone, unauthorized, forbidden, truthy}
use nest_shortlink_platform.Links.{ShortLink}
use nest_shortlink_platform.Cache.{Shared, Request, Outside, CacheEnv, lift}
use nest_shortlink_platform.Cache.Redirect as Cache
use nest_shortlink_platform.Cache.Redirect.{
  LinkStatus, active, disabled, Visibility, public, workspace, private, password, RedirectSnapshot,
  CacheType, Json,
}

pub record RedirectRow : Type 0 where
  pub original_url : String
  pub visit_count : ℕ

pub record RedirectTarget : Type 0 where
  pub short_link_id : String
  pub workspace_id : String
  pub code : String
  pub original_url : String
  pub database_visit_count_incremented : Bool
  pub cache_type : Option CacheType

-- `type` of the payload is `kind`.
pub record ShareAccessPayload : Type 0 where
  pub kind : String
  pub link_id : String
  pub code : String
  pub ver : ℕ

-- What the service calls: Prisma, the authorization service, JwtService (at a time in milliseconds,
-- with a time to live in seconds), argon2, and its own exceptions among the errors.
pub record Services (E R : Type 0) : Type 0 where
  pub http : HttpError → E
  -- findUnique by code
  pub find_link : String → Eff E (Request R) (Option ShortLink)
  -- the UPDATE of `resolveLimited`
  pub update_limited : RedirectSnapshot → Eff E (Request R) (List RedirectRow)
  -- whether `getWorkspaceAccess` of a user and a workspace gives an access
  pub workspace_access : String → String → Eff E (Request R) Bool
  pub jwt_sign : ShareAccessPayload → ℕ → ℕ → String
  pub jwt_verify : String → ℕ → Option ShareAccessPayload
  pub argon2_verify : String → String → Bool

abbrev pub share_token_ttl : ℕ
share_token_ttl = 1800

-- `expiresAt && expiresAt <= now`.
unfoldable pub expired : Option ℕ → ℕ → Bool
expired none now = false
expired (some at) now = leb at now

unfoldable pub is_active : LinkStatus → Bool
is_active active = true
is_active disabled = false

unfoldable pub is_password : Visibility → Bool
is_password password = true
is_password _ = false

-- `maxVisits !== null && visitCount >= maxVisits`.
unfoldable pub used_up : Option ℕ → ℕ → Bool
used_up none visits = false
used_up (some limit) visits = leb limit visits

unfoldable pub payload_matches : ShareAccessPayload → RedirectSnapshot → Bool
payload_matches payload link =
    (payload.link_id == link.id)
    && (payload.code == link.code)
    && (payload.ver == link.access_version)

abbrev pub target : RedirectSnapshot → Bool → RedirectTarget
target snapshot incremented = record {
  short_link_id = snapshot.id;
  workspace_id = snapshot.workspace_id;
  code = snapshot.code;
  original_url = snapshot.original_url;
  database_visit_count_incremented = incremented;
  cache_type = snapshot.cache_type;
}

abbrev pub snapshot_of : ShortLink → RedirectSnapshot
snapshot_of link = record {
  id = link.id;
  code = link.code;
  workspace_id = link.workspace_id;
  created_by_id = link.created_by_id;
  original_url = link.original_url;
  status = link.status;
  visibility = link.visibility;
  access_version = link.access_version;
  expires_at = link.expires_at;
  max_visits = link.max_visits;
  visit_count = link.visit_count;
  cache_type = none;
}

module _ {E R : Type 0} (o : Outside E R) (json : Json E) (env : CacheEnv)
    (services : Services E R) where
  abbrev pub raise : {A : Type 0} → HttpError → Eff E (Request R) A
  raise error = throw (services.http error)

  abbrev pub count : String → Eff E (Request R) (Unit {0})
  count label q =
      ok tt
        (record q { shared = record q.shared { redirect_total = label ∷ q.shared.redirect_total } })

  abbrev pub now : Eff E (Request R) ℕ
  now q = ok (o.now q.shared) q

  -- `if (test) throw`.
  unfoldable pub reject_if : Bool → HttpError → Eff E (Request R) (Unit {0})
  reject_if true error = raise error
  reject_if false error = pure tt

  unfoldable pub load_from_database : String → Eff E (Request R) (Option RedirectSnapshot)
  load_from_database code = do
    link ← services.find_link code
    elim link [ none ↦ pure none | some row ↦ pure (some (snapshot_of row)) ]

  unfoldable pub assert_available : RedirectSnapshot → Eff E (Request R) (Unit {0})
  unfolding expired is_active
  assert_available link = do
    if is_active link.status
        then pure tt
        else (count "disabled" >> raise (not_found "Short link not found"))
    time ← now
    if expired link.expires_at time
        then (count "expired" >> raise (gone "Short link expired"))
        else pure tt

  unfoldable pub authorize_workspace :
      RedirectSnapshot → Option String → Eff E (Request R) (Unit {0})
  authorize_workspace link none = raise (unauthorized "Authentication required")
  authorize_workspace link (some user) = do
    reject_if (user == "") (unauthorized "Authentication required")
    access ← services.workspace_access user link.workspace_id
    reject_if (not access) (not_found "Short link not found")

  unfoldable pub authorize_private : RedirectSnapshot → Option String → Eff E (Request R) (Unit {0})
  authorize_private link none = raise (unauthorized "Authentication required")
  authorize_private link (some user) = do
    reject_if (user == "") (unauthorized "Authentication required")
    reject_if (not (user == link.created_by_id)) (not_found "Short link not found")

  -- `ShareAccessTokenService.verify`; both of its exceptions are caught alike.
  unfoldable pub verify : String → ℕ → Option ShareAccessPayload
  verify token time = elim (services.jwt_verify token time) [
    | none ↦ none
    | some payload ↦ if payload.kind == "share_access" then some payload else none
  ]

  unfoldable pub sign : String → String → ℕ → ℕ → String
  sign link_id code ver time =
      services.jwt_sign
        (record { kind = "share_access"; link_id = link_id; code = code; ver = ver })
        share_token_ttl time

  unfoldable pub check_payload :
      RedirectSnapshot → Option ShareAccessPayload → Eff E (Request R) (Unit {0})
  unfolding payload_matches
  check_payload link none = raise (forbidden "Share access expired")
  check_payload link (some payload) =
      reject_if (not (payload_matches payload link)) (forbidden "Share access invalid")

  unfoldable pub authorize_password :
      RedirectSnapshot → Option String → Eff E (Request R) (Unit {0})
  unfolding verify check_payload
  authorize_password link none = raise (forbidden "Share password required")
  authorize_password link (some token) = do
    reject_if (token == "") (forbidden "Share password required")
    time ← now
    check_payload link (verify token time)

  -- The `switch` of `authorize`.
  unfoldable pub authorize_as :
      Visibility → RedirectSnapshot → Option String → Option String → Eff E (Request R) (Unit {0})
  unfolding authorize_workspace authorize_private authorize_password
  authorize_as public link user token = pure tt
  authorize_as workspace link user token = authorize_workspace link user
  authorize_as private link user token = authorize_private link user
  authorize_as password link user token = authorize_password link token

  unfoldable pub authorize :
      RedirectSnapshot → Option String → Option String → Eff E (Request R) (Unit {0})
  unfolding authorize_as
  authorize link user token = authorize_as link.visibility link user token

  unfoldable pub throw_unavailable_reason : String → Eff E (Request R) String
  unfolding used_up
  throw_unavailable_reason code = do
    found ← services.find_link code
    elim found [
      | none ↦ raise (not_found "Short link not found")
      | some link ↦ (do
        reject_if (not (is_active link.status)) (not_found "Short link not found")
        time ← now
        reject_if (expired link.expires_at time) (gone "Short link expired")
        reject_if (used_up link.max_visits link.visit_count) (gone "Short link visit limit reached")
        raise (not_found "Short link unavailable"))
    ]

  -- The `UPDATE` gave exactly one row, or anything else.
  unfoldable pub limited_result : RedirectSnapshot → List RedirectRow → Eff E (Request R) String
  limited_result snapshot (row ∷ []) = pure row.original_url
  limited_result snapshot _ = do
    Cache.invalidate o json env snapshot.code
    count "max_visits_exceeded"
    throw_unavailable_reason snapshot.code

  unfoldable pub resolve_limited : RedirectSnapshot → Eff E (Request R) String
  unfolding limited_result
  resolve_limited snapshot = do
    rows ← services.update_limited snapshot
    limited_result snapshot rows

  -- The end of `resolveInternal`: the visit is counted in the database, if the link has a limit,
  -- or in Redis.
  unfoldable pub count_visit : Option ℕ → RedirectSnapshot → Eff E (Request R) RedirectTarget
  count_visit (some limit) snapshot = do resolve_limited snapshot; pure (target snapshot true)
  count_visit none snapshot = do
    Cache.increment_visit o json env snapshot.id snapshot.visit_count
    pure (target snapshot false)

  unfoldable pub redirect_to :
      Option String → Option String → Option RedirectSnapshot → Eff E (Request R) RedirectTarget
  redirect_to user token none = do count "not_found"; raise (not_found "Short link not found")
  redirect_to user token (some snapshot) = do
    assert_available snapshot
    authorize snapshot user token
    count_visit snapshot.max_visits snapshot

  unfoldable pub resolve_internal :
      String → Option String → Option String → Eff E (Request R) RedirectTarget
  resolve_internal code user token = do
    snapshot ← Cache.get_or_load o json env code (load_from_database code)
    redirect_to user token snapshot

  unfoldable pub visibility_of : Option RedirectSnapshot → Eff E (Request R) Visibility
  visibility_of none = do count "not_found"; raise (not_found "Short link not found")
  visibility_of (some snapshot) = do assert_available snapshot; pure snapshot.visibility

  unfoldable pub get_visibility : String → Eff E (Request R) Visibility
  get_visibility code = do
    snapshot ← Cache.get_or_load o json env code (load_from_database code)
    visibility_of snapshot

  -- `unlock`, once the link is found.
  unfoldable pub unlock_link : ShortLink → String → Eff E (Request R) (String × ℕ)
  unfolding sign is_active is_password expired
  unlock_link link secret = do
    reject_if (not (is_active link.status && is_password link.visibility))
        (not_found "Short link not found")
    time ← now
    reject_if (expired link.expires_at time) (gone "Short link expired")
    elim link.password_hash [
      | none ↦ raise (not_found "Short link unavailable")
      | some hash ↦ (do
        reject_if (hash == "") (not_found "Short link unavailable")
        reject_if (not (services.argon2_verify hash secret)) (unauthorized "Invalid share password")
        later ← now
        pure (sign link.id link.code link.access_version later, share_token_ttl))
    ]

  unfoldable pub unlock : String → String → Eff E (Request R) (String × ℕ)
  unlock code secret = do
    found ← services.find_link code
    elim found [
      | none ↦ raise (not_found "Short link not found")
      | some link ↦ unlock_link link secret
    ]
