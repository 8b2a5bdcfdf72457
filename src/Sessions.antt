-- ===== src/Sessions.antt =====
-- src/auth/auth.service.ts and src/auth/auth-token.service.ts: the sessions of the table AuthSession,
-- opened by a login, rotated by a refresh and revoked by a logout.
pub mod Rows
pub mod Barred
pub mod Guard
pub mod LoggedOut
pub mod Login
pub mod SingleUse
mod Tests
use nest_shortlink_platform.Common.{
  ℕ, zero, suc, ◌+◌, ◌*◌, String, List, [], ◌∷◌, Option, none, some, Bool, true, false, ◌&&◌, ltb,
  ◌==◌, string_eq, nat_eq, if◌then◌else◌,
}

-- Times are in milliseconds.
pub record AuthSession : Type 0 where
  pub id : String
  pub user_id : String
  pub refresh_token_hash : String
  pub version : ℕ
  pub expires_at : ℕ
  pub revoked_at : Option ℕ

-- `type` of the payload is `kind`.
pub record RefreshTokenPayload : Type 0 where
  pub sub : String
  pub sid : String
  pub ver : ℕ
  pub kind : String

-- JwtService and node:crypto: the signing of a payload at a time, the payload of a token, whether its
-- signature is good and its time is not over, and the SHA-256 digest.
pub record Crypto : Type 0 where
  pub jwt_sign : RefreshTokenPayload → ℕ → String
  pub jwt_sign_access : String → String → ℕ → String
  pub jwt_payload : String → Option RefreshTokenPayload
  pub jwt_valid : String → ℕ → Bool
  pub sha256 : String → String

pub record Tokens : Type 0 where
  pub access_token : String
  pub refresh_token : String

abbrev pub refresh_token_ttl : ℕ
refresh_token_ttl = 604800

unfoldable pub is_none : Option ℕ → Bool
is_none none = true
is_none (some x) = false

-- `updateMany`: how many rows there were, and the table after.
unfoldable pub update_many :
    (AuthSession → Bool) → (AuthSession → AuthSession) → List AuthSession → ℕ × List AuthSession
update_many where_ change [] = (0, [])
update_many where_ change (row ∷ table) =
    let (count, after) = update_many where_ change table in
    if where_ row then (count + 1, change row ∷ after) else (count, row ∷ after)

module _ (crypto : Crypto) where
  unfoldable pub sign_refresh_token : String → String → ℕ → ℕ → String
  sign_refresh_token user session version now =
      crypto.jwt_sign (record { sub = user; sid = session; ver = version; kind = "refresh" }) now

  unfoldable pub check_kind : Option RefreshTokenPayload → Option RefreshTokenPayload
  check_kind none = none
  check_kind (some payload) = if payload.kind == "refresh" then some payload else none

  unfoldable pub verify_refresh_token : String → ℕ → Option RefreshTokenPayload
  unfolding check_kind
  verify_refresh_token token now =
      if crypto.jwt_valid token now then check_kind (crypto.jwt_payload token) else none

  unfoldable pub hash_refresh_token : String → String
  hash_refresh_token token = crypto.sha256 token

  unfoldable pub get_refresh_expires_at : ℕ → ℕ
  get_refresh_expires_at now = now + refresh_token_ttl * 1000

  -- The `where` of `refresh`.
  unfoldable pub may_rotate : RefreshTokenPayload → String → ℕ → AuthSession → Bool
  unfolding is_none
  may_rotate payload hash now row =
      (row.id == payload.sid)
      && (row.user_id == payload.sub)
      && (row.version == payload.ver)
      && (row.refresh_token_hash == hash)
      && is_none row.revoked_at
      && ltb now row.expires_at

  unfoldable pub next_tokens : RefreshTokenPayload → ℕ → Tokens
  unfolding sign_refresh_token
  next_tokens payload now = record {
    access_token = crypto.jwt_sign_access payload.sub payload.sid now;
    refresh_token = sign_refresh_token payload.sub payload.sid (payload.ver + 1) now;
  }

  abbrev pub rotated : RefreshTokenPayload → ℕ → AuthSession → AuthSession
  rotated payload now row = record row {
    version = payload.ver + 1;
    refresh_token_hash = hash_refresh_token (next_tokens payload now).refresh_token;
    expires_at = get_refresh_expires_at now;
  }

  -- `refresh` after the token is verified; nothing stands for the exception.
  unfoldable pub rotate :
      RefreshTokenPayload → String → ℕ → List AuthSession → Option Tokens × List AuthSession
  unfolding update_many may_rotate next_tokens
  rotate payload token now sessions =
      let (count, after) =
        update_many (may_rotate payload (hash_refresh_token token) now) (rotated payload now)
          sessions in
      if count == 1 then (some (next_tokens payload now), after) else (none, after)

  unfoldable pub rotate_verified :
      Option RefreshTokenPayload → String → ℕ → List AuthSession → Option Tokens × List AuthSession
  unfolding rotate
  rotate_verified none token now sessions = (none, sessions)
  rotate_verified (some payload) token now sessions = rotate payload token now sessions

  unfoldable pub refresh : String → ℕ → List AuthSession → Option Tokens × List AuthSession
  unfolding verify_refresh_token rotate_verified
  refresh token now sessions = rotate_verified (verify_refresh_token token now) token now sessions

  -- The end of `login`, for a new session id.
  unfoldable pub open_session : String → String → ℕ → List AuthSession → List AuthSession
  unfolding sign_refresh_token hash_refresh_token get_refresh_expires_at
  open_session user session now sessions =
      record {
        id = session;
        user_id = user;
        refresh_token_hash = hash_refresh_token (sign_refresh_token user session 0 now);
        version = 0;
        expires_at = get_refresh_expires_at now;
        revoked_at = none;
      }
      ∷ sessions

abbrev pub revoked : ℕ → AuthSession → AuthSession
revoked now row = record row { revoked_at = some now }

unfoldable pub logout : String → String → ℕ → List AuthSession → List AuthSession
unfolding update_many is_none
logout user session now sessions =
    (update_many (λ row. (row.id == session) && (row.user_id == user) && is_none row.revoked_at)
      (revoked now) sessions).1

unfoldable pub logout_all : String → ℕ → List AuthSession → List AuthSession
unfolding update_many is_none
logout_all user now sessions =
    (update_many (λ row. (row.user_id == user) && is_none row.revoked_at) (revoked now) sessions).1

-- What the users do to the table, one request after another.
pub data Action : Type 0 where
  refreshes : (token : String) (now : ℕ) → Action
  logs_in : (user session : String) (now : ℕ) → Action
  logs_out : (user session : String) (now : ℕ) → Action
  logs_out_everywhere : (user : String) (now : ℕ) → Action

unfoldable pub act : Crypto → List AuthSession → Action → List AuthSession
act crypto sessions (refreshes token now) = (refresh crypto token now sessions).1
act crypto sessions (logs_in user session now) = open_session crypto user session now sessions
act crypto sessions (logs_out user session now) = logout user session now sessions
act crypto sessions (logs_out_everywhere user now) = logout_all user now sessions

unfoldable pub act_all : Crypto → List AuthSession → List Action → List AuthSession
unfolding act
act_all crypto sessions [] = sessions
act_all crypto sessions (a ∷ actions) = act_all crypto (act crypto sessions a) actions
