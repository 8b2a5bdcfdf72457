-- ===== src/Sessions/Guard.antt =====
-- src/auth/guard/jwt-auth.guard.ts, and `verifyAccessToken` of src/auth/auth-token.service.ts. Headers and
-- access tokens are lists of code points.
use nest_shortlink_platform.Common.{
  ℕ, String, List, [], ◌∷◌, find, Option, none, some, Bool, true, false, ◌&&◌, ltb, ◌==◌, string_eq,
  nat_eq, if◌then◌else◌,
}
use nest_shortlink_platform.Common.Text.{codes}
use nest_shortlink_platform.Common.Effects.{ok, Eff, pure, throw}
use nest_shortlink_platform.Http.{HttpError, unauthorized}
use nest_shortlink_platform.Sessions.{AuthSession, is_none}

-- `type` of the payload is `kind`.
pub record AccessTokenPayload : Type 0 where
  pub sub : String
  pub sid : String
  pub kind : String

-- JwtService with the secret of the access tokens: the payload of a token, and whether its signature
-- is good and its time is not over.
pub record AccessCrypto : Type 0 where
  pub jwt_payload : List ℕ → Option AccessTokenPayload
  pub jwt_valid : List ℕ → ℕ → Bool

-- The decorators of a route.
pub record Route : Type 0 where
  pub is_public : Bool
  pub optional_auth : Bool

unfoldable pub check_access : Option AccessTokenPayload → Option AccessTokenPayload
check_access none = none
check_access (some payload) = if payload.kind == "access" then some payload else none

-- Nothing stands for the exception.
unfoldable pub verify_access_token : AccessCrypto → List ℕ → ℕ → Option AccessTokenPayload
unfolding check_access
verify_access_token crypto token now =
    if crypto.jwt_valid token now then check_access (crypto.jwt_payload token) else none

-- `text.split(' ')`: the character goes to the first piece, unless it is the space.
abbrev extend : ℕ → List (List ℕ) → List (List ℕ)
extend c [] = (c ∷ []) ∷ []
extend c (piece ∷ pieces) = (c ∷ piece) ∷ pieces

unfoldable pub split : List ℕ → List (List ℕ)
split [] = [] ∷ []
split (c ∷ text) = let rest = split text in if c == 32 then [] ∷ rest else extend c rest

abbrev same_text : List ℕ → List ℕ → Bool
same_text [] [] = true
same_text [] (c ∷ text) = false
same_text (c ∷ text) [] = false
same_text (c ∷ text) (d ∷ other) = (c == d) && same_text text other

-- The second piece, if it is not empty and the first is `Bearer`.
unfoldable pub bearer : List (List ℕ) → Option (List ℕ)
bearer (kind ∷ (c ∷ token) ∷ rest) =
    if same_text kind (codes "Bearer") then some (c ∷ token) else none
bearer _ = none

unfoldable pub extract_token_from_header : Option (List ℕ) → Option (List ℕ)
unfolding split bearer
extract_token_from_header none = none
extract_token_from_header (some []) = none
extract_token_from_header (some (c ∷ text)) = bearer (split (c ∷ text))

-- The `where` of the guard.
unfoldable pub is_live : AccessTokenPayload → ℕ → AuthSession → Bool
unfolding is_none
is_live payload now row =
    (row.id == payload.sid)
    && (row.user_id == payload.sub)
    && is_none row.revoked_at
    && ltb now row.expires_at

-- What the guard writes is `request.user`.
abbrev pub Guarded : Type 0
Guarded = Eff HttpError (Option AccessTokenPayload) Bool

-- The row that `findFirst` gives.
unfoldable pub admit : AccessTokenPayload → Option AuthSession → Guarded
admit payload none = throw (unauthorized "Session is invalid or revoked")
admit payload (some session) = λ user. ok true (some payload)

unfoldable pub check_session : ℕ → List AuthSession → Option AccessTokenPayload → Guarded
unfolding is_live admit
check_session now sessions none = throw (unauthorized "Invalid or expiresd access token")
check_session now sessions (some payload) = admit payload (find (is_live payload now) sessions)

unfoldable pub check_token : AccessCrypto → Route → ℕ → List AuthSession → Option (List ℕ) → Guarded
unfolding check_session verify_access_token
check_token crypto route now sessions none =
    if route.optional_auth then pure true else throw (unauthorized "Access token is required")
check_token crypto route now sessions (some token) =
    check_session now sessions (verify_access_token crypto token now)

-- `canActivate` of JwtAuthGuard.
unfoldable pub jwt_guard : AccessCrypto → Route → ℕ → List AuthSession → Option (List ℕ) → Guarded
unfolding check_token extract_token_from_header
jwt_guard crypto route now sessions header =
    if route.is_public
    then pure true
    else check_token crypto route now sessions (extract_token_from_header header)
