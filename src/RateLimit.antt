-- ===== src/RateLimit.antt =====
-- The rate limits of src/rate-limit: rate-limit.types.ts, rate-limit.service.ts and
-- guards/rate-limit.guard.ts. What the client's `eval` does is a parameter; RateLimit/Scripts holds
-- the scripts. Headers are numbers here, which the guard prints.
pub mod Scripts
pub mod FixedWindow
pub mod SlidingWindow
pub mod TokenBucket
pub mod Availability
mod Sample
mod Tests
pub mod Guard
pub mod Serve
use nest_shortlink_platform.Common.{
  ℕ, ◌*◌, ◌≡◌, ◌↔◌, ◌⊎◌, inl, inr, refl, String, List, [], ◌∷◌, ◌++◌, Option, none, some, Bool,
  true, false, not, ◌&&◌, ◌==◌, string_eq, eq_iff, if◌then◌else◌, arith,
}
use Prim.Native.String.{◌++◌ as str_append}
use nest_shortlink_platform.Common.Int.{ℤ, pos, negsuc}
use nest_shortlink_platform.Common.Effects.{
  Outcome, ok, threw, Eff, pure, throw, ◌>>=◌, ◌>>◌, catch,
}
use nest_shortlink_platform.Http.{HttpError, service_unavailable, too_many_requests}
use nest_shortlink_platform.RateLimit.Scripts.{is_one}

pub data RateLimitKeyType : Type 0 where
  ip user workspace code : RateLimitKeyType

pub data RateLimitFailureMode : Type 0 where
  open_ closed : RateLimitFailureMode

pub record FixedWindowConfig : Type 0 where
  pub prefix : String
  pub key_type : RateLimitKeyType
  pub limit : ℕ
  pub window_seconds : ℕ
  pub failure_mode : Option RateLimitFailureMode

pub record SlidingWindowConfig : Type 0 where
  pub prefix : String
  pub key_type : RateLimitKeyType
  pub limit : ℕ
  pub window_seconds : ℕ
  pub failure_mode : Option RateLimitFailureMode

pub record TokenBucketConfig : Type 0 where
  pub prefix : String
  pub key_type : RateLimitKeyType
  pub capacity : ℕ
  pub refill_per_second : ℕ
  pub failure_mode : Option RateLimitFailureMode

pub data RateLimitConfig : Type 0 where
  fixed : FixedWindowConfig → RateLimitConfig
  sliding : SlidingWindowConfig → RateLimitConfig
  bucket : TokenBucketConfig → RateLimitConfig

pub record RateLimitResult : Type 0 where
  pub allowed : Bool
  pub remaining : ℤ
  pub retry_after_ms : ℤ

-- The script and its arguments.
pub data Script : Type 0 where
  fixed_window_script : ℕ → ℕ → Script
  sliding_window_script : ℕ → ℕ → String → Script
  token_bucket_script : ℕ → ℕ → Script

-- What a script's reply is: numbers, or not an array.
pub data Reply : Type 0 where
  array : List ℤ → Reply
  other : Reply

unfoldable pub prefix_of : RateLimitConfig → String
prefix_of (fixed config) = config.prefix
prefix_of (sliding config) = config.prefix
prefix_of (bucket config) = config.prefix

unfoldable pub key_type_of : RateLimitConfig → RateLimitKeyType
key_type_of (fixed config) = config.key_type
key_type_of (sliding config) = config.key_type
key_type_of (bucket config) = config.key_type

unfoldable pub failure_mode_of : RateLimitConfig → Option RateLimitFailureMode
failure_mode_of (fixed config) = config.failure_mode
failure_mode_of (sliding config) = config.failure_mode
failure_mode_of (bucket config) = config.failure_mode

-- `config.failureMode === 'closed'`.
unfoldable pub is_closed : Option RateLimitFailureMode → Bool
is_closed none = false
is_closed (some open_) = false
is_closed (some closed) = true

-- What the guard reads of a request.
pub record RateLimitRequest : Type 0 where
  pub ip : Option String
  pub user_sub : Option String
  pub workspace_id : Option String
  pub code : Option String

unfoldable pub or_else : Option String → String → String
or_else none text = text
or_else (some found) text = found

unfoldable pub resolve_identity : RateLimitRequest → RateLimitConfig → String
unfolding key_type_of or_else
resolve_identity request config = elim (key_type_of config) [
  | ip ↦ or_else request.ip "unknown"
  | user ↦ or_else request.user_sub "anonymous"
  | workspace ↦ or_else request.workspace_id "unknown"
  | code ↦ or_else request.code "unknown"
]

-- The exceptions of the code below: a plain `Error`, and those for the client.
pub data Failure : Type 0 where
  error : String → Failure
  http : HttpError → Failure

-- `client.eval` on the script and the key.
abbrev pub Evaluate : Type 0 → Type 0
Evaluate S = Script → String → Eff Failure S Reply

module _ {S : Type 0} where
  unfoldable pub parse_result : Reply → Eff Failure S RateLimitResult
  unfolding is_one
  parse_result (array (allowed ∷ remaining ∷ retry ∷ rest)) =
      pure (record { allowed = is_one allowed; remaining = remaining; retry_after_ms = retry })
  parse_result _ = throw (error "invalid rate limit result")

  -- `del` is the client's, `normalize` is `email.trim().toLowerCase()`.
  unfoldable pub clear_account_failure :
      (String → Eff Failure S (Unit {0})) → (String → String) → String → Eff Failure S (Unit {0})
  clear_account_failure del normalize email =
      del (str_append "rate:login-failed:" (normalize email))

  module _ (eval : Evaluate S) where
    unfoldable pub fixed_window_limit : String → FixedWindowConfig → Eff Failure S RateLimitResult
    fixed_window_limit key config =
        eval (fixed_window_script config.limit config.window_seconds) key >>= parse_result

    unfoldable pub sliding_window_limit :
        String → String → SlidingWindowConfig → Eff Failure S RateLimitResult
    sliding_window_limit random_uuid key config =
        eval (sliding_window_script config.limit config.window_seconds random_uuid) key
        >>= parse_result

    unfoldable pub token_bucket_limit : String → TokenBucketConfig → Eff Failure S RateLimitResult
    token_bucket_limit key config =
        eval (token_bucket_script config.capacity config.refill_per_second) key >>= parse_result

    -- `normalize` is `email.trim().toLowerCase()`.
    unfoldable pub account_failure : (String → String) → String → Eff Failure S RateLimitResult
    account_failure normalize email =
        fixed_window_limit (str_append "rate:login-failed:" (normalize email)) (record {
          prefix = "login-failed";
          key_type = user;
          limit = 5;
          window_seconds = 60 * 10;
          failure_mode = none;
        })

    unfoldable pub consume : String → String → RateLimitConfig → Eff Failure S RateLimitResult
    unfolding fixed_window_limit sliding_window_limit token_bucket_limit
    consume random_uuid key (fixed config) = fixed_window_limit key config
    consume random_uuid key (sliding config) = sliding_window_limit random_uuid key config
    consume random_uuid key (bucket config) = token_bucket_limit key config
