-- ===== src/RateLimit/Guard.antt =====
-- The guard of src/rate-limit/guards/rate-limit.guard.ts.
use Prim.Native.String.{◌++◌ as str_append}
use nest_shortlink_platform.Common.{
  ℕ, zero, suc, ◌+◌, ◌/◌, ◌≡◌, inl, inr, refl, String, List, [], ◌∷◌, ◌++◌, Option, none, some,
  Bool, true, false, ◌==◌, string_eq, if◌then◌else◌, Bool-cases, sym,
}
use mathlib.Core.Path.{subst}
use nest_shortlink_platform.Common.Int.{ℤ, pos, negsuc}
use nest_shortlink_platform.Common.Effects.{Outcome, ok, threw, Eff, pure, throw, state_of}
use nest_shortlink_platform.Http.{service_unavailable, too_many_requests}
use nest_shortlink_platform.RateLimit.{
  RateLimitConfig, fixed, sliding, bucket, RateLimitResult, RateLimitRequest, Evaluate, Failure,
  http, consume, prefix_of, resolve_identity, failure_mode_of, is_closed,
}

-- What the guard changes: Redis, and the calls of `setHeader`.
pub record Context (S : Type 0) : Type 0 where
  pub redis : S
  pub headers : List (String × ℕ)

-- `Math.max(0, n)`.
unfoldable pub at_least_zero : ℤ → ℕ
at_least_zero (pos n) = n
at_least_zero (negsuc n) = 0

-- The limit that the headers name.
unfoldable pub limit_of : RateLimitConfig → ℕ
limit_of (fixed config) = config.limit
limit_of (sliding config) = config.limit
limit_of (bucket config) = config.capacity

-- Set if the time is above 0, in whole seconds, rounded up.
unfoldable pub retry_header : ℤ → List (String × ℕ)
retry_header (pos zero) = []
retry_header (pos (suc n)) = ("Retry-After", (suc n + 999) / 1000) ∷ []
retry_header (negsuc n) = []

unfoldable pub set_headers : RateLimitConfig → RateLimitResult → List (String × ℕ)
unfolding at_least_zero limit_of retry_header
set_headers config result =
    ("X-RateLimit-Remaining", at_least_zero result.remaining)
    ∷ ("X-RateLimit-Limit", limit_of config)
    ∷ retry_header result.retry_after_ms

unfoldable pub is_false : Option String → Bool
is_false none = false
is_false (some text) = text == "false"

unfoldable pub key_of : RateLimitRequest → RateLimitConfig → String
unfolding prefix_of resolve_identity
key_of request config =
    str_append "rate:"
      (str_append (prefix_of config) (str_append ":" (resolve_identity request config)))

module _ {S : Type 0} where
  -- The `catch` of the guard.
  unfoldable pub unavailable : RateLimitConfig → Eff Failure (Context S) Bool
  unfolding failure_mode_of is_closed
  unavailable config =
      if is_closed (failure_mode_of config)
      then throw (http (service_unavailable "Rate limit service unavailable"))
      else pure true

  unfoldable pub decide_result : RateLimitConfig → RateLimitResult → Eff Failure (Context S) Bool
  unfolding set_headers
  decide_result config result context =
      let noted : Context S = record context {
        headers = context.headers ++ set_headers config result;
      } in
      if result.allowed
      then ok true noted
      else threw (http (too_many_requests "Rate limit exceeded")) noted

  -- After the `try`.
  unfoldable pub settle :
      RateLimitConfig
      → Context S
      → Outcome Failure S RateLimitResult
      → Outcome Failure (Context S) Bool
  unfolding unavailable decide_result
  settle config context (ok result s) = decide_result config result (record context { redis = s })
  settle config context (threw e s) = unavailable config (record context { redis = s })

  -- `enabled` is the variable `RATE_LIMIT_ENABLED`, `found` the decorator's configuration.
  unfoldable pub can_activate :
      Evaluate S
      → Option String
      → Option RateLimitConfig
      → String
      → RateLimitRequest
      → Eff Failure (Context S) Bool
  unfolding is_false settle consume key_of
  can_activate eval enabled found random_uuid request context =
      if is_false enabled then ok true context else elim found [
        | none ↦ ok true context
        | some config ↦
            settle config context
              (consume eval random_uuid (key_of request config) config context.redis)
      ]

-- Whether the guard lets the request through.
abbrev pub admits : {E S : Type 0} → Outcome E S Bool → Bool
admits (ok b s) = b
admits (threw e s) = false

module _ {S : Type 0} where
  decide_result-admits :
      (config : RateLimitConfig) (result : RateLimitResult) (context : Context S)
      → (admits (decide_result config result context) ≡ result.allowed)
        × ((state_of (decide_result config result context)).redis ≡ context.redis)
  unfolding decide_result
  decide_result-admits config result context = elim (Bool-cases result.allowed) [
    | inl passes ↦ rw passes (refl, refl)
    | inr fails ↦ rw fails (refl, refl)
  ]

-- Requests one after another, each with the time in microseconds at which Redis runs its script and
-- the identifier drawn for it: how many pass, and the state of Redis after them.
module _ {S : Type 0} (serve : ℕ → Evaluate S) (config : RateLimitConfig)
    (request : RateLimitRequest) where
  abbrev pub guarded : ℕ × String → S → Outcome Failure (Context S) Bool
  guarded (now, random_uuid) s =
      can_activate (serve now) none (some config) random_uuid request
        (record { redis = s; headers = [] })

  unfoldable pub admitted : List (ℕ × String) → S → ℕ × S
  admitted [] s = (0, s)
  admitted (call ∷ calls) s =
      let r = guarded call s in
      let (count, last) = admitted calls (state_of r).redis in
      ((if admits r then suc count else count), last)

  -- The times of the requests that pass, the last first, and then those of `log`.
  unfoldable pub passed : List ℕ → List (ℕ × String) → S → List ℕ
  passed log [] s = log
  passed log (call ∷ calls) s =
      let r = guarded call s in
      passed (if admits r then call.0 ∷ log else log) calls (state_of r).redis

  -- A reply decides.
  pub guarded-reply :
      (call : ℕ × String) (s s' : S) (result : RateLimitResult)
      → consume (serve call.0) call.1 (key_of request config) config s ≡ ok result s'
      → (admits (guarded call s) ≡ result.allowed) × ((state_of (guarded call s)).redis ≡ s')
  unfolding can_activate settle
  guarded-reply call s s' result e =
      let context : Context S = record { redis = s; headers = [] } in
      subst
        (λ r.
          (admits (settle config context r) ≡ result.allowed)
          × ((state_of (settle config context r)).redis ≡ s'))
        (sym e) (decide_result-admits config result (record { redis = s'; headers = [] }))
