-- ===== src/RateLimit/Availability.antt =====
-- When the guard lets a request through, and with which exception it refuses one.
use nest_shortlink_platform.Common.{
  ℕ, zero, suc, ◌+◌, ◌*◌, ◌/◌, ◌≤◌, ◌<◌, List, [], ◌∷◌, String, ◌++◌, Option, none, some, Bool,
  true, false, ◌≡◌, ◌≢◌, refl, arith, Bool-cases, ap, inl, inr, ◌⊎◌,
}
use nest_shortlink_platform.Common.Int.{ℤ, pos, negsuc}
use nest_shortlink_platform.Common.Effects.{Outcome, ok, threw}
use nest_shortlink_platform.Http.{service_unavailable, too_many_requests}
use nest_shortlink_platform.RateLimit.{
  RateLimitConfig, RateLimitResult, RateLimitRequest, Evaluate, Failure, http, consume,
  failure_mode_of, is_closed, closed, open_, RateLimitFailureMode, fixed, sliding, bucket,
}
use nest_shortlink_platform.RateLimit.Guard.{
  Context, can_activate, key_of, at_least_zero, limit_of, retry_header, set_headers, unavailable,
  decide_result, settle,
}

is_closed-closed : (mode : Option RateLimitFailureMode) → is_closed mode ≡ true → mode ≡ some closed
unfolding is_closed
is_closed-closed none h = ground (arith, h)
is_closed-closed (some open_) h = ground (arith, h)
is_closed-closed (some closed) h = refl

is_closed-other : (mode : Option RateLimitFailureMode) → is_closed mode ≡ false → mode ≢ some closed
unfolding is_closed
is_closed-other mode h e = let k : is_closed mode ≡ true = ap is_closed e in ground (arith, h, k)

-- The limit that a configuration promises.
abbrev pub promised : RateLimitConfig → ℕ
promised (fixed config) = config.limit
promised (sliding config) = config.limit
promised (bucket config) = config.capacity

-- What `Remaining` tells: as many as are left, and no fewer than 0.
abbrev pub Remains : ℤ → ℕ → Type 0
Remains (pos n) value = value ≡ n
Remains (negsuc n) value = value ≡ 0

-- What `Retry-After` tells: the least number of whole seconds that is not below the milliseconds;
-- it is not set if there is nothing to wait for.
abbrev pub RetryAfter : ℤ → List (String × ℕ) → Type 0
RetryAfter (pos zero) headers = headers ≡ []
RetryAfter (pos (suc n)) headers =
    (seconds : ℕ) × (headers ≡ ("Retry-After", seconds) ∷ [])
    × (suc n ≤ seconds * 1000)
    × (seconds * 1000 < suc n + 1000)
RetryAfter (negsuc n) headers = headers ≡ []

-- What a result tells the client.
abbrev pub Tells : RateLimitConfig → RateLimitResult → List (String × ℕ) → Type 0
Tells config result headers =
    (remaining : ℕ) × (retry : List (String × ℕ)) × (headers
      ≡ ("X-RateLimit-Remaining", remaining) ∷ ("X-RateLimit-Limit", promised config) ∷ retry)
    × Remains result.remaining remaining
    × RetryAfter result.retry_after_ms retry

at_least_zero-Remains : (n : ℤ) → Remains n (at_least_zero n)
unfolding at_least_zero
at_least_zero-Remains (pos n) = refl
at_least_zero-Remains (negsuc n) = refl

limit_of-promised : (config : RateLimitConfig) → limit_of config ≡ promised config
unfolding limit_of
limit_of-promised (fixed config) = refl
limit_of-promised (sliding config) = refl
limit_of-promised (bucket config) = refl

retry_header-RetryAfter : (n : ℤ) → RetryAfter n (retry_header n)
unfolding retry_header
retry_header-RetryAfter (pos zero) = refl
retry_header-RetryAfter (pos (suc n)) = ((suc n + 999) / 1000, refl, omega arith, omega arith)
retry_header-RetryAfter (negsuc n) = refl

set_headers-Tells :
    (config : RateLimitConfig) (result : RateLimitResult)
    → Tells config result (set_headers config result)
unfolding set_headers
set_headers-Tells config result = (
  at_least_zero result.remaining,
  retry_header result.retry_after_ms,
  ap
      (λ limit.
        ("X-RateLimit-Remaining", at_least_zero result.remaining)
        ∷ ("X-RateLimit-Limit", limit)
        ∷ retry_header result.retry_after_ms)
      (limit_of-promised config),
  at_least_zero-Remains result.remaining,
  retry_header-RetryAfter result.retry_after_ms,
)

module _ {S : Type 0} (eval : Evaluate S) (random_uuid : String) (config : RateLimitConfig)
    (request : RateLimitRequest) (context : Context S) where
  abbrev consumed : Outcome Failure S RateLimitResult
  consumed = consume eval random_uuid (key_of request config) config context.redis

  -- Redis does not answer, or not with a result; it is left in this state.
  abbrev pub Unanswered : S → Type 0
  Unanswered s = (e : Failure) × (consumed ≡ threw e s)

  -- Redis answers with a result, and the response's headers tell it.
  abbrev pub Answered : Bool → Context S → Type 0
  Answered allowed after =
      (result : RateLimitResult) × (consumed ≡ ok result after.redis)
      × (result.allowed ≡ allowed)
      × ((told : List (String × ℕ)) × (after.headers ≡ context.headers ++ told)
          × Tells config result told)

  -- What the end of the guard tells.
  abbrev pub Justified : Outcome Failure (Context S) Bool → Type 0
  Justified (ok passes after) =
      (passes ≡ true)
      × (Answered true after
          ⊎ (Unanswered after.redis
              × (failure_mode_of config ≢ some closed)
              × (after.headers ≡ context.headers)))
  Justified (threw e after) =
      ((e ≡ http (too_many_requests "Rate limit exceeded")) × Answered false after)
      ⊎ ((e ≡ http (service_unavailable "Rate limit service unavailable"))
          × Unanswered after.redis
          × (failure_mode_of config ≡ some closed)
          × (after.headers ≡ context.headers))

  decided :
      (result : RateLimitResult) (s : S)
      → consumed ≡ ok result s
      → Justified (decide_result config result (record context { redis = s }))
  unfolding decide_result
  decided result s h =
      let told : (told : List (String × ℕ)) × (context.headers ++ set_headers config result
            ≡ context.headers ++ told)
          × Tells config result told =
        (set_headers config result, refl, set_headers-Tells config result) in
      elim (Bool-cases result.allowed) [
        | inl passes ↦ rw passes (refl, inl (result, h, passes, told))
        | inr fails ↦ rw fails (inl (refl, (result, h, fails, told)))
      ]

  settle-Justified :
      (r : Outcome Failure S RateLimitResult) → consumed ≡ r → Justified (settle config context r)
  unfolding settle unavailable
  settle-Justified (ok result s) h = decided result s h
  settle-Justified (threw e s) h = elim (Bool-cases (is_closed (failure_mode_of config))) [
    | inl closes ↦ rw closes (inr (refl, (e, h), is_closed-closed _ closes, refl))
    | inr opens ↦ rw opens (refl, inr ((e, h), is_closed-other _ opens, refl))
  ]

  -- On a route that has a limit, with the limits on: the guard lets a request through only if Redis
  -- answered with a result that allows it, or gave no result and the route's failure mode is not
  -- `closed`. It refuses one only if Redis answered with a result that does not allow it, with 429,
  -- or gave no result and the mode is `closed`, with 503. Where there is a result, the headers that
  -- are added tell the number of requests that remain, the route's limit, and, where the client has
  -- to wait, the wait in seconds, rounded up; where there is none, they are left as they were.
  pub can_activate-Justified :
      Justified (can_activate eval none (some config) random_uuid request context)
  unfolding can_activate
  can_activate-Justified = settle-Justified consumed refl
