-- ===== src/RateLimit/Tests.antt =====
-- The limits of the routes on a Redis that holds one key.
use nest_shortlink_platform.Common.{
  ℕ, ◌+◌, ◌-◌, ◌*◌, ◌≤◌, ◌<◌, min, ◌≡◌, refl, String, List, [], ◌∷◌, length, ltb, leb, ◌&&◌, ◌+◌,
  none, some, string_eq, arith,
}
use nest_shortlink_platform.Common.Effects.{throw}
use nest_shortlink_platform.RateLimit.{
  RateLimitRequest, FixedWindowConfig, SlidingWindowConfig, TokenBucketConfig, fixed, sliding,
  bucket, ip, workspace, code, closed, open_, Evaluate, error,
}
use nest_shortlink_platform.RateLimit.Serve.{serve}
use nest_shortlink_platform.RateLimit.Guard.{admitted, passed, can_activate}
use nest_shortlink_platform.RateLimit.FixedWindow as FixedWindow
use nest_shortlink_platform.RateLimit.SlidingWindow.{count}
use nest_shortlink_platform.RateLimit.SlidingWindow.Bound.{passed-Bounded}
use nest_shortlink_platform.RateLimit.TokenBucket as TokenBucket
use nest_shortlink_platform.RateLimit.Availability.{Justified, can_activate-Justified}
use nest_shortlink_platform.RateLimit.Sample.{Store, seen, redis, counter_laws, set_laws, hash_laws}

abbrev request : RateLimitRequest
request = record { ip = some "::1"; user_sub = none; workspace_id = some "w"; code = some "abc123" }

abbrev store : Store
store = record { counter = none; entries = []; fields = none }

-- src/short-links/short-links.controller.ts.
abbrev create_link : FixedWindowConfig
create_link = record {
  prefix = "create-link";
  key_type = workspace;
  limit = 30;
  window_seconds = 60;
  failure_mode = none;
}

-- src/auth/auth.controller.ts.
abbrev login_ip : SlidingWindowConfig
login_ip = record {
  prefix = "login-ip";
  key_type = ip;
  limit = 10;
  window_seconds = 60;
  failure_mode = some closed;
}

-- src/redirects/redirects.controller.ts.
abbrev redirect : TokenBucketConfig
redirect = record {
  prefix = "redirect";
  key_type = code;
  capacity = 5;
  refill_per_second = 1;
  failure_mode = some open_;
}

abbrev calls : List (ℕ × String)
calls = (2000000, "b") ∷ (3000000, "c") ∷ []

admitted-min_example :
    ((admitted (serve redis) (fixed create_link) request ((1000000, "a") ∷ calls) store).0
      ≡ min (length ((1000000, "a") ∷ calls)) create_link.limit)
    × ((later : ℕ)
        → 61000 < later
        → seen later
            (admitted
              (serve redis)
              (fixed create_link)
              request
              ((1000000, "a") ∷ calls)
              store).1.counter
          ≡ none)
admitted-min_example =
    FixedWindow.admitted-min redis counter_laws create_link request (1000000, "a") calls store
      (omega arith) refl (omega arith, omega arith, (omega arith, omega arith, tt))

passed-Bounded_example :
    count
      (λ t. ltb 2500000 t && leb t (2500000 + 60000000))
      (passed (serve redis) (sliding login_ip) request [] calls store)
    ≤ login_ip.limit
passed-Bounded_example =
    passed-Bounded redis set_laws login_ip request 0 calls store (omega arith)
      (omega arith, (refl, tt), (omega arith, tt, tt)) (λ t k. refl) 2500000

admitted-tokens_example :
    1000 * (admitted (serve redis) (bucket redirect) request calls store).0
    ≤ redirect.capacity * 1000 + (4000 - 2000) * redirect.refill_per_second
admitted-tokens_example =
    TokenBucket.admitted-tokens redis hash_laws redirect request calls store 2000 4000 (omega arith)
      (omega arith, (omega arith, omega arith))

-- Redis is down.
abbrev down : Evaluate Store
down script key = throw (error "ECONNREFUSED")

can_activate-Justified_example :
    Justified down "a"
      (sliding login_ip)
      request
      (record { redis = store; headers = [] })
      (can_activate down none
        (some (sliding login_ip))
        "a"
        request
        (record { redis = store; headers = [] }))
can_activate-Justified_example =
    can_activate-Justified down "a" (sliding login_ip) request
      (record { redis = store; headers = [] })
