-- ===== src/Cache.antt =====
-- What the cache services of src/cache share: the state of the process, and the services outside it
-- (Redis Cluster, the clock, randomness), which are the parameter `Outside`.
pub mod Cluster
pub mod Bloom
pub mod Resolve
pub mod Bootstrap
pub mod Redirect
pub mod Coherence
pub mod Availability
pub mod Waiting
pub mod LostProbe
pub mod Sample
mod Tests
use nest_shortlink_platform.Common.{ℕ, String, List, Option, Bool}
use nest_shortlink_platform.Common.Int.{ℤ}
use nest_shortlink_platform.Common.Effects.{Outcome, ok, threw, Eff}
use nest_shortlink_platform.HotCache.{HotCache}
use nest_shortlink_platform.Circuit.{Env, Breaker}

-- The environment variables that the services read.
pub record CacheEnv : Type 0 where
  pub circuit : Env
  pub l1_enabled : Bool
  pub bloom_enabled : Bool

-- The fields of the services of one process, and `outside`, all that is not the process. Labels of
-- the counter `redirectCacheTotal` and `redirectTotal` are kept latest first.
pub record Shared (R : Type 0) : Type 0 where
  pub hot : HotCache (Option String)
  pub bloom_ready : Bool
  pub breaker : Breaker
  pub redirect_cache_total : List String
  pub redirect_total : List String
  pub outside : R

-- A request: the shared state, and the variable `databaseLoaderFailed` of its own.
pub record Request (R : Type 0) : Type 0 where
  pub shared : Shared R
  pub database_loader_failed : Bool

-- The clients of src/redis, `Date.now`, `Math.random`, `randomUUID` and `setTimeout`. A call may
-- throw, and may change anything that the processes share: other requests run while it is awaited.
pub record Outside (E R : Type 0) : Type 0 where
  -- GET key
  pub get : String → Eff E (Shared R) (Option String)
  -- SET key value, and SET key value EX seconds
  pub set : String → String → Eff E (Shared R) (Unit {0})
  pub set_ex : String → String → ℕ → Eff E (Shared R) (Unit {0})
  -- SET key value PX milliseconds NX, with the reply, if there is one
  pub set_px_nx : String → String → ℕ → Eff E (Shared R) (Option String)
  -- DEL key
  pub del : String → Eff E (Shared R) (Unit {0})
  pub ping : Eff E (Shared R) (Unit {0})
  -- EVAL of the script that deletes the key if it holds the token
  pub eval_unlock : String → String → Eff E (Shared R) (Unit {0})
  -- EVAL of SAFE_EXISTS_SCRIPT
  pub eval_safe_exists : String → String → Eff E (Shared R) ℤ
  -- BF.ADD, BF.MADD, EXISTS, BF.RESERVE, and the wait for the cluster's handshake
  pub bf_add : String → String → Eff E (Shared R) (Unit {0})
  pub bf_madd : String → List String → Eff E (Shared R) (Unit {0})
  pub exists : String → Eff E (Shared R) ℕ
  pub bf_reserve : String → Eff E (Shared R) (Unit {0})
  pub wait_until_ready : Eff E (Shared R) (Unit {0})
  -- DEL key, and EVAL of the script that counts a visit from a baseline, at the Redis of the
  -- statistics
  pub stats_del : String → Eff E (Shared R) (Unit {0})
  pub stats_eval : String → ℕ → Eff E (Shared R) ℕ
  -- the first byte of the SHA-1 digest
  pub sha1_byte : String → ℕ
  pub now : Shared R → ℕ
  -- `Math.floor(Math.random() * bound)`
  pub random_below : ℕ → Eff E (Shared R) ℕ
  pub random_uuid : Eff E (Shared R) String
  pub sleep : ℕ → Eff E (Shared R) (Unit {0})

-- A call on the shared state, made by a request.
abbrev pub lift : {E R A : Type 0} → Eff E (Shared R) A → Eff E (Request R) A
lift m q = elim (m q.shared) [
  | ok a t ↦ ok a (record q { shared = t })
  | threw e t ↦ threw e (record q { shared = t })
]
