-- ===== src/Cache/Resolve.antt =====
-- src/cache/short-link-resolve-cache.service.ts: the local cache, the Bloom filter, Redis under a
-- lock, and the database.
use Prim.Native.String.{◌++◌ as str_append}
use nest_shortlink_platform.Common.{
  ℕ, zero, suc, ◌+◌, String, Option, none, some, ◌==◌, string_eq, if◌then◌else◌,
}
use nest_shortlink_platform.Common.Effects.{ok, threw, Eff, pure, ◌>>=◌, ◌>>◌, state_of}
use nest_shortlink_platform.HotCache as Hot
use nest_shortlink_platform.Cache.{Request, Outside, CacheEnv, lift}
use nest_shortlink_platform.Cache.Cluster.{
  cluster_get, cluster_set, cluster_delete, acquire_lock, release_lock,
}
use nest_shortlink_platform.Cache.Bloom.{might_contain}

abbrev pub null_value : String
null_value = "__NULL__"

pub data CacheLayer : Type 0 where
  l1 l2 db negative bloom_negative : CacheLayer

pub record CacheResolveResult : Type 0 where
  pub value : Option String
  pub layer : CacheLayer

abbrev pub result : Option String → CacheLayer → CacheResolveResult
result value layer = record { value = value; layer = layer }

unfoldable pub cache_key : String → String
cache_key code = str_append "cache:short-link:{" (str_append code "}")

unfoldable pub lock_key : String → String
lock_key code = str_append "lock:short-link:{" (str_append code "}")

-- `cached === NULL_VALUE ? null : cached`, and the layer that goes with it.
unfoldable pub from_cached : String → Option String
from_cached cached = if cached == null_value then none else some cached

unfoldable pub cached_layer : Option String → CacheLayer
cached_layer none = negative
cached_layer (some value) = l2

module _ {E R : Type 0} (o : Outside E R) (env : CacheEnv) where
  unfoldable pub set_local : String → Option String → Eff E (Request R) (Unit {0})
  set_local key value q =
      if env.l1_enabled
      then ok tt (record q {
        shared = record q.shared { hot = Hot.set key value 2000 (o.now q.shared) q.shared.hot };
      })
      else ok tt q

  unfoldable pub get_local : String → Eff E (Request R) (Option (Option String))
  get_local key q =
      if env.l1_enabled
      then (let (local, hot) = Hot.get key (o.now q.shared) q.shared.hot in
          ok local (record q { shared = record q.shared { hot = hot } }))
      else ok none q

  -- A cached value is kept locally too.
  unfoldable pub use_cached : String → String → Eff E (Request R) CacheResolveResult
  unfolding from_cached cached_layer
  use_cached key cached = do
    set_local key (from_cached cached)
    pure (result (from_cached cached) (cached_layer (from_cached cached)))

  -- Steps 5 and 6: the database, and what is kept of its answer.
  unfoldable pub keep_loaded : String → Option String → Eff E (Request R) CacheResolveResult
  keep_loaded key none = do
    lift (cluster_set o key null_value (some 30))
    set_local key none
    pure (result none db)
  keep_loaded key (some value) = do
    jitter ← lift (o.random_below 60)
    lift (cluster_set o key value (some (300 + jitter)))
    set_local key (some value)
    pure (result (some value) db)

  -- The `try` block, under the lock.
  unfoldable pub rebuild :
      String → Eff E (Request R) (Option String) → Eff E (Request R) CacheResolveResult
  unfolding from_cached cached_layer
  rebuild key loader = do
    cached_again ← lift (cluster_get o key)
    elim cached_again [
      | some cached ↦ pure (result (from_cached cached) (cached_layer (from_cached cached)))
      | none ↦ (do value ← loader; keep_loaded key value)
    ]

  -- The `finally` block: the lock is released after a result and after an exception, and an
  -- exception of the release itself is swallowed.
  unfoldable pub releasing :
      String → String → Eff E (Request R) CacheResolveResult → Eff E (Request R) CacheResolveResult
  releasing key token m q = elim (m q) [
    | ok a t ↦ ok a (state_of (lift (release_lock o key token) t))
    | threw e t ↦ threw e (state_of (lift (release_lock o key token) t))
  ]

  -- `waitForCache`, with the rounds left.
  unfoldable pub poll :
      ℕ → String → Eff E (Request R) (Option String) → Eff E (Request R) CacheResolveResult
  poll zero key loader = do value ← loader; pure (result value db)
  poll (suc rounds) key loader = do
    jitter ← lift (o.random_below 20)
    lift (o.sleep (40 + jitter))
    cached ← lift (cluster_get o key)
    elim cached [ some text ↦ use_cached key text | none ↦ poll rounds key loader ]

  unfoldable pub wait_for_cache :
      String → Eff E (Request R) (Option String) → Eff E (Request R) CacheResolveResult
  wait_for_cache key loader = poll 40 key loader

  -- Steps 4 to 6.
  unfoldable pub lock_and_rebuild :
      String → Eff E (Request R) (Option String) → Eff E (Request R) CacheResolveResult
  lock_and_rebuild code loader = do
    token ← lift o.random_uuid
    locked ← lift (acquire_lock o (lock_key code) token 5000)
    if locked
        then releasing (lock_key code) token (rebuild (cache_key code) loader)
        else wait_for_cache (cache_key code) loader

  -- Steps 3 to 6.
  unfoldable pub ask_redis :
      String → Eff E (Request R) (Option String) → Eff E (Request R) CacheResolveResult
  ask_redis code loader = do
    cached ← lift (cluster_get o (cache_key code))
    elim cached [
      | some text ↦ use_cached (cache_key code) text
      | none ↦ lock_and_rebuild code loader
    ]

  -- Steps 2 to 6.
  unfoldable pub ask_bloom :
      String → Eff E (Request R) (Option String) → Eff E (Request R) CacheResolveResult
  ask_bloom code loader = do
    might_exist ← lift (might_contain o env code)
    if might_exist then ask_redis code loader else pure (result none bloom_negative)

  unfoldable pub resolve :
      String → Eff E (Request R) (Option String) → Eff E (Request R) CacheResolveResult
  resolve code loader = do
    local ← get_local (cache_key code)
    elim local [ some value ↦ pure (result value l1) | none ↦ ask_bloom code loader ]

  unfoldable pub invalidate : String → Eff E (Request R) (Unit {0})
  invalidate code q =
      lift (cluster_delete o (cache_key code))
        (record q { shared = record q.shared { hot = Hot.delete (cache_key code) q.shared.hot } })
