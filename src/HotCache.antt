-- ===== src/HotCache.antt =====
-- src/cache/hot-cache.service.ts: the process-local cache, a map from keys to items that expire.
-- The `Map` is an association list that holds a key at most once; `now` is `Date.now()`.
pub mod Laws
pub mod Map
mod Tests
use nest_shortlink_platform.Common.{
  ℕ, ◌+◌, String, List, [], ◌∷◌, Option, none, some, Bool, ◌==◌, string_eq, leb, if◌then◌else◌,
}

pub record CacheItem (V : Type 0) : Type 0 where
  pub value : V
  pub expire_at : ℕ

abbrev pub HotCache : Type 0 → Type 0
HotCache V = List (String × CacheItem V)

module _ {V : Type 0} where
  -- `Map.get`, `Map.delete` and `Map.set`.
  unfoldable pub lookup : String → HotCache V → Option (CacheItem V)
  lookup key [] = none
  lookup key ((k, item) ∷ rest) = if k == key then some item else lookup key rest

  unfoldable pub delete : String → HotCache V → HotCache V
  delete key [] = []
  delete key ((k, item) ∷ rest) = if k == key then delete key rest else (k, item) ∷ delete key rest

  found : String → ℕ → HotCache V → Option (CacheItem V) → Option V × HotCache V
  found key now cache none = (none, cache)
  found key now cache (some item) =
      if leb item.expire_at now then (none, delete key cache) else (some item.value, cache)

  -- `none` is `undefined`.
  unfoldable pub get : String → ℕ → HotCache V → Option V × HotCache V
  unfolding found lookup
  get key now cache = found key now cache (lookup key cache)

  unfoldable pub set : String → V → ℕ → ℕ → HotCache V → HotCache V
  unfolding delete
  set key value ttl_ms now cache =
      (key, record { value = value; expire_at = now + ttl_ms }) ∷ delete key cache
