-- ===== src/Cache/Cluster.antt =====
-- src/redis/redis-cluster.service.ts: the commands as the services call them.
use nest_shortlink_platform.Common.{
  ℕ, String, Option, none, some, Bool, false, ◌==◌, string_eq, nat_eq, if◌then◌else◌,
}
use nest_shortlink_platform.Common.Effects.{Eff, pure, ◌>>=◌}
use nest_shortlink_platform.Cache.{Shared, Outside}

module _ {E R : Type 0} (o : Outside E R) where
  unfoldable pub cluster_get : String → Eff E (Shared R) (Option String)
  cluster_get key = o.get key

  unfoldable pub cluster_ping : Eff E (Shared R) (Unit {0})
  cluster_ping = o.ping

  -- A time to live of 0 counts as none.
  unfoldable pub cluster_set : String → String → Option ℕ → Eff E (Shared R) (Unit {0})
  cluster_set key value none = o.set key value
  cluster_set key value (some ttl_seconds) =
      if ttl_seconds == 0 then o.set key value else o.set_ex key value ttl_seconds

  unfoldable pub cluster_delete : String → Eff E (Shared R) (Unit {0})
  cluster_delete key = o.del key

  unfoldable pub is_ok : Option String → Bool
  is_ok none = false
  is_ok (some reply) = reply == "OK"

  unfoldable pub acquire_lock : String → String → ℕ → Eff E (Shared R) Bool
  unfolding is_ok
  acquire_lock key token ttl_ms = do result ← o.set_px_nx key token ttl_ms; pure (is_ok result)

  unfoldable pub release_lock : String → String → Eff E (Shared R) (Unit {0})
  release_lock key token = o.eval_unlock key token
