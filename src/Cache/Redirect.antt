-- ===== src/Cache/Redirect.antt =====
-- src/cache/redirect-cache.service.ts: snapshots of links behind the circuit breaker.
use Prim.Native.String.{◌++◌ as str_append}
use mathlib.Core.Option
use nest_shortlink_platform.Common.{ℕ, String, ◌∷◌, Option, none, some, true, false, if◌then◌else◌}
use nest_shortlink_platform.Common.Effects.{ok, threw, Eff, pure, throw, ◌>>=◌, ◌>>◌, catch}
use nest_shortlink_platform.Circuit as Circuit
use nest_shortlink_platform.Circuit.{CacheCircuitPermit, normal, probe, bypass}
use nest_shortlink_platform.Cache.{Request, Outside, CacheEnv, lift}
use nest_shortlink_platform.Cache.Cluster.{cluster_ping}
use nest_shortlink_platform.Cache.Resolve as Resolve
use nest_shortlink_platform.Cache.Resolve.{
  CacheLayer, l1, l2, db, negative, bloom_negative, CacheResolveResult,
}

pub data LinkStatus : Type 0 where
  active disabled : LinkStatus

pub data Visibility : Type 0 where
  public workspace private password : Visibility

-- The source's type has a third value, which nothing assigns.
pub data CacheType : Type 0 where
  hit miss : CacheType

-- `expires_at` in milliseconds; `cache_type` is the optional field `cacheType`.
pub record RedirectSnapshot : Type 0 where
  pub id : String
  pub code : String
  pub workspace_id : String
  pub created_by_id : String
  pub original_url : String
  pub status : LinkStatus
  pub visibility : Visibility
  pub access_version : ℕ
  pub expires_at : Option ℕ
  pub max_visits : Option ℕ
  pub visit_count : ℕ
  pub cache_type : Option CacheType

-- `JSON.stringify` and `JSON.parse`, which throws a syntax error.
pub record Json (E : Type 0) : Type 0 where
  pub stringify : RedirectSnapshot → String
  pub parse : String → Option RedirectSnapshot
  pub syntax_error : E

abbrev pub layer_label : CacheLayer → String
layer_label l1 = "l1"
layer_label l2 = "l2"
layer_label db = "db"
layer_label negative = "negative"
layer_label bloom_negative = "bloom-negative"

-- `cached.layer === 'db' ? 'miss' : 'hit'`.
abbrev pub layer_type : CacheLayer → CacheType
layer_type db = miss
layer_type _ = hit

abbrev pub with_type : CacheType → RedirectSnapshot → RedirectSnapshot
with_type kind snapshot = record snapshot { cache_type = some kind }

unfoldable pub visit_key : String → String
visit_key link_id = str_append "stats:link:" (str_append link_id ":visits")

module _ {E R : Type 0} (o : Outside E R) (json : Json E) (env : CacheEnv) where
  abbrev pub on_breaker : (Circuit.Breaker → Circuit.Breaker) → Eff E (Request R) (Unit {0})
  on_breaker f q = ok tt (record q { shared = record q.shared { breaker = f q.shared.breaker } })

  abbrev pub count_result : String → Eff E (Request R) (Unit {0})
  count_result label q = ok tt (record q {
    shared = record q.shared { redirect_cache_total = label ∷ q.shared.redirect_cache_total };
  })

  unfoldable pub acquire_permit : Eff E (Request R) CacheCircuitPermit
  acquire_permit q =
      let (breaker, permit) = Circuit.acquire env.circuit (o.now q.shared) q.shared.breaker in
      ok permit (record q { shared = record q.shared { breaker = breaker } })

  -- The loader handed to `resolve`: it notes its own failure.
  unfoldable pub watched :
      Eff E (Request R) (Option RedirectSnapshot) → Eff E (Request R) (Option String)
  watched loader q = elim (loader q) [
    | ok loaded t ↦ ok (Option.map json.stringify loaded) t
    | threw e t ↦ threw e (record t { database_loader_failed = true })
  ]

  unfoldable pub load_from_database :
      Eff E (Request R) (Option RedirectSnapshot) → Eff E (Request R) (Option RedirectSnapshot)
  load_from_database loader = do
    loaded ← loader
    elim loaded [ none ↦ pure none | some snapshot ↦ pure (some (with_type miss snapshot)) ]

  unfoldable pub parsed :
      CacheLayer → Option RedirectSnapshot → Eff E (Request R) (Option RedirectSnapshot)
  parsed layer none = throw json.syntax_error
  parsed layer (some snapshot) = pure (some (with_type (layer_type layer) snapshot))

  unfoldable pub present : CacheResolveResult → Eff E (Request R) (Option RedirectSnapshot)
  unfolding parsed
  present cached = elim cached.value [
    | none ↦ pure none
    | some text ↦ parsed cached.layer (json.parse text)
  ]

  unfoldable pub ping_if : CacheCircuitPermit → Eff E (Request R) (Unit {0})
  ping_if probe = lift (cluster_ping o)
  ping_if _ = pure tt

  -- The `try` block.
  unfoldable pub through_cache :
      CacheCircuitPermit
      → String
      → Eff E (Request R) (Option RedirectSnapshot)
      → Eff E (Request R) (Option RedirectSnapshot)
  through_cache permit code loader = do
    ping_if permit
    cached ← Resolve.resolve o env code (watched loader)
    on_breaker (Circuit.record_success env.circuit)
    count_result (layer_label cached.layer)
    present cached

  -- The `catch` block.
  unfoldable pub fall_back :
      Eff E (Request R) (Option RedirectSnapshot) → E → Eff E (Request R) (Option RedirectSnapshot)
  fall_back loader e q =
      if q.database_loader_failed
      then threw e q
      else (do
        on_breaker (Circuit.record_failure env.circuit (o.now q.shared))
        count_result "redis-error"
        load_from_database loader)
          q

  -- After the permit is known.
  unfoldable pub with_permit :
      String
      → Eff E (Request R) (Option RedirectSnapshot)
      → CacheCircuitPermit
      → Eff E (Request R) (Option RedirectSnapshot)
  with_permit code loader bypass q = (do count_result "circuit-open"; load_from_database loader) q
  with_permit code loader permit q =
      catch (through_cache permit code loader) (fall_back loader)
        (record q { database_loader_failed = false })

  unfoldable pub get_or_load :
      String
      → Eff E (Request R) (Option RedirectSnapshot)
      → Eff E (Request R) (Option RedirectSnapshot)
  get_or_load code loader = do permit ← acquire_permit; with_permit code loader permit

  -- A failure is logged only.
  unfoldable pub invalidate : String → Eff E (Request R) (Unit {0})
  invalidate code = catch (Resolve.invalidate o env code) (λ e. pure tt)

  unfoldable pub delete_stats : String → Eff E (Request R) (Unit {0})
  unfolding visit_key
  delete_stats link_id = catch (lift (o.stats_del (visit_key link_id))) (λ e. pure tt)

  unfoldable pub increment_visit : String → ℕ → Eff E (Request R) (Option ℕ)
  unfolding visit_key
  increment_visit link_id database_baseline =
      catch
        (do visits ← lift (o.stats_eval (visit_key link_id) database_baseline); pure (some visits))
        (λ e. pure none)
