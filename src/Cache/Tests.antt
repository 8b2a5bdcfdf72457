-- ===== src/Cache/Tests.antt =====
-- The caches with a Redis that holds one text, and the theorems about them at work.
use nest_shortlink_platform.Common.{
  ◌≡◌, refl, String, string_eq, Option, none, some, true, false, [], ◌∷◌,
}
use nest_shortlink_platform.Common.Effects.{threw, Eff, pure, throw, ◌>>◌, state_of}
use nest_shortlink_platform.Common.Ensures.{Ensures, Returns}
use nest_shortlink_platform.Circuit as Circuit
use nest_shortlink_platform.Circuit.{Breaker, half_open, probe, new_breaker}
use nest_shortlink_platform.Circuit.Behaviour.{IsProbing}
use nest_shortlink_platform.Cache.{Request}
use nest_shortlink_platform.Cache.Resolve.{
  resolve, get_local, ask_bloom, ask_redis, lock_and_rebuild, releasing, rebuild,
}
use nest_shortlink_platform.Cache.Redirect.{
  RedirectSnapshot, through_cache, get_or_load, count_result, load_from_database, watched, ping_if,
}
use nest_shortlink_platform.Cache.Cluster.{
  cluster_ping, cluster_get, acquire_lock, release_lock, is_ok,
}
use nest_shortlink_platform.Cache.Bloom.{might_contain, ask_filter, judge}
use nest_shortlink_platform.HotCache as Hot
use nest_shortlink_platform.Cache.Coherence.{Sound}
use nest_shortlink_platform.Cache.Coherence.Resolve.{resolve-Ensures}
use nest_shortlink_platform.Cache.Availability.{Presents, CoherentFor, get_or_load-Presents}
use nest_shortlink_platform.Cache.LostProbe.{acquired, IsProbing-bypasses, Later}
use nest_shortlink_platform.Cache.Sample.{
  one_text, env, link, json, text, Agrees, unmarked, honest, rt, start,
}

resolve-Ensures_example :
    Ensures
      (Sound one_text "abc" text Agrees)
      (λ r. r.value ≡ text)
      (resolve one_text env "abc" (pure text) start)
resolve-Ensures_example =
    resolve-Ensures one_text "abc" text Agrees honest env unmarked (pure text) (λ q h. (refl, h))
      start ((tt, tt), refl)

get_or_load-Presents_example :
    Returns
      (λ t. CoherentFor one_text json env "abc" (some link) Agrees (pure (some link)) t.shared)
      (Presents (some link))
      (get_or_load one_text json env "abc" (pure (some link)) start)
get_or_load-Presents_example =
    get_or_load-Presents one_text json env "abc" (some link) Agrees (pure (some link)) rt honest
      (λ q h. (refl, (h, refl))) start (tt, tt)

IsProbing-bypasses_example :
    (get_or_load one_text json env "abc" (pure none) (acquired one_text json env start)
      ≡ (count_result one_text json env "circuit-open"
            >> load_from_database one_text json env (pure none))
          (acquired one_text json env (acquired one_text json env start)))
    × IsProbing env.circuit
        (acquired one_text json env (acquired one_text json env start)).shared.breaker
unfolding Circuit.acquire
IsProbing-bypasses_example =
    IsProbing-bypasses one_text json env "abc" (pure none) (acquired one_text json env start)
      (refl, refl, refl)

down : Eff String (Request (Option String)) (Option RedirectSnapshot)
down = throw "down"

-- The first request after the cooldown, whose database load fails: the state that it leaves.
lost : Request (Option String)
unfolding through_cache resolve Circuit.acquire ping_if cluster_ping watched get_local ask_bloom
    might_contain ask_redis cluster_get lock_and_rebuild acquire_lock is_ok releasing rebuild down
    Hot.get Hot.lookup release_lock ask_filter judge
lost = state_of (
    through_cache one_text json env probe "abc" down
      (record (acquired one_text json env start) { database_loader_failed = false }))

lost_fails :
    through_cache one_text json env probe "abc" down
      (record (acquired one_text json env start) { database_loader_failed = false })
    ≡ threw "down" lost
unfolding lost
lost_fails = refl

lost_flag : lost.database_loader_failed ≡ true
unfolding lost
lost_flag = refl

abbrev later : Later one_text json env
later = ((λ held. held), "xyz", pure (some link)) ∷ ((λ held. none), "abc", down) ∷ []
