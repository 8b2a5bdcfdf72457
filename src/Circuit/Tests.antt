-- ===== src/Circuit/Tests.antt =====
-- The breaker in concrete histories.
use nest_shortlink_platform.Common.{
  ℕ, ◌≡◌, refl, List, [], ◌∷◌, true, some, none, All, arith, ltb, length, if◌then◌else◌,
}
use nest_shortlink_platform.Common.Int.{pos}
use nest_shortlink_platform.Circuit.{
  closed, opened, probe, bypass, Env, Breaker, Event, acquires, fails, new_breaker,
  failure_threshold, open_duration_ms, positive_integer_from_env, acquire, record_success,
  record_failure, step, run,
}
use nest_shortlink_platform.Circuit.Invariant.{IsValid, run-IsValid}
use nest_shortlink_platform.Circuit.Behaviour.{
  permits, failing, probe_exclusive, cooldown, trips, recovers,
}

-- Two failures open the circuit, for five seconds.
abbrev env : Env
env = record { enabled = true; failure_threshold_var = some (pos 2); open_ms_var = none }

runs : Unit {0}
unfolding run step acquire record_success record_failure new_breaker failure_threshold
    open_duration_ms positive_integer_from_env
runs = tt

abbrev outage : List (ℕ × Event)
outage = (10, fails) ∷ (11, fails) ∷ (12, acquires) ∷ (13, fails) ∷ []

tripped : Breaker
unfolding runs
tripped = run env new_breaker outage

tripped_at : (tripped.state ≡ opened) × (tripped.opened_at ≡ 11)
unfolding tripped
tripped_at = (refl, refl)

probe_given : (acquire env 5011 tripped).1 ≡ probe
unfolding tripped
probe_given = refl

run-IsValid_example : IsValid env (run env new_breaker outage)
run-IsValid_example = run-IsValid env outage

probe_exclusive_example :
    All (λ p. p ≡ bypass) (permits env (acquire env 5011 tripped).0 (5012 ∷ 9999 ∷ []))
probe_exclusive_example = probe_exclusive env 5011 tripped (5012 ∷ 9999 ∷ []) probe_given

cooldown_example :
    ((run env tripped ((20, acquires) ∷ (30, fails) ∷ [])).state ≡ opened)
    × ((run env tripped ((20, acquires) ∷ (30, fails) ∷ [])).opened_at ≡ tripped.opened_at)
    × ((acquire env 5010 (run env tripped ((20, acquires) ∷ (30, fails) ∷ []))).1 ≡ bypass)
unfolding tripped
cooldown_example =
    cooldown env tripped ((20, acquires) ∷ (30, fails) ∷ []) 5010 refl refl
      (((λ e. cc), omega arith), (((λ e. cc), omega arith), tt)) (omega arith)

abbrev two_times : List ℕ
two_times = 3 ∷ 4 ∷ []

trips_example :
    (run env new_breaker (failing two_times)).state
    ≡ (if ltb (length two_times) (failure_threshold env) then closed else opened)
unfolding runs
trips_example = trips env new_breaker two_times refl refl refl

recovers_example :
    ((acquire env 5011 tripped).1 ≡ probe)
    × ((record_success env (acquire env 5011 tripped).0).state ≡ closed)
    × ((record_success env (acquire env 5011 tripped).0).failure_count ≡ 0)
    × ((record_failure env 5020 (acquire env 5011 tripped).0).state ≡ opened)
    × ((record_failure env 5020 (acquire env 5011 tripped).0).opened_at ≡ 5020)
unfolding tripped
recovers_example = recovers env tripped 5011 5020 refl refl refl (omega arith)
