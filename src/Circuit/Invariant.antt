-- ===== src/Circuit/Invariant.antt =====
-- What holds of the breaker after any history.
use nest_shortlink_platform.Common.{ℕ, ◌<◌, ◌≡◌, Bool, refl, List, [], ◌∷◌, true, false, arith}
use nest_shortlink_platform.Circuit.{
  CacheCircuitState, closed, opened, half_open, Env, Breaker, Metrics, Event, acquires, succeeds,
  fails, new_breaker, acquire, record_success, record_failure, failure_threshold,
  positive_integer_from_env, step, run,
}

pub failure_threshold_pos : (env : Env) → 0 < failure_threshold env
unfolding failure_threshold positive_integer_from_env
failure_threshold_pos env = ground arith

-- Exactly the gauge of the state is at 1.
abbrev pub ShowsState : CacheCircuitState → Metrics → Type 0
ShowsState closed m = (m.closed_gauge ≡ 1) × (m.opened_gauge ≡ 0) × (m.half_open_gauge ≡ 0)
ShowsState opened m = (m.closed_gauge ≡ 0) × (m.opened_gauge ≡ 1) × (m.half_open_gauge ≡ 0)
ShowsState half_open m = (m.closed_gauge ≡ 0) × (m.opened_gauge ≡ 0) × (m.half_open_gauge ≡ 1)

-- The edges of the circuit's diagram. `opened` to `closed` is a request that began before the
-- circuit opened and succeeds after.
pub data IsEdge : CacheCircuitState → CacheCircuitState → Type 0 where
  trip : IsEdge closed opened
  try_again : IsEdge opened half_open
  recover : IsEdge half_open closed
  relapse : IsEdge half_open opened
  late_success : IsEdge opened closed

-- The transitions counted, latest first, lead along edges from `closed` to the state.
abbrev pub LeadsTo : CacheCircuitState → List (CacheCircuitState × CacheCircuitState) → Type 0
LeadsTo s [] = s ≡ closed
LeadsTo s ((from, to) ∷ earlier) = (s ≡ to) × IsEdge from to × LeadsTo from earlier

pub record IsValid (env : Env) (b : Breaker) : Type 0 where
  pub shows : ShowsState b.state b.metrics
  pub path : LeadsTo b.state b.metrics.transitions
  pub probing : b.probe_in_flight ≡ true → b.state ≡ half_open
  pub below : b.state ≡ closed → b.failure_count < failure_threshold env

pub new_breaker-IsValid : (env : Env) → IsValid env new_breaker
unfolding new_breaker
new_breaker-IsValid env = record {
  shows = omega arith;
  path = refl;
  probing = λ h. cc;
  below = λ h. failure_threshold_pos env;
}

-- The breaker by its fields, so that proofs can go by cases on the state.
abbrev with_state : CacheCircuitState → ℕ → ℕ → Bool → Metrics → Breaker
with_state s count at flying m = record {
  state = s;
  failure_count = count;
  opened_at = at;
  probe_in_flight = flying;
  metrics = m;
}

module _ (env : Env) (now count at : ℕ) (m : Metrics) where
  acquire-IsValid :
      (s : CacheCircuitState) (flying : Bool)
      → IsValid env (with_state s count at flying m)
      → IsValid env (acquire env now (with_state s count at flying m)).0
  unfolding acquire
  acquire-IsValid closed false v = ground arith
  acquire-IsValid closed true v = ground arith
  acquire-IsValid half_open false v = ground arith
  acquire-IsValid half_open true v = ground arith
  acquire-IsValid opened true v = ground arith
  acquire-IsValid opened false v = grind (arith, trip, try_again, recover, relapse, late_success)

  record_success-IsValid :
      (s : CacheCircuitState) (flying : Bool)
      → IsValid env (with_state s count at flying m)
      → IsValid env (record_success env (with_state s count at flying m))
  unfolding record_success
  record_success-IsValid closed flying v = ground (arith, failure_threshold_pos env)
  record_success-IsValid _ flying v =
      ground (arith, failure_threshold_pos env, recover, late_success)

  record_failure-IsValid :
      (s : CacheCircuitState) (flying : Bool)
      → IsValid env (with_state s count at flying m)
      → IsValid env (record_failure env now (with_state s count at flying m))
  unfolding record_failure
  record_failure-IsValid closed flying v = ground (arith, trip)
  record_failure-IsValid _ flying v = ground (arith, relapse)

step-IsValid :
    (env : Env) (b : Breaker) (e : ℕ × Event) → IsValid env b → IsValid env (step env b e)
unfolding step
step-IsValid env b (now, acquires) v =
    acquire-IsValid env now b.failure_count b.opened_at b.metrics b.state b.probe_in_flight v
step-IsValid env b (now, succeeds) v =
    record_success-IsValid env now b.failure_count b.opened_at b.metrics b.state b.probe_in_flight v
step-IsValid env b (now, fails) v =
    record_failure-IsValid env now b.failure_count b.opened_at b.metrics b.state b.probe_in_flight v

run_lem :
    (env : Env) (b : Breaker) (es : List (ℕ × Event)) → IsValid env b → IsValid env (run env b es)
unfolding run
run_lem env b [] v = v
run_lem env b (e ∷ es) v = run_lem env (step env b e) es (step-IsValid env b e v)

-- After any history of a new breaker, in whatever order and at whatever times its callers acquire
-- permits and report: exactly the gauge of the current state is 1, the counted transitions lead
-- along the five edges of the diagram from `closed` to the current state, a probe is in flight in
-- the half-open state only, and a closed circuit has seen fewer failures than the threshold.
pub run-IsValid : (env : Env) (es : List (ℕ × Event)) → IsValid env (run env new_breaker es)
run-IsValid env es = run_lem env new_breaker es (new_breaker-IsValid env)
