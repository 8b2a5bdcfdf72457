-- ===== src/Circuit.antt =====
-- src/cache/cache-circuit-breaker.service.ts: the circuit breaker in front of the redirect cache.
-- `now` is what `Date.now()` returns in the call; the environment variables are a record.
pub mod Invariant
pub mod Behaviour
mod Tests
use nest_shortlink_platform.Common.{
  ℕ, zero, suc, ◌+◌, ◌-◌, List, [], ◌∷◌, Option, none, some, Bool, true, false, not, ◌||◌, ltb, leb,
  Eq, ◌==◌, if◌then◌else◌, ◌≡◌, ◌↔◌, arith,
}
use nest_shortlink_platform.Common.Int.{ℤ, pos, negsuc}

pub data CacheCircuitState : Type 0 where
  closed opened half_open : CacheCircuitState

pub data CacheCircuitPermit : Type 0 where
  normal probe bypass : CacheCircuitPermit

abbrev pub state_beq : CacheCircuitState → CacheCircuitState → Bool
state_beq closed closed = true
state_beq opened opened = true
state_beq half_open half_open = true
state_beq _ _ = false

pub state_beq_iff : (s t : CacheCircuitState) → (state_beq s t ≡ true) ↔ (s ≡ t)
state_beq_iff s t = ground arith

instance abbrev pub state_eq : Eq CacheCircuitState
state_eq = record { same = state_beq; same_iff = state_beq_iff }

-- `Number(process.env[name])` where it is an integer, else `none`.
pub record Env : Type 0 where
  pub enabled : Bool
  pub failure_threshold_var : Option ℤ
  pub open_ms_var : Option ℤ

pub positive_integer_from_env : Option ℤ → ℕ → ℕ
positive_integer_from_env none fallback = fallback
positive_integer_from_env (some (negsuc n)) fallback = fallback
positive_integer_from_env (some (pos n)) fallback = if ltb 0 n then n else fallback

unfoldable pub failure_threshold : Env → ℕ
failure_threshold env = positive_integer_from_env env.failure_threshold_var 1

unfoldable pub open_duration_ms : Env → ℕ
open_duration_ms env = positive_integer_from_env env.open_ms_var 5000

-- The gauge of each state, the bypass counter and the transitions counted, latest first.
pub record Metrics : Type 0 where
  pub closed_gauge : ℕ
  pub opened_gauge : ℕ
  pub half_open_gauge : ℕ
  pub bypass_total : ℕ
  pub transitions : List (CacheCircuitState × CacheCircuitState)

pub record Breaker : Type 0 where
  pub state : CacheCircuitState
  pub failure_count : ℕ
  pub opened_at : ℕ
  pub probe_in_flight : Bool
  pub metrics : Metrics

set_gauge : CacheCircuitState → ℕ → Metrics → Metrics
set_gauge closed v m = record m { closed_gauge = v }
set_gauge opened v m = record m { opened_gauge = v }
set_gauge half_open v m = record m { half_open_gauge = v }

-- The constructor.
unfoldable pub new_breaker : Breaker
unfolding set_gauge
new_breaker = record {
  state = closed;
  failure_count = 0;
  opened_at = 0;
  probe_in_flight = false;
  metrics = set_gauge half_open 0 (
      set_gauge opened 0 (
        set_gauge closed 1 (record {
          closed_gauge = 0;
          opened_gauge = 0;
          half_open_gauge = 0;
          bypass_total = 0;
          transitions = [];
        })));
}

count_transition : CacheCircuitState → CacheCircuitState → Metrics → Metrics
count_transition from to m = record m { transitions = (from, to) ∷ m.transitions }

transition_to : CacheCircuitState → Breaker → Breaker
unfolding set_gauge count_transition
transition_to next b = if b.state == next then b else record b {
  state = next;
  metrics = count_transition b.state next (set_gauge next 1 (set_gauge b.state 0 b.metrics));
}

bypassed : Breaker → Breaker × CacheCircuitPermit
bypassed b =
    (record b { metrics = record b.metrics { bypass_total = b.metrics.bypass_total + 1 } }, bypass)

-- The end of `acquire`, in the half-open state.
take_probe : Breaker → Breaker × CacheCircuitPermit
unfolding bypassed
take_probe b =
    if b.probe_in_flight then bypassed b else (record b { probe_in_flight = true }, probe)

unfoldable pub acquire : Env → ℕ → Breaker → Breaker × CacheCircuitPermit
unfolding bypassed take_probe transition_to
acquire env now b =
    if not env.enabled
    then (b, normal)
    else if b.state == closed
    then (b, normal)
    else if b.state == opened
    then (if ltb (now - b.opened_at) (open_duration_ms env)
        then bypassed b
        else take_probe (transition_to half_open b))
    else take_probe b

unfoldable pub record_success : Env → Breaker → Breaker
unfolding transition_to
record_success env b =
    if not env.enabled
    then b
    else transition_to closed (record b { failure_count = 0; probe_in_flight = false })

-- The failure is counted, and opens the circuit in the half-open state or at the threshold.
count_failure : Env → ℕ → Breaker → Breaker
unfolding transition_to
count_failure env now b =
    if b.state == half_open || leb (failure_threshold env) b.failure_count
    then transition_to opened (record b { opened_at = now })
    else b

unfoldable pub record_failure : Env → ℕ → Breaker → Breaker
unfolding count_failure
record_failure env now b =
    if not env.enabled
    then b
    else if b.state == opened
    then record b { probe_in_flight = false }
    else count_failure env now
        (record b { probe_in_flight = false; failure_count = b.failure_count + 1 })

-- What the cache service does to the breaker, at a time.
pub data Event : Type 0 where
  acquires succeeds fails : Event

pub step : Env → Breaker → ℕ × Event → Breaker
unfolding acquire record_success record_failure
step env b (now, acquires) = (acquire env now b).0
step env b (now, succeeds) = record_success env b
step env b (now, fails) = record_failure env now b

pub run : Env → Breaker → List (ℕ × Event) → Breaker
run env b [] = b
run env b (e ∷ es) = run env (step env b e) es
