-- ===== src/Circuit/Behaviour.antt =====
-- When the circuit trips, how long it stays open, and who may probe.
use nest_shortlink_platform.Common.{
  ℕ, ◌+◌, ◌-◌, ◌≤◌, ◌<◌, ◌≡◌, ◌≢◌, refl, ◌∙◌, inl, inr, List, [], ◌∷◌, true, false, ltb, leb,
  Bool-cases, arith, All, length, if◌then◌else◌,
}
use nest_shortlink_platform.Circuit.{
  CacheCircuitPermit, closed, opened, half_open, probe, bypass, Env, Breaker, Event, acquires,
  succeeds, fails, failure_threshold, open_duration_ms, acquire, record_success, record_failure,
  step, run,
}
use nest_shortlink_platform.Circuit.Invariant.{failure_threshold_pos}

-- The permits that requests get, one after another at the given times.
pub permits : Env → Breaker → List ℕ → List CacheCircuitPermit
permits env b [] = []
permits env b (now ∷ later) = (acquire env now b).1 ∷ permits env (acquire env now b).0 later

abbrev pub IsProbing : Env → Breaker → Type 0
IsProbing env b = (env.enabled ≡ true) × (b.state ≡ half_open) × (b.probe_in_flight ≡ true)

pub acquire-IsProbing :
    (env : Env) (now : ℕ) (b : Breaker)
    → IsProbing env b
    → ((acquire env now b).1 ≡ bypass) × IsProbing env (acquire env now b).0
unfolding acquire
acquire-IsProbing env now b h = ground arith

permits_probing :
    (env : Env) (b : Breaker) (times : List ℕ)
    → IsProbing env b
    → All (λ p. p ≡ bypass) (permits env b times)
unfolding permits
permits_probing env b [] h = tt
permits_probing env b (now ∷ later) h =
    let (first, next) = acquire-IsProbing env now b h in
    (first, permits_probing env (acquire env now b).0 later next)

pub probe-IsProbing :
    (env : Env) (now : ℕ) (b : Breaker)
    → (acquire env now b).1 ≡ probe
    → IsProbing env (acquire env now b).0
unfolding acquire
probe-IsProbing env now b h = ground arith

-- After a request has got the probe, every request that follows is sent past the cache, at
-- whatever times they come, as long as no result is reported.
pub probe_exclusive :
    (env : Env) (now : ℕ) (b : Breaker) (times : List ℕ)
    → (acquire env now b).1 ≡ probe
    → All (λ p. p ≡ bypass) (permits env (acquire env now b).0 times)
probe_exclusive env now b times h =
    permits_probing env (acquire env now b).0 times (probe-IsProbing env now b h)

step_failing :
    (env : Env) (b : Breaker) (now : ℕ)
    → env.enabled ≡ true
    → b.state ≡ opened
    → ((step env b (now, fails)).state ≡ opened)
      × ((step env b (now, fails)).opened_at ≡ b.opened_at)
unfolding step record_failure
step_failing env b now on h = ground arith

step_acquiring :
    (env : Env) (b : Breaker) (now : ℕ)
    → env.enabled ≡ true
    → b.state ≡ opened
    → now - b.opened_at < open_duration_ms env
    → ((acquire env now b).1 ≡ bypass)
      × ((step env b (now, acquires)).state ≡ opened)
      × ((step env b (now, acquires)).opened_at ≡ b.opened_at)
unfolding step acquire
step_acquiring env b now on h w = ground arith

cooldown_from :
    (env : Env) (b : Breaker) (since : ℕ) (es : List (ℕ × Event))
    → env.enabled ≡ true
    → b.state ≡ opened
    → b.opened_at ≡ since
    → All (λ e. (e.1 ≢ succeeds) × (e.0 - since < open_duration_ms env)) es
    → ((run env b es).state ≡ opened) × ((run env b es).opened_at ≡ since)
unfolding run
cooldown_from env b since [] on h same w = (h, same)
cooldown_from env b since ((t, acquires) ∷ es) on h same ((_, early), w) =
    let (_, still, kept) = step_acquiring env b t on h (rw same early) in
    cooldown_from env (step env b (t, acquires)) since es on still (kept ∙ same) w
cooldown_from env b since ((t, fails) ∷ es) on h same ((_, early), w) =
    let (still, kept) = step_failing env b t on h in
    cooldown_from env (step env b (t, fails)) since es on still (kept ∙ same) w
cooldown_from env b since ((t, succeeds) ∷ es) on h same ((never, early), w) = absurd (never refl)

-- With the breaker enabled, while the cooldown of an open circuit lasts, any row of requests and
-- late failures, with no success among them, leaves the circuit open and does not start the
-- cooldown anew; at any time of the cooldown a further request is sent past the cache.
pub cooldown :
    (env : Env) (b : Breaker) (es : List (ℕ × Event)) (now : ℕ)
    → env.enabled ≡ true
    → b.state ≡ opened
    → All (λ e. (e.1 ≢ succeeds) × (e.0 - b.opened_at < open_duration_ms env)) es
    → now - b.opened_at < open_duration_ms env
    → ((run env b es).state ≡ opened)
      × ((run env b es).opened_at ≡ b.opened_at)
      × ((acquire env now (run env b es)).1 ≡ bypass)
cooldown env b es now on h w early =
    let (still, kept) = cooldown_from env b b.opened_at es on h refl w in
    (still, kept, (step_acquiring env (run env b es) now on still (rw kept early)).0)

abbrev pub failing : List ℕ → List (ℕ × Event)
failing [] = []
failing (t ∷ ts) = (t, fails) ∷ failing ts

failing_opened :
    (env : Env) (b : Breaker) (times : List ℕ)
    → env.enabled ≡ true
    → b.state ≡ opened
    → (run env b (failing times)).state ≡ opened
unfolding run
failing_opened env b [] on h = h
failing_opened env b (t ∷ ts) on h =
    failing_opened env (step env b (t, fails)) ts on (step_failing env b t on h).0

step_failing_closed :
    (env : Env) (b : Breaker) (now : ℕ)
    → env.enabled ≡ true
    → b.state ≡ closed
    → ((step env b (now, fails)).failure_count ≡ b.failure_count + 1)
      × ((step env b (now, fails)).state
          ≡ (if leb (failure_threshold env) (b.failure_count + 1) then opened else closed))
unfolding step record_failure
step_failing_closed env b now on h = ground arith

trips_from :
    (env : Env) (b : Breaker) (times : List ℕ)
    → env.enabled ≡ true
    → b.state ≡ closed
    → b.failure_count < failure_threshold env
    → (run env b (failing times)).state
      ≡ (if ltb (b.failure_count + length times) (failure_threshold env) then closed else opened)
unfolding run
trips_from env b [] on h k = ground arith
trips_from env b (t ∷ ts) on h k =
    let (counted, state) = step_failing_closed env b t on h in
    elim (Bool-cases (leb (failure_threshold env) (b.failure_count + 1))) [
      | inl reached ↦
          failing_opened env (step env b (t, fails)) ts on (rw reached at state) ∙ ground arith
      | inr not_yet ↦
          trips_from env (step env b (t, fails)) ts on (rw not_yet at state) (ground arith)
          ∙ rw counted (ground arith)
    ]

-- With the breaker enabled, from a closed circuit with no failure counted, a row of failures opens
-- the circuit exactly if its length reaches the threshold.
pub trips :
    (env : Env) (b : Breaker) (times : List ℕ)
    → env.enabled ≡ true
    → b.state ≡ closed
    → b.failure_count ≡ 0
    → (run env b (failing times)).state
      ≡ (if ltb (length times) (failure_threshold env) then closed else opened)
trips env b times on h z =
    trips_from env b times on h (omega (arith, failure_threshold_pos env)) ∙ rw z (ground arith)

-- With the breaker enabled, once the cooldown of an open circuit with no probe in flight is over,
-- the next request gets the probe: its success closes the circuit with no failure counted, and its
-- failure opens the circuit with a cooldown that starts then.
pub recovers :
    (env : Env) (b : Breaker) (now later : ℕ)
    → env.enabled ≡ true
    → b.state ≡ opened
    → b.probe_in_flight ≡ false
    → open_duration_ms env ≤ now - b.opened_at
    → ((acquire env now b).1 ≡ probe)
      × ((record_success env (acquire env now b).0).state ≡ closed)
      × ((record_success env (acquire env now b).0).failure_count ≡ 0)
      × ((record_failure env later (acquire env now b).0).state ≡ opened)
      × ((record_failure env later (acquire env now b).0).opened_at ≡ later)
unfolding acquire record_success record_failure
recovers env b now later on h idle due = ground arith
