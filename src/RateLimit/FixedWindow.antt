-- ===== src/RateLimit/FixedWindow.antt =====
-- How many requests the guard lets through with a fixed window.
use nest_shortlink_platform.Common.{
  ℕ, suc, ◌+◌, ◌-◌, ◌*◌, ◌/◌, ◌≤◌, ◌<◌, min, ◌≡◌, refl, ap, ◌∙◌, String, List, [], ◌∷◌, length,
  Option, none, some, Bool, true, false, ltb, leb, ◌==◌, nat_eq, string_eq, if◌then◌else◌, arith,
  Bool-cases, inl, inr, if_elim,
}
use nest_shortlink_platform.Common.Int.{pos}
use nest_shortlink_platform.Common.Effects.{ok, state_of}
use nest_shortlink_platform.RateLimit.{
  fixed, FixedWindowConfig, RateLimitResult, RateLimitRequest, consume, fixed_window_limit,
  parse_result,
}
use nest_shortlink_platform.RateLimit.Scripts.{Counter, fixed_window, is_one}
use nest_shortlink_platform.RateLimit.Guard.{admits, admitted, guarded, guarded-reply, key_of}
use nest_shortlink_platform.RateLimit.Serve.{Commands, serve}

-- What Redis documents of the commands: what a key shows at a time, its value and when it ends.
pub record Lawful {S : Type 0} (redis : Counter S) : Type 0 where
  pub seen : ℕ → S → Option (ℕ × Option ℕ)
  pub incr_new :
      (now : ℕ) (s : S)
      → seen now s ≡ none
      → ((redis.incr now s).0 ≡ 1) × (seen now (redis.incr now s).1 ≡ some (1, none))
  pub incr_old :
      (now n : ℕ) (ends : Option ℕ) (s : S)
      → seen now s ≡ some (n, ends)
      → ((redis.incr now s).0 ≡ n + 1) × (seen now (redis.incr now s).1 ≡ some (n + 1, ends))
  pub expire_lem :
      (now seconds n : ℕ) (ends : Option ℕ) (s : S)
      → 0 < seconds
      → seen now s ≡ some (n, ends)
      → seen now (redis.expire now seconds s) ≡ some (n, some (now + seconds * 1000))
  pub stays :
      (now later n ends : ℕ) (s : S)
      → now ≤ later
      → later < ends
      → seen now s ≡ some (n, some ends)
      → seen later s ≡ some (n, some ends)
  pub leaves :
      (now later n ends : ℕ) (s : S)
      → now ≤ later
      → ends < later
      → seen now s ≡ some (n, some ends)
      → seen later s ≡ none

-- Times that do not go back, from one time to before another.
abbrev pub Within : ℕ → ℕ → List (ℕ × String) → Type 0
Within now ends [] = Unit {0}
Within now ends ((t, member) ∷ calls) =
    (now ≤ t / 1000) × (t / 1000 < ends) × Within (t / 1000) ends calls

next_min :
    (b : Bool) (count calls limit n : ℕ)
    → b ≡ leb (n + 1) limit
    → count ≡ min calls (limit - (n + 1))
    → (if b then suc count else count) ≡ min (suc calls) (limit - n)
next_min b count calls limit n p h = ground (arith, p, h)

module _ {S : Type 0} (redis : Commands S) (laws : Lawful redis.counter)
    (config : FixedWindowConfig) (request : RateLimitRequest) where
  abbrev now_of : ℕ × String → ℕ
  now_of call = call.0 / 1000

  abbrev count_of : ℕ × String → S → ℕ
  count_of call s = (redis.counter.incr (now_of call) s).0

  -- What the script leaves.
  abbrev kept_of : ℕ × String → S → S
  kept_of call s =
      if count_of call s == 1
      then redis.counter.expire (now_of call) config.window_seconds
          (redis.counter.incr (now_of call) s).1
      else (redis.counter.incr (now_of call) s).1

  fixed_window-answer :
      (call : ℕ × String) (s : S)
      → (result : RateLimitResult) × (result.allowed ≡ leb (count_of call s) config.limit)
        × (consume (serve redis call.0) call.1 (key_of request (fixed config)) (fixed config) s
            ≡ ok result (kept_of call s))
  unfolding consume serve fixed_window fixed_window_limit parse_result is_one
  fixed_window-answer call s = elim (Bool-cases (ltb config.limit (count_of call s))) [
    | inl over ↦ (
      record {
        allowed = false;
        remaining = pos 0;
        retry_after_ms = redis.counter.pttl (now_of call) (kept_of call s);
      },
      ground (arith, over),
      rw over refl,
    )
    | inr under ↦ (
      record {
        allowed = true;
        remaining = pos (config.limit - count_of call s);
        retry_after_ms = pos 0;
      },
      ground (arith, under),
      rw under refl,
    )
  ]

  -- Whether the guard lets a request through, and the state of Redis after it.
  guarded-count :
      (call : ℕ × String) (s : S)
      → (admits (guarded (serve redis) (fixed config) request call s)
          ≡ leb (count_of call s) config.limit)
        × ((state_of (guarded (serve redis) (fixed config) request call s)).redis ≡ kept_of call s)
  guarded-count call s =
      let (result, allowed, e) = fixed_window-answer call s in
      let (a, b) =
        guarded-reply (serve redis) (fixed config) request call s (kept_of call s) result e in
      (a ∙ allowed, b)

  -- A call in a window that counts.
  guarded-seen :
      (call : ℕ × String) (s : S) (now n ends : ℕ)
      → now ≤ now_of call
      → now_of call < ends
      → 0 < n
      → laws.seen now s ≡ some (n, some ends)
      → (admits (guarded (serve redis) (fixed config) request call s) ≡ leb (n + 1) config.limit)
        × (laws.seen
              (now_of call)
              (state_of (guarded (serve redis) (fixed config) request call s)).redis
            ≡ some (n + 1, some ends))
  guarded-seen call s now n ends later inside p h =
      let k = laws.stays now (now_of call) n ends s later inside h in
      let (counted, shown) = laws.incr_old (now_of call) n (some ends) s k in
      let (passes, left) = guarded-count call s in
      (
        passes ∙ ap (λ c. leb c config.limit) counted,
        ap (laws.seen (now_of call)) left
            ∙ if_elim (λ x. laws.seen (now_of call) x ≡ some (n + 1, some ends))
                (count_of call s == 1) _ _ (λ one. absurd (ground (arith, counted, one, p)))
                (λ _. shown),
      )

  -- Later calls in a window that counts.
  admitted-seen :
      (calls : List (ℕ × String)) (s : S) (now n ends : ℕ)
      → now < ends
      → 0 < n
      → laws.seen now s ≡ some (n, some ends)
      → Within now ends calls
      → ((admitted (serve redis) (fixed config) request calls s).0
          ≡ min (length calls) (config.limit - n))
        × ((later : ℕ)
            → ends < later
            → laws.seen later (admitted (serve redis) (fixed config) request calls s).1 ≡ none)
  unfolding admitted
  admitted-seen [] s now n ends b p h w =
      (ground arith, λ later k. laws.leaves now later n ends s (omega arith) k h)
  admitted-seen (call ∷ calls) s now n ends b p h (l, i, w) =
      let (passes, shown) = guarded-seen call s now n ends l i p h in
      let (count, gone) =
        admitted-seen calls (state_of (guarded (serve redis) (fixed config) request call s)).redis
          (now_of call) (n + 1) ends i (omega arith) shown w in
      (next_min _ _ (length calls) config.limit n passes count, gone)

  -- However many requests come in the window that the first of them opens, one after another, the
  -- guard lets through as many as come, or as many as the limit, whichever is less. Once the window
  -- is over the key is gone, and the next request opens a window again. The key is absent before,
  -- and Redis answers every call.
  pub admitted-min :
      (first : ℕ × String) (calls : List (ℕ × String)) (s : S)
      → 0 < config.window_seconds
      → laws.seen (first.0 / 1000) s ≡ none
      → Within (first.0 / 1000) (first.0 / 1000 + config.window_seconds * 1000) calls
      → ((admitted (serve redis) (fixed config) request (first ∷ calls) s).0
          ≡ min (length (first ∷ calls)) config.limit)
        × ((later : ℕ)
            → first.0 / 1000 + config.window_seconds * 1000 < later
            → laws.seen later (admitted (serve redis) (fixed config) request (first ∷ calls) s).1
              ≡ none)
  unfolding admitted
  admitted-min first calls s w h k =
      let (one, new) = laws.incr_new (now_of first) s h in
      let (passes, left) = guarded-count first s in
      let started =
        laws.expire_lem (now_of first) config.window_seconds 1 none
          (redis.counter.incr (now_of first) s).1 w new in
      let shown : laws.seen (now_of first)
            (state_of (guarded (serve redis) (fixed config) request first s)).redis
          ≡ some (1, some (now_of first + config.window_seconds * 1000)) =
        ap (laws.seen (now_of first)) left
        ∙ if_elim
            (λ x.
              laws.seen (now_of first) x
              ≡ some (1, some (now_of first + config.window_seconds * 1000)))
            (count_of first s == 1) _ _ (λ _. started)
            (λ other. absurd (ground (arith, one, other))) in
      let (count, gone) =
        admitted-seen calls (state_of (guarded (serve redis) (fixed config) request first s)).redis
          (now_of first) 1 _ (omega (arith, w)) (omega arith) shown k in
      (
        next_min _ _ (length calls) config.limit 0 (passes ∙ ap (λ c. leb c config.limit) one) count
            ∙ omega arith,
        gone,
      )
