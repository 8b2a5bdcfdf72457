-- ===== src/RateLimit/SlidingWindow/Bound.antt =====
-- The bound on the requests that the guard lets through with a sliding window.
use nest_shortlink_platform.Common.{
  ℕ, ◌+◌, ◌-◌, ◌*◌, ◌≤◌, ◌<◌, ◌≡◌, refl, sym, ap, ◌∙◌, String, List, [], ◌∷◌, Bool, true, false,
  ◌&&◌, ltb, leb, ◌==◌, string_eq, if◌then◌else◌, All, arith, Bool-cases, if_elim, inl, inr, ◌⊎◌,
}
use mathlib.Core.Path.{subst}
use nest_shortlink_platform.Common.Int.{pos}
use nest_shortlink_platform.Common.Effects.{state_of}
use nest_shortlink_platform.RateLimit.{
  sliding, SlidingWindowConfig, RateLimitRequest, consume, sliding_window_limit, parse_result,
}
use nest_shortlink_platform.RateLimit.Scripts.{sliding_window, retry_after, is_one}
use nest_shortlink_platform.RateLimit.Guard.{admits, guarded, guarded-reply, passed}
use nest_shortlink_platform.RateLimit.Serve.{Commands, serve}
use nest_shortlink_platform.RateLimit.SlidingWindow.{
  count, count-le, count-eq, count-all, count-none, Lawful, Ordered,
}

All-le :
    (now later : ℕ) (log : List ℕ) → now ≤ later → All (λ t. t ≤ now) log → All (λ t. t ≤ later) log
All-le now later [] k h = tt
All-le now later (t ∷ log) k (h, hs) = (omega (arith, k, h), All-le now later log k hs)

module _ {A : Type 0} {P Q R : A → Type 0} where
  All-zip : (xs : List A) → ((x : A) → P x → Q x → R x) → All P xs → All Q xs → All R xs
  All-zip [] f ps qs = tt
  All-zip (x ∷ xs) f (p, ps) (q, qs) = (f x p q, All-zip xs f ps qs)

module _ {S : Type 0} (redis : Commands S) (laws : Lawful redis.sorted_set)
    (config : SlidingWindowConfig) (request : RateLimitRequest) where
  abbrev window : ℕ
  window = config.window_seconds * 1000000

  abbrev trimmed : ℕ → S → S
  trimmed now s = redis.sorted_set.zremrangebyscore now config.window_seconds s

  abbrev added : ℕ × String → S → S
  added call s =
      redis.sorted_set.expire call.0 (config.window_seconds * 2)
        (redis.sorted_set.zadd call.0 call.1 (trimmed call.0 s))

  abbrev free : ℕ × String → S → Bool
  free call s = ltb (redis.sorted_set.zcard call.0 (trimmed call.0 s)) config.limit

  -- Whether the guard lets a request through, and the state of Redis after it.
  guarded-free :
      (call : ℕ × String) (s : S)
      → (admits (guarded (serve redis) (sliding config) request call s) ≡ free call s)
        × ((state_of (guarded (serve redis) (sliding config) request call s)).redis
            ≡ (if free call s then added call s else trimmed call.0 s))
  unfolding consume serve sliding_window sliding_window_limit parse_result is_one
  guarded-free call s = elim (Bool-cases (free call s)) [
    | inl passes ↦
        let (a, b) =
          guarded-reply (serve redis) (sliding config) request call s (added call s)
            (record {
              allowed = true;
              remaining = pos (config.limit - redis.sorted_set.zcard call.0 (trimmed call.0 s) - 1);
              retry_after_ms = pos 0;
            })
            (rw passes refl) in
        (a ∙ sym passes, rw passes b)
    | inr fails ↦
        let (a, b) =
          guarded-reply (serve redis) (sliding config) request call s (trimmed call.0 s)
            (record {
              allowed = false;
              remaining = pos 0;
              retry_after_ms =
                  retry_after (redis.sorted_set.oldest call.0 (trimmed call.0 s))
                    config.window_seconds call.0;
            })
            (rw fails refl) in
        (a ∙ sym fails, rw fails b)
  ]

  -- The set shows, of the window that ends at any time from now on, just what was let through.
  abbrev Faithful : ℕ → List ℕ → S → Type 0
  Faithful now log s =
      (t c : ℕ)
      → now ≤ t
      → t ≤ c + window
      → count (ltb c) log ≡ count (λ entry. ltb c entry.1) (laws.entries t s)

  abbrev pub Bounded : List ℕ → Type 0
  Bounded log = (c : ℕ) → count (λ t. ltb c t && leb t (c + window)) log ≤ config.limit

  abbrev Unused : ℕ → S → ℕ × String → Type 0
  Unused now s call = (t : ℕ) → now ≤ t → count (λ entry. entry.0 == call.1) (laws.entries t s) ≡ 0

  trimmed-count :
      (now t c : ℕ) (s : S)
      → now ≤ t
      → t ≤ c + window
      → count (λ entry. ltb c entry.1) (laws.entries t (trimmed now s))
        ≡ count (λ entry. ltb c entry.1) (laws.entries t s)
  trimmed-count now t c s k h =
      laws.zremrangebyscore_lem now t config.window_seconds s (λ entry. ltb c entry.1) k
      ∙ count-eq (λ entry. ltb c entry.1 && ltb now (entry.1 + window)) (λ entry. ltb c entry.1)
          (laws.entries t s) (λ entry. ground arith)

  trimmed-Faithful :
      (now t : ℕ) (log : List ℕ) (s : S)
      → now ≤ t
      → Faithful now log s
      → Faithful t log (trimmed t s)
  trimmed-Faithful now t log s k f u c l h =
      f u c (omega (arith, k, l)) h ∙ sym (trimmed-count t u c s l h)

  trimmed-Unused :
      (now t : ℕ) (s : S) (call : ℕ × String)
      → now ≤ t
      → Unused now s call
      → Unused t (trimmed t s) call
  trimmed-Unused now t s call k f u l =
      let less =
        count-le (λ entry. (entry.0 == call.1) && ltb t (entry.1 + window))
          (λ entry. entry.0 == call.1) (laws.entries u s) (λ entry. ground arith) in
      let same =
        laws.zremrangebyscore_lem t u config.window_seconds s (λ entry. entry.0 == call.1) l in
      let none_ = f u (omega (arith, k, l)) in omega (arith, less, same, none_)

  -- What the key shows once the request is noted.
  added-count :
      (call : ℕ × String) (t : ℕ) (s : S) (p : String × ℕ → Bool)
      → call.0 ≤ t
      → Unused call.0 (trimmed call.0 s) call
      → (count p (laws.entries t (added call s))
          ≡ count p ((call.1, call.0) ∷ laws.entries call.0 (trimmed call.0 s)))
        ⊎ ((count p (laws.entries t (added call s)) ≡ 0) × (call.0 + window * 2 ≤ t + 1000))
  unfolding count
  added-count call t s p k u =
      elim (laws.expire_lem call.0 t (config.window_seconds * 2)
        (redis.sorted_set.zadd call.0 call.1 (trimmed call.0 s)) k) [
          | inl kept ↦ inl (
              ap (count p) kept
              ∙ laws.zadd_lem call.0 call.1 (trimmed call.0 s) p (u call.0 (omega arith)))
          | inr (gone, late) ↦ inr (ap (count p) gone, omega (arith, late))
        ]

  added-Faithful :
      (call : ℕ × String) (now : ℕ) (log : List ℕ) (s : S)
      → 0 < config.window_seconds
      → now ≤ call.0
      → All (λ t. t ≤ call.0) log
      → Unused now s call
      → Faithful now log s
      → Faithful call.0 (call.0 ∷ log) (added call s)
  unfolding count
  added-Faithful call now log s w k all u f t c l h =
      let before =
        trimmed-Faithful now call.0 log s k f call.0 c (omega arith) (omega (arith, l, h)) in
      elim (added-count call t s (λ entry. ltb c entry.1) l
        (trimmed-Unused now call.0 s call k u)) [
          | inl e ↦ rw before (sym e)
          | inr (gone, late) ↦
              count-none (call.0 ∷ log) c
                (omega (arith, late, h, w), All-le call.0 c log (omega (arith, late, h, w)) all)
              ∙ sym gone
        ]

  added-Bounded :
      (call : ℕ × String) (now : ℕ) (log : List ℕ) (s : S)
      → now ≤ call.0
      → free call s ≡ true
      → Faithful now log s
      → Bounded log
      → Bounded (call.0 ∷ log)
  unfolding count
  added-Bounded call now log s k passes f b c =
      let held = laws.entries call.0 (trimmed call.0 s) in
      let inside = count-le (λ t. ltb c t && leb t (c + window)) (ltb c) log (λ t. ground arith) in
      let most = count-le (λ entry. ltb c entry.1) (λ entry. true) held (λ entry _. refl) in
      let all_ = count-all held in
      let card = laws.zcard_lem call.0 (trimmed call.0 s) in
      let old = b c in
      if_elim (λ n. n ≤ config.limit) (ltb c call.0 && leb call.0 (c + window)) _ _
        (λ now_.
          let same =
            trimmed-Faithful now call.0 log s k f call.0 c (omega arith) (ground (arith, now_)) in
          ground (arith, inside, most, all_, card, same, passes))
        (λ _. old)

  added-Unused :
      (call other : ℕ × String) (now : ℕ) (s : S)
      → now ≤ call.0
      → (call.1 == other.1) ≡ false
      → Unused now s call
      → Unused now s other
      → Unused call.0 (added call s) other
  unfolding count
  added-Unused call other now s k apart u v t l =
      elim (added-count call t s (λ entry. entry.0 == other.1) l
        (trimmed-Unused now call.0 s call k u)) [
          | inl e ↦ e ∙ rw apart (trimmed-Unused now call.0 s other k v call.0 (omega arith))
          | inr (gone, late) ↦ gone
        ]

  passed-Bounded_from :
      (log : List ℕ) (now : ℕ) (calls : List (ℕ × String)) (s : S)
      → 0 < config.window_seconds
      → Ordered now calls
      → All (Unused now s) calls
      → All (λ t. t ≤ now) log
      → Faithful now log s
      → Bounded log
      → Bounded (passed (serve redis) (sliding config) request log calls s)
  unfolding passed
  passed-Bounded_from log now [] s w o u l f b = b
  passed-Bounded_from log now (call ∷ calls) s w (k, fresh, o) (u, us) l f b =
      let r = guarded (serve redis) (sliding config) request call s in
      let (a, e) = guarded-free call s in
      let older = All-le now call.0 log k l in
      let go = λ (x : Bool) (next : S). Bounded (
        passed (serve redis) (sliding config) request (if x then call.0 ∷ log else log) calls
          next) in
      let later : Bool → S = λ x. if x then added call s else trimmed call.0 s in
      let end_ : (x : Bool) → free call s ≡ x → go x (later x) → go (admits r) (state_of r).redis =
        λ x h g.
          subst (λ y. go y (state_of r).redis) (sym (a ∙ h))
            (subst (go x) (sym (e ∙ ap later h)) g) in
      elim (Bool-cases (free call s)) [
        | inl passes ↦ end_ true passes (
            passed-Bounded_from (call.0 ∷ log) call.0 calls (added call s) w o
              (All-zip calls (λ other apart v. added-Unused call other now s k apart u v) fresh us)
              (omega arith, older) (added-Faithful call now log s w k older u f)
              (added-Bounded call now log s k passes f b))
        | inr fails ↦ end_ false fails (
            passed-Bounded_from log call.0 calls (trimmed call.0 s) w o
              (All-zip calls (λ other apart v. trimmed-Unused now call.0 s other k v) fresh us)
              older (trimmed-Faithful now call.0 log s k f) b)
      ]

  -- In every span as long as the window, the guard lets through at most as many requests as the
  -- limit, however many come and whenever. The key is absent before the first request,
  -- Redis answers every call, its clock does not go back, no identifier is drawn twice,
  -- and the window is not empty.
  pub passed-Bounded :
      (now : ℕ) (calls : List (ℕ × String)) (s : S)
      → 0 < config.window_seconds
      → Ordered now calls
      → ((t : ℕ) → now ≤ t → laws.entries t s ≡ [])
      → Bounded (passed (serve redis) (sliding config) request [] calls s)
  unfolding count
  passed-Bounded now calls s w o absent =
      passed-Bounded_from [] now calls s w o (All-of calls) tt
        (λ t c k h. ap (count _) (sym (absent t k))) (λ c. omega arith)
    where
      All-of : (calls : List (ℕ × String)) → All (Unused now s) calls
      All-of [] = tt
      All-of (call ∷ calls) = ((λ t k. ap (count _) (absent t k)), All-of calls)
