-- ===== src/RateLimit/TokenBucket.antt =====
-- How many requests the guard lets through with a token bucket.
use nest_shortlink_platform.Common.{
  ℕ, suc, ◌+◌, ◌-◌, ◌*◌, ◌/◌, ◌%◌, ◌≤◌, ◌<◌, ◌≡◌, refl, sym, ◌∙◌, String, List, [], ◌∷◌, Option,
  none, some, Bool, true, false, leb, if◌then◌else◌, arith, inl, inr, ◌⊎◌,
}
use mathlib.Core.Path.{subst}
use native.Mathlib.Nat.{div-add-mod, mod-lt, mul_comm, mul_right_comm, mul-le-mul_right}
use nest_shortlink_platform.Common.Int.{pos}
use nest_shortlink_platform.Common.Effects.{state_of}
use nest_shortlink_platform.RateLimit.{
  bucket, TokenBucketConfig, RateLimitRequest, consume, token_bucket_limit, parse_result,
}
use nest_shortlink_platform.RateLimit.Scripts.{
  Bucket, Hash, token_bucket, refilled, ceil_div, is_one,
}
use nest_shortlink_platform.RateLimit.Guard.{admits, guarded, guarded-reply, admitted}
use nest_shortlink_platform.RateLimit.Serve.{Commands, serve}

-- What Redis documents of the commands: the fields that are set stay, until the key ends.
pub record Lawful {S : Type 0} (redis : Hash S) : Type 0 where
  pub stored :
      (now later seconds : ℕ) (fields : Bucket) (s : S)
      → now ≤ later
      → (redis.hmget later (redis.expire now seconds (redis.hset now fields s)) ≡ some fields)
        ⊎ ((redis.hmget later (redis.expire now seconds (redis.hset now fields s)) ≡ none)
            × (now + seconds * 1000 ≤ later))

-- Times in microseconds that do not go back, from one time to another in milliseconds.
abbrev pub Between : ℕ → ℕ → List (ℕ × String) → Type 0
Between now end_ [] = now ≤ end_
Between now end_ ((t, member) ∷ calls) = (now ≤ t / 1000) × Between (t / 1000) end_ calls

Between-le : (now end_ : ℕ) (calls : List (ℕ × String)) → Between now end_ calls → now ≤ end_
Between-le now end_ [] h = h
Between-le now end_ (call ∷ calls) (h, hs) =
    let rest = Between-le (call.0 / 1000) end_ calls hs in omega (arith, h, rest)

-- A span in two parts.
span : (a b c rate : ℕ) → a ≤ b → b ≤ c → (b - a) * rate + (c - b) * rate ≡ (c - a) * rate
span a b c rate h k = grind arith

ceil_div-le : (a b : ℕ) → 0 < b → a ≤ ceil_div a b * b
unfolding ceil_div
ceil_div-le a b h =
    let q = (a + (b - 1)) / b in
    let whole : b * q + (a + (b - 1)) % b ≡ a + (b - 1) = div-add-mod (a + (b - 1)) b in
    let rest : (a + (b - 1)) % b < b = mod-lt (a + (b - 1)) h in
    let turned : q * b ≡ b * q = mul_comm q b in omega (arith, whole, rest, turned)

refilled-full :
    (capacity rate now : ℕ) (held : Option Bucket)
    → refilled capacity rate now held ≤ capacity * 1000
unfolding refilled
refilled-full capacity rate now none = omega arith
refilled-full capacity rate now (some held) = ground arith

one_if : (b : Bool) → is_one (if b then pos 1 else pos 0) ≡ b
unfolding is_one
one_if true = refl
one_if false = refl

span_le : (now seconds later : ℕ) → now + seconds * 1000 ≤ later → seconds * 1000 ≤ later - now
span_le now seconds later h = omega arith

-- What a request and those after it take, if it finds no more than `most` tokens.
take :
    (b : Bool) (found most passes rest total : ℕ)
    → b ≡ leb 1000 found
    → found ≤ most
    → 1000 * passes ≤ (if leb 1000 found then found - 1000 else found) + rest
    → most + rest ≡ total
    → 1000 * (if b then suc passes else passes) ≤ total
take b found most passes rest total e h k l = ground (arith, e, h, k, l)

module _ {S : Type 0} (redis : Commands S) (laws : Lawful redis.hash) (config : TokenBucketConfig)
    (request : RateLimitRequest) where
  -- The tokens, in thousandths, that a request at a time finds.
  abbrev found : ℕ → S → ℕ
  found now s = refilled config.capacity config.refill_per_second now (redis.hash.hmget now s)

  abbrev enough : ℕ → S → Bool
  enough now s = leb 1000 (found now s)

  abbrev left : ℕ → S → ℕ
  left now s = if enough now s then found now s - 1000 else found now s

  abbrev stored_at : ℕ → S → S
  stored_at now s =
      redis.hash.expire now (ceil_div (config.capacity * 2) config.refill_per_second)
        (redis.hash.hset now (record { tokens = left now s; last_refill = now }) s)

  guarded-enough :
      (call : ℕ × String) (s : S)
      → (admits (guarded (serve redis) (bucket config) request call s) ≡ enough (call.0 / 1000) s)
        × ((state_of (guarded (serve redis) (bucket config) request call s)).redis
            ≡ stored_at (call.0 / 1000) s)
  unfolding consume serve token_bucket token_bucket_limit parse_result is_one
  guarded-enough call s =
      let now = call.0 / 1000 in
      let tokens = found now s in
      let (a, b) =
        guarded-reply (serve redis) (bucket config) request call s (stored_at now s)
          (record {
            allowed = is_one (if enough now s then pos 1 else pos 0);
            remaining = pos (left now s / 1000);
            retry_after_ms =
                pos (if enough now s then 0 else ceil_div (1000 - tokens) config.refill_per_second);
          })
          refl in
      (a ∙ one_if (enough now s), b)

  -- The tokens that a later request finds are those left and what has come since.
  stored-found :
      (now later : ℕ) (s : S)
      → 0 < config.refill_per_second
      → now ≤ later
      → found later (stored_at now s) ≤ left now s + (later - now) * config.refill_per_second
  unfolding refilled
  stored-found now later s p h =
      let rate = config.refill_per_second in
      let seconds = ceil_div (config.capacity * 2) rate in
      elim (laws.stored now later seconds (record { tokens = left now s; last_refill = now }) s h) [
        | inl kept ↦
            subst
              (λ held. refilled config.capacity rate later held ≤ left now s + (later - now) * rate)
              (sym kept) (ground arith)
        | inr (gone, late) ↦
            let full = ceil_div-le (config.capacity * 2) rate p in
            let turned = mul_right_comm seconds 1000 rate in
            let long = mul-le-mul_right rate (span_le now seconds later late) in
            subst
              (λ held. refilled config.capacity rate later held ≤ left now s + (later - now) * rate)
              (sym gone) (omega (arith, full, long, turned))
      ]

  admitted-tokens_from :
      (calls : List (ℕ × String)) (s : S) (now tokens end_ : ℕ)
      → 0 < config.refill_per_second
      → ((t : ℕ) → now ≤ t → found t s ≤ tokens + (t - now) * config.refill_per_second)
      → Between now end_ calls
      → 1000 * (admitted (serve redis) (bucket config) request calls s).0
        ≤ tokens + (end_ - now) * config.refill_per_second
  unfolding admitted
  admitted-tokens_from [] s now tokens end_ p h o = omega arith
  admitted-tokens_from (call ∷ calls) s now tokens end_ p h (k, o) =
      let rate = config.refill_per_second in
      let t = call.0 / 1000 in
      let (a, e) = guarded-enough call s in
      let rest =
        admitted-tokens_from calls (stored_at t s) t (left t s) end_ p
          (λ later l. stored-found t later s p l) o in
      let parts = span now t end_ rate k (Between-le t end_ calls o) in
      subst
        (λ next.
          1000
            * (if admits (guarded (serve redis) (bucket config) request call s)
                then suc (admitted (serve redis) (bucket config) request calls next).0
                else (admitted (serve redis) (bucket config) request calls next).0)
          ≤ tokens + (end_ - now) * rate)
        (sym e)
        (take _ (found t s) (tokens + (t - now) * rate) _ ((end_ - t) * rate) _ a (h t k) rest
          (parts_of tokens _ _ _ parts))
    where
      parts_of : (k a b c : ℕ) → a + b ≡ c → k + a + b ≡ k + c
      parts_of k a b c h = omega arith

  -- From one time to another, the guard lets through at most as many requests as the bucket holds,
  -- and those whose tokens come in that time, whatever is stored at first. Redis answers every call,
  -- its clock does not go back, and tokens come.
  pub admitted-tokens :
      (calls : List (ℕ × String)) (s : S) (now end_ : ℕ)
      → 0 < config.refill_per_second
      → Between now end_ calls
      → 1000 * (admitted (serve redis) (bucket config) request calls s).0
        ≤ config.capacity * 1000 + (end_ - now) * config.refill_per_second
  admitted-tokens calls s now end_ p o =
      admitted-tokens_from calls s now (config.capacity * 1000) end_ p
        (λ t k.
          let full =
            refilled-full config.capacity config.refill_per_second t (redis.hash.hmget t s) in
          omega (arith, full))
        o
