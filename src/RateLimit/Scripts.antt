-- ===== src/RateLimit/Scripts.antt =====
-- The scripts of src/rate-limit/scripts, which Redis runs as one step each on the key they are given.
-- Redis is a parameter: a state of the key, and the commands that the scripts call. Times are
-- milliseconds of Redis, in sliding-window.script.ts microseconds. The arithmetic is exact, where
-- Lua computes with floating-point numbers.
use nest_shortlink_platform.Common.{
  ℕ, ◌+◌, ◌-◌, ◌*◌, ◌/◌, min, String, List, [], ◌∷◌, Option, none, some, Bool, false, ltb, leb,
  ◌==◌, nat_eq, string_eq, if◌then◌else◌,
}
use nest_shortlink_platform.Common.Int.{ℤ, pos, negsuc}

-- fixed-window.script.ts: `INCR`, `EXPIRE` and `PTTL`.
pub record Counter (S : Type 0) : Type 0 where
  pub incr : ℕ → S → ℕ × S
  pub expire : ℕ → ℕ → S → S
  pub pttl : ℕ → S → ℤ

-- The count, the change of the key's life, and the reply.
unfoldable pub fixed_window : {S : Type 0} → Counter S → ℕ → ℕ → ℕ → S → List ℤ × S
fixed_window redis limit window now s =
    let (count, counted) = redis.incr now s in
    let kept = if count == 1 then redis.expire now window counted else counted in
    let ttl = redis.pttl now kept in
    if ltb limit count
    then (pos 0 ∷ pos 0 ∷ ttl ∷ [], kept)
    else (pos 1 ∷ pos (limit - count) ∷ pos 0 ∷ [], kept)

-- sliding-window.script.ts: the sorted set's commands. The first argument is the time.
pub record SortedSet (S : Type 0) : Type 0 where
  -- `ZREMRANGEBYSCORE key -inf (now - window)`.
  pub zremrangebyscore : ℕ → ℕ → S → S
  pub zcard : ℕ → S → ℕ
  pub zadd : ℕ → String → S → S
  pub expire : ℕ → ℕ → S → S
  -- `ZRANGE key 0 0 WITHSCORES`, the score alone.
  pub oldest : ℕ → S → Option ℕ

-- `math.floor((oldest + window - now) * 1000)` on seconds, where the score lies in the window.
unfoldable pub retry_after : Option ℕ → ℕ → ℕ → ℤ
retry_after none window now = pos 0
retry_after (some score) window now = pos ((score + window * 1000000 - now) / 1000)

unfoldable pub sliding_window : {S : Type 0} → SortedSet S → ℕ → ℕ → String → ℕ → S → List ℤ × S
unfolding retry_after
sliding_window redis limit window member now s =
    let trimmed = redis.zremrangebyscore now window s in
    let count = redis.zcard now trimmed in
    if ltb count limit
    then (
      pos 1 ∷ pos (limit - count - 1) ∷ pos 0 ∷ [],
      redis.expire now (window * 2) (redis.zadd now member trimmed),
    )
    else (pos 0 ∷ pos 0 ∷ retry_after (redis.oldest now trimmed) window now ∷ [], trimmed)

-- token-bucket.script.ts: the fields `tokens`, in thousandths, and `lastRefill`.
pub record Bucket : Type 0 where
  pub tokens : ℕ
  pub last_refill : ℕ

pub record Hash (S : Type 0) : Type 0 where
  pub hmget : ℕ → S → Option Bucket
  pub hset : ℕ → Bucket → S → S
  pub expire : ℕ → ℕ → S → S

-- The upper whole number of a quotient.
unfoldable pub ceil_div : ℕ → ℕ → ℕ
ceil_div a b = (a + (b - 1)) / b

-- The tokens after the refill.
unfoldable pub refilled : ℕ → ℕ → ℕ → Option Bucket → ℕ
refilled capacity rate now none = min (capacity * 1000) (capacity * 1000)
refilled capacity rate now (some bucket) =
    min (capacity * 1000) (bucket.tokens + (now - bucket.last_refill) * rate)

unfoldable pub token_bucket : {S : Type 0} → Hash S → ℕ → ℕ → ℕ → S → List ℤ × S
unfolding refilled ceil_div
token_bucket redis capacity rate now s =
    let tokens = refilled capacity rate now (redis.hmget now s) in
    let allowed = leb 1000 tokens in
    let kept = if allowed then tokens - 1000 else tokens in
    let wait = if allowed then 0 else ceil_div (1000 - tokens) rate in
    let stored = redis.hset now (record { tokens = kept; last_refill = now }) s in
    let ttl = ceil_div (capacity * 2) rate in
    (
      (if allowed then pos 1 else pos 0) ∷ pos (kept / 1000) ∷ pos wait ∷ [],
      redis.expire now ttl stored,
    )

-- `+allowed === 1`.
unfoldable pub is_one : ℤ → Bool
is_one (pos n) = n == 1
is_one (negsuc n) = false

-- Whether a reply lets the caller through.
unfoldable pub allows : List ℤ → Bool
allows [] = false
allows (x ∷ rest) = is_one x
