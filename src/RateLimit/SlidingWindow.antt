-- ===== src/RateLimit/SlidingWindow.antt =====
-- How many requests the guard lets through with a sliding window.
pub mod Bound
use nest_shortlink_platform.Common.{
  ℕ, zero, suc, ◌+◌, ◌-◌, ◌*◌, ◌/◌, ◌≤◌, ◌<◌, ◌≡◌, refl, sym, ap, ◌∙◌, String, List, [], ◌∷◌,
  length, Bool, true, false, ◌&&◌, ltb, leb, ◌==◌, string_eq, if◌then◌else◌, All, arith, Bool-cases,
  if_elim, inl, inr, ◌⊎◌,
}
use mathlib.Core.Path.{subst}
use nest_shortlink_platform.Common.Int.{pos}
use nest_shortlink_platform.Common.Effects.{ok, state_of}
use nest_shortlink_platform.RateLimit.{
  sliding, SlidingWindowConfig, RateLimitResult, RateLimitRequest, consume, sliding_window_limit,
  parse_result,
}
use nest_shortlink_platform.RateLimit.Scripts.{SortedSet, sliding_window, retry_after, is_one}
use nest_shortlink_platform.RateLimit.Guard.{admits, guarded, guarded-reply, passed, key_of}
use nest_shortlink_platform.RateLimit.Serve.{Commands, serve}

-- How many pass a test.
unfoldable pub count : {A : Type 0} → (A → Bool) → List A → ℕ
count p [] = 0
count p (x ∷ xs) = let rest = count p xs in if p x then suc rest else rest

-- Members and their scores.
abbrev pub Entries : Type 0
Entries = List (String × ℕ)

-- What Redis documents of the commands: the entries that the key shows at a time, of which the order does
-- not matter here. Scores and times are microseconds; a key ends at a millisecond.
pub record Lawful {S : Type 0} (redis : SortedSet S) : Type 0 where
  pub entries : ℕ → S → Entries
  pub zcard_lem : (now : ℕ) (s : S) → redis.zcard now s ≡ length (entries now s)
  pub zremrangebyscore_lem :
      (now later window : ℕ) (s : S) (p : String × ℕ → Bool)
      → now ≤ later
      → count p (entries later (redis.zremrangebyscore now window s))
        ≡ count (λ entry. p entry && ltb now (entry.1 + window * 1000000)) (entries later s)
  pub zadd_lem :
      (now : ℕ) (member : String) (s : S) (p : String × ℕ → Bool)
      → count (λ entry. entry.0 == member) (entries now s) ≡ 0
      → count p (entries now (redis.zadd now member s)) ≡ count p ((member, now) ∷ entries now s)
  pub expire_lem :
      (now later seconds : ℕ) (s : S)
      → now ≤ later
      → (entries later (redis.expire now seconds s) ≡ entries now s)
        ⊎ ((entries later (redis.expire now seconds s) ≡ [])
            × (now / 1000 + seconds * 1000 ≤ later / 1000))

-- Times that do not go back, and identifiers that are drawn once.
abbrev pub Ordered : ℕ → List (ℕ × String) → Type 0
Ordered now [] = Unit {0}
Ordered now ((t, member) ∷ calls) =
    (now ≤ t) × All (λ later. (member == later.1) ≡ false) calls × Ordered t calls

pub count-le :
    {A : Type 0} (p q : A → Bool) (xs : List A)
    → ((x : A) → p x ≡ true → q x ≡ true)
    → count p xs ≤ count q xs
unfolding count
count-le p q [] h = omega arith
count-le p q (x ∷ xs) h =
    let rest = count-le p q xs h in let step = h x in ground (arith, rest, step)

pub count-eq :
    {A : Type 0} (p q : A → Bool) (xs : List A) → ((x : A) → p x ≡ q x) → count p xs ≡ count q xs
unfolding count
count-eq p q [] h = refl
count-eq p q (x ∷ xs) h = let rest = count-eq p q xs h in rw (h x, rest) refl

pub count-all : {A : Type 0} (xs : List A) → count (λ _. true) xs ≡ length xs
unfolding count
count-all [] = refl
count-all (x ∷ xs) = ap suc (count-all xs)

-- After a time.
abbrev since : ℕ → ℕ → Bool
since c t = ltb c t

pub count-none : (log : List ℕ) (c : ℕ) → All (λ t. t ≤ c) log → count (ltb c) log ≡ 0
unfolding count
count-none [] c h = refl
count-none (t ∷ log) c (h, hs) = let rest = count-none log c hs in ground (arith, rest, h)
