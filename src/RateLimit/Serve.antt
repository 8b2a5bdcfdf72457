-- ===== src/RateLimit/Serve.antt =====
-- The client's `eval` that runs the scripts of RateLimit/Scripts on the state of one key.
use nest_shortlink_platform.Common.{ℕ, ◌/◌, List}
use nest_shortlink_platform.Common.Effects.{Outcome, ok}
use nest_shortlink_platform.RateLimit.{
  fixed_window_script, sliding_window_script, token_bucket_script, Reply, array, Evaluate, Failure,
}
use nest_shortlink_platform.Common.Int.{ℤ}
use nest_shortlink_platform.RateLimit.Scripts.{
  Counter, SortedSet, Hash, fixed_window, sliding_window, token_bucket,
}

pub record Commands (S : Type 0) : Type 0 where
  pub counter : Counter S
  pub sorted_set : SortedSet S
  pub hash : Hash S

abbrev answered : {S : Type 0} → List ℤ × S → Outcome Failure S Reply
answered (reply, s) = ok (array reply) s

-- The time is in microseconds.
unfoldable pub serve : {S : Type 0} → Commands S → ℕ → Evaluate S
serve redis now (fixed_window_script limit window) key s =
    answered (fixed_window redis.counter limit window (now / 1000) s)
serve redis now (sliding_window_script limit window member) key s =
    answered (sliding_window redis.sorted_set limit window member now s)
serve redis now (token_bucket_script capacity rate) key s =
    answered (token_bucket redis.hash capacity rate (now / 1000) s)
