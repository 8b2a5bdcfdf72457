-- ===== src/Cache/Bloom.antt =====
-- src/cache/short-link-bloom.service.ts: the Bloom filter in front of the database. The filter
-- itself is a module of Redis, behind `Outside`; log lines are left out.
use Prim.Native.String.{◌++◌ as str_append}
use nest_shortlink_platform.Common.{
  ℕ, zero, suc, ◌+◌, ◌/◌, ◌%◌, String, List, [], ◌∷◌, ◌++◌, Option, none, some, Bool, true, false,
  not, ltb, ◌==◌, nat_eq, string_eq, if◌then◌else◌, get_elem?,
}
use nest_shortlink_platform.Common.Int.{ℤ, pos, negsuc}
use nest_shortlink_platform.Common.Effects.{ok, Eff, pure, throw, ◌>>=◌, ◌>>◌, catch}
use nest_shortlink_platform.Cache.{Shared, Outside, CacheEnv}

abbrev pub bucket_count : ℕ
bucket_count = 16

-- A number below 100 as text, for the template string of `getBucketKey`.
abbrev digits : List String
digits = "0" ∷ "1" ∷ "2" ∷ "3" ∷ "4" ∷ "5" ∷ "6" ∷ "7" ∷ "8" ∷ "9" ∷ []

unfoldable pub digit : Option String → String
digit none = ""
digit (some d) = d

unfoldable pub decimal : ℕ → String
unfolding digit
decimal n =
    if ltb n 10
    then digit (get_elem? digits n)
    else str_append (digit (get_elem? digits (n / 10))) (digit (get_elem? digits (n % 10)))

unfoldable pub get_bucket_key : ℕ → String
unfolding decimal
get_bucket_key bucket = str_append "bf:short-links:" (decimal bucket)

-- The codes of a batch by their bucket's key, in the order in which the keys came up.
unfoldable pub add_to_group :
    String → String → List (String × List String) → List (String × List String)
add_to_group key code [] = (key, code ∷ []) ∷ []
add_to_group key code ((k, codes) ∷ groups) =
    if k == key then (k, codes ++ code ∷ []) ∷ groups else (k, codes) ∷ add_to_group key code groups

module _ {E R : Type 0} (o : Outside E R) where
  unfoldable pub get_bucket : String → ℕ
  get_bucket code = o.sha1_byte code % bucket_count

  unfoldable pub get_key : String → String
  unfolding get_bucket
  get_key code = get_bucket_key (get_bucket code)

  abbrev pub set_ready : Bool → Eff E (Shared R) (Unit {0})
  set_ready ready s = ok tt (record s { bloom_ready = ready })

  unfoldable pub mark_ready : Eff E (Shared R) (Unit {0})
  mark_ready = set_ready true

  unfoldable pub mark_not_ready : Eff E (Shared R) (Unit {0})
  mark_not_ready = set_ready false

  -- The buckets from `bucket` on; the first number counts those left. `says_exists` tests an
  -- error's message for the word.
  unfoldable pub initialize_from : (E → Bool) → ℕ → ℕ → Eff E (Shared R) (Unit {0})
  initialize_from says_exists zero bucket = pure tt
  initialize_from says_exists (suc left) bucket = do
    present ← o.exists (get_bucket_key bucket)
    elim (present == 1) [
      | true ↦ pure tt
      | false ↦
          catch (o.bf_reserve (get_bucket_key bucket))
            (λ e. if says_exists e then pure tt else (set_ready false >> throw e))
    ]
    initialize_from says_exists left (bucket + 1)

  unfoldable pub initialize_buckets : (E → Bool) → Eff E (Shared R) (Unit {0})
  unfolding mark_not_ready initialize_from
  initialize_buckets says_exists = do
    mark_not_ready
    o.wait_until_ready
    initialize_from says_exists bucket_count 0

  unfoldable pub add : String → Eff E (Shared R) (Unit {0})
  unfolding get_key mark_not_ready
  add code = catch (o.bf_add (get_key code) code) (λ e. mark_not_ready >> throw e)

  unfoldable pub group_codes :
      List String → List (String × List String) → List (String × List String)
  unfolding get_key add_to_group
  group_codes [] groups = groups
  group_codes (code ∷ codes) groups = group_codes codes (add_to_group (get_key code) code groups)

  unfoldable pub madd_groups : List (String × List String) → Eff E (Shared R) (Unit {0})
  madd_groups [] = pure tt
  madd_groups ((key, codes) ∷ groups) = do o.bf_madd key codes; madd_groups groups

  unfoldable pub add_many : List String → Eff E (Shared R) (Unit {0})
  unfolding group_codes madd_groups mark_not_ready
  add_many [] = pure tt
  add_many (code ∷ codes) =
      catch (madd_groups (group_codes (code ∷ codes) [])) (λ e. mark_not_ready >> throw e)

  -- What the script's reply says: -1 that the bucket is missing, 1 that the code may be there.
  unfoldable pub judge : ℤ → Eff E (Shared R) Bool
  unfolding mark_not_ready
  judge (negsuc n) = if n == 0 then (mark_not_ready >> pure true) else pure false
  judge (pos n) = pure (n == 1)

  unfoldable pub ask_filter : String → Eff E (Shared R) Bool
  unfolding get_key judge
  ask_filter code =
      catch (do result ← o.eval_safe_exists (get_key code) code; judge result) (λ e. pure true)

  unfoldable pub might_contain : CacheEnv → String → Eff E (Shared R) Bool
  unfolding ask_filter
  might_contain env code s =
      if not env.bloom_enabled
      then ok true s
      else if not s.bloom_ready
      then ok true s
      else ask_filter code s
