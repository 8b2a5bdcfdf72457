-- ===== src/Cache/Coherence.antt =====
-- When the caches agree with the database, what Redis and the filter promise, and what the filter
-- then answers.
pub mod Rebuild
pub mod Resolve
use nest_shortlink_platform.Common.{
  ℕ, zero, suc, ◌+◌, ◌≡◌, ◌≢◌, ◌⊎◌, refl, sym, ap, ◌∙◌, inl, inr, String, Option, none, some, Bool,
  true, false, ◌==◌, string_eq, nat_eq, eq_iff, Bool-cases, if◌then◌else◌, if_elim, arith, not,
  List,
}
use nest_shortlink_platform.Common.Int.{ℤ, pos, negsuc}
use nest_shortlink_platform.Common.Effects.{Outcome, ok, threw, Eff, pure, ◌>>=◌, ◌>>◌, state_of}
use nest_shortlink_platform.Common.Ensures.{
  Ensures, Returns, Ensures-bind, Ensures-catch, Ensures-state, Ensures-of_Returns,
}
use nest_shortlink_platform.HotCache as Hot
use nest_shortlink_platform.HotCache.Laws.{
  HotAgrees, HotAgrees-set, HotAgrees-get, get-HotAgrees, HotAgrees-delete,
}
use nest_shortlink_platform.Cache.{Shared, Request, Outside, CacheEnv, lift}
use nest_shortlink_platform.Cache.Cluster.{
  cluster_get, cluster_set, acquire_lock, release_lock, is_ok,
}
use nest_shortlink_platform.Cache.Bloom.{might_contain, ask_filter, judge, get_key, mark_not_ready}
use nest_shortlink_platform.Cache.Resolve.{
  null_value, CacheResolveResult, l1, db, bloom_negative, result, cache_key, lock_key, from_cached,
  cached_layer, set_local, get_local, use_cached, keep_loaded, rebuild, releasing, poll,
  wait_for_cache, lock_and_rebuild, ask_redis, ask_bloom, resolve,
}

-- What Redis holds for a code, if the database holds `truth`: the text, or the mark for none.
abbrev pub Represents : Option String → String → Type 0
Represents none text = text ≡ null_value
Represents (some value) text = (text ≡ value) × (value ≢ null_value)

abbrev pub Read : Option String → Option String → Type 0
Read truth none = Unit {0}
Read truth (some text) = Represents truth text

from_cached-Represents :
    (truth : Option String) (text : String) → Represents truth text → from_cached text ≡ truth
unfolding from_cached
from_cached-Represents none text h = ground (arith, eq_iff text null_value)
from_cached-Represents (some value) text h = ground (arith, eq_iff text null_value)

abbrev pub Whatever : {A : Type 0} → A → Type 0
Whatever x = Unit {0}

module _ {E R : Type 0} (o : Outside E R) (code : String) (truth : Option String)
    (Agrees : R → Type 0) where
  -- The local cache agrees with the database on the code, and so does what is outside.
  abbrev pub Coherent : Shared R → Type 0
  Coherent s = HotAgrees (cache_key code) truth s.hot × Agrees s.outside

  abbrev pub Keeps : {A : Type 0} → (A → Type 0) → Eff E (Shared R) A → Type 0
  Keeps Q m = (s : Shared R) → Coherent s → Ensures Coherent Q (m s)

  -- What the services promise: Redis returns for the code's key what was written there, so the
  -- database's value as long as only that is written; the filter denies a code only if the database
  -- has none; and the other requests of all processes, which run while a call is awaited, keep to
  -- the same rule. Each promise holds of a call that throws as well.
  pub record Honest : Type 0 where
    pub reads : Keeps (Read truth) (o.get (cache_key code))
    pub writes :
        (text : String) (ttl : ℕ)
        → Represents truth text
        → Keeps (λ _. Unit {0}) (o.set_ex (cache_key code) text ttl)
    pub locks :
        (token : String) (ttl : ℕ) → Keeps (λ _. Unit {0}) (o.set_px_nx (lock_key code) token ttl)
    pub unlocks : (token : String) → Keeps (λ _. Unit {0}) (o.eval_unlock (lock_key code) token)
    pub filters :
        Keeps
          (λ reply. (reply ≡ pos 1) ⊎ (reply ≡ negsuc 0) ⊎ (truth ≡ none))
          (o.eval_safe_exists (get_key o code) code)
    pub pings : Keeps (λ _. Unit {0}) o.ping
    pub sleeps : (ms : ℕ) → Keeps (λ _. Unit {0}) (o.sleep ms)
    pub draws : (bound : ℕ) → Keeps (λ _. Unit {0}) (o.random_below bound)
    pub names : Keeps (λ _. Unit {0}) o.random_uuid

  -- A request whose loader has not failed, in a coherent process.
  abbrev pub Sound : Request R → Type 0
  Sound q = Coherent q.shared × (q.database_loader_failed ≡ false)

  pub lift-Ensures :
      {A : Type 0} (Q : A → Type 0) (m : Eff E (Shared R) A) (q : Request R)
      → Ensures Coherent Q (m q.shared)
      → q.database_loader_failed ≡ false
      → Ensures Sound Q (lift m q)
  lift-Ensures {A} Q m q h f = go (m q.shared) h
    where
      go :
          (r : Outcome E (Shared R) A)
          → Ensures Coherent Q r
          → Ensures Sound Q (elim r [
            | ok a t ↦ ok a (record q { shared = t })
            | threw e t ↦ threw e (record q { shared = t })
          ])
      go (ok a t) k = (k.0, (k.1, f))
      go (threw e t) k = (k, f)

  judge-Ensures :
      (reply : ℤ) (s : Shared R)
      → (reply ≡ pos 1) ⊎ (reply ≡ negsuc 0) ⊎ (truth ≡ none)
      → Coherent s
      → Ensures Coherent (λ b. (b ≡ true) ⊎ (truth ≡ none)) (judge o reply s)
  unfolding judge mark_not_ready
  judge-Ensures (pos n) s why h = ground arith
  judge-Ensures (negsuc n) s why h = ground arith

  module _ (honest : Honest) where
    ask_filter-Ensures :
        (s : Shared R)
        → Coherent s
        → Ensures Coherent (λ b. (b ≡ true) ⊎ (truth ≡ none)) (ask_filter o code s)
    unfolding ask_filter
    ask_filter-Ensures s h =
        Ensures-catch Coherent _ (o.eval_safe_exists (get_key o code) code >>= judge o) _ s
          (Ensures-bind Coherent _ (λ b. (b ≡ true) ⊎ (truth ≡ none)) _ (judge o)
            (honest.filters s h) judge-Ensures)
          (λ e t k. (inl refl, k))

    pub might_contain-Ensures :
        (env : CacheEnv) (s : Shared R)
        → Coherent s
        → Ensures Coherent (λ b. (b ≡ true) ⊎ (truth ≡ none)) (might_contain o env code s)
    unfolding might_contain
    might_contain-Ensures env s h =
        if_elim (Ensures Coherent (λ b. (b ≡ true) ⊎ (truth ≡ none))) (not env.bloom_enabled) _ _
          (λ _. (inl refl, h))
          (λ _.
            if_elim (Ensures Coherent (λ b. (b ≡ true) ⊎ (truth ≡ none))) (not s.bloom_ready) _ _
              (λ _. (inl refl, h)) (λ _. ask_filter-Ensures s h))
