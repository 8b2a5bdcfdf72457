-- ===== src/Cache/Coherence/Rebuild.antt =====
-- The rebuild under the lock, and what the services keep of an answer.
use nest_shortlink_platform.Common.{
  ℕ, ◌+◌, ◌≡◌, ◌≢◌, refl, sym, inl, inr, String, Option, none, some, false, ◌==◌, string_eq, nat_eq,
  Bool-cases, arith,
}
use nest_shortlink_platform.Common.Effects.{Outcome, ok, threw, Eff, pure, ◌>>=◌, ◌>>◌, state_of}
use nest_shortlink_platform.Common.Ensures.{
  Ensures, Returns, Ensures-bind, Ensures-state, Ensures-of_Returns,
}
use nest_shortlink_platform.HotCache.Laws.{HotAgrees-set, HotAgrees-get, get-HotAgrees}
use nest_shortlink_platform.Cache.{Shared, Request, Outside, CacheEnv, lift}
use nest_shortlink_platform.Cache.Cluster.{cluster_get, cluster_set, release_lock}
use nest_shortlink_platform.Cache.Resolve.{
  null_value, CacheResolveResult, db, result, cache_key, lock_key, from_cached, cached_layer,
  set_local, get_local, use_cached, keep_loaded, rebuild, releasing,
}
use nest_shortlink_platform.Cache.Coherence as Coherence
use nest_shortlink_platform.Cache.Coherence.{
  Represents, Read, Whatever, from_cached-Represents, Honest, lift-Ensures, might_contain-Ensures,
}

-- The texts that the database gives out are never the mark.
module _ {E R : Type 0} (o : Outside E R) (code : String) (truth : Option String)
    (Agrees : R → Type 0) (honest : Honest o code truth Agrees) (env : CacheEnv)
    (unmarked : (v : String) → truth ≡ some v → v ≢ null_value)
    (loader : Eff E (Request R) (Option String))
    (loads : (q : Request R)
      → Coherence.Sound o code truth Agrees q
      → Returns (Coherence.Sound o code truth Agrees) (λ v. v ≡ truth) (loader q)) where
  abbrev Coherent : Shared R → Type 0
  Coherent = Coherence.Coherent o code truth Agrees

  abbrev Sound : Request R → Type 0
  Sound = Coherence.Sound o code truth Agrees

  abbrev Keeps : {A : Type 0} → (A → Type 0) → Eff E (Shared R) A → Type 0
  Keeps = Coherence.Keeps o code truth Agrees

  set_local-Ensures :
      (q : Request R)
      → Sound q
      → Ensures Sound (λ _. Unit {0}) (set_local o env (cache_key code) truth q)
  unfolding set_local
  set_local-Ensures q (h, f) = elim (Bool-cases env.l1_enabled) [
    | inl on ↦ rw on (
      tt,
      ((HotAgrees-set (cache_key code) truth 2000 (o.now q.shared) q.shared.hot h.0, h.1), f),
    )
    | inr off ↦ rw off (tt, (h, f))
  ]

  pub get_local-Ensures :
      (q : Request R)
      → Sound q
      → Ensures Sound
          (λ local. (v : Option String) → local ≡ some v → v ≡ truth)
          (get_local o env (cache_key code) q)
  unfolding get_local
  get_local-Ensures q (h, f) = elim (Bool-cases env.l1_enabled) [
    | inl on ↦ rw on (
      λ v e. get-HotAgrees (cache_key code) truth v (o.now q.shared) q.shared.hot h.0 e,
      ((HotAgrees-get (cache_key code) truth (o.now q.shared) q.shared.hot h.0, h.1), f),
    )
    | inr off ↦ rw off (λ v e. cc, (h, f))
  ]

  abbrev Answers : CacheResolveResult → Type 0
  Answers r = r.value ≡ truth

  pub use_cached-Ensures :
      (text : String) (q : Request R)
      → Represents truth text
      → Sound q
      → Ensures Sound Answers (use_cached o env (cache_key code) text q)
  unfolding use_cached
  use_cached-Ensures text q r h =
      let same : from_cached text ≡ truth = from_cached-Represents truth text r in
      rw same (
        Ensures-bind Sound (λ _. Unit {0}) Answers _ _ (set_local-Ensures q h)
          (λ _ t _ k. (refl, k)))

  set_local-Ensures_at :
      (v : Option String) (q : Request R)
      → v ≡ truth
      → Sound q
      → Ensures Sound (λ _. Unit {0}) (set_local o env (cache_key code) v q)
  set_local-Ensures_at v q e h = rw e (set_local-Ensures q h)

  cluster_set-Keeps :
      (text : String) (ttl : ℕ)
      → Represents truth text
      → (ttl == 0) ≡ false
      → Keeps (λ _. Unit {0}) (cluster_set o (cache_key code) text (some ttl))
  unfolding cluster_set
  cluster_set-Keeps text ttl r e s h = rw e (honest.writes text ttl r s h)

  -- A call outside, and what follows it.
  pub lift-bind :
      {A : Type 0} (Q : A → Type 0) (m : Eff E (Shared R) A)
      (f : A → Eff E (Request R) CacheResolveResult) (q : Request R)
      → Keeps Q m
      → Sound q
      → ((a : A) (t : Request R) → Q a → Sound t → Ensures Sound Answers (f a t))
      → Ensures Sound Answers ((lift m >>= f) q)
  lift-bind Q m f q kept h k =
      Ensures-bind Sound Q Answers (lift m q) f
        (lift-Ensures o code truth Agrees Q m q (kept q.shared h.0) h.1) k

  -- The end of `keep_loaded`.
  abbrev finish : Option String → Eff E (Request R) CacheResolveResult
  finish v = set_local o env (cache_key code) v >> pure (result v db)

  finish-Ensures :
      (v : Option String) (q : Request R) → v ≡ truth → Sound q → Ensures Sound Answers (finish v q)
  finish-Ensures v q e h =
      Ensures-bind Sound Whatever Answers (set_local o env (cache_key code) v q)
        (λ _. pure (result v db)) (set_local-Ensures_at v q e h) (λ _ t _ k. (e, k))

  keep_loaded-Ensures :
      (v : Option String) (q : Request R)
      → v ≡ truth
      → Sound q
      → Ensures Sound Answers (keep_loaded o env (cache_key code) v q)
  unfolding keep_loaded
  keep_loaded-Ensures none q e h =
      let marked : Represents truth null_value = rw (← e) refl in
      lift-bind Whatever (cluster_set o (cache_key code) null_value (some 30)) (λ _. finish none) q
        (cluster_set-Keeps null_value 30 marked refl) h (λ _ t _ k. finish-Ensures none t e k)
  keep_loaded-Ensures (some value) q e h =
      let held : Represents truth value = rw (← e) (refl, unmarked value (sym e)) in
      lift-bind Whatever (o.random_below 60)
        (λ jitter.
          lift (cluster_set o (cache_key code) value (some (300 + jitter))) >> finish (some value))
        q (honest.draws 60) h
        (λ jitter t _ k.
          lift-bind Whatever (cluster_set o (cache_key code) value (some (300 + jitter)))
            (λ _. finish (some value)) t
            (cluster_set-Keeps value (300 + jitter) held (ground arith)) k
            (λ _ u _ l. finish-Ensures (some value) u e l))

  abbrev load_and_keep : Eff E (Request R) CacheResolveResult
  load_and_keep = loader >>= keep_loaded o env (cache_key code)

  pub load_and_keep-Ensures : (q : Request R) → Sound q → Ensures Sound Answers (load_and_keep q)
  load_and_keep-Ensures q h =
      Ensures-bind Sound (λ v. v ≡ truth) Answers (loader q) (keep_loaded o env (cache_key code))
        (Ensures-of_Returns Sound _ (loader q) (loads q h)) keep_loaded-Ensures

  abbrev after_double_check : Option String → Eff E (Request R) CacheResolveResult
  after_double_check none = load_and_keep
  after_double_check (some text) =
      pure (result (from_cached text) (cached_layer (from_cached text)))

  pub rebuild-Ensures :
      (q : Request R) → Sound q → Ensures Sound Answers (rebuild o env (cache_key code) loader q)
  unfolding rebuild cluster_get
  rebuild-Ensures q h =
      lift-bind (Read truth) (o.get (cache_key code)) after_double_check q honest.reads h again
    where
      again :
          (cached : Option String) (t : Request R)
          → Read truth cached
          → Sound t
          → Ensures Sound Answers (after_double_check cached t)
      again none t r k = load_and_keep-Ensures t k
      again (some text) t r k = (from_cached-Represents truth text r, k)

  pub releasing-Ensures :
      (token : String) (m : Eff E (Request R) CacheResolveResult) (q : Request R)
      → Ensures Sound Answers (m q)
      → Ensures Sound Answers (releasing o env (lock_key code) token m q)
  unfolding releasing release_lock
  releasing-Ensures token m q h = go (m q) h
    where
      released :
          (t : Request R)
          → Sound t
          → Sound (state_of (lift (o.eval_unlock (lock_key code) token) t))
      released t k = Ensures-state Sound Whatever (lift (o.eval_unlock (lock_key code) token) t) (
          lift-Ensures o code truth Agrees Whatever (o.eval_unlock (lock_key code) token) t
            (honest.unlocks token t.shared k.0) k.1)

      go :
          (r : Outcome E (Request R) CacheResolveResult)
          → Ensures Sound Answers r
          → Ensures Sound Answers (elim r [
            | ok a t ↦ ok a (state_of (lift (o.eval_unlock (lock_key code) token) t))
            | threw e t ↦ threw e (state_of (lift (o.eval_unlock (lock_key code) token) t))
          ])
      go (ok a t) k = (k.0, released t k.1)
      go (threw e t) k = released t k
