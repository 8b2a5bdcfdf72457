-- ===== src/Cache/Coherence/Resolve.antt =====
-- Whatever layer answers, and whichever call to Redis throws, `resolve` returns what the database
-- holds.
use nest_shortlink_platform.Common.{
  ℕ, zero, suc, ◌+◌, ◌≡◌, ◌≢◌, ◌⊎◌, refl, sym, inl, inr, String, Option, none, some, Bool, true,
  false, string_eq, nat_eq, if◌then◌else◌, if_elim,
}
use nest_shortlink_platform.Common.Effects.{Eff, pure, ◌>>=◌, ◌>>◌}
use nest_shortlink_platform.Common.Ensures.{Ensures, Returns, Ensures-bind, Ensures-of_Returns}
use nest_shortlink_platform.Cache.{Shared, Request, Outside, CacheEnv, lift}
use nest_shortlink_platform.Cache.Cluster.{cluster_get, acquire_lock, is_ok}
use nest_shortlink_platform.Cache.Bloom.{might_contain}
use nest_shortlink_platform.Cache.Resolve.{
  null_value, CacheResolveResult, l1, db, bloom_negative, result, cache_key, lock_key, get_local,
  use_cached, rebuild, releasing, poll, wait_for_cache, lock_and_rebuild, ask_redis, ask_bloom,
  resolve,
}
use nest_shortlink_platform.Cache.Coherence as Coherence
use nest_shortlink_platform.Cache.Coherence.{
  Represents, Read, Whatever, from_cached-Represents, Honest, lift-Ensures, might_contain-Ensures,
}
use nest_shortlink_platform.Cache.Coherence.Rebuild.{
  use_cached-Ensures, lift-bind, rebuild-Ensures, releasing-Ensures, get_local-Ensures,
}

-- The texts that the database gives out are never the mark.
module _ {E R : Type 0} (o : Outside E R) (code : String) (truth : Option String)
    (Agrees : R → Type 0) (honest : Honest o code truth Agrees) (env : CacheEnv)
    (unmarked : (v : String) → truth ≡ some v → v ≢ null_value)
    (loader : Eff E (Request R) (Option String))
    (loads : (q : Request R)
      → Coherence.Sound o code truth Agrees q
      → Returns (Coherence.Sound o code truth Agrees) (λ v. v ≡ truth) (loader q)) where
  abbrev Coherent : Shared R → Type 0
  Coherent = Coherence.Coherent o code truth Agrees

  abbrev Sound : Request R → Type 0
  Sound = Coherence.Sound o code truth Agrees

  abbrev Keeps : {A : Type 0} → (A → Type 0) → Eff E (Shared R) A → Type 0
  Keeps = Coherence.Keeps o code truth Agrees

  abbrev Answers : CacheResolveResult → Type 0
  Answers r = r.value ≡ truth

  -- What follows a read of Redis that is not the double check.
  abbrev or_else :
      Eff E (Request R) CacheResolveResult → Option String → Eff E (Request R) CacheResolveResult
  or_else m none = m
  or_else m (some text) = use_cached o env (cache_key code) text

  or_else-Ensures :
      (m : Eff E (Request R) CacheResolveResult) (cached : Option String) (t : Request R)
      → Read truth cached
      → Sound t
      → Ensures Sound Answers (m t)
      → Ensures Sound Answers (or_else m cached t)
  or_else-Ensures m none t r k h = h
  or_else-Ensures m (some text) t r k h =
      use_cached-Ensures o code truth Agrees honest env unmarked loader loads text t r k

  poll-Ensures :
      (rounds : ℕ) (q : Request R)
      → Sound q
      → Ensures Sound Answers (poll o env rounds (cache_key code) loader q)
  unfolding poll cluster_get
  poll-Ensures zero q h =
      Ensures-bind Sound (λ v. v ≡ truth) Answers (loader q) (λ v. pure (result v db))
        (Ensures-of_Returns Sound _ (loader q) (loads q h)) (λ v t e k. (e, k))
  poll-Ensures (suc rounds) q h =
      lift-bind o code truth Agrees honest env unmarked loader loads Whatever (o.random_below 20)
        (λ jitter.
          lift (o.sleep (40 + jitter))
          >> (lift (o.get (cache_key code))
              >>= or_else (poll o env rounds (cache_key code) loader)))
        q (honest.draws 20) h
        (λ jitter t _ k.
          lift-bind o code truth Agrees honest env unmarked loader loads Whatever
            (o.sleep (40 + jitter))
            (λ _.
              lift (o.get (cache_key code)) >>= or_else (poll o env rounds (cache_key code) loader))
            t (honest.sleeps (40 + jitter)) k
            (λ _ u _ l.
              lift-bind o code truth Agrees honest env unmarked loader loads (Read truth)
                (o.get (cache_key code)) (or_else (poll o env rounds (cache_key code) loader)) u
                honest.reads l
                (λ cached w r m.
                  or_else-Ensures (poll o env rounds (cache_key code) loader) cached w r m
                    (poll-Ensures rounds w m))))

  acquire_lock-Keeps : (token : String) → Keeps Whatever (acquire_lock o (lock_key code) token 5000)
  unfolding acquire_lock
  acquire_lock-Keeps token s h =
      Ensures-bind Coherent Whatever Whatever (o.set_px_nx (lock_key code) token 5000 s)
        (λ reply. pure (is_ok o reply)) (honest.locks token 5000 s h) (λ _ t _ k. (tt, k))

  abbrev with_lock : String → Bool → Eff E (Request R) CacheResolveResult
  with_lock token locked =
      if locked
      then releasing o env (lock_key code) token (rebuild o env (cache_key code) loader)
      else poll o env 40 (cache_key code) loader

  lock_and_rebuild-Ensures :
      (q : Request R) → Sound q → Ensures Sound Answers (lock_and_rebuild o env code loader q)
  unfolding lock_and_rebuild wait_for_cache
  lock_and_rebuild-Ensures q h =
      lift-bind o code truth Agrees honest env unmarked loader loads Whatever o.random_uuid
        (λ token. lift (acquire_lock o (lock_key code) token 5000) >>= with_lock token) q
        honest.names h
        (λ token t _ k.
          lift-bind o code truth Agrees honest env unmarked loader loads Whatever
            (acquire_lock o (lock_key code) token 5000) (with_lock token) t
            (acquire_lock-Keeps token) k
            (λ locked u _ l.
              if_elim (λ m. Ensures Sound Answers (m u)) locked
                (releasing o env (lock_key code) token (rebuild o env (cache_key code) loader))
                (poll o env 40 (cache_key code) loader)
                (λ _.
                  releasing-Ensures o code truth Agrees honest env unmarked loader loads token
                    (rebuild o env (cache_key code) loader) u
                    (rebuild-Ensures o code truth Agrees honest env unmarked loader loads u l))
                (λ _. poll-Ensures 40 u l)))

  ask_redis-Ensures :
      (q : Request R) → Sound q → Ensures Sound Answers (ask_redis o env code loader q)
  unfolding ask_redis cluster_get
  ask_redis-Ensures q h =
      lift-bind o code truth Agrees honest env unmarked loader loads (Read truth)
        (o.get (cache_key code)) (or_else (lock_and_rebuild o env code loader)) q honest.reads h
        (λ cached t r k.
          or_else-Ensures (lock_and_rebuild o env code loader) cached t r k
            (lock_and_rebuild-Ensures t k))

  ask_bloom-Ensures :
      (q : Request R) → Sound q → Ensures Sound Answers (ask_bloom o env code loader q)
  unfolding ask_bloom
  ask_bloom-Ensures q h =
      lift-bind o code truth Agrees honest env unmarked loader loads
        (λ b. (b ≡ true) ⊎ (truth ≡ none)) (might_contain o env code)
        (λ might. if might then ask_redis o env code loader else pure (result none bloom_negative))
        q (might_contain-Ensures o code truth Agrees honest env) h denied
    where
      denied :
          (might : Bool) (t : Request R)
          → (might ≡ true) ⊎ (truth ≡ none)
          → Sound t
          → Ensures Sound Answers
              ((if might then ask_redis o env code loader else pure (result none bloom_negative)) t)
      denied true t why k = ask_redis-Ensures t k
      denied false t (inl no_way) k = cc
      denied false t (inr absent) k = (sym absent, k)

  abbrev after_local : Option (Option String) → Eff E (Request R) CacheResolveResult
  after_local none = ask_bloom o env code loader
  after_local (some value) = pure (result value l1)

  -- If the process is coherent for the code, the services keep their promises (`Honest`), no text
  -- of the database is the mark for none, and the loader returns what the database holds: if
  -- `resolve` returns, then with what the database holds, from whichever layer, and it leaves the
  -- process coherent whether it returns or throws.
  pub resolve-Ensures :
      (q : Request R) → Sound q → Ensures Sound Answers (resolve o env code loader q)
  unfolding resolve
  resolve-Ensures q h =
      Ensures-bind Sound (λ local. (v : Option String) → local ≡ some v → v ≡ truth) Answers
        (get_local o env (cache_key code) q) after_local
        (get_local-Ensures o code truth Agrees honest env unmarked loader loads q h) next
    where
      next :
          (local : Option (Option String)) (t : Request R)
          → ((v : Option String) → local ≡ some v → v ≡ truth)
          → Sound t
          → Ensures Sound Answers (after_local local t)
      next none t r k = ask_bloom-Ensures t k
      next (some value) t r k = (r value refl, k)
