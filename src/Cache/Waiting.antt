-- ===== src/Cache/Waiting.antt =====
-- A request through the layered cache, while the breaker waits for a probe: what is left of it.
use nest_shortlink_platform.Common.{
  ℕ, zero, suc, ◌+◌, ◌≡◌, ◌⊎◌, refl, ◌∙◌, inl, inr, String, Option, none, some, Bool, true, false,
  Bool-cases, ◌==◌, nat_eq, not, if◌then◌else◌,
}
use nest_shortlink_platform.Common.Int.{ℤ, pos, negsuc}
use nest_shortlink_platform.Common.Effects.{Outcome, ok, threw, Eff, ◌>>=◌, state_of}
use nest_shortlink_platform.Circuit.Behaviour.{IsProbing}
use nest_shortlink_platform.Cache.{Shared, Request, Outside, CacheEnv, lift}
use nest_shortlink_platform.Cache.Cluster.{
  cluster_get, cluster_set, acquire_lock, release_lock, is_ok,
}
use nest_shortlink_platform.Cache.Bloom.{might_contain, ask_filter, judge, get_key, mark_not_ready}
use nest_shortlink_platform.Cache.Resolve.{
  CacheResolveResult, result, from_cached, cached_layer, l1, bloom_negative, db, cache_key,
  lock_key, set_local, get_local, use_cached, keep_loaded, rebuild, releasing, poll, wait_for_cache,
  lock_and_rebuild, ask_redis, ask_bloom, resolve, null_value,
}

module _ {E R : Type 0} (o : Outside E R) (env : CacheEnv) where
  abbrev pub Waits : Shared R → Type 0
  Waits s = IsProbing env.circuit s.breaker

  abbrev pub Quiet : {A : Type 0} → Eff E (Shared R) A → Type 0
  Quiet m = (s : Shared R) → Waits s → Waits (state_of (m s))

  -- While a call of the outside is awaited, no other request reports to the breaker: as long as it
  -- waits for the probe, the requests that come pass the cache by.
  pub record IsQuiet : Type 0 where
    pub gets : (key : String) → Quiet (o.get key)
    pub sets : (key value : String) → Quiet (o.set key value)
    pub sets_ex : (key value : String) (ttl : ℕ) → Quiet (o.set_ex key value ttl)
    pub locks : (key token : String) (ttl : ℕ) → Quiet (o.set_px_nx key token ttl)
    pub unlocks : (key token : String) → Quiet (o.eval_unlock key token)
    pub filters : (key code : String) → Quiet (o.eval_safe_exists key code)
    pub pings : Quiet o.ping
    pub sleeps : (ms : ℕ) → Quiet (o.sleep ms)
    pub draws : (bound : ℕ) → Quiet (o.random_below bound)
    pub names : Quiet o.random_uuid

  module _ (Thrown : E → Type 0) where
    -- The load has not failed, or it has: then its exception is thrown, and the breaker waits.
    abbrev pub Calm : {A : Type 0} → Outcome E (Request R) A → Type 0
    Calm (ok a t) = Waits t.shared × (t.database_loader_failed ≡ false)
    Calm (threw e t) =
        (t.database_loader_failed ≡ false)
        ⊎ ((t.database_loader_failed ≡ true) × Thrown e × Waits t.shared)

    abbrev pub Calms : {A : Type 0} → Eff E (Request R) A → Type 0
    Calms m = (q : Request R) → Waits q.shared → q.database_loader_failed ≡ false → Calm (m q)

    pub Calm-bind :
        {A B : Type 0} (r : Outcome E (Request R) A) (f : A → Eff E (Request R) B)
        → Calm r
        → ((a : A) → Calms (f a))
        → Calm (elim r [ ok a t ↦ f a t | threw e t ↦ threw e t ])
    Calm-bind (ok a t) f (w, h) k = k a t w h
    Calm-bind (threw e t) f h k = h

    pub lift-Calms : {A : Type 0} (m : Eff E (Shared R) A) → Quiet m → Calms (lift m)
    lift-Calms {A} m quiet q w h = go (m q.shared) (quiet q.shared w)
      where
        go :
            (r : Outcome E (Shared R) A)
            → Waits (state_of r)
            → Calm (elim r as (λ x. Outcome E (Request R) A) [
              | ok a t ↦ ok a (record q { shared = t })
              | threw e t ↦ threw e (record q { shared = t })
            ])
        go (ok a t) k = (k, h)
        go (threw e t) k = inl h

  lift-Waits :
      {A : Type 0} (m : Eff E (Shared R) A) (q : Request R)
      → Quiet m
      → Waits q.shared
      → Waits (state_of (lift m q)).shared
  lift-Waits {A} m q quiet w = go (m q.shared) (quiet q.shared w)
    where
      go :
          (r : Outcome E (Shared R) A)
          → Waits (state_of r)
          → Waits
              (state_of (elim r as (λ x. Outcome E (Request R) A) [
                | ok a t ↦ ok a (record q { shared = t })
                | threw e t ↦ threw e (record q { shared = t })
              ])).shared
      go (ok a t) k = k
      go (threw e t) k = k

  lift-flag :
      {A : Type 0} (m : Eff E (Shared R) A) (q : Request R)
      → (state_of (lift m q)).database_loader_failed ≡ q.database_loader_failed
  lift-flag {A} m q = go (m q.shared)
    where
      go :
          (r : Outcome E (Shared R) A)
          → (state_of (elim r as (λ x. Outcome E (Request R) A) [
            | ok a t ↦ ok a (record q { shared = t })
            | threw e t ↦ threw e (record q { shared = t })
          ])).database_loader_failed
            ≡ q.database_loader_failed
      go (ok a t) = refl
      go (threw e t) = refl

  judge-Quiet : (reply : ℤ) → Quiet (judge o reply)
  unfolding judge mark_not_ready
  judge-Quiet (pos n) s w = w
  judge-Quiet (negsuc n) s w = elim (Bool-cases (n == 0)) [
    | inl missing ↦ rw missing w
    | inr other ↦ rw other w
  ]

  ask_filter-Quiet : IsQuiet → (code : String) → Quiet (ask_filter o code)
  unfolding ask_filter
  ask_filter-Quiet quiet code s w =
      replied (o.eval_safe_exists (get_key o code) code s) (quiet.filters (get_key o code) code s w)
    where
      judged :
          (r : Outcome E (Shared R) Bool)
          → Waits (state_of r)
          → Waits (
              state_of (elim r as (λ x. Outcome E (Shared R) Bool) [
                | ok a t ↦ ok a t
                | threw e t ↦ ok true t
              ]))
      judged (ok a t) k = k
      judged (threw e t) k = k

      replied :
          (r : Outcome E (Shared R) ℤ)
          → Waits (state_of r)
          → Waits (
              state_of
                (elim (elim r as (λ x. Outcome E (Shared R) Bool) [
                  | ok reply t ↦ judge o reply t
                  | threw e t ↦ threw e t
                ])
                  as (λ x. Outcome E (Shared R) Bool) [ ok a t ↦ ok a t | threw e t ↦ ok true t ]))
      replied (ok reply t) k = judged (judge o reply t) (judge-Quiet reply t k)
      replied (threw e t) k = k

  might_contain-Quiet : IsQuiet → (code : String) → Quiet (might_contain o env code)
  unfolding might_contain
  might_contain-Quiet quiet code s w = elim (Bool-cases (not env.bloom_enabled)) [
    | inl off ↦ rw off w
    | inr on ↦ elim (Bool-cases (not s.bloom_ready)) [
      | inl loading ↦ rw (on, loading) w
      | inr ready ↦ rw (on, ready) (ask_filter-Quiet quiet code s w)
    ]
  ]

  cluster_set-Quiet :
      IsQuiet → (key value : String) (ttl : Option ℕ) → Quiet (cluster_set o key value ttl)
  unfolding cluster_set
  cluster_set-Quiet quiet key value none s w = quiet.sets key value s w
  cluster_set-Quiet quiet key value (some ttl) s w = elim (Bool-cases (ttl == 0)) [
    | inl never ↦ rw never (quiet.sets key value s w)
    | inr other ↦ rw other (quiet.sets_ex key value ttl s w)
  ]

  acquire_lock-Quiet :
      IsQuiet → (key token : String) (ttl : ℕ) → Quiet (acquire_lock o key token ttl)
  unfolding acquire_lock
  acquire_lock-Quiet quiet key token ttl s w =
      go (o.set_px_nx key token ttl s) (quiet.locks key token ttl s w)
    where
      go :
          (r : Outcome E (Shared R) (Option String))
          → Waits (state_of r)
          → Waits (
              state_of (elim r as (λ x. Outcome E (Shared R) Bool) [
                | ok a t ↦ ok (is_ok o a) t
                | threw e t ↦ threw e t
              ]))
      go (ok a t) k = k
      go (threw e t) k = k

  module _ (Thrown : E → Type 0) (quiet : IsQuiet) where
    set_local-Calms :
        (key : String) (value : Option String) → Calms Thrown (set_local o env key value)
    unfolding set_local
    set_local-Calms key value q w h = elim (Bool-cases env.l1_enabled) [
      | inl on ↦ rw on (w, h)
      | inr off ↦ rw off (w, h)
    ]

    get_local-Calms : (key : String) → Calms Thrown (get_local o env key)
    unfolding get_local
    get_local-Calms key q w h = elim (Bool-cases env.l1_enabled) [
      | inl on ↦ rw on (w, h)
      | inr off ↦ rw off (w, h)
    ]

    get-Calms : (key : String) → Calms Thrown (lift (cluster_get o key))
    unfolding cluster_get
    get-Calms key = lift-Calms Thrown (o.get key) (quiet.gets key)

    use_cached-Calms : (key text : String) → Calms Thrown (use_cached o env key text)
    unfolding use_cached
    use_cached-Calms key text q w h =
        Calm-bind Thrown (set_local o env key _ q) (λ _. _) (set_local-Calms key _ q w h)
          (λ _ t k f. (k, f))

    keep_loaded-Calms :
        (key : String) (value : Option String) → Calms Thrown (keep_loaded o env key value)
    unfolding keep_loaded
    keep_loaded-Calms key none q w h =
        Calm-bind Thrown (lift (cluster_set o key null_value (some 30)) q) (λ _. _)
          (lift-Calms Thrown (cluster_set o key null_value (some 30))
            (cluster_set-Quiet quiet key null_value (some 30)) q w h)
          (λ _ t k f.
            Calm-bind Thrown (set_local o env key none t) (λ _. _) (set_local-Calms key none t k f)
              (λ _ u i g. (i, g)))
    keep_loaded-Calms key (some value) q w h =
        Calm-bind Thrown (lift (o.random_below 60) q) (λ _. _)
          (lift-Calms Thrown (o.random_below 60) (quiet.draws 60) q w h)
          (λ jitter t k f.
            Calm-bind Thrown (lift (cluster_set o key value (some (300 + jitter))) t) (λ _. _)
              (lift-Calms Thrown (cluster_set o key value (some (300 + jitter)))
                (cluster_set-Quiet quiet key value (some (300 + jitter))) t k f)
              (λ _ u i g.
                Calm-bind Thrown (set_local o env key (some value) u) (λ _. _)
                  (set_local-Calms key (some value) u i g) (λ _ v j e. (j, e))))

    module _ (loader : Eff E (Request R) (Option String)) (loads : Calms Thrown loader) where
      rebuild-Calms : (key : String) → Calms Thrown (rebuild o env key loader)
      unfolding rebuild
      rebuild-Calms key q w h =
          Calm-bind Thrown (lift (cluster_get o key) q) (λ _. _) (get-Calms key q w h) again
        where
          again :
              (cached : Option String)
              → Calms Thrown (elim cached [
                | some text ↦
                    λ t. ok (result (from_cached text) (cached_layer (from_cached text))) t
                | none ↦ loader >>= keep_loaded o env key
              ])
          again (some text) t k f = (k, f)
          again none t k f =
              Calm-bind Thrown (loader t) (keep_loaded o env key) (loads t k f)
                (keep_loaded-Calms key)

      releasing-Calms :
          (key token : String) (m : Eff E (Request R) CacheResolveResult)
          → Calms Thrown m
          → Calms Thrown (releasing o env key token m)
      unfolding releasing release_lock
      releasing-Calms key token m calm q w h = go (m q) (calm q w h)
        where
          release : Eff E (Shared R) (Unit {0})
          release = o.eval_unlock key token

          go :
              (r : Outcome E (Request R) CacheResolveResult)
              → Calm Thrown r
              → Calm Thrown (elim r as (λ x. Outcome E (Request R) CacheResolveResult) [
                | ok a t ↦ ok a (state_of (lift release t))
                | threw e t ↦ threw e (state_of (lift release t))
              ])
          go (ok a t) (k, f) =
              (lift-Waits release t (quiet.unlocks key token) k, lift-flag release t ∙ f)
          go (threw e t) (inl f) = inl (lift-flag release t ∙ f)
          go (threw e t) (inr (f, thrown, k)) =
              inr
                (lift-flag release t ∙ f, thrown, lift-Waits release t (quiet.unlocks key token) k)

      poll-Calms : (rounds : ℕ) (key : String) → Calms Thrown (poll o env rounds key loader)
      unfolding poll
      poll-Calms zero key q w h =
          Calm-bind Thrown (loader q) (λ value t. ok (result value db) t) (loads q w h)
            (λ _ t k f. (k, f))
      poll-Calms (suc rounds) key q w h =
          Calm-bind Thrown (lift (o.random_below 20) q) (λ _. _)
            (lift-Calms Thrown (o.random_below 20) (quiet.draws 20) q w h)
            (λ jitter t k f.
              Calm-bind Thrown (lift (o.sleep (40 + jitter)) t) (λ _. _)
                (lift-Calms Thrown (o.sleep (40 + jitter)) (quiet.sleeps (40 + jitter)) t k f)
                (λ _ u i g.
                  Calm-bind Thrown (lift (cluster_get o key) u) (λ _. _) (get-Calms key u i g)
                    (seen (poll-Calms rounds key))))
        where
          seen :
              Calms Thrown (poll o env rounds key loader)
              → (cached : Option String)
              → Calms Thrown (elim cached [
                | some text ↦ use_cached o env key text
                | none ↦ poll o env rounds key loader
              ])
          seen rest (some text) = use_cached-Calms key text
          seen rest none = rest

      lock_and_rebuild-Calms : (code : String) → Calms Thrown (lock_and_rebuild o env code loader)
      unfolding lock_and_rebuild wait_for_cache
      lock_and_rebuild-Calms code q w h =
          Calm-bind Thrown (lift o.random_uuid q) (λ _. _)
            (lift-Calms Thrown o.random_uuid quiet.names q w h)
            (λ token t k f.
              Calm-bind Thrown (lift (acquire_lock o (lock_key code) token 5000) t) (λ _. _)
                (lift-Calms Thrown (acquire_lock o (lock_key code) token 5000)
                  (acquire_lock-Quiet quiet (lock_key code) token 5000) t k f)
                (taken token))
        where
          taken :
              (token : String) (locked : Bool)
              → Calms Thrown (
                  if locked
                  then releasing o env (lock_key code) token (rebuild o env (cache_key code) loader)
                  else poll o env 40 (cache_key code) loader)
          taken token true =
              releasing-Calms (lock_key code) token _ (rebuild-Calms (cache_key code))
          taken token false = poll-Calms 40 (cache_key code)

      ask_redis-Calms : (code : String) → Calms Thrown (ask_redis o env code loader)
      unfolding ask_redis
      ask_redis-Calms code q w h =
          Calm-bind Thrown (lift (cluster_get o (cache_key code)) q) (λ _. _)
            (get-Calms (cache_key code) q w h) seen
        where
          seen :
              (cached : Option String)
              → Calms Thrown (elim cached [
                | some text ↦ use_cached o env (cache_key code) text
                | none ↦ lock_and_rebuild o env code loader
              ])
          seen (some text) = use_cached-Calms (cache_key code) text
          seen none = lock_and_rebuild-Calms code

      ask_bloom-Calms : (code : String) → Calms Thrown (ask_bloom o env code loader)
      unfolding ask_bloom
      ask_bloom-Calms code q w h =
          Calm-bind Thrown (lift (might_contain o env code) q) (λ _. _)
            (lift-Calms Thrown (might_contain o env code) (might_contain-Quiet quiet code) q w h)
            told
        where
          told :
              (might_exist : Bool)
              → Calms Thrown (
                  if might_exist
                  then ask_redis o env code loader
                  else (λ t. ok (result none bloom_negative) t))
          told true t k f = ask_redis-Calms code t k f
          told false t k f = (k, f)

      -- The resolution keeps the breaker waiting; if the load failed, it throws what the load threw.
      pub resolve-Calms : (code : String) → Calms Thrown (resolve o env code loader)
      unfolding resolve
      resolve-Calms code q w h =
          Calm-bind Thrown (get_local o env (cache_key code) q) (λ _. _)
            (get_local-Calms (cache_key code) q w h) found
        where
          found :
              (local : Option (Option String))
              → Calms Thrown (elim local [
                | some value ↦ λ t. ok (result value l1) t
                | none ↦ ask_bloom o env code loader
              ])
          found (some value) t k f = (k, f)
          found none t k f = ask_bloom-Calms code t k f
