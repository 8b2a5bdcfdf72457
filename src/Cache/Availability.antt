-- ===== src/Cache/Availability.antt =====
-- Redis may fail at any call: `get_or_load` still returns what the database holds.
use mathlib.Core.Option
use mathlib.Core.Path.{subst}
use nest_shortlink_platform.Common.{
  ◌≡◌, ◌≢◌, refl, sym, ap, ◌∙◌, String, Option, none, some, true, arith,
}
use nest_shortlink_platform.Common.Effects.{Outcome, ok, threw, Eff, pure, ◌>>=◌, ◌>>◌}
use nest_shortlink_platform.Common.Ensures.{Ensures, Returns, Ensures-bind}
use nest_shortlink_platform.Circuit as Circuit
use nest_shortlink_platform.Circuit.{CacheCircuitPermit, normal, probe, bypass}
use nest_shortlink_platform.Cache.{Shared, Request, Outside, CacheEnv}
use nest_shortlink_platform.Cache.Cluster.{cluster_ping}
use nest_shortlink_platform.Cache.Resolve.{null_value, CacheResolveResult, CacheLayer, resolve}
use nest_shortlink_platform.Cache.Redirect.{
  RedirectSnapshot, CacheType, miss, Json, with_type, layer_type, layer_label, on_breaker,
  count_result, acquire_permit, watched, load_from_database, present, ping_if, through_cache,
  fall_back, parsed, with_permit, get_or_load,
}
use nest_shortlink_platform.Cache.Coherence.{Coherent, Honest, Sound, Whatever, lift-Ensures}
use nest_shortlink_platform.Cache.Coherence.Resolve.{resolve-Ensures}

-- The reader sees the database's snapshot, marked as a hit or a miss, or nothing if there is none.
abbrev pub Presents : Option RedirectSnapshot → Option RedirectSnapshot → Type 0
Presents none seen = seen ≡ none
Presents (some held) seen = (kind : CacheType) × (seen ≡ some (with_type kind held))

-- `JSON.parse` undoes `JSON.stringify` on the snapshot that the database holds, whose text begins
-- with a brace and so is not the mark.
pub record RoundTrips {E : Type 0} (json : Json E) (held : Option RedirectSnapshot) : Type 0 where
  pub parses : (s : RedirectSnapshot) → held ≡ some s → json.parse (json.stringify s) ≡ some s
  pub unmarked : (s : RedirectSnapshot) → held ≡ some s → json.stringify s ≢ null_value

text-unmarked :
    {E : Type 0} (json : Json E) (held : Option RedirectSnapshot) (rt : RoundTrips json held)
    (v : String)
    → Option.map json.stringify held ≡ some v
    → v ≢ null_value
text-unmarked json none rt v e same = cc
text-unmarked json (some s) rt v e same = rt.unmarked s refl (ground arith)

-- What is shown of a text that stands for the database's snapshot.
present-Presents :
    {E R : Type 0} (o : Outside E R) (json : Json E) (env : CacheEnv)
    (held : Option RedirectSnapshot) (rt : RoundTrips json held) (value : Option String)
    (layer : CacheLayer)
    → value ≡ Option.map json.stringify held
    → (seen : Option RedirectSnapshot) × ((q : Request R)
        → present o json env (record { value = value; layer = layer }) q ≡ ok seen q)
      × Presents held seen
unfolding present parsed
present-Presents o json env none rt none layer e = (none, λ q. refl, refl)
present-Presents o json env none rt (some text) layer e = cc
present-Presents o json env (some s) rt none layer e = cc
present-Presents o json env (some s) rt (some text) layer e =
    let same : text ≡ json.stringify s = ground arith in
    (
      some (with_type (layer_type layer) s),
      λ q. rw (same, rt.parses s refl) refl,
      (layer_type layer, refl),
    )

module _ {E R : Type 0} (o : Outside E R) (json : Json E) (env : CacheEnv) (code : String)
    (held : Option RedirectSnapshot) (Agrees : R → Type 0)
    (loader : Eff E (Request R) (Option RedirectSnapshot)) where
  abbrev pub text_of : Option String
  text_of = Option.map json.stringify held

  abbrev pub CoherentFor : Shared R → Type 0
  CoherentFor = Coherent o code text_of Agrees

  -- The database answers every time, and says the same; other requests may run meanwhile.
  abbrev pub Loads : Type 0
  Loads =
      (q : Request R)
      → CoherentFor q.shared
      → Returns (λ t. CoherentFor t.shared × (t.database_loader_failed ≡ q.database_loader_failed))
          (λ v. v ≡ held) (loader q)

  abbrev Settled : Request R → Type 0
  Settled q = Sound o code text_of Agrees q

  module _ (rt : RoundTrips json held) (honest : Honest o code text_of Agrees) (loads : Loads) where
    load_from_database-Returns :
        (q : Request R)
        → CoherentFor q.shared
        → Returns
            (λ t. CoherentFor t.shared)
            (Presents held)
            (load_from_database o json env loader q)
    unfolding load_from_database
    load_from_database-Returns q h = go (loader q) (loads q h)
      where
        go :
            (r : Outcome E (Request R) (Option RedirectSnapshot))
            → Returns
                (λ t. CoherentFor t.shared × (t.database_loader_failed ≡ q.database_loader_failed))
                (λ v. v ≡ held)
                r
            → Returns
                (λ t. CoherentFor t.shared)
                (Presents held)
                (elim r [
                  | ok a t ↦
                      (elim a as (λ x. Eff E (Request R) (Option RedirectSnapshot)) [
                        | none ↦ pure none
                        | some snapshot ↦ pure (some (with_type miss snapshot))
                      ])
                        t
                  | threw e t ↦ threw e t
                ])
        go (ok none t) (e, (k, _)) = (rw (← e) refl, k)
        go (ok (some s) t) (e, (k, _)) = (rw (← e) (miss, refl), k)
        go (threw e t) k = k

    watched-Returns :
        (q : Request R)
        → Settled q
        → Returns Settled (λ v. v ≡ text_of) (watched o json env loader q)
    unfolding watched
    watched-Returns q (h, f) = go (loader q) (loads q h)
      where
        go :
            (r : Outcome E (Request R) (Option RedirectSnapshot))
            → Returns
                (λ t. CoherentFor t.shared × (t.database_loader_failed ≡ q.database_loader_failed))
                (λ v. v ≡ held)
                r
            → Returns Settled
                (λ v. v ≡ text_of)
                (elim r [
                  | ok a t ↦ ok (Option.map json.stringify a) t
                  | threw e t ↦ threw e (record t { database_loader_failed = true })
                ])
        go (ok a t) (e, (k, same)) = (ap (Option.map json.stringify) e, (k, same ∙ f))
        go (threw e t) k = k

    present-Ensures :
        (r : CacheResolveResult) (q : Request R)
        → r.value ≡ text_of
        → Settled q
        → Ensures Settled (Presents held) (present o json env r q)
    present-Ensures r q e h =
        let (seen, same, shown) = present-Presents o json env held rt r.value r.layer e in
        subst (Ensures Settled (Presents held)) (sym (same q)) (shown, h)

    -- The `try` block, its cases and its calls outside.
    abbrev report : CacheResolveResult → Eff E (Request R) (Option RedirectSnapshot)
    report cached =
        on_breaker o json env (Circuit.record_success env.circuit)
        >> (count_result o json env (layer_label cached.layer) >> present o json env cached)

    abbrev resolved : Eff E (Request R) (Option RedirectSnapshot)
    resolved = resolve o env code (watched o json env loader) >>= report

    resolved-Ensures : (q : Request R) → Settled q → Ensures Settled (Presents held) (resolved q)
    resolved-Ensures q h =
        Ensures-bind Settled (λ r. r.value ≡ text_of) (Presents held)
          (resolve o env code (watched o json env loader) q) report
          (resolve-Ensures o code text_of Agrees honest env marked (watched o json env loader)
            watched-Returns q h)
          (λ r t e k. present-Ensures r _ e k)
      where
        marked : (v : String) → text_of ≡ some v → v ≢ null_value
        marked v e = text-unmarked json held rt v e

    ping_if-Ensures :
        (permit : CacheCircuitPermit) (q : Request R)
        → Settled q
        → Ensures Settled Whatever (ping_if o json env permit q)
    unfolding ping_if cluster_ping
    ping_if-Ensures probe q h =
        lift-Ensures o code text_of Agrees Whatever o.ping q (honest.pings q.shared h.0) h.1
    ping_if-Ensures _ q h = (tt, h)

    through_cache-Ensures :
        (permit : CacheCircuitPermit) (q : Request R)
        → Settled q
        → Ensures Settled (Presents held) (through_cache o json env permit code loader q)
    unfolding through_cache
    through_cache-Ensures permit q h =
        Ensures-bind Settled Whatever (Presents held) (ping_if o json env permit q) (λ _. resolved)
          (ping_if-Ensures permit q h) (λ _ t _ k. resolved-Ensures t k)

    abbrev Seen : Outcome E (Request R) (Option RedirectSnapshot) → Type 0
    Seen = Returns (λ t. CoherentFor t.shared) (Presents held)

    fall_back-Returns : (e : E) (q : Request R) → Settled q → Seen (fall_back o json env loader e q)
    unfolding fall_back
    fall_back-Returns e q (h, f) = rw f (load_from_database-Returns _ h)

    caught-Returns :
        (r : Outcome E (Request R) (Option RedirectSnapshot))
        → Ensures Settled (Presents held) r
        → Seen (elim r [ ok a t ↦ ok a t | threw e t ↦ fall_back o json env loader e t ])
    caught-Returns (ok a t) (seen, (h, _)) = (seen, h)
    caught-Returns (threw e t) h = fall_back-Returns e t h

    with_permit-Returns :
        (permit : CacheCircuitPermit) (q : Request R)
        → CoherentFor q.shared
        → Seen (with_permit o json env code loader permit q)
    unfolding with_permit
    with_permit-Returns bypass q h = load_from_database-Returns _ h
    with_permit-Returns permit q h =
        caught-Returns (through_cache o json env permit code loader _)
          (through_cache-Ensures permit _ (h, refl))

    -- If the caches are coherent for the code, the services keep their promises (`Honest`, which
    -- allows every call to throw), the database answers each load with what it holds, and its
    -- snapshot survives JSON: whatever the state of the circuit and whichever calls to Redis, to
    -- the lock and to the filter throw, `get_or_load` returns, shows exactly what the database
    -- holds, marked as a hit or a miss, and leaves the caches coherent.
    pub get_or_load-Presents :
        (q : Request R)
        → CoherentFor q.shared
        → Returns (λ t. CoherentFor t.shared) (Presents held) (get_or_load o json env code loader q)
    unfolding get_or_load acquire_permit
    get_or_load-Presents q h =
        with_permit-Returns (Circuit.acquire env.circuit (o.now q.shared) q.shared.breaker).1 _ h
