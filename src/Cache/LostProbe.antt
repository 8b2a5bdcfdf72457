-- ===== src/Cache/LostProbe.antt =====
-- A probe whose database load fails is never reported to the breaker.
use mathlib.Core.Option
use nest_shortlink_platform.Common.{◌≡◌, ◌⊎◌, ap, String, List, [], ◌∷◌, Option, true, false}
use nest_shortlink_platform.Common.Effects.{Outcome, ok, threw, Eff, ◌>>◌, state_of}
use nest_shortlink_platform.Circuit as Circuit
use nest_shortlink_platform.Circuit.{Breaker, CacheCircuitPermit, bypass}
use nest_shortlink_platform.Circuit.Behaviour.{IsProbing, acquire-IsProbing}
use nest_shortlink_platform.Cache.{Request, Outside, CacheEnv}
use nest_shortlink_platform.Cache.Waiting.{Waits}
use nest_shortlink_platform.Cache.Redirect.{
  RedirectSnapshot, Json, acquire_permit, with_permit, get_or_load, load_from_database,
  count_result,
}

module _ {E R : Type 0} (o : Outside E R) (json : Json E) (env : CacheEnv) where
  abbrev Loader : Type 0
  Loader = Eff E (Request R) (Option RedirectSnapshot)

  -- The request after its `acquire`, and the permit that it got.
  abbrev pub acquired : Request R → Request R
  acquired q = record q {
    shared = record q.shared {
      breaker = (Circuit.acquire env.circuit (o.now q.shared) q.shared.breaker).0;
    };
  }

  abbrev pub permit_of : Request R → CacheCircuitPermit
  permit_of q = (Circuit.acquire env.circuit (o.now q.shared) q.shared.breaker).1

  -- While a probe is in flight, every request goes straight to the database, and the breaker is
  -- still waiting for the probe when the load begins.
  pub IsProbing-bypasses :
      (code : String) (loader : Loader) (q : Request R)
      → IsProbing env.circuit q.shared.breaker
      → (get_or_load o json env code loader q
          ≡ (count_result o json env "circuit-open" >> load_from_database o json env loader)
              (acquired q))
        × IsProbing env.circuit (acquired q).shared.breaker
  unfolding get_or_load acquire_permit with_permit
  IsProbing-bypasses code loader q h =
      let (bypassed, still) = acquire-IsProbing env.circuit (o.now q.shared) q.shared.breaker h in
      (
        ap (λ (p : CacheCircuitPermit). with_permit o json env code loader p (acquired q)) bypassed,
        still,
      )

  -- A load leaves the request's own variable alone, and the breaker waiting if it was.
  abbrev pub Steady : Loader → Type 0
  Steady loader =
      (q : Request R)
      → ((state_of (loader q)).database_loader_failed ≡ q.database_loader_failed)
        × (Waits o env q.shared → Waits o env (state_of (loader q)).shared)

  -- An exception that a load throws.
  abbrev pub ThrownBy : Loader → E → Type 0
  ThrownBy loader e = (s : Request R) × (t : Request R) × (loader s ≡ threw e t)

  -- Requests one after another; before each, whatever is outside the process may change, the time
  -- included.
  abbrev pub Later : Type 0
  Later = List ((R → R) × String × Loader)

  abbrev pub meanwhile : (R → R) → Request R → Request R
  meanwhile change q = record q { shared = record q.shared { outside = change q.shared.outside } }

  -- Each of the requests passes the cache by, and the breaker waits for a probe after them.
  abbrev pub Bypassed : Later → Request R → Type 0
  Bypassed [] q = Waits o env q.shared
  Bypassed ((change, code, loader) ∷ later) q =
      (get_or_load o json env code loader (meanwhile change q)
        ≡ (count_result o json env "circuit-open" >> load_from_database o json env loader)
            (acquired (meanwhile change q)))
      × Bypassed later (state_of (get_or_load o json env code loader (meanwhile change q)))

  -- The end of the request that got the probe: if its load failed, the exception is the load's, and
  -- every later request passes the cache by.
  abbrev pub Unreported : Later → Loader → Outcome E (Request R) (Option RedirectSnapshot) → Type 0
  Unreported later loader (ok a t) = t.database_loader_failed ≡ false
  Unreported later loader (threw e t) =
      (t.database_loader_failed ≡ false)
      ⊎ ((t.database_loader_failed ≡ true) × ThrownBy loader e × Bypassed later t)

  abbrev Ended : Loader → Outcome E (Request R) (Option RedirectSnapshot) → Type 0
  Ended loader (ok a t) = t.database_loader_failed ≡ false
  Ended loader (threw e t) =
      (t.database_loader_failed ≡ false)
      ⊎ ((t.database_loader_failed ≡ true) × ThrownBy loader e × Waits o env t.shared)
