-- ===== src/HotCache/Map.antt =====
-- The cache as a map from keys to values that end.
use nest_shortlink_platform.Common.{
  ℕ, ◌+◌, ◌≤◌, ◌≡◌, refl, ap, ◌∙◌, String, List, [], ◌∷◌, Option, none, some, ◌==◌, string_eq, ltb,
  if◌then◌else◌, All,
}
use nest_shortlink_platform.HotCache.{HotCache, delete, get, set}
use nest_shortlink_platform.HotCache.Laws.{get-set, get-delete, get-get}

-- A call of the service: `get` and `set` at a time, `set` with its time to live.
pub data Call (V : Type 0) : Type 0 where
  gets : String → ℕ → Call V
  sets : String → V → ℕ → ℕ → Call V
  deletes : String → Call V

module _ {V : Type 0} where
  abbrev pub call : Call V → HotCache V → HotCache V
  call (gets key now) cache = (get key now cache).1
  call (sets key value ttl now) cache = set key value ttl now cache
  call (deletes key) cache = delete key cache

  unfoldable pub run : List (Call V) → HotCache V → HotCache V
  run [] cache = cache
  run (c ∷ calls) cache = run calls (call c cache)

  -- What a key is at a time in the map, after a call and what it was before.
  abbrev pub map_call : Call V → String → ℕ → Option V → Option V
  map_call (gets key now) k later before = before
  map_call (sets key value ttl now) k later before =
      if key == k then (if ltb later (now + ttl) then some value else none) else before
  map_call (deletes key) k later before = if key == k then none else before

  unfoldable pub map_run : List (Call V) → String → ℕ → Option V → Option V
  map_run [] k later before = before
  map_run (c ∷ calls) k later before = map_run calls k later (map_call c k later before)

  -- The call was made by then.
  abbrev pub Past : ℕ → Call V → Type 0
  Past later (gets key now) = now ≤ later
  Past later _ = Unit {0}

  call-map_call :
      (c : Call V) (k : String) (later : ℕ) (cache : HotCache V)
      → Past later c
      → (get k later (call c cache)).0 ≡ map_call c k later (get k later cache).0
  call-map_call (gets key now) k later cache h = get-get key k now later cache h
  call-map_call (sets key value ttl now) k later cache h = get-set key k value ttl now later cache
  call-map_call (deletes key) k later cache h = get-delete key k later cache

  -- After any calls, a key reads as in the map: as the value that was last written under it and not
  -- deleted since, for exactly its time to live, and otherwise as before the calls if none wrote or
  -- deleted it. Reads change nothing that can be seen. No read among the calls comes after the one
  -- that looks.
  pub run-map_run :
      (calls : List (Call V)) (k : String) (later : ℕ) (cache : HotCache V)
      → All (Past later) calls
      → (get k later (run calls cache)).0 ≡ map_run calls k later (get k later cache).0
  unfolding run map_run
  run-map_run [] k later cache h = refl
  run-map_run (c ∷ calls) k later cache (h, hs) =
      run-map_run calls k later (call c cache) hs
      ∙ ap (map_run calls k later) (call-map_call c k later cache h)
