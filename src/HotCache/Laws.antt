-- ===== src/HotCache/Laws.antt =====
-- What a reader of the cache sees.
use nest_shortlink_platform.Common.{
  ℕ, ◌+◌, ◌≤◌, ◌≡◌, refl, sym, ◌∙◌, ◌⊎◌, String, [], ◌∷◌, Option, none, some, ◌==◌, string_eq, leb,
  ltb, if◌then◌else◌, eq_iff, arith, All, Option-cases, Bool-cases, inl, inr,
}
use nest_shortlink_platform.HotCache.{CacheItem, HotCache, lookup, delete, get, set}

module _ {V : Type 0} where
  lookup-delete :
      (key k : String) (cache : HotCache V)
      → lookup k (delete key cache) ≡ (if key == k then none else lookup k cache)
  unfolding lookup delete
  lookup-delete key k [] = ground arith
  lookup-delete key k ((j, item) ∷ rest) =
      ground (arith, eq_iff j key, eq_iff j k, eq_iff key k, lookup-delete key k rest)

  lookup-set :
      (key k : String) (value : V) (ttl now : ℕ) (cache : HotCache V)
      → lookup k (set key value ttl now cache) ≡ (
          if key == k
          then some (record { value = value; expire_at = now + ttl })
          else lookup k cache)
  unfolding lookup set
  lookup-set key k value ttl now cache = ground (arith, lookup-delete key k cache)

  -- What `get` returns, from what the map holds.
  view : ℕ → Option (CacheItem V) → Option V
  view now none = none
  view now (some item) = if leb item.expire_at now then none else some item.value

  get-view :
      (key : String) (now : ℕ) (cache : HotCache V)
      → (get key now cache).0 ≡ view now (lookup key cache)
  unfolding get view
  get-view key now cache = ground arith

  -- After a write the key reads as the value for exactly its time to live, and every other key
  -- reads as before.
  pub get-set :
      (key k : String) (value : V) (ttl now later : ℕ) (cache : HotCache V)
      → (get k later (set key value ttl now cache)).0 ≡ (
          if key == k
          then (if ltb later (now + ttl) then some value else none)
          else (get k later cache).0)
  unfolding view
  get-set key k value ttl now later cache =
      rw
        (
          get-view k later (set key value ttl now cache),
          get-view k later cache,
          lookup-set key k value ttl now cache,
        )
        (ground arith)

  -- A deleted key reads as absent, and every other key reads as before.
  pub get-delete :
      (key k : String) (later : ℕ) (cache : HotCache V)
      → (get k later (delete key cache)).0 ≡ (if key == k then none else (get k later cache).0)
  unfolding view
  get-delete key k later cache =
      rw (get-view k later (delete key cache), get-view k later cache, lookup-delete key k cache)
        (ground arith)

  -- A read leaves the map alone, or removes an item that has expired.
  get-removes :
      (key : String) (now : ℕ) (cache : HotCache V)
      → ((get key now cache).1 ≡ cache)
        ⊎ (((get key now cache).1 ≡ delete key cache)
            × ((later : ℕ) → now ≤ later → view later (lookup key cache) ≡ none))
  unfolding get view
  get-removes key now cache = elim (Option-cases (lookup key cache)) [
    | inl e ↦ inl (rw (e, get))
    | inr (item, e) ↦ elim (Bool-cases (leb item.expire_at now)) [
      | inl due ↦ inr (rw (e, get, due), λ later h. rw e (ground arith))
      | inr live ↦ inl (rw (e, get, live))
    ]
  ]

  -- Reading removes at most what has expired: no reader at a later time can tell.
  pub get-get :
      (key k : String) (now later : ℕ) (cache : HotCache V)
      → now ≤ later
      → (get k later (get key now cache).1).0 ≡ (get k later cache).0
  get-get key k now later cache h = elim (get-removes key now cache) [
    | inl e ↦ rw e
    | inr (e, gone) ↦
        rw (e, get-delete key k later cache)
          (elim (Bool-cases (key == k)) [
            | inl same ↦ rw same (hidden ((eq_iff key k).0 same) (gone later h))
            | inr other ↦ rw other
          ])
  ]
    where
      hidden : key ≡ k → view later (lookup key cache) ≡ none → none ≡ (get k later cache).0
      hidden same gone = sym (get-view k later cache ∙ rw (← same) gone)

  -- Every item under a key has one value.
  abbrev pub HotAgrees : String → V → HotCache V → Type 0
  HotAgrees key value cache = All (λ e. e.0 ≡ key → e.1.value ≡ value) cache

  pub HotAgrees-delete :
      (key j : String) (value : V) (cache : HotCache V)
      → HotAgrees key value cache
      → HotAgrees key value (delete j cache)
  unfolding delete
  HotAgrees-delete key j value [] h = tt
  HotAgrees-delete key j value ((k, item) ∷ rest) h = elim (Bool-cases (k == j)) [
    | inl same ↦ rw same (HotAgrees-delete key j value rest h.1)
    | inr other ↦ rw other (h.0, HotAgrees-delete key j value rest h.1)
  ]

  pub HotAgrees-set :
      (key : String) (value : V) (ttl now : ℕ) (cache : HotCache V)
      → HotAgrees key value cache
      → HotAgrees key value (set key value ttl now cache)
  unfolding set
  HotAgrees-set key value ttl now cache h = (λ _. refl, HotAgrees-delete key key value cache h)

  lookup-HotAgrees :
      (key : String) (value : V) (cache : HotCache V) (item : CacheItem V)
      → HotAgrees key value cache
      → lookup key cache ≡ some item
      → item.value ≡ value
  unfolding lookup
  lookup-HotAgrees key value [] item h e = cc
  lookup-HotAgrees key value ((k, i) ∷ rest) item h e = elim (Bool-cases (k == key)) [
    | inl same ↦
        let here : i.value ≡ item.value = ground arith in sym here ∙ h.0 ((eq_iff k key).0 same)
    | inr other ↦ lookup-HotAgrees key value rest item h.1 (rw other at e)
  ]

  pub get-HotAgrees :
      (key : String) (value v : V) (now : ℕ) (cache : HotCache V)
      → HotAgrees key value cache
      → (get key now cache).0 ≡ some v
      → v ≡ value
  unfolding get
  get-HotAgrees key value v now cache h e = elim (Option-cases (lookup key cache)) [
    | inl missing ↦ absurd (ground arith)
    | inr (item, there) ↦ ground (arith, lookup-HotAgrees key value cache item h there)
  ]

  pub HotAgrees-get :
      (key : String) (value : V) (now : ℕ) (cache : HotCache V)
      → HotAgrees key value cache
      → HotAgrees key value (get key now cache).1
  HotAgrees-get key value now cache h = elim (get-removes key now cache) [
    | inl e ↦ rw e h
    | inr (e, _) ↦ rw e (HotAgrees-delete key key value cache h)
  ]
