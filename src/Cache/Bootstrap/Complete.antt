-- ===== src/Cache/Bootstrap/Complete.antt =====
-- When the bootstrap ends, and what the filter holds then.
use nest_shortlink_platform.Common.{
  ℕ, zero, suc, ◌<◌, ◌≡◌, refl, sym, ap, ◌∙◌, ◌⊎◌, inl, inr, String, List, [], ◌∷◌, ◌++◌, length,
  All, All-map, All-Memᴰ, Unique, Option, none, some, Bool, true, false, ltb, ◌==◌, string_eq,
  arith, Bool-cases,
}
use mathlib.Core.List.{Memᴰ, append_assoc, append-nil}
use mathlib.Core.List.Memᴰ.{append_left, append_right}
use mathlib.Core.Path.{subst}
use nest_shortlink_platform.Common.Effects.{Outcome, ok, threw, Eff, pure, ◌>>=◌, ◌>>◌}
use nest_shortlink_platform.Http.{truthy}
use nest_shortlink_platform.Cache.{Shared, Outside}
use nest_shortlink_platform.Cache.Bloom.{
  get_key, add_many, mark_ready, mark_not_ready, initialize_buckets,
}
use nest_shortlink_platform.Cache.Bootstrap.{
  Row, batch_size, take, after, from_cursor, find_many, last_of, codes_of, go_on, load_page, load,
  finish, on_application_bootstrap,
}
use nest_shortlink_platform.Cache.Bootstrap.Groups.{Adds, AddsCodes, add_many-AddsCodes}
use nest_shortlink_platform.Cache.Bootstrap.Pages.{
  drop, same_id, take-drop, drop-short, length-drop, last_of-Memᴰ, after-last_of,
}

All-append : (P : Row → Type 0) (xs ys : List Row) → All P xs → All P ys → All P (xs ++ ys)
All-append P [] ys h k = k
All-append P (x ∷ xs) ys (h, hs) k = (h, All-append P xs ys hs k)

All-of_codes :
    (P : String → Type 0) (rows : List Row) → All P (codes_of rows) → All (λ row. P row.code) rows
All-of_codes P [] h = tt
All-of_codes P (row ∷ rows) (h, hs) = (h, All-of_codes P rows hs)

module _ {E R : Type 0} (o : Outside E R) (Added : String → String → R → Type 0)
    (bf_madd_lem : (key : String) (codes : List String) (s : Shared R)
      → Adds o Added key codes s (o.bf_madd key codes s))
    (rows : List Row) (unique : Unique same_id rows)
    (ids : All (λ row. (row.id == "") ≡ false) rows) where
  -- The codes of rows are in the filters of their buckets.
  abbrev pub Stored : List Row → Shared R → Type 0
  Stored some_rows s = All (λ row. Added (get_key o row.code) row.code s.outside) some_rows

  abbrev Loaded : Outcome E (Shared R) Bool → Type 0
  Loaded (ok b t) = (b ≡ true) × Stored rows t
  Loaded (threw e t) = Unit {0}

  -- The cursor stands after the rows that are done.
  abbrev At : Option String → List Row → List Row → Type 0
  At cursor done rest = (rows ≡ done ++ rest) × (from_cursor cursor rows ≡ rest)

  next_page :
      (cursor : Option String) (done rest : List Row) (row : Row) (page : List Row)
      → At cursor done rest
      → take batch_size rest ≡ row ∷ page
      → At (some (last_of row page).id) (done ++ (row ∷ page)) (drop batch_size rest)
  unfolding from_cursor truthy
  next_page cursor done rest row page (e, f) p =
      let split : rest ≡ (row ∷ page) ++ drop batch_size rest =
        sym (take-drop batch_size rest) ∙ ap (λ x. x ++ drop batch_size rest) p in
      let whole : rows ≡ done ++ ((row ∷ page) ++ drop batch_size rest) =
        e ∙ ap (λ x. done ++ x) split in
      let named : ((last_of row page).id == "") ≡ false =
        All-Memᴰ (λ x. (x.id == "") ≡ false) (last_of row page) rows ids
          (subst (Memᴰ (last_of row page)) (sym whole)
            (append_right done (append_left (drop batch_size rest) (last_of-Memᴰ row page)))) in
      (
        whole ∙ sym (append_assoc done (row ∷ page) (drop batch_size rest)),
        rw named (
            ap (after (last_of row page).id) whole
            ∙ after-last_of done row page (drop batch_size rest)
                (subst (Unique same_id) whole unique)),
      )

  -- A page that is added, the rows before it being in the filters.
  page-Stored :
      (done page : List Row) (s t : Shared R)
      → Stored done s
      → AddsCodes o Added bf_madd_lem (codes_of page) s (ok tt t)
      → Stored (done ++ page) t
  page-Stored done page s t h (keeps, adds) =
      All-append (λ row. Added (get_key o row.code) row.code t.outside) done page
        (All-map _ _ done (λ row k. keeps (get_key o row.code) row.code k) h)
        (All-of_codes (λ code. Added (get_key o code) code t.outside) page adds)

  all_done :
      (done rest : List Row) (t : Shared R)
      → rows ≡ done ++ rest
      → rest ≡ []
      → Stored done t
      → Stored rows t
  all_done done rest t e f h =
      subst (λ x. Stored x t) (sym (e ∙ ap (λ x. done ++ x) f ∙ append-nil done)) h

  shorter :
      (rest : List Row) (row : Row) (page : List Row) (fuel : ℕ)
      → take batch_size rest ≡ row ∷ page
      → length rest < suc fuel
      → length (drop batch_size rest) < fuel
  shorter rest row page fuel p h =
      let whole = length-drop batch_size rest in
      let some_ : length (take batch_size rest) ≡ suc (length page) = ap length p in
      omega (arith, whole, some_, h)

  -- The loop does its part from a cursor on, if there is fuel.
  abbrev Loads : ℕ → (Option String → Eff E (Shared R) Bool) → Type 0
  Loads fuel next =
      (cursor : Option String) (done rest : List Row) (s : Shared R)
      → At cursor done rest
      → length rest < fuel
      → Stored done s
      → Loaded (next cursor s)

  -- After a page that was added.
  go_on-Loaded :
      (fuel : ℕ) (next : Option String → Eff E (Shared R) Bool) (cursor : Option String)
      (done rest : List Row) (row : Row) (page : List Row) (t : Shared R)
      → Loads fuel next
      → At cursor done rest
      → length rest < suc fuel
      → take batch_size rest ≡ row ∷ page
      → Stored (done ++ (row ∷ page)) t
      → Loaded (go_on (ltb (length (row ∷ page)) batch_size) (next (some (last_of row page).id)) t)
  unfolding go_on
  go_on-Loaded fuel next cursor done rest row page t ih a f p h =
      let (whole, from) = next_page cursor done rest row page a p in
      elim (Bool-cases (ltb (length (row ∷ page)) batch_size)) [
        | inl short ↦
            let ended : drop batch_size rest ≡ [] =
              drop-short batch_size rest
                (subst (λ x. length x < batch_size) (sym p) (ground (arith, short))) in
            rw short (refl, all_done (done ++ (row ∷ page)) (drop batch_size rest) t whole ended h)
        | inr full ↦ rw full (
            ih (some (last_of row page).id) (done ++ (row ∷ page)) (drop batch_size rest) t
              (whole, from) (shorter rest row page fuel p f) h)
      ]

  load_page-Loaded :
      (fuel : ℕ) (next : Option String → Eff E (Shared R) Bool) (cursor : Option String)
      (done rest : List Row) (s : Shared R)
      → Loads fuel next
      → At cursor done rest
      → length rest < suc fuel
      → Stored done s
      → (page : List Row) → take batch_size rest ≡ page
      → Loaded (load_page o page next s)
  unfolding load_page
  load_page-Loaded fuel next cursor done rest s ih (e, c) f h [] p =
      let ended : drop batch_size rest ≡ [] =
        drop-short batch_size rest (subst (λ x. length x < batch_size) (sym p) (omega arith)) in
      let gone : rest ≡ [] =
        sym (take-drop batch_size rest) ∙ ap (λ x. x ++ drop batch_size rest) p ∙ ended in
      (refl, all_done done rest s e gone h)
  load_page-Loaded fuel next cursor done rest s ih a f h (row ∷ page) p =
      go (add_many o (codes_of (row ∷ page)) s)
        (add_many-AddsCodes o Added bf_madd_lem (codes_of (row ∷ page)) s)
    where
      go :
          (r : Outcome E (Shared R) (Unit {0}))
          → AddsCodes o Added bf_madd_lem (codes_of (row ∷ page)) s r
          → Loaded (elim r [
            | ok a t ↦
                go_on (ltb (length (row ∷ page)) batch_size) (next (some (last_of row page).id)) t
            | threw e t ↦ threw e t
          ])
      go (threw e t) k = tt
      go (ok b t) k =
          go_on-Loaded fuel next cursor done rest row page t ih a f p
            (page-Stored done (row ∷ page) s t h k)

  load-Loaded :
      (query_fails : Option String → Option E) (fuel : ℕ)
      → Loads fuel (load o query_fails rows fuel)
  unfolding load find_many
  load-Loaded query_fails zero cursor done rest s a f h = absurd (ground (arith, f))
  load-Loaded query_fails (suc fuel) cursor done rest s (e, c) f h =
      go (query_fails cursor) (load-Loaded query_fails fuel)
    where
      next : Option String → Eff E (Shared R) Bool
      next = load o query_fails rows fuel

      go :
          (failure : Option E)
          → Loads fuel next
          → Loaded ((find_many failure cursor rows >>= (λ page. load_page o page next)) s)
      go none ih =
          subst (λ page. Loaded (load_page o page next s)) (ap (take batch_size) (sym c))
            (load_page-Loaded fuel next cursor done rest s ih (e, c) f h (take batch_size rest)
              refl)
      go (some exception) ih = tt

  -- What holds at the end of the bootstrap.
  abbrev pub Bootstrapped : Outcome E (Shared R) Bool → Type 0
  Bootstrapped (ok ended t) =
      (ended ≡ true) × (((t.bloom_ready ≡ true) × Stored rows t) ⊎ (t.bloom_ready ≡ false))
  Bootstrapped (threw e t) = ⊥

  -- The bootstrap ends, if its loop may run more rounds than there are links, and throws nothing. If
  -- it leaves the filter ready, the code of every link of the table is in the filter of its bucket.
  -- Any call of Redis and any query may fail.
  -- The ids of the table are unique and not empty, the table does not change meanwhile, and BF.MADD
  -- adds the codes it is given, and loses none, when it returns.
  pub on_application_bootstrap-Bootstrapped :
      (says_exists : E → Bool) (query_fails : Option String → Option E) (fuel : ℕ) (s : Shared R)
      → length rows < fuel
      → Bootstrapped (on_application_bootstrap o says_exists query_fails rows fuel s)
  unfolding on_application_bootstrap mark_not_ready finish mark_ready from_cursor
  on_application_bootstrap-Bootstrapped says_exists query_fails fuel s f =
      started (initialize_buckets o says_exists (record s { bloom_ready = false }))
    where
      ended :
          (r : Outcome E (Shared R) Bool)
          → Loaded r
          → Bootstrapped
              (elim (elim r as (λ x. Outcome E (Shared R) Bool) [
                | ok b t ↦ finish o b t
                | threw e t ↦ threw e t
              ])
                as (λ x. Outcome E (Shared R) Bool) [
                  | ok a t ↦ ok a t
                  | threw e t ↦ (mark_not_ready o >> pure true) t
                ])
      ended (ok b t) (e, h) =
          subst
            (λ b. Bootstrapped (elim (finish o b t) as (λ x. Outcome E (Shared R) Bool) [
              | ok a t ↦ ok a t
              | threw e t ↦ (mark_not_ready o >> pure true) t
            ]))
            (sym e) (refl, inl (refl, h))
      ended (threw e t) h = (refl, inr refl)

      started :
          (r : Outcome E (Shared R) (Unit {0}))
          → Bootstrapped
              (elim (elim r as (λ x. Outcome E (Shared R) Bool) [
                | ok a t ↦ (load o query_fails rows fuel none >>= finish o) t
                | threw e t ↦ threw e t
              ])
                as (λ x. Outcome E (Shared R) Bool) [
                  | ok a t ↦ ok a t
                  | threw e t ↦ (mark_not_ready o >> pure true) t
                ])
      started (ok a t) =
          ended (load o query_fails rows fuel none t)
            (load-Loaded query_fails fuel none [] rows t (refl, refl) f tt)
      started (threw e t) = (refl, inr refl)
