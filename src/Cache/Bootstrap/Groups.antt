-- ===== src/Cache/Bootstrap/Groups.antt =====
-- A batch of codes goes into the filters of its buckets, each code into the one of its own.
use nest_shortlink_platform.Common.{
  ◌≡◌, refl, sym, ap, ◌∙◌, String, List, [], ◌∷◌, ◌++◌, All, All-map, All-Memᴰ, ◌==◌, string_eq,
  eq_iff, if_elim,
}
use mathlib.Core.List.{Memᴰ}
use mathlib.Core.List.Memᴰ.{head, tail, append_left, append_right}
use mathlib.Core.Path.{subst}
use nest_shortlink_platform.Common.Effects.{Outcome, ok, threw, throw, ◌>>◌}
use nest_shortlink_platform.Cache.{Shared, Outside}
use nest_shortlink_platform.Cache.Bloom.{
  add_to_group, group_codes, madd_groups, add_many, get_key, mark_not_ready,
}

abbrev Groups : Type 0
Groups = List (String × List String)

-- A code is in the group of a key.
abbrev pub InGroups : String → String → Groups → Type 0
InGroups key code groups =
    (group : String × List String) × Memᴰ group groups × (group.0 ≡ key) × Memᴰ code group.1

InGroups-tail :
    (key code : String) (group : String × List String) (groups : Groups)
    → InGroups key code groups
    → InGroups key code (group ∷ groups)
InGroups-tail key code group groups (g, m, e, n) = (g, tail m, e, n)

add_to_group-new :
    (key code : String) (groups : Groups) → InGroups key code (add_to_group key code groups)
unfolding add_to_group
add_to_group-new key code [] = ((key, code ∷ []), head refl, refl, head refl)
add_to_group-new key code ((k, codes) ∷ groups) =
    if_elim {A = Groups} (InGroups key code) (k == key) ((k, codes ++ code ∷ []) ∷ groups)
      ((k, codes) ∷ add_to_group key code groups)
      (λ same.
        ((k, codes ++ code ∷ []), head refl, (eq_iff k key).0 same, append_right codes (head refl)))
      (λ _. InGroups-tail key code (k, codes) _ (add_to_group-new key code groups))

add_to_group-old :
    (key code k c : String) (groups : Groups)
    → InGroups k c groups
    → InGroups k c (add_to_group key code groups)
unfolding add_to_group
add_to_group-old key code k c [] (g, m, e, n) = elim m [ ]
add_to_group-old key code k c ((l, codes) ∷ groups) (g, head h, e, n) =
    if_elim {A = Groups} (InGroups k c) (l == key) ((l, codes ++ code ∷ []) ∷ groups)
      ((l, codes) ∷ add_to_group key code groups)
      (λ _. (
        (l, codes ++ code ∷ []),
        head refl,
        ap (λ x. x.0) (sym h) ∙ e,
        append_left (code ∷ []) (subst (λ x. Memᴰ c x.1) h n),
      ))
      (λ _. (g, head h, e, n))
add_to_group-old key code k c ((l, codes) ∷ groups) (g, tail m, e, n) =
    if_elim {A = Groups} (InGroups k c) (l == key) ((l, codes ++ code ∷ []) ∷ groups)
      ((l, codes) ∷ add_to_group key code groups) (λ _. (g, tail m, e, n))
      (λ _. InGroups-tail k c (l, codes) _ (add_to_group-old key code k c groups (g, m, e, n)))

module _ {E R : Type 0} (o : Outside E R) where
  group_codes-old :
      (codes : List String) (k c : String) (groups : Groups)
      → InGroups k c groups
      → InGroups k c (group_codes o codes groups)
  unfolding group_codes
  group_codes-old [] k c groups h = h
  group_codes-old (code ∷ codes) k c groups h =
      group_codes-old codes k c _ (add_to_group-old (get_key o code) code k c groups h)

  group_codes-new :
      (codes : List String) (groups : Groups)
      → All (λ code. InGroups (get_key o code) code (group_codes o codes groups)) codes
  unfolding group_codes
  group_codes-new [] groups = tt
  group_codes-new (code ∷ codes) groups = (
    group_codes-old codes (get_key o code) code _ (add_to_group-new (get_key o code) code groups),
    group_codes-new codes _,
  )

  module _ (Added : String → String → R → Type 0) where
    abbrev pub Keeps : Shared R → Shared R → Type 0
    Keeps s t = (key code : String) → Added key code s.outside → Added key code t.outside

    -- What BF.MADD does, if it returns: every code is in the filter, and no other is lost.
    abbrev pub Adds : String → List String → Shared R → Outcome E (Shared R) (Unit {0}) → Type 0
    Adds key codes s (ok done t) = Keeps s t × All (λ code. Added key code t.outside) codes
    Adds key codes s (threw e t) = Unit {0}

    module _
        (bf_madd_lem : (key : String) (codes : List String) (s : Shared R)
          → Adds key codes s (o.bf_madd key codes s)) where
      abbrev AddsAll : Groups → Shared R → Outcome E (Shared R) (Unit {0}) → Type 0
      AddsAll groups s (ok done t) =
          Keeps s t × ((key code : String) → InGroups key code groups → Added key code t.outside)
      AddsAll groups s (threw e t) = Unit {0}

      -- A group, and then the others.
      AddsAll-cons :
          (key : String) (codes : List String) (groups : Groups) (s t : Shared R)
          (r : Outcome E (Shared R) (Unit {0}))
          → Keeps s t
          → All (λ code. Added key code t.outside) codes
          → AddsAll groups t r
          → AddsAll ((key, codes) ∷ groups) s r
      AddsAll-cons key codes groups s t (threw e u) k a h = tt
      AddsAll-cons key codes groups s t (ok done u) k a (keeps, adds) =
          ((λ k' c x. keeps k' c (k k' c x)), each)
        where
          each : (k' c : String) → InGroups k' c ((key, codes) ∷ groups) → Added k' c u.outside
          each k' c (g, head h, e, n) = keeps k' c (
              subst (λ x. Added x c t.outside) (ap (λ x. x.0) (sym h) ∙ e)
                (All-Memᴰ (λ code. Added key code t.outside) c codes a
                  (subst (λ x. Memᴰ c x.1) h n)))
          each k' c (g, tail m, e, n) = adds k' c (g, m, e, n)

      madd_groups-AddsAll :
          (groups : Groups) (s : Shared R) → AddsAll groups s (madd_groups o groups s)
      unfolding madd_groups
      madd_groups-AddsAll [] s = ((λ key code h. h), (λ key code h. elim h.1 [ ]))
      madd_groups-AddsAll ((key, codes) ∷ groups) s =
          go (o.bf_madd key codes s) (bf_madd_lem key codes s) (madd_groups-AddsAll groups)
        where
          go :
              (r : Outcome E (Shared R) (Unit {0}))
              → Adds key codes s r
              → ((t : Shared R) → AddsAll groups t (madd_groups o groups t))
              → AddsAll
                  ((key, codes) ∷ groups)
                  s
                  (elim r [ ok a t ↦ madd_groups o groups t | threw e t ↦ threw e t ])
          go (ok a t) (k, h) rest = AddsAll-cons key codes groups s t _ k h (rest t)
          go (threw e t) h rest = tt

      -- What `addMany` does, if it returns.
      abbrev pub AddsCodes : List String → Shared R → Outcome E (Shared R) (Unit {0}) → Type 0
      AddsCodes codes s (ok done t) =
          Keeps s t × All (λ code. Added (get_key o code) code t.outside) codes
      AddsCodes codes s (threw e t) = Unit {0}

      pub add_many-AddsCodes :
          (codes : List String) (s : Shared R) → AddsCodes codes s (add_many o codes s)
      unfolding add_many mark_not_ready
      add_many-AddsCodes [] s = ((λ key code h. h), tt)
      add_many-AddsCodes (code ∷ codes) s =
          go (madd_groups o (group_codes o (code ∷ codes) []) s)
            (madd_groups-AddsAll (group_codes o (code ∷ codes) []) s)
        where
          go :
              (r : Outcome E (Shared R) (Unit {0}))
              → AddsAll (group_codes o (code ∷ codes) []) s r
              → AddsCodes
                  (code ∷ codes)
                  s
                  (elim r [ ok a t ↦ ok a t | threw e t ↦ (mark_not_ready o >> throw e) t ])
          go (ok a t) (k, h) = (
            k,
            All-map _ _ (code ∷ codes) (λ c i. h (get_key o c) c i)
                (group_codes-new (code ∷ codes) []),
          )
          go (threw e t) h = tt
