-- ===== src/Common/Lists.antt =====
-- Lists measured by native numbers, and predicates over their members.
use Prim.Native.Nat.{ℕ, zero, suc}
use mathlib.Core.Logic.{inl, inr}
use mathlib.Core.Option.{Option, none, some, none-ne-some, some-injective}
use mathlib.Core.List.{List, [], ◌∷◌, Memᴰ}
use mathlib.Core.List.Memᴰ.{head, tail}
use mathlib.Core.Path.{◌≡◌, sym, subst, refl, ap, ◌∙◌}
use mathlib.Core.Bool.{Bool, true, false, not, ◌||◌}
use native.Mathlib.Omega.{arith}
use nest_shortlink_platform.Common.Tests.{if◌then◌else◌, if_elim, Bool-cases}

module _ {ℓ} {A : Type ℓ} where
  abbrev pub length : List A → ℕ
  length [] = 0
  length (x ∷ xs) = suc (length xs)

  abbrev pub get_elem? : List A → ℕ → Option A
  get_elem? [] i = none
  get_elem? (x ∷ xs) zero = some x
  get_elem? (x ∷ xs) (suc i) = get_elem? xs i

  abbrev pub All {κ} : (A → Type κ) → List A → Type κ
  All P [] = Unit {κ}
  All P (x ∷ xs) = P x × All P xs

  abbrev pub any : (A → Bool) → List A → Bool
  any p [] = false
  any p (x ∷ xs) = p x || any p xs

  abbrev pub filter : (A → Bool) → List A → List A
  filter p [] = []
  filter p (x ∷ xs) = let rest = filter p xs in if p x then x ∷ rest else rest

  -- The first that passes.
  abbrev pub find : (A → Bool) → List A → Option A
  find p [] = none
  find p (x ∷ xs) = let rest = find p xs in if p x then some x else rest

  -- No two are alike.
  abbrev pub Unique : (A → A → Bool) → List A → Type 0
  Unique alike [] = Unit {0}
  Unique alike (x ∷ xs) = All (λ y. alike x y ≡ false) xs × Unique alike xs

  -- No member passes a test.
  abbrev pub NoneIs : (A → Bool) → List A → Type 0
  NoneIs p = All (λ x. p x ≡ false)

  pub any-NoneIs : (p : A → Bool) (xs : List A) → any p xs ≡ false → NoneIs p xs
  any-NoneIs p [] h = tt
  any-NoneIs p (x ∷ xs) h = (ground (arith, h), any-NoneIs p xs (ground (arith, h)))

  pub All-filter {κ} :
      (P : A → Type κ) (p : A → Bool) (xs : List A) → All P xs → All P (filter p xs)
  All-filter P p [] h = tt
  All-filter P p (x ∷ xs) (h, hs) =
      if_elim {A = List A} (All P) (p x) _ _ (λ _. (h, All-filter P p xs hs))
        (λ _. All-filter P p xs hs)

  pub All-map {κ μ} :
      (P : A → Type κ) (Q : A → Type μ) (xs : List A) → ((x : A) → P x → Q x) → All P xs → All Q xs
  All-map P Q [] f h = tt
  All-map P Q (x ∷ xs) f (h, hs) = (f x h, All-map P Q xs f hs)

  pub All-Memᴰ {κ} : (P : A → Type κ) (x : A) (xs : List A) → All P xs → Memᴰ x xs → P x
  All-Memᴰ P x [] h m = elim m [ ]
  All-Memᴰ P x (y ∷ xs) (h, hs) (head e) = subst P (sym e) h
  All-Memᴰ P x (y ∷ xs) (h, hs) (tail m) = All-Memᴰ P x xs hs m

  pub find-Memᴰ :
      (p : A → Bool) (x : A) (xs : List A) → find p xs ≡ some x → Memᴰ x xs × (p x ≡ true)
  find-Memᴰ p x [] h = absurd (none-ne-some x h)
  find-Memᴰ p x (y ∷ xs) h = elim (Bool-cases (p y)) [
    | inl passes ↦
        let e : y ≡ x =
          some-injective y x (sym (ap (λ b. if b then some y else find p xs) passes) ∙ h) in
        (head (sym e), subst (λ z. p z ≡ true) e passes)
    | inr fails ↦
        let (m, q) = find-Memᴰ p x xs (sym (ap (λ b. if b then some y else find p xs) fails) ∙ h) in
        (tail m, q)
  ]

  -- A row is found by what no two share.
  pub find-Unique :
      (p : A → Bool) (alike : A → A → Bool) (x : A) (xs : List A)
      → ((y z : A) → p y ≡ true → p z ≡ true → alike y z ≡ true)
      → Unique alike xs
      → Memᴰ x xs
      → p x ≡ true
      → find p xs ≡ some x
  find-Unique p alike x [] k u m h = elim m [ ]
  find-Unique p alike x (y ∷ xs) k (u, us) (head e) h = rw (sym e, h) refl
  find-Unique p alike x (y ∷ xs) k (u, us) (tail m) h =
      let apart : alike y x ≡ false = All-Memᴰ (λ z. alike y z ≡ false) x xs u m in
      let rest : find p xs ≡ some x = find-Unique p alike x xs k us m h in
      elim (Bool-cases (p y)) [
        | inl passes ↦ let same = k y x passes h in absurd (ground (arith, same, apart))
        | inr fails ↦ rw fails rest
      ]

  pub Unique-same :
      (alike : A → A → Bool) (x y : A) (xs : List A)
      → Unique alike xs
      → Memᴰ x xs
      → Memᴰ y xs
      → alike x y ≡ true
      → alike y x ≡ true
      → x ≡ y
  Unique-same alike x y [] u m n h k = elim m [ ]
  Unique-same alike x y (z ∷ xs) (u, us) (head e) (head f) h k = e ∙ sym f
  Unique-same alike x y (z ∷ xs) (u, us) (head e) (tail n) h k =
      let apart : alike x y ≡ false =
        subst (λ v. alike v y ≡ false) (sym e) (All-Memᴰ (λ v. alike z v ≡ false) y xs u n) in
      absurd (ground (arith, apart, h))
  Unique-same alike x y (z ∷ xs) (u, us) (tail m) (head f) h k =
      let apart : alike y x ≡ false =
        subst (λ v. alike v x ≡ false) (sym f) (All-Memᴰ (λ v. alike z v ≡ false) x xs u m) in
      absurd (ground (arith, apart, k))
  Unique-same alike x y (z ∷ xs) (u, us) (tail m) (tail n) h k = Unique-same alike x y xs us m n h k

  pub any-Memᴰ : (p : A → Bool) (xs : List A) → any p xs ≡ true → (x : A) × Memᴰ x xs × (p x ≡ true)
  any-Memᴰ p [] h = absurd (ground (arith, h))
  any-Memᴰ p (x ∷ xs) h = elim (Bool-cases (p x)) [
    | inl passes ↦ (x, head refl, passes)
    | inr fails ↦ let (y, m, k) = any-Memᴰ p xs (ground (arith, h, fails)) in (y, tail m, k)
  ]

  pub any-filter :
      (p q : A → Bool) (xs : List A)
      → any p xs ≡ (any p (filter q xs) || any p (filter (λ x. not (q x)) xs))
  any-filter p q [] = refl
  any-filter p q (x ∷ xs) = let rest = any-filter p q xs in ground (arith, rest)

  pub find-filter :
      (p q : A → Bool) (xs : List A)
      → ((x : A) → p x ≡ true → q x ≡ true)
      → find p (filter q xs) ≡ find p xs
  find-filter p q [] h = refl
  find-filter p q (x ∷ xs) h =
      let rest = find-filter p q xs h in
      elim (Bool-cases (p x)) [
        | inl passes ↦ rw (h x passes, passes) refl
        | inr fails ↦ elim (Bool-cases (q x)) [
          | inl kept ↦ rw (kept, fails, rest) refl
          | inr gone ↦ rw (gone, fails, rest) refl
        ]
      ]

  pub filter-Memᴰ :
      (q : A → Bool) (x : A) (xs : List A) → Memᴰ x (filter q xs) → Memᴰ x xs × (q x ≡ true)
  filter-Memᴰ q x [] m = elim m [ ]
  filter-Memᴰ q x (y ∷ xs) m = elim (Bool-cases (q y)) [
    | inl passes ↦
        go (subst (λ b. Memᴰ x (if b then y ∷ filter q xs else filter q xs)) passes m) passes
          (filter-Memᴰ q x xs)
    | inr fails ↦
        let (n, k) =
          filter-Memᴰ q x xs
            (subst (λ b. Memᴰ x (if b then y ∷ filter q xs else filter q xs)) fails m) in
        (tail n, k)
  ]
    where
      go :
          Memᴰ x (y ∷ filter q xs)
          → q y ≡ true
          → (Memᴰ x (filter q xs) → Memᴰ x xs × (q x ≡ true))
          → Memᴰ x (y ∷ xs) × (q x ≡ true)
      go (head e) k rest = (head e, ap q e ∙ k)
      go (tail n) k rest = let (l, j) = rest n in (tail l, j)

  pub All-filter_map {κ μ} :
      (P : A → Type κ) (Q : A → Type μ) (p : A → Bool) (xs : List A)
      → ((x : A) → p x ≡ true → P x → Q x)
      → All P xs
      → All Q (filter p xs)
  All-filter_map P Q p [] f h = tt
  All-filter_map P Q p (x ∷ xs) f (h, hs) =
      if_elim {A = List A} (All Q) (p x) _ _ (λ k. (f x k h, All-filter_map P Q p xs f hs))
        (λ k. All-filter_map P Q p xs f hs)
