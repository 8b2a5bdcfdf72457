-- ===== src/Common/Ensures.antt =====
-- What holds after a call, whether it returns or throws.
use nest_shortlink_platform.Common.Effects.{Outcome, ok, threw, Eff, catch, state_of}

module _ {E S A : Type 0} where
  -- `Good` holds of the state after a return and after an exception, `Q` of a value returned.
  abbrev pub Ensures : (S → Type 0) → (A → Type 0) → Outcome E S A → Type 0
  Ensures Good Q (ok a t) = Q a × Good t
  Ensures Good Q (threw e t) = Good t

  -- The call returns.
  abbrev pub Returns : (S → Type 0) → (A → Type 0) → Outcome E S A → Type 0
  Returns Good Q (ok a t) = Q a × Good t
  Returns Good Q (threw e t) = ⊥

  pub Ensures-weaken :
      (Good : S → Type 0) (Q P : A → Type 0) (r : Outcome E S A)
      → ((a : A) → Q a → P a)
      → Ensures Good Q r
      → Ensures Good P r
  Ensures-weaken Good Q P (ok a t) f h = (f a h.0, h.1)
  Ensures-weaken Good Q P (threw e t) f h = h

module _ {E S A B : Type 0} (Good : S → Type 0) (Q : A → Type 0) (P : B → Type 0) where
  pub Ensures-bind :
      (r : Outcome E S A) (f : A → Eff E S B)
      → Ensures Good Q r
      → ((a : A) (t : S) → Q a → Good t → Ensures Good P (f a t))
      → Ensures Good P (elim r [ ok a t ↦ f a t | threw e t ↦ threw e t ])
  Ensures-bind (ok a t) f h k = k a t h.0 h.1
  Ensures-bind (threw e t) f h k = h

module _ {E S A : Type 0} (Good : S → Type 0) (Q : A → Type 0) where
  pub Ensures-catch :
      (m : Eff E S A) (h : E → Eff E S A) (s : S)
      → Ensures Good Q (m s)
      → ((e : E) (t : S) → Good t → Ensures Good Q (h e t))
      → Ensures Good Q (catch m h s)
  Ensures-catch m h s k caught = go (m s) k
    where
      go :
          (r : Outcome E S A)
          → Ensures Good Q r
          → Ensures Good Q (elim r [ ok a t ↦ ok a t | threw e t ↦ h e t ])
      go (ok a t) k = k
      go (threw e t) k = caught e t k

  pub Ensures-of_Returns : (r : Outcome E S A) → Returns Good Q r → Ensures Good Q r
  Ensures-of_Returns (ok a t) h = h
  Ensures-of_Returns (threw e t) h = absurd h

  pub Ensures-state : (r : Outcome E S A) → Ensures Good Q r → Good (state_of r)
  Ensures-state (ok a t) h = h.1
  Ensures-state (threw e t) h = h
