-- ===== src/Common/Effects.antt =====
-- Stateful code that may throw: `S` is what the code reads and writes.

-- What a call ends in: a value or an exception, and the state it leaves.
pub data Outcome (E S A : Type 0) : Type 0 where
  ok : A → S → Outcome E S A
  threw : E → S → Outcome E S A

abbrev pub Eff : Type 0 → Type 0 → Type 0 → Type 0
Eff E S A = S → Outcome E S A

module _ {E S : Type 0} where
  abbrev pub pure : {A : Type 0} → A → Eff E S A
  pure a s = ok a s

  abbrev pub throw : {A : Type 0} → E → Eff E S A
  throw e s = threw e s

  infixl 5 ◌>>=◌ ◌>>◌
  abbrev pub ◌>>=◌ : {A B : Type 0} → Eff E S A → (A → Eff E S B) → Eff E S B
  ◌>>=◌ m f s = elim (m s) [ ok a t ↦ f a t | threw e t ↦ threw e t ]

  abbrev pub ◌>>◌ : {A B : Type 0} → Eff E S A → Eff E S B → Eff E S B
  ◌>>◌ m k s = elim (m s) [ ok a t ↦ k t | threw e t ↦ threw e t ]

  -- `try m catch (e) { h e }`.
  abbrev pub catch : {A : Type 0} → Eff E S A → (E → Eff E S A) → Eff E S A
  catch m h s = elim (m s) [ ok a t ↦ ok a t | threw e t ↦ h e t ]

  -- The state that a call leaves, whether it returns or throws.
  abbrev pub state_of : {A : Type 0} → Outcome E S A → S
  state_of (ok a t) = t
  state_of (threw e t) = t
