-- ===== src/Base62/RoundTrip.antt =====
-- Decoding undoes encoding, and encoding undoes decoding on codes with no leading zero.
use nest_shortlink_platform.Common.{
  ℕ, zero, suc, ◌+◌, ◌*◌, ◌/◌, ◌%◌, ◌≤◌, ◌<◌, ◌≡◌, ◌≢◌, refl, sym, ap, ◌∙◌, Bool, true, false, List,
  [], ◌∷◌, ◌++◌, Option, none, some, ◌==◌, nat_eq, nat_beq, nat_beq_iff, Bool-cases, Option-cases,
  inl, inr, if◌then◌else◌, arith, length,
}
use mathlib.Core.Path.{subst, ap₂}
use mathlib.Core.List.{append-nil}
use nest_shortlink_platform.Common.Text.{codes}
use nest_shortlink_platform.Common.Int.{pos}
use nest_shortlink_platform.Base62.{
  base62, base, char_at, index_of, ok, encode_loop, encode_base62, ◌>>=◌, decode_loop,
  decode_base62,
}

is_index : Option ℕ → ℕ → Bool
is_index none i = false
is_index (some j) i = nat_beq j i

is_index-eq : (o : Option ℕ) (i : ℕ) → is_index o i ≡ true → o ≡ some i
unfolding is_index
is_index-eq none i h = cc
is_index-eq (some j) i h = ground arith

-- A test by evaluation, of the numbers below a bound, largest first.
passes_to : (ℕ → Bool) → ℕ → Bool
passes_to test zero = true
passes_to test (suc bound) = if test bound then passes_to test bound else false

passes_to_lem :
    (test : ℕ → Bool) (i bound : ℕ) → i < bound → passes_to test bound ≡ true → test i ≡ true
unfolding passes_to
passes_to_lem test i zero below table = absurd (omega arith)
passes_to_lem test i (suc bound) below table =
    let smaller : i < bound → passes_to test bound ≡ true → test i ≡ true =
      passes_to_lem test i bound in
    ground (arith, smaller)

digit_found : ℕ → Bool
unfolding is_index index_of char_at
digit_found i = is_index (index_of base62 (char_at base62 i)) i

digit_table : passes_to digit_found 62 ≡ true
unfolding passes_to digit_found
digit_table = refl

index_of-char_at : (i : ℕ) → i < 62 → index_of base62 (char_at base62 i) ≡ some i
unfolding digit_found
index_of-char_at i h = is_index-eq _ i (passes_to_lem digit_found i 62 h digit_table)

-- What is found at a place is the character sought, and the place is in the list.
char_at-index_of : (xs : List ℕ) (c i : ℕ) → index_of xs c ≡ some i → char_at xs i ≡ c
unfolding index_of char_at
char_at-index_of [] c i e = cc
char_at-index_of (x ∷ xs) c zero e = ground (arith, Option-cases (index_of xs c))
char_at-index_of (x ∷ xs) c (suc i) e = ground (arith, char_at-index_of xs c i)

decode_loop-digit :
    (acc i : ℕ) (rest : List ℕ)
    → i < 62
    → decode_loop acc (char_at base62 i ∷ rest) ≡ decode_loop (acc * base + i) rest
unfolding decode_loop
decode_loop-digit acc i rest h = rw (index_of-char_at i h, decode_loop)

decode_loop-encode_loop :
    (rounds n : ℕ) (rest : List ℕ)
    → n ≤ rounds
    → decode_loop 0 (encode_loop rounds n rest) ≡ decode_loop n rest
unfolding encode_loop
decode_loop-encode_loop zero n rest h = let e : n ≡ 0 = omega arith in rw e
decode_loop-encode_loop (suc rounds) n rest h = elim (Bool-cases (n == 0)) [
  | inl z ↦ rw z (ap (λ (t : ℕ). decode_loop t rest) (sym ((nat_beq_iff n 0).0 z)))
  | inr nz ↦ rw nz (
      decode_loop-encode_loop rounds (n / base) (char_at base62 (n % base) ∷ rest) (ground arith)
      ∙ decode_loop-digit (n / base) (n % base) rest (omega arith)
      ∙ ap (λ (t : ℕ). decode_loop t rest) (omega arith))
]

decode_base62_of_loop :
    (code : List ℕ) (n : ℕ) → decode_loop 0 code ≡ ok n → n ≢ 0 → decode_base62 code ≡ ok n
unfolding decode_base62 decode_loop
decode_base62_of_loop [] n e h = absurd (h (ground arith))
decode_base62_of_loop (c ∷ cs) n e h = e

zero_code_read : decode_base62 (codes "0") ≡ ok 0
unfolding decode_base62 decode_loop index_of
zero_code_read = refl

-- Every non-negative number has a code, and the code is read back as the number.
pub decode_base62-encode_base62 : (n : ℕ) → (encode_base62 (pos n) >>= decode_base62) ≡ ok n
unfolding encode_base62 decode_loop
decode_base62-encode_base62 n = elim (Bool-cases (n == 0)) [
  | inl z ↦ rw z (zero_code_read ∙ ap ok (sym ((nat_beq_iff n 0).0 z)))
  | inr nz ↦ rw nz (
      decode_base62_of_loop (encode_loop n n []) n (decode_loop-encode_loop n n [] (omega arith))
        (λ z. ground (arith, nat_beq_iff n 0)))
]

-- `code` begins with no "0", and has a character.
abbrev pub IsCanonical : List ℕ → Type 0
IsCanonical [] = ⊥
IsCanonical (c ∷ cs) = c ≢ b'0'

encode_loop_fuel :
    (f g n : ℕ) (rest : List ℕ) → n ≤ f → n ≤ g → encode_loop f n rest ≡ encode_loop g n rest
unfolding encode_loop
encode_loop_fuel zero zero n rest h k = refl
encode_loop_fuel zero (suc g) n rest h k = ground arith
encode_loop_fuel (suc f) zero n rest h k = ground arith
encode_loop_fuel (suc f) (suc g) n rest h k =
    ground (arith, encode_loop_fuel f g (n / base) (char_at base62 (n % base) ∷ rest))

-- One more digit at the end is one round of the loop at its beginning.
encode_loop-digit :
    (f g acc i : ℕ) (rest : List ℕ)
    → i < 62
    → 0 < acc * base + i
    → acc * base + i ≤ f
    → acc ≤ g
    → encode_loop f (acc * base + i) rest ≡ encode_loop g acc (char_at base62 i ∷ rest)
unfolding encode_loop
encode_loop-digit zero g acc i rest h p k l = absurd (omega arith)
encode_loop-digit (suc f) g acc i rest h p k l =
    rw (nonzero, quotient, remainder)
      (encode_loop_fuel f g acc (char_at base62 i ∷ rest) (omega arith) l)
  where
    nonzero : (acc * base + i == 0) ≡ false
    nonzero = ground arith

    quotient : (acc * base + i) / base ≡ acc
    quotient = omega arith

    remainder : (acc * base + i) % base ≡ i
    remainder = omega arith

index_of-lt : (xs : List ℕ) (c i : ℕ) → index_of xs c ≡ some i → i < length xs
unfolding index_of
index_of-lt [] c i e = cc
index_of-lt (x ∷ xs) c zero e = omega arith
index_of-lt (x ∷ xs) c (suc i) e = ground (arith, index_of-lt xs c i)

-- What decodes to `v` from `acc` on is what the loop writes of `v` down to `acc`.
encode_loop-decode_loop :
    (cs : List ℕ) (f acc v : ℕ) (rest : List ℕ)
    → 0 < acc
    → decode_loop acc cs ≡ ok v
    → v ≤ f
    → (acc ≤ v) × (encode_loop f v rest ≡ encode_loop acc acc (cs ++ rest))
unfolding decode_loop
encode_loop-decode_loop [] f acc v rest p e h =
    let same : acc ≡ v = ground arith in
    rw same (omega arith, encode_loop_fuel f v v rest h (omega arith))
encode_loop-decode_loop (c ∷ cs) f acc v rest p e h = elim (Option-cases (index_of base62 c)) [
  | inl missing ↦ absurd (ground arith)
  | inr (i, found) ↦
      let (grows, same) =
        encode_loop-decode_loop cs f (acc * base + i) v rest (omega arith)
          (rw (found, decode_loop) at e) h in
      let small : i < 62 = index_of-lt base62 c i found in
      (
        omega arith,
        same
            ∙ encode_loop-digit (acc * base + i) acc acc i (cs ++ rest) small (omega arith)
                (omega arith) (omega arith)
            ∙ ap (λ (d : ℕ). encode_loop acc acc (d ∷ (cs ++ rest)))
                (char_at-index_of base62 c i found),
      )
]

first_digit_pos : (c i : ℕ) → char_at base62 i ≡ c → c ≢ b'0' → 0 < i
unfolding char_at
first_digit_pos c zero e h = absurd (h (sym e))
first_digit_pos c (suc i) e h = omega arith

-- The loop on the value of the first digit ends with that digit.
encode_loop-first :
    (i : ℕ) (xs : List ℕ) → i < 62 → 0 < i → encode_loop i i xs ≡ char_at base62 i ∷ xs
unfolding encode_loop
encode_loop-first i xs h p =
    let plain : 0 * base + i ≡ i = omega arith in
    subst (λ (t : ℕ). encode_loop i t xs ≡ char_at base62 i ∷ xs) plain
      (encode_loop-digit i 0 0 i xs h (omega arith) (omega arith) (omega arith))

encode_loop-decode_first :
    (c : ℕ) (cs : List ℕ) (n i : ℕ)
    → c ≢ b'0'
    → index_of base62 c ≡ some i
    → decode_loop 0 (c ∷ cs) ≡ ok n
    → (0 < n) × (encode_loop n n [] ≡ c ∷ cs)
unfolding decode_loop
encode_loop-decode_first c cs n i h found e =
    let digit : char_at base62 i ≡ c = char_at-index_of base62 c i found in
    let later : decode_loop i cs ≡ ok n =
      subst (λ (t : ℕ). decode_loop t cs ≡ ok n) (omega arith) (rw (found, decode_loop) at e) in
    let positive : 0 < i = first_digit_pos c i digit h in
    let (grows, same) = encode_loop-decode_loop cs n i n [] positive later (omega arith) in
    (
      omega arith,
      same
          ∙ encode_loop-first i (cs ++ []) (index_of-lt base62 c i found) positive
          ∙ ap₂ (λ (d : ℕ) (ds : List ℕ). d ∷ ds) digit (append-nil cs),
    )

-- A code that begins with no "0" and decodes is the code of its number.
pub encode_base62-decode_base62 :
    (code : List ℕ) (n : ℕ)
    → IsCanonical code
    → decode_base62 code ≡ ok n
    → encode_base62 (pos n) ≡ ok code
unfolding encode_base62 decode_base62 decode_loop
encode_base62-decode_base62 [] n h e = absurd h
encode_base62-decode_base62 (c ∷ cs) n h e = elim (Option-cases (index_of base62 c)) [
  | inl missing ↦ absurd (ground arith)
  | inr (i, found) ↦
      let (positive, same) = encode_loop-decode_first c cs n i h found e in
      let nonzero : (n == 0) ≡ false = ground arith in rw nonzero (ap ok same)
]

-- Encoding and decoding undo each other: every non-negative number is read back from its code, and a
-- code that begins with no "0" and decodes to a number is the code of that number.
pub base62_inverse :
    (n : ℕ) (code : List ℕ) (value : ℕ)
    → IsCanonical code
    → decode_base62 code ≡ ok value
    → ((encode_base62 (pos n) >>= decode_base62) ≡ ok n) × (encode_base62 (pos value) ≡ ok code)
base62_inverse n code value h e =
    (decode_base62-encode_base62 n, encode_base62-decode_base62 code value h e)
