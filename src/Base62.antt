-- ===== src/Base62.antt =====
-- src/common/utils/base62.ts: numbers in base 62. Text is the list of its code points.
pub mod RoundTrip
mod Tests
use nest_shortlink_platform.Common.{
  ℕ, zero, suc, ◌+◌, ◌*◌, ◌/◌, ◌%◌, List, [], ◌∷◌, Option, none, some, ◌==◌, nat_eq, if◌then◌else◌,
  length,
}
use nest_shortlink_platform.Common.Text.{codes}
use nest_shortlink_platform.Common.Int.{ℤ, pos, negsuc}

abbrev pub base62 : List ℕ
base62 = codes "0123456789ABCDEFGHIJKLMNOPQRSTUVWXYZabcdefghijklmnopqrstuvwxyz"

abbrev pub base : ℕ
base = length base62

-- `BASE62[i]`; the index is below 62 wherever the source asks.
pub char_at : List ℕ → ℕ → ℕ
char_at [] i = 0
char_at (c ∷ cs) zero = c
char_at (c ∷ cs) (suc i) = char_at cs i

-- `indexOf`, with `none` for -1.
pub index_of : List ℕ → ℕ → Option ℕ
index_of [] c = none
index_of (x ∷ xs) c =
    if x == c then some 0 else elim (index_of xs c) [ none ↦ none | some i ↦ some (suc i) ]

pub data Error : Type 0 where
  negative empty : Error
  invalid_character : ℕ → Error

pub data Result (A : Type 0) : Type 0 where
  ok : A → Result A
  err : Error → Result A

infixl 5 ◌>>=◌
abbrev pub ◌>>=◌ : {A B : Type 0} → Result A → (A → Result B) → Result B
ok a >>= f = f a
err e >>= f = err e

-- The `while` loop; every round divides by 62, so `current` rounds are enough.
pub encode_loop : ℕ → ℕ → List ℕ → List ℕ
encode_loop zero current result = result
encode_loop (suc rounds) current result =
    let more = encode_loop rounds (current / base) (char_at base62 (current % base) ∷ result) in
    if current == 0 then result else more

pub encode_base62 : ℤ → Result (List ℕ)
encode_base62 (negsuc n) = err negative
encode_base62 (pos value) = if value == 0 then ok (codes "0") else ok (encode_loop value value [])

-- The `for` loop over the characters.
pub decode_loop : ℕ → List ℕ → Result ℕ
decode_loop result [] = ok result
decode_loop result (c ∷ cs) = elim (index_of base62 c) [
  | none ↦ err (invalid_character c)
  | some index ↦ decode_loop (result * base + index) cs
]

pub decode_base62 : List ℕ → Result ℕ
decode_base62 [] = err empty
decode_base62 (c ∷ cs) = decode_loop 0 (c ∷ cs)
