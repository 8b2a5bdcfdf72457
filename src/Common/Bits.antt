-- ===== src/Common/Bits.antt =====
-- `|` of a shifted number and a number that fits under the shift, and `&` with a mask of ones.
use Prim.Native.Nat.{ℕ, zero, suc, ◌+◌, ◌-◌, ◌*◌, ◌/◌, ◌%◌, ◌^◌, ◌≤◌, ◌<◌, min, max}
use Prim.Native.Nat.{bit_and, bit_or, digits, bit_and-bitwise, bit_or-bitwise}
use mathlib.Core.Path.{◌≡◌, refl, ap, ◌∙◌}
use native.Mathlib.Nat.{
  pow-suc, pow-succ', one-le-pow, mul-add-mod_self_right, mod-eq_of_lt, mod-lt, div-add-mod',
}
use native.Mathlib.Omega.{arith}

-- Twice a shift is the next shift.
double_shift : (q k : ℕ) → q * 2 ^ suc k ≡ 2 * (q * 2 ^ k)
double_shift q k = omega (arith, ap (λ (t : ℕ). q * t) (pow-suc 2 k))

-- By recursion on the fuel of the digits, for every shift at once.
or_digits : (n k q r a : ℕ) → a ≡ q * 2 ^ k → a ≤ n → r < 2 ^ k → digits (λ y. y) max n a r ≡ a + r
or_digits zero k q r a e h f = omega arith
or_digits (suc n) k q r zero e h f = omega arith
or_digits (suc n) zero q r (suc a) e h f =
    omega (arith, or_digits n zero (suc a / 2) (r / 2) (suc a / 2) (omega arith) (omega arith))
or_digits (suc n) (suc k) q r (suc a) e h f = omega (
  arith,
  double_shift q k,
  pow-suc 2 k,
  or_digits n k q (r / 2) (suc a / 2) (omega (arith, double_shift q k)) (omega arith)
      (omega (arith, pow-suc 2 k)),
)

-- `(q << k) | r` is a sum, if `r` fits under the shift.
pub bit_or-shifted : (k q r : ℕ) → r < 2 ^ k → bit_or (q * 2 ^ k) r ≡ q * 2 ^ k + r
bit_or-shifted k q r h =
    bit_or-bitwise (q * 2 ^ k) r ∙ or_digits (q * 2 ^ k) k q r (q * 2 ^ k) refl (omega arith) h

-- The remainder by an even number, from the remainder of the half.
mod_double : (a p : ℕ) → 0 < p → a % (2 * p) ≡ a / 2 % p * 2 + a % 2
mod_double a p h =
    ap (λ (t : ℕ). t % (2 * p)) split
    ∙ mul-add-mod_self_right (a / 2 / p) (2 * p) (a / 2 % p * 2 + a % 2)
    ∙ mod-eq_of_lt (omega (arith, mod-lt (a / 2) h))
  where
    split : a ≡ a / 2 / p * (2 * p) + (a / 2 % p * 2 + a % 2)
    split = omega (arith, div-add-mod' (a / 2) p)

and_digits : (n k a : ℕ) → a ≤ n → digits (λ y. 0) min n a (2 ^ k - 1) ≡ a % 2 ^ k
and_digits zero k a h = omega (arith, one-le-pow k 2)
and_digits (suc n) k zero h = omega (arith, one-le-pow k 2)
and_digits (suc n) zero (suc a) h = omega (arith, and_digits n zero (suc a / 2) (omega arith))
and_digits (suc n) (suc k) (suc a) h =
    rw (half_mask, odd_mask)
      (omega (
        arith,
        ap (λ (t : ℕ). suc a % t) (pow-succ' 2 k),
        mod_double (suc a) (2 ^ k) (one-le-pow k 2 (omega arith)),
        and_digits n k (suc a / 2) (omega arith),
      ))
  where
    half_mask : (2 ^ suc k - 1) / 2 ≡ 2 ^ k - 1
    half_mask = omega (arith, pow-suc 2 k, one-le-pow k 2)

    odd_mask : (2 ^ suc k - 1) % 2 ≡ 1
    odd_mask = omega (arith, pow-suc 2 k, one-le-pow k 2)

-- `a & (2 ** k - 1)` is the remainder by `2 ** k`.
pub bit_and-mask : (k a : ℕ) → bit_and a (2 ^ k - 1) ≡ a % 2 ^ k
bit_and-mask k a = bit_and-bitwise a (2 ^ k - 1) ∙ and_digits a k a (omega arith)
