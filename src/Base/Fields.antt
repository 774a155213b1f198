-- ===== src/Base/Fields.antt =====
-- Bit fields as arithmetic, at every width: `|` of a high and a low field is their sum, `&` with a
-- low mask is a remainder, and `&` with a single bit reads one digit.
use Prim.Native.Nat.{
  ℕ, zero, suc, ◌+◌, ◌-◌, ◌*◌, ◌/◌, ◌%◌, ◌^◌, ◌≤◌, ◌<◌, min, max, bit_and, bit_or, digits,
  bit_and-bitwise, bit_or-bitwise,
}
use mathlib.Core.Path.{◌≡◌, refl, ap}
use native.Mathlib.Omega.{arith}
use native.Mathlib.Nat.{pow-suc, one-le-pow}

-- The digit recursion behind a native operation, with its fuel written out.
module _ (tail : ℕ → ℕ) (digit : ℕ → ℕ → ℕ) where
  pub any_fuel : (n m a b : ℕ) → a ≤ n → a ≤ m → digits tail digit n a b ≡ digits tail digit m a b
  any_fuel zero zero a b p q = refl
  any_fuel zero (suc m) zero b p q = refl
  any_fuel zero (suc m) (suc a) b p q = absurd (omega arith)
  any_fuel (suc n) zero zero b p q = refl
  any_fuel (suc n) zero (suc a) b p q = absurd (omega arith)
  any_fuel (suc n) (suc m) zero b p q = refl
  any_fuel (suc n) (suc m) (suc a) b p q =
      rw (any_fuel n m (suc a / 2) (b / 2) (omega arith) (omega arith))

or_digit : (a b : ℕ) → bit_or a b ≡ bit_or (a / 2) (b / 2) * 2 + max (a % 2) (b % 2)
or_digit zero b = omega (arith, bit_or-bitwise 0 b, bit_or-bitwise 0 (b / 2))
or_digit (suc a) b = omega (
  arith,
  bit_or-bitwise (suc a) b,
  bit_or-bitwise (suc a / 2) (b / 2),
  any_fuel (λ y. y) max a (suc a / 2) (suc a / 2) (b / 2) (omega arith) (omega arith),
)

and_digit : (a b : ℕ) → bit_and a b ≡ bit_and (a / 2) (b / 2) * 2 + min (a % 2) (b % 2)
and_digit zero b = omega (arith, bit_and-bitwise 0 b, bit_and-bitwise 0 (b / 2))
and_digit (suc a) b = omega (
  arith,
  bit_and-bitwise (suc a) b,
  bit_and-bitwise (suc a / 2) (b / 2),
  any_fuel (λ y. 0) min a (suc a / 2) (suc a / 2) (b / 2) (omega arith) (omega arith),
)

-- The fuel `n` bounds the number.
or_zero : (n a : ℕ) → a ≤ n → bit_or a 0 ≡ a
or_zero n zero h = refl
or_zero zero (suc a) h = absurd (omega arith)
or_zero (suc n) (suc a) h = omega (arith, or_digit (suc a) 0, or_zero n (suc a / 2) (omega arith))

and_zero : (n a : ℕ) → a ≤ n → bit_and a 0 ≡ 0
and_zero n zero h = refl
and_zero zero (suc a) h = absurd (omega arith)
and_zero (suc n) (suc a) h =
    omega (arith, and_digit (suc a) 0, and_zero n (suc a / 2) (omega arith))

double_field : (q k : ℕ) → q * 2 ^ suc k ≡ 2 * (q * 2 ^ k)
double_field q k = omega (arith, ap (λ (t : ℕ). q * t) (pow-suc 2 k))

pub or_high_low : (k q r : ℕ) → r < 2 ^ k → bit_or (q * 2 ^ k) r ≡ q * 2 ^ k + r
or_high_low zero q r h = ground (arith, or_zero q q)
or_high_low (suc k) q r h =
    ground
      (arith, or_digit (q * 2 ^ suc k) r, double_field q k, or_high_low k q (r / 2) (omega arith))

pub or_low_high : (k q r : ℕ) → r < 2 ^ k → bit_or r (q * 2 ^ k) ≡ q * 2 ^ k + r
or_low_high zero q zero h = omega (arith, bit_or-bitwise 0 (q * 2 ^ 0))
or_low_high zero q (suc r) h = absurd (omega arith)
or_low_high (suc k) q r h =
    ground
      (arith, or_digit r (q * 2 ^ suc k), double_field q k, or_low_high k q (r / 2) (omega arith))

and_high_mask : (k q r : ℕ) → r < 2 ^ k → bit_and (q * 2 ^ k + r) (2 ^ k - 1) ≡ r
and_high_mask zero q r h = rw (and_zero (q * 2 ^ 0 + r) (q * 2 ^ 0 + r) (omega arith)) (omega arith)
and_high_mask (suc k) q r h = ground (
  arith,
  and_digit (q * 2 ^ suc k + r) (2 ^ suc k - 1),
  double_field q k,
  pow-suc 2 k,
  one-le-pow k 2,
  and_high_mask k q (r / 2),
)

pub and_mask : (k a : ℕ) → bit_and a (2 ^ k - 1) ≡ a % 2 ^ k
and_mask k a = ground (arith, one-le-pow k 2, and_high_mask k (a / 2 ^ k) (a % 2 ^ k))

and_high_bit : (k q r : ℕ) → r < 2 ^ k → bit_and (q * 2 ^ k + r) (2 ^ k) ≡ q % 2 * 2 ^ k
and_high_bit zero q zero h = omega (
  arith,
  and_digit (q * 2 ^ 0 + 0) 1,
  and_zero ((q * 2 ^ 0 + 0) / 2) ((q * 2 ^ 0 + 0) / 2) (omega arith),
)
and_high_bit zero q (suc r) h = absurd (omega arith)
and_high_bit (suc k) q r h = ground (
  arith,
  and_digit (q * 2 ^ suc k + r) (2 ^ suc k),
  double_field q k,
  double_field (q % 2) k,
  pow-suc 2 k,
  and_high_bit k q (r / 2),
)

pub and_bit : (k a : ℕ) → bit_and a (2 ^ k) ≡ a / 2 ^ k % 2 * 2 ^ k
and_bit k a = ground (arith, one-le-pow k 2, and_high_bit k (a / 2 ^ k) (a % 2 ^ k))
