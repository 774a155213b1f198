-- ===== src/Snappy/Matched.antt =====
-- What find_match_length finds: the length of the common part of two places of the input.
use pim_swap.Base.{
  ℕ, zero, suc, ◌+◌, ◌/◌, ◌%◌, ◌^◌, ◌<◌, ◌≡◌, ◌≢◌, ◌∙◌, ap, false, arith, ◌==◌, ℕ_discrete,
  xor_byte, xor_byte_low,
}
use Prim.Native.Nat.{bit_xor}
use pim_swap.Mram.{Mram, IsBytes}
use pim_swap.Snappy.Mirror.{word_at}
use pim_swap.Snappy.Match.{trailing_zeros}

-- Four zero bits, and fewer.
four_zeros :
    (k x : ℕ)
    → x % 16 ≡ 0
    → trailing_zeros (suc (suc (suc (suc k)))) x ≡ 4 + trailing_zeros k (x / 16)
unfolding trailing_zeros
four_zeros k x h =
    let b0 : (x % 2 == 1) ≡ false = ground arith in
    let b1 : (x / 2 % 2 == 1) ≡ false = ground arith in
    let b2 : (x / 2 / 2 % 2 == 1) ≡ false = ground arith in
    let b3 : (x / 2 / 2 / 2 % 2 == 1) ≡ false = ground arith in
    let e : x / 2 / 2 / 2 / 2 ≡ x / 16 = omega arith in rw (b0, b1, b2, b3, e) (omega arith)

fewer_zeros : (k x : ℕ) → x % 16 ≢ 0 → trailing_zeros (suc (suc (suc (suc k)))) x < 4
unfolding trailing_zeros
fewer_zeros k x h = ground arith

-- Byte by byte.
unfoldable pub eight_more : ℕ → ℕ
eight_more k = suc (suc (suc (suc (suc (suc (suc (suc k)))))))

zero_byte :
    (k x : ℕ) → x % 256 ≡ 0 → trailing_zeros (eight_more k) x ≡ 8 + trailing_zeros k (x / 256)
unfolding eight_more
zero_byte k x h =
    four_zeros (suc (suc (suc (suc k)))) x (omega arith)
    ∙ ap (λ (z : ℕ). 4 + z) (four_zeros k (x / 16) (omega arith))
    ∙ omega (arith, ap (trailing_zeros k) (quotient x))
  where
    quotient : (x : ℕ) → x / 16 / 16 ≡ x / 256
    quotient x = omega arith

other_byte : (k x : ℕ) → x % 256 ≢ 0 → trailing_zeros (eight_more k) x < 8
unfolding eight_more
other_byte k x h = elim (ℕ_discrete (x % 16) 0) [
  | yes e ↦
      let upper = fewer_zeros k (x / 16) (λ f. absurd (h (omega (arith, e, f)))) in
      let more = four_zeros (suc (suc (suc (suc k)))) x e in omega (arith, upper, more)
  | no ne ↦ omega (arith, fewer_zeros (suc (suc (suc (suc k)))) x ne)
]

-- A byte of a number.
unfoldable pub byte_no : ℕ → ℕ → ℕ
byte_no zero w = w % 256
byte_no (suc i) w = byte_no i (w / 256)

unfoldable pub bits_of : ℕ → ℕ
unfolding eight_more
bits_of zero = 0
bits_of (suc n) = eight_more (bits_of n)

-- The whole bytes of zeros below the lowest one bit of an exclusive or: those bytes agree, and the
-- next does not.
pub common_bytes :
    (n a b : ℕ)
    → a < 256 ^ n
    → b < 256 ^ n
    → a ≢ b
    → let q = trailing_zeros (bits_of n) (bit_xor a b) / 8 in
      (q < n) × ((i : ℕ) → i < q → byte_no i a ≡ byte_no i b) × (byte_no q a ≢ byte_no q b)
unfolding byte_no bits_of
common_bytes zero a b ha hb ne = absurd (ne (omega arith))
common_bytes (suc n) a b ha hb ne = elim (ℕ_discrete (a % 256) (b % 256)) [
  | yes e ↦
      let z = zero_byte (bits_of n) (bit_xor a b) ((xor_byte_low a b).1 e) in
      let (lt, same, other) =
        common_bytes n (a / 256) (b / 256) (omega arith) (omega arith)
          (λ f. ne (omega (arith, e, f))) in
      let q : trailing_zeros (eight_more (bits_of n)) (bit_xor a b) / 8
          ≡ suc (trailing_zeros (bits_of n) (bit_xor (a / 256) (b / 256)) / 8) =
        omega (arith, z, ap (trailing_zeros (bits_of n)) (xor_byte a b)) in
      rw q (omega (arith, lt), agree e same, other)
  | no f ↦
      let less = other_byte (bits_of n) (bit_xor a b) (λ z. f ((xor_byte_low a b).0 z)) in
      let q : trailing_zeros (eight_more (bits_of n)) (bit_xor a b) / 8 ≡ 0 = omega (arith, less) in
      rw q (omega arith, (λ i h. absurd (omega arith)), f)
]
  where
    agree :
        {k : ℕ}
        → a % 256 ≡ b % 256
        → ((i : ℕ) → i < k → byte_no i (a / 256) ≡ byte_no i (b / 256))
        → (i : ℕ) → i < suc k
        → byte_no i a ≡ byte_no i b
    agree e same zero h = e
    agree e same (suc i) h = same i (omega arith)

pub byte_no-word_at : (m : Mram) (x i : ℕ) → IsBytes m → i < 4 → byte_no i (word_at m x) ≡ m (x + i)
unfolding byte_no
byte_no-word_at m x zero bytes h = omega (arith, bytes x, ap m (plus x))
  where
    plus : (x : ℕ) → x + 0 ≡ x
    plus x = omega arith
byte_no-word_at m x (suc zero) bytes h = omega (arith, bytes x, bytes (x + 1))
byte_no-word_at m x (suc (suc zero)) bytes h = omega (arith, bytes x, bytes (x + 1), bytes (x + 2))
byte_no-word_at m x (suc (suc (suc zero))) bytes h =
    omega (arith, bytes x, bytes (x + 1), bytes (x + 2), bytes (x + 3))
byte_no-word_at m x (suc (suc (suc (suc i)))) bytes h = absurd (omega arith)

pub word_at_lt : (m : Mram) (x : ℕ) → IsBytes m → word_at m x < 2 ^ 32
word_at_lt m x bytes = omega (arith, bytes x, bytes (x + 1), bytes (x + 2), bytes (x + 3))
