-- ===== src/Base/Xor.antt =====
-- Exclusive or, byte by byte.
use Prim.Native.Nat.{ℕ, zero, suc, ◌+◌, ◌*◌, ◌/◌, ◌%◌, ◌≤◌, ◌<◌, differ, bit_xor, bit_xor-bitwise}
use mathlib.Core.Path.{◌≡◌, refl, ap₂, ◌∙◌}
use mathlib.Core.Logic.{◌↔◌}
use native.Mathlib.Omega.{arith}
use pim_swap.Base.Fields.{any_fuel}

differ_lem : (x y : ℕ) → x < 2 → y < 2 → differ x y ≡ (x + y) % 2
differ_lem zero y hx hy = omega arith
differ_lem (suc zero) zero hx hy = refl
differ_lem (suc zero) (suc zero) hx hy = refl
differ_lem (suc zero) (suc (suc y)) hx hy = absurd (omega arith)
differ_lem (suc (suc x)) y hx hy = absurd (omega arith)

pub xor_digit : (a b : ℕ) → bit_xor a b ≡ bit_xor (a / 2) (b / 2) * 2 + (a + b) % 2
xor_digit zero b = omega (arith, bit_xor-bitwise 0 b, bit_xor-bitwise 0 (b / 2))
xor_digit (suc a) b = omega (
  arith,
  bit_xor-bitwise (suc a) b,
  bit_xor-bitwise (suc a / 2) (b / 2),
  any_fuel (λ y. y) differ a (suc a / 2) (suc a / 2) (b / 2) (omega arith) (omega arith),
  differ_lem (suc a % 2) (b % 2) (omega arith) (omega arith),
)

-- A digit less on both sides.
xor_half : (a b : ℕ) → bit_xor a b / 2 ≡ bit_xor (a / 2) (b / 2)
xor_half a b = omega (arith, xor_digit a b)

xor_low : (a b : ℕ) → (bit_xor a b % 2 ≡ 0) ↔ (a % 2 ≡ b % 2)
xor_low a b = (λ h. omega (arith, h, xor_digit a b), λ h. omega (arith, h, xor_digit a b))

pub xor_quarter : (a b : ℕ) → bit_xor a b / 4 ≡ bit_xor (a / 4) (b / 4)
xor_quarter a b =
    omega (arith, xor_half a b) ∙ xor_half (a / 2) (b / 2) ∙ ap₂ bit_xor (omega arith) (omega arith)

-- Four digits at a time.
xor_sixteenth : (a b : ℕ) → bit_xor a b / 16 ≡ bit_xor (a / 16) (b / 16)
xor_sixteenth a b =
    omega (arith, xor_quarter a b)
    ∙ xor_quarter (a / 4) (b / 4)
    ∙ ap₂ bit_xor (omega arith) (omega arith)

xor_two_low : (a b : ℕ) → (bit_xor a b % 4 ≡ 0) ↔ (a % 4 ≡ b % 4)
xor_two_low a b =
    let e0 = xor_digit a b in
    let e1 = xor_digit (a / 2) (b / 2) in
    (λ h. omega (arith, h, e0, e1), λ h. omega (arith, h, e0, e1))

xor_four_low : (a b : ℕ) → (bit_xor a b % 16 ≡ 0) ↔ (a % 16 ≡ b % 16)
xor_four_low a b =
    let low = xor_two_low a b in
    let high = xor_two_low (a / 4) (b / 4) in
    let e = xor_quarter a b in
    (
      λ h. omega (arith, h, low.0 (omega (arith, h)), high.0 (omega (arith, h, e))),
      λ h. omega (arith, h, e, low.1 (omega (arith, h)), high.1 (omega (arith, h))),
    )

-- Eight digits at a time.
pub xor_byte : (a b : ℕ) → bit_xor a b / 256 ≡ bit_xor (a / 256) (b / 256)
xor_byte a b =
    omega (arith, xor_sixteenth a b)
    ∙ xor_sixteenth (a / 16) (b / 16)
    ∙ ap₂ bit_xor (omega arith) (omega arith)

pub xor_byte_low : (a b : ℕ) → (bit_xor a b % 256 ≡ 0) ↔ (a % 256 ≡ b % 256)
xor_byte_low a b =
    let low = xor_four_low a b in
    let high = xor_four_low (a / 16) (b / 16) in
    let e = xor_sixteenth a b in
    (
      λ h. omega (arith, h, low.0 (omega (arith, h)), high.0 (omega (arith, h, e))),
      λ h. omega (arith, h, e, low.1 (omega (arith, h)), high.1 (omega (arith, h))),
    )

-- A number has no difference to itself.
xor_self_below : (n a : ℕ) → a ≤ n → bit_xor a a ≡ 0
xor_self_below n zero h = bit_xor-bitwise 0 0
xor_self_below zero (suc a) h = absurd (omega arith)
xor_self_below (suc n) (suc a) h =
    omega (arith, xor_digit (suc a) (suc a), xor_self_below n (suc a / 2) (omega arith))

pub xor_self : (a : ℕ) → bit_xor a a ≡ 0
xor_self a = xor_self_below a a (omega arith)
