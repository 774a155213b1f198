-- ===== src/Base/Bits.antt =====
-- Single bits of a byte, as the allocator's bitmaps test, set and clear them. What holds of every
-- byte and bit is checked by evaluation over all of them.
use Prim.Native.Nat.{ℕ, zero, suc, ◌-◌, ◌^◌, ◌<◌, bit_and, bit_or}
use mathlib.Core.Path.{◌≡◌, refl}
use mathlib.Core.Bool.{Bool, true, false, not, ◌&&◌, ◌||◌}
use native.Mathlib.Omega.{arith}
use pim_swap.Base.Tests.{◌==◌, ltb, if◌then◌else◌}

-- x & (1 << b), as a test.
unfoldable pub bit_set : ℕ → ℕ → Bool
bit_set x b = not (bit_and x (2 ^ b) == 0)

-- x |= (1 << b)
pub or_bit : ℕ → ℕ → ℕ
or_bit x b = bit_or x (2 ^ b)

-- x &= ~(1 << b) on a uint8_t: only the low eight bits of the mask count.
pub clear_bit : ℕ → ℕ → ℕ
clear_bit x b = bit_and x (0xff - 2 ^ b)

-- The predicate holds of every number below the bound.
holds_below : (bound : ℕ) (p : ℕ → Bool) → Bool
holds_below zero p = true
holds_below (suc bound) p = let rest = holds_below bound p in if p bound then rest else false

holds_at : (bound : ℕ) (p : ℕ → Bool) (i : ℕ) → holds_below bound p ≡ true → i < bound → p i ≡ true
unfolding holds_below
holds_at zero p i every below = absurd (omega arith)
holds_at (suc bound) p i every below = ground (arith, holds_at bound p i)

eqb : Bool → Bool → Bool
eqb true b = b
eqb false b = not b

eqb→eq : (a b : Bool) → eqb a b ≡ true → a ≡ b
unfolding eqb
eqb→eq a b h = ground arith

-- What is claimed of a byte x and bits b and c.
abbrev row : ℕ → ℕ → ℕ → Bool
row x b c =
    eqb (bit_set (or_bit x b) c) ((b == c) || bit_set x c)
    && eqb (bit_set (clear_bit x b) c) (not (b == c) && bit_set x c)

table : holds_below 256 (λ x. holds_below 8 (λ b. holds_below 8 (λ c. row x b c))) ≡ true
unfolding holds_below eqb bit_set or_bit clear_bit
table = refl

row_holds : (x b c : ℕ) → x < 256 → b < 8 → c < 8 → row x b c ≡ true
row_holds x b c hx hb hc =
    holds_at 8 (λ c. row x b c) c
      (holds_at 8 (λ b. holds_below 8 (λ c. row x b c)) b
        (holds_at 256 (λ x. holds_below 8 (λ b. holds_below 8 (λ c. row x b c))) x table hx) hb)
      hc

and_left : (a b : Bool) → (a && b) ≡ true → a ≡ true
and_left a b h = ground arith

and_right : (a b : Bool) → (a && b) ≡ true → b ≡ true
and_right a b h = ground arith

pub bit_set-or_bit :
    (x b c : ℕ) → x < 256 → b < 8 → c < 8 → bit_set (or_bit x b) c ≡ ((b == c) || bit_set x c)
bit_set-or_bit x b c hx hb hc = eqb→eq _ _ (and_left _ _ (row_holds x b c hx hb hc))

pub bit_set-clear_bit :
    (x b c : ℕ)
    → x < 256
    → b < 8
    → c < 8
    → bit_set (clear_bit x b) c ≡ (not (b == c) && bit_set x c)
bit_set-clear_bit x b c hx hb hc = eqb→eq _ _ (and_right _ _ (row_holds x b c hx hb hc))

range_table :
    holds_below 256 (λ x. holds_below 8 (λ b. ltb (or_bit x b) 256 && ltb (clear_bit x b) 256))
    ≡ true
unfolding holds_below or_bit clear_bit
range_table = refl

in_range : (x b : ℕ) → x < 256 → b < 8 → (ltb (or_bit x b) 256 && ltb (clear_bit x b) 256) ≡ true
in_range x b hx hb =
    holds_at 8 (λ b. ltb (or_bit x b) 256 && ltb (clear_bit x b) 256) b
      (holds_at 256 (λ x. holds_below 8 (λ b. ltb (or_bit x b) 256 && ltb (clear_bit x b) 256)) x
        range_table hx)
      hb

pub or_bit-lt : (x b : ℕ) → x < 256 → b < 8 → or_bit x b < 256
or_bit-lt x b hx hb = ground (arith, in_range x b hx hb)

pub clear_bit-lt : (x b : ℕ) → x < 256 → b < 8 → clear_bit x b < 256
clear_bit-lt x b hx hb = ground (arith, in_range x b hx hb)

-- A byte is 0xFF exactly when all its bits are set.
full_table : holds_below 256 (λ x. eqb (x == 0xff) (holds_below 8 (λ b. bit_set x b))) ≡ true
unfolding holds_below eqb bit_set
full_table = refl

full_row : (x : ℕ) → x < 256 → (x == 0xff) ≡ holds_below 8 (λ b. bit_set x b)
full_row x hx =
    eqb→eq _ _
      (holds_at 256 (λ x. eqb (x == 0xff) (holds_below 8 (λ b. bit_set x b))) x full_table hx)

pub bit_set_of_full : (x b : ℕ) → x ≡ 0xff → b < 8 → bit_set x b ≡ true
bit_set_of_full x b e hb = holds_at 8 (λ b. bit_set x b) b (ground (arith, full_row x)) hb

holds_below_of : (n : ℕ) (p : ℕ → Bool) → ((x : ℕ) → x < n → p x ≡ true) → holds_below n p ≡ true
unfolding holds_below
holds_below_of zero p h = refl
holds_below_of (suc n) p h = ground (arith, h n, holds_below_of n p (λ x lt. h x (omega arith)))

pub full_of_bit_set : (x : ℕ) → x < 256 → ((b : ℕ) → b < 8 → bit_set x b ≡ true) → x ≡ 0xff
full_of_bit_set x hx h = ground (arith, full_row x hx, holds_below_of 8 (λ b. bit_set x b) h)

zero_table : holds_below 8 (λ b. not (bit_set 0 b)) ≡ true
unfolding holds_below bit_set
zero_table = refl

-- No bit of 0 is set.
pub bit_set-zero : (b : ℕ) → b < 8 → bit_set 0 b ≡ false
bit_set-zero b h = ground (arith, holds_at 8 (λ b. not (bit_set 0 b)) b zero_table h)
