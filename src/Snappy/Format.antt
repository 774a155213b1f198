-- ===== src/Snappy/Format.antt =====
-- The snappy format, as its readers take it apart: the first byte of an element has its type in the
-- low two bits.
use pim_swap.Base.{
  ℕ, zero, suc, ◌+◌, ◌-◌, ◌*◌, ◌/◌, ◌%◌, List, [], ◌∷◌, Option, none, some, ltb, ◌==◌,
  if◌then◌else◌, ◌≡◌,
}
use pim_swap.Page.{on_value}

-- The number of `n` bytes, the lowest first, and what follows it.
unfoldable pub read_number : ℕ → List ℕ → Option (ℕ × List ℕ)
read_number zero l = some (0, l)
read_number (suc n) [] = none
read_number (suc n) (b ∷ l) = on_value (read_number n l) λ r. some (b + r.0 * 256, r.1)

-- The length of a literal, and what follows the tag: up to 60 in the tag itself, or in one to four
-- bytes after it.
unfoldable pub read_literal : List ℕ → Option (ℕ × List ℕ)
read_literal [] = none
read_literal (b ∷ l) =
    if b % 4 == 0
    then (if ltb (b / 4) 60
        then some (b / 4 + 1, l)
        else (on_value (read_number (b / 4 - 59) l) λ r. some (r.0 + 1, r.1)))
    else none

-- The offset and the length of a copy, and what follows it: type 1 has 11 bits of offset and
-- lengths of 4 to 11, type 2 has 16 bits of offset and lengths of 1 to 64.
unfoldable pub read_copy : List ℕ → Option (ℕ × ℕ × List ℕ)
read_copy (b ∷ c ∷ l) =
    if b % 4 == 1
    then some (b / 32 * 256 + c, b / 4 % 8 + 4, l)
    else if b % 4 == 2
    then (on_value (read_number 1 l) λ r. some (c + r.0 * 256, b / 4 + 1, r.1))
    else none
read_copy _ = none

-- The bytes are copies at this offset, of `n` bytes together.
pub data Copies (offset : ℕ) : List ℕ → ℕ → Type 0 where
  no_copy : Copies offset [] 0
  next_copy :
      {l rest : List ℕ} {k n : ℕ}
      → read_copy l ≡ some (offset, k, rest)
      → Copies offset rest n
      → Copies offset l (k + n)
