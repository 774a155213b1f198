-- ===== src/L2/Outcome.antt =====
-- What find_free_blocks_l2 can do to the blocks of a section.
use pim_swap.Base.{
  ℕ, ◌+◌, ◌*◌, ◌≤◌, ◌<◌, ◌≡◌, ◌⊎◌, ◌↔◌, Bool, true, false, some, ◌||◌, ◌&&◌, ltb, leb, uint_max,
}
use pim_swap.Mram.{Mram, IsBytes}
use pim_swap.Layout.{section_addr}
use pim_swap.L2.{Found}
use pim_swap.L2.Bitmap.{used}

-- Block numbers lo, ..., hi - 1 are all free.
abbrev pub AreFree : Mram → ℕ → ℕ → Type 0
AreFree m lo hi = (b : ℕ) → lo ≤ b → b < hi → used m b ≡ false

-- In this section the block before every entry that is 0xFF is used.
abbrev pub StopsAtFull : Mram → ℕ → Type 0
StopsAtFull m s =
    (e : ℕ) → e + 1 < 64 → m (section_addr s + (e + 1)) ≡ 0xff → used m (s * 512 + e * 8 + 7) ≡ true

-- Block b is one of the n from `first` on.
abbrev pub in_blocks : ℕ → ℕ → ℕ → Bool
in_blocks first n b = leb first b && ltb b (first + n)

-- The call found no room and left everything alone.
pub record Fails (s n : ℕ) (u : Bool) (m : Mram) (r : Found) : Type 0 where
  pub returned : r.first_block ≡ some uint_max
  pub same_flag : r.update_l1 ≡ u
  pub same_mram : r.mram ≡ m
  pub no_room : (q : ℕ) → q + n ≤ 512 → AreFree m (s * 512 + q) (s * 512 + q + n) → ⊥

-- The call took the first run of n free blocks of the section: it returned its first block, marked
-- the run and nothing else, and said whether the section is now full.
pub record Takes (s n : ℕ) (m : Mram) (r : Found) : Type 0 where
  pub start : ℕ
  pub inside : start + n ≤ 512
  pub returned : r.first_block ≡ some (s * 512 + start)
  pub was_free : AreFree m (s * 512 + start) (s * 512 + start + n)
  pub earliest : (q : ℕ) → q < start → AreFree m (s * 512 + q) (s * 512 + q + n) → ⊥
  pub marked : (b : ℕ) → used r.mram b ≡ (in_blocks (s * 512 + start) n b || used m b)
  pub flag : (r.update_l1 ≡ true) ↔ ((j : ℕ) → j < 512 → used r.mram (s * 512 + j) ≡ true)

-- What holds whatever the section looks like.
pub record IsContained (s : ℕ) (m : Mram) (r : Found) : Type 0 where
  pub outside : (x : ℕ) → (x < section_addr s) ⊎ (section_addr s + 64 ≤ x) → r.mram x ≡ m x
  pub bytes : IsBytes r.mram
