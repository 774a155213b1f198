-- ===== src/Layout/Blocks.antt =====
-- The block and section macros as arithmetic, and their inverses.
use pim_swap.Base.{
  ℕ, ◌+◌, ◌*◌, ◌/◌, ◌%◌, ◌^◌, ◌≤◌, ◌<◌, ◌≡◌, ◌↔◌, arith, ap, bit_or, and_mask, or_high_low,
}
use pim_swap.Layout.{
  mram_per_dpu, page_size, num_storage_blocks, num_l2_sections, l1_make_section,
  l1_entry_from_section, l1_bit_from_section, make_block_from_l2, l2_section_from_block,
  l2_entry_from_block, l2_bit_from_block, num_blocks_of, block_addr, storage_block_from_address,
}

pub l1_make_section_sum : (e b : ℕ) → b < 8 → l1_make_section e b ≡ e * 8 + b
unfolding l1_make_section
l1_make_section_sum e b h = or_high_low 3 e b h

pub make_block_sum :
    (s e b : ℕ)
    → s < num_l2_sections
    → e < 64
    → b < 8
    → make_block_from_l2 s e b ≡ s * 512 + e * 8 + b
unfolding make_block_from_l2
make_block_sum s e b hs he hb = omega (
  arith,
  ap (λ (t : ℕ). bit_or (bit_or t (e * 8)) b) (small s hs),
  ap (λ (t : ℕ). bit_or t b) (or_high_low 9 s (e * 8) (omega arith)),
  ap (λ (t : ℕ). bit_or t b) (regroup s e),
  or_high_low 3 (s * 64 + e) b hb,
)
  where
    small : (s : ℕ) → s < num_l2_sections → s * 2 ^ 9 % 2 ^ 32 ≡ s * 2 ^ 9
    small s h = omega arith

    regroup : (s e : ℕ) → s * 2 ^ 9 + e * 8 ≡ (s * 64 + e) * 2 ^ 3
    regroup s e = omega arith

pub l1_from_section :
    (s : ℕ)
    → s < num_l2_sections
    → (l1_entry_from_section s ≡ s / 8) × (l1_bit_from_section s ≡ s % 8)
unfolding l1_entry_from_section l1_bit_from_section
l1_from_section s h = omega (arith, and_mask 3 s)

pub l2_from_block :
    (b : ℕ)
    → (l2_section_from_block b ≡ b / 512)
      × (l2_entry_from_block b ≡ b / 8 % 64)
      × (l2_bit_from_block b ≡ b % 8)
unfolding l2_section_from_block l2_entry_from_block l2_bit_from_block
l2_from_block b = omega (arith, and_mask 3 b, and_mask 6 (b / 8))

-- For every section, entry and bit in range, the macros that split a block number recover them
-- from the number that MAKE_BLOCK_FROM_L2 builds, and that number is a storage block's.
pub split-make_block :
    (s e b : ℕ)
    → s < num_l2_sections
    → e < 64
    → b < 8
    → (l2_section_from_block (make_block_from_l2 s e b) ≡ s)
      × (l2_entry_from_block (make_block_from_l2 s e b) ≡ e)
      × (l2_bit_from_block (make_block_from_l2 s e b) ≡ b)
      × (make_block_from_l2 s e b < num_storage_blocks)
split-make_block s e b hs he hb =
    omega (arith, l2_from_block (make_block_from_l2 s e b), make_block_sum s e b hs he hb)

-- For every storage block, STORAGE_BLOCK_FROM_ADDRESS recovers the block from its address.
pub block_from_address-block_addr :
    (b : ℕ) → b < num_storage_blocks → storage_block_from_address (block_addr b) ≡ b
unfolding storage_block_from_address block_addr
block_from_address-block_addr b h = omega arith

-- A storage block lies inside the MRAM exactly when it is not the last one: struct mram_layout
-- is four bytes longer than the MRAM.
pub block_fits_iff :
    (b : ℕ)
    → b < num_storage_blocks
    → (block_addr b + 64 ≤ mram_per_dpu) ↔ (b + 1 < num_storage_blocks)
unfolding block_addr
block_fits_iff b h = (λ p. omega arith, λ p. omega arith)

-- A stored length between 1 and a page takes between 1 and 64 blocks, and just enough of them.
pub num_blocks_bounds :
    (n : ℕ)
    → 0 < n
    → n ≤ page_size
    → (1 ≤ num_blocks_of n)
      × (num_blocks_of n ≤ 64)
      × (n ≤ num_blocks_of n * 64)
      × (num_blocks_of n * 64 < n + 64)
unfolding num_blocks_of
num_blocks_bounds n p q = omega arith
