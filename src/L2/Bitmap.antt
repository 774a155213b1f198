-- ===== src/L2/Bitmap.antt =====
-- The level 2 table as a set of blocks: bit `b % 8` of byte `b / 8` says whether block b is used.
use pim_swap.Base.{
  ℕ, ◌+◌, ◌*◌, ◌/◌, ◌%◌, ◌<◌, ◌≡◌, ◌≢◌, ◌∙◌, ap, ap₂, Bool, List, arith, length, get_or, set, ◌==◌,
  ◌||◌, ◌&&◌, not, ℕ_discrete, get_or-set_self, get_or-set_ne, bit_set, or_bit, clear_bit,
  bit_set-or_bit, bit_set-clear_bit,
}
use pim_swap.Mram.{
  Mram, AreBytes, mram_read, mram_write, get_or-mram_read, mram_write_inside, mram_write_outside,
}
use pim_swap.Layout.{dir_level2, section_addr}

-- Block `b` is marked as used.
abbrev pub used : Mram → ℕ → Bool
used m b = bit_set (m (dir_level2 + b / 8)) (b % 8)

-- The same within the bytes of a section.
abbrev pub bit_at : List ℕ → ℕ → Bool
bit_at l q = bit_set (get_or l (q / 8) 0) (q % 8)

pub bit_at-mram_read :
    (m : Mram) (s q : ℕ)
    → q < 512
    → bit_at (mram_read m (section_addr s) 64) q ≡ used m (s * 512 + q)
bit_at-mram_read m s q h =
    ap₂ bit_set (get_or-mram_read m (section_addr s) 64 (q / 8) (omega arith) ∙ ap m (omega arith))
      (omega arith)

-- Writing a section back changes the blocks of that section and no other.
pub used-mram_write_same :
    (l : List ℕ) (m : Mram) (s q : ℕ)
    → length l ≡ 64
    → q < 512
    → used (mram_write l (section_addr s) m) (s * 512 + q) ≡ bit_at l q
used-mram_write_same l m s q hl h =
    ap₂ bit_set
      (mram_write_inside l (section_addr s) m (dir_level2 + (s * 512 + q) / 8) (omega arith)
          (omega arith)
        ∙ ap (λ k. get_or l k 0) (omega arith))
      (omega arith)

pub used-mram_write_other :
    (l : List ℕ) (m : Mram) (s b : ℕ)
    → length l ≡ 64
    → b / 512 ≢ s
    → used (mram_write l (section_addr s) m) b ≡ used m b
used-mram_write_other l m s b hl h =
    ap (λ x. bit_set x (b % 8))
      (mram_write_outside l (section_addr s) m (dir_level2 + b / 8) (omega arith))

-- Setting and clearing one bit of the section.
module _ (l : List ℕ) (e b : ℕ) (bytes : AreBytes l) (he : e < length l) (hb : b < 8) where
  pub bit_at-set_or :
      (q : ℕ) → bit_at (set l e (or_bit (get_or l e 0) b)) q ≡ ((e * 8 + b == q) || bit_at l q)
  bit_at-set_or q = elim (ℕ_discrete e (q / 8)) [
    | yes same ↦ ground (
      arith,
      get_or-set_self l e (or_bit (get_or l e 0) b) 0 he,
      bit_set-or_bit (get_or l e 0) b (q % 8) (bytes e) hb (omega arith),
    )
    | no other ↦ ground (arith, get_or-set_ne l e (q / 8) (or_bit (get_or l e 0) b) 0 other)
  ]

  pub bit_at-set_clear :
      (q : ℕ)
      → bit_at (set l e (clear_bit (get_or l e 0) b)) q ≡ (not (e * 8 + b == q) && bit_at l q)
  bit_at-set_clear q = elim (ℕ_discrete e (q / 8)) [
    | yes same ↦ ground (
      arith,
      get_or-set_self l e (clear_bit (get_or l e 0) b) 0 he,
      bit_set-clear_bit (get_or l e 0) b (q % 8) (bytes e) hb (omega arith),
    )
    | no other ↦ ground (arith, get_or-set_ne l e (q / 8) (clear_bit (get_or l e 0) b) 0 other)
  ]
