-- ===== src/Page/Table.antt =====
-- The level 1 table as a set of sections, and the invariant that ties it to the level 2 table.
use pim_swap.Base.{
  ℕ, ◌+◌, ◌*◌, ◌/◌, ◌%◌, ◌≤◌, ◌<◌, ◌≡◌, ◌≢◌, ◌⊎◌, ◌↔◌, inl, inr, ◌∙◌, ap, Bool, true, List, arith,
  get_or, set, length, length-set, get_or-set_self, get_or-set_ne, ◌==◌, ◌&&◌, ◌||◌, not,
  ℕ_discrete, bit_set, or_bit, clear_bit, or_bit-lt, clear_bit-lt, bit_set-or_bit,
  bit_set-clear_bit,
}
use pim_swap.Mram.{
  Mram, IsBytes, AreBytes-set, mram_read, mram_write, length-mram_read, get_or-mram_read,
  AreBytes-mram_read, IsBytes-mram_write, mram_write_inside, mram_write_outside,
}
use pim_swap.Layout.{dir_level1, dir_level2, num_l2_sections}
use pim_swap.L2.Bitmap.{used}

-- The section is marked as full.
abbrev pub full_bit : Mram → ℕ → Bool
full_bit m s = bit_set (m (dir_level1 + s / 8)) (s % 8)

abbrev pub IsFullSection : Mram → ℕ → Type 0
IsFullSection m s = (j : ℕ) → j < 512 → used m (s * 512 + j) ≡ true

-- The level 1 table marks exactly the sections whose blocks are all used.
abbrev pub L1IsExact : Mram → Type 0
L1IsExact m = (s : ℕ) → s < num_l2_sections → (full_bit m s ≡ true) ↔ IsFullSection m s

-- The level 1 table with the byte of section s replaced, written back.
abbrev pub l1_written : Mram → ℕ → ℕ → Mram
l1_written m s v = mram_write (set (mram_read m dir_level1 240) (s / 8) v) dir_level1 m

module _ (m : Mram) (s : ℕ) (bytes : IsBytes m) (hs : s < num_l2_sections) where
  abbrev table : List ℕ
  table = mram_read m dir_level1 240

  module _ (v : ℕ) (hv : v < 256) where
    length-written : length (set table (s / 8) v) ≡ 240
    length-written = length-set table (s / 8) v ∙ length-mram_read m dir_level1 240

    pub written_here : l1_written m s v (dir_level1 + s / 8) ≡ v
    written_here =
        mram_write_inside (set table (s / 8) v) dir_level1 m (dir_level1 + s / 8) (omega arith)
          (omega (arith, length-written))
        ∙ ap (λ k. get_or (set table (s / 8) v) k 0) (omega arith)
        ∙ get_or-set_self table (s / 8) v 0 (omega (arith, length-mram_read m dir_level1 240))

    pub written_there :
        (e : ℕ) → e < 240 → s / 8 ≢ e → l1_written m s v (dir_level1 + e) ≡ m (dir_level1 + e)
    written_there e he ne =
        mram_write_inside (set table (s / 8) v) dir_level1 m (dir_level1 + e) (omega arith)
          (omega (arith, length-written))
        ∙ ap (λ k. get_or (set table (s / 8) v) k 0) (omega arith)
        ∙ get_or-set_ne table (s / 8) e v 0 ne
        ∙ get_or-mram_read m dir_level1 240 e he

    pub written_outside : (x : ℕ) → (x < dir_level1) ⊎ (dir_level2 ≤ x) → l1_written m s v x ≡ m x
    written_outside x (inl h) = mram_write_outside (set table (s / 8) v) dir_level1 m x (inl h)
    written_outside x (inr h) =
        mram_write_outside (set table (s / 8) v) dir_level1 m x
          (inr (omega (arith, length-written)))

    pub IsBytes-written : IsBytes (l1_written m s v)
    IsBytes-written =
        IsBytes-mram_write (set table (s / 8) v) dir_level1 m
          (AreBytes-set table (s / 8) v hv (AreBytes-mram_read m dir_level1 240 bytes)) bytes

  pub full_bit-set :
      (t : ℕ)
      → t < num_l2_sections
      → full_bit (l1_written m s (or_bit (m (dir_level1 + s / 8)) (s % 8))) t
        ≡ ((s == t) || full_bit m t)
  full_bit-set t ht = elim (ℕ_discrete (s / 8) (t / 8)) [
    | yes e ↦ ground (
      arith,
      written_here (or_bit (m (dir_level1 + s / 8)) (s % 8))
          (or_bit-lt _ _ (bytes _) (omega arith)),
      bit_set-or_bit (m (dir_level1 + s / 8)) (s % 8) (t % 8) (bytes _) (omega arith) (omega arith),
    )
    | no ne ↦ ground (
      arith,
      written_there (or_bit (m (dir_level1 + s / 8)) (s % 8))
          (or_bit-lt _ _ (bytes _) (omega arith)) (t / 8) (omega arith) ne,
    )
  ]

  pub full_bit-clear :
      (t : ℕ)
      → t < num_l2_sections
      → full_bit (l1_written m s (clear_bit (m (dir_level1 + s / 8)) (s % 8))) t
        ≡ (not (s == t) && full_bit m t)
  full_bit-clear t ht = elim (ℕ_discrete (s / 8) (t / 8)) [
    | yes e ↦ ground (
      arith,
      written_here (clear_bit (m (dir_level1 + s / 8)) (s % 8))
          (clear_bit-lt _ _ (bytes _) (omega arith)),
      bit_set-clear_bit (m (dir_level1 + s / 8)) (s % 8) (t % 8) (bytes _) (omega arith)
          (omega arith),
    )
    | no ne ↦ ground (
      arith,
      written_there (clear_bit (m (dir_level1 + s / 8)) (s % 8))
          (clear_bit-lt _ _ (bytes _) (omega arith)) (t / 8) (omega arith) ne,
    )
  ]
