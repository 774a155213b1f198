-- ===== src/Page/Blank.antt =====
-- Memories whose level 1 and level 2 tables are zero: every block is free.
use pim_swap.Base.{
  ℕ, ◌+◌, ◌*◌, ◌/◌, ◌%◌, ◌≤◌, ◌<◌, ◌≡◌, ◌∙◌, refl, ap, false, arith, bit_set, bit_set-zero,
}
use pim_swap.Mram.{Mram, IsBytes, mram_read}
use pim_swap.Layout.{dir_level1, dir_level2, hash_table, num_l2_sections, num_storage_blocks}
use pim_swap.Hash.{entry_addr}
use pim_swap.Hash.Entry.{load_entry, entry_of_bytes}
use pim_swap.Hash.Laws.{load_entry_ext}
use pim_swap.L2.Bitmap.{used}
use pim_swap.Page.Directory.{IsDirectory, IsSearchable}
use pim_swap.Page.Search.{HasNoRoom}

-- A memory of zeros, as dpu_alloc leaves it.
abbrev pub blank : Mram
blank = λ x. 0

abbrev pub IsBlank : Mram → Type 0
IsBlank m = (x : ℕ) → dir_level1 ≤ x → x < hash_table → m x ≡ 0

pub blank-IsBytes : IsBytes blank
blank-IsBytes x = omega arith

pub blank-IsBlank : IsBlank blank
blank-IsBlank x lo hi = refl

module _ (m : Mram) (zeros : IsBlank m) where
  pub free_of_blank : (b : ℕ) → b < num_storage_blocks → used m b ≡ false
  free_of_blank b h =
      ap (λ (v : ℕ). bit_set v (b % 8)) (zeros (dir_level2 + b / 8) (omega arith) (omega arith))
      ∙ bit_set-zero (b % 8) (omega arith)

  pub blank-IsDirectory : IsBytes m → IsDirectory m
  blank-IsDirectory bytes = record {
    bytes = bytes;
    exact = λ s h. (
      λ e. absurd (cc (e, open_bit s h)),
      λ full. absurd (cc (full 0 (omega arith), free_of_blank (s * 512 + 0) (omega arith))),
    );
  }
    where
      open_bit : (s : ℕ) → s < num_l2_sections → bit_set (m (dir_level1 + s / 8)) (s % 8) ≡ false
      open_bit s h =
          ap (λ (v : ℕ). bit_set v (s % 8)) (zeros (dir_level1 + s / 8) (omega arith) (omega arith))
          ∙ bit_set-zero (s % 8) (omega arith)

  pub blank-IsSearchable : IsSearchable m
  blank-IsSearchable = record {
    first_open = λ e. absurd (omega (arith, e, zeros dir_level1 (omega arith) (omega arith)));
    stops = λ s h e he full.
        absurd
          (omega (arith, full, zeros (dir_level2 + s * 64 + (e + 1)) (omega arith) (omega arith)));
  }

  pub blank-HasRoom : (n : ℕ) → n ≤ 512 → HasNoRoom m n 0 → ⊥
  blank-HasRoom n h none = none 0 (omega arith) λ b lo hi. free_of_blank b (omega arith)

-- The entry of an identifier is free where its eight bytes are zero.
pub free_entry :
    (id : ℕ) (m : Mram)
    → ((x : ℕ) → entry_addr id ≤ x → x < entry_addr id + 8 → m x ≡ 0)
    → (load_entry m (entry_addr id)).length ≡ 0
free_entry id m h = ap (λ e. e.length) (load_entry_ext m blank (entry_addr id) h) ∙ zeros
  where
    zeros : (load_entry blank (entry_addr id)).length ≡ 0
    zeros = unfold load_entry entry_of_bytes mram_read in refl
