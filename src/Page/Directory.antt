-- ===== src/Page/Directory.antt =====
-- When the two tables of the allocator are well formed, and when they can be searched.
use pim_swap.Base.{ℕ, ◌+◌, ◌*◌, ◌≤◌, ◌<◌, ◌≡◌, ◌≢◌, ◌∙◌, sym, arith}
use pim_swap.Mram.{Mram, IsBytes}
use pim_swap.Layout.{dir_level1, hash_table, num_l2_sections}
use pim_swap.L2.Outcome.{StopsAtFull}
use pim_swap.Page.Table.{L1IsExact}
use pim_swap.Page.Commit.{used_ext, full_bit_ext}

-- A well-formed directory: bytes, with level 1 marking exactly the full sections of level 2.
pub record IsDirectory (m : Mram) : Type 0 where
  pub bytes : IsBytes m
  pub exact : L1IsExact m

-- It depends on the bytes of the two tables.
pub IsDirectory-ext :
    (m m' : Mram)
    → ((x : ℕ) → dir_level1 ≤ x → x < hash_table → m' x ≡ m x)
    → IsBytes m'
    → IsDirectory m
    → IsDirectory m'
IsDirectory-ext m m' same bytes dir = record {
  bytes = bytes;
  exact = λ s hs.
      let bit = full_bit_ext m m' (λ x lo hi. same x lo (omega arith)) s hs in
      let blocks = λ (j : ℕ) (hj : j < 512).
        used_ext m m' (λ x lo hi. same x (omega arith) hi) (s * 512 + j) (omega arith) in
      (
        λ h j hj. blocks j hj ∙ (dir.exact s hs).0 (sym bit ∙ h) j hj,
        λ h. bit ∙ (dir.exact s hs).1 (λ j hj. sym (blocks j hj) ∙ h j hj),
      );
}

-- The first entry of level 1 is not 0xFF, and in every section the block before a full entry is
-- used. Outside of this the search is undefined, or may count a run across a full entry.
pub record IsSearchable (m : Mram) : Type 0 where
  pub first_open : m dir_level1 ≢ 0xff
  pub stops : (s : ℕ) → s < num_l2_sections → StopsAtFull m s
