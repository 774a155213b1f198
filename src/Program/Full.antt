-- ===== src/Program/Full.antt =====
-- lzo_compress_main when the first eight sections of the level 2 table are full.
use pim_swap.Base.{
  ℕ, ◌+◌, ◌*◌, ◌/◌, ◌%◌, ◌<◌, ◌≡◌, ◌↔◌, ◌∙◌, ap, ap₂, true, none, arith, bit_set, full_of_bit_set,
  bit_set_of_full,
}
use pim_swap.Mram.{Mram, mram_read}
use pim_swap.Layout.{page_size, trans_page, dir_level1}
use pim_swap.L2.Bitmap.{used}
use pim_swap.Page.Directory.{IsDirectory}
use pim_swap.Page.Allocation.{alloc_page-undefined}
use pim_swap.Program.{Crypto, Context, pack_page, count_packed, store_packed, lzo_compress_main}
use pim_swap.Program.Wram.{mem_alloc}
use pim_swap.Program.Written.{IsRequest}
use pim_swap.Program.Store.{reaches_store}

-- The first byte of the level 1 table is 0xFF exactly when the first 4096 blocks are used.
pub first_byte_iff :
    (m : Mram) → IsDirectory m → (m dir_level1 ≡ 0xff) ↔ ((b : ℕ) → b < 4096 → used m b ≡ true)
first_byte_iff m dir = (
  λ e b hb.
      ap (used m) (omega arith)
      ∙ (dir.exact (b / 512) (omega arith)).0
          (ap₂ bit_set (ap m (omega arith)) (omega arith)
            ∙ bit_set_of_full (m dir_level1) (b / 512) e (omega arith))
          (b % 512) (omega arith),
  λ all. full_of_bit_set (m dir_level1) (dir.bytes dir_level1) λ s hs.
      ap₂ bit_set (ap m (omega arith)) (omega arith)
      ∙ (dir.exact s (omega arith)).1 (λ j hj. all (s * 512 + j) (omega arith)),
)

-- For a valid request on a well-formed directory whose first 4096 blocks are all used, the
-- allocation that lzo_compress_main makes tests a variable that it never assigned, whatever is free
-- in the other blocks and whatever the page: the run has no defined result.
pub compress-undefined :
    (crypto : Crypto) (id : ℕ) (c : Context)
    → IsRequest id c
    → IsDirectory c.dpu.mram
    → ((b : ℕ) → b < 4096 → used c.dpu.mram b ≡ true)
    → lzo_compress_main crypto c ≡ none
unfolding store_packed count_packed mem_alloc
compress-undefined crypto id c q dir all =
    reaches_store crypto id c q
    ∙ (let e =
          alloc_page-undefined id
            (pack_page crypto (mram_read c.dpu.mram trans_page page_size)).compressed_length
            c.dpu.mram c.stats ((first_byte_iff c.dpu.mram dir).1 all) in
        rw e)
