-- ===== src/Snappy/Endless.antt =====
-- The loop of dpu_compress on a last block of fewer than 15 bytes.
use pim_swap.Base.{ℕ, zero, suc, ◌-◌, ◌<◌, ◌≡◌, refl, none, true, false, ltb, leb, arith, ltb_of_lt}
use pim_swap.Program.Wram.{mem_alloc}
use pim_swap.Snappy.Output.{min_of}
use pim_swap.Snappy.Emit.{Work}
use pim_swap.Snappy.Block.{
  table_bytes, input_margin_bytes, compress_block, compress_blocks, dpu_compress,
}

blocks_endless :
    (fuel remain block_size : ℕ) (w : Work)
    → w.input.curr < w.input.length
    → remain < input_margin_bytes
    → compress_blocks fuel remain block_size w ≡ none
unfolding compress_blocks compress_block
blocks_endless zero remain block_size w more short = refl
blocks_endless (suc fuel) remain block_size w more short =
    let go : ltb w.input.curr w.input.length ≡ true = ltb_of_lt _ _ more in
    let small : leb input_margin_bytes (min_of remain block_size) ≡ false = ground arith in
    rw (go, small)
      (blocks_endless fuel (remain - min_of remain block_size) block_size _ more (omega arith))

-- Where the input has at least one byte and fewer than 15, dpu_compress does not end, however many
-- rounds its loop makes: no round consumes a byte.
pub dpu_compress_endless :
    (fuel block_size : ℕ) (w : Work)
    → w.input.curr < w.input.length
    → w.input.length < input_margin_bytes
    → dpu_compress fuel block_size w ≡ none
unfolding dpu_compress
dpu_compress_endless fuel block_size w more short =
    let s = w.local in
    let start = record w { local = record s { dpu = (mem_alloc table_bytes s.dpu).1 } } in
    rw (blocks_endless fuel w.input.length block_size start more short) refl
