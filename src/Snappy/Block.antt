-- ===== src/Snappy/Block.antt =====
-- compress_block and dpu_compress of module/snappy_compress.c. `none` is a loop that has rounds
-- left when its fuel is used up, or an undefined value.
use pim_swap.Base.{
  ℕ, zero, suc, ◌+◌, ◌-◌, ◌*◌, ◌/◌, ◌^◌, Option, none, some, u16, u32, ltb, leb, ◌==◌,
  if◌then◌else◌, not,
}
use pim_swap.Page.{on_value}
use pim_swap.Program.Wram.{mem_alloc}
use pim_swap.Snappy.Reader.{advance_seqread, read_uint32, read_two_uint32}
use pim_swap.Snappy.Output.{out_buffer_length, min_of, write_compressed_length, write_last}
use pim_swap.Snappy.Emit.{Work, set_mram, write_literal, write_copy}
use pim_swap.Snappy.Match.{log2_floor, hash_shift, hash, find_match_length}

-- The hash table of uint16_t entries.
abbrev pub HashTable : Type 0
HashTable = ℕ → ℕ

unfoldable pub set_entry : ℕ → ℕ → HashTable → HashTable
set_entry h v table k = if k == h then u16 v else table k

-- The constants of a block.
pub record BlockBounds : Type 0 where
  pub base_input : ℕ
  pub input_end : ℕ
  pub input_limit : ℕ
  pub shift : ℕ
  pub output_start : ℕ

-- How step 1 ends: the input is nearly used up, or four bytes match at a candidate.
pub data Scanned : Type 0 where
  exhausted : HashTable → Scanned
  found : ℕ → ℕ → HashTable → Scanned

-- How step 3 ends: the block is done, or the next literal begins at a position.
pub data Copied : Type 0 where
  block_done : HashTable → Work → Copied
  next_literal : ℕ → HashTable → Work → Copied

module _ (b : BlockBounds) where
  -- The rest of the block is emitted as a literal, and the length is filled in.
  unfoldable pub finish_block : ℕ → Work → Work
  finish_block next_emit w =
      let w' = if ltb next_emit b.input_end then write_literal (b.input_end - next_emit) w else w in
      let compressed_len = u32 (w'.output.curr + 2 ^ 32 - b.output_start) in
      let m =
        write_compressed_length (b.output_start - 4) compressed_len w'.output w'.local.dpu.mram in
      record w' { local = set_mram m w'.local }

  -- Step 1, with `left` rounds left: the loop that looks for a match of four bytes.
  unfoldable pub scan_input : ℕ → ℕ → ℕ → ℕ → HashTable → Work → Option Scanned
  scan_input zero next_input next_hash skip_bytes table w = none
  scan_input (suc left) curr_input hval skip_bytes table w =
      let read = λ (offset : ℕ). read_uint32 w.input offset w.local in
      let next_input = u32 (curr_input + skip_bytes / 2 ^ 5) in
      let candidate = u32 (b.base_input + table hval) in
      let table' = set_entry hval (u32 (curr_input + 2 ^ 32 - b.base_input)) table in
      let rest =
        scan_input left next_input (hash (read next_input) b.shift) (u32 (skip_bytes + 1)) table'
          w in
      if ltb b.input_limit next_input
      then some (exhausted table)
      else if not (read curr_input == read candidate)
      then rest
      else some (found curr_input candidate table')

  -- Step 3, with `left` rounds left: the copy of a match, and of matches that follow it at once.
  unfoldable pub emit_matches : ℕ → ℕ → ℕ → HashTable → Work → Option Copied
  emit_matches zero curr_input candidate table w = none
  emit_matches (suc left) base candidate table w =
      on_value
        (find_match_length w.input w.local (u32 (candidate + 4)) (u32 (base + 4)) b.input_end)
        λ more.
          let matched = 4 + more in
          let curr_input = u32 (base + matched) in
          let (input, s) = advance_seqread matched w.input w.local in
          let w' =
            write_copy (u32 (base + 2 ^ 32 - candidate)) matched
              (record w { input = input; local = s }) in
          let (prev_bytes, curr_bytes) = read_two_uint32 w'.input (curr_input - 1) w'.local in
          let table1 =
            set_entry (hash prev_bytes b.shift) (u32 (curr_input + 2 ^ 32 - b.base_input - 1))
              table in
          let curr_hash = hash curr_bytes b.shift in
          let candidate' = u32 (b.base_input + table1 curr_hash) in
          let table2 = set_entry curr_hash (u32 (curr_input + 2 ^ 32 - b.base_input)) table1 in
          let rest = emit_matches left curr_input candidate' table2 w' in
          if leb b.input_limit curr_input
          then some (block_done table (finish_block curr_input w'))
          else if curr_bytes == read_uint32 w'.input candidate' w'.local
          then rest
          else some (next_literal curr_input table2 w')

  -- The main loop, with `left` rounds left: each consumes input, so that the rounds that are left
  -- also bound those of the inner loops.
  unfoldable pub main_loop : ℕ → ℕ → ℕ → HashTable → Work → Option (HashTable × Work)
  main_loop zero curr_input next_emit table w = none
  main_loop (suc left) curr_input next_emit table w =
      let first = u32 (curr_input + 1) in
      let next_hash = hash (read_uint32 w.input first w.local) b.shift in
      on_value (scan_input (suc left) first next_hash 32 table w) λ r. elim r [
        | exhausted table1 ↦ some (table1, finish_block next_emit w)
        | found matched candidate table1 ↦
            let w' = write_literal (u32 (matched + 2 ^ 32 - next_emit)) w in
            on_value (emit_matches (suc left) matched candidate table1 w') λ q. elim q [
              | block_done table2 w2 ↦ some (table2, w2)
              | next_literal next table2 w2 ↦ main_loop left next next table2 w2
            ]
      ]

-- `input_margin_bytes`
abbrev pub input_margin_bytes : ℕ
input_margin_bytes = 15

-- compress_block: room for the length is left in the output, and a block of fewer than 15 bytes is
-- not looked at.
unfoldable pub compress_block : ℕ → HashTable → ℕ → Work → Option (HashTable × Work)
compress_block input_size table table_size w =
    let curr_input = w.input.curr in
    let o = w.output in
    let w' = record w { output = record o { curr = u32 (o.curr + 4) } } in
    let b : BlockBounds = record {
      base_input = curr_input;
      input_end = u32 (curr_input + input_size);
      input_limit = u32 (curr_input + input_size + 2 ^ 32 - input_margin_bytes);
      shift = hash_shift table_size;
      output_start = u32 (o.curr + 4);
    } in
    if leb input_margin_bytes input_size
    then main_loop b input_size curr_input curr_input table w'
    else some (table, w')

-- WRAM_PER_TASKLET, with WRAM_SIZE of 64 KB, NR_TASKLETS of 1 and STACK_SIZE_DEFAULT of 256.
abbrev pub wram_per_tasklet : ℕ
wram_per_tasklet = 2 ^ 16 / 1 - 2 * out_buffer_length - 256

-- The size of the hash table in bytes, a power of 2.
unfoldable pub table_bytes : ℕ
table_bytes = elim (log2_floor wram_per_tasklet) [ none ↦ 0 | some k ↦ 2 ^ k ]

-- The loop of dpu_compress over the blocks, with `left` rounds left. The table is set to 0 before
-- each.
unfoldable pub compress_blocks : ℕ → ℕ → ℕ → Work → Option Work
compress_blocks zero length_remain block_size w = none
compress_blocks (suc left) length_remain block_size w =
    let to_compress = min_of length_remain block_size in
    if ltb w.input.curr w.input.length
    then (on_value (compress_block to_compress (λ k. 0) (table_bytes / 2) w)
        λ r. compress_blocks left (length_remain - to_compress) block_size r.1)
    else some w

-- dpu_compress, with the fuel of its loop.
unfoldable pub dpu_compress : ℕ → ℕ → Work → Option Work
dpu_compress fuel block_size w =
    let s = w.local in
    let (table, d) = mem_alloc table_bytes s.dpu in
    let w' = record w { local = record s { dpu = d } } in
    on_value (compress_blocks fuel w.input.length block_size w') λ v.
      let (o, m) = write_last v.output v.local.dpu.mram in
      some (record v { output = o; local = set_mram m v.local })
