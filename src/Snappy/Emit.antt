-- ===== src/Snappy/Emit.antt =====
-- The functions of module/snappy_compress.c that write elements: copy_output_buffer, emit_literal,
-- emit_copy_less_than64 and emit_copy, on the buffers and the memories.
use pim_swap.Base.{ℕ, zero, suc, ◌+◌, ◌-◌, ◌/◌, ◌^◌, List, u32, ltb, leb, if◌then◌else◌}
use pim_swap.Mram.{Mram, mram_read}
use pim_swap.Snappy.{copy_less_than64, literal_tag}
use pim_swap.Snappy.Reader.{Local, InBuffer, advance_seqread}
use pim_swap.Snappy.Output.{OutBuffer, make_room, put_bytes, room_for, write_output_buffer}

-- The buffers that the compressor works on, and the memories.
pub record Work : Type 0 where
  pub input : InBuffer
  pub output : OutBuffer
  pub local : Local

-- The MRAM of the DPU replaced.
unfoldable pub set_mram : Mram → Local → Local
set_mram m s = let d = s.dpu in record s { dpu = record d { mram = m } }

-- The loop of copy_output_buffer, with `left` rounds left.
unfoldable pub copy_rounds : ℕ → ℕ → ℕ → Work → Work
copy_rounds zero index len w = w
copy_rounds (suc left) index zero w = w
copy_rounds (suc left) index (suc more) w =
    let (curr_index, o, m) = make_room index w.output w.local.dpu.mram in
    let to_copy = room_for curr_index (suc more) in
    let bytes = mram_read w.local.memory w.input.ptr to_copy in
    let (input, s) = advance_seqread to_copy w.input (set_mram m w.local) in
    copy_rounds left (u32 (curr_index + to_copy)) (suc more - to_copy)
      (record { input = input; output = put_bytes curr_index bytes o; local = s })

-- copy_output_buffer: a round copies at least a byte.
unfoldable pub copy_output_buffer : ℕ → Work → Work
copy_output_buffer len w =
    copy_rounds len (u32 (w.output.curr + 2 ^ 32 - w.output.append_window)) len w

-- write_output_buffer within the whole state.
unfoldable pub write_output : List ℕ → Work → Work
write_output bytes w =
    let (o, m) = write_output_buffer bytes w.output w.local.dpu.mram in
    record w { output = o; local = set_mram m w.local }

-- emit_literal
unfoldable pub write_literal : ℕ → Work → Work
write_literal len w = copy_output_buffer len (write_output (literal_tag len) w)

-- emit_copy_less_than64
unfoldable pub write_copy_less_than64 : ℕ → ℕ → Work → Work
write_copy_less_than64 offset len w = write_output (copy_less_than64 offset len) w

-- What follows the first loop of emit_copy.
unfoldable pub write_copy_rest : ℕ → ℕ → Work → Work
write_copy_rest offset len w =
    if ltb 64 len
    then write_copy_less_than64 offset (len - 60) (write_copy_less_than64 offset 60 w)
    else write_copy_less_than64 offset len w

-- The loop of emit_copy with `left` rounds left, and what follows it.
unfoldable pub write_copy_loop : ℕ → ℕ → ℕ → Work → Work
write_copy_loop zero offset len w = write_copy_rest offset len w
write_copy_loop (suc left) offset len w =
    let rest = write_copy_loop left offset (len - 64) (write_copy_less_than64 offset 64 w) in
    if leb 68 len then rest else write_copy_rest offset len w

-- emit_copy
unfoldable pub write_copy : ℕ → ℕ → Work → Work
write_copy offset len w = write_copy_loop (len / 64) offset len w
