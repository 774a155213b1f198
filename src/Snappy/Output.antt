-- ===== src/Snappy/Output.antt =====
-- The output buffer of module/snappy_compress.c: the bytes go to a window of 256 bytes in WRAM,
-- which is written to MRAM when a byte does not fit any more.
use pim_swap.Base.{
  ℕ, zero, suc, ◌+◌, ◌-◌, ◌*◌, ◌/◌, ◌%◌, ◌^◌, List, [], ◌∷◌, ◌==◌, u32, ltb, leb, if◌then◌else◌,
  length, set, take, drop,
}
use pim_swap.Mram.{Mram, mram_read, mram_write}
use pim_swap.Program.{align8}

abbrev pub out_buffer_length : ℕ
out_buffer_length = 256

-- out_buffer_context, where the window holds the bytes at append_ptr.
pub record OutBuffer : Type 0 where
  pub buffer : ℕ
  pub window : List ℕ
  pub append_window : ℕ
  pub curr : ℕ
  pub length : ℕ

-- MIN
abbrev pub min_of : ℕ → ℕ → ℕ
min_of a b = if ltb a b then a else b

-- memcpy of the bytes to the given index of the window.
unfoldable pub copy_in : ℕ → List ℕ → List ℕ → List ℕ
copy_in i [] window = window
copy_in i (b ∷ bytes) window = copy_in (i + 1) bytes (set window i b)

-- The head of a round, from the given index in the window: a full window is written to MRAM, and
-- the window then stands for the next 256 bytes. It gives the index there.
unfoldable pub make_room : ℕ → OutBuffer → Mram → ℕ × OutBuffer × Mram
make_room index output m =
    if leb out_buffer_length index
    then (
      index - out_buffer_length,
      record output { append_window = u32 (output.append_window + out_buffer_length) },
      mram_write (take out_buffer_length output.window) (output.buffer + output.append_window) m,
    )
    else (index, output, m)

-- The bytes that a round puts into the window.
unfoldable pub put_bytes : ℕ → List ℕ → OutBuffer → OutBuffer
put_bytes index bytes output = record output {
  window = copy_in index bytes output.window;
  curr = u32 (output.curr + length bytes);
}

-- `MIN(OUT_BUFFER_LENGTH - curr_index, len)`
abbrev pub room_for : ℕ → ℕ → ℕ
room_for index len = min_of (u32 (out_buffer_length + 2 ^ 32 - index)) len

-- The loop of write_output_buffer, with `left` rounds left, from the index in the window on.
unfoldable pub write_loop : ℕ → ℕ → List ℕ → OutBuffer → Mram → OutBuffer × Mram
write_loop zero index arr output m = (output, m)
write_loop (suc left) index [] output m = (output, m)
write_loop (suc left) index (x ∷ arr) output m =
    let (curr_index, o, m') = make_room index output m in
    let to_write = room_for curr_index (length (x ∷ arr)) in
    write_loop left (u32 (curr_index + to_write)) (drop to_write (x ∷ arr))
      (put_bytes curr_index (take to_write (x ∷ arr)) o) m'

-- write_output_buffer: a round writes at least a byte.
unfoldable pub write_output_buffer : List ℕ → OutBuffer → Mram → OutBuffer × Mram
write_output_buffer arr output m =
    write_loop (length arr) (u32 (output.curr + 2 ^ 32 - output.append_window)) arr output m

-- write_compressed_length: the 16 bytes from the aligned offset on, with the length in them.
unfoldable pub write_compressed_length : ℕ → ℕ → OutBuffer → Mram → Mram
write_compressed_length offset compressed_len output m =
    let aligned_offset = offset / 8 * 8 in
    let o = offset % 8 in
    let data_read = mram_read m (output.buffer + aligned_offset) 16 in
    let data_0 = set data_read o (compressed_len % 256) in
    let data_1 = set data_0 (o + 1) (compressed_len / 2 ^ 8 % 256) in
    let data_2 = set data_1 (o + 2) (compressed_len / 2 ^ 16 % 256) in
    let data_3 = set data_2 (o + 3) (compressed_len / 2 ^ 24 % 256) in
    mram_write data_3 (output.buffer + aligned_offset) m

-- What dpu_compress does after the last block: the rest of the window is written to MRAM, up to a
-- multiple of 8 bytes.
unfoldable pub write_last : OutBuffer → Mram → OutBuffer × Mram
write_last output m =
    let rest = align8 (output.curr % out_buffer_length) in
    let len_final = if rest == 0 then out_buffer_length else rest in
    (
      record output { length = output.curr },
      if ltb output.append_window output.curr
          then mram_write (take len_final output.window) (output.buffer + output.append_window) m
          else m,
    )
