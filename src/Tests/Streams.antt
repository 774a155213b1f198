-- ===== src/Tests/Streams.antt =====
-- The buffers of the snappy compressor at concrete states.
use pim_swap.Base.{
  ℕ, ◌+◌, ◌-◌, ◌%◌, ◌<◌, ◌≡◌, ◌++◌, ap, arith, List, [], ◌∷◌, length, get_or, none, some, ◌⊎◌, ltb,
  if◌then◌else◌,
}
use pim_swap.Mram.{Mram, IsBytes, mram_read, length-mram_read}
use pim_swap.Program.Word.{word_bytes}
use pim_swap.Program.Wram.{Dpu}
use pim_swap.Snappy.{literal_tag, emit_copy}
use pim_swap.Snappy.Elements.{length-literal_tag_le, length-emit_copy_le}
use pim_swap.Snappy.Reader.{Seqreader, Local, InBuffer, seqread_init, advance_seqread, read_uint32}
use pim_swap.Snappy.Mirror.{
  Mirrors, IsMirror, word_at, init-Mirrors, advance-IsMirror, read_uint32_lem,
}
use pim_swap.Snappy.Output.{OutBuffer, write_output_buffer, write_last, write_compressed_length}
use pim_swap.Snappy.Append.{Appends, byte_of}
use pim_swap.Snappy.Write.{write-Appends, write_last_lem}
use pim_swap.Snappy.Emit.{Work, write_literal, write_copy}
use pim_swap.Snappy.Emitted.{Emits, IsWorking, IsReady}
use pim_swap.Snappy.Literal.{input_bytes, write_literal-Emits}
use pim_swap.Snappy.Copy.{write_copy-Emits}
use pim_swap.Snappy.Match.{find_match_length}
use pim_swap.Snappy.Prefix.{AreCommon, IsCommonLength, find_match_length_lem}
use pim_swap.Snappy.Block.{dpu_compress}
use pim_swap.Snappy.Endless.{dpu_compress_endless}
use pim_swap.Snappy.Length.{write_last-write_compressed_length}

-- An MRAM whose cells hold the low bytes of their addresses, and a WRAM at address 0.
abbrev counting : Mram
counting = λ x. x % 256

abbrev local : Local
local = record {
  dpu = record { mram = counting; wram = 0; current_tasklet = 0; wram_heap = 768; flags = 0 };
  memory = λ x. 0;
}

-- A reader at address 1000, with its cache at 256.
abbrev opened : ℕ × Seqreader × Local
opened = seqread_init 256 1000 local

abbrev input : InBuffer
input = record {
  buffer = 1000;
  ptr = opened.0;
  cache = 256;
  sr = opened.1;
  curr = 0;
  length = 4096;
}

opened-Mirrors :
    Mirrors 1000 opened.0 opened.1 opened.2
    × (opened.2.dpu ≡ local.dpu)
    × (opened.1.wram_cache ≡ 256)
opened-Mirrors = init-Mirrors 256 1000 local (omega arith) (omega arith) (omega arith)

advance-IsMirror_example :
    let (input', s') = advance_seqread 700 input opened.2 in
    IsMirror input' s' × (input'.curr ≡ 0 + 700) × (s'.dpu ≡ opened.2.dpu)
advance-IsMirror_example = advance-IsMirror 700 input opened.2 opened-Mirrors.0 (omega arith)

opened_wram : opened.2.dpu.wram ≡ 0
opened_wram = ap (λ (d : Dpu). d.wram) opened-Mirrors.1

opened-IsBytes : IsBytes opened.2.dpu.mram
opened-IsBytes x = omega (arith, ap (λ (d : Dpu). d.mram x) opened-Mirrors.1)

find_match_length_example :
    ((find_match_length input opened.2 40 808 900 ≡ none)
      × AreCommon input opened.2.dpu.mram 40 808 (900 - 808))
    ⊎ ((k : ℕ) × (find_match_length input opened.2 40 808 900 ≡ some k)
        × IsCommonLength input opened.2.dpu.mram 40 808 900 k)
find_match_length_example =
    find_match_length_lem input opened.2 opened-Mirrors.0 opened_wram opened-IsBytes 40 808 900
      (omega arith) (omega arith) (omega arith) (omega arith)

read_uint32_example : read_uint32 input 77 opened.2 ≡ word_at opened.2.dpu.mram (1000 + 77)
read_uint32_example =
    read_uint32_lem input 77 opened.2 opened-Mirrors.0 opened_wram opened-IsBytes (omega arith)

-- An output at 10000 whose position is 6 bytes before the end of its second window.
abbrev output : OutBuffer
output = record {
  buffer = 10000;
  window = mram_read counting 0 256;
  append_window = 256;
  curr = 506;
  length = 0;
}

window_size : length output.window ≡ 256
window_size = length-mram_read counting 0 256

output-IsReady : IsReady output
output-IsReady = record { size = window_size; order = omega arith; close = omega arith }

abbrev eight : List ℕ
eight = 1 ∷ 2 ∷ 3 ∷ 4 ∷ 5 ∷ 6 ∷ 7 ∷ 8 ∷ []

write-Appends_example :
    let (o', m') = write_output_buffer eight output counting in Appends eight output counting o' m'
write-Appends_example =
    write-Appends eight output counting window_size (omega arith) (omega arith) (omega arith)

write_last_example :
    let (o', m') = write_last output counting in
    (o'.length ≡ 506)
    × ((i : ℕ) → i < 506 → m' (10000 + i) ≡ byte_of output counting i)
    × ((x : ℕ) → x < 10000 + 256 → m' x ≡ counting x)
write_last_example =
    write_last_lem output counting window_size (omega arith) (omega arith) (omega arith)

abbrev work : Work
work = record { input = input; output = output; local = opened.2 }

work-IsWorking : IsWorking 600 work
work-IsWorking = record {
  ready = output-IsReady;
  mirror = opened-Mirrors.0;
  inside = omega arith;
  apart = omega arith;
}

write_literal-Emits_example :
    Emits (literal_tag 600 ++ input_bytes work 600) 600 work (write_literal 600 work)
write_literal-Emits_example =
    write_literal-Emits 600 work work-IsWorking (omega (arith, length-literal_tag_le 600))

write_copy-Emits_example : Emits (emit_copy 300 150) 0 work (write_copy 300 150 work)
write_copy-Emits_example =
    write_copy-Emits 300 150 600 work work-IsWorking (omega (arith, length-emit_copy_le 300 150))

write_last-write_compressed_length_example :
    (write_last output (write_compressed_length 254 99 output counting)).1 (10000 + (254 + 1)) ≡ (
      if ltb (254 + 1) 256
      then get_or (word_bytes 99) 1 0
      else get_or output.window (254 + 1 - 256) 0)
write_last-write_compressed_length_example =
    write_last-write_compressed_length 254 99 1 output counting window_size (omega arith)
      (omega arith) (omega arith) (omega arith) (omega arith)

-- An input of seven bytes.
abbrev seven : Work
seven = record work { input = record input { length = 7 } }

dpu_compress_endless_example : dpu_compress 9 4096 seven ≡ none
dpu_compress_endless_example = dpu_compress_endless 9 4096 seven (omega arith) (omega arith)
