-- ===== src/Snappy/Task.antt =====
-- module/snappy_task.c: the program that a tasklet runs to compress the transfer page.
use pim_swap.Base.{
  ℕ, ◌+◌, ◌-◌, ◌*◌, ◌^◌, ◌≡◌, refl, List, [], ◌∷◌, Bool, true, false, not, ◌&&◌, ◌||◌, ◌==◌, ltb,
  if◌then◌else◌, u32, get_or, set, u64, Bool-cases, inl, inr, ap, ◌∙◌,
}
use pim_swap.Mram.{mram_read}
use pim_swap.Layout.{trans_page, storage}
use pim_swap.Program.{align8}
use pim_swap.Program.Wram.{Dpu, mem_alloc}
use pim_swap.Snappy.Reader.{Local, seqread_alloc, seqread_init, seqread_seek, Seqreader, page_start}
use pim_swap.Snappy.Output.{out_buffer_length}
use pim_swap.Snappy.Emit.{Work}

-- The WRAM variables of the host.
pub record Task : Type 0 where
  pub block_size : ℕ
  pub input_length : ℕ
  pub output_length : List ℕ
  pub input_block_offset : List ℕ

-- NR_TASKLETS
abbrev pub nr_tasklets : ℕ
nr_tasklets = 1

-- alloc_storage_dynamic
abbrev pub alloc_storage_dynamic : ℕ → ℕ
alloc_storage_dynamic size = 100

-- kernel_compress: the buffers as they are, and SNAPPY_OK.
abbrev pub kernel_compress : Work → Work × Bool
kernel_compress w = (w, true)

-- The length that a tasklet compresses.
pub tasklet_length : ℕ → ℕ → Task → ℕ
tasklet_length idx input_start t =
    let first = get_or t.input_block_offset 0 0 in
    let next = get_or t.input_block_offset (idx + 1) 0 in
    let input_end = u32 (u32 (next + 2 ^ 32 - first) * t.block_size) in
    let rest = u32 (t.input_length + 2 ^ 32 - input_start) in
    if ltb idx (nr_tasklets - 1)
    then (if (input_end == 0) || ltb (2 ^ 31 - 1) input_end
        then rest
        else u32 (input_end + 2 ^ 32 - input_start))
    else rest

-- The buffers that a tasklet opens, and the memories after that.
pub open_buffers : ℕ → ℕ → Task → Local → Work
open_buffers idx input_start t s =
    let (cache, s1) = seqread_alloc s in
    let buffer = trans_page + input_start in
    let (ptr, sr, s2) = seqread_init cache buffer s1 in
    let (append_ptr, d) = mem_alloc out_buffer_length s2.dpu in
    record {
      input = record {
        buffer = buffer;
        ptr = ptr;
        cache = cache;
        sr = sr;
        curr = 0;
        length = tasklet_length idx input_start t;
      };
      output = record {
        buffer = storage + alloc_storage_dynamic 4096;
        window = mram_read s2.memory (align8 append_ptr) out_buffer_length;
        append_window = 0;
        curr = 0;
        length = 0;
      };
      local = record s2 { dpu = d };
    }

-- snappy_compress_main: the result is whether it returns 0.
pub snappy_compress_main : Task → Local → Task × Local × Bool
snappy_compress_main t s =
    let idx = s.dpu.current_tasklet in
    let t' = record t {
      block_size = 4096;
      input_length = 4096;
      input_block_offset = set t.input_block_offset 0 0;
    } in
    let input_start = u32 (get_or t'.input_block_offset idx 0 * t'.block_size) in
    let w = open_buffers idx input_start t' s in
    let (w', ok) = kernel_compress w in
    if not (idx == 0) && (get_or t.input_block_offset idx 0 == 0)
    then (record t { output_length = set t.output_length idx 0 }, s, true)
    else if w.input.length == 0
    then (t', w.local, true)
    else if ok
    then (record t' { output_length = set t'.output_length idx w'.output.length }, w'.local, true)
    else (t', w'.local, false)

seek_mram :
    (target : ℕ) (reader : Seqreader) (s : Local) → (seqread_seek target reader s).2.dpu ≡ s.dpu
unfolding seqread_seek
seek_mram target reader s =
    elim (Bool-cases (page_start (u64 (target + 2 ^ 64 - reader.mram_addr)) == 0)) [
      | inl stay ↦ rw stay refl
      | inr move ↦ rw move refl
    ]

alloc_mram : (size : ℕ) (d : Dpu) → (mem_alloc size d).1.mram ≡ d.mram
unfolding mem_alloc
alloc_mram size d = elim (Bool-cases (size == 0)) [
  | inl none ↦ rw none refl
  | inr more ↦ rw more refl
]

open_mram :
    (idx input_start : ℕ) (t : Task) (s : Local)
    → (open_buffers idx input_start t s).local.dpu.mram ≡ s.dpu.mram
unfolding open_buffers seqread_init seqread_alloc
open_mram idx input_start t s =
    let (cache, s1) = seqread_alloc s in
    alloc_mram out_buffer_length _
    ∙ ap (λ (d : Dpu). d.mram) (seek_mram (trans_page + input_start) _ s1)
    ∙ alloc_mram _ s.dpu

first_offset : (l : List ℕ) → get_or (set l 0 0) 0 0 ≡ 0
first_offset [] = refl
first_offset (x ∷ l) = refl

-- Tasklet 0 returns 0, reports a compressed length of 0 and leaves the MRAM as it was.
pub snappy_compress_main_lem :
    (t : Task) (s : Local)
    → s.dpu.current_tasklet ≡ 0
    → let (t', s', ok) = snappy_compress_main t s in
      (ok ≡ true) × (s'.dpu.mram ≡ s.dpu.mram) × (t'.output_length ≡ set t.output_length 0 0)
unfolding snappy_compress_main tasklet_length open_buffers
snappy_compress_main_lem t s first =
    rw (first, first_offset t.input_block_offset)
      (
        refl,
        open_mram 0 0 t (let d = s.dpu in record s { dpu = record d { current_tasklet = 0 } }),
        refl,
      )
