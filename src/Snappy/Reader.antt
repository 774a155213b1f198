-- ===== src/Snappy/Reader.antt =====
-- module/seqread.c, and the functions of module/snappy_compress.c that read the input: a cache of
-- two pages of 256 bytes in WRAM holds the MRAM from the page of the current position on.
use pim_swap.Base.{
  ℕ, ◌+◌, ◌-◌, ◌*◌, ◌/◌, ◌%◌, ◌^◌, bit_or, List, u32, u64, ltb, ◌==◌, if◌then◌else◌, get_or,
}
use pim_swap.Mram.{Mram, mram_read, mram_write}
use pim_swap.Layout.{mram_per_dpu}
use pim_swap.Program.Wram.{Dpu, mem_alloc}

-- SEQREAD_CACHE_SIZE, which is PAGE_SIZE in seqread.c, and PAGE_ALLOC_SIZE.
abbrev pub cache_size : ℕ
cache_size = 256

abbrev pub page_alloc_size : ℕ
page_alloc_size = 2 * cache_size

-- `x & PAGE_IDX_MASK` and `x & PAGE_OFF_MASK`: a page is 256 bytes.
abbrev pub page_start : ℕ → ℕ
page_start x = x / cache_size * cache_size

abbrev pub page_offset : ℕ → ℕ
page_offset x = x % cache_size

-- seqreader_t
pub record Seqreader : Type 0 where
  pub wram_cache : ℕ
  pub mram_addr : ℕ

-- The DPU, and the memory that its code addresses with plain pointers.
pub record Local : Type 0 where
  pub dpu : Dpu
  pub memory : Mram

-- __SEQREAD_ALLOC: the next multiple of 256 from the heap pointer on, with the heap moved past two
-- pages.
unfoldable pub seqread_alloc : Local → ℕ × Local
seqread_alloc s =
    let heap_pointer = s.dpu.wram_heap in
    let pointer = page_start (heap_pointer + (cache_size - 1)) in
    (pointer, record s { dpu = (mem_alloc (pointer + page_alloc_size - heap_pointer) s.dpu).1 })

-- __SEQREAD_SEEK
unfoldable pub seqread_seek : ℕ → Seqreader → Local → ℕ × Seqreader × Local
seqread_seek target_addr reader s =
    let mram_offset = u64 (target_addr + 2 ^ 64 - reader.mram_addr) in
    let page = page_start target_addr in
    if page_start mram_offset == 0 then (u64 (mram_offset + reader.wram_cache), reader, s) else (
      u64 (page_offset target_addr + reader.wram_cache),
      record reader { mram_addr = page },
      record s {
        memory = mram_write (mram_read s.dpu.mram page page_alloc_size) reader.wram_cache s.memory;
      },
    )

-- __SEQREAD_INIT
unfoldable pub seqread_init : ℕ → ℕ → Local → ℕ × Seqreader × Local
seqread_init cache mram_addr s =
    seqread_seek mram_addr (record { wram_cache = cache; mram_addr = mram_per_dpu }) s

-- __SEQREAD_TELL
unfoldable pub seqread_tell : ℕ → Seqreader → ℕ
seqread_tell ptr reader = u64 (reader.mram_addr + page_offset ptr)

-- __SEQREAD_GET gives NULL.
pub seqread_get : ℕ → ℕ → Seqreader → ℕ
seqread_get ptr inc reader = 0

-- in_buffer_context
pub record InBuffer : Type 0 where
  pub buffer : ℕ
  pub ptr : ℕ
  pub cache : ℕ
  pub sr : Seqreader
  pub curr : ℕ
  pub length : ℕ

-- advance_seqread
unfoldable pub advance_seqread : ℕ → InBuffer → Local → InBuffer × Local
advance_seqread len input s =
    let curr_ptr = seqread_tell input.ptr input.sr in
    let (ptr, sr, s') = seqread_seek (u64 (curr_ptr + len)) input.sr s in
    (record input { ptr = ptr; sr = sr; curr = u32 (input.curr + len) }, s')

-- `b0 | b1 << 8 | b2 << 16 | b3 << 24`
unfoldable pub join_bytes : ℕ → ℕ → ℕ → ℕ → ℕ
join_bytes b0 b1 b2 b3 = bit_or (bit_or (bit_or b0 (b1 * 2 ^ 8)) (b2 * 2 ^ 16)) (b3 * 2 ^ 24)

-- `data_read[offset] | data_read[offset + 1] << 8 | ...`
unfoldable pub word_in : List ℕ → ℕ → ℕ
word_in data_read offset =
    join_bytes (get_or data_read offset 0) (get_or data_read (offset + 1) 0)
      (get_or data_read (offset + 2) 0) (get_or data_read (offset + 3) 0)

-- read_uint32: from the cache if the word is there, where WRAM_HEAP_PTR adds the address of the
-- WRAM, and otherwise from the 16 bytes of MRAM at the offset rounded down to 8.
unfoldable pub read_uint32 : InBuffer → ℕ → Local → ℕ
read_uint32 input offset s =
    let ahead = u32 (offset + 2 ^ 32 - input.curr) in
    let from = s.dpu.wram + input.ptr in
    if ltb ahead (cache_size - 4)
    then join_bytes (s.memory (from + ahead)) (s.memory (from + (ahead + 1)))
        (s.memory (from + (ahead + 2))) (s.memory (from + (ahead + 3)))
    else word_in (mram_read s.dpu.mram (input.buffer + offset / 8 * 8) 16) (offset % 8)

-- read_two_uint32: the words at the offset and one byte further.
unfoldable pub read_two_uint32 : InBuffer → ℕ → Local → ℕ × ℕ
read_two_uint32 input offset s =
    let data_read = mram_read s.dpu.mram (input.buffer + offset / 8 * 8) 24 in
    (word_in data_read (offset % 8), word_in data_read (offset % 8 + 1))
