-- ===== src/Snappy/Mirror.antt =====
-- The sequential reader shows the MRAM: what its cache holds, and what is read through it.
use pim_swap.Base.{
  ℕ, ◌+◌, ◌-◌, ◌*◌, ◌/◌, ◌%◌, ◌^◌, ◌≤◌, ◌<◌, ◌≡◌, ◌∙◌, refl, sym, ap, ap₂, or_low_high, u32, u64,
  ltb, ◌==◌, get_or, arith, Bool-cases, inl, inr,
}
use pim_swap.Mram.{
  Mram, IsBytes, mram_read, mram_write, get_or-mram_read, length-mram_read, mram_write_inside,
}
use pim_swap.Layout.{mram_per_dpu}
use pim_swap.Snappy.Reader.{
  cache_size, page_alloc_size, page_start, page_offset, Seqreader, Local, InBuffer, seqread_seek,
  seqread_init, seqread_tell, advance_seqread, join_bytes, word_in, read_uint32, read_two_uint32,
}

-- A reader whose cache holds the two pages of MRAM from the page of the address on, and a pointer
-- to that address in the cache.
pub record Mirrors (address ptr : ℕ) (reader : Seqreader) (s : Local) : Type 0 where
  pub aligned : reader.wram_cache % cache_size ≡ 0
  pub fits : reader.wram_cache + page_alloc_size < 2 ^ 64
  pub in_mram : address ≤ mram_per_dpu
  pub page : reader.mram_addr ≡ page_start address
  pub at : ptr ≡ reader.wram_cache + page_offset address
  pub same :
      (i : ℕ)
      → i < page_alloc_size
      → s.memory (reader.wram_cache + i) ≡ s.dpu.mram (reader.mram_addr + i)

-- The reader of an input buffer is at its current position.
abbrev pub IsMirror : InBuffer → Local → Type 0
IsMirror input s = Mirrors (input.buffer + input.curr) input.ptr input.sr s

-- seqread_tell gives the address of the pointer.
tell_lem :
    (address ptr : ℕ) (reader : Seqreader) (s : Local)
    → Mirrors address ptr reader s
    → seqread_tell ptr reader ≡ address
unfolding seqread_tell
tell_lem address ptr reader s h = omega (arith, h.aligned, h.in_mram, h.page, h.at)

-- The page of the target, loaded into an aligned cache.
loaded :
    (target : ℕ) (reader : Seqreader) (s : Local) (i : ℕ)
    → i < page_alloc_size
    → mram_write
        (mram_read s.dpu.mram (page_start target) page_alloc_size)
        reader.wram_cache
        s.memory
        (reader.wram_cache + i)
      ≡ s.dpu.mram (page_start target + i)
loaded target reader s i hi =
    let l = mram_read s.dpu.mram (page_start target) page_alloc_size in
    let n = length-mram_read s.dpu.mram (page_start target) page_alloc_size in
    mram_write_inside l reader.wram_cache s.memory (reader.wram_cache + i) (omega arith)
      (omega (arith, n))
    ∙ ap (λ (k : ℕ). get_or l k 0) (omega arith)
    ∙ get_or-mram_read s.dpu.mram (page_start target) page_alloc_size i hi

-- seqread_seek to an address of the MRAM from an aligned page at or before it.
seek-Mirrors :
    (target : ℕ) (reader : Seqreader) (s : Local)
    → reader.wram_cache % cache_size ≡ 0
    → reader.wram_cache + page_alloc_size < 2 ^ 64
    → target ≤ mram_per_dpu
    → reader.mram_addr % cache_size ≡ 0
    → reader.mram_addr ≤ mram_per_dpu
    → (page_start target ≡ reader.mram_addr
        → (i : ℕ) → i < page_alloc_size
        → s.memory (reader.wram_cache + i) ≡ s.dpu.mram (reader.mram_addr + i))
    → let (ptr, reader', s') = seqread_seek target reader s in
      Mirrors target ptr reader' s' × (s'.dpu ≡ s.dpu) × (reader'.wram_cache ≡ reader.wram_cache)
unfolding seqread_seek
seek-Mirrors target reader s aligned fits inside at_page small same =
    elim (Bool-cases (page_start (u64 (target + 2 ^ 64 - reader.mram_addr)) == 0)) [
      | inl stay ↦
          let here : page_start target ≡ reader.mram_addr = ground arith in
          rw stay (
            record {
              aligned = aligned;
              fits = fits;
              in_mram = inside;
              page = sym here;
              at = ground (arith, here);
              same = same here;
            },
            refl,
            refl,
          )
      | inr move ↦ rw move (
        record {
          aligned = aligned;
          fits = fits;
          in_mram = inside;
          page = refl;
          at = omega arith;
          same = loaded target reader s;
        },
        refl,
        refl,
      )
    ]

-- After seqread_init on an address of the MRAM, with an aligned cache, the reader is at it.
pub init-Mirrors :
    (cache address : ℕ) (s : Local)
    → cache % cache_size ≡ 0
    → cache + page_alloc_size < 2 ^ 64
    → address < mram_per_dpu
    → let (ptr, reader, s') = seqread_init cache address s in
      Mirrors address ptr reader s' × (s'.dpu ≡ s.dpu) × (reader.wram_cache ≡ cache)
unfolding seqread_init
init-Mirrors cache address s aligned fits inside =
    seek-Mirrors address (record { wram_cache = cache; mram_addr = mram_per_dpu }) s aligned fits
      (omega arith) (omega arith) (omega arith) (λ e. absurd (omega (arith, e)))

-- advance_seqread moves a reader that is at its position of the input by the given length, where
-- the MRAM does not end before: the reader is at the new position, whether it loaded a page or not.
pub advance-IsMirror :
    (len : ℕ) (input : InBuffer) (s : Local)
    → IsMirror input s
    → input.buffer + input.curr + len ≤ mram_per_dpu
    → let (input', s') = advance_seqread len input s in
      IsMirror input' s' × (input'.curr ≡ input.curr + len) × (s'.dpu ≡ s.dpu)
unfolding advance_seqread
advance-IsMirror len input s h inside =
    let p = input.buffer + input.curr in
    let e : u64 (seqread_tell input.ptr input.sr + len) ≡ p + len =
      ap (λ (t : ℕ). u64 (t + len)) (tell_lem p input.ptr input.sr s h) ∙ omega arith in
    let c : u32 (input.curr + len) ≡ input.curr + len = omega arith in
    let a : input.buffer + (input.curr + len) ≡ p + len = omega arith in
    let (m, d, k) =
      seek-Mirrors (p + len) input.sr s h.aligned h.fits inside (omega (arith, h.page))
        (omega (arith, h.page, h.in_mram)) (λ same. h.same) in
    rw (e, c, a) (m, refl, d)

join_lem :
    (b0 b1 b2 b3 : ℕ)
    → b0 < 256
    → b1 < 256
    → b2 < 256
    → b3 < 256
    → join_bytes b0 b1 b2 b3 ≡ b0 + b1 * 256 + b2 * 65536 + b3 * 16777216
unfolding join_bytes
join_lem b0 b1 b2 b3 h0 h1 h2 h3 =
    let e1 = or_low_high 8 b1 b0 (omega arith) in
    let e2 = or_low_high 16 b2 (b1 * 2 ^ 8 + b0) (omega arith) in
    let e3 = or_low_high 24 b3 (b2 * 2 ^ 16 + (b1 * 2 ^ 8 + b0)) (omega arith) in
    rw (e1, e2, e3) (omega arith)

-- The little-endian word at an address of the MRAM.
abbrev pub word_at : Mram → ℕ → ℕ
word_at m a = m a + m (a + 1) * 256 + m (a + 2) * 65536 + m (a + 3) * 16777216

-- A word inside of a read.
word_in-mram_read :
    (m : Mram) (from n k : ℕ)
    → IsBytes m
    → k + 3 < n
    → word_in (mram_read m from n) k ≡ word_at m (from + k)
unfolding word_in
word_in-mram_read m from n k bytes h =
    let l = mram_read m from n in
    let e0 : get_or l k 0 ≡ m (from + k) = get_or-mram_read m from n k (omega arith) in
    let e1 : get_or l (k + 1) 0 ≡ m (from + k + 1) =
      get_or-mram_read m from n (k + 1) (omega arith) ∙ ap m (omega arith) in
    let e2 : get_or l (k + 2) 0 ≡ m (from + k + 2) =
      get_or-mram_read m from n (k + 2) (omega arith) ∙ ap m (omega arith) in
    let e3 : get_or l (k + 3) 0 ≡ m (from + k + 3) =
      get_or-mram_read m from n (k + 3) (omega arith) ∙ ap m (omega arith) in
    rw (e0, e1, e2, e3)
      (join_lem (m (from + k)) (m (from + k + 1)) (m (from + k + 2)) (m (from + k + 3)) (bytes _)
        (bytes _) (bytes _) (bytes _))

-- Where the WRAM is at address 0, so that a pointer into it is its offset, read_uint32 of a reader
-- at its position gives the word of MRAM at the offset from the start of the buffer, whether it
-- takes it from the cache or from the MRAM.
pub read_uint32_lem :
    (input : InBuffer) (offset : ℕ) (s : Local)
    → IsMirror input s
    → s.dpu.wram ≡ 0
    → IsBytes s.dpu.mram
    → offset ≤ mram_per_dpu
    → read_uint32 input offset s ≡ word_at s.dpu.mram (input.buffer + offset)
unfolding read_uint32
read_uint32_lem input offset s h base bytes low = elim (Bool-cases (ltb ahead (cache_size - 4))) [
  | inl near ↦
      let after : input.curr + ahead ≡ offset = ground (arith, h.in_mram) in
      let short : ahead < 252 = ground arith in
      let e0 : s.memory (0 + input.ptr + ahead) ≡ s.dpu.mram (input.buffer + offset) =
        ap s.memory (omega arith)
        ∙ cached 0 after short (omega arith)
        ∙ ap s.dpu.mram (omega arith) in
      let e1 = cached 1 after short (omega arith) in
      let e2 = cached 2 after short (omega arith) in
      let e3 = cached 3 after short (omega arith) in
      rw (near, base, e0, e1, e2, e3) (join_lem _ _ _ _ (bytes _) (bytes _) (bytes _) (bytes _))
  | inr far ↦ rw far (
      word_in-mram_read s.dpu.mram (input.buffer + offset / 8 * 8) 16 (offset % 8) bytes
        (omega arith)
      ∙ ap (word_at s.dpu.mram) (omega arith))
]
  where
    ahead : ℕ
    ahead = u32 (offset + 2 ^ 32 - input.curr)

    cached :
        (k : ℕ)
        → input.curr + ahead ≡ offset
        → ahead < 252
        → k < 4
        → s.memory (0 + input.ptr + (ahead + k)) ≡ s.dpu.mram (input.buffer + offset + k)
    cached k after short hk =
        let o = page_offset (input.buffer + input.curr) + ahead + k in
        ap s.memory (omega (arith, h.at))
        ∙ h.same o (omega arith)
        ∙ ap s.dpu.mram (omega (arith, h.page, after))

-- read_two_uint32 gives the words of MRAM at the offset and one byte further.
pub read_two_uint32_lem :
    (input : InBuffer) (offset : ℕ) (s : Local)
    → IsBytes s.dpu.mram
    → read_two_uint32 input offset s ≡ (
      word_at s.dpu.mram (input.buffer + offset),
      word_at s.dpu.mram (input.buffer + (offset + 1)),
    )
unfolding read_two_uint32
read_two_uint32_lem input offset s bytes =
    let from = input.buffer + offset / 8 * 8 in
    ap₂ (λ (x y : ℕ). (x, y))
      (word_in-mram_read s.dpu.mram from 24 (offset % 8) bytes (omega arith)
        ∙ ap (word_at s.dpu.mram) (omega arith))
      (word_in-mram_read s.dpu.mram from 24 (offset % 8 + 1) bytes (omega arith)
        ∙ ap (word_at s.dpu.mram) (omega arith))
