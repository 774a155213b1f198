-- ===== src/Program/Load.antt =====
-- lzo_decompress_main and dpu_invalidate_main.
use pim_swap.Base.{
  ℕ, ◌+◌, ◌-◌, ◌*◌, ◌/◌, ◌%◌, ◌≤◌, ◌<◌, ◌≡◌, ◌≢◌, inl, inr, ◌∙◌, refl, sym, ap, subst, true, false,
  Option, some, List, arith, length, take, take-length, ◌&&◌, ◌==◌, not, bit_and, and_bit, and_mask,
  u32,
}
use pim_swap.Mram.{
  Mram, mram_read, mram_write, mram_read-mram_write, mram_read_ext, length-mram_read,
}
use pim_swap.Layout.{
  page_size, trans_page, directory, storage, num_storage_blocks, num_blocks_of, block_addr,
}
use pim_swap.Hash.{entry_addr, insert_index_hash, lookup_index_hash}
use pim_swap.Hash.Entry.{load_entry}
use pim_swap.Hash.Laws.{entry_addr_bounds, lookup_ext, lookup-remove, insert_outside}
use pim_swap.Page.{Statistics, count_free, free_page_static}
use pim_swap.L2.Bitmap.{used}
use pim_swap.L2.Outcome.{in_blocks}
use pim_swap.Page.Commit.{used_ext}
use pim_swap.Page.Directory.{IsDirectory, IsSearchable}
use pim_swap.Page.Freeing.{Frees, free_page-Frees}
use pim_swap.Program.{
  Crypto, Context, Ran, unpack_page, page_valid, read_id, with_mram, put_page, lzo_compress_main,
  lzo_decompress_main, dpu_invalidate_main,
}
use pim_swap.Program.Pack.{IsCodec}
use mathlib.Core.Option.{some-injective}
use pim_swap.Program.Wram.{Dpu, mem_alloc}
use pim_swap.Program.Written.{Stores, IsRequest}
use pim_swap.Program.Store.{lzo_compress-Stores}

twice : Dpu → Dpu
twice d = (mem_alloc page_size (mem_alloc page_size d).1).1

-- A run on an id that the index finds.
reaches_unpack :
    (crypto : Crypto) (c : Context) (address len : ℕ)
    → c.dpu.wram ≢ 0
    → lookup_index_hash (read_id c.dpu.mram) c.dpu.mram ≡ (address, len)
    → address ≢ 0
    → lzo_decompress_main crypto c
      ≡ put_page (unpack_page crypto address len c.dpu.mram) (record c { dpu = twice c.dpu })
unfolding lzo_decompress_main mem_alloc twice
reaches_unpack crypto c address len hw found nz = rw (found, not_null, no_null_1, no_null_2)
  where
    not_null : (address == 0) ≡ false
    not_null = ground arith

    no_null_1 : (c.dpu.wram + u32 (c.dpu.wram_heap + 7) / 8 * 8 == 0) ≡ false
    no_null_1 = ground arith

    no_null_2 :
        (c.dpu.wram + u32 ((mem_alloc page_size c.dpu).1.wram_heap + 7) / 8 * 8 == 0) ≡ false
    no_null_2 = ground arith

pub unpack_page_ext :
    (crypto : Crypto) (address len : ℕ) (m m' : Mram)
    → ((x : ℕ) → address ≤ x → x < address + len → m x ≡ m' x)
    → unpack_page crypto address len m ≡ unpack_page crypto address len m'
unfolding unpack_page
unpack_page_ext crypto address len m m' h = rw (mram_read_ext m m' address len h)

shown_page :
    (page : List ℕ)
    → length page ≡ page_size
    → (c : Context)
    → mram_read (put_page (some page) c).context.dpu.mram trans_page page_size ≡ page
unfolding put_page with_mram
shown_page page size c =
    ap (λ (l : List ℕ). mram_read (mram_write l trans_page c.dpu.mram) trans_page page_size) whole
    ∙ ap (λ (k : ℕ). mram_read (mram_write page trans_page c.dpu.mram) trans_page k) (sym size)
    ∙ mram_read-mram_write page trans_page c.dpu.mram
  where
    whole : take page_size page ≡ page
    whole = ap (λ (k : ℕ). take k page) (sym size) ∙ take-length page

-- Where the index does not find the id, lzo_decompress_main returns -1 and leaves the whole state,
-- the transfer page included, as it was.
pub decompress-missing :
    (crypto : Crypto) (c : Context)
    → (lookup_index_hash (read_id c.dpu.mram) c.dpu.mram).0 ≡ 0
    → lzo_decompress_main crypto c ≡ record { context = c; succeeded = false }
unfolding lzo_decompress_main
decompress-missing crypto c h = rw h

-- A run on an id whose stored bytes unpack to a page.
pub decompress_found :
    (crypto : Crypto) (address len : ℕ) (page : List ℕ) (c : Context)
    → c.dpu.wram ≢ 0
    → lookup_index_hash (read_id c.dpu.mram) c.dpu.mram ≡ (address, len)
    → address ≢ 0
    → unpack_page crypto address len c.dpu.mram ≡ some page
    → length page ≡ page_size
    → ((lzo_decompress_main crypto c).succeeded ≡ true)
      × (mram_read (lzo_decompress_main crypto c).context.dpu.mram trans_page page_size ≡ page)
decompress_found crypto address len page c hw found nz unpacks size = (
  ap (λ (r : Ran). r.succeeded) ran ∙ (unfold put_page in refl),
  ap (λ (r : Ran). mram_read r.context.dpu.mram trans_page page_size) ran
      ∙ shown_page page size (record c { dpu = twice c.dpu }),
)
  where
    ran : lzo_decompress_main crypto c ≡ put_page (some page) (record c { dpu = twice c.dpu })
    ran =
        reaches_unpack crypto c address len hw found nz
        ∙ ap (λ (o : Option (List ℕ)). put_page o (record c { dpu = twice c.dpu })) unpacks

decompress-Stores :
    (crypto : Crypto) (id : ℕ) (page : List ℕ) (m : Mram) (s : Ran) (c : Context)
    → Stores crypto id page m s
    → length page ≡ page_size
    → c.dpu.wram ≢ 0
    → read_id c.dpu.mram ≡ id
    → ((x : ℕ) → directory ≤ x → c.dpu.mram x ≡ s.context.dpu.mram x)
    → ((lzo_decompress_main crypto c).succeeded ≡ true)
      × (mram_read (lzo_decompress_main crypto c).context.dpu.mram trans_page page_size ≡ page)
decompress-Stores crypto id page m s c st size hw hid same =
    decompress_found crypto (block_addr st.block) st.len page c hw found (omega (arith, above))
      (unpack_page_ext crypto (block_addr st.block) st.len c.dpu.mram s.context.dpu.mram
          (λ x lo hi. same x (omega (arith, above)))
        ∙ st.unpacks)
      size
  where
    above : storage ≤ block_addr st.block
    above = unfold block_addr in omega arith

    found : lookup_index_hash (read_id c.dpu.mram) c.dpu.mram ≡ (block_addr st.block, st.len)
    found =
        ap (λ (i : ℕ). lookup_index_hash i c.dpu.mram) hid
        ∙ lookup_ext id c.dpu.mram s.context.dpu.mram
            (λ x lo hi. same x (omega (arith, entry_addr_bounds id)))
        ∙ st.indexed

-- A stored page is given back. Take a valid request of an id whose index entry is free, on a
-- well-formed and searchable directory, with a compressor that keeps its contract, and suppose
-- that lzo_compress_main returns 0. On any later state of the DPU whose directory and storage are
-- as that run left them, lzo_decompress_main for the same id returns 0, and the transfer page then
-- holds what it held when the page was stored.
pub decompress-compress :
    (crypto : Crypto) (id : ℕ) (c : Context) (s : Ran) (later : Context)
    → IsCodec crypto
    → IsRequest id c
    → IsDirectory c.dpu.mram
    → IsSearchable c.dpu.mram
    → (load_entry c.dpu.mram (entry_addr id)).length ≡ 0
    → lzo_compress_main crypto c ≡ some s
    → s.succeeded ≡ true
    → later.dpu.wram ≢ 0
    → read_id later.dpu.mram ≡ id
    → ((x : ℕ) → directory ≤ x → later.dpu.mram x ≡ s.context.dpu.mram x)
    → ((lzo_decompress_main crypto later).succeeded ≡ true)
      × (mram_read (lzo_decompress_main crypto later).context.dpu.mram trans_page page_size
          ≡ mram_read c.dpu.mram trans_page page_size)
decompress-compress crypto id c s later law q dir ready empty runs succeeded hw hid same =
    decompress-Stores crypto id (mram_read c.dpu.mram trans_page page_size) c.dpu.mram s later
      stored (length-mram_read c.dpu.mram trans_page page_size) hw hid same
  where
    stored : Stores crypto id (mram_read c.dpu.mram trans_page page_size) c.dpu.mram s
    stored =
        let (s', runs', outcome) = lzo_compress-Stores crypto id c law q dir ready empty in
        let e : s' ≡ s = some-injective _ _ (sym runs' ∙ runs) in
        elim outcome [
          | inl full ↦ cc (ap (λ (r : Ran). r.succeeded) e, full.failed)
          | inr st ↦
              subst (Stores crypto id (mram_read c.dpu.mram trans_page page_size) c.dpu.mram) e st
        ]

-- What dpu_invalidate_main leaves in the MRAM for a valid request of an id that the index finds.
pub invalidate_found :
    (id block len : ℕ) (c : Context)
    → IsRequest id c
    → IsDirectory c.dpu.mram
    → block < num_storage_blocks
    → 0 < len
    → len ≤ page_size
    → block % 512 + num_blocks_of len ≤ 512
    → lookup_index_hash id c.dpu.mram ≡ (block_addr block, len)
    → let (m1, st1) = free_page_static id c.dpu.mram c.stats in
      dpu_invalidate_main c ≡ record {
        context = with_mram (insert_index_hash id 0 0 m1) (record c { stats = st1 });
        succeeded = true;
      }
unfolding dpu_invalidate_main
invalidate_found id block len c q dir hb lp lq sec found = rw (valid, stripped, still, not_null)
  where
    still :
        lookup_index_hash id (free_page_static id c.dpu.mram c.stats).0 ≡ (block_addr block, len)
    still =
        (free_page-Frees id block len c.dpu.mram c.stats dir hb lp lq sec found).0.lookups id
        ∙ found

    valid : (bit_and (read_id c.dpu.mram) page_valid == 0) ≡ false
    valid = ground (arith, q.id_range, q.id_word, and_bit 31 (read_id c.dpu.mram))

    stripped : bit_and (read_id c.dpu.mram) (page_valid - 1) ≡ id
    stripped = omega (arith, q.id_range, q.id_word, and_mask 31 (read_id c.dpu.mram))

    not_null : (block_addr block == 0) ≡ false
    not_null = unfold block_addr in ground arith

-- For a request of an id with the PAGE_VALID bit that the index finds, at a block of storage with
-- its blocks in one section, dpu_invalidate_main marks exactly those blocks as free and counts the
-- page, and afterwards the index does not find the id.
pub invalidate-Frees :
    (id block len : ℕ) (c : Context)
    → IsRequest id c
    → IsDirectory c.dpu.mram
    → block < num_storage_blocks
    → 0 < len
    → len ≤ page_size
    → block % 512 + num_blocks_of len ≤ 512
    → lookup_index_hash id c.dpu.mram ≡ (block_addr block, len)
    → let c' = (dpu_invalidate_main c).context in
      ((b : ℕ)
        → b < num_storage_blocks
        → used c'.dpu.mram b ≡ (not (in_blocks block (num_blocks_of len) b) && used c.dpu.mram b))
      × (lookup_index_hash id c'.dpu.mram ≡ (0, 0))
      × (c'.stats ≡ count_free (num_blocks_of len) len c.stats)
invalidate-Frees id block len c q dir hb lp lq sec found = (
  λ b h. ap (λ (w : Mram). used w b) final_mram ∙ removed b h ∙ freed.0.marked b h,
  ap (lookup_index_hash id) final_mram ∙ lookup-remove id m1,
  ap (λ (r : Ran). r.context.stats) (invalidate_found id block len c q dir hb lp lq sec found)
      ∙ (unfold with_mram in freed.1),
)
  where
    m1 : Mram
    m1 = (free_page_static id c.dpu.mram c.stats).0

    st1 : Statistics
    st1 = (free_page_static id c.dpu.mram c.stats).1

    freed :
        Frees block (num_blocks_of len) c.dpu.mram m1
        × (st1 ≡ count_free (num_blocks_of len) len c.stats)
    freed = free_page-Frees id block len c.dpu.mram c.stats dir hb lp lq sec found

    final_mram : (dpu_invalidate_main c).context.dpu.mram ≡ insert_index_hash id 0 0 m1
    final_mram =
        ap (λ (r : Ran). r.context.dpu.mram)
          (invalidate_found id block len c q dir hb lp lq sec found)
        ∙ (unfold with_mram in refl)

    removed : (b : ℕ) → b < num_storage_blocks → used (insert_index_hash id 0 0 m1) b ≡ used m1 b
    removed b h =
        used_ext m1 (insert_index_hash id 0 0 m1)
          (λ x lo hi. insert_outside id 0 0 m1 x (inl (omega (arith, entry_addr_bounds id)))) b h
