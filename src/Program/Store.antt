-- ===== src/Program/Store.antt =====
-- lzo_compress_main: what a run on a valid request leaves behind.
use pim_swap.Base.{
  ℕ, ◌+◌, ◌-◌, ◌*◌, ◌/◌, ◌≡◌, ◌≢◌, ◌⊎◌, inl, inr, ◌∙◌, refl, sym, ap, subst, true, false, Option,
  some, List, arith, length, take, ◌==◌, bit_and, and_bit, and_mask, u32,
}
use pim_swap.Mram.{
  Mram, IsBytes, AreBytes, AreBytes-mram_read, IsBytes-mram_write, mram_read, mram_write,
  length-mram_read,
}
use pim_swap.Layout.{page_size, trans_page, id_offset, num_blocks_of}
use pim_swap.Hash.{entry_addr}
use pim_swap.Hash.Entry.{load_entry}
use pim_swap.Page.{Alloc, alloc_page_static}
use pim_swap.Page.Search.{HasNoRoom}
use pim_swap.Page.Directory.{IsDirectory, IsSearchable}
use pim_swap.Page.Allocation.{alloc_page-Outcome}
use pim_swap.Program.{
  Crypto, Context, Ran, Packed, pack_page, align8, page_valid, read_id, write_status, with_mram,
  failed_with, store_packed, count_packed, lzo_compress_main, status_ok,
  status_error_store_no_space,
}
use pim_swap.Program.Word.{word_bytes, word-AreBytes}
use pim_swap.Program.Wram.{Dpu, mem_alloc}
use pim_swap.Program.Written.{
  IsRequest, Stores, FindsNoSpace, write_status_outside, read_id-write_status, final, written,
  address_low, final-Stores, p, n,
}
use pim_swap.Program.Pack.{IsCodec, pack_bounds}

-- The DPU after the two calls of mem_alloc.
abbrev pub twice_allocated : Dpu → Dpu
twice_allocated d = (mem_alloc page_size (mem_alloc page_size d).1).1

-- A valid request reaches the allocation with the MRAM and the statistics as they were.
pub reaches_store :
    (crypto : Crypto) (id : ℕ) (c : Context)
    → IsRequest id c
    → lzo_compress_main crypto c ≡ (
        let p = pack_page crypto (mram_read c.dpu.mram trans_page page_size) in
        store_packed id p (count_packed p (record c { dpu = twice_allocated c.dpu })))
unfolding lzo_compress_main mem_alloc
reaches_store crypto id c q = rw (valid, no_null_1, no_null_2, stripped)
  where
    valid : (bit_and (read_id c.dpu.mram) page_valid == 0) ≡ false
    valid = ground (arith, q.id_range, q.id_word, and_bit 31 (read_id c.dpu.mram))

    stripped : bit_and (read_id c.dpu.mram) (page_valid - 1) ≡ id
    stripped = omega (arith, q.id_range, q.id_word, and_mask 31 (read_id c.dpu.mram))

    no_null_1 : (c.dpu.wram + u32 (c.dpu.wram_heap + 7) / 8 * 8 == 0) ≡ false
    no_null_1 = ground (arith, q.has_wram)

    no_null_2 :
        (c.dpu.wram + u32 ((mem_alloc page_size c.dpu).1.wram_heap + 7) / 8 * 8 == 0) ≡ false
    no_null_2 = ground (arith, q.has_wram)

-- The two ends of store_packed.
store_packed-null :
    (id : ℕ) (p : Packed) (c : Context) (a : Alloc)
    → alloc_page_static id p.compressed_length c.dpu.mram c.stats ≡ some a
    → a.address ≡ 0
    → store_packed id p c
      ≡ some (
          failed_with status_error_store_no_space (with_mram a.mram (record c { stats = a.stats })))
unfolding store_packed
store_packed-null id p c a h z = let test : (a.address == 0) ≡ true = ground arith in rw (h, test)

store_packed-ok :
    (id : ℕ) (p : Packed) (c : Context) (a : Alloc)
    → alloc_page_static id p.compressed_length c.dpu.mram c.stats ≡ some a
    → a.address ≢ 0
    → store_packed id p c
      ≡ some (record {
        context = write_status status_ok (
            with_mram
              (mram_write (take (align8 p.compressed_length) p.out_page) a.address a.mram)
              (with_mram a.mram (record c { stats = a.stats })));
        succeeded = true;
      })
unfolding store_packed
store_packed-ok id p c a h nz = let test : (a.address == 0) ≡ false = ground arith in rw (h, test)

module _ (crypto : Crypto) (law : IsCodec crypto) (id : ℕ) (c : Context) (page : List ℕ)
    (size : length page ≡ page_size) (octets : AreBytes page) (dir : IsDirectory c.dpu.mram)
    (ready : IsSearchable c.dpu.mram)
    (empty : (load_entry c.dpu.mram (entry_addr id)).length ≡ 0) where
  -- What store_packed comes to.
  abbrev StoreOutcome : Option Ran → Type 0
  StoreOutcome R =
      (s : Ran) × (R ≡ some s) × (FindsNoSpace crypto c page s ⊎ Stores crypto id page c.dpu.mram s)

  store_packed_lem : StoreOutcome (store_packed id (pack_page crypto page) c)
  unfolding p n
  store_packed_lem =
      let p = pack_page crypto page in
      let b = pack_bounds crypto law page size in
      let (a, returned, outcome) =
        alloc_page-Outcome id p.compressed_length c.dpu.mram c.stats (b.0) (b.1) dir ready in
      elim outcome [
        | inl full ↦ (
          failed_with status_error_store_no_space (with_mram a.mram (record c { stats = a.stats })),
          store_packed-null id p c a returned full.null,
          inl (record {
            failed = refl;
            status = read_id-write_status status_error_store_no_space _ (omega arith);
            unchanged = λ x h.
                write_status_outside status_error_store_no_space _ x h
                ∙ (unfold with_mram in ap (λ (w : Mram). w x) full.same_mram);
            octets =
                unfold write_status with_mram in
                IsBytes-mram_write (word_bytes status_error_store_no_space) id_offset _
                  (word-AreBytes status_error_store_no_space)
                  (subst IsBytes (sym full.same_mram) dir.bytes);
            no_room = full.no_room;
          }),
        )
        | inr al ↦ (
          record {
            context = final crypto law id c page size octets dir empty a al;
            succeeded = true;
          },
          unfold final written in
              store_packed-ok id (pack_page crypto page) c a returned
                (omega (arith, address_low crypto law id c page size octets dir empty a al)),
          inr (final-Stores crypto law id c page size octets dir empty a al),
        )
      ]

-- For a valid request of an id whose index entry is free, on a well-formed and searchable
-- directory, with a compressor that keeps its contract, lzo_compress_main is defined and either
-- stores the page of the transfer page or finds no room. In the first case it returns 0, leaves
-- STATUS_OK, marks exactly the blocks of one free run of a section, keeps the directory well formed
-- and the storage area outside of the run as it was, makes the hash table what the insertion makes
-- it, and the index gives the address of the run and a length at which the stored bytes unpack to
-- the page; in the second it returns -1, leaves STATUS_ERROR_STORE_NO_SPACE, changes no other byte
-- of MRAM, and no section has a free run of the blocks needed.
pub lzo_compress-Stores :
    (crypto : Crypto) (id : ℕ) (c : Context)
    → IsCodec crypto
    → IsRequest id c
    → IsDirectory c.dpu.mram
    → IsSearchable c.dpu.mram
    → (load_entry c.dpu.mram (entry_addr id)).length ≡ 0
    → let page = mram_read c.dpu.mram trans_page page_size in
      (s : Ran) × (lzo_compress_main crypto c ≡ some s)
      × (FindsNoSpace crypto c page s ⊎ Stores crypto id page c.dpu.mram s)
lzo_compress-Stores crypto id c law q dir ready empty =
    let (s, returned, outcome) = inner in
    (s, reaches_store crypto id c q ∙ returned, same s outcome)
  where
    page : List ℕ
    page = mram_read c.dpu.mram trans_page page_size

    c' : Context
    c' = count_packed (pack_page crypto page) (record c { dpu = twice_allocated c.dpu })

    same_mram : c'.dpu.mram ≡ c.dpu.mram
    same_mram = unfold count_packed mem_alloc in refl

    inner :
        StoreOutcome crypto law id c' page
          (length-mram_read c.dpu.mram trans_page page_size)
          (AreBytes-mram_read c.dpu.mram trans_page page_size dir.bytes)
          (subst IsDirectory (sym same_mram) dir)
          (subst IsSearchable (sym same_mram) ready)
          (ap (λ (w : Mram). (load_entry w (entry_addr id)).length) same_mram ∙ empty)
          (store_packed id (pack_page crypto page) c')
    inner =
        store_packed_lem crypto law id c' page (length-mram_read c.dpu.mram trans_page page_size)
          (AreBytes-mram_read c.dpu.mram trans_page page_size dir.bytes)
          (subst IsDirectory (sym same_mram) dir) (subst IsSearchable (sym same_mram) ready)
          (ap (λ (w : Mram). (load_entry w (entry_addr id)).length) same_mram ∙ empty)

    same :
        (s : Ran)
        → FindsNoSpace crypto c' page s ⊎ Stores crypto id page c'.dpu.mram s
        → FindsNoSpace crypto c page s ⊎ Stores crypto id page c.dpu.mram s
    same s (inr stored) = inr (subst (λ (w : Mram). Stores crypto id page w s) same_mram stored)
    same s (inl full) = inl (record {
      failed = full.failed;
      status = full.status;
      octets = full.octets;
      unchanged = λ x h. full.unchanged x h ∙ ap (λ (w : Mram). w x) same_mram;
      no_room = λ k hk.
          subst
            (λ (w : Mram).
              HasNoRoom w (num_blocks_of ((pack_page crypto page).compressed_length)) k)
            same_mram (full.no_room k hk);
    })
