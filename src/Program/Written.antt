-- ===== src/Program/Written.antt =====
-- What lzo_compress_main leaves behind where it stores a page.
use pim_swap.Base.{
  ℕ, ◌+◌, ◌*◌, ◌/◌, ◌%◌, ◌^◌, ◌≤◌, ◌<◌, ◌≡◌, ◌≢◌, ◌⊎◌, inl, inr, ◌∙◌, refl, sym, ap, true, false,
  some, List, arith, length, take, length-take, take-take, ◌||◌,
}
use pim_swap.Mram.{
  Mram, IsBytes, AreBytes, AreBytes-take, IsBytes-mram_write, mram_read, mram_write, mram_read-take,
  mram_read_ext, mram_write_outside,
}
use pim_swap.Layout.{
  page_size, id_offset, directory, storage, num_l2_sections, num_storage_blocks, num_blocks_of,
  block_addr, hash_table,
}
use pim_swap.Layout.Blocks.{num_blocks_bounds}
use pim_swap.Hash.{entry_addr, insert_index_hash, lookup_index_hash}
use pim_swap.Hash.Entry.{load_entry}
use pim_swap.Hash.Laws.{entry_addr_bounds, lookup_ext, lookup-insert}
use pim_swap.Page.{Alloc}
use pim_swap.Page.Search.{HasNoRoom}
use pim_swap.Page.Directory.{IsDirectory, IsDirectory-ext}
use pim_swap.Page.Outcome.{Allocates}
use pim_swap.Program.{
  Crypto, Context, Ran, Packed, pack_page, unpack_page, align8, page_valid, read_id, write_status,
  with_mram, status_ok, status_error_store_no_space,
}
use pim_swap.L2.Bitmap.{used}
use pim_swap.L2.Outcome.{in_blocks, AreFree}
use pim_swap.Page.Commit.{used_ext}
use pim_swap.Program.Word.{word_bytes, word-store, word-AreBytes}
use pim_swap.Program.Pack.{IsCodec, pack_bounds, pack-AreBytes, unpack-pack}

-- A valid request: the DPU has WRAM, the id word is id with the PAGE_VALID bit.
pub record IsRequest (id : ℕ) (c : Context) : Type 0 where
  pub has_wram : c.dpu.wram ≢ 0
  pub id_range : id < page_valid
  pub id_word : read_id c.dpu.mram ≡ id + page_valid

-- The page was stored, into an MRAM that was m: the program returned 0 and left STATUS_OK. The page
-- takes the first blocks of a section that were free and enough; they, and no others, become used,
-- and outside of them the storage area is unchanged. The index gives their address and a length at
-- which the page unpacks, and is else as it was. The directory stays well formed.
pub record Stores (crypto : Crypto) (id : ℕ) (page : List ℕ) (m : Mram) (s : Ran) : Type 0 where
  pub succeeded : s.succeeded ≡ true
  pub status : read_id s.context.dpu.mram ≡ status_ok
  pub block : ℕ
  pub len : ℕ
  pub len_bounds : (0 < len) × (len ≤ page_size)
  pub in_storage : block + num_blocks_of len ≤ num_storage_blocks
  pub one_section : block % 512 + num_blocks_of len ≤ 512
  pub was_free : AreFree m block (block + num_blocks_of len)
  pub earliest :
      (q : ℕ)
      → q < block % 512
      → AreFree m (block / 512 * 512 + q) (block / 512 * 512 + q + num_blocks_of len)
      → ⊥
  pub marked :
      (b : ℕ)
      → b < num_storage_blocks
      → used s.context.dpu.mram b ≡ (in_blocks block (num_blocks_of len) b || used m b)
  pub well_formed : IsDirectory s.context.dpu.mram
  pub table :
      (x : ℕ)
      → hash_table ≤ x
      → x < storage
      → s.context.dpu.mram x ≡ insert_index_hash id block len m x
  pub elsewhere :
      (x : ℕ)
      → storage ≤ x
      → (x < block_addr block) ⊎ (block_addr block + num_blocks_of len * 64 ≤ x)
      → s.context.dpu.mram x ≡ m x
  pub indexed : lookup_index_hash id s.context.dpu.mram ≡ (block_addr block, len)
  pub unpacks : unpack_page crypto (block_addr block) len s.context.dpu.mram ≡ some page

-- There was no room: the program returned -1 and left STATUS_ERROR_STORE_NO_SPACE where the id
-- was, nothing else in the MRAM changed, and no section has the free run that was needed.
pub record FindsNoSpace (crypto : Crypto) (c : Context) (page : List ℕ) (s : Ran) : Type 0 where
  pub failed : s.succeeded ≡ false
  pub status : read_id s.context.dpu.mram ≡ status_error_store_no_space
  pub unchanged :
      (x : ℕ) → (x < id_offset) ⊎ (id_offset + 4 ≤ x) → s.context.dpu.mram x ≡ c.dpu.mram x
  pub octets : IsBytes s.context.dpu.mram
  pub no_room :
      (k : ℕ)
      → k < num_l2_sections
      → HasNoRoom c.dpu.mram (num_blocks_of ((pack_page crypto page).compressed_length)) k

pub read_id-write_status :
    (w : ℕ) (c : Context) → w < 2 ^ 32 → read_id (write_status w c).dpu.mram ≡ w
unfolding read_id write_status
read_id-write_status w c h = word-store w id_offset c.dpu.mram h

pub write_status_outside :
    (w : ℕ) (c : Context) (x : ℕ)
    → (x < id_offset) ⊎ (id_offset + 4 ≤ x)
    → (write_status w c).dpu.mram x ≡ c.dpu.mram x
unfolding write_status word_bytes
write_status_outside w c x h = mram_write_outside (word_bytes w) id_offset c.dpu.mram x h

module _ (crypto : Crypto) (law : IsCodec crypto) (id : ℕ) (c : Context) (page : List ℕ)
    (size : length page ≡ page_size) (octets : AreBytes page) (dir : IsDirectory c.dpu.mram)
    (empty : (load_entry c.dpu.mram (entry_addr id)).length ≡ 0) where
  unfoldable pub p : Packed
  p = pack_page crypto page

  pub bounds :
      (0 < p.compressed_length)
      × (p.compressed_length ≤ page_size)
      × (length p.out_page ≡ page_size)
  unfolding p
  bounds = pack_bounds crypto law page size

  unfoldable pub n : ℕ
  n = num_blocks_of p.compressed_length

  -- The page is written at its address and the status over the id.
  module _ (a : Alloc) (al : Allocates id p.compressed_length n c.dpu.mram c.stats a) where
    unfoldable pub written : Mram
    unfolding p
    written = mram_write (take (align8 p.compressed_length) p.out_page) a.address a.mram

    unfoldable pub final : Context
    unfolding written
    final =
        write_status status_ok (with_mram written (with_mram a.mram (record c { stats = a.stats })))

    pub address_low : storage ≤ a.address
    address_low = let e = al.address in unfold block_addr in omega arith

    length-taken :
        length (take (align8 p.compressed_length) p.out_page) ≡ align8 p.compressed_length
    length-taken =
        let b = bounds in length-take (align8 p.compressed_length) p.out_page (omega arith)

    -- Above the transfer page the status changes nothing.
    above : (x : ℕ) → directory ≤ x → final.dpu.mram x ≡ written x
    unfolding final with_mram
    above x h = write_status_outside status_ok _ x (inr (omega arith))

    in_directory : (x : ℕ) → directory ≤ x → x < storage → final.dpu.mram x ≡ a.mram x
    in_directory x lo hi =
        above x lo
        ∙ (unfold written in
            mram_write_outside (take (align8 p.compressed_length) p.out_page) a.address a.mram x
              (inl (omega (arith, address_low))))

    small : al.block < num_storage_blocks
    unfolding n
    small =
        let h = al.in_storage in
        let b = bounds in omega (arith, num_blocks_bounds p.compressed_length (b.0) (b.1))

    indexed : lookup_index_hash id final.dpu.mram ≡ (block_addr al.block, p.compressed_length)
    indexed =
        let b = bounds in
        lookup_ext id final.dpu.mram a.mram (λ x lo hi.
          in_directory x (omega (arith, entry_addr_bounds id))
            (omega (arith, entry_addr_bounds id)))
        ∙ al.index id
        ∙ lookup-insert id al.block p.compressed_length c.dpu.mram small (b.0) (omega arith)
            (inr empty)

    stored_bytes :
        mram_read final.dpu.mram (block_addr al.block) p.compressed_length
        ≡ take p.compressed_length p.out_page
    stored_bytes =
        ap (λ (x : ℕ). mram_read final.dpu.mram x p.compressed_length) (sym al.address)
        ∙ mram_read_ext final.dpu.mram written a.address p.compressed_length
            (λ x lo hi. above x (omega (arith, address_low)))
        ∙ prefix
      where
        shorter :
            mram_read written a.address p.compressed_length
            ≡ take p.compressed_length (take (align8 p.compressed_length) p.out_page)
        shorter =
            unfold written in
            mram_read-take (take (align8 p.compressed_length) p.out_page) a.address
              p.compressed_length a.mram (omega (arith, length-taken))

        prefix :
            mram_read written a.address p.compressed_length ≡ take p.compressed_length p.out_page
        prefix =
            shorter
            ∙ take-take p.compressed_length (align8 p.compressed_length) p.out_page (omega arith)

    -- The blocks cover what is written.
    covered : align8 p.compressed_length ≤ n * 64
    unfolding n
    covered = let b = bounds in omega (arith, num_blocks_bounds p.compressed_length (b.0) (b.1))

    elsewhere :
        (x : ℕ)
        → storage ≤ x
        → (x < block_addr al.block) ⊎ (block_addr al.block + n * 64 ≤ x)
        → final.dpu.mram x ≡ c.dpu.mram x
    unfolding written
    elsewhere x lo out =
        above x (omega arith)
        ∙ mram_write_outside (take (align8 p.compressed_length) p.out_page) a.address a.mram x
            (apart out)
        ∙ al.outside x (inr lo)
      where
        apart :
            (x < block_addr al.block) ⊎ (block_addr al.block + n * 64 ≤ x)
            → (x < a.address)
              ⊎ (a.address + length (take (align8 p.compressed_length) p.out_page) ≤ x)
        apart (inl h) = inl (omega (arith, al.address))
        apart (inr h) = inr (omega (arith, al.address, length-taken, covered))

    written-IsBytes : IsBytes final.dpu.mram
    unfolding final written with_mram write_status p
    written-IsBytes =
        IsBytes-mram_write (word_bytes status_ok) id_offset _ (word-AreBytes status_ok) (
          IsBytes-mram_write (take (align8 p.compressed_length) p.out_page) a.address a.mram
            (AreBytes-take (align8 p.compressed_length) p.out_page
              (pack-AreBytes crypto law page size octets))
            al.well_formed.bytes)

    final-IsDirectory : IsDirectory final.dpu.mram
    final-IsDirectory =
        IsDirectory-ext a.mram final.dpu.mram
          (λ x lo hi. in_directory x (omega arith) (omega arith)) written-IsBytes al.well_formed

    pub final-Stores :
        Stores crypto id page c.dpu.mram (record { context = final; succeeded = true })
    unfolding n
    final-Stores = record {
      succeeded = refl;
      status = unfold final in read_id-write_status status_ok _ (omega arith);
      block = al.block;
      len = p.compressed_length;
      len_bounds = let b = bounds in (b.0, b.1);
      in_storage = al.in_storage;
      one_section = al.one_section;
      was_free = al.was_free;
      earliest = al.earliest;
      marked = λ b hb.
          used_ext a.mram final.dpu.mram (λ x lo hi. in_directory x (omega arith) (omega arith)) b
            hb
          ∙ al.marked b hb;
      well_formed = final-IsDirectory;
      table = λ x lo hi. in_directory x (omega arith) hi ∙ al.table x lo hi;
      elsewhere = elsewhere;
      indexed = indexed;
      unpacks =
          unfold p in
          unpack-pack crypto law page size (block_addr al.block) final.dpu.mram stored_bytes;
    }
