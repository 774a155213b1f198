-- ===== src/Tests/Programs.antt =====
-- The programs of the DPU at concrete requests, with a compressor that copies.
use pim_swap.Base.{
  ℕ, ◌+◌, ◌≤◌, ◌<◌, ◌≡◌, ◌⊎◌, inl, inr, true, not, ◌&&◌, some, List, arith, refl, sym, ap, ◌∙◌,
  take-length, take,
}
use pim_swap.Mram.{
  Mram, IsBytes, mram_read, mram_write, mram_write_outside, IsBytes-mram_write, mram_read_ext,
  length-mram_read,
}
use pim_swap.Layout.{num_blocks_of, page_size, trans_page, id_offset, directory, num_storage_blocks}
use pim_swap.Layout.Blocks.{num_blocks_bounds}
use pim_swap.Hash.{insert_index_hash, lookup_index_hash, entry_addr}
use pim_swap.Hash.Entry.{load_entry}
use pim_swap.Hash.Laws.{lookup-insert, insert_outside, entry_addr_bounds, IsBytes-insert}
use pim_swap.L2.Bitmap.{used}
use pim_swap.L2.Outcome.{in_blocks}
use pim_swap.Page.{Statistics, count_free}
use pim_swap.Page.Directory.{IsDirectory}
use pim_swap.Program.{
  Crypto, zero as exact, Context, Ran, page_valid, read_id, lzo_compress_main, lzo_decompress_main,
  dpu_invalidate_main, pack_page,
}
use pim_swap.Program.Word.{word_bytes, word_of_bytes, word-store, word-AreBytes}
use pim_swap.Program.Pack.{IsCodec, pack_bounds}
use pim_swap.Program.Written.{IsRequest, Stores, FindsNoSpace}
use pim_swap.Program.Store.{lzo_compress-Stores}
use pim_swap.Program.Load.{decompress-compress, invalidate-Frees}
use pim_swap.Page.Blank.{
  blank, IsBlank, blank-IsBytes, blank-IsDirectory, blank-IsSearchable, blank-HasRoom, free_entry,
}

-- A compressor that copies the page and reports its whole length.
abbrev pub copier : Crypto
copier = record {
  compress = λ p. record { ret = exact; out = p; len = page_size };
  decompress = λ p. record { ret = exact; out = p; len = page_size };
}

pub copier-IsCodec : IsCodec copier
copier-IsCodec = record {
  page_out = λ p h. h;
  some_out = λ p h. omega arith;
  bytes_out = λ p h. h;
  bytes_back = λ l h. h;
  restores = λ p h fine. (refl, refl, ap (λ (k : ℕ). take k p) (sym h) ∙ take-length p);
}

abbrev pub request_mram : Mram
request_mram = mram_write (word_bytes (5 + page_valid)) id_offset blank

abbrev pub counts : Statistics
counts = record {
  num_allocs = 4;
  num_frees = 2;
  current_pages = 2;
  current_blocks_allocated = 9;
  current_bytes_used = 500;
  uncompressable = 0;
}

abbrev pub on_mram : Mram → Context
on_mram m = record {
  dpu = record { mram = m; wram = 8; current_tasklet = 0; wram_heap = 0; flags = 0 };
  stats = counts;
  uncompressable = 0;
}

-- Identifier 5 with the PAGE_VALID bit.
abbrev pub request : Context
request = on_mram request_mram

pub request_outside : (x : ℕ) → directory ≤ x → request_mram x ≡ 0
unfolding word_bytes
request_outside x h =
    mram_write_outside (word_bytes (5 + page_valid)) id_offset blank x (inr (omega arith))

pub request-IsBytes : IsBytes request_mram
request-IsBytes =
    IsBytes-mram_write (word_bytes (5 + page_valid)) id_offset blank
      (word-AreBytes (5 + page_valid)) blank-IsBytes

pub request-IsBlank : IsBlank request_mram
request-IsBlank x lo hi = request_outside x (omega arith)

pub request-IsRequest : IsRequest 5 request
unfolding read_id
request-IsRequest = record {
  has_wram = omega arith;
  id_range = omega arith;
  id_word = word-store (5 + page_valid) id_offset blank (omega arith);
}

pub request_free : (load_entry request_mram (entry_addr 5)).length ≡ 0
request_free =
    free_entry 5 request_mram (λ x lo hi. request_outside x (omega (arith, entry_addr_bounds 5)))

abbrev pub request_page : List ℕ
request_page = mram_read request_mram trans_page page_size

lzo_compress-Stores_example :
    (s : Ran) × (lzo_compress_main copier request ≡ some s)
    × (FindsNoSpace copier request request_page s ⊎ Stores copier 5 request_page request.dpu.mram s)
lzo_compress-Stores_example =
    lzo_compress-Stores copier 5 request copier-IsCodec request-IsRequest
      (blank-IsDirectory request_mram request-IsBlank request-IsBytes)
      (blank-IsSearchable request_mram request-IsBlank) request_free

-- The state that the request leaves.
abbrev pub stored :
    (s : Ran) × (lzo_compress_main copier request ≡ some s)
    × (FindsNoSpace copier request request_page s ⊎ Stores copier 5 request_page request.dpu.mram s)
stored =
    lzo_compress-Stores copier 5 request copier-IsCodec request-IsRequest
      (blank-IsDirectory request_mram request-IsBlank request-IsBytes)
      (blank-IsSearchable request_mram request-IsBlank) request_free

pub stored_succeeded :
    (s : Ran)
    → FindsNoSpace copier request request_page s ⊎ Stores copier 5 request_page request.dpu.mram s
    → s.succeeded ≡ true
stored_succeeded s (inl full) =
    let b =
      pack_bounds copier copier-IsCodec request_page
        (length-mram_read request_mram trans_page page_size) in
    absurd (
      blank-HasRoom request_mram request-IsBlank
        (num_blocks_of ((pack_page copier request_page).compressed_length))
        (omega
          (arith, num_blocks_bounds ((pack_page copier request_page).compressed_length) b.0 b.1))
        (full.no_room 0 (omega arith)))
stored_succeeded s (inr done) = done.succeeded

-- A later request for identifier 5, with what the first one left of the directory and the storage.
abbrev pub later : Context
later = on_mram (mram_write (word_bytes 5) id_offset stored.0.context.dpu.mram)

pub later_word : read_id later.dpu.mram ≡ 5
unfolding read_id
later_word = word-store 5 id_offset stored.0.context.dpu.mram (omega arith)

pub later_outside :
    (w x : ℕ) (m : Mram) → directory ≤ x → mram_write (word_bytes w) id_offset m x ≡ m x
unfolding word_bytes
later_outside w x m h = mram_write_outside (word_bytes w) id_offset m x (inr (omega arith))

decompress-compress_example :
    ((lzo_decompress_main copier later).succeeded ≡ true)
    × (mram_read (lzo_decompress_main copier later).context.dpu.mram trans_page page_size
        ≡ mram_read request.dpu.mram trans_page page_size)
decompress-compress_example =
    decompress-compress copier 5 request stored.0 later copier-IsCodec request-IsRequest
      (blank-IsDirectory request_mram request-IsBlank request-IsBytes)
      (blank-IsSearchable request_mram request-IsBlank) request_free stored.1
      (stored_succeeded stored.0 stored.2) (omega arith) later_word
      (λ x h. later_outside 5 x stored.0.context.dpu.mram h)

-- A request with identifier 5 stored at block 700 with 300 bytes.
abbrev one_page : Mram
one_page = insert_index_hash 5 700 300 request_mram

one_page-IsRequest : IsRequest 5 (on_mram one_page)
unfolding read_id
one_page-IsRequest = record {
  has_wram = omega arith;
  id_range = omega arith;
  id_word =
      ap word_of_bytes (
        mram_read_ext one_page request_mram id_offset 4 (λ x lo hi.
          insert_outside 5 700 300 request_mram x (inl (omega (arith, entry_addr_bounds 5)))))
      ∙ word-store (5 + page_valid) id_offset blank (omega arith);
}

one_page-IsDirectory : IsDirectory one_page
one_page-IsDirectory =
    blank-IsDirectory one_page
      (λ x lo hi.
        insert_outside 5 700 300 request_mram x (inl (omega (arith, entry_addr_bounds 5)))
        ∙ request-IsBlank x lo hi)
      (IsBytes-insert 5 700 300 request_mram request-IsBytes)

invalidate-Frees_example :
    let c' = (dpu_invalidate_main (on_mram one_page)).context in
    ((b : ℕ)
      → b < num_storage_blocks
      → used c'.dpu.mram b ≡ (not (in_blocks 700 (num_blocks_of 300) b) && used one_page b))
    × (lookup_index_hash 5 c'.dpu.mram ≡ (0, 0))
    × (c'.stats ≡ count_free (num_blocks_of 300) 300 counts)
invalidate-Frees_example =
    invalidate-Frees 5 700 300 (on_mram one_page) one_page-IsRequest one_page-IsDirectory
      (omega arith) (omega arith) (omega arith)
      (omega (arith, num_blocks_bounds 300 (omega arith) (omega arith)))
      (lookup-insert 5 700 300 request_mram (omega arith) (omega arith) (omega arith)
        (inr request_free))
