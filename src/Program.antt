-- ===== src/Program.antt =====
-- The programs of module/swap.c that run on a DPU: lzo_compress_main, lzo_decompress_main and
-- dpu_invalidate_main. The kernel's crypto_comp_compress and crypto_comp_decompress are a
-- parameter.
pub mod Word
pub mod Wram
pub mod Pack
pub mod Written
pub mod Store
pub mod Full
pub mod Load
pub mod Below
pub mod Kept
use Word.{word_bytes, word_of_bytes}
use Wram.{Dpu, mem_alloc}
use pim_swap.Base.{
  ℕ, ◌+◌, ◌-◌, ◌*◌, ◌/◌, ◌%◌, ◌^◌, Bool, true, false, Option, none, some, List, u32, bit_and, ltb,
  ◌==◌, not, if◌then◌else◌, take,
}
use pim_swap.Mram.{Mram, mram_read, mram_write}
use pim_swap.Layout.{trans_page, id_offset, page_size, storage_block_size}
use pim_swap.Hash.{insert_index_hash, lookup_index_hash}
use pim_swap.Page.{Alloc, Statistics, alloc_page_static, free_page_static, on_value}

-- PAGE_VALID
abbrev pub page_valid : ℕ
page_valid = 2 ^ 31

-- STATUS_OK, STATUS_ERROR_STORE_NO_WRAM, STATUS_ERROR_STORE_NO_SPACE
abbrev pub status_ok : ℕ
status_ok = 0

abbrev pub status_error_store_no_wram : ℕ
status_error_store_no_wram = 1

abbrev pub status_error_store_no_space : ℕ
status_error_store_no_space = 2

-- The sign of an int that the crypto interface returns.
pub data Sign : Type 0 where
  negative zero positive : Sign

abbrev pub is_negative : Sign → Bool
is_negative negative = true
is_negative _ = false

abbrev pub is_zero : Sign → Bool
is_zero zero = true
is_zero _ = false

-- What crypto_comp_compress or crypto_comp_decompress returns, the bytes of the page-sized buffer
-- that it was given for its output, and the length that it stores in *dlen.
pub record Coded : Type 0 where
  pub ret : Sign
  pub out : List ℕ
  pub len : ℕ

-- The kernel's compressor, from the bytes of the input.
pub record Crypto : Type 0 where
  pub compress : List ℕ → Coded
  pub decompress : List ℕ → Coded

-- The state that a program sees: its DPU, the statistics of alloc_static.c, and the copy of
-- `stats` in swap.c (the header defines it as static), of which only `uncompressable` is used.
pub record Context : Type 0 where
  pub dpu : Dpu
  pub stats : Statistics
  pub uncompressable : ℕ

-- The state after a program and whether it returned 0 (otherwise -1).
pub record Ran : Type 0 where
  pub context : Context
  pub succeeded : Bool

-- DPU_ALIGN(n, 8), below the width of an unsigned long.
abbrev pub align8 : ℕ → ℕ
align8 n = (n + 7) / 8 * 8

-- mram_read of a uint32_t from the id field of the transfer page.
unfoldable pub read_id : Mram → ℕ
unfolding word_of_bytes
read_id m = word_of_bytes (mram_read m id_offset 4)

-- mram_write of a status word, which goes where the id is.
pub write_status : ℕ → Context → Context
write_status status c =
    let d = c.dpu in
    record c { dpu = record d { mram = mram_write (word_bytes status) id_offset d.mram } }

unfoldable pub with_mram : Mram → Context → Context
with_mram m c = let d = c.dpu in record c { dpu = record d { mram = m } }

abbrev pub failed_with : ℕ → Context → Ran
failed_with status c = record { context = write_status status c; succeeded = false }

-- dpu_invalidate_main
unfoldable pub dpu_invalidate_main : Context → Ran
dpu_invalidate_main c =
    let id = read_id c.dpu.mram in
    let id' = bit_and id (page_valid - 1) in
    let (m, st) = free_page_static id' c.dpu.mram c.stats in
    let (address, length) = lookup_index_hash id' m in
    let m' = if address == 0 then m else insert_index_hash id' 0 0 m in
    if bit_and id page_valid == 0
    then record { context = c; succeeded = true }
    else record { context = with_mram m' (record c { stats = st }); succeeded = true }

-- The page is copied to the transfer page, unless unpacking failed.
pub put_page : Option (List ℕ) → Context → Ran
put_page none c = record { context = c; succeeded = false }
put_page (some page) c = record {
  context = with_mram (mram_write (take page_size page) trans_page c.dpu.mram) c;
  succeeded = true;
}

-- The bytes and the length that are stored for a page: compressed, or as they are if compression
-- failed or saves less than a block. The flag is the test that counts the page as uncompressable.
pub record Packed : Type 0 where
  pub out_page : List ℕ
  pub compressed_length : ℕ
  pub too_big : Bool

-- `stats.uncompressable++` for a page that is stored as it is.
pub count_packed : Packed → Context → Context
count_packed p c = record c {
  uncompressable = if p.too_big then u32 (c.uncompressable + 1) else c.uncompressable;
}

-- The part of lzo_compress_main from the allocation on.
pub store_packed : ℕ → Packed → Context → Option Ran
store_packed id p c = on_value (alloc_page_static id p.compressed_length c.dpu.mram c.stats) λ a.
    let c' = with_mram a.mram (record c { stats = a.stats }) in
    let written = mram_write (take (align8 p.compressed_length) p.out_page) a.address a.mram in
    if a.address == 0
    then some (failed_with status_error_store_no_space c')
    else some (record { context = write_status status_ok (with_mram written c'); succeeded = true })

module _ (crypto : Crypto) where
  pub pack_page : List ℕ → Packed
  pack_page in_page =
      let r = crypto.compress in_page in
      let bytes = if is_negative r.ret then in_page else r.out in
      let length = if is_negative r.ret then page_size else r.len in
      let too_big = ltb (page_size - storage_block_size) length in
      record {
        out_page = if too_big then in_page else bytes;
        compressed_length = if too_big then page_size else length;
        too_big = too_big;
      }

  -- lzo_compress_main. `none`: the allocator reads a variable that it never assigned.
  unfoldable pub lzo_compress_main : Context → Option Ran
  lzo_compress_main c =
      let id = read_id c.dpu.mram in
      let (out_page_w, d1) = mem_alloc page_size c.dpu in
      let (in_page_w, d2) = mem_alloc page_size d1 in
      let c1 = record c { dpu = d1 } in
      let c2 = record c { dpu = d2 } in
      let p = pack_page (mram_read d2.mram trans_page page_size) in
      if bit_and id page_valid == 0
      then some (failed_with status_ok c)
      else if out_page_w == 0
      then some (failed_with status_error_store_no_wram c1)
      else if in_page_w == 0
      then some (failed_with status_error_store_no_wram c2)
      else store_packed (bit_and id (page_valid - 1)) p (count_packed p c2)

  -- The bytes that lzo_decompress_main unpacks for a page stored at `address`, or `none` where it
  -- fails.
  pub unpack_page : ℕ → ℕ → Mram → Option (List ℕ)
  unpack_page address length m =
      let r = crypto.decompress (mram_read m address length) in
      if length == page_size
      then some (mram_read m address length)
      else if not (is_zero r.ret)
      then none
      else if not (r.len == page_size)
      then none
      else some r.out

  -- lzo_decompress_main
  unfoldable pub lzo_decompress_main : Context → Ran
  lzo_decompress_main c =
      let (address, length) = lookup_index_hash (read_id c.dpu.mram) c.dpu.mram in
      let (out_page_w, d1) = mem_alloc page_size c.dpu in
      let (in_page_w, d2) = mem_alloc page_size d1 in
      let c1 = record c { dpu = d1 } in
      let c2 = record c { dpu = d2 } in
      if address == 0
      then record { context = c; succeeded = false }
      else if out_page_w == 0
      then record { context = c1; succeeded = false }
      else if in_page_w == 0
      then record { context = c2; succeeded = false }
      else put_page (unpack_page address length d2.mram) c2
