-- ===== src/Page.antt =====
-- pimswap_alloc_page_static and pimswap_free_page_static of module/alloc_static.c, on the MRAM of
-- the current DPU and the statistics.
pub mod Table
pub mod Search
pub mod Loop
pub mod Outer
pub mod Commit
pub mod Directory
pub mod Outcome
pub mod Allocation
pub mod Clear
pub mod Freeing
pub mod Blank
use pim_swap.Base.{
  ℕ, zero, suc, ◌+◌, ◌-◌, ◌%◌, ◌^◌, Bool, true, false, Option, none, some, List, u32, u64, uint_max,
  ◌==◌, if◌then◌else◌, not, get_or, set, bit_set, or_bit, clear_bit,
}
use pim_swap.Mram.{Mram, mram_read, mram_write}
use pim_swap.Layout.{
  l1_entries, dir_level1, l1_make_section, l1_entry_from_section, l1_bit_from_section,
  l2_section_from_block, num_blocks_of, block_addr, storage_block_from_address,
}
use pim_swap.Hash.{insert_index_hash, lookup_index_hash}
use pim_swap.L2.{Found, find_free_blocks_l2, free_blocks_l2}

-- struct statistics
pub record Statistics : Type 0 where
  pub num_allocs : ℕ
  pub num_frees : ℕ
  pub current_pages : ℕ
  pub current_blocks_allocated : ℕ
  pub current_bytes_used : ℕ
  pub uncompressable : ℕ

-- A test `first_block != UINT_MAX` with what follows it if the two are equal, and if they are not.
-- Where first_block was never assigned the C code reads an indeterminate value: the result `none`.
abbrev pub on_uint_max {ℓ} : {A : Type ℓ} → Option ℕ → Option A → Option A → Option A
on_uint_max none same other = none
on_uint_max (some f) same other = if f == uint_max then same else other

-- What follows the inner loop, unless that was undefined.
abbrev pub after_entry {ℓ} : {A : Type ℓ} → Option (Found × ℕ) → (Found → ℕ → Option A) → Option A
after_entry none k = none
after_entry (some (st, b)) k = k st b

-- The loops over the level 1 table. Their variables first_block and update_l1 and the memory are a
-- `Found`.
module _ (num_blocks : ℕ) where
  -- The inner loop from `l1_bit` on; it returns the value of `l1_bit` at its end.
  pub scan_sections : ℕ → ℕ → ℕ → ℕ → Found → Option (Found × ℕ)
  scan_sections zero byte l1_entry l1_bit st = some (st, l1_bit)
  scan_sections (suc left) byte l1_entry l1_bit st =
      let r =
        find_free_blocks_l2 (l1_make_section l1_entry l1_bit) num_blocks st.update_l1 st.mram in
      let retry = scan_sections left byte l1_entry (l1_bit + 1) r in
      let next = scan_sections left byte l1_entry (l1_bit + 1) st in
      if not (bit_set byte l1_bit) then on_uint_max r.first_block retry (some (r, l1_bit)) else next

  -- The outer loop from `l1_entry` on; it returns the values of `l1_entry` and `l1_bit` at its end.
  pub scan_l1 : ℕ → List ℕ → ℕ → ℕ → Found → Option (Found × ℕ × ℕ)
  scan_l1 zero l l1_entry l1_bit st = some (st, l1_entry, l1_bit)
  scan_l1 (suc left) l l1_entry l1_bit st =
      let byte = get_or l l1_entry 0 in
      after_entry (if byte == 0xff then some (st, l1_bit) else scan_sections 8 byte l1_entry 0 st)
        λ st' bit.
          let next = scan_l1 left l (l1_entry + 1) bit st' in
          on_uint_max st'.first_block next (some (st', l1_entry, bit))

-- The address that is returned (0 is NULL), the memory and the statistics after the call.
pub record Alloc : Type 0 where
  pub address : ℕ
  pub mram : Mram
  pub stats : Statistics

pub count_alloc : ℕ → ℕ → Statistics → Statistics
count_alloc num_blocks length st = record st {
  num_allocs = u64 (st.num_allocs + 1);
  current_pages = u64 (st.current_pages + 1);
  current_blocks_allocated = u32 (st.current_blocks_allocated + num_blocks);
  current_bytes_used = u32 (st.current_bytes_used + length);
}

-- What follows the search, when it has ended at (l1_entry, l1_bit).
pub finish_alloc : ℕ → ℕ → List ℕ → ℕ → ℕ → Found → ℕ → Statistics → Alloc
finish_alloc id length l l1_entry l1_bit found first_block st =
    let l' = set l l1_entry (or_bit (get_or l l1_entry 0) l1_bit) in
    let m = if found.update_l1 then mram_write l' dir_level1 found.mram else found.mram in
    record {
      address = block_addr first_block;
      mram = insert_index_hash id first_block length m;
      stats = count_alloc (num_blocks_of length) length st;
    }

-- What follows the search, unless that was undefined, and the use of a variable that may never have
-- been assigned.
abbrev pub after_search {ℓ} :
    {A : Type ℓ} → Option (Found × ℕ × ℕ) → (Found → ℕ → ℕ → Option A) → Option A
after_search none k = none
after_search (some (found, e, b)) k = k found e b

abbrev pub on_value {ℓ κ} : {A : Type ℓ} {B : Type κ} → Option A → (A → Option B) → Option B
on_value none k = none
on_value (some v) k = k v

-- pimswap_alloc_page_static. `none`: the code reads a variable that it never assigned.
unfoldable pub alloc_page_static : ℕ → ℕ → Mram → Statistics → Option Alloc
alloc_page_static id length m st =
    let l = mram_read m dir_level1 l1_entries in
    after_search
      (scan_l1 (num_blocks_of length) l1_entries l 0 0
        (record { first_block = none; update_l1 = true; mram = m }))
      λ found l1_entry l1_bit. on_value found.first_block λ b.
        if b == uint_max
        then some (record { address = 0; mram = found.mram; stats = st })
        else some (finish_alloc id length l l1_entry l1_bit found b st)

pub count_free : ℕ → ℕ → Statistics → Statistics
count_free num_blocks length st = record st {
  num_frees = u64 (st.num_frees + 1);
  current_pages = u64 (st.current_pages + 2 ^ 64 - 1);
  current_blocks_allocated = u32 (st.current_blocks_allocated + 2 ^ 32 - num_blocks);
  current_bytes_used = u32 (st.current_bytes_used + 2 ^ 32 - length);
}

-- The part of pimswap_free_page_static that clears the section's bit in the level 1 table.
pub clear_l1 : ℕ → Mram → Mram
clear_l1 section m =
    let l1_entry = l1_entry_from_section section in
    let l1_bit = l1_bit_from_section section in
    let l = mram_read m dir_level1 l1_entries in
    if bit_set (get_or l l1_entry 0) l1_bit
    then mram_write (set l l1_entry (clear_bit (get_or l l1_entry 0) l1_bit)) dir_level1 m
    else m

-- pimswap_free_page_static
unfoldable pub free_page_static : ℕ → Mram → Statistics → Mram × Statistics
free_page_static id m st =
    let (address, length) = lookup_index_hash id m in
    let first_block = storage_block_from_address address in
    let num_blocks = num_blocks_of length in
    let freed =
      clear_l1 (l2_section_from_block first_block) (free_blocks_l2 first_block num_blocks m) in
    if address == 0 then (m, st) else (freed, count_free num_blocks length st)
