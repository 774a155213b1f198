-- ===== src/Hash.antt =====
-- The hash index of module/alloc_static.c (DIRECTORY_HASH): struct pim_hash_entry,
-- pimswap_insert_index_hash and pimswap_lookup_index_hash.
pub mod Entry
pub mod Laws
use Entry.{HashEntry, load_entry, entry_bytes}
use pim_swap.Base.{
  ℕ, ◌+◌, ◌%◌, ◌^◌, Bool, arith, u16, u32, ◌<<<◌, bit_and, ◌==◌, ◌&&◌, not, if◌then◌else◌,
}
use pim_swap.Mram.{Mram, mram_write}
use pim_swap.Layout.{num_hash_entries, hash_addr_from_entry, block_addr}

-- TAG_FROM_ID
pub tag_from_id : ℕ → ℕ
tag_from_id id = bit_and id 0xffff

-- entry_index is a uint16_t.
unfoldable pub entry_index : ℕ → ℕ
entry_index id = u16 (id % num_hash_entries)

unfoldable pub entry_addr : ℕ → ℕ
entry_addr id = hash_addr_from_entry (entry_index id)

-- pimswap_insert_index_hash
unfoldable pub insert_index_hash : ℕ → ℕ → ℕ → Mram → Mram
insert_index_hash id block length m =
    let entry = load_entry m (entry_addr id) in
    if not (block == 0) && (not (length == 0) && not (entry.length == 0))
    then m
    else mram_write
        (entry_bytes (record { block = block; tag = tag_from_id id; length = u16 length }))
        (entry_addr id) m

-- pimswap_lookup_index_hash: the address (0 is the null pointer), and what `*length` receives.
unfoldable pub lookup_index_hash : ℕ → Mram → ℕ × ℕ
lookup_index_hash id m =
    let entry = load_entry m (entry_addr id) in
    if not (entry.length == 0) && entry.tag == tag_from_id id
    then (block_addr entry.block, entry.length)
    else (0, 0)
