-- ===== src/Layout.antt =====
-- The constants and address macros of module/alloc_static.h, module/common.h and module/dpu.h: how
-- the 64 MB of a DPU's MRAM are divided, and how a block number is split into section, entry, bit.
pub mod Blocks
use pim_swap.Base.{ℕ, ◌+◌, ◌-◌, ◌*◌, ◌/◌, ◌^◌, u8, u32, ◌<<<◌, ◌>>>◌, bit_and, bit_or}

-- MRAM_PER_DPU
abbrev pub mram_per_dpu : ℕ
mram_per_dpu = 1 <<< 26

abbrev pub page_size : ℕ
page_size = 4096

-- The fields of struct mram_layout, in order: reserved, trans_page, id, status, directory, storage.
abbrev pub reserved_size : ℕ
reserved_size = 1 <<< 20

abbrev pub directory_size : ℕ
directory_size = (3 <<< 20) - (4 <<< 10) - 4

abbrev pub storage_size : ℕ
storage_size = mram_per_dpu - (4 <<< 20)

abbrev pub trans_page : ℕ
trans_page = reserved_size

abbrev pub id_offset : ℕ
id_offset = trans_page + page_size

abbrev pub status_offset : ℕ
status_offset = id_offset + 4

abbrev pub directory : ℕ
directory = status_offset + 4

abbrev pub storage : ℕ
storage = directory + directory_size

abbrev pub storage_block_size : ℕ
storage_block_size = 1 <<< 6

abbrev pub num_storage_blocks : ℕ
num_storage_blocks = storage_size >>> 6

-- ALLOC_TABLE_L2_ENTRIES, ALLOC_TABLE_L1_ENTRIES, NUM_L2_SECTIONS
abbrev pub l2_entries : ℕ
l2_entries = num_storage_blocks >>> 3

abbrev pub l1_entries : ℕ
l1_entries = l2_entries >>> 9

abbrev pub num_l2_sections : ℕ
num_l2_sections = l2_entries >>> 6

-- ALLOC_TABLE_L2_ENTRIES_PER_SECTION
abbrev pub entries_per_section : ℕ
entries_per_section = 1 <<< 6

-- DIR_LEVEL1_OFFSET and DIR_LEVEL2_OFFSET, from the start of the MRAM. Both tables' lengths are
-- multiples of 8, so DPU_ALIGN leaves them.
abbrev pub dir_level1 : ℕ
dir_level1 = directory

abbrev pub dir_level2 : ℕ
dir_level2 = directory + l1_entries

-- offsetof(struct static_directory_hash, hash_table), from the start of the MRAM.
abbrev pub hash_table : ℕ
hash_table = dir_level2 + l2_entries

-- NUM_HASH_ENTRIES: INDEX_SIZE / HASH_ENTRY_SIZE
abbrev pub num_hash_entries : ℕ
num_hash_entries = (directory_size - (l1_entries + l2_entries)) / 8

-- HASH_ADDR_FROM_ENTRY
abbrev pub hash_addr_from_entry : ℕ → ℕ
hash_addr_from_entry entry = hash_table + entry * 8

-- The address of a section of the level 2 table.
abbrev pub section_addr : ℕ → ℕ
section_addr section = dir_level2 + (section <<< 6)

-- L1_MAKE_SECTION, L1_ENTRY_FROM_SECTION, L1_BIT_FROM_SECTION
unfoldable pub l1_make_section : ℕ → ℕ → ℕ
l1_make_section entry bit = bit_or (entry <<< 3) bit

unfoldable pub l1_entry_from_section : ℕ → ℕ
l1_entry_from_section s = u8 (s >>> 3)

unfoldable pub l1_bit_from_section : ℕ → ℕ
l1_bit_from_section s = u8 (bit_and s 7)

-- MAKE_BLOCK_FROM_L2
unfoldable pub make_block_from_l2 : ℕ → ℕ → ℕ → ℕ
make_block_from_l2 section l2_entry bit = bit_or (bit_or (u32 (section <<< 9)) (l2_entry <<< 3)) bit

-- L2_SECTION_FROM_BLOCK, L2_ENTRY_FROM_BLOCK, L2_BIT_FROM_BLOCK
unfoldable pub l2_section_from_block : ℕ → ℕ
l2_section_from_block b = b >>> 9

unfoldable pub l2_entry_from_block : ℕ → ℕ
l2_entry_from_block b = u8 (bit_and (b >>> 3) 63)

unfoldable pub l2_bit_from_block : ℕ → ℕ
l2_bit_from_block b = u8 (bit_and b 7)

-- (length + (STORAGE_BLOCK_SIZE-1)) >> STORAGE_BLOCK_SIZE_LOG2, as a uint8_t.
unfoldable pub num_blocks_of : ℕ → ℕ
num_blocks_of length = u8 (u32 (length + 63) >>> 6)

-- MRAM_VAR(storage) + (block << STORAGE_BLOCK_SIZE_LOG2): the shift is done in 32 bits.
unfoldable pub block_addr : ℕ → ℕ
block_addr block = storage + u32 (block <<< 6)

-- STORAGE_BLOCK_FROM_ADDRESS, as a uint32_t.
unfoldable pub storage_block_from_address : ℕ → ℕ
storage_block_from_address address = u32 ((address - storage) >>> 6)
