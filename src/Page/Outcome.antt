-- ===== src/Page/Outcome.antt =====
-- The two outcomes of pimswap_alloc_page_static.
use pim_swap.Base.{ℕ, ◌+◌, ◌*◌, ◌/◌, ◌%◌, ◌≤◌, ◌<◌, ◌≡◌, ◌⊎◌, ◌||◌}
use pim_swap.Mram.{Mram}
use pim_swap.Layout.{
  directory, hash_table, storage, num_l2_sections, num_storage_blocks, block_addr,
}
use pim_swap.Hash.{insert_index_hash, lookup_index_hash}
use pim_swap.L2.Bitmap.{used}
use pim_swap.L2.Outcome.{in_blocks, AreFree}
use pim_swap.Page.{Alloc, Statistics, count_alloc}
use pim_swap.Page.Search.{HasNoRoom}
use pim_swap.Page.Directory.{IsDirectory}

-- NULL is returned: no section has room, and nothing has changed.
pub record Refuses (n : ℕ) (m : Mram) (st : Statistics) (r : Alloc) : Type 0 where
  pub null : r.address ≡ 0
  pub same_mram : r.mram ≡ m
  pub same_stats : r.stats ≡ st
  pub no_room : (s : ℕ) → s < num_l2_sections → HasNoRoom m n s

-- The address of n blocks is returned that were free and lie in one section, as early in it as
-- possible. They, and no others, become used; the directory stays well formed; the hash table, and
-- so every lookup, is as after the insertion of the page in the index; nothing outside the
-- directory changes; the page is counted.
pub record Allocates (id len n : ℕ) (m : Mram) (st : Statistics) (r : Alloc) : Type 0 where
  pub block : ℕ
  pub in_storage : block + n ≤ num_storage_blocks
  pub one_section : block % 512 + n ≤ 512
  pub address : r.address ≡ block_addr block
  pub was_free : AreFree m block (block + n)
  pub earliest :
      (q : ℕ) → q < block % 512 → AreFree m (block / 512 * 512 + q) (block / 512 * 512 + q + n) → ⊥
  pub marked : (b : ℕ) → b < num_storage_blocks → used r.mram b ≡ (in_blocks block n b || used m b)
  pub well_formed : IsDirectory r.mram
  pub index :
      (other : ℕ)
      → lookup_index_hash other r.mram ≡ lookup_index_hash other (insert_index_hash id block len m)
  pub table : (x : ℕ) → hash_table ≤ x → x < storage → r.mram x ≡ insert_index_hash id block len m x
  pub outside : (x : ℕ) → (x < directory) ⊎ (storage ≤ x) → r.mram x ≡ m x
  pub counted : r.stats ≡ count_alloc n len st
