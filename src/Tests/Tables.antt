-- ===== src/Tests/Tables.antt =====
-- The layout, the hash index and the level 2 table at concrete inputs.
use pim_swap.Base.{
  ℕ, zero, suc, ◌+◌, ◌≤◌, ◌<◌, ◌≡◌, ◌≢◌, ◌⊎◌, ◌↔◌, inr, true, some, [], ◌∷◌, arith, refl, not, ◌&&◌,
  bit_set,
}
use pim_swap.Mram.{Mram, IsBytes, mram_write, IsBytes-mram_write, AreBytes-nil, AreBytes-cons}
use pim_swap.Layout.{mram_per_dpu, num_storage_blocks, block_addr, section_addr}
use pim_swap.Layout.Blocks.{block_fits_iff}
use pim_swap.Hash.{entry_index, entry_addr, insert_index_hash, lookup_index_hash}
use pim_swap.Hash.Entry.{HashEntry, entry_bytes}
use pim_swap.Hash.Laws.{lookup-insert, lookup-insert_other, lookup-insert_twice, lookup_alias}
use pim_swap.L2.{find_free_blocks_l2, free_blocks_l2}
use pim_swap.L2.Bitmap.{used}
use pim_swap.L2.Outcome.{StopsAtFull, Fails, Takes, IsContained, in_blocks}
use pim_swap.L2.Find.{find-Takes, find-IsContained}
use pim_swap.L2.Free.{used-free_blocks}
use pim_swap.Page.Blank.{blank, blank-IsBytes, free_entry}

block_fits_example : (block_addr 983039 + 64 ≤ mram_per_dpu) ↔ (983039 + 1 < num_storage_blocks)
block_fits_example = block_fits_iff 983039 (omega arith)

-- An entry and a memory that holds it for identifier 5.
abbrev entry : HashEntry
entry = record { block = 700; tag = 5; length = 100 }

abbrev indexed : Mram
indexed = mram_write (entry_bytes entry) (entry_addr 5) blank

lookup-insert_example :
    lookup_index_hash 5 (insert_index_hash 5 700 100 blank) ≡ (block_addr 700, 100)
lookup-insert_example =
    lookup-insert 5 700 100 blank (omega arith) (omega arith) (omega arith)
      (inr (free_entry 5 blank (λ x lo hi. refl)))

other_entry : entry_index 6 ≢ entry_index 5
other_entry = unfold entry_index in omega arith

lookup-insert_other_example :
    lookup_index_hash 6 (insert_index_hash 5 700 100 indexed) ≡ lookup_index_hash 6 indexed
lookup-insert_other_example = lookup-insert_other 5 6 700 100 indexed other_entry

lookup-insert_twice_example :
    let first = insert_index_hash 5 700 100 blank in
    (lookup_index_hash 5 (insert_index_hash 5 900 64 first) ≡ (block_addr 700, 100))
    × (lookup_index_hash 5 (insert_index_hash 5 900 64 (insert_index_hash 5 0 0 first))
        ≡ (block_addr 900, 64))
lookup-insert_twice_example =
    lookup-insert_twice 5 5 700 900 100 64 blank (omega arith) (omega arith) (omega arith)
      (omega arith) (omega arith) (omega arith) (omega arith) refl
      (free_entry 5 blank (λ x lo hi. refl))

lookup_alias_example : lookup_index_hash (5 + 65536) indexed ≡ lookup_index_hash 5 indexed
lookup_alias_example = lookup_alias 5 indexed (omega arith)

-- A section whose first block is free, with the rest of its first two entries used.
abbrev holes : Mram
holes = mram_write (0xfe ∷ 0xff ∷ []) (section_addr 3) blank

holes-IsBytes : IsBytes holes
holes-IsBytes =
    IsBytes-mram_write (0xfe ∷ 0xff ∷ []) (section_addr 3) blank
      (AreBytes-cons 0xfe (0xff ∷ []) (omega arith)
        (AreBytes-cons 0xff [] (omega arith) AreBytes-nil))
      blank-IsBytes

find-IsContained_example :
    (Fails 3 2 true holes (find_free_blocks_l2 3 2 true holes)
      ⊎ ((b : ℕ) × ((find_free_blocks_l2 3 2 true holes).first_block ≡ some b)
          × (b < num_storage_blocks)))
    × IsContained 3 holes (find_free_blocks_l2 3 2 true holes)
find-IsContained_example =
    find-IsContained 3 2 true holes (omega arith) (omega arith) (omega arith) holes-IsBytes

holes-StopsAtFull : StopsAtFull holes 3
unfolding mram_write bit_set
holes-StopsAtFull zero h full = refl
holes-StopsAtFull (suc e) h full = absurd (ground arith)

find-Takes_example :
    Fails 3 2 true holes (find_free_blocks_l2 3 2 true holes)
    ⊎ Takes 3 2 holes (find_free_blocks_l2 3 2 true holes)
find-Takes_example =
    find-Takes 3 2 true holes (omega arith) (omega arith) (omega arith) holes-IsBytes
      holes-StopsAtFull

used-free_blocks_example :
    used (free_blocks_l2 1538 5 holes) 1540 ≡ (not (in_blocks 1538 5 1540) && used holes 1540)
used-free_blocks_example = used-free_blocks 1538 5 holes holes-IsBytes 1540 (omega arith)
