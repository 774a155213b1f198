-- ===== src/Tests/Pages.antt =====
-- The allocation and the freeing of pages at concrete inputs.
use pim_swap.Base.{ℕ, ◌+◌, ◌%◌, ◌≤◌, ◌<◌, ◌≡◌, ◌≢◌, ◌⊎◌, inl, inr, some, arith, refl}
use pim_swap.Mram.{Mram}
use pim_swap.Layout.{num_blocks_of, block_addr}
use pim_swap.Layout.Blocks.{num_blocks_bounds}
use pim_swap.Hash.{insert_index_hash, lookup_index_hash}
use pim_swap.Hash.Laws.{lookup-insert, insert_outside, entry_addr_bounds, IsBytes-insert}
use pim_swap.L2.Bitmap.{used}
use pim_swap.Page.{Statistics, Alloc, alloc_page_static, free_page_static, count_free}
use pim_swap.Page.Directory.{IsDirectory}
use pim_swap.Page.Outcome.{Refuses, Allocates}
use pim_swap.Page.Allocation.{alloc_page-Outcome}
use pim_swap.Page.Freeing.{Frees, free_page-Frees, free_page-alloc_page}
use pim_swap.Page.Blank.{
  blank, blank-IsBytes, blank-IsBlank, blank-IsDirectory, blank-IsSearchable, blank-HasRoom,
  free_entry,
}

abbrev counts : Statistics
counts = record {
  num_allocs = 4;
  num_frees = 2;
  current_pages = 2;
  current_blocks_allocated = 9;
  current_bytes_used = 500;
  uncompressable = 0;
}

zeros-IsDirectory : IsDirectory blank
zeros-IsDirectory = blank-IsDirectory blank blank-IsBlank blank-IsBytes

alloc_page-Outcome_example :
    (r : Alloc) × (alloc_page_static 5 300 blank counts ≡ some r)
    × (Refuses (num_blocks_of 300) blank counts r
        ⊎ Allocates 5 300 (num_blocks_of 300) blank counts r)
alloc_page-Outcome_example =
    alloc_page-Outcome 5 300 blank counts (omega arith) (omega arith) zeros-IsDirectory
      (blank-IsSearchable blank blank-IsBlank)

-- The state after the allocation of 300 bytes for identifier 5.
abbrev allocation :
    (r : Alloc) × (alloc_page_static 5 300 blank counts ≡ some r)
    × (Refuses (num_blocks_of 300) blank counts r
        ⊎ Allocates 5 300 (num_blocks_of 300) blank counts r)
allocation =
    alloc_page-Outcome 5 300 blank counts (omega arith) (omega arith) zeros-IsDirectory
      (blank-IsSearchable blank blank-IsBlank)

not_null :
    (r : Alloc)
    → Refuses (num_blocks_of 300) blank counts r
      ⊎ Allocates 5 300 (num_blocks_of 300) blank counts r
    → r.address ≢ 0
not_null r (inl refuses) = absurd (
    blank-HasRoom blank blank-IsBlank (num_blocks_of 300)
      (omega (arith, num_blocks_bounds 300 (omega arith) (omega arith)))
      (refuses.no_room 0 (omega arith)))
not_null r (inr made) = λ e. absurd (omega (arith, above made.block, made.address, e))
  where
    above : (b : ℕ) → 0 < block_addr b
    above b = unfold block_addr in omega arith

free_page-alloc_page_example :
    used (free_page_static 5 allocation.0.mram allocation.0.stats).0 3 ≡ used blank 3
free_page-alloc_page_example =
    free_page-alloc_page 5 300 blank counts allocation.0 (omega arith) (omega arith)
      zeros-IsDirectory (blank-IsSearchable blank blank-IsBlank)
      (free_entry 5 blank (λ x lo hi. refl)) allocation.1 (not_null allocation.0 allocation.2) 3
      (omega arith)

-- A page of 300 bytes at block 700.
abbrev one_page : Mram
one_page = insert_index_hash 5 700 300 blank

one_page-IsDirectory : IsDirectory one_page
one_page-IsDirectory =
    blank-IsDirectory one_page
      (λ x lo hi. insert_outside 5 700 300 blank x (inl (omega (arith, entry_addr_bounds 5))))
      (IsBytes-insert 5 700 300 blank blank-IsBytes)

one_page_found : lookup_index_hash 5 one_page ≡ (block_addr 700, 300)
one_page_found =
    lookup-insert 5 700 300 blank (omega arith) (omega arith) (omega arith)
      (inr (free_entry 5 blank (λ x lo hi. refl)))

fits_section : 700 % 512 + num_blocks_of 300 ≤ 512
fits_section = omega (arith, num_blocks_bounds 300 (omega arith) (omega arith))

free_page-Frees_example :
    Frees 700 (num_blocks_of 300) one_page (free_page_static 5 one_page counts).0
    × ((free_page_static 5 one_page counts).1 ≡ count_free (num_blocks_of 300) 300 counts)
free_page-Frees_example =
    free_page-Frees 5 700 300 one_page counts one_page-IsDirectory (omega arith) (omega arith)
      (omega arith) fits_section one_page_found
