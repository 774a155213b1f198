-- ===== src/Page/Freeing.antt =====
-- pimswap_free_page_static: what it frees, and that it undoes an allocation.
use pim_swap.Base.{
  ℕ, ◌+◌, ◌*◌, ◌/◌, ◌%◌, ◌≤◌, ◌<◌, ◌≡◌, ◌≢◌, ◌⊎◌, inl, inr, ◌∙◌, sym, ap, subst, Bool, true, false,
  some, arith, ◌==◌, not, ◌||◌, ◌&&◌, Bool-cases, ℕ_discrete,
}
use mathlib.Core.Option.{some-injective}
use pim_swap.Mram.{Mram, IsBytes}
use pim_swap.Layout.{
  dir_level1, dir_level2, directory, hash_table, num_l2_sections, num_storage_blocks, page_size,
  num_blocks_of, block_addr, section_addr,
}
use pim_swap.Layout.Blocks.{num_blocks_bounds, l2_from_block, block_from_address-block_addr}
use pim_swap.Hash.{entry_addr, lookup_index_hash}
use pim_swap.Hash.Entry.{load_entry}
use pim_swap.Hash.Laws.{entry_addr_bounds, lookup_ext, lookup-insert}
use pim_swap.L2.{free_blocks_l2}
use pim_swap.L2.Bitmap.{used}
use pim_swap.L2.Outcome.{in_blocks}
use pim_swap.L2.Free.{used-free_blocks, free_blocks_outside, IsBytes-free_blocks}
use pim_swap.Page.{Alloc, Statistics, count_free, clear_l1, free_page_static, alloc_page_static}
use pim_swap.Page.Table.{full_bit, IsFullSection}
use pim_swap.Page.Commit.{used_ext, full_bit_ext}
use pim_swap.Page.Directory.{IsDirectory, IsSearchable}
use pim_swap.Page.Outcome.{Allocates}
use pim_swap.Page.Allocation.{alloc_page-Outcome}
use pim_swap.Page.Clear.{clear_l1_outside, IsBytes-clear_l1, full_bit-clear_l1}

-- The n blocks from `block` on become free and no others change; the directory stays well formed,
-- no lookup changes, and nothing outside the two tables of the allocator changes.
pub record Frees (block n : ℕ) (m m' : Mram) : Type 0 where
  pub marked :
      (b : ℕ) → b < num_storage_blocks → used m' b ≡ (not (in_blocks block n b) && used m b)
  pub well_formed : IsDirectory m'
  pub lookups : (other : ℕ) → lookup_index_hash other m' ≡ lookup_index_hash other m
  pub outside : (x : ℕ) → (x < directory) ⊎ (hash_table ≤ x) → m' x ≡ m x

module _ (m : Mram) (block n : ℕ) (dir : IsDirectory m) (in_storage : block < num_storage_blocks)
    (n_pos : 0 < n) (one_section : block % 512 + n ≤ 512) where
  m1 : Mram
  m1 = free_blocks_l2 block n m

  s : ℕ
  s = block / 512

  s-lt : s < num_l2_sections
  unfolding s
  s-lt = omega arith

  IsBytes-m1 : IsBytes m1
  unfolding m1
  IsBytes-m1 = IsBytes-free_blocks block n m dir.bytes

  after : Mram
  after = clear_l1 s m1

  outside_tables : (x : ℕ) → (x < dir_level1) ⊎ (hash_table ≤ x) → after x ≡ m x
  unfolding after m1 s
  outside_tables x h =
      clear_l1_outside m1 s IsBytes-m1 s-lt x (wide h)
      ∙ free_blocks_outside block n m dir.bytes x (wider h)
    where
      wide : (x < dir_level1) ⊎ (hash_table ≤ x) → (x < dir_level1) ⊎ (dir_level2 ≤ x)
      wide (inl a) = inl a
      wide (inr b) = inr (omega arith)

      wider :
          (x < dir_level1) ⊎ (hash_table ≤ x)
          → (x < section_addr (block / 512)) ⊎ (section_addr (block / 512) + 64 ≤ x)
      wider (inl a) = inl (omega arith)
      wider (inr b) = inr (omega arith)

  used-after :
      (b : ℕ) → b < num_storage_blocks → used after b ≡ (not (in_blocks block n b) && used m b)
  unfolding after m1
  used-after b hb =
      used_ext m1 after (λ x lo hi. clear_l1_outside m1 s IsBytes-m1 s-lt x (inr lo)) b hb
      ∙ used-free_blocks block n m dir.bytes b one_section

  full_bit-after : (t : ℕ) → t < num_l2_sections → full_bit after t ≡ (not (s == t) && full_bit m t)
  unfolding after m1 s
  full_bit-after t ht =
      full_bit-clear_l1 m1 s IsBytes-m1 s-lt t ht
      ∙ ap (λ (x : Bool). not (s == t) && x)
          (full_bit_ext m m1
            (λ x lo hi. free_blocks_outside block n m dir.bytes x (inl (omega arith))) t ht)

  same_elsewhere :
      (t j : ℕ)
      → t < num_l2_sections
      → s ≢ t
      → j < 512
      → used after (t * 512 + j) ≡ used m (t * 512 + j)
  unfolding s
  same_elsewhere t j ht ne hj =
      used-after (t * 512 + j) (omega arith)
      ∙ (let far : in_blocks block n (t * 512 + j) ≡ false = ground arith in rw far)

  -- The first freed block is free afterwards.
  first_free : used after block ≡ false
  first_free = used-after block in_storage ∙ ground arith

  after-IsDirectory : IsDirectory after
  unfolding after s
  after-IsDirectory = record {
    bytes = IsBytes-clear_l1 m1 s IsBytes-m1 s-lt;
    exact = λ t ht. elim (ℕ_discrete s t) [
      | yes e ↦ (λ h. cc (full_bit-after t ht, (cleared t e)), λ h. cc (first_free, there t e h))
      | no ne ↦ (
        λ h j hj. same_elsewhere t j ht ne hj ∙ (dir.exact t ht).0 (kept t ht ne h) j hj,
        λ h.
            full_bit-after t ht
            ∙ still t ne ((dir.exact t ht).1 (λ j hj. sym (same_elsewhere t j ht ne hj) ∙ h j hj)),
      )
    ];
  }
    where
      cleared : (t : ℕ) → s ≡ t → (not (s == t) && full_bit m t) ≡ false
      cleared t e = ground arith

      there : (t : ℕ) → s ≡ t → IsFullSection after t → used after block ≡ true
      there t e h = ap (used after) (omega arith) ∙ h (block % 512) (omega arith)

      kept : (t : ℕ) → t < num_l2_sections → s ≢ t → full_bit after t ≡ true → full_bit m t ≡ true
      kept t ht ne h = ground (arith, full_bit-after t ht)

      still : (t : ℕ) → s ≢ t → full_bit m t ≡ true → (not (s == t) && full_bit m t) ≡ true
      still t ne h = ground arith

  frees : Frees block n m after
  frees = record {
    marked = used-after;
    well_formed = after-IsDirectory;
    lookups = λ other.
        lookup_ext other after m
          (λ x lo hi. outside_tables x (inr (omega (arith, entry_addr_bounds other))));
    outside = outside_tables;
  }

free_page_found :
    (id block len : ℕ) (m : Mram) (st : Statistics)
    → block < num_storage_blocks
    → lookup_index_hash id m ≡ (block_addr block, len)
    → free_page_static id m st ≡ (
      clear_l1 (block / 512) (free_blocks_l2 block (num_blocks_of len) m),
      count_free (num_blocks_of len) len st,
    )
unfolding free_page_static
free_page_found id block len m st hb h =
    rw (h, not_null, block_from_address-block_addr block hb, (l2_from_block block).0)
  where
    not_null : (block_addr block == 0) ≡ false
    not_null = unfold block_addr in ground arith

-- For a page that the index finds, at a block of storage and with a length whose blocks lie in one
-- section, pimswap_free_page_static marks exactly those blocks as free, keeps level 1 marking
-- exactly the full sections, changes no lookup (the page's own entry is left in place) and no byte
-- outside the two tables of the allocator, and counts the page.
pub free_page-Frees :
    (id block len : ℕ) (m : Mram) (st : Statistics)
    → IsDirectory m
    → block < num_storage_blocks
    → 0 < len
    → len ≤ page_size
    → block % 512 + num_blocks_of len ≤ 512
    → lookup_index_hash id m ≡ (block_addr block, len)
    → Frees block (num_blocks_of len) m (free_page_static id m st).0
      × ((free_page_static id m st).1 ≡ count_free (num_blocks_of len) len st)
unfolding after m1 s
free_page-Frees id block len m st dir hb lp lq sec h =
    let e = free_page_found id block len m st hb h in
    (
      subst (λ (w : Mram). Frees block (num_blocks_of len) m w) (sym (ap (λ p. p.0) e))
          (frees m block (num_blocks_of len) dir hb (omega (arith, num_blocks_bounds len lp lq))
            sec),
      ap (λ p. p.1) e,
    )

-- For an identifier that is not found it does nothing.
pub free_page-missing :
    (id : ℕ) (m : Mram) (st : Statistics)
    → (lookup_index_hash id m).0 ≡ 0
    → free_page_static id m st ≡ (m, st)
unfolding free_page_static
free_page-missing id m st h = rw h

free_page-Allocates :
    (id len : ℕ) (m : Mram) (st : Statistics) (r : Alloc)
    → 0 < len
    → len ≤ page_size
    → (load_entry m (entry_addr id)).length ≡ 0
    → Allocates id len (num_blocks_of len) m st r
    → (b : ℕ) → b < num_storage_blocks
    → used (free_page_static id r.mram r.stats).0 b ≡ used m b
free_page-Allocates id len m st r lp lq empty a b hb =
    (freed.marked b hb)
    ∙ ap (λ (x : Bool). not (in_blocks a.block (num_blocks_of len) b) && x) (a.marked b hb)
    ∙ undone
  where
    small : a.block < num_storage_blocks
    small = let h = a.in_storage in omega (arith, num_blocks_bounds len lp lq)

    freed : Frees a.block (num_blocks_of len) r.mram (free_page_static id r.mram r.stats).0
    freed =
        (free_page-Frees id a.block len r.mram r.stats a.well_formed small lp lq a.one_section
          (a.index id ∙ lookup-insert id a.block len m small lp (omega arith) (inr empty))).0

    undone :
        (not (in_blocks a.block (num_blocks_of len) b)
          && (in_blocks a.block (num_blocks_of len) b || used m b))
        ≡ used m b
    undone = elim (Bool-cases (in_blocks a.block (num_blocks_of len) b)) [
      | inl y ↦ rw y (sym (a.was_free b (lower y) (upper y)))
      | inr f ↦ rw f
    ]
      where
        lower : in_blocks a.block (num_blocks_of len) b ≡ true → a.block ≤ b
        lower y = ground arith

        upper : in_blocks a.block (num_blocks_of len) b ≡ true → b < a.block + num_blocks_of len
        upper y = ground arith

-- Freeing a page right after it was allocated undoes the marks: if a page of 1 to PAGE_SIZE bytes
-- whose index entry was free is allocated on a well-formed and searchable directory, and the
-- address is not NULL, then freeing its id gives every block of storage the state that it had
-- before the allocation.
pub free_page-alloc_page :
    (id len : ℕ) (m : Mram) (st : Statistics) (r : Alloc)
    → 0 < len
    → len ≤ page_size
    → IsDirectory m
    → IsSearchable m
    → (load_entry m (entry_addr id)).length ≡ 0
    → alloc_page_static id len m st ≡ some r
    → r.address ≢ 0
    → (b : ℕ) → b < num_storage_blocks
    → used (free_page_static id r.mram r.stats).0 b ≡ used m b
free_page-alloc_page id len m st r lp lq dir ready empty runs nz =
    free_page-Allocates id len m st r lp lq empty made
  where
    made : Allocates id len (num_blocks_of len) m st r
    made =
        let (r', runs', outcome) = alloc_page-Outcome id len m st lp lq dir ready in
        let e : r' ≡ r = some-injective _ _ (sym runs' ∙ runs) in
        elim outcome [
          | inl full ↦ absurd (nz (ap (λ (a : Alloc). a.address) (sym e) ∙ full.null))
          | inr al ↦ subst (Allocates id len (num_blocks_of len) m st) e al
        ]
