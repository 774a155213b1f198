-- ===== src/Page/Allocation.antt =====
-- pimswap_alloc_page_static: what it returns and what it changes, on every path.
use pim_swap.Base.{
  ℕ, ◌+◌, ◌*◌, ◌/◌, ◌%◌, ◌≤◌, ◌<◌, ◌≡◌, ◌⊎◌, inl, inr, ◌∙◌, refl, sym, ap, ap₂, subst, true, false,
  Option, none, some, List, arith, ◌==◌, ◌||◌, if◌then◌else◌, uint_max,
}
use pim_swap.Mram.{Mram, IsBytes, mram_read}
use pim_swap.Layout.{
  dir_level1, dir_level2, directory, hash_table, storage, num_l2_sections, num_storage_blocks,
  page_size, num_blocks_of,
}
use pim_swap.Layout.Blocks.{num_blocks_bounds}
use pim_swap.Hash.{entry_addr, insert_index_hash, lookup_index_hash}
use pim_swap.Hash.Laws.{entry_addr_bounds, insert_outside, insert_ext, IsBytes-insert, lookup_ext}
use pim_swap.L2.{Found}
use pim_swap.L2.Bitmap.{used}
use pim_swap.L2.Outcome.{in_blocks, AreFree, Takes, IsContained}
use pim_swap.Page.{Alloc, Statistics, finish_alloc, alloc_page_static, scan_l1, on_value}
use pim_swap.Page.Table.{full_bit}
use pim_swap.Page.Search.{Inv, Hit}
use pim_swap.Page.Outer.{AfterL1, search_lem, search_undefined}
use pim_swap.Page.Commit.{used_ext, l1_updated, updated_outside, IsBytes-updated, L1IsExact-updated}
use pim_swap.Page.Directory.{IsDirectory, IsDirectory-ext, IsSearchable}
use pim_swap.Page.Outcome.{Refuses, Allocates}

module _ (id len : ℕ) (m : Mram) (st : Statistics) (len_pos : 0 < len) (len_le : len ≤ page_size)
    (dir : IsDirectory m) where
  n : ℕ
  n = num_blocks_of len

  n_bounds : (0 < n) × (n ≤ 64)
  unfolding n
  n_bounds = omega (arith, num_blocks_bounds len len_pos len_le)

  l : List ℕ
  l = mram_read m dir_level1 240

  module _ (k : ℕ) (found : Found) (hk : k < num_l2_sections) (was_open : full_bit m k ≡ false)
      (t : Takes k n m found) (c : IsContained k m found) where
    m2 : Mram
    m2 = l1_updated m n k found hk dir.bytes was_open dir.exact t c

    block : ℕ
    block = k * 512 + t.start

    r : Alloc
    r = finish_alloc id len l (k / 8) (k % 8) found block st

    r_mram : r.mram ≡ insert_index_hash id block len m2
    unfolding r m2 finish_alloc l
    r_mram = refl

    outside_m2 : (x : ℕ) → (x < dir_level1) ⊎ (hash_table ≤ x) → m2 x ≡ m x
    unfolding m2
    outside_m2 x h =
        updated_outside m n k found hk dir.bytes was_open dir.exact t c x (wide h)
        ∙ c.outside x (wider h)
      where
        wide : (x < dir_level1) ⊎ (hash_table ≤ x) → (x < dir_level1) ⊎ (dir_level2 ≤ x)
        wide (inl a) = inl a
        wide (inr b) = inr (omega arith)

        wider :
            (x < dir_level1) ⊎ (hash_table ≤ x)
            → (x < dir_level2 + k * 64) ⊎ (dir_level2 + k * 64 + 64 ≤ x)
        wider (inl a) = inl (omega arith)
        wider (inr b) = inr (omega arith)

    -- The insertion writes in the hash table only.
    inserted : (x : ℕ) → x < hash_table → r.mram x ≡ m2 x
    inserted x h =
        ap (λ (w : Mram). w x) r_mram
        ∙ insert_outside id block len m2 x (inl (omega (arith, entry_addr_bounds id)))

    used_r : (b : ℕ) → b < num_storage_blocks → used r.mram b ≡ (in_blocks block n b || used m b)
    unfolding m2 block
    used_r b hb =
        used_ext m2 r.mram (λ x lo hi. inserted x hi) b hb
        ∙ used_ext found.mram m2
            (λ x lo hi. updated_outside m n k found hk dir.bytes was_open dir.exact t c x (inr lo))
            b hb
        ∙ t.marked b

    r-IsDirectory : IsDirectory r.mram
    unfolding m2
    r-IsDirectory =
        IsDirectory-ext m2 r.mram (λ x lo hi. inserted x hi)
          (subst (λ (w : Mram). IsBytes w) (sym r_mram) (IsBytes-insert id block len m2 IsBytes-m2))
          (record {
            bytes = IsBytes-m2;
            exact = L1IsExact-updated m n k found hk dir.bytes was_open dir.exact t c;
          })
      where
        IsBytes-m2 : IsBytes m2
        IsBytes-m2 = IsBytes-updated m n k found hk dir.bytes was_open dir.exact t c

    r-Allocates : Allocates id len n m st r
    r-Allocates = record {
      block = block;
      in_storage = let h = t.inside in unfold block in omega arith;
      one_section = let h = t.inside in unfold block in let nb = n_bounds in omega arith;
      address = unfold r finish_alloc in refl;
      was_free = unfold block in t.was_free;
      earliest = earliest;
      marked = used_r;
      well_formed = r-IsDirectory;
      index = λ other.
          ap (lookup_index_hash other) r_mram
          ∙ lookup_ext other (insert_index_hash id block len m2) (insert_index_hash id block len m)
              (same_index other);
      table = λ x lo hi.
          ap (λ (w : Mram). w x) r_mram
          ∙ insert_ext id block len m m2 (λ y a b. outside_m2 y (inr a)) x lo hi;
      outside = λ x h.
          ap (λ (w : Mram). w x) r_mram
          ∙ insert_outside id block len m2 x (far x h)
          ∙ outside_m2 x (beyond x h);
      counted = unfold r finish_alloc n in refl;
    }
      where
        split : (block / 512 ≡ k) × (block % 512 ≡ t.start)
        split = let h = t.inside in unfold block in let nb = n_bounds in omega arith

        earliest :
            (q : ℕ)
            → q < block % 512
            → AreFree m (block / 512 * 512 + q) (block / 512 * 512 + q + n)
            → ⊥
        earliest q lt free_run =
            t.earliest q (omega (arith, split))
              λ b lo hi. free_run b (omega (arith, split)) (omega (arith, split))

        same_index :
            (other x : ℕ)
            → entry_addr other ≤ x
            → x < entry_addr other + 8
            → insert_index_hash id block len m2 x ≡ insert_index_hash id block len m x
        same_index other x lo hi =
            let h = entry_addr_bounds other in
            insert_ext id block len m m2 (λ y a b. outside_m2 y (inr a)) x (omega arith)
              (omega arith)

        far :
            (x : ℕ)
            → (x < directory) ⊎ (storage ≤ x)
            → (x < entry_addr id) ⊎ (entry_addr id + 8 ≤ x)
        far x (inl a) = inl (omega (arith, entry_addr_bounds id))
        far x (inr b) = inr (omega (arith, entry_addr_bounds id))

        beyond : (x : ℕ) → (x < directory) ⊎ (storage ≤ x) → (x < dir_level1) ⊎ (hash_table ≤ x)
        beyond x (inl a) = inl a
        beyond x (inr b) = inr (omega arith)

  abbrev Outcome : Option Alloc → Type 0
  Outcome R =
      (r : Alloc) × (R ≡ some r)
      × (Refuses (num_blocks_of len) m st r ⊎ Allocates id len (num_blocks_of len) m st r)

  refused :
      (found : Found)
      → found.first_block ≡ some uint_max
      → Inv m n (n_bounds.0) (n_bounds.1) dir.bytes num_l2_sections found
      → Refuses n m st (record { address = 0; mram = found.mram; stats = st })
  refused found failed v = record {
    null = refl;
    same_mram = v.unwritten;
    same_stats = refl;
    no_room = λ s hs. v.no_room dir.exact s hs;
  }

  -- The end of the function, with the value of first_block.
  code : Found → ℕ → ℕ → Option ℕ → Option Alloc
  code found e b first = on_value first λ f.
      if f == uint_max
      then some (record { address = 0; mram = found.mram; stats = st })
      else some (finish_alloc id len l e b found f st)

  runs :
      (found : Found) (e b : ℕ)
      → scan_l1 n 240 l 0 0 (record { first_block = none; update_l1 = true; mram = m })
        ≡ some (found, e, b)
      → alloc_page_static id len m st ≡ code found e b found.first_block
  unfolding alloc_page_static code n l
  runs found e b h = rw h

  stops :
      (found : Found) (e b f : ℕ)
      → (f == uint_max) ≡ false
      → code found e b (some f) ≡ some (finish_alloc id len l e b found f st)
  unfolding code
  stops found e b f h = rw h

  allocate : IsSearchable m → Outcome (alloc_page_static id len m st)
  unfolding n
  allocate ready =
      let (found, e, b, returned, outcome) = search in
      elim outcome [
        | inr (failed, v) ↦ (
          record { address = 0; mram = found.mram; stats = st },
          runs found e b returned ∙ ap (code found e b) failed ∙ (unfold code in refl),
          inl (refused found failed v),
        )
        | inl (he, hb, hit) ↦
            let t = hit.takes (ready.stops (e * 8 + b) hit.in_table) in
            (
              r (e * 8 + b) found hit.in_table hit.was_open t hit.contained,
              runs found e b returned ∙ taken found e b hb hit t,
              inr (r-Allocates (e * 8 + b) found hit.in_table hit.was_open t hit.contained),
            )
      ]
    where
      search :
          AfterL1 m n
            (n_bounds.0)
            (n_bounds.1)
            dir.bytes
            (scan_l1 n 240 l 0 0 (record { first_block = none; update_l1 = true; mram = m }))
      search = unfold l in search_lem m n (n_bounds.0) (n_bounds.1) dir.bytes ready.first_open

      taken :
          (found : Found) (e b : ℕ)
          → b < 8
          → (hit : Hit m n (n_bounds.0) (n_bounds.1) dir.bytes (e * 8 + b) found)
          → (t : Takes (e * 8 + b) n m found)
          → code found e b found.first_block
            ≡ some (r (e * 8 + b) found hit.in_table hit.was_open t hit.contained)
      taken found e b hb hit t =
          let h = t.inside in
          let nb = n_bounds in
          let k = hit.in_table in
          let no_end : ((e * 8 + b) * 512 + t.start == uint_max) ≡ false = ground arith in
          ap (code found e b) t.returned
          ∙ stops found e b ((e * 8 + b) * 512 + t.start) no_end
          ∙ (unfold r block in
              ap₂
                (λ (x y : ℕ).
                  some (finish_alloc id len l x y found ((e * 8 + b) * 512 + t.start) st))
                (omega arith) (omega arith))

-- For a page of 1 to PAGE_SIZE bytes, a well-formed directory and a searchable table, the
-- allocation is defined: it either returns NULL, changes nothing, and no section has a free run of
-- the blocks needed; or it returns the address of that many blocks of one section that were all
-- free, marks exactly those as used, keeps level 1 marking exactly the full sections, makes every
-- lookup what pimswap_insert_index_hash of the page makes it, changes no byte outside the
-- directory, and counts the page.
pub alloc_page-Outcome :
    (id len : ℕ) (m : Mram) (st : Statistics)
    → 0 < len
    → len ≤ page_size
    → IsDirectory m
    → IsSearchable m
    → (r : Alloc) × (alloc_page_static id len m st ≡ some r)
      × (Refuses (num_blocks_of len) m st r ⊎ Allocates id len (num_blocks_of len) m st r)
alloc_page-Outcome id len m st p q dir ready = allocate id len m st p q dir ready

-- If the first entry of the level 1 table is 0xFF, the first eight sections being full, then the
-- allocation tests a variable that it never assigned, whatever is free in the other sections.
pub alloc_page-undefined :
    (id len : ℕ) (m : Mram) (st : Statistics)
    → m dir_level1 ≡ 0xff
    → alloc_page_static id len m st ≡ none
unfolding alloc_page_static
alloc_page-undefined id len m st h = rw (search_undefined m (num_blocks_of len) true h)
