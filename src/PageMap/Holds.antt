-- ===== src/PageMap/Holds.antt =====
-- When the MRAM of a DPU holds the pages of a map, and what changes of the MRAM that allows.
use pim_swap.Base.{
  ℕ, ◌+◌, ◌-◌, ◌*◌, ◌/◌, ◌%◌, ◌≤◌, ◌<◌, ◌≡◌, ◌≢◌, ◌∙◌, sym, ap, Bool, true, false, some, List,
  arith, length, ℕ_discrete,
}
use pim_swap.Mram.{Mram, IsBytes, AreBytes}
use pim_swap.Layout.{page_size, directory, storage, num_storage_blocks, num_blocks_of, block_addr}
use pim_swap.Layout.Blocks.{num_blocks_bounds}
use pim_swap.Hash.{entry_index, entry_addr, lookup_index_hash}
use pim_swap.Hash.Entry.{load_entry}
use pim_swap.Hash.Laws.{entry_addr_bounds, lookup_ext, load_entry_ext}
use pim_swap.L2.Bitmap.{used}
use pim_swap.L2.Outcome.{in_blocks}
use pim_swap.Page.Commit.{used_ext}
use pim_swap.Page.Directory.{IsDirectory, IsDirectory-ext}
use pim_swap.Program.{Crypto, page_valid, unpack_page}
use pim_swap.Program.Load.{unpack_page_ext}
use pim_swap.PageMap.{PageMap, IsUnclaimed}

-- Where a page is stored: its first block and its length in bytes.
pub record Place : Type 0 where
  pub block : ℕ
  pub len : ℕ

abbrev pub covers : Place → ℕ → Bool
covers p b = in_blocks p.block (num_blocks_of p.len) b

-- The page is stored there: its blocks lie in one section of the storage area and are marked as
-- used, the index leads to them, and what they hold unpacks to the page.
pub record IsKept (crypto : Crypto) (m : Mram) (id : ℕ) (page : List ℕ) (p : Place) : Type 0 where
  pub id_range : id < page_valid
  pub whole : length page ≡ page_size
  pub octets : AreBytes page
  pub len_bounds : (0 < p.len) × (p.len ≤ page_size)
  pub in_storage : p.block + num_blocks_of p.len ≤ num_storage_blocks
  pub one_section : p.block % 512 + num_blocks_of p.len ≤ 512
  pub marked : (b : ℕ) → b < num_storage_blocks → covers p b ≡ true → used m b ≡ true
  pub indexed : lookup_index_hash id m ≡ (block_addr p.block, p.len)
  pub unpacks : unpack_page crypto (block_addr p.block) p.len m ≡ some page

-- The MRAM holds exactly the pages of the map: the directory is well formed, each page is stored,
-- no two pages share a block or an index entry, and no block and no entry is in use without a page.
pub record Holds (crypto : Crypto) (pages : PageMap) (m : Mram) : Type 0 where
  pub place : ℕ → Place
  pub well_formed : IsDirectory m
  pub kept : (id : ℕ) (page : List ℕ) → pages id ≡ some page → IsKept crypto m id page (place id)
  pub apart :
      (id other : ℕ) (page page' : List ℕ)
      → id ≢ other
      → pages id ≡ some page
      → pages other ≡ some page'
      → (b : ℕ) → covers (place id) b ≡ true
      → covers (place other) b ≡ false
  pub entries :
      (id other : ℕ) (page page' : List ℕ)
      → id ≢ other
      → pages id ≡ some page
      → pages other ≡ some page'
      → entry_index other ≢ entry_index id
  pub no_leak :
      (b : ℕ)
      → b < num_storage_blocks
      → used m b ≡ true
      → (id : ℕ) × (page : List ℕ) × (pages id ≡ some page) × (covers (place id) b ≡ true)
  pub no_stray :
      (id : ℕ)
      → (load_entry m (entry_addr id)).length ≢ 0
      → (other : ℕ) × (page : List ℕ) × (pages other ≡ some page)
        × (entry_index other ≡ entry_index id)

-- A page stays stored while its entry, its blocks and their marks stay as they are.
pub IsKept-ext :
    (crypto : Crypto) (m m' : Mram) (id : ℕ) (page : List ℕ) (p : Place)
    → ((x : ℕ) → entry_addr id ≤ x → x < entry_addr id + 8 → m' x ≡ m x)
    → ((x : ℕ)
        → block_addr p.block ≤ x
        → x < block_addr p.block + num_blocks_of p.len * 64
        → m' x ≡ m x)
    → ((b : ℕ) → b < num_storage_blocks → covers p b ≡ true → used m b ≡ true → used m' b ≡ true)
    → IsKept crypto m id page p
    → IsKept crypto m' id page p
IsKept-ext crypto m m' id page p entry blocks marks k = record {
  id_range = k.id_range;
  whole = k.whole;
  octets = k.octets;
  len_bounds = k.len_bounds;
  in_storage = k.in_storage;
  one_section = k.one_section;
  marked = λ b hb cov. marks b hb cov (k.marked b hb cov);
  indexed = lookup_ext id m' m entry ∙ k.indexed;
  unpacks =
      unpack_page_ext crypto (block_addr p.block) p.len m' m (λ x lo hi.
        blocks x lo (omega (arith, num_blocks_bounds p.len (k.len_bounds.0) (k.len_bounds.1))))
      ∙ k.unpacks;
}

-- What lies below the directory does not matter.
pub Holds-ext :
    (crypto : Crypto) (pages : PageMap) (m m' : Mram)
    → ((x : ℕ) → directory ≤ x → m' x ≡ m x)
    → IsBytes m'
    → Holds crypto pages m
    → Holds crypto pages m'
Holds-ext crypto pages m m' same bytes h = record {
  place = h.place;
  well_formed = IsDirectory-ext m m' (λ x lo hi. same x lo) bytes h.well_formed;
  kept = λ id page e.
      IsKept-ext crypto m m' id page (h.place id)
        (λ x lo hi. same x (omega (arith, entry_addr_bounds id)))
        (λ x lo hi. same x (omega (arith, above ((h.place id).block))))
        (λ b hb cov u. used_ext m m' (λ x lo hi. same x (omega arith)) b hb ∙ u) (h.kept id page e);
  apart = h.apart;
  entries = h.entries;
  no_leak =
      λ b hb u. h.no_leak b hb (sym (used_ext m m' (λ x lo hi. same x (omega arith)) b hb) ∙ u);
  no_stray = λ id nz. h.no_stray id λ z. nz (
      ap (λ e. e.length)
        (load_entry_ext m' m (entry_addr id)
          (λ x lo hi. same x (omega (arith, entry_addr_bounds id))))
      ∙ z);
}
  where
    above : (b : ℕ) → directory ≤ block_addr b
    above b = unfold block_addr in omega arith

module _ (crypto : Crypto) (pages : PageMap) (m : Mram) (h : Holds crypto pages m) where
  -- An identifier whose entry no page has is not found.
  pub unclaimed_free : (id : ℕ) → IsUnclaimed id pages → (load_entry m (entry_addr id)).length ≡ 0
  unclaimed_free id free = elim (ℕ_discrete ((load_entry m (entry_addr id)).length) 0) [
    | yes z ↦ z
    | no nz ↦ let (other, page, live, same) = h.no_stray id nz in cc (free other same, live)
  ]

-- The block of a byte in a page's blocks is covered.
pub covers_byte :
    (p : Place) (x : ℕ)
    → p.block + num_blocks_of p.len ≤ num_storage_blocks
    → block_addr p.block ≤ x
    → x < block_addr p.block + num_blocks_of p.len * 64
    → covers p ((x - storage) / 64) ≡ true
unfolding block_addr
covers_byte p x fits lo hi = ground arith
