-- ===== src/Hash/Laws.antt =====
-- What the hash index returns after an insertion, and which identifiers it cannot tell apart.
use pim_swap.Base.{
  ℕ, ◌+◌, ◌%◌, ◌≤◌, ◌<◌, ◌≡◌, ◌≢◌, ◌⊎◌, inl, inr, ◌∙◌, refl, sym, ap, arith, ◌==◌, ◌&&◌, not,
  if◌then◌else◌, Bool-cases, and_mask, u16,
}
use pim_swap.Mram.{Mram, IsBytes, mram_write, IsBytes-mram_write, mram_write_outside, mram_read_ext}
use pim_swap.Layout.{
  num_storage_blocks, num_hash_entries, hash_table, storage, block_addr, hash_addr_from_entry,
}
use pim_swap.Hash.Entry.{
  HashEntry, entry_bytes, load_entry, Fits, load_entry-store, AreBytes-entry_bytes,
}
use pim_swap.Hash.{tag_from_id, entry_index, entry_addr, insert_index_hash, lookup_index_hash}

pub tag_mod : (id : ℕ) → tag_from_id id ≡ id % 65536
unfolding tag_from_id
tag_mod id = and_mask 16 id

-- The entry of an identifier lies in the hash table, inside the directory.
pub entry_addr_bounds : (id : ℕ) → (hash_table ≤ entry_addr id) × (entry_addr id + 8 ≤ storage)
unfolding entry_addr entry_index
entry_addr_bounds id = omega arith

-- The structure that an insertion stores.
abbrev pub new_entry : ℕ → ℕ → ℕ → HashEntry
new_entry id block len = record { block = block; tag = tag_from_id id; length = u16 len }

-- An insertion writes, unless it stores a page over an entry that is in use.
pub insert_writes :
    (id block len : ℕ) (m : Mram)
    → (block ≡ 0) ⊎ ((len ≡ 0) ⊎ ((load_entry m (entry_addr id)).length ≡ 0))
    → insert_index_hash id block len m
      ≡ mram_write (entry_bytes (new_entry id block len)) (entry_addr id) m
unfolding insert_index_hash
insert_writes id block len m h = ground arith

insert_keeps :
    (id block len : ℕ) (m : Mram)
    → block ≢ 0
    → len ≢ 0
    → (load_entry m (entry_addr id)).length ≢ 0
    → insert_index_hash id block len m ≡ m
unfolding insert_index_hash
insert_keeps id block len m hb hl he = ground arith

lookup_entry :
    (id : ℕ) (m : Mram) (e : HashEntry)
    → load_entry m (entry_addr id) ≡ e
    → lookup_index_hash id m ≡ (
        if not (e.length == 0) && e.tag == tag_from_id id
        then (block_addr e.block, e.length)
        else (0, 0))
unfolding lookup_index_hash
lookup_entry id m e h = rw h

new_entry-Fits : (id block len : ℕ) → block < num_storage_blocks → Fits (new_entry id block len)
new_entry-Fits id block len h = omega (arith, tag_mod id)

-- If the identifier's entry is free, or the block is block 0, a lookup after the insertion of a
-- storage block with a length of 1 to 65535 bytes returns the address of the block and the length.
pub lookup-insert :
    (id block len : ℕ) (m : Mram)
    → block < num_storage_blocks
    → 0 < len
    → len < 65536
    → (block ≡ 0) ⊎ ((load_entry m (entry_addr id)).length ≡ 0)
    → lookup_index_hash id (insert_index_hash id block len m) ≡ (block_addr block, len)
lookup-insert id block len m hb hl h16 free =
    lookup_entry id (insert_index_hash id block len m) (new_entry id block len) (
      ap (λ (k : Mram). load_entry k (entry_addr id)) (insert_writes id block len m (widen free))
      ∙ load_entry-store (new_entry id block len) (entry_addr id) m
          (new_entry-Fits id block len hb))
    ∙ ground arith
  where
    widen :
        (block ≡ 0) ⊎ ((load_entry m (entry_addr id)).length ≡ 0)
        → (block ≡ 0) ⊎ ((len ≡ 0) ⊎ ((load_entry m (entry_addr id)).length ≡ 0))
    widen (inl z) = inl z
    widen (inr z) = inr (inr z)

-- After the removal that dpu_invalidate_main makes, the identifier is not found.
pub lookup-remove : (id : ℕ) (m : Mram) → lookup_index_hash id (insert_index_hash id 0 0 m) ≡ (0, 0)
lookup-remove id m =
    lookup_entry id (insert_index_hash id 0 0 m) (new_entry id 0 0) (
      ap (λ (k : Mram). load_entry k (entry_addr id)) (insert_writes id 0 0 m (inl refl))
      ∙ load_entry-store (new_entry id 0 0) (entry_addr id) m (new_entry-Fits id 0 0 (omega arith)))
    ∙ ground arith

-- After the removal the entry is free.
pub load_entry-remove :
    (id : ℕ) (m : Mram) → (load_entry (insert_index_hash id 0 0 m) (entry_addr id)).length ≡ 0
load_entry-remove id m =
    ap (λ (k : Mram). (load_entry k (entry_addr id)).length) (insert_writes id 0 0 m (inl refl))
    ∙ ap (λ (e : HashEntry). e.length)
        (load_entry-store (new_entry id 0 0) (entry_addr id) m
          (new_entry-Fits id 0 0 (omega arith)))

-- A free entry is not found.
pub lookup_free :
    (id : ℕ) (m : Mram)
    → (load_entry m (entry_addr id)).length ≡ 0
    → lookup_index_hash id m ≡ (0, 0)
unfolding lookup_index_hash
lookup_free id m h = ground arith

-- An entry that gives a length is in use.
pub lookup_in_use :
    (id address len : ℕ) (m : Mram)
    → lookup_index_hash id m ≡ (address, len)
    → len ≢ 0
    → (load_entry m (entry_addr id)).length ≢ 0
lookup_in_use id address len m found nz free =
    nz (ap (λ (p : ℕ × ℕ). p.1) (sym found ∙ lookup_free id m free))

-- Two identifiers with different entries have entries apart.
pub entries_apart :
    (id other x : ℕ)
    → entry_index other ≢ entry_index id
    → entry_addr other ≤ x
    → x < entry_addr other + 8
    → (x < entry_addr id) ⊎ (entry_addr id + 8 ≤ x)
unfolding entry_addr
entries_apart id other x ne lo hi = omega arith

pub insert_outside :
    (id block len : ℕ) (m : Mram) (x : ℕ)
    → (x < entry_addr id) ⊎ (entry_addr id + 8 ≤ x)
    → insert_index_hash id block len m x ≡ m x
unfolding insert_index_hash entry_bytes
insert_outside id block len m x h =
    elim (Bool-cases
      (not (block == 0) && (not (len == 0) && not ((load_entry m (entry_addr id)).length == 0)))) [
        | inl keep ↦ rw keep
        | inr write ↦ rw write (mram_write_outside _ (entry_addr id) m x h)
      ]

pub IsBytes-insert :
    (id block len : ℕ) (m : Mram) → IsBytes m → IsBytes (insert_index_hash id block len m)
unfolding insert_index_hash
IsBytes-insert id block len m h =
    elim (Bool-cases
      (not (block == 0) && (not (len == 0) && not ((load_entry m (entry_addr id)).length == 0)))) [
        | inl keep ↦ rw keep h
        | inr write ↦ rw write (
            IsBytes-mram_write (entry_bytes (new_entry id block len)) (entry_addr id) m
              (AreBytes-entry_bytes (new_entry id block len)) h)
      ]

pub load_entry_ext :
    (m m' : Mram) (addr : ℕ)
    → ((x : ℕ) → addr ≤ x → x < addr + 8 → m x ≡ m' x)
    → load_entry m addr ≡ load_entry m' addr
unfolding load_entry
load_entry_ext m m' addr h = rw (mram_read_ext m m' addr 8 h)

-- A lookup depends on the eight bytes of the identifier's entry alone.
pub lookup_ext :
    (id : ℕ) (m m' : Mram)
    → ((x : ℕ) → entry_addr id ≤ x → x < entry_addr id + 8 → m x ≡ m' x)
    → lookup_index_hash id m ≡ lookup_index_hash id m'
lookup_ext id m m' h =
    lookup_entry id m (load_entry m' (entry_addr id)) (load_entry_ext m m' (entry_addr id) h)
    ∙ sym (lookup_entry id m' (load_entry m' (entry_addr id)) refl)

-- An insertion or removal leaves the lookup of every identifier with another entry as it was.
pub lookup-insert_other :
    (id other block len : ℕ) (m : Mram)
    → entry_index other ≢ entry_index id
    → lookup_index_hash other (insert_index_hash id block len m) ≡ lookup_index_hash other m
lookup-insert_other id other block len m ne =
    lookup_ext other _ m
      λ x lo hi. insert_outside id block len m x (entries_apart id other x ne lo hi)

-- The first page keeps its index entry until it is removed. Where the entry of an identifier is free
-- and a page of 1 to 65535 bytes at a storage block is inserted, a later insertion of a page with a
-- length other than 0 at a block other than 0, under an identifier with the same entry, does not
-- take effect: a lookup of the first identifier returns the first block and length. The second page
-- is found, instead of the first, where the first was removed in between.
pub lookup-insert_twice :
    (id again block block' len len' : ℕ) (m : Mram)
    → block < num_storage_blocks
    → 0 < len
    → len < 65536
    → block' ≢ 0
    → block' < num_storage_blocks
    → 0 < len'
    → len' < 65536
    → entry_index again ≡ entry_index id
    → (load_entry m (entry_addr id)).length ≡ 0
    → let first = insert_index_hash id block len m in
      (lookup_index_hash id (insert_index_hash again block' len' first) ≡ (block_addr block, len))
      × (lookup_index_hash again
            (insert_index_hash again block' len' (insert_index_hash id 0 0 first))
          ≡ (block_addr block', len'))
lookup-insert_twice id again block block' len len' m hb hl h16 nz hb' hl' h16' same free =
    let found = lookup-insert id block len m hb hl h16 (inr free) in
    let first = insert_index_hash id block len m in
    let in_use : (load_entry first (entry_addr again)).length ≢ 0 = λ e.
      lookup_in_use id (block_addr block) len first found (omega arith)
        (ap (λ (a : ℕ). (load_entry first a).length) (sym same_addr) ∙ e) in
    (
      ap (lookup_index_hash id) (insert_keeps again block' len' first nz (omega arith) in_use)
          ∙ found,
      lookup-insert again block' len' (insert_index_hash id 0 0 first) hb' hl' h16' (
          inr (
            ap (λ (a : ℕ). (load_entry (insert_index_hash id 0 0 first) a).length) same_addr
            ∙ load_entry-remove id first)),
    )
  where
    same_addr : entry_addr again ≡ entry_addr id
    same_addr = unfold entry_addr in ap hash_addr_from_entry same

-- Identifiers with the same entry and the same tag have the same lookup.
pub lookup_same :
    (id other : ℕ) (m : Mram)
    → entry_index other ≡ entry_index id
    → tag_from_id other ≡ tag_from_id id
    → lookup_index_hash other m ≡ lookup_index_hash id m
unfolding lookup_index_hash entry_addr
lookup_same id other m same_entry same_tag = rw (same_entry, same_tag) refl

-- Their removals are the same.
pub remove_same :
    (id other : ℕ) (m : Mram)
    → entry_index other ≡ entry_index id
    → tag_from_id other ≡ tag_from_id id
    → insert_index_hash other 0 0 m ≡ insert_index_hash id 0 0 m
unfolding insert_index_hash entry_addr
remove_same id other m same_entry same_tag = rw (same_entry, same_tag) refl

-- An entry that gives a length for one identifier gives nothing for one with another tag.
pub lookup_collision :
    (id other address len : ℕ) (m : Mram)
    → entry_index other ≡ entry_index id
    → tag_from_id other ≢ tag_from_id id
    → lookup_index_hash other m ≡ (address, len)
    → len ≢ 0
    → lookup_index_hash id m ≡ (0, 0)
unfolding lookup_index_hash entry_addr
lookup_collision id other address len m same_entry differs found nz =
    ground (arith, same_entry, differs, found, nz)

-- The index cannot tell apart two identifiers that differ by 65536 and are both below the number
-- of entries: entry_index is a uint16_t, and the tag is the low 16 bits as well. In every memory
-- the two lookups return the same address and length.
pub lookup_alias :
    (id : ℕ) (m : Mram)
    → id + 65536 < num_hash_entries
    → lookup_index_hash (id + 65536) m ≡ lookup_index_hash id m
lookup_alias id m h = lookup_same id (id + 65536) m same_entry same_tag
  where
    same_entry : entry_index (id + 65536) ≡ entry_index id
    same_entry = unfold entry_index in omega arith

    same_tag : tag_from_id (id + 65536) ≡ tag_from_id id
    same_tag = omega (arith, tag_mod (id + 65536), tag_mod id)

-- Insertions into two memories that agree on the hash table agree on it afterwards.
pub insert_ext :
    (id block len : ℕ) (m m' : Mram)
    → ((x : ℕ) → hash_table ≤ x → x < storage → m' x ≡ m x)
    → (x : ℕ) → hash_table ≤ x
    → x < storage
    → insert_index_hash id block len m' x ≡ insert_index_hash id block len m x
unfolding insert_index_hash mram_write
insert_ext id block len m m' h x lo hi = ground (
  arith,
  load_entry_ext m' m (entry_addr id)
      (λ y a b. h y (omega (arith, entry_addr_bounds id)) (omega (arith, entry_addr_bounds id))),
  h x,
)
