-- ===== src/PageMap/Remove.antt =====
-- dpu_invalidate_main takes a page out of the map.
use pim_swap.Base.{
  ℕ, ◌+◌, ◌≤◌, ◌<◌, ◌≡◌, ◌≢◌, inl, inr, ◌∙◌, sym, ap, true, false, some, List, arith, ℕ_discrete,
  not, ◌&&◌,
}
use pim_swap.Mram.{Mram}
use pim_swap.Layout.{
  hash_table, storage, num_storage_blocks, num_blocks_of, block_addr, hash_addr_from_entry,
}
use pim_swap.Hash.{entry_index, entry_addr, insert_index_hash}
use pim_swap.Hash.Entry.{load_entry}
use pim_swap.Hash.Laws.{
  entry_addr_bounds, load_entry_ext, insert_outside, entries_apart, load_entry-remove,
  IsBytes-insert,
}
use pim_swap.L2.Bitmap.{used}
use pim_swap.Page.Commit.{used_ext}
use pim_swap.Page.Directory.{IsDirectory-ext}
use pim_swap.Page.Freeing.{Frees}
use pim_swap.Program.{Crypto}
use pim_swap.PageMap.{PageMap, remove, remove_self, remove_other}
use pim_swap.PageMap.Holds.{covers, IsKept, IsKept-ext, Holds}

module _ (crypto : Crypto) (pages : PageMap) (m m1 : Mram) (id : ℕ) (page : List ℕ)
    (h : Holds crypto pages m) (present : pages id ≡ some page)
    (freed : Frees ((h.place id).block) (num_blocks_of ((h.place id).len)) m m1) where
  m' : Mram
  m' = insert_index_hash id 0 0 m1

  -- A page of the smaller map is another page of the map.
  others : (i : ℕ) (q : List ℕ) → remove id pages i ≡ some q → (id ≢ i) × (pages i ≡ some q)
  others i q e = (ne, sym (remove_other id i pages ne) ∙ e)
    where
      ne : id ≢ i
      ne same = cc (e, ap (remove id pages) (sym same), remove_self id pages)

  below_table : (x : ℕ) → x < hash_table → m' x ≡ m1 x
  unfolding m'
  below_table x lt = insert_outside id 0 0 m1 x (inl (omega (arith, entry_addr_bounds id)))

  used' : (b : ℕ) → b < num_storage_blocks → used m' b ≡ (not (covers (h.place id) b) && used m b)
  used' b hb = used_ext m1 m' (λ x lo hi. below_table x hi) b hb ∙ freed.marked b hb

  entry_kept :
      (i x : ℕ)
      → entry_index i ≢ entry_index id
      → entry_addr i ≤ x
      → x < entry_addr i + 8
      → m' x ≡ m x
  unfolding m'
  entry_kept i x ne lo hi =
      insert_outside id 0 0 m1 x (entries_apart id i x ne lo hi)
      ∙ freed.outside x (inr (omega (arith, entry_addr_bounds i)))

  storage_kept : (x : ℕ) → storage ≤ x → m' x ≡ m x
  unfolding m'
  storage_kept x lo =
      insert_outside id 0 0 m1 x (inr (omega (arith, entry_addr_bounds id)))
      ∙ freed.outside x (inr (omega arith))

  kept' : (i : ℕ) (q : List ℕ) → remove id pages i ≡ some q → IsKept crypto m' i q (h.place i)
  kept' i q e =
      let (ne, live) = others i q e in
      IsKept-ext crypto m m' i q (h.place i)
        (λ x lo hi. entry_kept i x (h.entries id i page q ne present live) lo hi)
        (λ x lo hi. storage_kept x (omega (arith, above ((h.place i).block))))
        (λ b hb cov u. ground (
          arith,
          used' b hb,
          h.apart i id q page (λ (same : i ≡ id). ne (sym same)) live present b cov,
        ))
        (h.kept i q live)
    where
      above : (b : ℕ) → storage ≤ block_addr b
      above b = unfold block_addr in omega arith

  no_leak' :
      (b : ℕ)
      → b < num_storage_blocks
      → used m' b ≡ true
      → (i : ℕ) × (q : List ℕ) × (remove id pages i ≡ some q) × (covers (h.place i) b ≡ true)
  no_leak' b hb u =
      let old : used m b ≡ true = ground (arith, used' b hb) in
      let gone : covers (h.place id) b ≡ false = ground (arith, used' b hb) in
      let (i, q, live, cov) = h.no_leak b hb old in
      let ne : id ≢ i = λ same. cc (gone, cov, ap (λ (j : ℕ). covers (h.place j) b) same) in
      (i, q, remove_other id i pages ne ∙ live, cov)

  no_stray' :
      (i : ℕ)
      → (load_entry m' (entry_addr i)).length ≢ 0
      → (j : ℕ) × (q : List ℕ) × (remove id pages j ≡ some q) × (entry_index j ≡ entry_index i)
  unfolding m'
  no_stray' i nz = elim (ℕ_discrete (entry_index i) (entry_index id)) [
    | yes e ↦ absurd (nz (at_id e ∙ load_entry-remove id m1))
    | no ne ↦
        let same : (load_entry m' (entry_addr i)).length ≡ (load_entry m (entry_addr i)).length =
          ap (λ e. e.length)
            (load_entry_ext m' m (entry_addr i) (λ x lo hi. entry_kept i x ne lo hi)) in
        let (j, q, live, e) = h.no_stray i (λ z. nz (same ∙ z)) in
        (
          j,
          q,
          remove_other id j pages (λ (s : id ≡ j). ne (sym e ∙ ap entry_index (sym s))) ∙ live,
          e,
        )
  ]
    where
      at_id :
          entry_index i ≡ entry_index id
          → (load_entry m' (entry_addr i)).length ≡ (load_entry m' (entry_addr id)).length
      at_id e =
          ap (λ (a : ℕ). (load_entry m' a).length) (unfold entry_addr in ap hash_addr_from_entry e)

  -- After the blocks were freed and the entry removed the MRAM holds the map without the page.
  pub remove-Holds : Holds crypto (remove id pages) (insert_index_hash id 0 0 m1)
  unfolding m'
  remove-Holds = record {
    place = h.place;
    well_formed =
        IsDirectory-ext m1 m' (λ x lo hi. below_table x hi)
          (IsBytes-insert id 0 0 m1 freed.well_formed.bytes) freed.well_formed;
    kept = kept';
    apart = λ i j q r ne a c b. h.apart i j q r ne ((others i q a).1) ((others j r c).1) b;
    entries = λ i j q r ne a c. h.entries i j q r ne ((others i q a).1) ((others j r c).1);
    no_leak = no_leak';
    no_stray = no_stray';
  }
