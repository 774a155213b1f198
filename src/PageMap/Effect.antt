-- ===== src/PageMap/Effect.antt =====
-- What the programs of a DPU do to an MRAM that holds a map, and the MRAM that dpu_alloc leaves.
use pim_swap.Base.{
  ℕ, ◌<◌, ◌≡◌, ◌≢◌, ◌⊎◌, inl, inr, ◌∙◌, refl, sym, ap, true, false, some, List, arith, subst,
}
use mathlib.Core.Option.{some-injective}
use pim_swap.Mram.{Mram, mram_read, length-mram_read, AreBytes-mram_read}
use pim_swap.Layout.{page_size, trans_page, num_storage_blocks}
use pim_swap.Layout.Blocks.{num_blocks_bounds}
use pim_swap.Hash.{insert_index_hash}
use pim_swap.Hash.Laws.{lookup_free, lookup_same, remove_same, lookup_collision}
use pim_swap.Page.{free_page_static}
use pim_swap.Page.Directory.{IsSearchable}
use pim_swap.Page.Freeing.{free_page-Frees}
use pim_swap.Page.Blank.{
  blank, blank-IsBytes, blank-IsBlank, blank-IsDirectory, free_of_blank, free_entry,
}
use pim_swap.Program.{Crypto, Context, Ran, with_mram, lzo_compress_main, dpu_invalidate_main}
use pim_swap.Program.Pack.{IsCodec}
use pim_swap.Program.Written.{IsRequest, Stores, FindsNoSpace}
use pim_swap.Program.Store.{lzo_compress-Stores}
use pim_swap.Program.Load.{invalidate_found}
use pim_swap.Program.Below.{OnlyBelow, invalidate_missing}
use pim_swap.PageMap.{PageMap, no_pages, put, remove, IsUnclaimed, IsAlias, IsCollision}
use pim_swap.PageMap.Holds.{Holds, Holds-ext, unclaimed_free}
use pim_swap.PageMap.Insert.{put-Holds}
use pim_swap.PageMap.Remove.{remove-Holds}

-- A zeroed MRAM holds the map with no page.
pub blank-Holds : (crypto : Crypto) → Holds crypto no_pages blank
blank-Holds crypto = record {
  place = λ i. record { block = 0; len = 0 };
  well_formed = blank-IsDirectory blank blank-IsBlank blank-IsBytes;
  kept = λ id page e. cc e;
  apart = λ id other page page' ne e. cc e;
  entries = λ id other page page' ne e. cc e;
  no_leak = λ b hb u. cc (u, free_of_blank blank blank-IsBlank b hb);
  no_stray = λ id nz. absurd (nz (free_entry id blank (λ x lo hi. refl)));
}

module _ (crypto : Crypto) (law : IsCodec crypto) (pages : PageMap) (c : Context)
    (h : Holds crypto pages c.dpu.mram) where
  -- What changes below the directory alone leaves the map.
  pub below : (c' : Context) → OnlyBelow c.dpu.mram c'.dpu.mram → Holds crypto pages c'.dpu.mram
  below c' (bytes, same) = Holds-ext crypto pages c.dpu.mram c'.dpu.mram same bytes h

  -- Whether a run on a valid request stores the page or not, it is as its result says.
  pub store-Holds :
      (id : ℕ) (s : Ran)
      → IsRequest id c
      → IsUnclaimed id pages
      → IsSearchable c.dpu.mram
      → lzo_compress_main crypto c ≡ some s
      → ((s.succeeded ≡ false) × Holds crypto pages s.context.dpu.mram)
        ⊎ ((s.succeeded ≡ true)
            × Holds crypto
                (put id (mram_read c.dpu.mram trans_page page_size) pages)
                s.context.dpu.mram)
  store-Holds id s q free ready runs =
      let (s', runs', outcome) =
        lzo_compress-Stores crypto id c law q h.well_formed ready
          (unclaimed_free crypto pages c.dpu.mram h id free) in
      of_outcome s' (some-injective _ _ (sym runs' ∙ runs)) outcome
    where
      page : List ℕ
      page = mram_read c.dpu.mram trans_page page_size

      of_outcome :
          (s' : Ran)
          → s' ≡ s
          → FindsNoSpace crypto c page s' ⊎ Stores crypto id page c.dpu.mram s'
          → ((s.succeeded ≡ false) × Holds crypto pages s.context.dpu.mram)
            ⊎ ((s.succeeded ≡ true)
                × Holds crypto
                    (put id (mram_read c.dpu.mram trans_page page_size) pages)
                    s.context.dpu.mram)
      of_outcome s' e (inl full) = inl (
        sym (ap (λ (r : Ran). r.succeeded) e) ∙ full.failed,
        subst (λ (r : Ran). Holds crypto pages r.context.dpu.mram) e
            (below s'.context (full.octets, λ x lo. full.unchanged x (inr (omega arith)))),
      )
      of_outcome s' e (inr stored) = inr (
        sym (ap (λ (r : Ran). r.succeeded) e) ∙ stored.succeeded,
        subst (λ (r : Ran). Holds crypto (put id page pages) r.context.dpu.mram) e
            (put-Holds crypto pages c.dpu.mram id page s' h free stored q.id_range
              (length-mram_read c.dpu.mram trans_page page_size)
              (AreBytes-mram_read c.dpu.mram trans_page page_size h.well_formed.bytes)),
      )

  -- Such a run is defined.
  pub store_run :
      (id : ℕ)
      → IsRequest id c
      → IsUnclaimed id pages
      → IsSearchable c.dpu.mram
      → (s : Ran) × (lzo_compress_main crypto c ≡ some s)
        × ((FindsNoSpace crypto c (mram_read c.dpu.mram trans_page page_size) s
              × Holds crypto pages s.context.dpu.mram)
            ⊎ Holds crypto
                (put id (mram_read c.dpu.mram trans_page page_size) pages)
                s.context.dpu.mram)
  store_run id q free ready =
      let (s, runs, outcome) =
        lzo_compress-Stores crypto id c law q h.well_formed ready
          (unclaimed_free crypto pages c.dpu.mram h id free) in
      let kept = store-Holds id s q free ready runs in
      (
        s,
        runs,
        elim outcome [
          | inl full ↦
              inl
                (full, below s.context (full.octets, λ x lo. full.unchanged x (inr (omega arith))))
          | inr stored ↦ elim kept [
            | inl (failed, same) ↦ cc (failed, stored.succeeded)
            | inr (done, held) ↦ inr held
          ]
        ],
      )

  -- An invalidation takes out the page that the index finds for the identifier.
  pub invalidate-Holds :
      (id other : ℕ) (page : List ℕ)
      → IsRequest id c
      → IsAlias id other
      → pages other ≡ some page
      → Holds crypto (remove other pages) (dpu_invalidate_main c).context.dpu.mram
  unfolding with_mram
  invalidate-Holds id other page q (same_entry, same_tag) live =
      let k = h.kept other page live in
      let p = h.place other in
      let lp = k.len_bounds.0 in
      let lq = k.len_bounds.1 in
      let sec = k.one_section in
      let some_blocks = num_blocks_bounds p.len lp lq in
      let fits = k.in_storage in
      let hb : p.block < num_storage_blocks = omega arith in
      let found = sym (lookup_same id other c.dpu.mram same_entry same_tag) ∙ k.indexed in
      let m1 = (free_page_static id c.dpu.mram c.stats).0 in
      let freed =
        free_page-Frees id p.block p.len c.dpu.mram c.stats h.well_formed hb lp lq sec found in
      let final : (dpu_invalidate_main c).context.dpu.mram ≡ insert_index_hash other 0 0 m1 =
        ap (λ (r : Ran). r.context.dpu.mram)
          (invalidate_found id p.block p.len c q h.well_formed hb lp lq sec found)
        ∙ sym (remove_same id other m1 same_entry same_tag) in
      subst (λ (m : Mram). Holds crypto (remove other pages) m) (sym final)
        (remove-Holds crypto pages c.dpu.mram m1 other page h live (freed.0))

  -- An invalidation of an identifier whose entry has another tag does nothing.
  pub invalidate_collision-Holds :
      (id other : ℕ) (page : List ℕ)
      → IsRequest id c
      → IsCollision id other
      → pages other ≡ some page
      → Holds crypto pages (dpu_invalidate_main c).context.dpu.mram
  invalidate_collision-Holds id other page q (same_entry, differs) live =
      let k = h.kept other page live in
      let some_bytes : (h.place other).len ≢ 0 = λ e. omega (arith, e, k.len_bounds.0) in
      subst (λ (d : Context). Holds crypto pages d.dpu.mram)
        (sym (
          invalidate_missing id c q
            (lookup_collision id other _ _ c.dpu.mram same_entry differs k.indexed some_bytes)))
        h

  -- An invalidation of an identifier whose entry is free does nothing.
  pub invalidate_absent-Holds :
      (id : ℕ)
      → IsRequest id c
      → IsUnclaimed id pages
      → Holds crypto pages (dpu_invalidate_main c).context.dpu.mram
  invalidate_absent-Holds id q free =
      subst (λ (d : Context). Holds crypto pages d.dpu.mram)
        (sym (
          invalidate_missing id c q
            (lookup_free id c.dpu.mram (unclaimed_free crypto pages c.dpu.mram h id free))))
        h
