-- ===== src/PageMap/Run.antt =====
-- Any sequence of runs on a DPU, with the transfers of the host between them, beside the map that
-- it stands for.
use pim_swap.Base.{
  ℕ, ◌≤◌, ◌≡◌, ◌≢◌, ◌⊎◌, inl, inr, ◌∙◌, sym, true, false, some, List, subst, bit_and,
}
use mathlib.Core.Option.{some-injective}
use pim_swap.Mram.{Mram, IsBytes, mram_read}
use pim_swap.Layout.{page_size, trans_page, directory}
use pim_swap.Page.Directory.{IsSearchable}
use pim_swap.Page.Blank.{blank}
use pim_swap.Program.{
  Crypto, Context, Ran, read_id, page_valid, lzo_compress_main, lzo_decompress_main,
  dpu_invalidate_main,
}
use pim_swap.Program.Pack.{IsCodec}
use pim_swap.Program.Written.{IsRequest}
use pim_swap.Program.Store.{lzo_compress-Stores}
use pim_swap.Program.Below.{decompress_below, compress_not_valid, invalidate_not_valid}
use pim_swap.PageMap.{PageMap, no_pages, put, remove, IsUnclaimed, IsAlias, IsCollision}
use pim_swap.PageMap.Holds.{Holds, Holds-ext, unclaimed_free}
use pim_swap.PageMap.Lookup.{decompress-present, decompress-absent}
use pim_swap.PageMap.Effect.{
  blank-Holds, below, store-Holds, invalidate-Holds, invalidate_collision-Holds,
  invalidate_absent-Holds,
}

-- One step of a DPU, and what it does to the map: the host writes below the directory; a run of
-- lzo_compress_main, of lzo_decompress_main or of dpu_invalidate_main. Pages are stored under
-- identifiers whose index entry no page has, on a searchable directory. An invalidation takes out
-- the page that the index finds, which can be that of another identifier, or none where the entry
-- has another tag, or is free.
pub data Step (crypto : Crypto) (pages : PageMap) (c : Context) : PageMap → Context → Type 0 where
  transfer :
      (c' : Context)
      → IsBytes c'.dpu.mram
      → ((x : ℕ) → directory ≤ x → c'.dpu.mram x ≡ c.dpu.mram x)
      → Step crypto pages c pages c'
  store :
      (id : ℕ) (s : Ran)
      → IsRequest id c
      → IsUnclaimed id pages
      → IsSearchable c.dpu.mram
      → lzo_compress_main crypto c ≡ some s
      → s.succeeded ≡ true
      → Step crypto pages c (put id (mram_read c.dpu.mram trans_page page_size) pages) s.context
  store_fails :
      (id : ℕ) (s : Ran)
      → IsRequest id c
      → IsUnclaimed id pages
      → IsSearchable c.dpu.mram
      → lzo_compress_main crypto c ≡ some s
      → s.succeeded ≡ false
      → Step crypto pages c pages s.context
  store_ignored :
      (s : Ran)
      → bit_and (read_id c.dpu.mram) page_valid ≡ 0
      → lzo_compress_main crypto c ≡ some s
      → Step crypto pages c pages s.context
  load : Step crypto pages c pages (lzo_decompress_main crypto c).context
  invalidate :
      (id other : ℕ) (page : List ℕ)
      → IsRequest id c
      → IsAlias id other
      → pages other ≡ some page
      → Step crypto pages c (remove other pages) (dpu_invalidate_main c).context
  invalidate_collision :
      (id other : ℕ) (page : List ℕ)
      → IsRequest id c
      → IsCollision id other
      → pages other ≡ some page
      → Step crypto pages c pages (dpu_invalidate_main c).context
  invalidate_absent :
      (id : ℕ)
      → IsRequest id c
      → IsUnclaimed id pages
      → Step crypto pages c pages (dpu_invalidate_main c).context
  invalidate_ignored :
      bit_and (read_id c.dpu.mram) page_valid ≡ 0
      → Step crypto pages c pages (dpu_invalidate_main c).context

-- The states that are reached from a DPU whose MRAM is zero, as dpu_alloc leaves it.
pub data Reach (crypto : Crypto) : PageMap → Context → Type 0 where
  start : (c : Context) → c.dpu.mram ≡ blank → Reach crypto no_pages c
  next :
      {pages pages' : PageMap} {c c' : Context}
      → Reach crypto pages c
      → Step crypto pages c pages' c'
      → Reach crypto pages' c'

-- A step takes an MRAM that holds a map to one that holds the map that the step makes of it.
pub Step-Holds :
    (crypto : Crypto)
    → IsCodec crypto
    → {pages : PageMap} {c : Context} {pages' : PageMap} {c' : Context}
    → Step crypto pages c pages' c'
    → Holds crypto pages c.dpu.mram
    → Holds crypto pages' c'.dpu.mram
Step-Holds crypto law {pages} {c = c} (transfer c' bytes same) h =
    Holds-ext crypto pages c.dpu.mram c'.dpu.mram same bytes h
Step-Holds crypto law {pages} {c = c} (store id s q free ready runs ok) h =
    elim (store-Holds crypto law pages c h id s q free ready runs) [
      | inl (failed, h') ↦ cc (ok, failed)
      | inr (done, h') ↦ h'
    ]
Step-Holds crypto law {pages} {c = c} (store_fails id s q free ready runs bad) h =
    elim (store-Holds crypto law pages c h id s q free ready runs) [
      | inl (failed, h') ↦ h'
      | inr (done, h') ↦ cc (bad, done)
    ]
Step-Holds crypto law {pages} {c = c} (store_ignored s off runs) h =
    let (s', runs', failed, bytes_same) = compress_not_valid crypto c off h.well_formed.bytes in
    subst (λ (r : Ran). Holds crypto pages r.context.dpu.mram)
      (some-injective _ _ (sym runs' ∙ runs)) (below crypto law pages c h s'.context bytes_same)
Step-Holds crypto law {pages} {c = c} load h =
    below crypto law pages c h (lzo_decompress_main crypto c).context
      (decompress_below crypto c law h.well_formed.bytes)
Step-Holds crypto law {pages} {c = c} (invalidate id other page q alias live) h =
    invalidate-Holds crypto law pages c h id other page q alias live
Step-Holds crypto law {pages} {c = c} (invalidate_collision id other page q apart live) h =
    invalidate_collision-Holds crypto law pages c h id other page q apart live
Step-Holds crypto law {pages} {c = c} (invalidate_absent id q free) h =
    invalidate_absent-Holds crypto law pages c h id q free
Step-Holds crypto law {pages} {c = c} (invalidate_ignored off) h =
    subst (λ (r : Ran). Holds crypto pages r.context.dpu.mram) (sym (invalidate_not_valid c off)) h

-- For a compressor that keeps its contract, and any sequence of steps from a zeroed MRAM, the MRAM
-- holds exactly the pages of the map that the steps make: the directory is well formed, each page
-- is stored in blocks of its own that are marked and unpacks from them, the index leads to it, and
-- every used block and index entry belongs to a page.
pub Reach-Holds :
    (crypto : Crypto) (pages : PageMap) (c : Context)
    → IsCodec crypto
    → Reach crypto pages c
    → Holds crypto pages c.dpu.mram
Reach-Holds crypto pages c law (start _ zeroed) =
    subst (λ (m : Mram). Holds crypto no_pages m) (sym zeroed) (blank-Holds crypto)
Reach-Holds crypto pages c law (next {pages = before} {c = d} r st) =
    Step-Holds crypto law st (Reach-Holds crypto before d law r)

-- After any sequence of steps from a zeroed MRAM, where the map has a page for the requested
-- identifier, lzo_decompress_main returns 0 and leaves that page in the transfer page.
pub load-Reach :
    (crypto : Crypto) (pages : PageMap) (page : List ℕ) (c : Context)
    → IsCodec crypto
    → Reach crypto pages c
    → c.dpu.wram ≢ 0
    → pages (read_id c.dpu.mram) ≡ some page
    → ((lzo_decompress_main crypto c).succeeded ≡ true)
      × (mram_read (lzo_decompress_main crypto c).context.dpu.mram trans_page page_size ≡ page)
load-Reach crypto pages page c law r hw live =
    decompress-present crypto pages page c (Reach-Holds crypto pages c law r) hw live

-- After any sequence of steps from a zeroed MRAM, where no page of the map has the index entry of
-- the requested identifier, lzo_decompress_main returns -1 and leaves the whole state as it was.
pub miss-Reach :
    (crypto : Crypto) (pages : PageMap) (c : Context)
    → IsCodec crypto
    → Reach crypto pages c
    → IsUnclaimed (read_id c.dpu.mram) pages
    → lzo_decompress_main crypto c ≡ record { context = c; succeeded = false }
miss-Reach crypto pages c law r free =
    decompress-absent crypto pages c (Reach-Holds crypto pages c law r) free

-- After any sequence of steps from a zeroed MRAM, a valid request of an identifier whose index
-- entry no page has, on a searchable directory, is answered as its result says: lzo_compress_main
-- is defined, and it either returns -1 and the MRAM holds the same map, or it returns 0 and the
-- MRAM holds the map with the page of the transfer page.
pub store-Reach :
    (crypto : Crypto) (pages : PageMap) (id : ℕ) (c : Context)
    → IsCodec crypto
    → Reach crypto pages c
    → IsRequest id c
    → IsUnclaimed id pages
    → IsSearchable c.dpu.mram
    → (s : Ran) × (lzo_compress_main crypto c ≡ some s)
      × (((s.succeeded ≡ false) × Holds crypto pages s.context.dpu.mram)
          ⊎ ((s.succeeded ≡ true)
              × Holds crypto
                  (put id (mram_read c.dpu.mram trans_page page_size) pages)
                  s.context.dpu.mram))
store-Reach crypto pages id c law r q free ready =
    let h = Reach-Holds crypto pages c law r in
    let (s, runs, outcome) =
      lzo_compress-Stores crypto id c law q h.well_formed ready
        (unclaimed_free crypto pages c.dpu.mram h id free) in
    (s, runs, store-Holds crypto law pages c h id s q free ready runs)
