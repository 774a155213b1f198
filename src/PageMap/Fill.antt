-- ===== src/PageMap/Fill.antt =====
-- A DPU on which pages are stored and loaded, and none is invalidated.
use pim_swap.Base.{
  ℕ, ◌≤◌, ◌<◌, ◌≡◌, ◌≢◌, ◌⊎◌, inl, inr, ◌∙◌, sym, true, false, some, List, arith, subst, ℕ_discrete,
}
use mathlib.Core.Option.{some-injective}
use pim_swap.Mram.{IsBytes, mram_read}
use pim_swap.Layout.{page_size, trans_page, directory, dir_level1}
use pim_swap.L2.Bitmap.{used}
use pim_swap.Page.Blank.{blank}
use pim_swap.Page.Directory.{IsSearchable}
use pim_swap.Program.{Crypto, Context, Ran, lzo_compress_main, lzo_decompress_main}
use pim_swap.Program.Pack.{IsCodec}
use pim_swap.Program.Written.{IsRequest, Stores, FindsNoSpace}
use pim_swap.Program.Store.{lzo_compress-Stores}
use pim_swap.Program.Full.{first_byte_iff}
use pim_swap.Program.Below.{decompress_below}
use pim_swap.PageMap.{PageMap, no_pages, put, IsUnclaimed}
use pim_swap.PageMap.Holds.{Holds, unclaimed_free}
use pim_swap.PageMap.Run
use pim_swap.PageMap.Run.{Reach, Reach-Holds}
use pim_swap.PageMap.Packed.{
  IsPacked, blank-IsPacked, IsPacked-ext, packed-IsSearchable, Stores-IsPacked,
}

-- The states that are reached from a zeroed MRAM without an invalidation. A store wants the first
-- byte of the level 1 table to have a clear bit.
pub data Fills (crypto : Crypto) : PageMap → Context → Type 0 where
  start : (c : Context) → c.dpu.mram ≡ blank → Fills crypto no_pages c
  transfer :
      {pages : PageMap} {c : Context} (c' : Context)
      → Fills crypto pages c
      → IsBytes c'.dpu.mram
      → ((x : ℕ) → directory ≤ x → c'.dpu.mram x ≡ c.dpu.mram x)
      → Fills crypto pages c'
  store :
      {pages : PageMap} {c : Context} (id : ℕ) (s : Ran)
      → Fills crypto pages c
      → IsRequest id c
      → IsUnclaimed id pages
      → c.dpu.mram dir_level1 ≢ 0xff
      → lzo_compress_main crypto c ≡ some s
      → s.succeeded ≡ true
      → Fills crypto (put id (mram_read c.dpu.mram trans_page page_size) pages) s.context
  store_fails :
      {pages : PageMap} {c : Context} (id : ℕ) (s : Ran)
      → Fills crypto pages c
      → IsRequest id c
      → IsUnclaimed id pages
      → c.dpu.mram dir_level1 ≢ 0xff
      → lzo_compress_main crypto c ≡ some s
      → s.succeeded ≡ false
      → Fills crypto pages s.context
  load :
      {pages : PageMap} {c : Context}
      → Fills crypto pages c
      → Fills crypto pages (lzo_decompress_main crypto c).context

-- A run of lzo_compress_main, stored or not, keeps the sections packed.
compress-IsPacked :
    (crypto : Crypto) (pages : PageMap) (id : ℕ) (c : Context) (s : Ran)
    → IsCodec crypto
    → Holds crypto pages c.dpu.mram
    → IsPacked c.dpu.mram
    → IsRequest id c
    → IsUnclaimed id pages
    → c.dpu.mram dir_level1 ≢ 0xff
    → lzo_compress_main crypto c ≡ some s
    → IsPacked s.context.dpu.mram
compress-IsPacked crypto pages id c s law h packed q free first_open runs =
    let (s', runs', outcome) =
      lzo_compress-Stores crypto id c law q h.well_formed
        (packed-IsSearchable c.dpu.mram packed first_open)
        (unclaimed_free crypto pages c.dpu.mram h id free) in
    subst (λ (r : Ran). IsPacked r.context.dpu.mram) (some-injective _ _ (sym runs' ∙ runs))
      (of_outcome s' outcome)
  where
    page : List ℕ
    page = mram_read c.dpu.mram trans_page page_size

    of_outcome :
        (s' : Ran)
        → FindsNoSpace crypto c page s' ⊎ Stores crypto id page c.dpu.mram s'
        → IsPacked s'.context.dpu.mram
    of_outcome s' (inl full) =
        IsPacked-ext c.dpu.mram s'.context.dpu.mram
          (λ x lo hi. full.unchanged x (inr (omega arith))) packed
    of_outcome s' (inr stored) = Stores-IsPacked crypto id page c.dpu.mram s' packed stored

fills :
    (crypto : Crypto) (pages : PageMap) (c : Context)
    → IsCodec crypto
    → Fills crypto pages c
    → Reach crypto pages c × IsPacked c.dpu.mram
fills crypto pages c law (start _ zeroed) =
    (Run.start c zeroed, subst IsPacked (sym zeroed) blank-IsPacked)
fills crypto pages c law (transfer {c = d} _ f bytes same) =
    let (r, packed) = fills crypto pages d law f in
    (
      Run.next r (Run.transfer c bytes same),
      IsPacked-ext d.dpu.mram c.dpu.mram (λ x lo hi. same x (omega arith)) packed,
    )
fills crypto pages c law (store {pages = old} {c = d} id s f q free first_open runs ok) =
    let (r, packed) = fills crypto old d law f in
    (
      Run.next r (Run.store id s q free (packed-IsSearchable d.dpu.mram packed first_open) runs ok),
      compress-IsPacked crypto old id d s law (Reach-Holds crypto old d law r) packed q free
          first_open runs,
    )
fills crypto pages c law (store_fails {c = d} id s f q free first_open runs bad) =
    let (r, packed) = fills crypto pages d law f in
    (
      Run.next r
          (Run.store_fails id s q free (packed-IsSearchable d.dpu.mram packed first_open) runs bad),
      compress-IsPacked crypto pages id d s law (Reach-Holds crypto pages d law r) packed q free
          first_open runs,
    )
fills crypto pages c law (load {c = d} f) =
    let (r, packed) = fills crypto pages d law f in
    let (bytes, same) =
      decompress_below crypto d law (Reach-Holds crypto pages d law r).well_formed.bytes in
    (
      Run.next r Run.load,
      IsPacked-ext d.dpu.mram (lzo_decompress_main crypto d).context.dpu.mram
          (λ x lo hi. same x (omega arith)) packed,
    )

-- While no page is invalidated, the directory stays searchable until the first eight sections are
-- full. With a compressor that keeps its contract, after any sequence of transfers, loads and stores
-- from a zeroed MRAM, each store a valid request of an identifier whose index entry no page of the
-- map has, with a first level 1 byte that is not 0xFF, the MRAM holds the map, the used blocks of
-- each section come first, and either the directory is searchable or the first 4096 blocks are all
-- used.
pub Fills-IsSearchable :
    (crypto : Crypto) (pages : PageMap) (c : Context)
    → IsCodec crypto
    → Fills crypto pages c
    → Holds crypto pages c.dpu.mram
      × IsPacked c.dpu.mram
      × (IsSearchable c.dpu.mram ⊎ ((b : ℕ) → b < 4096 → used c.dpu.mram b ≡ true))
Fills-IsSearchable crypto pages c law f =
    let (r, packed) = fills crypto pages c law f in
    let h = Reach-Holds crypto pages c law r in
    (
      h,
      packed,
      elim (ℕ_discrete (c.dpu.mram dir_level1) 0xff) [
        | yes e ↦ inr ((first_byte_iff c.dpu.mram h.well_formed).0 e)
        | no ne ↦ inl (packed-IsSearchable c.dpu.mram packed ne)
      ],
    )
