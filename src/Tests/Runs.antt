-- ===== src/Tests/Runs.antt =====
-- A run of a DPU: a request arrives, its page is stored, and the identifier is requested again.
use pim_swap.Base.{ℕ, ◌<◌, ◌≡◌, ◌⊎◌, ◌∙◌, true, false, some, refl, ap, arith}
use pim_swap.Mram.{IsBytes, mram_read, IsBytes-mram_write}
use pim_swap.Layout.{trans_page, page_size, id_offset, dir_level1}
use pim_swap.Page.Blank.{blank, blank-IsSearchable}
use pim_swap.Program.{Ran, lzo_compress_main, lzo_decompress_main}
use pim_swap.Program.Word.{word_bytes, word-AreBytes}
use pim_swap.PageMap.{PageMap, no_pages, put, put_self}
use pim_swap.PageMap.Holds.{Holds}
use pim_swap.PageMap.Run.{
  Reach, start, next, transfer, store, Reach-Holds, load-Reach, miss-Reach, store-Reach,
}
use pim_swap.L2.Bitmap.{used}
use pim_swap.Page.Directory.{IsSearchable}
use pim_swap.PageMap.Packed.{IsPacked}
use pim_swap.PageMap.Fill
use pim_swap.PageMap.Fill.{Fills, Fills-IsSearchable}
use pim_swap.Tests.Programs.{
  copier, copier-IsCodec, on_mram, request, request_page, request-IsBytes, request-IsRequest,
  request_outside, request_mram, request-IsBlank, stored, stored_succeeded, later, later_word,
  later_outside,
}

requested : Reach copier no_pages request
requested =
    next (start (on_mram blank) refl)
      (transfer request request-IsBytes (λ x h. request_outside x h))

abbrev one_page : PageMap
one_page = put 5 request_page no_pages

kept : Reach copier one_page stored.0.context
kept = next requested (
    store 5 stored.0 request-IsRequest (λ other e. refl)
      (blank-IsSearchable request_mram request-IsBlank) stored.1
      (stored_succeeded stored.0 stored.2))

asked : Reach copier one_page later
asked =
    next kept (transfer later later-IsBytes (λ x h. later_outside 5 x stored.0.context.dpu.mram h))
  where
    later-IsBytes : IsBytes later.dpu.mram
    later-IsBytes =
        IsBytes-mram_write (word_bytes 5) id_offset stored.0.context.dpu.mram (word-AreBytes 5)
          (Reach-Holds copier one_page stored.0.context copier-IsCodec kept).well_formed.bytes

load-Reach_example :
    ((lzo_decompress_main copier later).succeeded ≡ true)
    × (mram_read (lzo_decompress_main copier later).context.dpu.mram trans_page page_size
        ≡ request_page)
load-Reach_example =
    load-Reach copier one_page request_page later copier-IsCodec asked (omega arith)
      (ap one_page later_word ∙ put_self 5 request_page no_pages)

miss-Reach_example :
    lzo_decompress_main copier request ≡ record { context = request; succeeded = false }
miss-Reach_example = miss-Reach copier no_pages request copier-IsCodec requested (λ other e. refl)

store-Reach_example :
    (s : Ran) × (lzo_compress_main copier request ≡ some s)
    × (((s.succeeded ≡ false) × Holds copier no_pages s.context.dpu.mram)
        ⊎ ((s.succeeded ≡ true)
            × Holds copier
                (put 5 (mram_read request.dpu.mram trans_page page_size) no_pages)
                s.context.dpu.mram))
store-Reach_example =
    store-Reach copier no_pages 5 request copier-IsCodec requested request-IsRequest
      (λ other e. refl) (blank-IsSearchable request_mram request-IsBlank)

Reach-Holds_example : Holds copier one_page later.dpu.mram
Reach-Holds_example = Reach-Holds copier one_page later copier-IsCodec asked

-- The same run without an invalidation.
filled : Fills copier one_page stored.0.context
filled =
    Fill.store 5 stored.0 requested_fill request-IsRequest (λ other e. refl)
      (λ e. absurd (omega (arith, e, request-IsBlank dir_level1 (omega arith) (omega arith))))
      stored.1 (stored_succeeded stored.0 stored.2)
  where
    requested_fill : Fills copier no_pages request
    requested_fill =
        Fill.transfer request (Fill.start (on_mram blank) refl) request-IsBytes
          (λ x h. request_outside x h)

Fills-IsSearchable_example :
    Holds copier one_page stored.0.context.dpu.mram
    × IsPacked stored.0.context.dpu.mram
    × (IsSearchable stored.0.context.dpu.mram
        ⊎ ((b : ℕ) → b < 4096 → used stored.0.context.dpu.mram b ≡ true))
Fills-IsSearchable_example =
    Fills-IsSearchable copier one_page stored.0.context copier-IsCodec filled
