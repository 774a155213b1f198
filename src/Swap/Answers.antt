-- ===== src/Swap/Answers.antt =====
-- What the frontswap operations of module/swap.c answer, in any state that is reached.
use pim_swap.Base.{ℕ, ◌≡◌, ◌≢◌, ◌⊎◌, inl, inr, ◌∙◌, ap, refl, some, false, List, subst}
use pim_swap.Mram.{mram_read}
use pim_swap.Layout.{page_size, trans_page}
use pim_swap.Page.Directory.{IsSearchable}
use pim_swap.Program.{Crypto}
use pim_swap.Program.Pack.{IsCodec}
use pim_swap.PageMap.{put, remove, IsUnclaimed, put_self}
use pim_swap.Swap.{
  Places, Swap, done, id_from_offset, frontswap_store_old, frontswap_load,
  frontswap_invalidate_page,
}
use pim_swap.Swap.System.{IsPlaced, IsSystem, View, IsFull}
use pim_swap.Swap.Store.{buffered_view, stored_over}
use pim_swap.Swap.Load.{cached_view, loaded_from_dpu}
use pim_swap.Swap.Drop.{with_pages, dropped_from_dpu}
use pim_swap.Swap.Run.{IsFirst, IsPage, SwapReach, SwapReach-IsSystem}

-- With a compressor that keeps its contract and buffers that do not overlap, after any sequence of
-- operations from init_pim_swap on (SwapReach), a load of a page that DPU 0 holds, at an offset of
-- rank 0 and DPU 0 whose identifier the in buffer does not have, is defined, returns 0 and delivers
-- the bytes of that page; the new state stands for the same view with this page in the in buffer.
pub load-SwapReach :
    (crypto : Crypto) (places : Places) (offset : ℕ) (page : List ℕ) (v : View) (s : Swap)
    → IsCodec crypto
    → IsPlaced places
    → SwapReach crypto places v s
    → IsFirst offset
    → v.cached_id ≢ id_from_offset offset
    → v.pages (id_from_offset offset) ≡ some page
    → (s' : Swap) × (frontswap_load crypto places offset s ≡ some (done, some page, s'))
      × IsSystem crypto places (cached_view (id_from_offset offset) page v) s'
load-SwapReach crypto places offset page v s law placed r (r0, d0) ne live =
    let sys = SwapReach-IsSystem crypto places v s law placed r in
    let (mc', runs, (got, sys')) =
      loaded_from_dpu crypto places offset r0 d0 v s sys law placed ne in
    let s' = record s { machine = mc' } in
    let same = got.present page live in
    (
      s',
      runs ∙ ap (λ (l : List ℕ). some (done, some l, s')) same,
      subst (λ (l : List ℕ). IsSystem crypto places (cached_view (id_from_offset offset) l v) s')
          same sys',
    )

-- With a compressor that keeps its contract and buffers that do not overlap, after any sequence of
-- operations from init_pim_swap on (SwapReach), a load at an offset of rank 0 and DPU 0 whose
-- identifier the in buffer does not have and whose index entry no page of DPU 0 has, returns 0 all
-- the same, and delivers the bytes that stood in the transfer page of DPU 0.
pub load_missing-SwapReach :
    (crypto : Crypto) (places : Places) (offset : ℕ) (v : View) (s : Swap)
    → IsCodec crypto
    → IsPlaced places
    → SwapReach crypto places v s
    → IsFirst offset
    → v.cached_id ≢ id_from_offset offset
    → IsUnclaimed (id_from_offset offset) v.pages
    → (s' : Swap) × (frontswap_load crypto places offset s
        ≡ some (done, some (mram_read (s.machine.dpus 0).mram trans_page page_size), s'))
load_missing-SwapReach crypto places offset v s law placed r (r0, d0) ne free =
    let sys = SwapReach-IsSystem crypto places v s law placed r in
    let (mc', runs, (got, sys')) =
      loaded_from_dpu crypto places offset r0 d0 v s sys law placed ne in
    let s' = record s { machine = mc' } in
    (s', runs ∙ ap (λ (l : List ℕ). some (done, some l, s')) (got.absent free))

-- With a compressor that keeps its contract and buffers that do not overlap, after any sequence of
-- operations from init_pim_swap on (SwapReach), the page that waits reaches DPU 0 with the next
-- store: where the index entry of its identifier is free, and DPU 0 can be searched and has room, a
-- store of any page at any offset of rank 0 and DPU 0 is defined and returns 0, and then a load of
-- the page that waited, if the in buffer does not have its identifier, returns 0 and delivers its
-- bytes.
pub load-store_old :
    (crypto : Crypto) (places : Places) (offset later : ℕ) (old page : List ℕ) (v : View) (s : Swap)
    → IsCodec crypto
    → IsPlaced places
    → SwapReach crypto places v s
    → IsFirst offset
    → IsFirst later
    → IsPage page
    → v.waiting ≡ some (id_from_offset offset, old)
    → v.cached_id ≢ id_from_offset offset
    → IsUnclaimed (id_from_offset offset) v.pages
    → IsSearchable (s.machine.dpus 0).mram
    → (IsFull crypto old (s.machine.dpus 0).mram → ⊥)
    → (s1 : Swap) × (s2 : Swap) × (frontswap_store_old crypto places false later page s
        ≡ some (done, s1))
      × (frontswap_load crypto places offset s1 ≡ some (done, some old, s2))
load-store_old crypto places offset later old page v s law placed r (r0, d0) (r0', d0')
      (size, octets) w ne free ready room =
    let sys = SwapReach-IsSystem crypto places v s law placed r in
    let (s1, runs, outcome) =
      stored_over crypto law places placed later page r0' d0' size octets v (id_from_offset offset)
        old s sys w free ready in
    elim outcome [
      | inr (full, _) ↦ absurd (room full)
      | inl sys1 ↦
          let v1 =
            buffered_view (id_from_offset later) page (put (id_from_offset offset) old v.pages) v in
          let (mc', loads, (got, _)) =
            loaded_from_dpu crypto places offset r0 d0 v1 s1 sys1 law placed ne in
          let s2 = record s1 { machine = mc' } in
          (
            s1,
            s2,
            runs,
            loads
                ∙ ap (λ (l : List ℕ). some (done, some l, s2))
                    (got.present old (put_self (id_from_offset offset) old v.pages)),
          )
    ]

-- With a compressor that keeps its contract and buffers that do not overlap, after any sequence of
-- operations from init_pim_swap on (SwapReach), a store of a whole page, at an offset of rank 0 and
-- DPU 0, over a page that waits is always defined and returns 0, where the index entry of that
-- page's identifier is free and DPU 0 can be searched; the page that waited is then stored on DPU
-- 0, or no section of DPU 0 had room for it and it is gone without an error: the map is as it was,
-- and the new page waits.
pub store_old-SwapReach :
    (crypto : Crypto) (places : Places) (offset id : ℕ) (page old : List ℕ) (v : View) (s : Swap)
    → IsCodec crypto
    → IsPlaced places
    → SwapReach crypto places v s
    → IsFirst offset
    → IsPage page
    → v.waiting ≡ some (id, old)
    → IsUnclaimed id v.pages
    → IsSearchable (s.machine.dpus 0).mram
    → (s' : Swap) × (frontswap_store_old crypto places false offset page s ≡ some (done, s'))
      × (IsSystem crypto places
            (buffered_view (id_from_offset offset) page (put id old v.pages) v)
            s'
          ⊎ (IsFull crypto old (s.machine.dpus 0).mram
              × IsSystem crypto places (buffered_view (id_from_offset offset) page v.pages v) s'))
store_old-SwapReach crypto places offset id page old v s law placed r (r0, d0) (size, octets) w free
      ready =
    stored_over crypto law places placed offset page r0 d0 size octets v id old s
      (SwapReach-IsSystem crypto places v s law placed r) w free ready

-- With a compressor that keeps its contract and buffers that do not overlap, after any sequence of
-- operations from init_pim_swap on (SwapReach), an invalidation of a page that DPU 0 holds and that
-- does not wait in the out buffer, at an offset of rank 0 and DPU 0, is defined; the new state
-- stands for the view without exactly this page, and with the same waiting page and the same in
-- buffer.
pub invalidate_page-SwapReach :
    (crypto : Crypto) (places : Places) (offset : ℕ) (page : List ℕ) (v : View) (s : Swap)
    → IsCodec crypto
    → IsPlaced places
    → SwapReach crypto places v s
    → IsFirst offset
    → ((waits : List ℕ) → v.waiting ≢ some (id_from_offset offset, waits))
    → v.pages (id_from_offset offset) ≡ some page
    → (s' : Swap) × (frontswap_invalidate_page crypto places offset s ≡ some s')
      × IsSystem crypto places (with_pages (remove (id_from_offset offset) v.pages) v) s'
invalidate_page-SwapReach crypto places offset page v s law placed r (r0, d0) ne live =
    dropped_from_dpu crypto places offset d0 v s (SwapReach-IsSystem crypto places v s law placed r)
      placed ne law (id_from_offset offset) page (refl, refl) live
