-- ===== src/Swap/Run.antt =====
-- Any sequence of frontswap operations of module/swap.c after init_pim_swap, beside the view that
-- the state stands for.
use pim_swap.Base.{
  ℕ, ◌≡◌, ◌≢◌, inl, inr, ◌∙◌, sym, ap, Option, some, none, false, List, length, subst,
}
use mathlib.Core.Option.{some-injective}
use pim_swap.Mram.{AreBytes}
use pim_swap.Layout.{page_size}
use pim_swap.Page.Directory.{IsSearchable}
use pim_swap.Program.{Crypto}
use pim_swap.Program.Pack.{IsCodec}
use pim_swap.PageMap.{put, remove, IsUnclaimed, IsAlias, IsCollision}
use pim_swap.Host.{KernelMemory}
use pim_swap.Host.Allocate.{HasMemory}
use pim_swap.Swap.{
  Places, Swap, Code, done, dpu_index_from_offset, id_from_offset, rank_index_from_offset,
  frontswap_store_old, frontswap_load, frontswap_invalidate_page,
}
use pim_swap.Swap.System.{IsPlaced, IsSystem, View, IsFull}
use pim_swap.Swap.Store.{buffered_view, stored_first, stored_over}
use pim_swap.Swap.Load.{cached_view, loaded_again, loaded_from_dpu}
use pim_swap.Swap.Drop.{
  emptied_view, with_pages, dropped_waiting, dropped_from_dpu, dropped_collision, dropped_nothing,
}
use pim_swap.Swap.Start.{init_pim_swap, started, IsStatic, first_view, start-IsSystem}

-- The page at this offset belongs to rank 0 and DPU 0.
abbrev pub IsFirst : ℕ → Type 0
IsFirst offset = (rank_index_from_offset offset ≡ 0) × (dpu_index_from_offset offset ≡ 0)

-- A whole page of bytes.
abbrev pub IsPage : List ℕ → Type 0
IsPage page = (length page ≡ page_size) × AreBytes page

-- One call of an operation, and what it does to the view. A page is stored into the empty slot, or
-- over one whose page DPU 0 can be tried with and has room for; a page is loaded from the in
-- buffer, or from DPU 0 whether it is there or not; a page is invalidated in the out buffer, or on
-- DPU 0. There the page goes that the index finds, which can be that of another identifier with the
-- same entry and tag, or none where the entry has another tag, or is free.
pub data SwapStep (crypto : Crypto) (places : Places) (v : View) (s : Swap)
    : View → Swap → Type 0 where
  store :
      (offset : ℕ) (page : List ℕ) (s' : Swap)
      → IsFirst offset
      → IsPage page
      → v.waiting ≡ none
      → frontswap_store_old crypto places false offset page s ≡ some (done, s')
      → SwapStep crypto places v s (buffered_view (id_from_offset offset) page v.pages v) s'
  store_over :
      (offset : ℕ) (page : List ℕ) (id : ℕ) (old : List ℕ) (s' : Swap)
      → IsFirst offset
      → IsPage page
      → v.waiting ≡ some (id, old)
      → IsUnclaimed id v.pages
      → IsSearchable (s.machine.dpus 0).mram
      → (IsFull crypto old (s.machine.dpus 0).mram → ⊥)
      → frontswap_store_old crypto places false offset page s ≡ some (done, s')
      → SwapStep crypto places v s
          (buffered_view (id_from_offset offset) page (put id old v.pages) v)
          s'
  load_again :
      (offset : ℕ) (o : Option (List ℕ)) (s' : Swap)
      → IsFirst offset
      → v.cached_id ≡ id_from_offset offset
      → frontswap_load crypto places offset s ≡ some (done, o, s')
      → SwapStep crypto places v s v s'
  load :
      (offset : ℕ) (page : List ℕ) (s' : Swap)
      → IsFirst offset
      → v.cached_id ≢ id_from_offset offset
      → frontswap_load crypto places offset s ≡ some (done, some page, s')
      → SwapStep crypto places v s (cached_view (id_from_offset offset) page v) s'
  invalidate_waiting :
      (offset : ℕ) (page : List ℕ) (s' : Swap)
      → IsFirst offset
      → v.waiting ≡ some (id_from_offset offset, page)
      → frontswap_invalidate_page crypto places offset s ≡ some s'
      → SwapStep crypto places v s (emptied_view v) s'
  invalidate_stored :
      (offset other : ℕ) (page : List ℕ) (s' : Swap)
      → IsFirst offset
      → ((page : List ℕ) → v.waiting ≢ some (id_from_offset offset, page))
      → IsAlias (id_from_offset offset) other
      → v.pages other ≡ some page
      → frontswap_invalidate_page crypto places offset s ≡ some s'
      → SwapStep crypto places v s (with_pages (remove other v.pages) v) s'
  invalidate_collision :
      (offset other : ℕ) (page : List ℕ) (s' : Swap)
      → IsFirst offset
      → ((page : List ℕ) → v.waiting ≢ some (id_from_offset offset, page))
      → IsCollision (id_from_offset offset) other
      → v.pages other ≡ some page
      → frontswap_invalidate_page crypto places offset s ≡ some s'
      → SwapStep crypto places v s v s'
  invalidate_absent :
      (offset : ℕ) (s' : Swap)
      → IsFirst offset
      → ((page : List ℕ) → v.waiting ≢ some (id_from_offset offset, page))
      → IsUnclaimed (id_from_offset offset) v.pages
      → frontswap_invalidate_page crypto places offset s ≡ some s'
      → SwapStep crypto places v s v s'

-- What is reached from a started module.
pub data SwapReach (crypto : Crypto) (places : Places) : View → Swap → Type 0 where
  start :
      (k : KernelMemory) (s s' : Swap)
      → HasMemory k
      → IsStatic places s
      → init_pim_swap k none s ≡ (started, s')
      → SwapReach crypto places first_view s'
  next :
      {v v' : View} {s s' : Swap}
      → SwapReach crypto places v s
      → SwapStep crypto places v s v' s'
      → SwapReach crypto places v' s'

-- The state of an answer is that of the call.
same_state :
    {A : Type 0} (f : A → Swap) (a b : A) (P : Swap → Type 0) → some a ≡ some b → P (f a) → P (f b)
same_state f a b P e p = subst (λ (t : _). P (f t)) (some-injective _ _ e) p

-- A step takes a state of one view to a state of the view that the step makes of it.
pub SwapStep-IsSystem :
    (crypto : Crypto) (places : Places)
    → IsCodec crypto
    → IsPlaced places
    → {v v' : View} {s s' : Swap} → SwapStep crypto places v s v' s'
    → IsSystem crypto places v s
    → IsSystem crypto places v' s'
SwapStep-IsSystem crypto places law placed {v = v} {s = s}
      (store offset page s' (r0, d0) (size, octets) w call) sys =
    let (t, runs, (sys', _)) =
      stored_first crypto law places placed offset page r0 d0 size octets v s sys w in
    same_state (λ p. p.1) (done, t) (done, s') (IsSystem crypto places _) (sym runs ∙ call) sys'
SwapStep-IsSystem crypto places law placed {v = v} {s = s}
      (store_over offset page id old s' (r0, d0) (size, octets) w free ready room call) sys =
    let (t, runs, outcome) =
      stored_over crypto law places placed offset page r0 d0 size octets v id old s sys w free
        ready in
    elim outcome [
      | inl sys' ↦
          same_state (λ p. p.1) (done, t) (done, s') (IsSystem crypto places _) (sym runs ∙ call)
            sys'
      | inr (full, _) ↦ absurd (room full)
    ]
SwapStep-IsSystem crypto places law placed {v = v} {s = s} (load_again offset o s' (r0, d0) e call)
      sys =
    same_state (λ p. p.2) (done, some v.cached_page, s) (done, o, s') (IsSystem crypto places v)
      (sym (loaded_again crypto places offset r0 d0 v s sys e) ∙ call) sys
SwapStep-IsSystem crypto places law placed {v = v} {s = s} (load offset page s' (r0, d0) ne call)
      sys =
    let (mc', runs, (got, sys')) =
      loaded_from_dpu crypto places offset r0 d0 v s sys law placed ne in
    of_answer (some-injective _ _ (sym runs ∙ call)) sys'
  where
    of_answer :
        {bytes : List ℕ} {t : Swap}
        → ◌≡◌ {A = Code × Option (List ℕ) × Swap} (done, some bytes, t) (done, some page, s')
        → IsSystem crypto places (cached_view (id_from_offset offset) bytes v) t
        → IsSystem crypto places (cached_view (id_from_offset offset) page v) s'
    of_answer {bytes = bytes} {t = t} e sys' =
        let same : bytes ≡ page =
          some-injective _ _ (ap (λ (p : Code × Option (List ℕ) × Swap). p.1) e) in
        subst (IsSystem crypto places (cached_view (id_from_offset offset) page v))
          (ap (λ (p : Code × Option (List ℕ) × Swap). p.2) e)
          (subst
            (λ (l : List ℕ). IsSystem crypto places (cached_view (id_from_offset offset) l v) t)
            same sys')
SwapStep-IsSystem crypto places law placed {v = v} {s = s}
      (invalidate_waiting offset page s' (_, d0) w call) sys =
    let (t, runs, sys') = dropped_waiting crypto places offset d0 v s sys page w in
    same_state (λ p. p) t s' (IsSystem crypto places _) (sym runs ∙ call) sys'
SwapStep-IsSystem crypto places law placed {v = v} {s = s}
      (invalidate_stored offset other page s' (_, d0) ne alias live call) sys =
    let (t, runs, sys') =
      dropped_from_dpu crypto places offset d0 v s sys placed ne law other page alias live in
    same_state (λ p. p) t s' (IsSystem crypto places _) (sym runs ∙ call) sys'
SwapStep-IsSystem crypto places law placed {v = v} {s = s}
      (invalidate_collision offset other page s' (_, d0) ne apart live call) sys =
    let (t, runs, sys') =
      dropped_collision crypto places offset d0 v s sys placed ne law other page apart live in
    same_state (λ p. p) t s' (IsSystem crypto places _) (sym runs ∙ call) sys'
SwapStep-IsSystem crypto places law placed {v = v} {s = s}
      (invalidate_absent offset s' (_, d0) ne free call) sys =
    let (t, runs, sys') = dropped_nothing crypto places offset d0 v s sys placed ne law free in
    same_state (λ p. p) t s' (IsSystem crypto places _) (sym runs ∙ call) sys'

-- With a compressor that keeps its contract and buffers that do not overlap, after init_pim_swap
-- with enough memory and any sequence of calls for rank 0 and DPU 0 (the steps of SwapStep: stores
-- of whole pages into the empty slot, or over a waiting page whose index entry is free where DPU 0
-- is searchable and has room; loads; invalidations of the waiting page, or of an identifier whose
-- index entry a page has or none), the state stands for the view that the calls make: the MRAM of
-- DPU 0 holds exactly the pages of the map and the other DPUs none, the bitmap and the out buffer
-- have the page that waits with its identifier, the in buffer has the page that was loaded last, and
-- no buffer is left prepared. An invalidation on DPU 0 takes out the page that the index finds, also
-- where it was stored under another identifier, and none where the tag of the entry differs.
pub SwapReach-IsSystem :
    (crypto : Crypto) (places : Places) (v : View) (s : Swap)
    → IsCodec crypto
    → IsPlaced places
    → SwapReach crypto places v s
    → IsSystem crypto places v s
SwapReach-IsSystem crypto places v s law placed (start k before _ mem static runs) =
    let (t, runs', (sys, _)) = start-IsSystem crypto places k before mem static in
    subst (IsSystem crypto places first_view) (ap (λ p. p.1) (sym runs' ∙ runs)) sys
SwapReach-IsSystem crypto places v s law placed (next {v = before} {s = t} r step) =
    SwapStep-IsSystem crypto places law placed step
      (SwapReach-IsSystem crypto places before t law placed r)
