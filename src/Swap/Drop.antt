-- ===== src/Swap/Drop.antt =====
-- pimswap_frontswap_invalidate_page of module/swap.c on a state that stands for a view.
use pim_swap.Base.{
  ℕ, ◌-◌, ◌≡◌, ◌≢◌, refl, ap, Option, some, none, true, false, List, arith, bit_set, bit_and,
  and_mask, ◌==◌, ◌&&◌, subst,
}
use pim_swap.Program.{Crypto, Context, page_valid, dpu_invalidate_main}
use pim_swap.Program.Pack.{IsCodec}
use pim_swap.Program.Written.{IsRequest}
use pim_swap.PageMap.{PageMap, remove, IsUnclaimed, IsAlias, IsCollision}
use pim_swap.PageMap.Holds.{Holds}
use pim_swap.PageMap.Effect.{invalidate-Holds, invalidate_collision-Holds, invalidate_absent-Holds}
use pim_swap.Swap.{
  Places, Swap, id_of, host_word, dpu_index_from_offset, id_from_offset, frontswap_invalidate_page,
}
use pim_swap.Swap.Stale.{id_from_offset-lt}
use pim_swap.Swap.System.{IsPlaced, IsWaiting, IsCached-ext, IsSystem, View}
use pim_swap.Swap.Load.{IsWaiting-ext}
use pim_swap.Swap.Forget.{forget-IsIdle}

-- The page that waits is forgotten where it stands.
abbrev pub emptied_view : View → View
emptied_view v = record v { waiting = none }

-- The pages of DPU 0 change, and nothing else.
abbrev pub with_pages : PageMap → View → View
with_pages pages v = record v { pages = pages }

module _ (crypto : Crypto) (places : Places) (offset : ℕ) (dpu_0 : dpu_index_from_offset offset ≡ 0)
    (v : View) (s : Swap) (sys : IsSystem crypto places v s) where
  pub dropped_waiting :
      (page : List ℕ)
      → v.waiting ≡ some (id_from_offset offset, page)
      → (s' : Swap) × (frontswap_invalidate_page crypto places offset s ≡ some s')
        × IsSystem crypto places (emptied_view v) s'
  unfolding frontswap_invalidate_page bit_set
  dropped_waiting page w =
      let (taken, small, word, bytes) =
        subst (λ (t : Option (ℕ × List ℕ)). IsWaiting places t s.out_buffer_bmp s.machine) w
          sys.slot in
      let same : (bit_and (host_word (id_of places.out_buffer 0) s.machine) (page_valid - 1)
            == id_from_offset offset)
          ≡ true =
        ground
          (arith, word, small, and_mask 31 (host_word (id_of places.out_buffer 0) s.machine)) in
      (
        record s { out_buffer_bmp = 0 },
        rw (dpu_0, taken, same) refl,
        record { dpus = sys.dpus; idle = sys.idle; slot = refl; cached = sys.cached },
      )

  module _ (placed : IsPlaced places)
      (elsewhere : (page : List ℕ) → v.waiting ≢ some (id_from_offset offset, page)) where
    not_waiting :
        (w : Option (ℕ × List ℕ)) (bmp : ℕ)
        → IsWaiting places w bmp s.machine
        → ((page : List ℕ) → w ≢ some (id_from_offset offset, page))
        → (bit_set bmp 0
            && bit_and (host_word (id_of places.out_buffer 0) s.machine) (page_valid - 1)
              == id_from_offset offset)
          ≡ false
    unfolding bit_set
    not_waiting none bmp clear ne = rw clear refl
    not_waiting (some (wid, page)) bmp (taken, small, word, _) ne =
        let other : wid ≢ id_from_offset offset = λ e. ne page (ap (λ (i : ℕ). some (i, page)) e) in
        let differs : (bit_and (host_word (id_of places.out_buffer 0) s.machine) (page_valid - 1)
              == id_from_offset offset)
            ≡ false =
          ground (
            arith,
            word,
            small,
            other,
            and_mask 31 (host_word (id_of places.out_buffer 0) s.machine),
          ) in
        rw (taken, differs) refl

    -- DPU 0 is told, and does what the program does.
    told :
        (pages' : PageMap)
        → ((c : Context)
            → IsRequest (id_from_offset offset) c
            → Holds crypto v.pages c.dpu.mram
            → Holds crypto pages' (dpu_invalidate_main c).context.dpu.mram)
        → (s' : Swap) × (frontswap_invalidate_page crypto places offset s ≡ some s')
          × IsSystem crypto places (with_pages pages' v) s'
    unfolding frontswap_invalidate_page
    told pages' effect =
        let (ran, runs, (idle, outside)) =
          forget-IsIdle crypto places placed v.pages pages' s.machine sys.idle
            (id_from_offset offset) (id_from_offset-lt offset) effect in
        let missed = not_waiting v.waiting s.out_buffer_bmp sys.slot elsewhere in
        (
          record s { machine = ran },
          rw (dpu_0, missed, sys.dpus, runs) refl,
          record {
            dpus = sys.dpus;
            idle = idle;
            slot =
                IsWaiting-ext places v.waiting s.out_buffer_bmp s.machine ran
                  (λ x lo hi.
                    outside x (omega (arith, placed.id_out)) (omega (arith, placed.dummy_out)))
                  sys.slot;
            cached =
                IsCached-ext places v.cached_id v.cached_page s.machine ran
                  (λ x lo hi.
                    outside x (omega (arith, placed.id_in)) (omega (arith, placed.dummy_in)))
                  sys.cached;
          },
        )

    pub dropped_from_dpu :
        IsCodec crypto
        → (other : ℕ) (page : List ℕ) → IsAlias (id_from_offset offset) other
        → v.pages other ≡ some page
        → (s' : Swap) × (frontswap_invalidate_page crypto places offset s ≡ some s')
          × IsSystem crypto places (with_pages (remove other v.pages) v) s'
    dropped_from_dpu law other page alias live = told (remove other v.pages) (λ c request h.
        invalidate-Holds crypto law v.pages c h (id_from_offset offset) other page request alias
          live)

    pub dropped_collision :
        IsCodec crypto
        → (other : ℕ) (page : List ℕ) → IsCollision (id_from_offset offset) other
        → v.pages other ≡ some page
        → (s' : Swap) × (frontswap_invalidate_page crypto places offset s ≡ some s')
          × IsSystem crypto places v s'
    dropped_collision law other page apart live = told v.pages (λ c request h.
        invalidate_collision-Holds crypto law v.pages c h (id_from_offset offset) other page request
          apart live)

    pub dropped_nothing :
        IsCodec crypto
        → IsUnclaimed (id_from_offset offset) v.pages
        → (s' : Swap) × (frontswap_invalidate_page crypto places offset s ≡ some s')
          × IsSystem crypto places v s'
    dropped_nothing law free = told v.pages λ c request h.
        invalidate_absent-Holds crypto law v.pages c h (id_from_offset offset) request free
