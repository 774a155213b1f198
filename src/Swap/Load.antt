-- ===== src/Swap/Load.antt =====
-- pimswap_frontswap_load of module/swap.c on a state that stands for a view.
use pim_swap.Base.{
  ℕ, ◌+◌, ◌*◌, ◌≤◌, ◌<◌, ◌≡◌, ◌≢◌, ◌∙◌, refl, ap, Option, some, none, true, false, List, arith,
  bit_set, ◌==◌, ◌&&◌,
}
use pim_swap.Mram.{mram_read, mram_read_ext}
use pim_swap.Layout.{page_size}
use pim_swap.Program.{Crypto, page_valid}
use pim_swap.Program.Pack.{IsCodec}
use pim_swap.Host.{Machine}
use pim_swap.Swap.{
  Places, Swap, done, descriptor_size, data_of, id_of, host_word, dpu_index_from_offset,
  id_from_offset, rank_index_from_offset, frontswap_load, fetch,
}
use pim_swap.Swap.Stale.{id_from_offset-lt}
use pim_swap.Swap.System.{IsPlaced, IsWaiting, IsSystem, View, host_word_ext, swap_of_lem}
use pim_swap.Swap.Fetch.{IsFetched, fetch-IsFetched}

-- The identifier in the out buffer has the PAGE_VALID bit, so the slot is never taken for the page.
slot_missed :
    (places : Places) (w : Option (ℕ × List ℕ)) (bmp : ℕ) (mc : Machine) (id : ℕ)
    → IsWaiting places w bmp mc
    → id < page_valid
    → (bit_set bmp 0 && host_word (id_of places.out_buffer 0) mc == id) ≡ false
unfolding bit_set
slot_missed places none bmp mc id empty small = rw empty refl
slot_missed places (some (wid, page)) bmp mc id (taken, _, word, _) small =
    let other : (host_word (id_of places.out_buffer 0) mc == id) ≡ false = ground (arith, word) in
    rw (other, taken) refl

-- The slot stays while the out buffer does.
pub IsWaiting-ext :
    (places : Places) (w : Option (ℕ × List ℕ)) (bmp : ℕ) (mc mc' : Machine)
    → ((x : ℕ)
        → places.out_buffer ≤ x
        → x < places.out_buffer + 4 * descriptor_size
        → mc'.host x ≡ mc.host x)
    → IsWaiting places w bmp mc
    → IsWaiting places w bmp mc'
IsWaiting-ext places none bmp mc mc' same empty = empty
IsWaiting-ext places (some (id, page)) bmp mc mc' same (taken, small, word, bytes) = (
  taken,
  small,
  host_word_ext (id_of places.out_buffer 0) mc mc' (λ x lo hi. same x (omega arith) (omega arith))
      ∙ word,
  mram_read_ext mc'.host mc.host (data_of places.out_buffer 0) page_size
        (λ x lo hi. same x (omega arith) (omega arith))
      ∙ bytes,
)

-- The view after a load that asked DPU 0.
abbrev pub cached_view : ℕ → List ℕ → View → View
cached_view id page v = record v { cached_id = id; cached_page = page }

module _ (crypto : Crypto) (places : Places) (offset : ℕ)
    (rank_0 : rank_index_from_offset offset ≡ 0) (dpu_0 : dpu_index_from_offset offset ≡ 0)
    (v : View) (s : Swap) (sys : IsSystem crypto places v s) where
  missed :
      (bit_set s.out_buffer_bmp 0
        && host_word (id_of places.out_buffer 0) s.machine == id_from_offset offset)
      ≡ false
  missed =
      slot_missed places v.waiting s.out_buffer_bmp s.machine (id_from_offset offset) sys.slot
        (id_from_offset-lt offset)

  -- The in buffer has the identifier: its page is given, and nothing changes.
  pub loaded_again :
      v.cached_id ≡ id_from_offset offset
      → frontswap_load crypto places offset s ≡ some (done, some v.cached_page, s)
  unfolding frontswap_load
  loaded_again e =
      let found : (host_word (id_of places.in_buffer 0) s.machine == id_from_offset offset) ≡ true =
        ground (arith, sys.cached.0) in
      rw (rank_0, dpu_0, missed, found) (ap (λ (l : List ℕ). some (done, some l, s)) sys.cached.1)

  module _ (law : IsCodec crypto) (placed : IsPlaced places)
      (other : v.cached_id ≢ id_from_offset offset) where
    -- DPU 0 is asked.
    asks :
        (mc' : Machine)
        → fetch crypto places 0 (id_from_offset offset) s ≡ some mc'
        → host_word (id_of places.in_buffer 0) mc' ≡ id_from_offset offset
        → frontswap_load crypto places offset s
          ≡ some (
            done,
            some (mram_read mc'.host (data_of places.in_buffer 0) page_size),
            record s { machine = mc' },
          )
    unfolding frontswap_load
    asks mc' fetched word =
        let absent : (host_word (id_of places.in_buffer 0) s.machine == id_from_offset offset)
            ≡ false =
          ground (arith, sys.cached.0, other) in
        let found : (host_word (id_of places.in_buffer 0) mc' == id_from_offset offset) ≡ true =
          ground (arith, word) in
        rw (rank_0, dpu_0, missed, absent, fetched, found) refl

    pub loaded_from_dpu :
        (mc' : Machine) × (frontswap_load crypto places offset s
          ≡ some (
            done,
            some (mram_read mc'.host (data_of places.in_buffer 0) page_size),
            record s { machine = mc' },
          ))
        × (IsFetched crypto places v.pages (id_from_offset offset) s.machine mc'
            × IsSystem crypto places
                (cached_view
                  (id_from_offset offset)
                  (mram_read mc'.host (data_of places.in_buffer 0) page_size)
                  v)
                (record s { machine = mc' }))
    loaded_from_dpu =
        let (mc', runs, got) =
          fetch-IsFetched crypto law places placed v.pages s.machine sys.idle
            (id_from_offset offset) (id_from_offset-lt offset) s.out_buffer_bmp in
        (
          mc',
          asks mc'
              (ap (fetch crypto places 0 (id_from_offset offset))
                  (swap_of_lem s s.out_buffer_bmp sys.dpus refl)
                ∙ runs)
              got.word,
          (
            got,
            record {
              dpus = sys.dpus;
              idle = got.idle;
              slot =
                  IsWaiting-ext places v.waiting s.out_buffer_bmp s.machine mc'
                    (λ x lo hi. got.outside x (omega (arith, placed.buffers_apart))) sys.slot;
              cached = (got.word, refl);
            },
          ),
        )
