-- ===== src/Swap/Store.antt =====
-- pimswap_frontswap_store_old of module/swap.c on a state that stands for a view.
use pim_swap.Base.{
  ℕ, ◌+◌, ◌≤◌, ◌<◌, ◌≡◌, ◌⊎◌, inl, inr, ◌∙◌, refl, sym, ap, Option, some, none, false, List, length,
  arith, bit_and, bit_or, bit_set, subst,
}
use pim_swap.Mram.{
  AreBytes, mram_read, mram_write, mram_read_ext, mram_write_outside, mram_read-mram_write,
  IsBytes-mram_write,
}
use pim_swap.Layout.{page_size}
use pim_swap.Page.Directory.{IsSearchable}
use pim_swap.Program.{Crypto, page_valid}
use pim_swap.Program.Pack.{IsCodec}
use pim_swap.Program.Word.{word_bytes, word-AreBytes}
use pim_swap.PageMap.{PageMap, put, IsUnclaimed}
use pim_swap.Host.{Machine}
use pim_swap.Swap.{
  Places, Swap, done, descriptor_size, data_of, id_of, host_word, set_host, dpu_index_from_offset,
  id_from_offset, rank_index_from_offset, frontswap_store_old, buffer_page, submit,
}
use pim_swap.Swap.Stale.{id_from_offset-lt, buffered, buffered_id, buffered_outside}
use pim_swap.Swap.System.{
  IsPlaced, IsIdle, IsWaiting, IsCached, IsCached-ext, IsSystem, View, IsFull, host_word_ext,
  swap_of, swap_of_lem,
}
use pim_swap.Swap.Send.{submitted}

-- The machine after a page was put into the slot of DPU 0.
abbrev pub put_in : Places → ℕ → List ℕ → Machine → Machine
put_in places id page mc = record mc { host = buffered places id page mc.host }

module _ (crypto : Crypto) (places : Places) (placed : IsPlaced places) (id : ℕ) (page : List ℕ)
    (small : id < page_valid) (size : length page ≡ page_size) (octets : AreBytes page)
    (mc : Machine) where
  -- The page in the slot is read back.
  filled_slot : IsWaiting places (some (id, page)) 1 (put_in places id page mc)
  unfolding host_word word_bytes
  filled_slot = (
    refl,
    small,
    buffered_id places id page mc.host small,
    mram_read_ext (buffered places id page mc.host)
          (mram_write page (data_of places.out_buffer 0) mc.host) (data_of places.out_buffer 0)
          page_size (λ x lo hi. mram_write_outside _ _ _ x (inl (omega arith)))
        ∙ ap
            (mram_read (mram_write page (data_of places.out_buffer 0) mc.host)
              (data_of places.out_buffer 0))
            (sym size)
        ∙ mram_read-mram_write page (data_of places.out_buffer 0) mc.host,
  )

  filled_outside :
      (x : ℕ)
      → (x < places.out_buffer) ⊎ (places.out_buffer + descriptor_size ≤ x)
      → (put_in places id page mc).host x ≡ mc.host x
  filled_outside x out = buffered_outside places id page mc.host x size out

  filled-IsIdle :
      (pages : PageMap)
      → IsIdle crypto places pages mc
      → IsIdle crypto places pages (put_in places id page mc)
  filled-IsIdle pages inv = record {
    first = inv.first;
    empty = inv.empty;
    wram = inv.wram;
    idle = inv.idle;
    octets =
        IsBytes-mram_write _ _ _ (word-AreBytes (bit_or id page_valid))
          (IsBytes-mram_write page _ mc.host octets inv.octets);
    unsent = λ j lo hi.
        ap (λ (w : ℕ). bit_and w page_valid)
          (host_word_ext (id_of places.out_buffer j) mc (put_in places id page mc)
            (λ x from to. filled_outside x (inr (omega arith))))
        ∙ inv.unsent j lo hi;
  }

  filled-IsCached :
      (cid : ℕ) (cpage : List ℕ)
      → IsCached places cid cpage mc
      → IsCached places cid cpage (put_in places id page mc)
  filled-IsCached cid cpage c =
      IsCached-ext places cid cpage mc (put_in places id page mc)
        (λ x lo hi. filled_outside x (omega (arith, placed.buffers_apart))) c

-- The pages of DPU 0 once the waiting page has reached it.
abbrev pub flushed : Option (ℕ × List ℕ) → PageMap → PageMap
flushed none pages = pages
flushed (some (id, page)) pages = put id page pages

-- The view after a page was put into the out buffer.
abbrev pub buffered_view : ℕ → List ℕ → PageMap → View → View
buffered_view id page pages v = record v { waiting = some (id, page); pages = pages }

module _ (crypto : Crypto) (law : IsCodec crypto) (places : Places) (placed : IsPlaced places)
    (offset : ℕ) (page : List ℕ) (rank_0 : rank_index_from_offset offset ≡ 0)
    (dpu_0 : dpu_index_from_offset offset ≡ 0) (size : length page ≡ page_size)
    (octets : AreBytes page) where
  filled_system :
      (v : View) (pages : PageMap) (mc : Machine)
      → IsIdle crypto places pages mc
      → IsCached places v.cached_id v.cached_page mc
      → IsSystem crypto places
          (buffered_view (id_from_offset offset) page pages v)
          (swap_of 1 (put_in places (id_from_offset offset) page mc))
  filled_system v pages mc idle cached = record {
    dpus = refl;
    idle =
        filled-IsIdle crypto places placed (id_from_offset offset) page (id_from_offset-lt offset)
          size octets mc pages idle;
    slot =
        filled_slot crypto places placed (id_from_offset offset) page (id_from_offset-lt offset)
          size octets mc;
    cached =
        filled-IsCached crypto places placed (id_from_offset offset) page (id_from_offset-lt offset)
          size octets mc v.cached_id v.cached_page cached;
  }

  store_empty :
      (mc : Machine)
      → frontswap_store_old crypto places false offset page (swap_of 0 mc)
        ≡ some (done, swap_of 1 (put_in places (id_from_offset offset) page mc))
  unfolding frontswap_store_old buffer_page set_host bit_set
  store_empty mc = rw (rank_0, dpu_0) refl

  store_taken :
      (mc mc' : Machine)
      → submit crypto places (swap_of 1 mc) ≡ some (swap_of 0 mc')
      → frontswap_store_old crypto places false offset page (swap_of 1 mc)
        ≡ some (done, swap_of 1 (put_in places (id_from_offset offset) page mc'))
  unfolding frontswap_store_old buffer_page set_host bit_set
  store_taken mc mc' sent = rw (rank_0, dpu_0, sent) refl

  -- A slot that is taken, where the page that waits can be tried on DPU 0.
  pub stored_over :
      (v : View) (wid : ℕ) (old : List ℕ) (s : Swap)
      → IsSystem crypto places v s
      → v.waiting ≡ some (wid, old)
      → IsUnclaimed wid v.pages
      → IsSearchable (s.machine.dpus 0).mram
      → (s' : Swap) × (frontswap_store_old crypto places false offset page s ≡ some (done, s'))
        × (IsSystem crypto places
              (buffered_view (id_from_offset offset) page (put wid old v.pages) v)
              s'
            ⊎ (IsFull crypto old (s.machine.dpus 0).mram
                × IsSystem crypto places (buffered_view (id_from_offset offset) page v.pages v) s'))
  stored_over v wid old s sys w free ready =
      let (taken, small, word, bytes) =
        subst (λ (t : Option (ℕ × List ℕ)). IsWaiting places t s.out_buffer_bmp s.machine) w
          sys.slot in
      let (mc', sent, (outcome, outside)) =
        submitted crypto law places placed v.pages s.machine sys.idle wid old small word bytes free
          ready 1 in
      let cached =
        IsCached-ext places v.cached_id v.cached_page s.machine mc'
          (λ x lo hi. outside x (omega (arith, placed.buffers_apart))) sys.cached in
      (
        swap_of 1 (put_in places (id_from_offset offset) page mc'),
        ap (frontswap_store_old crypto places false offset page) (swap_of_lem s 1 sys.dpus taken)
            ∙ store_taken s.machine mc' sent,
        elim outcome [
          | inl (full, idle) ↦ inr (full, filled_system v v.pages mc' idle cached)
          | inr idle ↦ inl (filled_system v (put wid old v.pages) mc' idle cached)
        ],
      )

  -- A slot that is empty.
  pub stored_first :
      (v : View) (s : Swap)
      → IsSystem crypto places v s
      → v.waiting ≡ none
      → (s' : Swap) × (frontswap_store_old crypto places false offset page s ≡ some (done, s'))
        × (IsSystem crypto places (buffered_view (id_from_offset offset) page v.pages v) s'
            × (s'.machine.dpus ≡ s.machine.dpus))
  stored_first v s sys w =
      let clear =
        subst (λ (t : Option (ℕ × List ℕ)). IsWaiting places t s.out_buffer_bmp s.machine) w
          sys.slot in
      (
        swap_of 1 (put_in places (id_from_offset offset) page s.machine),
        ap (frontswap_store_old crypto places false offset page) (swap_of_lem s 0 sys.dpus clear)
            ∙ store_empty s.machine,
        (filled_system v v.pages s.machine sys.idle sys.cached, refl),
      )
