-- ===== src/Swap/Fetch.antt =====
-- The request for one page in pimswap_frontswap_load of module/swap.c: the identifiers that are
-- sent, the run of lzo_decompress_main on DPU 0, and the transfer into the in buffer.
use pim_swap.Base.{
  ℕ, zero, suc, ◌+◌, ◌*◌, ◌≤◌, ◌<◌, ◌≡◌, ◌≢◌, ◌⊎◌, inl, ◌∙◌, refl, sym, ap, some, List, arith, ◌==◌,
  if◌then◌else◌, subst, bit_and,
}
use pim_swap.Mram.{Mram, IsBytes, mram_read, mram_read_ext, mram_write_outside}
use pim_swap.Layout.{page_size, trans_page, id_offset}
use pim_swap.Program.{Crypto, Context, page_valid, read_id, lzo_decompress_main}
use pim_swap.Program.Pack.{IsCodec}
use pim_swap.Program.Below.{decompress_below}
use pim_swap.Program.Kept.{decompress-kept}
use pim_swap.Program.Word.{word_of_bytes}
use pim_swap.Program.Wram.{Dpu}
use pim_swap.PageMap.{PageMap, no_pages, IsUnclaimed}
use pim_swap.PageMap.Holds.{Holds, Holds-ext}
use pim_swap.PageMap.Lookup.{decompress-present, decompress-absent}
use pim_swap.Host.{Machine, decompress, dpu_xfer_from_dpu, dpu_push_xfer, call_main}
use pim_swap.Swap.Gather.{
  gathered, gathered-Receives, gathered_outside, received_page, received_word, gathered_dpu,
}
use pim_swap.Swap.Deliver.{asked, given, Delivers, given-Holds, deliver-Delivers}
use pim_swap.Swap.{
  Places, descriptor_size, data_of, id_of, host_word, set_host, foreach, prepare_data,
  prepare_request, fetch,
}
use pim_swap.Swap.Prepare.{
  all_written, foreach-round, foreach-prepare, write_word, words_outside, words_octets,
  words_inside,
}
use pim_swap.Swap.System.{every_dpu, IsPlaced, IsIdle, transferred_start, swap_of, host_word_ext}

-- What a run of lzo_decompress_main leaves on DPU 0, whose MRAM was `before`, for an identifier: the
-- pages and the identifier; in the transfer page the page of the map, or what was there if no page
-- has the index entry.
record Unpacks (crypto : Crypto) (pages : PageMap) (id : ℕ) (before m : Mram) : Type 0 where
  held : Holds crypto pages m
  id_kept : read_id m ≡ id
  present : (page : List ℕ) → pages id ≡ some page → mram_read m trans_page page_size ≡ page
  absent :
      IsUnclaimed id pages
      → mram_read m trans_page page_size ≡ mram_read before trans_page page_size

Unpacked : Crypto → PageMap → ℕ → Mram → ℕ → ℕ → Mram → Type 0
Unpacked crypto pages id before j w m = (w ≢ 0) × Unpacks crypto pages id before m

-- What the request leaves in the machine: the same pages, and in the slot of DPU 0 of the in buffer
-- the identifier with the page of the map, or, if no page has its index entry, with whatever stood
-- in the transfer page of DPU 0. Outside of the in buffer the host's memory is as it was.
pub record IsFetched (crypto : Crypto) (places : Places) (pages : PageMap) (id : ℕ)
    (mc mc' : Machine) : Type 0 where
  pub idle : IsIdle crypto places pages mc'
  pub outside :
      (x : ℕ)
      → (x < places.in_buffer) ⊎ (places.in_buffer + 4 * descriptor_size ≤ x)
      → mc'.host x ≡ mc.host x
  pub word : host_word (id_of places.in_buffer 0) mc' ≡ id
  pub present :
      (page : List ℕ)
      → pages id ≡ some page
      → mram_read mc'.host (data_of places.in_buffer 0) page_size ≡ page
  pub absent :
      IsUnclaimed id pages
      → mram_read mc'.host (data_of places.in_buffer 0) page_size
        ≡ mram_read (mc.dpus 0).mram trans_page page_size

module _ (crypto : Crypto) (law : IsCodec crypto) (places : Places) (placed : IsPlaced places)
    (pages : PageMap) (mc : Machine) (inv : IsIdle crypto places pages mc) (id : ℕ)
    (small : id < page_valid) where
  -- The word that each DPU is sent.
  word : ℕ → ℕ
  word j = if j == 0 then id else 0

  asked_host : Mram
  asked_host = all_written 4 0 (write_word word (id_of places.in_buffer)) mc.host

  asked_lem :
      foreach 4 0 0 (prepare_request crypto places 0 id) mc
      ≡ asked (id_of places.in_buffer) asked_host mc
  unfolding prepare_request set_host asked_host word
  asked_lem =
      foreach-round 4 0 0 (id_of places.in_buffer) (write_word word (id_of places.in_buffer)) mc
        (omega arith)

  ids_apart : (j k : ℕ) → j < k → id_of places.in_buffer j + 4 ≤ id_of places.in_buffer k
  ids_apart j k h = omega arith

  asked_outside :
      (x : ℕ)
      → (x < places.in_buffer) ⊎ (places.in_buffer + 4 * descriptor_size ≤ x)
      → asked_host x ≡ mc.host x
  unfolding asked_host
  asked_outside x out =
      words_outside word (id_of places.in_buffer) ids_apart 4 0 mc.host x (λ j lo hi. omega arith)

  asked_octets : IsBytes asked_host
  unfolding asked_host
  asked_octets = words_octets word (id_of places.in_buffer) ids_apart 4 0 mc.host inv.octets

  there : (j : ℕ) → id_of places.in_buffer j ≢ 0
  there j z = absurd (omega (arith, z))

  abbrev on_dpu : ℕ → Mram
  on_dpu = given (id_of places.in_buffer) asked_host (trans_page + page_size) 4 mc

  on_dpu-Holds :
      (j : ℕ) (known : PageMap)
      → Holds crypto known (mc.dpus j).mram
      → Holds crypto known (on_dpu j)
  on_dpu-Holds =
      given-Holds crypto places pages mc inv (id_of places.in_buffer) there asked_host asked_octets
        (trans_page + page_size) 4 (omega arith)

  read_id-on_dpu : read_id (on_dpu 0) ≡ id
  unfolding read_id asked_host word
  read_id-on_dpu =
      ap word_of_bytes (
        transferred_start asked_host (id_of places.in_buffer 0) id_offset 4 ((mc.dpus 0).mram) 4
          (omega arith))
      ∙ words_inside word (id_of places.in_buffer) ids_apart 4 0 mc.host 0 (omega arith)
          (omega arith) (omega arith)

  on_dpu_page :
      mram_read (on_dpu 0) trans_page page_size ≡ mram_read (mc.dpus 0).mram trans_page page_size
  on_dpu_page =
      mram_read_ext (on_dpu 0) ((mc.dpus 0).mram) trans_page page_size
        (λ x lo hi. mram_write_outside _ id_offset ((mc.dpus 0).mram) x (inl (omega arith)))

  abbrev Result : ℕ → ℕ → Mram → Type 0
  Result = Unpacked crypto pages id ((mc.dpus 0).mram)

  -- The run on DPU 0.
  run_first :
      (c : Context)
      → c.dpu.mram ≡ on_dpu 0
      → c.dpu.wram ≢ 0
      → (c' : Context) × (call_main crypto (some decompress) c ≡ some c')
        × Result 0 c'.dpu.wram c'.dpu.mram
  unfolding call_main Unpacked
  run_first c e nz =
      let h : Holds crypto pages c.dpu.mram =
        subst (Holds crypto pages) (sym e) (on_dpu-Holds 0 pages inv.first) in
      let asks : read_id c.dpu.mram ≡ id = ap read_id e ∙ read_id-on_dpu in
      let (wram, id_kept) = decompress-kept crypto c in
      let (bytes, same) = decompress_below crypto c law h.well_formed.bytes in
      let m' = (lzo_decompress_main crypto c).context.dpu.mram in
      (
        (lzo_decompress_main crypto c).context,
        refl,
        (
          (λ z. nz (sym wram ∙ z)),
          record {
            held = Holds-ext crypto pages c.dpu.mram m' same bytes h;
            id_kept = id_kept ∙ asks;
            present =
                λ page live. (decompress-present crypto pages page c h nz (ap pages asks ∙ live)).1;
            absent = λ free.
                ap (λ r. mram_read r.context.dpu.mram trans_page page_size)
                  (decompress-absent crypto pages c h
                    (subst (λ (i : ℕ). IsUnclaimed i pages) (sym asks) free))
                ∙ ap (λ (m : Mram). mram_read m trans_page page_size) e
                ∙ on_dpu_page;
          },
        ),
      )

  module _ (ran : Machine)
      (runs : Delivers
        (id_of places.in_buffer)
        asked_host
        (trans_page + page_size)
        4
        0
        Result
        mc
        ran) where
    fetched_outside :
        (x : ℕ)
        → (x < places.in_buffer) ⊎ (places.in_buffer + 4 * descriptor_size ≤ x)
        → (gathered places ran).host x ≡ mc.host x
    fetched_outside x out =
        gathered_outside places placed ran x out
        ∙ ap (λ (m : Mram). m x) runs.host_same
        ∙ asked_outside x out

    on_first : Unpacks crypto pages id ((mc.dpus 0).mram) ((ran.dpus 0).mram)
    unfolding Unpacked
    on_first = (runs.answered 0 (omega arith)).1

    other-Holds :
        (j : ℕ) → 0 < j → j < 4 → Holds crypto no_pages ((gathered places ran).dpus j).mram
    other-Holds j lo hi =
        let e =
          ap (λ (d : Dpu). d.mram) (gathered_dpu places placed ran j) ∙ (runs.waiting j lo hi).0 in
        subst (Holds crypto no_pages) (sym e) (on_dpu-Holds j no_pages (inv.empty j lo hi))

    first-Holds : Holds crypto pages ((gathered places ran).dpus 0).mram
    first-Holds =
        subst (λ (d : Dpu). Holds crypto pages d.mram) (sym (gathered_dpu places placed ran 0))
          on_first.held

    fetched_wram : (j : ℕ) → j < 4 → ((gathered places ran).dpus j).wram ≢ 0
    unfolding Unpacked
    fetched_wram zero hi z =
        (runs.answered 0 (omega arith)).0
          (sym (ap (λ d. d.wram) (gathered_dpu places placed ran 0)) ∙ z)
    fetched_wram (suc j) hi z = inv.wram (suc j) hi (
        sym (
          ap (λ (d : Dpu). d.wram) (gathered_dpu places placed ran (suc j))
          ∙ (runs.waiting (suc j) (omega arith) hi).1)
        ∙ z)

    ran-IsFetched : IsFetched crypto places pages id mc (gathered places ran)
    ran-IsFetched = record {
      idle = record {
        first = first-Holds;
        empty = other-Holds;
        wram = fetched_wram;
        idle = λ j hi. (gathered-Receives places placed ran).consumed j (omega arith) hi;
        octets =
            (gathered-Receives places placed ran).octets all_bytes
              (subst IsBytes (sym runs.host_same) asked_octets);
        unsent = λ j lo hi.
            ap (λ (w : ℕ). bit_and w page_valid)
              (host_word_ext (id_of places.out_buffer j) mc (gathered places ran)
                (λ x from to. fetched_outside x (omega (arith, placed.buffers_apart))))
            ∙ inv.unsent j lo hi;
      };
      outside = fetched_outside;
      word = received_word places placed ran ∙ on_first.id_kept;
      present = λ page live. received_page places placed ran ∙ on_first.present page live;
      absent = λ free. received_page places placed ran ∙ on_first.absent free;
    }
      where
        all_bytes : (j : ℕ) → 0 ≤ j → j < 4 → IsBytes (ran.dpus j).mram
        all_bytes zero lo hi = on_first.held.well_formed.bytes
        all_bytes (suc j) lo hi =
            subst (λ (d : Dpu). IsBytes d.mram) (gathered_dpu places placed ran (suc j))
              (other-Holds (suc j) (omega arith) hi).well_formed.bytes

  -- The whole request is defined.
  pub fetch-IsFetched :
      (bmp : ℕ)
      → (mc' : Machine) × (fetch crypto places 0 id (swap_of bmp mc) ≡ some mc')
        × IsFetched crypto places pages id mc mc'
  unfolding fetch prepare_data
  fetch-IsFetched bmp =
      let (ran, launches, runs) =
        deliver-Delivers crypto places pages mc inv (id_of places.in_buffer) there asked_host
          asked_octets (trans_page + page_size) 4 (omega arith) decompress Result 0 (omega arith)
          run_on in
      (
        gathered places ran,
        rw (asked_lem, launches)
            (ap
              (λ (r : Machine).
                some (dpu_push_xfer every_dpu dpu_xfer_from_dpu trans_page descriptor_size r))
              (foreach-prepare 4 0 0 (data_of places.in_buffer) ran (omega arith))),
        ran-IsFetched ran runs,
      )
    where
      run_on :
          (j : ℕ) (c : Context)
          → j ≤ 0
          → c.dpu.mram ≡ on_dpu j
          → c.dpu.wram ≢ 0
          → (c' : Context) × (call_main crypto (some decompress) c ≡ some c')
            × Result j c'.dpu.wram c'.dpu.mram
      run_on zero c hi e nz = run_first c e nz
      run_on (suc j) c hi e nz = absurd (omega arith)
