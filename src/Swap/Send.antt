-- ===== src/Swap/Send.antt =====
-- The submission of the out buffer in pimswap_frontswap_store_old of module/swap.c: the transfer to
-- every DPU, the runs of lzo_compress_main, and the identifiers that are forgotten.
use pim_swap.Base.{
  ℕ, zero, suc, ◌+◌, ◌*◌, ◌≤◌, ◌<◌, ◌≡◌, ◌≢◌, ◌⊎◌, inl, inr, ◌∙◌, refl, sym, ap, some, List, arith,
  bit_and, subst,
}
use pim_swap.Mram.{Mram, IsBytes, mram_read}
use pim_swap.Layout.{page_size, trans_page, directory}
use pim_swap.Page.Directory.{IsSearchable}
use pim_swap.Program.{Crypto, Context, page_valid, read_id}
use pim_swap.Program.Pack.{IsCodec}
use pim_swap.Program.Written.{IsRequest}
use pim_swap.Program.Below.{compress_not_valid}
use pim_swap.Program.Kept.{compress-wram}
use pim_swap.Program.Word.{word_of_bytes}
use pim_swap.PageMap.{PageMap, no_pages, put, IsUnclaimed}
use pim_swap.PageMap.Holds.{Holds, Holds-ext}
use pim_swap.PageMap.Effect.{store_run}
use pim_swap.Host.{Machine, compress, call_main}
use pim_swap.Host.Batch.{push-nothing}
use pim_swap.Swap.{
  Places, descriptor_size, data_of, id_of, host_word, prepare_data, clear_id, submit,
}
use pim_swap.Swap.Prepare.{
  all_written, foreach-prepare, foreach-words, write_word, words_outside, words_octets,
  words_inside,
}
use pim_swap.Swap.System.{
  every_dpu, IsPlaced, IsIdle, transferred_part, transferred_start, IsSearchable-ext, IsFull,
  IsFull-ext, swap_of,
}
use pim_swap.Swap.Deliver.{given, Delivers, given_above, given-Holds, deliver-Delivers}

-- What a run of lzo_compress_main leaves on DPU j for a page: DPU 0, whose MRAM was `before`, has
-- stored it, or refused it as it is full, and the others store nothing.
Compressed : Crypto → PageMap → ℕ → List ℕ → Mram → ℕ → ℕ → Mram → Type 0
Compressed crypto pages id page before zero w m =
    (w ≢ 0)
    × ((IsFull crypto page before × Holds crypto pages m) ⊎ Holds crypto (put id page pages) m)
Compressed crypto pages id page before (suc j) w m = (w ≢ 0) × Holds crypto no_pages m

module _ (crypto : Crypto) (law : IsCodec crypto) (places : Places) (placed : IsPlaced places)
    (pages : PageMap) (mc : Machine) (inv : IsIdle crypto places pages mc) where
  there : (j : ℕ) → data_of places.out_buffer j ≢ 0
  there j z = placed.out_there (omega (arith, z))

  -- The MRAM of DPU j with the descriptor in its transfer page.
  abbrev on_dpu : ℕ → Mram
  on_dpu = given (data_of places.out_buffer) mc.host trans_page descriptor_size mc

  on_dpu_above : (j x : ℕ) → directory ≤ x → on_dpu j x ≡ (mc.dpus j).mram x
  on_dpu_above =
      given_above crypto places pages mc inv (data_of places.out_buffer) there mc.host inv.octets
        trans_page descriptor_size (omega arith)

  on_dpu-Holds :
      (j : ℕ) (known : PageMap)
      → Holds crypto known (mc.dpus j).mram
      → Holds crypto known (on_dpu j)
  on_dpu-Holds =
      given-Holds crypto places pages mc inv (data_of places.out_buffer) there mc.host inv.octets
        trans_page descriptor_size (omega arith)

  read_id-on_dpu : (j : ℕ) → read_id (on_dpu j) ≡ host_word (id_of places.out_buffer j) mc
  unfolding read_id host_word
  read_id-on_dpu j = ap word_of_bytes (
      transferred_part mc.host (data_of places.out_buffer j) trans_page descriptor_size
        ((mc.dpus j).mram) page_size 4 (omega arith))

  -- The run on a DPU other than 0.
  run_other :
      (j : ℕ) (c : Context)
      → 0 < j
      → j < 4
      → c.dpu.mram ≡ on_dpu j
      → c.dpu.wram ≢ 0
      → (c' : Context) × (call_main crypto (some compress) c ≡ some c')
        × ((c'.dpu.wram ≢ 0) × Holds crypto no_pages c'.dpu.mram)
  unfolding call_main
  run_other j c lo hi e nz =
      let h : Holds crypto no_pages c.dpu.mram =
        subst (Holds crypto no_pages) (sym e) (on_dpu-Holds j no_pages (inv.empty j lo hi)) in
      let off : bit_and (read_id c.dpu.mram) page_valid ≡ 0 =
        ap (λ (m : Mram). bit_and (read_id m) page_valid) e
        ∙ ap (λ (w : ℕ). bit_and w page_valid) (read_id-on_dpu j)
        ∙ inv.unsent j lo hi in
      let (s, runs, failed, (bytes, same)) = compress_not_valid crypto c off h.well_formed.bytes in
      (
        s.context,
        rw runs refl,
        (
          (λ z. nz (sym (compress-wram crypto c s runs) ∙ z)),
          Holds-ext crypto no_pages c.dpu.mram s.context.dpu.mram same bytes h,
        ),
      )

  -- The run on DPU 0, for the page that waits.
  module _ (id : ℕ) (page : List ℕ) (small : id < page_valid)
      (id_word : host_word (id_of places.out_buffer 0) mc ≡ id + page_valid)
      (bytes : mram_read mc.host (data_of places.out_buffer 0) page_size ≡ page)
      (free : IsUnclaimed id pages) (ready : IsSearchable (mc.dpus 0).mram) where
    abbrev Result : ℕ → ℕ → Mram → Type 0
    Result = Compressed crypto pages id page ((mc.dpus 0).mram)

    page_given : (m : Mram) → m ≡ on_dpu 0 → mram_read m trans_page page_size ≡ page
    page_given m e =
        ap (λ (m : Mram). mram_read m trans_page page_size) e
        ∙ transferred_start mc.host (data_of places.out_buffer 0) trans_page descriptor_size
            ((mc.dpus 0).mram) page_size (omega arith)
        ∙ bytes

    run_first :
        (c : Context)
        → c.dpu.mram ≡ on_dpu 0
        → c.dpu.wram ≢ 0
        → (c' : Context) × (call_main crypto (some compress) c ≡ some c')
          × Result 0 c'.dpu.wram c'.dpu.mram
    unfolding call_main Compressed
    run_first c e nz =
        let h : Holds crypto pages c.dpu.mram =
          subst (Holds crypto pages) (sym e) (on_dpu-Holds 0 pages inv.first) in
        let request : IsRequest id c = record {
          has_wram = nz;
          id_range = small;
          id_word = ap read_id e ∙ read_id-on_dpu 0 ∙ id_word;
        } in
        let above : (x : ℕ) → directory ≤ x → c.dpu.mram x ≡ (mc.dpus 0).mram x =
          λ x lo. ap (λ (m : Mram). m x) e ∙ on_dpu_above 0 x lo in
        let search : IsSearchable c.dpu.mram =
          IsSearchable-ext ((mc.dpus 0).mram) c.dpu.mram above ready in
        let (s, runs, outcome) = store_run crypto law pages c h id request free search in
        let same = page_given c.dpu.mram e in
        (
          s.context,
          rw runs refl,
          (
            (λ z. nz (sym (compress-wram crypto c s runs) ∙ z)),
            elim outcome [
              | inl (full, kept) ↦ inl (
                IsFull-ext crypto page ((mc.dpus 0).mram) c.dpu.mram above
                    (subst (λ (p : List ℕ). IsFull crypto p c.dpu.mram) same full.no_room),
                kept,
              )
              | inr stored ↦ inr (
                  subst (λ (p : List ℕ). Holds crypto (put id p pages) s.context.dpu.mram) same
                    stored)
            ],
          ),
        )

    module _ (ran : Machine)
        (runs : Delivers
          (data_of places.out_buffer)
          mc.host
          trans_page
          descriptor_size
          3
          Result
          mc
          ran) where
      cleared : Machine
      cleared = record ran {
        host = all_written 4 0 (write_word (λ j. 0) (id_of places.out_buffer)) ran.host;
      }

      ids_apart : (j k : ℕ) → j < k → id_of places.out_buffer j + 4 ≤ id_of places.out_buffer k
      ids_apart j k h = omega arith

      -- The host's memory outside of the out buffer is as it was.
      cleared_outside :
          (x : ℕ)
          → (x < places.out_buffer) ⊎ (places.out_buffer + 4 * descriptor_size ≤ x)
          → cleared.host x ≡ mc.host x
      unfolding cleared
      cleared_outside x out =
          words_outside (λ j. 0) (id_of places.out_buffer) ids_apart 4 0 ran.host x
            (λ j lo hi. omega arith)
          ∙ ap (λ (m : Mram). m x) runs.host_same

      cleared-IsIdle :
          (pages' : PageMap)
          → Holds crypto pages' (ran.dpus 0).mram
          → IsIdle crypto places pages' cleared
      unfolding cleared Compressed host_word
      cleared-IsIdle pages' h = record {
        first = h;
        empty = λ j lo hi. other j lo (runs.answered j (omega arith));
        wram = λ j hi. has_wram j (runs.answered j (omega arith));
        idle = runs.idle;
        octets =
            words_octets (λ j. 0) (id_of places.out_buffer) ids_apart 4 0 ran.host
              (subst IsBytes (sym runs.host_same) inv.octets);
        unsent = λ j lo hi.
            ap (λ (w : ℕ). bit_and w page_valid)
              (words_inside (λ j. 0) (id_of places.out_buffer) ids_apart 4 0 ran.host j
                (omega arith) hi (omega arith));
      }
        where
          other :
              (j : ℕ)
              → 0 < j
              → Result j ((ran.dpus j).wram) ((ran.dpus j).mram)
              → Holds crypto no_pages (ran.dpus j).mram
          other zero lo q = absurd (omega arith)
          other (suc j) lo q = q.1

          has_wram :
              (j : ℕ) → Result j ((ran.dpus j).wram) ((ran.dpus j).mram) → (ran.dpus j).wram ≢ 0
          has_wram zero q = q.0
          has_wram (suc j) q = q.0

    -- The batch is submitted: the page that waited is then on DPU 0, unless it is full; the host's
    -- memory outside of the out buffer is as it was.
    pub submitted :
        (bmp : ℕ)
        → (mc' : Machine) × (submit crypto places (swap_of bmp mc) ≡ some (swap_of 0 mc'))
          × (((IsFull crypto page ((mc.dpus 0).mram) × IsIdle crypto places pages mc')
                ⊎ IsIdle crypto places (put id page pages) mc')
              × ((x : ℕ)
                  → (x < places.out_buffer) ⊎ (places.out_buffer + 4 * descriptor_size ≤ x)
                  → mc'.host x ≡ mc.host x))
    unfolding submit clear_id prepare_data cleared Compressed
    submitted bmp =
        let (ran, launches, runs) =
          deliver-Delivers crypto places pages mc inv (data_of places.out_buffer) there mc.host
            inv.octets trans_page descriptor_size (omega arith) compress Result 3 (omega arith)
            run_on in
        let prepared = foreach-prepare 4 0 0 (data_of places.out_buffer) mc (omega arith) in
        let back =
          push-nothing every_dpu trans_page descriptor_size ran
            (λ j lo hi. runs.idle j (omega arith)) in
        let (w, outcome) = runs.answered 0 (omega arith) in
        (
          cleared ran runs,
          rw (prepared, launches, back)
              (ap (λ (r : Machine). some (swap_of 0 r))
                (foreach-words 4 0 0 (λ j. 0) (id_of places.out_buffer) ran)),
          (
            elim outcome [
              | inl (full, kept) ↦ inl (full, cleared-IsIdle ran runs pages kept)
              | inr stored ↦ inr (cleared-IsIdle ran runs (put id page pages) stored)
            ],
            cleared_outside ran runs,
          ),
        )
      where
        run_on :
            (j : ℕ) (c : Context)
            → j ≤ 3
            → c.dpu.mram ≡ on_dpu j
            → c.dpu.wram ≢ 0
            → (c' : Context) × (call_main crypto (some compress) c ≡ some c')
              × Result j c'.dpu.wram c'.dpu.mram
        run_on zero c hi e nz = run_first c e nz
        run_on (suc j) c hi e nz = run_other (suc j) c (omega arith) (omega arith) e nz
