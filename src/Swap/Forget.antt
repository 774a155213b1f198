-- ===== src/Swap/Forget.antt =====
-- The message to every DPU in pimswap_frontswap_invalidate_page of module/swap.c, and the runs of
-- dpu_invalidate_main.
use pim_swap.Base.{
  ℕ, zero, suc, ◌+◌, ◌≤◌, ◌<◌, ◌≡◌, ◌≢◌, ◌⊎◌, ◌∙◌, refl, sym, ap, some, arith, ◌==◌, if◌then◌else◌,
  subst, bit_and, bit_or, or_low_high, false,
}
use pim_swap.Mram.{
  Mram, IsBytes, mram_read, mram_write, mram_read_ext, mram_write_outside, IsBytes-mram_write,
}
use pim_swap.Layout.{page_size, trans_page, id_offset}
use pim_swap.Program.{Crypto, Context, page_valid, read_id, dpu_invalidate_main}
use pim_swap.Program.Written.{IsRequest}
use pim_swap.Program.Below.{invalidate_not_valid}
use pim_swap.Program.Kept.{invalidate-wram}
use pim_swap.Program.Word.{word_bytes, word_of_bytes, word-store, word-AreBytes}
use pim_swap.PageMap.{PageMap, no_pages}
use pim_swap.PageMap.Holds.{Holds}
use pim_swap.Host.{
  Machine, invalidate, dpu_xfer_to_dpu, dpu_push_xfer, dpu_load, dpu_launch, call_main,
}
use pim_swap.Swap.Deliver.{asked, given, Delivers, given-Holds, deliver-Delivers}
use pim_swap.Swap.{Places, id_of, set_host, foreach, prepare_invalidate}
use pim_swap.Swap.Prepare.{all_written, foreach-round}
use pim_swap.Swap.System.{every_dpu, IsPlaced, IsIdle, transferred_start, host_word_ext}

-- What the run on DPU j leaves.
Forgotten : Crypto → PageMap → ℕ → ℕ → Mram → Type 0
Forgotten crypto pages zero w m = (w ≢ 0) × Holds crypto pages m
Forgotten crypto pages (suc j) w m = (w ≢ 0) × Holds crypto no_pages m

module _ (crypto : Crypto) (places : Places) (placed : IsPlaced places) (pages pages' : PageMap)
    (mc : Machine) (inv : IsIdle crypto places pages mc) (id : ℕ) (small : id < page_valid)
    (effect : (c : Context)
      → IsRequest id c
      → Holds crypto pages c.dpu.mram
      → Holds crypto pages' (dpu_invalidate_main c).context.dpu.mram) where
  zeroed : Machine
  zeroed = set_host (word_bytes 0) places.invalidate_id_dummy mc

  buffer : ℕ → ℕ
  buffer j = if j == 0 then places.invalidate_id else places.invalidate_id_dummy

  told_host : Mram
  told_host =
      mram_write (word_bytes (bit_or id page_valid)) places.invalidate_id
        (mram_write (word_bytes 0) places.invalidate_id_dummy mc.host)

  told_lem :
      foreach 4 0 0 (prepare_invalidate crypto places 0 id) zeroed ≡ asked buffer told_host mc
  unfolding prepare_invalidate set_host zeroed told_host buffer foreach all_written
  told_lem =
      foreach-round 4 0 0 (λ j. if j == 0 then places.invalidate_id else places.invalidate_id_dummy)
        (λ j m.
          if j == 0
          then mram_write (word_bytes (bit_or id page_valid)) places.invalidate_id m
          else m)
        zeroed (omega arith)

  told_outside :
      (x : ℕ)
      → (x < places.invalidate_id) ⊎ (places.invalidate_id + 4 ≤ x)
      → (x < places.invalidate_id_dummy) ⊎ (places.invalidate_id_dummy + 4 ≤ x)
      → told_host x ≡ mc.host x
  unfolding told_host word_bytes
  told_outside x one two =
      mram_write_outside _ places.invalidate_id _ x one
      ∙ mram_write_outside _ places.invalidate_id_dummy mc.host x two

  told_octets : IsBytes told_host
  unfolding told_host
  told_octets =
      IsBytes-mram_write _ places.invalidate_id _ (word-AreBytes (bit_or id page_valid))
        (IsBytes-mram_write _ places.invalidate_id_dummy mc.host (word-AreBytes 0) inv.octets)

  told_id : word_of_bytes (mram_read told_host places.invalidate_id 4) ≡ id + page_valid
  unfolding told_host
  told_id =
      word-store (bit_or id page_valid) places.invalidate_id _
        (omega (arith, or_low_high 31 1 id small))
      ∙ omega (arith, or_low_high 31 1 id small)

  told_dummy : word_of_bytes (mram_read told_host places.invalidate_id_dummy 4) ≡ 0
  unfolding told_host
  told_dummy =
      ap word_of_bytes (
        mram_read_ext told_host (mram_write (word_bytes 0) places.invalidate_id_dummy mc.host)
          places.invalidate_id_dummy 4
          (λ x lo hi.
            unfold word_bytes in
            mram_write_outside _ places.invalidate_id _ x (omega (arith, placed.words_apart))))
      ∙ word-store 0 places.invalidate_id_dummy mc.host (omega arith)

  there : (j : ℕ) → buffer j ≢ 0
  unfolding buffer
  there j = ground (arith, placed.id_there, placed.dummy_there)

  abbrev on_dpu : ℕ → Mram
  on_dpu = given buffer told_host (trans_page + page_size) 4 mc

  on_dpu-Holds :
      (j : ℕ) (known : PageMap)
      → Holds crypto known (mc.dpus j).mram
      → Holds crypto known (on_dpu j)
  on_dpu-Holds =
      given-Holds crypto places pages mc inv buffer there told_host told_octets
        (trans_page + page_size) 4 (omega arith)

  read_id-on_dpu : (j : ℕ) → read_id (on_dpu j) ≡ word_of_bytes (mram_read told_host (buffer j) 4)
  unfolding read_id
  read_id-on_dpu j =
      ap word_of_bytes
        (transferred_start told_host (buffer j) id_offset 4 ((mc.dpus j).mram) 4 (omega arith))

  -- The run on DPU 0, and on another.
  run_first :
      (c : Context)
      → c.dpu.mram ≡ on_dpu 0
      → c.dpu.wram ≢ 0
      → (c' : Context) × (call_main crypto (some invalidate) c ≡ some c')
        × Forgotten crypto pages' 0 c'.dpu.wram c'.dpu.mram
  unfolding call_main Forgotten buffer
  run_first c e nz =
      let request : IsRequest id c = record {
        has_wram = nz;
        id_range = small;
        id_word = ap read_id e ∙ read_id-on_dpu 0 ∙ told_id;
      } in
      (
        (dpu_invalidate_main c).context,
        refl,
        (
          (λ z. nz (sym (invalidate-wram c) ∙ z)),
          effect c request (subst (Holds crypto pages) (sym e) (on_dpu-Holds 0 pages inv.first)),
        ),
      )

  run_other :
      (j : ℕ) (c : Context)
      → suc j < 4
      → c.dpu.mram ≡ on_dpu (suc j)
      → c.dpu.wram ≢ 0
      → (c' : Context) × (call_main crypto (some invalidate) c ≡ some c')
        × Forgotten crypto pages' (suc j) c'.dpu.wram c'.dpu.mram
  unfolding call_main Forgotten buffer
  run_other j c hi e nz =
      let not_first : (suc j == 0) ≡ false = ground arith in
      let word : read_id c.dpu.mram ≡ 0 =
        ap read_id e ∙ read_id-on_dpu (suc j) ∙ rw not_first told_dummy in
      let off : bit_and (read_id c.dpu.mram) page_valid ≡ 0 =
        ap (λ (w : ℕ). bit_and w page_valid) word in
      let h : Holds crypto no_pages c.dpu.mram =
        subst (Holds crypto no_pages) (sym e)
          (on_dpu-Holds (suc j) no_pages (inv.empty (suc j) (omega arith) hi)) in
      (
        (dpu_invalidate_main c).context,
        refl,
        (
          (λ z. nz (sym (invalidate-wram c) ∙ z)),
          subst (λ r. Holds crypto no_pages r.context.dpu.mram) (sym (invalidate_not_valid c off))
              h,
        ),
      )

  module _ (ran : Machine)
      (runs : Delivers buffer told_host
        (trans_page + page_size)
        4
        3
        (Forgotten crypto pages')
        mc
        ran) where
    ran-IsIdle : IsIdle crypto places pages' ran
    unfolding Forgotten
    ran-IsIdle = record {
      first = (runs.answered 0 (omega arith)).1;
      empty = λ j lo hi. other j lo (runs.answered j (omega arith));
      wram = λ j hi. has_wram j (runs.answered j (omega arith));
      idle = runs.idle;
      octets = subst IsBytes (sym runs.host_same) told_octets;
      unsent = λ j lo hi.
          ap (λ (w : ℕ). bit_and w page_valid)
            (host_word_ext (id_of places.out_buffer j) mc ran (λ x from to.
              ap (λ (m : Mram). m x) runs.host_same
              ∙ told_outside x (omega (arith, placed.id_out)) (omega (arith, placed.dummy_out))))
          ∙ inv.unsent j lo hi;
    }
      where
        other :
            (j : ℕ)
            → 0 < j
            → Forgotten crypto pages' j ((ran.dpus j).wram) ((ran.dpus j).mram)
            → Holds crypto no_pages (ran.dpus j).mram
        other zero lo q = absurd (omega arith)
        other (suc j) lo q = q.1

        has_wram :
            (j : ℕ)
            → Forgotten crypto pages' j ((ran.dpus j).wram) ((ran.dpus j).mram)
            → (ran.dpus j).wram ≢ 0
        has_wram zero q = q.0
        has_wram (suc j) q = q.0

  -- The message is sent and answered, and the host's memory is as it was but for the two words.
  pub forget-IsIdle :
      (ran : Machine) × (dpu_launch crypto every_dpu (
          dpu_load every_dpu invalidate (
            dpu_push_xfer every_dpu dpu_xfer_to_dpu (trans_page + page_size) 4 (
              foreach 4 0 0
                (prepare_invalidate crypto places 0 id)
                (set_host (word_bytes 0) places.invalidate_id_dummy mc))))
        ≡ some ran)
      × (IsIdle crypto places pages' ran
          × ((x : ℕ)
              → (x < places.invalidate_id) ⊎ (places.invalidate_id + 4 ≤ x)
              → (x < places.invalidate_id_dummy) ⊎ (places.invalidate_id_dummy + 4 ≤ x)
              → ran.host x ≡ mc.host x))
  unfolding zeroed
  forget-IsIdle =
      let (ran, launches, runs) =
        deliver-Delivers crypto places pages mc inv buffer there told_host told_octets
          (trans_page + page_size) 4 (omega arith) invalidate (Forgotten crypto pages') 3
          (omega arith) run_on in
      (
        ran,
        rw told_lem launches,
        (
          ran-IsIdle ran runs,
          λ x one two. ap (λ (m : Mram). m x) runs.host_same ∙ told_outside x one two,
        ),
      )
    where
      run_on :
          (j : ℕ) (c : Context)
          → j ≤ 3
          → c.dpu.mram ≡ on_dpu j
          → c.dpu.wram ≢ 0
          → (c' : Context) × (call_main crypto (some invalidate) c ≡ some c')
            × Forgotten crypto pages' j c'.dpu.wram c'.dpu.mram
      run_on zero c hi e nz = run_first c e nz
      run_on (suc j) c hi e nz = run_other j c (omega arith) e nz
