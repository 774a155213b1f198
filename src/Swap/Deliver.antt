-- ===== src/Swap/Deliver.antt =====
-- One message of module/swap.c to the DPUs: a buffer for each is pushed into its MRAM below the
-- directory, a program is loaded, and run on the first DPUs of the set.
use pim_swap.Base.{ℕ, ◌+◌, ◌≤◌, ◌<◌, ◌≡◌, ◌≢◌, inr, ◌∙◌, refl, sym, ap, some, arith}
use pim_swap.Mram.{Mram, IsBytes}
use pim_swap.Layout.{directory}
use pim_swap.Program.{Crypto, Context}
use pim_swap.Program.Wram.{Dpu}
use pim_swap.PageMap.{PageMap}
use pim_swap.PageMap.Holds.{Holds, Holds-ext}
use pim_swap.Host.{
  DpuSet, Machine, Main, dpu_xfer_to_dpu, dpu_push_xfer, dpu_load, dpu_launch, call_main,
}
use pim_swap.Host.Batch.{Sends, push-Sends}
use pim_swap.Host.Launch.{fresh, Runs, launch-Launches, load_lem, loaded, loaded_inside}
use pim_swap.Swap.{Places}
use pim_swap.Swap.Prepare.{all_prepared, prepared_inside}
use pim_swap.Swap.System.{every_dpu, IsIdle, transferred, transferred-IsBytes, transferred_above}

-- The machine with the buffers prepared and the host's memory written.
abbrev pub asked : (ℕ → ℕ) → Mram → Machine → Machine
asked at host mc = record mc { push_data = all_prepared 4 0 at mc.push_data; host = host }

abbrev pub delivered : (ℕ → ℕ) → Mram → ℕ → ℕ → Machine → Machine
delivered at host addr len mc = dpu_push_xfer every_dpu dpu_xfer_to_dpu addr len (asked at host mc)

-- The MRAM of DPU j with its buffer.
abbrev pub given : (ℕ → ℕ) → Mram → ℕ → ℕ → Machine → ℕ → Mram
given at host addr len mc j = transferred host (at j) addr len ((mc.dpus j).mram)

-- A machine after the program ran on the DPUs up to `last`, of those that were given a message.
pub record Delivers (at : ℕ → ℕ) (host : Mram) (addr len last : ℕ) (Q : ℕ → ℕ → Mram → Type 0)
    (mc ran : Machine) : Type 0 where
  pub host_same : ran.host ≡ host
  pub idle : (j : ℕ) → j < 4 → ran.push_data j ≡ 0
  pub answered : (j : ℕ) → j ≤ last → Q j ((ran.dpus j).wram) ((ran.dpus j).mram)
  pub waiting :
      (j : ℕ)
      → last < j
      → j < 4
      → ((ran.dpus j).mram ≡ given at host addr len mc j) × ((ran.dpus j).wram ≡ (mc.dpus j).wram)

module _ (crypto : Crypto) (places : Places) (pages : PageMap) (mc : Machine)
    (inv : IsIdle crypto places pages mc) (at : ℕ → ℕ) (there : (j : ℕ) → at j ≢ 0) (host : Mram)
    (octets : IsBytes host) (addr len : ℕ) (low : addr + len ≤ directory) where
  sends : Sends 0 4 addr len (asked at host mc) (delivered at host addr len mc)
  sends = push-Sends every_dpu addr len (asked at host mc) (omega arith)

  sent_dpu :
      (j : ℕ)
      → j < 4
      → ((delivered at host addr len mc).dpus j).mram ≡ given at host addr len mc j
        × (((delivered at host addr len mc).dpus j).wram ≡ (mc.dpus j).wram)
  sent_dpu j h =
      let same : (asked at host mc).push_data j ≡ at j =
        prepared_inside 4 0 at mc.push_data j (omega arith) (omega arith) in
      let d = sends.reached j (omega arith) h (λ z. there j (sym same ∙ z)) in
      (ap (λ d. d.mram) d ∙ rw same refl, ap (λ d. d.wram) d)

  pub given_above : (j x : ℕ) → directory ≤ x → given at host addr len mc j x ≡ (mc.dpus j).mram x
  given_above j = transferred_above host (at j) addr len ((mc.dpus j).mram) low

  -- The pages of a DPU are not touched by the message.
  pub given-Holds :
      (j : ℕ) (known : PageMap)
      → Holds crypto known (mc.dpus j).mram
      → Holds crypto known (given at host addr len mc j)
  given-Holds j known h =
      Holds-ext crypto known ((mc.dpus j).mram) (given at host addr len mc j) (given_above j)
        (transferred-IsBytes host (at j) addr len ((mc.dpus j).mram) octets h.well_formed.bytes) h

  -- The whole message, from what the program does on each DPU with its buffer.
  pub deliver-Delivers :
      (main : Main) (Q : ℕ → ℕ → Mram → Type 0) (last : ℕ)
      → last < 4
      → ((j : ℕ) (c : Context)
          → j ≤ last
          → c.dpu.mram ≡ given at host addr len mc j
          → c.dpu.wram ≢ 0
          → (c' : Context) × (call_main crypto (some main) c ≡ some c')
            × Q j c'.dpu.wram c'.dpu.mram)
      → (ran : Machine) × (dpu_launch crypto
            (record { rank_id = 0; start = 0; last = last })
            (dpu_load every_dpu main (delivered at host addr len mc))
          ≡ some ran)
        × Delivers at host addr len last Q mc ran
  deliver-Delivers main Q last few runs =
      let sent = delivered at host addr len mc in
      let set : DpuSet = record { rank_id = 0; start = 0; last = last } in
      let (ran, launches, launched) =
        launch-Launches crypto Q set ready (omega arith) (λ j lo hi. on_dpu j hi) in
      (
        ran,
        ap (dpu_launch crypto set) (load_lem every_dpu main sent) ∙ launches,
        record {
          host_same = launched.host ∙ sends.host;
          idle = λ j hi. ap (λ p. p j) launched.push_data ∙ sends.consumed j (omega arith) hi;
          answered = λ j hi. launched.ran j (omega arith) (omega arith);
          waiting = λ j lo hi.
              let same = launched.others j (inr (omega arith)) in
              let (m, w) = sent_dpu j hi in
              (ap (λ (d : Dpu). d.mram) same ∙ m, ap (λ (d : Dpu). d.wram) same ∙ w);
        },
      )
    where
      ready : Machine
      ready =
          let sent = delivered at host addr len mc in
          record sent { mains = loaded 4 main 0 sent.mains }

      on_dpu : (j : ℕ) → j ≤ last → Runs crypto (Q j) j ready
      on_dpu j hi st n =
          let sent = delivered at host addr len mc in
          let (m, w) = sent_dpu j (omega arith) in
          rw (loaded_inside 4 main 0 sent.mains j (omega arith) (omega arith)) (
            runs j (record { dpu = fresh (sent.dpus j); stats = st; uncompressable = n }) hi m
              (λ z. inv.wram j (omega arith) (sym w ∙ z)))
