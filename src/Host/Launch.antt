-- ===== src/Host/Launch.antt =====
-- dpu_load and dpu_launch of module/dpu.c over a set of DPUs, from what the program does on each.
use pim_swap.Base.{
  ℕ, zero, suc, ◌+◌, ◌≤◌, ◌<◌, ◌≡◌, ◌⊎◌, inl, inr, refl, ◌∙◌, Option, some, arith, ℕ_discrete,
}
use pim_swap.Mram.{Mram}
use pim_swap.Page.{Statistics}
use pim_swap.Program.{Crypto, Context}
use pim_swap.Program.Wram.{Dpu}
use pim_swap.Host.{
  DpuSet, Machine, Main, load_loop, launch_one, launch_loop, call_main, store_context, update,
  dpu_load, dpu_launch, set_size,
}

-- The programs after a load on the DPUs from i on.
pub loaded : ℕ → Main → ℕ → (ℕ → Option Main) → ℕ → Option Main
loaded zero main i mains = mains
loaded (suc left) main i mains = loaded left main (i + 1) (update mains i (some main))

load_loop_lem :
    (left : ℕ) (main : Main) (i : ℕ) (mc : Machine)
    → load_loop left main i mc ≡ record mc { mains = loaded left main i mc.mains }
unfolding load_loop loaded
load_loop_lem zero main i mc = refl
load_loop_lem (suc left) main i mc =
    load_loop_lem left main (i + 1) (record mc { mains = update mc.mains i (some main) })

pub load_lem :
    (set : DpuSet) (main : Main) (mc : Machine)
    → dpu_load set main mc ≡ record mc { mains = loaded (set_size set) main set.start mc.mains }
unfolding dpu_load
load_lem set main mc = load_loop_lem (set_size set) main set.start mc

loaded_outside :
    (left : ℕ) (main : Main) (i : ℕ) (mains : ℕ → Option Main) (j : ℕ)
    → (j < i) ⊎ (i + left ≤ j)
    → loaded left main i mains j ≡ mains j
unfolding loaded
loaded_outside zero main i mains j out = refl
loaded_outside (suc left) main i mains j out =
    loaded_outside left main (i + 1) (update mains i (some main)) j (omega arith) ∙ ground arith

pub loaded_inside :
    (left : ℕ) (main : Main) (i : ℕ) (mains : ℕ → Option Main) (j : ℕ)
    → i ≤ j
    → j < i + left
    → loaded left main i mains j ≡ some main
unfolding loaded
loaded_inside zero main i mains j lo hi = absurd (omega arith)
loaded_inside (suc left) main i mains j lo hi = elim (ℕ_discrete i j) [
  | yes e ↦
      loaded_outside left main (i + 1) (update mains i (some main)) j (inl (omega arith))
      ∙ ground arith
  | no ne ↦
      loaded_inside left main (i + 1) (update mains i (some main)) j (omega arith) (omega arith)
]

-- The state in which a program starts on a DPU.
abbrev pub fresh : Dpu → Dpu
fresh d = record d { current_tasklet = 0; wram_heap = 0 }

-- The program of DPU j runs, whatever the statistics are, and leaves a WRAM and an MRAM with Q.
abbrev pub Runs : Crypto → (ℕ → Mram → Type 0) → ℕ → Machine → Type 0
Runs crypto Q j mc =
    (st : Statistics) (n : ℕ)
    → (c : Context) × (call_main crypto (mc.mains j)
          (record { dpu = fresh (mc.dpus j); stats = st; uncompressable = n })
        ≡ some c)
      × Q c.dpu.wram c.dpu.mram

-- A machine after the programs of the DPUs from lo up to hi ran.
pub record Launches (Q : ℕ → ℕ → Mram → Type 0) (lo hi : ℕ) (mc mc' : Machine) : Type 0 where
  pub host : mc'.host ≡ mc.host
  pub push_data : mc'.push_data ≡ mc.push_data
  pub mains : mc'.mains ≡ mc.mains
  pub ran : (j : ℕ) → lo ≤ j → j < hi → Q j ((mc'.dpus j).wram) ((mc'.dpus j).mram)
  pub others : (j : ℕ) → (j < lo) ⊎ (hi ≤ j) → mc'.dpus j ≡ mc.dpus j

module _ (crypto : Crypto) (Q : ℕ → ℕ → Mram → Type 0) where
  launch_one-Launches :
      (i : ℕ) (mc : Machine)
      → Runs crypto (Q i) i mc
      → (mc' : Machine) × (launch_one crypto i mc ≡ some mc') × Launches Q i (i + 1) mc mc'
  unfolding launch_one store_context
  launch_one-Launches i mc runs =
      let (c, call, q) = runs mc.stats mc.uncompressable in
      let d' = c.dpu in
      (
        store_context i (record c { dpu = record d' { current_tasklet = 1 } })
            (record mc { current_dpu = i }),
        rw call refl,
        record {
          host = refl;
          push_data = refl;
          mains = refl;
          ran = λ j lo hi. let same : j ≡ i = omega arith in rw same (ground (arith, q));
          others = λ j out. ground arith;
        },
      )

  Launches-next :
      (i hi : ℕ) (mc mc1 mc2 : Machine)
      → i < hi
      → Launches Q i (i + 1) mc mc1
      → Launches Q (i + 1) hi mc1 mc2
      → Launches Q i hi mc mc2
  Launches-next i hi mc mc1 mc2 some_left one rest = record {
    host = rest.host ∙ one.host;
    push_data = rest.push_data ∙ one.push_data;
    mains = rest.mains ∙ one.mains;
    ran = λ j lo up. elim (ℕ_discrete i j) [
      | yes e ↦ let kept = rest.others j (inl (omega arith)) in rw kept (one.ran j lo (omega arith))
      | no ne ↦ rest.ran j (omega arith) up
    ];
    others = λ j out. rest.others j (omega arith) ∙ one.others j (omega arith);
  }

  launch_loop-Launches :
      (left hi i : ℕ) (mc : Machine)
      → i + left ≡ hi
      → ((j : ℕ) → i ≤ j → j < hi → Runs crypto (Q j) j mc)
      → (mc' : Machine) × (launch_loop crypto left i mc ≡ some mc') × Launches Q i hi mc mc'
  unfolding launch_loop
  launch_loop-Launches zero hi i mc e runs = (
    mc,
    refl,
    record {
      host = refl;
      push_data = refl;
      mains = refl;
      ran = λ j lo up. absurd (omega arith);
      others = λ j out. refl;
    },
  )
  launch_loop-Launches (suc left) hi i mc e runs =
      let (mc1, one_runs, one) = launch_one-Launches i mc (runs i (omega arith) (omega arith)) in
      let (mc2, rest_runs, rest) =
        launch_loop-Launches left hi (i + 1) mc1 (omega arith) λ j lo up st n.
          let kept = one.others j (inr (omega arith)) in
          rw (kept, one.mains) (runs j (omega arith) up st n) in
      (mc2, rw one_runs rest_runs, Launches-next i hi mc mc1 mc2 (omega arith) one rest)

  -- dpu_launch of a program on a set is defined where the program is on each DPU, and leaves on
  -- each what the program leaves.
  pub launch-Launches :
      (set : DpuSet) (mc : Machine)
      → set.start ≤ set.last
      → ((j : ℕ) → set.start ≤ j → j ≤ set.last → Runs crypto (Q j) j mc)
      → (mc' : Machine) × (dpu_launch crypto set mc ≡ some mc')
        × Launches Q set.start (set.last + 1) mc mc'
  unfolding dpu_launch
  launch-Launches set mc h runs =
      launch_loop-Launches (set_size set) (set.last + 1) set.start mc (omega arith)
        (λ j lo up. runs j lo (omega arith))
