-- ===== src/Host/Allocate.antt =====
-- dpu_alloc of module/dpu.c where the kernel gives every memory that is asked for.
use pim_swap.Base.{
  ℕ, zero, suc, ◌+◌, ◌*◌, ◌^◌, ◌≤◌, ◌<◌, ◌≡◌, ◌≢◌, ◌⊎◌, inl, refl, ap, ◌∙◌, true, false, ◌==◌, ltb,
  arith, ℕ_discrete, u32,
}
use pim_swap.Layout.{page_size, mram_per_dpu}
use pim_swap.Page.Blank.{blank}
use pim_swap.Program.Wram.{Dpu}
use pim_swap.Host.{DpuSet, Machine, KernelMemory, dpu_ok, alloc_loop, dpu_alloc, update}

-- The kernel has enough memory for the DPUs.
pub record HasMemory (k : KernelMemory) : Type 0 where
  pub enough : 4 * (2 ^ 26 + 65536) ≤ k.totalram * page_size
  pub mram : (j : ℕ) → j < 4 → k.vmalloc_mram j ≢ 0
  pub wram : (j : ℕ) → j < 4 → k.vmalloc_wram j ≢ 0

-- A DPU with its new memories.
abbrev pub renewed : KernelMemory → ℕ → Dpu → Dpu
renewed k i d = record d { mram = blank; wram = k.vmalloc_wram i; wram_heap = 0; flags = 0 }

pub all_renewed : KernelMemory → ℕ → ℕ → (ℕ → Dpu) → ℕ → Dpu
all_renewed k zero i dpus = dpus
all_renewed k (suc left) i dpus = all_renewed k left (i + 1) (update dpus i (renewed k i (dpus i)))

renewed_outside :
    (k : KernelMemory) (left i : ℕ) (dpus : ℕ → Dpu) (j : ℕ)
    → (j < i) ⊎ (i + left ≤ j)
    → all_renewed k left i dpus j ≡ dpus j
unfolding all_renewed
renewed_outside k zero i dpus j out = refl
renewed_outside k (suc left) i dpus j out =
    renewed_outside k left (i + 1) (update dpus i (renewed k i (dpus i))) j (omega arith)
    ∙ ground arith

pub renewed_inside :
    (k : KernelMemory) (left i : ℕ) (dpus : ℕ → Dpu) (j : ℕ)
    → i ≤ j
    → j < i + left
    → ((all_renewed k left i dpus j).mram ≡ blank)
      × ((all_renewed k left i dpus j).wram ≡ k.vmalloc_wram j)
unfolding all_renewed
renewed_inside k zero i dpus j lo hi = absurd (omega arith)
renewed_inside k (suc left) i dpus j lo hi =
    let step = update dpus i (renewed k i (dpus i)) in
    elim (ℕ_discrete i j) [
      | yes e ↦
          let here = renewed_outside k left (i + 1) step j (inl (omega arith)) in
          let self : (i == j) ≡ true = ground arith in
          (
            ap (λ (d : Dpu). d.mram) here ∙ rw self refl,
            ap (λ (d : Dpu). d.wram) here ∙ rw self (ap k.vmalloc_wram e),
          )
      | no ne ↦ renewed_inside k left (i + 1) step j (omega arith) (omega arith)
    ]

alloc_loop_lem :
    (k : KernelMemory) (left i : ℕ) (mc : Machine)
    → ((j : ℕ) → i ≤ j → j < i + left → k.vmalloc_mram j ≢ 0)
    → ((j : ℕ) → i ≤ j → j < i + left → k.vmalloc_wram j ≢ 0)
    → alloc_loop k left i mc ≡ (dpu_ok, record mc { dpus = all_renewed k left i mc.dpus })
unfolding alloc_loop all_renewed
alloc_loop_lem k zero i mc m w = refl
alloc_loop_lem k (suc left) i mc m w =
    let some_mram : (k.vmalloc_mram i == 0) ≡ false =
      ground (arith, m i (omega arith) (omega arith)) in
    let some_wram : (k.vmalloc_wram i == 0) ≡ false =
      ground (arith, w i (omega arith) (omega arith)) in
    rw (some_mram, some_wram)
      (alloc_loop_lem k left (i + 1)
        (record mc { dpus = update mc.dpus i (renewed k i (mc.dpus i)) })
        (λ j lo hi. m j (omega arith) (omega arith)) (λ j lo hi. w j (omega arith) (omega arith)))

-- With enough memory dpu_alloc of all DPUs succeeds.
pub dpu_alloc_lem :
    (k : KernelMemory) (set : DpuSet) (mc : Machine)
    → HasMemory k
    → mc.allocated ≡ 0
    → dpu_alloc k 0xffff_ffff set mc ≡ (
      dpu_ok,
      record { rank_id = 0; start = 0; last = 3 },
      record mc { allocated = 1; dpus = all_renewed k 4 0 mc.dpus },
    )
unfolding dpu_alloc
dpu_alloc_lem k set mc h free =
    let unallocated : (mc.allocated == 0) ≡ true = ground arith in
    let enough : ltb (k.totalram * page_size) (u32 (4 * (mram_per_dpu + 65536))) ≡ false =
      ground (arith, h.enough) in
    rw
      (
        unallocated,
        enough,
        alloc_loop_lem k 4 0 (record mc { allocated = 1 }) (λ j lo hi. h.mram j (omega arith))
            (λ j lo hi. h.wram j (omega arith)),
      )
      refl
