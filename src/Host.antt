-- ===== src/Host.antt =====
-- The simulated DPU interface of module/dpu.c: the state of a rank, transfers between host buffers
-- and MRAM, and the launch of a program on each DPU of a set.
pub mod Transfer
pub mod Batch
pub mod Launch
pub mod Allocate
use pim_swap.Base.{
  ℕ, zero, suc, ◌+◌, ◌-◌, ◌*◌, ◌%◌, ◌^◌, Bool, true, false, Option, none, some, List, u32, ltb,
  ◌==◌, not, if◌then◌else◌,
}
use pim_swap.Mram.{Mram, mram_read, mram_write}
use pim_swap.Layout.{mram_per_dpu, page_size}
use pim_swap.Page.{Statistics, on_value}
use pim_swap.Program.{
  Crypto, Context, Ran, dpu_invalidate_main, lzo_compress_main, lzo_decompress_main,
}
use pim_swap.Program.Wram.{Dpu}

-- DPUS_PER_RANK
abbrev pub dpus_per_rank : ℕ
dpus_per_rank = 4

-- The values of dpu_error_t that the simulation returns.
pub data DpuError : Type 0 where
  dpu_ok dpu_err_internal dpu_err_allocation dpu_err_invalid_dpu_set : DpuError

pub data Direction : Type 0 where
  dpu_xfer_to_dpu dpu_xfer_from_dpu : Direction

-- The functions that the module loads on a DPU.
pub data Main : Type 0 where
  invalidate decompress compress : Main

-- struct dpu_set_t; `last` is its field `end`.
pub record DpuSet : Type 0 where
  pub rank_id : ℕ
  pub start : ℕ
  pub last : ℕ

-- The static variables of dpu.c, the host's memory, and the statistics. push_data holds host
-- addresses, 0 for NULL.
pub record Machine : Type 0 where
  pub allocated : ℕ
  pub current_dpu : ℕ
  pub dpus : ℕ → Dpu
  pub mains : ℕ → Option Main
  pub push_data : ℕ → ℕ
  pub host : Mram
  pub stats : Statistics
  pub uncompressable : ℕ

abbrev pub update {ℓ} : {A : Type ℓ} → (ℕ → A) → ℕ → A → ℕ → A
update f i v j = if i == j then v else f j

-- The number of DPUs that a loop over the set visits.
abbrev pub set_size : DpuSet → ℕ
set_size s = s.last + 1 - s.start

-- dpu_prepare_xfer
unfoldable pub dpu_prepare_xfer : DpuSet → ℕ → Machine → DpuError × Machine
dpu_prepare_xfer set buffer mc =
    if not (u32 (set.last + 2 ^ 32 - set.start + 1) == 1)
    then (dpu_err_invalid_dpu_set, mc)
    else (dpu_ok, record mc { push_data = update mc.push_data set.start buffer })

-- One round of the loop of __dpu_push_xfer.
unfoldable pub push_one : Direction → ℕ → ℕ → ℕ → Machine → Machine
push_one dpu_xfer_to_dpu addr length i mc =
    let d = mc.dpus i in
    let m = mram_write (mram_read mc.host (mc.push_data i) length) addr d.mram in
    if mc.push_data i == 0 then mc else record mc {
      dpus = update mc.dpus i (record d { mram = m });
      push_data = update mc.push_data i 0;
    }
push_one dpu_xfer_from_dpu addr length i mc =
    let d = mc.dpus i in
    if mc.push_data i == 0 then mc else record mc {
      host = mram_write (mram_read d.mram addr length) (mc.push_data i) mc.host;
      push_data = update mc.push_data i 0;
    }

push_loop : ℕ → Direction → ℕ → ℕ → ℕ → Machine → Machine
push_loop zero dir addr length i mc = mc
push_loop (suc left) dir addr length i mc =
    push_loop left dir addr length (i + 1) (push_one dir addr length i mc)

-- __dpu_push_xfer, whose symbol_addr and symbol_offset are used as their sum. It returns DPU_OK.
unfoldable pub dpu_push_xfer : DpuSet → Direction → ℕ → ℕ → Machine → Machine
unfolding push_loop
dpu_push_xfer set dir addr length mc = push_loop (set_size set) dir addr length set.start mc

-- __dpu_copy_to: the loop runs over indices from 0, whatever the set's start.
copy_loop : ℕ → List ℕ → ℕ → ℕ → Machine → Machine
copy_loop zero bytes addr i mc = mc
copy_loop (suc left) bytes addr i mc =
    let d = mc.dpus i in
    copy_loop left bytes addr (i + 1)
      (record mc { dpus = update mc.dpus i (record d { mram = mram_write bytes addr d.mram }) })

unfoldable pub dpu_copy_to : DpuSet → ℕ → List ℕ → Machine → Machine
unfolding copy_loop
dpu_copy_to set addr bytes mc = copy_loop (set_size set) bytes addr 0 mc

load_loop : ℕ → Main → ℕ → Machine → Machine
load_loop zero main i mc = mc
load_loop (suc left) main i mc =
    load_loop left main (i + 1) (record mc { mains = update mc.mains i (some main) })

-- dpu_load
unfoldable pub dpu_load : DpuSet → Main → Machine → Machine
unfolding load_loop
dpu_load set main mc = load_loop (set_size set) main set.start mc

-- dpu_free: the memories are handed back, and a new allocation is possible.
unfoldable pub dpu_free : Machine → DpuError × Machine
dpu_free mc = (dpu_ok, record mc { allocated = 0 })

-- The state after a program, put back into the machine.
pub store_context : ℕ → Context → Machine → Machine
store_context i c mc = record mc {
  dpus = update mc.dpus i c.dpu;
  stats = c.stats;
  uncompressable = c.uncompressable;
}

module _ (crypto : Crypto) where
  -- `dpus[dpu_id].main()`; the result is not looked at. `none`: a call through a pointer that was
  -- never set, or a program that reads a variable without a value.
  unfoldable pub call_main : Option Main → Context → Option Context
  call_main none c = none
  call_main (some invalidate) c = some (dpu_invalidate_main c).context
  call_main (some decompress) c = some (lzo_decompress_main crypto c).context
  call_main (some compress) c = on_value (lzo_compress_main crypto c) λ r. some r.context

  -- One round of dpu_launch, for the single tasklet (NR_TASKLETS is 1). The tasklet's number is 1
  -- when its loop ends.
  unfoldable pub launch_one : ℕ → Machine → Option Machine
  launch_one i mc =
      let d = mc.dpus i in
      let fresh = record d { current_tasklet = 0; wram_heap = 0 } in
      on_value
        (call_main (mc.mains i)
          (record { dpu = fresh; stats = mc.stats; uncompressable = mc.uncompressable }))
        λ c.
          let d' = c.dpu in
          some (
            store_context i (record c { dpu = record d' { current_tasklet = 1 } })
              (record mc { current_dpu = i }))

  launch_loop : ℕ → ℕ → Machine → Option Machine
  launch_loop zero i mc = some mc
  launch_loop (suc left) i mc = on_value (launch_one i mc) λ mc'. launch_loop left (i + 1) mc'

  -- dpu_launch
  unfoldable pub dpu_launch : DpuSet → Machine → Option Machine
  unfolding launch_loop
  dpu_launch set mc = launch_loop (set_size set) set.start mc

-- The kernel's memory: the pages of RAM that si_meminfo reports, and the addresses that vmalloc
-- returns for the MRAM and the WRAM of each DPU, 0 for NULL.
pub record KernelMemory : Type 0 where
  pub totalram : ℕ
  pub vmalloc_mram : ℕ → ℕ
  pub vmalloc_wram : ℕ → ℕ

module _ (k : KernelMemory) where
  -- The loop of dpu_alloc from DPU i on: a new MRAM is zeroed.
  pub alloc_loop : ℕ → ℕ → Machine → DpuError × Machine
  alloc_loop zero i mc = (dpu_ok, mc)
  alloc_loop (suc left) i mc =
      let d = mc.dpus i in
      let with_zeros = record d { mram = λ x. 0; wram_heap = 0; flags = 0 } in
      let with_both = record d {
        mram = λ x. 0;
        wram = k.vmalloc_wram i;
        wram_heap = 0;
        flags = 0;
      } in
      let on = alloc_loop left (i + 1) (record mc { dpus = update mc.dpus i with_both }) in
      if k.vmalloc_mram i == 0
      then (
        dpu_err_allocation,
        record mc { dpus = update mc.dpus i (record d { wram_heap = 0; flags = 0 }) },
      )
      else if k.vmalloc_wram i == 0
      then (
        dpu_err_allocation,
        record mc { dpus = update mc.dpus i (record with_zeros { wram = 0 }) },
      )
      else on

  -- dpu_alloc; DPU_ALLOCATE_ALL is U32_MAX. The set is written in every case but the first.
  unfoldable pub dpu_alloc : ℕ → DpuSet → Machine → DpuError × DpuSet × Machine
  dpu_alloc nr_dpus set mc =
      let nr = if nr_dpus == 0xffff_ffff then dpus_per_rank else nr_dpus in
      let set' : DpuSet = record { rank_id = 0; start = 0; last = (nr + 255) % 256 } in
      let marked = record mc { allocated = 1 } in
      let (e, mc') = alloc_loop nr 0 marked in
      if not (mc.allocated == 0)
      then (dpu_err_internal, set, mc)
      else if ltb (k.totalram * page_size) (u32 (nr * (mram_per_dpu + 65536)))
      then (dpu_err_allocation, set', marked)
      else (e, set', mc')
