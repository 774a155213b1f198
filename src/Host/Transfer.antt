-- ===== src/Host/Transfer.antt =====
-- Transfers, the allocation of the rank, and the WRAM allocator of module/dpu.c.
use pim_swap.Base.{
  ℕ, ◌+◌, ◌-◌, ◌*◌, ◌%◌, ◌^◌, ◌≤◌, ◌<◌, ◌≡◌, ◌≢◌, ◌∙◌, sym, ap, true, false, List, arith, length,
  u32, ltb, ◌==◌,
}
use pim_swap.Mram.{Mram, mram_read, mram_write, mram_read-mram_write, length-mram_read}
use pim_swap.Layout.{page_size}
use pim_swap.Program.Wram.{Dpu, mem_alloc}
use pim_swap.Host.{
  DpuSet, Machine, dpu_ok, dpu_err_internal, dpu_err_allocation, dpu_xfer_to_dpu, dpu_xfer_from_dpu,
  dpu_prepare_xfer, push_one, dpu_push_xfer, update, KernelMemory, alloc_loop, dpu_alloc,
}

abbrev pub single : ℕ → ℕ → DpuSet
single rank i = record { rank_id = rank; start = i; last = i }

-- The state after a prepared push to, or from, one DPU.
pub send : ℕ → ℕ → ℕ → ℕ → ℕ → Machine → Machine
send rank i buffer addr len mc =
    dpu_push_xfer (single rank i) dpu_xfer_to_dpu addr len
      (dpu_prepare_xfer (single rank i) buffer mc).1

pub receive : ℕ → ℕ → ℕ → ℕ → ℕ → Machine → Machine
receive rank i buffer addr len mc =
    dpu_push_xfer (single rank i) dpu_xfer_from_dpu addr len
      (dpu_prepare_xfer (single rank i) buffer mc).1

-- A set of one DPU makes one round.
push_single :
    (rank i addr len : ℕ) (mc : Machine)
    → dpu_push_xfer (single rank i) dpu_xfer_to_dpu addr len mc
      ≡ push_one dpu_xfer_to_dpu addr len i mc
unfolding dpu_push_xfer
push_single rank i addr len mc = let one : i + 1 - i ≡ 1 = omega arith in rw one

push_single_back :
    (rank i addr len : ℕ) (mc : Machine)
    → dpu_push_xfer (single rank i) dpu_xfer_from_dpu addr len mc
      ≡ push_one dpu_xfer_from_dpu addr len i mc
unfolding dpu_push_xfer
push_single_back rank i addr len mc = let one : i + 1 - i ≡ 1 = omega arith in rw one

pub prepared :
    (rank i buffer : ℕ) (mc : Machine)
    → i < 256
    → dpu_prepare_xfer (single rank i) buffer mc
      ≡ (dpu_ok, record mc { push_data = update mc.push_data i buffer })
unfolding dpu_prepare_xfer
prepared rank i buffer mc h =
    let one : (u32 (i + 2 ^ 32 - i + 1) == 1) ≡ true = ground arith in rw one

send_mram :
    (rank i buffer addr len : ℕ) (mc : Machine)
    → i < 256
    → buffer ≢ 0
    → ((send rank i buffer addr len mc).dpus i).mram
      ≡ mram_write (mram_read mc.host buffer len) addr ((mc.dpus i).mram)
unfolding send push_one
send_mram rank i buffer addr len mc hi nz =
    let self : (i == i) ≡ true = ground arith in
    let some_buffer : (buffer == 0) ≡ false = ground arith in
    rw (
      push_single rank i addr len (dpu_prepare_xfer (single rank i) buffer mc).1,
      prepared rank i buffer mc hi,
      self,
      some_buffer,
      self,
    )

receive_host :
    (rank i buffer addr len : ℕ) (mc : Machine)
    → i < 256
    → buffer ≢ 0
    → (receive rank i buffer addr len mc).host
      ≡ mram_write (mram_read ((mc.dpus i).mram) addr len) buffer mc.host
unfolding receive push_one
receive_host rank i buffer addr len mc hi nz =
    let self : (i == i) ≡ true = ground arith in
    let some_buffer : (buffer == 0) ≡ false = ground arith in
    rw (
      push_single_back rank i addr len (dpu_prepare_xfer (single rank i) buffer mc).1,
      prepared rank i buffer mc hi,
      self,
      some_buffer,
    )

-- A transfer to one DPU and back, from a prepared buffer and into a prepared buffer, neither of
-- them NULL, brings the bytes of the first buffer into the second, for every address and length.
pub receive-send :
    (rank i from to addr len : ℕ) (mc : Machine)
    → i < 256
    → from ≢ 0
    → to ≢ 0
    → mram_read (receive rank i to addr len (send rank i from addr len mc)).host to len
      ≡ mram_read mc.host from len
receive-send rank i from to addr len mc hi nf nt =
    ap (λ (w : Mram). mram_read w to len)
      (receive_host rank i to addr len (send rank i from addr len mc) hi nt)
    ∙ whole (mram_read (((send rank i from addr len mc).dpus i).mram) addr len) to
        (send rank i from addr len mc).host (length-mram_read _ addr len)
    ∙ ap (λ (w : Mram). mram_read w addr len) (send_mram rank i from addr len mc hi nf)
    ∙ whole (mram_read mc.host from len) addr ((mc.dpus i).mram) (length-mram_read mc.host from len)
  where
    whole :
        (l : List ℕ) (a : ℕ) (m : Mram) → length l ≡ len → mram_read (mram_write l a m) a len ≡ l
    whole l a m e =
        ap (λ (k : ℕ). mram_read (mram_write l a m) a k) (sym e) ∙ mram_read-mram_write l a m

-- mem_alloc returns an address that is a multiple of 8 from the WRAM's start and not below the
-- heap pointer, and moves the heap pointer just past the block, as long as that fits 16 bits.
pub mem_alloc_bounds :
    (size : ℕ) (d : Dpu)
    → 0 < size
    → d.wram_heap + 7 + size < 2 ^ 16
    → let (address, d') = mem_alloc size d in
      (d.wram + d.wram_heap ≤ address)
      × ((address - d.wram) % 8 ≡ 0)
      × (d.wram + d'.wram_heap ≡ address + size)
      × (d'.mram ≡ d.mram)
unfolding mem_alloc
mem_alloc_bounds size d hs fits = (ground arith, ground arith, ground arith, ground arith)

-- A failed allocation is final: when there is enough RAM by si_meminfo but vmalloc gives no MRAM
-- for the first DPU, the first dpu_alloc, of all DPUs, reports DPU_ERR_ALLOCATION, and the next call
-- reports DPU_ERR_INTERNAL, whatever it asks for and however much memory there is by then.
pub dpu_alloc-retry :
    (k k' : KernelMemory) (nr : ℕ) (set set' : DpuSet) (mc : Machine)
    → mc.allocated ≡ 0
    → 4 * (2 ^ 26 + 65536) ≤ k.totalram * page_size
    → k.vmalloc_mram 0 ≡ 0
    → let (e, _, mc') = dpu_alloc k 0xffff_ffff set mc in
      (e ≡ dpu_err_allocation) × ((dpu_alloc k' nr set' mc').0 ≡ dpu_err_internal)
unfolding dpu_alloc alloc_loop
dpu_alloc-retry k k' nr set set' mc free enough no_mram =
    let enough_ram : ltb (k.totalram * page_size) (u32 (4 * (2 ^ 26 + 65536))) ≡ false =
      ground arith in
    (ground arith, ground arith)
