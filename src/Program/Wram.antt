-- ===== src/Program/Wram.antt =====
-- struct dpu_state of module/dpu.h, and the WRAM allocator of module/dpu.c.
use pim_swap.Base.{ℕ, ◌+◌, ◌*◌, ◌/◌, u16, u32, ◌==◌, if◌then◌else◌}
use pim_swap.Mram.{Mram}

-- A DPU's memories and counters: its MRAM, the host address of its WRAM (0 is NULL), the running
-- tasklet, the heap pointer and the flags.
pub record Dpu : Type 0 where
  pub mram : Mram
  pub wram : ℕ
  pub current_tasklet : ℕ
  pub wram_heap : ℕ
  pub flags : ℕ

-- mem_alloc_nolock, which mem_alloc calls: `(pointer + (8-1)) & ~(8-1)` drops the low three bits.
-- The heap pointer is a uint16_t.
unfoldable pub mem_alloc : ℕ → Dpu → ℕ × Dpu
mem_alloc size d =
    let pointer = u32 (d.wram_heap + 7) / 8 * 8 in
    if size == 0
    then (d.wram + d.wram_heap, d)
    else (d.wram + pointer, record d { wram_heap = u16 (u32 (pointer + size)) })
