-- ===== src/Tests/Machines.antt =====
-- The host, the transfers and the frontswap operations on a concrete machine.
use pim_swap.Base.{
  ℕ, ◌+◌, ◌%◌, ◌^◌, ◌≡◌, inl, false, some, none, List, arith, refl, sym, ◌∙◌, length, bit_set,
}
use pim_swap.Mram.{mram_read, mram_write, length-mram_read}
use pim_swap.Layout.{page_size}
use pim_swap.Page.{Statistics}
use pim_swap.Program.{Crypto, zero as exact}
use pim_swap.Program.Word.{word_bytes, word-store}
use pim_swap.Program.Wram.{Dpu}
use pim_swap.Host.{DpuSet, Machine, KernelMemory, dpu_alloc, dpu_err_allocation, dpu_err_internal}
use pim_swap.Host.Transfer.{dpu_alloc-retry}
use pim_swap.Swap.{
  Places, Swap, done, dpu_index_from_offset, id_from_offset, rank_index_from_offset, data_of, id_of,
  host_word, frontswap_load,
}
use pim_swap.Swap.Stale.{after_store, stored, load-store_stale}

abbrev empty_dpu : Dpu
empty_dpu = record { mram = λ x. 0; wram = 65536; current_tasklet = 0; wram_heap = 21; flags = 0 }

abbrev counts : Statistics
counts = record {
  num_allocs = 0;
  num_frees = 0;
  current_pages = 0;
  current_blocks_allocated = 0;
  current_bytes_used = 0;
  uncompressable = 0;
}

-- A machine after start-up; its host memory holds identifier 5 in the in buffer at 65536.
abbrev machine : Machine
machine = record {
  allocated = 0;
  current_dpu = 0;
  dpus = λ i. empty_dpu;
  mains = λ i. none;
  push_data = λ i. 0;
  host = mram_write (word_bytes 5) (id_of 65536 0) (λ x. x % 256);
  stats = counts;
  uncompressable = 0;
}

-- A kernel with 1 GB of RAM, and vmalloc with no room at first.
abbrev no_room : KernelMemory
no_room = record { totalram = 2 ^ 18; vmalloc_mram = λ i. 0; vmalloc_wram = λ i. 0 }

abbrev room : KernelMemory
room = record { totalram = 2 ^ 18; vmalloc_mram = λ i. 4096 + i; vmalloc_wram = λ i. 9000 + i }

abbrev all_dpus : DpuSet
all_dpus = record { rank_id = 0; start = 0; last = 3 }

dpu_alloc-retry_example :
    let (e, _, mc') = dpu_alloc no_room 0xffff_ffff all_dpus machine in
    (e ≡ dpu_err_allocation) × ((dpu_alloc room 4 all_dpus mc').0 ≡ dpu_err_internal)
dpu_alloc-retry_example =
    dpu_alloc-retry no_room room 4 all_dpus all_dpus machine refl (omega arith) refl

abbrev copier : Crypto
copier = record {
  compress = λ p. record { ret = exact; out = p; len = page_size };
  decompress = λ p. record { ret = exact; out = p; len = page_size };
}

abbrev places : Places
places = record {
  in_buffer = 65536;
  out_buffer = 131072;
  invalidate_id = 200000;
  invalidate_id_dummy = 200008;
}

abbrev swap : Swap
swap = record { dpus = all_dpus; out_buffer_bmp = 0; machine = machine }

-- Offset 20: identifier 5 on DPU 0.
abbrev page : List ℕ
page = mram_read (λ x. 7) 0 page_size

rank_0 : rank_index_from_offset 20 ≡ 0
unfolding rank_index_from_offset
rank_0 = refl

dpu_0 : dpu_index_from_offset 20 ≡ 0
unfolding dpu_index_from_offset
dpu_0 = refl

id_5 : id_from_offset 20 ≡ 5
unfolding id_from_offset
id_5 = refl

size : length page ≡ page_size
size = length-mram_read (λ x. 7) 0 page_size

slot_free : bit_set swap.out_buffer_bmp 0 ≡ false
slot_free = unfold bit_set in refl

present : host_word (id_of 65536 0) machine ≡ id_from_offset 20
unfolding host_word
present = word-store 5 (id_of 65536 0) (λ x. x % 256) (omega arith) ∙ sym id_5

load-store_stale_example :
    frontswap_load copier places 20 (after_store copier places 20 page swap rank_0 dpu_0 size)
    ≡ some (
      done,
      some (mram_read machine.host (data_of 65536 0) page_size),
      after_store copier places 20 page swap rank_0 dpu_0 size,
    )
load-store_stale_example =
    load-store_stale copier places 20 page swap
      (after_store copier places 20 page swap rank_0 dpu_0 size) rank_0 dpu_0 size
      (inl (omega arith)) slot_free present
      (stored copier places 20 page swap rank_0 dpu_0 size slot_free)
