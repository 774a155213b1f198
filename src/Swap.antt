-- ===== src/Swap.antt =====
-- The frontswap operations of module/swap.c on the host: pimswap_frontswap_store_old,
-- pimswap_frontswap_load and pimswap_frontswap_invalidate_page.
pub mod Stale
pub mod Prepare
pub mod System
pub mod Send
pub mod Deliver
pub mod Store
pub mod Gather
pub mod Fetch
pub mod Load
pub mod Forget
pub mod Drop
pub mod Start
pub mod Run
pub mod Answers
use pim_swap.Base.{
  ℕ, zero, suc, ◌+◌, ◌-◌, ◌*◌, ◌/◌, ◌%◌, ◌^◌, Bool, true, false, Option, none, some, List, u8, u32,
  bit_and, bit_or, ltb, ◌==◌, not, ◌&&◌, if◌then◌else◌, bit_set, or_bit,
}
use pim_swap.Mram.{Mram, mram_read, mram_write}
use pim_swap.Layout.{page_size, trans_page, id_offset}
use pim_swap.Page.{on_value}
use pim_swap.Program.{Crypto, page_valid}
use pim_swap.Program.Word.{word_bytes, word_of_bytes}
use pim_swap.Host.{
  DpuSet, Machine, Main, invalidate, decompress, compress, dpu_xfer_to_dpu, dpu_xfer_from_dpu,
  dpu_prepare_xfer, dpu_push_xfer, dpu_load, dpu_launch, set_size,
}

-- DPU_INDEX_FROM_OFFSET
unfoldable pub dpu_index_from_offset : ℕ → ℕ
dpu_index_from_offset offset = u8 (bit_and offset 3)

-- ID_FROM_OFFSET
unfoldable pub id_from_offset : ℕ → ℕ
id_from_offset offset = bit_and (u32 (offset / 4)) (page_valid - 1)

-- RANK_INDEX_FROM_OFFSET
unfoldable pub rank_index_from_offset : ℕ → ℕ
rank_index_from_offset offset = u8 (offset / 2 ^ 24)

-- sizeof(page_descriptor): a page, its id and its status.
abbrev pub descriptor_size : ℕ
descriptor_size = page_size + 8

-- The host addresses of in_buffer, out_buffer and the two local variables of the invalidation.
pub record Places : Type 0 where
  pub in_buffer : ℕ
  pub out_buffer : ℕ
  pub invalidate_id : ℕ
  pub invalidate_id_dummy : ℕ

-- The static variables of swap.c, with the machine below them.
pub record Swap : Type 0 where
  pub dpus : DpuSet
  pub out_buffer_bmp : ℕ
  pub machine : Machine

-- What an operation returns: 0, a negative error, or nothing for a void function.
pub data Code : Type 0 where
  done minus_one enospc einval : Code

abbrev pub data_of : ℕ → ℕ → ℕ
data_of buffer i = buffer + i * descriptor_size

abbrev pub id_of : ℕ → ℕ → ℕ
id_of buffer i = buffer + i * descriptor_size + page_size

-- Accesses to the host's memory.
unfoldable pub host_word : ℕ → Machine → ℕ
unfolding word_of_bytes
host_word a mc = word_of_bytes (mram_read mc.host a 4)

pub set_host : List ℕ → ℕ → Machine → Machine
set_host bytes a mc = record mc { host = mram_write bytes a mc.host }

-- DPU_FOREACH(_set, dpu, dpu_id) with a body on the machine, from dpu_id on.
pub foreach : ℕ → ℕ → ℕ → (DpuSet → ℕ → Machine → Machine) → Machine → Machine
foreach zero rank i body mc = mc
foreach (suc left) rank i body mc =
    foreach left rank (i + 1) body (body (record { rank_id = rank; start = i; last = i }) i mc)

abbrev pub foreach_dpu : DpuSet → (DpuSet → ℕ → Machine → Machine) → Machine → Machine
foreach_dpu set body mc = foreach (set_size set) set.rank_id set.start body mc

prepare_data : ℕ → DpuSet → ℕ → Machine → Machine
prepare_data buffer dpu i mc = (dpu_prepare_xfer dpu (data_of buffer i) mc).1

clear_id : ℕ → DpuSet → ℕ → Machine → Machine
clear_id buffer dpu i mc = set_host (word_bytes 0) (id_of buffer i) mc

module _ (crypto : Crypto) (places : Places) where
  -- The submission of the batch in the out buffer: transfer, run, transfer back, forget the ids.
  -- The descriptors that come back are not looked at, as no buffer is prepared for them.
  pub submit : Swap → Option Swap
  submit s =
      let prepared = foreach_dpu s.dpus (prepare_data places.out_buffer) s.machine in
      let sent = dpu_push_xfer s.dpus dpu_xfer_to_dpu trans_page descriptor_size prepared in
      on_value (dpu_launch crypto s.dpus (dpu_load s.dpus compress sent)) λ ran.
        let back = dpu_push_xfer s.dpus dpu_xfer_from_dpu trans_page descriptor_size ran in
        some (record s {
          out_buffer_bmp = 0;
          machine = foreach_dpu s.dpus (clear_id places.out_buffer) back;
        })

  -- The page and its id are put into the out buffer.
  pub buffer_page : ℕ → ℕ → List ℕ → Swap → Swap
  buffer_page i offset page s =
      let copied = set_host page (data_of places.out_buffer i) s.machine in
      record s {
        out_buffer_bmp = bit_or s.out_buffer_bmp (2 ^ i);
        machine =
            set_host (word_bytes (bit_or (id_from_offset offset) page_valid))
              (id_of places.out_buffer i) copied;
      }

  -- pimswap_frontswap_store_old, for a page with these bytes; `huge` is PageTransHuge(page).
  unfoldable pub frontswap_store_old : Bool → ℕ → List ℕ → Swap → Option (Code × Swap)
  unfolding submit buffer_page prepare_data clear_id
  frontswap_store_old huge offset page s =
      let i = dpu_index_from_offset offset in
      if huge
      then some (einval, s)
      else if not (rank_index_from_offset offset == 0)
      then some (enospc, s)
      else if not (i == 0)
      then some (enospc, s)
      else if bit_set s.out_buffer_bmp i
      then (on_value (submit s) λ s'. some (done, buffer_page i offset page s'))
      else some (done, buffer_page i offset page s)

  -- The request for one page: its id goes to its DPU, 0 to the others.
  prepare_request : ℕ → ℕ → DpuSet → ℕ → Machine → Machine
  prepare_request index page_id dpu i mc =
      let named =
        set_host (word_bytes (if i == index then page_id else 0)) (id_of places.in_buffer i) mc in
      (dpu_prepare_xfer dpu (id_of places.in_buffer i) named).1

  pub fetch : ℕ → ℕ → Swap → Option Machine
  fetch index page_id s =
      let requested = foreach_dpu s.dpus (prepare_request index page_id) s.machine in
      let sent = dpu_push_xfer s.dpus dpu_xfer_to_dpu (trans_page + page_size) 4 requested in
      let selected : DpuSet = record { rank_id = s.dpus.rank_id; start = index; last = index } in
      on_value (dpu_launch crypto selected (dpu_load s.dpus decompress sent)) λ ran.
        let prepared = foreach_dpu s.dpus (prepare_data places.in_buffer) ran in
        some (dpu_push_xfer s.dpus dpu_xfer_from_dpu trans_page descriptor_size prepared)

  -- pimswap_frontswap_load: the code, the bytes that the page receives, and the state.
  unfoldable pub frontswap_load : ℕ → Swap → Option (Code × Option (List ℕ) × Swap)
  unfolding fetch prepare_request prepare_data
  frontswap_load offset s =
      let i = dpu_index_from_offset offset in
      let page_id = id_from_offset offset in
      let page_at = λ (buffer : ℕ) (mc : Machine). mram_read mc.host (data_of buffer i) page_size in
      if not (rank_index_from_offset offset == 0)
      then some (minus_one, none, s)
      else if not (i == 0)
      then some (enospc, none, s)
      else if bit_set s.out_buffer_bmp i
          && host_word (id_of places.out_buffer i) s.machine == page_id
      then some (done, some (page_at places.out_buffer s.machine), s)
      else if host_word (id_of places.in_buffer i) s.machine == page_id
      then some (done, some (page_at places.in_buffer s.machine), s)
      else (on_value (fetch i page_id s) λ mc.
          let s' = record s { machine = mc } in
          if not (host_word (id_of places.in_buffer i) mc == page_id)
          then some (minus_one, none, s')
          else some (done, some (page_at places.in_buffer mc), s'))

  pub prepare_invalidate : ℕ → ℕ → DpuSet → ℕ → Machine → Machine
  prepare_invalidate index id dpu i mc =
      let named = set_host (word_bytes (bit_or id page_valid)) places.invalidate_id mc in
      if i == index
      then (dpu_prepare_xfer dpu places.invalidate_id named).1
      else (dpu_prepare_xfer dpu places.invalidate_id_dummy mc).1

  -- pimswap_frontswap_invalidate_page. A rank other than 0 is reported and then treated like rank
  -- 0.
  unfoldable pub frontswap_invalidate_page : ℕ → Swap → Option Swap
  unfolding prepare_invalidate
  frontswap_invalidate_page offset s =
      let i = dpu_index_from_offset offset in
      let id = id_from_offset offset in
      let buffered = bit_and (host_word (id_of places.out_buffer i) s.machine) (page_valid - 1) in
      let zeroed = set_host (word_bytes 0) places.invalidate_id_dummy s.machine in
      let prepared = foreach_dpu s.dpus (prepare_invalidate i id) zeroed in
      let sent = dpu_push_xfer s.dpus dpu_xfer_to_dpu (trans_page + page_size) 4 prepared in
      if not (i == 0)
      then some s
      else if bit_set s.out_buffer_bmp i && buffered == id
      then some (record s { out_buffer_bmp = bit_and s.out_buffer_bmp (2 ^ 64 - 1 - 2 ^ i) })
      else (on_value (dpu_launch crypto s.dpus (dpu_load s.dpus invalidate sent))
          λ mc. some (record s { machine = mc }))
