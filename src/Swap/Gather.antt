-- ===== src/Swap/Gather.antt =====
-- The transfer from every DPU into the in buffer in pimswap_frontswap_load of module/swap.c.
use pim_swap.Base.{ℕ, ◌+◌, ◌*◌, ◌≤◌, ◌<◌, ◌≡◌, ◌⊎◌, ◌∙◌, ap, arith}
use pim_swap.Mram.{mram_read, mram_read_shift}
use pim_swap.Layout.{page_size, trans_page}
use pim_swap.Program.{read_id}
use pim_swap.Program.Word.{word_of_bytes}
use pim_swap.Host.{Machine, dpu_xfer_from_dpu, dpu_push_xfer}
use pim_swap.Host.Batch.{Receives, push-Receives}
use pim_swap.Swap.{Places, descriptor_size, data_of, id_of, host_word}
use pim_swap.Swap.Prepare.{all_prepared, prepared_inside}
use pim_swap.Swap.System.{every_dpu, IsPlaced}

abbrev with_buffers : Places → Machine → Machine
with_buffers places ran = record ran {
  push_data = all_prepared 4 0 (data_of places.in_buffer) ran.push_data;
}

abbrev pub gathered : Places → Machine → Machine
gathered places ran =
    dpu_push_xfer every_dpu dpu_xfer_from_dpu trans_page descriptor_size (with_buffers places ran)

module _ (places : Places) (placed : IsPlaced places) (ran : Machine) where
  pub gathered-Receives :
      Receives
        (data_of places.in_buffer)
        0
        4
        trans_page
        descriptor_size
        (with_buffers places ran)
        (gathered places ran)
  gathered-Receives =
      push-Receives (data_of places.in_buffer) every_dpu trans_page descriptor_size
        (with_buffers places ran) (λ j k h. omega arith) (omega arith)
        (λ j lo hi.
          prepared_inside 4 0 (data_of places.in_buffer) ran.push_data j (omega arith)
            (omega arith))
        (λ j lo hi z. placed.in_there (omega (arith, z)))

  pub gathered_outside :
      (x : ℕ)
      → (x < places.in_buffer) ⊎ (places.in_buffer + 4 * descriptor_size ≤ x)
      → (gathered places ran).host x ≡ ran.host x
  gathered_outside x out = gathered-Receives.outside x (λ j lo hi. omega arith)

  -- The slot of DPU 0 is what the DPU has in its transfer page.
  received :
      (k n : ℕ)
      → k + n ≤ descriptor_size
      → mram_read (gathered places ran).host (places.in_buffer + k) n
        ≡ mram_read (ran.dpus 0).mram (trans_page + k) n
  received k n h =
      mram_read_shift (gathered places ran).host ((ran.dpus 0).mram) (places.in_buffer + k)
        (trans_page + k) n
        λ i q.
          gathered-Receives.inside 0 (places.in_buffer + k + i) (omega arith) (omega arith)
            (omega arith) (omega arith)
          ∙ ap (ran.dpus 0).mram (omega arith)

  pub received_page :
      mram_read (gathered places ran).host (data_of places.in_buffer 0) page_size
      ≡ mram_read (ran.dpus 0).mram trans_page page_size
  received_page =
      ap (λ (a : ℕ). mram_read (gathered places ran).host a page_size) (omega arith)
      ∙ received 0 page_size (omega arith)

  pub received_word :
      host_word (id_of places.in_buffer 0) (gathered places ran) ≡ read_id (ran.dpus 0).mram
  unfolding host_word read_id
  received_word =
      ap (λ (a : ℕ). word_of_bytes (mram_read (gathered places ran).host a 4)) (omega arith)
      ∙ ap word_of_bytes (received page_size 4 (omega arith))

  pub gathered_dpu : (j : ℕ) → (gathered places ran).dpus j ≡ ran.dpus j
  gathered_dpu j = ap (λ p. p j) gathered-Receives.dpus
