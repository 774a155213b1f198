-- ===== src/Swap/Start.antt =====
-- init_pim_swap and exit_pim_swap of module/swap.c, up to the calls of the kernel that register
-- the operations.
use pim_swap.Base.{
  ℕ, ◌+◌, ◌*◌, ◌≤◌, ◌<◌, ◌≡◌, ◌∙◌, refl, sym, ap, Bool, true, false, Option, some, none, arith, not,
  if◌then◌else◌, subst, bit_and,
}
use pim_swap.Mram.{IsBytes, mram_read, mram_read_ext, mram_read_shift}
use pim_swap.Layout.{page_size}
use pim_swap.Program.{Crypto, page_valid}
use pim_swap.Program.Word.{word_of_bytes}
use pim_swap.PageMap.{no_pages}
use pim_swap.PageMap.Holds.{Holds}
use pim_swap.PageMap.Effect.{blank-Holds}
use pim_swap.Page.Blank.{blank}
use pim_swap.Host.{Machine, KernelMemory, DpuError, dpu_ok, dpu_alloc, dpu_free}
use pim_swap.Host.Allocate.{HasMemory, all_renewed, renewed_inside, dpu_alloc_lem}
use pim_swap.Swap.{Places, Swap, descriptor_size, data_of, id_of, host_word}
use pim_swap.Swap.System.{every_dpu, IsSystem, View}

-- What init_pim_swap returns: 0, -1, or the error that crypto_alloc_comp put into its pointer.
pub data InitCode : Type 0 where
  started dpu_failed : InitCode
  ptr_err : ℕ → InitCode

abbrev is_ok : DpuError → Bool
is_ok dpu_ok = true
is_ok _ = false

abbrev of_crypto : Option ℕ → InitCode
of_crypto none = started
of_crypto (some error) = ptr_err error

-- init_pim_swap; the second argument is the error of crypto_alloc_comp, if it fails. The DPUs stay
-- allocated where it does.
unfoldable pub init_pim_swap : KernelMemory → Option ℕ → Swap → InitCode × Swap
init_pim_swap k crypto_error s =
    let (e, set, mc) = dpu_alloc k 0xffff_ffff s.dpus s.machine in
    let s' = record s { dpus = set; machine = mc } in
    if not (is_ok e) then (dpu_failed, s') else (of_crypto crypto_error, s')

-- exit_pim_swap
unfoldable pub exit_pim_swap : Swap → Swap
exit_pim_swap s = record s { machine = (dpu_free s.machine).1 }

-- The static variables before init_pim_swap: nothing is allocated, and the two buffers are zero.
pub record IsStatic (places : Places) (s : Swap) : Type 0 where
  pub unallocated : s.machine.allocated ≡ 0
  pub no_buffer : (j : ℕ) → s.machine.push_data j ≡ 0
  pub empty_bmp : s.out_buffer_bmp ≡ 0
  pub octets : IsBytes s.machine.host
  pub in_zero :
      (x : ℕ)
      → places.in_buffer ≤ x
      → x < places.in_buffer + 4 * descriptor_size
      → s.machine.host x ≡ 0
  pub out_zero :
      (x : ℕ)
      → places.out_buffer ≤ x
      → x < places.out_buffer + 4 * descriptor_size
      → s.machine.host x ≡ 0

-- Nothing waits, no page is stored, and the in buffer is zero.
abbrev pub first_view : View
first_view = record {
  waiting = none;
  cached_id = 0;
  cached_page = mram_read (λ x. 0) 0 page_size;
  pages = no_pages;
}

zero_word :
    (a : ℕ) (mc : Machine) → ((x : ℕ) → a ≤ x → x < a + 4 → mc.host x ≡ 0) → host_word a mc ≡ 0
unfolding host_word word_of_bytes mram_read
zero_word a mc h = ap word_of_bytes (mram_read_ext mc.host blank a 4 h)

-- With enough memory, a compressor, and the static variables as the loader leaves them,
-- init_pim_swap returns 0; the state that it leaves stands for the view in which nothing waits and
-- no page is stored, and the MRAM of every DPU is zero.
pub start-IsSystem :
    (crypto : Crypto) (places : Places) (k : KernelMemory) (s : Swap)
    → HasMemory k
    → IsStatic places s
    → (s' : Swap) × (init_pim_swap k none s ≡ (started, s'))
      × (IsSystem crypto places first_view s'
          × ((j : ℕ) → j < 4 → (s'.machine.dpus j).mram ≡ blank))
unfolding init_pim_swap
start-IsSystem crypto places k s mem st = (
  record s { dpus = every_dpu; machine = renewed_machine },
  rw (dpu_alloc_lem k s.dpus s.machine mem st.unallocated) refl,
  (
    record {
      dpus = refl;
      idle = record {
        first = zeroed 0 (omega arith);
        empty = λ j lo hi. zeroed j hi;
        wram = λ j hi z.
            mem.wram j hi
              (sym (renewed_inside k 4 0 s.machine.dpus j (omega arith) (omega arith)).1 ∙ z);
        idle = λ j hi. st.no_buffer j;
        octets = st.octets;
        unsent = λ j lo hi.
            ap (λ (w : ℕ). bit_and w page_valid)
              (zero_word (id_of places.out_buffer j) renewed_machine
                (λ x from to. st.out_zero x (omega arith) (omega arith)));
      };
      slot = st.empty_bmp;
      cached = (
        zero_word (id_of places.in_buffer 0) renewed_machine
            (λ x from to. st.in_zero x (omega arith) (omega arith)),
        mram_read_shift s.machine.host blank (data_of places.in_buffer 0) 0 page_size
            (λ i q. st.in_zero (data_of places.in_buffer 0 + i) (omega arith) (omega arith)),
      );
    },
    λ j hi. (renewed_inside k 4 0 s.machine.dpus j (omega arith) (omega arith)).0,
  ),
)
  where
    renewed_machine : Machine
    renewed_machine =
        let mc = s.machine in record mc { allocated = 1; dpus = all_renewed k 4 0 mc.dpus }

    zeroed : (j : ℕ) → j < 4 → Holds crypto no_pages (all_renewed k 4 0 s.machine.dpus j).mram
    zeroed j hi =
        subst (Holds crypto no_pages)
          (sym (renewed_inside k 4 0 s.machine.dpus j (omega arith) (omega arith)).0)
          (blank-Holds crypto)
