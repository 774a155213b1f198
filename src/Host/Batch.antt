-- ===== src/Host/Batch.antt =====
-- The loops of module/dpu.c over the DPUs of a set: __dpu_push_xfer in both directions, dpu_load
-- and dpu_launch, each seen from one DPU of the set.
use pim_swap.Base.{
  ℕ, zero, suc, ◌+◌, ◌-◌, ◌≤◌, ◌<◌, ◌≡◌, ◌≢◌, ◌⊎◌, inl, inr, refl, sym, ap, ◌∙◌, true, false,
  Bool-cases, ◌==◌, arith, ℕ_discrete, length,
}
use pim_swap.Mram.{
  Mram, IsBytes, mram_read, mram_write, mram_write_inside, mram_write_outside, length-mram_read,
  get_or-mram_read, IsBytes-mram_write, AreBytes-mram_read,
}
use pim_swap.Program.Wram.{Dpu}
use pim_swap.Host.{
  DpuSet, Machine, dpu_xfer_to_dpu, dpu_xfer_from_dpu, push_one, push_loop, dpu_push_xfer, set_size,
}

-- The DPU after the transfer of a buffer of the host to its MRAM.
abbrev pub receive_buffer : Mram → ℕ → ℕ → ℕ → Dpu → Dpu
receive_buffer host buffer addr len d = record d {
  mram = mram_write (mram_read host buffer len) addr d.mram;
}

-- A machine after the transfer to the DPUs from lo up to hi: each has its own buffer, no buffer is
-- prepared any more, and the host's memory and the programs are as they were.
pub record Sends (lo hi addr len : ℕ) (mc mc' : Machine) : Type 0 where
  pub host : mc'.host ≡ mc.host
  pub mains : mc'.mains ≡ mc.mains
  pub reached :
      (j : ℕ)
      → lo ≤ j
      → j < hi
      → mc.push_data j ≢ 0
      → mc'.dpus j ≡ receive_buffer mc.host (mc.push_data j) addr len (mc.dpus j)
  pub consumed : (j : ℕ) → lo ≤ j → j < hi → mc'.push_data j ≡ 0
  pub others : (j : ℕ) → (j < lo) ⊎ (hi ≤ j) → mc'.dpus j ≡ mc.dpus j
  pub unused : (j : ℕ) → (j < lo) ⊎ (hi ≤ j) → mc'.push_data j ≡ mc.push_data j

push_one-Sends :
    (addr len i : ℕ) (mc : Machine)
    → Sends i (i + 1) addr len mc (push_one dpu_xfer_to_dpu addr len i mc)
unfolding push_one
push_one-Sends addr len i mc = elim (Bool-cases (mc.push_data i == 0)) [
  | inl null ↦ record {
    host = rw null;
    mains = rw null;
    reached = λ j lo hi nz. let same : j ≡ i = omega arith in ground (arith, nz, same, null);
    consumed = λ j lo hi. let same : j ≡ i = omega arith in rw (null, same) (ground (arith, null));
    others = λ j out. rw null;
    unused = λ j out. rw null;
  }
  | inr there ↦ record {
    host = rw there;
    mains = rw there;
    reached = λ j lo hi nz. let same : j ≡ i = omega arith in rw (there, same) (ground arith);
    consumed = λ j lo hi. rw there (ground arith);
    others = λ j out. rw there (ground arith);
    unused = λ j out. rw there (ground arith);
  }
]

-- One DPU, and then the others.
Sends-next :
    (i hi addr len : ℕ) (mc mc1 mc2 : Machine)
    → i < hi
    → Sends i (i + 1) addr len mc mc1
    → Sends (i + 1) hi addr len mc1 mc2
    → Sends i hi addr len mc mc2
Sends-next i hi addr len mc mc1 mc2 some_left one rest = record {
  host = rest.host ∙ one.host;
  mains = rest.mains ∙ one.mains;
  reached = λ j lo up nz. elim (ℕ_discrete i j) [
    | yes e ↦ rest.others j (inl (omega arith)) ∙ one.reached j lo (omega arith) nz
    | no ne ↦
        let kept = one.others j (inr (omega arith)) in
        let buffer = one.unused j (inr (omega arith)) in
        rest.reached j (omega arith) up (λ z. nz (sym buffer ∙ z)) ∙ rw (kept, buffer, one.host)
  ];
  consumed = λ j lo up. elim (ℕ_discrete i j) [
    | yes e ↦ rest.unused j (inl (omega arith)) ∙ one.consumed j lo (omega arith)
    | no ne ↦ rest.consumed j (omega arith) up
  ];
  others = λ j out. rest.others j (omega arith) ∙ one.others j (omega arith);
  unused = λ j out. rest.unused j (omega arith) ∙ one.unused j (omega arith);
}

push_loop-Sends :
    (left hi addr len i : ℕ) (mc : Machine)
    → i + left ≡ hi
    → Sends i hi addr len mc (push_loop left dpu_xfer_to_dpu addr len i mc)
unfolding push_loop
push_loop-Sends zero hi addr len i mc e = record {
  host = refl;
  mains = refl;
  reached = λ j lo up nz. absurd (omega arith);
  consumed = λ j lo up. absurd (omega arith);
  others = λ j out. refl;
  unused = λ j out. refl;
}
push_loop-Sends (suc left) hi addr len i mc e =
    let mc1 = push_one dpu_xfer_to_dpu addr len i mc in
    Sends-next i hi addr len mc mc1 (push_loop left dpu_xfer_to_dpu addr len (i + 1) mc1)
      (omega arith) (push_one-Sends addr len i mc)
      (push_loop-Sends left hi addr len (i + 1) mc1 (omega arith))

-- A transfer back with no buffer prepared changes nothing.
push_nothing :
    (left addr len i : ℕ) (mc : Machine)
    → ((j : ℕ) → i ≤ j → j < i + left → mc.push_data j ≡ 0)
    → push_loop left dpu_xfer_from_dpu addr len i mc ≡ mc
unfolding push_loop push_one
push_nothing zero addr len i mc h = refl
push_nothing (suc left) addr len i mc h =
    let null : (mc.push_data i == 0) ≡ true = ground (arith, h i (omega arith) (omega arith)) in
    rw null (push_nothing left addr len (i + 1) mc (λ j lo hi. h j (omega arith) (omega arith)))

-- A machine after the transfer from the DPUs from lo up to hi to the buffers `at j`.
pub record Receives (at : ℕ → ℕ) (lo hi addr len : ℕ) (mc mc' : Machine) : Type 0 where
  pub dpus : mc'.dpus ≡ mc.dpus
  pub mains : mc'.mains ≡ mc.mains
  pub inside :
      (j x : ℕ)
      → lo ≤ j
      → j < hi
      → at j ≤ x
      → x < at j + len
      → mc'.host x ≡ (mc.dpus j).mram (addr + (x - at j))
  pub outside :
      (x : ℕ) → ((j : ℕ) → lo ≤ j → j < hi → (x < at j) ⊎ (at j + len ≤ x)) → mc'.host x ≡ mc.host x
  pub consumed : (j : ℕ) → lo ≤ j → j < hi → mc'.push_data j ≡ 0
  pub unused : (j : ℕ) → (j < lo) ⊎ (hi ≤ j) → mc'.push_data j ≡ mc.push_data j
  pub octets :
      ((j : ℕ) → lo ≤ j → j < hi → IsBytes (mc.dpus j).mram) → IsBytes mc.host → IsBytes mc'.host

module _ (at : ℕ → ℕ) (addr len : ℕ) (ordered : (j k : ℕ) → j < k → at j + len ≤ at k) where
  push_one-Receives :
      (i : ℕ) (mc : Machine)
      → mc.push_data i ≡ at i
      → at i ≢ 0
      → Receives at i (i + 1) addr len mc (push_one dpu_xfer_from_dpu addr len i mc)
  unfolding push_one
  push_one-Receives i mc e nz =
      let there : (at i == 0) ≡ false = ground arith in
      rw (e, there)
        record {
          dpus = refl;
          mains = refl;
          inside = λ j x lo hi from to.
              let same : j ≡ i = omega arith in
              let start : at i ≤ x = rw same at from in
              let end : x < at i + len = rw same at to in
              rw same (
                mram_write_inside _ (at i) mc.host x start (omega (arith, size))
                ∙ get_or-mram_read ((mc.dpus i).mram) addr len (x - at i) (omega arith));
          outside = λ x out.
              mram_write_outside _ (at i) mc.host x
                (omega (arith, size, out i (omega arith) (omega arith)));
          consumed = λ j lo hi. ground arith;
          unused = λ j out. ground arith;
          octets = λ bytes host.
              IsBytes-mram_write _ (at i) mc.host
                (AreBytes-mram_read ((mc.dpus i).mram) addr len
                  (bytes i (omega arith) (omega arith)))
                host;
        }
    where
      size : length (mram_read ((mc.dpus i).mram) addr len) ≡ len
      size = length-mram_read ((mc.dpus i).mram) addr len

  Receives-next :
      (i hi : ℕ) (mc mc1 mc2 : Machine)
      → i < hi
      → Receives at i (i + 1) addr len mc mc1
      → Receives at (i + 1) hi addr len mc1 mc2
      → Receives at i hi addr len mc mc2
  Receives-next i hi mc mc1 mc2 some_left one rest = record {
    dpus = rest.dpus ∙ one.dpus;
    mains = rest.mains ∙ one.mains;
    inside = λ j x lo up from to. elim (ℕ_discrete i j) [
      | yes e ↦
          rest.outside x (λ k later end. inl (omega (arith, ordered j k (omega arith))))
          ∙ one.inside j x lo (omega arith) from to
      | no ne ↦
          rest.inside j x (omega arith) up from to
          ∙ ap (λ (f : ℕ → Dpu). (f j).mram (addr + (x - at j))) one.dpus
    ];
    outside = λ x out.
        rest.outside x (λ k later end. out k (omega arith) end)
        ∙ one.outside x (λ k later end. out k later (omega arith));
    consumed = λ j lo up. elim (ℕ_discrete i j) [
      | yes e ↦ rest.unused j (inl (omega arith)) ∙ one.consumed j lo (omega arith)
      | no ne ↦ rest.consumed j (omega arith) up
    ];
    unused = λ j out. rest.unused j (omega arith) ∙ one.unused j (omega arith);
    octets = λ bytes host.
        rest.octets (λ j lo up x. rw one.dpus (bytes j (omega arith) up x))
          (one.octets (λ j lo up. bytes j lo (omega arith)) host);
  }

  push_loop-Receives :
      (left hi i : ℕ) (mc : Machine)
      → i + left ≡ hi
      → ((j : ℕ) → i ≤ j → j < hi → mc.push_data j ≡ at j)
      → ((j : ℕ) → i ≤ j → j < hi → at j ≢ 0)
      → Receives at i hi addr len mc (push_loop left dpu_xfer_from_dpu addr len i mc)
  unfolding push_loop
  push_loop-Receives zero hi i mc e prepared nz = record {
    dpus = refl;
    mains = refl;
    inside = λ j x lo up from to. absurd (omega arith);
    outside = λ x out. refl;
    consumed = λ j lo up. absurd (omega arith);
    unused = λ j out. refl;
    octets = λ bytes host. host;
  }
  push_loop-Receives (suc left) hi i mc e prepared nz =
      let mc1 = push_one dpu_xfer_from_dpu addr len i mc in
      let one =
        push_one-Receives i mc (prepared i (omega arith) (omega arith))
          (nz i (omega arith) (omega arith)) in
      Receives-next i hi mc mc1 (push_loop left dpu_xfer_from_dpu addr len (i + 1) mc1)
        (omega arith) one
        (push_loop-Receives left hi (i + 1) mc1 (omega arith)
          (λ j lo up. one.unused j (inr lo) ∙ prepared j (omega arith) up)
          (λ j lo up. nz j (omega arith) up))

-- The whole transfers, over a set of DPUs.
pub push-Sends :
    (set : DpuSet) (addr len : ℕ) (mc : Machine)
    → set.start ≤ set.last
    → Sends set.start (set.last + 1) addr len mc (dpu_push_xfer set dpu_xfer_to_dpu addr len mc)
unfolding dpu_push_xfer
push-Sends set addr len mc h =
    push_loop-Sends (set_size set) (set.last + 1) addr len set.start mc (omega arith)

pub push-nothing :
    (set : DpuSet) (addr len : ℕ) (mc : Machine)
    → ((j : ℕ) → set.start ≤ j → j ≤ set.last → mc.push_data j ≡ 0)
    → dpu_push_xfer set dpu_xfer_from_dpu addr len mc ≡ mc
unfolding dpu_push_xfer
push-nothing set addr len mc h =
    push_nothing (set_size set) addr len set.start mc (λ j lo hi. h j lo (omega arith))

pub push-Receives :
    (at : ℕ → ℕ) (set : DpuSet) (addr len : ℕ) (mc : Machine)
    → ((j k : ℕ) → j < k → at j + len ≤ at k)
    → set.start ≤ set.last
    → ((j : ℕ) → set.start ≤ j → j ≤ set.last → mc.push_data j ≡ at j)
    → ((j : ℕ) → set.start ≤ j → j ≤ set.last → at j ≢ 0)
    → Receives at set.start
        (set.last + 1)
        addr
        len
        mc
        (dpu_push_xfer set dpu_xfer_from_dpu addr len mc)
unfolding dpu_push_xfer
push-Receives at set addr len mc ordered h prepared nz =
    push_loop-Receives at addr len ordered (set_size set) (set.last + 1) set.start mc (omega arith)
      (λ j lo hi. prepared j lo (omega arith)) (λ j lo hi. nz j lo (omega arith))
