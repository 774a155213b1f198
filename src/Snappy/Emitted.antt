-- ===== src/Snappy/Emitted.antt =====
-- What the element writers append to the output.
use pim_swap.Base.{
  ℕ, ◌+◌, ◌-◌, ◌*◌, ◌^◌, ◌≤◌, ◌<◌, ◌≡◌, ◌∙◌, refl, sym, ap, inl, List, ◌++◌, arith, length,
  get_or_ext, subst, dec_lt,
}
use pim_swap.Mram.{Mram, mram_read, length-mram_read, get_or-mram_read}
use pim_swap.Layout.{mram_per_dpu}
use pim_swap.Program.Wram.{Dpu}
use pim_swap.Snappy.Reader.{
  cache_size, page_alloc_size, page_offset, Seqreader, Local, InBuffer, advance_seqread,
}
use pim_swap.Snappy.Mirror.{Mirrors, IsMirror, advance-IsMirror}
use pim_swap.Snappy.Output.{out_buffer_length, OutBuffer, make_room, put_bytes}
use pim_swap.Snappy.Append.{Appends, Appends-append}
use pim_swap.Snappy.Write.{round-Appends}
use pim_swap.Snappy.Emit.{Work, set_mram}

-- The output has a window of 256 bytes, and its position is in it or less than 256 bytes behind it.
pub record IsReady (o : OutBuffer) : Type 0 where
  pub size : length o.window ≡ out_buffer_length
  pub order : o.append_window ≤ o.curr
  pub close : o.curr < o.append_window + 2 * out_buffer_length

pub Appends-IsReady :
    (bytes : List ℕ) (o o' : OutBuffer) (m m' : Mram)
    → Appends bytes o m o' m'
    → IsReady o
    → IsReady o'
Appends-IsReady bytes o o' m m' a ready = record {
  size = a.window_size;
  order = a.before_curr;
  close = elim (dec_lt 0 (length bytes)) [
    | yes h ↦ let near = a.near h in omega (arith, near)
    | no h ↦ omega (arith, a.curr, a.forward, ready.close)
  ];
}

-- The MRAM may change where the cached pages do not reach.
pub Mirrors-ext :
    (address ptr : ℕ) (reader : Seqreader) (s : Local) (m : Mram)
    → ((x : ℕ) → x < address + page_alloc_size → m x ≡ s.dpu.mram x)
    → Mirrors address ptr reader s
    → Mirrors address ptr reader (set_mram m s)
unfolding set_mram
Mirrors-ext address ptr reader s m same h = record {
  aligned = h.aligned;
  fits = h.fits;
  in_mram = h.in_mram;
  page = h.page;
  at = h.at;
  same = λ i hi. h.same i hi ∙ sym (same (reader.mram_addr + i) (omega (arith, h.page)));
}

-- Up to 256 bytes from the pointer of a reader on are those of the MRAM at its position.
cached_bytes :
    (address ptr : ℕ) (reader : Seqreader) (s : Local) (n : ℕ)
    → n ≤ cache_size
    → Mirrors address ptr reader s
    → mram_read s.memory ptr n ≡ mram_read s.dpu.mram address n
cached_bytes address ptr reader s n small h =
    get_or_ext 0 _ _ (length-mram_read s.memory ptr n ∙ sym (length-mram_read s.dpu.mram address n))
      λ i hi.
        let lt : i < n = omega (arith, length-mram_read s.memory ptr n) in
        let k = page_offset address + i in
        get_or-mram_read s.memory ptr n i lt
        ∙ ap s.memory (omega (arith, h.at))
        ∙ h.same k (omega arith)
        ∙ ap s.dpu.mram (omega (arith, h.page))
        ∙ sym (get_or-mram_read s.dpu.mram address n i lt)

-- The state has the bytes appended to its output, and its input moved on.
pub record Emits (bytes : List ℕ) (taken : ℕ) (w w' : Work) : Type 0 where
  pub appended : Appends bytes w.output w.local.dpu.mram w'.output w'.local.dpu.mram
  pub mirror : IsMirror w'.input w'.local
  pub curr : w'.input.curr ≡ w.input.curr + taken
  pub buffer : w'.input.buffer ≡ w.input.buffer
  pub wram : w'.local.dpu.wram ≡ w.local.dpu.wram

-- The output is ready and lies behind the pages that the reader may load within the next bytes of
-- the input.
pub record IsWorking (n : ℕ) (w : Work) : Type 0 where
  pub ready : IsReady w.output
  pub mirror : IsMirror w.input w.local
  pub inside : w.input.buffer + w.input.curr + n ≤ mram_per_dpu
  pub apart : w.input.buffer + w.input.curr + n + page_alloc_size ≤ w.output.buffer

advance_buffer :
    (len : ℕ) (input : InBuffer) (s : Local) → (advance_seqread len input s).0.buffer ≡ input.buffer
unfolding advance_seqread
advance_buffer len input s = refl

-- What comes after a state in which the bytes are written goes behind them.
pub Emits-append :
    (xs ys zs : List ℕ) (n k taken : ℕ) (w w1 w2 : Work)
    → xs ++ ys ≡ zs
    → n + k ≡ taken
    → Emits xs n w w1
    → Emits ys k w1 w2
    → Emits zs taken w w2
Emits-append xs ys zs n k taken w w1 w2 e f a b = record {
  appended =
      Appends-append xs ys zs w.output w.local.dpu.mram w1.output w1.local.dpu.mram w2.output
        w2.local.dpu.mram e a.appended b.appended;
  mirror = b.mirror;
  curr = omega (arith, a.curr, b.curr);
  buffer = b.buffer ∙ a.buffer;
  wram = b.wram ∙ a.wram;
}

pub Emits-IsWorking :
    (bytes : List ℕ) (n k total : ℕ) (w w' : Work)
    → n + k ≡ total
    → Emits bytes n w w'
    → IsWorking total w
    → IsWorking k w'
Emits-IsWorking bytes n k total w w' e a h = record {
  ready =
      Appends-IsReady bytes w.output w'.output w.local.dpu.mram w'.local.dpu.mram a.appended
        h.ready;
  mirror = a.mirror;
  inside = omega (arith, a.curr, a.buffer, h.inside);
  apart = omega (arith, a.curr, a.buffer, h.apart, a.appended.same_buffer);
}

pub IsWorking-le : (n k : ℕ) (w : Work) → k ≤ n → IsWorking n w → IsWorking k w
IsWorking-le n k w le h = record {
  ready = h.ready;
  mirror = h.mirror;
  inside = omega (arith, h.inside);
  apart = omega (arith, h.apart);
}

-- The MRAM of the input is not written.
pub input_same :
    (bytes : List ℕ) (n : ℕ) (w w' : Work)
    → Emits bytes n w w'
    → (x : ℕ) → x < w.output.buffer
    → w'.local.dpu.mram x ≡ w.local.dpu.mram x
input_same bytes n w w' a x h = a.appended.outside x (inl (omega arith))

-- The state after a round of copy_output_buffer that copies k bytes.
abbrev pub after_copy : ℕ → Work → Work
after_copy k w =
    let (index, o, m) =
      make_room (w.output.curr - w.output.append_window) w.output w.local.dpu.mram in
    let (input, s) = advance_seqread k w.input (set_mram m w.local) in
    record {
      input = input;
      output = put_bytes index (mram_read w.local.memory w.input.ptr k) o;
      local = s;
    }

pub round-Emits :
    (k : ℕ) (w : Work)
    → IsWorking k w
    → w.output.curr + k < 2 ^ 32
    → (make_room (w.output.curr - w.output.append_window) w.output w.local.dpu.mram).0 + k
      ≤ out_buffer_length
    → Emits (mram_read w.local.dpu.mram (w.input.buffer + w.input.curr) k) k w (after_copy k w)
      × ((after_copy k w).output.curr - (after_copy k w).output.append_window
          ≡ (make_room (w.output.curr - w.output.append_window) w.output w.local.dpu.mram).0 + k)
unfolding set_mram
round-Emits k w h small fits =
    let o = w.output in
    let m = w.local.dpu.mram in
    let bytes = mram_read w.local.memory w.input.ptr k in
    let n : length bytes ≡ k = length-mram_read w.local.memory w.input.ptr k in
    let m1 = (make_room (o.curr - o.append_window) o m).2 in
    let s1 = set_mram m1 w.local in
    let (a, at) =
      round-Appends bytes o m h.ready.size h.ready.order h.ready.close (omega (arith, n))
        (omega (arith, n)) in
    let mirror =
      Mirrors-ext (w.input.buffer + w.input.curr) w.input.ptr w.input.sr w.local m1
        (λ x lt. a.outside x (inl (omega (arith, h.apart)))) h.mirror in
    let (b, moved, kept) = advance-IsMirror k w.input s1 mirror h.inside in
    let e : bytes ≡ mram_read m (w.input.buffer + w.input.curr) k =
      cached_bytes (w.input.buffer + w.input.curr) w.input.ptr w.input.sr w.local k (omega arith)
        h.mirror in
    (
      record {
        appended =
            subst
              (λ (l : List ℕ).
                Appends l o m (after_copy k w).output (after_copy k w).local.dpu.mram)
              e
              (subst (λ (d : Dpu). Appends bytes o m (after_copy k w).output d.mram) (sym kept) a);
        mirror = b;
        curr = moved;
        buffer = advance_buffer k w.input s1;
        wram = ap (λ (d : Dpu). d.wram) kept;
      },
      at ∙ ap (λ (j : ℕ). (make_room (o.curr - o.append_window) o m).0 + j) n,
    )
