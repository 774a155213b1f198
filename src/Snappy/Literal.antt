-- ===== src/Snappy/Literal.antt =====
-- What copy_output_buffer, emit_literal and emit_copy append to the output.
use pim_swap.Base.{
  ℕ, zero, suc, ◌+◌, ◌-◌, ◌^◌, ◌≤◌, ◌<◌, ◌≡◌, ◌∙◌, refl, ap, List, [], ◌++◌, u32, arith, length,
  subst, inl,
}
use pim_swap.Mram.{mram_read, mram_read_ext, mram_read-append, length-mram_read}
use pim_swap.Snappy.{literal_tag}
use pim_swap.Snappy.Output.{make_room, room_for, write_output_buffer}
use pim_swap.Snappy.Append.{nothing-Appends, make_room-Appends, room_for_bounds}
use pim_swap.Snappy.Write.{write-Appends}
use pim_swap.Snappy.Emit.{
  Work, set_mram, copy_rounds, copy_output_buffer, write_output, write_literal,
}
use pim_swap.Snappy.Emitted.{
  Emits, IsWorking, Mirrors-ext, Emits-append, Emits-IsWorking, IsWorking-le, input_same,
  after_copy, round-Emits,
}

nothing-Emits : (w : Work) → IsWorking 0 w → Emits [] 0 w w
nothing-Emits w h = record {
  appended = nothing-Appends w.output w.local.dpu.mram h.ready.size h.ready.order;
  mirror = h.mirror;
  curr = omega arith;
  buffer = refl;
  wram = refl;
}

-- The bytes of the input that come next.
abbrev pub input_bytes : Work → ℕ → List ℕ
input_bytes w n = mram_read w.local.dpu.mram (w.input.buffer + w.input.curr) n

-- The input from a later state on, with what was read before.
input-append :
    (bytes : List ℕ) (k n total : ℕ) (w w' : Work)
    → k + n ≡ total
    → Emits bytes k w w'
    → IsWorking total w
    → input_bytes w k ++ input_bytes w' n ≡ input_bytes w total
input-append bytes k n total w w' e a h =
    let from : w'.input.buffer + w'.input.curr ≡ w.input.buffer + w.input.curr + k =
      omega (arith, a.buffer, a.curr) in
    ap (λ (l : List ℕ). input_bytes w k ++ l)
      (ap (λ (x : ℕ). mram_read w'.local.dpu.mram x n) from
        ∙ mram_read_ext w'.local.dpu.mram w.local.dpu.mram (w.input.buffer + w.input.curr + k) n
            (λ x lo hi. input_same bytes k w w' a x (omega (arith, h.apart))))
    ∙ mram_read-append w.local.dpu.mram (w.input.buffer + w.input.curr) k n
    ∙ ap (input_bytes w) e

rounds-Emits :
    (left len : ℕ) (w : Work)
    → len ≤ left
    → IsWorking len w
    → w.output.curr + len < 2 ^ 32
    → Emits
        (input_bytes w len)
        len
        w
        (copy_rounds left (w.output.curr - w.output.append_window) len w)
unfolding copy_rounds mram_read
rounds-Emits zero zero w fuel h small = nothing-Emits w h
rounds-Emits zero (suc more) w fuel h small = absurd (omega arith)
rounds-Emits (suc left) zero w fuel h small = nothing-Emits w h
rounds-Emits (suc left) (suc more) w fuel h small =
    let o = w.output in
    let index = (make_room (o.curr - o.append_window) o w.local.dpu.mram).0 in
    let lt =
      (make_room-Appends o w.local.dpu.mram h.ready.size h.ready.order h.ready.close
        (omega arith)).1 in
    let k = room_for index (suc more) in
    let (pos, most, room) = room_for_bounds index (suc more) lt (omega arith) in
    let w1 = after_copy k w in
    let total : k + (suc more - k) ≡ suc more = omega (arith, most) in
    let first = IsWorking-le (suc more) k w most h in
    let (a, at) = round-Emits k w first (omega (arith, most)) room in
    let again : w1.output.curr - w1.output.append_window ≡ u32 (index + k) =
      omega (arith, at, room) in
    let c =
      rounds-Emits left (suc more - k) w1 (omega (arith, pos))
        (Emits-IsWorking (input_bytes w k) k (suc more - k) (suc more) w w1 total a h)
        (omega (
          arith,
          a.appended.curr,
          length-mram_read w.local.dpu.mram (w.input.buffer + w.input.curr) k,
          most,
        )) in
    Emits-append (input_bytes w k) (input_bytes w1 (suc more - k)) (input_bytes w (suc more)) k
      (suc more - k) (suc more) w w1 _
      (input-append (input_bytes w k) k (suc more - k) (suc more) w w1 total a h) total a
      (subst
        (λ (j : ℕ).
          Emits (input_bytes w1 (suc more - k)) (suc more - k) w1
            (copy_rounds left j (suc more - k) w1))
        again c)

-- copy_output_buffer appends the next bytes of the input to the output and moves the input behind
-- them: with a reader at its position, an output that is ready and lies behind all the pages that
-- the reader loads, and no position that leaves 32 bits.
pub copy_output-Emits :
    (len : ℕ) (w : Work)
    → IsWorking len w
    → w.output.curr + len < 2 ^ 32
    → Emits (input_bytes w len) len w (copy_output_buffer len w)
unfolding copy_output_buffer
copy_output-Emits len w h small =
    let e : w.output.curr - w.output.append_window
        ≡ u32 (w.output.curr + 2 ^ 32 - w.output.append_window) =
      omega (arith, h.ready.order) in
    subst (λ (j : ℕ). Emits (input_bytes w len) len w (copy_rounds len j len w)) e
      (rounds-Emits len len w (omega arith) h small)

-- write_output_buffer leaves the input.
pub write-Emits :
    (bytes : List ℕ) (n : ℕ) (w : Work)
    → IsWorking n w
    → w.output.curr + length bytes < 2 ^ 32
    → Emits bytes 0 w (write_output bytes w)
unfolding write_output set_mram
write-Emits bytes n w h small =
    let a =
      write-Appends bytes w.output w.local.dpu.mram h.ready.size h.ready.order h.ready.close
        small in
    record {
      appended = a;
      mirror =
          Mirrors-ext (w.input.buffer + w.input.curr) w.input.ptr w.input.sr w.local
            (write_output_buffer bytes w.output w.local.dpu.mram).1
            (λ x lt. a.outside x (inl (omega (arith, h.apart)))) h.mirror;
      curr = omega arith;
      buffer = refl;
      wram = refl;
    }

-- emit_literal appends the tag of a literal and then that many bytes of the input.
pub write_literal-Emits :
    (len : ℕ) (w : Work)
    → IsWorking len w
    → w.output.curr + length (literal_tag len) + len < 2 ^ 32
    → Emits (literal_tag len ++ input_bytes w len) len w (write_literal len w)
unfolding write_literal mram_read
write_literal-Emits len w h small =
    let w1 = write_output (literal_tag len) w in
    let a = write-Emits (literal_tag len) len w h (omega arith) in
    let b =
      copy_output-Emits len w1 (Emits-IsWorking (literal_tag len) 0 len len w w1 (omega arith) a h)
        (omega (arith, a.appended.curr)) in
    Emits-append (literal_tag len) (input_bytes w1 len) _ 0 len len w w1 _
      (ap (λ (l : List ℕ). literal_tag len ++ l)
        (input-append (literal_tag len) 0 len len w w1 (omega arith) a h))
      (omega arith) a b
