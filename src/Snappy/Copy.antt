-- ===== src/Snappy/Copy.antt =====
-- emit_copy on the buffers: it writes what the list of its elements says.
use pim_swap.Base.{
  ℕ, zero, suc, ◌+◌, ◌-◌, ◌/◌, ◌^◌, ◌<◌, refl, List, ◌++◌, ltb, leb, arith, length, length-append,
  Bool-cases, inl, inr,
}
use pim_swap.Snappy.{copy_less_than64, copy_rest, copy_loop, emit_copy}
use pim_swap.Snappy.Emit.{
  Work, write_copy_less_than64, write_copy_rest, write_copy_loop, write_copy,
}
use pim_swap.Snappy.Emitted.{Emits, IsWorking, Emits-append, Emits-IsWorking}
use pim_swap.Snappy.Literal.{write-Emits}

one-Emits :
    (offset len n : ℕ) (w : Work)
    → IsWorking n w
    → w.output.curr + length (copy_less_than64 offset len) < 2 ^ 32
    → Emits (copy_less_than64 offset len) 0 w (write_copy_less_than64 offset len w)
unfolding write_copy_less_than64
one-Emits offset len n w h small = write-Emits (copy_less_than64 offset len) n w h small

-- An element, and what the rest of the function writes behind it.
then-Emits :
    (offset len n : ℕ) (rest : List ℕ) (w : Work) (next : Work → Work)
    → IsWorking n w
    → w.output.curr + length (copy_less_than64 offset len ++ rest) < 2 ^ 32
    → ((v : Work) → IsWorking n v → v.output.curr + length rest < 2 ^ 32 → Emits rest 0 v (next v))
    → Emits (copy_less_than64 offset len ++ rest) 0 w (next (write_copy_less_than64 offset len w))
then-Emits offset len n rest w next h small after =
    let size = length-append (copy_less_than64 offset len) rest in
    let v = write_copy_less_than64 offset len w in
    let a = one-Emits offset len n w h (omega (arith, size)) in
    let b =
      after v (Emits-IsWorking (copy_less_than64 offset len) 0 n n w v (omega arith) a h)
        (omega (arith, size, a.appended.curr)) in
    Emits-append (copy_less_than64 offset len) rest _ 0 0 0 w v (next v) refl (omega arith) a b

rest-Emits :
    (offset len n : ℕ) (w : Work)
    → IsWorking n w
    → w.output.curr + length (copy_rest offset len) < 2 ^ 32
    → Emits (copy_rest offset len) 0 w (write_copy_rest offset len w)
unfolding copy_rest write_copy_rest
rest-Emits offset len n w h = elim (Bool-cases (ltb 64 len)) [
  | inl long ↦ rw long λ small.
      then-Emits offset 60 n (copy_less_than64 offset (len - 60)) w
        (write_copy_less_than64 offset (len - 60)) h small
        (λ v hv fits. one-Emits offset (len - 60) n v hv fits)
  | inr short ↦ rw short λ small. one-Emits offset len n w h small
]

loop-Emits :
    (left offset len n : ℕ) (w : Work)
    → IsWorking n w
    → w.output.curr + length (copy_loop left offset len) < 2 ^ 32
    → Emits (copy_loop left offset len) 0 w (write_copy_loop left offset len w)
unfolding copy_loop write_copy_loop
loop-Emits zero offset len n w h = rest-Emits offset len n w h
loop-Emits (suc left) offset len n w h = elim (Bool-cases (leb 68 len)) [
  | inl more ↦ rw more λ small.
      then-Emits offset 64 n (copy_loop left offset (len - 64)) w
        (write_copy_loop left offset (len - 64)) h small
        (λ v hv fits. loop-Emits left offset (len - 64) n v hv fits)
  | inr last ↦ rw last λ small. rest-Emits offset len n w h small
]

-- emit_copy appends its elements to the output and leaves the input, with the output ready and
-- behind the pages of the reader, and no position that leaves 32 bits.
pub write_copy-Emits :
    (offset len n : ℕ) (w : Work)
    → IsWorking n w
    → w.output.curr + length (emit_copy offset len) < 2 ^ 32
    → Emits (emit_copy offset len) 0 w (write_copy offset len w)
unfolding emit_copy write_copy
write_copy-Emits offset len n w h small = loop-Emits (len / 64) offset len n w h small
