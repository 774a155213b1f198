-- ===== src/Snappy/Write.antt =====
-- write_output_buffer and the last write of dpu_compress append to the output and bring it to MRAM.
use pim_swap.Base.{
  ℕ, zero, suc, ◌+◌, ◌-◌, ◌*◌, ◌%◌, ◌^◌, ◌≤◌, ◌<◌, ◌≡◌, ◌∙◌, refl, sym, ap, inl, inr, true, false,
  List, [], ◌∷◌, u32, ltb, ◌==◌, if◌then◌else◌, arith, length, get_or, take, drop, length-take,
  get_or-take, take-drop, length-drop, Bool-cases, dec_lt, subst, ltb_of_lt, ltb_of_le, ltb→lt,
}
use pim_swap.Mram.{Mram, mram_write_inside, mram_write_outside}
use pim_swap.Program.{align8}
use pim_swap.Snappy.Output.{
  out_buffer_length, OutBuffer, make_room, put_bytes, room_for, write_loop, write_output_buffer,
  write_last,
}
use pim_swap.Snappy.Append.{
  byte_of, Appends, Appends-append, nothing-Appends, copy-Appends, make_room-Appends,
  room_for_bounds, put_bytes_window,
}

-- The state after a round that puts the given bytes into the window.
abbrev pub after_round : List ℕ → OutBuffer → Mram → OutBuffer
after_round bytes o m =
    let (index, o1, m1) = make_room (o.curr - o.append_window) o m in put_bytes index bytes o1

-- A round of the two loops that write to the output appends its bytes, where they fit the window.
pub round-Appends :
    (bytes : List ℕ) (o : OutBuffer) (m : Mram)
    → length o.window ≡ out_buffer_length
    → o.append_window ≤ o.curr
    → o.curr < o.append_window + 2 * out_buffer_length
    → o.curr + length bytes < 2 ^ 32
    → let (index, o1, m1) = make_room (o.curr - o.append_window) o m in
      index + length bytes ≤ out_buffer_length
      → Appends bytes o m (after_round bytes o m) m1
        × ((after_round bytes o m).curr - (after_round bytes o m).append_window
            ≡ index + length bytes)
round-Appends bytes o m size order close small fits =
    let (a, lt, at) = make_room-Appends o m size order close (omega arith) in
    let o1 = (make_room (o.curr - o.append_window) o m).1 in
    let m1 = (make_room (o.curr - o.append_window) o m).2 in
    let b : Appends bytes o1 m1 (after_round bytes o m) m1 =
      subst (λ (j : ℕ). Appends bytes o1 m1 (put_bytes j bytes o1) m1) (sym at)
        (copy-Appends bytes o1 m1 a.window_size a.before_curr (omega (arith, a.before_curr))
          (omega (arith, a.curr))) in
    let same = put_bytes_window (make_room (o.curr - o.append_window) o m).0 bytes o1 in
    (
      Appends-append [] bytes bytes o m o1 m1 (after_round bytes o m) m1 refl a b,
      omega (arith, b.curr, same, at, a.before_curr),
    )

-- write_output_buffer with enough rounds: each leaves room and then writes at least a byte.
loop-Appends :
    (left : ℕ) (arr : List ℕ) (o : OutBuffer) (m : Mram)
    → length arr ≤ left
    → length o.window ≡ out_buffer_length
    → o.append_window ≤ o.curr
    → o.curr < o.append_window + 2 * out_buffer_length
    → o.curr + length arr < 2 ^ 32
    → let (o', m') = write_loop left (o.curr - o.append_window) arr o m in Appends arr o m o' m'
unfolding write_loop
loop-Appends zero [] o m fuel size order close small = nothing-Appends o m size order
loop-Appends zero (x ∷ arr) o m fuel size order close small = absurd (omega arith)
loop-Appends (suc left) [] o m fuel size order close small = nothing-Appends o m size order
loop-Appends (suc left) (x ∷ arr) o m fuel size order close small =
    let xs = x ∷ arr in
    let index = (make_room (o.curr - o.append_window) o m).0 in
    let m1 = (make_room (o.curr - o.append_window) o m).2 in
    let lt = (make_room-Appends o m size order close (omega arith)).1 in
    let k = room_for index (length xs) in
    let (pos, most, room) = room_for_bounds index (length xs) lt (omega arith) in
    let taken : length (take k xs) ≡ k = length-take k xs most in
    let dropped : length (drop k xs) ≡ length xs - k = length-drop k xs in
    let o2 = after_round (take k xs) o m in
    let (a, at) =
      round-Appends (take k xs) o m size order close (omega (arith, taken))
        (omega (arith, taken)) in
    let again : o2.curr - o2.append_window ≡ u32 (index + k) = omega (arith, at, taken) in
    let c =
      loop-Appends left (drop k xs) o2 m1 (omega (arith, dropped)) a.window_size a.before_curr
        (omega (arith, a.before_curr, at, taken)) (omega (arith, a.curr, taken, dropped)) in
    Appends-append (take k xs) (drop k xs) xs o m o2 m1 _ _ (take-drop k xs) a (
      subst
        (λ (j : ℕ).
          Appends (drop k xs) o2 m1 (write_loop left j (drop k xs) o2 m1).0
            (write_loop left j (drop k xs) o2 m1).1)
        again c)

-- write_output_buffer appends its bytes to the output, where the window holds its 256 bytes and the
-- current position is in it or less than 256 bytes after it, and no position leaves 32 bits.
pub write-Appends :
    (arr : List ℕ) (o : OutBuffer) (m : Mram)
    → length o.window ≡ out_buffer_length
    → o.append_window ≤ o.curr
    → o.curr < o.append_window + 2 * out_buffer_length
    → o.curr + length arr < 2 ^ 32
    → let (o', m') = write_output_buffer arr o m in Appends arr o m o' m'
unfolding write_output_buffer
write-Appends arr o m size order close small =
    let e : o.curr - o.append_window ≡ u32 (o.curr + 2 ^ 32 - o.append_window) = omega arith in
    subst
      (λ (j : ℕ).
        Appends arr o m (write_loop (length arr) j arr o m).0 (write_loop (length arr) j arr o m).1)
      e (loop-Appends (length arr) arr o m (omega arith) size order close small)

-- After the last write of dpu_compress the MRAM has the whole output, where the current position is
-- in the window or just behind it. Before the window nothing has changed.
pub write_last_lem :
    (o : OutBuffer) (m : Mram)
    → length o.window ≡ out_buffer_length
    → o.append_window % out_buffer_length ≡ 0
    → o.append_window ≤ o.curr
    → o.curr ≤ o.append_window + out_buffer_length
    → let (o', m') = write_last o m in
      (o'.length ≡ o.curr)
      × ((i : ℕ) → i < o.curr → m' (o.buffer + i) ≡ byte_of o m i)
      × ((x : ℕ) → x < o.buffer + o.append_window → m' x ≡ m x)
unfolding write_last
write_last_lem o m size aligned order fits = elim (Bool-cases (ltb o.append_window o.curr)) [
  | inl more ↦ rw more (
    refl,
    λ i h. elim (dec_lt i o.append_window) [
      | yes lt ↦
          let e : ltb i o.append_window ≡ true = ltb_of_lt i _ lt in
          rw e
            (mram_write_outside w (o.buffer + o.append_window) m (o.buffer + i) (inl (omega arith)))
      | no ge ↦
          let e : ltb i o.append_window ≡ false = ltb_of_le i _ (omega arith) in
          let k : o.buffer + i - (o.buffer + o.append_window) ≡ i - o.append_window = omega arith in
          let inside : i - o.append_window < n = covers i h (ltb→lt _ _ more) in
          rw e (
            mram_write_inside w (o.buffer + o.append_window) m (o.buffer + i) (omega arith)
              (omega (arith, size_w))
            ∙ ap (λ (j : ℕ). get_or w j 0) k
            ∙ get_or-take n o.window (i - o.append_window) 0 inside)
    ],
    λ x h. mram_write_outside w (o.buffer + o.append_window) m x (inl h),
  )
  | inr none ↦
      let empty : o.curr ≤ o.append_window = ground arith in
      rw none (
        refl,
        λ i h. let e : ltb i o.append_window ≡ true = ltb_of_lt i _ (omega arith) in rw e refl,
        λ x h. refl,
      )
]
  where
    rest : ℕ
    rest = align8 (o.curr % out_buffer_length)

    n : ℕ
    n = if rest == 0 then out_buffer_length else rest

    most : n ≤ out_buffer_length
    most = ground arith

    w : List ℕ
    w = take n o.window

    size_w : length w ≡ n
    size_w = length-take n o.window (omega (arith, most))

    covers : (i : ℕ) → i < o.curr → o.append_window < o.curr → i - o.append_window < n
    covers i h more = ground arith
