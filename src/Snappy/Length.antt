-- ===== src/Snappy/Length.antt =====
-- write_compressed_length: the length in front of a compressed block.
use pim_swap.Base.{
  ℕ, zero, suc, ◌+◌, ◌-◌, ◌*◌, ◌/◌, ◌%◌, ◌^◌, ◌≤◌, ◌<◌, ◌≡◌, ◌⊎◌, ◌∙◌, refl, ap, inl, inr, List, [],
  ◌∷◌, ltb, arith, length, get_or, set, length-set, get_or-set_self, get_or-set_ne, dec_lt,
  Bool-cases, if◌then◌else◌,
}
use pim_swap.Mram.{
  Mram, mram_read, mram_write, length-mram_read, get_or-mram_read, mram_write_inside,
  mram_write_outside,
}
use pim_swap.Program.Word.{word_bytes}
use pim_swap.Snappy.Output.{out_buffer_length, OutBuffer, write_compressed_length, write_last}
use pim_swap.Snappy.Write.{write_last_lem}

-- Four entries written one after another.
abbrev set_four : List ℕ → ℕ → ℕ → ℕ → ℕ → ℕ → List ℕ
set_four l o a b c d = set (set (set (set l o a) (o + 1) b) (o + 2) c) (o + 3) d

length-set_four : (l : List ℕ) (o a b c d : ℕ) → length (set_four l o a b c d) ≡ length l
length-set_four l o a b c d =
    length-set _ (o + 3) d ∙ length-set _ (o + 2) c ∙ length-set _ (o + 1) b ∙ length-set l o a

set_four_other :
    (l : List ℕ) (o a b c d j : ℕ)
    → (j < o) ⊎ (o + 4 ≤ j)
    → get_or (set_four l o a b c d) j 0 ≡ get_or l j 0
set_four_other l o a b c d j h =
    get_or-set_ne _ (o + 3) j d 0 (λ e. ground (arith, e, h))
    ∙ get_or-set_ne _ (o + 2) j c 0 (λ e. ground (arith, e, h))
    ∙ get_or-set_ne _ (o + 1) j b 0 (λ e. ground (arith, e, h))
    ∙ get_or-set_ne l o j a 0 (λ e. ground (arith, e, h))

set_four_at :
    (l : List ℕ) (o a b c d i : ℕ)
    → o + 4 ≤ length l
    → i < 4
    → get_or (set_four l o a b c d) (o + i) 0 ≡ get_or (a ∷ b ∷ c ∷ d ∷ []) i 0
set_four_at l o a b c d zero fits h =
    let e : o + 0 ≡ o = omega arith in
    rw e (
      get_or-set_ne _ (o + 3) o d 0 (λ q. omega (arith, q))
      ∙ get_or-set_ne _ (o + 2) o c 0 (λ q. omega (arith, q))
      ∙ get_or-set_ne _ (o + 1) o b 0 (λ q. omega (arith, q))
      ∙ get_or-set_self l o a 0 (omega arith))
set_four_at l o a b c d (suc zero) fits h =
    get_or-set_ne _ (o + 3) (o + 1) d 0 (λ q. omega (arith, q))
    ∙ get_or-set_ne _ (o + 2) (o + 1) c 0 (λ q. omega (arith, q))
    ∙ get_or-set_self _ (o + 1) b 0 (omega (arith, length-set l o a))
set_four_at l o a b c d (suc (suc zero)) fits h =
    get_or-set_ne _ (o + 3) (o + 2) d 0 (λ q. omega (arith, q))
    ∙ get_or-set_self _ (o + 2) c 0
        (omega (arith, length-set l o a, length-set (set l o a) (o + 1) b))
set_four_at l o a b c d (suc (suc (suc zero))) fits h = get_or-set_self _ (o + 3) d 0 (
    omega (
      arith,
      length-set l o a,
      length-set (set l o a) (o + 1) b,
      length-set (set (set l o a) (o + 1) b) (o + 2) c,
    ))
set_four_at l o a b c d (suc (suc (suc (suc i)))) fits h = absurd (omega arith)

-- write_compressed_length puts the four bytes of the length at the offset, the lowest first, and
-- changes no other byte of the MRAM.
pub write_compressed_length_lem :
    (offset compressed_len : ℕ) (o : OutBuffer) (m : Mram)
    → let m' = write_compressed_length offset compressed_len o m in
      ((i : ℕ) → i < 4 → m' (o.buffer + offset + i) ≡ get_or (word_bytes compressed_len) i 0)
      × ((x : ℕ) → (x < o.buffer + offset) ⊎ (o.buffer + offset + 4 ≤ x) → m' x ≡ m x)
unfolding write_compressed_length word_bytes
write_compressed_length_lem offset compressed_len o m = (at, other)
  where
    from : ℕ
    from = o.buffer + offset / 8 * 8

    k : ℕ
    k = offset % 8

    l : List ℕ
    l = mram_read m from 16

    out : List ℕ
    out =
        set_four l k (compressed_len % 256) (compressed_len / 2 ^ 8 % 256)
          (compressed_len / 2 ^ 16 % 256) (compressed_len / 2 ^ 24 % 256)

    size : length out ≡ 16
    size = length-set_four l k _ _ _ _ ∙ length-mram_read m from 16

    at :
        (i : ℕ)
        → i < 4
        → mram_write out from m (o.buffer + offset + i) ≡ get_or (word_bytes compressed_len) i 0
    at i h =
        let e : o.buffer + offset + i - from ≡ k + i = omega arith in
        mram_write_inside out from m (o.buffer + offset + i) (omega arith) (omega (arith, size))
        ∙ ap (λ (j : ℕ). get_or out j 0) e
        ∙ set_four_at l k _ _ _ _ i (omega (arith, length-mram_read m from 16)) h

    other :
        (x : ℕ)
        → (x < o.buffer + offset) ⊎ (o.buffer + offset + 4 ≤ x)
        → mram_write out from m x ≡ m x
    other x h = elim (dec_lt x from) [
      | yes below ↦ mram_write_outside out from m x (inl below)
      | no not_below ↦ elim (dec_lt x (from + 16)) [
        | yes lt ↦
            let apart : (x - from < k) ⊎ (k + 4 ≤ x - from) = elim h [
              | inl lo ↦ inl (omega arith)
              | inr hi ↦ inr (omega arith)
            ] in
            let back : from + (x - from) ≡ x = omega arith in
            mram_write_inside out from m x (omega arith) (omega (arith, size))
            ∙ set_four_other l k _ _ _ _ (x - from) apart
            ∙ get_or-mram_read m from 16 (x - from) (omega arith)
            ∙ ap m back
        | no ge ↦ mram_write_outside out from m x (inr (omega (arith, size)))
      ]
    ]

-- What stands at the offset of the length after the last write of dpu_compress. Each of the four
-- bytes that write_compressed_length wrote is kept where the window had moved past it, and lost where
-- it was still in the window: there the last write puts the window's own byte over it. The window
-- has its 256 bytes and starts at a multiple of 256, and the length and the window end before the
-- position of the output or at most 256 bytes after the window's start.
pub write_last-write_compressed_length :
    (offset compressed_len i : ℕ) (o : OutBuffer) (m : Mram)
    → length o.window ≡ out_buffer_length
    → o.append_window % out_buffer_length ≡ 0
    → o.append_window ≤ o.curr
    → o.curr ≤ o.append_window + out_buffer_length
    → offset + 4 ≤ o.curr
    → i < 4
    → (write_last o (write_compressed_length offset compressed_len o m)).1 (o.buffer + (offset + i))
      ≡ (if ltb (offset + i) o.append_window
          then get_or (word_bytes compressed_len) i 0
          else get_or o.window (offset + i - o.append_window) 0)
write_last-write_compressed_length offset compressed_len i o m size aligned order fits before h =
    let wrote = write_compressed_length offset compressed_len o m in
    let written = (write_last_lem o wrote size aligned order fits).1 (offset + i) (omega arith) in
    elim (Bool-cases (ltb (offset + i) o.append_window)) [
      | inl below ↦
          let assoc : o.buffer + (offset + i) ≡ o.buffer + offset + i = omega arith in
          rw below (
            written
            ∙ rw below
                (ap wrote assoc ∙ (write_compressed_length_lem offset compressed_len o m).0 i h))
      | inr above ↦ rw above (written ∙ rw above refl)
    ]
