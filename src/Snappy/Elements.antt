-- ===== src/Snappy/Elements.antt =====
-- What a reader of the format finds in the emitted elements.
use pim_swap.Base.{
  ℕ, zero, suc, ◌+◌, ◌-◌, ◌*◌, ◌/◌, ◌%◌, ◌^◌, ◌≤◌, ◌<◌, ◌≡◌, ap, ap₂, subst, refl, List, [], ◌++◌,
  some, arith, ltb, leb, ◌==◌, ◌&&◌, length, length-append, u8, u32, Bool-cases, false, inl, inr,
}
use pim_swap.Snappy.{
  el_type_literal, el_type_copy_1, el_type_copy_2, copy_less_than64, copy_rest, copy_loop,
  emit_copy, literal_tag, length_bytes,
}
use pim_swap.Snappy.Format.{read_copy, read_number, read_literal, Copies, no_copy, next_copy}

near_tag :
    (offset len : ℕ)
    → 4 ≤ len
    → len < 12
    → offset < 2048
    → let b = u8 (el_type_copy_1 + (len + 2 ^ 32 - 4) * 4 + offset / 256 * 32) in
      (b % 4 ≡ 1) × (b / 32 * 256 + u8 offset ≡ offset) × (b / 4 % 8 + 4 ≡ len)
near_tag offset len lo hi ho =
    let b : (el_type_copy_1 + (len + 2 ^ 32 - 4) * 4 + offset / 256 * 32) % 256
        ≡ 1 + (len - 4) * 4 + offset / 256 * 32 =
      omega arith in
    (omega (arith, b), omega (arith, b), omega (arith, b))

far_tag :
    (offset len : ℕ)
    → 4 ≤ len
    → len ≤ 64
    → offset < 2 ^ 16
    → let b = u8 (el_type_copy_2 + (len + 2 ^ 32 - 1) * 4) in
      (b % 4 ≡ 2) × (u8 offset + (u8 (offset / 256) + 0 * 256) * 256 ≡ offset) × (b / 4 + 1 ≡ len)
far_tag offset len lo hi ho =
    let b : (el_type_copy_2 + (len + 2 ^ 32 - 1) * 4) % 256 ≡ 2 + (len - 1) * 4 = omega arith in
    (omega (arith, b), omega arith, omega (arith, b))

-- For a length of 4 to 64 and an offset of 16 bits, a reader of what emit_copy_less_than64 emits,
-- whatever follows it, finds a copy of that offset and length.
pub read_copy-copy_less_than64 :
    (offset len : ℕ) (l : List ℕ)
    → 4 ≤ len
    → len ≤ 64
    → offset < 2 ^ 16
    → read_copy (copy_less_than64 offset len ++ l) ≡ some (offset, len, l)
unfolding copy_less_than64 read_copy read_number
read_copy-copy_less_than64 offset len l lo hi ho =
    elim (Bool-cases (ltb len 12 && ltb offset 2048)) [
      | inl near ↦
          let (type, at, size) = near_tag offset len lo (ground arith) (ground arith) in
          rw (near, type) (ap₂ (λ (o k : ℕ). some (o, k, l)) at size)
      | inr far ↦
          let (type, at, size) = far_tag offset len lo hi ho in
          rw (far, type) (ap₂ (λ (o k : ℕ). some (o, k, l)) at size)
    ]

-- A copy in front of copies at the same offset.
copy_before :
    (offset k n total : ℕ) (rest : List ℕ)
    → 4 ≤ k
    → k ≤ 64
    → offset < 2 ^ 16
    → k + n ≡ total
    → Copies offset rest n
    → Copies offset (copy_less_than64 offset k ++ rest) total
copy_before offset k n total rest lo hi ho e copies =
    subst (Copies offset (copy_less_than64 offset k ++ rest)) e
      (next_copy (read_copy-copy_less_than64 offset k rest lo hi ho) copies)

append_nil : (offset len : ℕ) → copy_less_than64 offset len ++ [] ≡ copy_less_than64 offset len
unfolding copy_less_than64
append_nil offset len = elim (Bool-cases (ltb len 12 && ltb offset 2048)) [
  | inl near ↦ rw near refl
  | inr far ↦ rw far refl
]

one_copy :
    (offset len : ℕ)
    → 4 ≤ len
    → len ≤ 64
    → offset < 2 ^ 16
    → Copies offset (copy_less_than64 offset len) len
one_copy offset len lo hi ho =
    subst (λ (l : List ℕ). Copies offset l len) (append_nil offset len)
      (copy_before offset len 0 len [] lo hi ho (omega arith) no_copy)

rest-Copies :
    (offset len : ℕ)
    → 4 ≤ len
    → len < 68
    → offset < 2 ^ 16
    → Copies offset (copy_rest offset len) len
unfolding copy_rest
rest-Copies offset len lo hi ho = elim (Bool-cases (ltb 64 len)) [
  | inl y ↦ rw y (
      copy_before offset 60 (len - 60) len (copy_less_than64 offset (len - 60)) (omega arith)
        (omega arith) ho (ground arith)
        (one_copy offset (len - 60) (ground arith) (ground arith) ho))
  | inr n ↦ rw n (one_copy offset len lo (ground arith) ho)
]

loop-Copies :
    (left offset len : ℕ)
    → 4 ≤ len
    → len < left * 64 + 68
    → offset < 2 ^ 16
    → Copies offset (copy_loop left offset len) len
unfolding copy_loop
loop-Copies zero offset len lo hi ho = rest-Copies offset len lo (omega arith) ho
loop-Copies (suc left) offset len lo hi ho = elim (Bool-cases (leb 68 len)) [
  | inl y ↦ rw y (
      copy_before offset 64 (len - 64) len (copy_loop left offset (len - 64)) (omega arith)
        (omega arith) ho (ground arith)
        (loop-Copies left offset (len - 64) (ground arith) (ground arith) ho))
  | inr n ↦ rw n (rest-Copies offset len lo (ground arith) ho)
]

-- For a length of at least 4 and an offset of 16 bits, what emit_copy emits is a sequence of copies
-- at that offset, of that length together, and nothing else.
pub emit_copy-Copies :
    (offset len : ℕ) → 4 ≤ len → offset < 2 ^ 16 → Copies offset (emit_copy offset len) len
unfolding emit_copy
emit_copy-Copies offset len lo ho = loop-Copies (len / 64) offset len lo (omega arith) ho

byte_low : (n : ℕ) → u8 n + n / 256 * 256 ≡ n
byte_low n = omega arith

-- A reader of as many bytes as were emitted finds the number.
read_number-length_bytes :
    (left n : ℕ) (l : List ℕ)
    → n < 256 ^ left
    → read_number (length (length_bytes left n)) (length_bytes left n ++ l) ≡ some (n, l)
unfolding length_bytes read_number
read_number-length_bytes zero n l h = ap (λ (k : ℕ). some (k, l)) (omega arith)
read_number-length_bytes (suc left) n l h = elim (Bool-cases (n == 0)) [
  | inl y ↦ rw y (ap (λ (k : ℕ). some (k, l)) (ground arith))
  | inr f ↦
      rw (f, read_number-length_bytes left (n / 256) l (omega arith))
        (ap (λ (k : ℕ). some (k, l)) (byte_low n))
]

length-length_bytes_le : (left n : ℕ) → length (length_bytes left n) ≤ left
unfolding length_bytes
length-length_bytes_le zero n = omega arith
length-length_bytes_le (suc left) n = ground (arith, length-length_bytes_le left (n / 256))

length-length_bytes_pos : (left n : ℕ) → 0 < n → 0 < length (length_bytes (suc left) n)
unfolding length_bytes
length-length_bytes_pos left n h = ground arith

-- A reader of the tag that emit_literal writes for a length of 1 to 2^32 - 1 bytes, whatever
-- follows it, finds that length.
pub read_literal-literal_tag :
    (len : ℕ) (l : List ℕ)
    → 0 < len
    → len < 2 ^ 32
    → read_literal (literal_tag len ++ l) ≡ some (len, l)
unfolding literal_tag read_literal
read_literal-literal_tag len l lo hi =
    let n : u32 (len + 2 ^ 32 - 1) ≡ len - 1 = omega arith in
    rw n (elim (Bool-cases (ltb (len - 1) 60)) [
      | inl short ↦
          let type : (el_type_literal + (len - 1) * 4) % 256 % 4 ≡ 0 = omega arith in
          let size : (el_type_literal + (len - 1) * 4) % 256 / 4 ≡ len - 1 = ground arith in
          rw (short, type, size, short) (ap (λ (k : ℕ). some (k, l)) (omega arith))
      | inr long ↦
          let lower : 0 < k = length-length_bytes_pos 3 (len - 1) (ground arith) in
          let upper : k ≤ 4 = length-length_bytes_le 4 (len - 1) in
          let type : (el_type_literal + (59 + k) * 4) % 256 % 4 ≡ 0 = omega arith in
          let size : (el_type_literal + (59 + k) * 4) % 256 / 4 ≡ 59 + k = omega arith in
          let after : ltb (59 + k) 60 ≡ false = ground arith in
          let count : 59 + k - 59 ≡ k = omega arith in
          rw (long, type, size, after, count, read_number-length_bytes 4 (len - 1) l (omega arith))
            (ap (λ (k : ℕ). some (k, l)) (omega arith))
    ])
  where
    k : ℕ
    k = length (length_bytes 4 (len - 1))

-- The sizes of the elements.
pub length-literal_tag_le : (len : ℕ) → length (literal_tag len) ≤ 5
unfolding literal_tag
length-literal_tag_le len = elim (Bool-cases (ltb (u32 (len + 2 ^ 32 - 1)) 60)) [
  | inl short ↦ rw short (omega arith)
  | inr long ↦ rw long (omega (arith, length-length_bytes_le 4 (u32 (len + 2 ^ 32 - 1))))
]

length-copy_less_than64_le : (offset len : ℕ) → length (copy_less_than64 offset len) ≤ 3
unfolding copy_less_than64
length-copy_less_than64_le offset len = elim (Bool-cases (ltb len 12 && ltb offset 2048)) [
  | inl near ↦ rw near (omega arith)
  | inr far ↦ rw far (omega arith)
]

length-copy_rest_le : (offset len : ℕ) → length (copy_rest offset len) ≤ 6
unfolding copy_rest
length-copy_rest_le offset len = elim (Bool-cases (ltb 64 len)) [
  | inl long ↦ rw long (
      omega (
        arith,
        length-append (copy_less_than64 offset 60) (copy_less_than64 offset (len - 60)),
        length-copy_less_than64_le offset 60,
        length-copy_less_than64_le offset (len - 60),
      ))
  | inr short ↦ rw short (omega (arith, length-copy_less_than64_le offset len))
]

length-copy_loop_le : (left offset len : ℕ) → length (copy_loop left offset len) ≤ left * 3 + 6
unfolding copy_loop
length-copy_loop_le zero offset len = length-copy_rest_le offset len
length-copy_loop_le (suc left) offset len = elim (Bool-cases (leb 68 len)) [
  | inl more ↦ rw more (
      omega (
        arith,
        length-append (copy_less_than64 offset 64) (copy_loop left offset (len - 64)),
        length-copy_less_than64_le offset 64,
        length-copy_loop_le left offset (len - 64),
      ))
  | inr last ↦ rw last (omega (arith, length-copy_rest_le offset len))
]

pub length-emit_copy_le : (offset len : ℕ) → length (emit_copy offset len) ≤ len / 64 * 3 + 6
unfolding emit_copy
length-emit_copy_le offset len = length-copy_loop_le (len / 64) offset len
