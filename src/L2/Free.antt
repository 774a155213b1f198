-- ===== src/L2/Free.antt =====
-- free_blocks_l2: which blocks it marks as free.
use pim_swap.Base.{
  ℕ, zero, suc, ◌+◌, ◌*◌, ◌/◌, ◌%◌, ◌≤◌, ◌<◌, ◌≡◌, ◌≢◌, ◌⊎◌, inl, inr, ◌∙◌, refl, sym, ap, ap₂,
  subst, Bool, false, List, arith, get_or, set, length, length-set, ◌&&◌, not, leb, if◌then◌else◌,
  ℕ_discrete, Bool-cases, clear_bit, clear_bit-lt,
}
use pim_swap.Mram.{
  Mram, IsBytes, AreBytes, AreBytes-set, mram_read, mram_write, length-mram_read,
  AreBytes-mram_read, IsBytes-mram_write, mram_write_outside,
}
use pim_swap.Layout.{section_addr}
use pim_swap.Layout.Blocks.{l2_from_block}
use pim_swap.L2.{clear_run, free_blocks_l2}
use pim_swap.L2.Bitmap.{
  used, bit_at, bit_at-set_clear, bit_at-mram_read, used-mram_write_same, used-mram_write_other,
}
use pim_swap.L2.Outcome.{in_blocks}

pub length-clear_run : (left e bit : ℕ) (l : List ℕ) → length (clear_run left e bit l) ≡ length l
unfolding clear_run
length-clear_run zero e bit l = refl
length-clear_run (suc left) e bit l = ground (
  arith,
  length-clear_run left (if leb 8 (bit + 1) then e + 1 else e)
      (if leb 8 (bit + 1) then 0 else bit + 1) (set l e (clear_bit (get_or l e 0) bit)),
  length-set l e (clear_bit (get_or l e 0) bit),
)

pub AreBytes-clear_run :
    (left e bit : ℕ) (l : List ℕ) → bit < 8 → AreBytes l → AreBytes (clear_run left e bit l)
unfolding clear_run
AreBytes-clear_run zero e bit l hb bytes = bytes
AreBytes-clear_run (suc left) e bit l hb bytes = elim (Bool-cases (leb 64 e)) [
  | inl t ↦ rw t bytes
  | inr f ↦ rw f (
      AreBytes-clear_run left _ _ _ (ground arith) (
        AreBytes-set l e (clear_bit (get_or l e 0) bit)
          (clear_bit-lt (get_or l e 0) bit (bytes e) hb) bytes))
]

-- The loop clears `left` positions from (e, bit) on, up to the end of the section.
pub bit_at-clear_run :
    (left e bit : ℕ) (l : List ℕ) (q : ℕ)
    → length l ≡ 64
    → AreBytes l
    → bit < 8
    → e * 8 + bit ≤ 512
    → q < 512
    → bit_at (clear_run left e bit l) q ≡ (not (in_blocks (e * 8 + bit) left q) && bit_at l q)
unfolding clear_run
bit_at-clear_run zero e bit l q hl bytes hb he hq = ground arith
bit_at-clear_run (suc left) e bit l q hl bytes hb he hq = elim (Bool-cases (leb 64 e)) [
  | inl t ↦ rw t (ground arith)
  | inr f ↦ rw f (
      bit_at-clear_run left _ _ _ q (length-set l e (clear_bit (get_or l e 0) bit) ∙ hl)
        (AreBytes-set l e (clear_bit (get_or l e 0) bit)
          (clear_bit-lt (get_or l e 0) bit (bytes e) hb) bytes)
        (ground arith) (ground arith) hq
      ∙ ground (arith, bit_at-set_clear l e bit bytes (ground arith) hb q))
]

module _ (first n : ℕ) (m : Mram) (bytes : IsBytes m) where
  s : ℕ
  s = first / 512

  l : List ℕ
  l = mram_read m (section_addr (first / 512)) 64

  rest : List ℕ
  rest = clear_run n (first / 8 % 64) (first % 8) l

  free_mram : free_blocks_l2 first n m ≡ mram_write rest (section_addr s) m
  unfolding s l rest free_blocks_l2
  free_mram = let split = l2_from_block first in rw (split.0, split.1, split.2)

  length-rest : length rest ≡ 64
  unfolding rest l
  length-rest = length-clear_run n _ _ _ ∙ length-mram_read m (section_addr (first / 512)) 64

  bytes-l : AreBytes l
  unfolding l
  bytes-l = AreBytes-mram_read m (section_addr (first / 512)) 64 bytes

  bit-rest :
      (q : ℕ)
      → q < 512
      → bit_at rest q ≡ (not (in_blocks (first % 512) n q) && used m (first / 512 * 512 + q))
  unfolding rest l
  bit-rest q h =
      bit_at-clear_run n (first / 8 % 64) (first % 8) l q
        (length-mram_read m (section_addr (first / 512)) 64) bytes-l (omega arith) (omega arith) h
      ∙ ap₂ (λ (p : ℕ) (x : Bool). not (in_blocks p n q) && x) (omega arith)
          (bit_at-mram_read m (first / 512) q h)

  -- In a memory of bytes free_blocks_l2 marks exactly the n blocks from `first` on as free, where
  -- they lie in one section.
  pub used-free_blocks :
      (b : ℕ)
      → first % 512 + n ≤ 512
      → used (free_blocks_l2 first n m) b ≡ (not (in_blocks first n b) && used m b)
  unfolding s
  used-free_blocks b inside = elim (ℕ_discrete (b / 512) (first / 512)) [
    | yes e ↦
        let split : first / 512 * 512 + b % 512 ≡ b = omega arith in
        ap₂ used free_mram (sym split)
        ∙ used-mram_write_same rest m (first / 512) (b % 512) length-rest (omega arith)
        ∙ bit-rest (b % 512) (omega arith)
        ∙ ap₂ (λ (x : Bool) (y : Bool). not x && y) (same e) (ap (used m) split)
    | no ne ↦
        ap (λ (k : Mram). used k b) free_mram
        ∙ used-mram_write_other rest m (first / 512) b length-rest ne
        ∙ ap (λ (x : Bool). not x && used m b) (other ne)
  ]
    where
      same : b / 512 ≡ first / 512 → in_blocks (first % 512) n (b % 512) ≡ in_blocks first n b
      same e = ground arith

      other : b / 512 ≢ first / 512 → false ≡ in_blocks first n b
      other ne = ground arith

  pub free_blocks_outside :
      (x : ℕ)
      → (x < section_addr (first / 512)) ⊎ (section_addr (first / 512) + 64 ≤ x)
      → free_blocks_l2 first n m x ≡ m x
  unfolding s
  free_blocks_outside x h =
      ap (λ (k : Mram). k x) free_mram
      ∙ mram_write_outside rest (section_addr (first / 512)) m x (
          subst (λ (k : ℕ). (x < section_addr (first / 512)) ⊎ (section_addr (first / 512) + k ≤ x))
            (sym length-rest) h)

  pub IsBytes-free_blocks : IsBytes (free_blocks_l2 first n m)
  unfolding s rest
  IsBytes-free_blocks =
      subst (λ (k : Mram). IsBytes k) (sym free_mram)
        (IsBytes-mram_write rest (section_addr (first / 512)) m
          (AreBytes-clear_run n (first / 8 % 64) (first % 8) l (omega arith) bytes-l) bytes)
