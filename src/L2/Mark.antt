-- ===== src/L2/Mark.antt =====
-- The marking loop of find_free_blocks_l2, and its test for a full section.
use pim_swap.Base.{
  ℕ, zero, suc, ◌+◌, ◌-◌, ◌*◌, ◌/◌, ◌%◌, ◌≤◌, ◌<◌, ◌≡◌, ◌∙◌, refl, sym, ap, ap₂, Bool, true, List,
  arith, get_or, set, length, length-set, get_or-set_self, ◌==◌, ◌||◌, ◌&&◌, ltb, leb,
  if◌then◌else◌, ℕ_discrete, bit_set, or_bit, or_bit-lt, u8, bit_set_of_full, full_of_bit_set,
}
use pim_swap.Mram.{AreBytes, AreBytes-set}
use pim_swap.L2.{mark_back, all_full}
use pim_swap.L2.Bitmap.{bit_at, bit_at-set_or}

-- q is one of the `found` positions that end at p.
abbrev pub in_run : ℕ → ℕ → ℕ → Bool
in_run found p q = ltb p (q + found) && leb q p

-- Marks of `found` positions that end at (e, bit): those become used, and no other changes.
module _ where
  pub length-mark_back :
      (found e bit : ℕ) (l : List ℕ) (c : Bool) → length ((mark_back found e bit l c).0) ≡ length l
  unfolding mark_back
  length-mark_back zero e bit l c = refl
  length-mark_back (suc found) e bit l c =
      length-mark_back found _ _ _ _ ∙ length-set l e (or_bit (get_or l e 0) bit)

  pub AreBytes-mark_back :
      (found e bit : ℕ) (l : List ℕ) (c : Bool)
      → bit < 8
      → AreBytes l
      → AreBytes ((mark_back found e bit l c).0)
  unfolding mark_back
  AreBytes-mark_back zero e bit l c hb bytes = bytes
  AreBytes-mark_back (suc found) e bit l c hb bytes =
      AreBytes-mark_back found _ _ _ _ (ground arith) (
        AreBytes-set l e (or_bit (get_or l e 0) bit) (or_bit-lt (get_or l e 0) bit (bytes e) hb)
          bytes)

  pub bit_at-mark_back :
      (found e bit : ℕ) (l : List ℕ) (c : Bool) (q : ℕ)
      → length l ≡ 64
      → AreBytes l
      → e < 64
      → bit < 8
      → found ≤ e * 8 + bit + 1
      → bit_at ((mark_back found e bit l c).0) q ≡ (in_run found (e * 8 + bit) q || bit_at l q)
  unfolding mark_back
  bit_at-mark_back zero e bit l c q hl bytes he hb hf = ground arith
  bit_at-mark_back (suc zero) e bit l c q hl bytes he hb hf =
      ground (arith, bit_at-set_or l e bit bytes (omega arith) hb q)
  bit_at-mark_back (suc (suc found)) e bit l c q hl bytes he hb hf =
      bit_at-mark_back (suc found) e' bit' l' c' q (length-set l e byte ∙ hl)
        (AreBytes-set l e byte (or_bit-lt (get_or l e 0) bit (bytes e) hb) bytes) (ground arith)
        (ground arith) (omega (arith, back))
      ∙ ground (arith, back, bit_at-set_or l e bit bytes (omega arith) hb q)
    where
      byte : ℕ
      byte = or_bit (get_or l e 0) bit

      l' : List ℕ
      l' = set l e byte

      e' : ℕ
      e' = if bit == 0 then u8 (e + 255) else e

      bit' : ℕ
      bit' = if bit == 0 then 7 else bit - 1

      c' : Bool
      c' = if byte == 0xff then true else c

      back : e' * 8 + bit' + 1 ≡ e * 8 + bit
      back = ground arith

-- Every entry is 0xFF.
abbrev pub IsFull : List ℕ → Type 0
IsFull l = (e : ℕ) → e < 64 → get_or l e 0 ≡ 0xff

check_stays :
    (found e bit : ℕ) (l : List ℕ) (c : Bool) → c ≡ true → (mark_back found e bit l c).1 ≡ true
unfolding mark_back
check_stays zero e bit l c h = h
check_stays (suc found) e bit l c h = check_stays found _ _ _ _ (ground arith)

-- If the marks fill the section, check_l2 was set on the way.
pub check-IsFull :
    (found e bit : ℕ) (l : List ℕ) (c : Bool)
    → 0 < found
    → length l ≡ 64
    → e < 64
    → bit < 8
    → found ≤ e * 8 + bit + 1
    → IsFull ((mark_back found e bit l c).0)
    → (mark_back found e bit l c).1 ≡ true
unfolding mark_back
check-IsFull zero e bit l c hp hl he hb hf full = absurd (omega arith)
check-IsFull (suc zero) e bit l c hp hl he hb hf full =
    ground (arith, full e he, get_or-set_self l e (or_bit (get_or l e 0) bit) 0 (omega arith))
check-IsFull (suc (suc found)) e bit l c hp hl he hb hf full =
    check-IsFull (suc found) (if bit == 0 then u8 (e + 255) else e)
      (if bit == 0 then 7 else bit - 1) (set l e (or_bit (get_or l e 0) bit)) _ (omega arith)
      (length-set l e (or_bit (get_or l e 0) bit) ∙ hl) (ground arith) (ground arith) (ground arith)
      full

all_full-suc :
    (left e : ℕ) (l : List ℕ)
    → all_full (suc left) l e ≡ true
    → (get_or l e 0 ≡ 0xff) × (all_full left l (e + 1) ≡ true)
unfolding all_full
all_full-suc left e l h = ground arith

pub all_full-IsFull :
    (left e : ℕ) (l : List ℕ)
    → all_full left l e ≡ true
    → (i : ℕ) → e ≤ i
    → i < e + left
    → get_or l i 0 ≡ 0xff
all_full-IsFull zero e l h i a b = absurd (omega arith)
all_full-IsFull (suc left) e l h i a b = elim (ℕ_discrete e i) [
  | yes same ↦ ap (λ k. get_or l k 0) (sym same) ∙ (all_full-suc left e l h).0
  | no other ↦
      all_full-IsFull left (e + 1) l (all_full-suc left e l h).1 i (omega arith) (omega arith)
]

pub IsFull-all_full :
    (left e : ℕ) (l : List ℕ)
    → ((i : ℕ) → e ≤ i → i < e + left → get_or l i 0 ≡ 0xff)
    → all_full left l e ≡ true
unfolding all_full
IsFull-all_full zero e l h = refl
IsFull-all_full (suc left) e l h =
    ground (arith, h e, IsFull-all_full left (e + 1) l (λ i a b. h i (omega arith) (omega arith)))

-- In terms of the bits.
pub IsFull-of_bits : (l : List ℕ) → AreBytes l → ((q : ℕ) → q < 512 → bit_at l q ≡ true) → IsFull l
IsFull-of_bits l bytes h e he = full_of_bit_set (get_or l e 0) (bytes e) λ b hb.
    ap₂ bit_set (ap (λ k. get_or l k 0) (omega arith)) (omega arith) ∙ h (e * 8 + b) (omega arith)

pub bits_of_IsFull : (l : List ℕ) → IsFull l → (q : ℕ) → q < 512 → bit_at l q ≡ true
bits_of_IsFull l h q hq =
    bit_set_of_full (get_or l (q / 8) 0) (q % 8) (h (q / 8) (omega arith)) (omega arith)
