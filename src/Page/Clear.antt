-- ===== src/Page/Clear.antt =====
-- The end of pimswap_free_page_static, which clears a bit of level 1.
use pim_swap.Base.{
  ℕ, ◌+◌, ◌/◌, ◌%◌, ◌≤◌, ◌<◌, ◌≡◌, ◌⊎◌, inl, inr, ◌∙◌, sym, ap, subst, true, false, arith, ◌==◌,
  not, ◌&&◌, if◌then◌else◌, Bool-cases, ℕ_discrete, bit_set, clear_bit, clear_bit-lt,
}
use pim_swap.Mram.{Mram, IsBytes, get_or-mram_read}
use pim_swap.Layout.{dir_level1, dir_level2, num_l2_sections}
use pim_swap.Layout.Blocks.{l1_from_section}
use pim_swap.Page.{clear_l1}
use pim_swap.Page.Table.{full_bit, l1_written, written_outside, IsBytes-written, full_bit-clear}

-- clear_l1 clears the section's bit of level 1 and changes nothing else.
module _ (m : Mram) (s : ℕ) (bytes : IsBytes m) (hs : s < num_l2_sections) where
  abbrev byte : ℕ
  byte = m (dir_level1 + s / 8)

  byte-lt : clear_bit byte (s % 8) < 256
  byte-lt = clear_bit-lt byte (s % 8) (bytes (dir_level1 + s / 8)) (omega arith)

  clear_l1_cases :
      ((bit_set byte (s % 8) ≡ true) × (clear_l1 s m ≡ l1_written m s (clear_bit byte (s % 8))))
      ⊎ ((bit_set byte (s % 8) ≡ false) × (clear_l1 s m ≡ m))
  clear_l1_cases = elim (Bool-cases (bit_set byte (s % 8))) [
    | inl y ↦ inl (y, as_bits ∙ rw y)
    | inr f ↦ inr (f, as_bits ∙ rw f)
  ]
    where
      as_bits :
          clear_l1 s m
          ≡ (if bit_set byte (s % 8) then l1_written m s (clear_bit byte (s % 8)) else m)
      as_bits =
          let split = l1_from_section s hs in
          unfold clear_l1 in
          rw (split.0, split.1, get_or-mram_read m dir_level1 240 (s / 8) (omega arith))

  pub clear_l1_outside : (x : ℕ) → (x < dir_level1) ⊎ (dir_level2 ≤ x) → clear_l1 s m x ≡ m x
  clear_l1_outside x h = elim clear_l1_cases [
    | inl (y, e) ↦
        ap (λ (w : Mram). w x) e ∙ written_outside m s bytes hs (clear_bit byte (s % 8)) byte-lt x h
    | inr (f, e) ↦ ap (λ (w : Mram). w x) e
  ]

  pub IsBytes-clear_l1 : IsBytes (clear_l1 s m)
  IsBytes-clear_l1 = elim clear_l1_cases [
    | inl (y, e) ↦
        subst (λ (w : Mram). IsBytes w) (sym e)
          (IsBytes-written m s bytes hs (clear_bit byte (s % 8)) byte-lt)
    | inr (f, e) ↦ subst (λ (w : Mram). IsBytes w) (sym e) bytes
  ]

  pub full_bit-clear_l1 :
      (t : ℕ) → t < num_l2_sections → full_bit (clear_l1 s m) t ≡ (not (s == t) && full_bit m t)
  full_bit-clear_l1 t ht = elim clear_l1_cases [
    | inl (y, e) ↦ ap (λ (w : Mram). full_bit w t) e ∙ full_bit-clear m s bytes hs t ht
    | inr (f, e) ↦ ap (λ (w : Mram). full_bit w t) e ∙ unchanged f
  ]
    where
      unchanged : full_bit m s ≡ false → full_bit m t ≡ (not (s == t) && full_bit m t)
      unchanged f = elim (ℕ_discrete s t) [
        | yes same ↦ ground (arith, ap (full_bit m) same)
        | no other ↦ ground arith
      ]
