-- ===== src/Page/Commit.antt =====
-- The memory after a successful search of pimswap_alloc_page_static: the section's bytes, the level
-- 1 table and the hash entry are written, and the two tables still agree.
use pim_swap.Base.{
  ℕ, ◌+◌, ◌*◌, ◌/◌, ◌%◌, ◌≤◌, ◌<◌, ◌≡◌, ◌≢◌, ◌⊎◌, inl, inr, ◌∙◌, sym, ap, ap₂, subst, Bool, true,
  false, List, arith, get_or, set, ◌==◌, ◌||◌, ◌&&◌, if◌then◌else◌, Bool-cases, ℕ_discrete, bit_set,
  or_bit, or_bit-lt,
}
use pim_swap.Mram.{Mram, IsBytes, mram_read, mram_write, mram_read_ext, get_or-mram_read}
use pim_swap.Layout.{dir_level1, dir_level2, hash_table, num_l2_sections, num_storage_blocks}
use pim_swap.L2.{Found}
use pim_swap.L2.Bitmap.{used}
use pim_swap.L2.Outcome.{in_blocks, Takes, IsContained}
use pim_swap.Page.Table.{
  full_bit, L1IsExact, l1_written, written_outside, IsBytes-written, full_bit-set,
}

-- Memories that agree on the level 2 table have the same used blocks, and so for level 1.
pub used_ext :
    (m m' : Mram)
    → ((x : ℕ) → dir_level2 ≤ x → x < hash_table → m' x ≡ m x)
    → (b : ℕ) → b < num_storage_blocks
    → used m' b ≡ used m b
used_ext m m' h b hb =
    ap (λ x. bit_set x (b % 8)) (h (dir_level2 + b / 8) (omega arith) (omega arith))

pub full_bit_ext :
    (m m' : Mram)
    → ((x : ℕ) → dir_level1 ≤ x → x < dir_level2 → m' x ≡ m x)
    → (s : ℕ) → s < num_l2_sections
    → full_bit m' s ≡ full_bit m s
full_bit_ext m m' h s hs =
    ap (λ x. bit_set x (s % 8)) (h (dir_level1 + s / 8) (omega arith) (omega arith))

module _ (m : Mram) (n k : ℕ) (found : Found) (hk : k < num_l2_sections) (bytes : IsBytes m)
    (was_open : full_bit m k ≡ false) (exact : L1IsExact m) (t : Takes k n m found)
    (c : IsContained k m found) where
  -- The memory after the conditional write of the level 1 table, as the code computes it.
  abbrev pub l1_updated : Mram
  l1_updated =
      if found.update_l1
      then mram_write
          (set (mram_read m dir_level1 240) (k / 8)
            (or_bit (get_or (mram_read m dir_level1 240) (k / 8) 0) (k % 8)))
          dir_level1 found.mram
      else found.mram

  same_l1 : (x : ℕ) → dir_level1 ≤ x → x < dir_level2 → found.mram x ≡ m x
  same_l1 x lo hi = c.outside x (inl (omega arith))

  as_written :
      mram_write
        (set
          (mram_read m dir_level1 240)
          (k / 8)
          (or_bit (get_or (mram_read m dir_level1 240) (k / 8) 0) (k % 8)))
        dir_level1
        found.mram
      ≡ l1_written found.mram k (or_bit (found.mram (dir_level1 + k / 8)) (k % 8))
  as_written =
      ap₂
        (λ (l : List ℕ) (v : ℕ).
          mram_write (set l (k / 8) (or_bit v (k % 8))) dir_level1 found.mram)
        (mram_read_ext m found.mram dir_level1 240 (λ x lo hi. sym (same_l1 x lo (omega arith))))
        (get_or-mram_read m dir_level1 240 (k / 8) (omega arith)
          ∙ sym (same_l1 (dir_level1 + k / 8) (omega arith) (omega arith)))

  v-lt : or_bit (found.mram (dir_level1 + k / 8)) (k % 8) < 256
  v-lt =
      or_bit-lt (found.mram (dir_level1 + k / 8)) (k % 8) (c.bytes (dir_level1 + k / 8))
        (omega arith)

  pub updated_outside : (x : ℕ) → (x < dir_level1) ⊎ (dir_level2 ≤ x) → l1_updated x ≡ found.mram x
  updated_outside x h = elim (Bool-cases found.update_l1) [
    | inl y ↦ rw y (
        ap (λ (w : Mram). w x) as_written
        ∙ written_outside found.mram k c.bytes hk (or_bit (found.mram (dir_level1 + k / 8)) (k % 8))
            v-lt x h)
    | inr f ↦ rw f
  ]

  pub IsBytes-updated : IsBytes l1_updated
  IsBytes-updated = elim (Bool-cases found.update_l1) [
    | inl y ↦ rw y (
        subst (λ (w : Mram). IsBytes w) (sym as_written)
          (IsBytes-written found.mram k c.bytes hk
            (or_bit (found.mram (dir_level1 + k / 8)) (k % 8)) v-lt))
    | inr f ↦ rw f c.bytes
  ]

  full_bit-updated :
      (s : ℕ)
      → s < num_l2_sections
      → full_bit l1_updated s ≡ ((found.update_l1 && k == s) || full_bit m s)
  full_bit-updated s hs = elim (Bool-cases found.update_l1) [
    | inl y ↦ rw y (
        ap (λ (w : Mram). full_bit w s) as_written
        ∙ full_bit-set found.mram k c.bytes hk s hs
        ∙ ap (λ (x : Bool). (k == s) || x) (full_bit_ext m found.mram same_l1 s hs))
    | inr f ↦ rw f (full_bit_ext m found.mram same_l1 s hs)
  ]

  used-updated :
      (b : ℕ)
      → b < num_storage_blocks
      → used l1_updated b ≡ (in_blocks (k * 512 + t.start) n b || used m b)
  used-updated b hb =
      used_ext found.mram l1_updated (λ x lo hi. updated_outside x (inr lo)) b hb ∙ t.marked b

  other_section :
      (s j : ℕ) → k ≢ s → j < 512 → in_blocks (k * 512 + t.start) n (s * 512 + j) ≡ false
  other_section s j ne hj = let h = t.inside in ground arith

  pub L1IsExact-updated : L1IsExact l1_updated
  L1IsExact-updated s hs = elim (ℕ_discrete k s) [
    | yes e ↦ (
      λ h j hj.
          used_ext found.mram l1_updated (λ x lo hi. updated_outside x (inr lo)) (s * 512 + j)
            (omega arith)
          ∙ ap (used found.mram) (omega arith)
          ∙ (t.flag).0 (set_when e h) j hj,
      λ h.
          full_bit-updated s hs
          ∙ marked_when e (
              (t.flag).1 (λ j hj.
                sym (
                  used_ext found.mram l1_updated (λ x lo hi. updated_outside x (inr lo))
                    (k * 512 + j) (omega arith))
                ∙ ap (used l1_updated) (omega arith)
                ∙ h j hj)),
    )
    | no ne ↦ (
      λ h j hj.
          used-updated (s * 512 + j) (omega arith)
          ∙ rw (other_section s j ne hj) ((exact s hs).0 (from_old ne h) j hj),
      λ h.
          full_bit-updated s hs
          ∙ to_old ne (
              (exact s hs).1 (λ j hj.
                sym (ap (λ (x : Bool). x || used m (s * 512 + j)) (other_section s j ne hj))
                ∙ sym (used-updated (s * 512 + j) (omega arith))
                ∙ h j hj)),
    )
  ]
    where
      set_when : k ≡ s → full_bit l1_updated s ≡ true → found.update_l1 ≡ true
      set_when e h = ground (arith, full_bit-updated s hs, ap (full_bit m) e, was_open)

      marked_when :
          k ≡ s → found.update_l1 ≡ true → ((found.update_l1 && k == s) || full_bit m s) ≡ true
      marked_when e h = ground arith

      from_old : k ≢ s → full_bit l1_updated s ≡ true → full_bit m s ≡ true
      from_old ne h = ground (arith, full_bit-updated s hs)

      to_old : k ≢ s → full_bit m s ≡ true → ((found.update_l1 && k == s) || full_bit m s) ≡ true
      to_old ne h = ground arith
