-- ===== src/L2/Section.antt =====
-- The search of find_free_blocks_l2 over the whole section.
use pim_swap.Base.{
  ℕ, zero, suc, ◌+◌, ◌-◌, ◌*◌, ◌%◌, ◌≤◌, ◌<◌, ◌≡◌, ◌⊎◌, inl, inr, ◌∙◌, refl, ap, subst, true, false,
  none, List, arith, get_or, ◌==◌, ==_iff, Bool-cases, dec_lt, dec_le, ℕ_discrete, bit_set,
  bit_set_of_full,
}
use pim_swap.Layout.{num_l2_sections}
use pim_swap.L2.{Scan, scan_bits, scan_entries}
use pim_swap.L2.Bitmap.{bit_at}
use pim_swap.L2.Search.{EndsBeforeFull, Inv, Hit, scan_bits_lem}

module _ (l : List ℕ) (n section : ℕ) (n_pos : 0 < n) (n_le : n ≤ 64)
    (sec : section < num_l2_sections) where
  used_in_full : (e q : ℕ) → get_or l e 0 ≡ 0xff → e * 8 ≤ q → q < e * 8 + 8 → bit_at l q ≡ true
  used_in_full e q full a b =
      ap (λ k. bit_set (get_or l k 0) (q % 8)) (omega arith)
      ∙ bit_set_of_full (get_or l e 0) (q % 8) full (omega arith)

  -- An entry that is 0xFF is skipped with the count as it is.
  module _ (e : ℕ) (s : Scan) (he : e < 64) (full : get_or l e 0 ≡ 0xff)
      (v : Inv l n section (e * 8) s) where
    none_counted : EndsBeforeFull l → s.found ≡ 0
    none_counted t = elim (ℕ_discrete s.found 0) [
      | yes z ↦ z
      | no k ↦
          let fits = v.fits in
          let before : bit_at l (e * 8 - 1) ≡ false =
            v.free_run t (e * 8 - 1) (omega arith) (omega arith) in
          let back : e - 1 + 1 ≡ e = omega arith in
          let taken : bit_at l ((e - 1) * 8 + 7) ≡ true =
            t (e - 1) (omega arith) (ap (λ k. get_or l k 0) back ∙ full) in
          let same : (e - 1) * 8 + 7 ≡ e * 8 - 1 = omega arith in cc (ap (bit_at l) same)
    ]

    Inv_full : Inv l n section (e * 8 + 8) s
    Inv_full =
        let short = v.short in
        let fits = v.fits in
        record {
          short = short;
          fits = omega arith;
          longest = λ q h r. elim (dec_lt q (e * 8 + 8)) [
            | yes k ↦ cc (
              r (e * 8 + 7) (omega arith) (omega arith),
              used_in_full e (e * 8 + 7) full (omega arith) (omega arith),
            )
            | no k ↦ omega arith
          ];
          none_before = λ q h r. elim (dec_le (q + n) (e * 8)) [
            | yes k ↦ v.none_before q k r
            | no k ↦ cc (
              r (q + n - 1) (omega arith) (omega arith),
              used_in_full e (q + n - 1) full (omega arith) (omega arith),
            )
          ];
          assigned = v.assigned;
          free_run = λ t j a b. absurd (omega (arith, none_counted t));
          first = λ t ne. absurd (ne (none_counted t));
        }

  -- What the search returns: a hit, or the state after the last position.
  abbrev pub AfterEntries : Scan × ℕ × ℕ → Type 0
  AfterEntries r = (r.2 < 8) × Hit l n section (r.1 * 8 + r.2) r.0 ⊎ Inv l n section 512 r.0

  pub scan_entries_lem :
      (left e bit : ℕ) (s : Scan)
      → e + left ≡ 64
      → Inv l n section (e * 8) s
      → AfterEntries (scan_entries n section left l e bit s)
  unfolding scan_entries
  scan_entries_lem zero e bit s he v = inr (subst (λ (k : ℕ). Inv l n section k s) (omega arith) v)
  scan_entries_lem (suc left) e bit s he v = elim (Bool-cases (get_or l e 0 == 0xff)) [
    | inl full ↦ rw full (
        scan_entries_lem left (e + 1) bit s (omega arith)
          (next s (Inv_full e s (omega arith) ((==_iff _ _).0 full) v)))
    | inr partial ↦ elim bits [
      | inl (b, hit) ↦ rw (partial, (==_iff (r.0).found n).1 hit.enough) (inl (b, hit))
      | inr w ↦
          let short = w.short in
          let more : ((r.0).found == n) ≡ false = ground arith in
          rw (partial, more)
            (scan_entries_lem left (e + 1) (r.1) (r.0) (omega arith) (next (r.0) w))
    ]
  ]
    where
      r : Scan × ℕ
      r = scan_bits n section 8 (get_or l e 0) e 0 s

      bits : (r.1 < 8) × Hit l n section (e * 8 + r.1) r.0 ⊎ Inv l n section (e * 8 + 8) r.0
      bits =
          scan_bits_lem l n section n_pos n_le sec 8 e 0 s (omega arith) refl
            (subst (λ (k : ℕ). Inv l n section k s) (omega arith) v)

      next : (s' : Scan) → Inv l n section (e * 8 + 8) s' → Inv l n section ((e + 1) * 8) s'
      next s' w = subst (λ (k : ℕ). Inv l n section k s') (omega arith) w

  start : Inv l n section 0 (record { found = 0; first_block = none })
  start = record {
    short = n_pos;
    fits = omega arith;
    longest = λ q h r. omega arith;
    none_before = λ q h r. omega arith;
    assigned = λ ne. absurd (ne refl);
    free_run = λ t j a b. absurd (omega arith);
    first = λ t ne. absurd (ne refl);
  }

  pub search_lem :
      AfterEntries (scan_entries n section 64 l 0 0 (record { found = 0; first_block = none }))
  search_lem = scan_entries_lem 64 0 0 _ refl start
