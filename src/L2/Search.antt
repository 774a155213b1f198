-- ===== src/L2/Search.antt =====
-- What the search of find_free_blocks_l2 knows at each position of the section's bitmap.
use pim_swap.Base.{
  ℕ, zero, suc, ◌+◌, ◌-◌, ◌*◌, ◌≤◌, ◌<◌, ◌≡◌, ◌≢◌, ◌⊎◌, inl, inr, ◌∙◌, refl, ap, ap₂, subst, true,
  false, some, List, arith, get_or, ◌==◌, ==_iff, Bool-cases, dec_le, ℕ_discrete, bit_set,
}
use pim_swap.Layout.{num_l2_sections, num_storage_blocks, make_block_from_l2}
use pim_swap.Layout.Blocks.{make_block_sum}
use pim_swap.L2.{Scan, see_free, scan_bits}
use pim_swap.L2.Bitmap.{bit_at}

-- Positions lo, ..., hi - 1 are free.
abbrev pub IsFreeRun : List ℕ → ℕ → ℕ → Type 0
IsFreeRun l lo hi = (j : ℕ) → lo ≤ j → j < hi → bit_at l j ≡ false

-- No run of n free positions ends at p or before.
abbrev pub NoRun : List ℕ → ℕ → ℕ → Type 0
NoRun l n p = (q : ℕ) → q + n ≤ p → IsFreeRun l q (q + n) → ⊥

-- The search skips an entry that is 0xFF without ending the run that it is counting. That does no
-- harm where the position before every such entry is used.
abbrev pub EndsBeforeFull : List ℕ → Type 0
EndsBeforeFull l = (e : ℕ) → e + 1 < 64 → get_or l (e + 1) 0 ≡ 0xff → bit_at l (e * 8 + 7) ≡ true

module _ (l : List ℕ) (n section : ℕ) where
  -- Before position p: the count is short of n and at least the length of the free run that ends
  -- at p, and no run of n was passed over. The counted run is a free run if no entry trips it.
  pub record Inv (p : ℕ) (s : Scan) : Type 0 where
    pub short : s.found < n
    pub fits : s.found ≤ p
    pub longest : (q : ℕ) → q ≤ p → IsFreeRun l q p → p ≤ q + s.found
    pub none_before : NoRun l n p
    pub assigned : s.found ≢ 0 → (b : ℕ) × (s.first_block ≡ some b) × (b < num_storage_blocks)
    pub free_run : EndsBeforeFull l → IsFreeRun l (p - s.found) p
    pub first :
        EndsBeforeFull l → s.found ≢ 0 → s.first_block ≡ some (section * 512 + (p - s.found))

  -- The search stopped at position p with a run of n.
  pub record Hit (p : ℕ) (s : Scan) : Type 0 where
    pub inside : p < 512
    pub enough : s.found ≡ n
    pub fits : n ≤ p + 1
    pub none_before : NoRun l n p
    pub assigned : (b : ℕ) × (s.first_block ≡ some b) × (b < num_storage_blocks)
    pub free_run : EndsBeforeFull l → IsFreeRun l (p + 1 - n) (p + 1)
    pub first : EndsBeforeFull l → s.first_block ≡ some (section * 512 + (p + 1 - n))

  module _ (n_pos : 0 < n) (n_le : n ≤ 64) (sec : section < num_l2_sections) where
    module _ (p : ℕ) (s : Scan) (v : Inv p s) where
      longest_free : (q : ℕ) → q ≤ p + 1 → IsFreeRun l q (p + 1) → p + 1 ≤ q + (s.found + 1)
      longest_free q h r = elim (dec_le q p) [
        | yes k ↦ omega (arith, v.longest q k (λ j a b. r j a (omega arith)))
        | no k ↦ omega arith
      ]

      -- A used position ends the run.
      Inv_used : bit_at l p ≡ true → Inv (p + 1) (record s { found = 0 })
      Inv_used u = record {
        short = n_pos;
        fits = omega arith;
        longest =
            λ q h r. elim (dec_le q p) [ yes k ↦ cc (r p k (omega arith)) | no k ↦ omega arith ];
        none_before = λ q h r. elim (dec_le (q + n) p) [
          | yes k ↦ v.none_before q k r
          | no k ↦ cc (r p (omega arith) (omega arith))
        ];
        assigned = λ ne. absurd (ne refl);
        free_run = λ t j a b. absurd (omega arith);
        first = λ t ne. absurd (ne refl);
      }

      module _ (block : ℕ) (is_block : block ≡ section * 512 + p) (hp : p < 512) where
        first_seen :
            EndsBeforeFull l → (see_free block s).first_block ≡ some (section * 512 + (p - s.found))
        first_seen =
            unfold see_free in
            λ t. elim (ℕ_discrete s.found 0) [
              | yes z ↦ ground (arith)
              | no k ↦ ground (arith, v.first t k)
            ]

        assigned_seen :
            (b : ℕ) × ((see_free block s).first_block ≡ some b) × (b < num_storage_blocks)
        assigned_seen =
            unfold see_free in
            elim (ℕ_discrete s.found 0) [
              | yes z ↦ (block, ground arith, omega arith)
              | no k ↦ ((v.assigned k).0, ground (arith, (v.assigned k).1), (v.assigned k).2)
            ]

        run_seen : bit_at l p ≡ false → EndsBeforeFull l → IsFreeRun l (p - s.found) (p + 1)
        run_seen f t j a b = elim (ℕ_discrete j p) [
          | yes e ↦ ap (bit_at l) e ∙ f
          | no k ↦ v.free_run t j a (omega arith)
        ]

        found_seen : (see_free block s).found ≡ s.found + 1
        found_seen = let h = v.short in unfold see_free in omega arith

        -- A free position extends the run, which may now be long enough.
        Inv_seen :
            bit_at l p ≡ false → (see_free block s).found ≢ n → Inv (p + 1) (see_free block s)
        Inv_seen f ne =
            let e = found_seen in
            let short = v.short in
            let fits = v.fits in
            record {
              short = omega arith;
              fits = omega arith;
              longest = λ q h r. rw e (longest_free q h r);
              none_before = λ q h r. elim (dec_le (q + n) p) [
                | yes k ↦ v.none_before q k r
                | no k ↦
                    let whole : q + n ≡ p + 1 = omega arith in
                    let long : p + 1 ≤ q + (s.found + 1) =
                      longest_free q (omega arith) (λ j a b. r j a (omega arith)) in
                    omega arith
              ];
              assigned = λ _. assigned_seen;
              free_run = λ t j a b. run_seen f t j (omega arith) b;
              first = λ t _. first_seen t ∙ ap (λ (k : ℕ). some (section * 512 + k)) (omega arith);
            }

        Hit-seen : bit_at l p ≡ false → (see_free block s).found ≡ n → Hit p (see_free block s)
        Hit-seen f enough =
            let e = found_seen in
            let short = v.short in
            let fits = v.fits in
            record {
              inside = hp;
              enough = enough;
              fits = omega arith;
              none_before = v.none_before;
              assigned = assigned_seen;
              free_run = λ t j a b. run_seen f t j (omega arith) b;
              first = λ t. first_seen t ∙ ap (λ (k : ℕ). some (section * 512 + k)) (omega arith);
            }

    -- What the inner loop returns: a hit in this entry, or the state after it.
    abbrev pub AfterBits : ℕ → Scan × ℕ → Type 0
    AfterBits e r = (r.1 < 8) × Hit (e * 8 + r.1) r.0 ⊎ Inv (e * 8 + 8) r.0

    at_bit : (e bit : ℕ) → bit < 8 → bit_at l (e * 8 + bit) ≡ bit_set (get_or l e 0) bit
    at_bit e bit h = ap₂ bit_set (ap (λ k. get_or l k 0) (omega arith)) (omega arith)

    pub scan_bits_lem :
        (left e bit : ℕ) (s : Scan)
        → e < 64
        → bit + left ≡ 8
        → Inv (e * 8 + bit) s
        → AfterBits e (scan_bits n section left (get_or l e 0) e bit s)
    unfolding scan_bits
    scan_bits_lem zero e bit s he hb v = inr (subst (λ (k : ℕ). Inv (e * 8 + k) s) (omega arith) v)
    scan_bits_lem (suc left) e bit s he hb v = elim (Bool-cases (bit_set (get_or l e 0) bit)) [
      | inl u ↦ rw u (
          scan_bits_lem left e (bit + 1) (record s { found = 0 }) he (omega arith)
            (next (record s { found = 0 })
              (Inv_used (e * 8 + bit) s v (at_bit e bit (omega arith) ∙ u))))
      | inr f ↦ elim (Bool-cases (found' == n)) [
        | inl hit ↦
            rw (f, hit)
              (inl (
                omega arith,
                Hit-seen (e * 8 + bit) s v block is_block (omega arith)
                    (at_bit e bit (omega arith) ∙ f) ((==_iff found' n).0 hit),
              ))
        | inr more ↦
            rw (f, more)
              (scan_bits_lem left e (bit + 1) (see_free block s) he (omega arith) (
                next (see_free block s) (
                  Inv_seen (e * 8 + bit) s v block is_block (omega arith)
                    (at_bit e bit (omega arith) ∙ f) (ground arith))))
      ]
    ]
      where
        block : ℕ
        block = make_block_from_l2 section e bit

        found' : ℕ
        found' = (see_free block s).found

        is_block : block ≡ section * 512 + (e * 8 + bit)
        is_block = make_block_sum section e bit sec he (omega arith) ∙ omega arith

        next : (s' : Scan) → Inv (e * 8 + bit + 1) s' → Inv (e * 8 + (bit + 1)) s'
        next s' w = subst (λ (k : ℕ). Inv k s') (omega arith) w
