-- ===== src/Page/Search.antt =====
-- The search of pimswap_alloc_page_static over the level 1 table.
use pim_swap.Base.{
  ℕ, ◌+◌, ◌*◌, ◌≤◌, ◌<◌, ◌≡◌, ◌≢◌, ◌⊎◌, inl, inr, sym, ap, subst, true, false, none, some, arith,
  ℕ_discrete, uint_max,
}
use pim_swap.Mram.{Mram, IsBytes}
use pim_swap.Layout.{num_l2_sections}
use pim_swap.L2.{Found, find_free_blocks_l2}
use pim_swap.L2.Outcome.{StopsAtFull, AreFree, Fails, Takes, IsContained}
use pim_swap.L2.Find.{find-Takes, find-IsContained}
use pim_swap.Page.Table.{full_bit, L1IsExact}

-- Section s has no run of n free blocks.
abbrev pub HasNoRoom : Mram → ℕ → ℕ → Type 0
HasNoRoom m n s = (q : ℕ) → q + n ≤ 512 → AreFree m (s * 512 + q) (s * 512 + q + n) → ⊥

module _ (m : Mram) (n : ℕ) (n_pos : 0 < n) (n_le : n ≤ 64) (bytes : IsBytes m) where
  -- Before section k: nothing was written, and no section before k has room. first_block is
  -- UINT_MAX from the first section with a free block on.
  pub record Inv (k : ℕ) (st : Found) : Type 0 where
    pub unwritten : st.mram ≡ m
    pub shut : (st.first_block ≡ none) ⊎ (st.first_block ≡ some uint_max)
    pub tried : (s : ℕ) → s < k → full_bit m s ≡ false → st.first_block ≡ some uint_max
    pub no_room : L1IsExact m → (s : ℕ) → s < k → HasNoRoom m n s

  -- The search stopped at section k with blocks taken there.
  pub record Hit (k : ℕ) (st : Found) : Type 0 where
    pub in_table : k < num_l2_sections
    pub was_open : full_bit m k ≡ false
    pub assigned : (b : ℕ) × (st.first_block ≡ some b) × (b ≢ uint_max)
    pub takes : StopsAtFull m k → Takes k n m st
    pub contained : IsContained k m st
    pub first_room : L1IsExact m → (s : ℕ) → s < k → HasNoRoom m n s

  -- A section that is marked as full has no free block.
  full_no_room : (k : ℕ) → k < num_l2_sections → full_bit m k ≡ true → L1IsExact m → HasNoRoom m n k
  full_no_room k hk full exact q h free =
      cc (free (k * 512 + q) (omega arith) (omega arith), (exact k hk).0 full q (omega arith))

  module _ (k : ℕ) (st : Found) (hk : k < num_l2_sections) (v : Inv k st) where
    pub Inv_full : full_bit m k ≡ true → Inv (k + 1) st
    Inv_full full = record {
      unwritten = v.unwritten;
      shut = v.shut;
      tried = λ s h f. elim (ℕ_discrete s k) [
        | yes e ↦ cc (ap (full_bit m) e)
        | no ne ↦ v.tried s (omega arith) f
      ];
      no_room = λ exact s h. elim (ℕ_discrete s k) [
        | yes e ↦ subst (HasNoRoom m n) (sym e) (full_no_room k hk full exact)
        | no ne ↦ v.no_room exact s (omega arith)
      ];
    }

    unfoldable pub attempt : Found
    attempt = find_free_blocks_l2 k n st.update_l1 m

    Inv_failed : Fails k n st.update_l1 m attempt → Inv (k + 1) attempt
    Inv_failed f = record {
      unwritten = f.same_mram;
      shut = inr f.returned;
      tried = λ s h _. f.returned;
      no_room = λ exact s h. elim (ℕ_discrete s k) [
        | yes e ↦ subst (HasNoRoom m n) (sym e) f.no_room
        | no ne ↦ v.no_room exact s (omega arith)
      ];
    }

    Hit-taken :
        full_bit m k ≡ false
        → (b : ℕ) × (attempt.first_block ≡ some b) × (b ≢ uint_max)
        → IsContained k m attempt
        → (StopsAtFull m k → Takes k n m attempt)
        → Hit k attempt
    Hit-taken open_bit a c t = record {
      in_table = hk;
      was_open = open_bit;
      assigned = a;
      takes = t;
      contained = c;
      first_room = v.no_room;
    }

    -- What trying section k leads to.
    pub try_section :
        full_bit m k ≡ false
        → ((attempt.first_block ≡ some uint_max) × Inv (k + 1) attempt)
          ⊎ ((b : ℕ) × (attempt.first_block ≡ some b) × (b ≢ uint_max) × Hit k attempt)
    try_section open_bit = elim (outcome.0) [
      | inl f ↦ inl (f.returned, Inv_failed f)
      | inr (b, e, lt) ↦
          inr (b, e, omega arith, Hit-taken open_bit (b, e, omega arith) (outcome.1) (took b e lt))
    ]
      where
        outcome :
            (Fails k n st.update_l1 m attempt
              ⊎ ((b : ℕ) × (attempt.first_block ≡ some b) × (b < 983040)))
            × IsContained k m attempt
        outcome = unfold attempt in find-IsContained k n st.update_l1 m n_pos n_le hk bytes

        either : StopsAtFull m k → Fails k n st.update_l1 m attempt ⊎ Takes k n m attempt
        either = unfold attempt in find-Takes k n st.update_l1 m n_pos n_le hk bytes

        took :
            (b : ℕ)
            → attempt.first_block ≡ some b
            → b < 983040
            → StopsAtFull m k
            → Takes k n m attempt
        took b e lt t = elim (either t) [ inl f ↦ absurd (ground (arith, f.returned)) | inr w ↦ w ]
