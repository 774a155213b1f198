-- ===== src/Page/Loop.antt =====
-- The two loops of pimswap_alloc_page_static over the level 1 table.
use pim_swap.Base.{
  ℕ, zero, suc, ◌+◌, ◌*◌, ◌≤◌, ◌<◌, ◌≡◌, ◌≢◌, ◌⊎◌, inl, inr, ◌∙◌, refl, sym, ap, ap₂, subst, true,
  false, Option, some, arith, Bool-cases, bit_set, uint_max,
}
use pim_swap.Mram.{Mram, IsBytes}
use pim_swap.Layout.{dir_level1, num_l2_sections, l1_make_section}
use pim_swap.Layout.Blocks.{l1_make_section_sum}
use pim_swap.L2.{Found, find_free_blocks_l2}
use pim_swap.Page.{on_uint_max, scan_sections}
use pim_swap.Page.Table.{full_bit}
use pim_swap.Page.Search.{Inv, Hit, attempt, try_section, Inv_full}

module _ (m : Mram) (n : ℕ) (n_pos : 0 < n) (n_le : n ≤ 64) (bytes : IsBytes m) where
  -- What the inner loop returns for entry e: a hit, or the state after the entry.
  abbrev pub AfterSections : ℕ → Option (Found × ℕ) → Type 0
  AfterSections e R =
      (st : Found) × (b : ℕ) × (R ≡ some (st, b))
      × ((b < 8) × Hit m n n_pos n_le bytes (e * 8 + b) st
          ⊎ Inv m n n_pos n_le bytes (e * 8 + 8) st)

  at_bit : (e b : ℕ) → b < 8 → full_bit m (e * 8 + b) ≡ bit_set (m (dir_level1 + e)) b
  at_bit e b h = ap₂ (λ x y. bit_set (m (dir_level1 + x)) y) (omega arith) (omega arith)

  scan_sections-suc :
      (left e b : ℕ) (st : Found) (byte : ℕ)
      → bit_set byte b ≡ false
      → scan_sections n (suc left) byte e b st ≡ (
          let f = find_free_blocks_l2 (l1_make_section e b) n st.update_l1 st.mram in
          on_uint_max f.first_block (scan_sections n left byte e (b + 1) f) (some (f, b)))
  unfolding scan_sections
  scan_sections-suc left e b st byte h = rw h

  found_at :
      (e b : ℕ) (st : Found) (hk : e * 8 + b < num_l2_sections)
      → b < 8
      → (v : Inv m n n_pos n_le bytes (e * 8 + b) st)
      → find_free_blocks_l2 (l1_make_section e b) n st.update_l1 st.mram
        ≡ attempt m n n_pos n_le bytes (e * 8 + b) st hk v
  unfolding attempt
  found_at e b st hk hb v =
      ap₂ (λ (s : ℕ) (k : Mram). find_free_blocks_l2 s n st.update_l1 k)
        (l1_make_section_sum e b hb) v.unwritten

  pub scan_sections_lem :
      (left e b : ℕ) (st : Found)
      → e < 240
      → b + left ≡ 8
      → Inv m n n_pos n_le bytes (e * 8 + b) st
      → AfterSections e (scan_sections n left (m (dir_level1 + e)) e b st)
  scan_sections_lem zero e b st he hb v = (
    st,
    b,
    unfold scan_sections in refl,
    inr (subst (λ (k : ℕ). Inv m n n_pos n_le bytes (e * 8 + k) st) (omega arith) v),
  )
  scan_sections_lem (suc left) e b st he hb v = elim (Bool-cases (bit_set (m (dir_level1 + e)) b)) [
    | inl full ↦ subst (AfterSections e) (sym (skip full)) (
        scan_sections_lem left e (b + 1) st he (omega arith) (
          next st
            (Inv_full m n n_pos n_le bytes (e * 8 + b) st hk v (at_bit e b (omega arith) ∙ full))))
    | inr open_bit ↦
        elim (try_section m n n_pos n_le bytes (e * 8 + b) st hk v
          (at_bit e b (omega arith) ∙ open_bit)) [
            | inl (failed, w) ↦
                subst (AfterSections e)
                  (sym (scan_sections-suc left e b st (m (dir_level1 + e)) open_bit ∙ retry failed))
                  (scan_sections_lem left e (b + 1)
                    (attempt m n n_pos n_le bytes (e * 8 + b) st hk v) he (omega arith) (next _ w))
            | inr (f, assigned, ne, hit) ↦ (
              attempt m n n_pos n_le bytes (e * 8 + b) st hk v,
              b,
              scan_sections-suc left e b st (m (dir_level1 + e)) open_bit ∙ stop f assigned ne,
              inl (omega arith, hit),
            )
          ]
  ]
    where
      hk : e * 8 + b < num_l2_sections
      hk = omega arith

      skip :
          bit_set (m (dir_level1 + e)) b ≡ true
          → scan_sections n (suc left) (m (dir_level1 + e)) e b st
            ≡ scan_sections n left (m (dir_level1 + e)) e (b + 1) st
      skip full = unfold scan_sections in rw full

      next :
          (st' : Found)
          → Inv m n n_pos n_le bytes (e * 8 + b + 1) st'
          → Inv m n n_pos n_le bytes (e * 8 + (b + 1)) st'
      next st' w = subst (λ (k : ℕ). Inv m n n_pos n_le bytes k st') (omega arith) w

      at : Found
      at = attempt m n n_pos n_le bytes (e * 8 + b) st hk v

      step : Found → Option (Found × ℕ)
      step f =
          on_uint_max f.first_block (scan_sections n left (m (dir_level1 + e)) e (b + 1) f)
            (some (f, b))

      retry :
          at.first_block ≡ some uint_max
          → step (find_free_blocks_l2 (l1_make_section e b) n st.update_l1 st.mram)
            ≡ scan_sections n left (m (dir_level1 + e)) e (b + 1) at
      retry failed = ap step (found_at e b st hk (omega arith) v) ∙ rw failed

      stop :
          (f : ℕ)
          → at.first_block ≡ some f
          → f ≢ uint_max
          → step (find_free_blocks_l2 (l1_make_section e b) n st.update_l1 st.mram) ≡ some (at, b)
      stop f assigned ne = ap step (found_at e b st hk (omega arith) v) ∙ rw assigned (ground arith)
