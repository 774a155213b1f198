-- ===== src/Page/Outer.antt =====
-- The outer loop of pimswap_alloc_page_static, where the first entry of the level 1 table is not
-- 0xFF.
use pim_swap.Base.{
  ℕ, zero, suc, ◌+◌, ◌*◌, ◌≤◌, ◌<◌, ◌≡◌, ◌≢◌, ◌⊎◌, inl, inr, ◌∙◌, refl, sym, ap, ap₂, subst, Bool,
  true, false, Option, none, some, List, arith, get_or, ◌==◌, ==_iff, Bool-cases, bit_set,
  full_of_bit_set, bit_set_of_full, uint_max,
}
use pim_swap.Mram.{Mram, IsBytes, mram_read, get_or-mram_read}
use pim_swap.Layout.{dir_level1, num_l2_sections}
use pim_swap.L2.{Found}
use pim_swap.Page.{on_uint_max, scan_sections, scan_l1}
use pim_swap.Page.Table.{full_bit}
use pim_swap.Page.Search.{Inv, Hit, Inv_full}
use pim_swap.Page.Loop.{AfterSections, scan_sections_lem}

-- A round on an entry that is 0xFF, and one on an entry that is not.
scan_l1-full :
    (n left : ℕ) (l : List ℕ) (e b : ℕ) (st : Found)
    → (get_or l e 0 == 0xff) ≡ true
    → scan_l1 n (suc left) l e b st
      ≡ on_uint_max st.first_block (scan_l1 n left l (e + 1) b st) (some (st, e, b))
unfolding scan_l1
scan_l1-full n left l e b st h = rw h

scan_l1-open :
    (n left : ℕ) (l : List ℕ) (e b : ℕ) (st st' : Found) (b' : ℕ)
    → (get_or l e 0 == 0xff) ≡ false
    → scan_sections n 8 (get_or l e 0) e 0 st ≡ some (st', b')
    → scan_l1 n (suc left) l e b st
      ≡ on_uint_max st'.first_block (scan_l1 n left l (e + 1) b' st') (some (st', e, b'))
unfolding scan_l1
scan_l1-open n left l e b st st' b' h k = rw (h, k)

module _ (m : Mram) (n : ℕ) (n_pos : 0 < n) (n_le : n ≤ 64) (bytes : IsBytes m) where
  l : List ℕ
  l = mram_read m dir_level1 240

  entry : (e : ℕ) → e < 240 → get_or l e 0 ≡ m (dir_level1 + e)
  unfolding l
  entry e h = get_or-mram_read m dir_level1 240 e h

  at_bit : (e b : ℕ) → b < 8 → full_bit m (e * 8 + b) ≡ bit_set (m (dir_level1 + e)) b
  at_bit e b h = ap₂ (λ x y. bit_set (m (dir_level1 + x)) y) (omega arith) (omega arith)

  Inv_entry :
      (left e b : ℕ) (st : Found)
      → e < 240
      → b + left ≡ 8
      → m (dir_level1 + e) ≡ 0xff
      → Inv m n n_pos n_le bytes (e * 8 + b) st
      → Inv m n n_pos n_le bytes (e * 8 + 8) st
  Inv_entry zero e b st he hb full v =
      subst (λ (k : ℕ). Inv m n n_pos n_le bytes (e * 8 + k) st) (omega arith) v
  Inv_entry (suc left) e b st he hb full v = Inv_entry left e (b + 1) st he (omega arith) full (
      subst (λ (k : ℕ). Inv m n n_pos n_le bytes k st) (omega arith)
        (Inv_full m n n_pos n_le bytes (e * 8 + b) st (omega arith) v
          (at_bit e b (omega arith) ∙ bit_set_of_full (m (dir_level1 + e)) b full (omega arith))))

  -- After an entry that is not 0xFF, first_block has been assigned.
  assigned_after :
      (e : ℕ) (st : Found)
      → m (dir_level1 + e) ≢ 0xff
      → Inv m n n_pos n_le bytes (e * 8 + 8) st
      → st.first_block ≡ some uint_max
  assigned_after e st partial v = elim v.shut [
    | inr a ↦ a
    | inl no_value ↦ absurd (
        partial (
          full_of_bit_set (m (dir_level1 + e)) (bytes (dir_level1 + e))
            (λ b hb. taken no_value b hb)))
  ]
    where
      taken : st.first_block ≡ none → (b : ℕ) → b < 8 → bit_set (m (dir_level1 + e)) b ≡ true
      taken no_value b hb = elim (Bool-cases (bit_set (m (dir_level1 + e)) b)) [
        | inl t ↦ t
        | inr f ↦ cc (v.tried (e * 8 + b) (omega arith) (at_bit e b hb ∙ f))
      ]

  -- What the outer loop returns: a hit, or no section with room.
  abbrev pub AfterL1 : Option (Found × ℕ × ℕ) → Type 0
  AfterL1 R =
      (st : Found) × (e : ℕ) × (b : ℕ) × (R ≡ some (st, e, b))
      × (((e < 240) × (b < 8) × Hit m n n_pos n_le bytes (e * 8 + b) st)
          ⊎ ((st.first_block ≡ some uint_max) × Inv m n n_pos n_le bytes num_l2_sections st))

  scan_l1_lem :
      (left e b : ℕ) (st : Found)
      → e + left ≡ 240
      → m dir_level1 ≢ 0xff
      → (e ≡ 0) ⊎ (st.first_block ≡ some uint_max)
      → (0 < e ⊎ 0 < left)
      → Inv m n n_pos n_le bytes (e * 8) st
      → AfterL1 (scan_l1 n left l e b st)
  scan_l1_lem zero e b st he first begun some_left v = elim begun [
    | inl z ↦ absurd (omega arith)
    | inr a ↦ (
      st,
      e,
      b,
      unfold scan_l1 in refl,
      inr (a, subst (λ (k : ℕ). Inv m n n_pos n_le bytes k st) (omega arith) v),
    )
  ]
  scan_l1_lem (suc left) e b st he first begun some_left v =
      elim (Bool-cases (get_or l e 0 == 0xff)) [
        | inl full ↦
            subst AfterL1
              (sym (
                scan_l1-full n left l e b st full
                ∙ ap
                    (λ (f : Option ℕ).
                      on_uint_max f (scan_l1 n left l (e + 1) b st) (some (st, e, b)))
                    (old full)))
              (scan_l1_lem left (e + 1) b st (omega arith) first (inr (old full))
                (inl (omega arith))
                (next st (
                  Inv_entry 8 e 0 st (omega arith) refl (is_full full)
                    (subst (λ (k : ℕ). Inv m n n_pos n_le bytes k st) (omega arith) v))))
        | inr partial ↦
            let (st', b', returned, outcome) = sections in
            elim outcome [
              | inl (hb, hit) ↦ (
                st',
                e,
                b',
                scan_l1-open n left l e b st st' b' partial (same_byte ∙ returned)
                    ∙ ap
                        (λ (f : Option ℕ).
                          on_uint_max f (scan_l1 n left l (e + 1) b' st') (some (st', e, b')))
                        ((hit.assigned).1)
                    ∙ stop (hit.assigned).0 (hit.assigned).2 (scan_l1 n left l (e + 1) b' st')
                        (some (st', e, b')),
                inl (omega arith, hb, hit),
              )
              | inr w ↦
                  let a = assigned_after e st' (not_full partial) w in
                  subst AfterL1
                    (sym (
                      scan_l1-open n left l e b st st' b' partial (same_byte ∙ returned)
                      ∙ ap
                          (λ (f : Option ℕ).
                            on_uint_max f (scan_l1 n left l (e + 1) b' st') (some (st', e, b')))
                          a))
                    (scan_l1_lem left (e + 1) b' st' (omega arith) first (inr a) (inl (omega arith))
                      (next st' w))
            ]
      ]
    where
      is_full : (get_or l e 0 == 0xff) ≡ true → m (dir_level1 + e) ≡ 0xff
      is_full h = sym (entry e (omega arith)) ∙ (==_iff _ _).0 h

      not_full : (get_or l e 0 == 0xff) ≡ false → m (dir_level1 + e) ≢ 0xff
      not_full h k = ground (arith, entry e (omega arith))

      old : (get_or l e 0 == 0xff) ≡ true → st.first_block ≡ some uint_max
      old h = elim begun [ inr a ↦ a | inl z ↦ absurd (first (ap m (omega arith) ∙ is_full h)) ]

      next :
          (st' : Found)
          → Inv m n n_pos n_le bytes (e * 8 + 8) st'
          → Inv m n n_pos n_le bytes ((e + 1) * 8) st'
      next st' w = subst (λ (k : ℕ). Inv m n n_pos n_le bytes k st') (omega arith) w

      sections :
          AfterSections m n n_pos n_le bytes e (scan_sections n 8 (m (dir_level1 + e)) e 0 st)
      sections =
          scan_sections_lem m n n_pos n_le bytes 8 e 0 st (omega arith) refl
            (subst (λ (k : ℕ). Inv m n n_pos n_le bytes k st) (omega arith) v)

      same_byte :
          scan_sections n 8 (get_or l e 0) e 0 st ≡ scan_sections n 8 (m (dir_level1 + e)) e 0 st
      same_byte = ap (λ (k : ℕ). scan_sections n 8 k e 0 st) (entry e (omega arith))

      stop : (f : ℕ) → f ≢ uint_max → (x y : Option (Found × ℕ × ℕ)) → on_uint_max (some f) x y ≡ y
      stop f ne x y = ground arith

  pub search_lem :
      m dir_level1 ≢ 0xff
      → AfterL1 (
          scan_l1 n 240
            (mram_read m dir_level1 240)
            0
            0
            (record { first_block = none; update_l1 = true; mram = m }))
  unfolding l
  search_lem first = scan_l1_lem 240 0 0 _ refl first (inl refl) (inr (omega arith)) (record {
    unwritten = refl;
    shut = inl refl;
    tried = λ s h f. absurd (omega arith);
    no_room = λ exact s h. absurd (omega arith);
  })

-- With the first entry 0xFF the loop stops at once, at the test of a variable without a value.
pub search_undefined :
    (m : Mram) (n : ℕ) (u : Bool)
    → m dir_level1 ≡ 0xff
    → scan_l1 n 240
        (mram_read m dir_level1 240)
        0
        0
        (record { first_block = none; update_l1 = u; mram = m })
      ≡ none
search_undefined m n u h =
    scan_l1-full n 239 (mram_read m dir_level1 240) 0 0 _
      ((==_iff _ _).1 (get_or-mram_read m dir_level1 240 0 (omega arith) ∙ ap m (omega arith) ∙ h))
