-- ===== src/L2/Find.antt =====
-- find_free_blocks_l2: what it returns, and what it does to the blocks.
use pim_swap.Base.{
  ℕ, ◌+◌, ◌-◌, ◌*◌, ◌/◌, ◌%◌, ◌≤◌, ◌<◌, ◌≡◌, ◌≢◌, ◌⊎◌, ◌↔◌, inl, inr, ◌∙◌, sym, ap, subst, Bool,
  true, false, none, some, List, arith, length, ◌==◌, ◌||◌, ==_iff, if◌then◌else◌, ℕ_discrete,
}
use pim_swap.Mram.{
  Mram, IsBytes, AreBytes, mram_read, mram_write, length-mram_read, get_or-mram_read,
  AreBytes-mram_read, IsBytes-mram_write, mram_write_outside,
}
use pim_swap.Layout.{num_l2_sections, num_storage_blocks, section_addr}
use pim_swap.L2.{Scan, Found, scan_entries, mark_back, all_full, find_free_blocks_l2}
use pim_swap.L2.Bitmap.{used, bit_at, bit_at-mram_read, used-mram_write_same, used-mram_write_other}
use pim_swap.L2.Search.{EndsBeforeFull, NoRun, IsFreeRun, Inv, Hit}
use pim_swap.L2.Section.{search_lem, AfterEntries}
use pim_swap.L2.Mark.{
  in_run, IsFull, length-mark_back, AreBytes-mark_back, bit_at-mark_back, check-IsFull,
  all_full-IsFull, IsFull-all_full, IsFull-of_bits, bits_of_IsFull,
}
use pim_swap.L2.Outcome.{AreFree, StopsAtFull, in_blocks, Fails, Takes, IsContained}

module _ (s n : ℕ) (u : Bool) (m : Mram) (n_pos : 0 < n) (n_le : n ≤ 64) (sec : s < num_l2_sections)
    (bytes : IsBytes m) where
  l : List ℕ
  l = mram_read m (section_addr s) 64

  r : Scan × ℕ × ℕ
  r = scan_entries n s 64 l 0 0 (record { found = 0; first_block = none })

  found : Found
  found = find_free_blocks_l2 s n u m

  length-l : length l ≡ 64
  unfolding l
  length-l = length-mram_read m (section_addr s) 64

  bytes-l : AreBytes l
  unfolding l
  bytes-l = AreBytes-mram_read m (section_addr s) 64 bytes

  bit-l : (q : ℕ) → q < 512 → bit_at l q ≡ used m (s * 512 + q)
  unfolding l
  bit-l q h = bit_at-mram_read m s q h

  ends : StopsAtFull m s → EndsBeforeFull l
  unfolding l
  ends t e he full =
      bit-l (e * 8 + 7) (omega arith)
      ∙ ap (used m) (omega arith)
      ∙ t e he (sym (get_or-mram_read m (section_addr s) 64 (e + 1) he) ∙ full)

  -- A run of free blocks is one of free positions.
  run-l : (q : ℕ) → q + n ≤ 512 → AreFree m (s * 512 + q) (s * 512 + q + n) → IsFreeRun l q (q + n)
  run-l q h free j a b = bit-l j (omega arith) ∙ free (s * 512 + j) (omega arith) (omega arith)

  fails : Inv l n s 512 (r.0) → Fails s n u m found
  unfolding found r l find_free_blocks_l2
  fails v =
      let short = v.short in
      let test : ((r.0).found == n) ≡ false = ground arith in
      record {
        returned = rw test;
        same_flag = rw test;
        same_mram = rw test;
        no_room = λ q h free. v.none_before q h (run-l q h free);
      }

  module _ (hit : Hit l n s (r.1 * 8 + r.2) r.0) (hb : r.2 < 8) where
    p : ℕ
    p = r.1 * 8 + r.2

    marks : List ℕ × Bool
    marks = mark_back n (r.1) (r.2) l false

    test : ((r.0).found == n) ≡ true
    test = (==_iff _ _).1 hit.enough

    room : (r.1 < 64) × (n ≤ r.1 * 8 + r.2 + 1)
    room = let a = hit.inside in let b = hit.fits in omega arith

    length-marks : length marks.0 ≡ 64
    unfolding marks
    length-marks = length-mark_back n (r.1) (r.2) l false ∙ length-l

    bytes-marks : AreBytes marks.0
    unfolding marks
    bytes-marks = AreBytes-mark_back n (r.1) (r.2) l false hb bytes-l

    bit-marks : (q : ℕ) → bit_at marks.0 q ≡ (in_run n p q || bit_at l q)
    unfolding marks p
    bit-marks q = bit_at-mark_back n (r.1) (r.2) l false q length-l bytes-l (room.0) hb (room.1)

    found_mram : found.mram ≡ mram_write marks.0 (section_addr s) m
    unfolding found r l marks find_free_blocks_l2
    found_mram = rw (test, hit.enough)

    found_first : found.first_block ≡ (r.0).first_block
    unfolding found r l find_free_blocks_l2
    found_first = rw test

    found_flag : found.update_l1 ≡ (if marks.1 then all_full 64 marks.0 0 else false)
    unfolding found r l marks find_free_blocks_l2
    found_flag = rw (test, hit.enough)

    used_here : (j : ℕ) → j < 512 → used found.mram (s * 512 + j) ≡ bit_at marks.0 j
    used_here j h =
        ap (λ (k : Mram). used k (s * 512 + j)) found_mram
        ∙ used-mram_write_same marks.0 m s j length-marks h

    same_block : (b : ℕ) → b / 512 ≡ s → used found.mram b ≡ (in_run n p (b % 512) || used m b)
    same_block b e =
        let split : s * 512 + b % 512 ≡ b = omega arith in
        ap (used found.mram) (sym split)
        ∙ used_here (b % 512) (omega arith)
        ∙ bit-marks (b % 512)
        ∙ ap (λ (x : Bool). in_run n p (b % 512) || x)
            (bit-l (b % 512) (omega arith) ∙ ap (used m) split)

    other_block : (b : ℕ) → b / 512 ≢ s → used found.mram b ≡ used m b
    other_block b ne =
        ap (λ (k : Mram). used k b) found_mram ∙ used-mram_write_other marks.0 m s b length-marks ne

    marked_all : (b : ℕ) → used found.mram b ≡ (in_blocks (s * 512 + (p + 1 - n)) n b || used m b)
    marked_all b =
        let h : p < 512 = unfold p in hit.inside in
        let k : n ≤ p + 1 = unfold p in hit.fits in
        elim (ℕ_discrete (b / 512) s) [
          | yes e ↦ same_block b e ∙ ap (λ (x : Bool). x || used m b) (the_same b e h k)
          | no ne ↦ other_block b ne ∙ ap (λ (x : Bool). x || used m b) (not_there b ne h k)
        ]
      where
        the_same :
            (b : ℕ)
            → b / 512 ≡ s
            → p < 512
            → n ≤ p + 1
            → in_run n p (b % 512) ≡ in_blocks (s * 512 + (p + 1 - n)) n b
        the_same b e h k = ground arith

        not_there :
            (b : ℕ)
            → b / 512 ≢ s
            → p < 512
            → n ≤ p + 1
            → false ≡ in_blocks (s * 512 + (p + 1 - n)) n b
        not_there b ne h k = ground arith

    flag_lem : (found.update_l1 ≡ true) ↔ ((j : ℕ) → j < 512 → used found.mram (s * 512 + j) ≡ true)
    flag_lem = (
      λ h j hj.
          used_here j hj
          ∙ bits_of_IsFull marks.0
              (λ e he.
                all_full-IsFull 64 0 marks.0 (both (sym found_flag ∙ h)) e (omega arith)
                  (omega arith))
              j hj,
      λ h.
          let full : IsFull marks.0 =
            IsFull-of_bits marks.0 bytes-marks (λ q hq. sym (used_here q hq) ∙ h q hq) in
          found_flag
          ∙ one (checked full) (IsFull-all_full 64 0 marks.0 (λ e a b. full e (omega arith))),
    )
      where
        both :
            (if marks.1 then all_full 64 marks.0 0 else false) ≡ true → all_full 64 marks.0 0 ≡ true
        both h = ground arith

        one :
            marks.1 ≡ true
            → all_full 64 marks.0 0 ≡ true
            → (if marks.1 then all_full 64 marks.0 0 else false) ≡ true
        one h k = rw (h, k)

        checked : IsFull marks.0 → marks.1 ≡ true
        checked =
            unfold marks in check-IsFull n (r.1) (r.2) l false n_pos length-l (room.0) hb (room.1)

    takes : StopsAtFull m s → Takes s n m found
    takes t =
        let h : p < 512 = unfold p in hit.inside in
        let k : n ≤ p + 1 = unfold p in hit.fits in
        record {
          start = p + 1 - n;
          inside = omega arith;
          returned = found_first ∙ (unfold p in hit.first (ends t));
          was_free = λ b lo hi.
              let split : s * 512 + (b - s * 512) ≡ b = omega arith in
              ap (used m) (sym split)
              ∙ sym (bit-l (b - s * 512) (omega arith))
              ∙ free (b - s * 512) (omega arith) (omega arith);
          earliest = λ q lt free. early q (omega arith) (run-l q (omega arith) free);
          marked = marked_all;
          flag = flag_lem;
        }
      where
        free : IsFreeRun l (p + 1 - n) (p + 1)
        free = unfold p in hit.free_run (ends t)

        early : NoRun l n p
        early = unfold p in hit.none_before

    found_bytes : IsContained s m found
    found_bytes = record {
      outside = λ x h.
          ap (λ (k : Mram). k x) found_mram
          ∙ mram_write_outside marks.0 (section_addr s) m x (far x h);
      bytes =
          subst (λ (k : Mram). IsBytes k) (sym found_mram)
            (IsBytes-mram_write marks.0 (section_addr s) m bytes-marks bytes);
    }
      where
        far :
            (x : ℕ)
            → (x < section_addr s) ⊎ (section_addr s + 64 ≤ x)
            → (x < section_addr s) ⊎ (section_addr s + length marks.0 ≤ x)
        far x (inl a) = inl a
        far x (inr b) = inr (omega (arith, length-marks))

  searched : AfterEntries l n s n_pos n_le sec r
  unfolding r
  searched = search_lem l n s n_pos n_le sec

-- For a request of 1 to 64 blocks in a section where the block before every 0xFF entry is used:
-- find_free_blocks_l2 either reports UINT_MAX, changes nothing, and the section has no free run of
-- that length; or it returns the start of the section's first such run, all of whose blocks were
-- free, marks exactly those blocks as used, and sets *update_l1 exactly when the section is full.
pub find-Takes :
    (s n : ℕ) (u : Bool) (m : Mram)
    → 0 < n
    → n ≤ 64
    → s < num_l2_sections
    → IsBytes m
    → StopsAtFull m s
    → Fails s n u m (find_free_blocks_l2 s n u m) ⊎ Takes s n m (find_free_blocks_l2 s n u m)
unfolding found
find-Takes s n u m n_pos n_le sec bytes t = elim (searched s n u m n_pos n_le sec bytes) [
  | inl (b, hit) ↦ inr (takes s n u m n_pos n_le sec bytes hit b t)
  | inr v ↦ inl (fails s n u m n_pos n_le sec bytes v)
]

-- Whatever the section's entries are, a request of 1 to 64 blocks either fails as it should, when
-- the section has no free run of that length, or returns the number of some storage block; either
-- way no byte outside the section's 64 changes.
pub find-IsContained :
    (s n : ℕ) (u : Bool) (m : Mram)
    → 0 < n
    → n ≤ 64
    → s < num_l2_sections
    → IsBytes m
    → (Fails s n u m (find_free_blocks_l2 s n u m)
        ⊎ ((b : ℕ) × ((find_free_blocks_l2 s n u m).first_block ≡ some b)
            × (b < num_storage_blocks)))
      × IsContained s m (find_free_blocks_l2 s n u m)
unfolding found
find-IsContained s n u m n_pos n_le sec bytes = elim (searched s n u m n_pos n_le sec bytes) [
  | inl (b, hit) ↦ (
    inr (
      (hit.assigned).0,
      found_first s n u m n_pos n_le sec bytes hit b ∙ (hit.assigned).1,
      (hit.assigned).2,
    ),
    found_bytes s n u m n_pos n_le sec bytes hit b,
  )
  | inr v ↦
      let f = fails s n u m n_pos n_le sec bytes v in
      (
        inl f,
        record {
          outside = λ x h. ap (λ (k : Mram). k x) f.same_mram;
          bytes = subst (λ (k : Mram). IsBytes k) (sym f.same_mram) bytes;
        },
      )
]
