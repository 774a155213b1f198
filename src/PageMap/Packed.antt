-- ===== src/PageMap/Packed.antt =====
-- Sections that are filled from the front are searchable, and a page that is stored keeps them so.
use pim_swap.Base.{
  ℕ, ◌+◌, ◌*◌, ◌/◌, ◌%◌, ◌≤◌, ◌<◌, ◌≡◌, ◌≢◌, ◌∙◌, sym, ap, ap₂, true, false, List, arith, dec_lt,
  ℕ_discrete, ltb, bit_set, bit_set_of_full,
}
use pim_swap.Mram.{Mram}
use pim_swap.Layout.{
  dir_level1, dir_level2, hash_table, num_l2_sections, num_blocks_of, section_addr,
}
use pim_swap.Layout.Blocks.{num_blocks_bounds}
use pim_swap.L2.Bitmap.{used}
use pim_swap.L2.Outcome.{StopsAtFull}
use pim_swap.Page.Commit.{used_ext}
use pim_swap.Page.Directory.{IsSearchable}
use pim_swap.Page.Blank.{blank, blank-IsBlank, free_of_blank}
use pim_swap.Program.{Crypto, Ran}
use pim_swap.Program.Written.{Stores}

-- In each section the used blocks come first.
abbrev pub IsPacked : Mram → Type 0
IsPacked m =
    (s : ℕ) → s < num_l2_sections → (k : ℕ) × ((j : ℕ) → j < 512 → used m (s * 512 + j) ≡ ltb j k)

pub blank-IsPacked : IsPacked blank
blank-IsPacked s hs =
    (0, λ j hj. free_of_blank blank blank-IsBlank (s * 512 + j) (omega arith) ∙ ground arith)

pub IsPacked-ext :
    (m m' : Mram)
    → ((x : ℕ) → dir_level2 ≤ x → x < hash_table → m' x ≡ m x)
    → IsPacked m
    → IsPacked m'
IsPacked-ext m m' same packed s hs =
    let (k, first) = packed s hs in
    (k, λ j hj. used_ext m m' same (s * 512 + j) (omega arith) ∙ first j hj)

packed-StopsAtFull : (m : Mram) (s : ℕ) → IsPacked m → s < num_l2_sections → StopsAtFull m s
packed-StopsAtFull m s packed hs e he full =
    let (k, first) = packed s hs in
    let next : used m (s * 512 + (e * 8 + 8)) ≡ true =
      ap₂ bit_set (ap m (omega arith)) (omega arith)
      ∙ bit_set_of_full (m (section_addr s + (e + 1))) 0 full (omega arith) in
    ap (used m) (omega arith)
    ∙ first (e * 8 + 7) (omega arith)
    ∙ ground (arith, first (e * 8 + 8), next)

pub packed-IsSearchable : (m : Mram) → IsPacked m → m dir_level1 ≢ 0xff → IsSearchable m
packed-IsSearchable m packed first_open = record {
  first_open = first_open;
  stops = λ s hs. packed-StopsAtFull m s packed hs;
}

module _ (crypto : Crypto) (id : ℕ) (page : List ℕ) (m : Mram) (s : Ran) (packed : IsPacked m)
    (st : Stores crypto id page m s) where
  n : ℕ
  n = num_blocks_of st.len

  n_bounds : (1 ≤ n) × (n ≤ 64)
  unfolding n
  n_bounds = let b = num_blocks_bounds st.len (st.len_bounds.0) (st.len_bounds.1) in (b.0, b.1)

  home : ℕ
  home = st.block / 512

  home-lt : home < num_l2_sections
  unfolding home n
  home-lt = let b = st.in_storage in let nb = n_bounds in omega arith

  -- The page is put right behind the used blocks of its section.
  behind : (k : ℕ) → ((j : ℕ) → j < 512 → used m (home * 512 + j) ≡ ltb j k) → st.block % 512 ≡ k
  unfolding home n
  behind k first = elim (dec_lt k (st.block % 512)) [
    | yes early ↦ absurd (
        st.earliest k early λ b lo hi.
          ap (used m) (omega (arith, sec)) ∙ first (b % 512) (omega arith) ∙ ground (arith, sec))
    | no late ↦ ground (arith, late_free)
  ]
    where
      sec : st.block % 512 + num_blocks_of st.len ≤ 512
      sec = st.one_section

      late_free : ltb (st.block % 512) k ≡ false
      late_free =
          let nb = n_bounds in
          sym (first (st.block % 512) (omega arith))
          ∙ ap (used m) (omega arith)
          ∙ st.was_free st.block (omega arith) (omega arith)

  pub Stores-IsPacked : IsPacked s.context.dpu.mram
  unfolding home n
  Stores-IsPacked t ht =
      let (k, first) = packed t ht in
      let sec = st.one_section in
      elim (ℕ_discrete home t) [
        | yes e ↦
            let start = behind k (λ j hj. ap (λ (h : ℕ). used m (h * 512 + j)) e ∙ first j hj) in
            (
              k + n,
              λ j hj.
                  st.marked (t * 512 + j) (omega arith) ∙ ground (arith, first j hj, start, sec, e),
            )
        | no ne ↦
            (k, λ j hj. st.marked (t * 512 + j) (omega arith) ∙ ground (arith, first j hj, sec, ne))
      ]
