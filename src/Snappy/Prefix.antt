-- ===== src/Snappy/Prefix.antt =====
-- find_match_length against the length of the common part.
use pim_swap.Base.{
  ℕ, zero, suc, ◌+◌, ◌-◌, ◌*◌, ◌/◌, ◌^◌, ◌≤◌, ◌<◌, ◌≡◌, ◌≢◌, ◌⊎◌, ◌∙◌, refl, sym, ap, inl, inr,
  some, none, false, arith, u32, ltb, leb, ◌==◌, Bool-cases, ℕ_discrete, dec_lt, subst, xor_self,
  ltb→lt,
}
use Prim.Native.Nat.{bit_xor}
use pim_swap.Mram.{Mram, IsBytes}
use pim_swap.Layout.{mram_per_dpu}
use pim_swap.Snappy.Reader.{Local, InBuffer, read_uint32}
use pim_swap.Snappy.Mirror.{IsMirror, word_at, read_uint32_lem}
use pim_swap.Snappy.Output.{min_of}
use pim_swap.Snappy.Match.{trailing_zeros, ctz, match_words, find_match_length}
use pim_swap.Snappy.Matched.{
  bits_of, eight_more, byte_no, common_bytes, byte_no-word_at, word_at_lt,
}

-- The first n bytes from two positions of the input are the same.
abbrev pub AreCommon : InBuffer → Mram → ℕ → ℕ → ℕ → Type 0
AreCommon input m s1 s2 n =
    (j : ℕ) → j < n → m (input.buffer + (s1 + j)) ≡ m (input.buffer + (s2 + j))

-- Where the comparison by words ends: within 4 bytes of the limit, or at words that differ.
record StopsAt (input : InBuffer) (m : Mram) (s1 s2 s2_limit : ℕ) (r : ℕ × ℕ) : Type 0 where
  place : r.0 ≡ s2 + r.1
  below : r.0 ≤ s2_limit
  common : AreCommon input m s1 s2 r.1
  last :
      (s2_limit < r.0 + 4)
      ⊎ (word_at m (input.buffer + (s1 + r.1)) ≢ word_at m (input.buffer + r.0))

module _ (input : InBuffer) (s : Local) (mirror : IsMirror input s) (base : s.dpu.wram ≡ 0)
    (bytes : IsBytes s.dpu.mram) where
  -- Equal words are four common bytes more.
  common-word :
      (s1 s2 n k : ℕ)
      → AreCommon input s.dpu.mram s1 s2 n
      → k ≤ 4
      → ((i : ℕ)
          → i < k
          → s.dpu.mram (input.buffer + (s1 + n) + i) ≡ s.dpu.mram (input.buffer + (s2 + n) + i))
      → AreCommon input s.dpu.mram s1 s2 (n + k)
  common-word s1 s2 n k common small more j h = elim (dec_lt j n) [
    | yes before ↦ common j before
    | no after ↦
        ap s.dpu.mram (omega arith) ∙ more (j - n) (omega arith) ∙ ap s.dpu.mram (omega arith)
  ]

  words-StopsAt :
      (left s1 s2 s2_limit n : ℕ)
      → s1 ≤ s2
      → s2 + n ≤ s2_limit
      → 4 ≤ s2_limit
      → s2_limit ≤ mram_per_dpu
      → s2_limit < s2 + n + left * 4
      → AreCommon input s.dpu.mram s1 s2 n
      → StopsAt input s.dpu.mram s1 s2 s2_limit (match_words input s left s1 (s2 + n) s2_limit n)
  unfolding match_words
  words-StopsAt zero s1 s2 s2_limit n le fits wide low fuel common = absurd (omega arith)
  words-StopsAt (suc left) s1 s2 s2_limit n le fits wide low fuel common =
      let r2 = read_uint32_lem input (s2 + n) s mirror base bytes (omega arith) in
      let p1 : u32 (s1 + n) ≡ s1 + n = omega arith in
      let r1 : read_uint32 input (u32 (s1 + n)) s ≡ word_at s.dpu.mram (input.buffer + (s1 + n)) =
        ap (λ (p : ℕ). read_uint32 input p s) p1
        ∙ read_uint32_lem input (s1 + n) s mirror base bytes (omega arith) in
      elim (Bool-cases (leb (s2 + n) (u32 (s2_limit + 2 ^ 32 - 4)))) [
        | inl room ↦
            elim (Bool-cases (
              word_at s.dpu.mram (input.buffer + (s2 + n))
              == word_at s.dpu.mram (input.buffer + (s1 + n)))) [
                | inl same ↦
                    let next : u32 (s2 + n + 4) ≡ s2 + (n + 4) = omega arith in
                    let inside : s2 + n ≤ s2_limit - 4 = ground arith in
                    let equal : word_at s.dpu.mram (input.buffer + (s1 + n))
                        ≡ word_at s.dpu.mram (input.buffer + (s2 + n)) =
                      ground arith in
                    rw (room, r2, r1, same, next)
                      (words-StopsAt left s1 s2 s2_limit (n + 4) le (omega arith) wide low
                        (omega arith)
                        (common-word s1 s2 n 4 common (omega arith) (λ i h.
                          sym (byte_no-word_at s.dpu.mram (input.buffer + (s1 + n)) i bytes h)
                          ∙ ap (byte_no i) equal
                          ∙ byte_no-word_at s.dpu.mram (input.buffer + (s2 + n)) i bytes h)))
                | inr other ↦
                    let differ : word_at s.dpu.mram (input.buffer + (s1 + n))
                        ≢ word_at s.dpu.mram (input.buffer + (s2 + n)) =
                      λ e. absurd (ground (arith, e, other)) in
                    rw (room, r2, r1, other)
                      (record { place = refl; below = fits; common = common; last = inr differ })
              ]
        | inr close ↦
            rw close
              (record { place = refl; below = fits; common = common; last = inl (ground arith) })
      ]

-- The number of common bytes, and how it shows that there are no more.
abbrev pub IsCommonLength : InBuffer → Mram → ℕ → ℕ → ℕ → ℕ → Type 0
IsCommonLength input m s1 s2 s2_limit k =
    (s2 + k ≤ s2_limit)
    × AreCommon input m s1 s2 k
    × ((s2 + k ≡ s2_limit) ⊎ (m (input.buffer + (s1 + k)) ≢ m (input.buffer + (s2 + k))))

module _ (input : InBuffer) (s : Local) (mirror : IsMirror input s) (base : s.dpu.wram ≡ 0)
    (bytes : IsBytes s.dpu.mram) where
  -- After words that differ at the end of the comparison by words.
  tail-IsCommonLength :
      (s1 s2 s2_limit n : ℕ)
      → s2 + n ≤ s2_limit
      → s2_limit ≤ mram_per_dpu
      → AreCommon input s.dpu.mram s1 s2 n
      → let a = word_at s.dpu.mram (input.buffer + (s1 + n)) in
        let b = word_at s.dpu.mram (input.buffer + (s2 + n)) in
        a ≢ b
        → IsCommonLength input s.dpu.mram s1 s2 s2_limit (
            n
            + min_of (trailing_zeros 32 (bit_xor a b) / 2 ^ 3) (u32 (s2_limit + 2 ^ 32 - (s2 + n))))
  unfolding bits_of eight_more
  tail-IsCommonLength s1 s2 s2_limit n fits low common ne =
      let a = word_at s.dpu.mram (input.buffer + (s1 + n)) in
      let b = word_at s.dpu.mram (input.buffer + (s2 + n)) in
      let (lt, same, other) =
        common_bytes 4 a b (word_at_lt s.dpu.mram _ bytes) (word_at_lt s.dpu.mram _ bytes) ne in
      let q = trailing_zeros 32 (bit_xor a b) / 8 in
      let left : u32 (s2_limit + 2 ^ 32 - (s2 + n)) ≡ s2_limit - (s2 + n) = omega arith in
      let at1 =
        λ (i : ℕ) (h : i < 4). byte_no-word_at s.dpu.mram (input.buffer + (s1 + n)) i bytes h in
      let at2 =
        λ (i : ℕ) (h : i < 4). byte_no-word_at s.dpu.mram (input.buffer + (s2 + n)) i bytes h in
      elim (Bool-cases (ltb q (s2_limit - (s2 + n)))) [
        | inl inside ↦
            let within : q < s2_limit - (s2 + n) = ltb→lt _ _ inside in
            rw (left, inside)
              (
                omega (arith, within),
                common-word input s mirror base bytes s1 s2 n q common (omega (arith, lt))
                    (λ i h. sym (at1 i (omega (arith, lt))) ∙ same i h ∙ at2 i (omega (arith, lt))),
                inr (λ e. other (
                    at1 q lt
                    ∙ ap s.dpu.mram (omega arith)
                    ∙ e
                    ∙ ap s.dpu.mram (omega arith)
                    ∙ sym (at2 q lt))),
              )
        | inr outside ↦
            let over : s2_limit - (s2 + n) ≤ q = ground arith in
            rw (left, outside)
              (
                omega arith,
                common-word input s mirror base bytes s1 s2 n (s2_limit - (s2 + n)) common
                    (omega (arith, lt, over))
                    (λ i h.
                      sym (at1 i (omega (arith, lt, over)))
                      ∙ same i (omega (arith, over))
                      ∙ at2 i (omega (arith, lt, over))),
                inl (omega arith),
              )
      ]

  -- Of different words there is a lowest bit that differs.
  ctz-xor :
      (a b : ℕ)
      → a < 2 ^ 32
      → b < 2 ^ 32
      → a ≢ b
      → ctz (bit_xor a b) ≡ some (trailing_zeros 32 (bit_xor a b))
  unfolding ctz bits_of eight_more
  ctz-xor a b ha hb ne = elim (ℕ_discrete (bit_xor a b) 0) [
    | yes e ↦
        let lt = (common_bytes 4 a b ha hb ne).0 in
        let all : trailing_zeros 32 (bit_xor a b) ≡ 32 = ap (trailing_zeros 32) e ∙ all_zeros in
        absurd (omega (arith, lt, all))
    | no some_bit ↦ let e : (bit_xor a b == 0) ≡ false = ground arith in rw e refl
  ]
    where
      all_zeros : trailing_zeros 32 0 ≡ 32
      all_zeros = unfold trailing_zeros in refl

  -- For a reader at its position, the WRAM at address 0, an MRAM of bytes, and two positions in
  -- order up to a limit of at least 4 and inside the MRAM, find_match_length either gives the number
  -- of common bytes up to the limit, or it has no defined result; that is only where the bytes are
  -- common up to the limit.
  pub find_match_length_lem :
      (s1 s2 s2_limit : ℕ)
      → s1 ≤ s2
      → s2 ≤ s2_limit
      → 4 ≤ s2_limit
      → s2_limit ≤ mram_per_dpu
      → ((find_match_length input s s1 s2 s2_limit ≡ none)
          × AreCommon input s.dpu.mram s1 s2 (s2_limit - s2))
        ⊎ ((k : ℕ) × (find_match_length input s s1 s2 s2_limit ≡ some k)
            × IsCommonLength input s.dpu.mram s1 s2 s2_limit k)
  unfolding find_match_length
  find_match_length_lem s1 s2 s2_limit le fits wide low =
      let r = match_words input s (s2_limit / 4 + 1) s1 s2 s2_limit 0 in
      let h : StopsAt input s.dpu.mram s1 s2 s2_limit r =
        subst
          (λ (p : ℕ).
            StopsAt input s.dpu.mram s1 s2 s2_limit
              (match_words input s (s2_limit / 4 + 1) s1 p s2_limit 0))
          (omega arith)
          (words-StopsAt input s mirror base bytes (s2_limit / 4 + 1) s1 s2 s2_limit 0 le
            (omega arith) wide low (omega arith) (λ j lt. absurd (omega arith))) in
      let n = r.1 in
      let place : r.0 ≡ s2 + n = h.place in
      let p1 : u32 (s1 + n) ≡ s1 + n = omega (arith, place, h.below) in
      let a = word_at s.dpu.mram (input.buffer + (s1 + n)) in
      let b = word_at s.dpu.mram (input.buffer + (s2 + n)) in
      let ra : read_uint32 input (s1 + n) s ≡ a =
        read_uint32_lem input (s1 + n) s mirror base bytes (omega (arith, place, h.below)) in
      let rb : read_uint32 input (s2 + n) s ≡ b =
        read_uint32_lem input (s2 + n) s mirror base bytes (omega (arith, place, h.below)) in
      elim (ℕ_discrete a b) [
        | yes same ↦
            let x : ctz (bit_xor a b) ≡ none =
              ap (λ (v : ℕ). ctz (bit_xor a v)) (sym same) ∙ ap ctz (xor_self a) ∙ no_bit in
            let close : s2_limit < s2 + n + 4 = elim h.last [
              | inl near ↦ omega (arith, near, place)
              | inr differ ↦ absurd (
                  differ (same ∙ ap (λ (p : ℕ). word_at s.dpu.mram (input.buffer + p)) (sym place)))
            ] in
            rw (p1, place, ra, rb, x)
              (inl (
                refl,
                subst (AreCommon input s.dpu.mram s1 s2) (omega (arith, place, h.below)) (
                    common-word input s mirror base bytes s1 s2 n (s2_limit - (s2 + n)) h.common
                      (omega (arith, close))
                      (λ i lt.
                        sym (
                          byte_no-word_at s.dpu.mram (input.buffer + (s1 + n)) i bytes
                            (omega (arith, close)))
                        ∙ ap (byte_no i) same
                        ∙ byte_no-word_at s.dpu.mram (input.buffer + (s2 + n)) i bytes
                            (omega (arith, close)))),
              ))
        | no differ ↦
            let x =
              ctz-xor a b (word_at_lt s.dpu.mram _ bytes) (word_at_lt s.dpu.mram _ bytes) differ in
            rw (p1, place, ra, rb, x)
              (inr (
                _,
                refl,
                tail-IsCommonLength s1 s2 s2_limit n (omega (arith, place, h.below)) low h.common
                    differ,
              ))
      ]
    where
      no_bit : ctz 0 ≡ none
      no_bit = unfold ctz in refl
