-- ===== src/Snappy/Match.antt =====
-- The search for matches of module/snappy_compress.c: log2_floor, hash and find_match_length.
use pim_swap.Base.{
  ℕ, zero, suc, ◌+◌, ◌-◌, ◌*◌, ◌/◌, ◌%◌, ◌^◌, Option, none, some, u32, leb, ◌==◌, ◌&&◌,
  if◌then◌else◌,
}
use Prim.Native.Nat.{bit_xor}
use pim_swap.Page.{on_value}
use pim_swap.Snappy.Reader.{Local, InBuffer, read_uint32}
use pim_swap.Snappy.Output.{min_of}

-- __builtin_clz of a number of `width` bits: the zero bits above the highest one.
unfoldable pub leading_zeros : ℕ → ℕ → ℕ
leading_zeros zero n = 0
leading_zeros (suc width) n =
    let rest = leading_zeros width n in if leb (2 ^ width) n then 0 else suc rest

-- log2_floor, with `none` for -1.
unfoldable pub log2_floor : ℕ → Option ℕ
log2_floor n = if n == 0 then none else some (bit_xor 31 (leading_zeros 32 n))

-- `32 - log2_floor(table_size)`
unfoldable pub hash_shift : ℕ → ℕ
hash_shift table_size = elim (log2_floor table_size) [ none ↦ 33 | some k ↦ 32 - k ]

-- hash, of the four bytes of a word.
unfoldable pub hash : ℕ → ℕ → ℕ
hash bytes shift =
    let b1 = u32 (bytes + u32 (bytes * 2 ^ 15)) in
    let b2 = bit_xor b1 (b1 / 2 ^ 12) in
    let b3 = u32 (b2 + u32 (b2 * 2 ^ 2)) in
    let b4 = bit_xor b3 (b3 / 2 ^ 4) in let b5 = u32 (b4 + u32 (b4 * 2 ^ 11)) in b5 / 2 ^ shift

-- __builtin_ctz of a number of `width` bits: the zero bits below the lowest one. Of 0 it has no
-- defined value.
unfoldable pub trailing_zeros : ℕ → ℕ → ℕ
trailing_zeros zero n = 0
trailing_zeros (suc width) n =
    let rest = trailing_zeros width (n / 2) in if n % 2 == 1 then 0 else suc rest

unfoldable pub ctz : ℕ → Option ℕ
ctz n = if n == 0 then none else some (trailing_zeros 32 n)

module _ (input : InBuffer) (s : Local) where
  -- The loop of find_match_length with `left` rounds left: the position and the bytes that matched.
  unfoldable pub match_words : ℕ → ℕ → ℕ → ℕ → ℕ → ℕ × ℕ
  match_words zero s1 s2 s2_limit matched = (s2, matched)
  match_words (suc left) s1 s2 s2_limit matched =
      let rest = match_words left s1 (u32 (s2 + 4)) s2_limit (matched + 4) in
      if leb s2 (u32 (s2_limit + 2 ^ 32 - 4))
        && (read_uint32 input s2 s == read_uint32 input (u32 (s1 + matched)) s)
      then rest
      else (s2, matched)

  -- find_match_length: a round takes 4 bytes, so no more than a quarter of the limit are made.
  unfoldable pub find_match_length : ℕ → ℕ → ℕ → Option ℕ
  find_match_length s1 s2 s2_limit =
      let (s2', matched) = match_words (s2_limit / 4 + 1) s1 s2 s2_limit 0 in
      let x = bit_xor (read_uint32 input (u32 (s1 + matched)) s) (read_uint32 input s2' s) in
      on_value (ctz x)
        λ zeros. some (matched + min_of (zeros / 2 ^ 3) (u32 (s2_limit + 2 ^ 32 - s2')))
