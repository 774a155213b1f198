-- ===== src/Snappy.antt =====
-- The elements that module/snappy_compress.c emits: emit_literal up to the bytes of its tag,
-- emit_copy_less_than64 and emit_copy. What write_output_buffer is given, in order, is a list.
pub mod Format
pub mod Elements
pub mod Reader
pub mod Mirror
pub mod Output
pub mod Append
pub mod Write
pub mod Emit
pub mod Emitted
pub mod Literal
pub mod Copy
pub mod Length
pub mod Match
pub mod Block
pub mod Endless
pub mod Task
pub mod Scan
pub mod Matched
pub mod Prefix
use pim_swap.Base.{
  ℕ, zero, suc, ◌+◌, ◌-◌, ◌*◌, ◌/◌, ◌^◌, List, [], ◌∷◌, ◌++◌, u8, u32, ltb, leb, ◌==◌, ◌&&◌,
  if◌then◌else◌, length,
}

-- EL_TYPE_LITERAL, EL_TYPE_COPY_1, EL_TYPE_COPY_2
abbrev pub el_type_literal : ℕ
el_type_literal = 0

abbrev pub el_type_copy_1 : ℕ
el_type_copy_1 = 1

abbrev pub el_type_copy_2 : ℕ
el_type_copy_2 = 2

-- The loop over n in emit_literal, with `left` rounds left: the bytes of n, the lowest first.
pub length_bytes : ℕ → ℕ → List ℕ
length_bytes zero n = []
length_bytes (suc left) n =
    let rest = length_bytes left (n / 256) in if n == 0 then [] else u8 n ∷ rest

-- The tag of emit_literal. The loop ends within 4 rounds, as n is a uint32_t.
pub literal_tag : ℕ → List ℕ
literal_tag len =
    let n = u32 (len + 2 ^ 32 - 1) in
    let bytes = length_bytes 4 n in
    if ltb n 60
    then u8 (el_type_literal + n * 4) ∷ []
    else u8 (el_type_literal + (59 + length bytes) * 4) ∷ bytes

-- emit_copy_less_than64
pub copy_less_than64 : ℕ → ℕ → List ℕ
copy_less_than64 offset len =
    if ltb len 12 && ltb offset 2048
    then u8 (el_type_copy_1 + (len + 2 ^ 32 - 4) * 4 + offset / 256 * 32) ∷ u8 offset ∷ []
    else u8 (el_type_copy_2 + (len + 2 ^ 32 - 1) * 4) ∷ u8 offset ∷ u8 (offset / 256) ∷ []

-- What follows the first loop of emit_copy.
pub copy_rest : ℕ → ℕ → List ℕ
copy_rest offset len =
    if ltb 64 len
    then copy_less_than64 offset 60 ++ copy_less_than64 offset (len - 60)
    else copy_less_than64 offset len

-- The loop of emit_copy with `left` rounds left, and what follows it.
pub copy_loop : ℕ → ℕ → ℕ → List ℕ
copy_loop zero offset len = copy_rest offset len
copy_loop (suc left) offset len =
    let rest = copy_loop left offset (len - 64) in
    if leb 68 len then copy_less_than64 offset 64 ++ rest else copy_rest offset len

-- emit_copy: each round takes 64 off the length.
pub emit_copy : ℕ → ℕ → List ℕ
emit_copy offset len = copy_loop (len / 64) offset len
