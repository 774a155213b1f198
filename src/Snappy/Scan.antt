-- ===== src/Snappy/Scan.antt =====
-- The fuel of the scan for a match, and the positions of the hash table.
use pim_swap.Base.{
  ℕ, zero, suc, ◌+◌, ◌/◌, ◌^◌, ◌≤◌, ◌<◌, ◌≡◌, refl, some, ltb, ◌==◌, not, arith, u32, Bool-cases,
  inl, inr,
}
use pim_swap.Snappy.Match.{hash, hash_shift, log2_floor, leading_zeros}
use pim_swap.Snappy.Emit.{Work}
use pim_swap.Snappy.Block.{
  HashTable, BlockBounds, Scanned, exhausted, found, scan_input, table_bytes,
}
use pim_swap.Snappy.Reader.{read_uint32}

-- Every position that hash gives, with the shift for the table of dpu_compress, is in the table.
pub hash_bound : (bytes : ℕ) → hash bytes (hash_shift (table_bytes / 2)) < table_bytes / 2
unfolding hash hash_shift table_bytes log2_floor leading_zeros
hash_bound bytes = omega arith

-- The scan ends, with a round for each position up to the limit and one more: it moves on by at
-- least a byte in a round.
pub scan-Ends :
    (b : BlockBounds) (left curr_input hval skip_bytes : ℕ) (table : HashTable) (w : Work)
    → 32 ≤ skip_bytes
    → skip_bytes + left < 2 ^ 31
    → b.input_limit < 2 ^ 31
    → curr_input ≤ b.input_limit
    → b.input_limit < curr_input + left
    → (r : Scanned) × (scan_input b left curr_input hval skip_bytes table w ≡ some r)
unfolding scan_input
scan-Ends b zero curr_input hval skip_bytes table w wide small low inside fuel =
    absurd (omega arith)
scan-Ends b (suc left) curr_input hval skip_bytes table w wide small low inside fuel =
    elim (Bool-cases (ltb b.input_limit (u32 (curr_input + skip_bytes / 2 ^ 5)))) [
      | inl out ↦ rw out (exhausted table, refl)
      | inr go ↦
          let moved : u32 (curr_input + skip_bytes / 2 ^ 5) ≡ curr_input + skip_bytes / 2 ^ 5 =
            omega arith in
          let within : u32 (curr_input + skip_bytes / 2 ^ 5) ≤ b.input_limit = ground arith in
          let wider : u32 (skip_bytes + 1) ≡ skip_bytes + 1 = omega arith in
          elim (Bool-cases (
            not (
              read_uint32 w.input curr_input w.local
              == read_uint32 w.input (u32 (b.base_input + table hval)) w.local))) [
                | inl other ↦
                    rw (go, other)
                      (scan-Ends b left (u32 (curr_input + skip_bytes / 2 ^ 5)) _
                        (u32 (skip_bytes + 1)) _ w (omega (arith, wider)) (omega (arith, wider)) low
                        within (omega (arith, moved)))
                | inr same ↦ rw (go, same) (found curr_input _ _, refl)
              ]
    ]
