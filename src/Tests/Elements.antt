-- ===== src/Tests/Elements.antt =====
-- The emitted elements at concrete lengths and offsets.
use pim_swap.Base.{◌≡◌, [], ◌∷◌, ◌++◌, some, arith}
use pim_swap.Snappy.{emit_copy, literal_tag}
use pim_swap.Snappy.Format.{read_literal, Copies}
use pim_swap.Snappy.Elements.{emit_copy-Copies, read_literal-literal_tag}

emit_copy-Copies_example : Copies 3000 (emit_copy 3000 195) 195
emit_copy-Copies_example = emit_copy-Copies 3000 195 (omega arith) (omega arith)

read_literal_example : read_literal (literal_tag 70000 ++ 7 ∷ []) ≡ some (70000, 7 ∷ [])
read_literal_example = read_literal-literal_tag 70000 (7 ∷ []) (omega arith) (omega arith)
