-- ===== src/Program/Word.antt =====
-- A uint32_t in memory: four bytes, the lowest first.
use pim_swap.Base.{
  ℕ, zero, suc, ◌+◌, ◌*◌, ◌/◌, ◌%◌, ◌^◌, ◌<◌, ◌≡◌, List, [], ◌∷◌, arith, get_or, ap, ◌∙◌,
}
use pim_swap.Mram.{Mram, AreBytes, mram_read, mram_write, mram_read-mram_write}

unfoldable pub word_bytes : ℕ → List ℕ
word_bytes w = (w % 256) ∷ (w / 256 % 256) ∷ (w / 65536 % 256) ∷ (w / 16777216 % 256) ∷ []

unfoldable pub word_of_bytes : List ℕ → ℕ
word_of_bytes l = get_or l 0 0 + get_or l 1 0 * 256 + get_or l 2 0 * 65536 + get_or l 3 0 * 16777216

-- A word survives a store and a load.
pub word-store :
    (w addr : ℕ) (m : Mram)
    → w < 2 ^ 32
    → word_of_bytes (mram_read (mram_write (word_bytes w) addr m) addr 4) ≡ w
unfolding word_bytes word_of_bytes
word-store w addr m h = ap word_of_bytes (mram_read-mram_write (word_bytes w) addr m) ∙ omega arith

pub word-AreBytes : (w : ℕ) → AreBytes (word_bytes w)
unfolding word_bytes
word-AreBytes w zero = omega arith
word-AreBytes w (suc zero) = omega arith
word-AreBytes w (suc (suc zero)) = omega arith
word-AreBytes w (suc (suc (suc zero))) = omega arith
word-AreBytes w (suc (suc (suc (suc i)))) = omega arith
