-- ===== src/Hash/Entry.antt =====
-- struct pim_hash_entry: eight bytes, each field with its low byte first.
use pim_swap.Base.{
  ℕ, zero, suc, ◌+◌, ◌*◌, ◌/◌, ◌%◌, ◌^◌, ◌<◌, ◌≡◌, List, [], ◌∷◌, arith, get_or, ◌∙◌, ap,
}
use pim_swap.Mram.{Mram, mram_read, mram_write, AreBytes, mram_read-mram_write}

pub record HashEntry : Type 0 where
  pub block : ℕ
  pub tag : ℕ
  pub length : ℕ

-- The bytes of the structure.
unfoldable pub entry_bytes : HashEntry → List ℕ
entry_bytes e =
    (e.block % 256)
    ∷ (e.block / 256 % 256)
    ∷ (e.block / 65536 % 256)
    ∷ (e.block / 16777216 % 256)
    ∷ (e.tag % 256)
    ∷ (e.tag / 256 % 256)
    ∷ (e.length % 256)
    ∷ (e.length / 256 % 256)
    ∷ []

-- The structure that eight bytes stand for.
unfoldable pub entry_of_bytes : List ℕ → HashEntry
entry_of_bytes l = record {
  block = get_or l 0 0 + get_or l 1 0 * 256 + get_or l 2 0 * 65536 + get_or l 3 0 * 16777216;
  tag = get_or l 4 0 + get_or l 5 0 * 256;
  length = get_or l 6 0 + get_or l 7 0 * 256;
}

unfoldable pub load_entry : Mram → ℕ → HashEntry
unfolding entry_of_bytes
load_entry m addr = entry_of_bytes (mram_read m addr 8)

abbrev pub Fits : HashEntry → Type 0
Fits e = (e.block < 2 ^ 32) × (e.tag < 2 ^ 16) × (e.length < 2 ^ 16)

-- The structure survives a store and a load.
pub entry_of_bytes-entry_bytes : (e : HashEntry) → Fits e → entry_of_bytes (entry_bytes e) ≡ e
unfolding entry_of_bytes entry_bytes
entry_of_bytes-entry_bytes e (hb, ht, hl) =
    λ i. record { block = whole i; tag = upper i; length = lower i }
  where
    whole :
        e.block % 256
          + e.block / 256 % 256 * 256
          + e.block / 65536 % 256 * 65536
          + e.block / 16777216 % 256 * 16777216
        ≡ e.block
    whole = omega arith

    upper : e.tag % 256 + e.tag / 256 % 256 * 256 ≡ e.tag
    upper = omega arith

    lower : e.length % 256 + e.length / 256 % 256 * 256 ≡ e.length
    lower = omega arith

-- A structure whose fields are in the range of their C types, written to any address of any memory,
-- is what is loaded from that address.
pub load_entry-store :
    (e : HashEntry) (addr : ℕ) (m : Mram)
    → Fits e
    → load_entry (mram_write (entry_bytes e) addr m) addr ≡ e
unfolding load_entry entry_bytes
load_entry-store e addr m f = ap entry_of_bytes (restored) ∙ entry_of_bytes-entry_bytes e f
  where
    restored : mram_read (mram_write (entry_bytes e) addr m) addr 8 ≡ entry_bytes e
    restored = mram_read-mram_write (entry_bytes e) addr m

pub AreBytes-entry_bytes : (e : HashEntry) → AreBytes (entry_bytes e)
unfolding entry_bytes
AreBytes-entry_bytes e zero = omega arith
AreBytes-entry_bytes e (suc zero) = omega arith
AreBytes-entry_bytes e (suc (suc zero)) = omega arith
AreBytes-entry_bytes e (suc (suc (suc zero))) = omega arith
AreBytes-entry_bytes e (suc (suc (suc (suc zero)))) = omega arith
AreBytes-entry_bytes e (suc (suc (suc (suc (suc zero))))) = omega arith
AreBytes-entry_bytes e (suc (suc (suc (suc (suc (suc zero)))))) = omega arith
AreBytes-entry_bytes e (suc (suc (suc (suc (suc (suc (suc zero))))))) = omega arith
AreBytes-entry_bytes e (suc (suc (suc (suc (suc (suc (suc (suc i)))))))) = omega arith
