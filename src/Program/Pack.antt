-- ===== src/Program/Pack.antt =====
-- What is stored for a page: its size, and that unpacking gives the page back, for a compressor
-- that keeps its contract.
use pim_swap.Base.{
  ℕ, ◌≤◌, ◌<◌, ◌≡◌, ◌≢◌, ◌⊎◌, inl, inr, ◌∙◌, sym, ap, ap₂, true, false, some, List, arith, length,
  take, take-length, ◌==◌, Bool-cases,
}
use pim_swap.Mram.{Mram, AreBytes, mram_read}
use pim_swap.Layout.{page_size}
use pim_swap.Program.{Crypto, is_negative, is_zero, pack_page, unpack_page}

-- The contract of the kernel's compressor that the module relies on: the output buffer is a page,
-- the stored length is at least 1, bytes give bytes, and what was compressed without a negative
-- return decompresses, with return 0, to the page.
pub record IsCodec (crypto : Crypto) : Type 0 where
  pub page_out : (p : List ℕ) → length p ≡ page_size → length ((crypto.compress p).out) ≡ page_size
  pub some_out : (p : List ℕ) → length p ≡ page_size → 0 < (crypto.compress p).len
  pub bytes_out : (p : List ℕ) → AreBytes p → AreBytes ((crypto.compress p).out)
  pub bytes_back : (l : List ℕ) → AreBytes l → AreBytes ((crypto.decompress l).out)
  pub restores :
      (p : List ℕ)
      → length p ≡ page_size
      → is_negative ((crypto.compress p).ret) ≡ false
      → let r = crypto.decompress (take ((crypto.compress p).len) ((crypto.compress p).out)) in
        (is_zero r.ret ≡ true) × (r.len ≡ page_size) × (r.out ≡ p)

module _ (crypto : Crypto) (law : IsCodec crypto) (page : List ℕ)
    (size : length page ≡ page_size) where
  -- What is stored takes 1 to PAGE_SIZE bytes and comes from a page-sized buffer.
  pub pack_bounds :
      (0 < (pack_page crypto page).compressed_length)
      × ((pack_page crypto page).compressed_length ≤ page_size)
      × (length ((pack_page crypto page).out_page) ≡ page_size)
  unfolding pack_page
  pack_bounds = ground (arith, law.page_out page size, law.some_out page size)

  -- What is stored are bytes.
  pub pack-AreBytes : AreBytes page → AreBytes ((pack_page crypto page).out_page)
  unfolding pack_page
  pack-AreBytes bytes = elim (Bool-cases ((pack_page crypto page).too_big)) [
    | inl big ↦ rw big bytes
    | inr small ↦ rw small (elim (Bool-cases (is_negative ((crypto.compress page).ret))) [
      | inl failed ↦ rw failed bytes
      | inr fine ↦ rw fine (law.bytes_out page bytes)
    ])
  ]

  -- A page is stored as it is exactly when its length is stored as PAGE_SIZE.
  pack_cases :
      (((pack_page crypto page).compressed_length ≡ page_size)
        × ((pack_page crypto page).out_page ≡ page))
      ⊎ (((pack_page crypto page).compressed_length ≢ page_size)
          × (is_negative ((crypto.compress page).ret) ≡ false)
          × ((pack_page crypto page).out_page ≡ (crypto.compress page).out)
          × ((pack_page crypto page).compressed_length ≡ (crypto.compress page).len))
  unfolding pack_page
  pack_cases = elim (Bool-cases ((pack_page crypto page).too_big)) [
    | inl big ↦ inl (ground arith, ground arith)
    | inr small ↦ inr (ground arith, ground arith, ground arith, ground arith)
  ]

  -- Unpacking what was written of a packed page gives the page.
  pub unpack-pack :
      (address : ℕ) (m : Mram)
      → mram_read m address ((pack_page crypto page).compressed_length)
        ≡ take ((pack_page crypto page).compressed_length) ((pack_page crypto page).out_page)
      → unpack_page crypto address ((pack_page crypto page).compressed_length) m ≡ some page
  unfolding unpack_page
  unpack-pack address m stored = elim pack_cases [
    | inl (whole, same) ↦
        let test : ((pack_page crypto page).compressed_length == page_size) ≡ true = ground arith in
        rw test (ap some (stored ∙ ap₂ take (whole ∙ sym size) same ∙ take-length page))
    | inr (part, fine, bytes, len) ↦
        let test : ((pack_page crypto page).compressed_length == page_size) ≡ false =
          ground arith in
        let back = law.restores page size fine in
        let full : ((crypto.decompress
                (take ((crypto.compress page).len) ((crypto.compress page).out))).len
              == page_size)
            ≡ true =
          ground arith in
        rw (test, stored, bytes, len, back.0, full) (ap some back.2)
  ]
