-- ===== src/Program/Below.antt =====
-- Runs that change at most the transfer page and what stands before it in the MRAM.
use pim_swap.Base.{
  ℕ, ◌-◌, ◌≤◌, ◌≡◌, inl, inr, refl, ap, true, false, Option, some, none, List, arith, Bool-cases,
  ◌==◌, subst, take, length-take_le, bit_and, and_bit, and_mask,
}
use mathlib.Core.Option.{some-injective}
use pim_swap.Mram.{
  Mram, IsBytes, AreBytes, AreBytes-take, AreBytes-mram_read, IsBytes-mram_write, mram_read,
  mram_write_outside,
}
use pim_swap.Layout.{page_size, trans_page, id_offset, directory}
use pim_swap.Hash.{lookup_index_hash}
use pim_swap.Program.{
  Crypto, Coded, Context, Ran, read_id, is_zero, unpack_page, put_page, with_mram,
  lzo_decompress_main, lzo_compress_main, dpu_invalidate_main, write_status, failed_with, status_ok,
  page_valid,
}
use pim_swap.Program.Word.{word_bytes, word-AreBytes}
use pim_swap.Program.Wram.{Dpu, mem_alloc}
use pim_swap.Program.Pack.{IsCodec}
use pim_swap.Program.Written.{IsRequest}
use pim_swap.Page.Freeing.{free_page-missing}

-- What is unpacked are bytes.
unpack-AreBytes :
    (crypto : Crypto) (law : IsCodec crypto) (address len : ℕ) (m : Mram) (page : List ℕ)
    → IsBytes m
    → unpack_page crypto address len m ≡ some page
    → AreBytes page
unfolding unpack_page
unpack-AreBytes crypto law address len m page bytes e =
    let stored = AreBytes-mram_read m address len bytes in
    elim (Bool-cases (len == page_size)) [
      | inl y ↦ subst AreBytes (some-injective _ _ (rw y at e)) stored
      | inr f ↦ elim (Bool-cases (is_zero r.ret)) [
        | inr bad ↦ cc (rw (f, bad) at e)
        | inl good ↦ elim (Bool-cases (r.len == page_size)) [
          | inr bad ↦ cc (rw (f, good, bad) at e)
          | inl whole ↦
              subst AreBytes (some-injective _ _ (rw (f, good, whole) at e))
                (law.bytes_back _ stored)
        ]
      ]
    ]
  where
    r : Coded
    r = crypto.decompress (mram_read m address len)

-- A run changes bytes of the transfer page at most.
abbrev pub OnlyBelow : Mram → Mram → Type 0
OnlyBelow m m' = IsBytes m' × ((x : ℕ) → directory ≤ x → m' x ≡ m x)

put_page_below :
    (o : Option (List ℕ)) (c : Context)
    → IsBytes c.dpu.mram
    → ((page : List ℕ) → o ≡ some page → AreBytes page)
    → OnlyBelow c.dpu.mram (put_page o c).context.dpu.mram
unfolding put_page with_mram
put_page_below none c bytes octets = (bytes, λ x lo. refl)
put_page_below (some page) c bytes octets = (
  IsBytes-mram_write (take page_size page) trans_page c.dpu.mram
      (AreBytes-take page_size page (octets page refl)) bytes,
  λ x lo.
      mram_write_outside (take page_size page) trans_page c.dpu.mram x
        (inr (omega (arith, length-take_le page_size page))),
)

pub decompress_below :
    (crypto : Crypto) (c : Context)
    → IsCodec crypto
    → IsBytes c.dpu.mram
    → OnlyBelow c.dpu.mram (lzo_decompress_main crypto c).context.dpu.mram
unfolding lzo_decompress_main mem_alloc
decompress_below crypto c law bytes = elim (Bool-cases (found.0 == 0)) [
  | inl null ↦ rw null unchanged
  | inr there ↦ elim (Bool-cases (w1.0 == 0)) [
    | inl null ↦ rw (there, null) unchanged
    | inr one ↦ elim (Bool-cases (w2.0 == 0)) [
      | inl null ↦ rw (there, one, null) unchanged
      | inr two ↦
          rw (there, one, two)
            (put_page_below (unpack_page crypto found.0 found.1 c.dpu.mram)
              (record c { dpu = w2.1 }) bytes
              (λ page e. unpack-AreBytes crypto law found.0 found.1 c.dpu.mram page bytes e))
    ]
  ]
]
  where
    found : ℕ × ℕ
    found = lookup_index_hash (read_id c.dpu.mram) c.dpu.mram

    w1 : ℕ × Dpu
    w1 = mem_alloc page_size c.dpu

    w2 : ℕ × Dpu
    w2 = mem_alloc page_size w1.1

    unchanged : OnlyBelow c.dpu.mram c.dpu.mram
    unchanged = (bytes, λ x lo. refl)

-- Without the PAGE_VALID bit lzo_compress_main writes a status and dpu_invalidate_main nothing.
pub compress_not_valid :
    (crypto : Crypto) (c : Context)
    → bit_and (read_id c.dpu.mram) page_valid ≡ 0
    → IsBytes c.dpu.mram
    → (s : Ran) × (lzo_compress_main crypto c ≡ some s)
      × (s.succeeded ≡ false)
      × OnlyBelow c.dpu.mram s.context.dpu.mram
unfolding lzo_compress_main write_status word_bytes
compress_not_valid crypto c off bytes = (
  failed_with status_ok c,
  (let test : (bit_and (read_id c.dpu.mram) page_valid == 0) ≡ true = ground arith in rw test),
  refl,
  (
    IsBytes-mram_write (word_bytes status_ok) id_offset c.dpu.mram (word-AreBytes status_ok) bytes,
    λ x lo. mram_write_outside (word_bytes status_ok) id_offset c.dpu.mram x (inr (omega arith)),
  ),
)

pub invalidate_not_valid :
    (c : Context)
    → bit_and (read_id c.dpu.mram) page_valid ≡ 0
    → dpu_invalidate_main c ≡ record { context = c; succeeded = true }
unfolding dpu_invalidate_main
invalidate_not_valid c off =
    let test : (bit_and (read_id c.dpu.mram) page_valid == 0) ≡ true = ground arith in rw test

-- An id that the index does not find is left alone.
pub invalidate_missing :
    (id : ℕ) (c : Context)
    → IsRequest id c
    → lookup_index_hash id c.dpu.mram ≡ (0, 0)
    → (dpu_invalidate_main c).context ≡ c
unfolding dpu_invalidate_main with_mram
invalidate_missing id c q h =
    rw (valid, stripped, free_page-missing id c.dpu.mram c.stats (ap (λ p. p.0) h), h)
  where
    valid : (bit_and (read_id c.dpu.mram) page_valid == 0) ≡ false
    valid = ground (arith, q.id_range, q.id_word, and_bit 31 (read_id c.dpu.mram))

    stripped : bit_and (read_id c.dpu.mram) (page_valid - 1) ≡ id
    stripped = omega (arith, q.id_range, q.id_word, and_mask 31 (read_id c.dpu.mram))
