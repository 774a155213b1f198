-- ===== src/Program/Kept.antt =====
-- What every program of module/swap.c leaves as it was: the WRAM of its DPU; and what
-- lzo_decompress_main leaves: the id word.
use pim_swap.Base.{
  ℕ, ◌-◌, ◌≡◌, inl, inr, refl, sym, ap, Option, some, none, List, arith, Bool-cases, ◌==◌, take,
  length-take_le, bit_and,
}
use mathlib.Core.Option.{some-injective}
use pim_swap.Mram.{mram_read, mram_read_ext, mram_write_outside}
use pim_swap.Layout.{page_size, trans_page, id_offset}
use pim_swap.Hash.{lookup_index_hash}
use pim_swap.Page.{Alloc, alloc_page_static}
use pim_swap.Program.{
  Crypto, Context, Ran, Packed, read_id, page_valid, pack_page, count_packed, put_page, unpack_page,
  with_mram, write_status, store_packed, lzo_compress_main, lzo_decompress_main,
  dpu_invalidate_main,
}
use pim_swap.Program.Wram.{Dpu, mem_alloc}
use pim_swap.Program.Word.{word_of_bytes}

pub invalidate-wram : (c : Context) → (dpu_invalidate_main c).context.dpu.wram ≡ c.dpu.wram
unfolding dpu_invalidate_main with_mram
invalidate-wram c = elim (Bool-cases (bit_and (read_id c.dpu.mram) page_valid == 0)) [
  | inl off ↦ rw off refl
  | inr on ↦ rw on refl
]

mem_alloc-wram : (size : ℕ) (d : Dpu) → (mem_alloc size d).1.wram ≡ d.wram
unfolding mem_alloc
mem_alloc-wram size d = elim (Bool-cases (size == 0)) [
  | inl none_wanted ↦ rw none_wanted refl
  | inr wanted ↦ rw wanted refl
]

put_page-wram : (o : Option (List ℕ)) (c : Context) → (put_page o c).context.dpu.wram ≡ c.dpu.wram
unfolding put_page with_mram
put_page-wram none c = refl
put_page-wram (some page) c = refl

put_page-id :
    (o : Option (List ℕ)) (c : Context)
    → read_id (put_page o c).context.dpu.mram ≡ read_id c.dpu.mram
unfolding put_page with_mram read_id
put_page-id none c = refl
put_page-id (some page) c = ap word_of_bytes (
    mram_read_ext _ c.dpu.mram id_offset 4 λ x lo hi.
      mram_write_outside (take page_size page) trans_page c.dpu.mram x
        (inr (omega (arith, length-take_le page_size page))))

-- lzo_decompress_main keeps the WRAM and the id word.
pub decompress-kept :
    (crypto : Crypto) (c : Context)
    → ((lzo_decompress_main crypto c).context.dpu.wram ≡ c.dpu.wram)
      × (read_id (lzo_decompress_main crypto c).context.dpu.mram ≡ read_id c.dpu.mram)
unfolding lzo_decompress_main mem_alloc
decompress-kept crypto c = elim (Bool-cases (found.0 == 0)) [
  | inl null ↦ rw null (refl, refl)
  | inr there ↦ elim (Bool-cases (w1.0 == 0)) [
    | inl null ↦ rw (there, null) (refl, refl)
    | inr one ↦ elim (Bool-cases (w2.0 == 0)) [
      | inl null ↦ rw (there, one, null) (refl, refl)
      | inr two ↦
          rw (there, one, two)
            (
              put_page-wram (unpack_page crypto found.0 found.1 c.dpu.mram)
                  (record c { dpu = w2.1 }),
              put_page-id (unpack_page crypto found.0 found.1 c.dpu.mram) (record c { dpu = w2.1 }),
            )
    ]
  ]
]
  where
    found : ℕ × ℕ
    found = lookup_index_hash (read_id c.dpu.mram) c.dpu.mram

    w1 : ℕ × Dpu
    w1 = mem_alloc page_size c.dpu

    w2 : ℕ × Dpu
    w2 = mem_alloc page_size w1.1

store_packed-wram :
    (id : ℕ) (p : Packed) (c : Context) (s : Ran)
    → store_packed id p c ≡ some s
    → s.context.dpu.wram ≡ c.dpu.wram
unfolding store_packed write_status with_mram
store_packed-wram id p c s runs =
    of_alloc (alloc_page_static id p.compressed_length c.dpu.mram c.stats) refl
  where
    of_alloc :
        (o : Option Alloc)
        → alloc_page_static id p.compressed_length c.dpu.mram c.stats ≡ o
        → s.context.dpu.wram ≡ c.dpu.wram
    of_alloc none e = cc (rw e at runs)
    of_alloc (some a) e = elim (Bool-cases (a.address == 0)) [
      | inl null ↦
          ap (λ (r : Ran). r.context.dpu.wram) (sym (some-injective _ _ (rw (e, null) at runs)))
      | inr there ↦
          ap (λ (r : Ran). r.context.dpu.wram) (sym (some-injective _ _ (rw (e, there) at runs)))
    ]

pub compress-wram :
    (crypto : Crypto) (c : Context) (s : Ran)
    → lzo_compress_main crypto c ≡ some s
    → s.context.dpu.wram ≡ c.dpu.wram
unfolding lzo_compress_main mem_alloc write_status count_packed
compress-wram crypto c s runs = elim (Bool-cases (bit_and (read_id c.dpu.mram) page_valid == 0)) [
  | inl off ↦ same (rw off at runs)
  | inr on ↦ elim (Bool-cases (w1.0 == 0)) [
    | inl null ↦ same (rw (on, null) at runs)
    | inr one ↦ elim (Bool-cases (w2.0 == 0)) [
      | inl null ↦ same (rw (on, one, null) at runs)
      | inr two ↦
          store_packed-wram (bit_and (read_id c.dpu.mram) (page_valid - 1)) p
            (count_packed p (record c { dpu = w2.1 })) s (rw (on, one, two) at runs)
    ]
  ]
]
  where
    w1 : ℕ × Dpu
    w1 = mem_alloc page_size c.dpu

    w2 : ℕ × Dpu
    w2 = mem_alloc page_size w1.1

    p : Packed
    p = pack_page crypto (mram_read w2.1.mram trans_page page_size)

    same : {r : Ran} → some r ≡ some s → s.context.dpu.wram ≡ r.context.dpu.wram
    same e = ap (λ (r : Ran). r.context.dpu.wram) (sym (some-injective _ _ e))
