-- ===== src/Swap/Stale.antt =====
-- What frontswap_load gives after frontswap_store_old: the out buffer is never used.
use pim_swap.Base.{
  ℕ, ◌+◌, ◌*◌, ◌/◌, ◌^◌, ◌≤◌, ◌<◌, ◌≡◌, ◌⊎◌, inl, inr, ◌∙◌, sym, ap, subst, true, false, some, List,
  arith, length, u32, ◌==◌, ◌&&◌, bit_or, bit_set, and_mask, or_low_high,
}
use mathlib.Core.Option.{some-injective}
use pim_swap.Mram.{Mram, mram_read, mram_write, mram_read_ext, mram_write_outside}
use pim_swap.Layout.{page_size}
use pim_swap.Program.{Crypto, page_valid}
use pim_swap.Program.Word.{word_bytes, word_of_bytes, word-store}
use pim_swap.Host.{Machine}
use pim_swap.Swap.{
  Places, Swap, Code, done, dpu_index_from_offset, id_from_offset, rank_index_from_offset,
  descriptor_size, data_of, id_of, host_word, set_host, frontswap_store_old, frontswap_load,
}

-- The identifier of an offset has no PAGE_VALID bit.
pub id_from_offset-lt : (offset : ℕ) → id_from_offset offset < page_valid
unfolding id_from_offset
id_from_offset-lt offset = omega (arith, and_mask 31 (u32 (offset / 4)))

-- Two descriptors of DPU 0 that do not overlap.
abbrev pub AreApart : Places → Type 0
AreApart places =
    (places.in_buffer + 4 * descriptor_size ≤ places.out_buffer)
    ⊎ (places.out_buffer + 4 * descriptor_size ≤ places.in_buffer)

-- The host's memory after a page was put into the empty slot of the out buffer for DPU 0.
abbrev pub buffered : Places → ℕ → List ℕ → Mram → Mram
buffered places id page m =
    mram_write (word_bytes (bit_or id page_valid))
      (places.out_buffer + 0 * descriptor_size + page_size)
      (mram_write page (places.out_buffer + 0 * descriptor_size) m)

pub buffered_id :
    (places : Places) (id : ℕ) (page : List ℕ) (m : Mram)
    → id < page_valid
    → word_of_bytes (
        mram_read
          (buffered places id page m)
          (places.out_buffer + 0 * descriptor_size + page_size)
          4)
      ≡ id + page_valid
buffered_id places id page m h =
    word-store (bit_or id page_valid) (places.out_buffer + 0 * descriptor_size + page_size) _
      (omega (arith, or_low_high 31 1 id h))
    ∙ omega (arith, or_low_high 31 1 id h)

pub buffered_outside :
    (places : Places) (id : ℕ) (page : List ℕ) (m : Mram) (x : ℕ)
    → length page ≡ page_size
    → (x < places.out_buffer) ⊎ (places.out_buffer + descriptor_size ≤ x)
    → buffered places id page m x ≡ m x
unfolding word_bytes
buffered_outside places id page m x size h =
    mram_write_outside _ (places.out_buffer + 0 * descriptor_size + page_size) _ x (past_id h)
    ∙ mram_write_outside page (places.out_buffer + 0 * descriptor_size) m x (past_page h)
  where
    past_id :
        (x < places.out_buffer) ⊎ (places.out_buffer + descriptor_size ≤ x)
        → (x < places.out_buffer + 0 * descriptor_size + page_size)
          ⊎ (places.out_buffer + 0 * descriptor_size + page_size + 4 ≤ x)
    past_id (inl a) = inl (omega arith)
    past_id (inr b) = inr (omega arith)

    past_page :
        (x < places.out_buffer) ⊎ (places.out_buffer + descriptor_size ≤ x)
        → (x < places.out_buffer + 0 * descriptor_size)
          ⊎ (places.out_buffer + 0 * descriptor_size + length page ≤ x)
    past_page (inl a) = inl (omega arith)
    past_page (inr b) = inr (omega arith)

module _ (crypto : Crypto) (places : Places) (offset : ℕ) (page : List ℕ) (s : Swap)
    (rank_0 : rank_index_from_offset offset ≡ 0) (dpu_0 : dpu_index_from_offset offset ≡ 0)
    (size : length page ≡ page_size) where
  id : ℕ
  id = id_from_offset offset

  host' : Mram
  host' = buffered places id page s.machine.host

  mc' : Machine
  mc' = let mc = s.machine in record mc { host = host' }

  pub after_store : Swap
  after_store = record s { out_buffer_bmp = bit_or s.out_buffer_bmp (2 ^ 0); machine = mc' }

  pub stored :
      bit_set s.out_buffer_bmp 0 ≡ false
      → frontswap_store_old crypto places false offset page s ≡ some (done, after_store)
  unfolding frontswap_store_old after_store mc' host' id set_host
  stored empty_slot = rw (rank_0, dpu_0, empty_slot)

  -- The word in the out buffer has the PAGE_VALID bit, and the one looked for has not.
  out_id : (host_word (id_of places.out_buffer 0) mc' == id) ≡ false
  unfolding host_word mc' host' id
  out_id =
      let e =
        buffered_id places (id_from_offset offset) page s.machine.host (id_from_offset-lt offset) in
      ground (arith, e)

  module _ (apart : AreApart places) where
    in_buffer_same :
        (x : ℕ)
        → places.in_buffer ≤ x
        → x < places.in_buffer + descriptor_size
        → host' x ≡ s.machine.host x
    unfolding host'
    in_buffer_same x lo hi = buffered_outside places id page s.machine.host x size (far apart)
      where
        far : AreApart places → (x < places.out_buffer) ⊎ (places.out_buffer + descriptor_size ≤ x)
        far (inl a) = inl (omega arith)
        far (inr b) = inr (omega arith)

    in_id :
        host_word (id_of places.in_buffer 0) mc' ≡ host_word (id_of places.in_buffer 0) s.machine
    unfolding host_word mc'
    in_id = ap word_of_bytes (
        mram_read_ext host' s.machine.host (id_of places.in_buffer 0) 4
          (λ x lo hi. in_buffer_same x (omega arith) (omega arith)))

    in_page :
        mram_read mc'.host (data_of places.in_buffer 0) page_size
        ≡ mram_read s.machine.host (data_of places.in_buffer 0) page_size
    unfolding mc'
    in_page =
        mram_read_ext host' s.machine.host (data_of places.in_buffer 0) page_size
          (λ x lo hi. in_buffer_same x (omega arith) (omega arith))

    loaded :
        host_word (id_of places.in_buffer 0) s.machine ≡ id
        → frontswap_load crypto places offset after_store
          ≡ some (
            done,
            some (mram_read s.machine.host (data_of places.in_buffer 0) page_size),
            after_store,
          )
    unfolding frontswap_load after_store id
    loaded present =
        let found : (host_word (id_of places.in_buffer 0) mc' == id_from_offset offset) ≡ true =
          ground (arith, in_id) in
        let missed : (bit_set (bit_or s.out_buffer_bmp (2 ^ 0)) 0
              && host_word (id_of places.out_buffer 0) mc' == id_from_offset offset)
            ≡ false =
          ground (arith, out_id) in
        rw (rank_0, dpu_0, missed, found)
          (ap (λ (l : List ℕ). some (done, some l, after_store)) in_page)

-- A page that waits in the out buffer is not what a load gives: if the slot of DPU 0 was empty and
-- the in buffer still holds an earlier copy under the same identifier, then after
-- frontswap_store_old of a page, frontswap_load at the same offset reports success and delivers
-- the earlier bytes of the in buffer, whatever page was stored, without asking a DPU.
pub load-store_stale :
    (crypto : Crypto) (places : Places) (offset : ℕ) (page : List ℕ) (s s' : Swap)
    → rank_index_from_offset offset ≡ 0
    → dpu_index_from_offset offset ≡ 0
    → length page ≡ page_size
    → AreApart places
    → bit_set s.out_buffer_bmp 0 ≡ false
    → host_word (id_of places.in_buffer 0) s.machine ≡ id_from_offset offset
    → frontswap_store_old crypto places false offset page s ≡ some (done, s')
    → frontswap_load crypto places offset s'
      ≡ some (done, some (mram_read s.machine.host (data_of places.in_buffer 0) page_size), s')
unfolding id
load-store_stale crypto places offset page s s' r0 d0 size apart empty_slot present runs =
    subst
      (λ (t : Swap).
        frontswap_load crypto places offset t
        ≡ some (done, some (mram_read s.machine.host (data_of places.in_buffer 0) page_size), t))
      same (loaded crypto places offset page s r0 d0 size apart present)
  where
    same : after_store crypto places offset page s r0 d0 size ≡ s'
    same =
        ap (λ (p : Code × Swap). p.1)
          (some-injective _ _
            (sym (stored crypto places offset page s r0 d0 size empty_slot) ∙ runs))
