-- ===== src/PageMap/Insert.antt =====
-- lzo_compress_main adds a page to the map.
use pim_swap.Base.{
  ℕ, ◌+◌, ◌-◌, ◌*◌, ◌/◌, ◌≤◌, ◌<◌, ◌≡◌, ◌≢◌, ◌⊎◌, inl, inr, ◌∙◌, sym, ap, true, false, some, List,
  arith, length, dec_lt, ℕ_discrete, Bool-cases, ◌==◌, if◌then◌else◌, subst,
}
use mathlib.Core.Option.{some-injective}
use pim_swap.Mram.{Mram, AreBytes}
use pim_swap.Layout.{page_size, storage, num_storage_blocks, num_blocks_of, block_addr}
use pim_swap.Hash.{entry_index, entry_addr}
use pim_swap.Hash.Entry.{load_entry}
use pim_swap.Hash.Laws.{entry_addr_bounds, load_entry_ext, insert_outside, entries_apart}
use pim_swap.L2.Bitmap.{used}
use pim_swap.Program.{Crypto, Ran, page_valid}
use pim_swap.Program.Written.{Stores}
use pim_swap.PageMap.{PageMap, put, put_self, put_other, IsUnclaimed}
use pim_swap.PageMap.Holds.{Place, covers, IsKept, IsKept-ext, Holds, covers_byte}

module _ (crypto : Crypto) (pages : PageMap) (m : Mram) (id : ℕ) (page : List ℕ) (s : Ran)
    (h : Holds crypto pages m) (free : IsUnclaimed id pages) (st : Stores crypto id page m s)
    (id_range : id < page_valid) (size : length page ≡ page_size) (octets : AreBytes page) where
  abbrev m' : Mram
  m' = s.context.dpu.mram

  abbrev here : Place
  here = record { block = st.block; len = st.len }

  place' : ℕ → Place
  place' i = if id == i then here else h.place i

  place_self : place' id ≡ here
  unfolding place'
  place_self = ground arith

  place_other : (i : ℕ) → id ≢ i → place' i ≡ h.place i
  unfolding place'
  place_other i ne = ground arith

  -- A page of the new map is the new one or an old one.
  PageCases : ℕ → List ℕ → Type 0
  PageCases i q = ((id ≡ i) × (q ≡ page)) ⊎ ((id ≢ i) × (pages i ≡ some q))

  page_cases : (i : ℕ) (q : List ℕ) → put id page pages i ≡ some q → PageCases i q
  unfolding PageCases
  page_cases i q e = elim (ℕ_discrete id i) [
    | yes same ↦ inl (
      same,
      some-injective _ _ (sym e ∙ ap (put id page pages) (sym same) ∙ put_self id page pages),
    )
    | no ne ↦ inr (ne, sym (put_other id i page pages ne) ∙ e)
  ]

  -- An old page has another entry, and its blocks were used.
  old_entry : (i : ℕ) (q : List ℕ) → pages i ≡ some q → entry_index i ≢ entry_index id
  old_entry i q live same = cc (free i same, live)

  old_apart :
      (i : ℕ) (q : List ℕ)
      → pages i ≡ some q
      → (b : ℕ) → covers (h.place i) b ≡ true
      → covers here b ≡ false
  old_apart i q live b cov = elim (Bool-cases (covers here b)) [
    | inr f ↦ f
    | inl t ↦
        let k = h.kept i q live in
        let fits = k.in_storage in
        let u = k.marked b (ground arith) cov in
        let f = st.was_free b (ground arith) (ground arith) in cc (u, f)
  ]

  old_bytes :
      (i : ℕ) (q : List ℕ)
      → pages i ≡ some q
      → (x : ℕ) → block_addr ((h.place i).block) ≤ x
      → x < block_addr ((h.place i).block) + num_blocks_of ((h.place i).len) * 64
      → m' x ≡ m x
  old_bytes i q live x lo hi =
      st.elsewhere x (omega (arith, above ((h.place i).block)))
        (outside (dec_lt x (block_addr st.block)))
    where
      above : (b : ℕ) → storage ≤ block_addr b
      above b = unfold block_addr in omega arith

      outside :
          Dec (x < block_addr st.block)
          → (x < block_addr st.block) ⊎ (block_addr st.block + num_blocks_of st.len * 64 ≤ x)
      outside (yes before) = inl before
      outside (no not_before) = elim (dec_lt x (block_addr st.block + num_blocks_of st.len * 64)) [
        | no past ↦ inr (omega arith)
        | yes inside ↦ cc (
          covers_byte here x st.in_storage (omega arith) inside,
          old_apart i q live ((x - storage) / 64)
              (covers_byte (h.place i) x (h.kept i q live).in_storage lo hi),
        )
      ]

  IsKept-new : IsKept crypto m' id page here
  IsKept-new = record {
    id_range = id_range;
    whole = size;
    octets = octets;
    len_bounds = st.len_bounds;
    in_storage = st.in_storage;
    one_section = st.one_section;
    marked = λ b hb cov. ground (arith, st.marked b hb);
    indexed = st.indexed;
    unpacks = st.unpacks;
  }

  entry_kept :
      (i x : ℕ)
      → entry_index i ≢ entry_index id
      → entry_addr i ≤ x
      → x < entry_addr i + 8
      → m' x ≡ m x
  entry_kept i x ne lo hi =
      st.table x (omega (arith, entry_addr_bounds i)) (omega (arith, entry_addr_bounds i))
      ∙ insert_outside id st.block st.len m x (entries_apart id i x ne lo hi)

  IsKept-old : (i : ℕ) (q : List ℕ) → pages i ≡ some q → IsKept crypto m' i q (h.place i)
  IsKept-old i q live =
      IsKept-ext crypto m m' i q (h.place i) (λ x lo hi. entry_kept i x (old_entry i q live) lo hi)
        (old_bytes i q live) (λ b hb cov u. ground (arith, st.marked b hb)) (h.kept i q live)

  kept' : (i : ℕ) (q : List ℕ) → put id page pages i ≡ some q → IsKept crypto m' i q (place' i)
  unfolding PageCases
  kept' i q e = elim (page_cases i q e) [
    | inl (same, what) ↦
        subst (λ (r : List ℕ). IsKept crypto m' i r (place' i)) (sym what)
          (subst (λ (j : ℕ). IsKept crypto m' j page (place' j)) same
            (subst (IsKept crypto m' id page) (sym place_self) IsKept-new))
    | inr (ne, live) ↦ subst (IsKept crypto m' i q) (sym (place_other i ne)) (IsKept-old i q live)
  ]

  new_apart :
      (i : ℕ) (q : List ℕ)
      → pages i ≡ some q
      → (b : ℕ) → covers here b ≡ true
      → covers (h.place i) b ≡ false
  new_apart i q live b cov = elim (Bool-cases (covers (h.place i) b)) [
    | inr f ↦ f
    | inl t ↦ cc (cov, old_apart i q live b t)
  ]

  apart' :
      (i j : ℕ) (q r : List ℕ)
      → i ≢ j
      → PageCases i q
      → PageCases j r
      → (b : ℕ) → covers (place' i) b ≡ true
      → covers (place' j) b ≡ false
  unfolding PageCases
  apart' i j q r ne (inl (a, x)) (inl (c, y)) b cov = absurd (ne (sym a ∙ c))
  apart' i j q r ne (inl (a, x)) (inr (c, live)) b cov =
      ap (λ (p : Place). covers p b) (place_other j c)
      ∙ new_apart j r live b
          (sym (ap (λ (p : Place). covers p b) (ap place' (sym a) ∙ place_self)) ∙ cov)
  apart' i j q r ne (inr (a, live)) (inl (c, y)) b cov =
      ap (λ (p : Place). covers p b) (ap place' (sym c) ∙ place_self)
      ∙ old_apart i q live b (sym (ap (λ (p : Place). covers p b) (place_other i a)) ∙ cov)
  apart' i j q r ne (inr (a, live)) (inr (c, live')) b cov =
      ap (λ (p : Place). covers p b) (place_other j c)
      ∙ h.apart i j q r ne live live' b
          (sym (ap (λ (p : Place). covers p b) (place_other i a)) ∙ cov)

  entries' :
      (i j : ℕ) (q r : List ℕ)
      → i ≢ j
      → PageCases i q
      → PageCases j r
      → entry_index j ≢ entry_index i
  unfolding PageCases
  entries' i j q r ne (inl (a, x)) (inl (c, y)) e = absurd (ne (sym a ∙ c))
  entries' i j q r ne (inl (a, x)) (inr (c, live)) e =
      old_entry j r live (e ∙ ap entry_index (sym a))
  entries' i j q r ne (inr (a, live)) (inl (c, y)) e =
      old_entry i q live (sym e ∙ ap entry_index (sym c))
  entries' i j q r ne (inr (a, live)) (inr (c, live')) e = h.entries i j q r ne live live' e

  -- An old page is a page of the new map.
  still : (i : ℕ) (q : List ℕ) → pages i ≡ some q → (id ≢ i) × (put id page pages i ≡ some q)
  still i q live = (ne, put_other id i page pages ne ∙ live)
    where
      ne : id ≢ i
      ne e = old_entry i q live (ap entry_index (sym e))

  no_leak' :
      (b : ℕ)
      → b < num_storage_blocks
      → used m' b ≡ true
      → (i : ℕ) × (q : List ℕ) × (put id page pages i ≡ some q) × (covers (place' i) b ≡ true)
  no_leak' b hb u = elim (Bool-cases (covers here b)) [
    | inl t ↦ (id, page, put_self id page pages, ap (λ (p : Place). covers p b) place_self ∙ t)
    | inr f ↦
        let old : used m b ≡ true = ground (arith, st.marked b hb) in
        let (i, q, live, cov) = h.no_leak b hb old in
        let (ne, live') = still i q live in
        (i, q, live', ap (λ (p : Place). covers p b) (place_other i ne) ∙ cov)
  ]

  no_stray' :
      (i : ℕ)
      → (load_entry m' (entry_addr i)).length ≢ 0
      → (j : ℕ) × (q : List ℕ) × (put id page pages j ≡ some q) × (entry_index j ≡ entry_index i)
  no_stray' i nz = elim (ℕ_discrete (entry_index i) (entry_index id)) [
    | yes e ↦ (id, page, put_self id page pages, sym e)
    | no ne ↦
        let same : (load_entry m' (entry_addr i)).length ≡ (load_entry m (entry_addr i)).length =
          ap (λ e. e.length)
            (load_entry_ext m' m (entry_addr i) (λ x lo hi. entry_kept i x ne lo hi)) in
        let (j, q, live, e) = h.no_stray i (λ z. nz (same ∙ z)) in (j, q, (still j q live).1, e)
  ]

  -- After the page was stored the MRAM holds the map with the page.
  pub put-Holds : Holds crypto (put id page pages) m'
  put-Holds = record {
    place = place';
    well_formed = st.well_formed;
    kept = kept';
    apart = λ i j q r ne a c. apart' i j q r ne (page_cases i q a) (page_cases j r c);
    entries = λ i j q r ne a c. entries' i j q r ne (page_cases i q a) (page_cases j r c);
    no_leak = no_leak';
    no_stray = no_stray';
  }
