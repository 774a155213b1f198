-- ===== src/Swap/System.antt =====
-- The state of module/swap.c between two operations: which page waits in the out buffer, and which
-- pages the MRAM of DPU 0 holds. The operations give pages to DPU 0 only.
use pim_swap.Base.{
  ℕ, ◌+◌, ◌*◌, ◌≤◌, ◌<◌, ◌≡◌, ◌≢◌, ◌⊎◌, inr, ◌∙◌, sym, ap, ap₂, Option, some, none, List, arith,
  get_or, get_or_ext, bit_and,
}
use pim_swap.Mram.{
  Mram, IsBytes, mram_read, mram_write, mram_read_ext, mram_write_inside, mram_write_outside,
  length-mram_read, get_or-mram_read, AreBytes-mram_read, IsBytes-mram_write,
}
use pim_swap.Layout.{page_size, directory, num_l2_sections, dir_level1, section_addr, num_blocks_of}
use pim_swap.Page.Commit.{used_ext}
use pim_swap.Page.Directory.{IsSearchable}
use pim_swap.Page.Search.{HasNoRoom}
use pim_swap.Program.{Crypto, pack_page, page_valid}
use pim_swap.Program.Word.{word_of_bytes}
use pim_swap.PageMap.{PageMap, no_pages}
use pim_swap.PageMap.Holds.{Holds}
use pim_swap.Host.{DpuSet, Machine}
use pim_swap.Swap.{Places, Swap, descriptor_size, data_of, id_of, host_word}

-- The set that dpu_alloc makes for DPU_ALLOCATE_ALL.
abbrev pub every_dpu : DpuSet
every_dpu = record { rank_id = 0; start = 0; last = 3 }

-- The n bytes at a and the m bytes at b do not overlap.
abbrev pub IsApart : ℕ → ℕ → ℕ → ℕ → Type 0
IsApart a n b m = (a + n ≤ b) ⊎ (b + m ≤ a)

-- No buffer is NULL and none overlaps another.
pub record IsPlaced (p : Places) : Type 0 where
  pub in_there : p.in_buffer ≢ 0
  pub out_there : p.out_buffer ≢ 0
  pub id_there : p.invalidate_id ≢ 0
  pub dummy_there : p.invalidate_id_dummy ≢ 0
  pub buffers_apart : IsApart p.in_buffer (4 * descriptor_size) p.out_buffer (4 * descriptor_size)
  pub words_apart : IsApart p.invalidate_id 4 p.invalidate_id_dummy 4
  pub id_out : IsApart p.invalidate_id 4 p.out_buffer (4 * descriptor_size)
  pub dummy_out : IsApart p.invalidate_id_dummy 4 p.out_buffer (4 * descriptor_size)
  pub id_in : IsApart p.invalidate_id 4 p.in_buffer (4 * descriptor_size)
  pub dummy_in : IsApart p.invalidate_id_dummy 4 p.in_buffer (4 * descriptor_size)

-- What the state stands for: the page that waits in the out buffer with its identifier, the page
-- that the in buffer holds for DPU 0 with the word in its identifier field, and the pages of DPU 0.
pub record View : Type 0 where
  pub waiting : Option (ℕ × List ℕ)
  pub cached_id : ℕ
  pub cached_page : List ℕ
  pub pages : PageMap

-- The bitmap and the slot of DPU 0 are those of the waiting page.
abbrev pub IsWaiting : Places → Option (ℕ × List ℕ) → ℕ → Machine → Type 0
IsWaiting places none bmp mc = bmp ≡ 0
IsWaiting places (some (id, page)) bmp mc =
    (bmp ≡ 1)
    × (id < page_valid)
    × (host_word (id_of places.out_buffer 0) mc ≡ id + page_valid)
    × (mram_read mc.host (data_of places.out_buffer 0) page_size ≡ page)

-- The in buffer's slot of DPU 0.
abbrev pub IsCached : Places → ℕ → List ℕ → Machine → Type 0
IsCached places id page mc =
    (host_word (id_of places.in_buffer 0) mc ≡ id)
    × (mram_read mc.host (data_of places.in_buffer 0) page_size ≡ page)

-- What is true of the machine between two operations, where DPU 0 holds the pages of the map: the
-- other DPUs hold none, each DPU has WRAM, no buffer is prepared, and the slots of the other DPUs
-- have no valid identifier.
pub record IsIdle (crypto : Crypto) (places : Places) (pages : PageMap) (mc : Machine)
    : Type 0 where
  pub first : Holds crypto pages (mc.dpus 0).mram
  pub empty : (j : ℕ) → 0 < j → j < 4 → Holds crypto no_pages (mc.dpus j).mram
  pub wram : (j : ℕ) → j < 4 → (mc.dpus j).wram ≢ 0
  pub idle : (j : ℕ) → j < 4 → mc.push_data j ≡ 0
  pub octets : IsBytes mc.host
  pub unsent :
      (j : ℕ) → 0 < j → j < 4 → bit_and (host_word (id_of places.out_buffer j) mc) page_valid ≡ 0

-- The whole state.
pub record IsSystem (crypto : Crypto) (places : Places) (v : View) (s : Swap) : Type 0 where
  pub dpus : s.dpus ≡ every_dpu
  pub idle : IsIdle crypto places v.pages s.machine
  pub slot : IsWaiting places v.waiting s.out_buffer_bmp s.machine
  pub cached : IsCached places v.cached_id v.cached_page s.machine

-- The slots stay as they are while their bytes do.
pub host_word_ext :
    (a : ℕ) (mc mc' : Machine)
    → ((x : ℕ) → a ≤ x → x < a + 4 → mc'.host x ≡ mc.host x)
    → host_word a mc' ≡ host_word a mc
unfolding host_word
host_word_ext a mc mc' same = ap word_of_bytes (mram_read_ext mc'.host mc.host a 4 same)

pub IsCached-ext :
    (places : Places) (id : ℕ) (page : List ℕ) (mc mc' : Machine)
    → ((x : ℕ)
        → places.in_buffer ≤ x
        → x < places.in_buffer + 4 * descriptor_size
        → mc'.host x ≡ mc.host x)
    → IsCached places id page mc
    → IsCached places id page mc'
IsCached-ext places id page mc mc' same (word, bytes) = (
  host_word_ext (id_of places.in_buffer 0) mc mc' (λ x lo hi. same x (omega arith) (omega arith))
      ∙ word,
  mram_read_ext mc'.host mc.host (data_of places.in_buffer 0) page_size
        (λ x lo hi. same x (omega arith) (omega arith))
      ∙ bytes,
)

-- A DPU can be searched as before when only what stands below the directory changes.
pub IsSearchable-ext :
    (m m' : Mram) → ((x : ℕ) → directory ≤ x → m' x ≡ m x) → IsSearchable m → IsSearchable m'
IsSearchable-ext m m' same h = record {
  first_open = λ e. h.first_open (sym (same dir_level1 (omega arith)) ∙ e);
  stops = λ s hs e he full.
      used_ext m m' (λ x lo hi. same x (omega arith)) (s * 512 + e * 8 + 7) (omega arith)
      ∙ h.stops s hs e he (sym (same (section_addr s + (e + 1)) (omega arith)) ∙ full);
}

-- The MRAM of a DPU after the transfer of `len` bytes of the host to `addr`.
abbrev pub transferred : Mram → ℕ → ℕ → ℕ → Mram → Mram
transferred host buffer addr len m = mram_write (mram_read host buffer len) addr m

pub transferred-IsBytes :
    (host : Mram) (buffer addr len : ℕ) (m : Mram)
    → IsBytes host
    → IsBytes m
    → IsBytes (transferred host buffer addr len m)
transferred-IsBytes host buffer addr len m bh bm =
    IsBytes-mram_write _ addr m (AreBytes-mram_read host buffer len bh) bm

pub transferred_above :
    (host : Mram) (buffer addr len : ℕ) (m : Mram)
    → addr + len ≤ directory
    → (x : ℕ) → directory ≤ x
    → transferred host buffer addr len m x ≡ m x
transferred_above host buffer addr len m h x lo =
    mram_write_outside _ addr m x (inr (omega (arith, length-mram_read host buffer len)))

-- A part of what was transferred is the part of the buffer.
pub transferred_part :
    (host : Mram) (buffer addr len : ℕ) (m : Mram) (k n : ℕ)
    → k + n ≤ len
    → mram_read (transferred host buffer addr len m) (addr + k) n ≡ mram_read host (buffer + k) n
transferred_part host buffer addr len m k n h =
    get_or_ext 0 _ _ (length-mram_read _ (addr + k) n ∙ sym (length-mram_read host (buffer + k) n))
      λ i p.
        let q : i < n =
          omega (arith, length-mram_read (transferred host buffer addr len m) (addr + k) n) in
        get_or-mram_read _ (addr + k) n i q
        ∙ mram_write_inside (mram_read host buffer len) addr m (addr + k + i) (omega arith)
            (omega (arith, length-mram_read host buffer len))
        ∙ ap (λ (t : ℕ). get_or (mram_read host buffer len) t 0) (omega arith)
        ∙ get_or-mram_read host buffer len (k + i) (omega arith)
        ∙ ap host (omega arith)
        ∙ sym (get_or-mram_read host (buffer + k) n i q)

pub transferred_start :
    (host : Mram) (buffer addr len : ℕ) (m : Mram) (n : ℕ)
    → n ≤ len
    → mram_read (transferred host buffer addr len m) addr n ≡ mram_read host buffer n
transferred_start host buffer addr len m n h =
    ap (λ (a : ℕ). mram_read (transferred host buffer addr len m) a n) (omega arith)
    ∙ transferred_part host buffer addr len m 0 n (omega arith)
    ∙ ap (λ (a : ℕ). mram_read host a n) (omega arith)

-- No section of the DPU has room for the page as it is packed.
abbrev pub IsFull : Crypto → List ℕ → Mram → Type 0
IsFull crypto page m =
    (k : ℕ)
    → k < num_l2_sections
    → HasNoRoom m (num_blocks_of ((pack_page crypto page).compressed_length)) k

pub IsFull-ext :
    (crypto : Crypto) (page : List ℕ) (m m' : Mram)
    → ((x : ℕ) → directory ≤ x → m' x ≡ m x)
    → IsFull crypto page m'
    → IsFull crypto page m
IsFull-ext crypto page m m' same full k hk q fits free =
    full k hk q fits
      λ b lo hi. used_ext m m' (λ x from to. same x (omega arith)) b (omega arith) ∙ free b lo hi

abbrev pub swap_of : ℕ → Machine → Swap
swap_of bmp mc = record { dpus = every_dpu; out_buffer_bmp = bmp; machine = mc }

pub swap_of_lem :
    (s : Swap) (bmp : ℕ) → s.dpus ≡ every_dpu → s.out_buffer_bmp ≡ bmp → s ≡ swap_of bmp s.machine
swap_of_lem s bmp e f = ap₂ (λ (d : DpuSet) (b : ℕ). record s { dpus = d; out_buffer_bmp = b }) e f
