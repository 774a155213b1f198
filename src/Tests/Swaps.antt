-- ===== src/Tests/Swaps.antt =====
-- The module is started, a page is stored at offset 20 (identifier 5), and another at offset 24.
use pim_swap.Base.{
  ℕ, ◌+◌, ◌^◌, ◌<◌, ◌≡◌, ◌≢◌, ◌⊎◌, inl, inr, ◌∙◌, refl, ap, false, some, none, List, arith,
}
use mathlib.Core.Option.{some-injective}
use pim_swap.Mram.{mram_read, length-mram_read, AreBytes-mram_read}
use pim_swap.Layout.{page_size, trans_page}
use pim_swap.Layout.Blocks.{num_blocks_bounds}
use pim_swap.Page.{Statistics}
use pim_swap.Page.Directory.{IsSearchable}
use pim_swap.Page.Blank.{blank, IsBlank, blank-IsSearchable, blank-HasRoom}
use pim_swap.Program.{pack_page}
use pim_swap.Program.Pack.{pack_bounds}
use pim_swap.Program.Wram.{Dpu}
use pim_swap.PageMap.{PageMap, no_pages, put, remove, put_self}
use pim_swap.Host.{KernelMemory}
use pim_swap.Host.Allocate.{HasMemory}
use pim_swap.Swap.{
  Places, Swap, done, dpu_index_from_offset, id_from_offset, rank_index_from_offset, frontswap_load,
  frontswap_store_old, frontswap_invalidate_page,
}
use pim_swap.Swap.System.{IsPlaced, IsSystem, View, IsFull}
use pim_swap.Swap.Store.{buffered_view, stored_first, stored_over}
use pim_swap.Swap.Load.{cached_view}
use pim_swap.Swap.Drop.{with_pages}
use pim_swap.Swap.Start.{IsStatic, init_pim_swap, started, first_view, start-IsSystem}
use pim_swap.Swap.Run.{
  IsFirst, IsPage, SwapReach, start, next, store, store_over, SwapReach-IsSystem,
}
use pim_swap.Swap.Answers.{
  load-SwapReach, load_missing-SwapReach, load-store_old, store_old-SwapReach,
  invalidate_page-SwapReach,
}
use pim_swap.Tests.Programs.{copier, copier-IsCodec}

abbrev places : Places
places = record {
  in_buffer = 65536;
  out_buffer = 131072;
  invalidate_id = 200000;
  invalidate_id_dummy = 200008;
}

placed : IsPlaced places
placed = record {
  in_there = omega arith;
  out_there = omega arith;
  id_there = omega arith;
  dummy_there = omega arith;
  buffers_apart = inl (omega arith);
  words_apart = inl (omega arith);
  id_out = inr (omega arith);
  dummy_out = inr (omega arith);
  id_in = inr (omega arith);
  dummy_in = inr (omega arith);
}

-- A kernel with 1 GB of RAM.
abbrev kernel : KernelMemory
kernel = record { totalram = 2 ^ 18; vmalloc_mram = λ i. 4096 + i; vmalloc_wram = λ i. 9000 + i }

enough_memory : HasMemory kernel
enough_memory = record {
  enough = omega arith;
  mram = λ j hi. omega arith;
  wram = λ j hi. omega arith;
}

abbrev counts : Statistics
counts = record {
  num_allocs = 0;
  num_frees = 0;
  current_pages = 0;
  current_blocks_allocated = 0;
  current_bytes_used = 0;
  uncompressable = 0;
}

abbrev no_dpu : Dpu
no_dpu = record { mram = blank; wram = 0; current_tasklet = 0; wram_heap = 0; flags = 0 }

abbrev loaded_module : Swap
loaded_module = record {
  dpus = record { rank_id = 0; start = 0; last = 0 };
  out_buffer_bmp = 0;
  machine = record {
    allocated = 0;
    current_dpu = 0;
    dpus = λ i. no_dpu;
    mains = λ i. none;
    push_data = λ i. 0;
    host = blank;
    stats = counts;
    uncompressable = 0;
  };
}

static : IsStatic places loaded_module
static = record {
  unallocated = refl;
  no_buffer = λ j. refl;
  empty_bmp = refl;
  octets = λ x. omega arith;
  in_zero = λ x lo hi. refl;
  out_zero = λ x lo hi. refl;
}

begun :
    (s' : Swap) × (init_pim_swap kernel none loaded_module ≡ (started, s'))
    × (IsSystem copier places first_view s' × ((j : ℕ) → j < 4 → (s'.machine.dpus j).mram ≡ blank))
begun = start-IsSystem copier places kernel loaded_module enough_memory static

start-IsSystem_example :
    (s' : Swap) × (init_pim_swap kernel none loaded_module ≡ (started, s'))
    × (IsSystem copier places first_view s' × ((j : ℕ) → j < 4 → (s'.machine.dpus j).mram ≡ blank))
start-IsSystem_example = start-IsSystem copier places kernel loaded_module enough_memory static

at_start : SwapReach copier places first_view begun.0
at_start = start kernel loaded_module begun.0 enough_memory static begun.1

at_20 : IsFirst 20
unfolding rank_index_from_offset dpu_index_from_offset
at_20 = (refl, refl)

at_24 : IsFirst 24
unfolding rank_index_from_offset dpu_index_from_offset
at_24 = (refl, refl)

id_20 : id_from_offset 20 ≡ 5
unfolding id_from_offset
id_20 = refl

id_24 : id_from_offset 24 ≡ 6
unfolding id_from_offset
id_24 = refl

abbrev sevens : List ℕ
sevens = mram_read (λ x. 7) 0 page_size

abbrev eights : List ℕ
eights = mram_read (λ x. 8) 0 page_size

sevens-IsPage : IsPage sevens
sevens-IsPage = (
  length-mram_read (λ x. 7) 0 page_size,
  AreBytes-mram_read (λ x. 7) 0 page_size (λ x. omega arith),
)

eights-IsPage : IsPage eights
eights-IsPage = (
  length-mram_read (λ x. 8) 0 page_size,
  AreBytes-mram_read (λ x. 8) 0 page_size (λ x. omega arith),
)

-- The first page waits.
abbrev waiting_view : View
waiting_view = buffered_view (id_from_offset 20) sevens no_pages first_view

waits :
    (s' : Swap) × (frontswap_store_old copier places false 20 sevens begun.0 ≡ some (done, s'))
    × (IsSystem copier places waiting_view s' × (s'.machine.dpus ≡ begun.0.machine.dpus))
waits =
    stored_first copier copier-IsCodec places placed 20 sevens at_20.0 at_20.1 sevens-IsPage.0
      sevens-IsPage.1 first_view begun.0 begun.2.0 refl

at_waiting : SwapReach copier places waiting_view waits.0
at_waiting = next at_start (store 20 sevens waits.0 at_20 sevens-IsPage refl waits.1)

-- The MRAM of DPU 0 is still zero.
first_mram : (waits.0.machine.dpus 0).mram ≡ blank
first_mram = ap (λ (d : ℕ → Dpu). (d 0).mram) waits.2.1 ∙ begun.2.1 0 (omega arith)

first-IsBlank : IsBlank (waits.0.machine.dpus 0).mram
first-IsBlank x lo hi = ap (λ m. m x) first_mram

searchable : IsSearchable (waits.0.machine.dpus 0).mram
searchable = blank-IsSearchable ((waits.0.machine.dpus 0).mram) first-IsBlank

room : IsFull copier sevens (waits.0.machine.dpus 0).mram → ⊥
room full =
    let (some_byte, whole, _) = pack_bounds copier copier-IsCodec sevens sevens-IsPage.0 in
    let few = num_blocks_bounds ((pack_page copier sevens).compressed_length) some_byte whole in
    blank-HasRoom ((waits.0.machine.dpus 0).mram) first-IsBlank _ (omega (arith, few))
      (full 0 (omega arith))

-- It is on DPU 0 when the second page waits.
abbrev one_page : PageMap
one_page = put (id_from_offset 20) sevens no_pages

abbrev stored_view : View
stored_view = buffered_view (id_from_offset 24) eights one_page waiting_view

stores :
    (s' : Swap) × (frontswap_store_old copier places false 24 eights waits.0 ≡ some (done, s'))
    × (IsSystem copier places stored_view s'
        ⊎ (IsFull copier sevens (waits.0.machine.dpus 0).mram
            × IsSystem copier places
                (buffered_view (id_from_offset 24) eights no_pages waiting_view)
                s'))
stores =
    stored_over copier copier-IsCodec places placed 24 eights at_24.0 at_24.1 eights-IsPage.0
      eights-IsPage.1 waiting_view (id_from_offset 20) sevens waits.0 waits.2.0 refl (λ i e. refl)
      searchable

at_stored : SwapReach copier places stored_view stores.0
at_stored = next at_waiting (
    store_over 24 eights (id_from_offset 20) sevens stores.0 at_24 eights-IsPage refl (λ i e. refl)
      searchable room stores.1)

not_cached : 0 ≢ id_from_offset 20
not_cached e = absurd (omega (arith, e, id_20))

not_waiting : (l : List ℕ) → stored_view.waiting ≢ some (id_from_offset 20, l)
not_waiting l e =
    absurd (omega (arith, id_20, id_24, ap (λ (p : ℕ × List ℕ). p.0) (some-injective _ _ e)))

SwapReach-IsSystem_example : IsSystem copier places stored_view stores.0
SwapReach-IsSystem_example =
    SwapReach-IsSystem copier places stored_view stores.0 copier-IsCodec placed at_stored

load-SwapReach_example :
    (s' : Swap) × (frontswap_load copier places 20 stores.0 ≡ some (done, some sevens, s'))
    × IsSystem copier places (cached_view (id_from_offset 20) sevens stored_view) s'
load-SwapReach_example =
    load-SwapReach copier places 20 sevens stored_view stores.0 copier-IsCodec placed at_stored
      at_20 not_cached (put_self (id_from_offset 20) sevens no_pages)

load_missing-SwapReach_example :
    (s' : Swap) × (frontswap_load copier places 20 begun.0
      ≡ some (done, some (mram_read (begun.0.machine.dpus 0).mram trans_page page_size), s'))
load_missing-SwapReach_example =
    load_missing-SwapReach copier places 20 first_view begun.0 copier-IsCodec placed at_start at_20
      not_cached (λ i e. refl)

load-store_old_example :
    (s1 : Swap) × (s2 : Swap) × (frontswap_store_old copier places false 24 eights waits.0
      ≡ some (done, s1))
    × (frontswap_load copier places 20 s1 ≡ some (done, some sevens, s2))
load-store_old_example =
    load-store_old copier places 20 24 sevens eights waiting_view waits.0 copier-IsCodec placed
      at_waiting at_20 at_24 eights-IsPage refl not_cached (λ i e. refl) searchable room

store_old-SwapReach_example :
    (s' : Swap) × (frontswap_store_old copier places false 24 eights waits.0 ≡ some (done, s'))
    × (IsSystem copier places stored_view s'
        ⊎ (IsFull copier sevens (waits.0.machine.dpus 0).mram
            × IsSystem copier places
                (buffered_view (id_from_offset 24) eights no_pages waiting_view)
                s'))
store_old-SwapReach_example =
    store_old-SwapReach copier places 24 (id_from_offset 20) eights sevens waiting_view waits.0
      copier-IsCodec placed at_waiting at_24 eights-IsPage refl (λ i e. refl) searchable

invalidate_page-SwapReach_example :
    (s' : Swap) × (frontswap_invalidate_page copier places 20 stores.0 ≡ some s')
    × IsSystem copier places (with_pages (remove (id_from_offset 20) one_page) stored_view) s'
invalidate_page-SwapReach_example =
    invalidate_page-SwapReach copier places 20 sevens stored_view stores.0 copier-IsCodec placed
      at_stored at_20 not_waiting (put_self (id_from_offset 20) sevens no_pages)
