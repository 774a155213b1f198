-- ===== src/PageMap/Lookup.antt =====
-- lzo_decompress_main looks a page of the map up, and changes nothing above the transfer page.
use pim_swap.Base.{ℕ, ◌≡◌, ◌≢◌, ap, true, false, some, List, arith}
use pim_swap.Mram.{mram_read}
use pim_swap.Layout.{page_size, trans_page, block_addr}
use pim_swap.Hash.Laws.{lookup_free}
use pim_swap.Program.{Crypto, Context, read_id, lzo_decompress_main}
use pim_swap.Program.Load.{decompress_found, decompress-missing}
use pim_swap.PageMap.{PageMap, IsUnclaimed}
use pim_swap.PageMap.Holds.{Holds, unclaimed_free}

-- On an MRAM that holds a map with a page for the requested identifier, lzo_decompress_main returns
-- 0 and leaves that page in the transfer page.
pub decompress-present :
    (crypto : Crypto) (pages : PageMap) (page : List ℕ) (c : Context)
    → Holds crypto pages c.dpu.mram
    → c.dpu.wram ≢ 0
    → pages (read_id c.dpu.mram) ≡ some page
    → ((lzo_decompress_main crypto c).succeeded ≡ true)
      × (mram_read (lzo_decompress_main crypto c).context.dpu.mram trans_page page_size ≡ page)
decompress-present crypto pages page c h hw live =
    let k = h.kept (read_id c.dpu.mram) page live in
    let p = h.place (read_id c.dpu.mram) in
    decompress_found crypto (block_addr p.block) p.len page c hw k.indexed (not_null p.block)
      k.unpacks k.whole
  where
    not_null : (b : ℕ) → block_addr b ≢ 0
    not_null b e = absurd (unfold block_addr in omega arith)

-- Where no page of the map has the index entry of the requested identifier, lzo_decompress_main
-- returns -1 and leaves the whole state as it was.
pub decompress-absent :
    (crypto : Crypto) (pages : PageMap) (c : Context)
    → Holds crypto pages c.dpu.mram
    → IsUnclaimed (read_id c.dpu.mram) pages
    → lzo_decompress_main crypto c ≡ record { context = c; succeeded = false }
decompress-absent crypto pages c h free = decompress-missing crypto c (
    ap (λ (p : ℕ × ℕ). p.0)
      (lookup_free (read_id c.dpu.mram) c.dpu.mram
        (unclaimed_free crypto pages c.dpu.mram h (read_id c.dpu.mram) free)))
