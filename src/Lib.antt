-- ===== src/Lib.antt =====
-- PIM-swap keeps compressed swap pages in the memory of processing-in-memory units (DPUs). This
-- library models the kernel module under module/ and proves what its parts do.
--
-- The program. The host (module/swap.c) batches pages into descriptors of a page, an id and a
-- status, sends them to a DPU's transfer page, and launches one of three programs there: compress
-- and store a page, look up and decompress a page, invalidate a page. The programs use the
-- allocator of module/alloc_static.c: a two-level bitmap of 64-byte blocks and a hash table from
-- ids to blocks, both kept as bytes in the directory area of the DPU's MRAM. The DPU interface is
-- a simulation inside the module (module/dpu.c), with the MRAM as memory of the host.
--
-- The files.
--   Base, Base/*        C words and their wrap-around, lists as C arrays, single bits of a byte,
--                       bit fields and exclusive or.
--   Mram                module/mram.h: mram_read and mram_write. An MRAM is a function from
--                       addresses to bytes, and an address is an offset from its start.
--   Layout, Layout/*    the constants and macros of module/alloc_static.h, module/common.h and
--                       module/dpu.h.
--   Hash, Hash/*        pimswap_insert_index_hash and pimswap_lookup_index_hash, on the eight bytes
--                       of struct pim_hash_entry.
--   L2, L2/*            find_free_blocks_l2 and free_blocks_l2. L2/Bitmap reads the bytes of level
--                       2 as a set of used blocks; the search, the marking and the freeing are
--                       compared with that set.
--   Page, Page/*        pimswap_alloc_page_static and pimswap_free_page_static with the level 1
--                       table and the statistics.
--   Program, Program/*  dpu_invalidate_main, lzo_decompress_main, lzo_compress_main and mem_alloc.
--                       Written says what a store leaves, Store and Load prove it, Below and Full
--                       treat the runs that change no table and those on a full first part.
--   PageMap, PageMap/*  what a DPU promises: a map from identifiers to pages. Holds relates an MRAM
--                       to a map, Effect says what a program does to it, Run has the steps of a
--                       DPU beside those of the map, Fill the runs without an invalidation.
--   Host, Host/*        the simulated DPU interface: dpu_alloc, the transfers, dpu_load, dpu_launch.
--                       Batch, Launch and Allocate treat all DPUs of a set, Transfer a single one.
--   Swap, Swap/*        pimswap_frontswap_store_old, pimswap_frontswap_load and
--                       pimswap_frontswap_invalidate_page. System says which view a state stands
--                       for; Prepare has the loops over the DPUs, Deliver a message with the runs
--                       that answer it, Gather the way back; Send and Store, Fetch and Load,
--                       Forget and Drop the message of an operation and the operation; Start
--                       init_pim_swap and exit_pim_swap; Run any sequence of operations, and
--                       Answers what they return then; Stale a page in both buffers.
--   Snappy, Snappy/*    module/snappy_compress.c. Snappy and Elements have the bytes of emit_copy and
--                       emit_literal, which Format reads back; Reader and Mirror the input with
--                       module/seqread.c; Output, Append, Write and Length the output buffer; Emit,
--                       Emitted, Literal and Copy the element writers on both; Match, Matched
--                       and Prefix the length of a match; Block, Scan and Endless compress_block
--                       and dpu_compress; Task module/snappy_task.c.
--   Tests, Tests/*      the theorems at concrete inputs.
--
-- The model. State is passed explicitly: an operation takes the memory, the statistics or the
-- machine and returns them changed. Loops recurse on the number of rounds that their bounds leave
-- (8 bits, 64 entries, 240 entries, the size of a DPU set, the length over 64 in emit_copy, the 4
-- bytes of a length in emit_literal, the bytes to write in the output loops), so no fuel runs out.
-- The loops of compress_block have the length of the block as fuel, as each round moves on by at
-- least a byte; dpu_compress takes its fuel as an argument. A variable that the C code reads
-- before assigning it is the option `none`, and a function that depends on it returns `none`. A
-- NULL pointer is 0. Integers of a fixed width are natural numbers with the wrap-around written
-- out. The kernel's compressor is a parameter (Crypto) with the contract Program.Pack.IsCodec; the
-- free RAM and vmalloc are the parameter KernelMemory. The contract includes that the compressor
-- keeps to the room that it is given, which a compressor that ignores the length of its output
-- buffer does not on pages that do not compress. An MRAM has no end at 64 MB: a write past it, which
-- the last storage block allows (Layout.Blocks), is an ordinary write.
--
-- Two conditions on the directory recur. IsDirectory: bytes, and level 1 marks exactly the sections
-- whose blocks are all used. IsSearchable: the first level 1 entry is not 0xFF, and in each section
-- the block before an entry that is 0xFF is used; without it the search of the C code is undefined,
-- or may count a run across a full entry.
--
-- A run of a DPU is a sequence of steps (PageMap.Run.Step): the host writes the transfer page, or
-- one of the three programs runs. A page is stored under an identifier whose index entry no page of
-- the map has, as the index of the C code overwrites nothing. An invalidation takes out the page
-- that the index finds for the identifier: the entry and the 16-bit tag can be those of a page under
-- another identifier (PageMap.IsAlias), which is then the one that goes; where the tags differ
-- (PageMap.IsCollision), or no page has the entry, nothing changes. Reach has the states that such
-- steps lead to from the zeroed MRAM of dpu_alloc.
--
-- The whole module: a view has the page that waits in the out buffer, the page in the in buffer, and
-- the pages of DPU 0, as the operations refuse every other DPU. A sequence of operations
-- (Swap.Run.SwapReach) starts with init_pim_swap, with enough memory, on static variables that are
-- zero; a step (Swap.Run.SwapStep) is a call for rank 0 and DPU 0 that returned, beside what it does
-- to the view. The steps are loads, invalidations, stores of whole pages into the empty slot, and
-- stores over a page that waits, as long as its index entry is free and DPU 0 is searchable and has
-- room for it: where DPU 0 is full, the store stands by itself, in Swap.Answers. "Any sequence of
-- operations" below means these steps. The buffers in the host's memory are at addresses that do
-- not overlap (Swap.System.IsPlaced).
--
-- The snappy compressor reads its input through a cache in WRAM and writes its output through a
-- window. Mirrors says that the cache holds the pages of MRAM from the position of the reader on,
-- Appends that an output has more bytes than before, and Emits that both hold for a step of the
-- compressor. The C code takes a pointer into the cache in two ways, as an address and as an offset
-- in WRAM, which agree where the WRAM is at address 0, as on the DPU that it was written for.
--
-- Not modelled. What compress_block writes is not compared with a reader of the whole format.
-- pimswap_frontswap_store_kernel, which does not compile. The B-tree directory, which is not
-- compiled. The registration of the operations with the kernel, printing, and the kernel's page
-- mapping.
pub mod Base
pub mod Mram
pub mod Layout
pub mod Hash
pub mod L2
pub mod Page
pub mod Program
pub mod Host
pub mod Swap
pub mod Snappy
pub mod PageMap
mod Tests
