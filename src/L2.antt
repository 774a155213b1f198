-- ===== src/L2.antt =====
-- The second level of the allocation table in module/alloc_static.c: find_free_blocks_l2 and
-- free_blocks_l2, on the 64 bytes of one section.

pub mod Bitmap
pub mod Search
pub mod Section
pub mod Mark
pub mod Outcome
pub mod Find
pub mod Free
use pim_swap.Base.{
  ℕ, zero, suc, ◌+◌, ◌-◌, Bool, true, false, Option, none, some, List, u8, uint_max, ◌==◌, leb,
  if◌then◌else◌, not, get_or, set, bit_set, or_bit, clear_bit,
}
use pim_swap.Mram.{Mram, mram_read, mram_write}
use pim_swap.Layout.{
  entries_per_section, section_addr, make_block_from_l2, l2_section_from_block, l2_entry_from_block,
  l2_bit_from_block,
}

-- The variables of the search: `first_block` is `none` until it is first assigned.
pub record Scan : Type 0 where
  pub found : ℕ
  pub first_block : Option ℕ

-- One free bit is seen: the body under `if (!(l2_entries[l2_entry] & (1 << bit)))`.
pub see_free : ℕ → Scan → Scan
see_free block s = record {
  found = u8 (s.found + 1);
  first_block = if s.found == 0 then some block else s.first_block;
}

module _ (num_blocks section : ℕ) where
  -- The inner loop from `bit` on, with `left` rounds left; it returns the value of `bit` at its
  -- end.
  pub scan_bits : ℕ → ℕ → ℕ → ℕ → Scan → Scan × ℕ
  scan_bits zero byte l2_entry bit s = (s, bit)
  scan_bits (suc left) byte l2_entry bit s =
      let s' = see_free (make_block_from_l2 section l2_entry bit) s in
      let on = scan_bits left byte l2_entry (bit + 1) s' in
      let reset = scan_bits left byte l2_entry (bit + 1) (record s { found = 0 }) in
      if not (bit_set byte bit) then (if s'.found == num_blocks then (s', bit) else on) else reset

  -- The outer loop from `l2_entry` on, with `left` rounds left. It returns the values of
  -- `l2_entry` and `bit` at its end. `bit` starts at 0 here, and is read only after a round has
  -- assigned it.
  pub scan_entries : ℕ → List ℕ → ℕ → ℕ → Scan → Scan × ℕ × ℕ
  scan_entries zero l l2_entry bit s = (s, l2_entry, bit)
  scan_entries (suc left) l l2_entry bit s =
      let byte = get_or l l2_entry 0 in
      let r = scan_bits 8 byte l2_entry 0 s in
      let skip = scan_entries left l (l2_entry + 1) bit s in
      let on = scan_entries left l (l2_entry + 1) (r.1) (r.0) in
      if byte == 0xff
      then skip
      else (if (r.0).found == num_blocks then (r.0, l2_entry, r.1) else on)

-- `while (found--)`: marks `found` bits backwards from (l2_entry, bit). The flag is check_l2.
pub mark_back : ℕ → ℕ → ℕ → List ℕ → Bool → List ℕ × Bool
mark_back zero l2_entry bit l check = (l, check)
mark_back (suc found) l2_entry bit l check =
    let byte = or_bit (get_or l l2_entry 0) bit in
    mark_back found (if bit == 0 then u8 (l2_entry + 255) else l2_entry)
      (if bit == 0 then 7 else bit - 1) (set l l2_entry byte) (if byte == 0xff then true else check)

-- The loop over the section that decides whether every entry is 0xFF.
pub all_full : ℕ → List ℕ → ℕ → Bool
all_full zero l l2_entry = true
all_full (suc left) l l2_entry =
    let rest = all_full left l (l2_entry + 1) in if get_or l l2_entry 0 == 0xff then rest else false

-- What find_free_blocks_l2 returns and leaves: `first_block` is UINT_MAX when the search failed,
-- and `none` where the C code returns a variable that it never assigned.
pub record Found : Type 0 where
  pub first_block : Option ℕ
  pub update_l1 : Bool
  pub mram : Mram

unfoldable pub find_free_blocks_l2 : ℕ → ℕ → Bool → Mram → Found
find_free_blocks_l2 section num_blocks update_l1 m =
    let l = mram_read m (section_addr section) entries_per_section in
    let (s, l2_entry, bit) =
      scan_entries num_blocks section 64 l 0 0 (record { found = 0; first_block = none }) in
    let (marked, check_l2) = mark_back s.found l2_entry bit l false in
    if not (s.found == num_blocks)
    then record { first_block = some uint_max; update_l1 = update_l1; mram = m }
    else record {
      first_block = s.first_block;
      update_l1 = (if check_l2 then all_full 64 marked 0 else false);
      mram = mram_write marked (section_addr section) m;
    }

-- The loop of free_blocks_l2 over the `left` blocks still to free. It stops with an error message
-- at the end of the section.
pub clear_run : ℕ → ℕ → ℕ → List ℕ → List ℕ
clear_run zero l2_entry bit l = l
clear_run (suc left) l2_entry bit l =
    let l' = set l l2_entry (clear_bit (get_or l l2_entry 0) bit) in
    let next =
      clear_run left (if leb 8 (bit + 1) then l2_entry + 1 else l2_entry)
        (if leb 8 (bit + 1) then 0 else bit + 1) l' in
    if leb entries_per_section l2_entry then l else next

unfoldable pub free_blocks_l2 : ℕ → ℕ → Mram → Mram
free_blocks_l2 first_block num_blocks m =
    let section = l2_section_from_block first_block in
    let l = mram_read m (section_addr section) entries_per_section in
    mram_write
      (clear_run num_blocks (l2_entry_from_block first_block) (l2_bit_from_block first_block) l)
      (section_addr section) m
