-- ===== src/Tests/Full.antt =====
-- A store on a directory whose first eight sections are full.
use pim_swap.Base.{
  ℕ, ◌+◌, ◌*◌, ◌/◌, ◌%◌, ◌≤◌, ◌<◌, ◌≡◌, ◌∙◌, ap, true, none, arith, ltb, leb, ◌==◌, ◌&&◌, ◌||◌,
  if◌then◌else◌, bit_set, bit_set_of_full, bit_set-zero, dec_lt,
}
use pim_swap.Mram.{Mram, IsBytes, mram_read_ext}
use pim_swap.Layout.{id_offset, dir_level1, dir_level2}
use pim_swap.L2.Bitmap.{used}
use pim_swap.Page.Directory.{IsDirectory}
use pim_swap.Program.{page_valid, read_id, lzo_compress_main}
use pim_swap.Program.Word.{word_of_bytes, word-store}
use pim_swap.Program.Written.{IsRequest}
use pim_swap.Program.Full.{compress-undefined}
use pim_swap.Page.Blank.{blank}
use pim_swap.Tests.Programs.{copier, on_mram, request_mram, request-IsBytes, request_outside}

-- The first byte of level 1 and the first 512 of level 2 are 0xFF.
full_mram : Mram
full_mram x =
    if x == dir_level1 || (leb dir_level2 x && ltb x (dir_level2 + 512))
    then 0xff
    else request_mram x

full_below : (x : ℕ) → x < dir_level1 → full_mram x ≡ request_mram x
unfolding full_mram
full_below x h = ground arith

full_byte : (x : ℕ) → dir_level2 ≤ x → x < dir_level2 + 512 → full_mram x ≡ 0xff
unfolding full_mram
full_byte x lo hi = ground arith

full_first : full_mram dir_level1 ≡ 0xff
unfolding full_mram
full_first = ground arith

full_other : (x : ℕ) → dir_level1 < x → x < dir_level2 → full_mram x ≡ 0
unfolding full_mram
full_other x lo hi = ground (arith, request_outside x (omega arith))

full_rest : (x : ℕ) → dir_level2 + 512 ≤ x → full_mram x ≡ 0
unfolding full_mram
full_rest x h = ground (arith, request_outside x (omega arith))

full-IsBytes : IsBytes full_mram
unfolding full_mram
full-IsBytes x = ground (arith, request-IsBytes x)

full_used : (b : ℕ) → b < 4096 → used full_mram b ≡ true
full_used b h =
    bit_set_of_full (full_mram (dir_level2 + b / 8)) (b % 8)
      (full_byte (dir_level2 + b / 8) (omega arith) (omega arith)) (omega arith)

full-IsDirectory : IsDirectory full_mram
full-IsDirectory = record {
  bytes = full-IsBytes;
  exact = λ s hs. elim (dec_lt s 8) [
    | yes h ↦ (
      λ e j hj. full_used (s * 512 + j) (omega arith),
      λ all.
          bit_set_of_full (full_mram (dir_level1 + s / 8)) (s % 8)
            (ap full_mram (omega arith) ∙ full_first) (omega arith),
    )
    | no h ↦ (
      λ e. absurd (
          cc (
            e,
            ap (λ (v : ℕ). bit_set v (s % 8))
                (full_other (dir_level1 + s / 8) (omega arith) (omega arith)),
            bit_set-zero (s % 8) (omega arith),
          )),
      λ all. absurd (
          cc (
            all 0 (omega arith),
            ap (λ (v : ℕ). bit_set v ((s * 512 + 0) % 8))
                (full_rest (dir_level2 + (s * 512 + 0) / 8) (omega arith)),
            bit_set-zero ((s * 512 + 0) % 8) (omega arith),
          )),
    )
  ];
}

full-IsRequest : IsRequest 5 (on_mram full_mram)
unfolding read_id
full-IsRequest = record {
  has_wram = omega arith;
  id_range = omega arith;
  id_word =
      ap word_of_bytes
        (mram_read_ext full_mram request_mram id_offset 4 (λ x lo hi. full_below x (omega arith)))
      ∙ word-store (5 + page_valid) id_offset blank (omega arith);
}

compress-undefined_example : lzo_compress_main copier (on_mram full_mram) ≡ none
compress-undefined_example =
    compress-undefined copier 5 (on_mram full_mram) full-IsRequest full-IsDirectory full_used
