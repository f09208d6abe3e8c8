-- ===== src/RandMap/Tests.antt =====
-- Tests of the random map, and its theorems at concrete inputs.
use fio_ssd.Prelude.{ℕ, ◌*◌, ◌^◌, ◌≡◌, refl, arith, List, [], ◌∷◌, Bool, true, false, some, ◌↔◌}
use fio_ssd.FioFile.{File, minus_one}
use fio_ssd.RandMap.{
  IoU, mark_random_map, mark_bit_map, shrink, run_mask, random_map_free, first_block, block_count,
}
use fio_ssd.RandMap.Word.{FreeRun}
use fio_ssd.RandMap.Mark.{Marks}
use fio_ssd.RandMap.Cut.{InMap, CutTo, mark_random_map-CutTo}
use fio_ssd.RandMap.Again.{mark_bit_map-Noted}
use fio_ssd.Bits.{ones_at}

-- Two words, with block 66 set.
abbrev file : File
file = record {
  real_file_size = 65536;
  file_offset = 0;
  io_size = 65536;
  last_pos = 0;
  last_start = minus_one;
  file_pos = minus_one;
  file_map = 0 ∷ 4 ∷ [];
  file_map2 = [];
  num_maps = 2;
  last_free_lookup = 0;
  failed_rands = 0;
}

-- Six blocks of 512 bytes from block 62 on.
abbrev io : IoU
io = record { offset = 31744; buflen = 3072; busy_ok = false; randomagain = false }

-- The io_u is cut before block 66, across the end of a word.
cut_before_set :
    mark_random_map 512 1 file io
    ≡ some (record file { file_map = 3 * 2 ^ 62 ∷ 7 ∷ [] }, record io { buflen = 2048 })
unfolding mark_random_map shrink run_mask random_map_free ones_at
cut_before_set = refl

again_noted :
    mark_bit_map 512 file io
    ≡ some (record file { file_map = 3 * 2 ^ 62 ∷ 15 ∷ [] }, record io { randomagain = true })
unfolding mark_bit_map run_mask ones_at
again_noted = refl

io-InMap : InMap 512 file io
io-InMap = omega arith

mark_random_map-CutTo_example : CutTo 512 file io (mark_random_map 512 1 file io)
mark_random_map-CutTo_example = mark_random_map-CutTo 512 1 file io refl io-InMap

mark_bit_map-Noted_example :
    (m' : List ℕ) × (again' : Bool) × (mark_bit_map 512 file io
      ≡ some (record file { file_map = m' }, record io { randomagain = again' }))
    × Marks (0 ∷ 4 ∷ []) (first_block 512 file io) (block_count 512 io) m'
    × ((again' ≡ false) ↔ (
        (io.randomagain ≡ false)
        × FreeRun (0 ∷ 4 ∷ []) (first_block 512 file io) (block_count 512 io)))
mark_bit_map-Noted_example = mark_bit_map-Noted 512 file io refl io-InMap
