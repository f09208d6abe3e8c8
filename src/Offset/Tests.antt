-- ===== src/Offset/Tests.antt =====
-- Tests of block selection, and its theorems at concrete inputs.
use fio_ssd.Prelude.{
  ℕ, zero, suc, ◌+◌, ◌^◌, ◌≤◌, ◌<◌, min, ◌≡◌, refl, arith, [], ◌∷◌, true, false, some, ◌⊎◌, get_or,
}
use fio_ssd.FioFile.{File, minus_one}
use fio_ssd.RandMap.{IoU, random_map_free}
use fio_ssd.Bits.{ones_at}
use fio_ssd.Ffz.{ffz}
use fio_ssd.Offset.{
  Options, ddir_read, rw_seq_seq, Rand, last_block, free_scan, get_next_free_block, rand_loop,
  lookup_loop, exhaustive, get_next_rand_offset,
}
use fio_ssd.Offset.FreeBlock.{Covers}
use fio_ssd.Offset.Search.{Looked, get_next_free_block-Looked}
use fio_ssd.Offset.RandBlock.{
  KeepsMap, moved, IsFree, IsFull, Picks, Fails, get_next_rand_offset_lem,
}
use fio_ssd.Offset.Next.{get_next_offset}
use fio_ssd.Offset.Next.Laws.{placed, get_next_offset_random}

-- Numbers drawn in order, cut to the range.
scale_min-le : (n r : ℕ) → n ≤ 2 ^ 53 → min n r ≤ n
scale_min-le n r h = omega arith

abbrev counter : Rand
counter = record {
  State = ℕ;
  next = λ s. (s, s + 1);
  scale = λ n r. min n r;
  scale-le = scale_min-le;
}

-- Blocks 0 to 7 are set, of 128.
abbrev file : File
file = record {
  real_file_size = 65536;
  file_offset = 0;
  io_size = 65536;
  last_pos = 4096;
  last_start = minus_one;
  file_pos = minus_one;
  file_map = 255 ∷ 0 ∷ [];
  file_map2 = [];
  num_maps = 2;
  last_free_lookup = 0;
  failed_rands = 0;
}

abbrev options : Options
options = record {
  rw_min_bs = 512;
  ba_read = 512;
  ba_write = 512;
  zone_range = 0;
  ddir_seq_nr = 1;
  ddir_seq_add = 0;
  rw_seq = rw_seq_seq;
  time_based = false;
  norandommap = false;
  randomagain = false;
  td_random = true;
}

abbrev io : IoU
io = record { offset = 0; buflen = 512; busy_ok = false; randomagain = false }

-- Five draws hit set blocks; the search gives the first clear one.
search_after_draws :
    get_next_rand_offset counter options file ddir_read 0
    ≡ some (5, record file { last_free_lookup = 1; failed_rands = 1 }, some 64)
unfolding get_next_rand_offset rand_loop lookup_loop exhaustive get_next_free_block free_scan
    last_block random_map_free ffz ones_at
search_after_draws = refl

words_small : (i : ℕ) → get_or (255 ∷ 0 ∷ []) i 0 < 2 ^ 64
words_small zero = omega arith
words_small (suc zero) = omega arith
words_small (suc (suc i)) = omega arith

file-Covers : Covers 512 file
file-Covers = record {
  words = words_small;
  covered = omega arith;
  small = omega arith;
  min_bs-pos = omega arith;
  int_index = omega arith;
}

last_block_value : last_block options file ddir_read ≡ 128
unfolding last_block
last_block_value = refl

file-KeepsMap : KeepsMap options file ddir_read
unfolding last_block
file-KeepsMap = record {
  covers = file-Covers;
  some_block = omega arith;
  blocks_in_map = omega arith;
  exact = omega arith;
  num_maps-le = omega arith;
  lookup-le = omega arith;
  has_map = refl;
  uses_map = refl;
  no_repeat = refl;
}

get_next_free_block-Looked_example :
    Looked options file ddir_read (get_next_free_block options file ddir_read)
get_next_free_block-Looked_example =
    get_next_free_block-Looked options file ddir_read file-Covers (omega (arith, last_block_value))
      (omega arith)

get_next_rand_offset_lem_example :
    Picks counter options file ddir_read file-KeepsMap
      (get_next_rand_offset counter options file ddir_read 0)
    ⊎ (Fails counter options file ddir_read file-KeepsMap
          (get_next_rand_offset counter options file ddir_read 0)
        × IsFull options file ddir_read)
get_next_rand_offset_lem_example =
    get_next_rand_offset_lem counter options file ddir_read file-KeepsMap 0

get_next_offset_random_example :
    ((s' : ℕ) × (l k b : ℕ) × IsFree options file ddir_read b
      × (get_next_offset counter true options 1 file io ddir_read 0 ≡ (
          let (w, ret) = placed options file io ddir_read b in
          some (s', 1, moved file l k, w, ret))))
    ⊎ ((s' : ℕ) × (l k : ℕ) × IsFull options file ddir_read
        × (get_next_offset counter true options 1 file io ddir_read 0
            ≡ some (s', 1, moved file l k, io, true)))
get_next_offset_random_example =
    get_next_offset_random counter true options file io ddir_read 0 refl refl refl file-KeepsMap

abbrev in_sequence : Options
in_sequence = record options { td_random = false }
