-- ===== src/Buflen/Tests.antt =====
-- Tests of the length of an io_u, and its theorem at a concrete input.
use fio_ssd.Prelude.{arith, ℕ, ◌-◌, ◌%◌, ◌^◌, ◌≤◌, ◌≡◌, refl, inl, inr, [], ◌∷◌, some, true, false}
use fio_ssd.Bits.{complement}
use fio_ssd.Buflen.{
  Sizes, is_power_of_2, io_u_fits, pick_split, draw_size, align_up, round_size, buflen_loop,
  get_next_buflen,
}
use fio_ssd.Buflen.Fits.{IsPlaced, Whole, get_next_buflen-Whole}

-- A place 6000 bytes before the end of its region; a draw is the scaled number itself, up to 16383.
abbrev sizes : Sizes
sizes = record {
  min_bs = 1024;
  max_bs = 16384;
  bssplit = [];
  bs_unaligned = false;
  start_offset = 4096;
  io_size = 65536;
  offset = 63632;
  rand_max = 2 ^ 32 - 1;
  scale = λ r. r % 16384;
}

-- 9001 bytes are too many; 3001 are made 3072.
second_draw : get_next_buflen sizes (9000 ∷ 3000 ∷ 10 ∷ []) ≡ some 3072
unfolding get_next_buflen buflen_loop io_u_fits round_size align_up is_power_of_2 draw_size
    complement
second_draw = refl

-- Half of the io_us have 4096 bytes, the others 8192, which do not fit here.
split_fits :
    get_next_buflen (record sizes { bssplit = (4096, 50) ∷ (8192, 50) ∷ [] }) (5 ∷ []) ≡ some 4096
unfolding get_next_buflen buflen_loop io_u_fits round_size align_up is_power_of_2 draw_size
    pick_split complement
split_fits = refl

-- Also with bs_unaligned the size is cut to a multiple of the smallest one.
unaligned_cut :
    get_next_buflen (record sizes { bs_unaligned = true }) (9000 ∷ 3000 ∷ 10 ∷ []) ≡ some 2048
unfolding get_next_buflen buflen_loop io_u_fits round_size align_up is_power_of_2 draw_size
    complement
unaligned_cut = refl

sizes-IsPlaced : IsPlaced sizes
sizes-IsPlaced = record {
  min_pos = omega arith;
  min_small = omega arith;
  end_small = omega arith;
  offset_small = omega arith;
}

get_next_buflen-Whole_example :
    (b : ℕ) × (get_next_buflen sizes (9000 ∷ 3000 ∷ 10 ∷ []) ≡ some b) × (1024 ≤ b) × Whole sizes b
get_next_buflen-Whole_example =
    get_next_buflen-Whole sizes sizes-IsPlaced refl (λ r. omega arith) (9000 ∷ 3000 ∷ 10 ∷ [])
      (inr (inr (inl (omega arith)))) (omega arith) (omega arith)
