-- ===== src/Fill/Tests.antt =====
-- Tests of fill_io_u, and its theorem at a concrete input.
use fio_ssd.Prelude.{arith, ℕ, ◌+◌, ◌%◌, ◌^◌, ◌≤◌, min, ◌≡◌, refl, [], ◌∷◌, true, false, some}
use fio_ssd.Prelude.Int.{pos}
use fio_ssd.FioFile.{minus_one}
use fio_ssd.Offset.{ddir_read, rw_seq_seq, Rand}
use fio_ssd.Offset.Next.{
  get_next_seq_offset, set_offset, get_next_block, count_seq, get_next_offset,
}
use fio_ssd.Buflen.{
  is_power_of_2, io_u_fits, draw_size, align_up, round_size, buflen_loop, get_next_buflen,
}
use fio_ssd.Bits.{complement}
use fio_ssd.Direction.{Action, rate_sleep, rate_ddir, should_fsync, sync_due, mix_ddir, get_rw_ddir}
use fio_ssd.Fill.{
  FillOptions, Filling, set_rw_ddir, fill_marked, fill_sized, fill_transfer, fill_io_u,
}
use fio_ssd.Fill.Place.{Placed, fill_io_u-Placed}

-- Numbers drawn in order, cut to the range.
scale_min-le : (n r : ℕ) → n ≤ 2 ^ 53 → min n r ≤ n
scale_min-le n r h = omega arith

abbrev counter : Rand
counter = record {
  State = ℕ;
  next = λ s. (s, s + 1);
  scale = λ n r. min n r;
  scale-le = scale_min-le;
}

-- A sequential job without zones, with blocks of 1024 to 4096 bytes.
abbrev options : FillOptions
options = record {
  options = record {
    rw_min_bs = 1024;
    ba_read = 1024;
    ba_write = 1024;
    zone_range = 0;
    ddir_seq_nr = 1;
    ddir_seq_add = 0;
    rw_seq = rw_seq_seq;
    time_based = false;
    norandommap = true;
    randomagain = false;
    td_random = false;
  };
  job = record {
    td_read = true;
    td_write = false;
    rwmix = λ d. 50;
    rated = λ d. false;
    fsync_blocks = 0;
    fdatasync_blocks = 0;
    sync_file_range_nr = 0;
    last_was_sync = false;
    odirect = false;
    override_sync = false;
    io_u_in_flight = 0;
  };
  sizes = λ d. record {
    min_bs = 1024;
    max_bs = 4096;
    bssplit = [];
    bs_unaligned = false;
    start_offset = 8192;
    io_size = 65536;
    offset = 0;
    rand_max = 4294967295;
    scale = λ r. r % 4096;
  };
  noio = false;
  barriers = false;
  barrier_blocks = 0;
  zone_size = 0;
  zone_skip = 0;
  zone_range = 0;
}

-- The region of the file is from 8192 to 73728, and the job is at 12288.
abbrev before : Filling counter true (λ t. t) (λ n. n) options
before = record {
  td = record {
    io_issues = λ d. 5;
    rwmix_issues = 3;
    rwmix_ddir = ddir_read;
    rate_pending_usleep = λ d. pos 0;
  };
  rand = 0;
  ddir_seq_nr = 1;
  zone_bytes = 0;
  io_skip_bytes = 0;
  file = record {
    real_file_size = 131072;
    file_offset = 8192;
    io_size = 65536;
    last_pos = 12288;
    last_start = minus_one;
    file_pos = minus_one;
    file_map = [];
    file_map2 = [];
    num_maps = 0;
    last_free_lookup = 0;
    failed_rands = 0;
  };
  io = record { offset = 0; buflen = 0; busy_ok = false; randomagain = false };
  action = Action.rw ddir_read;
  barrier = false;
}

abbrev after : Filling counter true (λ t. t) (λ n. n) options
after = record before {
  zone_bytes = 2048;
  io = record { offset = 12288; buflen = 2048; busy_ok = false; randomagain = true };
}

filled :
    fill_io_u counter true (λ t. t) (λ n. n) options 20 (2000 ∷ []) before ≡ some (after, false)
unfolding fill_io_u set_rw_ddir get_rw_ddir mix_ddir rate_ddir rate_sleep sync_due should_fsync
    fill_transfer fill_sized fill_marked get_next_offset count_seq get_next_block
    get_next_seq_offset set_offset get_next_buflen buflen_loop io_u_fits round_size align_up
    is_power_of_2 draw_size complement
filled = refl

reads : (set_rw_ddir counter true (λ t. t) (λ n. n) options 20 before).action ≡ Action.rw ddir_read
unfolding set_rw_ddir get_rw_ddir mix_ddir rate_ddir rate_sleep sync_due should_fsync
reads = refl

fill_io_u-Placed_example : Placed counter true (λ t. t) (λ n. n) options after
fill_io_u-Placed_example =
    fill_io_u-Placed counter true (λ t. t) (λ n. n) options 20 (2000 ∷ []) ddir_read before after
      refl reads filled (omega arith)
