-- ===== src/Direction/Tests.antt =====
-- Tests of the direction of an io_u, and its theorems at concrete inputs.
use fio_ssd.Prelude.{arith, ◌+◌, ◌≡◌, refl, inl, true, false}
use fio_ssd.Prelude.Int.{pos, ◌-ℤ◌}
use fio_ssd.Offset.{ddir_read, ddir_write}
use fio_ssd.Direction.{
  Job, Td, Action, ddir_sync, set_rwmix_bytes, get_rand_ddir, rate_sleep, rate_ddir, should_fsync,
  sync_due, mix_ddir, get_rw_ddir,
}
use fio_ssd.Direction.Due.{Right, get_rw_ddir-Right}
use fio_ssd.Direction.Rate.{Settled, rate_ddir-Settled}

-- A mixed job, half of it reads, with a sync after each four writes.
abbrev job : Job
job = record {
  td_read = true;
  td_write = true;
  rwmix = λ d. 50;
  rated = λ d. true;
  fsync_blocks = 4;
  fdatasync_blocks = 0;
  sync_file_range_nr = 0;
  last_was_sync = false;
  odirect = false;
  override_sync = false;
  io_u_in_flight = 0;
}

-- Five io_us each way, and both directions with sleep pending.
abbrev td : Td
td = record {
  io_issues = λ d. 5;
  rwmix_issues = 3;
  rwmix_ddir = ddir_write;
  rate_pending_usleep = λ d. pos 150000;
}

-- The draw says read, the rate limit sleeps, and leaves both directions with nothing pending.
draws_read : (get_rw_ddir (λ t. t) (λ n. n) job 20 td).1 ≡ Action.rw ddir_read
unfolding get_rw_ddir mix_ddir rate_ddir rate_sleep set_rwmix_bytes get_rand_ddir sync_due
    should_fsync ◌-ℤ◌
draws_read = refl

syncs : (get_rw_ddir (λ t. t) (λ n. n) job 20 (record td { io_issues = λ d. 8 })).1 ≡ ddir_sync
unfolding get_rw_ddir mix_ddir rate_ddir rate_sleep set_rwmix_bytes get_rand_ddir sync_due
    should_fsync ◌-ℤ◌
syncs = refl

get_rw_ddir-Right_example : Right job td ((get_rw_ddir (λ t. t) (λ n. n) job 20 td).1)
get_rw_ddir-Right_example = get_rw_ddir-Right (λ t. t) (λ n. n) job 20 td (inl refl)

rate_ddir-Settled_example :
    Settled
      ((rate_ddir (λ t. t) (λ n. n + 1) job td ddir_read).0)
      ((rate_ddir (λ t. t) (λ n. n + 1) job td ddir_read).1)
rate_ddir-Settled_example =
    rate_ddir-Settled (λ t. t) (λ n. n + 1) job td ddir_read (λ n. omega arith) refl
