-- ===== src/Direction/Rate.antt =====
-- rate_ddir: no direction is given while it has much sleep pending.
use fio_ssd.Prelude.{arith, ℕ, ◌≤◌, ◌≡◌}
use fio_ssd.Prelude.Int.{pos, ◌-ℤ◌, ◌≤ℤ◌, pos_part}
use fio_ssd.Offset.{Ddir, ddir_read, ddir_write}
use fio_ssd.Direction.{Job, Td, rate_sleep, rate_ddir}

-- Less than a tenth of a second is pending.
abbrev pub Settled : Td → Ddir → Type 0
Settled td ddir = td.rate_pending_usleep ddir ≤ℤ pos 99999

-- Where nothing is in flight and no sleep is shorter than it is asked for, the direction that
-- rate_ddir gives has less than a tenth of a second of sleep pending.
pub rate_ddir-Settled :
    (complete : Td → Td) (slept : ℕ → ℕ) (o : Job) (td : Td) (ddir : Ddir)
    → ((n : ℕ) → n ≤ slept n)
    → o.io_u_in_flight ≡ 0
    → Settled ((rate_ddir complete slept o td ddir).0) ((rate_ddir complete slept o td ddir).1)
unfolding rate_ddir rate_sleep ◌-ℤ◌
rate_ddir-Settled complete slept o td ddir_read late idle = ground (
  arith,
  late (pos_part (td.rate_pending_usleep ddir_read)),
  late (pos_part (td.rate_pending_usleep ddir_write)),
  idle,
)
rate_ddir-Settled complete slept o td ddir_write late idle = ground (
  arith,
  late (pos_part (td.rate_pending_usleep ddir_read)),
  late (pos_part (td.rate_pending_usleep ddir_write)),
  idle,
)
