-- ===== src/Time/Since.antt =====
-- utime_since and mtime_since against the difference of the two times.
use fio_ssd.Prelude.{arith, ℕ, ◌+◌, ◌-◌, ◌*◌, ◌/◌, ◌^◌, ◌<◌, ◌≡◌}
use fio_ssd.Prelude.Int.{◌+ℤ◌}
use fio_ssd.Time.{Timeval, borrow, warped, span, utime_since, mtime_since}

-- A time as the clock gives it, before the year 300000.
pub record IsTime (t : Timeval) : Type 0 where
  pub normal : t.tv_usec < 1000000
  pub small : t.tv_sec < 2 ^ 43

abbrev pub to_usec : Timeval → ℕ
to_usec t = t.tv_sec * 1000000 + t.tv_usec

-- Between two normal times before the year 278000, utime_since is the difference of their
-- microseconds, and 0 where the second is earlier.
pub utime_since-eq : (s e : Timeval) → IsTime s → IsTime e → utime_since s e ≡ to_usec e - to_usec s
unfolding utime_since span borrow warped ◌+ℤ◌
utime_since-eq s e i j = ground (arith, i.normal, i.small, j.normal, j.small)

pub mtime_since-eq :
    (s e : Timeval) → IsTime s → IsTime e → mtime_since s e ≡ (to_usec e - to_usec s) / 1000
unfolding mtime_since span borrow warped ◌+ℤ◌
mtime_since-eq s e i j = ground (arith, i.normal, i.small, j.normal, j.small)
