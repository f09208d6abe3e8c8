-- ===== src/Time/Tests.antt =====
-- Tests of spans and sleeps, and their theorems at concrete inputs.
use fio_ssd.Prelude.{arith, ◌+◌, ◌-◌, ◌/◌, ◌≡◌, refl, inl, inr, List, [], ◌∷◌, some, false}
use fio_ssd.Prelude.Int.{◌+ℤ◌}
use fio_ssd.Time.{
  Timeval, borrow, warped, span, utime_since, mtime_since, Nap, Slept, rested, usec_spin, request,
  usec_sleep,
}
use fio_ssd.Time.Since.{IsTime, to_usec, utime_since-eq, mtime_since-eq}
use fio_ssd.Time.Sleep.{Lasts, usec_sleep-Lasts}

abbrev early : Timeval
early = record { tv_sec = 10; tv_usec = 900000 }

abbrev late : Timeval
late = record { tv_sec = 12; tv_usec = 100000 }

early-IsTime : IsTime early
early-IsTime = record { normal = omega arith; small = omega arith }

late-IsTime : IsTime late
late-IsTime = record { normal = omega arith; small = omega arith }

twelve_hundred : mtime_since early late ≡ 1200
unfolding mtime_since span borrow warped ◌+ℤ◌
twelve_hundred = refl

utime_since-eq_example : utime_since early late ≡ to_usec late - to_usec early
utime_since-eq_example = utime_since-eq early late early-IsTime late-IsTime

mtime_since-eq_example : mtime_since early late ≡ (to_usec late - to_usec early) / 1000
mtime_since-eq_example = mtime_since-eq early late early-IsTime late-IsTime

-- A nap that takes a microsecond longer than it is asked for.
abbrev oversleep : Nap
oversleep = record { failed = false; elapsed = λ (_, nsec). nsec / 1000 + 1; terminate = false }

abbrev naps : List Nap
naps = oversleep ∷ oversleep ∷ oversleep ∷ oversleep ∷ []

slept_four : usec_sleep 2 naps (0 ∷ 1 ∷ 2 ∷ []) 4 ≡ some (rested 4)
unfolding usec_sleep usec_spin request
slept_four = refl

usec_sleep-Lasts_example :
    (s : Slept) × (usec_sleep 2 naps (0 ∷ 1 ∷ 2 ∷ []) 4 ≡ some s) × Lasts 2 naps 4 s
usec_sleep-Lasts_example =
    usec_sleep-Lasts 2 (0 ∷ 1 ∷ 2 ∷ []) (inr (inr (inl (omega arith)))) (omega arith) naps 4
      ((λ r. omega arith), ((λ r. omega arith), ((λ r. omega arith), ((λ r. omega arith), tt))))
      (omega arith) (omega arith)
