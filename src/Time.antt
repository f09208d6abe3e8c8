-- ===== src/Time.antt =====
-- time.c: spans between two times, sleeping and spinning. The clock is a list of its readings, in
-- microseconds, one for each call of fio_gettime; times are far from the limits of a `long`.
pub mod Since
pub mod Sleep
mod Tests
use fio_ssd.Prelude.{
  ℕ, zero, suc, ◌+◌, ◌-◌, ◌*◌, ◌/◌, ◌%◌, ◌^◌, max, Option, none, some, List, [], ◌∷◌, Bool, true,
  false, not, ◌&&◌, ◌||◌, ltb, leb, ◌==◌, if◌then◌else◌,
}
use mathlib.Core.Option
use fio_ssd.Prelude.Int.{ℤ, pos, negsuc, sub_ℕ, ◌+ℤ◌, ltb_ℤ}
use fio_ssd.RandMap.{u32, u64}

-- struct timeval
pub record Timeval : Type 0 where
  pub tv_sec : ℕ
  pub tv_usec : ℕ

-- The span as seconds and microseconds, with one second borrowed where both signs differ.
unfoldable pub borrow : ℤ → ℤ → ℤ × ℤ
borrow sec usec =
    if ltb_ℤ (pos 0) sec && ltb_ℤ usec (pos 0)
    then (sec +ℤ negsuc 0, usec +ℤ pos 1000000)
    else (sec, usec)

-- Whether the second time is before the first.
unfoldable pub warped : ℤ × ℤ → Bool
warped (pos zero, usec) = ltb_ℤ usec (pos 0)
warped (pos (suc n), usec) = false
warped (negsuc n, usec) = true

-- The bit pattern of an integer, as `unsigned long`.
abbrev pub to_u64 : ℤ → ℕ
to_u64 (pos n) = u64 n
to_u64 (negsuc n) = u64 (2 ^ 64 - 1 - n % 2 ^ 64)

unfoldable pub span : Timeval → Timeval → ℤ × ℤ
span s e = borrow (sub_ℕ e.tv_sec s.tv_sec) (sub_ℕ e.tv_usec s.tv_usec)

unfoldable pub utime_since : Timeval → Timeval → ℕ
utime_since s e =
    let (sec, usec) = span s e in
    if warped (sec, usec) then 0 else u64 (u64 (to_u64 sec * 1000000) + to_u64 usec)

-- The division is one of `unsigned long`.
unfoldable pub mtime_since : Timeval → Timeval → ℕ
mtime_since s e =
    let (sec, usec) = span s e in
    if warped (sec, usec) then 0 else u64 (u64 (to_u64 sec * 1000) + to_u64 usec / 1000)

-- One nanosleep of usec_sleep, and what is read after it: whether it failed, the microseconds that
-- passed, by the seconds and nanoseconds asked for, and td->terminate.
pub record Nap : Type 0 where
  pub failed : Bool
  pub elapsed : ℕ × ℕ → ℕ
  pub terminate : Bool

-- How a sleep ends, with the microseconds that passed: on time, or cut short by a signal or the end
-- of the job.
pub data Slept : Type 0 where
  rested : ℕ → Slept
  cut_short : ℕ → Slept

-- usec_spin, of an `unsigned int`: the readings are the microseconds since its start.
unfoldable pub usec_spin : List ℕ → ℕ → Option ℕ
usec_spin [] usec = none
usec_spin (t ∷ ts) usec = let rest = usec_spin ts usec in if ltb t usec then rest else some t

abbrev pub add_slept : ℕ → Slept → Slept
add_slept n (rested t) = rested (n + t)
add_slept n (cut_short t) = cut_short (n + t)

-- The timespec that usec_sleep asks for, as seconds and nanoseconds.
unfoldable pub request : ℕ → ℕ → ℕ × ℕ
request granularity usec =
    let ts = usec - granularity in
    if leb 1000000 ts
    then (ts / 1000000, (ts - 1000000 * (ts / 1000000)) * 1000)
    else (0, ts * 1000)

-- usec_sleep, `none` where the clock is not read far enough; `spins` are the readings of the spin
-- that ends it.
unfoldable pub usec_sleep : ℕ → List Nap → List ℕ → ℕ → Option Slept
usec_sleep granularity [] spins usec =
    if ltb usec granularity then Option.map rested (usec_spin spins (u32 usec)) else none
usec_sleep granularity (nap ∷ naps) spins usec =
    let passed = nap.elapsed (request granularity usec) in
    let rest = Option.map (add_slept passed) (usec_sleep granularity naps spins (usec - passed)) in
    if ltb usec granularity
    then Option.map rested (usec_spin spins (u32 usec))
    else if nap.failed
    then some (cut_short 0)
    else if leb usec passed
    then some (rested passed)
    else if nap.terminate
    then some (cut_short passed)
    else rest

-- The granularity that fio_time_init finds: the longest of its sleeps.
unfoldable pub granularity_of : List ℕ → ℕ
granularity_of [] = 0
granularity_of (t ∷ ts) = max t (granularity_of ts)
