-- ===== src/Ffz.antt =====
-- __ffs and ffz of lib/ffz.h, at BITS_PER_LONG == 64.
pub mod Laws
mod Tests
use fio_ssd.Prelude.{ℕ, ◌+◌, ◌-◌, ◌/◌, ◌^◌, bit_and, ◌==◌, if◌then◌else◌}
use fio_ssd.Bits.{ones_at, complement}

-- One of the six tests: `word` and `r` after looking at the low `k` bits.
unfoldable pub ffs_step : ℕ → ℕ × ℕ → ℕ × ℕ
ffs_step k (word, r) = if bit_and word (ones_at k 0) == 0 then (word / 2 ^ k, r + k) else (word, r)

unfoldable pub ffs : ℕ → ℕ
unfolding ffs_step ones_at
ffs word =
    (ffs_step 1 (ffs_step 2 (ffs_step 4 (ffs_step 8 (ffs_step 16 (ffs_step 32 (word, 0))))))).1

unfoldable pub ffz : ℕ → ℕ
unfolding ffs complement
ffz bitmask = ffs (complement 64 bitmask)
