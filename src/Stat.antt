-- ===== src/Stat.antt =====
-- The latency buckets of stat.c: a value is put in a bucket of a group, and a bucket stands for the
-- middle of its range. `unsigned int` has 32 bits; `none` is a failed assert.
pub mod Msb
pub mod Bucket
pub mod Laws
mod Tests
use fio_ssd.Prelude.{
  ℕ, zero, suc, ◌+◌, ◌-◌, ◌*◌, ◌/◌, ◌%◌, ◌^◌, bit_and, Option, none, some, ltb, leb, if◌then◌else◌,
}

-- FIO_IO_U_PLAT_BITS, FIO_IO_U_PLAT_VAL and FIO_IO_U_PLAT_NR
abbrev pub plat_bits : ℕ
plat_bits = 6

abbrev pub plat_val : ℕ
plat_val = 2 ^ plat_bits

abbrev pub plat_nr : ℕ
plat_nr = 19 * plat_val

-- The place of the highest bit of a value below 2 ^ k, 0 for 0: (sizeof(val)*8) - clz(val) - 1.
unfoldable pub msb_below : ℕ → ℕ → ℕ
msb_below zero val = 0
msb_below (suc k) val = let rest = msb_below k val in if leb (2 ^ k) val then k else rest

unfoldable pub plat_val_to_idx : ℕ → ℕ
plat_val_to_idx val =
    let msb = msb_below 32 val in
    let error_bits = msb - plat_bits in
    let base = (error_bits + 1) * 2 ^ plat_bits in
    let offset = bit_and (plat_val - 1) (val / 2 ^ error_bits) in
    if leb msb plat_bits
    then val
    else if ltb (base + offset) (plat_nr - 1)
    then base + offset
    else plat_nr - 1

-- The half of `k + 0.5` is exact in a `double`; the sum is cut to an integer at the end.
unfoldable pub plat_idx_to_val : ℕ → Option ℕ
plat_idx_to_val idx =
    let error_bits = idx / 2 ^ plat_bits - 1 in
    let base = 2 ^ (error_bits + plat_bits) in
    let k = idx % plat_val in
    if leb plat_nr idx
    then none
    else if ltb idx (plat_val * 2)
    then some idx
    else some (base + (2 * k + 1) * 2 ^ error_bits / 2)
