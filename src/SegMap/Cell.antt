-- ===== src/SegMap/Cell.antt =====
-- One cell of the map: what set_bit stores and what it leaves.
use native.Mathlib.Nat.{pow-le-pow_right, mul-le-mul_left}
use fio_ssd.Prelude.{
  arith, true, false, get_elem?-eq-none, refl, ap, ℕ, ◌+◌, ◌-◌, ◌*◌, ◌/◌, ◌^◌, ◌≤◌, ◌<◌, ◌≡◌, ◌≢◌,
  bit_and, bit_or, ltb, leb, ◌&&◌, ◌==◌, if◌then◌else◌, some, none, List, length, get_or, set,
  get_elem?-eq-get_or, dec_lt, ℕ_discrete,
}
use fio_ssd.Bits.{test_bit, ones_at, complement}
use fio_ssd.Bits.Laws.{
  test_bit-bit_and, test_bit-bit_or, test_bit-complement, test_bit-shift, test_bit-le-one,
  test_bit-above, eq_of_bits,
}
use fio_ssd.Bits.Mask.{test_bit-ones_at, test_bit_shl, ones_at-lt}
use fio_ssd.SegMap.{set_bit, shl_int}

-- The two bits of cell `bit` of a word.
abbrev pub cell : ℕ → ℕ → ℕ
cell w bit = bit_and (w / 2 ^ (bit * 2)) 3

-- The word with `stat` in cell `bit`.
abbrev pub with_cell : ℕ → ℕ → ℕ → ℕ
with_cell w bit stat = bit_or (bit_and w (complement 64 (3 * 2 ^ (bit * 2)))) (stat * 2 ^ (bit * 2))

test_bit-cell :
    (w bit i : ℕ) → test_bit (cell w bit) i ≡ (if ltb i 2 then test_bit w (bit * 2 + i) else 0)
unfolding ones_at
test_bit-cell w bit i = ground (
  arith,
  test_bit-bit_and (w / 2 ^ (bit * 2)) 3 i,
  test_bit-shift (bit * 2) w i (bit * 2 + i) refl,
  test_bit-ones_at 2 0 i,
  test_bit-le-one w (bit * 2 + i),
)

test_bit-with_cell :
    (w bit stat k : ℕ)
    → bit < 32
    → stat < 4
    → k < 64
    → test_bit (with_cell w bit stat) k ≡ (
        if leb (bit * 2) k && ltb k (bit * 2 + 2)
        then test_bit stat (k - bit * 2)
        else test_bit w k)
unfolding ones_at
test_bit-with_cell w bit stat k b s h = ground (
  arith,
  test_bit-bit_or (bit_and w (complement 64 (3 * 2 ^ (bit * 2)))) (stat * 2 ^ (bit * 2)) k,
  test_bit-bit_and w (complement 64 (3 * 2 ^ (bit * 2))) k,
  test_bit-complement 64 (3 * 2 ^ (bit * 2)) k (ones_at-lt 64 2 (bit * 2) (omega arith)),
  test_bit-ones_at 2 (bit * 2) k,
  test_bit_shl (bit * 2) stat k,
  test_bit-above 2 stat (k - bit * 2) s,
  test_bit-le-one w k,
)

shl_int_lem : (v bit : ℕ) → v < 4 → bit < 15 → shl_int v (bit * 2) ≡ some (v * 2 ^ (bit * 2))
unfolding shl_int
shl_int_lem v bit small b = ground (
  arith,
  mul-le-mul_left {m = 2 ^ (bit * 2)} {n = 2 ^ 28} v
      (pow-le-pow_right {n = 2} (omega arith) {i = bit * 2} {j = 28} (omega arith)),
)

shl_int-none : (bit : ℕ) → 15 ≤ bit → shl_int 3 (bit * 2) ≡ none
unfolding shl_int
shl_int-none bit h =
    ground (arith, pow-le-pow_right {n = 2} (omega arith) {i = 30} {j = bit * 2} (omega arith))

-- A cell that was stored is read back, and the others are as they were.
pub cell-with_cell :
    (w bit stat other : ℕ)
    → bit < 32
    → stat < 4
    → other < 32
    → cell (with_cell w bit stat) other ≡ (if other == bit then stat else cell w other)
cell-with_cell w bit stat other b s o = elim (ℕ_discrete other bit) [
  | yes same ↦ rw (is_same same) (
      eq_of_bits _ _ λ i. ground (
        arith,
        test_bit-cell (with_cell w bit stat) other i,
        test_bit-with_cell w bit stat (other * 2 + i) b s,
        test_bit-above 2 stat i s,
        ap (test_bit stat) (place same i),
      ))
  | no differ ↦ rw (is_other differ) (
      eq_of_bits _ _ λ i. ground (
        arith,
        test_bit-cell (with_cell w bit stat) other i,
        test_bit-with_cell w bit stat (other * 2 + i) b s,
        test_bit-cell w other i,
      ))
]
  where
    is_same : other ≡ bit → (other == bit) ≡ true
    is_same same = ground arith

    is_other : other ≢ bit → (other == bit) ≡ false
    is_other differ = ground arith

    place : other ≡ bit → (i : ℕ) → other * 2 + i - bit * 2 ≡ i
    place same i = omega arith

-- set_bit stores a cell where the shifts are defined, which holds for the first 15 blocks of a word.
pub set_bit_lem :
    (map2 : List ℕ) (idx bit stat : ℕ)
    → idx < length map2
    → bit < 15
    → stat < 4
    → set_bit map2 idx bit stat ≡ some (set map2 idx (with_cell (get_or map2 idx 0) bit stat))
unfolding set_bit
set_bit_lem map2 idx bit stat h b s =
    rw
      (
        get_elem?-eq-get_or map2 idx 0 h,
        shl_int_lem 3 bit (omega arith) b,
        shl_int_lem stat bit s b,
      )
      refl

-- From the 16th block of a word on the mask is no `int`, and set_bit is undefined.
pub set_bit-none : (map2 : List ℕ) (idx bit stat : ℕ) → 15 ≤ bit → set_bit map2 idx bit stat ≡ none
unfolding set_bit
set_bit-none map2 idx bit stat h = elim (dec_lt idx (length map2)) [
  | yes inside ↦ rw (get_elem?-eq-get_or map2 idx 0 inside, shl_int-none bit h) refl
  | no outside ↦ rw (get_elem?-eq-none map2 idx (omega arith)) refl
]
