-- ===== src/Stat/Msb.antt =====
-- The highest bit of a value, and the low six bits.
use Prim.Native.Nat.{bit_and-bitwise}
use native.Mathlib.Numerals.{towards_suc}
use native.Mathlib.Nat.{pow-le-pow_right}
use fio_ssd.Prelude.{
  arith, refl, ap, ◌∙◌, ℕ, zero, suc, ◌+◌, ◌*◌, ◌/◌, ◌%◌, ◌^◌, ◌≤◌, ◌<◌, bit_and, ◌≡◌, dec_lt,
}
use fio_ssd.Bits.Step.{bit_and_step}
use fio_ssd.Stat.{msb_below}

msb_below-top : (k val : ℕ) → 2 ^ k ≤ val → msb_below (suc k) val ≡ k
unfolding msb_below
msb_below-top k val h = ground arith

msb_below-down : (k val : ℕ) → val < 2 ^ k → msb_below (suc k) val ≡ msb_below k val
unfolding msb_below
msb_below-down k val h = ground arith

-- A value in [2 ^ m, 2 ^ (m + 1)) has its highest bit at m.
pub msb_below-eq : (k val m : ℕ) → m < k → 2 ^ m ≤ val → val < 2 ^ suc m → msb_below k val ≡ m
msb_below-eq zero val m h low high = absurd (omega arith)
msb_below-eq (suc k) val m h low high = elim (dec_lt m k) [
  | yes more ↦
      msb_below-down k val
        (omega (arith, pow-le-pow_right {n = 2} (omega arith) {i = suc m} {j = k} (omega arith)))
      ∙ msb_below-eq k val m more low high
  | no last ↦
      let same : m ≡ k = omega arith in
      msb_below-top k val (omega (arith, ap (λ (t : ℕ). 2 ^ t) same)) ∙ omega arith
]

-- And every value from 1 on has one.
pub msb_below-range :
    (k val : ℕ)
    → 0 < val
    → val < 2 ^ k
    → (msb_below k val < k) × (2 ^ msb_below k val ≤ val) × (val < 2 ^ suc (msb_below k val))
msb_below-range zero val pos h = absurd (omega arith)
msb_below-range (suc k) val pos h = elim (dec_lt val (2 ^ k)) [
  | yes below ↦
      let (lt, low, high) = msb_below-range k val pos below in
      rw (msb_below-down k val below) (omega arith, low, high)
  | no above ↦ rw (msb_below-top k val (omega arith)) (omega arith, omega arith, h)
]

bit_and_zero : (x : ℕ) → bit_and 0 x ≡ 0
bit_and_zero x = rw (bit_and-bitwise 0 x) refl

-- `&` with a number whose lowest bit is 1.
bit_and_odd : (a x : ℕ) → bit_and (2 * a + 1) x ≡ bit_and a (x / 2) * 2 + x % 2
bit_and_odd a x = omega (arith, bit_and_step (2 * a + 1) x, ap (λ t. bit_and t (x / 2)) half)
  where
    half : (2 * a + 1) / 2 ≡ a
    half = omega arith

pub bit_and_low : (x : ℕ) → bit_and 63 x ≡ x % 64
bit_and_low x = omega (
  arith,
  bit_and_odd 31 x,
  bit_and_odd 15 (x / 2),
  bit_and_odd 7 (x / 2 / 2),
  bit_and_odd 3 (x / 2 / 2 / 2),
  bit_and_odd 1 (x / 2 / 2 / 2 / 2),
  bit_and_odd 0 (x / 2 / 2 / 2 / 2 / 2),
  bit_and_zero (x / 2 / 2 / 2 / 2 / 2 / 2),
)

pub two_pow_six : (e : ℕ) → (2 ^ (e + 6) ≡ 64 * 2 ^ e) × (2 ^ suc (e + 6) ≡ 128 * 2 ^ e)
two_pow_six e = (simp towards_suc (omega arith), simp towards_suc (omega arith))
