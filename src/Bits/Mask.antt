-- ===== src/Bits/Mask.antt =====
-- The run masks of the block maps, bit by bit.
use native.Mathlib.Nat.{pow-suc, one-le-pow, pow-le-pow_right}
use fio_ssd.Prelude.{
  ℕ, zero, suc, ◌+◌, ◌-◌, ◌*◌, ◌/◌, ◌^◌, ◌≤◌, ◌<◌, ◌≡◌, arith, ltb, leb, if◌then◌else◌, ◌&&◌, ap,
  ◌∙◌,
}
use fio_ssd.Bits.{test_bit, ones_at}
use fio_ssd.Bits.Laws.{test_bit-zero}

pub test_bit_ones : (n i : ℕ) → test_bit (2 ^ n - 1) i ≡ (if ltb i n then 1 else 0)
test_bit_ones zero i = test_bit-zero i ∙ ground arith
test_bit_ones (suc n) zero = ground (arith, pow-suc 2 n, one-le-pow n 2)
test_bit_ones (suc n) (suc i) = ap (λ t. test_bit t i) half ∙ test_bit_ones n i ∙ ground arith
  where
    half : (2 ^ suc n - 1) / 2 ≡ 2 ^ n - 1
    half = omega (arith, pow-suc 2 n)

-- `x << b`, bit by bit.
pub test_bit_shl :
    (b x i : ℕ) → test_bit (x * 2 ^ b) i ≡ (if ltb i b then 0 else test_bit x (i - b))
test_bit_shl zero x i = ap (λ t. test_bit t i) same ∙ ap (test_bit x) index ∙ ground arith
  where
    same : x * 2 ^ 0 ≡ x
    same = omega arith

    index : i ≡ i - 0
    index = omega arith
test_bit_shl (suc b) x zero = ground (arith, ap (λ (t : ℕ). x * t) (pow-suc 2 b))
test_bit_shl (suc b) x (suc i) = ap (λ t. test_bit t i) half ∙ test_bit_shl b x i ∙ ground arith
  where
    half : x * 2 ^ suc b / 2 ≡ x * 2 ^ b
    half = omega (arith, ap (λ (t : ℕ). x * t) (pow-suc 2 b))

-- `ones_at n b` has exactly the bits from `b` up to `b + n`.
pub test_bit-ones_at :
    (n b i : ℕ) → test_bit (ones_at n b) i ≡ (if leb b i && ltb i (b + n) then 1 else 0)
unfolding ones_at
test_bit-ones_at n b i = test_bit_shl b (2 ^ n - 1) i ∙ ground (arith, test_bit_ones n (i - b))

-- A run that ends within `k` bits is not cut by a word of `k` bits.
pub ones_at-lt : (k n b : ℕ) → b + n ≤ k → ones_at n b < 2 ^ k
unfolding ones_at
ones_at-lt k n zero h = omega (arith, one-le-pow k 2, pow-le-pow_right {n = 2} (omega arith) fits)
  where
    fits : n ≤ k
    fits = omega arith
ones_at-lt zero n (suc b) h = absurd (omega arith)
ones_at-lt (suc k) n (suc b) h = omega (
  arith,
  pow-suc 2 k,
  ap (λ (t : ℕ). (2 ^ n - 1) * t) (pow-suc 2 b),
  ones_at-lt k n b (omega arith),
)
