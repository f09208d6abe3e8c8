-- ===== src/Bits/Laws.antt =====
-- The value of each bit of `&`, `|` and `~`, and equality bit by bit.
use native.Mathlib.Nat.{pow-suc, one-le-pow, div-div-eq-div-mul}
use fio_ssd.Prelude.{
  ℕ, zero, suc, ◌+◌, ◌-◌, ◌/◌, ◌^◌, ◌≤◌, ◌<◌, min, max, bit_and, bit_or, ◌≡◌, refl, arith, ltb,
  if◌then◌else◌, ap, sym, ◌∙◌,
}
use fio_ssd.Bits.{test_bit, complement}
use fio_ssd.Bits.Step.{bit_or_step, bit_and_step}

pub test_bit-le-one : (w i : ℕ) → test_bit w i ≤ 1
test_bit-le-one w zero = omega arith
test_bit-le-one w (suc i) = test_bit-le-one (w / 2) i

pub test_bit-zero : (i : ℕ) → test_bit 0 i ≡ 0
test_bit-zero zero = refl
test_bit-zero (suc i) = test_bit-zero i

pub test_bit-bit_or : (a b i : ℕ) → test_bit (bit_or a b) i ≡ max (test_bit a i) (test_bit b i)
test_bit-bit_or a b zero = omega (arith, bit_or_step a b)
test_bit-bit_or a b (suc i) = ap (λ t. test_bit t i) half ∙ test_bit-bit_or (a / 2) (b / 2) i
  where
    half : bit_or a b / 2 ≡ bit_or (a / 2) (b / 2)
    half = omega (arith, bit_or_step a b)

pub test_bit-bit_and : (a b i : ℕ) → test_bit (bit_and a b) i ≡ min (test_bit a i) (test_bit b i)
test_bit-bit_and a b zero = omega (arith, bit_and_step a b)
test_bit-bit_and a b (suc i) = ap (λ t. test_bit t i) half ∙ test_bit-bit_and (a / 2) (b / 2) i
  where
    half : bit_and a b / 2 ≡ bit_and (a / 2) (b / 2)
    half = omega (arith, bit_and_step a b)

-- Two words with the same bits are equal.
eq_of_bits_fuel : (n v w : ℕ) → v ≤ n → w ≤ n → ((i : ℕ) → test_bit v i ≡ test_bit w i) → v ≡ w
eq_of_bits_fuel zero v w p q h = omega arith
eq_of_bits_fuel (suc n) v w p q h =
    omega
      (arith, h 0, eq_of_bits_fuel n (v / 2) (w / 2) (omega arith) (omega arith) (λ i. h (suc i)))

pub eq_of_bits : (v w : ℕ) → ((i : ℕ) → test_bit v i ≡ test_bit w i) → v ≡ w
eq_of_bits v w h = eq_of_bits_fuel (v + w) v w (omega arith) (omega arith) h

-- A word with no bit set is zero.
pub zero_of_bits : (w : ℕ) → ((i : ℕ) → test_bit w i ≡ 0) → w ≡ 0
zero_of_bits w z = eq_of_bits w 0 (λ i. z i ∙ sym (test_bit-zero i))

-- A word below 2 ^ k has no bit from k on.
pub test_bit-above : (k w i : ℕ) → w < 2 ^ k → k ≤ i → test_bit w i ≡ 0
test_bit-above zero w i h p = ap (λ t. test_bit t i) zeroed ∙ test_bit-zero i
  where
    zeroed : w ≡ 0
    zeroed = omega arith
test_bit-above (suc k) w zero h p = absurd (omega arith)
test_bit-above (suc k) w (suc i) h p =
    test_bit-above k (w / 2) i (omega (arith, pow-suc 2 k)) (omega arith)

-- In a word of k bits `~` flips each bit.
pub test_bit-complement :
    (k w i : ℕ)
    → w < 2 ^ k
    → test_bit (complement k w) i ≡ (if ltb i k then 1 - test_bit w i else 0)
unfolding complement
test_bit-complement zero w i h = ap (λ t. test_bit t i) zeroed ∙ test_bit-zero i ∙ ground arith
  where
    zeroed : 2 ^ 0 - 1 - w ≡ 0
    zeroed = omega arith
test_bit-complement (suc k) w zero h = ground (arith, pow-suc 2 k, one-le-pow k 2)
test_bit-complement (suc k) w (suc i) h =
    ap (λ t. test_bit t i) half
    ∙ test_bit-complement k (w / 2) i (omega (arith, pow-suc 2 k))
    ∙ ground arith
  where
    half : (2 ^ suc k - 1 - w) / 2 ≡ 2 ^ k - 1 - w / 2
    half = omega (arith, pow-suc 2 k)

-- x >> n, bit by bit.
pub test_bit-shift : (n w i j : ℕ) → j ≡ n + i → test_bit w j ≡ test_bit (w / 2 ^ n) i
test_bit-shift zero w i j e = ap (test_bit w) index ∙ ap (λ t. test_bit t i) same
  where
    index : j ≡ i
    index = omega arith

    same : w ≡ w / 2 ^ 0
    same = omega arith
test_bit-shift (suc n) w i zero e = absurd (omega arith)
test_bit-shift (suc n) w i (suc j) e =
    test_bit-shift n (w / 2) i j (omega arith) ∙ ap (λ t. test_bit t i) same
  where
    same : w / 2 / 2 ^ n ≡ w / 2 ^ suc n
    same = div-div-eq-div-mul w 2 (2 ^ n) ∙ ap (λ t. w / t) (omega (arith, pow-suc 2 n))

-- And a word with no bit from k on is below 2 ^ k.
pub lt_of_bits : (k w : ℕ) → ((i : ℕ) → k ≤ i → test_bit w i ≡ 0) → w < 2 ^ k
lt_of_bits zero w z = omega (arith, zero_of_bits w (λ i. z i (omega arith)))
lt_of_bits (suc k) w z =
    omega (arith, pow-suc 2 k, lt_of_bits k (w / 2) (λ i p. z (suc i) (omega arith)))
