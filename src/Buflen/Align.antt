-- ===== src/Buflen/Align.antt =====
-- is_power_of_2 and the alignment of a size.
use native.Mathlib.Nat.{pow-suc}
use fio_ssd.Prelude.{
  arith, ap, sym, ◌∙◌, ℕ, zero, suc, ◌+◌, ◌-◌, ◌*◌, ◌/◌, ◌%◌, ◌^◌, ◌≤◌, ◌<◌, ◌≡◌, ◌≢◌, bit_and,
  ℕ_discrete, true,
}
use fio_ssd.Bits.{complement}
use fio_ssd.Bits.Laws.{
  test_bit-bit_and, test_bit-complement, test_bit-shift, test_bit-above, test_bit-le-one,
  eq_of_bits,
}
use fio_ssd.Bits.Mask.{test_bit_shl, test_bit_ones}
use fio_ssd.Bits.Step.{bit_and_step}
use fio_ssd.RandMap.{u32}
use fio_ssd.Buflen.{is_power_of_2, align_up}

bit_and_self : (n x : ℕ) → x ≤ n → bit_and x x ≡ x
bit_and_self zero x h = let z : x ≡ 0 = omega arith in ap (λ t. bit_and t t) z ∙ sym z
bit_and_self (suc n) x h = omega (arith, bit_and_step x x, bit_and_self n (x / 2) (omega arith))

-- A number above 0 that shares no bit with its predecessor is a power of two.
pow_of_disjoint : (n x : ℕ) → x ≤ n → 0 < x → bit_and x (x - 1) ≡ 0 → (k : ℕ) × (x ≡ 2 ^ k)
pow_of_disjoint zero x h pos e = absurd (omega arith)
pow_of_disjoint (suc n) x h pos e = elim (ℕ_discrete (x % 2) 0) [
  | yes even ↦
      let (k, e') = pow_of_disjoint n (x / 2) (omega arith) (omega arith) (halved even) in
      (suc k, omega (arith, e', pow-suc 2 k))
  | no odd ↦ (0, one odd)
]
  where
    halved : x % 2 ≡ 0 → bit_and (x / 2) (x / 2 - 1) ≡ 0
    halved even = omega (arith, e, bit_and_step x (x - 1), ap (bit_and (x / 2)) (before even))
      where
        before : x % 2 ≡ 0 → (x - 1) / 2 ≡ x / 2 - 1
        before even = omega arith

    one : x % 2 ≢ 0 → x ≡ 1
    one odd = omega (
      arith,
      e,
      bit_and_step x (x - 1),
      ap (bit_and (x / 2)) (same odd),
      bit_and_self (x / 2) (x / 2) (omega arith),
    )
      where
        same : x % 2 ≢ 0 → (x - 1) / 2 ≡ x / 2
        same odd = omega arith

pub is_power_of_2-pow : (x : ℕ) → is_power_of_2 x ≡ true → (k : ℕ) × (x ≡ 2 ^ k)
unfolding is_power_of_2
is_power_of_2-pow x e = pow_of_disjoint x x (omega arith) (ground arith) (ground arith)

-- Aligning rounds up to a multiple of the power of two.
align_pow :
    (k x : ℕ)
    → 2 ^ k < 2 ^ 32
    → x < 2 ^ 32
    → bit_and x (complement 32 (2 ^ k - 1)) ≡ x / 2 ^ k * 2 ^ k
align_pow k x small h = eq_of_bits _ _ λ i. ground (
  arith,
  test_bit-bit_and x (complement 32 (2 ^ k - 1)) i,
  test_bit-complement 32 (2 ^ k - 1) i,
  test_bit_ones k i,
  test_bit_shl k (x / 2 ^ k) i,
  test_bit-shift k x (i - k) i,
  test_bit-above 32 x i h,
  test_bit-le-one x i,
)

pub align_up-eq :
    (buflen minbs : ℕ)
    → is_power_of_2 minbs ≡ true
    → minbs < 2 ^ 32
    → buflen + minbs < 2 ^ 32
    → align_up buflen minbs ≡ (buflen + minbs - 1) / minbs * minbs
unfolding align_up
align_up-eq buflen minbs power small fits =
    let (k, e) = is_power_of_2-pow minbs power in
    ap (λ t. bit_and t (complement 32 (minbs - 1))) no_wrap
    ∙ ap (λ m. bit_and (buflen + minbs - 1) (complement 32 (m - 1))) e
    ∙ align_pow k (buflen + minbs - 1) (omega arith) (omega arith)
    ∙ ap (λ m. (buflen + minbs - 1) / m * m) (sym e)
  where
    no_wrap : u32 (buflen + minbs - 1) ≡ buflen + minbs - 1
    no_wrap = omega arith
