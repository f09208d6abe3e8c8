-- ===== src/Bits/Run.antt =====
-- Runs of bits inside a word: when `w & mask` is zero, and what `w | mask` holds.
use fio_ssd.Prelude.{
  ℕ, ◌+◌, ◌≤◌, ◌<◌, bit_and, bit_or, ◌≡◌, arith, ltb, leb, if◌then◌else◌, ◌&&◌, ◌↔◌, ◌==◌, ◌∙◌,
  ℕ_discrete, ap,
}
use fio_ssd.Bits.{test_bit, ones_at}
use fio_ssd.Bits.Laws.{
  test_bit-bit_and, test_bit-bit_or, test_bit-le-one, test_bit-zero, zero_of_bits,
}
use fio_ssd.Bits.Mask.{test_bit-ones_at}

-- The `n` bits of `w` from `b` up are 0.
abbrev pub RunFree : ℕ → ℕ → ℕ → Type 0
RunFree w b n = (i : ℕ) → b ≤ i → i < b + n → test_bit w i ≡ 0

pub bit_and-ones_at_iff : (w b n : ℕ) → (bit_and w (ones_at n b) ≡ 0) ↔ RunFree w b n
bit_and-ones_at_iff w b n = (there, back)
  where
    there : bit_and w (ones_at n b) ≡ 0 → RunFree w b n
    there e i p q = ground (
      arith,
      test_bit-bit_and w (ones_at n b) i,
      test_bit-ones_at n b i,
      ap (λ t. test_bit t i) e,
      test_bit-zero i,
    )

    back : RunFree w b n → bit_and w (ones_at n b) ≡ 0
    back free =
        zero_of_bits _
          λ i. ground (arith, test_bit-bit_and w (ones_at n b) i, test_bit-ones_at n b i, free i)

pub test_bit-mark :
    (w b n i : ℕ)
    → test_bit (bit_or w (ones_at n b)) i ≡ (if leb b i && ltb i (b + n) then 1 else test_bit w i)
test_bit-mark w b n i =
    ground (arith, test_bit-bit_or w (ones_at n b) i, test_bit-ones_at n b i, test_bit-le-one w i)

-- Testing one bit by its mask.
pub bit_and-one_bit : (w b : ℕ) → (bit_and w (ones_at 1 b) == 0) ≡ (test_bit w b == 0)
bit_and-one_bit w b = elim (ℕ_discrete (test_bit w b) 0) [
  | yes z ↦
      ground (arith, (bit_and-ones_at_iff w b 1).1 (λ i p q. ap (test_bit w) (only i p q) ∙ z))
  | no ne ↦ ground (
    arith,
    λ (z : bit_and w (ones_at 1 b) ≡ 0).
        (bit_and-ones_at_iff w b 1).0 z b (omega arith) (omega arith),
  )
]
  where
    only : (i : ℕ) → b ≤ i → i < b + 1 → i ≡ b
    only i p q = omega arith
