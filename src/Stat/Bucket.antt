-- ===== src/Stat/Bucket.antt =====
-- The bucket of a value by its group and place, and the value of a bucket.
use native.Mathlib.Nat.{
  pow-suc, one-le-pow, pow-le-pow_right, le-div_iff_mul-le, div-mul-le_self, lt-div-mul-add,
  add-mul, mul-le-mul_right, div-eq_of_lt-le, div-lt_iff_lt-mul,
}
use fio_ssd.Prelude.{
  arith, ap, ◌∙◌, ℕ, zero, suc, ◌+◌, ◌-◌, ◌*◌, ◌/◌, ◌%◌, ◌^◌, ◌≤◌, ◌<◌, ◌≡◌, refl, min, dec_lt,
  some,
}
use fio_ssd.Stat.{msb_below, plat_val_to_idx, plat_idx_to_val}
use fio_ssd.Stat.Msb.{msb_below-eq, msb_below-range, bit_and_low, two_pow_six}

-- `val` lies at place `q` of the group that discards `e` bits: from q * 2 ^ e up to (q + 1) * 2 ^ e.
pub record InGroup (val e q : ℕ) : Type 0 where
  pub above : q * 2 ^ e ≤ val
  pub below : val < q * 2 ^ e + 2 ^ e
  pub first : 64 ≤ q
  pub last : q < 128

-- Each value from 64 on is in one group.
pub has_group : (val : ℕ) → 64 ≤ val → val < 2 ^ 32 → (e : ℕ) × (q : ℕ) × InGroup val e q × (e < 26)
has_group val big h = (
  e,
  val / 2 ^ e,
  record {
    above = div-mul-le_self val (2 ^ e);
    below = lt-div-mul-add pow_pos;
    first = (le-div_iff_mul-le pow_pos).1 (omega (arith, range, six, powers));
    last = (div-lt_iff_lt-mul pow_pos).1 (omega (arith, range, six, powers));
  },
  omega (arith, range),
)
  where
    m : ℕ
    m = msb_below 32 val

    pow_pos : 0 < 2 ^ (m - 6)
    pow_pos = omega (arith, one-le-pow (m - 6) 2)

    e : ℕ
    e = m - 6

    range : (m < 32) × (2 ^ m ≤ val) × (val < 2 ^ suc m)
    range = msb_below-range 32 val (omega arith) h

    six : m ≡ e + 6
    six = elim (dec_lt m 6) [
      | yes low ↦
          absurd
            (omega (arith, range, pow-le-pow_right {n = 2} (omega arith) {i = suc m} {j = 6} low))
      | no high ↦ omega arith
    ]

    powers : (2 ^ m ≡ 64 * 2 ^ e) × (2 ^ suc m ≡ 128 * 2 ^ e)
    powers = (
      ap (λ (t : ℕ). 2 ^ t) six ∙ (two_pow_six e).0,
      ap (λ (t : ℕ). 2 ^ suc t) six ∙ (two_pow_six e).1,
    )

module _ (val e q : ℕ) (g : InGroup val e q) where
  pub InGroup-div : val / 2 ^ e ≡ q
  InGroup-div =
      div-eq_of_lt-le {k = q} (2 ^ e) g.above (omega (arith, g.below, add-mul q 1 (2 ^ e)))

  -- The range of the group.
  pub InGroup-range : (64 * 2 ^ e ≤ val) × (val < 128 * 2 ^ e)
  InGroup-range = (
    omega (arith, g.above, mul-le-mul_right (2 ^ e) g.first),
    omega (
      arith,
      g.below,
      add-mul q 1 (2 ^ e),
      mul-le-mul_right {m = suc q} {n = 128} (2 ^ e) g.last,
    ),
  )

  pub InGroup-msb : e < 26 → msb_below 32 val ≡ e + 6
  InGroup-msb small =
      msb_below-eq 32 val (e + 6) (omega arith) (omega (arith, InGroup-range, two_pow_six e))
        (omega (arith, InGroup-range, two_pow_six e))

  pub InGroup-idx : e < 26 → plat_val_to_idx val ≡ min (64 * e + q) 1215
  unfolding plat_val_to_idx
  InGroup-idx small =
      rw (InGroup-msb small, back, InGroup-div, bit_and_low q)
        (ground (arith, g.first, g.last, g.above, g.below))
    where
      back : e + 6 - 6 ≡ e
      back = omega arith

-- Values below 128 have a bucket of their own.
pub plat_val_to_idx_small : (val : ℕ) → val < 128 → plat_val_to_idx val ≡ val
unfolding plat_val_to_idx
plat_val_to_idx_small zero h = unfold msb_below in refl
plat_val_to_idx_small (suc val) h = elim (dec_lt 6 (msb_below 32 (suc val))) [
  | yes high ↦ absurd (
      omega (
        arith,
        h,
        msb_below-range 32 (suc val) (omega arith) (omega arith),
        pow-le-pow_right {n = 2} (omega arith) {i = 7} {j = msb_below 32 (suc val)} high,
      ))
  | no low ↦ ground arith
]

middle_of_range :
    (q k half range : ℕ)
    → q ≡ 64 + k
    → range ≡ 2 * half
    → 64 * range + (2 * k + 1) * range / 2 ≡ q * range + half
middle_of_range q k half range place even =
    omega (arith, ap (λ (t : ℕ). k * t) even, ap (λ (t : ℕ). t * range) place)

-- The bucket `64 * e + q` stands for the middle of its range.
module _ (e q : ℕ) (small : e < 18) (pos : 0 < e) (first : 64 ≤ q) (last : q < 128) where
  pub plat_idx_to_val-InGroup : plat_idx_to_val (64 * e + q) ≡ some (q * 2 ^ e + 2 ^ (e - 1))
  unfolding plat_idx_to_val
  plat_idx_to_val-InGroup = rw (error, place) (ground (arith, middle))
    where
      error : (64 * e + q) / 2 ^ 6 - 1 ≡ e
      error = omega arith

      place : (64 * e + q) % 64 ≡ q - 64
      place = omega arith

      half : 2 ^ e ≡ 2 * 2 ^ (e - 1)
      half = ap (λ (t : ℕ). 2 ^ t) (earlier) ∙ omega (arith, pow-suc 2 (e - 1))
        where
          earlier : e ≡ suc (e - 1)
          earlier = omega arith

      middle : 2 ^ (e + 6) + (2 * (q - 64) + 1) * 2 ^ e / 2 ≡ q * 2 ^ e + 2 ^ (e - 1)
      middle = omega (
        arith,
        two_pow_six e,
        middle_of_range q (q - 64) (2 ^ (e - 1)) (2 ^ e) (omega arith) half,
      )
