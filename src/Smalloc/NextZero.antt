-- ===== src/Smalloc/NextZero.antt =====
-- find_next_zero of smalloc.c: the first clear bit from `start` on, and what comes out where there
-- is none.
use native.Mathlib.Nat.{div-le_self, add_comm}
use fio_ssd.Prelude.{
  arith, ℕ, ◌+◌, ◌-◌, ◌/◌, ◌^◌, ◌≤◌, ◌<◌, ◌≡◌, ◌≢◌, ◌⊎◌, inl, inr, refl, ap, ◌∙◌, some, ltb,
  if◌then◌else◌, dec_lt, ℕ_discrete, ==_iff_ne,
}
use fio_ssd.Bits.{test_bit, complement}
use fio_ssd.Bits.Laws.{
  test_bit-le-one, test_bit-complement, test_bit-shift, test_bit-above, eq_of_bits, test_bit-zero,
}
use fio_ssd.Ffz.{ffz}
use fio_ssd.Ffz.Laws.{ffz_lem}
use fio_ssd.Smalloc.{find_next_zero, shift_int}
use fio_ssd.Smalloc.Word.{RunIs}

-- `idx` is the first clear bit of `w` from `start` on.
pub record FirstZero (w start idx : ℕ) : Type 0 where
  pub below_end : idx < 32
  pub from_start : start ≤ idx
  pub is_clear : test_bit w idx ≡ 0
  pub ones_before : (j : ℕ) → start ≤ j → j < idx → test_bit w j ≡ 1

module _ (w start : ℕ) (h : w < 2 ^ 32) (s : start < 32) where
  -- A non-negative `int`, and a negative one: the sign fills the bits that the shift frees.
  shift_int-pos : w < 2 ^ 31 → shift_int w start ≡ w / 2 ^ start
  shift_int-pos p = ground arith

  shift_int-neg : ¬ (w < 2 ^ 31) → shift_int w start ≡ complement 64 (complement 32 w / 2 ^ start)
  shift_int-neg p = ground arith

  complement-lt : complement 32 w / 2 ^ start < 2 ^ 64
  unfolding complement
  complement-lt = omega (arith, div-le_self (2 ^ 32 - 1 - w) (2 ^ start))

  shift_int-lt : shift_int w start < 2 ^ 64
  unfolding complement
  shift_int-lt = elim (dec_lt w (2 ^ 31)) [
    | yes p ↦ rw (shift_int-pos p) (omega (arith, div-le_self w (2 ^ start)))
    | no p ↦ rw (shift_int-neg p) (omega arith)
  ]

  test_bit-shift_int :
      (i : ℕ)
      → i < 64
      → test_bit (shift_int w start) i
        ≡ (if ltb (start + i) 32 then test_bit w (start + i) else (if ltb w (2 ^ 31) then 0 else 1))
  test_bit-shift_int i q = elim (dec_lt w (2 ^ 31)) [
    | yes p ↦ rw (shift_int-pos p) (
        ground
          (arith, test_bit-shift start w i (start + i) refl, test_bit-above 31 w (start + i) p))
    | no p ↦ rw (shift_int-neg p) (
        ground (
          arith,
          test_bit-complement 64 (complement 32 w / 2 ^ start) i complement-lt,
          test_bit-shift start (complement 32 w) i (start + i) refl,
          test_bit-complement 32 w (start + i) h,
          test_bit-le-one w (start + i),
        ))
  ]

  -- A shifted word that is all ones holds ones from `start` on.
  ones-RunIs : shift_int w start ≡ 2 ^ 64 - 1 → RunIs 1 w start (32 - start)
  unfolding complement
  ones-RunIs e j r t = ground (
    arith,
    test_bit-shift_int (j - start) (omega arith),
    ap (λ v. test_bit v (j - start)) e,
    test_bit-complement 64 0 (j - start) (omega arith),
    test_bit-zero (j - start),
    ap (test_bit w) index,
  )
    where
      index : start + (j - start) ≡ j
      index = omega arith

  -- The lowest clear bit of the shifted word, counted from `start`.
  lowest-FirstZero :
      (i : ℕ)
      → i < 64
      → test_bit (shift_int w start) i ≡ 0
      → ((j : ℕ) → j < i → test_bit (shift_int w start) j ≡ 1)
      → FirstZero w start (i + start)
  lowest-FirstZero i lt clear below = record {
    below_end = inside;
    from_start = omega arith;
    is_clear = ap (test_bit w) (add_comm i start) ∙ at_end;
    ones_before = λ j r t.
        ap (test_bit w) (index j r)
        ∙ ground (
          arith,
          inside,
          test_bit-shift_int (j - start) (omega arith),
          below (j - start) (omega arith),
        );
  }
    where
      sign : ¬ (start + i < 32) → test_bit (shift_int w start) (31 - start) ≡ 1
      sign out = below (31 - start) (omega arith)

      inside : i + start < 32
      inside = ground (
        arith,
        clear,
        sign,
        test_bit-shift_int i lt,
        test_bit-shift_int (31 - start) (omega arith),
        test_bit-above 31 w (start + (31 - start)),
      )

      at_end : test_bit w (start + i) ≡ 0
      at_end = ground (arith, clear, inside, test_bit-shift_int i lt)

      index : (j : ℕ) → start ≤ j → j ≡ start + (j - start)
      index j r = omega arith

  ffz-FirstZero :
      shift_int w start ≢ 2 ^ 64 - 1 → FirstZero w start (ffz (shift_int w start) + start)
  ffz-FirstZero ne =
      let (lt, clear, below) = ffz_lem (shift_int w start) shift_int-lt ne in
      lowest-FirstZero (ffz (shift_int w start)) lt clear below

ffz_ones : ffz (2 ^ 64 - 1) ≡ 63
unfolding ffz
ffz_ones = refl

-- On a word of 32 bits that is not full, with `start` below 32, find_next_zero gives the first
-- clear bit from `start` on; where the bits from there on are all set it gives start + 63, which is
-- outside the word.
pub find_next_zero_lem :
    (w start : ℕ)
    → w < 2 ^ 32
    → w ≢ 2 ^ 32 - 1
    → start < 32
    → (idx : ℕ) × (find_next_zero w start ≡ some idx)
      × (FirstZero w start idx ⊎ ((idx ≡ start + 63) × RunIs 1 w start (32 - start)))
unfolding find_next_zero
find_next_zero_lem w start h ne s = (
  ffz (shift_int w start) + start,
  rw ((==_iff_ne w (2 ^ 32 - 1)).1 ne) refl,
  elim (ℕ_discrete (shift_int w start) (2 ^ 64 - 1)) [
    | yes e ↦ inr (omega (arith, ap ffz e, ffz_ones), ones-RunIs w start h s e)
    | no other ↦ inl (ffz-FirstZero w start h s other)
  ],
)

-- A word of 32 ones.
ones-eq : (w : ℕ) → w < 2 ^ 32 → RunIs 1 w 0 32 → w ≡ 2 ^ 32 - 1
unfolding complement
ones-eq w h ones = eq_of_bits w (2 ^ 32 - 1) λ i.
    ground (arith, ones i, test_bit-above 32 w i h, test_bit-complement 32 0 i, test_bit-zero i)

-- With `start` 0 there is always a clear bit.
pub find_next_zero-zero :
    (w : ℕ)
    → w < 2 ^ 32
    → w ≢ 2 ^ 32 - 1
    → (idx : ℕ) × (find_next_zero w 0 ≡ some idx) × FirstZero w 0 idx
find_next_zero-zero w h ne =
    let (idx, e, found) = find_next_zero_lem w 0 h ne (omega arith) in
    (idx, e, elim found [ inl first ↦ first | inr (beyond, ones) ↦ absurd (ne (ones-eq w h ones)) ])

pub FirstZero-ne : (w idx : ℕ) → FirstZero w 0 idx → w ≢ 2 ^ 32 - 1
unfolding complement
FirstZero-ne w idx first e = absurd (
    ground (
      arith,
      ap (λ v. test_bit v idx) e,
      first.is_clear,
      first.below_end,
      test_bit-complement 32 0 idx,
      test_bit-zero idx,
    ))

-- The first clear bit is the only one there is.
pub find_next_zero-eq : (w idx : ℕ) → w < 2 ^ 32 → FirstZero w 0 idx → find_next_zero w 0 ≡ some idx
find_next_zero-eq w idx h first =
    let (idx', found, first') = find_next_zero-zero w h (FirstZero-ne w idx first) in
    found ∙ ap some (same idx' first')
  where
    same : (k : ℕ) → FirstZero w 0 k → k ≡ idx
    same k other =
        ground (arith, first.is_clear, other.is_clear, first.ones_before k, other.ones_before idx)
