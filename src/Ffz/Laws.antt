-- ===== src/Ffz/Laws.antt =====
-- __ffs finds the lowest set bit, ffz the lowest clear one.
use fio_ssd.Prelude.{
  ℕ, zero, suc, ◌+◌, ◌-◌, ◌/◌, ◌%◌, ◌^◌, ◌≤◌, ◌<◌, bit_and, ◌≡◌, ◌≢◌, refl, arith, ==_iff,
  ==_iff_ne, ◌∙◌, sym, ℕ_discrete, dec_lt,
}
use fio_ssd.Bits.{test_bit, ones_at, complement}
use fio_ssd.Bits.Laws.{test_bit-shift, test_bit-complement, test_bit-le-one}
use fio_ssd.Bits.Run.{bit_and-ones_at_iff}
use fio_ssd.Ffz.{ffs_step, ffs, ffz}

-- Bit `i` is the lowest that is set in `w`.
pub record Lowest (w i : ℕ) : Type 0 where
  pub is_set : test_bit w i ≡ 1
  pub below : (j : ℕ) → j < i → test_bit w j ≡ 0

-- A step keeps the place of the lowest set bit, counted from the start, and halves its range.
record Stepped (k place : ℕ) (s : ℕ × ℕ) : Type 0 where
  rest : ℕ
  lowest : Lowest s.0 rest
  range : rest < k
  counted : s.1 + rest ≡ place

ffs_step-Stepped :
    (k place : ℕ) (s : ℕ × ℕ) → Stepped (k + k) place s → Stepped k place (ffs_step k s)
unfolding ffs_step
ffs_step-Stepped k place (w, r) st = elim (dec_lt st.rest k) [
  | yes p ↦
      rw ((==_iff_ne (bit_and w (ones_at k 0)) 0).1 (near p))
        (record { rest = st.rest; lowest = st.lowest; range = p; counted = st.counted })
  | no p ↦ rw ((==_iff (bit_and w (ones_at k 0)) 0).1 (far p)) (record {
    rest = st.rest - k;
    lowest = record {
      is_set = sym (test_bit-shift k w (st.rest - k) st.rest (omega arith)) ∙ st.lowest.is_set;
      below =
          λ j q. sym (test_bit-shift k w j (k + j) refl) ∙ st.lowest.below (k + j) (omega arith);
    };
    range = omega (arith, st.range);
    counted = omega (arith, st.counted);
  })
]
  where
    near : st.rest < k → bit_and w (ones_at k 0) ≢ 0
    near p z = omega (
      arith,
      st.lowest.is_set,
      (bit_and-ones_at_iff w 0 k).0 z st.rest (omega arith) (omega arith),
    )

    far : ¬ (st.rest < k) → bit_and w (ones_at k 0) ≡ 0
    far p = (bit_and-ones_at_iff w 0 k).1 (λ i q l. st.lowest.below i (omega arith))

-- `ffs` is the place of the lowest set bit of a word.
pub ffs-Lowest : (w i : ℕ) → Lowest w i → i < 64 → ffs w ≡ i
unfolding ffs
ffs-Lowest w i low h = omega (arith, last.counted, last.range)
  where
    last :
        Stepped 1 i
          (ffs_step 1 (ffs_step 2 (ffs_step 4 (ffs_step 8 (ffs_step 16 (ffs_step 32 (w, 0)))))))
    last = ffs_step-Stepped 1 i _ (
        ffs_step-Stepped 2 i _ (
          ffs_step-Stepped 4 i _ (
            ffs_step-Stepped 8 i _ (
              ffs_step-Stepped 16 i _ (
                ffs_step-Stepped 32 i (w, 0)
                  (record { rest = i; lowest = low; range = h; counted = omega arith }))))))

-- Every word but zero has a lowest set bit.
place_of_nonzero_fuel : (n w : ℕ) → w ≤ n → w ≢ 0 → (i : ℕ) × Lowest w i
place_of_nonzero_fuel zero w h ne = absurd (ne (omega arith))
place_of_nonzero_fuel (suc n) w h ne = elim (ℕ_discrete (w % 2) 0) [
  | yes even ↦
      let (i, low) = place_of_nonzero_fuel n (w / 2) (omega arith) (omega arith) in
      (suc i, record { is_set = low.is_set; below = lower even i low })
  | no odd ↦ (0, record { is_set = omega arith; below = λ j p. absurd (omega arith) })
]
  where
    lower : w % 2 ≡ 0 → (i : ℕ) → Lowest (w / 2) i → (j : ℕ) → j < suc i → test_bit w j ≡ 0
    lower even i low zero p = even
    lower even i low (suc j) p = low.below j (omega arith)

pub place_of_nonzero : (w : ℕ) → w ≢ 0 → (i : ℕ) × Lowest w i
place_of_nonzero w ne = place_of_nonzero_fuel w w (omega arith) ne

module _ (w i : ℕ) (small : w < 2 ^ 64) (low : Lowest (complement 64 w) i) where
  place-lt : i < 64
  place-lt = ground (arith, low.is_set, test_bit-complement 64 w i small)

  ffz-place : ffz w ≡ i
  unfolding ffz
  ffz-place = ffs-Lowest (complement 64 w) i low place-lt

  place-is_clear : test_bit w i ≡ 0
  place-is_clear = ground (arith, low.is_set, test_bit-complement 64 w i small, test_bit-le-one w i)

  place-below : (j : ℕ) → j < i → test_bit w j ≡ 1
  place-below j p =
      ground (arith, place-lt, low.below j, test_bit-complement 64 w j small, test_bit-le-one w j)

-- On a word of 64 bits that is not all ones, ffz is the place of the lowest clear bit.
pub ffz_lem :
    (w : ℕ)
    → w < 2 ^ 64
    → w ≢ 2 ^ 64 - 1
    → (ffz w < 64) × (test_bit w (ffz w) ≡ 0) × ((j : ℕ) → j < ffz w → test_bit w j ≡ 1)
ffz_lem w h ne =
    rw (ffz-place w i h low) (place-lt w i h low, place-is_clear w i h low, place-below w i h low)
  where
    found : (i : ℕ) × Lowest (complement 64 w) i
    found = place_of_nonzero (complement 64 w) (unfold complement in omega arith)

    i : ℕ
    i = found.0

    low : Lowest (complement 64 w) i
    low = found.1
