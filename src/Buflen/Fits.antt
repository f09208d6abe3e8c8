-- ===== src/Buflen/Fits.antt =====
-- What __get_next_buflen gives: whole blocks that fit.
use native.Mathlib.Nat.{
  div-mul-le_self, lt-div-mul-add, mul-mod_left, le-div_iff_mul-le, mul-le-mul_right,
  div-eq_of_lt-le,
}
use fio_ssd.Prelude.{
  arith, ap, ◌∙◌, refl, ℕ, ◌+◌, ◌-◌, ◌*◌, ◌/◌, ◌%◌, ◌^◌, ◌≤◌, ◌<◌, ◌≡◌, ◌≢◌, ◌⊎◌, inl, inr,
  Bool-cases, List, [], ◌∷◌, some, Bool, true, false, not, ◌&&◌, ◌==◌, ==_iff_ne,
}
use fio_ssd.Buflen.{
  Sizes, is_power_of_2, io_u_fits, draw_size, round_size, buflen_loop, get_next_buflen,
}
use fio_ssd.Buflen.Align.{align_up-eq}

-- The sums of the place do not wrap.
pub record IsPlaced (o : Sizes) : Type 0 where
  pub min_pos : 0 < o.min_bs
  pub min_small : o.min_bs < 2 ^ 31
  pub end_small : o.io_size + o.start_offset < 2 ^ 64
  pub offset_small : o.offset < 2 ^ 63

-- The io_u ends in the io region.
abbrev pub Ends : Sizes → ℕ → Type 0
Ends o buflen = o.offset + buflen ≤ o.io_size + o.start_offset

fits-Ends : (o : Sizes) (b : ℕ) → IsPlaced o → b < 2 ^ 63 → io_u_fits o b ≡ true → Ends o b
unfolding io_u_fits
fits-Ends o b is small e = ground (arith, is.end_small, is.offset_small)

Ends-fits : (o : Sizes) (b : ℕ) → IsPlaced o → b < 2 ^ 63 → Ends o b → io_u_fits o b ≡ true
unfolding io_u_fits
Ends-fits o b is small e = ground (arith, is.end_small, is.offset_small)

abbrev pub HasSmall : Sizes → List ℕ → Type 0
HasSmall o [] = ⊥
HasSmall o (r ∷ draws) = (o.scale r < o.min_bs) ⊎ HasSmall o draws

-- Whole blocks of a size that fits.
abbrev pub Whole : Sizes → ℕ → Type 0
Whole o b = (b % o.min_bs ≡ 0) × Ends o b

and_right : (a b : Bool) → (a && b) ≡ true → b ≡ true
and_right a b e = ground arith

module _ (o : Sizes) (is : IsPlaced o) (unsplit : o.bssplit ≡ [])
    (drawn : (r : ℕ) → o.scale r < 2 ^ 31) where
  -- A draw gives at least the smallest size.
  draw_size-le : (r : ℕ) → (o.min_bs ≤ draw_size o r) × (draw_size o r ≤ 2 ^ 31)
  unfolding draw_size
  draw_size-le r = rw unsplit (ground (arith, drawn r, is.min_small))

  draw_size_small : (r : ℕ) → o.scale r < o.min_bs → draw_size o r ≡ o.min_bs
  unfolding draw_size
  draw_size_small r h = rw unsplit (ground arith)

  round_size-le : (b : ℕ) → b ≤ 2 ^ 31 → (b ≤ round_size o b) × (round_size o b < 2 ^ 32)
  unfolding round_size
  round_size-le b h = elim (Bool-cases (not o.bs_unaligned && is_power_of_2 o.min_bs)) [
    | inl aligned ↦
        rw
          (
            aligned,
            align_up-eq b o.min_bs (and_right (not o.bs_unaligned) (is_power_of_2 o.min_bs) aligned)
                (omega (arith, is.min_small)) (omega (arith, is.min_small)),
          )
          (omega (
            arith,
            lt-div-mul-add {a = b + o.min_bs - 1} {b = o.min_bs} is.min_pos,
            div-mul-le_self (b + o.min_bs - 1) o.min_bs,
            is.min_small,
          ))
    | inr as_is ↦ rw as_is (omega arith)
  ]

  round_size_min : round_size o o.min_bs ≡ o.min_bs
  unfolding round_size
  round_size_min = elim (Bool-cases (not o.bs_unaligned && is_power_of_2 o.min_bs)) [
    | inl aligned ↦
        rw
          (
            aligned,
            align_up-eq o.min_bs o.min_bs
                (and_right (not o.bs_unaligned) (is_power_of_2 o.min_bs) aligned)
                (omega (arith, is.min_small)) (omega (arith, is.min_small)),
          )
          once
    | inr as_is ↦ rw as_is refl
  ]
    where
      once : (o.min_bs + o.min_bs - 1) / o.min_bs * o.min_bs ≡ o.min_bs
      once =
          ap (λ (t : ℕ). t * o.min_bs)
            (div-eq_of_lt-le {k = 1} o.min_bs (omega arith) (omega (arith, is.min_pos)))
          ∙ omega arith

  -- Some draw gives the smallest size, if none before it fits.
  buflen_loop-Ends :
      (draws : List ℕ)
      → HasSmall o draws
      → Ends o o.min_bs
      → (b : ℕ) × (buflen_loop o draws ≡ some b) × (o.min_bs ≤ b) × (b < 2 ^ 32) × Ends o b
  unfolding buflen_loop
  buflen_loop-Ends [] small fits = absurd small
  buflen_loop-Ends (r ∷ draws) small fits =
      elim (Bool-cases (io_u_fits o (round_size o (draw_size o r)))) [
        | inl good ↦
            let (low, high) = draw_size-le r in
            let (up, narrow) = round_size-le (draw_size o r) high in
            (
              round_size o (draw_size o r),
              rw good refl,
              omega arith,
              narrow,
              fits-Ends o (round_size o (draw_size o r)) is (omega arith) good,
            )
        | inr bad ↦ rw bad (elim small [
          | inl here ↦ absurd (
              cc (
                bad,
                ap (λ b. io_u_fits o (round_size o b)) (draw_size_small r here),
                ap (io_u_fits o) round_size_min,
                Ends-fits o o.min_bs is (omega (arith, is.min_small)) fits,
              ))
          | inr later ↦ buflen_loop-Ends draws later fits
        ])
      ]

  -- With no bssplit, sizes below 2 ^ 31, a positive minimum that differs from the maximum, sums
  -- that do not wrap and a minimum that fits at the offset, __get_next_buflen returns once a draw
  -- is below the minimum, at the latest: with a multiple of the minimum, at least once the minimum,
  -- that ends in the io region of the file, whether bs_unaligned is set or not.
  pub get_next_buflen-Whole :
      (draws : List ℕ)
      → HasSmall o draws
      → o.min_bs ≢ o.max_bs
      → Ends o o.min_bs
      → (b : ℕ) × (get_next_buflen o draws ≡ some b) × (o.min_bs ≤ b) × Whole o b
  unfolding get_next_buflen
  get_next_buflen-Whole draws small ne fits =
      let (b, e, low, narrow, ends) = buflen_loop-Ends draws small fits in
      (
        b / o.min_bs * o.min_bs,
        rw
            (
              (==_iff_ne o.min_bs o.max_bs).1 ne,
              Ends-fits o o.min_bs is (omega (arith, is.min_small)) fits,
              e,
              not_zero,
            )
            refl,
        omega (
          arith,
          mul-le-mul_right {m = 1} {n = b / o.min_bs} o.min_bs
              ((le-div_iff_mul-le is.min_pos).1 (omega arith)),
        ),
        (mul-mod_left (b / o.min_bs) o.min_bs, omega (arith, div-mul-le_self b o.min_bs)),
      )
    where
      not_zero : (o.min_bs == 0) ≡ false
      not_zero = ground (arith, is.min_pos)
