-- ===== src/Buflen.antt =====
-- The length of an io_u, io_u.c. A list of draws stands for the random numbers, one for each round;
-- `none` is that they run out, or a division by zero.
pub mod Align
pub mod Fits
mod Tests
use fio_ssd.Prelude.{
  ℕ, zero, suc, ◌+◌, ◌-◌, ◌*◌, ◌/◌, ◌^◌, bit_and, Option, none, some, List, [], ◌∷◌, Bool, true,
  false, not, ◌&&◌, ltb, leb, ◌==◌, if◌then◌else◌,
}
use fio_ssd.Bits.{complement}
use fio_ssd.RandMap.{u32, u64}

-- The options of one direction, and what the io_u and its file say of the place. `rand_max` is
-- OS_RAND_MAX or FRAND_MAX, and `scale r` is `maxbs * (r / (rand_max + 1.0))` in `double`, cut to an
-- integer.
pub record Sizes : Type 0 where
  pub min_bs : ℕ
  pub max_bs : ℕ
  pub bssplit : List (ℕ × ℕ)
  pub bs_unaligned : Bool
  pub start_offset : ℕ
  pub io_size : ℕ
  pub offset : ℕ
  pub rand_max : ℕ
  pub scale : ℕ → ℕ

-- is_power_of_2
unfoldable pub is_power_of_2 : ℕ → Bool
is_power_of_2 val = not (val == 0) && (bit_and val (val - 1) == 0)

-- io_u_fits
unfoldable pub io_u_fits : Sizes → ℕ → Bool
io_u_fits o buflen = leb (u64 (o.offset + buflen)) (u64 (o.io_size + o.start_offset))

-- The loop over bssplit: the first size whose share is reached and that fits, or else the last.
unfoldable pub pick_split : Sizes → ℕ → ℕ → List (ℕ × ℕ) → ℕ → ℕ
pick_split o r perc [] buflen = buflen
pick_split o r perc ((bs, share) ∷ splits) buflen =
    let rest = pick_split o r (perc + share) splits bs in
    if leb r (o.rand_max / 100 * (perc + share)) && io_u_fits o bs then bs else rest

-- The size that a draw gives, before it is aligned.
unfoldable pub draw_size : Sizes → ℕ → ℕ
draw_size o r = elim o.bssplit [
  | [] ↦ let buflen = 1 + o.scale r in if ltb buflen o.min_bs then o.min_bs else buflen
  | (split ∷ splits) ↦ pick_split o r 0 (split ∷ splits) 0
]

-- `(buflen + minbs - 1) & ~(minbs - 1)`
unfoldable pub align_up : ℕ → ℕ → ℕ
align_up buflen minbs = bit_and (u32 (buflen + minbs - 1)) (complement 32 (minbs - 1))

unfoldable pub round_size : Sizes → ℕ → ℕ
round_size o buflen =
    if not o.bs_unaligned && is_power_of_2 o.min_bs then align_up buflen o.min_bs else buflen

-- The do-while of __get_next_buflen.
unfoldable pub buflen_loop : Sizes → List ℕ → Option ℕ
buflen_loop o [] = none
buflen_loop o (r ∷ draws) =
    let buflen = round_size o (draw_size o r) in
    let rest = buflen_loop o draws in if io_u_fits o buflen then some buflen else rest

-- __get_next_buflen
unfoldable pub get_next_buflen : Sizes → List ℕ → Option ℕ
get_next_buflen o draws =
    if o.min_bs == o.max_bs
    then some o.min_bs
    else if not (io_u_fits o o.min_bs)
    then some 0
    else elim (buflen_loop o draws) [
      | none ↦ none
      | some buflen ↦ if o.min_bs == 0 then none else some (buflen / o.min_bs * o.min_bs)
    ]
