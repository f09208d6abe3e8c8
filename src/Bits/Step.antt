-- ===== src/Bits/Step.antt =====
-- The lowest digit of `&` and `|`. The libraries define both by a recursion over the binary digits
-- of the first number, with that number itself as the count of digits to go.
use Prim.Native.Nat.{digits, bitwise, bit_and-bitwise, bit_or-bitwise}
use fio_ssd.Prelude.{
  ℕ, zero, suc, ◌+◌, ◌*◌, ◌/◌, ◌%◌, ◌≤◌, min, max, bit_and, bit_or, ◌≡◌, refl, sym, ap, ◌∙◌, arith,
}

module _ (rest : ℕ → ℕ) (digit : ℕ → ℕ → ℕ) where
  -- A longer count gives the same digits; `limit` bounds both counts, for the recursion.
  digits-bitwise :
      (limit count x y : ℕ)
      → count ≤ limit
      → x ≤ count
      → digits rest digit count x y ≡ bitwise rest digit x y
  digits-bitwise limit zero zero y below short = refl
  digits-bitwise limit (suc count) zero y below short = refl
  digits-bitwise limit zero (suc x) y below short = absurd (omega arith)
  digits-bitwise zero (suc count) (suc x) y below short = absurd (omega arith)
  digits-bitwise (suc limit) (suc count) (suc x) y below short =
      ap (λ high. high * 2 + digit (suc x % 2) (y % 2))
        (digits-bitwise limit count (suc x / 2) (y / 2) (omega arith) (omega arith)
          ∙ sym (digits-bitwise limit x (suc x / 2) (y / 2) (omega arith) (omega arith)))

  bitwise-half :
      (x y : ℕ)
      → bitwise rest digit (suc x) y
        ≡ bitwise rest digit (suc x / 2) (y / 2) * 2 + digit (suc x % 2) (y % 2)
  bitwise-half x y =
      ap (λ high. high * 2 + digit (suc x % 2) (y % 2))
        (digits-bitwise x x (suc x / 2) (y / 2) (omega arith) (omega arith))

pub bit_and_step : (x y : ℕ) → bit_and x y ≡ bit_and (x / 2) (y / 2) * 2 + min (x % 2) (y % 2)
bit_and_step zero y = rw (bit_and-bitwise 0 y, bit_and-bitwise 0 (y / 2)) (omega arith)
bit_and_step (suc x) y =
    bit_and-bitwise (suc x) y
    ∙ bitwise-half (λ _. zero) min x y
    ∙ ap (λ high. high * 2 + min (suc x % 2) (y % 2)) (sym (bit_and-bitwise (suc x / 2) (y / 2)))

pub bit_or_step : (x y : ℕ) → bit_or x y ≡ bit_or (x / 2) (y / 2) * 2 + max (x % 2) (y % 2)
bit_or_step zero y = omega (arith, bit_or-bitwise 0 y, bit_or-bitwise 0 (y / 2))
bit_or_step (suc x) y =
    bit_or-bitwise (suc x) y
    ∙ bitwise-half (λ t. t) max x y
    ∙ ap (λ high. high * 2 + max (suc x % 2) (y % 2)) (sym (bit_or-bitwise (suc x / 2) (y / 2)))
