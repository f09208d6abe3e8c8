-- ===== src/Bits.antt =====
-- Words as native numbers, read bit by bit. `&`, `|`, `~` and the run masks of the block maps are
-- described by the value of every bit, so that proofs need no facts about powers of two.
pub mod Step
pub mod Laws
pub mod Mask
pub mod Run
use fio_ssd.Prelude.{ℕ, zero, suc, ◌+◌, ◌-◌, ◌*◌, ◌/◌, ◌%◌, ◌^◌}

-- Bit `i` of `w`, 0 or 1.
abbrev pub test_bit : ℕ → ℕ → ℕ
test_bit w zero = w % 2
test_bit w (suc i) = test_bit (w / 2) i

-- `n` ones from bit `b` up: ((1 << n) - 1) << b, before it is cut to the width of the word.
unfoldable pub ones_at : ℕ → ℕ → ℕ
ones_at n b = (2 ^ n - 1) * 2 ^ b

-- `~w` in a word of `k` bits.
unfoldable pub complement : ℕ → ℕ → ℕ
complement k w = 2 ^ k - 1 - w
