-- ===== src/SegMap/Tests.antt =====
-- Tests of the map of segments, and its theorems at concrete inputs.
use fio_ssd.Prelude.{
  ap, ℕ_discrete, ◌≢◌, arith, refl, ℕ, zero, suc, ◌+◌, ◌≤◌, ◌<◌, ◌≡◌, List, [], ◌∷◌, Option, some,
  none, length,
}
use fio_ssd.Bits.{complement}
use fio_ssd.SegMap.{
  set_bit, get_blk, test_blk, shl_int, before_start, find_start, in_loop, insert_seg, remove_loop,
  remove_seg, empty, inside,
}
use fio_ssd.SegMap.Insert.{blk}
use fio_ssd.SegMap.Laws.{IsSegment, insert_seg-beyond, remove_seg-insert_seg}

-- A map of one word, with a segment of blocks 0 and 1.
abbrev one_segment : List ℕ
one_segment = 14 ∷ []

-- A handler that changes nothing and counts its calls.
abbrev count_calls : ℕ → ℕ → ℕ → List ℕ × ℕ → Option (List ℕ × ℕ)
count_calls block first len (map2, calls) = some (map2, calls + 1)

-- Blocks 3 to 5: START, IN and IN.
inserted : insert_seg count_calls 3 3 (one_segment, 0) ≡ some (3982 ∷ [], 0)
unfolding insert_seg before_start in_loop get_blk test_blk set_bit shl_int complement
inserted = refl

-- The handler is called for the segment that the new one falls in.
overlapping : insert_seg count_calls 1 2 (one_segment, 0) ≡ some (58 ∷ [], 1)
unfolding insert_seg before_start find_start in_loop get_blk test_blk set_bit shl_int complement
overlapping = refl

removed : remove_seg (3982 ∷ []) 1 3 ≡ some (14 ∷ [])
unfolding remove_seg remove_loop test_blk set_bit shl_int complement
removed = refl

three_free : (j : ℕ) → 3 ≤ j → j < 6 → blk one_segment j ≡ empty
three_free zero r t = absurd (omega arith)
three_free (suc zero) r t = absurd (omega arith)
three_free (suc (suc zero)) r t = absurd (omega arith)
three_free (suc (suc (suc zero))) r t = refl
three_free (suc (suc (suc (suc zero)))) r t = refl
three_free (suc (suc (suc (suc (suc zero))))) r t = refl
three_free (suc (suc (suc (suc (suc (suc j)))))) r t = absurd (omega arith)

remove_seg-insert_seg_example :
    (m' : List ℕ) × (insert_seg count_calls 3 3 (one_segment, 0) ≡ some (m', 0))
    × IsSegment m' 3 3
    × ((m'' : List ℕ) × (remove_seg m' 1 3 ≡ some m'')
        × (length m'' ≡ 1)
        × ((j : ℕ) → blk m'' j ≡ blk one_segment j))
remove_seg-insert_seg_example =
    remove_seg-insert_seg count_calls 0 one_segment 1 3 3 (omega arith) (omega arith) (omega arith)
      (omega arith) (omega arith) three_free (omega arith)

one-IsSegment : IsSegment one_segment 0 2
one-IsSegment = record { starts = refl; goes_on = goes_on; ends = omega arith }
  where
    goes_on : (j : ℕ) → 0 < j → j < 2 → blk one_segment j ≡ inside
    goes_on zero r t = absurd (omega arith)
    goes_on (suc zero) r t = refl
    goes_on (suc (suc j)) r t = absurd (omega arith)

-- An empty word.
abbrev clear : List ℕ
clear = 0 ∷ []

clear_cells : (j : ℕ) → 14 ≤ j → j < 16 → blk clear j ≡ empty
clear_cells j r t = elim (ℕ_discrete j 14) [
  | yes first ↦ ap (blk clear) first
  | no other ↦ ap (blk clear) (last other)
]
  where
    last : j ≢ 14 → j ≡ 15
    last other = omega arith

insert_seg-beyond_example : insert_seg count_calls 14 2 (clear, 0) ≡ none
insert_seg-beyond_example =
    insert_seg-beyond count_calls 0 clear 14 2 (omega arith) (omega arith) (omega arith) clear_cells
      (omega arith)
