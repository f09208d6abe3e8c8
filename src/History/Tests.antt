-- ===== src/History/Tests.antt =====
-- Tests of the history, and its theorems at concrete inputs.
use fio_ssd.Prelude.{
  arith, refl, ℕ, ◌+◌, ◌≤◌, ◌<◌, ◌≡◌, ◌↔◌, Option, none, some, [], ◌∷◌, true, false, ◌==◌, ltb,
  if◌then◌else◌,
}
use fio_ssd.Bits.{complement}
use fio_ssd.SegMap.{set_bit, shl_int, start}
use fio_ssd.History.{
  Key, Piece, Hist, find_in, hash, iohist_hash_find, iohist_hash_del, iohist_hash_add,
  overlap_divide, split_tail,
}
use fio_ssd.History.Frame.{Content, content_of, put, IsHistory}
use fio_ssd.History.Ops.{added, added-IsHistory}
use fio_ssd.History.Divide.{IsOverlap}
use fio_ssd.History.Cover.{Covers, Disjoint, overlap_divide-Covers}
use fio_ssd.History.RoundTrip.{iohist_hash_del-add}

abbrev by_block : Key → ℕ
by_block (f, b) = b

-- Blocks 10 to 13 of file 1, at address 7.
abbrev piece : Piece
piece = record {
  file = 1;
  block = 10;
  nr_blk = 4;
  unique_version = 5;
  hash_list = none;
  hashed = false;
  on_list = true;
}

abbrev unhashed : Hist
unhashed = record {
  heap = λ a. if a == 7 then some piece else none;
  iohist_hash = λ h. [];
  io_hist_list = 7 ∷ [];
  io_hist_len = 1;
}

abbrev no_pieces : Key → Option Content
no_pieces k = none

unhashed-IsHistory : IsHistory by_block unhashed no_pieces
unhashed-IsHistory = record {
  nodes = λ h a i. absurd i;
  unique = λ h a b p q i. absurd i;
  stands = λ key a p i. absurd i;
}

abbrev history : Hist
history = added by_block unhashed 7 piece

abbrev one_piece : Key → Option Content
one_piece = put no_pieces (1, 10) (some (content_of piece))

history-IsHistory : IsHistory by_block history one_piece
history-IsHistory = added-IsHistory by_block unhashed-IsHistory 7 piece (λ h i. i) refl

at_ten : (k : ℕ) (c : Content) → one_piece (1, k) ≡ some c → k ≡ 10
at_ten k c e = ground arith

history-Disjoint : Disjoint one_piece 1
history-Disjoint k l c d e e' lt = absurd (omega (arith, at_ten k c e, at_ten l d e', lt))

-- Blocks 11 and 12 are written again: 10 and 13 stay.
over : IsOverlap one_piece 1 10 11 2 (content_of piece)
over = record {
  present = refl;
  listed = refl;
  behind = omega arith;
  before = omega arith;
  small = (omega arith, omega arith);
  alone = λ b lo hi. ground arith;
}

cut_13 : set_bit (0 ∷ []) 0 13 start ≡ some (134217728 ∷ [])
unfolding set_bit shl_int complement
cut_13 = refl

found_13 :
    elim (overlap_divide by_block (λ td. 8) 1 10 11 2 (0 ∷ [], history)) [
      | none ↦ none
      | some (map2, td) ↦ iohist_hash_find by_block td (1, 13)
    ]
    ≡ some (some 8)
unfolding overlap_divide split_tail iohist_hash_find iohist_hash_add find_in hash set_bit shl_int
    complement
found_13 = refl

overlap_divide-Covers_example :
    (td' : Hist) × (m' : Key → Option Content) × (overlap_divide by_block
        (λ td. 8)
        1
        10
        11
        2
        (0 ∷ [], history)
      ≡ some (if ltb (11 + 2) (10 + 4) then 134217728 ∷ [] else 0 ∷ [], td'))
    × IsHistory by_block td' m'
    × Disjoint m' 1
    × ((b v : ℕ)
        → Covers m' 1 b v
          ↔ (Covers one_piece 1 b v × ¬ ((10 ≤ b) × (b < 10 + 4) × (11 ≤ b) × (b < 11 + 2))))
overlap_divide-Covers_example =
    overlap_divide-Covers by_block (λ td. 8) history one_piece 1 10 11 2 (content_of piece) (0 ∷ [])
      (134217728 ∷ []) history-IsHistory history-Disjoint over cut_13 refl

iohist_hash_del-add_example :
    (td' td'' : Hist) × (iohist_hash_add by_block unhashed 7 ≡ some (td', none))
    × (iohist_hash_find by_block td' (1, 10) ≡ some (some 7))
    × (iohist_hash_del by_block td' 7 ≡ some td'')
    × IsHistory by_block td'' no_pieces
iohist_hash_del-add_example =
    iohist_hash_del-add by_block unhashed-IsHistory 7 piece (λ h i. i) refl refl refl
