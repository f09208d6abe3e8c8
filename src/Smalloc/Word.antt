-- ===== src/Smalloc/Word.antt =====
-- One word of a pool's bitmap: what the masks of smalloc.c test and change.
use fio_ssd.Prelude.{
  ℕ, ◌+◌, ◌*◌, ◌/◌, ◌%◌, ◌^◌, ◌≤◌, ◌<◌, bit_and, bit_or, ◌≡◌, refl, sym, ap, ◌∙◌, arith, List, Bool,
  true, ltb, leb, ◌==◌, ==_iff, if◌then◌else◌, ◌&&◌, ◌↔◌, length, get_or, set, length-set,
  get_or-set_self, get_or-set_ne, ℕ_discrete, some,
}
use fio_ssd.Bits.{test_bit, ones_at, complement}
use fio_ssd.Bits.Laws.{
  test_bit-le-one, test_bit-bit_and, test_bit-complement, test_bit-above, lt_of_bits, eq_of_bits,
}
use fio_ssd.Bits.Mask.{ones_at-lt, test_bit-ones_at}
use fio_ssd.Bits.Run.{bit_and-ones_at_iff, test_bit-mark}
use fio_ssd.Smalloc.{run_mask, mask_cmp, mask_clear, mask_set}

-- The bit of block `k`: 1 while the block is in use.
abbrev pub used : List ℕ → ℕ → ℕ
used m k = test_bit (get_or m (k / 32) 0) (k % 32)

-- The `n` blocks from `k` on are all free (`v` is 0), or all in use (`v` is 1).
abbrev pub AllAre : ℕ → List ℕ → ℕ → ℕ → Type 0
AllAre v m k n = (j : ℕ) → k ≤ j → j < k + n → used m j ≡ v

-- The bitmap holds 32-bit words.
abbrev pub Words : List ℕ → Type 0
Words m = (i : ℕ) → get_or m i 0 < 2 ^ 32

-- `m'` is `m` with the `n` blocks from `k` on made free or used.
pub record Makes (v : ℕ) (m : List ℕ) (k n : ℕ) (m' : List ℕ) : Type 0 where
  pub same_length : length m' ≡ length m
  pub words : Words m → Words m'
  pub bits : (j : ℕ) → used m' j ≡ (if leb k j && ltb j (k + n) then v else used m j)

-- The bits of one word.
abbrev pub RunIs : ℕ → ℕ → ℕ → ℕ → Type 0
RunIs v w b n = (i : ℕ) → b ≤ i → i < b + n → test_bit w i ≡ v

-- In a word the mask is the run of ones.
pub run_mask_lem : (n b : ℕ) → b + n ≤ 32 → 0 < n → run_mask n b ≡ some (ones_at n b)
unfolding run_mask ones_at
run_mask_lem n b h pos = elim (ℕ_discrete n 32) [
  | yes e ↦ ground (arith, ap (λ (t : ℕ). 2 ^ t) e, ap (λ (t : ℕ). 2 ^ t) (base e))
  | no ne ↦ ground (arith, ones_at-lt 32 n b h)
]
  where
    base : n ≡ 32 → b ≡ 0
    base e = omega arith

-- A run of blocks in word `i` is a run of its bits.
pub AllAre-RunIs_iff :
    (v : ℕ) (m : List ℕ) (i b n : ℕ)
    → b + n ≤ 32
    → AllAre v m (32 * i + b) n ↔ RunIs v (get_or m i 0) b n
AllAre-RunIs_iff v m i b n fits = (there, back)
  where
    there : AllAre v m (32 * i + b) n → RunIs v (get_or m i 0) b n
    there all k p q =
        let j : ℕ = 32 * i + k in
        let same : i ≡ j / 32 = omega arith in
        let bit : k ≡ j % 32 = omega arith in
        ap (λ t. test_bit (get_or m t 0) k) same
        ∙ ap (test_bit (get_or m (j / 32) 0)) bit
        ∙ all j (omega arith) (omega arith)

    back : RunIs v (get_or m i 0) b n → AllAre v m (32 * i + b) n
    back all j p q =
        let same : j / 32 ≡ i = omega arith in
        ap (λ t. test_bit (get_or m t 0) (j % 32)) same ∙ all (j % 32) (omega arith) (omega arith)

-- A changed word changes the bits of its blocks.
pub Makes-word :
    (v : ℕ) (m : List ℕ) (i b n w' : ℕ)
    → i < length m
    → b + n ≤ 32
    → (get_or m i 0 < 2 ^ 32 → w' < 2 ^ 32)
    → ((k : ℕ)
        → k < 32
        → test_bit w' k ≡ (if leb b k && ltb k (b + n) then v else test_bit (get_or m i 0) k))
    → Makes v m (32 * i + b) n (set m i w')
Makes-word v m i b n w' inside fits narrow bits = record {
  words = λ all j. elim (ℕ_discrete i j) [
    | yes e ↦ rw (sym e, get_or-set_self m i w' 0 inside) (narrow (all i))
    | no ne ↦ rw (get_or-set_ne m i j w' 0 ne) (all j)
  ];
  same_length = length-set m i w';
  bits = λ j. elim (ℕ_discrete i (j / 32)) [
    | yes e ↦
        ap (λ t. test_bit (get_or (set m i w') t 0) (j % 32)) (sym e)
        ∙ ap (λ w. test_bit w (j % 32)) (get_or-set_self m i w' 0 inside)
        ∙ bits (j % 32) (omega arith)
        ∙ ground (arith, ap (λ t. test_bit (get_or m t 0) (j % 32)) e)
    | no ne ↦ ap (λ w. test_bit w (j % 32)) (get_or-set_ne m i (j / 32) w' 0 ne) ∙ ground arith
  ];
}

-- mask_cmp: whether all blocks of the mask are free.
pub mask_cmp_lem :
    (w b n : ℕ)
    → (free : Bool) × (mask_cmp w (ones_at n b) ≡ some (w, free)) × ((free ≡ true) ↔ RunIs 0 w b n)
unfolding mask_cmp
mask_cmp_lem w b n = (
  bit_and w (ones_at n b) == 0,
  refl,
  (
    λ e. (bit_and-ones_at_iff w b n).0 ((==_iff (bit_and w (ones_at n b)) 0).0 e),
    λ free. (==_iff (bit_and w (ones_at n b)) 0).1 ((bit_and-ones_at_iff w b n).1 free),
  ),
)

-- mask_set does not fault on free blocks, and makes them used.
pub mask_set_lem :
    (w b n : ℕ)
    → b + n ≤ 32
    → RunIs 0 w b n
    → (w' : ℕ) × (mask_set w (ones_at n b) ≡ some (w', true))
      × (w < 2 ^ 32 → w' < 2 ^ 32)
      × ((i : ℕ) → i < 32 → test_bit w' i ≡ (if leb b i && ltb i (b + n) then 1 else test_bit w i))
unfolding mask_set
mask_set_lem w b n fits free = (
  bit_or w (ones_at n b),
  rw ((==_iff (bit_and w (ones_at n b)) 0).1 ((bit_and-ones_at_iff w b n).1 free)),
  λ narrow.
      lt_of_bits 32 _ (λ i p. ground (arith, test_bit-mark w b n i, test_bit-above 32 w i narrow)),
  λ i p. test_bit-mark w b n i,
)

-- mask_clear does not fault on used blocks, and makes them free.
pub mask_clear_lem :
    (w b n : ℕ)
    → b + n ≤ 32
    → RunIs 1 w b n
    → (w' : ℕ) × (mask_clear w (ones_at n b) ≡ some (w', true))
      × (w < 2 ^ 32 → w' < 2 ^ 32)
      × ((i : ℕ) → i < 32 → test_bit w' i ≡ (if leb b i && ltb i (b + n) then 0 else test_bit w i))
unfolding mask_clear
mask_clear_lem w b n fits all = (
  bit_and w (complement 32 (ones_at n b)),
  rw ((==_iff (bit_and w (ones_at n b)) (ones_at n b)).1 whole),
  λ narrow. lt_of_bits 32 _ (λ i p.
      ground
        (arith, test_bit-bit_and w (complement 32 (ones_at n b)) i, test_bit-above 32 w i narrow)),
  λ i p. ground (
    arith,
    test_bit-bit_and w (complement 32 (ones_at n b)) i,
    test_bit-complement 32 (ones_at n b) i (ones_at-lt 32 n b fits),
    test_bit-ones_at n b i,
    test_bit-le-one w i,
  ),
)
  where
    whole : bit_and w (ones_at n b) ≡ ones_at n b
    whole = eq_of_bits _ _ λ i. ground (
      arith,
      test_bit-bit_and w (ones_at n b) i,
      test_bit-ones_at n b i,
      test_bit-le-one w i,
      all i,
    )
