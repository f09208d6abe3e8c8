-- ===== src/RandMap/Mark.antt =====
-- mark_random_map of io_u.c: which blocks it marks, and how it cuts the io_u.
use fio_ssd.Prelude.{
  ℕ, zero, suc, ◌+◌, ◌-◌, ◌*◌, ◌/◌, ◌%◌, ◌^◌, ◌≤◌, ◌<◌, bit_or, ◌≡◌, ◌≢◌, refl, arith, List, true,
  Option, some, ltb, leb, ◌==◌, ==_iff_ne, if◌then◌else◌, ◌&&◌, length, get_or, set, length-set,
  get_elem?-eq-get_or, ◌∙◌, ap, dec_lt, ℕ_discrete,
}
use fio_ssd.Bits.{test_bit}
use fio_ssd.Bits.Run.{bit_and-one_bit}
use fio_ssd.RandMap.{run_mask, shrink, this_word, random_map_free, mark_loop}
use fio_ssd.RandMap.Word.{
  FreeRun, FreeRun-RunFree_iff, block_bit, block_bit-mark, run_mask_lem, Shrunk, shrink-Shrunk,
}

-- The map `m'` is `m` with the `n` blocks from `block` on marked.
pub record Marks (m : List ℕ) (block n : ℕ) (m' : List ℕ) : Type 0 where
  pub same_length : length m' ≡ length m
  pub bits :
      (j : ℕ) → block_bit m' j ≡ (if leb block j && ltb j (block + n) then 1 else block_bit m j)

-- `out` is the map and the number of blocks that a marking of `left` blocks from `block` on gives,
-- `blocks` being marked before: the longest free run is taken, and nothing else is changed.
pub record Marked (m : List ℕ) (block left blocks : ℕ) (out : Option (List ℕ × ℕ)) : Type 0 where
  pub map' : List ℕ
  pub count : ℕ
  pub returns : out ≡ some (map', blocks + count)
  pub count-le : count ≤ left
  pub marks : Marks m block count map'
  pub free : FreeRun m block count
  pub stop : count < left → block_bit m (block + count) ≡ 1

-- `random_map_free` reads the block's bit.
pub random_map_free_lem :
    (m : List ℕ) (block : ℕ)
    → block / 64 < length m
    → block / 64 < 2 ^ 32
    → random_map_free m block ≡ some (block_bit m block == 0)
unfolding random_map_free
random_map_free_lem m block inside small = ground (
  arith,
  get_elem?-eq-get_or m (block / 64) 0,
  bit_and-one_bit (get_or m (block / 64) 0) (block % 64),
)

pub Marks-none : (m : List ℕ) (block : ℕ) → Marks m block 0 m
Marks-none m block = record { same_length = refl; bits = λ j. ground arith }

-- Two markings in a row make one.
pub Marks-append :
    (m m₁ m₂ : List ℕ) (block n k : ℕ)
    → Marks m block n m₁
    → Marks m₁ (block + n) k m₂
    → Marks m block (n + k) m₂
Marks-append m m₁ m₂ block n k a b = record {
  same_length = b.same_length ∙ a.same_length;
  bits = λ j. ground (arith, a.bits j, b.bits j);
}

Marked-none :
    (m : List ℕ) (block left blocks : ℕ) (out : Option (List ℕ × ℕ))
    → out ≡ some (m, blocks)
    → (0 < left → block_bit m block ≡ 1)
    → Marked m block left blocks out
Marked-none m block left blocks out e stop = record {
  map' = m;
  count = 0;
  returns = e ∙ ap (λ n. some (m, n)) (omega arith);
  count-le = omega arith;
  marks = Marks-none m block;
  free = λ j p q. absurd (omega arith);
  stop = λ p. ap (block_bit m) {x = block + 0} {y = block} (omega arith) ∙ stop p;
}

-- The state in which a round of a marking loop starts.
pub record Fits (m : List ℕ) (num_maps block left : ℕ) : Type 0 where
  pub allocated : num_maps ≤ length m
  pub small : num_maps ≤ 2 ^ 32
  pub inside : block + left ≤ 64 * num_maps

module _ (m : List ℕ) (num_maps block left : ℕ) (fits : Fits m num_maps block (suc left)) where
  word : ℕ
  word = get_or m (block / 64) 0

  taken : ℕ
  unfolding word
  taken = shrink word (block % 64) (this_word (suc left) (block % 64))

  marked : List ℕ
  unfolding word taken
  marked = set m (block / 64) (bit_or word (run_mask taken (block % 64)))

  taken-Shrunk : Shrunk word (block % 64) (this_word (suc left) (block % 64)) taken
  unfolding word taken
  taken-Shrunk = shrink-Shrunk _ _ _ (ground arith)

  marked-Marks : Marks m block taken marked
  unfolding marked
  marked-Marks = record {
    same_length = length-set m _ _;
    bits = λ j. rw (run_mask_lem taken (block % 64) (ground (arith, taken-Shrunk.le))) (
        block_bit-mark m block taken j (omega (arith, fits.allocated, fits.inside))
          (ground (arith, taken-Shrunk.le)));
  }

  taken-FreeRun : FreeRun m block taken
  unfolding word
  taken-FreeRun =
      (FreeRun-RunFree_iff m block taken (ground (arith, taken-Shrunk.le))).1 taken-Shrunk.free

  taken-le : taken ≤ suc left
  taken-le = ground (arith, taken-Shrunk.le)

  Fits-suc : Fits marked num_maps (block + taken) (suc left - taken)
  Fits-suc = record {
    allocated = omega (arith, marked-Marks.same_length, fits.allocated);
    small = fits.small;
    inside = omega (arith, taken-le, fits.inside);
  }

  -- Nothing is taken only where the block itself is set.
  taken-zero : taken ≡ 0 → block_bit m block ≡ 1
  unfolding word
  taken-zero e =
      ap (test_bit (get_or m (block / 64) 0)) {x = block % 64} {y = block % 64 + taken}
        (omega arith)
      ∙ taken-Shrunk.stop (ground arith)

  mark_loop-suc :
      (fuel seq_nr blocks : ℕ)
      → blocks + suc left < 2 ^ 32
      → mark_loop (suc fuel) seq_nr num_maps true m block (suc left) blocks ≡ (
          if taken == 0
          then some (m, blocks)
          else mark_loop fuel seq_nr num_maps true marked
              (block + taken)
              (suc left - taken)
              (blocks + taken))
  unfolding mark_loop marked
  mark_loop-suc fuel seq_nr blocks small = ground (
    arith,
    fits.allocated,
    taken-Shrunk.le,
    random_map_free_lem m block,
    get_elem?-eq-get_or m (block / 64) 0,
    taken-FreeRun block,
  )

  Marked-suc :
      (blocks : ℕ) (out : Option (List ℕ × ℕ))
      → taken ≢ 0
      → Marked marked (block + taken) (suc left - taken) (blocks + taken) out
      → Marked m block (suc left) blocks out
  unfolding word
  Marked-suc blocks out ne rest = record {
    map' = rest.map';
    count = taken + rest.count;
    returns = rest.returns ∙ ap (λ n. some (rest.map', n)) (omega arith);
    count-le = omega (arith, rest.count-le, taken-le);
    marks = Marks-append m marked rest.map' block taken rest.count marked-Marks rest.marks;
    free = λ j p q. elim (dec_lt j (block + taken)) [
      | yes r ↦ taken-FreeRun j p r
      | no r ↦ ground (arith, marked-Marks.bits j, rest.free j)
    ];
    stop = λ p.
        ap (block_bit m) {x = block + (taken + rest.count)} {y = block + taken + rest.count}
          (omega arith)
        ∙ ground (arith, marked-Marks.bits (block + taken + rest.count))
        ∙ rest.stop (omega arith);
  }

-- The loop of mark_random_map takes the longest free run, and enough fuel is one round a block.
pub mark_loop-Marked :
    (fuel seq_nr num_maps : ℕ) (m : List ℕ) (block left blocks : ℕ)
    → left ≤ fuel
    → blocks + left < 2 ^ 32
    → Fits m num_maps block left
    → Marked m block left blocks (mark_loop fuel seq_nr num_maps true m block left blocks)
mark_loop-Marked zero seq_nr num_maps m block left blocks enough small fits =
    Marked-none m block left blocks _ (unfold mark_loop in ground arith) (λ p. absurd (omega arith))
mark_loop-Marked (suc fuel) seq_nr num_maps m block zero blocks enough small fits =
    Marked-none m block 0 blocks _ (unfold mark_loop in refl) (λ p. absurd (omega arith))
mark_loop-Marked (suc fuel) seq_nr num_maps m block (suc left) blocks enough small fits =
    rw (mark_loop-suc m num_maps block left fits fuel seq_nr blocks small)
      (elim (ℕ_discrete (taken m num_maps block left fits) 0) [
        | yes e ↦
            Marked-none m block (suc left) blocks _ (ground arith)
              (λ p. taken-zero m num_maps block left fits e)
        | no ne ↦ rw ((==_iff_ne (taken m num_maps block left fits) 0).1 ne) (
            Marked-suc m num_maps block left fits blocks _ ne (
              mark_loop-Marked fuel seq_nr num_maps (marked m num_maps block left fits)
                (block + taken m num_maps block left fits)
                (suc left - taken m num_maps block left fits)
                (blocks + taken m num_maps block left fits) (omega arith)
                (omega (arith, taken-le m num_maps block left fits))
                (Fits-suc m num_maps block left fits)))
      ])
