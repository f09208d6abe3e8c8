-- ===== src/Smalloc/Blocks.antt =====
-- blocks_free, set_blocks and clear_blocks of smalloc.c, as one test and two changes of a run.
use fio_ssd.Prelude.{
  arith, suc, ◌-◌, leb, false, none, get_elem?-eq-get_or, ℕ, ◌+◌, ◌*◌, ◌^◌, ◌≤◌, ◌<◌, ◌≡◌, refl,
  List, Bool, true, ◌↔◌, some,
}
use fio_ssd.Smalloc.{
  Pool, run_mask, this_blocks, mask_set, mask_clear, blocks_free, set_blocks, clear_blocks,
  blocks_iter,
}
use fio_ssd.Smalloc.Word.{AllAre, Makes, mask_set_lem, mask_clear_lem}
use fio_ssd.Smalloc.Iter.{Holds, blocks_iter-Makes}
use fio_ssd.Smalloc.Check.{Fits, blocks_iter-Checked}

module _ (p : Pool) (h : Holds p.nr_blocks p.bitmap) (i b n : ℕ) (q : b < 32) where
  -- On a pool of less than 2 ^ 22 words, with a start inside its word and at most 2 ^ 31 blocks,
  -- blocks_free does not fault, and answers true exactly when the blocks lie in the pool, if there
  -- are any, and are all free.
  pub blocks_free_lem :
      n ≤ 2 ^ 31
      → (free : Bool) × (blocks_free p i b n ≡ some free)
        × ((free ≡ true) ↔ Fits p.nr_blocks p.bitmap (32 * i + b) n)
  unfolding blocks_free
  blocks_free_lem small =
      let (free, e, iff) =
        blocks_iter-Checked n p.nr_blocks p.bitmap i b n (omega arith) h q small in
      (free, rw e refl, iff)

  -- No assert fails, and the bits of the run, and no others, are set.
  pub set_blocks_lem :
      32 * i + b + n ≤ 32 * p.nr_blocks
      → AllAre 0 p.bitmap (32 * i + b) n
      → (m : List ℕ) × (set_blocks p i b n ≡ some (record p { bitmap = m }))
        × Makes 1 p.bitmap (32 * i + b) n m
  unfolding set_blocks
  set_blocks_lem inside free =
      let (m, e, made) =
        blocks_iter-Makes 0 1 mask_set mask_set_lem n p.nr_blocks p.bitmap i b n (omega arith) h q
          inside free in
      (m, rw e refl, made)

  pub clear_blocks_lem :
      32 * i + b + n ≤ 32 * p.nr_blocks
      → AllAre 1 p.bitmap (32 * i + b) n
      → (m : List ℕ) × (clear_blocks p i b n ≡ some (record p { bitmap = m }))
        × Makes 0 p.bitmap (32 * i + b) n m
  unfolding clear_blocks
  clear_blocks_lem inside all =
      let (m, e, made) =
        blocks_iter-Makes 1 0 mask_clear mask_clear_lem n p.nr_blocks p.bitmap i b n (omega arith) h
          q inside all in
      (m, rw e refl, made)

-- A start beyond the word makes the shift of blocks_iter undefined.
pub blocks_free-beyond :
    (p : Pool) (i b left : ℕ)
    → Holds p.nr_blocks p.bitmap
    → i < p.nr_blocks
    → 32 < b
    → b < 2 ^ 31
    → suc left ≤ 2 ^ 31
    → blocks_free p i b (suc left) ≡ none
unfolding blocks_free blocks_iter run_mask
blocks_free-beyond p i b left h inside beyond q small =
    rw (not_past, get_elem?-eq-get_or p.bitmap i 0 (omega (arith, h.allocated)), this_eq, no_mask)
      refl
  where
    not_past : leb p.nr_blocks i ≡ false
    not_past = ground arith

    this_eq : this_blocks (suc left) b ≡ 32 + 2 ^ 32 - b
    this_eq = ground arith

    no_mask : run_mask (32 + 2 ^ 32 - b) b ≡ none
    no_mask = ground arith
