-- ===== src/Smalloc/Alloc.antt =====
-- __smalloc_pool of smalloc.c as a whole: the count of free blocks, the search, the answer.
use mathlib.Core.Path.{subst}
use fio_ssd.Prelude.{
  Option-cases, arith, ℕ, suc, ◌+◌, ◌-◌, ◌*◌, ◌^◌, ◌≤◌, ◌<◌, ◌≡◌, ◌≢◌, ◌⊎◌, inl, inr, refl, sym,
  ◌∙◌, Option, none, some, get_or, dec_lt,
}
use fio_ssd.Smalloc.{Pool, bpi, size_to_blocks, search_loop, smalloc_blocks}
use fio_ssd.Smalloc.Word.{Words}
use fio_ssd.Smalloc.Iter.{Holds}
use fio_ssd.Smalloc.Search.{Answer, Ensures, search_loop-Ensures}
use fio_ssd.Smalloc.Total.{Answers, search_loop-Answers}

-- A pool as add_pool leaves it: the bitmap has its words, of 32 bits each.
pub record IsPool (p : Pool) : Type 0 where
  pub holds : Holds p.nr_blocks p.bitmap
  pub words : Words p.bitmap
  pub count : p.free_blocks < 2 ^ 32

-- Sizes for which no sum wraps.
pub size_to_blocks_lem :
    (size : ℕ)
    → 0 < size
    → size ≤ 2 ^ 31 + 2 ^ 30
    → (0 < size_to_blocks size)
      × (size_to_blocks size ≤ 2 ^ 31)
      × (size ≤ 32 * size_to_blocks size)
      × (32 * size_to_blocks size < size + 32)
unfolding size_to_blocks
size_to_blocks_lem size pos small = omega arith

module _ (p : Pool) (size : ℕ) (is : IsPool p) (pos : 0 < size)
    (small : size ≤ 2 ^ 31 + 2 ^ 30) where
  left : ℕ
  left = size_to_blocks size - 1

  nr-eq : size_to_blocks size ≡ suc left
  unfolding left
  nr-eq = omega (arith, size_to_blocks_lem size pos small)

  left-le : suc left ≤ 2 ^ 31
  left-le = omega (arith, nr-eq, size_to_blocks_lem size pos small)

  smalloc_blocks-few : p.free_blocks < size_to_blocks size → smalloc_blocks p size ≡ some (p, none)
  unfolding smalloc_blocks
  smalloc_blocks-few few = ground arith

  pub smalloc_blocks-search :
      ¬ (p.free_blocks < size_to_blocks size)
      → smalloc_blocks p size
        ≡ search_loop (suc (bpi * p.nr_blocks)) p p.next_non_full 0 (size_to_blocks size)
  unfolding smalloc_blocks
  smalloc_blocks-search many = ground arith

  -- In a pool, and for a size from 1 to 2 ^ 31 + 2 ^ 30 bytes, what __smalloc_pool hands out, if it
  -- does not fault, is a run of blocks that lies in the pool and was free, with the offset of its
  -- first block; these blocks are now in use, no other bit changed, and the count of free blocks
  -- fell by their number, which it was not below. Where it hands out nothing, the bitmap and the
  -- count are as before.
  pub smalloc_blocks-Answer :
      (r : Pool × Option ℕ)
      → smalloc_blocks p size ≡ some r
      → Answer p (size_to_blocks size) r × ((r.1 ≡ none) ⊎ (size_to_blocks size ≤ p.free_blocks))
  smalloc_blocks-Answer r e = elim (dec_lt p.free_blocks (size_to_blocks size)) [
    | yes few ↦
        subst
          (λ t.
            Answer p (size_to_blocks size) t
            × ((t.1 ≡ none) ⊎ (size_to_blocks size ≤ p.free_blocks)))
          (refused few) ((record { same_nr = refl; same_mem = refl }, refl, refl), inl refl)
    | no many ↦ (searched r (sym (smalloc_blocks-search many) ∙ e), inr (omega arith))
  ]
    where
      refused : p.free_blocks < size_to_blocks size → (p, none) ≡ r
      refused few = cc (smalloc_blocks-few few, e)

      searched :
          Ensures p
            (size_to_blocks size)
            (search_loop (suc (bpi * p.nr_blocks)) p p.next_non_full 0 (size_to_blocks size))
      searched =
          subst (λ n. Ensures p n (search_loop (suc (bpi * p.nr_blocks)) p p.next_non_full 0 n))
            (sym nr-eq)
            (search_loop-Ensures (suc (bpi * p.nr_blocks)) p p.next_non_full 0 left is.holds
              is.words (omega arith) left-le)

  -- In a pool, and for a size from 1 to 2 ^ 31 + 2 ^ 30 bytes that takes one block, or 32 and more,
  -- __smalloc_pool comes to an end without a fault. A request of one block is refused only where no
  -- block is counted free or every word from next_non_full on is full.
  pub smalloc_blocks-Answers :
      (size_to_blocks size ≡ 1) ⊎ (32 ≤ size_to_blocks size)
      → (r : Pool × Option ℕ) × (smalloc_blocks p size ≡ some r)
        × Answer p (size_to_blocks size) r
        × ((32 ≤ size_to_blocks size)
            ⊎ ((r.1 ≢ none)
                ⊎ ((p.free_blocks ≡ 0)
                    ⊎ ((j : ℕ)
                        → p.next_non_full ≤ j
                        → j < p.nr_blocks
                        → get_or p.bitmap j 0 ≡ 2 ^ 32 - 1))))
  smalloc_blocks-Answers sizes = elim (dec_lt p.free_blocks (size_to_blocks size)) [
    | yes few ↦ (
      (p, none),
      smalloc_blocks-few few,
      (record { same_nr = refl; same_mem = refl }, refl, refl),
      elim sizes [ inl one ↦ inr (inr (inl (omega arith))) | inr large ↦ inl large ],
    )
    | no many ↦
        let (r, e, a, all) = searched in
        (
          r,
          smalloc_blocks-search many ∙ e,
          a,
          elim sizes [
            | inl one ↦ elim (Option-cases r.1) [
              | inl is_none ↦ inr (inr (inr (all one is_none)))
              | inr (off, is_some) ↦ inr (inl (λ is_none. cc (is_some, is_none)))
            ]
            | inr large ↦ inl large
          ],
        )
  ]
    where
      split : (left ≡ 0) ⊎ (31 ≤ left)
      split = elim sizes [
        | inl one ↦ inl (omega (arith, nr-eq))
        | inr large ↦ inr (omega (arith, nr-eq))
      ]

      searched :
          Answers p p.next_non_full
            (size_to_blocks size)
            (search_loop (suc (bpi * p.nr_blocks)) p p.next_non_full 0 (size_to_blocks size))
      searched =
          subst
            (λ n.
              Answers p p.next_non_full n
                (search_loop (suc (bpi * p.nr_blocks)) p p.next_non_full 0 n))
            (sym nr-eq)
            (search_loop-Answers (suc (bpi * p.nr_blocks)) p p.next_non_full left (omega arith)
              (omega arith) is.holds is.words left-le split)
