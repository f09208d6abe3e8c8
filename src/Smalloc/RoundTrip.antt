-- ===== src/Smalloc/RoundTrip.antt =====
-- smalloc_pool and sfree_pool together.
use fio_ssd.Prelude.{arith, ℕ, ◌+◌, ◌*◌, ◌^◌, ◌≤◌, ◌≡◌, refl, ap, ◌∙◌, some, List, length}
use fio_ssd.Smalloc.{Pool, smalloc_pool, sfree_pool}
use fio_ssd.Smalloc.Word.{used, Makes}
use fio_ssd.Smalloc.Iter.{Holds}
use fio_ssd.Smalloc.Alloc.{IsPool}
use fio_ssd.Smalloc.Heap.{Allocated, smalloc_pool-Allocated, sfree_pool-Makes, released}

-- `r` has the blocks of `p` in use, and counts as many of them free.
pub record SameBlocks (p r : Pool) : Type 0 where
  pub same_bits : (j : ℕ) → used r.bitmap j ≡ used p.bitmap j
  pub same_length : length r.bitmap ≡ length p.bitmap
  pub same_free : r.free_blocks ≡ p.free_blocks
  pub same_nr : r.nr_blocks ≡ p.nr_blocks

module _ (p : Pool) (size : ℕ) (is : IsPool p) (q : Pool) (ptr : ℕ)
    (a : Allocated p size q ptr) where
  still : Holds q.nr_blocks q.bitmap
  still = record {
    allocated = omega (arith, is.holds.allocated, a.taken.same_length, a.same_nr);
    small = omega (arith, is.holds.small, a.same_nr);
  }

  pub IsPool-Allocated : IsPool q
  IsPool-Allocated = record {
    holds = still;
    words = a.taken.words is.words;
    count = omega (arith, a.counted, is.count);
  }

  freed :
      (m : List ℕ) × (sfree_pool q (32 * a.block + 8) ≡ some (released q (32 * a.block) a.blocks m))
      × Makes 0 q.bitmap a.block a.blocks m
  freed =
      sfree_pool-Makes q (32 * a.block) a.blocks still a.block refl
        (omega (arith, a.inside, a.same_nr)) (omega (arith, a.room)) a.said a.intact
        (λ j r t. a.taken.bits j ∙ ground arith)

  SameBlocks-released :
      (m : List ℕ)
      → Makes 0 q.bitmap a.block a.blocks m
      → SameBlocks p (released q (32 * a.block) a.blocks m)
  SameBlocks-released m made = record {
    same_bits = λ j. ground (arith, made.bits j, a.taken.bits j, a.were_free j);
    same_length = made.same_length ∙ a.taken.same_length;
    same_free = omega (arith, a.counted, is.count);
    same_nr = a.same_nr;
  }

-- For a request of at most 2 ^ 31 bytes that smalloc_pool serves from a pool, sfree_pool of the
-- pointer does not fault: the pointer is valid, both red zones are as they were filled, and all
-- blocks of the run are in use. The bits of the bitmap, the length of it, the count of free blocks
-- and the size of the pool are then those before the allocation.
pub sfree_pool-smalloc_pool :
    (p : Pool) (size : ℕ) (q : Pool) (ptr : ℕ)
    → IsPool p
    → size ≤ 2 ^ 31
    → smalloc_pool p size ≡ some (q, some ptr)
    → (r : Pool) × (sfree_pool q ptr ≡ some r) × SameBlocks p r
sfree_pool-smalloc_pool p size q ptr is small e =
    let a = smalloc_pool-Allocated p size is small q ptr e in
    let (m, e', made) = freed p size is q ptr a in
    (
      released q (32 * a.block) a.blocks m,
      ap (sfree_pool q) a.at ∙ e',
      SameBlocks-released p size is q ptr a m made,
    )
