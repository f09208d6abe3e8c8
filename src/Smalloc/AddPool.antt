-- ===== src/Smalloc/AddPool.antt =====
-- add_pool of smalloc.c: the size and the first state of a pool.
use fio_ssd.Prelude.{
  arith, ℕ, ◌+◌, ◌-◌, ◌*◌, ◌/◌, ◌%◌, ◌^◌, ◌≤◌, ◌<◌, ◌≡◌, refl, ap, ◌∙◌, ltb, if◌then◌else◌, Bool,
  true, false, Bool-cases, inl, inr, Option, none, some, replicate, length-replicate,
  get_or-replicate,
}
use mathlib.Core.Path.{subst}
use fio_ssd.RandMap.{u32}
use fio_ssd.Bits.{test_bit}
use fio_ssd.Bits.Laws.{test_bit-zero}
use fio_ssd.Smalloc.{Pool, bpb, bpl}
use fio_ssd.Smalloc.Word.{used}
use fio_ssd.Smalloc.Alloc.{IsPool}

-- INITIAL_SIZE
abbrev pub initial_size : ℕ
initial_size = 8192 * 1024

-- The bytes for blocks: a red zone and a header more than asked for, not less than INITIAL_SIZE, and
-- rounded up to words of the bitmap. SMALLOC_BPL has 64 bits.
unfoldable pub pool_size : ℕ → ℕ
pool_size alloc_size =
    let asked = u32 (u32 (alloc_size + 4) + 8) in
    let size = if ltb asked initial_size then initial_size else asked in
    u32 ((size + bpl - 1) / bpl * bpl)

-- The state after the memset.
abbrev pub fresh : ℕ → Pool
fresh blocks = record {
  bitmap = replicate blocks 0;
  free_blocks = u32 (blocks * bpb);
  nr_blocks = blocks;
  next_non_full = 0;
  mem = λ a. 0;
}

-- add_pool; `mapped` says whether mmap of so many bytes and the making of the lock succeed. `none`
-- is the return value 1.
unfoldable pub add_pool : (ℕ → Bool) → ℕ → Option Pool
add_pool mapped alloc_size =
    let blocks = pool_size alloc_size / bpl in
    if mapped (u32 (pool_size alloc_size + blocks * 4)) then some (fresh blocks) else none

-- A pool with all its blocks free, and room for so many bytes with header and red zone.
pub record IsFresh (alloc_size : ℕ) (p : Pool) : Type 0 where
  pub is_pool : IsPool p
  pub all_free : (j : ℕ) → used p.bitmap j ≡ 0
  pub counted : p.free_blocks ≡ 32 * p.nr_blocks
  pub room : alloc_size + 12 ≤ 32 * p.free_blocks
  pub least : initial_size ≤ 32 * p.free_blocks

fresh-IsFresh :
    (alloc_size blocks : ℕ)
    → blocks < 2 ^ 22
    → alloc_size + 12 ≤ 1024 * blocks
    → 8192 ≤ blocks
    → IsFresh alloc_size (fresh blocks)
fresh-IsFresh alloc_size blocks small room least = record {
  is_pool = record {
    holds = record { allocated = omega (arith, length-replicate {A = ℕ} blocks 0); small = small };
    words = λ i. omega (arith, get_or-replicate {A = ℕ} blocks i 0);
    count = omega arith;
  };
  all_free = λ j.
      ap (λ w. test_bit w (j % 32)) (get_or-replicate blocks (j / 32) 0) ∙ test_bit-zero (j % 32);
  counted = omega arith;
  room = omega arith;
  least = omega arith;
}

pool_size_lem :
    (alloc_size : ℕ)
    → alloc_size ≤ 2 ^ 31
    → (pool_size alloc_size / bpl < 2 ^ 22)
      × (alloc_size + 12 ≤ 1024 * (pool_size alloc_size / bpl))
      × (8192 ≤ pool_size alloc_size / bpl)
unfolding pool_size
pool_size_lem alloc_size small = (ground arith, ground arith, ground arith)

module _ (mapped : ℕ → Bool) (alloc_size : ℕ) where
  add_pool-true :
      mapped (u32 (pool_size alloc_size + pool_size alloc_size / bpl * 4)) ≡ true
      → add_pool mapped alloc_size ≡ some (fresh (pool_size alloc_size / bpl))
  unfolding add_pool
  add_pool-true e = rw e refl

  add_pool-false :
      mapped (u32 (pool_size alloc_size + pool_size alloc_size / bpl * 4)) ≡ false
      → add_pool mapped alloc_size ≡ none
  unfolding add_pool
  add_pool-false e = rw e refl

-- Where add_pool succeeds, for a request of at most 2 ^ 31 bytes, it leaves a pool with all blocks
-- free and counted so, with room for the request, a header and a red zone, and of at least
-- INITIAL_SIZE bytes.
pub add_pool-IsFresh :
    (mapped : ℕ → Bool) (alloc_size : ℕ) (p : Pool)
    → alloc_size ≤ 2 ^ 31
    → add_pool mapped alloc_size ≡ some p
    → IsFresh alloc_size p
add_pool-IsFresh mapped alloc_size p small e =
    elim (Bool-cases (mapped (u32 (pool_size alloc_size + pool_size alloc_size / bpl * 4)))) [
      | inl done ↦
          let (few, room, least) = pool_size_lem alloc_size small in
          subst (IsFresh alloc_size) (cc (add_pool-true mapped alloc_size done, e))
            (fresh-IsFresh alloc_size (pool_size alloc_size / bpl) few room least)
      | inr failed ↦ absurd (cc (add_pool-false mapped alloc_size failed, e))
    ]
