-- ===== src/Smalloc/Tests.antt =====
-- Tests of the pool allocator, and its theorems at concrete inputs.
use fio_ssd.Prelude.{
  ℕ, zero, suc, ◌+◌, ◌-◌, ◌^◌, ◌≤◌, ◌<◌, ◌≡◌, ◌≢◌, ◌⊎◌, inl, refl, arith, [], ◌∷◌, Option, none,
  some, get_or,
}
use fio_ssd.Bits.{ones_at, complement}
use fio_ssd.Ffz.{ffz}
use fio_ssd.Smalloc.{
  Pool, size_to_blocks, run_mask, blocks_iter, mask_cmp, mask_set, blocks_free, set_blocks,
  find_next_zero, search_loop, smalloc_blocks, fill_header, smalloc_pool, sfree_pool,
}
use fio_ssd.Smalloc.Alloc.{IsPool, smalloc_blocks-Answer, smalloc_blocks-Answers}
use fio_ssd.Bits.Laws.{test_bit-complement, test_bit-above}
use fio_ssd.Smalloc.Word.{RunIs}
use fio_ssd.Smalloc.Iter.{Holds}
use fio_ssd.Smalloc.NextZero.{FirstZero}
use fio_ssd.Smalloc.Search.{Answer}
use fio_ssd.Smalloc.Beyond.{smalloc_blocks-beyond}
use fio_ssd.Smalloc.RoundTrip.{SameBlocks, sfree_pool-smalloc_pool}
use fio_ssd.Smalloc.Apart.{no_more, request, smalloc_pool-apart}

-- Two words of blocks, with block 1 in use.
abbrev pool : Pool
pool = record {
  bitmap = 2 ∷ 0 ∷ [];
  free_blocks = 63;
  nr_blocks = 2;
  next_non_full = 0;
  mem = λ a. 0;
}

-- After a request for 40 bytes: two blocks, behind the one in use.
abbrev pool_after : Pool
pool_after = fill_header (record pool { bitmap = 14 ∷ 0 ∷ []; free_blocks = 61 }) 64 52

pool_words : (i : ℕ) → get_or pool.bitmap i 0 < 2 ^ 32
pool_words zero = omega arith
pool_words (suc zero) = omega arith
pool_words (suc (suc i)) = omega arith

pool-IsPool : IsPool pool
pool-IsPool = record {
  holds = record { allocated = omega arith; small = omega arith };
  words = pool_words;
  count = omega arith;
}

forty_bytes : smalloc_pool pool 40 ≡ some (pool_after, some 72)
unfolding smalloc_pool smalloc_blocks size_to_blocks search_loop find_next_zero ffz blocks_free
    set_blocks blocks_iter run_mask ones_at mask_cmp mask_set fill_header
forty_bytes = refl

sfree_pool-smalloc_pool_example :
    (r : Pool) × (sfree_pool pool_after 72 ≡ some r) × SameBlocks pool r
sfree_pool-smalloc_pool_example =
    sfree_pool-smalloc_pool pool 40 pool_after 72 pool-IsPool (omega arith) forty_bytes

abbrev pool_later : Pool
pool_later = fill_header (record pool_after { bitmap = 254 ∷ 0 ∷ []; free_blocks = 57 }) 128 112

hundred_bytes : smalloc_pool pool_after 100 ≡ some (pool_later, some 136)
unfolding smalloc_pool smalloc_blocks size_to_blocks search_loop find_next_zero ffz blocks_free
    set_blocks blocks_iter run_mask ones_at mask_cmp mask_set fill_header
hundred_bytes = refl

abbrev pool_last : Pool
pool_last = fill_header (record pool_later { bitmap = 255 ∷ 0 ∷ []; free_blocks = 56 }) 0 32

twenty_bytes : smalloc_pool pool_later 20 ≡ some (pool_last, some 8)
unfolding smalloc_pool smalloc_blocks size_to_blocks search_loop find_next_zero ffz blocks_free
    set_blocks blocks_iter run_mask ones_at mask_cmp mask_set fill_header
twenty_bytes = refl

smalloc_pool-apart_example : (72 + 40 < 8) ⊎ (8 + 20 < 72)
smalloc_pool-apart_example =
    smalloc_pool-apart pool 40 pool_after 72 pool_later 20 pool_last 8 pool-IsPool (omega arith)
      (omega arith) forty_bytes
      (request pool_after pool_later pool_later 100 (some 136) (omega arith) hundred_bytes
        (no_more pool_later))
      twenty_bytes

two_blocks :
    smalloc_blocks pool 52 ≡ some (record pool { bitmap = 14 ∷ 0 ∷ []; free_blocks = 61 }, some 64)
unfolding smalloc_blocks size_to_blocks search_loop find_next_zero ffz blocks_free set_blocks
    blocks_iter run_mask ones_at mask_cmp mask_set
two_blocks = refl

smalloc_blocks-Answer_example :
    Answer pool
      (size_to_blocks 52)
      (record pool { bitmap = 14 ∷ 0 ∷ []; free_blocks = 61 }, some 64)
    × ((◌≡◌ {A = Option ℕ} (some 64) none) ⊎ (size_to_blocks 52 ≤ pool.free_blocks))
smalloc_blocks-Answer_example =
    smalloc_blocks-Answer pool 52 pool-IsPool (omega arith) (omega arith)
      (record pool { bitmap = 14 ∷ 0 ∷ []; free_blocks = 61 }, some 64) two_blocks

smalloc_blocks-Answers_example :
    (r : Pool × Option ℕ) × (smalloc_blocks pool 20 ≡ some r)
    × Answer pool (size_to_blocks 20) r
    × ((32 ≤ size_to_blocks 20)
        ⊎ ((r.1 ≢ none)
            ⊎ ((pool.free_blocks ≡ 0)
                ⊎ ((j : ℕ)
                    → pool.next_non_full ≤ j
                    → j < pool.nr_blocks
                    → get_or pool.bitmap j 0 ≡ 2 ^ 32 - 1))))
unfolding size_to_blocks
smalloc_blocks-Answers_example =
    smalloc_blocks-Answers pool 20 pool-IsPool (omega arith) (omega arith) (inl refl)

-- A word with its first block free, and all others in use.
abbrev crowded : Pool
crowded = record {
  bitmap = (2 ^ 32 - 2) ∷ 0 ∷ [];
  free_blocks = 33;
  nr_blocks = 2;
  next_non_full = 0;
  mem = λ a. 0;
}

crowded_words : (i : ℕ) → get_or crowded.bitmap i 0 < 2 ^ 32
crowded_words zero = omega arith
crowded_words (suc zero) = omega arith
crowded_words (suc (suc i)) = omega arith

crowded-IsPool : IsPool crowded
crowded-IsPool = record {
  holds = record { allocated = omega arith; small = omega arith };
  words = crowded_words;
  count = omega arith;
}

crowded-first : FirstZero (2 ^ 32 - 2) 0 0
crowded-first = record {
  below_end = omega arith;
  from_start = omega arith;
  is_clear = refl;
  ones_before = λ j r t. absurd (omega arith);
}

crowded-ones : RunIs 1 (2 ^ 32 - 2) 2 30
unfolding complement
crowded-ones i r t = ground (arith, test_bit-complement 32 1 i, test_bit-above 1 1 i)

smalloc_blocks-beyond_example : smalloc_blocks crowded 40 ≡ none
unfolding size_to_blocks
smalloc_blocks-beyond_example =
    smalloc_blocks-beyond crowded 40 0 crowded-IsPool (omega arith) (omega arith) (omega arith)
      (omega arith) crowded-first (omega arith)
      (λ f. absurd (omega (arith, f.1 1 (omega arith) (omega arith)))) crowded-ones

pool-Holds : Holds 2 (14 ∷ 0 ∷ [])
pool-Holds = record { allocated = omega arith; small = omega arith }
