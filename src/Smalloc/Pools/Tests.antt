-- ===== src/Smalloc/Pools/Tests.antt =====
-- Tests of the array of pools, and its theorems at concrete inputs.
use mathlib.Core.Path.{subst}
use fio_ssd.Prelude.{
  arith, refl, ℕ, zero, suc, ◌+◌, ◌-◌, ◌*◌, ◌^◌, ◌≤◌, ◌<◌, ◌≡◌, inl, inr, none, some, [], ◌∷◌,
  false, get_or, get_elem?, dec_lt,
}
use fio_ssd.Chains.{some_eq}
use fio_ssd.Bits.{ones_at}
use fio_ssd.Ffz.{ffz}
use fio_ssd.Smalloc.{
  Pool, smalloc_pool, smalloc_blocks, size_to_blocks, search_loop, find_next_zero, blocks_free,
  set_blocks, blocks_iter, run_mask, mask_cmp, mask_set, fill_header,
}
use fio_ssd.Smalloc.Alloc.{IsPool}
use fio_ssd.Smalloc.AddPool.{add_pool}
use fio_ssd.Smalloc.Pools.{Pools, try_pools, smalloc_loop, smalloc, sfree}
use fio_ssd.Smalloc.Pools.Served.{PoolsFrom}
use fio_ssd.Smalloc.Pools.Released.{Apart, Restored, sfree-smalloc}
use fio_ssd.Smalloc.Pools.Forgets.{smalloc-forgets}

-- Two words of blocks, with block 1 in use.
abbrev pool : Pool
pool = record {
  bitmap = 2 ∷ 0 ∷ [];
  free_blocks = 63;
  nr_blocks = 2;
  next_non_full = 0;
  mem = λ a. 0;
}

-- After an allocation of 40 bytes.
abbrev pool_after : Pool
pool_after = fill_header (record pool { bitmap = 14 ∷ 0 ∷ []; free_blocks = 61 }) 64 52

abbrev full : Pool
full = record {
  bitmap = (2 ^ 32 - 1) ∷ [];
  free_blocks = 0;
  nr_blocks = 1;
  next_non_full = 0;
  mem = λ a. 0;
}

abbrev pools : Pools
pools = record { mp = full ∷ pool ∷ []; last_pool = 0 }

served :
    smalloc (λ n. false) 40 pools
    ≡ some (record { mp = full ∷ pool_after ∷ []; last_pool = 1 }, some (1, 72))
unfolding smalloc smalloc_loop try_pools smalloc_pool smalloc_blocks size_to_blocks search_loop
    find_next_zero ffz blocks_free set_blocks blocks_iter run_mask ones_at mask_cmp mask_set
    fill_header
served = refl

pool-IsPool : IsPool pool
pool-IsPool = record {
  holds = record { allocated = omega arith; small = omega arith };
  words = words;
  count = omega arith;
}
  where
    words : (i : ℕ) → get_or pool.bitmap i 0 < 2 ^ 32
    words zero = omega arith
    words (suc zero) = omega arith
    words (suc (suc i)) = omega arith

full-IsPool : IsPool full
full-IsPool = record {
  holds = record { allocated = omega arith; small = omega arith };
  words = words;
  count = omega arith;
}
  where
    words : (i : ℕ) → get_or full.bitmap i 0 < 2 ^ 32
    words zero = omega arith
    words (suc i) = omega arith

all_pools : PoolsFrom 0 pools.mp
all_pools zero p l e = subst IsPool (cc e) full-IsPool
all_pools (suc zero) p l e = subst IsPool (cc e) pool-IsPool
all_pools (suc (suc k)) p l e = absurd (cc e)

abbrev maps : ℕ → ℕ
maps k = (k + 1) * 65536

small_pools : (k : ℕ) (p : Pool) → get_elem? (full ∷ pool_after ∷ []) k ≡ some p → p.nr_blocks ≤ 2
unfolding fill_header
small_pools zero p e = subst (λ (z : Pool). z.nr_blocks ≤ 2) (some_eq e) (omega arith)
small_pools (suc zero) p e = subst (λ (z : Pool). z.nr_blocks ≤ 2) (some_eq e) (omega arith)
small_pools (suc (suc k)) p e = absurd (cc e)

maps-Apart : Apart maps (full ∷ pool_after ∷ [])
maps-Apart k l p q ne e f =
    let small = small_pools k p e in
    let small' = small_pools l q f in
    elim (dec_lt k l) [ yes below ↦ inl (omega arith) | no above ↦ inr (omega (arith, ne)) ]

sfree-smalloc_example :
    (h : Pools) × (sfree maps (maps 1 + 72) (record { mp = full ∷ pool_after ∷ []; last_pool = 1 })
      ≡ some h)
    × Restored 40 1 72 (record { mp = full ∷ pool_after ∷ []; last_pool = 1 }) h
sfree-smalloc_example =
    sfree-smalloc (λ n. false) maps 40 pools (record { mp = full ∷ pool_after ∷ []; last_pool = 1 })
      1 72 all_pools (omega arith) served maps-Apart

-- The first pool has room, but the search begins at the second.
abbrev late : Pools
late = record { mp = pool ∷ full ∷ []; last_pool = 1 }

late_refused : try_pools 1 40 late.mp ≡ some (pool ∷ full ∷ [], none)
unfolding try_pools smalloc_pool smalloc_blocks size_to_blocks
late_refused = refl

no_room : add_pool (λ n. false) 40 ≡ none
unfolding add_pool
no_room = refl

smalloc-forgets_example :
    smalloc (λ n. false) 40 late ≡ some (record { mp = pool ∷ full ∷ []; last_pool = 0 }, none)
smalloc-forgets_example =
    smalloc-forgets (λ n. false) 40 late (pool ∷ full ∷ []) late_refused (omega arith) (omega arith)
      no_room
