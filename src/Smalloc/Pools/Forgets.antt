-- ===== src/Smalloc/Pools/Forgets.antt =====
-- smalloc does not come back to the pools before last_pool.
use fio_ssd.Prelude.{
  arith, refl, ◌∙◌, ℕ, suc, ◌+◌, ◌<◌, ◌≡◌, none, some, List, [], ◌∷◌, length, Bool,
}
use fio_ssd.Smalloc.{Pool}
use fio_ssd.Smalloc.AddPool.{add_pool}
use fio_ssd.Smalloc.Pools.{Pools, try_pools, smalloc_loop, smalloc, max_pools}

none_left : (size : ℕ) (mp : List Pool) → try_pools (length mp) size mp ≡ some (mp, none)
unfolding try_pools
none_left size [] = refl
none_left size (p ∷ mp) = rw (none_left size mp)

module _ (mapped : ℕ → Bool) (size : ℕ) where
  loop_again :
      (fuel i : ℕ) (h : Pools) (mp : List Pool)
      → try_pools i size h.mp ≡ some (mp, none)
      → 0 < h.last_pool
      → smalloc_loop mapped (suc fuel) i size h
        ≡ smalloc_loop mapped fuel (length mp) size (record { mp = mp; last_pool = 0 })
  unfolding smalloc_loop
  loop_again fuel i h mp e l = rw e (ground arith)

  loop_refused :
      (fuel : ℕ) (mp : List Pool)
      → length mp < max_pools
      → add_pool mapped size ≡ none
      → smalloc_loop mapped (suc fuel) (length mp) size (record { mp = mp; last_pool = 0 })
        ≡ some (record { mp = mp; last_pool = 0 }, none)
  unfolding smalloc_loop
  loop_refused fuel mp l e = rw (none_left size mp, e) (ground arith)

  -- Where last_pool is not 0, no pool from last_pool on serves the request and add_pool fails,
  -- smalloc returns NULL, whatever the pools before last_pool could serve.
  pub smalloc-forgets :
      (h : Pools) (mp : List Pool)
      → try_pools h.last_pool size h.mp ≡ some (mp, none)
      → 0 < h.last_pool
      → length mp < max_pools
      → add_pool mapped size ≡ none
      → smalloc mapped size h ≡ some (record { mp = mp; last_pool = 0 }, none)
  unfolding smalloc
  smalloc-forgets h mp tried last few failed =
      loop_again (max_pools + 1) h.last_pool h mp tried last ∙ loop_refused max_pools mp few failed
