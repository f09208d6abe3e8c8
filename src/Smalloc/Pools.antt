-- ===== src/Smalloc/Pools.antt =====
-- The array of pools of smalloc.c: smalloc, sfree and sinit. A pointer is the address where the map
-- of its pool begins plus an offset; `map_at` gives these addresses. The global lock is not modelled:
-- a call is one step.
pub mod Served
pub mod Released
pub mod Forgets
mod Tests
use fio_ssd.Prelude.{
  ℕ, zero, suc, ◌+◌, ◌-◌, ◌*◌, Option, none, some, List, [], ◌∷◌, ◌++◌, length, Bool, true, false,
  ◌&&◌, ltb, leb, ◌==◌, if◌then◌else◌,
}
use fio_ssd.RandMap.{◌>>=◌, u32}
use fio_ssd.Smalloc.{Pool, bpl, smalloc_pool, sfree_pool}
use fio_ssd.Smalloc.AddPool.{add_pool, initial_size}

-- `mp` up to nr_pools, and last_pool.
pub record Pools : Type 0 where
  pub mp : List Pool
  pub last_pool : ℕ

-- MAX_POOLS
abbrev pub max_pools : ℕ
max_pools = 128

-- The pools with the first one changed, or in front of it.
abbrev pub behind : Pool → List Pool × Option (ℕ × ℕ) → List Pool × Option (ℕ × ℕ)
behind p (ps, none) = (p ∷ ps, none)
behind p (ps, some (j, ptr)) = (p ∷ ps, some (suc j, ptr))

-- The for loop of smalloc from pool `i` on: the pool that serves, and the offset in it.
unfoldable pub try_pools : ℕ → ℕ → List Pool → Option (List Pool × Option (ℕ × ℕ))
try_pools i size [] = some ([], none)
try_pools zero size (p ∷ ps) = do
  (q, ptr) ← smalloc_pool p size
  let rest = try_pools zero size ps
  elim ptr [
    | some offset ↦ some (q ∷ ps, some (zero, offset))
    | none ↦ (do r ← rest; some (behind q r))
  ]
try_pools (suc i) size (p ∷ ps) = do r ← try_pools i size ps; some (behind p r)

-- `mapped` is add_pool's: whether mmap and the making of the lock succeed.
module _ (mapped : ℕ → Bool) where
  -- The do-while of smalloc.
  unfoldable pub smalloc_loop : ℕ → ℕ → ℕ → Pools → Option (Pools × Option (ℕ × ℕ))
  smalloc_loop zero i size h = none
  smalloc_loop (suc fuel) i size h = do
    (mp, served) ← try_pools i size h.mp
    let again = smalloc_loop fuel (length mp) size (record { mp = mp; last_pool = 0 })
    let grown = λ (p : Pool).
        smalloc_loop fuel (length mp) size (record { mp = mp ++ (p ∷ []); last_pool = 0 })
    let added : Option (Pools × Option (ℕ × ℕ)) = elim (add_pool mapped size) [
      | none ↦ some (record { mp = mp; last_pool = h.last_pool }, none)
      | some p ↦ grown p
    ]
    elim served [
      | some (j, offset) ↦ some (record { mp = mp; last_pool = j }, some (j, offset))
      | none ↦
          if ltb 0 h.last_pool
          then again
          else if ltb max_pools (length mp + 1)
          then some (record { mp = mp; last_pool = h.last_pool }, none)
          else added
    ]

  -- smalloc; each round but two adds a pool.
  unfoldable pub smalloc : ℕ → Pools → Option (Pools × Option (ℕ × ℕ))
  smalloc size h = smalloc_loop (max_pools + 2) h.last_pool size h

  -- sinit
  unfoldable pub sinit : Option Pools
  sinit = do p ← add_pool mapped initial_size; some (record { mp = p ∷ []; last_pool = 0 })

module _ (map_at : ℕ → ℕ) where
  -- ptr_valid of pool `i`
  abbrev pub is_in_pool : ℕ → Pool → ℕ → Bool
  is_in_pool i p ptr = leb (map_at i) ptr && ltb ptr (map_at i + u32 (p.nr_blocks * bpl))

  -- The loop of sfree over the pools from number `i` on, and sfree_pool of the one found.
  unfoldable pub sfree_loop : ℕ → ℕ → List Pool → Option (List Pool)
  sfree_loop ptr i [] = none
  sfree_loop ptr i (p ∷ ps) =
      let here = (do q ← sfree_pool p (ptr - map_at i); some (q ∷ ps)) in
      let rest = (do qs ← sfree_loop ptr (suc i) ps; some (p ∷ qs)) in
      if is_in_pool i p ptr then here else rest

  -- sfree, of a pointer that is not null.
  unfoldable pub sfree : ℕ → Pools → Option Pools
  sfree ptr h = do mp ← sfree_loop ptr 0 h.mp; some (record h { mp = mp })
