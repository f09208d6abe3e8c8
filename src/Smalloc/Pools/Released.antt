-- ===== src/Smalloc/Pools/Released.antt =====
-- sfree of what smalloc has handed out.
use mathlib.Core.Path.{subst}
use fio_ssd.Prelude.{
  arith, refl, sym, ap, ◌∙◌, ℕ, zero, suc, ◌+◌, ◌-◌, ◌*◌, ◌^◌, ◌≤◌, ◌<◌, ◌≡◌, ◌≢◌, ◌⊎◌, inl, inr,
  some, List, [], ◌∷◌, Bool, true, false, get_elem?, set,
}
use fio_ssd.RandMap.{u32}
use fio_ssd.Smalloc.{Pool, bpl, smalloc_pool, sfree_pool}
use fio_ssd.Smalloc.Alloc.{IsPool}
use fio_ssd.Smalloc.Heap.{smalloc_pool-Allocated}
use fio_ssd.Smalloc.RoundTrip.{SameBlocks, sfree_pool-smalloc_pool}
use fio_ssd.Smalloc.Pools.{Pools, is_in_pool, sfree_loop, sfree, smalloc, max_pools}
use fio_ssd.Smalloc.Pools.Served.{PoolsFrom, Handed, smalloc_loop-HandsOut}

-- The bytes of a pool's map, without the bitmap behind them.
abbrev map_size : Pool → ℕ
map_size p = u32 (p.nr_blocks * bpl)

-- mmap gives maps that do not overlap.
abbrev pub Apart : (ℕ → ℕ) → List Pool → Type 0
Apart map_at mp =
    (k l : ℕ) (p q : Pool)
    → k ≢ l
    → get_elem? mp k ≡ some p
    → get_elem? mp l ≡ some q
    → (map_at k + map_size p ≤ map_at l) ⊎ (map_at l + map_size q ≤ map_at k)

module _ (map_at : ℕ → ℕ) (ptr : ℕ) where
  sfree_loop-here :
      (i : ℕ) (p r : Pool) (mp : List Pool)
      → is_in_pool map_at i p ptr ≡ true
      → sfree_pool p (ptr - map_at i) ≡ some r
      → sfree_loop map_at ptr i (p ∷ mp) ≡ some (r ∷ mp)
  unfolding sfree_loop
  sfree_loop-here i p r mp h e = rw (h, e)

  sfree_loop-later :
      (i : ℕ) (p : Pool) (mp mp' : List Pool)
      → is_in_pool map_at i p ptr ≡ false
      → sfree_loop map_at ptr (suc i) mp ≡ some mp'
      → sfree_loop map_at ptr i (p ∷ mp) ≡ some (p ∷ mp')
  unfolding sfree_loop
  sfree_loop-later i p mp mp' h e = rw (h, e)

  -- The loop frees in the only pool that has the address.
  sfree_loop-found :
      (i j : ℕ) (q r : Pool) (mp : List Pool)
      → get_elem? mp j ≡ some q
      → ((k : ℕ) (p : Pool)
          → k < j
          → get_elem? mp k ≡ some p
          → is_in_pool map_at (i + k) p ptr ≡ false)
      → is_in_pool map_at (i + j) q ptr ≡ true
      → sfree_pool q (ptr - map_at (i + j)) ≡ some r
      → sfree_loop map_at ptr i mp ≡ some (set mp j r)
  sfree_loop-found i j q r [] e others h f = absurd (cc e)
  sfree_loop-found i zero q r (p ∷ mp) e others h f =
      let same : p ≡ q = cc e in
      let at : i + zero ≡ i = omega arith in
      sfree_loop-here i p r mp
        (subst (λ (z : Pool). is_in_pool map_at i z ptr ≡ true) (sym same)
          (subst (λ (n : ℕ). is_in_pool map_at n q ptr ≡ true) at h))
        (subst (λ (z : Pool). sfree_pool z (ptr - map_at i) ≡ some r) (sym same)
          (subst (λ (n : ℕ). sfree_pool q (ptr - map_at n) ≡ some r) at f))
  sfree_loop-found i (suc j) q r (p ∷ mp) e others h f =
      let at = λ (k : ℕ). shift i k in
      sfree_loop-later i p mp (set mp j r)
        (subst (λ (n : ℕ). is_in_pool map_at n p ptr ≡ false) (no_shift i)
          (others zero p (omega arith) refl))
        (sfree_loop-found (suc i) j q r mp e
          (λ k p' l g.
            subst (λ (n : ℕ). is_in_pool map_at n p' ptr ≡ false) (shift i k)
              (others (suc k) p' (omega arith) g))
          (subst (λ (n : ℕ). is_in_pool map_at n q ptr ≡ true) (shift i j) h)
          (subst (λ (n : ℕ). sfree_pool q (ptr - map_at n) ≡ some r) (shift i j) f))
    where
      shift : (n k : ℕ) → n + suc k ≡ suc n + k
      shift n k = omega arith

      no_shift : (n : ℕ) → n + zero ≡ n
      no_shift n = omega arith

-- Pool `j`, which has served the request at `offset`, has the blocks of before back, and no other pool
-- changes.
pub record Restored (size j offset : ℕ) (h' h'' : Pools) : Type 0 where
  pub p : Pool
  pub q : Pool
  pub r : Pool
  pub served : smalloc_pool p size ≡ some (q, some offset)
  pub in_use : get_elem? h'.mp j ≡ some q
  pub is_pool : IsPool p
  pub blocks : SameBlocks p r
  pub others : h''.mp ≡ set h'.mp j r
  pub last : h''.last_pool ≡ h'.last_pool

sfree-found :
    (map_at : ℕ → ℕ) (ptr j : ℕ) (r : Pool) (h : Pools)
    → sfree_loop map_at ptr 0 h.mp ≡ some (set h.mp j r)
    → sfree map_at ptr h ≡ some (record h { mp = set h.mp j r })
unfolding sfree
sfree-found map_at ptr j r h e = rw e

-- The offset that a pool hands out lies in its map, and its map does not wrap.
handed_inside :
    (p q : Pool) (size offset : ℕ)
    → IsPool p
    → size ≤ 2 ^ 31
    → smalloc_pool p size ≡ some (q, some offset)
    → offset < map_size q
handed_inside p q size offset is small e =
    let a = smalloc_pool-Allocated p size is small q offset e in
    omega (arith, a.at, a.inside, a.room, a.same_nr, is.holds.small)

module _ (map_at : ℕ → ℕ) (size : ℕ) (h : Pools) (j offset : ℕ) (small : size ≤ 2 ^ 31)
    (handed : Handed size h j offset) (apart : Apart map_at h.mp) where
  in_own : is_in_pool map_at (0 + j) handed.q (map_at j + offset) ≡ true
  in_own =
      let at : 0 + j ≡ j = omega arith in
      let inside = handed_inside handed.p handed.q size offset handed.is_pool small handed.served in
      subst (λ (n : ℕ). is_in_pool map_at n handed.q (map_at j + offset) ≡ true) (sym at)
        (ground (arith, inside))

  in_no_other :
      (k : ℕ) (p : Pool)
      → k < j
      → get_elem? h.mp k ≡ some p
      → is_in_pool map_at (0 + k) p (map_at j + offset) ≡ false
  in_no_other k p l e =
      let at : 0 + k ≡ k = omega arith in
      let inside = handed_inside handed.p handed.q size offset handed.is_pool small handed.served in
      let side = apart k j p handed.q (omega arith) e handed.after in
      subst (λ (n : ℕ). is_in_pool map_at n p (map_at j + offset) ≡ false) (sym at)
        (elim side [
          | inl below ↦ ground (arith, below)
          | inr above ↦ ground (arith, above, inside)
        ])

  freed :
      (h'' : Pools) × (sfree map_at (map_at j + offset) h ≡ some h'') × Restored size j offset h h''
  freed =
      let (r, e, same) =
        sfree_pool-smalloc_pool handed.p size handed.q offset handed.is_pool small handed.served in
      let back : map_at j + offset - map_at (0 + j) ≡ offset = back_at (0 + j) (omega arith) in
      (
        record h { mp = set h.mp j r },
        sfree-found map_at (map_at j + offset) j r h (
            sfree_loop-found map_at (map_at j + offset) 0 j handed.q r h.mp handed.after in_no_other
              in_own (ap (sfree_pool handed.q) back ∙ e)),
        record {
          p = handed.p;
          q = handed.q;
          r = r;
          served = handed.served;
          in_use = handed.after;
          is_pool = handed.is_pool;
          blocks = same;
          others = refl;
          last = refl;
        },
      )
    where
      back_at : (n : ℕ) → n ≡ j → map_at j + offset - map_at n ≡ offset
      back_at n e = rw e (omega arith)

-- Where the pools from last_pool on are well formed and the maps of the pools do not overlap:
-- whichever pool serves a request of at most 2 ^ 31 bytes, an old one or one that smalloc has
-- added, sfree of the pointer does not fault, it gives that pool the blocks and the count of free
-- blocks from before it served, and it changes no other pool.
pub sfree-smalloc :
    (mapped : ℕ → Bool) (map_at : ℕ → ℕ) (size : ℕ) (h h' : Pools) (j offset : ℕ)
    → PoolsFrom h.last_pool h.mp
    → size ≤ 2 ^ 31
    → smalloc mapped size h ≡ some (h', some (j, offset))
    → Apart map_at h'.mp
    → (h'' : Pools) × (sfree map_at (map_at j + offset) h' ≡ some h'')
      × Restored size j offset h' h''
unfolding smalloc
sfree-smalloc mapped map_at size h h' j offset pools small e apart =
    freed map_at size h' j offset small
      (smalloc_loop-HandsOut mapped size small (max_pools + 2) h.last_pool h (h', some (j, offset))
        pools e)
      apart
