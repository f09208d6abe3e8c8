-- ===== src/Smalloc/Round.antt =====
-- One round of the search loop of __smalloc_pool, case by case.
use fio_ssd.Prelude.{
  arith, ℕ, suc, ◌+◌, ◌-◌, ◌*◌, ◌/◌, ◌^◌, ◌≤◌, ◌<◌, ◌≡◌, ◌≢◌, refl, ltb, leb, ==_iff, ==_iff_ne,
  if◌then◌else◌, true, false, none, some, get_or, get_elem?-eq-get_or,
}
use fio_ssd.RandMap.{◌>>=◌, u32}
use fio_ssd.Smalloc.{Pool, bpi, bpb, bpl, search_loop, find_next_zero, blocks_free, set_blocks}
use fio_ssd.Smalloc.Iter.{Holds}

module _ (fuel : ℕ) (p : Pool) (h : Holds p.nr_blocks p.bitmap) (i last nr : ℕ) where
  pub search_loop-past : p.nr_blocks ≤ i → search_loop (suc fuel) p i last nr ≡ some (p, none)
  unfolding search_loop
  search_loop-past past = rw (ge) refl
    where
      ge : leb p.nr_blocks i ≡ true
      ge = ground arith

  module _ (inside : i < p.nr_blocks) where
    pub search_loop-full :
        get_or p.bitmap i 0 ≡ 2 ^ 32 - 1
        → search_loop (suc fuel) p i last nr
          ≡ search_loop fuel (record p { next_non_full = i + 1 }) (i + 1) 0 nr
    unfolding search_loop
    search_loop-full e =
        rw
          (
            lt,
            get_elem?-eq-get_or p.bitmap i 0 (omega (arith, h.allocated)),
            (==_iff (get_or p.bitmap i 0) (2 ^ 32 - 1)).1 e,
          )
          refl
      where
        lt : leb p.nr_blocks i ≡ false
        lt = ground arith

    module _ (idx : ℕ) (ne : get_or p.bitmap i 0 ≢ 2 ^ 32 - 1)
        (found : find_next_zero (get_or p.bitmap i 0) last ≡ some idx) where
      -- The rest of the round, with the place found.
      search_loop-place : search_loop (suc fuel) p i last nr ≡ (do
        free ← blocks_free p i idx nr
        let again =
            (if ltb (u32 (idx + nr)) bpi
              then search_loop fuel p i (u32 (idx + nr)) nr
              else search_loop fuel p (i + u32 (idx + nr) / bpi) 0 nr)
        let taken = (do
          q ← set_blocks p i idx nr
          some (record q { free_blocks = q.free_blocks - nr }, some (u32 (i * bpl + idx * bpb))))
        if free then taken else again)
      unfolding search_loop
      search_loop-place =
          rw
            (
              lt,
              get_elem?-eq-get_or p.bitmap i 0 (omega (arith, h.allocated)),
              (==_iff_ne (get_or p.bitmap i 0) (2 ^ 32 - 1)).1 ne,
              found,
            )
            refl
        where
          lt : leb p.nr_blocks i ≡ false
          lt = ground arith

      pub search_loop-fault :
          blocks_free p i idx nr ≡ none → search_loop (suc fuel) p i last nr ≡ none
      search_loop-fault e = rw (search_loop-place, e) refl

      pub search_loop-taken :
          (q : Pool)
          → blocks_free p i idx nr ≡ some true
          → set_blocks p i idx nr ≡ some q
          → search_loop (suc fuel) p i last nr
            ≡ some (record q { free_blocks = q.free_blocks - nr }, some (u32 (i * bpl + idx * bpb)))
      search_loop-taken q free set = rw (search_loop-place, free, set) refl

      pub search_loop-refused :
          blocks_free p i idx nr ≡ some false
          → search_loop (suc fuel) p i last nr ≡ (
              if ltb (u32 (idx + nr)) bpi
              then search_loop fuel p i (u32 (idx + nr)) nr
              else search_loop fuel p (i + u32 (idx + nr) / bpi) 0 nr)
      search_loop-refused e = rw (search_loop-place, e) refl
