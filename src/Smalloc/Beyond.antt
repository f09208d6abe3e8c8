-- ===== src/Smalloc/Beyond.antt =====
-- Where the search of __smalloc_pool goes on behind a refused run and finds the rest of the word in
-- use, find_next_zero answers a place beyond the word, and the shift of blocks_iter is undefined.
use fio_ssd.Prelude.{
  arith, ℕ, suc, ◌+◌, ◌-◌, ◌*◌, ◌^◌, ◌≤◌, ◌<◌, ◌≡◌, ◌≢◌, inl, inr, ap, ◌∙◌, ltb, true, Bool-cases,
  none, some, get_or,
}
use mathlib.Core.Path.{subst}
use fio_ssd.RandMap.{u32}
use fio_ssd.Smalloc.{Pool, bpi, size_to_blocks, search_loop, smalloc_blocks, find_next_zero}
use fio_ssd.Smalloc.Word.{RunIs}
use fio_ssd.Smalloc.Check.{Fits}
use fio_ssd.Smalloc.Blocks.{blocks_free_lem, blocks_free-beyond}
use fio_ssd.Smalloc.NextZero.{FirstZero, FirstZero-ne, find_next_zero-eq, find_next_zero_lem}
use fio_ssd.Smalloc.Round.{search_loop-fault, search_loop-refused}
use fio_ssd.Smalloc.Alloc.{IsPool, size_to_blocks_lem, smalloc_blocks-search}

module _ (p : Pool) (is : IsPool p) (i left : ℕ) (inside : i < p.nr_blocks)
    (small : suc left ≤ 2 ^ 31) (ne : get_or p.bitmap i 0 ≢ 2 ^ 32 - 1) where
  search_loop-beyond :
      (fuel last : ℕ)
      → last < 32
      → RunIs 1 (get_or p.bitmap i 0) last (32 - last)
      → search_loop (suc fuel) p i last (suc left) ≡ none
  search_loop-beyond fuel last l ones =
      let (idx, found, place) = find_next_zero_lem (get_or p.bitmap i 0) last (is.words i) ne l in
      elim place [
        | inl first ↦ absurd (
            omega
              (arith, first.is_clear, ones idx first.from_start (omega (arith, first.below_end))))
        | inr (beyond, _) ↦
            search_loop-fault fuel p is.holds i last (suc left) inside idx ne found
              (blocks_free-beyond p i idx left is.holds inside (omega arith) (omega arith) small)
      ]

  search_loop_twice :
      (fuel idx : ℕ)
      → find_next_zero (get_or p.bitmap i 0) 0 ≡ some idx
      → idx + suc left < 32
      → ¬ Fits p.nr_blocks p.bitmap (32 * i + idx) (suc left)
      → RunIs 1 (get_or p.bitmap i 0) (idx + suc left) (32 - (idx + suc left))
      → search_loop (suc (suc fuel)) p i 0 (suc left) ≡ none
  search_loop_twice fuel idx found more not_fit ones =
      let (free, e, iff) = blocks_free_lem p is.holds i idx (suc left) (omega arith) small in
      elim (Bool-cases free) [
        | inl fits ↦ absurd (not_fit (iff.0 fits))
        | inr refused ↦
            search_loop-refused (suc fuel) p is.holds i 0 (suc left) inside idx ne found
              (e ∙ ap some refused)
            ∙ rw (near, same) (search_loop-beyond fuel (idx + suc left) more ones)
      ]
    where
      same : u32 (idx + suc left) ≡ idx + suc left
      same = omega arith

      near : ltb (u32 (idx + suc left)) bpi ≡ true
      near = ground arith

-- For a size from 1 to 2 ^ 31 + 2 ^ 30 bytes and enough blocks counted free: where the first word
-- to search lies in the pool and has a clear bit at which the request does not fit, and only used
-- blocks behind that run, __smalloc_pool shifts by more than the width of the word, which is
-- undefined.
pub smalloc_blocks-beyond :
    (p : Pool) (size idx : ℕ)
    → IsPool p
    → 0 < size
    → size ≤ 2 ^ 31 + 2 ^ 30
    → size_to_blocks size ≤ p.free_blocks
    → p.next_non_full < p.nr_blocks
    → FirstZero (get_or p.bitmap p.next_non_full 0) 0 idx
    → idx + size_to_blocks size < 32
    → ¬ Fits p.nr_blocks p.bitmap (32 * p.next_non_full + idx) (size_to_blocks size)
    → RunIs 1
        (get_or p.bitmap p.next_non_full 0)
        (idx + size_to_blocks size)
        (32 - (idx + size_to_blocks size))
    → smalloc_blocks p size ≡ none
smalloc_blocks-beyond p size idx is pos small free inside first more not_fit ones =
    smalloc_blocks-search p size is pos small (omega arith)
    ∙ ap (λ f. search_loop f p p.next_non_full 0 (size_to_blocks size)) fuel
    ∙ ap (search_loop (suc (suc (bpi * p.nr_blocks - 1))) p p.next_non_full 0) nr
    ∙ search_loop_twice p is p.next_non_full (size_to_blocks size - 1) inside (omega arith)
        (FirstZero-ne word idx first) (bpi * p.nr_blocks - 1) idx
        (find_next_zero-eq word idx (is.words p.next_non_full) first) (omega (arith, nr))
        (subst (λ n. ¬ Fits p.nr_blocks p.bitmap (32 * p.next_non_full + idx) n) nr not_fit)
        (subst (λ n. RunIs 1 word (idx + n) (32 - (idx + n))) nr ones)
  where
    word : ℕ
    word = get_or p.bitmap p.next_non_full 0

    nr : size_to_blocks size ≡ suc (size_to_blocks size - 1)
    nr = omega (arith, size_to_blocks_lem size pos small)

    fuel : suc (bpi * p.nr_blocks) ≡ suc (suc (bpi * p.nr_blocks - 1))
    fuel = omega arith
