-- ===== src/Smalloc/Search.antt =====
-- The search loop of __smalloc_pool: what it hands out, and that it comes to an end.
use fio_ssd.Prelude.{
  arith, ℕ, zero, suc, ◌+◌, ◌-◌, ◌*◌, ◌/◌, ◌^◌, ◌≤◌, ◌<◌, ◌≡◌, ◌≢◌, ◌⊎◌, inl, inr, refl, ltb,
  if◌then◌else◌, false, Bool-cases, Option, none, some, get_or, List, ap, ◌∙◌, dec_lt, ℕ_discrete,
}
use mathlib.Core.Path.{subst, sym}
use fio_ssd.RandMap.{u32}
use fio_ssd.Smalloc.{Pool, bpi, bpb, bpl, search_loop, find_next_zero, blocks_free}
use fio_ssd.Smalloc.Word.{AllAre, Makes, Words}
use fio_ssd.Smalloc.Iter.{Holds}
use fio_ssd.Smalloc.Check.{Fits}
use fio_ssd.Smalloc.Blocks.{blocks_free_lem, set_blocks_lem, blocks_free-beyond}
use fio_ssd.Smalloc.NextZero.{find_next_zero_lem}
use fio_ssd.Smalloc.Round.{
  search_loop-past, search_loop-full, search_loop-fault, search_loop-taken, search_loop-refused,
}

-- What neither the allocation nor the release of blocks changes.
pub record Keeps (p q : Pool) : Type 0 where
  pub same_nr : q.nr_blocks ≡ p.nr_blocks
  pub same_mem : q.mem ≡ p.mem

-- A run of `nr` free blocks of `p` at the offset `off` is taken.
pub record Took (p : Pool) (nr off : ℕ) (q : Pool) : Type 0 where
  pub block : ℕ
  pub at : off ≡ 32 * block
  pub inside : block + nr ≤ 32 * p.nr_blocks
  pub were_free : AllAre 0 p.bitmap block nr
  pub taken : Makes 1 p.bitmap block nr q.bitmap
  pub counted : q.free_blocks ≡ p.free_blocks - nr

-- What an allocation may answer: nothing, with the blocks as they were, or a run.
abbrev pub Answer : Pool → ℕ → Pool × Option ℕ → Type 0
Answer p nr (q, none) = Keeps p q × (q.bitmap ≡ p.bitmap) × (q.free_blocks ≡ p.free_blocks)
Answer p nr (q, some off) = Keeps p q × Took p nr off q

-- A result, where there is one, is such an answer.
abbrev pub Ensures : Pool → ℕ → Option (Pool × Option ℕ) → Type 0
Ensures p nr out = (r : Pool × Option ℕ) → out ≡ some r → Answer p nr r

-- The answer does not depend on where the search starts.
pub Answer-next :
    (p : Pool) (n nr : ℕ) (r : Pool × Option ℕ)
    → Answer (record p { next_non_full = n }) nr r
    → Answer p nr r
Answer-next p n nr (q, none) (k, b, f) =
    (record { same_nr = k.same_nr; same_mem = k.same_mem }, b, f)
Answer-next p n nr (q, some off) (k, t) = (
  record { same_nr = k.same_nr; same_mem = k.same_mem },
  record {
    block = t.block;
    at = t.at;
    inside = t.inside;
    were_free = t.were_free;
    taken = t.taken;
    counted = t.counted;
  },
)

module _ (p : Pool) (h : Holds p.nr_blocks p.bitmap) (i last left idx : ℕ)
    (small : suc left ≤ 2 ^ 31) (inside : i < p.nr_blocks) (ne : get_or p.bitmap i 0 ≢ 2 ^ 32 - 1)
    (found : find_next_zero (get_or p.bitmap i 0) last ≡ some idx) (q : idx < 32) where
  -- The answer of the round that takes the run.
  abbrev taking : List ℕ → Pool × Option ℕ
  taking m = (
    record (record p { bitmap = m }) { free_blocks = p.free_blocks - suc left },
    some (u32 (i * bpl + idx * bpb)),
  )

  -- The round at a clear bit: the run is taken, or refused.
  pub round :
      (fuel : ℕ)
      → ((r : Pool × Option ℕ) × (search_loop (suc fuel) p i last (suc left) ≡ some r)
          × (r.1 ≢ none)
          × Answer p (suc left) r)
        ⊎ ((blocks_free p i idx (suc left) ≡ some false)
            × ¬ Fits p.nr_blocks p.bitmap (32 * i + idx) (suc left))
  round fuel =
      let (free, e, iff) = blocks_free_lem p h i idx (suc left) q small in
      elim (Bool-cases free) [
        | inl yes_free ↦
            let fits : Fits p.nr_blocks p.bitmap (32 * i + idx) (suc left) = iff.0 yes_free in
            let end : 32 * i + idx + suc left ≤ 32 * p.nr_blocks = ground (arith, fits.0) in
            let (m, e', made) = set_blocks_lem p h i idx (suc left) q end fits.1 in
            inl (
              taking m,
              search_loop-taken fuel p h i last (suc left) inside idx ne found
                  (record p { bitmap = m }) (e ∙ ap some yes_free) e',
              (λ taken_none. cc),
              (
                record { same_nr = refl; same_mem = refl },
                record {
                  block = 32 * i + idx;
                  at = omega (arith, h.small);
                  inside = end;
                  were_free = fits.1;
                  taken = made;
                  counted = refl;
                },
              ),
            )
        | inr refused ↦ inr (e ∙ ap some refused, λ fits. cc (refused, iff.1 fits))
      ]

Ensures-some : (p : Pool) (nr : ℕ) (r : Pool × Option ℕ) → Answer p nr r → Ensures p nr (some r)
Ensures-some p nr r a r' e = subst (Answer p nr) (cc) a

Ensures-none : (p : Pool) (nr : ℕ) → Ensures p nr none
Ensures-none p nr r e = cc

module _ (p : Pool) (h : Holds p.nr_blocks p.bitmap) (words : Words p.bitmap) (fuel i last left : ℕ)
    (small : suc left ≤ 2 ^ 31) (l : last < 32)
    (rest : (n i last : ℕ)
      → last < 32
      → Ensures p
          (suc left)
          (search_loop fuel (record p { next_non_full = n }) i last (suc left))) where
  Ensures-again :
      (idx : ℕ)
      → Ensures p (suc left) (
          if ltb (u32 (idx + suc left)) bpi
          then search_loop fuel p i (u32 (idx + suc left)) (suc left)
          else search_loop fuel p (i + u32 (idx + suc left) / bpi) 0 (suc left))
  Ensures-again idx = elim (Bool-cases (ltb (u32 (idx + suc left)) bpi)) [
    | inl e ↦ rw e (rest p.next_non_full i (u32 (idx + suc left)) (ground (arith, e)))
    | inr e ↦ rw e (rest p.next_non_full (i + u32 (idx + suc left) / bpi) 0 (omega arith))
  ]

  Ensures-place :
      i < p.nr_blocks
      → get_or p.bitmap i 0 ≢ 2 ^ 32 - 1
      → Ensures p (suc left) (search_loop (suc fuel) p i last (suc left))
  Ensures-place inside ne =
      let (idx, found, place) = find_next_zero_lem (get_or p.bitmap i 0) last (words i) ne l in
      elim place [
        | inl first ↦ elim (round p h i last left idx small inside ne found first.below_end fuel) [
          | inl (r, e, taken_some, a) ↦
              subst (Ensures p (suc left)) (sym e) (Ensures-some p (suc left) r a)
          | inr (refused, why) ↦
              subst (Ensures p (suc left))
                (sym (search_loop-refused fuel p h i last (suc left) inside idx ne found refused))
                (Ensures-again idx)
        ]
        | inr (beyond, ones) ↦
            subst (Ensures p (suc left))
              (sym (
                search_loop-fault fuel p h i last (suc left) inside idx ne found
                  (blocks_free-beyond p i idx left h inside (omega arith) (omega arith) small)))
              (Ensures-none p (suc left))
      ]

  Ensures-round : Ensures p (suc left) (search_loop (suc fuel) p i last (suc left))
  Ensures-round = elim (dec_lt i p.nr_blocks) [
    | yes inside ↦ elim (ℕ_discrete (get_or p.bitmap i 0) (2 ^ 32 - 1)) [
      | yes full ↦
          subst (Ensures p (suc left))
            (sym (search_loop-full fuel p h i last (suc left) inside full))
            (rest (i + 1) (i + 1) 0 (omega arith))
      | no ne ↦ Ensures-place inside ne
    ]
    | no past ↦
        subst (Ensures p (suc left))
          (sym (search_loop-past fuel p h i last (suc left) (omega arith)))
          (Ensures-some p (suc left) (p, none)
            (record { same_nr = refl; same_mem = refl }, refl, refl))
  ]

pub search_loop-Ensures :
    (fuel : ℕ) (p : Pool) (i last left : ℕ)
    → Holds p.nr_blocks p.bitmap
    → Words p.bitmap
    → last < 32
    → suc left ≤ 2 ^ 31
    → Ensures p (suc left) (search_loop fuel p i last (suc left))
search_loop-Ensures zero p i last left h words l small =
    unfold search_loop in Ensures-none p (suc left)
search_loop-Ensures (suc fuel) p i last left h words l small =
    Ensures-round p h words fuel i last left small l λ n i' last' l' r e.
      Answer-next p n (suc left) r (
        search_loop-Ensures fuel (record p { next_non_full = n }) i' last' left h words l' small r
          e)
