-- ===== src/Smalloc/Total.antt =====
-- Requests for which the search loop of __smalloc_pool always answers: those of one block, and
-- those of 32 or more, since these look at each word from its first clear bit on.
use mathlib.Core.Path.{subst}
use fio_ssd.Prelude.{
  arith, ℕ, zero, suc, ◌+◌, ◌-◌, ◌*◌, ◌/◌, ◌^◌, ◌≤◌, ◌<◌, ◌≡◌, ◌≢◌, ◌⊎◌, inl, inr, refl, sym, ap,
  ◌∙◌, ltb, false, Option, none, some, get_or, List, dec_lt, ℕ_discrete,
}
use fio_ssd.RandMap.{u32}
use fio_ssd.Bits.{test_bit}
use fio_ssd.Smalloc.{Pool, bpi, search_loop}
use fio_ssd.Smalloc.Word.{Words, AllAre-RunIs_iff}
use fio_ssd.Smalloc.Iter.{Holds}
use fio_ssd.Smalloc.Check.{Fits}
use fio_ssd.Smalloc.NextZero.{FirstZero, find_next_zero-zero}
use fio_ssd.Smalloc.Round.{search_loop-past, search_loop-full, search_loop-refused}
use fio_ssd.Smalloc.Search.{Answer, Answer-next, round}

-- There is an answer, and it is `none` only where every word from `i` on is full (if `all` asks so).
abbrev pub Answers : Pool → ℕ → ℕ → Option (Pool × Option ℕ) → Type 0
Answers p i nr out =
    (r : Pool × Option ℕ) × (out ≡ some r)
    × Answer p nr r
    × (nr ≡ 1 → r.1 ≡ none → (j : ℕ) → i ≤ j → j < p.nr_blocks → get_or p.bitmap j 0 ≡ 2 ^ 32 - 1)

-- A clear bit is room for one block.
one-Fits :
    (words : ℕ) (m : List ℕ) (i idx : ℕ)
    → i < words
    → FirstZero (get_or m i 0) 0 idx
    → Fits words m (32 * i + idx) 1
one-Fits words m i idx inside first = (
  inr (omega (arith, first.below_end)),
  (AllAre-RunIs_iff 0 m i idx 1 (omega (arith, first.below_end))).1
      (λ k r t. ap (test_bit (get_or m i 0)) (index k r t) ∙ first.is_clear),
)
  where
    index : (k : ℕ) → idx ≤ k → k < idx + 1 → k ≡ idx
    index k r t = omega arith

module _ (p : Pool) (h : Holds p.nr_blocks p.bitmap) (words : Words p.bitmap) (fuel i left : ℕ)
    (small : suc left ≤ 2 ^ 31) (size : (left ≡ 0) ⊎ (31 ≤ left))
    (rest : (n j : ℕ)
      → i < p.nr_blocks
      → i < j
      → Answers p j
          (suc left)
          (search_loop fuel (record p { next_non_full = n }) j 0 (suc left))) where
  Answers-full :
      i < p.nr_blocks
      → get_or p.bitmap i 0 ≡ 2 ^ 32 - 1
      → Answers p i (suc left) (search_loop (suc fuel) p i 0 (suc left))
  Answers-full inside full =
      let (r, e, a, all) = rest (i + 1) (i + 1) inside (omega arith) in
      (
        r,
        search_loop-full fuel p h i 0 (suc left) inside full ∙ e,
        a,
        λ one none_left j f t. elim (ℕ_discrete j i) [
          | yes here ↦ ap (λ k. get_or p.bitmap k 0) here ∙ full
          | no later ↦ all one none_left j (omega arith) t
        ],
      )

  far : (idx : ℕ) → 31 ≤ left → idx < 32 → ltb (u32 (idx + suc left)) bpi ≡ false
  far idx many q = ground arith

  Answers-place :
      i < p.nr_blocks
      → get_or p.bitmap i 0 ≢ 2 ^ 32 - 1
      → Answers p i (suc left) (search_loop (suc fuel) p i 0 (suc left))
  Answers-place inside ne =
      let (idx, found, first) = find_next_zero-zero (get_or p.bitmap i 0) (words i) ne in
      elim (round p h i 0 left idx small inside ne found first.below_end fuel) [
        | inl (r, e, taken_some, a) ↦ (r, e, a, λ one taken_none. absurd (taken_some taken_none))
        | inr (refused, why) ↦ elim size [
          | inl one ↦ absurd (
              why (
                subst (λ n. Fits p.nr_blocks p.bitmap (32 * i + idx) (suc n)) (sym one)
                  (one-Fits p.nr_blocks p.bitmap i idx inside first)))
          | inr many ↦
              let (r, e, a, all) =
                rest p.next_non_full (i + u32 (idx + suc left) / bpi) inside
                  (omega (arith, first.below_end)) in
              (
                r,
                search_loop-refused fuel p h i 0 (suc left) inside idx ne found refused
                    ∙ rw (far idx many first.below_end) refl
                    ∙ e,
                a,
                λ one. absurd (omega arith),
              )
        ]
      ]

  Answers-round : Answers p i (suc left) (search_loop (suc fuel) p i 0 (suc left))
  Answers-round = elim (dec_lt i p.nr_blocks) [
    | yes inside ↦ elim (ℕ_discrete (get_or p.bitmap i 0) (2 ^ 32 - 1)) [
      | yes full ↦ Answers-full inside full
      | no ne ↦ Answers-place inside ne
    ]
    | no past ↦ (
      (p, none),
      search_loop-past fuel p h i 0 (suc left) (omega arith),
      (record { same_nr = refl; same_mem = refl }, refl, refl),
      λ one found_none j f t. absurd (omega arith),
    )
  ]

Answers-next :
    (p : Pool) (n i nr : ℕ) (out : Option (Pool × Option ℕ))
    → Answers (record p { next_non_full = n }) i nr out
    → Answers p i nr out
Answers-next p n i nr out (r, e, a, all) = (r, e, Answer-next p n nr r a, all)

pub search_loop-Answers :
    (fuel : ℕ) (p : Pool) (i left : ℕ)
    → p.nr_blocks < fuel + i
    → 0 < fuel
    → Holds p.nr_blocks p.bitmap
    → Words p.bitmap
    → suc left ≤ 2 ^ 31
    → (left ≡ 0) ⊎ (31 ≤ left)
    → Answers p i (suc left) (search_loop fuel p i 0 (suc left))
search_loop-Answers zero p i left enough some_fuel h words small size = absurd (omega arith)
search_loop-Answers (suc fuel) p i left enough some_fuel h words small size =
    Answers-round p h words fuel i left small size λ n j inside later.
      Answers-next p n j (suc left) _ (
        search_loop-Answers fuel (record p { next_non_full = n }) j left (omega arith) (omega arith)
          h words small size)
