-- ===== src/Smalloc/Check.antt =====
-- blocks_free of smalloc.c: blocks_iter with mask_cmp.
use fio_ssd.Prelude.{
  ℕ, zero, suc, ◌+◌, ◌-◌, ◌*◌, ◌^◌, ◌≤◌, ◌<◌, ◌≡◌, refl, ap, ◌∙◌, arith, List, Bool, true, false,
  ◌↔◌, ◌⊎◌, get_or, set-get_or, Option, some, dec_lt, inl, inr,
}
use fio_ssd.Bits.{ones_at}
use fio_ssd.Smalloc.{blocks_iter, mask_cmp}
use fio_ssd.Smalloc.Word.{AllAre, RunIs, AllAre-RunIs_iff, mask_cmp_lem}
use fio_ssd.Smalloc.Iter.{Holds, here, blocks_iter-suc}

-- The `n` blocks from `k` on are in the pool and free.
abbrev pub Fits : ℕ → List ℕ → ℕ → ℕ → Type 0
Fits words m k n = ((n ≡ 0) ⊎ (k + n ≤ 32 * words)) × AllAre 0 m k n

-- The outcome of a check.
abbrev Checked : ℕ → List ℕ → ℕ → ℕ → Option (List ℕ × Bool) → Type 0
Checked words m k n out =
    (free : Bool) × (out ≡ some (m, free)) × ((free ≡ true) ↔ Fits words m k n)

-- The blocks of this word and those of the rest are all of them.
Fits-append :
    (words : ℕ) (m : List ℕ) (i b left : ℕ)
    → i < words
    → b < 32
    → AllAre 0 m (32 * i + b) (here (suc left) b)
    → Fits words m (32 * (i + 1) + 0) (suc left - here (suc left) b)
    → Fits words m (32 * i + b) (suc left)
Fits-append words m i b left inside q first (end, rest) = (
  inr (omega arith),
  λ j r t. elim (dec_lt j (32 * i + b + here (suc left) b)) [
    | yes early ↦ first j r early
    | no late ↦ rest j (omega arith) (omega arith)
  ],
)

inside_rest :
    (words : ℕ) (m : List ℕ) (i b left : ℕ)
    → b < 32
    → ((suc left ≡ 0) ⊎ (32 * i + b + suc left ≤ 32 * words))
    → ((suc left - here (suc left) b ≡ 0)
        ⊎ (32 * (i + 1) + 0 + (suc left - here (suc left) b) ≤ 32 * words))
inside_rest words m i b left q (inl e) = absurd (omega arith)
inside_rest words m i b left q (inr end) = elim (dec_lt (32 - b) (suc left)) [
  | yes more ↦ inr (omega arith)
  | no less ↦ inl (omega arith)
]

module _ (fuel words : ℕ) (m : List ℕ) (i b left : ℕ) (h : Holds words m) (q : b < 32)
    (small : suc left ≤ 2 ^ 31) where
  Checked-past :
      ¬ (i < words)
      → Checked words m
          (32 * i + b)
          (suc left)
          (blocks_iter (suc fuel) mask_cmp words m i b (suc left))
  unfolding blocks_iter
  Checked-past past = (false, ground arith, (λ e. cc, λ f. absurd (omega (arith, f.0))))

  Checked-word :
      i < words
      → (free : Bool)
      → mask_cmp (get_or m i 0) (ones_at (here (suc left) b) b) ≡ some (get_or m i 0, free)
      → ((free ≡ true) ↔ RunIs 0 (get_or m i 0) b (here (suc left) b))
      → Checked words m
          (32 * (i + 1) + 0)
          (suc left - here (suc left) b)
          (blocks_iter fuel mask_cmp words m (i + 1) 0 (suc left - here (suc left) b))
      → Checked words m
          (32 * i + b)
          (suc left)
          (blocks_iter (suc fuel) mask_cmp words m i b (suc left))
  Checked-word inside false e iff rest = (
    false,
    blocks_iter-suc mask_cmp words m i b left fuel (get_or m i 0) false h inside q small e
        ∙ ap (λ t. some (t, false)) (set-get_or m i 0),
    (
      λ x. cc,
      λ f. cc (
          iff.1 (
            (AllAre-RunIs_iff 0 m i b (here (suc left) b) (omega arith)).0
              (λ j r t. f.1 j r (omega arith)))),
    ),
  )
  Checked-word inside true e iff (free, e', iff') = (
    free,
    blocks_iter-suc mask_cmp words m i b left fuel (get_or m i 0) true h inside q small e
        ∙ ap (λ t. blocks_iter fuel mask_cmp words t (i + 1) 0 (suc left - here (suc left) b))
            (set-get_or m i 0)
        ∙ e',
    (
      λ x.
          Fits-append words m i b left inside q
            ((AllAre-RunIs_iff 0 m i b (here (suc left) b) (omega arith)).1 (iff.0 refl))
            (iff'.0 x),
      λ f. iff'.1 (inside_rest words m i b left q f.0, λ j r t. f.1 j (omega arith) (omega arith)),
    ),
  )

pub blocks_iter-Checked :
    (fuel words : ℕ) (m : List ℕ) (i b n : ℕ)
    → n ≤ fuel
    → Holds words m
    → b < 32
    → n ≤ 2 ^ 31
    → Checked words m (32 * i + b) n (blocks_iter fuel mask_cmp words m i b n)
blocks_iter-Checked fuel words m i b zero enough h q small =
    (true, unfold blocks_iter in refl, (λ e. (inl refl, λ j r t. absurd (omega arith)), λ f. refl))
blocks_iter-Checked zero words m i b (suc left) enough h q small = absurd (omega arith)
blocks_iter-Checked (suc fuel) words m i b (suc left) enough h q small = elim (dec_lt i words) [
  | yes inside ↦
      let (free, e, iff) = mask_cmp_lem (get_or m i 0) b (here (suc left) b) in
      Checked-word fuel words m i b left h q small inside free e iff (
        blocks_iter-Checked fuel words m (i + 1) 0 (suc left - here (suc left) b) (omega arith) h
          (omega arith) (omega arith))
  | no past ↦ Checked-past fuel words m i b left h q small past
]
