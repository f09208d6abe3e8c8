-- ===== src/Smalloc/Iter.antt =====
-- blocks_iter of smalloc.c, with each of its three callbacks.
use fio_ssd.Prelude.{
  ℕ, zero, suc, ◌+◌, ◌-◌, ◌*◌, ◌^◌, ◌≤◌, ◌<◌, ◌≡◌, refl, ◌∙◌, arith, List, Bool, true, false, ltb,
  leb, if◌then◌else◌, ◌&&◌, ◌⊎◌, length, get_or, set, length-set, get_elem?-eq-get_or, Option, some,
  min,
}
use mathlib.Core.Path.{subst}
use fio_ssd.Bits.{ones_at, test_bit}
use fio_ssd.Smalloc.{this_blocks, blocks_iter}
use fio_ssd.Smalloc.Word.{AllAre, Makes, RunIs, run_mask_lem, AllAre-RunIs_iff, Makes-word}

-- The bitmap holds `words` words, few enough that no count of blocks wraps.
pub record Holds (words : ℕ) (m : List ℕ) : Type 0 where
  pub allocated : words ≤ length m
  pub small : words < 2 ^ 22

-- The blocks that a round takes.
abbrev pub here : ℕ → ℕ → ℕ
here n b = min n (32 - b)

module _ (func : ℕ → ℕ → Option (ℕ × Bool)) (words : ℕ) (m : List ℕ) (i b left : ℕ) where
  pub blocks_iter-suc :
      (fuel w' : ℕ) (on : Bool)
      → Holds words m
      → i < words
      → b < 32
      → suc left ≤ 2 ^ 31
      → func (get_or m i 0) (ones_at (here (suc left) b) b) ≡ some (w', on)
      → blocks_iter (suc fuel) func words m i b (suc left) ≡ (
          if on
          then blocks_iter fuel func words (set m i w') (i + 1) 0 (suc left - here (suc left) b)
          else some (set m i w', false))
  unfolding blocks_iter
  blocks_iter-suc fuel w' on h p q r e =
      rw
        (
          not_past,
          get_elem?-eq-get_or m i 0 (omega (arith, h.allocated)),
          this_eq,
          run_mask_lem (here (suc left) b) b (omega arith) (omega arith),
          e,
        )
        refl
    where
      not_past : leb words i ≡ false
      not_past = ground arith

      this_eq : this_blocks (suc left) b ≡ here (suc left) b
      this_eq = ground arith

-- A change of no blocks, and a change of `n` blocks followed by one of `k`, wherever that starts if
-- it is empty.
pub Makes-none : (v : ℕ) (m : List ℕ) (k : ℕ) → Makes v m k 0 m
Makes-none v m k = record { same_length = refl; words = λ all. all; bits = λ j. ground arith }

pub Makes-append :
    (v : ℕ) (m m₁ m₂ : List ℕ) (start next n k : ℕ)
    → (k ≡ 0) ⊎ (next ≡ start + n)
    → Makes v m start n m₁
    → Makes v m₁ next k m₂
    → Makes v m start (n + k) m₂
Makes-append v m m₁ m₂ start next n k at p q = record {
  same_length = q.same_length ∙ p.same_length;
  words = λ all. q.words (p.words all);
  bits = λ j. ground (arith, p.bits j, q.bits j);
}

-- A callback that turns runs of `u` into runs of `v`.
abbrev pub Turns : ℕ → ℕ → (ℕ → ℕ → Option (ℕ × Bool)) → Type 0
Turns u v func =
    (w b n : ℕ)
    → b + n ≤ 32
    → RunIs u w b n
    → (w' : ℕ) × (func w (ones_at n b) ≡ some (w', true))
      × (w < 2 ^ 32 → w' < 2 ^ 32)
      × ((k : ℕ) → k < 32 → test_bit w' k ≡ (if leb b k && ltb k (b + n) then v else test_bit w k))

module _ (u v : ℕ) (func : ℕ → ℕ → Option (ℕ × Bool)) (turns : Turns u v func) (fuel words : ℕ)
    (m : List ℕ) (i b left : ℕ) (h : Holds words m) (q : b < 32)
    (inside : 32 * i + b + suc left ≤ 32 * words) (all : AllAre u m (32 * i + b) (suc left)) where
  first_round :
      (w' : ℕ) × (func (get_or m i 0) (ones_at (here (suc left) b) b) ≡ some (w', true))
      × Makes v m (32 * i + b) (here (suc left) b) (set m i w')
  first_round = (
    turned.0,
    turned.1,
    Makes-word v m i b (here (suc left) b) turned.0 (omega (arith, h.allocated)) (omega arith)
        turned.2 turned.3,
  )
    where
      turned :
          (w' : ℕ) × (func (get_or m i 0) (ones_at (here (suc left) b) b) ≡ some (w', true))
          × (get_or m i 0 < 2 ^ 32 → w' < 2 ^ 32)
          × ((k : ℕ)
              → k < 32
              → test_bit w' k ≡ (
                  if leb b k && ltb k (b + here (suc left) b)
                  then v
                  else test_bit (get_or m i 0) k))
      turned = turns (get_or m i 0) b (here (suc left) b) (omega arith) (
          (AllAre-RunIs_iff u m i b (here (suc left) b) (omega arith)).0
            (λ j r t. all j r (omega arith)))

  -- The rounds after the first.
  next_rounds :
      (w' : ℕ)
      → func (get_or m i 0) (ones_at (here (suc left) b) b) ≡ some (w', true)
      → Makes v m (32 * i + b) (here (suc left) b) (set m i w')
      → (Holds words (set m i w')
          → 32 * (i + 1) + 0 + (suc left - here (suc left) b) ≤ 32 * words
          → AllAre u (set m i w') (32 * (i + 1) + 0) (suc left - here (suc left) b)
          → (m' : List ℕ) × (blocks_iter fuel func words
                (set m i w')
                (i + 1)
                0
                (suc left - here (suc left) b)
              ≡ some (m', true))
            × Makes v (set m i w') (32 * (i + 1) + 0) (suc left - here (suc left) b) m')
      → (m' : List ℕ) × (blocks_iter (suc fuel) func words m i b (suc left) ≡ some (m', true))
        × Makes v m (32 * i + b) (suc left) m'
  next_rounds w' e first rest =
      let (m', e', made) =
        rest (record { allocated = rw length-set h.allocated; small = h.small }) (omega arith)
          (λ j r t. ground (arith, first.bits j, all j)) in
      (
        m',
        blocks_iter-suc func words m i b left fuel w' true h (omega arith) q
              (omega (arith, h.small)) e
            ∙ e',
        subst (λ n. Makes v m (32 * i + b) n m') (omega arith)
            (Makes-append v m (set m i w') m' (32 * i + b) (32 * (i + 1) + 0) (here (suc left) b)
              (suc left - here (suc left) b) (omega arith) first made),
      )

-- A callback that turns runs makes the whole run of blocks so, and the iteration goes to its end.
pub blocks_iter-Makes :
    (u v : ℕ) (func : ℕ → ℕ → Option (ℕ × Bool))
    → Turns u v func
    → (fuel words : ℕ) (m : List ℕ) (i b n : ℕ) → n ≤ fuel
    → Holds words m
    → b < 32
    → 32 * i + b + n ≤ 32 * words
    → AllAre u m (32 * i + b) n
    → (m' : List ℕ) × (blocks_iter fuel func words m i b n ≡ some (m', true))
      × Makes v m (32 * i + b) n m'
blocks_iter-Makes u v func turns fuel words m i b zero enough h q inside all =
    (m, unfold blocks_iter in refl, Makes-none v m _)
blocks_iter-Makes u v func turns zero words m i b (suc left) enough h q inside all =
    absurd (omega arith)
blocks_iter-Makes u v func turns (suc fuel) words m i b (suc left) enough h q inside all =
    let (w', e, first) = first_round u v func turns fuel words m i b left h q inside all in
    next_rounds u v func turns fuel words m i b left h q inside all w' e first (λ h' inside' all'.
      blocks_iter-Makes u v func turns fuel words (set m i w') (i + 1) 0
        (suc left - here (suc left) b) (omega arith) h' (omega arith) inside' all')
