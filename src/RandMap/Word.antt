-- ===== src/RandMap/Word.antt =====
-- One word of the map: what `run_mask`, `shrink` and one marking of io_u.c do to its bits.
use fio_ssd.Prelude.{
  ℕ, zero, suc, ◌+◌, ◌-◌, ◌/◌, ◌%◌, ◌^◌, ◌≤◌, ◌<◌, bit_and, bit_or, ◌≡◌, ◌≢◌, arith, List, false,
  ltb, leb, ◌==◌, ==_iff, if◌then◌else◌, ◌&&◌, ◌↔◌, inl, inr, length, get_or, set, get_or-set_self,
  get_or-set_ne, ◌∙◌, ap, sym, dec_lt, Bool-cases, ℕ_discrete,
}
use mathlib.Core.Path.{subst}
use fio_ssd.Bits.{test_bit, ones_at}
use fio_ssd.Bits.Laws.{test_bit-le-one}
use fio_ssd.Bits.Mask.{ones_at-lt}
use fio_ssd.Bits.Run.{RunFree, bit_and-ones_at_iff, test_bit-mark}
use fio_ssd.RandMap.{run_mask, shrink}

-- Within a word the mask is the run of ones.
pub run_mask_lem : (n b : ℕ) → b + n ≤ 64 → run_mask n b ≡ ones_at n b
unfolding run_mask ones_at
run_mask_lem n b h = elim (ℕ_discrete n 64) [
  | yes e ↦ ground (arith, ap (λ (t : ℕ). 2 ^ t) e, ap (λ (t : ℕ). 2 ^ t) (base e))
  | no ne ↦ ground (arith, ones_at-lt 64 n b h)
]
  where
    base : n ≡ 64 → b ≡ 0
    base e = omega arith

-- What the inner loop keeps of a run of `t` blocks: a free run, cut only before a set bit.
pub record Shrunk (w b t r : ℕ) : Type 0 where
  pub le : r ≤ t
  pub free : RunFree w b r
  pub stop : r < t → test_bit w (b + r) ≡ 1

RunFree-suc : (w b t : ℕ) → RunFree w b t → test_bit w (b + t) ≡ 0 → RunFree w b (suc t)
RunFree-suc w b t free last i p q = elim (ℕ_discrete i (b + t)) [
  | yes e ↦ ap (test_bit w) e ∙ last
  | no ne ↦ free i p (omega arith)
]

RunFree-zero : (w b : ℕ) → RunFree w b 0
RunFree-zero w b i p q = absurd (omega arith)

-- A longer run that is refused has its last bit set.
Shrunk-suc :
    (w b t r : ℕ)
    → b + suc t ≤ 64
    → Shrunk w b t r
    → (bit_and w (run_mask (suc t) b) == 0) ≡ false
    → Shrunk w b (suc t) r
Shrunk-suc w b t r h shorter e = record {
  le = omega (arith, shorter.le);
  free = shorter.free;
  stop = λ p. elim (dec_lt r t) [
    | yes q ↦ shorter.stop q
    | no q ↦
        ap (λ n. test_bit w (b + n)) (full q) ∙ busy (subst (RunFree w b) (full q) shorter.free)
  ];
}
  where
    full : ¬ (r < t) → r ≡ t
    full q = omega (arith, shorter.le)

    refused : bit_and w (run_mask (suc t) b) ≢ 0
    refused z = cc (e, (==_iff (bit_and w (run_mask (suc t) b)) 0).1 z)

    busy : RunFree w b t → test_bit w (b + t) ≡ 1
    busy free = elim (ℕ_discrete (test_bit w (b + t)) 0) [
      | yes z ↦ absurd (
          refused (
            rw (run_mask_lem (suc t) b h)
              ((bit_and-ones_at_iff w b (suc t)).1 (RunFree-suc w b t free z))))
      | no z ↦ omega (arith, test_bit-le-one w (b + t))
    ]

pub shrink-Shrunk : (w b t : ℕ) → b + t ≤ 64 → Shrunk w b t (shrink w b t)
unfolding shrink
shrink-Shrunk w b zero h = record {
  le = omega arith;
  free = RunFree-zero w b;
  stop = λ p. absurd (omega arith);
}
shrink-Shrunk w b (suc t) h = elim (Bool-cases (bit_and w (run_mask (suc t) b) == 0)) [
  | inl e ↦
      rw (e, shrink)
        (record {
          le = omega arith;
          free =
              (bit_and-ones_at_iff w b (suc t)).0
                (rw (← run_mask_lem (suc t) b h) ((==_iff (bit_and w (run_mask (suc t) b)) 0).0 e));
          stop = λ p. absurd (omega arith);
        })
  | inr e ↦ rw (e, shrink) (Shrunk-suc w b t (shrink w b t) h (shrink-Shrunk w b t (omega arith)) e)
]

-- The bit of `block` in the map, 0 or 1.
abbrev pub block_bit : List ℕ → ℕ → ℕ
block_bit m block = test_bit (get_or m (block / 64) 0) (block % 64)

-- Marking `n` blocks of the word at `block` sets their bits, and no other.
pub block_bit-mark :
    (m : List ℕ) (block n j : ℕ)
    → block / 64 < length m
    → block % 64 + n ≤ 64
    → block_bit (set m (block / 64) (bit_or (get_or m (block / 64) 0) (ones_at n (block % 64)))) j
      ≡ (if leb block j && ltb j (block + n) then 1 else block_bit m j)
block_bit-mark m block n j inside fits = elim (ℕ_discrete (block / 64) (j / 64)) [
  | yes e ↦
      ap (λ k. test_bit (get_or marked k 0) (j % 64)) (sym e)
      ∙ ap (λ w. test_bit w (j % 64)) (get_or-set_self m (block / 64) _ 0 inside)
      ∙ test_bit-mark (get_or m (block / 64) 0) (block % 64) n (j % 64)
      ∙ ground (arith, ap (λ k. test_bit (get_or m k 0) (j % 64)) e)
  | no ne ↦
      ap (λ w. test_bit w (j % 64)) (get_or-set_ne m (block / 64) (j / 64) _ 0 ne) ∙ ground arith
]
  where
    marked : List ℕ
    marked = set m (block / 64) (bit_or (get_or m (block / 64) 0) (ones_at n (block % 64)))

-- The `n` blocks from `block` on are clear.
abbrev pub FreeRun : List ℕ → ℕ → ℕ → Type 0
FreeRun m block n = (j : ℕ) → block ≤ j → j < block + n → block_bit m j ≡ 0

-- Inside one word that is a free run of the word.
pub FreeRun-RunFree_iff :
    (m : List ℕ) (block n : ℕ)
    → block % 64 + n ≤ 64
    → FreeRun m block n ↔ RunFree (get_or m (block / 64) 0) (block % 64) n
FreeRun-RunFree_iff m block n fits = (there, back)
  where
    there : FreeRun m block n → RunFree (get_or m (block / 64) 0) (block % 64) n
    there free i p q =
        let j : ℕ = block + i - block % 64 in
        let same : block / 64 ≡ j / 64 = omega arith in
        let bit : i ≡ j % 64 = omega arith in
        ap (λ k. test_bit (get_or m k 0) i) same
        ∙ ap (test_bit (get_or m (j / 64) 0)) bit
        ∙ free j (omega arith) (omega arith)

    back : RunFree (get_or m (block / 64) 0) (block % 64) n → FreeRun m block n
    back free j p q =
        let same : j / 64 ≡ block / 64 = omega arith in
        ap (λ k. test_bit (get_or m k 0) (j % 64)) same ∙ free (j % 64) (omega arith) (omega arith)
