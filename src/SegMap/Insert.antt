-- ===== src/SegMap/Insert.antt =====
-- insert_seg and remove_seg of seg_2bitsmap.c, on the cells of the blocks.
use fio_ssd.Prelude.{
  arith, refl, sym, ap, ◌∙◌, ℕ, zero, suc, ◌+◌, ◌*◌, ◌/◌, ◌%◌, ◌≤◌, ◌<◌, ◌≡◌, ◌≢◌, ltb, leb, ◌&&◌,
  ◌==◌, if◌then◌else◌, Option, some, none, false, List, length, get_or, set, length-set,
  get_elem?-eq-get_or, get_or-set_self, get_or-set_ne, ℕ_discrete,
}
use fio_ssd.SegMap.{test_blk, set_bit, in_loop}
use fio_ssd.SegMap.Cell.{cell, with_cell, cell-with_cell, set_bit_lem}

-- The cell of block `k`.
abbrev pub blk : List ℕ → ℕ → ℕ
blk m k = cell (get_or m (k / 32) 0) (k % 32)

-- `m'` is `m` with `v` in the `n` cells from `k` on.
pub record Fills (m : List ℕ) (k n v : ℕ) (m' : List ℕ) : Type 0 where
  pub same_length : length m' ≡ length m
  pub cells : (j : ℕ) → blk m' j ≡ (if leb k j && ltb j (k + n) then v else blk m j)

Fills-set :
    (m : List ℕ) (idx bit stat : ℕ)
    → idx < length m
    → bit < 15
    → stat < 4
    → Fills m (32 * idx + bit) 1 stat (set m idx (with_cell (get_or m idx 0) bit stat))
Fills-set m idx bit stat h b s = record {
  same_length = length-set m idx _;
  cells = λ j. elim (ℕ_discrete idx (j / 32)) [
    | yes same ↦
        ap (λ t. cell (get_or (set m idx (with_cell (get_or m idx 0) bit stat)) t 0) (j % 32))
          (sym same)
        ∙ ap (λ w. cell w (j % 32))
            (get_or-set_self m idx (with_cell (get_or m idx 0) bit stat) 0 h)
        ∙ cell-with_cell (get_or m idx 0) bit stat (j % 32) (omega arith) s (omega arith)
        ∙ ground (arith, ap (λ t. cell (get_or m t 0) (j % 32)) same)
    | no differ ↦
        ap (λ w. cell w (j % 32))
          (get_or-set_ne m idx (j / 32) (with_cell (get_or m idx 0) bit stat) 0 differ)
        ∙ ground arith
  ];
}

-- set_bit of a value of two bits, at one of the first 15 blocks of a word of the map, stores the
-- cell of this block, does not fault, and leaves all other cells of the map.
pub set_bit-Fills :
    (m : List ℕ) (idx bit stat : ℕ)
    → idx < length m
    → bit < 15
    → stat < 4
    → (m' : List ℕ) × (set_bit m idx bit stat ≡ some m') × Fills m (32 * idx + bit) 1 stat m'
set_bit-Fills m idx bit stat h b s = (
  set m idx (with_cell (get_or m idx 0) bit stat),
  set_bit_lem m idx bit stat h b s,
  Fills-set m idx bit stat h b s,
)

pub blk-place :
    (m : List ℕ) (idx bit : ℕ) → bit < 32 → blk m (32 * idx + bit) ≡ cell (get_or m idx 0) bit
blk-place m idx bit b =
    ap (λ t. cell (get_or m t 0) ((32 * idx + bit) % 32)) (omega_idx)
    ∙ ap (cell (get_or m idx 0)) omega_bit
  where
    omega_idx : (32 * idx + bit) / 32 ≡ idx
    omega_idx = omega arith

    omega_bit : (32 * idx + bit) % 32 ≡ bit
    omega_bit = omega arith

module _ {S : Type 0} (overlap : ℕ → ℕ → ℕ → List ℕ × S → Option (List ℕ × S)) (block nr_blk : ℕ)
    (s : S) where
  pub in_loop-suc :
      (left idx bit : ℕ) (m m' : List ℕ)
      → idx < length m
      → bit < 15
      → blk m (32 * idx + bit) ≢ 2
      → set_bit m idx bit 3 ≡ some m'
      → in_loop overlap block nr_blk (suc left) idx bit (m, s)
        ≡ in_loop overlap block nr_blk left idx (bit + 1) (m', s)
  unfolding in_loop test_blk
  in_loop-suc left idx bit m m' h b ne e =
      rw (get_elem?-eq-get_or m idx 0 h, not_start, e, near) refl
    where
      not_start : (cell (get_or m idx 0) bit == 2) ≡ false
      not_start = ground (arith, ne, blk-place m idx bit (omega arith))

      near : (bit + 1 == 32) ≡ false
      near = ground arith

  pub in_loop-none :
      (left idx bit : ℕ) (m : List ℕ)
      → idx < length m
      → bit < 32
      → blk m (32 * idx + bit) ≢ 2
      → set_bit m idx bit 3 ≡ none
      → in_loop overlap block nr_blk (suc left) idx bit (m, s) ≡ none
  unfolding in_loop test_blk
  in_loop-none left idx bit m h b ne e = rw (get_elem?-eq-get_or m idx 0 h, not_start, e) refl
    where
      not_start : (cell (get_or m idx 0) bit == 2) ≡ false
      not_start = ground (arith, ne, blk-place m idx bit b)

  pub in_loop-Fills :
      (left idx bit : ℕ) (m : List ℕ)
      → idx < length m
      → bit + left ≤ 15
      → ((j : ℕ) → 32 * idx + bit ≤ j → j < 32 * idx + bit + left → blk m j ≢ 2)
      → (m' : List ℕ) × (in_loop overlap block nr_blk left idx bit (m, s) ≡ some (m', s))
        × Fills m (32 * idx + bit) left 3 m'
  in_loop-Fills zero idx bit m h b free =
      (m, unfold in_loop in refl, record { same_length = refl; cells = λ j. ground arith })
  in_loop-Fills (suc left) idx bit m h b free =
      let (m₁, e, f) = set_bit-Fills m idx bit 3 h (omega arith) (omega arith) in
      let (m₂, e', f') =
        in_loop-Fills left idx (bit + 1) m₁ (omega (arith, f.same_length)) (omega arith)
          (λ j r t. ground (arith, f.cells j, free j)) in
      (
        m₂,
        in_loop-suc left idx bit m m₁ h (omega arith)
              (free (32 * idx + bit) (omega arith) (omega arith)) e
            ∙ e',
        record {
          same_length = f'.same_length ∙ f.same_length;
          cells = λ j. ground (arith, f'.cells j, f.cells j);
        },
      )
