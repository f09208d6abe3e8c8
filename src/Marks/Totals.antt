-- ===== src/Marks/Totals.antt =====
-- The counters of a histogram add up to the total that is kept beside it.
use fio_ssd.Prelude.{
  arith, ℕ, zero, suc, ◌+◌, ◌<◌, ◌≡◌, ◌∙◌, List, [], ◌∷◌, length, get_or, set, length-set,
}
use fio_ssd.RandMap.{u32}
use fio_ssd.Marks.{Stats, bump, map_slot, io_u_mark_map, io_u_mark_submit, io_u_mark_complete}

abbrev pub sum : List ℕ → ℕ
sum [] = 0
sum (x ∷ xs) = x + sum xs

sum-set : (xs : List ℕ) (i v : ℕ) → i < length xs → sum (set xs i v) + get_or xs i 0 ≡ sum xs + v
sum-set [] i v h = absurd (omega arith)
sum-set (x ∷ xs) zero v h = omega arith
sum-set (x ∷ xs) (suc i) v h = omega (arith, sum-set xs i v (omega arith))

pub sum-bump :
    (map : List ℕ) (idx nr : ℕ)
    → idx < length map
    → u32 (sum (bump map idx nr)) ≡ u32 (sum map + nr)
unfolding bump
sum-bump map idx nr h = omega (arith, sum-set map idx (u32 (get_or map idx 0 + nr)) h)

pub length-bump : (map : List ℕ) (idx nr : ℕ) → length (bump map idx nr) ≡ length map
unfolding bump
length-bump map idx nr = length-set map idx _

pub map_slot-lt : (nr : ℕ) → map_slot nr < 7
unfolding map_slot
map_slot-lt nr = ground arith

-- The histograms have their seven counters, and these add up to the
-- totals, both cut to 32 bits.
pub record IsCounted (ts : Stats) : Type 0 where
  pub submit_length : length ts.io_u_submit ≡ 7
  pub complete_length : length ts.io_u_complete ≡ 7
  pub submit_total : u32 (sum ts.io_u_submit) ≡ u32 ts.total_submit
  pub complete_total : u32 (sum ts.io_u_complete) ≡ u32 ts.total_complete

-- io_u_mark_submit and io_u_mark_complete keep seven counters in their histograms, and the sums of
-- these equal to the totals kept beside them, modulo 2 ^ 32.
pub mark-IsCounted :
    (ts : Stats) (nr : ℕ)
    → IsCounted ts
    → IsCounted (io_u_mark_submit ts nr) × IsCounted (io_u_mark_complete ts nr)
unfolding io_u_mark_submit io_u_mark_complete io_u_mark_map
mark-IsCounted ts nr c = (
  record {
    submit_length = length-bump ts.io_u_submit (map_slot nr) 1 ∙ c.submit_length;
    complete_length = c.complete_length;
    submit_total = omega (
      arith,
      sum-bump ts.io_u_submit (map_slot nr) 1 (omega (arith, map_slot-lt nr, c.submit_length)),
      c.submit_total,
    );
    complete_total = c.complete_total;
  },
  record {
    submit_length = c.submit_length;
    complete_length = length-bump ts.io_u_complete (map_slot nr) 1 ∙ c.complete_length;
    submit_total = c.submit_total;
    complete_total = omega (
      arith,
      sum-bump ts.io_u_complete (map_slot nr) 1 (omega (arith, map_slot-lt nr, c.complete_length)),
      c.complete_total,
    );
  },
)
