-- ===== src/RandMap/Cut.antt =====
-- mark_random_map of io_u.c as a whole: the io_u is cut to the blocks that are marked for it.
use fio_ssd.Prelude.{
  ℕ, zero, suc, ◌+◌, ◌-◌, ◌*◌, ◌/◌, ◌^◌, ◌≤◌, ◌<◌, ◌≡◌, refl, arith, List, min, Bool, true, false,
  not, Option, some, ltb, if◌then◌else◌, ◌∙◌, ap,
}
use native.Mathlib.Nat.{div-le_self, div-mul-le_self, lt-div-mul-add}
use fio_ssd.FioFile.{File}
use fio_ssd.RandMap.{IoU, u32, u64, mark_loop, mark_random_map, first_block, block_count}
use fio_ssd.RandMap.Word.{block_bit, FreeRun}
use fio_ssd.RandMap.Mark.{Marks, Marked, Fits, mark_loop-Marked}

-- The io_u lies in the part of the file that the map covers, and its sizes do not wrap.
pub record InMap (min_bs : ℕ) (f : File) (u : IoU) : Type 0 where
  pub min_bs-pos : 0 < min_bs
  pub behind_start : f.file_offset ≤ u.offset
  pub offset-lt : u.offset < 2 ^ 64
  pub buflen-lt : u.buflen + min_bs ≤ 2 ^ 32
  pub map_fits : Fits f.file_map f.num_maps (first_block min_bs f u) (block_count min_bs u)

-- What mark_random_map makes of the file and the io_u: the blocks from the first one on that are
-- clear are marked, and the io_u ends before the first that was set.
pub record CutTo (min_bs : ℕ) (f : File) (u : IoU) (out : Option (File × IoU)) : Type 0 where
  pub map' : List ℕ
  pub count : ℕ
  pub returns :
      out ≡ some (record f { file_map = map' }, record u { buflen = min u.buflen (count * min_bs) })
  pub count-le : count ≤ block_count min_bs u
  pub marks : Marks f.file_map (first_block min_bs f u) count map'
  pub free : FreeRun f.file_map (first_block min_bs f u) count
  pub stop :
      count < block_count min_bs u → block_bit f.file_map (first_block min_bs f u + count) ≡ 1

module _ (min_bs : ℕ) (u : IoU) (pos : 0 < min_bs) (small : u.buflen + min_bs ≤ 2 ^ 32) where
  -- Nothing wraps in the number of blocks.
  block_count-eq : block_count min_bs u ≡ (u.buflen + min_bs - 1) / min_bs
  block_count-eq =
      ap (λ t. u32 (t / min_bs)) {x = u64 (u.buflen + min_bs - 1)} {y = u.buflen + min_bs - 1}
        (omega arith)
      ∙ omega (arith, div-le_self (u.buflen + min_bs - 1) min_bs)

  -- The blocks are the fewest that hold the buffer.
  pub block_count-mul :
      (u.buflen ≤ block_count min_bs u * min_bs)
      × (block_count min_bs u * min_bs < u.buflen + min_bs)
      × (block_count min_bs u < 2 ^ 32)
  block_count-mul = omega (
    arith,
    ap (λ (t : ℕ). t * min_bs) block_count-eq,
    div-mul-le_self (u.buflen + min_bs - 1) min_bs,
    lt-div-mul-add {a = u.buflen + min_bs - 1} pos,
    div-le_self (u.buflen + min_bs - 1) min_bs,
  )

  -- The test at the end of mark_random_map makes `buflen` a minimum.
  buflen-min :
      (n : ℕ)
      → n ≤ block_count min_bs u
      → (if ltb (u32 (n * min_bs)) u.buflen then record u { buflen = u32 (n * min_bs) } else u)
        ≡ record u { buflen = min u.buflen (n * min_bs) }
  buflen-min n h = ground (arith, fits)
    where
      fits : n * min_bs < 2 ^ 32
      fits = grind (arith, block_count-mul)

mark_loop-unchecked :
    (n seq_nr num_maps : ℕ) (m : List ℕ) (block : ℕ)
    → mark_loop n seq_nr num_maps false m block n 0 ≡ some (m, n)
unfolding mark_loop
mark_loop-unchecked zero seq_nr num_maps m block = refl
mark_loop-unchecked (suc n) seq_nr num_maps m block = refl

module _ (min_bs seq_nr : ℕ) (f : File) (u : IoU) where
  -- The loop as mark_random_map calls it.
  marking : Bool → Option (List ℕ × ℕ)
  marking busy_check =
      mark_loop (block_count min_bs u) seq_nr f.num_maps busy_check f.file_map
        (first_block min_bs f u) (block_count min_bs u) 0

  mark_random_map-eq :
      (m' : List ℕ) (n : ℕ)
      → marking (not u.busy_ok) ≡ some (m', n)
      → mark_random_map min_bs seq_nr f u
        ≡ some (
          record f { file_map = m' },
          if ltb (u32 (n * min_bs)) u.buflen then record u { buflen = u32 (n * min_bs) } else u,
        )
  unfolding mark_random_map marking
  mark_random_map-eq m' n e = rw e

  CutTo-Marked :
      u.busy_ok ≡ false
      → InMap min_bs f u
      → Marked f.file_map (first_block min_bs f u) (block_count min_bs u) 0 (marking true)
      → CutTo min_bs f u (mark_random_map min_bs seq_nr f u)
  CutTo-Marked fresh ok run = record {
    map' = run.map';
    count = run.count;
    returns =
        mark_random_map-eq run.map' run.count (
          ap (λ b. marking (not b)) fresh
          ∙ run.returns
          ∙ ap (λ n. some (run.map', n)) {x = 0 + run.count} (omega arith))
        ∙ ap (λ v. some (record f { file_map = run.map' }, v))
            (buflen-min min_bs u ok.min_bs-pos ok.buflen-lt run.count run.count-le);
    count-le = run.count-le;
    marks = run.marks;
    free = run.free;
    stop = run.stop;
  }

  -- On a fresh io_u that lies in the map, mark_random_map marks the longest run of clear blocks
  -- that starts at the first block of the io_u and stays in it, marks nothing else, and cuts the
  -- io_u to that run; it does not fault.
  pub mark_random_map-CutTo :
      u.busy_ok ≡ false → InMap min_bs f u → CutTo min_bs f u (mark_random_map min_bs seq_nr f u)
  unfolding marking
  mark_random_map-CutTo fresh ok = CutTo-Marked fresh ok (
      mark_loop-Marked (block_count min_bs u) seq_nr f.num_maps f.file_map (first_block min_bs f u)
        (block_count min_bs u) 0 (omega arith)
        (omega (arith, block_count-mul min_bs u ok.min_bs-pos ok.buflen-lt)) ok.map_fits)

  -- An io_u that may repeat blocks leaves the map and the io_u as they are.
  pub mark_random_map_busy_ok :
      u.busy_ok ≡ true
      → 0 < min_bs
      → u.buflen + min_bs ≤ 2 ^ 32
      → mark_random_map min_bs seq_nr f u ≡ some (f, u)
  unfolding marking
  mark_random_map_busy_ok may pos small =
      mark_random_map-eq f.file_map (block_count min_bs u) (
        ap (λ b. marking (not b)) may
        ∙ mark_loop-unchecked (block_count min_bs u) seq_nr f.num_maps f.file_map
            (first_block min_bs f u))
      ∙ ap (λ v. some (f, v)) (ground (arith, block_count-mul min_bs u pos small))
