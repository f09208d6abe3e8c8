-- ===== src/RandMap/Again.antt =====
-- mark_bit_map of io_u.c, the marking for `randomagain`: it takes set blocks too, and notes them.
use fio_ssd.Prelude.{
  ℕ, zero, suc, ◌+◌, ◌-◌, ◌/◌, ◌%◌, ◌≤◌, ◌<◌, bit_and, bit_or, ◌≡◌, refl, arith, List, Bool, true,
  false, Option, some, ◌==◌, ==_iff, if◌then◌else◌, ◌↔◌, get_or, set, length-set,
  get_elem?-eq-get_or, dec_lt,
}
use mathlib.Core.Path.{subst}
use fio_ssd.Bits.Run.{bit_and-ones_at_iff}
use fio_ssd.FioFile.{File}
use fio_ssd.RandMap.{
  IoU, run_mask, this_word, mark_bit_loop, mark_bit_map, first_block, block_count,
}
use fio_ssd.RandMap.Word.{FreeRun, FreeRun-RunFree_iff, block_bit-mark, run_mask_lem}
use fio_ssd.RandMap.Mark.{Marks, Marks-none, Marks-append, Fits}
use fio_ssd.RandMap.Cut.{InMap}

-- All `left` blocks from `block` on are marked, and `again` stays false only over clear blocks.
pub record Noted (m : List ℕ) (block left : ℕ) (again : Bool) (out : Option (List ℕ × Bool))
    : Type 0 where
  pub map' : List ℕ
  pub again' : Bool
  pub returns : out ≡ some (map', again')
  pub marks : Marks m block left map'
  pub fresh_iff : (again' ≡ false) ↔ ((again ≡ false) × FreeRun m block left)

-- The note of one round, joined to that of the rounds after it.
note_iff :
    (clear again again' : Bool) {F F₁ F₂ : Type 0}
    → (clear ≡ true) ↔ F₁
    → F ↔ (F₁ × F₂)
    → (again' ≡ false) ↔ (((if clear then again else true) ≡ false) × F₂)
    → (again' ≡ false) ↔ ((again ≡ false) × F)
note_iff true again again' w s r =
    (λ e. ((r.0 e).0, s.1 (w.0 refl, (r.0 e).1)), λ h. r.1 (h.0, (s.0 h.1).1))
note_iff false again again' w s r = (λ e. cc ((r.0 e).0), λ h. cc (w.1 (s.0 h.1).0))

module _ (m : List ℕ) (num_maps block left : ℕ) (fits : Fits m num_maps block (suc left)) where
  word : ℕ
  word = get_or m (block / 64) 0

  taken : ℕ
  taken = this_word (suc left) (block % 64)

  marked : List ℕ
  unfolding word taken
  marked = set m (block / 64) (bit_or word (run_mask taken (block % 64)))

  taken_bounds : (taken ≤ suc left) × (block % 64 + taken ≤ 64) × (0 < taken)
  unfolding taken
  taken_bounds = ground arith

  marked-Marks : Marks m block taken marked
  unfolding marked
  marked-Marks = record {
    same_length = length-set m _ _;
    bits = λ j. rw (run_mask_lem taken (block % 64) taken_bounds.1) (
        block_bit-mark m block taken j (omega (arith, fits.allocated, fits.inside)) taken_bounds.1);
  }

  Fits-suc : Fits marked num_maps (block + taken) (suc left - taken)
  Fits-suc = record {
    allocated = omega (arith, marked-Marks.same_length, fits.allocated);
    small = fits.small;
    inside = omega (arith, taken_bounds, fits.inside);
  }

  -- The word's test is that the blocks taken from it are clear.
  word_clear_iff :
      ((bit_and word (run_mask taken (block % 64)) == 0) ≡ true) ↔ FreeRun m block taken
  unfolding word
  word_clear_iff = (
    λ e. (FreeRun-RunFree_iff m block taken taken_bounds.1).1 (
        (bit_and-ones_at_iff word (block % 64) taken).0
          (rw (← run_mask_lem taken (block % 64) taken_bounds.1) ((==_iff masked 0).0 e))),
    λ free. (==_iff masked 0).1 (
        rw (run_mask_lem taken (block % 64) taken_bounds.1) (
          (bit_and-ones_at_iff word (block % 64) taken).1
            ((FreeRun-RunFree_iff m block taken taken_bounds.1).0 free))),
  )
    where
      masked : ℕ
      masked = bit_and word (run_mask taken (block % 64))

  mark_bit_loop-suc :
      (fuel : ℕ) (again : Bool)
      → mark_bit_loop (suc fuel) num_maps m block (suc left) again
        ≡ mark_bit_loop fuel num_maps marked
            (block + taken)
            (suc left - taken)
            (if bit_and word (run_mask taken (block % 64)) == 0 then again else true)
  unfolding mark_bit_loop marked
  mark_bit_loop-suc fuel again =
      ground (arith, fits.allocated, get_elem?-eq-get_or m (block / 64) 0, taken_bounds)

  -- The blocks left over in the marked map are those that are left over in the old one.
  FreeRun-split :
      FreeRun m block (suc left)
      ↔ (FreeRun m block taken × FreeRun marked (block + taken) (suc left - taken))
  FreeRun-split = (
    λ free. (
      λ j p q. free j p (omega (arith, taken_bounds)),
      λ j p q. ground (arith, marked-Marks.bits j, free j, taken_bounds),
    ),
    λ parts j p q. elim (dec_lt j (block + taken)) [
      | yes r ↦ parts.0 j p r
      | no r ↦ ground (arith, marked-Marks.bits j, parts.1 j, taken_bounds)
    ],
  )

  Noted-suc :
      (again : Bool) (out : Option (List ℕ × Bool))
      → Noted marked
          (block + taken)
          (suc left - taken)
          (if bit_and word (run_mask taken (block % 64)) == 0 then again else true)
          out
      → Noted m block (suc left) again out
  Noted-suc again out rest = record {
    map' = rest.map';
    again' = rest.again';
    returns = rest.returns;
    marks = whole (Marks-append m marked rest.map' block taken _ marked-Marks rest.marks);
    fresh_iff = note_iff _ again rest.again' word_clear_iff FreeRun-split rest.fresh_iff;
  }
    where
      whole :
          Marks m block (taken + (suc left - taken)) rest.map' → Marks m block (suc left) rest.map'
      whole = subst (λ n. Marks m block n rest.map') (omega (arith, taken_bounds))

-- Enough fuel is one round a block.
pub mark_bit_loop-Noted :
    (fuel num_maps : ℕ) (m : List ℕ) (block left : ℕ) (again : Bool)
    → left ≤ fuel
    → Fits m num_maps block left
    → Noted m block left again (mark_bit_loop fuel num_maps m block left again)
mark_bit_loop-Noted fuel num_maps m block zero again enough fits = record {
  map' = m;
  again' = again;
  returns = unfold mark_bit_loop in refl;
  marks = Marks-none m block;
  fresh_iff = (λ e. (e, λ j p q. absurd (omega arith)), λ h. h.0);
}
mark_bit_loop-Noted zero num_maps m block (suc left) again enough fits = absurd (omega arith)
mark_bit_loop-Noted (suc fuel) num_maps m block (suc left) again enough fits =
    rw (mark_bit_loop-suc m num_maps block left fits fuel again) (
      Noted-suc m num_maps block left fits again _ (
        mark_bit_loop-Noted fuel num_maps (marked m num_maps block left fits)
          (block + taken m num_maps block left fits) (suc left - taken m num_maps block left fits) _
          (omega (arith, taken_bounds m num_maps block left fits))
          (Fits-suc m num_maps block left fits)))

-- On a fresh io_u that lies in the map, mark_bit_map marks every block of the io_u and no other and
-- keeps its size, without a fault; randomagain stays clear exactly when it was clear before and no
-- block of the io_u was marked.
pub mark_bit_map-Noted :
    (min_bs : ℕ) (f : File) (u : IoU)
    → u.busy_ok ≡ false
    → InMap min_bs f u
    → (m' : List ℕ) × (again' : Bool) × (mark_bit_map min_bs f u
        ≡ some (record f { file_map = m' }, record u { randomagain = again' }))
      × Marks f.file_map (first_block min_bs f u) (block_count min_bs u) m'
      × ((again' ≡ false) ↔ (
          (u.randomagain ≡ false)
          × FreeRun f.file_map (first_block min_bs f u) (block_count min_bs u)))
mark_bit_map-Noted min_bs f u fresh ok =
    (run.map', run.again', whole run.returns, run.marks, run.fresh_iff)
  where
    loop : Option (List ℕ × Bool)
    loop =
        mark_bit_loop (block_count min_bs u) f.num_maps f.file_map (first_block min_bs f u)
          (block_count min_bs u) u.randomagain

    run : Noted f.file_map (first_block min_bs f u) (block_count min_bs u) u.randomagain loop
    run =
        mark_bit_loop-Noted (block_count min_bs u) f.num_maps f.file_map (first_block min_bs f u)
          (block_count min_bs u) u.randomagain (omega arith) ok.map_fits

    whole :
        {m' : List ℕ} {again' : Bool}
        → loop ≡ some (m', again')
        → mark_bit_map min_bs f u
          ≡ some (record f { file_map = m' }, record u { randomagain = again' })
    whole e = unfold mark_bit_map in ground (arith, e)
