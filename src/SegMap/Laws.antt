-- ===== src/SegMap/Laws.antt =====
-- What insert_seg and remove_seg of seg_2bitsmap.c do to the cells, in the first 15 blocks of a
-- word and beyond them.
use mathlib.Core.Path.{subst}
use fio_ssd.Prelude.{
  arith, refl, sym, ap, ◌∙◌, ℕ, zero, suc, ◌+◌, ◌-◌, ◌*◌, ◌/◌, ◌%◌, ◌^◌, ◌≤◌, ◌<◌, ◌≡◌, ◌≢◌, ltb,
  ◌&&◌, ◌==◌, if◌then◌else◌, Option, some, none, Bool, true, false, List, length,
  get_elem?-eq-get_or, dec_lt,
}
use fio_ssd.SegMap.{
  map2_idx, get_blk, test_blk, set_bit, start, inside, empty, in_loop, before_start, insert_seg,
  remove_loop, remove_seg,
}
use fio_ssd.SegMap.Cell.{set_bit-none}
use fio_ssd.SegMap.Insert.{
  blk, blk-place, Fills, set_bit-Fills, in_loop-suc, in_loop-none, in_loop-Fills,
}

-- `m'` is `m` with a segment of `n` blocks from `k` on.
pub record Inserted (m : List ℕ) (k n : ℕ) (m' : List ℕ) : Type 0 where
  pub same_length : length m' ≡ length m
  pub cells :
      (j : ℕ)
      → blk m' j
        ≡ (if j == k then start else (if ltb k j && ltb j (k + n) then inside else blk m j))

not_two : {v : ℕ} → v ≡ empty → v ≢ 2
not_two e two = absurd (omega arith)

map2_idx-eq : (block : ℕ) → block < 2 ^ 37 → map2_idx block ≡ block / 32
map2_idx-eq block narrow = omega arith

module _ {S : Type 0} (overlap : ℕ → ℕ → ℕ → List ℕ × S → Option (List ℕ × S)) (s : S) (m : List ℕ)
    (block nr_blk : ℕ) (h : block / 32 < length m) (narrow : block < 2 ^ 37) (pos : 0 < nr_blk)
    (free : (j : ℕ) → block ≤ j → j < block + nr_blk → blk m j ≡ empty) where
  -- On an empty cell no handler is called.
  before_start-empty :
      before_start overlap block nr_blk (block / 32) (block % 32) (m, s) ≡ some (m, s)
  unfolding before_start get_blk
  before_start-empty =
      rw (get_elem?-eq-get_or m (block / 32) 0 h, free block (omega arith) (omega arith)) refl

  insert_seg-start :
      (m₁ : List ℕ)
      → block % 32 < 15
      → set_bit m (block / 32) (block % 32) start ≡ some m₁
      → insert_seg overlap block nr_blk (m, s)
        ≡ in_loop overlap block nr_blk (nr_blk - 1) (block / 32) (block % 32 + 1) (m₁, s)
  unfolding insert_seg
  insert_seg-start m₁ b e = rw (map2_idx-eq block narrow, before_start-empty, e, near) refl
    where
      near : (block % 32 + 1 == 32) ≡ false
      near = ground arith

  -- insert_seg of at least one block, in the map below block 2 ^ 37 and at free blocks among the
  -- first 15 blocks of a word, does not fault and calls no handler: the first cell becomes START,
  -- the others of the segment IN, and no other cell changes.
  insert_seg-Inserted :
      block % 32 + nr_blk ≤ 15
      → (m' : List ℕ) × (insert_seg overlap block nr_blk (m, s) ≡ some (m', s))
        × Inserted m block nr_blk m'
  insert_seg-Inserted b =
      let (m₁, e, f) =
        set_bit-Fills m (block / 32) (block % 32) start h (omega arith) (omega arith) in
      let (m₂, e', f') =
        in_loop-Fills overlap block nr_blk s (nr_blk - 1) (block / 32) (block % 32 + 1) m₁
          (omega (arith, f.same_length)) (omega arith)
          (λ j r t. ground (arith, f.cells j, free j)) in
      (
        m₂,
        insert_seg-start m₁ (omega arith) e ∙ e',
        record {
          same_length = f'.same_length ∙ f.same_length;
          cells = λ j. ground (arith, f'.cells j, f.cells j);
        },
      )

  in_loop-beyond :
      (left idx bit : ℕ) (m₁ : List ℕ)
      → idx < length m₁
      → bit < 32
      → 15 < bit + left
      → 0 < left
      → ((j : ℕ) → 32 * idx + bit ≤ j → j < 32 * idx + bit + left → blk m₁ j ≡ empty)
      → in_loop overlap block nr_blk left idx bit (m₁, s) ≡ none
  in_loop-beyond zero idx bit m₁ h₁ b more some_left free₁ = absurd (omega arith)
  in_loop-beyond (suc left) idx bit m₁ h₁ b more some_left free₁ = elim (dec_lt bit 15) [
    | yes near ↦
        let (m₂, e, f) = set_bit-Fills m₁ idx bit inside h₁ near (omega arith) in
        in_loop-suc overlap block nr_blk s left idx bit m₁ m₂ h₁ near
          (not_two (free₁ (32 * idx + bit) (omega arith) (omega arith))) e
        ∙ in_loop-beyond left idx (bit + 1) m₂ (omega (arith, f.same_length)) (omega arith)
            (omega arith) (omega arith) (λ j r t. ground (arith, f.cells j, free₁ j))
    | no far ↦
        in_loop-none overlap block nr_blk s left idx bit m₁ h₁ b
          (not_two (free₁ (32 * idx + bit) (omega arith) (omega arith)))
          (set_bit-none m₁ idx bit inside (omega arith))
  ]

  -- A segment of at least one block, all free, that starts in the map below block 2 ^ 37 and
  -- reaches the 16th block of a word of 64 bits makes insert_seg shift an int beyond its width,
  -- which is undefined.
  pub insert_seg-beyond : 15 < block % 32 + nr_blk → insert_seg overlap block nr_blk (m, s) ≡ none
  unfolding insert_seg
  insert_seg-beyond more = elim (dec_lt (block % 32) 15) [
    | yes near ↦
        let (m₁, e, f) = set_bit-Fills m (block / 32) (block % 32) start h near (omega arith) in
        insert_seg-start m₁ near e
        ∙ in_loop-beyond (nr_blk - 1) (block / 32) (block % 32 + 1) m₁
            (omega (arith, f.same_length)) (omega arith) (omega arith) (omega arith)
            (λ j r t. ground (arith, f.cells j, free j))
    | no far ↦
        rw
          (
            map2_idx-eq block narrow,
            before_start-empty,
            set_bit-none m (block / 32) (block % 32) start (omega arith),
          )
          refl
  ]

-- The cells from `k` on are those of a segment of `n` blocks.
pub record IsSegment (m : List ℕ) (k n : ℕ) : Type 0 where
  pub starts : blk m k ≡ start
  pub goes_on : (j : ℕ) → k < j → j < k + n → blk m j ≡ inside
  pub ends : blk m (k + n) ≢ inside

after : (idx bit : ℕ) → 32 * idx + (bit + 1) ≡ 32 * idx + bit + 1
after idx bit = omega arith

behind : (idx bit n : ℕ) → 32 * idx + bit + suc (suc n) ≡ 32 * idx + (bit + 1) + suc n
behind idx bit n = omega arith

module _ (num : ℕ) where
  test_blk-place :
      (m : List ℕ) (idx bit stat : ℕ)
      → idx < length m
      → bit < 32
      → test_blk m idx bit stat ≡ some (blk m (32 * idx + bit) == stat)
  unfolding test_blk
  test_blk-place m idx bit stat h b = rw (get_elem?-eq-get_or m idx 0 h, blk-place m idx bit b) refl

  remove_loop-suc :
      (fuel idx bit : ℕ) (m m' : List ℕ) (more : Bool)
      → idx < num
      → bit < 15
      → set_bit m idx bit empty ≡ some m'
      → test_blk m' idx (bit + 1) inside ≡ some more
      → remove_loop (suc fuel) m num idx bit
        ≡ (if more then remove_loop fuel m' num idx (bit + 1) else some m')
  unfolding remove_loop
  remove_loop-suc fuel idx bit m m' more h b e e' = rw (e, near, inside_map, e') refl
    where
      near : (bit + 1 == 32) ≡ false
      near = ground arith

      inside_map : ltb idx num ≡ true
      inside_map = ground arith

  remove_loop-Fills :
      (n fuel idx bit : ℕ) (m : List ℕ)
      → n < fuel
      → idx < num
      → num ≤ length m
      → bit + suc n ≤ 15
      → ((j : ℕ) → 32 * idx + bit < j → j < 32 * idx + bit + suc n → blk m j ≡ inside)
      → blk m (32 * idx + bit + suc n) ≢ inside
      → (m' : List ℕ) × (remove_loop fuel m num idx bit ≡ some m')
        × Fills m (32 * idx + bit) (suc n) empty m'
  remove_loop-Fills n zero idx bit m enough h fits b goes_on ends = absurd (omega arith)
  remove_loop-Fills zero (suc fuel) idx bit m enough h fits b goes_on ends =
      let (m₁, e, f) = set_bit-Fills m idx bit empty (omega arith) (omega arith) (omega arith) in
      (
        m₁,
        remove_loop-suc fuel idx bit m m₁ false h (omega arith) e (
            test_blk-place m₁ idx (bit + 1) inside (omega (arith, f.same_length)) (omega arith)
            ∙ ap some
                (ground (arith, f.cells (32 * idx + (bit + 1)), ends, ap (blk m) (after idx bit)))),
        f,
      )
  remove_loop-Fills (suc n) (suc fuel) idx bit m enough h fits b goes_on ends =
      let (m₁, e, f) = set_bit-Fills m idx bit empty (omega arith) (omega arith) (omega arith) in
      let (m₂, e', f') =
        remove_loop-Fills n fuel idx (bit + 1) m₁ (omega arith) h (omega (arith, f.same_length))
          (omega arith) (λ j r t. ground (arith, f.cells j, goes_on j))
          (λ is_in. ends (
            ap (blk m) (behind idx bit n)
            ∙ (ground (arith, f.cells (32 * idx + (bit + 1) + suc n), is_in)))) in
      (
        m₂,
        remove_loop-suc fuel idx bit m m₁ true h (omega arith) e (
              test_blk-place m₁ idx (bit + 1) inside (omega (arith, f.same_length)) (omega arith)
              ∙ ap some
                  (ground (arith, f.cells (32 * idx + (bit + 1)), goes_on (32 * idx + (bit + 1)))))
            ∙ e',
        record {
          same_length = f'.same_length ∙ f.same_length;
          cells = λ j. ground (arith, f'.cells j, f.cells j);
        },
      )

-- remove_seg at the start of a segment in the first 15 blocks of a word, in the map below block 2 ^
-- 37, does not fault; the cells of the segment become EMPTY, and no other cell changes.
remove_seg-Fills :
    (m : List ℕ) (num block n : ℕ)
    → block / 32 < num
    → num ≤ length m
    → block < 2 ^ 37
    → 0 < n
    → block % 32 + n ≤ 15
    → IsSegment m block n
    → (m' : List ℕ) × (remove_seg m num block ≡ some m') × Fills m block n empty m'
unfolding remove_seg
remove_seg-Fills m num block zero h fits narrow pos b seg = absurd (omega arith)
remove_seg-Fills m num block (suc n) h fits narrow pos b seg =
    let whole : block ≡ 32 * (block / 32) + block % 32 = omega arith in
    let at = subst (λ k. IsSegment m k (suc n)) whole seg in
    let (m', e, f) =
      remove_loop-Fills num n (32 * num + 1) (block / 32) (block % 32) m (omega arith) h fits b
        at.goes_on at.ends in
    (
      m',
      rw (map2_idx-eq block narrow, is_start whole) e,
      subst (λ k. Fills m k (suc n) empty m') (sym whole) f,
    )
  where
    is_start :
        block ≡ 32 * (block / 32) + block % 32
        → test_blk m (block / 32) (block % 32) start ≡ some true
    is_start whole =
        test_blk-place num m (block / 32) (block % 32) start (omega arith) (omega arith)
        ∙ ap some (ground (arith, ap (blk m) whole, seg.starts))

-- A segment of at least one block, below block 2 ^ 37 and in the map, that is inserted at free
-- blocks among the first 15 blocks of a word, and with no IN cell behind it, calls no handler and
-- is one segment in the map; remove_seg at its first block does not fault and gives back all cells
-- as they were.
pub remove_seg-insert_seg :
    {S : Type 0} (overlap : ℕ → ℕ → ℕ → List ℕ × S → Option (List ℕ × S)) (s : S) (m : List ℕ)
    (num block n : ℕ)
    → block / 32 < num
    → num ≤ length m
    → block < 2 ^ 37
    → 0 < n
    → block % 32 + n ≤ 15
    → ((j : ℕ) → block ≤ j → j < block + n → blk m j ≡ empty)
    → blk m (block + n) ≢ inside
    → (m' : List ℕ) × (insert_seg overlap block n (m, s) ≡ some (m', s))
      × IsSegment m' block n
      × ((m'' : List ℕ) × (remove_seg m' num block ≡ some m'')
          × (length m'' ≡ length m)
          × ((j : ℕ) → blk m'' j ≡ blk m j))
remove_seg-insert_seg overlap s m num block n h fits narrow pos b free ends =
    let (m₁, e, ins) = insert_seg-Inserted overlap s m block n (omega arith) narrow pos free b in
    let seg : IsSegment m₁ block n = record {
      starts = ground (arith, ins.cells block);
      goes_on = λ j r t. ground (arith, ins.cells j);
      ends = ground (arith, ins.cells (block + n), ends);
    } in
    let (m₂, e', f) =
      remove_seg-Fills m₁ num block n h (omega (arith, ins.same_length)) narrow pos b seg in
    (
      m₁,
      e,
      seg,
      (
        m₂,
        e',
        f.same_length ∙ ins.same_length,
        λ j. ground (arith, f.cells j, ins.cells j, free j),
      ),
    )
