-- ===== src/SegMap.antt =====
-- The map of written segments, seg_2bitsmap.c: two bits for each block, EMPTY, START or IN. `none` is
-- a fault: a failed assert, an access outside the map, or a shift that C leaves undefined.
-- `unsigned long` has 64 bits, `int` 32.
pub mod Cell
pub mod Insert
pub mod Laws
mod Tests
use fio_ssd.Prelude.{
  ℕ, zero, suc, ◌+◌, ◌-◌, ◌*◌, ◌/◌, ◌%◌, ◌^◌, bit_and, bit_or, Option, none, some, List, Bool, true,
  false, ◌&&◌, ltb, leb, ◌==◌, if◌then◌else◌, get_elem?, set,
}
use fio_ssd.Bits.{complement}
use fio_ssd.RandMap.{◌>>=◌, u32}

abbrev pub empty : ℕ
empty = 0

abbrev pub start : ℕ
start = 2

abbrev pub inside : ℕ
inside = 3

-- BLK_MASK and BLKS_PER_MAP2
abbrev pub blk_mask : ℕ
blk_mask = 3

abbrev pub blks_per_map2 : ℕ
blks_per_map2 = 32

-- MAP2_IDX, assigned to an `unsigned int`, MAP2_BIT and MAP2_BLK
abbrev pub map2_idx : ℕ → ℕ
map2_idx block = u32 (block / blks_per_map2)

abbrev pub map2_bit : ℕ → ℕ
map2_bit block = block % blks_per_map2

abbrev pub map2_blk : ℕ → ℕ → ℕ
map2_blk idx bit = idx * blks_per_map2 + bit

-- get_blk: the two bits of a block.
unfoldable pub get_blk : List ℕ → ℕ → ℕ → Option ℕ
get_blk map2 idx bit = do w ← get_elem? map2 idx; some (bit_and (w / 2 ^ (bit * 2)) blk_mask)

-- test_blk
unfoldable pub test_blk : List ℕ → ℕ → ℕ → ℕ → Option Bool
test_blk map2 idx bit stat = do
  w ← get_elem? map2 idx
  some (bit_and (w / 2 ^ (bit * 2)) blk_mask == stat)

-- `v << n` of an `int`: BLK_MASK and `stat` are no wider. The result must be an `int`.
unfoldable pub shl_int : ℕ → ℕ → Option ℕ
shl_int v n = if ltb n 32 && ltb (v * 2 ^ n) (2 ^ 31) then some (v * 2 ^ n) else none

-- set_bit
unfoldable pub set_bit : List ℕ → ℕ → ℕ → ℕ → Option (List ℕ)
set_bit map2 idx bit stat = do
  w ← get_elem? map2 idx
  mask ← shl_int blk_mask (bit * 2)
  v ← shl_int stat (bit * 2)
  some (set map2 idx (bit_or (bit_and w (complement 64 mask)) v))

-- The next block, as `idx` and `bit`.
abbrev pub next_place : ℕ → ℕ → ℕ × ℕ
next_place idx bit = if bit + 1 == blks_per_map2 then (idx + 1, 0) else (idx, bit + 1)

-- The loop of remove_seg; each round passes a block of the map.
unfoldable pub remove_loop : ℕ → List ℕ → ℕ → ℕ → ℕ → Option (List ℕ)
remove_loop zero map2 num idx bit = none
remove_loop (suc fuel) map2 num idx bit = do
  m ← set_bit map2 idx bit empty
  let (idx', bit') = next_place idx bit
  let rest = remove_loop fuel m num idx' bit'
  let more = (do is_in ← test_blk m idx' bit' inside; if is_in then rest else some m)
  if ltb idx' num then more else some m

-- remove_seg
unfoldable pub remove_seg : List ℕ → ℕ → ℕ → Option (List ℕ)
remove_seg map2 num block = do
  is_start ← test_blk map2 (map2_idx block) (map2_bit block) start
  let removed = remove_loop (blks_per_map2 * num + 1) map2 num (map2_idx block) (map2_bit block)
  if is_start then removed else none

-- The block before, as insert_seg steps back; `idx` is an `unsigned int`.
abbrev pub prev_place : ℕ → ℕ → ℕ × ℕ
prev_place idx bit = (
  if ltb blks_per_map2 (bit + blks_per_map2) then idx else u32 (idx + 2 ^ 32 - 1),
  (bit + blks_per_map2 - 1) % blks_per_map2,
)

-- The search of insert_seg for the start of the segment that it falls in.
unfoldable pub find_start : ℕ → List ℕ → ℕ → ℕ → Option ℕ
find_start zero map2 idx bit = none
find_start (suc fuel) map2 idx bit = do
  let (idx', bit') = prev_place idx bit
  let rest = find_start fuel map2 idx' bit'
  is_start ← test_blk map2 idx' bit' start
  if is_start then some (map2_blk idx' bit') else rest

-- An overlap handler may change the map, and a state of its own.
module _ {S : Type 0} (overlap : ℕ → ℕ → ℕ → List ℕ × S → Option (List ℕ × S))
    (block nr_blk : ℕ) where
  -- The part of insert_seg before the first block is set.
  unfoldable pub before_start : ℕ → ℕ → List ℕ × S → Option (List ℕ × S)
  before_start idx bit (map2, s) = do
    blk ← get_blk map2 idx bit
    let in_segment = (do
      prev ← find_start (blks_per_map2 * 2 ^ 32) map2 idx bit
      overlap prev block nr_blk (map2, s))
    if blk == start
        then overlap block block nr_blk (map2, s)
        else if blk == inside
        then in_segment
        else some (map2, s)

  -- The loop over the blocks behind the first, `left` of them.
  unfoldable pub in_loop : ℕ → ℕ → ℕ → List ℕ × S → Option (List ℕ × S)
  in_loop zero idx bit (map2, s) = some (map2, s)
  in_loop (suc left) idx bit (map2, s) = do
    is_start ← test_blk map2 idx bit start
    (m, t) ←
        (if is_start then overlap (map2_blk idx bit) block nr_blk (map2, s) else some (map2, s))
    m' ← set_bit m idx bit inside
    let (idx', bit') = next_place idx bit
    in_loop left idx' bit' (m', t)

  -- insert_seg; the first block is set also where `nr_blk` is 0.
  unfoldable pub insert_seg : List ℕ × S → Option (List ℕ × S)
  insert_seg (map2, s) = do
    (m, t) ← before_start (map2_idx block) (map2_bit block) (map2, s)
    m' ← set_bit m (map2_idx block) (map2_bit block) start
    let (idx', bit') = next_place (map2_idx block) (map2_bit block)
    in_loop (nr_blk - 1) idx' bit' (m', t)
