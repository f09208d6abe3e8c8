-- ===== src/Smalloc.antt =====
-- The pool allocator of smalloc.c. A pool hands out runs of blocks of 32 bytes; a bit of `bitmap`
-- stands for a block and is set while the block is in use. `none` is a fault: a failed assert, an
-- access outside the bitmap, or a shift that C leaves undefined. Addresses are offsets into the
-- pool's map, and `unsigned int` has 32 bits.
pub mod Word
pub mod Iter
pub mod Check
pub mod Blocks
pub mod NextZero
pub mod Round
pub mod Search
pub mod Total
pub mod Alloc
pub mod Heap
pub mod RoundTrip
pub mod Apart
pub mod Beyond
pub mod AddPool
pub mod Pools
mod Tests
use fio_ssd.Prelude.{
  ℕ, zero, suc, ◌+◌, ◌-◌, ◌*◌, ◌/◌, ◌%◌, ◌^◌, bit_and, bit_or, Option, none, some, List, Bool, true,
  false, ◌&&◌, ◌||◌, not, ltb, leb, ◌==◌, if◌then◌else◌, get_elem?, set,
}
use fio_ssd.Bits.{ones_at, complement}
use fio_ssd.Ffz.{ffz}
use fio_ssd.RandMap.{◌>>=◌, u32}

-- struct pool; `mem` holds the words of headers and red zones, by their offset. The payload and
-- the lock are not modelled.
pub record Pool : Type 0 where
  pub bitmap : List ℕ
  pub free_blocks : ℕ
  pub nr_blocks : ℕ
  pub next_non_full : ℕ
  pub mem : ℕ → ℕ

-- SMALLOC_BPB, SMALLOC_BPI and SMALLOC_BPL
abbrev pub bpb : ℕ
bpb = 32

abbrev pub bpi : ℕ
bpi = 32

abbrev pub bpl : ℕ
bpl = bpb * bpi

-- size_to_blocks
unfoldable pub size_to_blocks : ℕ → ℕ
size_to_blocks size = u32 (size + bpb - 1) / bpb

-- The mask of blocks_iter; a shift by 32 or more is undefined.
unfoldable pub run_mask : ℕ → ℕ → Option ℕ
run_mask this_blocks idx =
    if this_blocks == bpi
    then some (2 ^ 32 - 1)
    else if ltb this_blocks 32 && ltb idx 32
    then some (u32 (ones_at this_blocks idx))
    else none

-- The blocks of this word.
abbrev pub this_blocks : ℕ → ℕ → ℕ
this_blocks nr_blocks idx =
    if ltb bpi (u32 (nr_blocks + idx)) then u32 (bpi + 2 ^ 32 - idx) else nr_blocks

-- blocks_iter: `func` sees each word of the run with its mask, and says whether to go on. A round
-- passes at least one block, so `nr_blocks` rounds are enough fuel.
unfoldable pub blocks_iter :
    ℕ → (ℕ → ℕ → Option (ℕ × Bool)) → ℕ → List ℕ → ℕ → ℕ → ℕ → Option (List ℕ × Bool)
blocks_iter fuel func words m pool_idx idx zero = some (m, true)
blocks_iter zero func words m pool_idx idx (suc left) = none
blocks_iter (suc fuel) func words m pool_idx idx (suc left) =
    if leb words pool_idx then some (m, false) else (do
      w ← get_elem? m pool_idx
      let this = this_blocks (suc left) idx
      mask ← run_mask this idx
      (w', on) ← func w mask
      let m' = set m pool_idx w'
      let rest = blocks_iter fuel func words m' (pool_idx + 1) 0 (suc left - this)
      if on then rest else some (m', false))

unfoldable pub mask_cmp : ℕ → ℕ → Option (ℕ × Bool)
mask_cmp w mask = some (w, bit_and w mask == 0)

unfoldable pub mask_clear : ℕ → ℕ → Option (ℕ × Bool)
mask_clear w mask =
    if bit_and w mask == mask then some (bit_and w (complement 32 mask), true) else none

unfoldable pub mask_set : ℕ → ℕ → Option (ℕ × Bool)
mask_set w mask = if bit_and w mask == 0 then some (bit_or w mask, true) else none

-- blocks_free, set_blocks and clear_blocks; the last two drop the result of blocks_iter.
unfoldable pub blocks_free : Pool → ℕ → ℕ → ℕ → Option Bool
blocks_free p pool_idx idx nr = do
  (m, free) ← blocks_iter nr mask_cmp p.nr_blocks p.bitmap pool_idx idx nr
  some free

unfoldable pub set_blocks : Pool → ℕ → ℕ → ℕ → Option Pool
set_blocks p pool_idx idx nr = do
  (m, all) ← blocks_iter nr mask_set p.nr_blocks p.bitmap pool_idx idx nr
  some (record p { bitmap = m })

unfoldable pub clear_blocks : Pool → ℕ → ℕ → ℕ → Option Pool
clear_blocks p pool_idx idx nr = do
  (m, all) ← blocks_iter nr mask_clear p.nr_blocks p.bitmap pool_idx idx nr
  some (record p { bitmap = m })

-- `word >> start` of an `int`, as the `unsigned long` that ffz takes.
abbrev pub shift_int : ℕ → ℕ → ℕ
shift_int word start =
    if ltb word (2 ^ 31) then word / 2 ^ start else complement 64 (complement 32 word / 2 ^ start)

-- find_next_zero
unfoldable pub find_next_zero : ℕ → ℕ → Option ℕ
find_next_zero word start =
    if word == 2 ^ 32 - 1 then none else some (ffz (shift_int word start) + start)

-- The loop of __smalloc_pool: word `i`, to be searched from bit `last_idx` on. The result is the
-- pool, and the offset of the run that was set. Where a run is refused the search moves on by at
-- least one block, so a round for each block is enough fuel.
unfoldable pub search_loop : ℕ → Pool → ℕ → ℕ → ℕ → Option (Pool × Option ℕ)
search_loop zero p i last_idx nr = none
search_loop (suc fuel) p i last_idx nr = if leb p.nr_blocks i then some (p, none) else (do
  w ← get_elem? p.bitmap i
  let next_word = search_loop fuel (record p { next_non_full = i + 1 }) (i + 1) 0 nr
  let here = (do
    idx ← find_next_zero w last_idx
    free ← blocks_free p i idx nr
    let idx' = u32 (idx + nr)
    let again =
        (if ltb idx' bpi
          then search_loop fuel p i idx' nr
          else search_loop fuel p (i + idx' / bpi) 0 nr)
    let taken = (do
      q ← set_blocks p i idx nr
      some (record q { free_blocks = q.free_blocks - nr }, some (u32 (i * bpl + idx * bpb))))
    if free then taken else again)
  if w == 2 ^ 32 - 1 then next_word else here)

-- __smalloc_pool
unfoldable pub smalloc_blocks : Pool → ℕ → Option (Pool × Option ℕ)
smalloc_blocks p size =
    let nr = size_to_blocks size in
    if ltb p.free_blocks nr
    then some (p, none)
    else search_loop (suc (bpi * p.nr_blocks)) p p.next_non_full 0 nr

-- SMALLOC_PRE_RED and SMALLOC_POST_RED
abbrev pub pre_red : ℕ
pre_red = 0xdead_beef

abbrev pub post_red : ℕ
post_red = 0x5aa5_5aa5

-- `(n + int_mask) & ~int_mask`, the next multiple of 4.
abbrev pub round_int : ℕ → ℕ
round_int n = (n + 3) / 4 * 4

-- The words of a header, and postred_ptr.
abbrev pub store : (ℕ → ℕ) → ℕ → ℕ → (ℕ → ℕ)
store mem at v a = if a == at then v else mem a

abbrev pub postred_ptr : ℕ → ℕ → ℕ
postred_ptr hdr size = round_int (hdr + size - 4)

-- fill_redzone, with the size that smalloc_pool stores before it.
unfoldable pub fill_header : Pool → ℕ → ℕ → Pool
fill_header p hdr size = record p {
  mem = store (store (store p.mem hdr size) (hdr + 4) pre_red) (postred_ptr hdr size) post_red;
}

-- sfree_check_redzone: whether both red zones are as they were filled.
unfoldable pub check_redzone : Pool → ℕ → Bool
check_redzone p hdr = p.mem (hdr + 4) == pre_red && p.mem (postred_ptr hdr (p.mem hdr)) == post_red

-- The size that smalloc_pool asks for: header, payload and red zone.
abbrev pub alloc_size : ℕ → ℕ
alloc_size size = u32 (round_int (u32 (size + 8 + 4)))

-- smalloc_pool: the pointer handed out lies behind the header.
unfoldable pub smalloc_pool : Pool → ℕ → Option (Pool × Option ℕ)
smalloc_pool p size = do
  (q, ptr) ← smalloc_blocks p (alloc_size size)
  elim ptr [
    | none ↦ some (q, none)
    | some hdr ↦ some (fill_header q hdr (alloc_size size), some (hdr + 8))
  ]

-- ptr_valid, of an address that is not below the map.
unfoldable pub ptr_valid : Pool → ℕ → Bool
ptr_valid p ptr = ltb ptr (u32 (p.nr_blocks * bpl))

-- sfree_pool, of a pointer that is not null.
unfoldable pub sfree_pool : Pool → ℕ → Option Pool
sfree_pool p ptr =
    let hdr = ptr - 8 in
    let nr = size_to_blocks (p.mem hdr) in
    let i = hdr / bpl in
    if leb 8 ptr && ptr_valid p hdr && check_redzone p hdr
    then (do
      q ← clear_blocks p i (hdr % bpl / bpb) nr
      some (record q {
        next_non_full = if ltb i q.next_non_full then i else q.next_non_full;
        free_blocks = u32 (q.free_blocks + nr);
      }))
    else none
