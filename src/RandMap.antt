-- ===== src/RandMap.antt =====
-- The random map of io_u.c: one bit for each block of `rw_min_bs` bytes, set when io to the block
-- has been issued. `none` is a fault: a failed fio_assert or an access outside `file_map`.
-- `unsigned long` has 64 bits.
pub mod Word
pub mod Mark
pub mod Cut
pub mod Again
mod Tests
use fio_ssd.Prelude.{
  ℕ, zero, suc, ◌+◌, ◌-◌, ◌*◌, ◌/◌, ◌%◌, ◌^◌, bit_and, bit_or, Option, none, some, List, Bool, true,
  false, not, ◌&&◌, ltb, leb, ◌==◌, if◌then◌else◌, get_elem?, set,
}
use fio_ssd.Bits.{ones_at}
use fio_ssd.FioFile.{File}

-- The fields of struct io_u; `busy_ok` is the flag IO_U_F_BUSY_OK.
pub record IoU : Type 0 where
  pub offset : ℕ
  pub buflen : ℕ
  pub busy_ok : Bool
  pub randomagain : Bool

abbrev pub u32 : ℕ → ℕ
u32 n = n % 2 ^ 32

abbrev pub u64 : ℕ → ℕ
u64 n = n % 2 ^ 64

-- BLOCKS_PER_MAP
abbrev pub blocks_per_map : ℕ
blocks_per_map = 64

-- RAND_MAP_IDX and RAND_MAP_BIT, assigned to an `unsigned int`.
abbrev pub map_idx : ℕ → ℕ
map_idx block = u32 (block / blocks_per_map)

abbrev pub map_bit : ℕ → ℕ
map_bit block = block % blocks_per_map

-- The mask of `this_blocks` blocks from `bit` on.
unfoldable pub run_mask : ℕ → ℕ → ℕ
run_mask this_blocks bit =
    if this_blocks == blocks_per_map then 2 ^ 64 - 1 else u64 (ones_at this_blocks bit)

infixl 5 ◌>>=◌
abbrev pub ◌>>=◌ {ℓ κ} : {A : Type ℓ} {B : Type κ} → Option A → (A → Option B) → Option B
none >>= f = none
some a >>= f = f a

-- random_map_free: whether the block's bit is clear.
unfoldable pub random_map_free : List ℕ → ℕ → Option Bool
random_map_free file_map block = do
  w ← get_elem? file_map (map_idx block)
  some (bit_and w (ones_at 1 (map_bit block)) == 0)

-- How many blocks of this word are taken from `block` on, of the `nr_blocks` wanted.
abbrev pub this_word : ℕ → ℕ → ℕ
this_word nr_blocks bit =
    if ltb blocks_per_map (nr_blocks + bit) then blocks_per_map - bit else nr_blocks

-- The inner do-while of mark_random_map: shorten the run until no block of it is set.
unfoldable pub shrink : ℕ → ℕ → ℕ → ℕ
shrink w bit zero = zero
shrink w bit (suc t) = elim (bit_and w (run_mask (suc t) bit) == 0) [
  | true ↦ suc t
  | false ↦ shrink w bit t
]

-- The loop of mark_random_map, from `block` with `nr_blocks` left and `blocks` marked: the map and
-- the blocks marked. Each round but the last marks a block, so `nr_blocks` rounds are enough fuel.
unfoldable pub mark_loop : ℕ → ℕ → ℕ → Bool → List ℕ → ℕ → ℕ → ℕ → Option (List ℕ × ℕ)
mark_loop zero seq_nr num_maps busy_check m block nr_blocks blocks =
    if nr_blocks == 0 then some (m, blocks) else none
mark_loop (suc fuel) seq_nr num_maps busy_check m block zero blocks = some (m, blocks)
mark_loop (suc fuel) seq_nr num_maps false m block (suc left) blocks = some (m, suc left)
mark_loop (suc fuel) seq_nr num_maps true m block (suc left) blocks = do
  free ← (if seq_nr == 1 then random_map_free m block else some true)
  elim free [
    | false ↦ some (m, blocks)
    | true ↦ do
      w ← (if ltb (map_idx block) num_maps then get_elem? m (map_idx block) else none)
      let n = shrink w (map_bit block) (this_word (suc left) (map_bit block))
      let m' = set m (map_idx block) (bit_or w (run_mask n (map_bit block)))
      let rest =
          mark_loop fuel seq_nr num_maps true m' (u64 (block + n)) (suc left - n) (u32 (blocks + n))
      if n == 0 then some (m, blocks) else rest
  ]

-- The blocks that an io_u covers: the first and their number.
abbrev pub first_block : ℕ → File → IoU → ℕ
first_block min_bs f u = u64 (u.offset + 2 ^ 64 - f.file_offset) / min_bs

abbrev pub block_count : ℕ → IoU → ℕ
block_count min_bs u = u32 (u64 (u.buflen + min_bs - 1) / min_bs)

-- mark_random_map: mark the blocks of the io_u, and cut it before the first that is set.
-- `seq_nr` is td->o.ddir_seq_nr.
unfoldable pub mark_random_map : ℕ → ℕ → File → IoU → Option (File × IoU)
unfolding mark_loop
mark_random_map min_bs seq_nr f u = do
  let nr_blocks = block_count min_bs u
  (m, blocks) ←
      mark_loop nr_blocks seq_nr f.num_maps (not u.busy_ok) f.file_map (first_block min_bs f u)
        nr_blocks 0
  let done = u32 (blocks * min_bs)
  some (record f { file_map = m }, if ltb done u.buflen then record u { buflen = done } else u)

-- The loop of mark_bit_map, which marks set blocks too, and notes that it met one.
unfoldable pub mark_bit_loop : ℕ → ℕ → List ℕ → ℕ → ℕ → Bool → Option (List ℕ × Bool)
mark_bit_loop fuel num_maps m block zero again = some (m, again)
mark_bit_loop zero num_maps m block (suc left) again = none
mark_bit_loop (suc fuel) num_maps m block (suc left) again = do
  w ← (if ltb (map_idx block) num_maps then get_elem? m (map_idx block) else none)
  let n = this_word (suc left) (map_bit block)
  let mask = run_mask n (map_bit block)
  mark_bit_loop fuel num_maps (set m (map_idx block) (bit_or w mask)) (u64 (block + n))
      (suc left - n) (if bit_and w mask == 0 then again else true)

-- mark_bit_map
unfoldable pub mark_bit_map : ℕ → File → IoU → Option (File × IoU)
unfolding mark_bit_loop
mark_bit_map min_bs f u = if u.busy_ok then some (f, record u { randomagain = true }) else do
  let nr_blocks = block_count min_bs u
  (m, again) ←
      mark_bit_loop nr_blocks f.num_maps f.file_map (first_block min_bs f u) nr_blocks u.randomagain
  some (record f { file_map = m }, record u { randomagain = again })
