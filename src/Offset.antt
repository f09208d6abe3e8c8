-- ===== src/Offset.antt =====
-- Block selection of io_u.c: the next block of an io_u, at random or in sequence.
-- The outer `none` is a fault, an access outside `file_map`. A selection that returns 0 through
-- `*b` is `some b`, one that returns 1 is `none`.
pub mod FreeBlock
pub mod Search
pub mod RandBlock
pub mod Next
mod Tests
use fio_ssd.Prelude.{
  ℕ, zero, suc, ◌+◌, ◌-◌, ◌*◌, ◌/◌, ◌%◌, ◌^◌, ◌<◌, ◌≤◌, Option, none, some, List, Bool, true, false,
  not, ◌&&◌, ◌||◌, ltb, leb, ◌==◌, if◌then◌else◌, get_elem?, length,
}
use fio_ssd.Ffz.{ffz}
use fio_ssd.FioFile.{File, minus_one, is_null, fio_file_reset}
use fio_ssd.RandMap.{IoU, u32, u64, random_map_free, ◌>>=◌}

-- The asserts of this code admit the directions DDIR_READ and DDIR_WRITE only.
pub data Ddir : Type 0 where
  ddir_read ddir_write : Ddir

pub data RwSeq : Type 0 where
  rw_seq_seq rw_seq_ident rw_seq_unknown : RwSeq

-- The fields of struct thread_options that are read here; `ddir_seq_add` is the bit pattern of a
-- `long`, and `td_random` is the bit TD_DDIR_RAND of `td_ddir`.
pub record Options : Type 0 where
  pub rw_min_bs : ℕ
  pub ba_read : ℕ
  pub ba_write : ℕ
  pub zone_range : ℕ
  pub ddir_seq_nr : ℕ
  pub ddir_seq_add : ℕ
  pub rw_seq : RwSeq
  pub time_based : Bool
  pub norandommap : Bool
  pub randomagain : Bool
  pub td_random : Bool

abbrev pub ba : Options → Ddir → ℕ
ba o ddir_read = o.ba_read
ba o ddir_write = o.ba_write

-- Random numbers: `next` draws one (os_random_long or __rand), and `scale n r` is
-- `n * (r / (rmax + 1.0))` in `double`, cut to an integer. Up to 2 ^ 53, where a double is exact,
-- the product does not exceed `n`.
pub record Rand : Type 1 where
  pub State : Type 0
  pub next : State → ℕ × State
  pub scale : ℕ → ℕ → ℕ
  pub scale-le : (n r : ℕ) → n ≤ 2 ^ 53 → scale n r ≤ n

-- last_block
unfoldable pub last_block : Options → File → Ddir → ℕ
last_block o f ddir =
    let max_size = if ltb f.real_file_size f.io_size then f.real_file_size else f.io_size in
    (if o.zone_range == 0 then max_size else o.zone_range) / ba o ddir

-- The loop of get_next_free_block at map index `i`, an `int`: maps of 2 ^ 31 words are not modelled.
-- A round moves to the next word, so one more round than words is enough fuel.
unfoldable pub free_scan : ℕ → ℕ → ℕ → File → ℕ → ℕ → Option (Option (ℕ × ℕ))
free_scan zero min_bs lastb f i block = none
free_scan (suc fuel) min_bs lastb f i block =
    if ltb (u64 (block * min_bs)) f.real_file_size && ltb (u64 (block * min_bs)) f.io_size
    then (do
      w ← get_elem? f.file_map i
      let found = block + ffz w
      let rest = free_scan fuel min_bs lastb f (i + 1) (u64 (block + 64))
      if w == minus_one
          then rest
          else if ltb lastb found
          then some none
          else some (some (found, i)))
    else some none

-- The block and the word that the search gives, as get_next_free_block stores them.
abbrev pub store_found : File → Option (ℕ × ℕ) → File × Option ℕ
store_found f none = (f, none)
store_found f (some (b, i)) = (record f { last_free_lookup = i }, some b)

-- get_next_free_block
unfoldable pub get_next_free_block : Options → File → Ddir → Option (File × Option ℕ)
get_next_free_block o f ddir =
    let lastb = last_block o f ddir in
    let i = u32 f.last_free_lookup in
    if lastb == 0 then some (f, none) else if leb (2 ^ 31) i then none else (do
      found ← free_scan (suc (length f.file_map)) o.rw_min_bs lastb f i (u64 (i * 64))
      some (store_found f found))

module _ (R : Rand) where
  open R use {State, next, scale}

  -- Up to `loops` random blocks, until one is free: the last number drawn, and the block.
  unfoldable pub rand_loop : ℕ → Options → File → ℕ → ℕ → State → Option (State × ℕ × Option ℕ)
  rand_loop zero o f lastb r s = some (s, r, none)
  rand_loop (suc loops) o f lastb r₀ s =
      let (r, s') = next s in
      let b = scale (lastb - 1) r in
      let again = rand_loop loops o f lastb r s' in
      if o.norandommap || is_null f.file_map || o.randomagain
      then some (s', r, some b)
      else (do free ← random_map_free f.file_map b; if free then some (s', r, some b) else again)

  -- Up to `loops` searches for a free block from a random word of the map on.
  unfoldable pub lookup_loop :
      ℕ → Options → File → Ddir → ℕ → State → Option (State × File × Option ℕ)
  lookup_loop zero o f ddir r s = some (s, f, none)
  lookup_loop (suc loops) o f ddir r s = do
    (g, found) ←
        get_next_free_block o (record f { last_free_lookup = scale (f.num_maps - 1) r }) ddir
    let (r', s') = next s
    let again = lookup_loop loops o g ddir r' s'
    elim found [ some b ↦ some (s, g, some b) | none ↦ again ]

  -- The code from the label `ffz` of get_next_rand_offset on.
  unfoldable pub exhaustive : Options → File → Ddir → State → Option (State × File × Option ℕ)
  exhaustive o f ddir s = do
    (g, found) ← get_next_free_block o f ddir
    elim found [
      | some b ↦ some (s, g, some b)
      | none ↦ do
        (g', found') ← get_next_free_block o (record g { last_free_lookup = 0 }) ddir
        some (s, g', found')
    ]

  -- get_next_rand_offset
  unfoldable pub get_next_rand_offset :
      Options → File → Ddir → State → Option (State × File × Option ℕ)
  get_next_rand_offset o f ddir s =
      let lastb = last_block o f ddir in
      if lastb == 0
      then some (s, f, none)
      else if leb 200 f.failed_rands
      then exhaustive o f ddir s
      else (do
        (s', r, picked) ← rand_loop 5 o f lastb 0 s
        elim picked [
          | some b ↦ some (s', record f { failed_rands = 0 }, some b)
          | none ↦ do
            let g = record f {
              failed_rands = u32 (f.failed_rands + 1);
              last_free_lookup = if f.failed_rands == 0 then 0 else f.last_free_lookup;
            }
            (s'', h, found) ← lookup_loop 10 o g ddir r s'
            elim found [
              | some b ↦ some (s'', h, some b)
              | none ↦ exhaustive o (record h { last_free_lookup = 0 }) ddir s''
            ]
        ])

  -- get_next_rand_block: a time based job starts over when the map is full.
  unfoldable pub get_next_rand_block :
      Bool → Options → File → Ddir → State → Option (State × File × Option ℕ)
  get_next_rand_block hist_empty o f ddir s = do
    (s', g, found) ← get_next_rand_offset o f ddir s
    elim found [
      | some b ↦ some (s', g, some b)
      | none ↦
          if o.time_based
          then get_next_rand_offset o (fio_file_reset hist_empty g) ddir s'
          else some (s', g, none)
    ]
