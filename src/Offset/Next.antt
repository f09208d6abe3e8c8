-- ===== src/Offset/Next.antt =====
-- get_next_seq_offset, get_next_block and __get_next_offset of io_u.c: the offset of the next io_u.
-- A return value is true for 1, a failure.
pub mod Laws
use fio_ssd.Prelude.{
  ℕ, ◌+◌, ◌-◌, ◌*◌, ◌/◌, ◌%◌, ◌^◌, Option, none, some, Bool, true, false, not, ◌&&◌, ltb, leb, ◌==◌,
  if◌then◌else◌,
}
use fio_ssd.FioFile.{File, minus_one}
use fio_ssd.RandMap.{IoU, u32, u64, ◌>>=◌}
use fio_ssd.Offset.{
  Options, Ddir, ba, RwSeq, rw_seq_seq, rw_seq_ident, rw_seq_unknown, Rand, get_next_rand_block,
}

-- `last_pos` after a time based job has come round.
abbrev pub wrapped_pos : Options → File → ℕ
wrapped_pos o f =
    if leb f.io_size f.last_pos && o.time_based then f.last_pos - f.io_size else f.last_pos

-- get_next_seq_offset. A `long` is negative from 2 ^ 63 on.
unfoldable pub get_next_seq_offset : Options → File → File × Option ℕ
get_next_seq_offset o f =
    let last_pos = wrapped_pos o f in
    if ltb last_pos f.real_file_size
    then (let start =
          if last_pos == f.file_offset && leb (2 ^ 63) o.ddir_seq_add
          then f.real_file_size
          else last_pos in
        let pos = u64 (start + 2 ^ 64 - f.file_offset) in
        (
          record f { last_pos = start },
          some (if pos == 0 then pos else u64 (pos + o.ddir_seq_add)),
        ))
    else (record f { last_pos = last_pos }, none)

-- The variables `b` and `offset` of get_next_block.
pub record Place : Type 0 where
  pub b : ℕ
  pub offset : ℕ

abbrev pub at_block : Option ℕ → Option Place
at_block none = none
at_block (some b) = some (record { b = b; offset = minus_one })

abbrev pub at_offset : Option ℕ → Option Place
at_offset none = none
at_offset (some offset) = some (record { b = minus_one; offset = offset })

-- The end of get_next_block: a place, if `ret` is 0, becomes the offset of the io_u.
unfoldable pub set_offset : ℕ → Option Place → IoU → IoU × Bool
set_offset ba none u = (u, true)
set_offset ba (some p) u =
    if not (p.offset == minus_one)
    then (record u { offset = p.offset }, false)
    else if not (p.b == minus_one)
    then (record u { offset = u64 (p.b * ba) }, false)
    else (u, true)

module _ (R : Rand) (hist_empty : Bool) where
  open R use {State}

  rand_place : Options → File → Ddir → State → Option (State × File × Option Place)
  rand_place o f ddir s = do
    (s', g, found) ← get_next_rand_block R hist_empty o f ddir s
    some (s', g, at_block found)

  seq_place : Options → File → State → Option (State × File × Option Place)
  seq_place o f s = let (g, found) = get_next_seq_offset o f in some (s, g, at_offset found)

  -- A place off the sequence: `rw_seq` says how the job goes on between two random jumps.
  off_sequence : RwSeq → Options → File → Ddir → State → Option (State × File × Option Place)
  off_sequence rw_seq_seq o f ddir s =
      let (g, found) = get_next_seq_offset o f in
      elim found [
        | some offset ↦ some (s, g, at_offset (some offset))
        | none ↦ rand_place o g ddir s
      ]
  off_sequence rw_seq_ident o f ddir s =
      let offset =
        if not (f.last_start == minus_one)
        then u64 (f.last_start + 2 ^ 64 - f.file_offset)
        else 0 in
      some (s, f, at_offset (some offset))
  off_sequence rw_seq_unknown o f ddir s = some (s, f, none)

  -- get_next_block
  unfoldable pub get_next_block :
      Options → File → IoU → Ddir → Bool → State → Option (State × File × IoU × Bool)
  unfolding rand_place seq_place off_sequence
  get_next_block o f u ddir rw_seq s = do
    let u' = if rw_seq then u else record u { busy_ok = true }
    (s', g, place) ←
        (if rw_seq
          then (if o.td_random then rand_place o f ddir s else seq_place o f s)
          else off_sequence o.rw_seq o f ddir s)
    let (v, ret) = set_offset (ba o ddir) place u'
    some (s', g, v, ret)

  -- The count of `td->ddir_seq_nr` down to the next jump: whether it is due, and the new count.
  unfoldable pub count_seq : ℕ → ℕ → Bool × ℕ
  count_seq o_seq_nr seq_nr =
      if o_seq_nr == 0
      then (false, seq_nr)
      else if u32 (seq_nr + 2 ^ 32 - 1) == 0
      then (true, o_seq_nr)
      else (false, u32 (seq_nr + 2 ^ 32 - 1))

  -- __get_next_offset; `seq_nr` is td->ddir_seq_nr.
  unfoldable pub get_next_offset :
      Options → ℕ → File → IoU → Ddir → State → Option (State × ℕ × File × IoU × Bool)
  get_next_offset o seq_nr f u ddir s = do
    let (hit, seq_nr') = count_seq o.ddir_seq_nr seq_nr
    (s', g, v, ret) ← get_next_block o f u ddir hit s
    let w = record v { offset = u64 (v.offset + g.file_offset) }
    if ret
        then some (s', seq_nr', g, v, true)
        else if leb g.io_size v.offset
        then some (s', seq_nr', g, v, true)
        else some (s', seq_nr', g, w, leb g.real_file_size w.offset)
