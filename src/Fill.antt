-- ===== src/Fill.antt =====
-- fill_io_u and set_rw_ddir of io_u.c: the direction, offset and length of the next io_u put
-- together, with the zones and the random map. Logging is not modelled. `none` is a failed assert or
-- the end of the draws.
pub mod Place
mod Tests
use fio_ssd.Prelude.{
  ℕ, zero, suc, ◌+◌, ◌%◌, ◌^◌, Option, none, some, List, Bool, true, false, not, ◌&&◌, ◌||◌, ltb,
  leb, ◌==◌, if◌then◌else◌,
}
use fio_ssd.RandMap.{IoU, u32, u64, ◌>>=◌, mark_random_map, mark_bit_map}
use fio_ssd.FioFile.{File, is_null}
use fio_ssd.Offset.{Ddir, ddir_write, Options, Rand}
use fio_ssd.Offset.Next.{get_next_offset}
use fio_ssd.Buflen.{Sizes, get_next_buflen}
use fio_ssd.Direction.{Job, Td, Action, get_rw_ddir}

-- The options of a job that fill_io_u reads. `noio` and `barriers` are FIO_NOIO and FIO_BARRIER of
-- the engine; the place in `sizes` is not read.
pub record FillOptions : Type 0 where
  pub options : Options
  pub job : Job
  pub sizes : Ddir → Sizes
  pub noio : Bool
  pub barriers : Bool
  pub barrier_blocks : ℕ
  pub zone_size : ℕ
  pub zone_skip : ℕ
  pub zone_range : ℕ

-- Whether `n` is a multiple of `blocks`; not of 0.
abbrev pub is_multiple : ℕ → ℕ → Bool
is_multiple zero n = false
is_multiple (suc blocks) n = n % suc blocks == 0

module _ (R : Rand) (hist_empty : Bool) (complete : Td → Td) (slept : ℕ → ℕ) (o : FillOptions) where
  open R use {State}

  -- The job, the io_u and its file. `action` is io_u->ddir.
  pub record Filling : Type 0 where
    pub td : Td
    pub rand : State
    pub ddir_seq_nr : ℕ
    pub zone_bytes : ℕ
    pub io_skip_bytes : ℕ
    pub file : File
    pub io : IoU
    pub action : Action
    pub barrier : Bool

  -- set_rw_ddir; `percent` is the draw of get_rand_ddir.
  unfoldable pub set_rw_ddir : ℕ → Filling → Filling
  set_rw_ddir percent s =
      let (td, action) = get_rw_ddir complete slept o.job percent s.td in
      let writes = td.io_issues ddir_write in
      let due = o.barriers && not (writes == 0) && is_multiple o.barrier_blocks writes in
      record s {
        td = td;
        action = action;
        barrier = elim action [ Action.rw ddir_write ↦ due || s.barrier | _ ↦ s.barrier ];
      }

  -- The switch to a new zone.
  abbrev pub switch_zone : Filling → Filling
  switch_zone s =
      let offset = u64 (s.file.file_offset + (o.zone_range + o.zone_skip)) in
      if leb o.zone_size s.zone_bytes && not (o.zone_skip == 0)
      then record s {
        zone_bytes = 0;
        file = record s.file { file_offset = offset; last_pos = offset };
        io_skip_bytes = u64 (s.io_skip_bytes + o.zone_skip);
      }
      else s

  -- The marking of the random map, and the note that blocks may repeat.
  abbrev pub mark_map : File → IoU → Option (File × IoU)
  mark_map f u =
      if o.options.td_random
        && not o.options.norandommap
        && not (is_null f.file_map)
        && not o.options.randomagain
      then mark_random_map o.options.rw_min_bs o.options.ddir_seq_nr f u
      else if o.options.randomagain
      then mark_bit_map o.options.rw_min_bs f u
      else if o.options.norandommap
      then some (f, record u { randomagain = true })
      else some (f, u)

  -- The end of fill_io_u: the bytes count for the zone, and 0 is returned.
  abbrev pub finish : Filling → Filling × Bool
  finish s = (record s { zone_bytes = u64 (s.zone_bytes + s.io.buflen) }, false)

  -- get_next_buflen at the place of the io_u; the result is an `unsigned int`.
  abbrev pub next_buflen : Ddir → List ℕ → File → IoU → Option ℕ
  next_buflen ddir draws f u = do
    b ← get_next_buflen (record (o.sizes ddir) { offset = u.offset; io_size = f.io_size }) draws
    some (u32 b)

  -- The marking, and the return of 0.
  unfoldable pub fill_marked : Filling → Option (Filling × Bool)
  fill_marked s = do (g, w) ← mark_map s.file s.io; some (finish (record s { file = g; io = w }))

  -- The checks of a length; `true` is that fill_io_u returns 1.
  unfoldable pub fill_sized : Filling → ℕ → Option (Filling × Bool)
  fill_sized s b =
      let t : Filling = record s { io = record s.io { buflen = b } } in
      let marked = fill_marked t in
      if b == 0
      then some (t, true)
      else if ltb s.file.real_file_size (u64 (s.io.offset + b))
      then some (t, true)
      else marked

  -- fill_io_u of a transfer, behind the choice of the direction.
  unfoldable pub fill_transfer : List ℕ → Ddir → Filling → Option (Filling × Bool)
  fill_transfer draws ddir s = do
    (rand, seq_nr, f, u, no_offset) ←
        get_next_offset R hist_empty o.options s.ddir_seq_nr s.file s.io ddir s.rand
    let t : Filling = record s { rand = rand; ddir_seq_nr = seq_nr; file = f; io = u }
    let sized = (do b ← next_buflen ddir draws f u; fill_sized t b)
    if no_offset then some (t, true) else sized

  -- fill_io_u; `percent` and `draws` are the draws for the direction and the length.
  unfoldable pub fill_io_u : ℕ → List ℕ → Filling → Option (Filling × Bool)
  fill_io_u percent draws s =
      let t = set_rw_ddir percent s in
      if o.noio then some (finish s) else elim t.action [
        | Action.rw ddir ↦ fill_transfer draws ddir (switch_zone t)
        | _ ↦ some (finish t)
      ]
