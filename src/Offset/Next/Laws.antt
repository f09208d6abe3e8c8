-- ===== src/Offset/Next/Laws.antt =====
-- __get_next_offset of io_u.c: an io_u that it places lies in the file, begins at a clear block in
-- a random job, and where the last one ended in a sequential one.
use fio_ssd.Prelude.{
  ℕ, ◌+◌, ◌-◌, ◌*◌, ◌^◌, ◌<◌, ◌≤◌, ◌≡◌, refl, Option, none, some, Bool, true, false, leb,
  if◌then◌else◌, arith, inl, inr, ◌⊎◌,
}
use fio_ssd.FioFile.{File, minus_one}
use fio_ssd.RandMap.{IoU, u64}
use fio_ssd.Offset.{Options, Ddir, ba, Rand, get_next_rand_offset, get_next_rand_block}
use fio_ssd.Offset.RandBlock.{KeepsMap, moved, IsFree, IsFull, get_next_rand_offset_lem}
use fio_ssd.Offset.Next.{
  get_next_seq_offset, set_offset, get_next_block, get_next_offset, count_seq,
}

module _ (R : Rand) (hist_empty : Bool) (o : Options) (seq_nr : ℕ) (f : File) (u : IoU)
    (ddir : Ddir) (s : R.State) where
  open R use {State}

  -- Where __get_next_offset returns 0 and the io region of the file does not wrap, the io_u begins
  -- in that region and before the end of the file.
  pub get_next_offset_bounds :
      {s' : State} {n : ℕ} {g : File} {w : IoU}
      → get_next_offset R hist_empty o seq_nr f u ddir s ≡ some (s', n, g, w, false)
      → g.file_offset + g.io_size ≤ 2 ^ 64
      → (g.file_offset ≤ w.offset)
        × (w.offset < g.file_offset + g.io_size)
        × (w.offset < g.real_file_size)
  unfolding get_next_offset
  get_next_offset_bounds e h = ground arith

  -- The io_u of a sequential job with a jump distance of 0 begins where the last one ended, if that
  -- lies in the file, at or behind its start, and below its io size; the file is unchanged.
  get_next_offset_sequential :
      o.td_random ≡ false
      → o.ddir_seq_nr ≡ 1
      → seq_nr ≡ 1
      → o.ddir_seq_add ≡ 0
      → f.file_offset ≤ f.last_pos
      → f.last_pos < f.real_file_size
      → f.last_pos < f.io_size
      → f.last_pos < 2 ^ 64 - 1
      → get_next_offset R hist_empty o seq_nr f u ddir s
        ≡ some (s, 1, f, record u { offset = f.last_pos }, false)
  unfolding get_next_offset get_next_block get_next_seq_offset set_offset count_seq
  get_next_offset_sequential a b c d p q r z = ground arith

-- The io_u that begins at block `b`, and whether the block lies past the io region or the file.
abbrev pub placed : Options → File → IoU → Ddir → ℕ → IoU × Bool
placed o f u ddir b =
    let rel = u64 (b * ba o ddir) in
    let offset = u64 (rel + f.file_offset) in
    if leb f.io_size rel
    then (record u { offset = rel }, true)
    else (record u { offset = offset }, leb f.real_file_size offset)

module _ (R : Rand) (hist_empty : Bool) (o : Options) (f : File) (u : IoU) (ddir : Ddir)
    (s : R.State) (random : o.td_random ≡ true) (every : o.ddir_seq_nr ≡ 1)
    (untimed : o.time_based ≡ false) where
  open R use {State}

  result : Option (State × ℕ × File × IoU × Bool)
  result = get_next_offset R hist_empty o 1 f u ddir s

  result-found :
      {s' : State} {g : File} {b : ℕ}
      → b < minus_one
      → g.io_size ≡ f.io_size
      → g.file_offset ≡ f.file_offset
      → g.real_file_size ≡ f.real_file_size
      → get_next_rand_offset R o f ddir s ≡ some (s', g, some b)
      → result ≡ (let (w, ret) = placed o f u ddir b in some (s', 1, g, w, ret))
  unfolding result get_next_offset get_next_block get_next_rand_block set_offset count_seq
  result-found small p q r e = ground arith

  result-failed :
      {s' : State} {g : File}
      → get_next_rand_offset R o f ddir s ≡ some (s', g, none)
      → result ≡ some (s', 1, g, u, true)
  unfolding result get_next_offset get_next_block get_next_rand_block set_offset count_seq
  result-failed e = ground arith

  -- In a random job that jumps at each io_u and is not time based, without norandommap and
  -- randomagain, with a random map that covers the file, at least one block and at most 2^53 of
  -- them, __get_next_offset gives an io_u at a clear block that is at most the last block, refused
  -- only where it lies outside the io region or the file; or it returns 1 and every block of the
  -- file up to the last one is set. It does not fault, and of the file only the place of the next
  -- search and the count of failures change.
  pub get_next_offset_random :
      KeepsMap o f ddir
      → ((s' : State) × (l k b : ℕ) × IsFree o f ddir b
          × (get_next_offset R hist_empty o 1 f u ddir s
              ≡ (let (w, ret) = placed o f u ddir b in some (s', 1, moved f l k, w, ret))))
        ⊎ ((s' : State) × (l k : ℕ) × IsFull o f ddir
            × (get_next_offset R hist_empty o 1 f u ddir s ≡ some (s', 1, moved f l k, u, true)))
  unfolding result
  get_next_offset_random ok = elim (get_next_rand_offset_lem R o f ddir ok s) [
    | inl (s', l, k, b, e, free) ↦
        inl (s', l, k, b, free, result-found (omega (arith, free, ok.exact)) refl refl refl e)
    | inr ((s', l, k, h, e), full) ↦ inr (s', l, k, full, result-failed e)
  ]
