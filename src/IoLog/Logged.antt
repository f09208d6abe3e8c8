-- ===== src/IoLog/Logged.antt =====
-- log_io_piece of a job with random writes over written data, in blocks of one size.
use fio_ssd.Prelude.{
  arith, refl, sym, ◌∙◌, ℕ, suc, ◌+◌, ◌≤◌, ◌≡◌, some, [], ◌∷◌, ◌++◌, length, Bool, true, false,
  if◌then◌else◌,
}
use mathlib.Core.Path.{subst}
use fio_ssd.FioFile.{File}
use fio_ssd.History.{Key, Hist}
use fio_ssd.RandMap.{u64}
use fio_ssd.IoLog.{
  Entry, Tree, in_order, RbTree, Logs, LogOptions, sort_piece, log_sorted, log_io_piece,
}
use fio_ssd.IoLog.Order.{piece_at, IsFresh}
use fio_ssd.IoLog.Latest.{IsLog, HasNew, sort_piece-HasNew}

-- The piece that log_io_piece makes for an io_u.
abbrev pub entry : LogOptions → ℕ → ℕ → ℕ → ℕ → ℕ → Entry
entry o at id offset buflen unique_version = record {
  at = at;
  file = id;
  offset = offset;
  len = buflen;
  unique_version = if o.verify_inner then unique_version else 0;
  trimmed = false;
}

module _ (R : RbTree) (jhash : Key → ℕ) (malloc : Hist → ℕ) where
  log_sorted-tree :
      (o : LogOptions) (f : File) (should_trim : Bool) (e : Entry) (td : Logs)
      → o.td_random ≡ true
      → o.overwrite ≡ true
      → (td1 : Logs) × (td1.io_hist_tree ≡ td.io_hist_tree)
        × (log_sorted R o f should_trim e td
            ≡ sort_piece R (suc (length (in_order td1.io_hist_tree))) e td1)
  unfolding log_sorted
  log_sorted-tree o f false e td random overwrite = (td, refl, rw (random, overwrite))
  log_sorted-tree o f true e td random overwrite = (
    record td { trim_list = td.trim_list ++ (e.at ∷ []); trim_entries = u64 (td.trim_entries + 1) },
    refl,
    rw (random, overwrite),
  )

  log_io_piece-sorted :
      (o : LogOptions) (id : ℕ) (f : File) (should_trim : Bool) (offset buflen version : ℕ)
      (td : Logs)
      → o.min_bs ≡ o.max_bs
      → o.ddir_seq_nr ≤ 1
      → log_io_piece R jhash malloc o id f should_trim offset buflen version td
        ≡ log_sorted R o f should_trim (entry o (malloc td.hist) id offset buflen version) td
  unfolding log_io_piece
  log_io_piece-sorted o id f should_trim offset buflen version td same few = ground (arith, same)

  -- In a job with blocks of one size, random writes over written data and no jumps, with a tree in
  -- order and without the address twice, an address from malloc that the tree does not have, and a
  -- length equal to that of any piece at the same place: log_io_piece does not fault, and the tree
  -- stays in order; it holds the new piece at its file and offset, in place of an older one, and at
  -- each other place what it held before.
  pub log_io_piece-HasNew :
      (o : LogOptions) (id : ℕ) (f : File) (should_trim : Bool) (offset buflen version : ℕ)
      (td : Logs)
      → o.min_bs ≡ o.max_bs
      → o.ddir_seq_nr ≤ 1
      → o.td_random ≡ true
      → o.overwrite ≡ true
      → IsLog td.io_hist_tree
      → IsFresh (malloc td.hist) (in_order td.io_hist_tree)
      → ((x : Entry) → piece_at id offset (in_order td.io_hist_tree) ≡ some x → buflen ≡ x.len)
      → (td' : Logs) × (log_io_piece R jhash malloc o id f should_trim offset buflen version td
          ≡ some td')
        × HasNew
            (entry o (malloc td.hist) id offset buflen version)
            td.io_hist_tree
            td'.io_hist_tree
  log_io_piece-HasNew o id f should_trim offset buflen version td same few random overwrite log
        fresh lens =
      let e = entry o (malloc td.hist) id offset buflen version in
      let (td1, kept, sorted) = log_sorted-tree o f should_trim e td random overwrite in
      let (td', done, new) =
        sort_piece-HasNew R e td1 (subst IsLog (sym kept) log)
          (subst (λ t. IsFresh e.at (in_order t)) (sym kept) fresh)
          (subst
            (λ (t : Tree). (x : Entry) → piece_at id offset (in_order t) ≡ some x → buflen ≡ x.len)
            (sym kept) lens) in
      (
        td',
        log_io_piece-sorted o id f should_trim offset buflen version td same few ∙ sorted ∙ done,
        subst (λ (t : Tree). HasNew e t td'.io_hist_tree) kept new,
      )
