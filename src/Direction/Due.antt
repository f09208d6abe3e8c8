-- ===== src/Direction/Due.antt =====
-- get_rw_ddir: syncs when they are due, and else a direction that the job has.
use fio_ssd.Prelude.{
  arith, refl, ℕ, zero, suc, ◌%◌, ◌<◌, ◌≡◌, ◌⊎◌, inl, inr, ◌↔◌, true, false, Bool-cases,
}
use fio_ssd.Offset.{Ddir, ddir_read, ddir_write}
use fio_ssd.Direction.{
  Job, Td, Action, ddir_sync, ddir_datasync, ddir_sync_file_range, rate_sleep, rate_ddir,
  should_fsync, sync_due, mix_ddir, get_rw_ddir,
}

-- The job has this direction.
abbrev pub Has : Job → Ddir → Type 0
Has o ddir_read = o.td_read ≡ true
Has o ddir_write = o.td_write ≡ true

-- A sync after each `blocks` writes is due.
pub record IsDue (o : Job) (td : Td) (blocks : ℕ) : Type 0 where
  pub asked : 0 < blocks
  pub written : 0 < td.io_issues ddir_write
  pub multiple : td.io_issues ddir_write % blocks ≡ 0
  pub fresh : (o.last_was_sync ≡ false) × (o.odirect ≡ false)
  pub writes : (o.td_write ≡ true) ⊎ (o.override_sync ≡ true)

sync_due_iff : (o : Job) (td : Td) (blocks : ℕ) → (sync_due o td blocks ≡ true) ↔ IsDue o td blocks
unfolding sync_due should_fsync
sync_due_iff o td zero = (λ e. cc, λ d. absurd (omega (arith, d.asked)))
sync_due_iff o td (suc n) = (
  λ e. record {
    asked = omega arith;
    written = ground arith;
    multiple = ground arith;
    fresh = (ground arith, ground arith);
    writes = ground arith;
  },
  λ d. ground (arith, d.written, d.multiple, d.fresh, d.writes),
)

rate_ddir-Has :
    (complete : Td → Td) (slept : ℕ → ℕ) (o : Job) (td : Td) (ddir : Ddir)
    → Has o ddir
    → Has o ((rate_ddir complete slept o td ddir).1)
unfolding rate_ddir rate_sleep
rate_ddir-Has complete slept o td ddir_read h = ground arith
rate_ddir-Has complete slept o td ddir_write h = ground arith

both-Has : (o : Job) → o.td_read ≡ true → o.td_write ≡ true → (d : Ddir) → Has o d
both-Has o r w ddir_read = r
both-Has o r w ddir_write = w

mix_ddir-Has :
    (o : Job) (percent : ℕ) (td : Td)
    → (o.td_read ≡ true) ⊎ (o.td_write ≡ true)
    → Has o ((mix_ddir o percent td).1)
unfolding mix_ddir
mix_ddir-Has o percent td h = elim (Bool-cases o.td_read) [
  | inl r ↦ elim (Bool-cases o.td_write) [
    | inl w ↦ both-Has o r w ((mix_ddir o percent td).1)
    | inr w ↦ rw (r, w) refl
  ]
  | inr r ↦ rw r (elim h [ inl r' ↦ absurd (cc (r, r')) | inr w ↦ w ])
]

-- What the action of an io_u says of the job and of the writes so far.
abbrev pub Right : Job → Td → Action → Type 0
Right o td (Action.rw ddir) =
    Has o ddir
    × ¬ IsDue o td o.fsync_blocks
    × ¬ IsDue o td o.fdatasync_blocks
    × ¬ IsDue o td o.sync_file_range_nr
Right o td ddir_sync = IsDue o td o.fsync_blocks
Right o td ddir_datasync = IsDue o td o.fdatasync_blocks × ¬ IsDue o td o.fsync_blocks
Right o td ddir_sync_file_range =
    IsDue o td o.sync_file_range_nr × ¬ IsDue o td o.fsync_blocks × ¬ IsDue o td o.fdatasync_blocks

-- get_rw_ddir of a job that reads or writes gives a sync, datasync or sync_file_range exactly where
-- one is due, in this order, and else a direction that the job has.
pub get_rw_ddir-Right :
    (complete : Td → Td) (slept : ℕ → ℕ) (o : Job) (percent : ℕ) (td : Td)
    → (o.td_read ≡ true) ⊎ (o.td_write ≡ true)
    → Right o td ((get_rw_ddir complete slept o percent td).1)
unfolding get_rw_ddir
get_rw_ddir-Right complete slept o percent td h = elim (Bool-cases (sync_due o td o.fsync_blocks)) [
  | inl due ↦ rw due ((sync_due_iff o td o.fsync_blocks).0 due)
  | inr not_sync ↦ rw not_sync (elim (Bool-cases (sync_due o td o.fdatasync_blocks)) [
    | inl due ↦
        rw due ((sync_due_iff o td o.fdatasync_blocks).0 due, not_due o.fsync_blocks not_sync)
    | inr not_data ↦ rw not_data (elim (Bool-cases (sync_due o td o.sync_file_range_nr)) [
      | inl due ↦ rw due (
        (sync_due_iff o td o.sync_file_range_nr).0 due,
        not_due o.fsync_blocks not_sync,
        not_due o.fdatasync_blocks not_data,
      )
      | inr not_range ↦ rw not_range (
        rate_ddir-Has complete slept o _ _ (mix_ddir-Has o percent td h),
        not_due o.fsync_blocks not_sync,
        not_due o.fdatasync_blocks not_data,
        not_due o.sync_file_range_nr not_range,
      )
    ])
  ])
]
  where
    not_due : (blocks : ℕ) → sync_due o td blocks ≡ false → ¬ IsDue o td blocks
    not_due blocks e d = cc (e, (sync_due_iff o td blocks).1 d)
