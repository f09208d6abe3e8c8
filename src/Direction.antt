-- ===== src/Direction.antt =====
-- The direction of an io_u, io_u.c: syncs that are due, the mix of reads and writes, and the rate
-- limit. The clock, the random number and what completes while flushing are parameters.
pub mod Due
pub mod Rate
mod Tests
use fio_ssd.Prelude.{
  ℕ, zero, suc, ◌+◌, ◌-◌, ◌*◌, ◌/◌, ◌%◌, ◌^◌, Bool, true, false, not, ◌&&◌, ◌||◌, ltb, leb, ◌==◌,
  if◌then◌else◌,
}
use fio_ssd.Prelude.Int.{ℤ, pos, negsuc, ◌-ℤ◌, leb_ℤ, ltb_ℤ, pos_part}
use fio_ssd.RandMap.{u32, u64}
use fio_ssd.Offset.{Ddir, ddir_read, ddir_write}

-- The options, and the fields of thread_data that are only read here. `rated` is
-- __should_check_rate, and td_read and td_write are the bits of td_ddir.
pub record Job : Type 0 where
  pub td_read : Bool
  pub td_write : Bool
  pub rwmix : Ddir → ℕ
  pub rated : Ddir → Bool
  pub fsync_blocks : ℕ
  pub fdatasync_blocks : ℕ
  pub sync_file_range_nr : ℕ
  pub last_was_sync : Bool
  pub odirect : Bool
  pub override_sync : Bool
  pub io_u_in_flight : ℕ

-- The fields of thread_data that change.
pub record Td : Type 0 where
  pub io_issues : Ddir → ℕ
  pub rwmix_issues : ℕ
  pub rwmix_ddir : Ddir
  pub rate_pending_usleep : Ddir → ℤ

-- What an io_u is to do: a transfer, or one of the syncs of enum fio_ddir.
pub data Action : Type 0 where
  rw : Ddir → Action
  ddir_sync ddir_datasync ddir_sync_file_range : Action

-- `ddir ^ 1`
abbrev pub other : Ddir → Ddir
other ddir_read = ddir_write
other ddir_write = ddir_read

abbrev pub same : Ddir → Ddir → Bool
same ddir_read ddir_read = true
same ddir_write ddir_write = true
same ddir_read ddir_write = false
same ddir_write ddir_read = false

abbrev pub td_rw : Job → Bool
td_rw o = o.td_read && o.td_write

-- `f[d] = a`
abbrev pub put {ℓ} : {A : Type ℓ} → (Ddir → A) → Ddir → A → (Ddir → A)
put f d a e = if same d e then a else f e

-- set_rwmix_bytes
unfoldable pub set_rwmix_bytes : Job → Td → Td
set_rwmix_bytes o td = record td {
  rwmix_issues = u64 (td.io_issues td.rwmix_ddir * o.rwmix (other td.rwmix_ddir)) / 100;
}

-- get_rand_ddir; `percent` is `100.0 * (r / (rand_max + 1.0))` of the draw, cut to an integer.
unfoldable pub get_rand_ddir : Job → ℕ → Ddir
get_rand_ddir o percent = if leb (1 + percent) (o.rwmix ddir_read) then ddir_read else ddir_write

-- The end of rate_ddir: flush what is in flight, sleep, and deduct the time slept.
unfoldable pub rate_sleep : (Td → Td) → (ℕ → ℕ) → Job → Td → Ddir → ℤ → Td × Ddir
rate_sleep complete slept o td ddir usec =
    let flushed = if o.io_u_in_flight == 0 then td else complete td in
    let usec' = pos (slept (pos_part usec)) in
    let own = put flushed.rate_pending_usleep ddir (flushed.rate_pending_usleep ddir -ℤ usec') in
    let both = put own (other ddir) (own (other ddir) -ℤ usec') in
    (
      record flushed {
        rate_pending_usleep = if td_rw o && o.rated (other ddir) then both else own;
      },
      ddir,
    )

-- rate_ddir; `slept n` is how long a sleep of `n` microseconds takes by the clock.
unfoldable pub rate_ddir : (Td → Td) → (ℕ → ℕ) → Job → Td → Ddir → Td × Ddir
rate_ddir complete slept o td ddir =
    let mine = td.rate_pending_usleep ddir in
    let theirs = td.rate_pending_usleep (other ddir) in
    if leb_ℤ mine (pos 0)
    then (td, ddir)
    else if td_rw o && ltb_ℤ theirs (pos 100000)
    then (td, other ddir)
    else if td_rw o && not (leb_ℤ mine theirs)
    then rate_sleep complete slept o td (other ddir) theirs
    else rate_sleep complete slept o td ddir mine

-- should_fsync
unfoldable pub should_fsync : Job → Bool
should_fsync o = not o.last_was_sync && not o.odirect && (o.td_write || td_rw o || o.override_sync)

-- The test for a sync after each `blocks` writes.
unfoldable pub sync_due : Job → Td → ℕ → Bool
sync_due o td zero = false
sync_due o td (suc n) =
    (td.io_issues ddir_write % suc n == 0) && not (td.io_issues ddir_write == 0) && should_fsync o

-- The direction before the rate limit.
unfoldable pub mix_ddir : Job → ℕ → Td → Td × Ddir
mix_ddir o percent td =
    let drawn = get_rand_ddir o percent in
    let seeded = if same drawn td.rwmix_ddir then td else set_rwmix_bytes o td in
    if td_rw o
    then (if leb td.rwmix_issues (td.io_issues td.rwmix_ddir)
        then (record seeded { rwmix_ddir = drawn }, drawn)
        else (td, td.rwmix_ddir))
    else (td, if o.td_read then ddir_read else ddir_write)

-- get_rw_ddir
unfoldable pub get_rw_ddir : (Td → Td) → (ℕ → ℕ) → Job → ℕ → Td → Td × Action
get_rw_ddir complete slept o percent td =
    let (mixed, ddir) = mix_ddir o percent td in
    let (rated, ddir') = rate_ddir complete slept o mixed ddir in
    if sync_due o td o.fsync_blocks
    then (td, ddir_sync)
    else if sync_due o td o.fdatasync_blocks
    then (td, ddir_datasync)
    else if sync_due o td o.sync_file_range_nr
    then (td, ddir_sync_file_range)
    else (record rated { rwmix_ddir = ddir' }, rw ddir')
