-- ===== src/Marks.antt =====
-- The histograms of io_u.c: how many io_us were submitted and completed at a time, at which depth,
-- and with which latency. A histogram is a list of counters of 32 bits, a total has 64 bits; `none` is a failed assert.
-- The `case a ... b` of a switch are tests of both bounds, and a case without a break falls through
-- to one that only breaks.
pub mod Slots
pub mod Totals
mod Tests
use fio_ssd.Prelude.{
  ℕ, suc, ◌+◌, ◌/◌, ◌%◌, ◌^◌, Option, none, some, List, Bool, true, false, ◌&&◌, ltb, leb, ◌==◌,
  if◌then◌else◌, get_or, set,
}
use fio_ssd.RandMap.{u32, u64, ◌>>=◌}

-- The histograms of struct thread_stat.
pub record Stats : Type 0 where
  pub io_u_map : List ℕ
  pub io_u_submit : List ℕ
  pub io_u_complete : List ℕ
  pub io_u_lat_u : List ℕ
  pub io_u_lat_m : List ℕ
  pub total_submit : ℕ
  pub total_complete : ℕ

abbrev pub between : ℕ → ℕ → ℕ → Bool
between lo hi n = leb lo n && leb n hi

-- `map[idx] += nr`
unfoldable pub bump : List ℕ → ℕ → ℕ → List ℕ
bump map idx nr = set map idx (u32 (get_or map idx 0 + nr))

-- The index of __io_u_mark_map.
unfoldable pub map_slot : ℕ → ℕ
map_slot nr =
    if between 33 64 nr
    then 5
    else if between 17 32 nr
    then 4
    else if between 9 16 nr
    then 3
    else if between 5 8 nr
    then 2
    else if between 1 4 nr
    then 1
    else if nr == 0
    then 0
    else 6

unfoldable pub io_u_mark_map : List ℕ → ℕ → List ℕ
io_u_mark_map map nr = bump map (map_slot nr) 1

unfoldable pub io_u_mark_submit : Stats → ℕ → Stats
io_u_mark_submit ts nr = record ts {
  io_u_submit = io_u_mark_map ts.io_u_submit nr;
  total_submit = u64 (ts.total_submit + 1);
}

unfoldable pub io_u_mark_complete : Stats → ℕ → Stats
io_u_mark_complete ts nr = record ts {
  io_u_complete = io_u_mark_map ts.io_u_complete nr;
  total_complete = u64 (ts.total_complete + 1);
}

-- The index of io_u_mark_depth.
unfoldable pub depth_slot : ℕ → ℕ
depth_slot cur_depth =
    if between 32 63 cur_depth
    then 5
    else if between 16 31 cur_depth
    then 4
    else if between 8 15 cur_depth
    then 3
    else if between 4 7 cur_depth
    then 2
    else if between 2 3 cur_depth
    then 1
    else if cur_depth == 1
    then 0
    else 6

unfoldable pub io_u_mark_depth : Stats → ℕ → ℕ → Stats
io_u_mark_depth ts cur_depth nr = record ts {
  io_u_map = bump ts.io_u_map (depth_slot cur_depth) nr;
}

-- The index of io_u_mark_lat_usec, of a latency below 1000.
unfoldable pub lat_usec_slot : ℕ → ℕ
lat_usec_slot usec =
    if between 750 999 usec
    then 9
    else if between 500 749 usec
    then 8
    else if between 250 499 usec
    then 7
    else if between 100 249 usec
    then 6
    else if between 50 99 usec
    then 5
    else if between 20 49 usec
    then 4
    else if between 10 19 usec
    then 3
    else if between 4 9 usec
    then 2
    else if between 2 3 usec
    then 1
    else 0

unfoldable pub io_u_mark_lat_usec : Stats → ℕ → Option Stats
io_u_mark_lat_usec ts usec =
    if ltb usec 1000 && ltb (lat_usec_slot usec) 10
    then some (record ts { io_u_lat_u = bump ts.io_u_lat_u (lat_usec_slot usec) 1 })
    else none

-- The index of io_u_mark_lat_msec.
unfoldable pub lat_msec_slot : ℕ → ℕ
lat_msec_slot msec =
    if between 1000 1999 msec
    then 10
    else if between 750 999 msec
    then 9
    else if between 500 749 msec
    then 8
    else if between 250 499 msec
    then 7
    else if between 100 249 msec
    then 6
    else if between 50 99 msec
    then 5
    else if between 20 49 msec
    then 4
    else if between 10 19 msec
    then 3
    else if between 4 9 msec
    then 2
    else if between 2 3 msec
    then 1
    else if between 0 1 msec
    then 0
    else 11

unfoldable pub io_u_mark_lat_msec : Stats → ℕ → Option Stats
io_u_mark_lat_msec ts msec =
    if ltb (lat_msec_slot msec) 12
    then some (record ts { io_u_lat_m = bump ts.io_u_lat_m (lat_msec_slot msec) 1 })
    else none

unfoldable pub io_u_mark_latency : Stats → ℕ → Option Stats
io_u_mark_latency ts usec =
    if ltb usec 1000 then io_u_mark_lat_usec ts usec else io_u_mark_lat_msec ts (usec / 1000)
