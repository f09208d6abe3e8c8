-- ===== src/Marks/Tests.antt =====
-- Tests of the histograms, and their theorems at concrete inputs.
use fio_ssd.Prelude.{◌≡◌, refl, [], ◌∷◌, some}
use fio_ssd.Marks.{
  Stats, bump, map_slot, lat_msec_slot, io_u_mark_submit, io_u_mark_complete, io_u_mark_lat_msec,
  io_u_mark_latency,
}
use fio_ssd.Marks.Slots.{rank, with_latency, map_slot-rank, io_u_mark_latency-eq}
use fio_ssd.Marks.Totals.{IsCounted, mark-IsCounted}

abbrev stats : Stats
stats = record {
  io_u_map = 0 ∷ 0 ∷ 0 ∷ 0 ∷ 0 ∷ 0 ∷ 0 ∷ [];
  io_u_submit = 0 ∷ 3 ∷ 1 ∷ 0 ∷ 0 ∷ 0 ∷ 0 ∷ [];
  io_u_complete = 0 ∷ 4 ∷ 0 ∷ 0 ∷ 0 ∷ 0 ∷ 0 ∷ [];
  io_u_lat_u = 0 ∷ 0 ∷ 0 ∷ 0 ∷ 0 ∷ 0 ∷ 0 ∷ 0 ∷ 0 ∷ 0 ∷ [];
  io_u_lat_m = 0 ∷ 0 ∷ 0 ∷ 0 ∷ 0 ∷ 0 ∷ 0 ∷ 0 ∷ 0 ∷ 0 ∷ 0 ∷ 0 ∷ [];
  total_submit = 4;
  total_complete = 4;
}

three_msec :
    io_u_mark_latency stats 3999
    ≡ some (record stats { io_u_lat_m = 0 ∷ 1 ∷ 0 ∷ 0 ∷ 0 ∷ 0 ∷ 0 ∷ 0 ∷ 0 ∷ 0 ∷ 0 ∷ 0 ∷ [] })
unfolding io_u_mark_latency io_u_mark_lat_msec lat_msec_slot bump
three_msec = refl

map_slot-rank_example : map_slot 33 ≡ rank (1 ∷ 5 ∷ 9 ∷ 17 ∷ 33 ∷ 65 ∷ []) 33
map_slot-rank_example = map_slot-rank 33

io_u_mark_latency-eq_example : io_u_mark_latency stats 3999 ≡ some (with_latency stats 3999)
io_u_mark_latency-eq_example = io_u_mark_latency-eq stats 3999

stats-IsCounted : IsCounted stats
stats-IsCounted = record {
  submit_length = refl;
  complete_length = refl;
  submit_total = refl;
  complete_total = refl;
}

mark-IsCounted_example :
    IsCounted (io_u_mark_submit stats 5) × IsCounted (io_u_mark_complete stats 5)
mark-IsCounted_example = mark-IsCounted stats 5 stats-IsCounted
