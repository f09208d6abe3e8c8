-- ===== src/Marks/Slots.antt =====
-- The switches of the histograms, against one description: a value belongs to the last slot whose
-- lower bound it reaches.
use fio_ssd.Prelude.{
  arith, sym, ◌∙◌, dec_lt, lt→ltb, length, true, false, ℕ, ◌+◌, ◌≤◌, ◌<◌, ◌/◌, ◌≡◌, refl, List, [],
  ◌∷◌, some, ltb, leb, if◌then◌else◌,
}
use fio_ssd.Marks.{
  Stats, map_slot, depth_slot, lat_usec_slot, lat_msec_slot, bump, io_u_mark_lat_usec,
  io_u_mark_lat_msec, io_u_mark_latency,
}

-- How many of the ascending lower bounds `n` reaches.
abbrev pub rank : List ℕ → ℕ → ℕ
rank [] n = 0
rank (b ∷ bs) n = (if leb b n then 1 else 0) + rank bs n

pub map_slot-rank : (nr : ℕ) → map_slot nr ≡ rank (1 ∷ 5 ∷ 9 ∷ 17 ∷ 33 ∷ 65 ∷ []) nr
unfolding map_slot
map_slot-rank nr = ground arith

-- At a depth of at least one, the slot that io_u_mark_depth picks is the number of the bounds 2, 4,
-- 8, 16, 32 and 64 that the depth reaches.
depth_slot-rank :
    (depth : ℕ) → 1 ≤ depth → depth_slot depth ≡ rank (2 ∷ 4 ∷ 8 ∷ 16 ∷ 32 ∷ 64 ∷ []) depth
unfolding depth_slot
depth_slot-rank depth h = ground arith

abbrev usec_bounds : List ℕ
usec_bounds = 2 ∷ 4 ∷ 10 ∷ 20 ∷ 50 ∷ 100 ∷ 250 ∷ 500 ∷ 750 ∷ []

abbrev msec_bounds : List ℕ
msec_bounds = 2 ∷ 4 ∷ 10 ∷ 20 ∷ 50 ∷ 100 ∷ 250 ∷ 500 ∷ 750 ∷ 1000 ∷ 2000 ∷ []

lat_usec_slot-rank : (usec : ℕ) → usec < 1000 → lat_usec_slot usec ≡ rank usec_bounds usec
unfolding lat_usec_slot
lat_usec_slot-rank usec h = ground arith

-- The two tables agree below 1000.
lat_msec_slot_low : (msec : ℕ) → msec < 1000 → lat_msec_slot msec ≡ lat_usec_slot msec
unfolding lat_msec_slot lat_usec_slot
lat_msec_slot_low msec h = elim (dec_lt msec 100) [
  | yes low ↦ ground arith steps 12000000
  | no high ↦ ground arith steps 12000000
]

lat_msec_slot_high :
    (msec : ℕ) → 1000 ≤ msec → lat_msec_slot msec ≡ (if leb 2000 msec then 11 else 10)
unfolding lat_msec_slot
lat_msec_slot_high msec h = elim (dec_lt msec 2000) [
  | yes low ↦ ground arith
  | no high ↦ ground arith
]

rank_low : (msec : ℕ) → msec < 1000 → rank msec_bounds msec ≡ rank usec_bounds msec
rank_low msec h = rw (under, under') (omega arith)
  where
    under : leb 1000 msec ≡ false
    under = ground arith

    under' : leb 2000 msec ≡ false
    under' = ground arith

rank_high : (msec : ℕ) → 1000 ≤ msec → rank msec_bounds msec ≡ (if leb 2000 msec then 11 else 10)
rank_high msec h = ground arith

lat_msec_slot-rank : (msec : ℕ) → lat_msec_slot msec ≡ rank msec_bounds msec
lat_msec_slot-rank msec = elim (dec_lt msec 1000) [
  | yes low ↦ lat_msec_slot_low msec low ∙ lat_usec_slot-rank msec low ∙ sym (rank_low msec low)
  | no high ↦ lat_msec_slot_high msec (omega arith) ∙ sym (rank_high msec (omega arith))
]

rank-le : (bs : List ℕ) (n : ℕ) → rank bs n ≤ length bs
rank-le [] n = omega arith
rank-le (b ∷ bs) n = ground (arith, rank-le bs n)

-- The statistics after a latency of `usec` was put in its place.
abbrev pub with_latency : Stats → ℕ → Stats
with_latency ts usec =
    if ltb usec 1000
    then record ts { io_u_lat_u = bump ts.io_u_lat_u (rank usec_bounds usec) 1 }
    else record ts { io_u_lat_m = bump ts.io_u_lat_m (rank msec_bounds (usec / 1000)) 1 }

mark_usec :
    (ts : Stats) (usec : ℕ)
    → usec < 1000
    → io_u_mark_lat_usec ts usec
      ≡ some (record ts { io_u_lat_u = bump ts.io_u_lat_u (rank usec_bounds usec) 1 })
unfolding io_u_mark_lat_usec
mark_usec ts usec h = rw (lat_usec_slot-rank usec h, small, in_range) refl
  where
    small : ltb usec 1000 ≡ true
    small = ground arith

    in_range : ltb (rank usec_bounds usec) 10 ≡ true
    in_range = ground (arith, rank-le usec_bounds usec)

mark_msec :
    (ts : Stats) (msec : ℕ)
    → io_u_mark_lat_msec ts msec
      ≡ some (record ts { io_u_lat_m = bump ts.io_u_lat_m (rank msec_bounds msec) 1 })
unfolding io_u_mark_lat_msec
mark_msec ts msec = rw (lat_msec_slot-rank msec, in_range) refl
  where
    in_range : ltb (rank msec_bounds msec) 12 ≡ true
    in_range = ground (arith, rank-le msec_bounds msec)

-- io_u_mark_latency fails no assert and adds one to a single counter: of a latency below 1000
-- microseconds the usec counter whose index is the number of usec bounds that it reaches, else the
-- msec counter whose index is the number of msec bounds that the latency over 1000 reaches.
pub io_u_mark_latency-eq :
    (ts : Stats) (usec : ℕ) → io_u_mark_latency ts usec ≡ some (with_latency ts usec)
unfolding io_u_mark_latency
io_u_mark_latency-eq ts usec = elim (dec_lt usec 1000) [
  | yes short ↦ rw (lt→ltb usec 1000 short) (mark_usec ts usec short)
  | no long ↦ rw (not_short long) (mark_msec ts (usec / 1000))
]
  where
    not_short : ¬ (usec < 1000) → ltb usec 1000 ≡ false
    not_short long = ground arith
