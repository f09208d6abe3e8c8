-- ===== src/Fill/Place.antt =====
-- Where the io_u of fill_io_u lies.
use mathlib.Core.Path.{subst}
use fio_ssd.Prelude.{
  arith, refl, ℕ, ◌+◌, ◌^◌, ◌≤◌, ◌<◌, ◌≡◌, Option, some, List, Bool, true, false, not, ◌&&◌, ltb,
  ◌==◌, if◌then◌else◌, Bool-cases, inl, inr,
}
use fio_ssd.Chains.{bind_some, some_eq}
use fio_ssd.RandMap.{IoU, u32, u64, ◌>>=◌, mark_random_map, mark_bit_map}
use fio_ssd.FioFile.{File, is_null}
use fio_ssd.Offset.{Ddir, Rand}
use fio_ssd.Offset.Next.{get_next_offset}
use fio_ssd.Offset.Next.Laws.{get_next_offset_bounds}
use fio_ssd.Buflen.{get_next_buflen}
use fio_ssd.Direction.{Td, Action}
use fio_ssd.Fill.{
  FillOptions, Filling, set_rw_ddir, switch_zone, mark_map, finish, next_buflen, fill_marked,
  fill_sized, fill_transfer, fill_io_u,
}

-- Marking leaves the place of an io_u, and does not make it longer.
pub record IsKept (f : File) (u : IoU) (g : File) (w : IoU) : Type 0 where
  pub offset : w.offset ≡ u.offset
  pub buflen : w.buflen ≤ u.buflen
  pub real_file_size : g.real_file_size ≡ f.real_file_size
  pub file_offset : g.file_offset ≡ f.file_offset
  pub io_size : g.io_size ≡ f.io_size

mark_random_map-IsKept :
    (min_bs seq_nr : ℕ) (f : File) (u : IoU) (g : File) (w : IoU)
    → mark_random_map min_bs seq_nr f u ≡ some (g, w)
    → IsKept f u g w
unfolding mark_random_map
mark_random_map-IsKept min_bs seq_nr f u g w e = record {
  offset = ground arith;
  buflen = ground arith;
  real_file_size = ground arith;
  file_offset = ground arith;
  io_size = ground arith;
}

mark_bit_map-IsKept :
    (min_bs : ℕ) (f : File) (u : IoU) (g : File) (w : IoU)
    → mark_bit_map min_bs f u ≡ some (g, w)
    → IsKept f u g w
unfolding mark_bit_map
mark_bit_map-IsKept min_bs f u g w e = record {
  offset = ground arith;
  buflen = ground arith;
  real_file_size = ground arith;
  file_offset = ground arith;
  io_size = ground arith;
}

-- A return of 0 did not take the branch that returns 1.
not_failed {ℓ} :
    {A : Type ℓ} (c : Bool) (x : A) (r : Option (A × Bool)) (y : A)
    → (if c then some (x, true) else r) ≡ some (y, false)
    → (c ≡ false) × (r ≡ some (y, false))
not_failed true x r y e = absurd (cc e)
not_failed false x r y e = (refl, e)

IsKept-same :
    (f : File) (u v : IoU) (g : File) (w : IoU)
    → ◌≡◌ {A = Option (File × IoU)} (some (f, v)) (some (g, w))
    → IsKept f u f v
    → IsKept f u g w
IsKept-same f u v g w e kept = subst (λ (h, x). IsKept f u h x) (some_eq e) kept

module _ (R : Rand) (hist_empty : Bool) (complete : Td → Td) (slept : ℕ → ℕ) (o : FillOptions) where
  mark_map-IsKept :
      (f : File) (u : IoU) (g : File) (w : IoU)
      → mark_map R hist_empty complete slept o f u ≡ some (g, w)
      → IsKept f u g w
  mark_map-IsKept f u g w e =
      elim (Bool-cases (
        o.options.td_random
        && not o.options.norandommap
        && not (is_null f.file_map)
        && not o.options.randomagain)) [
          | inl a ↦
              mark_random_map-IsKept o.options.rw_min_bs o.options.ddir_seq_nr f u g w (rw a at e)
          | inr b ↦ elim (Bool-cases o.options.randomagain) [
            | inl again ↦ mark_bit_map-IsKept o.options.rw_min_bs f u g w (rw (b, again) at e)
            | inr once ↦ elim (Bool-cases o.options.norandommap) [
              | inl no_map ↦
                  IsKept-same f u (record u { randomagain = true }) g w (rw (b, once, no_map) at e)
                    (record {
                      offset = refl;
                      buflen = omega arith;
                      real_file_size = refl;
                      file_offset = refl;
                      io_size = refl;
                    })
              | inr map ↦ IsKept-same f u u g w (rw (b, once, map) at e) (record {
                offset = refl;
                buflen = omega arith;
                real_file_size = refl;
                file_offset = refl;
                io_size = refl;
              })
            ]
          ]
        ]

  -- The io_u lies in its file, behind the start of the io region.
  abbrev pub Placed : Filling R hist_empty complete slept o → Type 0
  Placed s =
      (s.file.file_offset ≤ s.io.offset)
      × (s.io.offset < s.file.file_offset + s.file.io_size)
      × (s.io.offset + s.io.buflen ≤ s.file.real_file_size)

  -- The io region of the file is the same.
  abbrev SameRegion :
      Filling R hist_empty complete slept o → Filling R hist_empty complete slept o → Type 0
  SameRegion s t = (t.file.file_offset ≡ s.file.file_offset) × (t.file.io_size ≡ s.file.io_size)

  fill_marked-Placed :
      (s s' : Filling R hist_empty complete slept o)
      → fill_marked R hist_empty complete slept o s ≡ some (s', false)
      → SameRegion s s' × (Placed s → Placed s')
  unfolding fill_marked
  fill_marked-Placed s s' e =
      let ((g, w), marked, done) =
        bind_some (mark_map R hist_empty complete slept o s.file s.io)
          (λ (g, w). some (finish R hist_empty complete slept o (record s { file = g; io = w })))
          (s', false) e in
      let kept = mark_map-IsKept s.file s.io g w marked in
      subst (λ (t, r). SameRegion s t × (Placed s → Placed t)) (some_eq done)
        (
          (kept.file_offset, kept.io_size),
          λ placed. (
            omega (arith, kept.offset, kept.file_offset, placed),
            omega (arith, kept.offset, kept.file_offset, kept.io_size, placed),
            omega (arith, kept.offset, kept.buflen, kept.real_file_size, placed),
          ),
        )

  fill_sized-Placed :
      (s s' : Filling R hist_empty complete slept o) (b : ℕ)
      → fill_sized R hist_empty complete slept o s b ≡ some (s', false)
      → b < 2 ^ 32
      → SameRegion s s'
        × (s.io.offset < 2 ^ 63
            → s.file.file_offset ≤ s.io.offset
            → s.io.offset < s.file.file_offset + s.file.io_size
            → Placed s')
  unfolding fill_sized
  fill_sized-Placed s s' b e narrow =
      let t : Filling R hist_empty complete slept o = record s {
        io = record s.io { buflen = b };
      } in
      let (nonzero, e1) =
        not_failed (b == 0) t
          (if ltb s.file.real_file_size (u64 (s.io.offset + b))
            then some (t, true)
            else fill_marked R hist_empty complete slept o t)
          s' e in
      let (fits, e2) =
        not_failed (ltb s.file.real_file_size (u64 (s.io.offset + b))) t
          (fill_marked R hist_empty complete slept o t) s' e1 in
      let (region, kept) = fill_marked-Placed t s' e2 in
      (region, λ small low high. kept (low, high, ground (arith, fits, narrow, small)))

  next_buflen-lt :
      (ddir : Ddir) (draws : List ℕ) (f : File) (u : IoU) (b : ℕ)
      → next_buflen R hist_empty complete slept o ddir draws f u ≡ some b
      → b < 2 ^ 32
  next_buflen-lt ddir draws f u b e =
      let (c, found, same) =
        bind_some
          (get_next_buflen (record (o.sizes ddir) { offset = u.offset; io_size = f.io_size }) draws)
          (λ c. some (u32 c)) b e in
      omega (arith, some_eq same)

  module _ (draws : List ℕ) (ddir : Ddir) (s s' : Filling R hist_empty complete slept o)
      (rand : R.State) (seq_nr : ℕ) (f : File) (u : IoU) (no_offset : Bool)
      (at : get_next_offset R hist_empty o.options s.ddir_seq_nr s.file s.io ddir s.rand
        ≡ some (rand, seq_nr, f, u, no_offset)) where
    -- The job with the place of the io_u.
    abbrev found_place : Filling R hist_empty complete slept o
    found_place = record s { rand = rand; ddir_seq_nr = seq_nr; file = f; io = u }

    behind_offset :
        (if no_offset
            then some (found_place, true)
            else (next_buflen R hist_empty complete slept o ddir draws f u
                >>= (λ b. fill_sized R hist_empty complete slept o found_place b)))
          ≡ some (s', false)
        → s'.file.file_offset + s'.file.io_size ≤ 2 ^ 63
        → Placed s'
    behind_offset e small =
        let (is_found, e1) =
          not_failed no_offset found_place
            (next_buflen R hist_empty complete slept o ddir draws f u
              >>= (λ b. fill_sized R hist_empty complete slept o found_place b))
            s' e in
        let (b, size, e2) =
          bind_some (next_buflen R hist_empty complete slept o ddir draws f u)
            (λ b. fill_sized R hist_empty complete slept o found_place b) (s', false) e1 in
        let (region, placed) =
          fill_sized-Placed found_place s' b e2 (next_buflen-lt ddir draws f u b size) in
        let (low, high, inside) =
          get_next_offset_bounds R hist_empty o.options s.ddir_seq_nr s.file s.io ddir s.rand
            (subst
              (λ c.
                get_next_offset R hist_empty o.options s.ddir_seq_nr s.file s.io ddir s.rand
                ≡ some (rand, seq_nr, f, u, c))
              is_found at)
            (omega (arith, region, small)) in
        placed (omega (arith, high, region, small)) low high

  fill_transfer-Placed :
      (draws : List ℕ) (ddir : Ddir) (s s' : Filling R hist_empty complete slept o)
      → fill_transfer R hist_empty complete slept o draws ddir s ≡ some (s', false)
      → s'.file.file_offset + s'.file.io_size ≤ 2 ^ 63
      → Placed s'
  unfolding fill_transfer
  fill_transfer-Placed draws ddir s s' e small =
      let ((rand, seq_nr, f, u, no_offset), at, e1) =
        bind_some (get_next_offset R hist_empty o.options s.ddir_seq_nr s.file s.io ddir s.rand)
          (λ (rand, seq_nr, f, u, no_offset).
            if no_offset
            then some (record s { rand = rand; ddir_seq_nr = seq_nr; file = f; io = u }, true)
            else (next_buflen R hist_empty complete slept o ddir draws f u >>= (λ b.
                fill_sized R hist_empty complete slept o
                  (record s { rand = rand; ddir_seq_nr = seq_nr; file = f; io = u }) b)))
          (s', false) e in
      behind_offset draws ddir s s' rand seq_nr f u no_offset at e1 small

  -- Where the engine does io, fill_io_u picks a transfer and returns 0, and the io region of the
  -- file ends at 2 ^ 63 at most, the io_u starts in the io region and ends within the real size of
  -- the file, also after the marking in the random map.
  pub fill_io_u-Placed :
      (percent : ℕ) (draws : List ℕ) (ddir : Ddir) (s s' : Filling R hist_empty complete slept o)
      → o.noio ≡ false
      → (set_rw_ddir R hist_empty complete slept o percent s).action ≡ Action.rw ddir
      → fill_io_u R hist_empty complete slept o percent draws s ≡ some (s', false)
      → s'.file.file_offset + s'.file.io_size ≤ 2 ^ 63
      → Placed s'
  unfolding fill_io_u
  fill_io_u-Placed percent draws ddir s s' with_io transfer e small =
      let t = set_rw_ddir R hist_empty complete slept o percent s in
      fill_transfer-Placed draws ddir (switch_zone R hist_empty complete slept o t) s'
        (rw (with_io, transfer) at e) small
