-- ===== src/Offset/RandBlock.antt =====
-- get_next_rand_offset of io_u.c with a random map: it gives a clear block, and fails only if the
-- map is full.
use fio_ssd.Prelude.{
  ℕ, zero, suc, ◌+◌, ◌-◌, ◌*◌, ◌/◌, ◌^◌, ◌<◌, ◌≤◌, ◌≡◌, refl, Option, none, some, false, leb, ◌==◌,
  ==_iff, ==_iff_ne, if◌then◌else◌, length, arith, Bool-cases, ◌⊎◌, inl, inr, ℕ_discrete,
}
use fio_ssd.FioFile.{File, is_null}
use fio_ssd.RandMap.{u32, ◌>>=◌}
use fio_ssd.RandMap.Word.{block_bit}
use fio_ssd.RandMap.Mark.{random_map_free_lem}
use fio_ssd.Offset.{
  Options, Ddir, Rand, last_block, get_next_free_block, rand_loop, lookup_loop, exhaustive,
  get_next_rand_offset,
}
use fio_ssd.Offset.FreeBlock.{Covers, Exhausted}
use fio_ssd.Offset.Search.{Looked, get_next_free_block-Looked}

-- The job keeps a random map, and the map covers the blocks that may be drawn.
pub record KeepsMap (o : Options) (f : File) (ddir : Ddir) : Type 0 where
  pub covers : Covers o.rw_min_bs f
  pub some_block : 0 < last_block o f ddir
  pub blocks_in_map : last_block o f ddir ≤ 64 * length f.file_map
  pub exact : last_block o f ddir ≤ 2 ^ 53
  pub num_maps-le : f.num_maps ≤ length f.file_map
  pub lookup-le : f.last_free_lookup ≤ length f.file_map
  pub has_map : is_null f.file_map ≡ false
  pub uses_map : o.norandommap ≡ false
  pub no_repeat : o.randomagain ≡ false

-- The file after block selection: only the place of the next search and the count of failures change.
abbrev pub moved : File → ℕ → ℕ → File
moved f l k = record f { last_free_lookup = l; failed_rands = k }

module _ (o : Options) (f : File) (ddir : Ddir) where
  -- A clear block that is at most the last block.
  abbrev pub IsFree : ℕ → Type 0
  IsFree b = (block_bit f.file_map b ≡ 0) × (b ≤ last_block o f ddir)

  -- Every block of the file up to the last block is set.
  abbrev pub IsFull : Type 0
  IsFull = Exhausted o.rw_min_bs (last_block o f ddir) f 0

  last_block-moved : (l k : ℕ) → last_block o (moved f l k) ddir ≡ last_block o f ddir
  unfolding last_block
  last_block-moved l k = refl

  -- A search from word `l` on.
  looked_moved :
      KeepsMap o f ddir
      → (l k : ℕ) → l ≤ length f.file_map
      → ((b : ℕ) × (get_next_free_block o (moved f l k) ddir ≡ some (moved f (b / 64) k, some b))
          × IsFree b)
        ⊎ ((get_next_free_block o (moved f l k) ddir ≡ some (moved f l k, none))
            × Exhausted o.rw_min_bs (last_block o f ddir) f (64 * l))
  looked_moved ok l k h = simplify (
      get_next_free_block-Looked o (moved f l k) ddir covers-moved
        (rw (last_block-moved l k) ok.some_block) h)
    where
      covers-moved : Covers o.rw_min_bs (moved f l k)
      covers-moved = record {
        words = ok.covers.words;
        covered = ok.covers.covered;
        small = ok.covers.small;
        min_bs-pos = ok.covers.min_bs-pos;
        int_index = ok.covers.int_index;
      }

      simplify :
          Looked o (moved f l k) ddir (get_next_free_block o (moved f l k) ddir)
          → ((b : ℕ) × (get_next_free_block o (moved f l k) ddir
                ≡ some (moved f (b / 64) k, some b))
              × IsFree b)
            ⊎ ((get_next_free_block o (moved f l k) ddir ≡ some (moved f l k, none))
                × Exhausted o.rw_min_bs (last_block o f ddir) f (64 * l))
      simplify (inl (b, e, first)) = inl (b, e, (first.free, rw (← last_block-moved l k) first.le))
      simplify (inr (e, none_left)) = inr (e, rw (← last_block-moved l k) none_left)

module _ (R : Rand) (o : Options) (f : File) (ddir : Ddir) (ok : KeepsMap o f ddir) where
  open R use {State, next, scale, scale-le}

  -- `out` is a clear block, and the file as it was but for the search.
  abbrev pub Picks : Option (State × File × Option ℕ) → Type 0
  Picks out =
      (s' : State) × (l k b : ℕ) × (out ≡ some (s', moved f l k, some b)) × IsFree o f ddir b

  -- `out` is a failure, with the file as it was but for the search.
  abbrev pub Fails : Option (State × File × Option ℕ) → Type 0
  Fails out =
      (s' : State) × (l k : ℕ) × (l ≤ length f.file_map) × (out ≡ some (s', moved f l k, none))

  -- From the label `ffz` on the search fails only if the map is full.
  exhaustive_lem :
      (l k : ℕ) (s : State)
      → l ≤ length f.file_map
      → Picks (exhaustive R o (moved f l k) ddir s)
        ⊎ (Fails (exhaustive R o (moved f l k) ddir s) × IsFull o f ddir)
  unfolding exhaustive
  exhaustive_lem l k s h = elim (looked_moved o f ddir ok l k h) [
    | inl (b, e, free) ↦ inl (s, b / 64, k, b, rw e, free)
    | inr (e, none_left) ↦ elim (looked_moved o f ddir ok 0 k (omega arith)) [
      | inl (b, e', free) ↦ inl (s, b / 64, k, b, rw (e, e'), free)
      | inr (e', full) ↦ inr ((s, 0, k, omega arith, rw (e, e')), full)
    ]
  ]

  lookup_loop_lem :
      (loops l k r : ℕ) (s : State)
      → l ≤ length f.file_map
      → Picks (lookup_loop R loops o (moved f l k) ddir r s)
        ⊎ Fails (lookup_loop R loops o (moved f l k) ddir r s)
  unfolding lookup_loop
  lookup_loop_lem zero l k r s h = inr (s, l, k, h, refl)
  lookup_loop_lem (suc loops) l k r s h =
      elim (looked_moved o f ddir ok (scale (f.num_maps - 1) r) k start-le) [
        | inl (b, e, free) ↦ inl (s, b / 64, k, b, rw e, free)
        | inr (e, none_left) ↦
            rw e (lookup_loop_lem loops (scale (f.num_maps - 1) r) k (next s).0 (next s).1 start-le)
      ]
    where
      start-le : scale (f.num_maps - 1) r ≤ length f.file_map
      start-le =
          omega
            (arith, ok.num_maps-le, ok.covers.int_index, scale-le (f.num_maps - 1) r (omega arith))

  -- The block that the number `r` picks.
  abbrev drawn : ℕ → ℕ
  drawn r = scale (last_block o f ddir - 1) r

  drawn-le : (r : ℕ) → drawn r < last_block o f ddir
  drawn-le r = omega (arith, ok.some_block, ok.exact, scale-le (last_block o f ddir - 1) r)

  rand_loop-suc :
      (loops r₀ : ℕ) (s : State)
      → rand_loop R (suc loops) o f (last_block o f ddir) r₀ s ≡ (
          if block_bit f.file_map (drawn (next s).0) == 0
          then some ((next s).1, (next s).0, some (drawn (next s).0))
          else rand_loop R loops o f (last_block o f ddir) (next s).0 (next s).1)
  unfolding rand_loop
  rand_loop-suc loops r₀ s = ground (
    arith,
    ok.uses_map,
    ok.has_map,
    ok.no_repeat,
    ok.blocks_in_map,
    ok.covers.int_index,
    drawn-le (next s).0,
    random_map_free_lem f.file_map (drawn (next s).0),
  )

  -- A number of draws gives a clear block, or none.
  rand_loop_lem :
      (loops r₀ : ℕ) (s : State)
      → ((s' : State) × (r b : ℕ) × (rand_loop R loops o f (last_block o f ddir) r₀ s
            ≡ some (s', r, some b))
          × IsFree o f ddir b)
        ⊎ ((s' : State) × (r : ℕ) × (rand_loop R loops o f (last_block o f ddir) r₀ s
              ≡ some (s', r, none)))
  unfolding rand_loop
  rand_loop_lem zero r₀ s = inr (s, r₀, refl)
  rand_loop_lem (suc loops) r₀ s =
      rw (rand_loop-suc loops r₀ s) (elim (ℕ_discrete (block_bit f.file_map (drawn (next s).0)) 0) [
        | yes free ↦ inl (
          (next s).1,
          (next s).0,
          drawn (next s).0,
          rw ((==_iff (block_bit f.file_map (drawn (next s).0)) 0).1 free),
          (free, omega (arith, drawn-le (next s).0)),
        )
        | no busy ↦
            rw ((==_iff_ne (block_bit f.file_map (drawn (next s).0)) 0).1 busy)
              (rand_loop_lem loops (next s).0 (next s).1)
      ])

  -- The code after the draws have failed.
  after_draws :
      (l k r : ℕ) (s : State)
      → l ≤ length f.file_map
      → Picks (do
        (s', g, found) ← lookup_loop R 10 o (moved f l k) ddir r s
        elim found [
          | some b ↦ some (s', g, some b)
          | none ↦ exhaustive R o (record g { last_free_lookup = 0 }) ddir s'
        ])
        ⊎ (Fails (do
          (s', g, found) ← lookup_loop R 10 o (moved f l k) ddir r s
          elim found [
            | some b ↦ some (s', g, some b)
            | none ↦ exhaustive R o (record g { last_free_lookup = 0 }) ddir s'
          ])
            × IsFull o f ddir)
  after_draws l k r s h = elim (lookup_loop_lem 10 l k r s h) [
    | inl (s', l', k', b, e, free) ↦ inl (s', l', k', b, rw e, free)
    | inr (s', l', k', h', e) ↦ rw e (exhaustive_lem 0 k' s' (omega arith))
  ]

  -- In a job without norandommap and randomagain, with a random map that covers the file, at least
  -- one block and at most 2^53 of them, get_next_rand_offset gives a clear block that is at most
  -- the last block, or it fails and every block of the file up to the last one is set. It does not
  -- fault, and of the file only the place of the next search and the count of failures change.
  pub get_next_rand_offset_lem :
      (s : State)
      → Picks (get_next_rand_offset R o f ddir s)
        ⊎ (Fails (get_next_rand_offset R o f ddir s) × IsFull o f ddir)
  unfolding get_next_rand_offset
  get_next_rand_offset_lem s =
      rw ((==_iff_ne (last_block o f ddir) 0).1 (omega (arith, ok.some_block)))
        (elim (Bool-cases (leb 200 f.failed_rands)) [
          | inl many ↦ rw many (exhaustive_lem f.last_free_lookup f.failed_rands s ok.lookup-le)
          | inr few ↦ rw few (elim (rand_loop_lem 5 0 s) [
            | inl (s', r, b, e, free) ↦ inl (s', f.last_free_lookup, 0, b, rw e, free)
            | inr (s', r, e) ↦ rw e (
                after_draws (if f.failed_rands == 0 then 0 else f.last_free_lookup)
                  (u32 (f.failed_rands + 1)) r s' (ground (arith, ok.lookup-le)))
          ])
        ])
