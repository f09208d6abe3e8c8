-- ===== src/History/Refine.antt =====
-- overlap_divide does to the history what it does to a map from keys to pieces.
use mathlib.Core.Path.{subst}
use fio_ssd.Prelude.{
  arith, refl, sym, ℕ, ◌+◌, ◌-◌, ◌<◌, ◌≤◌, ◌≡◌, Option, none, some, List, ltb, lt→ltb, le→leb,
  le→ltb_false, lt→leb_false, dec_lt, dec_le, if◌then◌else◌,
}
use fio_ssd.RandMap.{u64}
use fio_ssd.SegMap.{map2_idx, map2_bit, set_bit, start}
use fio_ssd.History.{Key, Piece, Hist, key_of, write, iohist_hash_find, overlap_divide}
use fio_ssd.History.Table.{In}
use fio_ssd.History.Frame.{Content, content_of, put, bucket_of, IsHistory}
use fio_ssd.History.Ops.{find_some}
use fio_ssd.History.Entry.{IsHistory-eq, touch}
use fio_ssd.History.Divide.{
  divided, IsOverlap, keep_tail_lem, drop_piece_lem, split, split-IsHistory, split_tail_lem,
  split_live, split_inside, with_tail_map,
}

module _ (jhash : Key → ℕ) (malloc : Hist → ℕ) {td : Hist} {m : Key → Option Content}
    (is : IsHistory jhash td m) (from len : ℕ) (map2 map2' : List ℕ)
    (marked : set_bit map2 (map2_idx (from + len)) (map2_bit (from + len)) start ≡ some map2')
    (free : td.heap (malloc td) ≡ none) where
  -- What overlap_divide gives of a piece of the map.
  abbrev Divides : Key → Content → Type 0
  Divides (f, block) c =
      (td' : Hist) × (overlap_divide jhash malloc f block from len (map2, td)
        ≡ some (if ltb (from + len) (block + c.nr_blk) then map2' else map2, td'))
      × IsHistory jhash td' (divided f block from len c m)

  abbrev Overlaps : Key → Content → Type 0
  Overlaps (f, block) c = IsOverlap m f block from len c

  module _ (a : ℕ) (p : Piece) (inside : In a (bucket_of jhash td (key_of p)))
      (live : td.heap a ≡ some p) (over : IsOverlap m p.file p.block from len (content_of p))
      (found : iohist_hash_find jhash td (key_of p) ≡ some (some a)) where
    stop_u64 : u64 (from + len) ≡ from + len
    stop_u64 = omega (arith, over.small)

    end_u64 : u64 (p.block + p.nr_blk) ≡ p.block + p.nr_blk
    end_u64 = omega (arith, over.small)

    -- The piece as it keeps its head.
    abbrev head_piece : Piece
    head_piece = record p { nr_blk = from - p.block }

    keeps_head :
        p.block < from → p.block + p.nr_blk ≤ from + len → Divides (key_of p) (content_of p)
    unfolding overlap_divide
    keeps_head above low = (
      write td a head_piece,
      rw
          (
            found,
            live,
            stop_u64,
            end_u64,
            lt→leb_false from p.block above,
            le→ltb_false (from + len) (p.block + p.nr_blk) low,
            live,
          )
          refl,
      IsHistory-eq jhash (put m (key_of p) (some (content_of head_piece)))
          (divided p.file p.block from len (content_of p) m)
          (λ (g, b).
            rw (lt→leb_false from p.block above, le→ltb_false (from + len) (p.block + p.nr_blk) low)
              refl)
          (touch jhash is a p inside live head_piece refl refl refl),
    )

    keeps_both :
        p.block < from → from + len < p.block + p.nr_blk → Divides (key_of p) (content_of p)
    unfolding overlap_divide
    keeps_both above high = (
      write cut a head_piece,
      rw
          (
            found,
            live,
            stop_u64,
            end_u64,
            lt→leb_false from p.block above,
            lt→ltb (from + len) (p.block + p.nr_blk) high,
            split_tail_lem jhash is from len a p inside live over map2 (malloc td) map2' free marked
                high malloc refl,
            split_live jhash is from len a p inside live over map2 (malloc td) map2' free marked
                high,
          )
          refl,
      IsHistory-eq jhash
          (put
            (with_tail_map jhash is from len a p inside live over map2 (malloc td) map2' free marked
              high)
            (key_of p) (some (content_of head_piece)))
          (divided p.file p.block from len (content_of p) m)
          (λ (g, b).
            rw (lt→leb_false from p.block above, lt→ltb (from + len) (p.block + p.nr_blk) high)
              refl)
          (touch jhash
            (split-IsHistory jhash is from len a p inside live over map2 (malloc td) map2' free
              marked high)
            a p
            (split_inside jhash is from len a p inside live over map2 (malloc td) map2' free marked
              high)
            (split_live jhash is from len a p inside live over map2 (malloc td) map2' free marked
              high)
            head_piece refl refl refl),
    )
      where
        cut : Hist
        cut = split jhash is from len a p inside live over map2 (malloc td) map2' free marked high

    Divides-at : Divides (key_of p) (content_of p)
    unfolding overlap_divide
    Divides-at = elim (dec_le from p.block) [
      | yes low ↦ elim (dec_lt (from + len) (p.block + p.nr_blk)) [
        | yes high ↦
            let (td', e, is') =
              keep_tail_lem jhash is from len a p inside live over map2 map2' marked low high in
            (
              td',
              rw
                  (
                    found,
                    live,
                    stop_u64,
                    end_u64,
                    le→leb from p.block low,
                    lt→ltb (from + len) (p.block + p.nr_blk) high,
                  )
                  e,
              is',
            )
        | no over_end ↦
            let (td', e, is') =
              drop_piece_lem jhash is from len a p inside live over map2 low (omega arith) in
            (
              td',
              rw
                  (
                    found,
                    live,
                    stop_u64,
                    end_u64,
                    le→leb from p.block low,
                    le→ltb_false (from + len) (p.block + p.nr_blk) (omega arith),
                  )
                  e,
              is',
            )
      ]
      | no above ↦ elim (dec_lt (from + len) (p.block + p.nr_blk)) [
        | yes high ↦ keeps_both (omega arith) high
        | no over_end ↦ keeps_head (omega arith) (omega arith)
      ]
    ]

  pub overlap_divide-Divides :
      (f block : ℕ) (c : Content) → IsOverlap m f block from len c → Divides (f, block) c
  overlap_divide-Divides f block c over =
      let (a, p, found, inside, live, at, same) = find_some jhash is (f, block) c over.present in
      subst (λ k. Divides k c) at
        (subst (Divides (key_of p)) same (
          Divides-at a p (subst (λ k. In a (bucket_of jhash td k)) (sym at) inside) live
            (subst (λ k. Overlaps k (content_of p)) (sym at)
              (subst (Overlaps (f, block)) (sym same) over))
            (subst (λ k. iohist_hash_find jhash td k ≡ some (some a)) (sym at) found)))
