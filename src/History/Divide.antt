-- ===== src/History/Divide.antt =====
-- overlap_divide on the map of the history.
use fio_ssd.Prelude.{
  update_self, update_other, update, remove, arith, refl, ap, ◌∙◌, ℕ, ◌+◌, ◌-◌, ◌^◌, ◌<◌, ◌≤◌, ◌≡◌,
  ◌≢◌, Option, none, some, List, [], ◌∷◌, ◌++◌, true, false, ltb, leb, lt→ltb, le→leb, le→ltb_false,
  if◌then◌else◌,
}
use fio_ssd.RandMap.{u64}
use fio_ssd.SegMap.{map2_idx, map2_bit, set_bit, start}
use fio_ssd.History.{
  Key, same_key, Piece, Hist, key_of, write, hash, iohist_hash_del, unlink, iohist_hash_del,
  keep_tail, drop_piece, split_tail, tail_of,
}
use fio_ssd.History.Table.{In}
use fio_ssd.History.Frame.{Content, content_of, put, bucket_of, IsHistory, Out}
use fio_ssd.History.Off.{IsHistory-idle, IsHistory-leave}
use fio_ssd.History.Ops.{
  add_lem, added, added-IsHistory, agree_write, agree_unlink, agree_link, In-added, linked_piece,
}
use fio_ssd.History.Entry.{
  IsHistory-eq, left, left-IsHistory, Out-left, del_lem, touch, relist, IsNode-at,
}

-- The map after the piece `c` at `block` gave up the blocks from `from` on, `len` of them: what is
-- behind them becomes a piece of its own, what is before them stays.
abbrev pub divided : ℕ → ℕ → ℕ → ℕ → Content → (Key → Option Content) → (Key → Option Content)
divided f block from len c m =
    let tail = some (record c { nr_blk = block + c.nr_blk - (from + len) }) in
    put (if ltb (from + len) (block + c.nr_blk) then put m (f, from + len) tail else m) (f, block)
      (if leb from block then none else some (record c { nr_blk = from - block }))

-- The piece and the new segment overlap, and no other piece begins inside the piece.
pub record IsOverlap (m : Key → Option Content) (f block from len : ℕ) (c : Content) : Type 0 where
  pub present : m (f, block) ≡ some c
  pub listed : c.on_list ≡ true
  pub behind : block < from + len
  pub before : from < block + c.nr_blk
  pub small : (from + len < 2 ^ 64) × (block + c.nr_blk < 2 ^ 64)
  pub alone : (b : ℕ) → block < b → b < block + c.nr_blk → m (f, b) ≡ none

-- Keys that differ in the block.
pub other_block : (f b c : ℕ) → b ≢ c → same_key (f, b) (f, c) ≡ false
other_block f b c ne = ground arith

module _ (jhash : Key → ℕ) {td : Hist} {m : Key → Option Content} (is : IsHistory jhash td m)
    (from len a : ℕ) (p : Piece) (inside : In a (bucket_of jhash td (key_of p)))
    (live : td.heap a ≡ some p) (over : IsOverlap m p.file p.block from len (content_of p))
    (map2 : List ℕ) where
  -- The number of blocks behind the new segment.
  behind_blk : ℕ
  behind_blk = p.block + p.nr_blk - (from + len)

  behind_u64 : u64 (p.block + p.nr_blk - (from + len)) ≡ p.block + p.nr_blk - (from + len)
  behind_u64 = omega (arith, over.small)

  -- The piece as it keeps its tail.
  abbrev tail_piece : Piece
  tail_piece = record p { nr_blk = u64 (p.block + p.nr_blk - (from + len)); block = from + len }

  abbrev unlinked : Piece
  unlinked = record tail_piece { hash_list = none; hashed = false }

  abbrev gone : Hist
  gone = left jhash is a p inside live tail_piece

  tail_new : from + len < p.block + p.nr_blk → put m (key_of p) none (key_of unlinked) ≡ none
  tail_new high =
      rw (other_block p.file p.block (from + len) (omega (arith, over.behind)))
        (over.alone (from + len) over.behind high)

  pub keep_tail_lem :
      (map2' : List ℕ)
      → set_bit map2 (map2_idx (from + len)) (map2_bit (from + len)) start ≡ some map2'
      → from ≤ p.block
      → from + len < p.block + p.nr_blk
      → (td' : Hist) × (keep_tail jhash (map2, td) a p p.block (from + len) ≡ some (map2', td'))
        × IsHistory jhash td' (divided p.file p.block from len (content_of p) m)
  unfolding keep_tail
  keep_tail_lem map2' marked low high = (
    added jhash gone a unlinked,
    simp (
      del_lem jhash is a p inside live tail_piece refl refl,
      marked,
      add_lem jhash (left-IsHistory jhash is a p inside live tail_piece) a unlinked
          (Out-left jhash is a p inside live tail_piece)
          (update_self (write td a tail_piece).heap a (some unlinked)) refl (tail_new high),
    ),
    IsHistory-eq jhash (put (put m (key_of p) none) (key_of unlinked) (some (content_of unlinked)))
        (divided p.file p.block from len (content_of p) m) same
        (added-IsHistory jhash (left-IsHistory jhash is a p inside live tail_piece) a unlinked
          (Out-left jhash is a p inside live tail_piece) (tail_new high)),
  )
    where
      same :
          (k : Key)
          → put (put m (key_of p) none) (key_of unlinked) (some (content_of unlinked)) k
            ≡ divided p.file p.block from len (content_of p) m k
      same (g, b) =
          rw (behind_u64, lt→ltb (from + len) (p.block + p.nr_blk) high, le→leb from p.block low)
            (ground (arith, over.behind))

  -- The piece leaves its bucket as it is.
  abbrev freed : Hist
  freed = unlink jhash td a p (hash jhash (key_of p))

  unlink_lem : iohist_hash_del jhash td a ≡ some freed
  unfolding iohist_hash_del
  unlink_lem = simp (
    live,
    (IsNode-at jhash is a p inside live).hashed,
    (IsNode-at jhash is a p inside live).linked,
  )

  abbrev dropped : Hist
  dropped = record freed {
    heap = update freed.heap a none;
    io_hist_list = remove a freed.io_hist_list;
    io_hist_len = u64 (freed.io_hist_len + 2 ^ 64 - 1);
  }

  pub drop_piece_lem :
      from ≤ p.block
      → p.block + p.nr_blk ≤ from + len
      → (td' : Hist) × (drop_piece jhash (map2, td) a ≡ some (map2, td'))
        × IsHistory jhash td' (divided p.file p.block from len (content_of p) m)
  unfolding drop_piece
  drop_piece_lem low high = (
    dropped,
    rw
        (
          unlink_lem,
          update_self td.heap a (some (record p { hash_list = none; hashed = false })),
          over.listed,
        )
        refl,
    IsHistory-eq jhash (put m (key_of p) none) (divided p.file p.block from len (content_of p) m)
        same
        (IsHistory-idle jhash {td' = dropped}
          (record {
            buckets = λ h b ne. ((λ i. i), (λ i. i));
            heaps = λ b ne. update_other freed.heap a b none ne;
          })
          (put m (key_of p) none)
          (IsHistory-leave jhash (agree_unlink jhash td a p (hash jhash (key_of p))) m p is inside
            live out)
          out out),
  )
    where
      out : Out jhash freed a
      out = Out-left jhash is a p inside live p

      same :
          (k : Key) → put m (key_of p) none k ≡ divided p.file p.block from len (content_of p) m k
      same (g, b) =
          rw (le→ltb_false (from + len) (p.block + p.nr_blk) high, le→leb from p.block low) refl

  module _ (tail : ℕ) (map2' : List ℕ) (free : td.heap tail ≡ none)
      (marked : set_bit map2 (map2_idx (from + len)) (map2_bit (from + len)) start ≡ some map2')
      (high : from + len < p.block + p.nr_blk) where
    abbrev tl : Piece
    tl = tail_of p.file p p.block (from + len)

    Out-tail : Out jhash td tail
    Out-tail h i = let (q, n) = is.nodes h tail i in absurd (cc (n.live, free))

    with_tail : IsHistory jhash (write td tail tl) m
    with_tail = IsHistory-idle jhash (agree_write jhash td tail tl) m is Out-tail Out-tail

    -- The tail is in its bucket.
    abbrev linked_tail : Hist
    linked_tail = added jhash (write td tail tl) tail tl

    abbrev listed_tail : Piece
    listed_tail = record (linked_piece jhash tl) { on_list = true }

    tail_free : m (key_of tl) ≡ none
    tail_free = over.alone (from + len) over.behind high

    abbrev pub split : Hist
    split = record linked_tail {
      heap = update linked_tail.heap tail (some listed_tail);
      io_hist_list = linked_tail.io_hist_list ++ (tail ∷ []);
      io_hist_len = u64 (linked_tail.io_hist_len + 1);
    }

    abbrev pub with_tail_map : Key → Option Content
    with_tail_map =
        put m (p.file, from + len)
          (some (record {
            nr_blk = p.block + p.nr_blk - (from + len);
            unique_version = p.unique_version;
            on_list = p.on_list;
          }))

    pub split-IsHistory : IsHistory jhash split with_tail_map
    split-IsHistory =
        IsHistory-eq jhash
          (put (put m (key_of tl) (some (content_of tl))) (key_of listed_tail)
            (some (content_of listed_tail)))
          with_tail_map same
          (relist jhash _ _ (
            touch jhash (added-IsHistory jhash with_tail tail tl Out-tail tail_free) tail
              (linked_piece jhash tl) (In-added jhash with_tail tail tl Out-tail)
              (update_self (write (write td tail tl) tail (record tl { hash_list = none })).heap
                tail (some (linked_piece jhash tl)))
              listed_tail refl refl refl))
      where
        same :
            (k : Key)
            → put
                (put m (key_of tl) (some (content_of tl)))
                (key_of listed_tail)
                (some (content_of listed_tail))
                k
              ≡ with_tail_map k
        same (g, b) = rw (behind_u64, over.listed) (ground arith)

    pub split_tail_lem :
        (malloc : Hist → ℕ)
        → malloc td ≡ tail
        → split_tail jhash malloc p.file (map2, td) p p.block (from + len) ≡ some (map2', split)
    unfolding split_tail
    split_tail_lem malloc e =
        rw
          (
            e,
            marked,
            add_lem jhash with_tail tail tl Out-tail (update_self td.heap tail (some tl)) refl
                tail_free,
            update_self (write (write td tail tl) tail (record tl { hash_list = none })).heap tail
                (some (linked_piece jhash tl)),
          )
          refl

    ne : a ≢ tail
    ne e = absurd (cc (live, free, ap td.heap e))

    pub split_live : split.heap a ≡ some p
    split_live =
        update_other linked_tail.heap tail a (some listed_tail) ne
        ∙ update_other (write (write td tail tl) tail (record tl { hash_list = none })).heap tail a
            (some (linked_piece jhash tl)) ne
        ∙ update_other (write td tail tl).heap tail a (some (record tl { hash_list = none })) ne
        ∙ update_other td.heap tail a (some tl) ne
        ∙ live

    pub split_inside : In a (bucket_of jhash split (key_of p))
    split_inside =
        ((agree_link jhash (write (write td tail tl) tail (record tl { hash_list = none })) tail
              (record tl { hash_list = none })).buckets
            (hash jhash (key_of p)) a ne).0
          inside
