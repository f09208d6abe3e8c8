-- ===== src/History.antt =====
-- The history of written segments: the hash table of iohist_hash.c, and overlap_divide of
-- seg_2bitsmap.c, the handler that cuts older pieces where a new segment lies over them. An address
-- is a number, and the node of an intrusive list is known by the list that it stands in. `none` is a
-- fault: a failed assert, or the use of a freed piece. The table is the one of td->iohist_hash.
pub mod Table
pub mod Frame
pub mod Off
pub mod Ops
pub mod Entry
pub mod Divide
pub mod Refine
pub mod Cover
pub mod RoundTrip
mod Tests
use fio_ssd.Prelude.{
  update, remove, ℕ, ◌+◌, ◌-◌, ◌%◌, ◌^◌, Option, none, some, List, [], ◌∷◌, ◌++◌, Bool, true, false,
  ◌&&◌, ltb, leb, ◌==◌, if◌then◌else◌,
}
use fio_ssd.RandMap.{◌>>=◌, u64}
use fio_ssd.SegMap.{map2_idx, map2_bit, set_bit, start}

-- struct iohist_key: the file and the block.
abbrev pub Key : Type 0
Key = ℕ × ℕ

-- The memcmp of two keys.
abbrev pub same_key : Key → Key → Bool
same_key (f, b) (g, c) = (f == g) && (b == c)

-- struct io_piece; `hash_list` is the bucket that the node stands in, and `hashed` and `on_list` are
-- IP_F_HASHED and IP_F_ONLIST of its flags.
pub record Piece : Type 0 where
  pub file : ℕ
  pub block : ℕ
  pub nr_blk : ℕ
  pub unique_version : ℕ
  pub hash_list : Option ℕ
  pub hashed : Bool
  pub on_list : Bool

-- The history of a job, and the memory that its pieces stand in.
pub record Hist : Type 0 where
  pub heap : ℕ → Option Piece
  pub iohist_hash : ℕ → List ℕ
  pub io_hist_list : List ℕ
  pub io_hist_len : ℕ

-- set_iohist_key
abbrev pub key_of : Piece → Key
key_of ipo = (ipo.file, ipo.block)

abbrev pub write : Hist → ℕ → Piece → Hist
write td a ipo = record td { heap = update td.heap a (some ipo) }

-- The walk of __iohist_hash_find over a bucket; the inner `none` is NULL.
unfoldable pub find_in : (ℕ → Option Piece) → List ℕ → Key → Option (Option ℕ)
find_in heap [] key = some none
find_in heap (a ∷ bucket) key = do
  ipo ← heap a
  let rest = find_in heap bucket key
  if same_key (key_of ipo) key then some (some a) else rest

-- The new piece for the tail.
abbrev pub tail_of : ℕ → Piece → ℕ → ℕ → Piece
tail_of f ipo block stop = record {
  file = f;
  block = stop;
  nr_blk = u64 (block + ipo.nr_blk - stop);
  unique_version = ipo.unique_version;
  hash_list = none;
  hashed = false;
  on_list = false;
}

-- `jhash` is the hash of the bytes of a key, of the header hash.h.
module _ (jhash : Key → ℕ) where
  -- hash: masked to 20 bits, returned as 16.
  unfoldable pub hash : Key → ℕ
  hash pkey = jhash pkey % 2 ^ 20 % 2 ^ 16

  -- iohist_hash_find
  unfoldable pub iohist_hash_find : Hist → Key → Option (Option ℕ)
  iohist_hash_find td pkey = find_in td.heap (td.iohist_hash (hash pkey)) pkey

  -- The node leaves its bucket, and the flag is cleared.
  abbrev pub unlink : Hist → ℕ → Piece → ℕ → Hist
  unlink td a ipo h = record td {
    heap = update td.heap a (some (record ipo { hash_list = none; hashed = false }));
    iohist_hash = update td.iohist_hash h (remove a (td.iohist_hash h));
  }

  -- iohist_hash_del
  unfoldable pub iohist_hash_del : Hist → ℕ → Option Hist
  iohist_hash_del td a = do
    ipo ← td.heap a
    if ipo.hashed
        then elim ipo.hash_list [ none ↦ none | some h ↦ some (unlink td a ipo h) ]
        else some td

  abbrev pub link : Hist → ℕ → Piece → Hist
  link td a ipo = record td {
    heap =
        update td.heap a
          (some (record ipo { hash_list = some (hash (key_of ipo)); hashed = true }));
    iohist_hash =
        update td.iohist_hash (hash (key_of ipo)) (td.iohist_hash (hash (key_of ipo)) ++ (a ∷ []));
  }

  -- iohist_hash_add; the piece found in its place is NULL if the piece was added.
  unfoldable pub iohist_hash_add : Hist → ℕ → Option (Hist × Option ℕ)
  iohist_hash_add td a = do
    ipo ← td.heap a
    let cleared = record ipo { hash_list = none }
    let td' = write td a cleared
    let added = (do
      found ← iohist_hash_find td' (key_of ipo)
      some (elim found [ none ↦ (link td' a cleared, none) | some b ↦ (td', some b) ]))
    if ipo.hashed then some (td, none) else added

  -- The piece at `a` begins in the new segment and ends behind it: it keeps its tail.
  unfoldable pub keep_tail : List ℕ × Hist → ℕ → Piece → ℕ → ℕ → Option (List ℕ × Hist)
  keep_tail (map2, td) a ipo block stop = do
    let ipo' = record ipo { nr_blk = u64 (block + ipo.nr_blk - stop); block = stop }
    td1 ← iohist_hash_del (write td a ipo') a
    map2' ← set_bit map2 (map2_idx stop) (map2_bit stop) start
    (td2, found) ← iohist_hash_add td1 a
    some (map2', td2)

  -- The new segment covers the piece at `a`: it is freed.
  unfoldable pub drop_piece : List ℕ × Hist → ℕ → Option (List ℕ × Hist)
  drop_piece (map2, td) a = do
    td1 ← iohist_hash_del td a
    ipo ← td1.heap a
    if ipo.on_list
        then some (
          map2,
          record td1 {
            heap = update td1.heap a none;
            io_hist_list = remove a td1.io_hist_list;
            io_hist_len = u64 (td1.io_hist_len + 2 ^ 64 - 1);
          },
        )
        else none

-- `malloc` gives the address of a new piece.
module _ (jhash : Key → ℕ) (malloc : Hist → ℕ) where
  -- The piece reaches over both ends of the new segment: its tail becomes a piece of its own.
  unfoldable pub split_tail : ℕ → List ℕ × Hist → Piece → ℕ → ℕ → Option (List ℕ × Hist)
  split_tail f (map2, td) ipo block stop = do
    let tail = malloc td
    map2' ← set_bit map2 (map2_idx stop) (map2_bit stop) start
    (td1, found) ← iohist_hash_add jhash (write td tail (tail_of f ipo block stop)) tail
    ipo' ← td1.heap tail
    some (
      map2',
      record td1 {
        heap = update td1.heap tail (some (record ipo' { on_list = true }));
        io_hist_list = td1.io_hist_list ++ (tail ∷ []);
        io_hist_len = u64 (td1.io_hist_len + 1);
      },
    )

  -- overlap_divide of the file `f`: the piece at `block` gives up the blocks from `from` on, `len` of
  -- them.
  unfoldable pub overlap_divide : ℕ → ℕ → ℕ → ℕ → List ℕ × Hist → Option (List ℕ × Hist)
  overlap_divide f block from len (map2, td) = do
    found ← iohist_hash_find jhash td (f, block)
    a ← found
    ipo ← td.heap a
    let stop = u64 (from + len)
    let beyond = ltb stop (u64 (block + ipo.nr_blk))
    let cut = (do
      (map2', td') ← (if beyond then split_tail f (map2, td) ipo block stop else some (map2, td))
      ipo' ← td'.heap a
      some (map2', write td' a (record ipo' { nr_blk = from - block })))
    if leb from block
        then (if beyond
            then keep_tail jhash (map2, td) a ipo block stop
            else drop_piece jhash (map2, td) a)
        else cut
