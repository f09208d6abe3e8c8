-- ===== src/IoLog.antt =====
-- The pieces of written io_us that wait for verification: log_io_piece and prune_io_piece_log of
-- iolog.c, get_next_verify of verify.c, remove_trim_entry of trim.h. `none` is a fault: a failed
-- assert, or a fault of the parts that are used.
pub mod Order
pub mod Descent
pub mod Keeps
pub mod Latest
pub mod Taken
pub mod Logged
pub mod Prune
pub mod Trim
mod Tests
use fio_ssd.Prelude.{
  update, remove, ℕ, zero, suc, ◌+◌, ◌-◌, ◌*◌, ◌/◌, ◌^◌, ◌≡◌, Option, none, some, List, [], ◌∷◌,
  ◌++◌, length, Bool, true, false, not, ◌&&◌, ◌||◌, ltb, leb, ◌==◌, if◌then◌else◌,
}
use fio_ssd.RandMap.{u64, ◌>>=◌}
use fio_ssd.FioFile.{File, is_null}
use fio_ssd.SegMap.{insert_seg, remove_seg}
use fio_ssd.History.{Key, Piece, Hist, write, iohist_hash_add, iohist_hash_del, overlap_divide}

-- struct io_piece with an offset and a length, known by its address `at`.
pub record Entry : Type 0 where
  pub at : ℕ
  pub file : ℕ
  pub offset : ℕ
  pub len : ℕ
  pub unique_version : ℕ
  pub trimmed : Bool

-- io_hist_tree: a binary tree through rb_node.
pub data Tree : Type 0 where
  leaf : Tree
  node : Tree → Entry → Tree → Tree

abbrev pub in_order : Tree → List Entry
in_order leaf = []
in_order (node l x r) = in_order l ++ x ∷ in_order r

abbrev pub without : ℕ → List Entry → List Entry
without a [] = []
without a (x ∷ xs) = if a == x.at then without a xs else x ∷ without a xs

-- What the code uses of rbtree.c: both operations change the shape of the tree, and keep the order of
-- its pieces.
pub record RbTree : Type 0 where
  pub insert_color : Tree → Tree
  pub erase : ℕ → Tree → Tree
  pub in_order-insert_color : (t : Tree) → in_order (insert_color t) ≡ in_order t
  pub in_order-erase : (a : ℕ) (t : Tree) → in_order (erase a t) ≡ without a (in_order t)

-- The logs of a job: the map and the history of the hashed pieces, which also has io_hist_len, the
-- tree and the list of the others, and the list of pieces to trim.
pub record Logs : Type 0 where
  pub map2 : List ℕ
  pub hist : Hist
  pub io_hist_tree : Tree
  pub io_hist_list : List Entry
  pub trim_list : List ℕ
  pub trim_entries : ℕ

pub record LogOptions : Type 0 where
  pub rw_min_bs : ℕ
  pub min_bs : ℕ
  pub max_bs : ℕ
  pub ddir_seq_nr : ℕ
  pub randomagain : Bool
  pub norandommap : Bool
  pub td_random : Bool
  pub overwrite : Bool
  pub verify_is_none : Bool
  pub verifysort : Bool
  pub verify_inner : Bool

abbrev pub mem : ℕ → List ℕ → Bool
mem a [] = false
mem a (x ∷ xs) = a == x || mem a xs

abbrev pub longer : Hist → Hist
longer h = record h { io_hist_len = u64 (h.io_hist_len + 1) }

abbrev pub shorter : Hist → Hist
shorter h = record h { io_hist_len = u64 (h.io_hist_len + 2 ^ 64 - 1) }

-- remove_trim_entry
unfoldable pub remove_trim_entry : ℕ → Logs → Logs
remove_trim_entry a td =
    if mem a td.trim_list
    then record td {
      trim_list = remove a td.trim_list;
      trim_entries = u64 (td.trim_entries + 2 ^ 64 - 1);
    }
    else td

-- io_u_should_trim for the draw `r`; `val` is the 100th part of the largest draw.
unfoldable pub io_u_should_trim : ℕ → ℕ → ℕ → Bool
io_u_should_trim trim_percentage val r =
    not (trim_percentage == 0) && leb r (u64 (val * trim_percentage))

-- The end of the walk through the tree: a piece of the same place, or the tree with the new node.
pub data Walk : Type 0 where
  found : Entry → Walk
  linked : Tree → Walk

abbrev pub on_left : Entry → Tree → Walk → Walk
on_left x r (found e) = found e
on_left x r (linked l) = linked (node l x r)

abbrev pub on_right : Tree → Entry → Walk → Walk
on_right l x (found e) = found e
on_right l x (linked r) = linked (node l x r)

-- The inner loop of log_io_piece, and rb_link_node.
unfoldable pub walk : Entry → Tree → Walk
walk ipo leaf = linked (node leaf ipo leaf)
walk ipo (node l x r) =
    let left = on_left x r (walk ipo l) in
    let right = on_right l x (walk ipo r) in
    if ltb ipo.file x.file
    then left
    else if ltb x.file ipo.file
    then right
    else if ltb ipo.offset x.offset
    then left
    else if ltb x.offset ipo.offset
    then right
    else found x

-- What get_next_verify gives the io_u: its return value is 0 for `requeued` and `ready`.
pub data Next : Type 0 where
  requeued : Next
  no_piece : Next
  not_opened : Entry → Next
  ready : Entry → Next

-- The end of get_next_verify.
unfoldable pub open_piece : Bool → Entry → Logs → Logs × Next
open_piece false x td = (td, not_opened x)
open_piece true x td =
    let td' = remove_trim_entry x.at td in
    (record td' { hist = record td'.hist { heap = update td'.hist.heap x.at none } }, ready x)

module _ (R : RbTree) where
  -- An older piece of the same place is dropped.
  abbrev pub replace : Entry → Logs → Logs
  replace x td =
      remove_trim_entry x.at
        (record td { hist = shorter td.hist; io_hist_tree = R.erase x.at td.io_hist_tree })

  -- log_io_piece from `restart` on.
  unfoldable pub sort_piece : ℕ → Entry → Logs → Option Logs
  sort_piece zero ipo td = none
  sort_piece (suc fuel) ipo td = elim (walk ipo td.io_hist_tree) [
    | linked t ↦ some (record td { io_hist_tree = R.insert_color t; hist = longer td.hist })
    | found x ↦ if ipo.len == x.len then sort_piece fuel ipo (replace x td) else none
  ]

  -- log_io_piece of a piece with offset and length, behind the branch for variable sizes.
  unfoldable pub log_sorted : LogOptions → File → Bool → Entry → Logs → Option Logs
  log_sorted o f should_trim ipo td =
      let randommap = not o.norandommap && not (is_null f.file_map) in
      let td1 : Logs =
        if should_trim
        then record td {
          trim_list = td.trim_list ++ (ipo.at ∷ []);
          trim_entries = u64 (td.trim_entries + 1);
        }
        else td in
      let listed : Logs = record td1 {
        io_hist_list = td1.io_hist_list ++ (ipo ∷ []);
        hist = longer td1.hist;
      } in
      let sorted = sort_piece (suc (length (in_order td1.io_hist_tree))) ipo td1 in
      if (not o.td_random || not o.overwrite)
        && (randommap || o.verify_is_none)
        && (not o.randomagain || o.verify_is_none)
        && ltb o.ddir_seq_nr 2
        && not o.verifysort
      then some listed
      else sorted

module _ (R : RbTree) (jhash : Key → ℕ) (malloc : Hist → ℕ) where
  -- The branch of log_io_piece for variable sizes.
  unfoldable pub log_hashed : LogOptions → ℕ → File → ℕ → ℕ → ℕ → ℕ → Logs → Option Logs
  log_hashed o id f at offset buflen version td = do
    let block = u64 (offset + 2 ^ 64 - f.file_offset) / o.rw_min_bs
    let nr_blk = u64 (buflen + o.rw_min_bs + 2 ^ 64 - 1) / o.rw_min_bs
    let ipo : Piece = record {
      file = id;
      block = block;
      nr_blk = nr_blk;
      unique_version = version;
      hash_list = none;
      hashed = false;
      on_list = false;
    }
    (map2, h) ←
        insert_seg (overlap_divide jhash malloc id) block nr_blk (td.map2, write td.hist at ipo)
    (h', other) ← iohist_hash_add jhash h at
    ipo' ← h'.heap at
    some (record td {
      map2 = map2;
      hist = longer (record h' {
        heap = update h'.heap at (some (record ipo' { on_list = true }));
        io_hist_list = h'.io_hist_list ++ (at ∷ []);
      });
    })

  -- log_io_piece of an io_u at `offset` of the file `id`; `should_trim` is io_u_should_trim.
  unfoldable pub log_io_piece : LogOptions → ℕ → File → Bool → ℕ → ℕ → ℕ → Logs → Option Logs
  log_io_piece o id f should_trim offset buflen unique_version td =
      let at = malloc td.hist in
      let version = if o.verify_inner then unique_version else 0 in
      let randommap = not o.norandommap && not (is_null f.file_map) in
      if ((o.randomagain || not randommap) && not (o.min_bs == o.max_bs)) || ltb 1 o.ddir_seq_nr
      then log_hashed o id f at offset buflen version td
      else log_sorted R o f should_trim
          (record {
            at = at;
            file = id;
            offset = offset;
            len = buflen;
            unique_version = version;
            trimmed = false;
          })
          td

module _ (R : RbTree) (jhash : Key → ℕ) where
  abbrev entry_of : ℕ → Piece → ℕ → ℕ → Entry
  entry_of a ipo offset len = record {
    at = a;
    file = ipo.file;
    offset = offset;
    len = len;
    unique_version = ipo.unique_version;
    trimmed = false;
  }

  -- The piece that get_next_verify takes off the logs, if there is one.
  unfoldable pub take_piece : LogOptions → (ℕ → File) → Logs → Option (Logs × Option Entry)
  take_piece o files td =
      let hashed = (λ (a : ℕ). do
        ipo ← td.hist.heap a
        let off_list : Hist = shorter (record td.hist {
          heap = update td.hist.heap a (some (record ipo { on_list = false }));
          io_hist_list = remove a td.hist.io_hist_list;
        })
        let unhashed = (do
          map2 ← remove_seg td.map2 (files ipo.file).num_maps ipo.block
          h ← iohist_hash_del jhash off_list a
          some (
            record td { map2 = map2; hist = h },
            some (
                entry_of a ipo (u64 (ipo.block * o.rw_min_bs + (files ipo.file).file_offset))
                  (u64 (ipo.nr_blk * o.rw_min_bs))),
          ))
        if ipo.hashed
            then unhashed
            else some
                (record td { hist = off_list }, some (entry_of a ipo ipo.block ipo.nr_blk))) in
      elim (in_order td.io_hist_tree) [
        | x ∷ xs ↦ some (
          record td { io_hist_tree = R.erase x.at td.io_hist_tree; hist = shorter td.hist },
          some x,
        )
        | [] ↦ elim td.io_hist_list [
          | x ∷ xs ↦ some (record td { io_hist_list = xs; hist = shorter td.hist }, some x)
          | [] ↦ elim td.hist.io_hist_list [ a ∷ rest ↦ hashed a | [] ↦ some (td, none) ]
        ]
      ]

  -- get_next_verify. `has_file` is that the io_u has its file from a requeue; `can_open` that a file
  -- is open or td_io_open_file opens it. A piece whose file does not open is not freed.
  unfoldable pub get_next_verify :
      LogOptions → (ℕ → File) → Bool → (ℕ → Bool) → Logs → Option (Logs × Next)
  get_next_verify o files has_file can_open td =
      let taken = (do
        (td', piece) ← take_piece o files td
        some (elim piece [
          | none ↦ (td', no_piece)
          | some x ↦ open_piece (can_open x.file) x td'
        ])) in
      if has_file then some (td, requeued) else taken

-- The rest of prune_io_piece_log: the nodes of both lists.
unfoldable pub free_all : List ℕ → Hist → Hist
free_all [] h = h
free_all (a ∷ rest) h =
    free_all rest
      (shorter (record h { heap = update h.heap a none; io_hist_list = remove a h.io_hist_list }))

unfoldable pub prune_entries : List Entry → Logs → Logs
prune_entries [] td = td
prune_entries (x ∷ xs) td =
    prune_entries xs (remove_trim_entry x.at (record td { hist = shorter td.hist }))

-- prune_io_piece_log
unfoldable pub prune_io_piece_log : Logs → Logs
prune_io_piece_log td =
    let td1 = prune_entries (in_order td.io_hist_tree) (record td { io_hist_tree = leaf }) in
    let td2 = prune_entries td1.io_hist_list (record td1 { io_hist_list = [] }) in
    record td2 { hist = free_all td2.hist.io_hist_list td2.hist }
