-- ===== src/IoLog/Tests.antt =====
-- Tests of the logs, and their theorems at concrete inputs.
use fio_ssd.Prelude.{
  ap, ℕ, ◌+◌, length, ◌≡◌, refl, arith, List, [], ◌∷◌, Option, true, false, none, some,
}
use fio_ssd.RandMap.{◌>>=◌}
use fio_ssd.FioFile.{File, minus_one}
use fio_ssd.History.{Piece, iohist_hash_find}
use fio_ssd.IoLog.{
  Entry, Tree, leaf, node, in_order, without, RbTree, Logs, LogOptions, Next, ready,
  remove_trim_entry, io_u_should_trim, walk, sort_piece, log_sorted, log_io_piece, take_piece,
  open_piece, get_next_verify, prune_io_piece_log,
}
use fio_ssd.IoLog.Latest.{IsLog, HasNew}
use fio_ssd.IoLog.Taken.{get_next_verify-first}
use fio_ssd.IoLog.Logged.{entry, log_io_piece-HasNew}
use fio_ssd.IoLog.Trim.{pieces, find, opened, get_next_trim}
use fio_ssd.IoLog.Trim.Waits.{IsWaiting, Trims, get_next_trim-Trims}
use fio_ssd.IoLog.Prune.{prune_io_piece_log-dangling}

-- A tree without left branches.
abbrev spine : List Entry → Tree
spine [] = leaf
spine (x ∷ xs) = node leaf x (spine xs)

in_order-spine : (xs : List Entry) → in_order (spine xs) ≡ xs
in_order-spine [] = refl
in_order-spine (x ∷ xs) = ap (λ (ys : List Entry). x ∷ ys) (in_order-spine xs)

abbrev rb : RbTree
rb = record {
  insert_color = λ t. t;
  erase = λ a t. spine (without a (in_order t));
  in_order-insert_color = λ t. refl;
  in_order-erase = λ a t. in_order-spine (without a (in_order t));
}

abbrev piece : ℕ → ℕ → Entry
piece at offset = record {
  at = at;
  file = 1;
  offset = offset;
  len = 512;
  unique_version = 5;
  trimmed = false;
}

abbrev hashed_piece : Piece
hashed_piece = record {
  file = 1;
  block = 7;
  nr_blk = 2;
  unique_version = 4;
  hash_list = some 0;
  hashed = true;
  on_list = true;
}

-- Three pieces of file 1, one of which waits to be trimmed, and a hashed piece at address 90.
abbrev logs : Logs
logs = record {
  map2 = [];
  hist = record {
    heap = λ a. some hashed_piece;
    iohist_hash = λ h. 90 ∷ [];
    io_hist_list = 90 ∷ [];
    io_hist_len = 4;
  };
  io_hist_tree = node (node leaf (piece 10 0) leaf) (piece 11 512) (node leaf (piece 12 2048) leaf);
  io_hist_list = [];
  trim_list = 12 ∷ [];
  trim_entries = 1;
}

abbrev file : File
file = record {
  real_file_size = 65536;
  file_offset = 0;
  io_size = 65536;
  last_pos = 4096;
  last_start = minus_one;
  file_pos = minus_one;
  file_map = 0 ∷ [];
  file_map2 = [];
  num_maps = 1;
  last_free_lookup = 0;
  failed_rands = 0;
}

abbrev options : LogOptions
options = record {
  rw_min_bs = 512;
  min_bs = 512;
  max_bs = 512;
  ddir_seq_nr = 1;
  randomagain = false;
  norandommap = false;
  td_random = true;
  overwrite = true;
  verify_is_none = false;
  verifysort = false;
  verify_inner = true;
}

summary : Logs → Option (List Entry × List ℕ × ℕ)
summary td = some (in_order td.io_hist_tree, td.trim_list, td.hist.io_hist_len)

-- The new piece takes the place of the one at address 12, which is no longer to be trimmed.
replaced :
    (log_io_piece rb (λ k. 0) (λ h. 20) options 1 file false 2048 512 8 logs >>= summary)
    ≡ some (piece 10 0 ∷ piece 11 512 ∷ entry options 20 1 2048 512 8 ∷ [], [], 4)
unfolding log_io_piece log_sorted sort_piece walk remove_trim_entry summary
replaced = refl

in_turn :
    (get_next_verify rb (λ k. 0) options (λ f. file) false (λ f. true) logs
      >>= (λ (r : Logs × Next). some r.1))
    ≡ some (ready (piece 10 0))
unfolding get_next_verify take_piece open_piece remove_trim_entry
in_turn = refl

draws_trim : io_u_should_trim 30 1000 30000 ≡ true
unfolding io_u_should_trim
draws_trim = refl

logs-IsLog : IsLog logs.io_hist_tree
logs-IsLog = record {
  sorted = ((refl, (refl, tt)), ((refl, tt), (tt, tt)));
  distinct = ((omega arith, (omega arith, tt)), ((omega arith, tt), (tt, tt)));
}

log_io_piece-HasNew_example :
    (td' : Logs) × (log_io_piece rb (λ k. 0) (λ h. 20) options 1 file false 2048 512 8 logs
      ≡ some td')
    × HasNew (entry options 20 1 2048 512 8) logs.io_hist_tree td'.io_hist_tree
log_io_piece-HasNew_example =
    log_io_piece-HasNew rb (λ k. 0) (λ h. 20) options 1 file false 2048 512 8 logs refl
      (omega arith) refl refl logs-IsLog (omega arith, (omega arith, (omega arith, tt)))
      (λ x e. ap len_of e)
  where
    len_of : Option Entry → ℕ
    len_of none = 0
    len_of (some x) = x.len

get_next_verify-first_example :
    (td' : Logs) × (get_next_verify rb (λ k. 0) options (λ f. file) false (λ f. true) logs
      ≡ some (td', ready (piece 10 0)))
    × IsLog td'.io_hist_tree
    × (in_order td'.io_hist_tree ≡ piece 11 512 ∷ piece 12 2048 ∷ [])
get_next_verify-first_example =
    get_next_verify-first rb (λ k. 0) options (λ f. file) (λ f. true) (piece 10 0)
      (piece 11 512 ∷ piece 12 2048 ∷ []) logs logs-IsLog refl refl

prune_io_piece_log-dangling_example :
    iohist_hash_find (λ k. 0) (prune_io_piece_log logs).hist (1, 7) ≡ none
prune_io_piece_log-dangling_example =
    prune_io_piece_log-dangling (λ k. 0) logs 90 [] (1, 7) refl refl

logs-IsWaiting : IsWaiting logs
logs-IsWaiting = record {
  counted = refl;
  once = (refl, tt);
  held = (refl, tt);
  distinct = logs-IsLog.distinct;
}

flagged :
    (get_next_trim rb true false (λ f. true) logs
      >>= (λ (r : Logs × Next). find 12 (in_order r.0.io_hist_tree)))
    ≡ some (record (piece 12 2048) { trimmed = true })
unfolding get_next_trim remove_trim_entry
flagged = refl

dropped :
    (get_next_trim rb false false (λ f. true) logs
      >>= (λ (r : Logs × Next). some (length (pieces r.0) + r.0.hist.io_hist_len)))
    ≡ some 5
unfolding get_next_trim remove_trim_entry
dropped = refl

get_next_trim-Trims_example :
    (td' : Logs) × (x : Entry) × (x.at ≡ 12)
    × (get_next_trim rb false false (λ f. true) logs ≡ some (td', opened true x))
    × Trims false x logs td'
    × (td'.trim_list ≡ [])
    × IsWaiting td'
get_next_trim-Trims_example =
    get_next_trim-Trims rb (λ f. true) false 12 [] logs logs-IsWaiting refl (omega arith)
