-- ===== src/IoLog/Prune.antt =====
-- prune_io_piece_log frees the hashed pieces and leaves them in the hash table.
use fio_ssd.Prelude.{
  update, remove, arith, refl, ap, ◌∙◌, ℕ, ◌≡◌, inl, inr, Option, none, List, [], ◌∷◌, true, ◌==◌,
  Bool-cases,
}
use fio_ssd.History.{Key, Piece, Hist, hash, find_in, iohist_hash_find}
use fio_ssd.IoLog.{
  Entry, leaf, in_order, Logs, mem, shorter, remove_trim_entry, free_all, prune_entries,
  prune_io_piece_log,
}

free_all-iohist_hash : (freed : List ℕ) (h : Hist) → (free_all freed h).iohist_hash ≡ h.iohist_hash
unfolding free_all
free_all-iohist_hash [] h = refl
free_all-iohist_hash (a ∷ rest) h = free_all-iohist_hash rest _

stays_freed :
    (freed : List ℕ) (h : Hist) (a : ℕ) → h.heap a ≡ none → (free_all freed h).heap a ≡ none
unfolding free_all
stays_freed [] h a e = e
stays_freed (b ∷ rest) h a e =
    stays_freed rest
      (shorter (record h { heap = update h.heap b none; io_hist_list = remove b h.io_hist_list })) a
      (ground (arith, e))

free_all-frees :
    (freed : List ℕ) (h : Hist) (a : ℕ) → mem a freed ≡ true → (free_all freed h).heap a ≡ none
unfolding free_all
free_all-frees [] h a e = absurd (cc e)
free_all-frees (b ∷ rest) h a e =
    let h' : Hist =
      shorter (record h { heap = update h.heap b none; io_hist_list = remove b h.io_hist_list }) in
    elim (Bool-cases (a == b)) [
      | inl same ↦ stays_freed rest h' a (ground (arith, same))
      | inr other ↦ free_all-frees rest h' a (rw other at e)
    ]

trim_keeps : (a : ℕ) (td : Logs) → (remove_trim_entry a td).hist ≡ td.hist
unfolding remove_trim_entry
trim_keeps a td = ground arith

-- Apart from its length, a history stays as it is while the tree and the list are freed.
record SameHist (h h' : Hist) : Type 0 where
  heap : h'.heap ≡ h.heap
  table : h'.iohist_hash ≡ h.iohist_hash
  listed : h'.io_hist_list ≡ h.io_hist_list

prune_entries-SameHist : (xs : List Entry) (td : Logs) → SameHist td.hist (prune_entries xs td).hist
unfolding prune_entries
prune_entries-SameHist [] td = record { heap = refl; table = refl; listed = refl }
prune_entries-SameHist (x ∷ xs) td =
    let td1 : Logs = record td { hist = shorter td.hist } in
    let same = trim_keeps x.at td1 in
    let rest = prune_entries-SameHist xs (remove_trim_entry x.at td1) in
    record {
      heap = rest.heap ∙ ap (λ (h : Hist). h.heap) same;
      table = rest.table ∙ ap (λ (h : Hist). h.iohist_hash) same;
      listed = rest.listed ∙ ap (λ (h : Hist). h.io_hist_list) same;
    }

find_in-freed :
    (heap : ℕ → Option Piece) (a : ℕ) (bucket : List ℕ) (key : Key)
    → heap a ≡ none
    → find_in heap (a ∷ bucket) key ≡ none
unfolding find_in
find_in-freed heap a bucket key e = rw e

-- Behind prune_io_piece_log, a look for a key whose bucket begins with a piece that stood in
-- io_hist_list reads a freed piece, whatever the key of that piece.
pub prune_io_piece_log-dangling :
    (jhash : Key → ℕ) (td : Logs) (a : ℕ) (bucket : List ℕ) (key : Key)
    → mem a td.hist.io_hist_list ≡ true
    → td.hist.iohist_hash (hash jhash key) ≡ a ∷ bucket
    → iohist_hash_find jhash (prune_io_piece_log td).hist key ≡ none
unfolding prune_io_piece_log iohist_hash_find
prune_io_piece_log-dangling jhash td a bucket key listed chained =
    let td1 = prune_entries (in_order td.io_hist_tree) (record td { io_hist_tree = leaf }) in
    let td2 = prune_entries td1.io_hist_list (record td1 { io_hist_list = [] }) in
    let same1 =
      prune_entries-SameHist (in_order td.io_hist_tree) (record td { io_hist_tree = leaf }) in
    let same2 = prune_entries-SameHist td1.io_hist_list (record td1 { io_hist_list = [] }) in
    let table : (free_all td2.hist.io_hist_list td2.hist).iohist_hash (hash jhash key)
        ≡ a ∷ bucket =
      ap (λ (t : ℕ → List ℕ). t (hash jhash key))
        (free_all-iohist_hash td2.hist.io_hist_list td2.hist ∙ same2.table ∙ same1.table)
      ∙ chained in
    let freed : (free_all td2.hist.io_hist_list td2.hist).heap a ≡ none =
      free_all-frees td2.hist.io_hist_list td2.hist a
        (ap (mem a) (same2.listed ∙ same1.listed) ∙ listed) in
    ap (λ (b : List ℕ). find_in (free_all td2.hist.io_hist_list td2.hist).heap b key) table
    ∙ find_in-freed (free_all td2.hist.io_hist_list td2.hist).heap a bucket key freed
