-- ===== src/IoLog/Trim.antt =====
-- get_next_trim of trim.c.
pub mod Pieces
pub mod Waits
use fio_ssd.Prelude.{
  arith, refl, sym, ap, ◌∙◌, remove, ℕ, ◌+◌, ◌-◌, ◌^◌, ◌<◌, ◌≡◌, inl, inr, Option, none, some, List,
  [], ◌∷◌, ◌++◌, length, Bool, true, false, ◌||◌, ◌==◌, if◌then◌else◌, Bool-cases, ==_iff,
  ==_iff_ne, ◌≢◌,
}
use mathlib.Core.Path.{subst}
use fio_ssd.RandMap.{u64, ◌>>=◌}
use fio_ssd.IoLog.Order.{IsFresh, IsDistinct}
use fio_ssd.IoLog.Keeps.{IsDistinct-without}
use fio_ssd.IoLog.{
  Entry, Tree, leaf, node, in_order, without, RbTree, Logs, mem, shorter, remove_trim_entry, Next,
  requeued, no_piece, not_opened, ready,
}

abbrev pub pieces : Logs → List Entry
pieces td = td.io_hist_list ++ in_order td.io_hist_tree

abbrev pub find : ℕ → List Entry → Option Entry
find a [] = none
find a (x ∷ xs) = if a == x.at then some x else find a xs

abbrev pub has : ℕ → List Entry → Bool
has a [] = false
has a (x ∷ xs) = (a == x.at) || has a xs

-- The flag IP_F_TRIMMED of a piece.
abbrev pub flag : ℕ → Entry → Entry
flag a x = record x { trimmed = (a == x.at) || x.trimmed }

abbrev pub mark : ℕ → List Entry → List Entry
mark a [] = []
mark a (x ∷ xs) = flag a x ∷ mark a xs

abbrev pub mark_tree : ℕ → Tree → Tree
mark_tree a leaf = leaf
mark_tree a (node l x r) = node (mark_tree a l) (flag a x) (mark_tree a r)

abbrev pub mark_trimmed : ℕ → Logs → Logs
mark_trimmed a td = record td {
  io_hist_list = mark a td.io_hist_list;
  io_hist_tree = mark_tree a td.io_hist_tree;
}

abbrev pub opened : Bool → Entry → Next
opened can_open x = if can_open then ready x else not_opened x

module _ (R : RbTree) where
  -- A piece that need not read as zeroes: it leaves the list or the tree, whichever it stands in.
  abbrev pub forget_piece : ℕ → Logs → Logs
  forget_piece a td =
      if has a td.io_hist_list
      then record td { io_hist_list = without a td.io_hist_list; hist = shorter td.hist }
      else record td { io_hist_tree = R.erase a td.io_hist_tree; hist = shorter td.hist }

  abbrev pub settle : Bool → ℕ → Logs → Logs
  settle trim_zero a td = if trim_zero then mark_trimmed a td else forget_piece a td

  -- get_next_trim, with the piece that the io_u takes its place from. `has_file` and `can_open` are
  -- those of get_next_verify. `none` is a failed assert, or a piece in neither the list nor the tree.
  unfoldable pub get_next_trim : Bool → Bool → (ℕ → Bool) → Logs → Option (Logs × Next)
  get_next_trim trim_zero has_file can_open td =
      let first : Option (Logs × Next) = elim td.trim_list [
        | [] ↦ some (td, no_piece)
        | a ∷ rest ↦ if td.trim_entries == 0 then none else (do
          x ← find a (pieces td)
          some (settle trim_zero a (remove_trim_entry a td), opened (can_open x.file) x))
      ] in
      if has_file then some (td, requeued) else first
