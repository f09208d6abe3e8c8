-- ===== src/IoLog/Taken.antt =====
-- get_next_verify out of the tree.
use fio_ssd.Prelude.{arith, refl, ap, ◌∙◌, ℕ, ◌≡◌, some, List, ◌∷◌, Bool, true, false, ==_iff}
use mathlib.Core.Path.{subst}
use fio_ssd.FioFile.{File}
use fio_ssd.History.{Key}
use fio_ssd.IoLog.{
  Entry, in_order, without, RbTree, Logs, LogOptions, shorter, Next, ready, open_piece, take_piece,
  get_next_verify,
}
use fio_ssd.IoLog.Order.{IsSorted, IsDistinct}
use fio_ssd.IoLog.Keeps.{without_fresh}
use fio_ssd.IoLog.Latest.{IsLog, tree_kept}

module _ (R : RbTree) (jhash : Key → ℕ) (o : LogOptions) (files : ℕ → File)
    (can_open : ℕ → Bool) where
  open R use {erase, in_order-erase}

  take_first :
      (x : Entry) (xs : List Entry) (td : Logs)
      → in_order td.io_hist_tree ≡ x ∷ xs
      → take_piece R jhash o files td
        ≡ some (
          record td { io_hist_tree = erase x.at td.io_hist_tree; hist = shorter td.hist },
          some x,
        )
  unfolding take_piece
  take_first x xs td h = ground (arith, h)

  get_next_verify-taken :
      (x : Entry) (td td' : Logs)
      → take_piece R jhash o files td ≡ some (td', some x)
      → get_next_verify R jhash o files false can_open td
        ≡ some (open_piece (can_open x.file) x td')
  unfolding get_next_verify
  get_next_verify-taken x td td' h = rw h

  opened_tree :
      (c : Bool) (x : Entry) (td : Logs) → (open_piece c x td).0.io_hist_tree ≡ td.io_hist_tree
  unfolding open_piece
  opened_tree false x td = refl
  opened_tree true x td = tree_kept x.at td

  opened_next : (x : Entry) (td : Logs) → (open_piece true x td).1 ≡ ready x
  unfolding open_piece
  opened_next x td = refl

  without_first : (x : Entry) (xs : List Entry) → IsDistinct (x ∷ xs) → without x.at (x ∷ xs) ≡ xs
  without_first x xs d = rw ((==_iff x.at x.at).1 refl) (without_fresh x.at xs d.0)

  -- Where the tree of pieces is in order and not empty, the io_u has no file yet and the file of
  -- the first piece is or can be opened, get_next_verify gives the first piece, and the tree keeps
  -- the others in order.
  pub get_next_verify-first :
      (x : Entry) (xs : List Entry) (td : Logs)
      → IsLog td.io_hist_tree
      → in_order td.io_hist_tree ≡ x ∷ xs
      → can_open x.file ≡ true
      → (td' : Logs) × (get_next_verify R jhash o files false can_open td ≡ some (td', ready x))
        × IsLog td'.io_hist_tree
        × (in_order td'.io_hist_tree ≡ xs)
  get_next_verify-first x xs td log h c =
      let td1 : Logs = record td {
        io_hist_tree = erase x.at td.io_hist_tree;
        hist = shorter td.hist;
      } in
      let distinct : IsDistinct (x ∷ xs) = subst IsDistinct h log.distinct in
      let sorted : IsSorted (x ∷ xs) = subst IsSorted h log.sorted in
      let rest : in_order (open_piece true x td1).0.io_hist_tree ≡ xs =
        ap in_order (opened_tree true x td1)
        ∙ in_order-erase x.at td.io_hist_tree
        ∙ ap (without x.at) h
        ∙ without_first x xs distinct in
      (
        (open_piece true x td1).0,
        get_next_verify-taken x td td1 (take_first x xs td h)
            ∙ ap (λ (b : Bool). some (open_piece b x td1)) c
            ∙ ap (λ (n : Next). some ((open_piece true x td1).0, n)) (opened_next x td1),
        record { sorted = rw rest sorted.1; distinct = rw rest distinct.1 },
        rest,
      )
