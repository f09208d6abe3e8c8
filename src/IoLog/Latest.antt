-- ===== src/IoLog/Latest.antt =====
-- log_io_piece into the tree: of each place it keeps the piece that was logged last.
use fio_ssd.Prelude.{
  arith, refl, sym, ap, ◌∙◌, ℕ, suc, ◌≡◌, Option, none, some, List, [], ◌∷◌, length, if◌then◌else◌,
}
use fio_ssd.IoLog.{
  Entry, Tree, in_order, without, Walk, found, linked, walk, RbTree, Logs, longer, shorter,
  remove_trim_entry, replace, sort_piece,
}
use fio_ssd.IoLog.Order.{
  lies_at, piece_at, IsSorted, IsFresh, IsDistinct, IsSorted-insert, piece_at-insert,
}
use fio_ssd.IoLog.Descent.{Ends, walk-Ends}
use fio_ssd.IoLog.Keeps.{
  piece_at-without, IsSorted-without, IsFresh-without, IsDistinct-without, IsDistinct-insert,
}

-- The tree is in order, with one node for each address.
pub record IsLog (t : Tree) : Type 0 where
  pub sorted : IsSorted (in_order t)
  pub distinct : IsDistinct (in_order t)

-- `t'` has `e` at its place, and everywhere else what `t` has.
pub record HasNew (e : Entry) (t t' : Tree) : Type 0 where
  pub is_log : IsLog t'
  pub places :
      (f o : ℕ)
      → piece_at f o (in_order t') ≡ (if lies_at f o e then some e else piece_at f o (in_order t))

pub tree_kept : (a : ℕ) (td : Logs) → (remove_trim_entry a td).io_hist_tree ≡ td.io_hist_tree
unfolding remove_trim_entry
tree_kept a td = ground arith

module _ (R : RbTree) where
  open R use {insert_color, erase, in_order-insert_color, in_order-erase}

  insert_color-HasNew :
      (e : Entry) (t t' : Tree)
      → IsLog t
      → IsFresh e.at (in_order t)
      → Ends e (in_order t) (linked t')
      → HasNew e t (insert_color t')
  insert_color-HasNew e t t' log fresh (n, i) =
      let all = in_order-insert_color t' ∙ i in
      record {
        is_log = record {
          sorted = rw all (IsSorted-insert e (in_order t) log.sorted n);
          distinct = rw all (IsDistinct-insert e (in_order t) fresh log.distinct);
        };
        places = λ f o. ap (piece_at f o) all ∙ piece_at-insert e (in_order t) n f o;
      }

  sort_piece-linked :
      (fuel : ℕ) (e : Entry) (td : Logs) (t : Tree)
      → walk e td.io_hist_tree ≡ linked t
      → sort_piece R (suc fuel) e td
        ≡ some (record td { io_hist_tree = insert_color t; hist = longer td.hist })
  unfolding sort_piece
  sort_piece-linked fuel e td t h = ground (arith, h)

  sort_piece-found :
      (fuel : ℕ) (e x : Entry) (td : Logs)
      → walk e td.io_hist_tree ≡ found x
      → e.len ≡ x.len
      → sort_piece R (suc fuel) e td ≡ sort_piece R fuel e (replace R x td)
  unfolding sort_piece
  sort_piece-found fuel e x td h l = ground (arith, h, l)

  sort_piece-absent :
      (fuel : ℕ) (e : Entry) (td : Logs)
      → IsLog td.io_hist_tree
      → IsFresh e.at (in_order td.io_hist_tree)
      → piece_at e.file e.offset (in_order td.io_hist_tree) ≡ none
      → (td' : Logs) × (sort_piece R (suc fuel) e td ≡ some td')
        × HasNew e td.io_hist_tree td'.io_hist_tree
  sort_piece-absent fuel e td log fresh n =
      at_end (walk e td.io_hist_tree) refl (walk-Ends e td.io_hist_tree log.sorted)
    where
      at_end :
          (w : Walk)
          → walk e td.io_hist_tree ≡ w
          → Ends e (in_order td.io_hist_tree) w
          → (td' : Logs) × (sort_piece R (suc fuel) e td ≡ some td')
            × HasNew e td.io_hist_tree td'.io_hist_tree
      at_end (found x) h k = absurd (cc (sym n ∙ k))
      at_end (linked t) h k = (
        record td { io_hist_tree = insert_color t; hist = longer td.hist },
        sort_piece-linked fuel e td t h,
        insert_color-HasNew e td.io_hist_tree t log fresh k,
      )

  replace-tree :
      (x : Entry) (td : Logs)
      → in_order (replace R x td).io_hist_tree ≡ without x.at (in_order td.io_hist_tree)
  replace-tree x td =
      ap in_order (
        tree_kept x.at
          (record td { hist = shorter td.hist; io_hist_tree = erase x.at td.io_hist_tree }))
      ∙ in_order-erase x.at td.io_hist_tree

  -- The older piece of the place is replaced.
  sort_piece-again :
      (fuel : ℕ) (e x : Entry) (td : Logs)
      → IsLog td.io_hist_tree
      → IsFresh e.at (in_order td.io_hist_tree)
      → piece_at e.file e.offset (in_order td.io_hist_tree) ≡ some x
      → (td' : Logs) × (sort_piece R (suc fuel) e (replace R x td) ≡ some td')
        × HasNew e td.io_hist_tree td'.io_hist_tree
  sort_piece-again fuel e x td log fresh k =
      let all = replace-tree x td in
      let places =
        piece_at-without e.file e.offset (in_order td.io_hist_tree) x log.sorted log.distinct k in
      let smaller : IsLog (replace R x td).io_hist_tree = record {
        sorted = rw all (IsSorted-without x.at (in_order td.io_hist_tree) log.sorted);
        distinct = rw all (IsDistinct-without x.at (in_order td.io_hist_tree) log.distinct);
      } in
      let gone : piece_at e.file e.offset (in_order (replace R x td).io_hist_tree) ≡ none =
        ap (piece_at e.file e.offset) all ∙ places e.file e.offset ∙ ground arith in
      let (td', done, new) =
        sort_piece-absent fuel e (replace R x td) smaller
          (rw all (IsFresh-without x.at e.at (in_order td.io_hist_tree) fresh)) gone in
      (
        td',
        done,
        record {
          is_log = new.is_log;
          places = λ f o.
              new.places f o
              ∙ ap (λ (q : Option Entry). if lies_at f o e then some e else q)
                  (ap (piece_at f o) all ∙ places f o)
              ∙ ground arith;
        },
      )

  pub sort_piece-HasNew :
      (e : Entry) (td : Logs)
      → IsLog td.io_hist_tree
      → IsFresh e.at (in_order td.io_hist_tree)
      → ((x : Entry) → piece_at e.file e.offset (in_order td.io_hist_tree) ≡ some x → e.len ≡ x.len)
      → (td' : Logs) × (sort_piece R (suc (length (in_order td.io_hist_tree))) e td ≡ some td')
        × HasNew e td.io_hist_tree td'.io_hist_tree
  sort_piece-HasNew e td log fresh same_len =
      at_end (walk e td.io_hist_tree) refl (walk-Ends e td.io_hist_tree log.sorted)
    where
      some_left :
          (xs : List Entry) (x : Entry)
          → piece_at e.file e.offset xs ≡ some x
          → (n : ℕ) × (length xs ≡ suc n)
      some_left [] x k = absurd (cc k)
      some_left (y ∷ ys) x k = (length ys, refl)

      at_end :
          (w : Walk)
          → walk e td.io_hist_tree ≡ w
          → Ends e (in_order td.io_hist_tree) w
          → (td' : Logs) × (sort_piece R (suc (length (in_order td.io_hist_tree))) e td ≡ some td')
            × HasNew e td.io_hist_tree td'.io_hist_tree
      at_end (found x) h k =
          let (n, l) = some_left (in_order td.io_hist_tree) x k in
          let (td', done, new) = sort_piece-again n e x td log fresh k in
          (
            td',
            sort_piece-found (length (in_order td.io_hist_tree)) e x td h (same_len x k)
                ∙ ap (λ (fuel : ℕ). sort_piece R fuel e (replace R x td)) l
                ∙ done,
            new,
          )
      at_end (linked t) h k =
          sort_piece-absent (length (in_order td.io_hist_tree)) e td log fresh k.0
