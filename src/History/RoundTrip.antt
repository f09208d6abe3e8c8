-- ===== src/History/RoundTrip.antt =====
-- A piece that is added to the hash table and deleted again.
use fio_ssd.Prelude.{
  update_self, refl, sym, ap, ◌∙◌, ℕ, ◌≡◌, Option, none, some, false, Bool-cases, inl, inr,
}
use fio_ssd.History.{
  Key, same_key, Piece, Hist, key_of, write, hash, iohist_hash_find, iohist_hash_del,
  iohist_hash_add, unlink,
}
use fio_ssd.History.Table.{same_key_refl, same_key_eq}
use fio_ssd.History.Frame.{Content, content_of, put, IsHistory, Out}
use fio_ssd.History.Off.{IsHistory-leave}
use fio_ssd.History.Ops.{
  find_some, add_lem, added, added-IsHistory, linked_piece, In-added, agree_unlink,
}
use fio_ssd.History.Entry.{IsHistory-eq, Out-left}

module _ (jhash : Key → ℕ) {td : Hist} {m : Key → Option Content} (is : IsHistory jhash td m)
    (a : ℕ) (q : Piece) (out : Out jhash td a) (new : m (key_of q) ≡ none) where
  abbrev with_piece : Key → Option Content
  with_piece = put m (key_of q) (some (content_of q))

  added_live : (added jhash td a q).heap a ≡ some (linked_piece jhash q)
  added_live =
      update_self (write td a (record q { hash_list = none })).heap a (some (linked_piece jhash q))

  find_added : iohist_hash_find jhash (added jhash td a q) (key_of q) ≡ some (some a)
  find_added =
      let (b, p, found, inside, live, keyed, same) =
        find_some jhash (added-IsHistory jhash is a q out new) (key_of q) (content_of q)
          (rw (same_key_refl (key_of q)) refl) in
      found
      ∙ ap (λ x. some (some x))
          ((added-IsHistory jhash is a q out new).unique (hash jhash (key_of q)) b a p
            (linked_piece jhash q) inside (In-added jhash is a q out) live added_live keyed)

  abbrev deleted : Hist
  deleted = unlink jhash (added jhash td a q) a (linked_piece jhash q) (hash jhash (key_of q))

  deleted-IsHistory : IsHistory jhash deleted m
  deleted-IsHistory = IsHistory-eq jhash (put with_piece (key_of q) none) m twice (
      IsHistory-leave jhash
        (agree_unlink jhash (added jhash td a q) a (linked_piece jhash q) (hash jhash (key_of q)))
        with_piece (linked_piece jhash q) (added-IsHistory jhash is a q out new)
        (In-added jhash is a q out) added_live
        (Out-left jhash (added-IsHistory jhash is a q out new) a (linked_piece jhash q)
          (In-added jhash is a q out) added_live (linked_piece jhash q)))
    where
      twice : (k : Key) → put with_piece (key_of q) none k ≡ m k
      twice k = elim (Bool-cases (same_key (key_of q) k)) [
        | inl same ↦ rw same (sym (ap m (sym (same_key_eq (key_of q) k same)) ∙ new))
        | inr other ↦ rw other refl
      ]

  -- A piece that is in no bucket and not marked as hashed, with a key that the history does not
  -- have, is added with NULL returned; iohist_hash_find then gives it, and iohist_hash_del leaves a
  -- history that holds the same map as before.
  pub iohist_hash_del-add :
      td.heap a ≡ some q
      → q.hashed ≡ false
      → (td' td'' : Hist) × (iohist_hash_add jhash td a ≡ some (td', none))
        × (iohist_hash_find jhash td' (key_of q) ≡ some (some a))
        × (iohist_hash_del jhash td' a ≡ some td'')
        × IsHistory jhash td'' m
  unfolding iohist_hash_del
  iohist_hash_del-add live fresh = (
    added jhash td a q,
    deleted,
    add_lem jhash is a q out live fresh new,
    find_added,
    rw added_live refl,
    deleted-IsHistory,
  )
