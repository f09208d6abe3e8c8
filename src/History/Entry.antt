-- ===== src/History/Entry.antt =====
-- A piece that stands in the hash table: it leaves, or changes under its key.
use mathlib.Core.Path.{subst}
use fio_ssd.Prelude.{
  update_self, refl, sym, ap, ◌∙◌, ℕ, ◌≡◌, inl, inr, Option, none, some, List, true, false,
  Bool-cases,
}
use fio_ssd.History.{Key, same_key, Piece, Hist, key_of, write, hash, unlink, iohist_hash_del}
use fio_ssd.History.Table.{In, same_key_refl}
use fio_ssd.History.Frame.{
  Content, content_of, put, bucket_of, Stands, IsNode, IsHistory, Out, same_piece,
}
use fio_ssd.History.Off.{IsHistory-leave, IsHistory-enter}
use fio_ssd.History.Ops.{agree_trans, agree_sym, agree_write, agree_unlink, one_bucket, Out-unlink}

module _ (jhash : Key → ℕ) where
  -- A map that says the same.
  pub IsHistory-eq :
      {td : Hist} (m m' : Key → Option Content)
      → ((k : Key) → m k ≡ m' k)
      → IsHistory jhash td m
      → IsHistory jhash td m'
  IsHistory-eq {td} m m' e is = record {
    nodes = is.nodes;
    unique = is.unique;
    stands = λ k. subst (Stands jhash td k) (e k) (is.stands k);
  }

  module _ {td : Hist} {m : Key → Option Content} (is : IsHistory jhash td m) (a : ℕ) (p : Piece)
      (inside : In a (bucket_of jhash td (key_of p))) (live_a : td.heap a ≡ some p) where
    pub IsNode-at : IsNode jhash td (hash jhash (key_of p)) a p
    IsNode-at =
        let (q, n) = is.nodes (hash jhash (key_of p)) a inside in
        subst (IsNode jhash td (hash jhash (key_of p)) a) (same_piece td.heap a q p n.live live_a) n

    -- The piece at `a`, as `q`, leaves its bucket.
    abbrev pub left : Piece → Hist
    left q = unlink jhash (write td a q) a q (hash jhash (key_of p))

    pub left-IsHistory : (q : Piece) → IsHistory jhash (left q) (put m (key_of p) none)
    left-IsHistory q =
        IsHistory-leave jhash
          (agree_trans jhash (agree_write jhash td a q)
            (agree_unlink jhash (write td a q) a q (hash jhash (key_of p))))
          m p is inside live_a (Out-unlink jhash is a q (hash jhash (key_of p)) inside)

    pub Out-left : (q : Piece) → Out jhash (left q) a
    Out-left q = Out-unlink jhash is a q (hash jhash (key_of p)) inside

    pub del_lem :
        (q : Piece)
        → q.hash_list ≡ p.hash_list
        → q.hashed ≡ p.hashed
        → iohist_hash_del jhash (write td a q) a ≡ some (left q)
    unfolding iohist_hash_del
    del_lem q e e' =
        simp (update_self td.heap a (some q), e' ∙ IsNode-at.hashed, e ∙ IsNode-at.linked)

    -- The piece at `a` changes under its key.
    pub touch :
        (q : Piece)
        → key_of q ≡ key_of p
        → q.hash_list ≡ p.hash_list
        → q.hashed ≡ p.hashed
        → IsHistory jhash (write td a q) (put m (key_of q) (some (content_of q)))
    touch q k e e' =
        IsHistory-eq (put (put m (key_of p) none) (key_of q) (some (content_of q)))
          (put m (key_of q) (some (content_of q))) twice
          (IsHistory-enter jhash
            (agree_trans jhash
              (agree_sym jhash (
                agree_trans jhash (agree_write jhash td a p)
                  (agree_unlink jhash (write td a p) a p (hash jhash (key_of p)))))
              (agree_write jhash td a q))
            (put m (key_of p) none) q (left-IsHistory p) (Out-left p) node
            (subst (λ l. In a (bucket_of jhash td l)) (sym k) inside) only new)
      where
        twice :
            (l : Key)
            → put (put m (key_of p) none) (key_of q) (some (content_of q)) l
              ≡ put m (key_of q) (some (content_of q)) l
        twice l = elim (Bool-cases (same_key (key_of q) l)) [
          | inl same ↦ rw same refl
          | inr other ↦ rw (other, subst (λ x. same_key x l ≡ false) k other) refl
        ]

        node : IsNode jhash (write td a q) (hash jhash (key_of q)) a q
        node = record {
          live = update_self td.heap a (some q);
          linked = e ∙ IsNode-at.linked ∙ ap (λ l. some (hash jhash l)) (sym k);
          hashed = e' ∙ IsNode-at.hashed;
          keyed = refl;
        }

        only : (h : ℕ) → In a (td.iohist_hash h) → h ≡ hash jhash (key_of q)
        only h i =
            one_bucket jhash is h (hash jhash (key_of p)) a i inside ∙ ap (hash jhash) (sym k)

        new : put m (key_of p) none (key_of q) ≡ none
        new = rw (subst (λ x. same_key (key_of p) x ≡ true) (sym k) (same_key_refl (key_of p))) refl

  -- The list of the pieces is not seen.
  pub relist :
      {td : Hist} {m : Key → Option Content} (pieces : List ℕ) (n : ℕ)
      → IsHistory jhash td m
      → IsHistory jhash (record td { io_hist_list = pieces; io_hist_len = n }) m
  relist {td} {m} pieces n is = record {
    nodes = λ h a i.
        let (p, o) = is.nodes h a i in
        (p, record { live = o.live; linked = o.linked; hashed = o.hashed; keyed = o.keyed });
    unique = is.unique;
    stands = λ key. same_stands key (m key) (is.stands key);
  }
    where
      same_stands :
          (key : Key) (c : Option Content)
          → Stands jhash td key c
          → Stands jhash (record td { io_hist_list = pieces; io_hist_len = n }) key c
      same_stands key none is = is
      same_stands key (some c) o = record {
        address = o.address;
        ipo = o.ipo;
        inside = o.inside;
        live = o.live;
        keyed = o.keyed;
        content = o.content;
      }
