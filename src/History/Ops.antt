-- ===== src/History/Ops.antt =====
-- iohist_hash_find, iohist_hash_del and iohist_hash_add on the map of the history.
use mathlib.Core.Path.{subst}
use fio_ssd.Prelude.{
  update_self, update_other, refl, sym, ap, ◌∙◌, ℕ, ◌≡◌, inl, inr, Option, none, some, true, false,
  ==_iff, ==_iff_ne, ℕ_discrete,
}
use fio_ssd.History.{
  Key, Piece, Hist, key_of, write, find_in, hash, iohist_hash_find, unlink, link, iohist_hash_add,
}
use fio_ssd.History.Table.{In, In-append, In-remove, AllLive, Finds, find_in-Finds}
use fio_ssd.History.Frame.{
  Content, content_of, put, bucket_of, Holds, Stands, IsNode, IsHistory, Out, AgreeOff, same_piece,
}
use fio_ssd.History.Off.{IsHistory-enter, IsHistory-idle}

some_eq {ℓ} : {A : Type ℓ} {a b : A} → some a ≡ some b → a ≡ b
some_eq e = cc e

module _ (jhash : Key → ℕ) where
  pub agree_trans :
      {a : ℕ} {td td' td'' : Hist}
      → AgreeOff jhash a td td'
      → AgreeOff jhash a td' td''
      → AgreeOff jhash a td td''
  agree_trans s t = record {
    buckets = λ h b ne. (
      λ i. (t.buckets h b ne).0 ((s.buckets h b ne).0 i),
      λ i. (s.buckets h b ne).1 ((t.buckets h b ne).1 i),
    );
    heaps = λ b ne. t.heaps b ne ∙ s.heaps b ne;
  }

  pub agree_sym : {a : ℕ} {td td' : Hist} → AgreeOff jhash a td td' → AgreeOff jhash a td' td
  agree_sym s = record {
    buckets = λ h b ne. ((s.buckets h b ne).1, (s.buckets h b ne).0);
    heaps = λ b ne. sym (s.heaps b ne);
  }

  pub agree_write : (td : Hist) (a : ℕ) (q : Piece) → AgreeOff jhash a td (write td a q)
  agree_write td a q = record {
    buckets = λ h b ne. (λ i. i, λ i. i);
    heaps = λ b ne. update_other td.heap a b (some q) ne;
  }

  pub agree_unlink :
      (td : Hist) (a : ℕ) (q : Piece) (h : ℕ) → AgreeOff jhash a td (unlink jhash td a q h)
  agree_unlink td a q h = record {
    buckets = λ k b ne. elim (ℕ_discrete h k) [
      | yes same ↦
          rw (same, (==_iff k k).1 refl)
            (
              (λ i. (In-remove b a (td.iohist_hash k)).1 (i, ne)),
              (λ i. ((In-remove b a (td.iohist_hash k)).0 i).0),
            )
      | no other ↦ rw ((==_iff_ne h k).1 other) ((λ i. i, λ i. i))
    ];
    heaps = λ b ne. update_other td.heap a b _ ne;
  }

  pub agree_link : (td : Hist) (a : ℕ) (q : Piece) → AgreeOff jhash a td (link jhash td a q)
  agree_link td a q = record {
    buckets = λ k b ne. elim (ℕ_discrete (hash jhash (key_of q)) k) [
      | yes same ↦
          rw (same, (==_iff k k).1 refl)
            (
              (λ i. (In-append b a (td.iohist_hash k)).1 (inl i)),
              (λ i. elim ((In-append b a (td.iohist_hash k)).0 i) [
                | inl there ↦ there
                | inr here ↦ absurd (ne here)
              ]),
            )
      | no other ↦ rw ((==_iff_ne (hash jhash (key_of q)) k).1 other) ((λ i. i, λ i. i))
    ];
    heaps = λ b ne. update_other td.heap a b _ ne;
  }

  module _ {td : Hist} {m : Key → Option Content} (is : IsHistory jhash td m) where
    -- A node is in one bucket only.
    pub one_bucket : (h k a : ℕ) → In a (td.iohist_hash h) → In a (td.iohist_hash k) → h ≡ k
    one_bucket h k a i j =
        let (p, n) = is.nodes h a i in
        let (q, o) = is.nodes k a j in
        some_eq (
          sym n.linked
          ∙ ap (λ (r : Piece). r.hash_list) (same_piece td.heap a p q n.live o.live)
          ∙ o.linked)

    pub Out-unlink :
        (a : ℕ) (q : Piece) (h : ℕ) → In a (td.iohist_hash h) → Out jhash (unlink jhash td a q h) a
    Out-unlink a q h i k = elim (ℕ_discrete h k) [
      | yes same ↦
          rw (same, (==_iff k k).1 refl) (λ j. ((In-remove a a (td.iohist_hash k)).0 j).1 refl)
      | no other ↦ rw ((==_iff_ne h k).1 other) (λ j. other (one_bucket h k a i j))
    ]

    live : (key : Key) → AllLive td.heap (bucket_of jhash td key)
    live key a i = let (ipo, n) = is.nodes _ a i in (ipo, n.live)

    -- iohist_hash_find finds what the map has.
    pub find_some :
        (key : Key) (c : Content)
        → m key ≡ some c
        → (a : ℕ) × (ipo : Piece) × (iohist_hash_find jhash td key ≡ some (some a))
          × In a (bucket_of jhash td key)
          × (td.heap a ≡ some ipo)
          × (key_of ipo ≡ key)
          × (content_of ipo ≡ c)
    unfolding iohist_hash_find
    find_some key c e =
        let (r, found, f) = find_in-Finds td.heap (bucket_of jhash td key) key (live key) in
        answer r found f
      where
        held : Holds jhash td key c
        held = subst (Stands jhash td key) e (is.stands key)

        answer :
            (r : Option ℕ)
            → find_in td.heap (bucket_of jhash td key) key ≡ some r
            → Finds td.heap (bucket_of jhash td key) key r
            → (a : ℕ) × (ipo : Piece) × (find_in td.heap (bucket_of jhash td key) key
                ≡ some (some a))
              × In a (bucket_of jhash td key)
              × (td.heap a ≡ some ipo)
              × (key_of ipo ≡ key)
              × (content_of ipo ≡ c)
        answer none found f = absurd (f held.address held.ipo held.inside held.live held.keyed)
        answer (some a) found (i, (ipo, e, keyed)) =
            let same =
              is.unique (hash jhash key) a held.address ipo held.ipo i held.inside e held.live
                (keyed ∙ sym held.keyed) in
            (
              a,
              ipo,
              found,
              i,
              e,
              keyed,
              ap content_of (
                    same_piece td.heap held.address ipo held.ipo (ap td.heap (sym same) ∙ e)
                      held.live)
                  ∙ held.content,
            )

    -- iohist_hash_find gives NULL where the map has nothing.
    pub find_none : (key : Key) → m key ≡ none → iohist_hash_find jhash td key ≡ some none
    unfolding iohist_hash_find
    find_none key e =
        let (r, found, f) = find_in-Finds td.heap (bucket_of jhash td key) key (live key) in
        answer r found f
      where
        answer :
            (r : Option ℕ)
            → find_in td.heap (bucket_of jhash td key) key ≡ some r
            → Finds td.heap (bucket_of jhash td key) key r
            → find_in td.heap (bucket_of jhash td key) key ≡ some none
        answer none found f = found
        answer (some a) found (i, (ipo, live, keyed)) =
            absurd ((subst (Stands jhash td key) e (is.stands key)) a ipo i live keyed)

  abbrev pub cleared : Piece → Piece
  cleared q = record q { hash_list = none }

  abbrev pub added : Hist → ℕ → Piece → Hist
  added td a q = link jhash (write td a (cleared q)) a (cleared q)

  abbrev pub linked_piece : Piece → Piece
  linked_piece q = record q { hash_list = some (hash jhash (key_of q)); hashed = true }

  module _ {td : Hist} {m : Key → Option Content} (is : IsHistory jhash td m) (a : ℕ) (q : Piece)
      (out : Out jhash td a) where
    pub In-added : In a (bucket_of jhash (added td a q) (key_of q))
    In-added =
        rw ((==_iff (hash jhash (key_of q)) (hash jhash (key_of q))).1 refl)
          ((In-append a a (bucket_of jhash td (key_of q))).1 (inr refl))

    pub added-IsHistory :
        m (key_of q) ≡ none
        → IsHistory jhash (added td a q) (put m (key_of q) (some (content_of q)))
    added-IsHistory new =
        IsHistory-enter jhash
          (agree_trans (agree_write td a (cleared q))
            (agree_link (write td a (cleared q)) a (cleared q)))
          m (linked_piece q) is out node In-added only new
      where
        node : IsNode jhash (added td a q) (hash jhash (key_of q)) a (linked_piece q)
        node = record {
          live = update_self (write td a (cleared q)).heap a (some (linked_piece q));
          linked = refl;
          hashed = refl;
          keyed = refl;
        }

        only : (h : ℕ) → In a ((added td a q).iohist_hash h) → h ≡ hash jhash (key_of q)
        only h i = elim (ℕ_discrete h (hash jhash (key_of q))) [
          | yes same ↦ same
          | no other ↦ absurd (
              out h
                (subst (In a) (update_other td.iohist_hash (hash jhash (key_of q)) h _ other) i))
        ]

    -- A new piece with a new key is added.
    pub add_lem :
        td.heap a ≡ some q
        → q.hashed ≡ false
        → m (key_of q) ≡ none
        → iohist_hash_add jhash td a ≡ some (added td a q, none)
    unfolding iohist_hash_add
    add_lem live fresh new =
        rw
          (
            live,
            find_none (IsHistory-idle jhash (agree_write td a (cleared q)) m is out out) (key_of q)
                new,
            fresh,
          )
          refl
