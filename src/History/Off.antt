-- ===== src/History/Off.antt =====
-- Histories that agree but for one address: what that does to the map.
use mathlib.Core.Path.{subst}
use fio_ssd.Prelude.{
  refl, sym, ap, ◌∙◌, ℕ, ◌≡◌, ◌≢◌, inl, inr, Option, none, some, Bool-cases, ℕ_discrete,
}
use fio_ssd.History.{Key, same_key, Piece, Hist, key_of, hash}
use fio_ssd.History.Table.{In, same_key_eq}
use fio_ssd.History.Frame.{
  Content, content_of, put, not_same, same_piece, bucket_of, Holds, Stands, IsNode, IsHistory, Out,
  AgreeOff,
}

module _ (jhash : Key → ℕ) where
  module _ {a : ℕ} {td td' : Hist} (off : AgreeOff jhash a td td') where
    Out-ne : (h b : ℕ) → Out jhash td' a → In b (td'.iohist_hash h) → b ≢ a
    Out-ne h b out is e = out h (subst (λ c. In c (td'.iohist_hash h)) e is)

    IsNode-off :
        (h b : ℕ) (ipo : Piece) → b ≢ a → IsNode jhash td h b ipo → IsNode jhash td' h b ipo
    IsNode-off h b ipo ne n = record {
      live = off.heaps b ne ∙ n.live;
      linked = n.linked;
      hashed = n.hashed;
      keyed = n.keyed;
    }

    Holds-off :
        (key : Key) (c : Content) (o : Holds jhash td key c) → o.address ≢ a → Holds jhash td' key c
    Holds-off key c o ne = record {
      address = o.address;
      ipo = o.ipo;
      inside = (off.buckets _ _ ne).0 o.inside;
      live = off.heaps _ ne ∙ o.live;
      keyed = o.keyed;
      content = o.content;
    }

    -- Nothing of the map at `key` is at `a`.
    pub Stands-off :
        (key : Key) (c : Option Content)
        → ((ipo : Piece) → In a (bucket_of jhash td key) → td.heap a ≡ some ipo → key_of ipo ≢ key)
        → ((ipo : Piece)
            → In a (bucket_of jhash td' key)
            → td'.heap a ≡ some ipo
            → key_of ipo ≢ key)
        → Stands jhash td key c
        → Stands jhash td' key c
    Stands-off key none before after is = λ b ipo i e k. elim (ℕ_discrete b a) [
      | yes same ↦
          after ipo (subst (λ x. In x (bucket_of jhash td' key)) same i)
            (ap td'.heap (sym same) ∙ e) k
      | no other ↦ is b ipo ((off.buckets _ b other).1 i) (sym (off.heaps b other) ∙ e) k
    ]
    Stands-off key (some c) before after o = Holds-off key c o (λ same.
        before o.ipo (subst (λ x. In x (bucket_of jhash td key)) same o.inside)
          (ap td.heap (sym same) ∙ o.live) o.keyed)

    -- Where `a` is in no bucket, the rest has its nodes and its unique keys.
    nodes-off :
        (m : Key → Option Content)
        → IsHistory jhash td m
        → (h b : ℕ) → b ≢ a
        → In b (td'.iohist_hash h)
        → (ipo : Piece) × IsNode jhash td' h b ipo
    nodes-off m is h b ne i =
        let (ipo, n) = is.nodes h b ((off.buckets h b ne).1 i) in (ipo, IsNode-off h b ipo ne n)

    unique-off :
        (m : Key → Option Content)
        → IsHistory jhash td m
        → (h b c : ℕ) (ipo ipo' : Piece) → b ≢ a
        → c ≢ a
        → In b (td'.iohist_hash h)
        → In c (td'.iohist_hash h)
        → td'.heap b ≡ some ipo
        → td'.heap c ≡ some ipo'
        → key_of ipo ≡ key_of ipo'
        → b ≡ c
    unique-off m is h b c ipo ipo' nb nc ib ic eb ec same =
        is.unique h b c ipo ipo' ((off.buckets h b nb).1 ib) ((off.buckets h c nc).1 ic)
          (sym (off.heaps b nb) ∙ eb) (sym (off.heaps c nc) ∙ ec) same

    -- The piece at `a` leaves.
    pub IsHistory-leave :
        (m : Key → Option Content) (ipo : Piece)
        → IsHistory jhash td m
        → In a (bucket_of jhash td (key_of ipo))
        → td.heap a ≡ some ipo
        → Out jhash td' a
        → IsHistory jhash td' (put m (key_of ipo) none)
    IsHistory-leave m ipo is inside live out = record {
      nodes = λ h b i. nodes-off m is h b (Out-ne h b out i) i;
      unique = λ h b c p q i j. unique-off m is h b c p q (Out-ne h b out i) (Out-ne h c out j) i j;
      stands = λ key. elim (Bool-cases (same_key (key_of ipo) key)) [
        | inl same ↦ rw same (gone key (same_key_eq _ _ same))
        | inr other ↦ rw other (
            Stands-off key (m key)
              (λ q i e k. not_same other (sym (ap key_of (same_piece td.heap a q ipo e live)) ∙ k))
              (λ q i. absurd (out _ i)) (is.stands key))
      ];
    }
      where
        gone : (key : Key) → key_of ipo ≡ key → Stands jhash td' key none
        gone key k b q i e kq =
            let ne = Out-ne (hash jhash key) b out i in
            ne (
              is.unique (hash jhash key) b a q ipo ((off.buckets _ b ne).1 i)
                (subst (λ l. In a (bucket_of jhash td l)) k inside) (sym (off.heaps b ne) ∙ e) live
                (kq ∙ sym k))

    -- A piece with a new key enters at `a`.
    pub IsHistory-enter :
        (m : Key → Option Content) (q : Piece)
        → IsHistory jhash td m
        → Out jhash td a
        → IsNode jhash td' (hash jhash (key_of q)) a q
        → In a (bucket_of jhash td' (key_of q))
        → ((h : ℕ) → In a (td'.iohist_hash h) → h ≡ hash jhash (key_of q))
        → m (key_of q) ≡ none
        → IsHistory jhash td' (put m (key_of q) (some (content_of q)))
    IsHistory-enter m q is out n inside only new = record {
      nodes = λ h b i. elim (ℕ_discrete b a) [
        | yes same ↦ (q, here h b same i)
        | no other ↦ nodes-off m is h b other i
      ];
      unique = λ h b c p p' i j e e' k. elim (ℕ_discrete b a) [
        | yes same ↦ elim (ℕ_discrete c a) [
          | yes same' ↦ same ∙ sym same'
          | no other ↦
              absurd (alone h c p' other j (move h b same i) e' (sym k ∙ key_at b p same e))
        ]
        | no other ↦ elim (ℕ_discrete c a) [
          | yes same ↦ absurd (alone h b p other i (move h c same j) e (k ∙ key_at c p' same e'))
          | no other' ↦ unique-off m is h b c p p' other other' i j e e' k
        ]
      ];
      stands = λ key. elim (Bool-cases (same_key (key_of q) key)) [
        | inl same ↦ rw same (held key (same_key_eq _ _ same))
        | inr other ↦ rw other (
            Stands-off key (m key) (λ p i. absurd (out _ i))
              (λ p i e k. not_same other (sym (ap key_of (same_piece td'.heap a p q e n.live)) ∙ k))
              (is.stands key))
      ];
    }
      where
        move : (h b : ℕ) → b ≡ a → In b (td'.iohist_hash h) → In a (td'.iohist_hash h)
        move h b same i = subst (λ x. In x (td'.iohist_hash h)) same i

        key_at : (b : ℕ) (p : Piece) → b ≡ a → td'.heap b ≡ some p → key_of p ≡ key_of q
        key_at b p same e =
            ap key_of (same_piece td'.heap a p q (ap td'.heap (sym same) ∙ e) n.live)

        here : (h b : ℕ) → b ≡ a → In b (td'.iohist_hash h) → IsNode jhash td' h b q
        here h b same i = record {
          live = ap td'.heap same ∙ n.live;
          linked = n.linked ∙ ap some (sym (only h (move h b same i)));
          hashed = n.hashed;
          keyed = sym (only h (move h b same i));
        }

        alone :
            (h c : ℕ) (p : Piece)
            → c ≢ a
            → In c (td'.iohist_hash h)
            → In a (td'.iohist_hash h)
            → td'.heap c ≡ some p
            → key_of p ≢ key_of q
        alone h c p ne i j e k =
            (subst (Stands jhash td (key_of q)) new (is.stands (key_of q))) c p
              ((off.buckets _ c ne).1 (subst (λ x. In c (td'.iohist_hash x)) (only h j) i))
              (sym (off.heaps c ne) ∙ e) k

        held : (key : Key) → key_of q ≡ key → Holds jhash td' key (content_of q)
        held key k = record {
          address = a;
          ipo = q;
          inside = subst (λ l. In a (bucket_of jhash td' l)) k inside;
          live = n.live;
          keyed = k;
          content = refl;
        }

    -- What happens at an address in no bucket is not seen.
    pub IsHistory-idle :
        (m : Key → Option Content)
        → IsHistory jhash td m
        → Out jhash td a
        → Out jhash td' a
        → IsHistory jhash td' m
    IsHistory-idle m is out out' = record {
      nodes = λ h b i. nodes-off m is h b (Out-ne h b out' i) i;
      unique =
          λ h b c p q i j. unique-off m is h b c p q (Out-ne h b out' i) (Out-ne h c out' j) i j;
      stands = λ key.
          Stands-off key (m key) (λ p i. absurd (out _ i)) (λ p i. absurd (out' _ i))
            (is.stands key);
    }
