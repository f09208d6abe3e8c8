-- ===== src/History/Table.antt =====
-- The hash table of the history as a map from keys to pieces.
use fio_ssd.Prelude.{
  remove, arith, refl, sym, ap, ◌∙◌, ℕ, ◌≡◌, ◌≢◌, ◌↔◌, ◌⊎◌, inl, inr, Option, none, some, List, [],
  ◌∷◌, ◌++◌, true, false, ==_iff, ==_iff_ne, Bool-cases, ℕ_discrete,
}
use fio_ssd.History.{Key, same_key, Piece, key_of, find_in}

pub same_key_refl : (k : Key) → same_key k k ≡ true
same_key_refl (f, b) = ground arith

pub same_key_eq : (k l : Key) → same_key k l ≡ true → k ≡ l
same_key_eq (f, b) (g, c) h = rw (files, blocks) refl
  where
    files : f ≡ g
    files = ground arith

    blocks : b ≡ c
    blocks = ground arith

abbrev pub In : ℕ → List ℕ → Type 0
In a [] = ⊥
In a (x ∷ xs) = (a ≡ x) ⊎ In a xs

pub In-append : (a b : ℕ) (xs : List ℕ) → In a (xs ++ (b ∷ [])) ↔ (In a xs ⊎ (a ≡ b))
In-append a b [] = ground arith
In-append a b (x ∷ xs) = ground (arith, In-append a b xs)

pub In-remove : (a b : ℕ) (xs : List ℕ) → In a (remove b xs) ↔ (In a xs × (a ≢ b))
In-remove a b [] = ground arith
In-remove a b (x ∷ xs) = elim (ℕ_discrete b x) [
  | yes same ↦ rw ((==_iff b x).1 same) (ground (arith, In-remove a b xs, same))
  | no other ↦ rw ((==_iff_ne b x).1 other) (ground (arith, In-remove a b xs, other))
]

-- Every address of the list is one of a piece.
abbrev pub AllLive : (ℕ → Option Piece) → List ℕ → Type 0
AllLive heap xs = (a : ℕ) → In a xs → (ipo : Piece) × (heap a ≡ some ipo)

-- What find_in gives of a bucket.
abbrev pub Finds : (ℕ → Option Piece) → List ℕ → Key → Option ℕ → Type 0
Finds heap bucket key none =
    (a : ℕ) (ipo : Piece) → In a bucket → heap a ≡ some ipo → key_of ipo ≢ key
Finds heap bucket key (some a) =
    In a bucket × ((ipo : Piece) × (heap a ≡ some ipo) × (key_of ipo ≡ key))

Finds-cons :
    (heap : ℕ → Option Piece) (x : ℕ) (xs : List ℕ) (key : Key) (ipo : Piece) (r : Option ℕ)
    → heap x ≡ some ipo
    → same_key (key_of ipo) key ≡ false
    → Finds heap xs key r
    → Finds heap (x ∷ xs) key r
Finds-cons heap x xs key ipo none e other is = λ a q i e' k. elim i [
  | inl here ↦ absurd (differs {q = q} (cc (e, e', here)) k)
  | inr there ↦ is a q there e' k
]
  where
    differs : {q : Piece} → q ≡ ipo → key_of q ≡ key → ⊥
    differs same k = absurd (cc (other, same_key_refl key, sym (ap key_of same) ∙ k))
Finds-cons heap x xs key ipo (some a) e other is = (inr is.0, is.1)

pub find_in-Finds :
    (heap : ℕ → Option Piece) (bucket : List ℕ) (key : Key)
    → AllLive heap bucket
    → (r : Option ℕ) × (find_in heap bucket key ≡ some r) × Finds heap bucket key r
unfolding find_in
find_in-Finds heap [] key live = (none, refl, λ a ipo is. absurd is)
find_in-Finds heap (x ∷ xs) key live =
    let (ipo, e) = live x (inl refl) in
    elim (Bool-cases (same_key (key_of ipo) key)) [
      | inl here ↦ (some x, rw (e, here) refl, (inl refl, (ipo, e, same_key_eq _ _ here)))
      | inr other ↦
          let (r, found, is) = find_in-Finds heap xs key (λ a i. live a (inr i)) in
          (r, rw (e, other) found, Finds-cons heap x xs key ipo r e other is)
    ]
