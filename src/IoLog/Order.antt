-- ===== src/IoLog/Order.antt =====
-- The tree of pieces in order: the walk of log_io_piece against insertion into a sorted list.
use fio_ssd.Prelude.{
  arith, refl, ap, ℕ, ◌≡◌, ◌≢◌, inl, inr, Option, none, some, List, [], ◌∷◌, ◌++◌, Bool, true,
  false, ◌&&◌, ◌||◌, ltb, ◌==◌, if◌then◌else◌, Bool-cases,
}
use fio_ssd.IoLog.{Entry}

-- The order of file and offset.
abbrev pub precedes : Entry → Entry → Bool
precedes a b = ltb a.file b.file || ((a.file == b.file) && ltb a.offset b.offset)

abbrev pub lies_at : ℕ → ℕ → Entry → Bool
lies_at f o x = (x.file == f) && (x.offset == o)

-- The piece of a file at an offset.
abbrev pub piece_at : ℕ → ℕ → List Entry → Option Entry
piece_at f o [] = none
piece_at f o (x ∷ xs) = if lies_at f o x then some x else piece_at f o xs

abbrev pub AllAfter : Entry → List Entry → Type 0
AllAfter x [] = Unit {0}
AllAfter x (y ∷ ys) = (precedes x y ≡ true) × AllAfter x ys

abbrev pub IsSorted : List Entry → Type 0
IsSorted [] = Unit {0}
IsSorted (x ∷ xs) = AllAfter x xs × IsSorted xs

-- No piece has the address.
abbrev pub IsFresh : ℕ → List Entry → Type 0
IsFresh a [] = Unit {0}
IsFresh a (x ∷ xs) = (a ≢ x.at) × IsFresh a xs

abbrev pub IsDistinct : List Entry → Type 0
IsDistinct [] = Unit {0}
IsDistinct (x ∷ xs) = IsFresh x.at xs × IsDistinct xs

abbrev pub insert : Entry → List Entry → List Entry
insert e [] = e ∷ []
insert e (x ∷ xs) = if precedes e x then e ∷ x ∷ xs else x ∷ insert e xs

pub precedes_trans :
    (a b c : Entry) → precedes a b ≡ true → precedes b c ≡ true → precedes a c ≡ true
precedes_trans a b c h k = ground arith

pub precedes_asym : (a b : Entry) → precedes a b ≡ true → precedes b a ≡ false
precedes_asym a b h = ground arith

AllAfter-trans :
    (a b : Entry) (xs : List Entry) → precedes a b ≡ true → AllAfter b xs → AllAfter a xs
AllAfter-trans a b [] h k = tt
AllAfter-trans a b (x ∷ xs) h k = (precedes_trans a b x h k.0, AllAfter-trans a b xs h k.1)

AllAfter-insert :
    (a e : Entry) (xs : List Entry) → precedes a e ≡ true → AllAfter a xs → AllAfter a (insert e xs)
AllAfter-insert a e [] h k = (h, tt)
AllAfter-insert a e (x ∷ xs) h k = elim (Bool-cases (precedes e x)) [
  | inl p ↦ rw p (h, k)
  | inr p ↦ rw p (k.0, AllAfter-insert a e xs h k.1)
]

-- Two pieces at different places are in order one way.
pub precedes_total :
    (e x : Entry) → lies_at e.file e.offset x ≡ false → precedes e x ≡ false → precedes x e ≡ true
precedes_total e x h k = ground arith

pub IsSorted-insert :
    (e : Entry) (xs : List Entry)
    → IsSorted xs
    → piece_at e.file e.offset xs ≡ none
    → IsSorted (insert e xs)
IsSorted-insert e [] s n = (tt, tt)
IsSorted-insert e (x ∷ xs) s n = elim (Bool-cases (lies_at e.file e.offset x)) [
  | inl here ↦ absurd (cc (rw here at n))
  | inr other ↦ elim (Bool-cases (precedes e x)) [
    | inl p ↦ rw p ((p, AllAfter-trans e x xs p s.0), s)
    | inr p ↦ rw p (
      AllAfter-insert x e xs (precedes_total e x other p) s.0,
      IsSorted-insert e xs s.1 (rw other at n),
    )
  ]
]

pub piece_at-insert :
    (e : Entry) (xs : List Entry)
    → piece_at e.file e.offset xs ≡ none
    → (f o : ℕ) → piece_at f o (insert e xs) ≡ (if lies_at f o e then some e else piece_at f o xs)
piece_at-insert e [] n f o = refl
piece_at-insert e (x ∷ xs) n f o = elim (Bool-cases (lies_at e.file e.offset x)) [
  | inl here ↦ absurd (cc (rw here at n))
  | inr other ↦
      let later : piece_at e.file e.offset xs ≡ none = rw other at n in
      elim (Bool-cases (precedes e x)) [
        | inl p ↦ rw p
        | inr p ↦ rw (p, piece_at-insert e xs later f o) (ground (arith, other))
      ]
]

pub insert-left :
    (e x : Entry) (ls rs : List Entry)
    → precedes e x ≡ true
    → insert e (ls ++ x ∷ rs) ≡ insert e ls ++ x ∷ rs
insert-left e x [] rs p = rw p
insert-left e x (y ∷ ls) rs p = elim (Bool-cases (precedes e y)) [
  | inl q ↦ rw q
  | inr q ↦ rw (q, insert-left e x ls rs p)
]

-- In a sorted list, what is in front of a piece precedes it.
pub AllAfter-middle :
    (y x : Entry) (ls rs : List Entry) → AllAfter y (ls ++ x ∷ rs) → precedes y x ≡ true
AllAfter-middle y x [] rs h = h.0
AllAfter-middle y x (z ∷ ls) rs h = AllAfter-middle y x ls rs h.1

pub insert-right :
    (e x : Entry) (ls rs : List Entry)
    → IsSorted (ls ++ x ∷ rs)
    → precedes x e ≡ true
    → insert e (ls ++ x ∷ rs) ≡ ls ++ x ∷ insert e rs
insert-right e x [] rs s p = rw (precedes_asym x e p)
insert-right e x (y ∷ ls) rs s p =
    rw (precedes_asym y e (precedes_trans y x e (AllAfter-middle y x ls rs s.0) p))
      (ap (λ xs. y ∷ xs) (insert-right e x ls rs s.1 p))
