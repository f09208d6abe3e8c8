-- ===== src/IoLog/Descent.antt =====
-- The walk of log_io_piece through a sorted tree.
use fio_ssd.Prelude.{
  arith, refl, sym, ap, ◌∙◌, ◌≡◌, inl, inr, none, some, List, [], ◌∷◌, ◌++◌, true, false,
  Bool-cases,
}
use fio_ssd.IoLog.{Entry, Tree, leaf, node, in_order, Walk, found, linked, on_left, on_right, walk}
use fio_ssd.IoLog.Order.{
  precedes, lies_at, piece_at, AllAfter, IsSorted, insert, precedes_total, insert-left,
  insert-right, AllAfter-middle, precedes_trans,
}

-- The walk ends at the piece of the same place, or puts the new one where it belongs.
abbrev pub Ends : Entry → List Entry → Walk → Type 0
Ends e xs (found x) = piece_at e.file e.offset xs ≡ some x
Ends e xs (linked t) = (piece_at e.file e.offset xs ≡ none) × (in_order t ≡ insert e xs)

-- Pieces behind one that comes after `e` are not at its place, nor are those before one that it
-- comes after.
absent_after :
    (e x : Entry) (xs : List Entry)
    → precedes e x ≡ true
    → AllAfter x xs
    → piece_at e.file e.offset xs ≡ none
absent_after e x [] h k = refl
absent_after e x (y ∷ ys) h k =
    let apart : lies_at e.file e.offset y ≡ false = places_apart e y (precedes_trans e x y h k.0) in
    rw apart (absent_after e x ys h k.1)
  where
    places_apart : (a b : Entry) → precedes a b ≡ true → lies_at a.file a.offset b ≡ false
    places_apart a b p = ground arith

same_place-apart :
    (e y x : Entry) → precedes y x ≡ true → precedes x e ≡ true → lies_at e.file e.offset y ≡ false
same_place-apart e y x h k = ground arith

place_apart : (e x : Entry) → precedes e x ≡ true → lies_at e.file e.offset x ≡ false
place_apart e x h = ground arith

place_apart_behind : (e x : Entry) → precedes x e ≡ true → lies_at e.file e.offset x ≡ false
place_apart_behind e x h = ground arith

piece_at-left :
    (e x : Entry) (ls rs : List Entry)
    → IsSorted (ls ++ x ∷ rs)
    → precedes e x ≡ true
    → piece_at e.file e.offset (ls ++ x ∷ rs) ≡ piece_at e.file e.offset ls
piece_at-left e x [] rs s h = rw (place_apart e x h) (absent_after e x rs h s.0)
piece_at-left e x (y ∷ ls) rs s h = elim (Bool-cases (lies_at e.file e.offset y)) [
  | inl here ↦ rw here
  | inr other ↦ rw other (piece_at-left e x ls rs s.1 h)
]

piece_at-right :
    (e x : Entry) (ls rs : List Entry)
    → IsSorted (ls ++ x ∷ rs)
    → precedes x e ≡ true
    → piece_at e.file e.offset (ls ++ x ∷ rs) ≡ piece_at e.file e.offset rs
piece_at-right e x [] rs s h = rw (place_apart_behind e x h)
piece_at-right e x (y ∷ ls) rs s h =
    rw (same_place-apart e y x (AllAfter-middle y x ls rs s.0) h) (piece_at-right e x ls rs s.1 h)

IsSorted-left : (x : Entry) (ls rs : List Entry) → IsSorted (ls ++ x ∷ rs) → IsSorted ls
IsSorted-left x [] rs s = tt
IsSorted-left x (y ∷ ls) rs s = (front ls s.0, IsSorted-left x ls rs s.1)
  where
    front : (ms : List Entry) → AllAfter y (ms ++ x ∷ rs) → AllAfter y ms
    front [] h = tt
    front (z ∷ ms) h = (h.0, front ms h.1)

IsSorted-right : (x : Entry) (ls rs : List Entry) → IsSorted (ls ++ x ∷ rs) → IsSorted rs
IsSorted-right x [] rs s = s.1
IsSorted-right x (y ∷ ls) rs s = IsSorted-right x ls rs s.1

piece_at-here :
    (e x : Entry) (ls rs : List Entry)
    → IsSorted (ls ++ x ∷ rs)
    → lies_at e.file e.offset x ≡ true
    → piece_at e.file e.offset (ls ++ x ∷ rs) ≡ some x
piece_at-here e x [] rs s h = rw h
piece_at-here e x (y ∷ ls) rs s h =
    rw (before_same e y x (AllAfter-middle y x ls rs s.0) h) (piece_at-here e x ls rs s.1 h)
  where
    before_same :
        (e' y' x' : Entry)
        → precedes y' x' ≡ true
        → lies_at e'.file e'.offset x' ≡ true
        → lies_at e'.file e'.offset y' ≡ false
    before_same e' y' x' p q = ground arith

walk-leaf : (e : Entry) → walk e leaf ≡ linked (node leaf e leaf)
unfolding walk
walk-leaf e = refl

walk-left :
    (e x : Entry) (l r : Tree) → precedes e x ≡ true → walk e (node l x r) ≡ on_left x r (walk e l)
unfolding walk
walk-left e x l r h = ground arith

walk-right :
    (e x : Entry) (l r : Tree) → precedes x e ≡ true → walk e (node l x r) ≡ on_right l x (walk e r)
unfolding walk
walk-right e x l r h = ground arith

walk-here :
    (e x : Entry) (l r : Tree) → lies_at e.file e.offset x ≡ true → walk e (node l x r) ≡ found x
unfolding walk
walk-here e x l r h = ground arith

on_left-Ends :
    (e x : Entry) (l r : Tree) (w : Walk)
    → IsSorted (in_order (node l x r))
    → precedes e x ≡ true
    → Ends e (in_order l) w
    → Ends e (in_order (node l x r)) (on_left x r w)
on_left-Ends e x l r (found y) s h k = piece_at-left e x (in_order l) (in_order r) s h ∙ k
on_left-Ends e x l r (linked t) s h k = (
  piece_at-left e x (in_order l) (in_order r) s h ∙ k.0,
  ap (λ (ls : List Entry). ls ++ x ∷ in_order r) k.1
      ∙ sym (insert-left e x (in_order l) (in_order r) h),
)

on_right-Ends :
    (e x : Entry) (l r : Tree) (w : Walk)
    → IsSorted (in_order (node l x r))
    → precedes x e ≡ true
    → Ends e (in_order r) w
    → Ends e (in_order (node l x r)) (on_right l x w)
on_right-Ends e x l r (found y) s h k = piece_at-right e x (in_order l) (in_order r) s h ∙ k
on_right-Ends e x l r (linked t) s h k = (
  piece_at-right e x (in_order l) (in_order r) s h ∙ k.0,
  ap (λ (rs : List Entry). in_order l ++ x ∷ rs) k.1
      ∙ sym (insert-right e x (in_order l) (in_order r) s h),
)

pub walk-Ends : (e : Entry) (t : Tree) → IsSorted (in_order t) → Ends e (in_order t) (walk e t)
walk-Ends e leaf s = rw (walk-leaf e) (refl, refl)
walk-Ends e (node l x r) s = elim (Bool-cases (lies_at e.file e.offset x)) [
  | inl here ↦ rw (walk-here e x l r here) (piece_at-here e x (in_order l) (in_order r) s here)
  | inr other ↦ elim (Bool-cases (precedes e x)) [
    | inl p ↦ rw (walk-left e x l r p) (
        on_left-Ends e x l r (walk e l) s p
          (walk-Ends e l (IsSorted-left x (in_order l) (in_order r) s)))
    | inr p ↦
        let q = precedes_total e x other p in
        rw (walk-right e x l r q) (
          on_right-Ends e x l r (walk e r) s q
            (walk-Ends e r (IsSorted-right x (in_order l) (in_order r) s)))
  ]
]
