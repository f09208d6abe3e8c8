-- ===== src/IoLog/Keeps.antt =====
-- What the tree of pieces keeps: of each place the piece that was logged last.
use mathlib.Core.Path.{subst}
use fio_ssd.Prelude.{
  arith, refl, sym, ℕ, ◌≡◌, ◌≢◌, inl, inr, none, some, List, [], ◌∷◌, true, false, ◌&&◌, ◌==◌,
  if◌then◌else◌, Bool-cases, ==_iff, ==_iff_ne,
}
use fio_ssd.IoLog.{Entry, without}
use fio_ssd.IoLog.Order.{
  precedes, lies_at, piece_at, AllAfter, IsSorted, IsFresh, IsDistinct, insert,
}

IsFresh-found :
    (a f o : ℕ) (xs : List Entry) (x : Entry) → IsFresh a xs → piece_at f o xs ≡ some x → a ≢ x.at
IsFresh-found a f o [] x h e = absurd (cc e)
IsFresh-found a f o (y ∷ ys) x h e = elim (Bool-cases (lies_at f o y)) [
  | inl here ↦ let same : y ≡ x = cc (rw here at e) in subst (λ (z : Entry). a ≢ z.at) same h.0
  | inr other ↦ IsFresh-found a f o ys x h.1 (rw other at e)
]

pub without_fresh : (a : ℕ) (xs : List Entry) → IsFresh a xs → without a xs ≡ xs
without_fresh a [] h = refl
without_fresh a (x ∷ xs) h = rw ((==_iff_ne a x.at).1 h.0, without_fresh a xs h.1)

AllAfter-without : (a : ℕ) (x : Entry) (xs : List Entry) → AllAfter x xs → AllAfter x (without a xs)
AllAfter-without a x [] h = tt
AllAfter-without a x (y ∷ ys) h = elim (Bool-cases (a == y.at)) [
  | inl e ↦ rw e (AllAfter-without a x ys h.1)
  | inr e ↦ rw e (h.0, AllAfter-without a x ys h.1)
]

pub IsSorted-without : (a : ℕ) (xs : List Entry) → IsSorted xs → IsSorted (without a xs)
IsSorted-without a [] h = tt
IsSorted-without a (x ∷ xs) h = elim (Bool-cases (a == x.at)) [
  | inl e ↦ rw e (IsSorted-without a xs h.1)
  | inr e ↦ rw e (AllAfter-without a x xs h.0, IsSorted-without a xs h.1)
]

pub IsFresh-without : (a b : ℕ) (xs : List Entry) → IsFresh b xs → IsFresh b (without a xs)
IsFresh-without a b [] h = tt
IsFresh-without a b (x ∷ xs) h = elim (Bool-cases (a == x.at)) [
  | inl e ↦ rw e (IsFresh-without a b xs h.1)
  | inr e ↦ rw e (h.0, IsFresh-without a b xs h.1)
]

pub IsDistinct-without : (a : ℕ) (xs : List Entry) → IsDistinct xs → IsDistinct (without a xs)
IsDistinct-without a [] h = tt
IsDistinct-without a (x ∷ xs) h = elim (Bool-cases (a == x.at)) [
  | inl e ↦ rw e (IsDistinct-without a xs h.1)
  | inr e ↦ rw e (IsFresh-without a x.at xs h.0, IsDistinct-without a xs h.1)
]

IsFresh-insert :
    (a : ℕ) (e : Entry) (xs : List Entry) → a ≢ e.at → IsFresh a xs → IsFresh a (insert e xs)
IsFresh-insert a e [] n h = (n, tt)
IsFresh-insert a e (x ∷ xs) n h = elim (Bool-cases (precedes e x)) [
  | inl p ↦ rw p (n, h)
  | inr p ↦ rw p (h.0, IsFresh-insert a e xs n h.1)
]

pub IsDistinct-insert :
    (e : Entry) (xs : List Entry) → IsFresh e.at xs → IsDistinct xs → IsDistinct (insert e xs)
IsDistinct-insert e [] f d = (tt, tt)
IsDistinct-insert e (x ∷ xs) f d = elim (Bool-cases (precedes e x)) [
  | inl p ↦ rw p (f, d)
  | inr p ↦ rw p (IsFresh-insert x.at e xs (λ q. f.0 (sym q)) d.0, IsDistinct-insert e xs f.1 d.1)
]

-- The places of a sorted list behind its first piece.
same_place : (f o : ℕ) (x : Entry) → lies_at f o x ≡ true → (x.file ≡ f) × (x.offset ≡ o)
same_place f o x h = (ground arith, ground arith)

absent_behind :
    (f o : ℕ) (x : Entry) (xs : List Entry)
    → lies_at f o x ≡ true
    → AllAfter x xs
    → piece_at f o xs ≡ none
absent_behind f o x [] h k = refl
absent_behind f o x (y ∷ ys) h k = rw (elsewhere x y k.0 h) (absent_behind f o x ys h k.1)
  where
    elsewhere : (a b : Entry) → precedes a b ≡ true → lies_at f o a ≡ true → lies_at f o b ≡ false
    elsewhere a b p q = ground arith

-- Without the piece of one place, the others are as before.
pub piece_at-without :
    (f o : ℕ) (xs : List Entry) (x : Entry)
    → IsSorted xs
    → IsDistinct xs
    → piece_at f o xs ≡ some x
    → (g p : ℕ)
    → piece_at g p (without x.at xs) ≡ (if (f == g) && (o == p) then none else piece_at g p xs)
piece_at-without f o [] x s d e g p = absurd (cc e)
piece_at-without f o (y ∷ ys) x s d e g p = elim (Bool-cases (lies_at f o y)) [
  | inl here ↦
      let same : y ≡ x = cc (rw here at e) in
      let self : (x.at == y.at) ≡ true = rw same ((==_iff x.at x.at).1 refl) in
      let rest : without x.at ys ≡ ys =
        without_fresh x.at ys (subst (λ (z : Entry). IsFresh z.at ys) same d.0) in
      rw (self, rest) (ground (arith, absent_behind f o y ys here s.0, here))
  | inr other ↦
      let later : piece_at f o ys ≡ some x = rw other at e in
      let apart : (x.at == y.at) ≡ false =
        (==_iff_ne x.at y.at).1 (λ q. IsFresh-found y.at f o ys x d.0 later (sym q)) in
      rw (apart, piece_at-without f o ys x s.1 d.1 later g p) (ground (arith, other))
]
