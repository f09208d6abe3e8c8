-- ===== src/IoLog/Trim/Pieces.antt =====
-- get_next_trim of trim.c: the pieces with one flagged or left out.
use fio_ssd.Prelude.{
  arith, refl, sym, ap, ◌∙◌, ℕ, ◌≡◌, inl, inr, none, some, List, [], ◌∷◌, ◌++◌, Bool, true, false,
  ◌||◌, ◌==◌, Bool-cases, ==_iff, ==_iff_ne,
}
use fio_ssd.IoLog.Order.{IsFresh, IsDistinct}
use fio_ssd.IoLog.{Entry, Tree, leaf, node, in_order, without, mem}
use fio_ssd.IoLog.Trim.{find, has, flag, mark, mark_tree}

abbrev pub AllHeld : List ℕ → List Entry → Type 0
AllHeld [] xs = Unit {0}
AllHeld (a ∷ rest) xs = (has a xs ≡ true) × AllHeld rest xs

abbrev pub AllOnce : List ℕ → Type 0
AllOnce [] = Unit {0}
AllOnce (a ∷ rest) = (mem a rest ≡ false) × AllOnce rest

pub find-has :
    (a : ℕ) (xs : List Entry) → has a xs ≡ true → (x : Entry) × (find a xs ≡ some x) × (x.at ≡ a)
find-has a [] h = absurd (cc h)
find-has a (x ∷ xs) h = elim (Bool-cases (a == x.at)) [
  | inl e ↦ (x, rw e, sym ((==_iff a x.at).0 e))
  | inr e ↦ rw e (find-has a xs (rw e at h))
]

pub has-append : (a : ℕ) (xs ys : List Entry) → has a (xs ++ ys) ≡ has a xs || has a ys
has-append a [] ys = refl
has-append a (x ∷ xs) ys = ground (arith, has-append a xs ys)

pub has-mark : (b a : ℕ) (xs : List Entry) → has b (mark a xs) ≡ has b xs
has-mark b a [] = refl
has-mark b a (x ∷ xs) = rw (has-mark b a xs)

pub mark-append : (a : ℕ) (xs ys : List Entry) → mark a (xs ++ ys) ≡ mark a xs ++ mark a ys
mark-append a [] ys = refl
mark-append a (x ∷ xs) ys = ap (λ (zs : List Entry). flag a x ∷ zs) (mark-append a xs ys)

pub in_order-mark_tree : (a : ℕ) (t : Tree) → in_order (mark_tree a t) ≡ mark a (in_order t)
in_order-mark_tree a leaf = refl
in_order-mark_tree a (node l x r) =
    rw (in_order-mark_tree a l, in_order-mark_tree a r, mark-append a (in_order l) (x ∷ in_order r))

pub has-without : (b a : ℕ) (xs : List Entry) → (a == b) ≡ false → has b (without a xs) ≡ has b xs
has-without b a [] h = refl
has-without b a (x ∷ xs) h = ground (arith, has-without b a xs h, h)

pub fresh-has : (a : ℕ) (xs : List Entry) → IsFresh a xs → has a xs ≡ false
fresh-has a [] h = refl
fresh-has a (x ∷ xs) h = rw ((==_iff_ne a x.at).1 h.0, fresh-has a xs h.1)

pub without_absent : (a : ℕ) (xs : List Entry) → has a xs ≡ false → without a xs ≡ xs
without_absent a [] h = refl
without_absent a (x ∷ xs) h = elim (Bool-cases (a == x.at)) [
  | inl e ↦ absurd (cc (rw e at h))
  | inr e ↦ rw (e, without_absent a xs (rw e at h))
]

pub without-append :
    (a : ℕ) (xs ys : List Entry) → without a (xs ++ ys) ≡ without a xs ++ without a ys
without-append a [] ys = refl
without-append a (x ∷ xs) ys = elim (Bool-cases (a == x.at)) [
  | inl e ↦ rw e (without-append a xs ys)
  | inr e ↦ rw (e, without-append a xs ys)
]

-- A piece of one list is not in the other.
pub absent_behind :
    (a : ℕ) (xs ys : List Entry) → IsDistinct (xs ++ ys) → has a xs ≡ true → has a ys ≡ false
absent_behind a [] ys d h = absurd (cc h)
absent_behind a (x ∷ xs) ys d h = elim (Bool-cases (a == x.at)) [
  | inl e ↦
      let same : a ≡ x.at = (==_iff a x.at).0 e in
      let none_there : has a (xs ++ ys) ≡ false =
        ap (λ (b : ℕ). has b (xs ++ ys)) same ∙ fresh-has x.at (xs ++ ys) d.0 in
      ground (arith, none_there, has-append a xs ys)
  | inr e ↦ absent_behind a xs ys d.1 (rw e at h)
]

pub find-without : (a : ℕ) (xs : List Entry) → find a (without a xs) ≡ none
find-without a [] = refl
find-without a (x ∷ xs) = ground (arith, find-without a xs)

pub find-without_other :
    (a b : ℕ) (xs : List Entry) → (a == b) ≡ false → find b (without a xs) ≡ find b xs
find-without_other a b [] h = refl
find-without_other a b (x ∷ xs) h = ground (arith, find-without_other a b xs h, h)

pub find-mark :
    (a : ℕ) (xs : List Entry) (x : Entry)
    → find a xs ≡ some x
    → find a (mark a xs) ≡ some (record x { trimmed = true })
find-mark a [] x h = absurd (cc h)
find-mark a (y ∷ ys) x h = elim (Bool-cases (a == y.at)) [
  | inl e ↦
      let same : y ≡ x = cc (rw e at h) in
      rw e (ap (λ (z : Entry). some (record z { trimmed = true })) same)
  | inr e ↦ rw e (find-mark a ys x (rw e at h))
]

pub flag_other : (a : ℕ) (x : Entry) → (a == x.at) ≡ false → flag a x ≡ x
flag_other a x h = ap (λ (t : Bool). record x { trimmed = t || x.trimmed }) h

pub find-mark_other :
    (a b : ℕ) (xs : List Entry) → (a == b) ≡ false → find b (mark a xs) ≡ find b xs
find-mark_other a b [] h = refl
find-mark_other a b (x ∷ xs) h = elim (Bool-cases (b == x.at)) [
  | inl e ↦
      let apart : (a == x.at) ≡ false = ground arith in
      rw e (ap (λ (z : Entry). some z) (flag_other a x apart))
  | inr e ↦ rw e (find-mark_other a b xs h)
]

pub IsFresh-mark : (b a : ℕ) (xs : List Entry) → IsFresh b xs → IsFresh b (mark a xs)
IsFresh-mark b a [] h = tt
IsFresh-mark b a (x ∷ xs) h = (h.0, IsFresh-mark b a xs h.1)

pub IsDistinct-mark : (a : ℕ) (xs : List Entry) → IsDistinct xs → IsDistinct (mark a xs)
IsDistinct-mark a [] h = tt
IsDistinct-mark a (x ∷ xs) h = (IsFresh-mark x.at a xs h.0, IsDistinct-mark a xs h.1)

pub AllHeld-same :
    (a : ℕ) (rest : List ℕ) (xs ys : List Entry)
    → mem a rest ≡ false
    → ((b : ℕ) → (a == b) ≡ false → has b ys ≡ has b xs)
    → AllHeld rest xs
    → AllHeld rest ys
AllHeld-same a [] xs ys m e h = tt
AllHeld-same a (b ∷ rest) xs ys m e h =
    (e b (ground (arith, m)) ∙ h.0, AllHeld-same a rest xs ys (ground (arith, m)) e h.1)
