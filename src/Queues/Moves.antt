-- ===== src/Queues/Moves.antt =====
-- Each operation on the queues moves one io_u from one list to another.
use mathlib.Core.Path.{subst}
use fio_ssd.Prelude.{
  arith, update, remove, update_self, update_other, refl, sym, ap, ◌∙◌, ℕ, ◌+◌, ◌≤◌, ◌<◌, ◌≡◌, List,
  [], ◌∷◌, ◌++◌, length, Bool, true, false, ltb, ◌==◌, if◌then◌else◌, ℕ_discrete,
}
use fio_ssd.RandMap.{u32}
use fio_ssd.Queues.{IoUnit, Queues}

abbrev pub count : ℕ → List ℕ → ℕ
count j [] = 0
count j (x ∷ xs) = (if x == j then 1 else 0) + count j xs

pub count-remove :
    (i j : ℕ) (xs : List ℕ) → count j (remove i xs) ≡ (if i == j then 0 else count j xs)
count-remove i j [] = ground arith
count-remove i j (x ∷ xs) = ground (arith, count-remove i j xs)

pub count-append :
    (i j : ℕ) (xs : List ℕ) → count j (xs ++ (i ∷ [])) ≡ count j xs + (if i == j then 1 else 0)
count-append i j [] = omega arith
count-append i j (x ∷ xs) = omega (arith, count-append i j xs)

pub length-remove : (i : ℕ) (xs : List ℕ) → length (remove i xs) + count i xs ≡ length xs
length-remove i [] = omega arith
length-remove i (x ∷ xs) = ground (arith, length-remove i xs)

pub data Place : Type 0 where
  idle busy requeued verifying : Place

abbrev pub queue : Queues → Place → List ℕ
queue td idle = td.io_u_freelist
queue td busy = td.io_u_busylist
queue td requeued = td.io_u_requeues
queue td verifying = td.verify_list

abbrev pub is_place : Place → Place → Bool
is_place idle idle = true
is_place busy busy = true
is_place requeued requeued = true
is_place verifying verifying = true
is_place p q = false

-- The flags of an io_u in a place.
abbrev pub Fits : Place → IoUnit → Type 0
Fits idle u = u.free ≡ true
Fits busy u = (u.free ≡ false) × (u.in_cur_depth ≡ true)
Fits requeued u = u.free ≡ true
Fits verifying u = (u.in_cur_depth ≡ false) × (u.free_def ≡ true)

abbrev pub total : Queues → ℕ → ℕ
total td j =
    count j td.io_u_freelist
    + count j td.io_u_busylist
    + count j td.io_u_requeues
    + count j td.verify_list

-- Each of the `n` io_us stands once in one queue, its flags fit this queue, and cur_depth counts the
-- busy ones.
pub record IsQueues (n : ℕ) (td : Queues) : Type 0 where
  pub once : (j : ℕ) → total td j ≡ (if ltb j n then 1 else 0)
  pub fits : (p : Place) (j : ℕ) → 1 ≤ count j (queue td p) → Fits p (td.units j)
  pub depth : td.cur_depth ≡ u32 (length td.io_u_busylist)

-- The io_u `i` was moved to `to`.
pub record IsMoved (td td' : Queues) (i : ℕ) (to : Place) (u : IoUnit) : Type 0 where
  pub counts :
      (p : Place) (j : ℕ)
      → count j (queue td' p)
        ≡ (if i == j then (if is_place p to then 1 else 0) else count j (queue td p))
  pub units : td'.units ≡ update td.units i u
  pub fitting : Fits to u

one_place :
    (to : Place)
    → (if is_place idle to then 1 else 0)
        + (if is_place busy to then 1 else 0)
        + (if is_place requeued to then 1 else 0)
        + (if is_place verifying to then 1 else 0)
      ≡ 1
one_place idle = omega arith
one_place busy = omega arith
one_place requeued = omega arith
one_place verifying = omega arith

is_place_eq : (p q : Place) → is_place p q ≡ true → p ≡ q
is_place_eq idle idle e = refl
is_place_eq busy busy e = refl
is_place_eq requeued requeued e = refl
is_place_eq verifying verifying e = refl
is_place_eq p q e = absurd (cc e)

module _ {n : ℕ} {td td' : Queues} {i : ℕ} {to : Place} {u : IoUnit} (is : IsQueues n td)
    (here : i < n) (moved : IsMoved td td' i to u) where
  total-moved : (j : ℕ) → total td' j ≡ (if i == j then 1 else total td j)
  total-moved j = ground (
    arith,
    moved.counts idle j,
    moved.counts busy j,
    moved.counts requeued j,
    moved.counts verifying j,
    one_place to,
  )

  Fits-moved : (p : Place) (j : ℕ) → 1 ≤ count j (queue td' p) → Fits p (td'.units j)
  Fits-moved p j one = elim (ℕ_discrete i j) [
    | yes same ↦
        subst (λ q. Fits q (td'.units j)) (sym (placed same))
          (subst (Fits to)
            (sym (unit_at ∙ ap (update td.units i u) (sym same) ∙ update_self td.units i u))
            moved.fitting)
    | no other ↦
        subst (Fits p) (sym (unit_at ∙ update_other td.units i j u (λ e. other (sym e))))
          (is.fits p j (ground (arith, moved.counts p j, one, other)))
  ]
    where
      unit_at : td'.units j ≡ update td.units i u j
      unit_at = ap (λ f. f j) moved.units

      placed : i ≡ j → p ≡ to
      placed same = is_place_eq p to (ground (arith, moved.counts p j, one, same))

  pub IsMoved-IsQueues : td'.cur_depth ≡ u32 (length td'.io_u_busylist) → IsQueues n td'
  IsMoved-IsQueues depth = record {
    once = λ j. ground (arith, total-moved j, is.once j, here);
    fits = Fits-moved;
    depth = depth;
  }
