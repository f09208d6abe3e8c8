-- ===== src/Queues/Reach.antt =====
-- Runs of the queues: every state that the operations reach is well formed, and no assert on the
-- flag of a free io_u fails.
use mathlib.Core.Path.{subst}
use fio_ssd.Prelude.{
  arith, update, update_self, update_other, refl, sym, ap, ◌∙◌, ℕ, zero, suc, ◌≤◌, ◌≡◌, ◌≢◌, ◌⊎◌,
  inl, inr, Option, none, some, List, [], ◌∷◌, length, false, ltb, if◌then◌else◌, ℕ_discrete,
}
use fio_ssd.RandMap.{u32}
use fio_ssd.Queues.{
  down, free_unit, init_io_u, IoUnit, Queues, put_io_u, clear_io_u, requeue_io_u, verify_io_u_async,
  take, get_from, get_io_u,
}
use fio_ssd.Queues.Moves.{count, Place, idle, busy, requeued, verifying, queue, Fits, IsQueues}
use fio_ssd.Queues.Steps.{
  Gives, put_io_u-IsQueues, verify_io_u_async-IsQueues, requeue_io_u-IsQueues, take-IsQueues,
}

-- The fields of an io_u that no flag of the queues is in may change.
Fits-flight : (p : Place) (u : IoUnit) → Fits p u → Fits p (record u { flight = false })
Fits-flight idle u f = f
Fits-flight busy u f = f
Fits-flight requeued u f = f
Fits-flight verifying u f = f

-- An io_u that is handed out was in use nowhere; none is where no io_u waits.
abbrev pub Unused : Queues → Option ℕ → Type 0
Unused td none = (td.io_u_requeues ≡ []) × (td.io_u_freelist ≡ [])
Unused td (some i) = (count i td.io_u_busylist ≡ 0) × (count i td.verify_list ≡ 0)

at_head : {i : ℕ} {xs ys : List ℕ} → ys ≡ i ∷ xs → 1 ≤ count i ys
at_head {i} {xs} e = subst (λ zs. 1 ≤ count i zs) (sym e) (ground arith)

module _ {n : ℕ} {td : Queues} (is : IsQueues n td) where
  abbrev landed : ℕ → Queues
  landed i = record td { units = update td.units i (record (td.units i) { flight = false }) }

  still : (i : ℕ) (p : Place) (j : ℕ) → 1 ≤ count j (queue (landed i) p) → 1 ≤ count j (queue td p)
  still i idle j one = one
  still i busy j one = one
  still i requeued j one = one
  still i verifying j one = one

  landed-IsQueues : (i : ℕ) → IsQueues n (landed i)
  landed-IsQueues i = record {
    once = λ j. is.once j;
    fits = λ p j one. elim (ℕ_discrete i j) [
      | yes same ↦
          subst (λ x. Fits p ((landed i).units x)) same
            (subst (Fits p) (sym (update_self td.units i (record (td.units i) { flight = false })))
              (Fits-flight p (td.units i)
                (is.fits p i (subst (λ x. 1 ≤ count x (queue td p)) (sym same) (still i p j one)))))
      | no other ↦
          subst (Fits p)
            (sym (
              update_other td.units i j (record (td.units i) { flight = false })
                (λ e. other (sym e))))
            (is.fits p j (still i p j one))
    ];
    depth = is.depth;
  }

  clear_io_u-IsQueues :
      (i : ℕ)
      → (1 ≤ count i td.io_u_busylist) ⊎ (1 ≤ count i td.verify_list)
      → Gives (IsQueues n) (clear_io_u td i)
  unfolding clear_io_u
  clear_io_u-IsQueues i held = put_io_u-IsQueues (landed-IsQueues i) i held

  get_from-IsQueues :
      (rs fs : List ℕ)
      → td.io_u_requeues ≡ rs
      → td.io_u_freelist ≡ fs
      → (td' : Queues) × (got : Option ℕ) × (get_from td rs fs ≡ some (td', got))
        × IsQueues n td'
        × Unused td got
  unfolding get_from
  get_from-IsQueues (i ∷ rs) fs e e' = (
    take td i (td.units i),
    some i,
    rw (is.fits requeued i (at_head e)) refl,
    take-IsQueues is i (td.units i) (inr (at_head e)),
    (ground (arith, at_head e, is.once i), ground (arith, at_head e, is.once i)),
  )
  get_from-IsQueues [] (i ∷ fs) e e' = (
    take td i (record (td.units i) { buflen = 0; resid = 0; file = none }),
    some i,
    rw (is.fits idle i (at_head e')) refl,
    take-IsQueues is i (record (td.units i) { buflen = 0; resid = 0; file = none })
        (inl (at_head e')),
    (ground (arith, at_head e', is.once i), ground (arith, at_head e', is.once i)),
  )
  get_from-IsQueues [] [] e e' = (td, none, refl, is, (e, e'))

  -- __get_io_u fails no assert.
  get_io_u-IsQueues :
      (td' : Queues) × (got : Option ℕ) × (get_io_u td ≡ some (td', got))
      × IsQueues n td'
      × Unused td got
  unfolding get_io_u
  get_io_u-IsQueues = get_from-IsQueues td.io_u_requeues td.io_u_freelist refl refl

-- What the rest of the program may do to a busy io_u: all but the flags of the queues.
pub record IsUse (td td' : Queues) (i : ℕ) : Type 0 where
  pub lists : (p : Place) → queue td' p ≡ queue td p
  pub others : (j : ℕ) → j ≢ i → td'.units j ≡ td.units j
  pub flags :
      ((td'.units i).free ≡ (td.units i).free)
      × ((td'.units i).in_cur_depth ≡ (td.units i).in_cur_depth)
  pub depth : td'.cur_depth ≡ td.cur_depth

-- A step of the program on the queues, by the thread that holds the io_u.
pub data Step (td td' : Queues) : Type 0 where
  gets : (got : Option ℕ) → get_io_u td ≡ some (td', got) → Step td td'
  uses : (i : ℕ) → 1 ≤ count i td.io_u_busylist → IsUse td td' i → Step td td'
  puts :
      (i : ℕ)
      → (1 ≤ count i td.io_u_busylist) ⊎ (1 ≤ count i td.verify_list)
      → put_io_u td i ≡ some td'
      → Step td td'
  clears :
      (i : ℕ)
      → (1 ≤ count i td.io_u_busylist) ⊎ (1 ≤ count i td.verify_list)
      → clear_io_u td i ≡ some td'
      → Step td td'
  requeues : (i : ℕ) → 1 ≤ count i td.io_u_busylist → requeue_io_u td i ≡ td' → Step td td'
  verifies :
      (i : ℕ) → 1 ≤ count i td.io_u_busylist → verify_io_u_async td i ≡ some td' → Step td td'

pub data Run (td : Queues) : Queues → Type 0 where
  done : Run td td
  step : (td' td'' : Queues) → Run td td' → Step td' td'' → Run td td''

given : (P : Queues → Type 0) (o : Option Queues) (td : Queues) → Gives P o → o ≡ some td → P td
given P o td g e = subst (Gives P) e g

IsUse-IsQueues :
    (n : ℕ) (td td' : Queues) (i : ℕ)
    → IsQueues n td
    → 1 ≤ count i td.io_u_busylist
    → IsUse td td' i
    → IsQueues n td'
IsUse-IsQueues n td td' i is one u = record {
  once = λ j. ground (
    arith,
    is.once j,
    ap (count j) (u.lists idle),
    ap (count j) (u.lists busy),
    ap (count j) (u.lists requeued),
    ap (count j) (u.lists verifying),
  );
  fits = λ p j there. elim (ℕ_discrete j i) [
    | yes same ↦
        subst (λ x. Fits p (td'.units x)) (sym same)
          (mine p (
            subst (λ x. 1 ≤ count x (queue td p)) same
              (subst (λ xs. 1 ≤ count j xs) (u.lists p) there)))
    | no other ↦
        subst (Fits p) (sym (u.others j other))
          (is.fits p j (subst (λ xs. 1 ≤ count j xs) (u.lists p) there))
  ];
  depth = u.depth ∙ is.depth ∙ ap (λ xs. u32 (length xs)) (sym (u.lists busy));
}
  where
    mine : (p : Place) → 1 ≤ count i (queue td p) → Fits p (td'.units i)
    mine idle there = absurd (ground (arith, is.once i, one, there))
    mine busy there = (u.flags.0 ∙ (is.fits busy i one).0, u.flags.1 ∙ (is.fits busy i one).1)
    mine requeued there = absurd (ground (arith, is.once i, one, there))
    mine verifying there = absurd (ground (arith, is.once i, one, there))

Step-IsQueues : (n : ℕ) (td td' : Queues) → IsQueues n td → Step td td' → IsQueues n td'
Step-IsQueues n td td' is (gets got e) =
    let (td'', got', e', is', unused) = get_io_u-IsQueues is in subst (IsQueues n) (cc (e, e')) is'
Step-IsQueues n td td' is (uses i one u) = IsUse-IsQueues n td td' i is one u
Step-IsQueues n td td' is (puts i held e) =
    given (IsQueues n) (put_io_u td i) td' (put_io_u-IsQueues is i held) e
Step-IsQueues n td td' is (clears i held e) =
    given (IsQueues n) (clear_io_u td i) td' (clear_io_u-IsQueues is i held) e
Step-IsQueues n td td' is (requeues i one e) = subst (IsQueues n) e (requeue_io_u-IsQueues is i one)
Step-IsQueues n td td' is (verifies i one e) =
    given (IsQueues n) (verify_io_u_async td i) td' (verify_io_u_async-IsQueues is i one) e

IsQueues-Run : (n : ℕ) (td td' : Queues) → IsQueues n td → Run td td' → IsQueues n td'
IsQueues-Run n td td' is done = is
IsQueues-Run n td td'' is (step td' _ run next) =
    Step-IsQueues n td' td'' (IsQueues-Run n td td' is run) next

count-down : (n j : ℕ) → count j (down n) ≡ (if ltb j n then 1 else 0)
count-down zero j = ground arith
count-down (suc n) j = ground (arith, count-down n j)

init_io_u-IsQueues : (n : ℕ) → IsQueues n (init_io_u n)
unfolding init_io_u
init_io_u-IsQueues n = record {
  once = λ j. omega (arith, count-down n j);
  fits = fits;
  depth = refl;
}
  where
    fits : (p : Place) (j : ℕ) → 1 ≤ count j (queue (init_io_u n) p) → Fits p free_unit
    fits idle j one = refl
    fits busy j one = absurd (omega (arith, one))
    fits requeued j one = refl
    fits verifying j one = absurd (omega (arith, one))

-- However the operations on the queues follow each other from init_io_u on, with put_io_u and
-- clear_io_u on io_us that are busy or wait for a verify thread and the others on busy ones: each
-- io_u stands once in one queue with the flags of this queue, cur_depth is the number of busy ones
-- modulo 2 ^ 32, and __get_io_u fails no assert, hands out an io_u that nobody has, and gives NULL
-- only where none waits.
pub Run-IsQueues :
    (n : ℕ) (td : Queues)
    → Run (init_io_u n) td
    → IsQueues n td
      × ((td' : Queues) × (got : Option ℕ) × (get_io_u td ≡ some (td', got)) × Unused td got)
Run-IsQueues n td run =
    let is = IsQueues-Run n (init_io_u n) td (init_io_u-IsQueues n) run in
    let (td', got, e, is', unused) = get_io_u-IsQueues is in (is, (td', got, e, unused))
