-- ===== src/Service/Rr.antt =====
-- Round robin over the files: get_next_file_rr gives the first file that serves, and ends.
use mathlib.Core.Path.{subst}
use fio_ssd.Prelude.{
  arith, update_other, refl, sym, ap, ◌∙◌, ℕ, zero, suc, ◌+◌, ◌-◌, ◌≤◌, ◌<◌, ◌≡◌, ◌≢◌, Option, none,
  some, Bool, true, false, not, ◌&&◌, ltb, ==_iff, ==_iff_ne, if◌then◌else◌, inl, inr, Bool-cases,
}
use fio_ssd.Service.{
  Opening, refused, broken, opened, Service, counted, td_io_open_file, try_file, next_of, rr_loop,
  get_next_file_rr,
}

abbrev pub opens : Opening → Bool
opens refused = false
opens broken = false
opens opened = true

-- A file serves: it is not done, and open and not closing, or else the engine opens it.
abbrev pub ready : (ℕ → Opening) → Service → ℕ → Bool
ready engine td f =
    not (td.files f).done
    && (if (td.files f).is_open then not (td.files f).closing else opens (engine f))

-- Only the file `f` and the counts changed.
record IsOff (td td' : Service) (f : ℕ) : Type 0 where
  files : (g : ℕ) → g ≢ f → td'.files g ≡ td.files g
  nr_files : td'.nr_files ≡ td.nr_files

abbrev Tries : (ℕ → Opening) → Service → ℕ → Type 0
Tries engine td f =
    (td' : Service) × (try_file engine td f ≡ some (td', ready engine td f))
    × IsOff td td' f
    × (td'.next_file ≡ td.next_file)

unchanged : (td : Service) (f : ℕ) → IsOff td td f
unchanged td f = record { files = λ g ne. refl; nr_files = refl }

counted-IsOff : (td : Service) (f : ℕ) → IsOff td (counted td f) f
counted-IsOff td f = record {
  files = λ g ne.
      update_other td.files f g
        (record (td.files f) {
          is_open = true;
          closing = false;
          references = (td.files f).references + 1;
        })
        ne;
  nr_files = refl;
}

open_file_lem :
    (engine : ℕ → Opening) (td : Service) (f : ℕ) (how : Opening)
    → engine f ≡ how
    → td_io_open_file engine td f ≡ elim how [
      | refused ↦ (td, false)
      | broken ↦ (counted td f, false)
      | opened ↦ (counted td f, true)
    ]
unfolding td_io_open_file
open_file_lem engine td f how e = rw (td_io_open_file, e) refl

open_file-Tries :
    (engine : ℕ → Opening) (td : Service) (f : ℕ) (how : Opening)
    → engine f ≡ how
    → (td.files f).done ≡ false
    → (td.files f).is_open ≡ false
    → Tries engine td f
unfolding try_file
open_file-Tries engine td f refused e not_done shut =
    (td, simp (open_file_lem engine td f refused e, e, not_done, shut), unchanged td f, refl)
open_file-Tries engine td f broken e not_done shut = (
  counted td f,
  simp (open_file_lem engine td f broken e, e, not_done, shut),
  counted-IsOff td f,
  refl,
)
open_file-Tries engine td f opened e not_done shut = (
  counted td f,
  simp (open_file_lem engine td f opened e, e, not_done, shut, (==_iff f f).1 refl),
  counted-IsOff td f,
  refl,
)

try_file-Tries : (engine : ℕ → Opening) (td : Service) (f : ℕ) → Tries engine td f
unfolding try_file
try_file-Tries engine td f = elim (Bool-cases (td.files f).done) [
  | inl is_done ↦ (td, rw is_done refl, unchanged td f, refl)
  | inr not_done ↦ elim (Bool-cases (td.files f).is_open) [
    | inl is_open ↦ (td, rw (not_done, is_open) refl, unchanged td f, refl)
    | inr shut ↦ open_file-Tries engine td f (engine f) refl not_done shut
  ]
]

-- The file `j` places behind `p`.
abbrev pub around : ℕ → ℕ → ℕ → ℕ
around nr p j = if ltb (p + j) nr then p + j else p + j - nr

-- What the search gives after `n` files from `p` on: the first that serves, or that none does.
abbrev pub First : (ℕ → Opening) → Service → ℕ → ℕ → Option ℕ → Type 0
First engine td p n none = (i : ℕ) → i < n → ready engine td (around td.nr_files p i) ≡ false
First engine td p n (some f) =
    (j : ℕ) × (j < n)
    × (f ≡ around td.nr_files p j)
    × (ready engine td f ≡ true)
    × ((i : ℕ) → i < j → ready engine td (around td.nr_files p i) ≡ false)

around_zero : (nr p : ℕ) → p < nr → around nr p 0 ≡ p
around_zero nr p h = ground arith

around-suc : (nr p i : ℕ) → p < nr → suc i < nr → around nr p (suc i) ≡ around nr (around nr p 1) i
around-suc nr p i h k = ground arith

around_ne : (nr p i : ℕ) → p < nr → suc i < nr → around nr p (suc i) ≢ p
around_ne nr p i h k e = ground arith

ready_eq :
    (engine : ℕ → Opening) (td td' : Service) (f : ℕ)
    → td'.files f ≡ td.files f
    → ready engine td f ≡ ready engine td' f
ready_eq engine td td' f e = rw e refl

-- A file that does not serve is passed over.
module _ (engine : ℕ → Opening) (td td' : Service) (inside : td.next_file < td.nr_files)
    (bad : ready engine td td.next_file ≡ false) (off : IsOff td td' td.next_file) where
  abbrev p : ℕ
  p = td.next_file

  here : ready engine td (around td.nr_files p 0) ≡ false
  here = rw (around_zero td.nr_files p inside) bad

  there :
      (i : ℕ)
      → suc i < td.nr_files
      → ready engine td (around td.nr_files p (suc i))
        ≡ ready engine td' (around td'.nr_files (around td.nr_files p 1) i)
  there i h =
      ready_eq engine td td' (around td.nr_files p (suc i))
        (off.files (around td.nr_files p (suc i)) (around_ne td.nr_files p i inside h))
      ∙ ap (ready engine td') (
          around-suc td.nr_files p i inside h
          ∙ ap (λ n. around n (around td.nr_files p 1) i) (sym off.nr_files))

  skip_bad :
      (n : ℕ)
      → suc n ≤ td.nr_files
      → ((i : ℕ)
          → i < n
          → ready engine td' (around td'.nr_files (around td.nr_files p 1) i) ≡ false)
      → (i : ℕ) → i < suc n
      → ready engine td (around td.nr_files p i) ≡ false
  skip_bad n few bads zero h = here
  skip_bad n few bads (suc i) h = there i (omega (arith, h, few)) ∙ bads i (omega (arith, h))

  First-skip :
      (n : ℕ) (r : Option ℕ)
      → suc n ≤ td.nr_files
      → First engine td' (around td.nr_files p 1) n r
      → First engine td p (suc n) r
  First-skip n none few bads = skip_bad n few bads
  First-skip n (some f) few (j, lt, at, good, before) = (
    suc j,
    omega (arith, lt),
    place,
    ap (ready engine td) place
        ∙ there j (omega (arith, lt, few))
        ∙ ap (ready engine td') (sym at)
        ∙ good,
    skip_bad j (omega (arith, lt, few)) before,
  )
    where
      place : f ≡ around td.nr_files p (suc j)
      place =
          at
          ∙ ap (λ n. around n (around td.nr_files p 1) j) off.nr_files
          ∙ sym (around-suc td.nr_files p j inside (omega (arith, lt, few)))

next_of-eq :
    (td : Service) → td.next_file < td.nr_files → next_of td ≡ around td.nr_files td.next_file 1
next_of-eq td h = ground arith

-- The place after one that does not serve.
step_facts :
    (nr nr' p q k old : ℕ)
    → nr' ≡ nr
    → q ≡ around nr p 1
    → p < nr
    → suc (suc k) ≤ nr
    → around nr p (suc (suc k)) ≡ old
    → (q < nr') × (suc k ≤ nr') × (around nr' q (suc k) ≡ old) × (q ≢ old)
step_facts nr nr' p q k old n at inside few last =
    (ground arith, ground arith, ground arith, λ e. ground arith)

abbrev pub Searched : (ℕ → Opening) → ℕ → ℕ → Service → Type 0
Searched engine fuel old td =
    (td' : Service) × (r : Option ℕ) × (rr_loop engine fuel old td ≡ some (td', r))
    × First engine td td.next_file fuel r

rr_loop-First :
    (engine : ℕ → Opening) (fuel old : ℕ) (td : Service)
    → td.next_file < td.nr_files
    → suc fuel ≤ td.nr_files
    → around td.nr_files td.next_file (suc fuel) ≡ old
    → Searched engine (suc fuel) old td
unfolding rr_loop
rr_loop-First engine zero old td inside few last =
    let (td', tried, off, next) =
      try_file-Tries engine (record td { next_file = next_of td }) td.next_file in
    let next' : td'.next_file ≡ old = next ∙ next_of-eq td inside ∙ last in
    elim (Bool-cases (ready engine td td.next_file)) [
      | inl good ↦ (
        td',
        some td.next_file,
        rw (tried, good) refl,
        (
          0,
          omega arith,
          sym (around_zero td.nr_files td.next_file inside),
          good,
          λ i h. absurd (omega (arith, h)),
        ),
      )
      | inr bad ↦ (
        td',
        none,
        rw (tried, bad, (==_iff td'.next_file old).1 next') refl,
        First-skip engine td td' inside bad (record { files = off.files; nr_files = off.nr_files })
            0 none few (λ i h. absurd (omega (arith, h))),
      )
    ]
rr_loop-First engine (suc k) old td inside few last =
    let (td', tried, off, next) =
      try_file-Tries engine (record td { next_file = next_of td }) td.next_file in
    let at : td'.next_file ≡ around td.nr_files td.next_file 1 = next ∙ next_of-eq td inside in
    let (inside', few', last', ne) =
      step_facts td.nr_files td'.nr_files td.next_file td'.next_file k old off.nr_files at inside
        few last in
    let (td'', r, run, is) = rr_loop-First engine k old td' inside' few' last' in
    elim (Bool-cases (ready engine td td.next_file)) [
      | inl good ↦ (
        td',
        some td.next_file,
        rw (tried, good) refl,
        (
          0,
          omega arith,
          sym (around_zero td.nr_files td.next_file inside),
          good,
          λ i h. absurd (omega (arith, h)),
        ),
      )
      | inr bad ↦ (
        td'',
        r,
        rw (tried, bad, (==_iff_ne td'.next_file old).1 ne) run,
        First-skip engine td td' inside bad (record { files = off.files; nr_files = off.nr_files })
            (suc k) r few (subst (λ q. First engine td' q (suc k) r) at is),
      )
    ]

-- From a next_file that is a number of a file on, get_next_file_rr ends after as many rounds as
-- there are files: with the first file, in a circle from next_file, that is not done and is open
-- and not closing or opened by the engine, or with NULL if there is none.
pub get_next_file_rr-First :
    (engine : ℕ → Opening) (td : Service)
    → td.next_file < td.nr_files
    → (td' : Service) × (r : Option ℕ) × (get_next_file_rr engine td ≡ some (td', r))
      × First engine td td.next_file td.nr_files r
unfolding get_next_file_rr
get_next_file_rr-First engine td inside =
    subst (λ n. Searched engine n td.next_file td) whole
      (rr_loop-First engine (td.nr_files - 1) td.next_file td inside (omega (arith, inside))
        (ground (arith, inside)))
  where
    whole : suc (td.nr_files - 1) ≡ td.nr_files
    whole = omega (arith, inside)

-- Where the engine opens a file that is not done and a later step of td_io_open_file fails,
-- td_io_open_file reports an error, but the next try of get_next_file_rr or get_next_file_rand
-- takes this file as one that serves, without opening it.
pub try_file-broken :
    (engine : ℕ → Opening) (td : Service) (f : ℕ)
    → engine f ≡ broken
    → (td.files f).done ≡ false
    → ((td_io_open_file engine td f).1 ≡ false)
      × (try_file engine ((td_io_open_file engine td f).0) f
          ≡ some ((td_io_open_file engine td f).0, true))
unfolding try_file
try_file-broken engine td f e not_done =
    rw (open_file_lem engine td f broken e, (==_iff f f).1 refl, not_done) (refl, refl)
