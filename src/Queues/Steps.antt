-- ===== src/Queues/Steps.antt =====
-- The operations on the queues keep them well formed.
use fio_ssd.Prelude.{
  arith, update, remove, refl, sym, ap, ◌∙◌, ℕ, ◌+◌, ◌-◌, ◌^◌, ◌≤◌, ◌<◌, ◌≡◌, ◌⊎◌, inl, inr, Option,
  none, some, length, Bool, true, false, ◌==◌, if◌then◌else◌, Bool-cases,
}
use fio_ssd.RandMap.{u32, ◌>>=◌}
use fio_ssd.Queues.{
  IoUnit, Queues, put_file, put_files, given_back, queued_verify, depth_less, put_io_u,
  requeue_io_u, verify_io_u_async, taken, take,
}
use fio_ssd.Queues.Moves.{
  count, count-remove, count-append, length-remove, Place, idle, busy, requeued, verifying, queue,
  is_place, IsQueues, IsMoved, IsMoved-IsQueues,
}

abbrev pub SameQueues : Queues → Queues → Type 0
SameQueues td td1 = (p : Place) → queue td1 p ≡ queue td p

-- What an operation that may fail gives.
abbrev pub Gives : (Queues → Type 0) → Option Queues → Type 0
Gives P none = Unit
Gives P (some td) = P td

put_file-Same : (td : Queues) (f : ℕ) → Gives (SameQueues td) (put_file td f)
unfolding put_file
put_file-Same td f = elim (Bool-cases (td.is_open f)) [
  | inr closed ↦ rw closed (all_same td.references td.is_open td.nr_open_files)
  | inl opened ↦ rw opened (elim (Bool-cases (td.references f == 0)) [
    | inl unused ↦ rw unused tt
    | inr used ↦ rw used (elim (Bool-cases (td.references f == 1)) [
      | inl last ↦ rw last (
          all_same (update td.references f (td.references f - 1)) (update td.is_open f false)
            (u32 (td.nr_open_files + 2 ^ 32 - 1)))
      | inr more ↦
          rw more
            (all_same (update td.references f (td.references f - 1)) td.is_open td.nr_open_files)
    ])
  ])
]
  where
    all_same :
        (r : ℕ → ℕ) (o : ℕ → Bool) (n : ℕ)
        → SameQueues td (record td { references = r; is_open = o; nr_open_files = n })
    all_same r o n idle = refl
    all_same r o n busy = refl
    all_same r o n requeued = refl
    all_same r o n verifying = refl

put_files-Same : (td : Queues) (f : Option ℕ) → Gives (SameQueues td) (put_files td f)
put_files-Same td none = λ p. refl
put_files-Same td (some f) = put_file-Same td f

given_back-IsMoved :
    (td td1 : Queues) (i : ℕ)
    → SameQueues td td1
    → IsMoved td
        (given_back td td1 i)
        i
        idle
        (record (td.units i) { file = none; free_def = false; free = true })
given_back-IsMoved td td1 i s = record { counts = counts; units = refl; fitting = refl }
  where
    counts :
        (p : Place) (j : ℕ)
        → count j (queue (given_back td td1 i) p)
          ≡ (if i == j then (if is_place p idle then 1 else 0) else count j (queue td p))
    counts idle j = ground (arith, count-remove i j td1.io_u_freelist, ap (count j) (s idle))
    counts busy j = ground (arith, count-remove i j td1.io_u_busylist, ap (count j) (s busy))
    counts requeued j =
        ground (arith, count-remove i j td1.io_u_requeues, ap (count j) (s requeued))
    counts verifying j =
        ground (arith, count-remove i j td1.verify_list, ap (count j) (s verifying))

queued_verify-IsMoved :
    (td td1 : Queues) (i : ℕ)
    → SameQueues td td1
    → IsMoved td
        (queued_verify td td1 i)
        i
        verifying
        (record (td.units i) { in_cur_depth = false; free_def = true })
queued_verify-IsMoved td td1 i s = record { counts = counts; units = refl; fitting = (refl, refl) }
  where
    counts :
        (p : Place) (j : ℕ)
        → count j (queue (queued_verify td td1 i) p)
          ≡ (if i == j then (if is_place p verifying then 1 else 0) else count j (queue td p))
    counts idle j = ground (arith, count-remove i j td1.io_u_freelist, ap (count j) (s idle))
    counts busy j = ground (arith, count-remove i j td1.io_u_busylist, ap (count j) (s busy))
    counts requeued j =
        ground (arith, count-remove i j td1.io_u_requeues, ap (count j) (s requeued))
    counts verifying j = ground (
      arith,
      count-append i j (remove i td1.verify_list),
      count-remove i j td1.verify_list,
      ap (count j) (s verifying),
    )

module _ {n : ℕ} {td : Queues} (is : IsQueues n td) where
  held-lt : (i : ℕ) (p : Place) → 1 ≤ count i (queue td p) → i < n
  held-lt i idle one = ground (arith, is.once i)
  held-lt i busy one = ground (arith, is.once i)
  held-lt i requeued one = ground (arith, is.once i)
  held-lt i verifying one = ground (arith, is.once i)

  -- What is left of the busy io_us when `i` leaves them, and the new cur_depth.
  depth-less :
      (i : ℕ)
      → (1 ≤ count i td.io_u_busylist) ⊎ (1 ≤ count i td.verify_list)
      → depth_less td (td.units i) ≡ u32 (length (remove i td.io_u_busylist))
  depth-less i (inl one) =
      ground (arith, length-remove i td.io_u_busylist, is.once i, one, is.depth, is.fits busy i one)
  depth-less i (inr one) =
      ground
        (arith, length-remove i td.io_u_busylist, is.once i, one, is.depth, is.fits verifying i one)

  held-here : (i : ℕ) → (1 ≤ count i td.io_u_busylist) ⊎ (1 ≤ count i td.verify_list) → i < n
  held-here i (inl one) = held-lt i busy one
  held-here i (inr one) = held-lt i verifying one

  pub put_io_u-IsQueues :
      (i : ℕ)
      → (1 ≤ count i td.io_u_busylist) ⊎ (1 ≤ count i td.verify_list)
      → Gives (IsQueues n) (put_io_u td i)
  unfolding put_io_u
  put_io_u-IsQueues i held = back _ file_put
    where
      file_put :
          Gives
            (SameQueues td)
            (if (td.units i).free_def then some td else put_files td (td.units i).file)
      file_put = elim (Bool-cases (td.units i).free_def) [
        | inl put_before ↦ rw put_before (λ p. refl)
        | inr holds ↦ rw holds (put_files-Same td (td.units i).file)
      ]

      back :
          (o : Option Queues)
          → Gives (SameQueues td) o
          → Gives (IsQueues n) (o >>= (λ td1. some (given_back td td1 i)))
      back none s = tt
      back (some td1) s =
          IsMoved-IsQueues is (held-here i held) (given_back-IsMoved td td1 i s)
            (depth-less i held ∙ ap (λ xs. u32 (length (remove i xs))) (sym (s busy)))

  pub verify_io_u_async-IsQueues :
      (i : ℕ) → 1 ≤ count i td.io_u_busylist → Gives (IsQueues n) (verify_io_u_async td i)
  unfolding verify_io_u_async
  verify_io_u_async-IsQueues i held = wait _ (put_files-Same td (td.units i).file)
    where
      wait :
          (o : Option Queues)
          → Gives (SameQueues td) o
          → Gives (IsQueues n) (o >>= (λ td1. some (queued_verify td td1 i)))
      wait none s = tt
      wait (some td1) s =
          IsMoved-IsQueues is (held-lt i busy held) (queued_verify-IsMoved td td1 i s)
            (depth-less i (inl held) ∙ ap (λ xs. u32 (length (remove i xs))) (sym (s busy)))

  pub requeue_io_u-IsQueues :
      (i : ℕ) → 1 ≤ count i td.io_u_busylist → IsQueues n (requeue_io_u td i)
  unfolding requeue_io_u
  requeue_io_u-IsQueues i held =
      let moved : IsMoved td (requeue_io_u td i) i requeued
          (record (td.units i) { free = true; flight = false }) =
        record { counts = counts; units = refl; fitting = refl } in
      IsMoved-IsQueues is (held-lt i busy held) moved (depth-less i (inl held))
    where
      counts :
          (p : Place) (j : ℕ)
          → count j (queue (requeue_io_u td i) p)
            ≡ (if i == j then (if is_place p requeued then 1 else 0) else count j (queue td p))
      counts idle j = ground (arith, count-remove i j td.io_u_freelist)
      counts busy j = ground (arith, count-remove i j td.io_u_busylist)
      counts requeued j =
          ground
            (arith, count-append i j (remove i td.io_u_requeues), count-remove i j td.io_u_requeues)
      counts verifying j = ground (arith, count-remove i j td.verify_list)

  -- Taking an io_u that waits.
  pub take-IsQueues :
      (i : ℕ) (u : IoUnit)
      → (1 ≤ count i td.io_u_freelist) ⊎ (1 ≤ count i td.io_u_requeues)
      → IsQueues n (take td i u)
  take-IsQueues i u waits =
      let moved : IsMoved td (take td i u) i busy (taken u) = record {
        counts = counts;
        units = refl;
        fitting = (refl, refl);
      } in
      IsMoved-IsQueues is here moved
        (ground (arith, length-remove i td.io_u_busylist, is.once i, waits, is.depth))
    where
      here : i < n
      here = elim waits [ inl one ↦ held-lt i idle one | inr one ↦ held-lt i requeued one ]

      counts :
          (p : Place) (j : ℕ)
          → count j (queue (take td i u) p)
            ≡ (if i == j then (if is_place p busy then 1 else 0) else count j (queue td p))
      counts idle j = ground (arith, count-remove i j td.io_u_freelist)
      counts busy j = ground (arith, count-remove i j td.io_u_busylist)
      counts requeued j = ground (arith, count-remove i j td.io_u_requeues)
      counts verifying j = ground (arith, count-remove i j td.verify_list)
