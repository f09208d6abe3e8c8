-- ===== src/Queues/Tests.antt =====
-- Tests of the queues, and their theorem at a concrete run.
use fio_ssd.Prelude.{arith, refl, ℕ, ◌≡◌, Option, none, some}
use fio_ssd.Queues.{Queues, init_io_u, get_io_u, get_from, requeue_io_u, take, free_unit}
use fio_ssd.Queues.Moves.{IsQueues}
use fio_ssd.Queues.Reach.{Run, done, step, gets, requeues, Unused, Run-IsQueues}

-- Two io_us; the second is taken, and requeued.
abbrev one_taken : Queues
one_taken = take (init_io_u 2) 1 (record free_unit { buflen = 0; resid = 0; file = none })

requeued-Run : Run (init_io_u 2) (requeue_io_u one_taken 1)
unfolding init_io_u get_io_u get_from
requeued-Run =
    step one_taken (requeue_io_u one_taken 1)
      (step (init_io_u 2) one_taken done (gets (some 1) refl)) (requeues 1 (omega arith) refl)

-- The requeued io_u is next.
next : (elim (get_io_u (requeue_io_u one_taken 1)) [ none ↦ none | some (td, got) ↦ got ]) ≡ some 1
unfolding init_io_u get_io_u get_from requeue_io_u
next = refl

Run-IsQueues_example :
    IsQueues 2 (requeue_io_u one_taken 1)
    × ((td' : Queues) × (got : Option ℕ) × (get_io_u (requeue_io_u one_taken 1) ≡ some (td', got))
        × Unused (requeue_io_u one_taken 1) got)
Run-IsQueues_example = Run-IsQueues 2 (requeue_io_u one_taken 1) requeued-Run
