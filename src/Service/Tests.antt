-- ===== src/Service/Tests.antt =====
-- Tests of the choice of files, and its theorems at concrete inputs.
use fio_ssd.Prelude.{arith, refl, ℕ, ◌≡◌, Option, none, some, true, false, ◌==◌, if◌then◌else◌}
use fio_ssd.Service.{
  Opening, refused, broken, opened, Service, service_rr, td_io_open_file, try_file, rr_loop,
  get_next_file_rr,
}
use fio_ssd.Service.Rr.{First, get_next_file_rr-First, try_file-broken}

-- File 0 is done, the others are not open.
abbrev job : Service
job = record {
  files = λ f. record { is_open = false; closing = false; done = f == 0; references = 0 };
  nr_files = 3;
  nr_open_files = 0;
  nr_done_files = 1;
  next_file = 2;
  file_service_type = service_rr;
  file_service_file = none;
  file_service_nr = 1;
  file_service_left = 0;
}

-- The engine opens file 1 only.
abbrev engine : ℕ → Opening
engine f = if f == 1 then opened else if f == 2 then broken else refused

chosen : (elim (get_next_file_rr engine job) [ none ↦ none | some (td, r) ↦ r ]) ≡ some 1
unfolding get_next_file_rr rr_loop try_file td_io_open_file
chosen = refl

get_next_file_rr-First_example :
    (td' : Service) × (r : Option ℕ) × (get_next_file_rr engine job ≡ some (td', r))
    × First engine job 2 3 r
get_next_file_rr-First_example = get_next_file_rr-First engine job (omega arith)

try_file-broken_example :
    ((td_io_open_file engine job 2).1 ≡ false)
    × (try_file engine ((td_io_open_file engine job 2).0) 2
        ≡ some ((td_io_open_file engine job 2).0, true))
try_file-broken_example = try_file-broken engine job 2 refl refl
