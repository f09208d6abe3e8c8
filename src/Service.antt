-- ===== src/Service.antt =====
-- The choice of the next file of a job, io_u.c, with td_io_open_file and td_io_close_file of
-- ioengines.c and the counts of put_file of filesetup.c. The io engine is a parameter. `none` is a
-- failed assert, or that the draws run out.
pub mod Rr
mod Tests
use fio_ssd.Prelude.{
  update, ℕ, zero, suc, ◌+◌, ◌-◌, ◌%◌, ◌^◌, Option, none, some, List, [], ◌∷◌, Bool, true, false,
  not, ◌&&◌, ltb, leb, ◌==◌, if◌then◌else◌,
}
use fio_ssd.RandMap.{◌>>=◌, u32}

-- Flags of struct fio_file, and its references.
pub record FileState : Type 0 where
  pub is_open : Bool
  pub closing : Bool
  pub done : Bool
  pub references : ℕ

-- How an open ends: the engine does not open the file, or it does and a later step fails, or all is
-- well.
pub data Opening : Type 0 where
  refused broken opened : Opening

-- enum of file_service_type
pub data ServiceType : Type 0 where
  service_random service_rr service_seq : ServiceType

-- The fields of struct thread_data.
pub record Service : Type 0 where
  pub files : ℕ → FileState
  pub nr_files : ℕ
  pub nr_open_files : ℕ
  pub nr_done_files : ℕ
  pub next_file : ℕ
  pub file_service_type : ServiceType
  pub file_service_file : Option ℕ
  pub file_service_nr : ℕ
  pub file_service_left : ℕ

abbrev pub with_file : Service → ℕ → FileState → Service
with_file td f s = record td { files = update td.files f s }

-- The file is marked as open and counted.
abbrev pub counted : Service → ℕ → Service
counted td f =
    let s = td.files f in
    record td {
      files =
          update td.files f
            (record s { is_open = true; closing = false; references = s.references + 1 });
      nr_open_files = u32 (td.nr_open_files + 1);
    }

-- td_io_open_file: whether it succeeds. The file is not open, as the code asserts and try_file makes
-- sure of. fio_file_reset sets the places in the file and clears its map, which are not part of this
-- state.
unfoldable pub td_io_open_file : (ℕ → Opening) → Service → ℕ → Service × Bool
td_io_open_file engine td f = elim (engine f) [
  | refused ↦ (td, false)
  | broken ↦ (counted td f, false)
  | opened ↦ (counted td f, true)
]

-- td_io_close_file: the last reference closes the file.
unfoldable pub td_io_close_file : Service → ℕ → Option Service
td_io_close_file td f =
    let s = record (td.files f) { closing = true } in
    let released = record s { references = s.references - 1 } in
    if not s.is_open
    then some (with_file td f s)
    else if s.references == 0
    then none
    else if s.references == 1
    then some (record td {
      files = update td.files f (record released { is_open = false });
      nr_open_files = u32 (td.nr_open_files + 2 ^ 32 - 1);
    })
    else some (with_file td f released)

-- Whether a file serves, with FIO_FILE_open as good flag and FIO_FILE_closing as bad flag.
abbrev pub good_file : Service → ℕ → Bool
good_file td f = (td.files f).is_open && not (td.files f).closing

-- One file in the loops of get_next_file_rr and get_next_file_rand: the state after it, and whether
-- it serves.
unfoldable pub try_file : (ℕ → Opening) → Service → ℕ → Option (Service × Bool)
try_file engine td f =
    let (td', ok) = td_io_open_file engine td f in
    let closed = td_io_close_file td' f in
    if (td.files f).done
    then some (td, false)
    else if (td.files f).is_open
    then some (td, good_file td f)
    else if not ok
    then some (td', false)
    else if good_file td' f
    then some (td', true)
    else (do td'' ← closed; some (td'', false))

abbrev pub next_of : Service → ℕ
next_of td = if leb td.nr_files (td.next_file + 1) then 0 else td.next_file + 1

-- The loop of get_next_file_rr.
unfoldable pub rr_loop : (ℕ → Opening) → ℕ → ℕ → Service → Option (Service × Option ℕ)
rr_loop engine zero old td = none
rr_loop engine (suc fuel) old td = do
  (td', good) ← try_file engine (record td { next_file = next_of td }) td.next_file
  let rest = rr_loop engine fuel old td'
  if good
      then some (td', some td.next_file)
      else if td'.next_file == old
      then some (td', none)
      else rest

-- get_next_file_rr
unfoldable pub get_next_file_rr : (ℕ → Opening) → Service → Option (Service × Option ℕ)
get_next_file_rr engine td = rr_loop engine td.nr_files td.next_file td

-- get_next_file_rand; a draw is the number of a file.
unfoldable pub get_next_file_rand : (ℕ → Opening) → Service → List ℕ → Option (Service × Option ℕ)
get_next_file_rand engine td [] = none
get_next_file_rand engine td (f ∷ draws) = do
  (td', good) ← try_file engine td f
  let rest = get_next_file_rand engine td' draws
  if good then some (td', some f) else rest

-- The file in service stays: always in a sequential job, else while it has io_us left.
abbrev pub stays : Service → ℕ → Bool × Service
stays td f = elim td.file_service_type [
  | service_seq ↦ (good_file td f, td)
  | _ ↦ (
    good_file td f && not (td.file_service_left == 0),
    if good_file td f
        then record td { file_service_left = u32 (td.file_service_left + 2 ^ 32 - 1) }
        else td,
  )
]

-- Another file comes into service.
abbrev pub switch_file : (ℕ → Opening) → Service → List ℕ → Option (Service × Option ℕ)
switch_file engine td draws = do
  (td', f) ← elim td.file_service_type [
    | service_random ↦ get_next_file_rand engine td draws
    | _ ↦ get_next_file_rr engine td
  ]
  some (
    record td' {
      file_service_file = f;
      file_service_left = u32 (td'.file_service_nr + 2 ^ 32 - 1);
    },
    f,
  )

-- __get_next_file
unfoldable pub get_next_file : (ℕ → Opening) → Service → List ℕ → Option (Service × Option ℕ)
get_next_file engine td draws =
    if leb td.nr_files td.nr_done_files then some (td, none) else elim td.file_service_file [
      | none ↦ switch_file engine td draws
      | some f ↦
          let (stay, td') = stays td f in
          if stay then some (td', some f) else switch_file engine td' draws
    ]
