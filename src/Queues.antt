-- ===== src/Queues.antt =====
-- The queues of io_us of a job: put_io_u, clear_io_u, requeue_io_u and __get_io_u of io_u.c,
-- verify_io_u_async of verify.c, and put_file of filesetup.c. An io_u and a file are known by their
-- index, and an intrusive list is the list of these. `none` is a failed assert. The locks are not
-- modelled: a step is what one thread does while it holds them.
pub mod Moves
pub mod Steps
pub mod Reach
mod Tests
use fio_ssd.Prelude.{
  update, remove, ℕ, zero, suc, ◌+◌, ◌-◌, ◌%◌, ◌^◌, Option, none, some, List, [], ◌∷◌, ◌++◌, Bool,
  true, false, not, ◌&&◌, ◌==◌, if◌then◌else◌,
}
use fio_ssd.RandMap.{◌>>=◌, u32, u64}
use fio_ssd.Offset.{Ddir}
use fio_ssd.Direction.{put}

-- The fields of struct io_u that the queues use; `free` to `ver_list` are bits of its flags, and
-- `ddir` is none where it is no read or write. The callback end_io is not modelled.
pub record IoUnit : Type 0 where
  pub free : Bool
  pub flight : Bool
  pub free_def : Bool
  pub in_cur_depth : Bool
  pub trimmed : Bool
  pub barrier : Bool
  pub ver_list : Bool
  pub randomagain : Bool
  pub error : ℕ
  pub buflen : ℕ
  pub resid : ℕ
  pub file : Option ℕ
  pub ddir : Option Ddir

-- The fields of struct thread_data, the io_us, and the counts and states of the files.
pub record Queues : Type 0 where
  pub io_u_freelist : List ℕ
  pub io_u_busylist : List ℕ
  pub io_u_requeues : List ℕ
  pub verify_list : List ℕ
  pub units : ℕ → IoUnit
  pub cur_depth : ℕ
  pub io_issues : Ddir → ℕ
  pub references : ℕ → ℕ
  pub is_open : ℕ → Bool
  pub nr_open_files : ℕ

-- `n - 1`, ..., 0
abbrev pub down : ℕ → List ℕ
down zero = []
down (suc n) = n ∷ down n

abbrev pub free_unit : IoUnit
free_unit = record {
  free = true;
  flight = false;
  free_def = false;
  in_cur_depth = false;
  trimmed = false;
  barrier = false;
  ver_list = false;
  randomagain = false;
  error = 0;
  buflen = 0;
  resid = 0;
  file = none;
  ddir = none;
}

-- The queues that init_io_u of backend.c leaves where it allocates `n` io_us.
unfoldable pub init_io_u : ℕ → Queues
init_io_u n = record {
  io_u_freelist = down n;
  io_u_busylist = [];
  io_u_requeues = [];
  verify_list = [];
  units = λ i. free_unit;
  cur_depth = 0;
  io_issues = λ d. 0;
  references = λ f. 0;
  is_open = λ f. false;
  nr_open_files = 0;
}

-- flist_del: the node leaves the list that it stands in.
abbrev pub flist_del : Queues → ℕ → Queues
flist_del td i = record td {
  io_u_freelist = remove i td.io_u_freelist;
  io_u_busylist = remove i td.io_u_busylist;
  io_u_requeues = remove i td.io_u_requeues;
  verify_list = remove i td.verify_list;
}

-- put_file; the engine closes the file.
unfoldable pub put_file : Queues → ℕ → Option Queues
put_file td f =
    let released = record td { references = update td.references f (td.references f - 1) } in
    let closed = record released {
      nr_open_files = u32 (td.nr_open_files + 2 ^ 32 - 1);
      is_open = update td.is_open f false;
    } in
    if not (td.is_open f)
    then some td
    else if td.references f == 0
    then none
    else if td.references f == 1
    then some closed
    else some released

abbrev pub put_files : Queues → Option ℕ → Option Queues
put_files td none = some td
put_files td (some f) = put_file td f

abbrev pub depth_less : Queues → IoUnit → ℕ
depth_less td u = if u.in_cur_depth then u32 (td.cur_depth + 2 ^ 32 - 1) else td.cur_depth

-- The io_u goes to the free list; `td1` is the job after its file was put.
abbrev pub given_back : Queues → Queues → ℕ → Queues
given_back td td1 i =
    let u = td.units i in
    let td2 = flist_del td1 i in
    record td2 {
      units = update td.units i (record u { file = none; free_def = false; free = true });
      cur_depth = depth_less td u;
      io_u_freelist = i ∷ td2.io_u_freelist;
    }

-- put_io_u
unfoldable pub put_io_u : Queues → ℕ → Option Queues
put_io_u td i = do
  td1 ← (if (td.units i).free_def then some td else put_files td (td.units i).file)
  some (given_back td td1 i)

-- clear_io_u
unfoldable pub clear_io_u : Queues → ℕ → Option Queues
clear_io_u td i =
    put_io_u (record td { units = update td.units i (record (td.units i) { flight = false }) }) i

-- requeue_io_u
unfoldable pub requeue_io_u : Queues → ℕ → Queues
requeue_io_u td i =
    let u = td.units i in
    let td1 = flist_del td i in
    record td1 {
      units = update td.units i (record u { free = true; flight = false });
      io_issues = elim u.ddir [
        | none ↦ td.io_issues
        | some d ↦
            if u.flight
            then put td.io_issues d (u64 (td.io_issues d + 2 ^ 64 - 1))
            else td.io_issues
      ];
      cur_depth = depth_less td u;
      io_u_requeues = td1.io_u_requeues ++ (i ∷ []);
    }

abbrev pub queued_verify : Queues → Queues → ℕ → Queues
queued_verify td td1 i =
    let u = td.units i in
    let td2 = flist_del td1 i in
    record td2 {
      units = update td.units i (record u { in_cur_depth = false; free_def = true });
      cur_depth = depth_less td u;
      verify_list = td2.verify_list ++ (i ∷ []);
    }

-- verify_io_u_async: the io_u waits for a verify thread.
unfoldable pub verify_io_u_async : Queues → ℕ → Option Queues
verify_io_u_async td i = do td1 ← put_files td (td.units i).file; some (queued_verify td td1 i)

abbrev pub taken : IoUnit → IoUnit
taken u = record u {
  free = false;
  free_def = false;
  trimmed = false;
  barrier = false;
  ver_list = false;
  randomagain = false;
  error = 0;
  in_cur_depth = true;
}

-- An io_u is taken into use.
abbrev pub take : Queues → ℕ → IoUnit → Queues
take td i u =
    let td1 = flist_del td i in
    record td1 {
      units = update td.units i (taken u);
      io_u_busylist = i ∷ td1.io_u_busylist;
      cur_depth = u32 (td.cur_depth + 1);
    }

-- The head of the requeued io_us, or else of the free ones.
unfoldable pub get_from : Queues → List ℕ → List ℕ → Option (Queues × Option ℕ)
get_from td (i ∷ requeues) frees =
    if (td.units i).free then some (take td i (td.units i), some i) else none
get_from td [] (i ∷ frees) =
    if (td.units i).free
    then some (take td i (record (td.units i) { buflen = 0; resid = 0; file = none }), some i)
    else none
get_from td [] [] = some (td, none)

-- __get_io_u, with the io_u, or NULL where it would wait for a verify thread or give up.
unfoldable pub get_io_u : Queues → Option (Queues × Option ℕ)
get_io_u td = get_from td td.io_u_requeues td.io_u_freelist
