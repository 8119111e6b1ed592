-- ===== src/Phase1b/State.antt =====
-- The global data of phase1b-archive/phase1b.c, and `struct process` of phase1b.h. A `Process *`
-- is the index of its entry of `process_table`, or `none` for NULL.
use elissa_x_priscilla_colla.Base.{
  ℕ, ℤ, Option, none, some, List, put, ltb, if◌then◌else◌, ◌&&◌, ◌-◌,
}
use elissa_x_priscilla_colla.Base.Run.{Run, fault}

abbrev pub max_proc : ℕ
max_proc = 50

abbrev pub max_name : ℕ
max_name = 50

abbrev pub min_stack : ℕ
min_stack = 81920

-- `status` is 0 for a process that can run, 1 for one that is blocked, -1 for one that has quit.
pub record Process : Type 0 where
  pub pid : ℤ
  pub priority : ℕ
  pub status : ℤ
  pub exit_status : ℤ
  pub parent : Option ℕ
  pub children : Option ℕ
  pub sibling : Option ℕ
  pub next : Option ℕ
  pub zap_target : Option ℕ
  pub stack : ℤ
  pub name : List ℕ
  pub start_func : ℤ
  pub arg : ℤ

pub record State : Type 0 where
  pub process_table : ℕ → Process
  pub running_process : Option ℕ
  pub next_pid : ℕ
  pub ready_queues : ℕ → Option ℕ

-- Questions to USLOSS and the C library that leave the state alone.
pub data Query : Type 0 where
  malloc : ℕ → Query
  -- `USLOSS_PsrGet() & USLOSS_PSR_CURRENT_MODE`
  psr_mode : Query
  -- whether `USLOSS_PsrSet(...)` returns `USLOSS_DEV_OK`, 0 if not
  psr_set_ok : Query

-- Other processes may run before these return.
pub data Request : Type 0 where
  -- `USLOSS_ContextSwitch` from one process to another
  context_switch : (old next : ℕ) → Request
  -- `processWrapper()`, called for the first process ever
  process_wrapper : Request
  -- a start function with its argument
  start : ℤ → ℤ → Request
  -- the service processes of the later phases
  start_services : Request

abbrev pub Cmd : Type 0 → Type 0
Cmd A = Run Query Request State A

abbrev pub proc : State → ℕ → Process
proc s i = s.process_table i

abbrev pub set_proc : State → ℕ → Process → State
set_proc s i p = record s { process_table = put s.process_table i p }

abbrev pub set_queue : State → ℕ → Option ℕ → State
set_queue s i q = record s { ready_queues = put s.ready_queues i q }

abbrev pub set_next : State → ℕ → Option ℕ → State
set_next s i n = set_proc s i (record (proc s i) { next = n })

abbrev pub set_sibling : State → ℕ → Option ℕ → State
set_sibling s i n = set_proc s i (record (proc s i) { sibling = n })

abbrev pub set_children : State → ℕ → Option ℕ → State
set_children s i n = set_proc s i (record (proc s i) { children = n })

-- A pointer that is followed.
abbrev pub deref : {A : Type 0} → Option ℕ → (ℕ → Cmd A) → Cmd A
deref none k = fault
deref (some i) k = k i

-- `ready_queues[priority - 1]`, in bounds or not.
abbrev pub at_queue : {A : Type 0} → ℕ → (ℕ → Cmd A) → Cmd A
at_queue prio k = if ltb 0 prio && ltb prio 7 then k (prio - 1) else fault
