-- ===== src/Phase1a/State.antt =====
-- The global data of phase1a-archive/phase1a.c, and `struct process` of phase1a.h. A `Process *` is
-- the index of its entry of `process_table`, or `none` for NULL.
use elissa_x_priscilla_colla.Base.{ℕ, ℤ, Option, none, some, List, put}
use elissa_x_priscilla_colla.Base.Run.{Run, fault}
use elissa_x_priscilla_colla.Phase1b.State.{Query, Request}

-- `status` is 0 for a process that can run and -1 for one that has quit.
pub record Process : Type 0 where
  pub pid : ℤ
  pub priority : ℤ
  pub status : ℤ
  pub name : List ℕ
  pub children : Option ℕ
  pub next : Option ℕ
  pub parent : Option ℕ
  pub stack : ℤ
  pub start_func : ℤ
  pub arg : ℤ
  pub exit_status : ℤ
  pub term_order : ℕ

pub record State : Type 0 where
  pub process_table : ℕ → Process
  pub running_process : Option ℕ
  pub next_pid : ℕ
  pub termination_counter : ℕ

abbrev pub Cmd : Type 0 → Type 0
Cmd A = Run Query Request State A

abbrev pub proc : State → ℕ → Process
proc s i = s.process_table i

abbrev pub set_proc : State → ℕ → Process → State
set_proc s i p = record s { process_table = put s.process_table i p }

abbrev pub set_next : State → ℕ → Option ℕ → State
set_next s i n = set_proc s i (record (proc s i) { next = n })

abbrev pub set_children : State → ℕ → Option ℕ → State
set_children s i n = set_proc s i (record (proc s i) { children = n })

-- A pointer that is followed.
abbrev pub deref : {A : Type 0} → Option ℕ → (ℕ → Cmd A) → Cmd A
deref none k = fault
deref (some i) k = k i
