-- ===== src/Phase1b/Startup.antt =====
-- `phase1_init`, `init_run` and `dumpProcesses` of phase1b-archive/phase1b.c.
use elissa_x_priscilla_colla.Base.{
  ℕ, zero, suc, ◌+◌, ℤ, pos, minus_one, minus_two, Option, none, some, List, [], ◌∷◌, Bool, true,
  false, ltb, if◌then◌else◌,
}
use elissa_x_priscilla_colla.Base.Int.{eq_ℤ, ltb_ℤ}
use elissa_x_priscilla_colla.Base.Run.{done, halt, unfinished, ask, call, and_then}
use elissa_x_priscilla_colla.Phase1b.State.{
  State, Cmd, Process, max_proc, min_stack, proc, set_proc, set_queue, psr_set_ok, malloc,
  start_services,
}
use elissa_x_priscilla_colla.Phase1b.Scheduler.{dispatcher}
use elissa_x_priscilla_colla.Phase1b.Spork.{spork}
use elissa_x_priscilla_colla.Phase1b.Join.{join}

-- An entry that `phase1_init` marks as unused.
abbrev pub unused : Process → Process
unused p = record p {
  pid = minus_one;
  status = minus_one;
  children = none;
  sibling = none;
  next = none;
  parent = none;
  exit_status = pos 0;
  stack = pos 0;
}

-- Entry 1 becomes the process `init`, whose start function is at the address `init_run`.
abbrev pub init_entry : (init_name : List ℕ) → (init_run : ℤ) → Process → Process
init_entry init_name init_run p = record p {
  pid = pos 1;
  priority = 6;
  name = init_name;
  status = pos 0;
  parent = none;
  start_func = init_run;
}

unfoldable pub phase1_init : (init_name : List ℕ) → (init_run : ℤ) → State → Cmd (Unit {0})
phase1_init init_name init_run s =
    let cleared = record s {
      process_table = λ i. if ltb i max_proc then unused (s.process_table i) else s.process_table i;
    } in
    let t = set_proc cleared 1 (init_entry init_name init_run (proc cleared 1)) in
    ask (malloc min_stack) λ address.
      if eq_ℤ address (pos 0)
      then halt 1 t
      else let u = set_queue (set_proc t 1 (record (proc t 1) { stack = address })) 5 (some 1) in
        done tt (record u { next_pid = u.next_pid + 2 })

-- `while (1)`: `join` until no child is left, then halt.
unfoldable pub join_children : ℕ → State → Cmd (Unit {0})
join_children zero s = unfinished s
join_children (suc f) s =
    and_then (join (suc f) false s)
      λ r t. elim (eq_ℤ r.0 minus_two) [ true ↦ halt 0 t | false ↦ join_children f t ]

-- `init_run`, with the name and the address of `testcase_main`.
unfoldable pub init_run : ℕ → List ℕ → ℤ → State → Cmd (Unit {0})
init_run fuel main_name testcase_main s = ask psr_set_ok λ ok.
    if eq_ℤ ok (pos 0)
    then halt 1 s
    else call start_services s λ _ t.
      and_then (spork main_name testcase_main (pos 0) (pos min_stack) (pos 3) t) λ pid u.
        if ltb_ℤ pid (pos 0) then halt 1 u else and_then (dispatcher u) λ _ w. join_children fuel w

-- The last column of `dumpProcesses`.
pub data Shown : Type 0 where
  running blocked runnable : Shown
  terminated : ℤ → Shown
  zapped : ℤ → Shown

abbrev pub pid_of : State → Option ℕ → ℤ → ℤ
pid_of s none d = d
pid_of s (some i) d = (proc s i).pid

-- Whether entry `i` has the PID of the running process.
abbrev pub shown_running : State → ℕ → Option ℕ → Bool
shown_running s i none = false
shown_running s i (some r) = eq_ℤ (proc s i).pid (proc s r).pid

unfoldable pub shown : State → ℕ → Shown
shown s i =
    if shown_running s i s.running_process
    then running
    else if eq_ℤ (proc s i).status minus_one
    then terminated (proc s i).exit_status
    else if eq_ℤ (proc s i).status (pos 2)
    then zapped (pid_of s (proc s i).zap_target minus_one)
    else if eq_ℤ (proc s i).status (pos 1)
    then blocked
    else runnable

-- A line: PID, parent's PID, name, priority and state.
pub record Line : Type 0 where
  pub pid : ℤ
  pub ppid : ℤ
  pub name : List ℕ
  pub priority : ℕ
  pub state : Shown

unfoldable pub dump_processes : (rounds i : ℕ) → State → List Line
dump_processes zero i s = []
dump_processes (suc r) i s =
    let rest = dump_processes r (suc i) s in
    if eq_ℤ (proc s i).pid minus_one
    then rest
    else record {
      pid = (proc s i).pid;
      ppid = pid_of s (proc s i).parent (pos 0);
      name = (proc s i).name;
      priority = (proc s i).priority;
      state = shown s i;
    }
      ∷ rest
