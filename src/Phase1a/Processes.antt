-- ===== src/Phase1a/Processes.antt =====
-- The operations of phase1a-archive/phase1a.c on processes.
use elissa_x_priscilla_colla.Base.{
  ℕ, zero, suc, ◌+◌, ◌%◌, ℤ, pos, negsuc, minus_one, minus_two, Option, none, some, List, Bool,
  true, false, ◌==◌, not, if◌then◌else◌,
}
use elissa_x_priscilla_colla.Base.Int.{eq_ℤ, ltb_ℤ}
use elissa_x_priscilla_colla.Base.Run.{done, halt, unfinished, ask, call, and_then}
use elissa_x_priscilla_colla.Phase1b.State.{
  max_proc, max_name, min_stack, malloc, context_switch, process_wrapper, start,
}
use elissa_x_priscilla_colla.Phase1b.Queues.{last}
use elissa_x_priscilla_colla.Phase1b.Spork.{copy_name}
use elissa_x_priscilla_colla.Phase1a.State.{
  State, Cmd, Process, proc, set_proc, set_next, set_children, deref,
}

-- The first entry with this PID, from `i` on.
unfoldable pub find_pid : (rounds i : ℕ) → ℤ → State → Option ℕ
find_pid zero i pid s = none
find_pid (suc r) i pid s = elim (eq_ℤ (proc s i).pid pid) [
  | true ↦ some i
  | false ↦ find_pid r (suc i) pid s
]

-- The process to switch to; an entry that is not in use does not count.
unfoldable pub target_of : ℤ → State → Option ℕ
target_of pid s = elim (find_pid max_proc 0 pid s) [
  | none ↦ none
  | some i ↦ if eq_ℤ (proc s i).pid minus_one then none else some i
]

-- The running process is entry `r`. A context switch that is not expected to return halts when it does.
unfoldable pub quit_as : ℕ → (status switch_to_pid : ℤ) → State → Cmd (Unit {0})
quit_as r status pid s =
    let t =
      set_proc (record s { termination_counter = s.termination_counter + 1 }) r
        (record (proc s r) {
          status = minus_one;
          exit_status = status;
          term_order = s.termination_counter;
        }) in
    elim (target_of pid t) [
      | none ↦ halt 1 t
      | some n ↦ call (context_switch r n) (record t { running_process = some n }) (λ _ u. halt 1 u)
    ]

unfoldable pub quit_phase_1a : (status switch_to_pid : ℤ) → State → Cmd (Unit {0})
quit_phase_1a status pid s = deref s.running_process λ r. quit_as r status pid s

-- The PID of the parent, 0 if there is none.
abbrev pub parent_pid : State → Option ℕ → ℤ
parent_pid s none = pos 0
parent_pid s (some p) = (proc s p).pid

-- The endless loop at the end is not reached: `quit_phase_1a` does not return.
unfoldable pub process_wrapper_run : State → Cmd (Unit {0})
process_wrapper_run s = elim s.running_process [
  | none ↦ halt 1 s
  | some r ↦
      if eq_ℤ (proc s r).start_func (pos 0)
      then halt 1 s
      else call (start (proc s r).start_func (proc s r).arg) s
          λ rc t. deref t.running_process λ r'. quit_phase_1a rc (parent_pid t (proc t r').parent) t
]

-- Process `p` is put after the last child of `parent`.
unfoldable pub add_child : (parent p : ℕ) → State → Cmd (Unit {0})
add_child parent p s = elim ((proc s parent).children) [
  | none ↦ done tt (set_children s parent (some p))
  | some h ↦ elim (last max_proc (λ i. (proc s i).next) h) [
    | none ↦ unfinished s
    | some l ↦ done tt (set_next s l (some p))
  ]
]

-- The entry of a new process. The parent is the process that ran at the call, or NULL.
abbrev pub new_process : ℤ → ℤ → List ℕ → Option ℕ → Process → Process
new_process pid prio name parent p = record p {
  pid = pid;
  priority = prio;
  name = copy_name max_name name;
  status = pos 0;
  children = none;
  next = none;
  parent = parent;
}

-- The part of `spork` after an entry has been found.
unfoldable pub spork_in :
    (parent : Option ℕ) → (pid slot : ℕ) → List ℕ → (start_func arg priority : ℤ) → State → Cmd ℤ
spork_in parent pid slot name start_func arg prio t =
    let u = set_proc t slot (new_process (pos pid) prio name parent (proc t slot)) in
    ask (malloc min_stack) λ address.
      if eq_ℤ address (pos 0)
      then halt 1 u
      else let v =
          set_proc u slot
            (record (proc u slot) { stack = address; start_func = start_func; arg = arg }) in
        deref parent λ q. and_then (add_child q slot v) λ _ w. done (pos pid) w

-- The stack size asked for is not used. The entry is that of `next_pid` after it is raised.
unfoldable pub spork : List ℕ → (start_func arg stack_size priority : ℤ) → State → Cmd ℤ
spork name start_func arg size prio s =
    let slot = suc s.next_pid % max_proc in
    let t = record s { next_pid = suc s.next_pid } in
    if not (eq_ℤ (proc t slot).pid minus_one)
    then done minus_one t
    else spork_in s.running_process s.next_pid slot name start_func arg prio t

abbrev pub has_quit : State → ℕ → Bool
has_quit s c = eq_ℤ (proc s c).status minus_one

-- The walk of `join` for the child that has quit last: `highest` is its order so far, and `target`
-- the child.
unfoldable pub choose :
    (fuel : ℕ) → (cur : Option ℕ) → (highest : ℤ) → (target : Option ℕ) → State → Cmd (Option ℕ)
choose zero cur highest target s = unfinished s
choose (suc f) none highest target s = done target s
choose (suc f) (some c) highest target s = elim (has_quit s c) [
  | false ↦ choose f (proc s c).next highest target s
  | true ↦ elim (ltb_ℤ highest (pos (proc s c).term_order)) [
    | true ↦ choose f (proc s c).next (pos (proc s c).term_order) (some c) s
    | false ↦ choose f (proc s c).next highest target s
  ]
]

-- `while (prev != NULL && prev->next != target) prev = prev->next; if (prev != NULL) ...`
unfoldable pub unlink_after : (fuel target : ℕ) → (prev : Option ℕ) → State → Cmd (Unit {0})
unlink_after zero c prev s = unfinished s
unlink_after (suc f) c none s = done tt s
unlink_after (suc f) c (some j) s = elim ((proc s j).next) [
  | none ↦ unlink_after f c none s
  | some k ↦ elim (k == c) [
    | true ↦ done tt (set_next s j (proc s c).next)
    | false ↦ unlink_after f c (some k) s
  ]
]

abbrev pub is_child : ℕ → Option ℕ → Bool
is_child c none = false
is_child c (some h) = h == c

unfoldable pub unlink_child : (parent target : ℕ) → State → Cmd (Unit {0})
unlink_child parent c s =
    if is_child c (proc s parent).children
    then done tt (set_children s parent (proc s c).next)
    else unlink_after (suc max_proc) c (proc s parent).children s

-- What is done with the child chosen: it is taken out of the list, and its entry is given back. The
-- value is the one `join` returns, and what `*status` is given.
unfoldable pub report_choice : (parent : ℕ) → (target : Option ℕ) → State → Cmd (ℤ × Option ℤ)
report_choice parent none s = done (minus_two, none) s
report_choice parent (some c) s = and_then (unlink_child parent c s) λ _ u.
    done ((proc s c).pid, some (proc s c).exit_status)
      (set_proc u c (record (proc u c) { pid = minus_one; status = pos 0 }))

unfoldable pub join : (status_null : Bool) → State → Cmd (ℤ × Option ℤ)
join true s = done (negsuc 2, none) s
join false s = deref s.running_process λ parent.
    and_then (choose (suc max_proc) (proc s parent).children minus_one none s)
      (λ target t. report_choice parent target t)

-- The first process ever is started by `processWrapper`, which does not return.
unfoldable pub temp_switch_to : ℤ → State → Cmd (Unit {0})
temp_switch_to pid s = elim (target_of pid s) [
  | none ↦ halt 1 s
  | some n ↦
      let t = record s { running_process = some n } in
      elim s.running_process [
        | none ↦ call process_wrapper t (λ _ u. halt 0 u)
        | some old ↦ call (context_switch old n) t (λ _ u. done tt u)
      ]
]

unfoldable pub getpid : State → ℤ
getpid s = elim s.running_process [ none ↦ minus_one | some r ↦ (proc s r).pid ]
