-- ===== src/Phase1b/Spork.antt =====
-- `spork` of phase1b-archive/phase1b.c. PIDs are unbounded here; the `int` of the source is good
-- for 2^31 of them.
use elissa_x_priscilla_colla.Base.{
  ℕ, zero, suc, ◌-◌, ◌%◌, ℤ, pos, minus_one, minus_two, pos_part, Option, none, some, List, Bool,
  true, false, ◌==◌, ◌&&◌, ◌||◌, ltb, leb, if◌then◌else◌, [], ◌∷◌,
}
use elissa_x_priscilla_colla.Base.Int.{eq_ℤ, ltb_ℤ}
use elissa_x_priscilla_colla.Base.Run.{done, halt, unfinished, ask, and_then}
use elissa_x_priscilla_colla.Phase1b.State.{
  State, Cmd, Process, max_proc, max_name, min_stack, proc, set_proc, set_children, set_sibling,
  at_queue, psr_mode, malloc,
}
use elissa_x_priscilla_colla.Phase1b.Queues.{last, append}
use elissa_x_priscilla_colla.Phase1b.Scheduler.{dispatcher}

-- `for (; ...; i++) if (process_table[i].pid == -1) { slot = i; break; }`
unfoldable pub find_free : (rounds i : ℕ) → (ℕ → Process) → Option ℕ
find_free zero i table = none
find_free (suc r) i table = elim (eq_ℤ (table i).pid minus_one) [
  | true ↦ some i
  | false ↦ find_free r (suc i) table
]

-- From `next_pid % MAXPROC` to the end of the table, then from its start.
unfoldable pub find_slot : ℕ → (ℕ → Process) → Option ℕ
find_slot next_pid table =
    elim (find_free (max_proc - next_pid % max_proc) (next_pid % max_proc) table) [
      | some i ↦ some i
      | none ↦ find_free (next_pid % max_proc) 0 table
    ]

-- The PIDs that are passed over: 1 and 2 modulo 50.
abbrev pub reserved : ℕ → Bool
reserved pid = ltb 2 pid && (pid % 50 == 1 || pid % 50 == 2)

-- `do pid = next_pid++; while (...)`
unfoldable pub new_pid : (fuel next_pid : ℕ) → Option ℕ
new_pid zero n = none
new_pid (suc f) n = elim (reserved n) [ true ↦ new_pid f (suc n) | false ↦ some n ]

-- `strncpy(name, ..., MAXNAME)`
unfoldable pub copy_name : ℕ → List ℕ → List ℕ
copy_name zero cs = []
copy_name (suc n) [] = []
copy_name (suc n) (c ∷ cs) = c ∷ copy_name n cs

-- Process `p` is put after the last child of `parent`.
unfoldable pub link_last : (parent p : ℕ) → State → Cmd (Unit {0})
link_last parent p s = elim ((proc s parent).children) [
  | none ↦ done tt (set_children s parent (some p))
  | some h ↦ elim (last max_proc (λ i. (proc s i).sibling) h) [
    | none ↦ unfinished s
    | some l ↦ done tt (set_sibling s l (some p))
  ]
]

-- The new process `p` becomes a child of `parent`: the last one if its priority number is higher
-- than the parent's, the first one if not.
unfoldable pub link_child : (parent p : ℕ) → State → Cmd (Unit {0})
link_child parent p s =
    if ltb (proc s parent).priority (proc s p).priority
    then link_last parent p (set_sibling s p none)
    else done tt (set_children (set_sibling s p (proc s parent).children) parent (some p))

unfoldable pub set_parent : ℕ → State → Cmd (Unit {0})
set_parent p s = elim s.running_process [
  | none ↦ done tt (set_proc s p (record (proc s p) { parent = none }))
  | some r ↦ link_child r p (set_proc s p (record (proc s p) { parent = some r }))
]

-- The new process is put into the lists.
unfoldable pub enter : ℕ → State → Cmd (Unit {0})
enter i s = and_then (set_parent i s) λ _ v. at_queue (proc v i).priority λ q. append q i v

-- The fields that the new process gets before its stack.
abbrev pub start_process : ℕ → List ℕ → ℕ → ℕ → State → State
start_process i name pid prio s =
    set_proc (record s { next_pid = suc pid }) i
      (record (proc s i) {
        pid = pos pid;
        priority = prio;
        name = copy_name max_name name;
        status = pos 0;
      })

-- The new process runs at once if it is at least as urgent as its parent.
unfoldable pub yield_to : ℕ → State → Cmd (Unit {0})
yield_to p s = elim s.running_process [
  | none ↦ done tt s
  | some r ↦ if leb (proc s p).priority (proc s r).priority then dispatcher s else done tt s
]

unfoldable pub spork_in :
    (slot pid : ℕ) → (name : List ℕ) → (start_func arg : ℤ) → (stack_size prio : ℕ) → State → Cmd ℤ
spork_in i pid name start_func arg size prio s =
    let t = start_process i name pid prio s in
    ask (malloc size) λ address.
      let u =
        set_proc t i (record (proc t i) { stack = address; start_func = start_func; arg = arg }) in
      if eq_ℤ address (pos 0)
      then halt 1 (set_proc t i (record (proc t i) { stack = pos 0 }))
      else and_then (enter i u) λ _ w. and_then (yield_to i w) λ _ x. done (proc x i).pid x

unfoldable pub spork : List ℕ → (start_func arg stack_size priority : ℤ) → State → Cmd ℤ
spork name start_func arg size prio s = ask psr_mode λ mode.
    if eq_ℤ mode (pos 0)
    then halt 1 s
    else if ltb_ℤ prio (pos 1) || ltb_ℤ (pos 5) prio
    then done minus_one s
    else if ltb_ℤ size (pos min_stack)
    then done minus_two s
    else elim (find_slot s.next_pid s.process_table) [
      | none ↦ done minus_one s
      | some i ↦ elim (new_pid 3 s.next_pid) [
        | none ↦ unfinished s
        | some pid ↦ spork_in i pid name start_func arg (pos_part size) (pos_part prio) s
      ]
    ]
