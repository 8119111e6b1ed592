-- ===== src/Phase1b/Scheduler.antt =====
-- `dispatcher`, `contextSwitch` and the operations of phase1b-archive/phase1b.c that block, wake
-- and end processes.
use elissa_x_priscilla_colla.Base.{
  ℕ, zero, suc, ℤ, pos, minus_one, minus_two, Option, none, some, Bool, true, false, ◌==◌, ◌&&◌,
  if◌then◌else◌,
}
use elissa_x_priscilla_colla.Base.Int.{eq_ℤ}
use elissa_x_priscilla_colla.Base.Run.{done, halt, ask, call, and_then}
use elissa_x_priscilla_colla.Phase1b.State.{
  State, Cmd, max_proc, proc, set_proc, set_queue, deref, at_queue, psr_mode, context_switch,
  process_wrapper, start,
}
use elissa_x_priscilla_colla.Phase1b.Queues.{append_as_is, remove_from_ready_queue}

-- The first queue whose head is not blocked, from queue `i` on.
unfoldable pub pick : (rounds i : ℕ) → State → Option ℕ
pick zero i s = none
pick (suc r) i s = elim (s.ready_queues i) [
  | none ↦ pick r (suc i) s
  | some h ↦ elim (eq_ℤ (proc s h).status (pos 1)) [ true ↦ pick r (suc i) s | false ↦ some h ]
]

abbrev pub is_running : ℕ → Option ℕ → Bool
is_running i none = false
is_running i (some j) = i == j

unfoldable pub switch_to : ℕ → State → Cmd (Unit {0})
switch_to n s =
    if is_running n s.running_process
    then halt 0 s
    else let t = record s { running_process = some n } in
      elim s.running_process [
        | none ↦ call process_wrapper t (λ _ u. done tt u)
        | some old ↦ call (context_switch old n) t (λ _ u. done tt u)
      ]

unfoldable pub dispatcher : State → Cmd (Unit {0})
dispatcher s = elim (pick 6 0 s) [ none ↦ halt 0 s | some n ↦ switch_to n s ]

unfoldable pub block_me : State → Cmd (Unit {0})
block_me s =
    deref s.running_process λ r. dispatcher (set_proc s r (record (proc s r) { status = pos 1 }))

-- The first blocked entry with this PID, from `i` on.
unfoldable pub find_blocked : (rounds i : ℕ) → ℤ → State → Option ℕ
find_blocked zero i pid s = none
find_blocked (suc r) i pid s = elim (eq_ℤ (proc s i).pid pid && eq_ℤ (proc s i).status (pos 1)) [
  | true ↦ some i
  | false ↦ find_blocked r (suc i) pid s
]

unfoldable pub unblock_proc : ℤ → State → Cmd ℤ
unblock_proc pid s = elim (find_blocked max_proc 0 pid s) [
  | none ↦ done minus_two s
  | some i ↦
      let t = set_proc s i (record (proc s i) { status = pos 0 }) in
      at_queue (proc t i).priority
        λ q. and_then (append_as_is q i t) λ _ u. and_then (dispatcher u) λ _ w. done (pos 0) w
]

unfoldable pub find_pid : (rounds i : ℕ) → ℤ → State → Option ℕ
find_pid zero i pid s = none
find_pid (suc r) i pid s = elim (eq_ℤ (proc s i).pid pid) [
  | true ↦ some i
  | false ↦ find_pid r (suc i) pid s
]

unfoldable pub zap : ℤ → State → Cmd (Unit {0})
zap pid s = deref s.running_process λ r.
    if eq_ℤ pid (proc s r).pid then halt 1 s else elim (find_pid max_proc 0 pid s) [
      | none ↦ halt 1 s
      | some target ↦
          if eq_ℤ (proc s target).status minus_one
          then done tt s
          else dispatcher
              (set_proc s r (record (proc s r) { status = pos 1; zap_target = some target }))
    ]

-- Whether process `i` waits for process `r` to end.
abbrev pub zaps : ℕ → ℕ → State → Bool
zaps r i s = eq_ℤ (proc s i).status (pos 1) && is_running r (proc s i).zap_target

-- One round of the loop of `quit` over the table, for a process `i` that has zapped `r`.
unfoldable pub wake_zapper : ℕ → State → Cmd (Unit {0})
wake_zapper i s = at_queue (proc s i).priority λ q. done tt (
    set_queue
      (set_proc s i
        (record (proc s i) { status = pos 0; zap_target = none; next = s.ready_queues q }))
      q (some i))

unfoldable pub wake_zappers : (rounds i r : ℕ) → State → Cmd (Unit {0})
wake_zappers zero i r s = done tt s
wake_zappers (suc n) i r s = elim (zaps r i s) [
  | true ↦ and_then (wake_zapper i s) λ _ t. wake_zappers n (suc i) r t
  | false ↦ wake_zappers n (suc i) r s
]

-- `if (parent && parent->status == 1) parent->status = 0;`
unfoldable pub wake_parent : ℕ → State → State
wake_parent r s = elim ((proc s r).parent) [
  | none ↦ s
  | some p ↦
      if eq_ℤ (proc s p).status (pos 1)
      then set_proc s p (record (proc s p) { status = pos 0 })
      else s
]

unfoldable pub quit : ℤ → State → Cmd (Unit {0})
quit status s = ask psr_mode λ mode.
    if eq_ℤ mode (pos 0)
    then halt 1 s
    else deref s.running_process λ r. elim ((proc s r).children) [
      | some _ ↦ halt 1 s
      | none ↦
          let t = set_proc s r (record (proc s r) { status = minus_one; exit_status = status }) in
          and_then (wake_zappers max_proc 0 r (wake_parent r t))
            λ _ u. and_then (remove_from_ready_queue r u) λ _ w. dispatcher w
    ]

unfoldable pub process_wrapper_run : State → Cmd (Unit {0})
process_wrapper_run s = elim s.running_process [
  | none ↦ halt 1 s
  | some r ↦
      if eq_ℤ (proc s r).start_func (pos 0)
      then halt 1 s
      else call (start (proc s r).start_func (proc s r).arg) s λ rc t.
        deref t.running_process
          λ r'. elim ((proc t r').children) [ some _ ↦ halt 1 t | none ↦ quit rc t ]
]

unfoldable pub getpid : State → Cmd ℤ
getpid s = deref s.running_process λ r. done (proc s r).pid s
