-- ===== src/Phase3/Semaphores.antt =====
-- The semaphores of phase3/phase3.c, for user processes (`sys_sem...`) and for the kernel
-- (`kernSem...`). `pid` is the caller, and `fuel` bounds the waiting loop of `MboxSend`, which a
-- zero-slot mailbox does not enter.
use elissa_x_priscilla_colla.Base.{
  ℕ, zero, suc, ℤ, pos, negsuc, minus_one, Bool, true, false, ◌&&◌, ◌||◌, not, Option, none, some,
  leb, if◌then◌else◌,
}
use elissa_x_priscilla_colla.Base.Int.{inc, dec, ltb_ℤ, leb_ℤ, eq_ℤ}
use elissa_x_priscilla_colla.Base.Run.{done, and_then}
use elissa_x_priscilla_colla.Kernel.{Cmd}
use elissa_x_priscilla_colla.Phase2.Lifecycle.{mbox_create}
use elissa_x_priscilla_colla.Phase2.Transfer.{mbox_send, mbox_recv}
use elissa_x_priscilla_colla.Phase3.State.{State, Semaphore, Sysargs, max_sems, set_sem, in_phase2}

-- `for (; i < MAXSEMS; i++) if (!sems[i].in_use) { index = i; break; }`
unfoldable pub find_unused : (rounds i : ℕ) → (ℕ → Semaphore) → Option ℕ
find_unused zero i sems = none
find_unused (suc r) i sems = elim ((sems i).in_use) [
  | true ↦ find_unused r (suc i) sems
  | false ↦ some i
]

-- Semaphore `i` gets its value, its mailbox and its mark.
unfoldable pub set_up : ℕ → ℤ → State → Cmd State (Unit {0})
set_up i value t =
    and_then
      (in_phase2 (mbox_create (pos 0) (pos 0)) (set_sem t i (record (t.sems i) { value = value })))
      (λ id u. done tt (set_sem u i (record (u.sems i) { mbox_id = id; in_use = true })))

unfoldable pub sys_semcreate : Sysargs → State → Cmd State Sysargs
sys_semcreate args t =
    if ltb_ℤ args.arg1 (pos 0)
    then done (record args { arg4 = minus_one }) t
    else elim (find_unused max_sems 0 t.sems) [
      | none ↦ done (record args { arg4 = minus_one }) t
      | some i ↦
          and_then (set_up i args.arg1 t)
            (λ _ u. done (record args { arg1 = pos i; arg4 = pos 0 }) u)
    ]

-- `index < 0 || index >= MAXSEMS || !sems[index].in_use`, for an index that is not negative
abbrev pub unknown : ℕ → State → Bool
unknown i t = leb max_sems i || not ((t.sems i).in_use)

-- `P()` on semaphore `i`: the value is lowered, and the caller waits if it is negative now.
unfoldable pub semp : ℕ → ℕ → State → Cmd State (Unit {0})
semp pid i t =
    let v = dec (t.sems i).value in
    if ltb_ℤ v (pos 0)
    then and_then
        (in_phase2 (mbox_recv pid (t.sems i).mbox_id none (pos 0))
          (set_sem t i (record (t.sems i) { value = v; blocked = inc (t.sems i).blocked })))
        (λ _ u. done tt u)
    else done tt (set_sem t i (record (t.sems i) { value = v }))

unfoldable pub sys_semp : ℕ → Sysargs → State → Cmd State Sysargs
sys_semp pid args t = elim args.arg1 [
  | negsuc _ ↦ done (record args { arg4 = minus_one }) t
  | pos i ↦
      if unknown i t
      then done (record args { arg4 = minus_one }) t
      else and_then (semp pid i t) (λ _ u. done (record args { arg4 = pos 0 }) u)
]

-- `V()` on semaphore `i`: the value is raised, and a process that waits is woken.
unfoldable pub semv : ℕ → ℕ → ℕ → State → Cmd State (Unit {0})
semv fuel pid i t =
    let v = inc (t.sems i).value in
    if leb_ℤ v (pos 0) && ltb_ℤ (pos 0) (t.sems i).blocked
    then and_then
        (in_phase2 (mbox_send fuel pid (t.sems i).mbox_id none (pos 0))
          (set_sem t i (record (t.sems i) { value = v; blocked = dec (t.sems i).blocked })))
        (λ _ u. done tt u)
    else done tt (set_sem t i (record (t.sems i) { value = v }))

unfoldable pub sys_semv : (fuel pid : ℕ) → Sysargs → State → Cmd State Sysargs
sys_semv fuel pid args t = elim args.arg1 [
  | negsuc _ ↦ done (record args { arg4 = minus_one }) t
  | pos i ↦
      if unknown i t
      then done (record args { arg4 = minus_one }) t
      else and_then (semv fuel pid i t) (λ _ u. done (record args { arg4 = pos 0 }) u)
]

-- The value returned, and what `*semaphore` is given.
unfoldable pub kern_sem_create : ℤ → State → Cmd State (ℤ × Option ℕ)
kern_sem_create value t = elim (find_unused max_sems 0 t.sems) [
  | none ↦ done (minus_one, none) t
  | some i ↦ and_then (set_up i value t) (λ _ u. done (pos 0, some i) u)
]

unfoldable pub kern_sem_p : (fuel pid : ℕ) → ℤ → State → Cmd State ℤ
kern_sem_p fuel pid (negsuc _) t = done minus_one t
kern_sem_p fuel pid (pos i) t =
    if unknown i t
    then done minus_one t
    else if eq_ℤ (t.sems i).value (pos 0)
    then and_then (in_phase2 (mbox_send fuel pid (t.sems i).mbox_id none (pos 0)) t)
        (λ _ u. done (pos 0) u)
    else done (pos 0) (set_sem t i (record (t.sems i) { value = dec (t.sems i).value }))

unfoldable pub kern_sem_v : ℕ → ℤ → State → Cmd State ℤ
kern_sem_v pid (negsuc _) t = done minus_one t
kern_sem_v pid (pos i) t =
    if unknown i t
    then done minus_one t
    else and_then
        (in_phase2 (mbox_recv pid (t.sems i).mbox_id none (pos 0))
          (set_sem t i (record (t.sems i) { value = inc (t.sems i).value })))
        (λ _ u. done (pos 0) u)
