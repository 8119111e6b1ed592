-- ===== src/Phase2/Waiters.antt =====
-- The rows of blocked processes: `wakeupConsumer`, `wakeupProducer`, and the pieces of `MboxSend`,
-- `MboxRecv` and `MboxRelease` that work on them.
use elissa_x_priscilla_colla.Base.{
  ℕ, zero, suc, ◌+◌, ◌-◌, pos, Bool, true, false, put, ltb, ◌==◌, if◌then◌else◌,
}
use elissa_x_priscilla_colla.Base.Run.{done, fault, unfinished, call}
use elissa_x_priscilla_colla.Kernel.{Cmd, unblock_proc}
use elissa_x_priscilla_colla.Phase2.State.{
  State, Waiters, max_blocked, set_producers, set_consumers,
}

-- `if (num < MAX) blocked[num++] = pid;`: a process beyond the tenth is not recorded.
unfoldable pub enqueue : ℕ → Waiters → Waiters
enqueue pid w =
    if ltb w.num max_blocked then record w { pids = put w.pids w.num pid; num = w.num + 1 } else w

-- `for (; i < rounds; i++) if (blocked[i] == pid) { alreadyBlocked = 1; break; }`
unfoldable pub already_blocked : (rounds : ℕ) → (ℕ → ℕ) → ℕ → Bool
already_blocked zero pids pid = false
already_blocked (suc r) pids pid = elim (pids 0 == pid) [
  | true ↦ true
  | false ↦ already_blocked r (λ i. pids (suc i)) pid
]

-- `for (; rounds > 0; i++) blocked[i] = blocked[i + 1];`
unfoldable pub shift : (rounds i : ℕ) → (ℕ → ℕ) → ℕ → ℕ
shift zero i pids = pids
shift (suc r) i pids = shift r (i + 1) (put pids i (pids (i + 1)))

-- Drop the first of a row.
unfoldable pub dequeue : Waiters → Waiters
dequeue w = record { pids = shift (w.num - 1) 0 w.pids; num = w.num - 1 }

-- The body that `wakeupConsumer` and `wakeupProducer` share; `store` writes the row back.
unfoldable pub wakeup : Waiters → (Waiters → State) → State → Cmd State (Unit {0})
wakeup w store s =
    if w.num == 0
    then done tt s
    else if ltb max_blocked w.num
    then fault
    else call (unblock_proc (pos (w.pids 0))) (store (dequeue w)) (λ _ t. done tt t)

unfoldable pub wakeup_consumer : ℕ → State → Cmd State (Unit {0})
wakeup_consumer m s = wakeup (s.blocked_consumers m) (set_consumers s m) s

unfoldable pub wakeup_producer : ℕ → State → Cmd State (Unit {0})
wakeup_producer m s = wakeup (s.blocked_producers m) (set_producers s m) s

-- `for (; i < num; i++) unblockProc(blocked[i]);` of `MboxRelease`. The row is read afresh in every
-- round, after whatever the processes that were unblocked have done.
unfoldable pub unblock_all : (State → Waiters) → (fuel i : ℕ) → State → Cmd State (Unit {0})
unblock_all row zero i s = unfinished s
unblock_all row (suc f) i s = elim (ltb i (row s).num) [
  | true ↦
      if ltb i max_blocked
      then call (unblock_proc (pos ((row s).pids i))) s (λ _ t. unblock_all row f (i + 1) t)
      else fault
  | false ↦ done tt s
]
