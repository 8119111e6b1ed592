-- ===== src/Phase2/Transfer.antt =====
-- `MboxSend`, `MboxRecv`, `MboxCondSend` and `MboxCondRecv`. `pid` is what `getpid()` returns.
use elissa_x_priscilla_colla.Base.{
  ℕ, zero, suc, ◌%◌, ℤ, pos, negsuc, pos_part, minus_one, minus_two, Bool, true, false, ◌&&◌, ◌||◌,
  not, Option, none, some, put, ltb, leb, ◌==◌, if◌then◌else◌,
}
use elissa_x_priscilla_colla.Base.Run.{done, fault, unfinished, call, and_then}
use elissa_x_priscilla_colla.Kernel.{Cmd, block_me, unblock_proc}
use elissa_x_priscilla_colla.Phase2.State.{
  State, Mbox, Buffer, max_slots, max_proc, set_mailbox, set_queue, set_producers, set_consumers,
  active, closed,
}
use elissa_x_priscilla_colla.Phase2.Waiters.{
  enqueue, already_blocked, wakeup_consumer, wakeup_producer,
}
use elissa_x_priscilla_colla.Phase2.Slots.{deposit, pop_slot, free_slot, read_out}

-- `msg_size < 0 || msg_size > slotSize || (msg_size > 0 && msg_ptr == NULL)`
unfoldable pub bad_message : Mbox → Option Buffer → ℤ → Bool
bad_message b msg (negsuc _) = true
bad_message b none (pos n) = ltb b.slot_size n || ltb 0 n
bad_message b (some from) (pos n) = ltb b.slot_size n

-- A step that may be undefined.
abbrev pub or_fault {ℓ} : {X : Type ℓ} {A : Type 0} → Option X → (X → Cmd State A) → Cmd State A
or_fault none k = fault
or_fault (some x) k = k x

-- `if (mbox->consumers != NULL) wakeupConsumer(mbox, mbox_id); return 0;`
unfoldable pub notify : ℕ → State → Cmd State ℤ
notify m s = elim ((s.mailboxes m).consumers) [
  | none ↦ done (pos 0) s
  | some c ↦ and_then (wakeup_consumer m s) (λ _ t. done (pos 0) t)
]

-- `mbox->producers = &shadowProcesses[pid % MAXPROC]; mbox->producers->pid = pid;`
unfoldable pub set_producer : ℕ → ℕ → State → State
set_producer pid m s = record s {
  mailboxes = put s.mailboxes m (record (s.mailboxes m) { producers = some (pid % max_proc) });
  shadow_pid = put s.shadow_pid (pid % max_proc) (pos pid);
}

-- `mbox->consumers = &shadowProcesses[pid % MAXPROC]; mbox->consumers->pid = pid;`
unfoldable pub set_consumer : ℕ → ℕ → State → State
set_consumer pid m s = record s {
  mailboxes = put s.mailboxes m (record (s.mailboxes m) { consumers = some (pid % max_proc) });
  shadow_pid = put s.shadow_pid (pid % max_proc) (pos pid);
}

-- `mbox->consumers = NULL;`
unfoldable pub clear_consumer : ℕ → State → State
clear_consumer m s = set_mailbox s m (record (s.mailboxes m) { consumers = none })

-- `blockMe(); if (!mbox->isActive) return -1; return 0;`
unfoldable pub block_direct : ℕ → State → Cmd State ℤ
block_direct m s = call block_me s (λ _ t. if active t m then done (pos 0) t else done minus_one t)

-- `MboxSend` to a zero-slot mailbox
unfoldable pub send_direct : ℕ → ℕ → State → Cmd State ℤ
send_direct pid m s = elim ((s.mailboxes m).consumers) [
  | some c ↦ call (unblock_proc (s.shadow_pid c)) s (λ _ t. done (pos 0) (clear_consumer m t))
  | none ↦
      block_direct m (set_producer pid m (set_producers s m (enqueue pid (s.blocked_producers m))))
]

-- `sq->count >= mbox->numSlots && mbox->numSlots > 0`
abbrev pub is_full : ℕ → State → Bool
is_full m s =
    leb (s.mailboxes m).num_slots (s.slot_queues m).count && ltb 0 (s.mailboxes m).num_slots

-- The row with the sender in it, once.
unfoldable pub queue_producer : ℕ → ℕ → State → State
queue_producer pid m s =
    if already_blocked (s.blocked_producers m).num (s.blocked_producers m).pids pid
    then s
    else set_producers s m (enqueue pid (s.blocked_producers m))

-- The loop that waits for room: `true` if there is some, `false` where `MboxSend` returns -1. The
-- fuel bounds how often the sender is woken to find the mailbox full.
unfoldable pub wait_for_room : (fuel : ℕ) → ℕ → ℕ → State → Cmd State Bool
wait_for_room zero pid m s = unfinished s
wait_for_room (suc f) pid m s = elim (is_full m s) [
  | true ↦
      if not (active s m)
      then done false s
      else call block_me (queue_producer pid m s)
          λ _ t. elim (active t m) [ true ↦ wait_for_room f pid m t | false ↦ done false t ]
  | false ↦ done true s
]

-- `MboxSend` to a mailbox with slots
unfoldable pub send_slotted : ℕ → ℕ → ℕ → Option Buffer → ℕ → State → Cmd State ℤ
send_slotted fuel pid m msg n s =
    if s.free_slot_count == 0
    then done minus_two s
    else and_then (wait_for_room fuel pid m s) λ room t. elim room [
      | false ↦ done minus_one t
      | true ↦ or_fault (deposit m msg n t) (notify m)
    ]

unfoldable pub mbox_send : (fuel pid : ℕ) → ℤ → Option Buffer → ℤ → State → Cmd State ℤ
mbox_send fuel pid (negsuc _) msg size s = done minus_one s
mbox_send fuel pid (pos m) msg size s =
    if closed s m
    then done minus_one s
    else if bad_message (s.mailboxes m) msg size
    then done minus_one s
    else if (s.mailboxes m).num_slots == 0
    then send_direct pid m s
    else send_slotted fuel pid m msg (pos_part size) s

-- What a receive returns, and the buffer that it was given.
abbrev pub Received : Type 0
Received = ℤ × Option Buffer

-- Lines 378 to 392, which are lines 456 to 470. A message that is too long for the buffer has left
-- the queue when -1 is returned; its slot is not freed.
unfoldable pub take_message : ℕ → Option Buffer → ℕ → State → Cmd State Received
take_message m out max s = or_fault (pop_slot (s.slot_queues m)) λ (i, q).
    let t = set_queue s m q in
    let slot = s.mail_slots i in
    if leb max_slots i
    then fault
    else if ltb max slot.message_length
    then done (minus_one, out) t
    else or_fault (read_out out slot.message_length slot.message) λ out'.
      or_fault (free_slot i t)
        λ u. and_then (wakeup_producer m u) (λ _ v. done (pos slot.message_length, out') v)

-- `MboxRecv` from a zero-slot mailbox
unfoldable pub recv_direct : ℕ → ℕ → Option Buffer → State → Cmd State Received
recv_direct pid m out s =
    if ltb 0 (s.blocked_producers m).num
    then and_then (wakeup_producer m s) (λ _ t. done (pos 0, out) t)
    else and_then
        (block_direct m
          (set_consumer pid m (set_consumers s m (enqueue pid (s.blocked_consumers m)))))
        (λ z t. done (z, out) t)

-- `if (sq->count == 0) return -1;` and what follows
unfoldable pub recv_ready : ℕ → Option Buffer → ℕ → State → Cmd State Received
recv_ready m out max s =
    if (s.slot_queues m).count == 0 then done (minus_one, out) s else take_message m out max s

-- `MboxRecv` from a mailbox with slots
unfoldable pub recv_slotted : ℕ → ℕ → Option Buffer → ℕ → State → Cmd State Received
recv_slotted pid m out max s =
    if (s.slot_queues m).count == 0
    then call block_me
        (set_consumer pid m (set_consumers s m (enqueue pid (s.blocked_consumers m))))
        (λ _ t.
          if active t m then recv_ready m out max (clear_consumer m t) else done (minus_one, out) t)
    else recv_ready m out max s

unfoldable pub mbox_recv : ℕ → ℤ → Option Buffer → ℤ → State → Cmd State Received
mbox_recv pid (negsuc _) out max s = done (minus_one, out) s
mbox_recv pid (pos m) out (negsuc _) s = done (minus_one, out) s
mbox_recv pid (pos m) out (pos max) s =
    if closed s m
    then done (minus_one, out) s
    else if (s.mailboxes m).num_slots == 0
    then recv_direct pid m out s
    else recv_slotted pid m out max s

-- `freeSlotCount == 0 || sq->count >= mbox->numSlots`
abbrev pub no_room : ℕ → State → Bool
no_room m s = (s.free_slot_count == 0) || leb (s.mailboxes m).num_slots (s.slot_queues m).count

unfoldable pub mbox_cond_send : ℤ → Option Buffer → ℤ → State → Cmd State ℤ
mbox_cond_send (negsuc _) msg size s = done minus_one s
mbox_cond_send (pos m) msg size s =
    if closed s m
    then done minus_one s
    else if bad_message (s.mailboxes m) msg size
    then done minus_one s
    else if no_room m s
    then done minus_two s
    else or_fault (deposit m msg (pos_part size) s) (notify m)

unfoldable pub mbox_cond_recv : ℤ → Option Buffer → ℤ → State → Cmd State Received
mbox_cond_recv (negsuc _) out max s = done (minus_one, out) s
mbox_cond_recv (pos m) out (negsuc _) s = done (minus_one, out) s
mbox_cond_recv (pos m) out (pos max) s =
    if closed s m
    then done (minus_one, out) s
    else if (s.slot_queues m).count == 0
    then done (minus_two, out) s
    else take_message m out max s
