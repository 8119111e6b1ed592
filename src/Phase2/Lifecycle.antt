-- ===== src/Phase2/Lifecycle.antt =====
-- `phase2_init`, `MboxCreate` and `MboxRelease` of phase2/phase2.c.
use elissa_x_priscilla_colla.Base.{
  ℕ, zero, suc, ◌*◌, ℤ, pos, negsuc, pos_part, minus_one, Bool, true, false, ◌||◌, Option, none,
  some, ltb, ◌==◌, if◌then◌else◌,
}
use elissa_x_priscilla_colla.Base.Int.{eq_ℤ}
use elissa_x_priscilla_colla.Base.Run.{done, ask, call, and_then}
use elissa_x_priscilla_colla.Kernel.{Cmd, malloc, unblock_proc}
use elissa_x_priscilla_colla.Phase2.State.{
  State, Mbox, SlotQueue, max_mbox, max_slots, max_message, max_proc, max_blocked, max_syscalls,
  nullsys, set_mailbox, set_queue, set_producers, set_consumers, closed,
}
use elissa_x_priscilla_colla.Phase2.Waiters.{unblock_all}

-- `numSlots > MAXSLOTS || numSlots < 0 || slotSize < 0 || slotSize > MAX_MESSAGE`
unfoldable pub bad_shape : ℤ → ℤ → Bool
bad_shape (pos n) (pos size) = ltb max_slots n || ltb max_message size
bad_shape (pos n) (negsuc _) = true
bad_shape (negsuc _) size = true

-- `for (; i < MAXMBOX; i++) if (!mailboxes[i].isActive) { id = i; break; }`
unfoldable pub find_inactive : (rounds i : ℕ) → (ℕ → Mbox) → Option ℕ
find_inactive zero i boxes = none
find_inactive (suc r) i boxes = elim ((boxes i).is_active) [
  | true ↦ find_inactive r (suc i) boxes
  | false ↦ some i
]

-- What `MboxCreate` writes into a mailbox.
abbrev pub fresh_mailbox : ℕ → ℕ → ℕ → Mbox
fresh_mailbox id n size = record {
  id = id;
  num_slots = n;
  slot_size = size;
  is_active = true;
  producers = none;
  consumers = none;
}

-- The mailbox `id` is filled in, and then its queue allocated. `malloc` leaves what it allocates
-- undetermined: here, as the array was.
unfoldable pub set_up : ℕ → ℕ → ℕ → State → Cmd State ℤ
set_up id n size s =
    let s1 = set_mailbox s id (fresh_mailbox id n size) in
    let q = s.slot_queues id in
    ask (malloc (n * 4)) λ p.
      if eq_ℤ p (pos 0)
      then done minus_one (
          set_queue (set_mailbox s id (record (fresh_mailbox id n size) { is_active = false })) id
            (record q { alloc = 0 }))
      else done (pos id)
          (set_queue s1 id (record q { alloc = n; capacity = n; head = 0; tail = 0; count = 0 }))

unfoldable pub mbox_create : ℤ → ℤ → State → Cmd State ℤ
mbox_create n size s =
    if bad_shape n size then done minus_one s else elim (find_inactive max_mbox 0 s.mailboxes) [
      | none ↦ done minus_one s
      | some id ↦ set_up id (pos_part n) (pos_part size) s
    ]

-- What `MboxRelease` does of the consumers: for a zero-slot mailbox all of the row, otherwise the
-- one that `consumers` points to.
unfoldable pub release_consumers : ℕ → State → Cmd State (Unit {0})
release_consumers m s =
    if (s.mailboxes m).num_slots == 0
    then and_then (unblock_all (λ t. t.blocked_consumers m) (suc max_blocked) 0 s)
        (λ _ t. done tt (set_consumers t m (record (t.blocked_consumers m) { num = 0 })))
    else elim ((s.mailboxes m).consumers) [
      | none ↦ done tt s
      | some c ↦
          call (unblock_proc (s.shadow_pid c)) s
            (λ _ t. done tt (set_mailbox t m (record (t.mailboxes m) { consumers = none })))
    ]

-- `free(queue); queue = NULL; count = head = tail = 0;`
unfoldable pub drop_queue : SlotQueue → SlotQueue
drop_queue q = record q { alloc = 0; count = 0; head = 0; tail = 0 }

unfoldable pub mbox_release : ℤ → State → Cmd State ℤ
mbox_release (negsuc _) s = done minus_one s
mbox_release (pos m) s =
    if closed s m
    then done minus_one s
    else and_then
        (unblock_all (λ t. t.blocked_producers m) (suc max_blocked) 0
          (set_mailbox s m (record (s.mailboxes m) { is_active = false })))
        λ _ t.
          and_then
            (release_consumers m (set_producers t m (record (t.blocked_producers m) { num = 0 })))
            λ _ u. done (pos 0) (set_queue u m (drop_queue (u.slot_queues m)))

-- `for (; i < MAXSYSCALLS; i++) vec[i] = nullsys;`, over all entries
unfoldable pub init_syscall_table : State → State
init_syscall_table s = record s {
  sys_vec = λ i. if ltb i max_syscalls then some nullsys else s.sys_vec i;
}

-- The arrays that `phase2_init` writes, each loop as the array that it leaves.
unfoldable pub reset : State → State
reset s = record (init_syscall_table s) {
  syscall_int = true;
  mailboxes =
      λ i. if ltb i max_mbox then record (s.mailboxes i) { is_active = ltb i 6 } else s.mailboxes i;
  blocked_producers = λ i.
      if ltb i max_mbox then record (s.blocked_producers i) { num = 0 } else s.blocked_producers i;
  mail_slots =
      λ i. if ltb i max_slots then record (s.mail_slots i) { in_use = false } else s.mail_slots i;
  free_slot_queue = λ i. if ltb i max_slots then i else s.free_slot_queue i;
  free_slot_count = max_slots;
  shadow_pid = λ i. if ltb i max_proc then minus_one else s.shadow_pid i;
  system_call_vec = λ i. if ltb i max_syscalls then some nullsys else s.system_call_vec i;
}

unfoldable pub phase2_init : State → Cmd State (Unit {0})
phase2_init s =
    and_then (mbox_create (pos 1) (pos 4) (reset s))
      (λ id t. done tt (record t { clock_mailbox = id; clock_int = true }))
