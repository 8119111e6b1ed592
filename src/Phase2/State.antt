-- ===== src/Phase2/State.antt =====
-- The global data of phase2/phase2.c and the structs of phase2/phase2def.h.
use elissa_x_priscilla_colla.Base.{ℕ, ℤ, Bool, Option, not, ◌||◌, leb, put}

-- phase2.h and phase1.h
abbrev pub max_mbox : ℕ
max_mbox = 2000

abbrev pub max_slots : ℕ
max_slots = 2500

abbrev pub max_message : ℕ
max_message = 150

abbrev pub max_proc : ℕ
max_proc = 50

-- MAX_BLOCKED_PRODUCERS and MAX_BLOCKED_CONSUMERS
abbrev pub max_blocked : ℕ
max_blocked = 10

-- MAX_SYSCALLS and MAXSYSCALLS
abbrev pub max_syscalls : ℕ
max_syscalls = 50

-- A buffer of bytes. Its size is the caller's business.
abbrev pub Buffer : Type 0
Buffer = ℕ → ℕ

-- `struct Mailbox`. `producers` and `consumers` are indices into `shadowProcesses`; NULL is `none`.
pub record Mbox : Type 0 where
  pub id : ℕ
  pub num_slots : ℕ
  pub slot_size : ℕ
  pub is_active : Bool
  pub producers : Option ℕ
  pub consumers : Option ℕ

-- `struct MailSlot`, less the fields that nothing uses
pub record MailSlot : Type 0 where
  pub mailbox_id : ℕ
  pub message_length : ℕ
  pub in_use : Bool
  pub message : Buffer

-- `SlotQueue`. `alloc` is the number of integers that `queue` points to, 0 for NULL.
pub record SlotQueue : Type 0 where
  pub queue : ℕ → ℕ
  pub alloc : ℕ
  pub capacity : ℕ
  pub head : ℕ
  pub tail : ℕ
  pub count : ℕ

-- A row of `blockedProducers` with its `numBlockedProducers`, or of the consumers'.
pub record Waiters : Type 0 where
  pub pids : ℕ → ℕ
  pub num : ℕ

-- The functions that a system call vector holds.
pub data Handler : Type 0 where
  nullsys : Handler
  sys_spawn sys_wait sys_terminate : Handler
  sys_semcreate sys_semp sys_semv : Handler
  sys_gettime sys_getpid : Handler
  sys_sleep sys_term_read sys_term_write : Handler

pub record State : Type 0 where
  pub mailboxes : ℕ → Mbox
  pub mail_slots : ℕ → MailSlot
  pub free_slot_queue : ℕ → ℕ
  pub free_slot_count : ℕ
  pub slot_queues : ℕ → SlotQueue
  pub blocked_producers : ℕ → Waiters
  pub blocked_consumers : ℕ → Waiters
  -- `shadowProcesses[i].pid`
  pub shadow_pid : ℕ → ℤ
  pub sys_vec : ℕ → Option Handler
  pub system_call_vec : ℕ → Option Handler
  -- `USLOSS_IntVec[USLOSS_SYSCALL_INT]` is `syscall_handler`
  pub syscall_int : Bool
  -- `USLOSS_IntVec[USLOSS_CLOCK_INT]` is `clock_interrupt_handler`
  pub clock_int : Bool
  pub clock_mailbox : ℤ
  -- the static variable of `clock_interrupt_handler`
  pub clock_ticks : ℕ
  pub terminal_status : ℤ

-- `mailboxes[m] = b` and the like
abbrev pub set_mailbox : State → ℕ → Mbox → State
set_mailbox s m b = record s { mailboxes = put s.mailboxes m b }

abbrev pub set_queue : State → ℕ → SlotQueue → State
set_queue s m q = record s { slot_queues = put s.slot_queues m q }

abbrev pub set_producers : State → ℕ → Waiters → State
set_producers s m w = record s { blocked_producers = put s.blocked_producers m w }

abbrev pub set_consumers : State → ℕ → Waiters → State
set_consumers s m w = record s { blocked_consumers = put s.blocked_consumers m w }

abbrev pub active : State → ℕ → Bool
active s m = (s.mailboxes m).is_active

-- `mbox_id >= MAXMBOX || !mailboxes[mbox_id].isActive`
abbrev pub closed : State → ℕ → Bool
closed s m = leb max_mbox m || not (active s m)
