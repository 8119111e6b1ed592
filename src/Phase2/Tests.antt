-- ===== src/Phase2/Tests.antt =====
-- Runs of phase2/phase2.c at concrete inputs, and its theorems at them.
use elissa_x_priscilla_colla.Base.{
  ℕ, ◌*◌, ◌≡◌, refl, ℤ, pos, minus_two, false, Option, none, some, List, [], ◌∷◌, first, arith,
}
use elissa_x_priscilla_colla.Base.Run.{Safe, Finishes, alone, and_then, halt, done, ◌>>=◌, ◌>>◌}
use elissa_x_priscilla_colla.Kernel.{Cmd, Query, Request}
use elissa_x_priscilla_colla.Phase2.State.{State, Buffer, Handler, nullsys}
use elissa_x_priscilla_colla.Phase2.Lifecycle.{phase2_init, mbox_create, mbox_release}
use elissa_x_priscilla_colla.Phase2.Runs.{runs}
use elissa_x_priscilla_colla.Phase2.Transfer.{
  bad_message, mbox_send, mbox_recv, mbox_cond_send, mbox_cond_recv,
}
use elissa_x_priscilla_colla.Phase2.Device.{syscall_handler, nullsys_run}
use elissa_x_priscilla_colla.Phase2.Samples.{roomy, one_slot, ready, ready-IsValid, ready-IsBooted}
use elissa_x_priscilla_colla.Phase2.Invariant.{IsValid}
use elissa_x_priscilla_colla.Phase2.Safety.{Anything, Never, Valid}
use elissa_x_priscilla_colla.Phase2.Safety.Releasing.{Unclaimed, IsReleased, mbox_release-Safe}
use elissa_x_priscilla_colla.Phase2.Safety.Boot.{IsZeroed, IsBooted, phase2_init-Safe}
use elissa_x_priscilla_colla.Phase2.Safety.Hazards.{
  FaultsOn, KeepsShape, exhausted, mbox_send-not_Safe, mbox_release-not_Safe,
}
use elissa_x_priscilla_colla.Phase2.Conditional.{mbox_send-mbox_cond_send, mbox_recv-mbox_cond_recv}
use elissa_x_priscilla_colla.Phase2.Syscalls.{syscall_handler-halts}
use elissa_x_priscilla_colla.Phase2.Fifo
use elissa_x_priscilla_colla.Phase2.Fifo.{Op, cond_send, cond_recv}
use elissa_x_priscilla_colla.Phase2.Refinement.{shape, view, perform_all, perform_all_refines}

-- The data segment before `phase2_init`: all zero.
abbrev boot : State
boot = record {
  mailboxes = λ _. record {
    id = 0;
    num_slots = 0;
    slot_size = 0;
    is_active = false;
    producers = none;
    consumers = none;
  };
  mail_slots = λ _. record { mailbox_id = 0; message_length = 0; in_use = false; message = λ _. 0 };
  free_slot_queue = λ _. 0;
  free_slot_count = 0;
  slot_queues =
      λ _. record { queue = λ _. 0; alloc = 0; capacity = 0; head = 0; tail = 0; count = 0 };
  blocked_producers = λ _. record { pids = λ _. 0; num = 0 };
  blocked_consumers = λ _. record { pids = λ _. 0; num = 0 };
  shadow_pid = λ _. pos 0;
  sys_vec = λ _. none;
  system_call_vec = λ _. none;
  syscall_int = false;
  clock_int = false;
  clock_mailbox = pos 0;
  clock_ticks = 0;
  terminal_status = pos 0;
}

-- `malloc` finds memory.
abbrev has_memory : Query → ℤ
has_memory q = pos 64

abbrev outcome : {A : Type 0} → (State → Cmd State A) → Option (A × List Request)
outcome m = elim (alone has_memory (m boot)) [ none ↦ none | some (a, s, cs) ↦ some (a, cs) ]

abbrev buffer : Buffer
buffer i = 7 * i

-- Two messages through one mailbox, the second refused for want of room.
abbrev round_trip_program : State → Cmd State (ℤ × ℤ × ℤ × ℤ × List ℕ × ℤ)
round_trip_program = do
  phase2_init
  m ← mbox_create (pos 1) (pos 20)
  a ← mbox_cond_send m (some buffer) (pos 3)
  b ← mbox_cond_send m (some buffer) (pos 3)
  (n, out) ← mbox_recv 4 m (some (λ _. 1)) (pos 20)
  (z, out') ← mbox_cond_recv m none (pos 20)
  done (m, a, b, n, (elim out [ none ↦ [] | some o ↦ first o 4 ]), z)

round_trip :
    outcome round_trip_program
    ≡ some ((pos 7, pos 0, minus_two, pos 3, 0 ∷ 7 ∷ 14 ∷ 1 ∷ [], minus_two), [])
unfolding runs alone first
round_trip = refl

-- Receiving, then sending twice, on a mailbox with one message in its one slot.
abbrev ops : List Op
ops = cond_recv (pos 20) ∷ cond_send (some buffer) (pos 3) ∷ cond_send none (pos 0) ∷ []

perform_all_refines_example :
    Finishes
      (λ rs t. rs ≡ Fifo.run (shape ready 0) ops (view ready 0))
      (perform_all 0 buffer ops ready)
perform_all_refines_example = perform_all_refines 0 buffer ops ready ready-IsValid refl

mbox_release-Safe_example :
    Safe IsValid (Unclaimed 0) Never (IsReleased 0) (mbox_release (pos 0) ready)
mbox_release-Safe_example = mbox_release-Safe ready-IsValid 0 refl

boot-IsZeroed : IsZeroed boot
boot-IsZeroed = record {
  no_slots = λ m. refl;
  no_size = λ m. refl;
  no_queue = λ m. refl;
  no_count = λ m. refl;
  no_producers = λ m. refl;
  no_consumers = λ m. refl;
}

phase2_init-Safe_example : Safe IsValid Anything Never (λ _ t. IsBooted t) (phase2_init boot)
phase2_init-Safe_example = phase2_init-Safe boot-IsZeroed

short_enough : bad_message one_slot (some buffer) (pos 3) ≡ false
unfolding bad_message
short_enough = refl

mbox_send-not_Safe_example :
    FaultsOn (exhausted 0 ready) (mbox_send 2 4 (pos 0) (some buffer) (pos 3) ready)
    × ¬ Safe IsValid
        (KeepsShape 0)
        IsValid
        Valid
        (mbox_send 2 4 (pos 0) (some buffer) (pos 3) ready)
mbox_send-not_Safe_example =
    mbox_send-not_Safe ready-IsValid 0 refl 0 4 (some buffer) (pos 3) short_enough refl refl

mbox_release-not_Safe_example : ¬ Safe IsValid Anything Never Valid (mbox_release (pos 0) ready)
mbox_release-not_Safe_example =
    mbox_release-not_Safe ready-IsValid 0 refl (omega arith) (omega arith)

abbrev only_nullsys : Handler → State → Cmd State (Unit {0})
only_nullsys nullsys s = nullsys_run s
only_nullsys _ s = done tt s

syscall_handler-halts_example :
    and_then (syscall_handler (pos 17) ready) only_nullsys ≡ halt 1 ready
syscall_handler-halts_example =
    syscall_handler-halts ready-IsBooted only_nullsys (λ t. refl) (pos 17)

mbox_send-mbox_cond_send_example :
    mbox_send 1 4 (pos 0) (some buffer) (pos 3) roomy
    ≡ mbox_cond_send (pos 0) (some buffer) (pos 3) roomy
mbox_send-mbox_cond_send_example =
    mbox_send-mbox_cond_send roomy 0 (omega arith) 0 4 (some buffer) (pos 3) refl

mbox_recv-mbox_cond_recv_example :
    mbox_recv 4 (pos 0) (some buffer) (pos 20) ready
    ≡ mbox_cond_recv (pos 0) (some buffer) (pos 20) ready
mbox_recv-mbox_cond_recv_example =
    mbox_recv-mbox_cond_recv ready 0 (omega arith) 4 (some buffer) (pos 20) (omega arith)
