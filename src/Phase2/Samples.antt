-- ===== src/Phase2/Samples.antt =====
-- A state of phase2/phase2.c to try its operations on.
use elissa_x_priscilla_colla.Base.{
  ℕ, ◌+◌, refl, pos, none, some, true, false, ◌==◌, if◌then◌else◌, arith, Bool-cases, inl, inr,
}
use elissa_x_priscilla_colla.Phase2.State.{State, Mbox, MailSlot, SlotQueue, Buffer, nullsys}
use elissa_x_priscilla_colla.Phase2.Ring.{IsRing}
use elissa_x_priscilla_colla.Phase2.Invariant.{IsValid}
use elissa_x_priscilla_colla.Phase2.Safety.Creation.{AllReleased}
use elissa_x_priscilla_colla.Phase2.Safety.Boot.{IsBooted}

abbrev pub letters : Buffer
letters i = 65 + i

abbrev pub one_slot : Mbox
one_slot = record {
  id = 0;
  num_slots = 1;
  slot_size = 20;
  is_active = true;
  producers = some 7;
  consumers = none;
}

abbrev pub no_slots : Mbox
no_slots = record {
  id = 1;
  num_slots = 0;
  slot_size = 0;
  is_active = true;
  producers = none;
  consumers = none;
}

abbrev pub no_box : Mbox
no_box = record {
  id = 0;
  num_slots = 0;
  slot_size = 0;
  is_active = false;
  producers = none;
  consumers = none;
}

abbrev pub letters_slot : MailSlot
letters_slot = record { mailbox_id = 0; message_length = 3; in_use = true; message = letters }

abbrev pub unused_slot : MailSlot
unused_slot = record { mailbox_id = 0; message_length = 0; in_use = false; message = letters }

abbrev pub full_queue : SlotQueue
full_queue = record { queue = λ _. 2499; alloc = 1; capacity = 1; head = 0; tail = 0; count = 1 }

abbrev pub no_queue : SlotQueue
no_queue = record { queue = λ _. 0; alloc = 0; capacity = 0; head = 0; tail = 0; count = 0 }

-- Mailbox 0 has one slot, which is taken by three letters, and process 7 waits for room in it.
-- Mailbox 1 has no slots.
abbrev pub ready : State
ready = record {
  mailboxes = λ m. if m == 0 then one_slot else if m == 1 then no_slots else no_box;
  mail_slots = λ i. if i == 2499 then letters_slot else unused_slot;
  free_slot_queue = λ i. i;
  free_slot_count = 2499;
  slot_queues = λ m. if m == 0 then full_queue else no_queue;
  blocked_producers = λ m. record { pids = λ _. 7; num = if m == 0 then 1 else 0 };
  blocked_consumers = λ m. record { pids = λ _. 0; num = 0 };
  shadow_pid = λ _. pos 0;
  sys_vec = λ _. some nullsys;
  system_call_vec = λ _. some nullsys;
  syscall_int = true;
  clock_int = true;
  clock_mailbox = pos 1;
  clock_ticks = 0;
  terminal_status = pos 0;
}

ready_rings : (m : ℕ) → IsRing (ready.slot_queues m)
ready_rings m = elim (Bool-cases (m == 0)) [
  | inl e ↦ rw e (record {
    fits = omega arith;
    whole = λ _. refl;
    head_in = λ _. omega arith;
    tail_at = λ _. refl;
  })
  | inr e ↦ rw e (record {
    fits = omega arith;
    whole = λ _. refl;
    head_in = λ l. absurd (omega (arith, l));
    tail_at = λ l. absurd (omega (arith, l));
  })
]

pub ready-IsValid : IsValid ready
ready-IsValid = record {
  free_fits = omega arith;
  free = λ i l. record { slot_in = omega (arith, l); unused = ground (arith, l) };
  free_distinct = λ i j ij l. omega (arith, ij);
  rings = ready_rings;
  held = λ m k l. elim (Bool-cases (m == 0)) [
    | inl e ↦
        rw e
          (record { slot_in = omega arith; used = refl; owner = ground arith; short = omega arith })
    | inr e ↦ absurd (ground (arith, l))
  ];
  held_distinct = λ m j k jk l. ground (arith, jk, l);
  open_boxes = λ m o. ground (arith, o);
  producers_fit = λ m. ground arith;
  consumers_fit = λ m. omega arith;
}

pub ready-IsBooted : IsBooted ready
ready-IsBooted = record {
  valid = ready-IsValid;
  all_nullsys = λ n l. refl;
  handles_syscalls = refl;
}

pub ready-AllReleased : AllReleased ready
ready-AllReleased m off = ground arith

-- The same with a second slot in mailbox 0, which is free.
abbrev pub roomy : State
roomy = record ready {
  mailboxes = λ m. if m == 0 then record one_slot { num_slots = 2 } else no_box;
}
