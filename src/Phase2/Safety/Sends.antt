-- ===== src/Phase2/Safety/Sends.antt =====
-- `MboxSend` of phase2/phase2.c, which waits in a loop, and what it needs of the other processes.
use elissa_x_priscilla_colla.Base.{ℕ, ◌<◌, ◌≡◌, true, false, arith, Bool}
use elissa_x_priscilla_colla.Kernel.{Request}
use elissa_x_priscilla_colla.Phase2.State.{State, Mbox, active}
use elissa_x_priscilla_colla.Phase2.Transfer.{is_full, queue_producer}
use elissa_x_priscilla_colla.Phase2.Invariant.{IsValid}

-- While the sender was blocked, its mailbox was closed, or is the same and a mail slot is left.
abbrev pub Undisturbed : ℕ → Request → State → State → Type 0
Undisturbed m c s t =
    active t m ≡ true
    → ((t.mailboxes m).num_slots ≡ (s.mailboxes m).num_slots)
      × ((t.mailboxes m).slot_size ≡ (s.mailboxes m).slot_size)
      × (0 < t.free_slot_count)

-- And the sender is woken only when there is room.
abbrev pub WokenForRoom : ℕ → Request → State → State → Type 0
WokenForRoom m c s t =
    active t m ≡ true
    → ((t.mailboxes m).num_slots ≡ (s.mailboxes m).num_slots)
      × ((t.mailboxes m).slot_size ≡ (s.mailboxes m).slot_size)
      × (0 < t.free_slot_count)
      × ((t.slot_queues m).count < (t.mailboxes m).num_slots)

-- A sender to a mailbox like `b` can go on.
pub record IsWaiting (b : Mbox) (m : ℕ) (s : State) : Type 0 where
  pub valid : IsValid s
  pub opened : active s m ≡ true
  pub left : 0 < s.free_slot_count
  pub slots : (s.mailboxes m).num_slots ≡ b.num_slots
  pub size : (s.mailboxes m).slot_size ≡ b.slot_size

pub record IsAdmitted (b : Mbox) (m : ℕ) (s : State) : Type 0 where
  pub waiting : IsWaiting b m s
  pub room : is_full m s ≡ false

-- How `wait_for_room` ends.
abbrev Waited : Mbox → ℕ → Bool → State → Type 0
Waited b m true s = IsAdmitted b m s
Waited b m false s = IsValid s

pub queue_producer-same :
    (pid m : ℕ) (s : State) → (queue_producer pid m s).mailboxes m ≡ s.mailboxes m
unfolding queue_producer
queue_producer-same pid m s = ground arith
