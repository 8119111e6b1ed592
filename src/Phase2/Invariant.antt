-- ===== src/Phase2/Invariant.antt =====
-- What holds of the mailboxes whenever a process can be switched out.
pub mod Pigeonhole
pub mod Deposit
pub mod Free
pub mod Rows
use elissa_x_priscilla_colla.Base.{ℕ, ◌≤◌, ◌<◌, ◌≡◌, ◌≢◌, true, false}
use elissa_x_priscilla_colla.Phase2.State.{
  State, Mbox, MailSlot, SlotQueue, max_slots, max_message, max_blocked, active,
}
use elissa_x_priscilla_colla.Phase2.Ring.{IsRing, slot_at}

-- A slot that is in the queue of mailbox `m`.
pub record IsHeld (slots : ℕ → MailSlot) (m i : ℕ) : Type 0 where
  pub slot_in : i < max_slots
  pub used : (slots i).in_use ≡ true
  pub owner : (slots i).mailbox_id ≡ m
  pub short : (slots i).message_length ≤ max_message

-- A slot that is on the free list.
pub record IsFree (slots : ℕ → MailSlot) (i : ℕ) : Type 0 where
  pub slot_in : i < max_slots
  pub unused : (slots i).in_use ≡ false

-- A mailbox and its queue fit one another.
pub record IsOpen (b : Mbox) (q : SlotQueue) : Type 0 where
  pub sized : q.alloc ≡ b.num_slots
  pub small : b.slot_size ≤ max_message

pub record IsValid (s : State) : Type 0 where
  pub free_fits : s.free_slot_count ≤ max_slots
  pub free : (i : ℕ) → i < s.free_slot_count → IsFree s.mail_slots (s.free_slot_queue i)
  pub free_distinct :
      (i j : ℕ) → i < j → j < s.free_slot_count → s.free_slot_queue i ≢ s.free_slot_queue j
  pub rings : (m : ℕ) → IsRing (s.slot_queues m)
  pub held :
      (m k : ℕ) → k < (s.slot_queues m).count → IsHeld s.mail_slots m (slot_at (s.slot_queues m) k)
  pub held_distinct :
      (m j k : ℕ)
      → j < k
      → k < (s.slot_queues m).count
      → slot_at (s.slot_queues m) j ≢ slot_at (s.slot_queues m) k
  pub open_boxes : (m : ℕ) → active s m ≡ true → IsOpen (s.mailboxes m) (s.slot_queues m)
  pub producers_fit : (m : ℕ) → (s.blocked_producers m).num ≤ max_blocked
  pub consumers_fit : (m : ℕ) → (s.blocked_consumers m).num ≤ max_blocked
