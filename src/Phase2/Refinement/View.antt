-- ===== src/Phase2/Refinement/View.antt =====
-- A mailbox of phase2/phase2.c as its specification in Fifo sees it.

use elissa_x_priscilla_colla.Base.{
  ℕ, ◌≤◌, ◌≡◌, inl, inr, refl, arith, Bool-cases, Option-cases, ltb, ◌==◌, pos,
}
use elissa_x_priscilla_colla.Base.Run.{Finishes, Finishes-and_then}
use elissa_x_priscilla_colla.Phase2.State.{State, Waiters, max_blocked}
use elissa_x_priscilla_colla.Phase2.Waiters.{wakeup, wakeup_consumer, wakeup_producer, dequeue}
use elissa_x_priscilla_colla.Phase2.Transfer.{notify}
use elissa_x_priscilla_colla.Phase2.Invariant.{IsValid}
use elissa_x_priscilla_colla.Phase2.Messages.{messages}
use elissa_x_priscilla_colla.Phase2.Fifo
use elissa_x_priscilla_colla.Phase2.Fifo.{Shape, Reply}

-- What waking a process leaves alone.
pub record SameMail (s t : State) : Type 0 where
  pub mailboxes : t.mailboxes ≡ s.mailboxes
  pub mail_slots : t.mail_slots ≡ s.mail_slots
  pub slot_queues : t.slot_queues ≡ s.slot_queues
  pub left : t.free_slot_count ≡ s.free_slot_count

abbrev pub Unread : {A : Type 0} → State → A → State → Type 0
Unread s a t = SameMail s t

module _ {s : State} (v : IsValid s) (m : ℕ) where
  pub wakeup-Finishes :
      (w : Waiters) (store : Waiters → State)
      → w.num ≤ max_blocked
      → SameMail s (store (dequeue w))
      → Finishes (Unread s) (wakeup w store s)
  unfolding wakeup
  wakeup-Finishes w store fits same = elim (Bool-cases (w.num == 0)) [
    | inl e ↦ rw e (record { mailboxes = refl; mail_slots = refl; slot_queues = refl; left = refl })
    | inr e ↦ elim (Bool-cases (ltb max_blocked w.num)) [
      | inl over ↦ absurd (ground arith)
      | inr fit ↦ rw (e, fit) (λ z. same)
    ]
  ]

  pub wakeup_producer-Finishes : Finishes (Unread s) (wakeup_producer m s)
  unfolding wakeup_producer
  wakeup_producer-Finishes =
      wakeup-Finishes (s.blocked_producers m) _ (v.producers_fit m)
        (record { mailboxes = refl; mail_slots = refl; slot_queues = refl; left = refl })

  pub notify-Finishes : Finishes (λ z t. (z ≡ pos 0) × SameMail s t) (notify m s)
  unfolding notify wakeup_consumer
  notify-Finishes = elim (Option-cases ((s.mailboxes m).consumers)) [
    | inl e ↦
        rw (e, notify)
          (refl, record { mailboxes = refl; mail_slots = refl; slot_queues = refl; left = refl })
    | inr (c, e) ↦
        rw (e, notify)
          (Finishes-and_then (Unread s) (λ z t. (z ≡ pos 0) × SameMail s t) (wakeup_consumer m s) _
            (wakeup-Finishes (s.blocked_consumers m) _ (v.consumers_fit m)
              (record { mailboxes = refl; mail_slots = refl; slot_queues = refl; left = refl }))
            (λ _ t h. (refl, h)))
  ]

-- The mailbox as its specification sees it.
abbrev pub view : State → ℕ → Fifo.Fifo
view s m = record { items = messages s m; left = s.free_slot_count }

abbrev pub shape : State → ℕ → Shape
shape s m = record { num_slots = (s.mailboxes m).num_slots; slot_size = (s.mailboxes m).slot_size }

pub view-SameMail : (s t : State) (m : ℕ) → SameMail s t → view t m ≡ view s m
view-SameMail s t m h = rw (h.mail_slots, h.slot_queues, h.left) refl

-- A call on mailbox `m` that agrees with the specification.
abbrev pub Agrees : State → ℕ → Reply × Fifo.Fifo → Reply → State → Type 0
Agrees s m expected r t = ((r, view t m) ≡ expected) × (t.mailboxes ≡ s.mailboxes)
