-- ===== src/Phase2/Refinement/Receives.antt =====
-- `MboxCondRecv` against the specification in Fifo.

use elissa_x_priscilla_colla.Phase2.Slots.{read_out, copy}
use elissa_x_priscilla_colla.Phase2.Ring.{slot_at, popped, pop_slot-some}
use elissa_x_priscilla_colla.Phase2.Invariant.Free.{
  taken, freed, taken-IsValid, taken-IsLoose, freed-IsValid, free_slot-some,
}
use elissa_x_priscilla_colla.Base.{
  first_of_zero, ap, ap₂, ℕ, ◌+◌, ◌<◌, ◌≡◌, ◌∙◌, inl, inr, refl, false, none, some, arith,
  Bool-cases, ltb, leb, ◌==◌, ℤ, pos, negsuc, Option, pos_part, List, [], first, length-first,
  first-congr, ==_refl,
}
use elissa_x_priscilla_colla.Base.Run.{Finishes, Finishes-and_then}
use elissa_x_priscilla_colla.Phase2.State.{State, Buffer, max_slots, closed}
use elissa_x_priscilla_colla.Phase2.Waiters.{wakeup_producer}
use elissa_x_priscilla_colla.Phase2.Transfer.{mbox_cond_recv, take_message, Received}
use elissa_x_priscilla_colla.Phase2.Invariant.{IsValid}
use elissa_x_priscilla_colla.Phase2.Messages.{
  messages_in, messages_in-freed, messages_in-popped, messages,
}
use elissa_x_priscilla_colla.Phase2.Fifo
use elissa_x_priscilla_colla.Phase2.Fifo.{Reply, reply}
use elissa_x_priscilla_colla.Phase2.Refinement.View.{
  wakeup_producer-Finishes, Unread, view, view-SameMail, Agrees,
}

-- The bytes that a receive has put into the buffer.
abbrev pub bytes_of : Option Buffer → ℤ → List ℕ
bytes_of none z = []
bytes_of (some out) z = first out (pos_part z)

abbrev pub received : Received → Reply
received (z, out) = record { value = z; bytes = bytes_of out z }

pub received-error : (out : Option Buffer) (n : ℕ) → received (negsuc n, out) ≡ reply (negsuc n)
unfolding first
received-error none n = refl
received-error (some to) n = refl

-- The bytes that `memcpy` has put into the buffer are those of the message.
first-copy : (n : ℕ) (from to : Buffer) → first (copy n from to) n ≡ first from n
first-copy n from to = first-congr (copy n from to) from n (λ i l. ground arith)

messages-taken :
    (s : State) (m : ℕ)
    → messages (taken m s) m ≡ messages_in s.mail_slots (popped (s.slot_queues m))
messages-taken s m = rw (==_refl m)

messages-freed :
    (s : State) (m i : ℕ)
    → messages (freed i (taken m s)) m ≡ messages_in s.mail_slots (popped (s.slot_queues m))
messages-freed s m i =
    messages_in-freed s.mail_slots i ((taken m s).slot_queues m) ∙ messages-taken s m

module _ {s : State} (v : IsValid s) (m : ℕ) (out : Buffer) (max : ℕ) where
  take_message_refines :
      0 < (s.slot_queues m).count
      → Finishes
          (λ r t. Agrees s m (Fifo.recv_items max (messages s m) s.free_slot_count) (received r) t)
          (take_message m (some out) max s)
  unfolding take_message read_out Fifo.recv_items
  take_message_refines held =
      let i = slot_at (s.slot_queues m) 0 in
      let slot = s.mail_slots i in
      let loose = taken-IsLoose v m held in
      let split = messages_in-popped s.mail_slots (s.slot_queues m) (v.rings m) held in
      let size = length-first slot.message slot.message_length in
      rw (pop_slot-some (v.rings m) held) (elim (Bool-cases (leb max_slots i)) [
        | inl e ↦ absurd (ground (arith, loose.slot_in))
        | inr e ↦ elim (Bool-cases (ltb max slot.message_length)) [
          | inl long ↦
              rw (e, long)
                (
                  rw (split, size, long)
                      (ap₂
                        (λ r (xs : List (List ℕ)).
                          (r, record { items = xs; left = s.free_slot_count }))
                        (received-error (some out) 0) (messages-taken s m)),
                  refl,
                )
          | inr short ↦
              let u = freed i (taken m s) in
              rw (e, short, free_slot-some (taken-IsValid v m held) i loose)
                (Finishes-and_then (Unread u) _ (wakeup_producer m u) _
                  (wakeup_producer-Finishes (freed-IsValid (taken-IsValid v m held) i loose) m)
                  (λ _ t h. (
                    rw (split, size, short)
                        (ap₂
                          (λ (bs : List ℕ) (q : Fifo.Fifo).
                            (record { value = pos slot.message_length; bytes = bs }, q))
                          (first-copy slot.message_length slot.message out)
                          (view-SameMail u t m h
                            ∙ ap
                                (λ (xs : List (List ℕ)). record {
                                  items = xs;
                                  left = s.free_slot_count + 1;
                                })
                                (messages-freed s m i))),
                    h.mailboxes,
                  )))
        ]
      ])

  pub mbox_cond_recv_refines :
      closed s m ≡ false
      → Finishes
          (λ r t. Agrees s m (Fifo.recv (pos max) (view s m)) (received r) t)
          (mbox_cond_recv (pos m) (some out) (pos max) s)
  unfolding mbox_cond_recv Fifo.recv Fifo.recv_items
  mbox_cond_recv_refines opened = elim (Bool-cases ((s.slot_queues m).count == 0)) [
    | inl e ↦
        let empty : messages s m ≡ [] = first_of_zero _ (s.slot_queues m).count (ground arith) in
        rw (opened, e)
          (
            rw empty (
                ap (λ r. (r, record { items = []; left = s.free_slot_count }))
                  (received-error (some out) 1)),
            refl,
          )
    | inr e ↦ rw (opened, e) (take_message_refines (ground arith))
  ]
