-- ===== src/Phase2/Conditional.antt =====
-- The operations of phase2/phase2.c that may wait against those that do not.
use elissa_x_priscilla_colla.Base.{
  ℕ, suc, ◌≡◌, ◌≢◌, refl, ℤ, pos, negsuc, Option, true, false, Bool-cases, inl, inr, ◌==◌, leb,
  arith,
}
use elissa_x_priscilla_colla.Base.Run.{done}
use elissa_x_priscilla_colla.Phase2.State.{State, Buffer, closed}
use elissa_x_priscilla_colla.Phase2.Transfer.{
  bad_message, is_full, wait_for_room, send_slotted, mbox_send, mbox_cond_send, recv_slotted,
  recv_ready, mbox_recv, mbox_cond_recv,
}

module _ (s : State) (m : ℕ) (slotted : (s.mailboxes m).num_slots ≢ 0) where
  has_slots : ((s.mailboxes m).num_slots == 0) ≡ false
  has_slots = ground arith

  wait_for_room-now :
      (fuel pid : ℕ) → is_full m s ≡ false → wait_for_room (suc fuel) pid m s ≡ done true s
  unfolding wait_for_room
  wait_for_room-now f pid room = rw (room, wait_for_room) refl

  -- On a mailbox with slots that is not full, `MboxSend` does what `MboxCondSend` does, whatever the
  -- message, and does not wait.
  pub mbox_send-mbox_cond_send :
      (fuel pid : ℕ) (msg : Option Buffer) (size : ℤ)
      → is_full m s ≡ false
      → mbox_send (suc fuel) pid (pos m) msg size s ≡ mbox_cond_send (pos m) msg size s
  unfolding mbox_send mbox_cond_send send_slotted
  mbox_send-mbox_cond_send f pid msg size room = elim (Bool-cases (closed s m)) [
    | inl e ↦ rw (e, mbox_send, mbox_cond_send) refl
    | inr opened ↦ elim (Bool-cases (bad_message (s.mailboxes m) msg size)) [
      | inl e ↦ rw (opened, e, mbox_send, mbox_cond_send) refl
      | inr fit ↦ elim (Bool-cases (s.free_slot_count == 0)) [
        | inl e ↦ rw (opened, fit, has_slots, e, mbox_send, mbox_cond_send) refl
        | inr left ↦
            let less : leb (s.mailboxes m).num_slots (s.slot_queues m).count ≡ false =
              ground arith in
            rw (opened, fit, has_slots, left, wait_for_room-now f pid room, less) refl
      ]
    ]
  ]

  -- On a mailbox with slots that has a message, `MboxRecv` does what `MboxCondRecv` does, and does not
  -- wait.
  pub mbox_recv-mbox_cond_recv :
      (pid : ℕ) (out : Option Buffer) (size : ℤ)
      → (s.slot_queues m).count ≢ 0
      → mbox_recv pid (pos m) out size s ≡ mbox_cond_recv (pos m) out size s
  unfolding mbox_recv mbox_cond_recv recv_slotted recv_ready
  mbox_recv-mbox_cond_recv pid out (negsuc n) some_there = refl
  mbox_recv-mbox_cond_recv pid out (pos n) some_there = elim (Bool-cases (closed s m)) [
    | inl e ↦ rw e refl
    | inr opened ↦
        let held : ((s.slot_queues m).count == 0) ≡ false = ground arith in
        rw (opened, has_slots, held) refl
  ]
