-- ===== src/Phase2/Safety/Transfers.antt =====
-- Sends and receives of phase2/phase2.c under interleaving.
use elissa_x_priscilla_colla.Base.{
  ℕ, ◌≤◌, ◌<◌, ◌≡◌, inl, inr, true, false, none, some, arith, Bool-cases, Option-cases, ltb, leb,
  ◌==◌, ℤ, pos, negsuc, Option, pos_part,
}
use elissa_x_priscilla_colla.Base.Run.{Safe-and_then}
use elissa_x_priscilla_colla.Phase2.State.{
  State, Mbox, Buffer, max_slots, set_consumers, closed, active,
}
use elissa_x_priscilla_colla.Phase2.Slots.{deposit, read_out}
use elissa_x_priscilla_colla.Phase2.Waiters.{wakeup_producer, enqueue}
use elissa_x_priscilla_colla.Phase2.Transfer.{
  notify, or_fault, bad_message, no_room, mbox_cond_send, mbox_cond_recv, take_message,
  set_consumer, recv_ready, recv_slotted, recv_direct, send_direct, block_direct,
}
use elissa_x_priscilla_colla.Phase2.Ring.{pop_slot-some, slot_at}
use elissa_x_priscilla_colla.Phase2.Invariant.{IsValid}
use elissa_x_priscilla_colla.Phase2.Invariant.Deposit.{deposited-IsValid, next_slot}
use elissa_x_priscilla_colla.Phase2.Invariant.Free.{
  taken, taken-IsValid, taken-IsLoose, freed, freed-IsValid, free_slot-some,
}
use elissa_x_priscilla_colla.Phase2.Invariant.Rows.{
  clear_consumer-IsValid, set_consumer-IsValid, set_producer-IsValid, enqueue_consumer-IsValid,
  enqueue_producer-IsValid,
}
use elissa_x_priscilla_colla.Phase2.Messages.{HasBytes, stored, deposit-some}
use elissa_x_priscilla_colla.Phase2.Safety.{IsSafe, Anything, Never, Valid}
use elissa_x_priscilla_colla.Phase2.Safety.Wakeups.{notify-IsSafe, wakeup_producer-IsSafe}

-- What a message that is not refused is like.
pub record IsMessage (b : Mbox) (msg : Option Buffer) (size : ℤ) : Type 0 where
  pub short : pos_part size ≤ b.slot_size
  pub has_bytes : HasBytes msg (pos_part size)

pub bad_message-false :
    (b : Mbox) (msg : Option Buffer) (size : ℤ)
    → bad_message b msg size ≡ false
    → IsMessage b msg size
unfolding bad_message
bad_message-false b msg (negsuc n) e = cc
bad_message-false b none (pos n) e = ground arith
bad_message-false b (some from) (pos n) e = ground arith

pub closed-false : (s : State) (m : ℕ) → closed s m ≡ false → active s m ≡ true
closed-false s m e = ground arith

module _ {s : State} (v : IsValid s) where
  pub deposit-IsSafe :
      (m : ℕ) (msg : Option Buffer) (size : ℤ)
      → active s m ≡ true
      → IsMessage (s.mailboxes m) msg size
      → no_room m s ≡ false
      → IsSafe (or_fault (deposit m msg (pos_part size) s) (notify m))
  deposit-IsSafe m msg size opened fit room =
      let n = pos_part size in
      rw (deposit-some v m msg n opened (ground arith) (ground arith) fit.short fit.has_bytes) (
        notify-IsSafe
          (deposited-IsValid v m n (stored msg n (s.mail_slots (next_slot s)).message) opened
            (ground arith) (ground arith) fit.short)
          m)

  pub mbox_cond_send-IsSafe :
      (z : ℤ) (msg : Option Buffer) (size : ℤ) → IsSafe (mbox_cond_send z msg size s)
  unfolding mbox_cond_send
  mbox_cond_send-IsSafe (negsuc _) msg size = v
  mbox_cond_send-IsSafe (pos m) msg size = elim (Bool-cases (closed s m)) [
    | inl e ↦ rw e v
    | inr opened ↦ elim (Bool-cases (bad_message (s.mailboxes m) msg size)) [
      | inl e ↦ rw (opened, e) v
      | inr fit ↦ elim (Bool-cases (no_room m s)) [
        | inl e ↦ rw (opened, fit, e) v
        | inr room ↦
            rw (opened, fit, room)
              (deposit-IsSafe m msg size (closed-false s m opened)
                (bad_message-false (s.mailboxes m) msg size fit) room)
      ]
    ]
  ]

module _ {s : State} (v : IsValid s) (m : ℕ) (out : Buffer) (max : ℕ) where
  -- The oldest message is read out, its slot freed, and a sender woken.
  pub take_message-IsSafe : 0 < (s.slot_queues m).count → IsSafe (take_message m (some out) max s)
  unfolding take_message read_out
  take_message-IsSafe held =
      let i = slot_at (s.slot_queues m) 0 in
      let slot = s.mail_slots i in
      let loose = taken-IsLoose v m held in
      rw (pop_slot-some (v.rings m) held) (elim (Bool-cases (leb max_slots i)) [
        | inl e ↦ absurd (ground (arith, loose.slot_in))
        | inr e ↦ elim (Bool-cases (ltb max slot.message_length)) [
          | inl long ↦ rw (e, long) (taken-IsValid v m held)
          | inr short ↦
              rw (e, short, free_slot-some (taken-IsValid v m held) i loose)
                (Safe-and_then IsValid Anything Never Valid Valid
                  (wakeup_producer m (freed i (taken m s))) _
                  (wakeup_producer-IsSafe (freed-IsValid (taken-IsValid v m held) i loose) m)
                  (λ _ t w. w))
        ]
      ])

  pub recv_ready-IsSafe : IsSafe (recv_ready m (some out) max s)
  unfolding recv_ready
  recv_ready-IsSafe = elim (Bool-cases ((s.slot_queues m).count == 0)) [
    | inl e ↦ rw e v
    | inr e ↦ rw e (take_message-IsSafe (ground arith))
  ]

module _ {s : State} (v : IsValid s) where
  pub mbox_cond_recv-IsSafe :
      (z : ℤ) (out : Buffer) (size : ℤ) → IsSafe (mbox_cond_recv z (some out) size s)
  unfolding mbox_cond_recv
  mbox_cond_recv-IsSafe (negsuc _) out size = v
  mbox_cond_recv-IsSafe (pos m) out (negsuc _) = v
  mbox_cond_recv-IsSafe (pos m) out (pos max) = elim (Bool-cases (closed s m)) [
    | inl e ↦ rw e v
    | inr opened ↦ elim (Bool-cases ((s.slot_queues m).count == 0)) [
      | inl e ↦ rw (opened, e) v
      | inr e ↦ rw (opened, e) (take_message-IsSafe v m out max (ground arith))
    ]
  ]

  block_direct-IsSafe : (m : ℕ) → IsSafe (block_direct m s)
  unfolding block_direct
  block_direct-IsSafe m =
      (v, λ z t w _. elim (Bool-cases (active t m)) [ inl e ↦ rw e w | inr e ↦ rw e w ])

module _ {s : State} (v : IsValid s) (pid m : ℕ) where
  waiting-IsValid :
      IsValid (set_consumer pid m (set_consumers s m (enqueue pid (s.blocked_consumers m))))
  waiting-IsValid = set_consumer-IsValid (enqueue_consumer-IsValid v m pid) m pid

  pub send_direct-IsSafe : IsSafe (send_direct pid m s)
  unfolding send_direct
  send_direct-IsSafe = elim (Option-cases ((s.mailboxes m).consumers)) [
    | inl e ↦
        rw (e, send_direct)
          (block_direct-IsSafe (set_producer-IsValid (enqueue_producer-IsValid v m pid) m pid) m)
    | inr (c, e) ↦ rw (e, send_direct) (v, λ z t w _. clear_consumer-IsValid w m)
  ]

  pub recv_direct-IsSafe : (out : Option Buffer) → IsSafe (recv_direct pid m out s)
  unfolding recv_direct
  recv_direct-IsSafe out = elim (Bool-cases (ltb 0 (s.blocked_producers m).num)) [
    | inl e ↦ rw e (
        Safe-and_then IsValid Anything Never Valid Valid (wakeup_producer m s) _
          (wakeup_producer-IsSafe v m) (λ _ t w. w))
    | inr e ↦ rw e (
        Safe-and_then IsValid Anything Never Valid Valid
          (block_direct m
            (set_consumer pid m (set_consumers s m (enqueue pid (s.blocked_consumers m)))))
          _ (block_direct-IsSafe waiting-IsValid m) (λ _ t w. w))
  ]

  pub recv_slotted-IsSafe : (out : Buffer) (max : ℕ) → IsSafe (recv_slotted pid m (some out) max s)
  unfolding recv_slotted
  recv_slotted-IsSafe out max = elim (Bool-cases ((s.slot_queues m).count == 0)) [
    | inl e ↦ rw e (
      waiting-IsValid,
      λ z t w _. elim (Bool-cases (active t m)) [
        | inl a ↦ rw a (recv_ready-IsSafe (clear_consumer-IsValid w m) m out max)
        | inr a ↦ rw a w
      ],
    )
    | inr e ↦ rw e (recv_ready-IsSafe v m out max)
  ]
