-- ===== src/Phase2/Safety/Hazards.antt =====
-- phase2/phase2.c when nothing but the invariant is assumed of the other processes.
use elissa_x_priscilla_colla.Kernel.{Cmd, Request, block_me, unblock_proc}
use elissa_x_priscilla_colla.Base.{
  sym, ap, lt→ltb, ℕ, suc, ◌+◌, ◌<◌, ◌≡◌, ◌≢◌, refl, true, false, none, arith, ltb, ◌==◌, ℤ, pos,
  Option, pos_part, ==_refl,
}
use elissa_x_priscilla_colla.Base.Run.{call, Safe, done, fault}
use elissa_x_priscilla_colla.Phase2.State.{
  max_blocked, State, Buffer, SlotQueue, Waiters, active, closed, set_queue, set_mailbox,
  set_producers,
}
use elissa_x_priscilla_colla.Phase2.Lifecycle.{mbox_release, release_consumers, drop_queue}
use elissa_x_priscilla_colla.Phase2.Waiters.{unblock_all}
use elissa_x_priscilla_colla.Phase2.Invariant.Rows.{repointed-IsValid, set_producers-IsValid}
use elissa_x_priscilla_colla.Phase2.Slots.{deposit}
use elissa_x_priscilla_colla.Phase2.Transfer.{
  bad_message, is_full, queue_producer, wait_for_room, send_slotted, mbox_send,
}
use elissa_x_priscilla_colla.Phase2.Invariant.{IsValid}
use elissa_x_priscilla_colla.Phase2.Safety.{Anything, Never, Valid}
use elissa_x_priscilla_colla.Phase2.Safety.Releasing.{emptied-IsValid}
use elissa_x_priscilla_colla.Phase2.Safety.Sends.{queue_producer-same}
use elissa_x_priscilla_colla.Phase2.Safety.Transfers.{closed-false}

-- Mailbox `m`, if it is active, has kept its shape.
abbrev pub KeepsShape : ℕ → Request → State → State → Type 0
KeepsShape m c s t =
    active t m ≡ true
    → ((t.mailboxes m).num_slots ≡ (s.mailboxes m).num_slots)
      × ((t.mailboxes m).slot_size ≡ (s.mailboxes m).slot_size)

-- The run blocks its caller, and what it does next is undefined if it finds the state `w` when it
-- is resumed.
abbrev pub FaultsOn : State → Cmd State ℤ → Type 0
FaultsOn w (call c u k) = (c ≡ block_me) × ((z : ℤ) → k z w ≡ fault)
FaultsOn w _ = ⊥

abbrev emptied : SlotQueue → SlotQueue
emptied q = record q { head = 0; tail = 0; count = 0 }

-- The sender's mailbox has been emptied, and every mail slot is in use.
abbrev pub exhausted : ℕ → State → State
exhausted m s = record (set_queue s m (emptied (s.slot_queues m))) { free_slot_count = 0 }

module _ {s : State} (v : IsValid s) (m : ℕ) (opened : closed s m ≡ false) where
  exhausted-IsValid : IsValid (exhausted m s)
  exhausted-IsValid = out_of_slots (
      emptied-IsValid v m (emptied (s.slot_queues m)) refl
        (record {
          fits = omega arith;
          whole = (v.rings m).whole;
          head_in = λ l. omega (arith, (v.rings m).head_in l);
          tail_at = λ l. ground (arith, (v.rings m).head_in l);
        })
        (λ o. record { sized = (v.open_boxes m o).sized; small = (v.open_boxes m o).small }))
    where
      out_of_slots : IsValid (set_queue s m (emptied (s.slot_queues m))) → IsValid (exhausted m s)
      out_of_slots w = record {
        free_fits = omega arith;
        free = λ i l. absurd (omega arith);
        free_distinct = λ i j ij l. absurd (omega arith);
        rings = w.rings;
        held = w.held;
        held_distinct = w.held_distinct;
        open_boxes = w.open_boxes;
        producers_fit = w.producers_fit;
        consumers_fit = w.consumers_fit;
      }

  exhausted-deposit : (msg : Option Buffer) (n : ℕ) → deposit m msg n (exhausted m s) ≡ none
  unfolding deposit
  exhausted-deposit msg n = refl

  module _ (fuel pid : ℕ) (msg : Option Buffer) (size : ℤ)
      (fit : bad_message (s.mailboxes m) msg size ≡ false) (full : is_full m s ≡ true)
      (left : (s.free_slot_count == 0) ≡ false) where
    exhausted-room : is_full m (exhausted m s) ≡ false
    exhausted-room = ground arith

    exhausted-KeepsShape : (c : Request) → KeepsShape m c (queue_producer pid m s) (exhausted m s)
    exhausted-KeepsShape c on =
        let same = sym (queue_producer-same pid m s) in
        (ap (λ b. b.num_slots) same, ap (λ b. b.slot_size) same)

    mbox_send-FaultsOn :
        FaultsOn (exhausted m s) (mbox_send (suc (suc fuel)) pid (pos m) msg size s)
    unfolding mbox_send send_slotted wait_for_room
    mbox_send-FaultsOn =
        let slotted : ((s.mailboxes m).num_slots == 0) ≡ false = ground arith in
        rw (opened, fit, slotted, left, full, wait_for_room, closed-false s m opened)
          (
            refl,
            λ z.
                rw
                  (
                    closed-false s m opened,
                    wait_for_room,
                    exhausted-room,
                    exhausted-deposit msg (pos_part size),
                  )
                  refl,
          )

    -- A sender of a fitting message to a full open mailbox blocks. If it is woken when the mailbox has been
    -- emptied but no mail slot is left, what it does is undefined: it takes its slot from
    -- `freeSlotQueue[-1]`. So it is not safe even if the others leave only valid states in which its
    -- mailbox, if active, has kept its shape.
    pub mbox_send-not_Safe :
        FaultsOn (exhausted m s) (mbox_send (suc (suc fuel)) pid (pos m) msg size s)
        × ¬ Safe IsValid
            (KeepsShape m)
            IsValid
            Valid
            (mbox_send (suc (suc fuel)) pid (pos m) msg size s)
    unfolding mbox_send send_slotted wait_for_room
    mbox_send-not_Safe = (
      mbox_send-FaultsOn,
      λ h.
          let slotted : ((s.mailboxes m).num_slots == 0) ≡ false = ground arith in
          let waits =
            rw (opened, fit, slotted, left, full, wait_for_room, closed-false s m opened) at h in
          let woken =
            waits.1 (pos 0) (exhausted m s) exhausted-IsValid (exhausted-KeepsShape block_me) in
          rw
            (
              closed-false s m opened,
              wait_for_room,
              exhausted-room,
              exhausted-deposit msg (pos_part size),
            )
            at woken,
    )

unblock_all-wakes :
    (row : State → Waiters) (f i : ℕ) (s : State)
    → i < (row s).num
    → i < max_blocked
    → unblock_all row (suc f) i s
      ≡ call (unblock_proc (pos ((row s).pids i))) s (λ _ t. unblock_all row f (i + 1) t)
unfolding unblock_all
unblock_all-wakes row f i s more below =
    rw (lt→ltb i (row s).num more, unblock_all, lt→ltb i max_blocked below)

release_consumers-none :
    (m : ℕ) (s : State)
    → (s.mailboxes m).num_slots ≢ 0
    → (s.mailboxes m).consumers ≡ none
    → release_consumers m s ≡ done tt s
unfolding release_consumers
release_consumers-none m s slots nobody =
    let some_slots : ((s.mailboxes m).num_slots == 0) ≡ false = ground arith in
    rw (some_slots, nobody, release_consumers)

unblock_all-idle :
    (row : State → Waiters) (f i : ℕ) (s : State)
    → (row s).num ≡ 0
    → unblock_all row (suc f) i s ≡ done tt s
unfolding unblock_all
unblock_all-idle row f i s e =
    let no_more : ltb i (row s).num ≡ false = ground arith in rw (no_more, unblock_all)

-- Meanwhile another process has made the mailbox anew: it is active, and nobody waits for it.
abbrev reclaimed : ℕ → State → State
reclaimed m s =
    set_mailbox (set_producers s m (record (s.blocked_producers m) { num = 0 })) m
      (record (s.mailboxes m) { consumers = none })

module _ {s : State} (v : IsValid s) (m : ℕ) (opened : closed s m ≡ false) where
  reclaimed-IsValid : IsValid (reclaimed m s)
  reclaimed-IsValid =
      repointed-IsValid (set_producers-IsValid v m _ (omega arith)) m _ refl refl (λ o. o)

  reclaimed-idle : ((reclaimed m s).blocked_producers m).num ≡ 0
  reclaimed-idle = rw (==_refl m)

  abbrev cleared : State
  cleared =
      set_producers (reclaimed m s) m (record ((reclaimed m s).blocked_producers m) { num = 0 })

  -- A release of an open mailbox with slots and with a waiting sender does not keep the mailboxes valid
  -- if the others may leave any valid state: one that has made the mailbox anew loses its queue.
  pub mbox_release-not_Safe :
      (s.mailboxes m).num_slots ≢ 0
      → 0 < (s.blocked_producers m).num
      → ¬ Safe IsValid Anything Never Valid (mbox_release (pos m) s)
  unfolding mbox_release drop_queue
  mbox_release-not_Safe slots waiting h =
      let row : State → Waiters = λ t. t.blocked_producers m in
      let shut = set_mailbox s m (record (s.mailboxes m) { is_active = false }) in
      let first_woken = rw (opened, unblock_all-wakes row 10 0 shut waiting (omega arith)) at h in
      let woken = first_woken.1 (pos 0) (reclaimed m s) reclaimed-IsValid tt in
      let released =
        rw
          (
            unblock_all-idle row 9 1 (reclaimed m s) reclaimed-idle,
            release_consumers-none m cleared (rw (==_refl m) slots) (rw (==_refl m)),
          )
          at woken in
      let reopened = rw (==_refl m) at (released.open_boxes m) in
      let on : (cleared.mailboxes m).is_active ≡ true = ground (arith, closed-false s m opened) in
      slots (sym (reopened on).sized)
