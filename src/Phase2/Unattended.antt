-- ===== src/Phase2/Unattended.antt =====
-- Operations of phase2/phase2.c on a mailbox at which no process waits: they wake nobody.
use elissa_x_priscilla_colla.Base.{
  ℕ, ◌-◌, ◌≡◌, refl, sym, subst, ◌∙◌, ℤ, pos, pos_part, Option, none, some, Bool, true, Bool-cases,
  Option-cases, inl, inr, ◌==◌, leb, ltb, ◌||◌, arith, put,
}
use mathlib.Core.Option.{none-ne-some, some-injective}
use elissa_x_priscilla_colla.Base.Run.{fault}
use elissa_x_priscilla_colla.Base.Calls.{Quietly, Quietly-mono, Quietly-and_then, Quietly-if}
use elissa_x_priscilla_colla.Kernel.{Cmd}
use elissa_x_priscilla_colla.Phase2.State.{State, Buffer, closed, Waiters, max_slots, set_queue}
use elissa_x_priscilla_colla.Phase2.Waiters.{wakeup, wakeup_consumer, wakeup_producer}
use elissa_x_priscilla_colla.Phase2.Slots.{
  deposit, filled, free_slot, pop_slot, push_slot, fill, read_out,
}
use elissa_x_priscilla_colla.Phase2.Invariant.Free.{freed}
use elissa_x_priscilla_colla.Phase2.Transfer.{
  bad_message, no_room, or_fault, notify, take_message, mbox_cond_send, mbox_cond_recv,
}

-- No process waits at mailbox `m`.
abbrev pub IsQuiet : ℕ → State → Type 0
IsQuiet m s = ((s.blocked_producers m).num ≡ 0) × ((s.blocked_consumers m).num ≡ 0)

or_fault-Quietly :
    {A X : Type 0} (P : A → State → Type 0) (x : Option X) (k : X → Cmd State A)
    → ((y : X) → x ≡ some y → Quietly P (k y))
    → Quietly P (or_fault x k)
or_fault-Quietly P none k h = tt
or_fault-Quietly P (some y) k h = h y refl

wakeup-Quietly :
    (w : Waiters) (store : Waiters → State) (s : State)
    → w.num ≡ 0
    → Quietly (λ _ t. t ≡ s) (wakeup w store s)
unfolding wakeup
wakeup-Quietly w store s e = let empty : (w.num == 0) ≡ true = ground (arith, e) in rw empty refl

free_slot-IsQuiet : (m i : ℕ) (s t : State) → IsQuiet m s → free_slot i s ≡ some t → IsQuiet m t
unfolding free_slot
free_slot-IsQuiet m i s t q e = elim (Bool-cases (leb max_slots s.free_slot_count)) [
  | inl full ↦
      let refused : free_slot i s ≡ none = rw full refl in absurd (none-ne-some t (sym refused ∙ e))
  | inr room ↦
      let result : free_slot i s ≡ some (freed i s) = rw room refl in
      subst (IsQuiet m) {x = freed i s} {y = t} (some-injective (freed i s) t (sym result ∙ e)) q
]

module _ (m : ℕ) (msg : Option Buffer) (n : ℕ) (s : State) where
  abbrev next : ℕ
  next = s.free_slot_queue (s.free_slot_count - 1)

  abbrev full : Bool
  full = (s.free_slot_count == 0) || leb max_slots next

  deposit-IsQuiet : (t : State) → IsQuiet m s → deposit m msg n s ≡ some t → IsQuiet m t
  unfolding deposit
  deposit-IsQuiet t q e = elim (Bool-cases full) [
    | inl none_left ↦
        let refused : deposit m msg n s ≡ none = rw none_left refl in
        absurd (none-ne-some t (sym refused ∙ e))
    | inr left ↦ elim (Option-cases (fill msg n (s.mail_slots next).message)) [
      | inl no_bytes ↦
          let refused : deposit m msg n s ≡ none = rw (left, no_bytes) refl in
          absurd (none-ne-some t (sym refused ∙ e))
      | inr (bytes, filling) ↦ elim (Option-cases (push_slot next (s.slot_queues m))) [
        | inl no_place ↦
            let refused : deposit m msg n s ≡ none = rw (left, filling, no_place) refl in
            absurd (none-ne-some t (sym refused ∙ e))
        | inr (row, pushing) ↦
            let u : State = record s {
              free_slot_count = s.free_slot_count - 1;
              mail_slots = put s.mail_slots next (filled m n bytes);
              slot_queues = put s.slot_queues m row;
            } in
            let result : deposit m msg n s ≡ some u = rw (left, filling, pushing) refl in
            subst (IsQuiet m) {x = u} {y = t} (some-injective u t (sym result ∙ e)) q
      ]
    ]
  ]

notify-Quietly : (m : ℕ) (s : State) → IsQuiet m s → Quietly (λ _ t. t ≡ s) (notify m s)
unfolding notify wakeup_consumer
notify-Quietly m s q = elim (Option-cases ((s.mailboxes m).consumers)) [
  | inl e ↦ rw (e, notify) refl
  | inr (c, e) ↦
      rw (e, notify)
        (Quietly-and_then (λ _ t. t ≡ s) (λ _ t. t ≡ s) (wakeup_consumer m s) _
          (wakeup-Quietly (s.blocked_consumers m) _ s (q.1)) (λ _ t same. same))
]

-- The mailbox is still quiet after a message has been taken from it, and nobody is woken.
take_message-Quietly :
    (m : ℕ) (out : Option Buffer) (max : ℕ) (s : State)
    → IsQuiet m s
    → Quietly (λ _ t. IsQuiet m t) (take_message m out max s)
unfolding take_message wakeup_producer
take_message-Quietly m out max s q =
    or_fault-Quietly (λ _ t. IsQuiet m t) (pop_slot (s.slot_queues m)) _
      (λ (i, row) e.
        Quietly-if (λ _ t. IsQuiet m t) (leb max_slots i) fault _ tt
          (Quietly-if (λ _ t. IsQuiet m t) (ltb max (s.mail_slots i).message_length) _ _ q
            (or_fault-Quietly (λ _ t. IsQuiet m t)
              (read_out out (s.mail_slots i).message_length (s.mail_slots i).message) _
              (λ out' e'.
                or_fault-Quietly (λ _ t. IsQuiet m t) (free_slot i (set_queue s m row)) _
                  (λ u e''.
                    let quiet : IsQuiet m u = free_slot-IsQuiet m i (set_queue s m row) u q e'' in
                    Quietly-and_then (λ _ t. t ≡ u) (λ _ t. IsQuiet m t) (wakeup_producer m u) _
                      (wakeup-Quietly (u.blocked_producers m) _ u (quiet.0))
                      (λ _ t same. subst (IsQuiet m) {x = u} {y = t} (sym same) quiet))))))

pub mbox_cond_recv-Quietly :
    (m : ℕ) (out : Option Buffer) (max : ℕ) (s : State)
    → IsQuiet m s
    → Quietly (λ _ t. IsQuiet m t) (mbox_cond_recv (pos m) out (pos max) s)
unfolding mbox_cond_recv
mbox_cond_recv-Quietly m out max s q =
    Quietly-if (λ _ t. IsQuiet m t) (closed s m) _ _ q
      (Quietly-if (λ _ t. IsQuiet m t) ((s.slot_queues m).count == 0) _ _ q
        (take_message-Quietly m out max s q))

pub mbox_cond_send-Quietly :
    (m : ℕ) (msg : Option Buffer) (size : ℤ) (s : State)
    → IsQuiet m s
    → Quietly (λ _ t. IsQuiet m t) (mbox_cond_send (pos m) msg size s)
unfolding mbox_cond_send
mbox_cond_send-Quietly m msg size s q =
    Quietly-if (λ _ t. IsQuiet m t) (closed s m) _ _ q
      (Quietly-if (λ _ t. IsQuiet m t) (bad_message (s.mailboxes m) msg size) _ _ q
        (Quietly-if (λ _ t. IsQuiet m t) (no_room m s) _ _ q
          (or_fault-Quietly (λ _ t. IsQuiet m t) (deposit m msg (pos_part size) s) (notify m)
            (λ u e.
              let quiet : IsQuiet m u = deposit-IsQuiet m msg (pos_part size) s u q e in
              Quietly-mono (λ _ t. t ≡ u) (λ _ t. IsQuiet m t) (notify m u)
                (λ _ t same. subst (IsQuiet m) {x = u} {y = t} (sym same) quiet)
                (notify-Quietly m u quiet)))))
