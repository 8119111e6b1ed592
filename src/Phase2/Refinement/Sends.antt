-- ===== src/Phase2/Refinement/Sends.antt =====
-- `MboxCondSend` against the specification in Fifo.

use elissa_x_priscilla_colla.Phase2.Safety.Transfers.{bad_message-false, closed-false}
use elissa_x_priscilla_colla.Phase2.Invariant.Deposit.{deposited-IsValid, next_slot}
use elissa_x_priscilla_colla.Base.{
  ap, if_self, ℕ, ◌-◌, ◌≡◌, ◌∙◌, sym, inl, inr, refl, true, false, none, some, arith, Bool-cases,
  leb, ◌==◌, if◌then◌else◌, ℤ, pos, negsuc, minus_one, minus_two, Option, ◌||◌, pos_part, List, [],
  ◌∷◌, ◌++◌, length, length-first,
}
use elissa_x_priscilla_colla.Base.Run.{Finishes, Finishes-mono}
use elissa_x_priscilla_colla.Phase2.State.{State, Mbox, Buffer, closed}
use elissa_x_priscilla_colla.Phase2.Transfer.{notify, bad_message, no_room, mbox_cond_send}
use elissa_x_priscilla_colla.Phase2.Invariant.{IsValid}
use elissa_x_priscilla_colla.Phase2.Messages.{
  messages, sent, stored, after_deposit, deposit-some, messages-deposited,
}
use elissa_x_priscilla_colla.Phase2.Fifo
use elissa_x_priscilla_colla.Phase2.Fifo.{Reply, reply}
use elissa_x_priscilla_colla.Phase2.Refinement.View.{
  SameMail, notify-Finishes, view, shape, view-SameMail, Agrees,
}

pub spec_refuses :
    (b : Mbox) (msg : Option Buffer) (size : ℤ) (q : Fifo.Fifo)
    → bad_message b msg size ≡ true
    → Fifo.send (record { num_slots = b.num_slots; slot_size = b.slot_size }) msg size q
      ≡ (reply minus_one, q)
unfolding bad_message Fifo.send
spec_refuses b msg (negsuc n) q e = refl
spec_refuses b none (pos n) q e = rw e
spec_refuses b (some from) (pos n) q e = rw e

spec_accepts :
    (b : Mbox) (msg : Option Buffer) (size : ℤ) (q : Fifo.Fifo)
    → bad_message b msg size ≡ false
    → Fifo.send (record { num_slots = b.num_slots; slot_size = b.slot_size }) msg size q ≡ (
        if (q.left == 0) || leb b.num_slots (length q.items) then (reply minus_two, q) else (
          reply (pos 0),
          record { items = q.items ++ (sent msg (pos_part size) ∷ []); left = q.left - 1 },
        ))
unfolding bad_message Fifo.send
spec_accepts b msg (negsuc n) q e = cc
spec_accepts b none (pos n) q e = rw e
spec_accepts b (some from) (pos n) q e = rw e

module _ {s : State} (v : IsValid s) (m : ℕ) (opened : closed s m ≡ false) where
  specified :
      (msg : Option Buffer) (size : ℤ)
      → bad_message (s.mailboxes m) msg size ≡ false
      → Fifo.send (shape s m) msg size (view s m) ≡ (
          if no_room m s then (reply minus_two, view s m) else (
            reply (pos 0),
            record {
              items = messages s m ++ (sent msg (pos_part size) ∷ []);
              left = s.free_slot_count - 1;
            },
          ))
  specified msg size fit =
      spec_accepts (s.mailboxes m) msg size (view s m) fit
      ∙ ap
          (λ (c : ℕ).
            if (s.free_slot_count == 0) || leb (s.mailboxes m).num_slots c
            then (reply minus_two, view s m)
            else (
              reply (pos 0),
              record {
                items = messages s m ++ (sent msg (pos_part size) ∷ []);
                left = s.free_slot_count - 1;
              },
            ))
          (length-first _ (s.slot_queues m).count)

  appended :
      (msg : Option Buffer) (size : ℤ)
      → bad_message (s.mailboxes m) msg size ≡ false
      → no_room m s ≡ false
      → ◌≡◌ {A = Reply × Fifo.Fifo}
          (reply (pos 0), view (after_deposit m msg (pos_part size) s) m)
          (Fifo.send (shape s m) msg size (view s m))
  appended msg size fit room =
      let n = pos_part size in
      let ok = bad_message-false (s.mailboxes m) msg size fit in
      let here =
        messages-deposited v m msg n (closed-false s m opened) (ground arith) (ground arith)
          ok.short ok.has_bytes m in
      rw (specified msg size fit, room)
        (ap
          (λ (xs : List (List ℕ)).
            (reply (pos 0), record { items = xs; left = s.free_slot_count - 1 }))
          (here ∙ if_self m _ _))

  pub mbox_cond_send_refines :
      (msg : Option Buffer) (size : ℤ)
      → Finishes
          (λ z t. Agrees s m (Fifo.send (shape s m) msg size (view s m)) (reply z) t)
          (mbox_cond_send (pos m) msg size s)
  unfolding mbox_cond_send
  mbox_cond_send_refines msg size = elim (Bool-cases (bad_message (s.mailboxes m) msg size)) [
    | inl bad ↦ rw (opened, bad) (sym (spec_refuses (s.mailboxes m) msg size (view s m) bad), refl)
    | inr fit ↦ elim (Bool-cases (no_room m s)) [
      | inl full ↦ rw (opened, fit, full) (sym (rw (specified msg size fit, full) refl), refl)
      | inr room ↦
          let n = pos_part size in
          let ok = bad_message-false (s.mailboxes m) msg size fit in
          let on = closed-false s m opened in
          rw
            (
              opened,
              fit,
              room,
              deposit-some v m msg n on (ground arith) (ground arith) ok.short ok.has_bytes,
            )
            (Finishes-mono (λ z t. (z ≡ pos 0) × SameMail (after_deposit m msg n s) t) _
              (notify m (after_deposit m msg n s))
              (λ z t h. (
                rw (h.0) (
                    ap (λ q. (reply (pos 0), q)) (view-SameMail _ t m h.1)
                    ∙ appended msg size fit room),
                h.1.mailboxes,
              ))
              (notify-Finishes
                (deposited-IsValid v m n (stored msg n (s.mail_slots (next_slot s)).message) on
                  (ground arith) (ground arith) ok.short)
                m))
    ]
  ]
