-- ===== src/Phase2/Refinement.antt =====
-- `MboxCondSend` and `MboxCondRecv` of phase2/phase2.c against the specification in Fifo.
mod View
mod Sends
mod Receives
use elissa_x_priscilla_colla.Phase2.Safety.{Anything, Never, Valid}
use elissa_x_priscilla_colla.Phase2.Safety.Transfers.{mbox_cond_send-IsSafe, mbox_cond_recv-IsSafe}
use elissa_x_priscilla_colla.Base.{ap, ℕ, ◌≡◌, refl, false, some, pos, negsuc, List, [], ◌∷◌}
use elissa_x_priscilla_colla.Base.Run.{Finishes-Safe, Finishes, Finishes-and_then, done, and_then}
use elissa_x_priscilla_colla.Kernel.{Cmd}
use elissa_x_priscilla_colla.Phase2.State.{State, Buffer, closed}
use elissa_x_priscilla_colla.Phase2.Transfer.{mbox_cond_send, mbox_cond_recv}
use elissa_x_priscilla_colla.Phase2.Invariant.{IsValid}
use elissa_x_priscilla_colla.Phase2.Fifo
use elissa_x_priscilla_colla.Phase2.Fifo.{Op, cond_send, cond_recv, Reply, reply}
pub use View.{view, shape, Agrees}
pub use Sends.{mbox_cond_send_refines}
pub use Receives.{bytes_of, received, received-error, mbox_cond_recv_refines}

-- One call on mailbox `m`, a receive into the buffer `out`, and what its caller sees.
unfoldable pub perform : ℕ → Buffer → Op → State → Cmd State Reply
perform m out (cond_send msg size) s =
    and_then (mbox_cond_send (pos m) msg size s) (λ z t. done (reply z) t)
perform m out (cond_recv size) s =
    and_then (mbox_cond_recv (pos m) (some out) size s) (λ r t. done (received r) t)

unfoldable pub perform_all : ℕ → Buffer → List Op → State → Cmd State (List Reply)
perform_all m out [] s = done [] s
perform_all m out (op ∷ ops) s =
    and_then (perform m out op s)
      (λ r t. and_then (perform_all m out ops t) (λ rs u. done (r ∷ rs) u))

-- What one call keeps for the next.
record Performed (s : State) (m : ℕ) (op : Op) (r : Reply) (t : State) : Type 0 where
  valid : IsValid t
  mailboxes : t.mailboxes ≡ s.mailboxes
  agrees : (r, view t m) ≡ Fifo.step (shape s m) op (view s m)

module _ {s : State} (v : IsValid s) (m : ℕ) (out : Buffer) (opened : closed s m ≡ false) where
  negative :
      (n : ℕ)
      → Finishes (Performed s m (cond_recv (negsuc n))) (perform m out (cond_recv (negsuc n)) s)
  unfolding perform mbox_cond_recv Fifo.step
  negative n = record {
    valid = v;
    mailboxes = refl;
    agrees = ap (λ r. (r, view s m)) (received-error (some out) 0);
  }

  perform-Finishes : (op : Op) → Finishes (Performed s m op) (perform m out op s)
  unfolding perform Fifo.step
  perform-Finishes (cond_send msg size) =
      Finishes-and_then _ (Performed s m (cond_send msg size)) (mbox_cond_send (pos m) msg size s) _
        (Finishes-Safe IsValid Anything Never Valid _ _ (λ c t. tt)
          (mbox_cond_send-IsSafe v (pos m) msg size) (mbox_cond_send_refines v m opened msg size))
        (λ z t h. record { valid = h.0; mailboxes = h.1.1; agrees = h.1.0 })
  perform-Finishes (cond_recv (pos max)) =
      Finishes-and_then _ (Performed s m (cond_recv (pos max)))
        (mbox_cond_recv (pos m) (some out) (pos max) s) _
        (Finishes-Safe IsValid Anything Never Valid _ _ (λ c t. tt)
          (mbox_cond_recv-IsSafe v (pos m) out (pos max))
          (mbox_cond_recv_refines v m out max opened))
        (λ z t h. record { valid = h.0; mailboxes = h.1.1; agrees = h.1.0 })
  perform-Finishes (cond_recv (negsuc n)) = negative n

-- Any sequence of `MboxCondSend` and `MboxCondRecv` on one open mailbox, from a valid state and with
-- nobody else acting meanwhile, returns without fault what the bounded queue of Fifo returns, in
-- values and in bytes.
pub perform_all_refines :
    (m : ℕ) (out : Buffer) (ops : List Op) (s : State)
    → IsValid s
    → closed s m ≡ false
    → Finishes (λ rs t. rs ≡ Fifo.run (shape s m) ops (view s m)) (perform_all m out ops s)
unfolding perform_all Fifo.run
perform_all_refines m out [] s v opened = refl
perform_all_refines m out (op ∷ ops) s v opened =
    Finishes-and_then (Performed s m op) _ (perform m out op s) _
      (perform-Finishes v m out opened op)
      λ r t h.
        Finishes-and_then _ _ (perform_all m out ops t) _
          (perform_all_refines m out ops t h.valid (rw (h.mailboxes) opened))
          (λ rs u e. rw (← h.agrees) (ap (◌∷◌ r) (rw (h.mailboxes) at e)))
