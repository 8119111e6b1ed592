-- ===== src/Phase4/Mailbox.antt =====
-- Mailboxes of phase2/phase2.c as phase4a/phase4a.c uses them, while nobody else acts.
use elissa_x_priscilla_colla.Base.{
  ℕ, zero, suc, ◌+◌, ◌-◌, ◌<◌, ◌≤◌, ◌≡◌, ◌≢◌, refl, sym, ap, subst, ◌∙◌, pos, minus_two, some, List,
  [], ◌∷◌, ◌++◌, false, leb, ltb, ◌==◌, arith, length, first, length-first,
}
use elissa_x_priscilla_colla.Base.Int.{ltb_ℤ}
use elissa_x_priscilla_colla.Base.Run.{Finishes, Finishes-mono, Finishes-Safe}
use elissa_x_priscilla_colla.Phase2.State as Mail
use elissa_x_priscilla_colla.Phase2.State.{Buffer, closed}
use elissa_x_priscilla_colla.Phase2.Transfer.{
  is_full, Received, mbox_send, mbox_cond_send, mbox_cond_recv, mbox_recv,
}
use elissa_x_priscilla_colla.Phase2.Invariant.{IsValid}
use elissa_x_priscilla_colla.Phase2.Messages.{messages}
use elissa_x_priscilla_colla.Phase2.Conditional.{mbox_send-mbox_cond_send, mbox_recv-mbox_cond_recv}
use elissa_x_priscilla_colla.Phase2.Fifo
use elissa_x_priscilla_colla.Phase2.Fifo.{reply}
use elissa_x_priscilla_colla.Phase2.Safety.{Anything, Never, Valid}
use elissa_x_priscilla_colla.Phase2.Safety.Transfers.{
  mbox_cond_send-IsSafe, mbox_cond_recv-IsSafe, closed-false,
}
use elissa_x_priscilla_colla.Phase2.Refinement.{
  view, shape, Agrees, bytes_of, received, mbox_cond_send_refines, mbox_cond_recv_refines,
}

-- Byte `i` of a message.
abbrev pub byte : List ℕ → ℕ → ℕ
byte [] i = 0
byte (b ∷ bs) zero = b
byte (b ∷ bs) (suc i) = byte bs i

pub byte-first : (b : Buffer) (n i : ℕ) → i < n → byte (first b n) i ≡ b i
unfolding first
byte-first b zero i l = absurd (omega (arith, l))
byte-first b (suc n) zero l = refl
byte-first b (suc n) (suc i) l = byte-first (λ j. b (suc j)) n i (omega (arith, l))

-- Each message fits into `w` bytes.
abbrev pub AreShort : ℕ → List (List ℕ) → Type 0
AreShort w [] = Unit
AreShort w (r ∷ rs) = (length r ≤ w) × AreShort w rs

-- Mailbox `m` is open, takes messages of up to `w` bytes, and holds `rs`.
pub record IsMailbox (m w : ℕ) (rs : List (List ℕ)) (s : Mail.State) : Type 0 where
  pub valid : IsValid s
  pub opened : closed s m ≡ false
  pub slots : (s.mailboxes m).num_slots ≢ 0
  pub wide : w ≤ (s.mailboxes m).slot_size
  pub contents : messages s m ≡ rs

-- What a receive gives: nothing, or the first message.
abbrev pub Taken : (m w : ℕ) → List (List ℕ) → Received → Mail.State → Type 0
Taken m w [] r t = (ltb_ℤ (pos 0) (r.0) ≡ false) × IsMailbox m w [] t
Taken m w (q ∷ rs) r t =
    (r.0 ≡ pos (length q))
    × (bytes_of (r.1) (pos (length q)) ≡ q)
    × IsMailbox m w rs t
    × (0 < t.free_slot_count)
    × (length rs < (t.mailboxes m).num_slots)

module _ {s : Mail.State} (m w : ℕ) where
  -- The same mailbox with other requests.
  IsMailbox-later :
      (rs rs' : List (List ℕ)) (t : Mail.State)
      → IsMailbox m w rs s
      → IsValid t
      → t.mailboxes ≡ s.mailboxes
      → messages t m ≡ rs'
      → IsMailbox m w rs' t
  IsMailbox-later rs rs' t x v same e = record {
    valid = v;
    opened = rw same (x.opened);
    slots = rw same (x.slots);
    wide = rw same (x.wide);
    contents = e;
  }

  -- There are at most as many messages as slots.
  contents_fit : (rs : List (List ℕ)) → IsMailbox m w rs s → length rs ≤ (s.mailboxes m).num_slots
  contents_fit rs x =
      let ring = x.valid.rings m in
      let sized = (x.valid.open_boxes m (closed-false s m x.opened)).sized in
      let count : length rs ≡ (s.slot_queues m).count =
        ap length (sym x.contents) ∙ length-first _ (s.slot_queues m).count in
      omega (arith, ring.fits, sized, count)

  taken :
      (out : Buffer) (rs : List (List ℕ)) (r : Received) (t : Mail.State)
      → IsMailbox m w rs s
      → AreShort w rs
      → IsValid t
      → Agrees s m (Fifo.recv (pos w) (view s m)) (received r) t
      → Taken m w rs r t
  unfolding Fifo.recv Fifo.recv_items
  taken out [] r t x a v h =
      let e : (received r, view t m) ≡ Fifo.recv_items w [] s.free_slot_count =
        h.0 ∙ ap (λ xs. Fifo.recv_items w xs s.free_slot_count) x.contents in
      let value : r.0 ≡ minus_two = ap (λ p. p.0.value) e in
      (rw value refl, IsMailbox-later [] [] t x v (h.1) (ap (λ p. p.1.items) e))
  taken out (q ∷ rs) r t x a v h =
      let short = a.0 in
      let fits : ltb w (length q) ≡ false = ground (arith, short) in
      let e : (received r, view t m) ≡ (
        record { value = pos (length q); bytes = q },
        record { items = rs; left = s.free_slot_count + 1 },
      ) =
        h.0 ∙ ap (λ xs. Fifo.recv_items w xs s.free_slot_count) x.contents ∙ rw fits refl in
      let value : r.0 ≡ pos (length q) = ap (λ p. p.0.value) e in
      let left : t.free_slot_count ≡ s.free_slot_count + 1 = ap (λ p. p.1.left) e in
      let full = contents_fit (q ∷ rs) x in
      (
        value,
        subst (λ z. bytes_of (r.1) z ≡ q) value (ap (λ p. p.0.bytes) e),
        IsMailbox-later (q ∷ rs) rs t x v (h.1) (ap (λ p. p.1.items) e),
        omega (arith, left),
        rw (h.1) (omega (arith, full)),
      )

  pub recv-Taken :
      (out : Buffer) (rs : List (List ℕ))
      → IsMailbox m w rs s
      → AreShort w rs
      → Finishes (Taken m w rs) (mbox_cond_recv (pos m) (some out) (pos w) s)
  recv-Taken out rs x a =
      Finishes-mono _ (Taken m w rs) (mbox_cond_recv (pos m) (some out) (pos w) s)
        (λ r t h. taken out rs r t x a (h.0) (h.1))
        (Finishes-Safe IsValid Anything Never Valid _ _ (λ c t. tt)
          (mbox_cond_recv-IsSafe x.valid (pos m) out (pos w))
          (mbox_cond_recv_refines x.valid m out w x.opened))

  -- The same for a receive that may wait, when there is a message.
  pub wait_recv-Taken :
      (pid : ℕ) (out : Buffer) (q : List ℕ) (rs : List (List ℕ))
      → IsMailbox m w (q ∷ rs) s
      → AreShort w (q ∷ rs)
      → Finishes (Taken m w (q ∷ rs)) (mbox_recv pid (pos m) (some out) (pos w) s)
  wait_recv-Taken pid out q rs x a =
      let count : suc (length rs) ≡ (s.slot_queues m).count =
        ap length (sym x.contents) ∙ length-first _ (s.slot_queues m).count in
      rw (mbox_recv-mbox_cond_recv s m x.slots pid (some out) (pos w) (omega (arith, count)))
        (recv-Taken out (q ∷ rs) x a)

  module _ (n : ℕ) (from : Buffer) (rs : List (List ℕ)) (small : n ≤ w) (x : IsMailbox m w rs s)
      (left : 0 < s.free_slot_count) (room : length rs < (s.mailboxes m).num_slots) where
    abbrev with_message : List (List ℕ)
    with_message = rs ++ (first from n ∷ [])

    -- A message of `n` bytes is put at the end.
    pub cond_send-IsMailbox :
        Finishes
          (λ _ t. IsMailbox m w with_message t)
          (mbox_cond_send (pos m) (some from) (pos n) s)
    unfolding Fifo.send
    cond_send-IsMailbox =
        let wide = x.wide in
        let fits : ltb (s.mailboxes m).slot_size n ≡ false = ground (arith, wide, small) in
        let some_left : (s.free_slot_count == 0) ≡ false = ground (arith, left) in
        let less : leb (s.mailboxes m).num_slots (length rs) ≡ false = ground (arith, room) in
        let spec : Fifo.send (shape s m) (some from) (pos n) (view s m)
            ≡ (reply (pos 0), record { items = with_message; left = s.free_slot_count - 1 }) =
          rw (x.contents, fits, some_left, less) refl in
        Finishes-mono _ (λ _ t. IsMailbox m w with_message t)
          (mbox_cond_send (pos m) (some from) (pos n) s)
          (λ z t h.
            IsMailbox-later rs with_message t x (h.0) (h.1.1) (ap (λ p. p.1.items) (h.1.0 ∙ spec)))
          (Finishes-Safe IsValid Anything Never Valid _ _ (λ c t. tt)
            (mbox_cond_send-IsSafe x.valid (pos m) (some from) (pos n))
            (mbox_cond_send_refines x.valid m x.opened (some from) (pos n)))

    -- The same for a send that may wait.
    pub send-IsMailbox :
        (fuel pid : ℕ)
        → Finishes
            (λ _ t. IsMailbox m w with_message t)
            (mbox_send (suc fuel) pid (pos m) (some from) (pos n) s)
    send-IsMailbox f pid =
        let count : length rs ≡ (s.slot_queues m).count =
          ap length (sym x.contents) ∙ length-first _ (s.slot_queues m).count in
        let not_full : is_full m s ≡ false = ground (arith, count, room) in
        rw (mbox_send-mbox_cond_send s m x.slots f pid (some from) (pos n) not_full)
          cond_send-IsMailbox
