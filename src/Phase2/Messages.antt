-- ===== src/Phase2/Messages.antt =====
-- A mailbox as a queue of messages: what `deposit` and the start of a receive do to it.
use native.Mathlib.Numerals.{add-one}
use elissa_x_priscilla_colla.Base.{
  ap, ◌∙◌, sym, suc, put-cases, ◌-◌, put_ne, ==_refl, Bool-cases, inl, inr, ℕ, ◌≤◌, ◌<◌, ◌≡◌, refl,
  ap₂, true, false, Option, none, some, List, [], ◌∷◌, ◌++◌, arith, put, first, first-congr,
  first-suc, ◌==◌, if◌then◌else◌,
}
use elissa_x_priscilla_colla.Phase2.State.{State, Buffer, MailSlot, SlotQueue, active, max_message}
use elissa_x_priscilla_colla.Phase2.Slots.{copy, fill, filled, deposit}
use elissa_x_priscilla_colla.Phase2.Ring.{
  IsRing, popped, slot_at-popped, slot_at, pushed, push_slot-some, slot_at-pushed_old,
  slot_at-pushed_new,
}
use elissa_x_priscilla_colla.Phase2.Invariant.{IsValid}
use elissa_x_priscilla_colla.Phase2.Invariant.Deposit.{next_slot, deposited, room_left, not_held}

-- The bytes of a message.
abbrev pub message_of : MailSlot → List ℕ
message_of v = first v.message v.message_length

-- The messages of a queue over some slots, oldest first.
abbrev pub messages_in : (ℕ → MailSlot) → SlotQueue → List (List ℕ)
messages_in slots q = first (λ k. message_of (slots (slot_at q k))) q.count

-- The messages in mailbox `m`, oldest first.
abbrev pub messages : State → ℕ → List (List ℕ)
messages s m = messages_in s.mail_slots (s.slot_queues m)

-- What the message array of a slot holds after `memcpy` from `msg_ptr`.
abbrev pub stored : Option Buffer → ℕ → Buffer → Buffer
stored none n to = to
stored (some from) n to = copy n from to

-- The first `n` bytes of the sender's buffer.
abbrev pub sent : Option Buffer → ℕ → List ℕ
sent none n = []
sent (some from) n = first from n

-- `MboxSend` has refused a null pointer to a message with bytes.
abbrev pub HasBytes : Option Buffer → ℕ → Type 0
HasBytes none n = n ≡ 0
HasBytes (some from) n = Unit

fill-some :
    (msg : Option Buffer) (n : ℕ) (to : Buffer)
    → HasBytes msg n
    → n ≤ max_message
    → fill msg n to ≡ some (stored msg n to)
unfolding fill
fill-some none n to h l = ground arith
fill-some (some from) n to h l = ground arith

first-stored :
    (msg : Option Buffer) (n : ℕ) (to : Buffer)
    → HasBytes msg n
    → first (stored msg n to) n ≡ sent msg n
unfolding first
first-stored none n to h = rw h
first-stored (some from) n to h = first-congr (copy n from to) from n (λ i l. ground arith)

-- The state after a deposit.
abbrev pub after_deposit : ℕ → Option Buffer → ℕ → State → State
after_deposit m msg n s = deposited m (stored msg n (s.mail_slots (next_slot s)).message) n s

module _ {s : State} (v : IsValid s) (m : ℕ) (msg : Option Buffer) (n : ℕ)
    (opened : active s m ≡ true) (room : (s.slot_queues m).count < (s.mailboxes m).num_slots)
    (left : 0 < s.free_slot_count) (short : n ≤ (s.mailboxes m).slot_size)
    (has : HasBytes msg n) where
  pub deposit-some : deposit m msg n s ≡ some (after_deposit m msg n s)
  unfolding deposit
  deposit-some = ground (
    arith,
    fill-some msg n (s.mail_slots (next_slot s)).message has
        (omega (arith, (v.open_boxes m opened).small)),
    (v.free (s.free_slot_count - 1) (omega arith)).slot_in,
    push_slot-some (v.rings m) (next_slot s) (room_left v m opened room),
  )

  messages-deposited_here :
      messages_in (after_deposit m msg n s).mail_slots (pushed (next_slot s) (s.slot_queues m))
      ≡ messages s m ++ (sent msg n ∷ [])
  unfolding filled
  messages-deposited_here =
      let i = next_slot s in
      let q = s.slot_queues m in
      let ring = v.rings m in
      let fits = room_left v m opened room in
      let slots = (after_deposit m msg n s).mail_slots in
      rw (add-one, first-suc (λ k. message_of (slots (slot_at (pushed i q) k))) q.count)
        (ap₂ (λ xs x. xs ++ (x ∷ []))
          (first-congr _ _ q.count λ k l.
            rw
              (
                slot_at-pushed_old ring i fits k l,
                put_ne s.mail_slots i _ (slot_at q k) (not_held v left m k l),
              )
              refl)
          (rw (slot_at-pushed_new ring i fits, ==_refl i)
            (first-stored msg n (s.mail_slots i).message has)))

  messages_elsewhere :
      (m' : ℕ) → messages_in (after_deposit m msg n s).mail_slots (s.slot_queues m') ≡ messages s m'
  messages_elsewhere m' =
      first-congr _ _ (s.slot_queues m').count
        λ k l. rw (put_ne s.mail_slots (next_slot s) _ _ (not_held v left m' k l)) refl

  pub messages-deposited :
      (m' : ℕ)
      → messages (after_deposit m msg n s) m'
        ≡ (if m' == m then messages s m ++ (sent msg n ∷ []) else messages s m')
  messages-deposited m' = elim (Bool-cases (m' == m)) [
    | inl e ↦ rw e messages-deposited_here
    | inr e ↦ rw e (messages_elsewhere m')
  ]

-- Freeing a slot does not touch its message.
pub message_of-freed :
    (slots : ℕ → MailSlot) (i j : ℕ)
    → message_of (put slots i (record (slots i) { in_use = false }) j) ≡ message_of (slots j)
message_of-freed slots i j =
    put-cases (λ v. message_of v ≡ message_of (slots j)) slots i
      (record (slots i) { in_use = false }) j (λ e. rw e refl) (λ _. refl)

pub messages_in-freed :
    (slots : ℕ → MailSlot) (i : ℕ) (q : SlotQueue)
    → messages_in (put slots i (record (slots i) { in_use = false })) q ≡ messages_in slots q
messages_in-freed slots i q =
    first-congr _ _ q.count (λ k l. message_of-freed slots i (slot_at q k))

-- The oldest message, and the others.
pub messages_in-popped :
    (slots : ℕ → MailSlot) (q : SlotQueue)
    → IsRing q
    → 0 < q.count
    → messages_in slots q ≡ message_of (slots (slot_at q 0)) ∷ messages_in slots (popped q)
unfolding first
messages_in-popped slots q ring held =
    ap (first (λ k. message_of (slots (slot_at q k)))) last
    ∙ ap (◌∷◌ (message_of (slots (slot_at q 0)))) (
        first-congr _ _ (q.count - 1) λ k l.
          ap (λ i. message_of (slots i))
            (sym (slot_at-popped ring held k ∙ ap (slot_at q) (omega arith))))
  where
    last : q.count ≡ suc (q.count - 1)
    last = omega arith
