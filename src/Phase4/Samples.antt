-- ===== src/Phase4/Samples.antt =====
-- A state of phase4a/phase4a.c to try its operations on.
use elissa_x_priscilla_colla.Base.{
  ℕ, ◌+◌, ◌<◌, ◌≡◌, ◌≢◌, refl, subst, pos, minus_one, List, [], ◌∷◌, true, ◌==◌, if◌then◌else◌,
  arith, Bool-cases, inl, inr, first,
}
use elissa_x_priscilla_colla.Phase2.State as Mail
use elissa_x_priscilla_colla.Phase2.State.{MailSlot, Buffer}
use elissa_x_priscilla_colla.Phase2.Ring.{IsRing, slot_at}
use elissa_x_priscilla_colla.Phase2.Invariant.{IsValid, IsHeld, IsOpen}
use elissa_x_priscilla_colla.Phase2.Samples.{ready, one_slot, no_box, unused_slot, no_queue}
use elissa_x_priscilla_colla.Phase4.State.{State}
use elissa_x_priscilla_colla.Phase4.Sleepers.{IsTicking}
use elissa_x_priscilla_colla.Phase4.RoundTrip.{IsTerminal}

-- A request that is due at tick `n`, for `n` below 256.
abbrev pub due_at : ℕ → Buffer
due_at n i = if i == 4 then n else 0

abbrev request_slot : ℕ → MailSlot
request_slot n = record { mailbox_id = 1; message_length = 8; in_use = true; message = due_at n }

-- Mailbox 0 takes lines and is empty; mailbox 1 is that of the clock, with requests for the ticks 3
-- and 9.
abbrev pub mail : Mail.State
mail = record ready {
  mailboxes = λ m.
      if m == 0
      then record one_slot { num_slots = 10; slot_size = 81 }
      else if m == 1
      then record one_slot { num_slots = 100; slot_size = 8 }
      else no_box;
  mail_slots =
      λ i. if i == 2498 then request_slot 3 else if i == 2499 then request_slot 9 else unused_slot;
  free_slot_count = 2498;
  slot_queues = λ m.
      if m == 0
      then record no_queue { alloc = 10; capacity = 10 }
      else if m == 1
      then record no_queue {
        queue = λ i. 2498 + i;
        alloc = 100;
        capacity = 100;
        tail = 2;
        count = 2;
      }
      else no_queue;
  blocked_producers = λ m. record { pids = λ _. 7; num = 0 };
}

mail_rings : (m : ℕ) → IsRing (mail.slot_queues m)
mail_rings m = elim (Bool-cases (m == 0)) [
  | inl e ↦ rw e (record {
    fits = omega arith;
    whole = λ _. refl;
    head_in = λ _. omega arith;
    tail_at = λ _. refl;
  })
  | inr e ↦ elim (Bool-cases (m == 1)) [
    | inl e' ↦
        rw (e, e')
          (record {
            fits = omega arith;
            whole = λ _. refl;
            head_in = λ _. omega arith;
            tail_at = λ _. refl;
          })
    | inr e' ↦
        rw (e, e')
          (record {
            fits = omega arith;
            whole = λ _. refl;
            head_in = λ l. absurd (omega (arith, l));
            tail_at = λ l. absurd (omega (arith, l));
          })
  ]
]

-- Only the mailbox of the clock holds messages.
holds_two : (m k : ℕ) → k < (mail.slot_queues m).count → (1 ≡ m) × (k < 2)
holds_two m k l = elim (Bool-cases (m == 0)) [
  | inl e ↦ absurd (ground (arith, l, e))
  | inr e ↦ elim (Bool-cases (m == 1)) [
    | inl e' ↦ (ground arith, ground (arith, l))
    | inr e' ↦ absurd (ground (arith, l, e, e'))
  ]
]

IsHeld-at : (k : ℕ) → k < 2 → IsHeld mail.mail_slots 1 (slot_at (mail.slot_queues 1) k)
IsHeld-at k l = elim (Bool-cases (k == 0)) [
  | inl e ↦
      subst (λ j. IsHeld mail.mail_slots 1 (slot_at (mail.slot_queues 1) j)) {x = 0} {y = k}
        (ground arith)
        (record { slot_in = omega arith; used = refl; owner = refl; short = omega arith })
  | inr e ↦
      subst (λ j. IsHeld mail.mail_slots 1 (slot_at (mail.slot_queues 1) j)) {x = 1} {y = k}
        (ground arith)
        (record { slot_in = omega arith; used = refl; owner = refl; short = omega arith })
]

distinct_at :
    (j k : ℕ) → j < k → k < 2 → slot_at (mail.slot_queues 1) j ≢ slot_at (mail.slot_queues 1) k
distinct_at j k jk l =
    subst (λ i. slot_at (mail.slot_queues 1) i ≢ slot_at (mail.slot_queues 1) k) {x = 0} {y = j}
      (omega (arith, jk, l))
      (subst (λ i. slot_at (mail.slot_queues 1) 0 ≢ slot_at (mail.slot_queues 1) i) {x = 1} {y = k}
        (omega (arith, jk, l)) (omega arith))

opened_at : (m : ℕ) → Mail.active mail m ≡ true → IsOpen (mail.mailboxes m) (mail.slot_queues m)
opened_at m o = elim (Bool-cases (m == 0)) [
  | inl e ↦ rw e (record { sized = refl; small = omega arith })
  | inr e ↦ elim (Bool-cases (m == 1)) [
    | inl e' ↦ rw (e, e') (record { sized = refl; small = omega arith })
    | inr e' ↦ absurd (ground (arith, o, e, e'))
  ]
]

pub mail-IsValid : IsValid mail
mail-IsValid = record {
  free_fits = omega arith;
  free = λ i l. record { slot_in = omega (arith, l); unused = ground (arith, l) };
  free_distinct = λ i j ij l. omega (arith, ij);
  rings = mail_rings;
  held = λ m k l.
      let (same, below) = holds_two m k l in
      subst (λ n. IsHeld mail.mail_slots n (slot_at (mail.slot_queues n) k)) same
        (IsHeld-at k below);
  held_distinct = λ m j k jk l.
      let (same, below) = holds_two m k l in
      subst (λ n. slot_at (mail.slot_queues n) j ≢ slot_at (mail.slot_queues n) k) same
        (distinct_at j k jk below);
  open_boxes = opened_at;
  producers_fit = λ m. omega arith;
  consumers_fit = λ m. omega arith;
}

abbrev pub terminals : State
terminals = record {
  kernel = mail;
  term_buffers = λ _. record {
    head = 0;
    tail = 0;
    count = 0;
    mutex_mbox = minus_one;
    line_ready_mbox = pos 0;
  };
  clock_mbox = pos 1;
  tick_count = 5;
}

abbrev pub requests : List (List ℕ)
requests = (0 ∷ 0 ∷ 0 ∷ 0 ∷ 3 ∷ 0 ∷ 0 ∷ 0 ∷ []) ∷ (0 ∷ 0 ∷ 0 ∷ 0 ∷ 9 ∷ 0 ∷ 0 ∷ 0 ∷ []) ∷ []

pub terminals-IsTicking : IsTicking 1 5 requests terminals
unfolding first
terminals-IsTicking = record {
  clock = record {
    valid = mail-IsValid;
    opened = refl;
    slots = λ e. absurd (omega (arith, e));
    wide = omega arith;
    contents = refl;
  };
  mailbox = refl;
  tick = refl;
  quiet = (refl, refl);
}

pub terminals-IsTerminal : IsTerminal 0 0 [] terminals
unfolding first
terminals-IsTerminal = record {
  mailbox = refl;
  lines = record {
    valid = mail-IsValid;
    opened = refl;
    slots = λ e. absurd (omega (arith, e));
    wide = omega arith;
    contents = refl;
  };
}
