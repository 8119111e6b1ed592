-- ===== src/Phase2/Invariant/Deposit.antt =====
-- A deposit of phase2/phase2.c, the invariant and the messages of the mailbox.
use elissa_x_priscilla_colla.Base.{ℕ, ◌+◌, ◌-◌, ◌≤◌, ◌<◌, ◌≡◌, ◌≢◌, true, arith, put, put-cases}
use native.Mathlib.Decide.{dec_lt}
use elissa_x_priscilla_colla.Phase2.State.{State, Buffer, active}
use elissa_x_priscilla_colla.Phase2.Slots.{filled}
use elissa_x_priscilla_colla.Phase2.Ring.{
  IsRing, slot_at, pushed, pushed-IsRing, slot_at-pushed_old, slot_at-pushed_new,
}
use elissa_x_priscilla_colla.Phase2.Invariant.{IsHeld, IsFree, IsOpen, IsValid}

-- The slot that the next deposit takes.
abbrev pub next_slot : State → ℕ
next_slot s = s.free_slot_queue (s.free_slot_count - 1)

-- The state after a deposit of the bytes.
abbrev pub deposited : ℕ → Buffer → ℕ → State → State
deposited m bytes n s = record s {
  free_slot_count = s.free_slot_count - 1;
  mail_slots = put s.mail_slots (next_slot s) (filled m n bytes);
  slot_queues = put s.slot_queues m (pushed (next_slot s) (s.slot_queues m));
}

module _ {s : State} (v : IsValid s) (m : ℕ) (opened : active s m ≡ true)
    (room : (s.slot_queues m).count < (s.mailboxes m).num_slots) where
  pub room_left : (s.slot_queues m).count < (s.slot_queues m).alloc
  room_left = omega (arith, (v.open_boxes m opened).sized)

module _ {s : State} (v : IsValid s) (left : 0 < s.free_slot_count) where
  -- The slot that is taken is in no queue.
  pub not_held :
      (m' k : ℕ) → k < (s.slot_queues m').count → slot_at (s.slot_queues m') k ≢ next_slot s
  not_held m' k l e = ground (arith, v.held m' k l, v.free (s.free_slot_count - 1))

module _ {s : State} (v : IsValid s) (m n : ℕ) (bytes : Buffer) (opened : active s m ≡ true)
    (room : (s.slot_queues m).count < (s.mailboxes m).num_slots) (left : 0 < s.free_slot_count)
    (short : n ≤ (s.mailboxes m).slot_size) where
  deposited-IsFree :
      (i : ℕ)
      → i < s.free_slot_count - 1
      → IsFree (deposited m bytes n s).mail_slots (s.free_slot_queue i)
  deposited-IsFree i l = ground (
    arith,
    v.free i (omega arith),
    v.free_distinct i (s.free_slot_count - 1) (omega arith) (omega arith),
  )

  -- What was held still is.
  kept :
      (m' k : ℕ)
      → k < (s.slot_queues m').count
      → IsHeld (deposited m bytes n s).mail_slots m' (slot_at (s.slot_queues m') k)
  kept m' k l = ground (arith, v.held m' k l, not_held v left m' k l)

  IsHeld-here :
      (k : ℕ)
      → k < (s.slot_queues m).count + 1
      → IsHeld
          (deposited m bytes n s).mail_slots
          m
          (slot_at (pushed (next_slot s) (s.slot_queues m)) k)
  unfolding filled
  IsHeld-here k l = elim (dec_lt k (s.slot_queues m).count) [
    | yes old ↦
        rw (slot_at-pushed_old (v.rings m) (next_slot s) (room_left v m opened room) k old)
          (kept m k old)
    | no new ↦
        let last : k ≡ (s.slot_queues m).count = omega arith in
        rw (last, slot_at-pushed_new (v.rings m) (next_slot s) (room_left v m opened room))
          (ground
            (arith, v.free (s.free_slot_count - 1) (omega arith), (v.open_boxes m opened).small))
  ]

  distinct_here :
      (j k : ℕ)
      → j < k
      → k < (s.slot_queues m).count + 1
      → slot_at (pushed (next_slot s) (s.slot_queues m)) j
        ≢ slot_at (pushed (next_slot s) (s.slot_queues m)) k
  distinct_here j k jk l = elim (dec_lt k (s.slot_queues m).count) [
    | yes old ↦
        rw
          (
            slot_at-pushed_old (v.rings m) (next_slot s) (room_left v m opened room) k old,
            slot_at-pushed_old (v.rings m) (next_slot s) (room_left v m opened room) j
                (omega arith),
          )
          (v.held_distinct m j k jk old)
    | no new ↦
        let last : k ≡ (s.slot_queues m).count = omega arith in
        rw
          (
            last,
            slot_at-pushed_new (v.rings m) (next_slot s) (room_left v m opened room),
            slot_at-pushed_old (v.rings m) (next_slot s) (room_left v m opened room) j
                (omega arith),
          )
          (not_held v left m j (omega arith))
  ]

  pub deposited-IsValid : IsValid (deposited m bytes n s)
  deposited-IsValid = record {
    free_fits = omega (arith, v.free_fits);
    free = deposited-IsFree;
    free_distinct = λ i j ij l. v.free_distinct i j ij (omega arith);
    rings = λ m'.
        put-cases IsRing s.slot_queues m _ m'
          (λ _. pushed-IsRing (v.rings m) (next_slot s) (room_left v m opened room))
          (λ _. v.rings m');
    held = λ m'.
        put-cases
          (λ q. (k : ℕ) → k < q.count → IsHeld (deposited m bytes n s).mail_slots m' (slot_at q k))
          s.slot_queues m _ m' (λ e. rw e IsHeld-here) (λ _. kept m');
    held_distinct = λ m'.
        put-cases (λ q. (j k : ℕ) → j < k → k < q.count → slot_at q j ≢ slot_at q k) s.slot_queues m
          _ m' (λ _. distinct_here) (λ _. v.held_distinct m');
    open_boxes = λ m' o.
        put-cases (IsOpen (s.mailboxes m')) s.slot_queues m _ m'
          (λ e. rw e (resized (v.open_boxes m opened))) (λ _. v.open_boxes m' o);
    producers_fit = v.producers_fit;
    consumers_fit = v.consumers_fit;
  }
    where
      resized :
          IsOpen (s.mailboxes m) (s.slot_queues m)
          → IsOpen (s.mailboxes m) (pushed (next_slot s) (s.slot_queues m))
      resized o = record { sized = o.sized; small = o.small }
