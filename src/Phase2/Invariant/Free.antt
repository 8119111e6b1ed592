-- ===== src/Phase2/Invariant/Free.antt =====
-- Taking a message out of a mailbox of phase2/phase2.c, and the invariant: first its slot leaves
-- the queue, then the slot goes back on the free list.
use elissa_x_priscilla_colla.Base.{
  ℕ, ◌+◌, ◌-◌, ◌<◌, ◌≡◌, ◌≢◌, sym, true, false, some, arith, put, put-cases,
}
use elissa_x_priscilla_colla.Phase2.State.{State, max_slots, set_queue}
use elissa_x_priscilla_colla.Phase2.Slots.{free_slot}
use elissa_x_priscilla_colla.Phase2.Ring.{IsRing, slot_at, popped, popped-IsRing, slot_at-popped}
use elissa_x_priscilla_colla.Phase2.Invariant.{IsHeld, IsFree, IsOpen, IsValid}
use elissa_x_priscilla_colla.Phase2.Invariant.Pigeonhole.{length_of_distinct}

-- A slot in use that is in no queue.
pub record IsLoose (s : State) (i : ℕ) : Type 0 where
  pub slot_in : i < max_slots
  pub used : (s.mail_slots i).in_use ≡ true
  pub queued_nowhere : (m k : ℕ) → k < (s.slot_queues m).count → slot_at (s.slot_queues m) k ≢ i

-- The state after the oldest message of mailbox `m` has left the queue.
abbrev pub taken : ℕ → State → State
taken m s = set_queue s m (popped (s.slot_queues m))

module _ {s : State} (v : IsValid s) (m : ℕ) (some_held : 0 < (s.slot_queues m).count) where
  IsHeld-here :
      (k : ℕ)
      → k < (s.slot_queues m).count - 1
      → IsHeld s.mail_slots m (slot_at (popped (s.slot_queues m)) k)
  IsHeld-here k l = rw (slot_at-popped (v.rings m) some_held k) (v.held m (k + 1) (omega arith))

  distinct_here :
      (j k : ℕ)
      → j < k
      → k < (s.slot_queues m).count - 1
      → slot_at (popped (s.slot_queues m)) j ≢ slot_at (popped (s.slot_queues m)) k
  distinct_here j k jk l =
      rw (slot_at-popped (v.rings m) some_held j, slot_at-popped (v.rings m) some_held k)
        (v.held_distinct m (j + 1) (k + 1) (omega arith) (omega arith))

  pub taken-IsValid : IsValid (taken m s)
  taken-IsValid = record {
    free_fits = v.free_fits;
    free = v.free;
    free_distinct = v.free_distinct;
    rings = λ m'.
        put-cases IsRing s.slot_queues m _ m' (λ _. popped-IsRing (v.rings m) some_held)
          (λ _. v.rings m');
    held = λ m'.
        put-cases (λ q. (k : ℕ) → k < q.count → IsHeld s.mail_slots m' (slot_at q k)) s.slot_queues
          m _ m' (λ e. rw e IsHeld-here) (λ _. v.held m');
    held_distinct = λ m'.
        put-cases (λ q. (j k : ℕ) → j < k → k < q.count → slot_at q j ≢ slot_at q k) s.slot_queues m
          _ m' (λ _. distinct_here) (λ _. v.held_distinct m');
    open_boxes = λ m' o.
        put-cases (IsOpen (s.mailboxes m')) s.slot_queues m _ m'
          (λ e. rw e (resized (v.open_boxes m (rw e at o)))) (λ _. v.open_boxes m' o);
    producers_fit = v.producers_fit;
    consumers_fit = v.consumers_fit;
  }
    where
      resized :
          IsOpen (s.mailboxes m) (s.slot_queues m)
          → IsOpen (s.mailboxes m) (popped (s.slot_queues m))
      resized o = record { sized = o.sized; small = o.small }

  pub taken-IsLoose : IsLoose (taken m s) (slot_at (s.slot_queues m) 0)
  taken-IsLoose = record {
    slot_in = (v.held m 0 some_held).slot_in;
    used = (v.held m 0 some_held).used;
    queued_nowhere = λ m'.
        put-cases (λ q. (k : ℕ) → k < q.count → slot_at q k ≢ slot_at (s.slot_queues m) 0)
          s.slot_queues m _ m' gone_here gone_there;
  }
    where
      gone_here :
          {m' : ℕ}
          → m' ≡ m
          → (k : ℕ) → k < (s.slot_queues m).count - 1
          → slot_at (popped (s.slot_queues m)) k ≢ slot_at (s.slot_queues m) 0
      gone_here _ k l =
          rw (slot_at-popped (v.rings m) some_held k)
            (λ e. v.held_distinct m 0 (k + 1) (omega arith) (omega arith) (sym e))

      gone_there :
          {m' : ℕ}
          → m' ≢ m
          → (k : ℕ) → k < (s.slot_queues m').count
          → slot_at (s.slot_queues m') k ≢ slot_at (s.slot_queues m) 0
      gone_there {m'} ne k l = ground (arith, v.held m' k l, v.held m 0 some_held)

-- The state after a slot has gone back on the free list.
abbrev pub freed : ℕ → State → State
freed i s = record s {
  mail_slots = put s.mail_slots i (record (s.mail_slots i) { in_use = false });
  free_slot_queue = put s.free_slot_queue s.free_slot_count i;
  free_slot_count = s.free_slot_count + 1;
}

module _ {s : State} (v : IsValid s) (i : ℕ) (loose : IsLoose s i) where
  -- The free list with the slot behind it still holds distinct slots, so it was not full.
  free_below :
      (k : ℕ) → k < s.free_slot_count + 1 → put s.free_slot_queue s.free_slot_count i k < max_slots
  free_below k l =
      put-cases (λ j. j < max_slots) s.free_slot_queue s.free_slot_count i k (λ _. loose.slot_in)
        (λ ne. (v.free k (omega arith)).slot_in)

  not_free : (k : ℕ) → k < s.free_slot_count → s.free_slot_queue k ≢ i
  not_free k l = ground (arith, v.free k l, loose.used)

  free_apart :
      (j k : ℕ)
      → j < k
      → k < s.free_slot_count + 1
      → put s.free_slot_queue s.free_slot_count i j ≢ put s.free_slot_queue s.free_slot_count i k
  free_apart j k jk l = ground (arith, not_free j (omega arith), v.free_distinct j k jk)

  pub free_left : s.free_slot_count < max_slots
  free_left = omega (
    arith,
    length_of_distinct max_slots (s.free_slot_count + 1) (put s.free_slot_queue s.free_slot_count i)
        free_below free_apart,
  )

  pub free_slot-some : free_slot i s ≡ some (freed i s)
  unfolding free_slot
  free_slot-some = ground (arith, free_left)

  pub freed-IsValid : IsValid (freed i s)
  freed-IsValid = record {
    free_fits = omega (arith, free_left);
    free = λ k l.
        put-cases (IsFree (freed i s).mail_slots) s.free_slot_queue s.free_slot_count i k
          (λ _. ground (arith, loose.slot_in))
          (λ ne. ground (arith, v.free k (omega arith), not_free k (omega arith)));
    free_distinct = free_apart;
    rings = v.rings;
    held = λ m k l. ground (arith, v.held m k l, loose.queued_nowhere m k l);
    held_distinct = v.held_distinct;
    open_boxes = v.open_boxes;
    producers_fit = v.producers_fit;
    consumers_fit = v.consumers_fit;
  }
