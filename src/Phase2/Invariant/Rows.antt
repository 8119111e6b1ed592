-- ===== src/Phase2/Invariant/Rows.antt =====
-- The invariant under changes of the rows of blocked processes and of the mailboxes' pointers.
use elissa_x_priscilla_colla.Base.{
  refl, sym, ◌∙◌, ℤ, inl, inr, Bool-cases, ℕ, ◌-◌, ◌≤◌, ◌≡◌, true, arith, put-cases,
}
use elissa_x_priscilla_colla.Phase2.State.{
  State, Mbox, Waiters, max_blocked, active, set_producers, set_consumers, set_mailbox,
}
use elissa_x_priscilla_colla.Phase2.Waiters.{enqueue, dequeue, already_blocked}
use elissa_x_priscilla_colla.Phase2.Transfer.{
  set_producer, set_consumer, clear_consumer, queue_producer,
}
use elissa_x_priscilla_colla.Phase2.Invariant.{IsOpen, IsValid}

pub num-enqueue : (pid : ℕ) (w : Waiters) → w.num ≤ max_blocked → (enqueue pid w).num ≤ max_blocked
unfolding enqueue
num-enqueue pid w h = ground arith

pub num-dequeue : (w : Waiters) → (dequeue w).num ≡ w.num - 1
unfolding dequeue
num-dequeue w = omega arith

module _ {s : State} (v : IsValid s) (m : ℕ) where
  pub set_producers-IsValid : (w : Waiters) → w.num ≤ max_blocked → IsValid (set_producers s m w)
  set_producers-IsValid w h = record {
    free_fits = v.free_fits;
    free = v.free;
    free_distinct = v.free_distinct;
    rings = v.rings;
    held = v.held;
    held_distinct = v.held_distinct;
    open_boxes = v.open_boxes;
    producers_fit = λ k.
        put-cases (λ (u : Waiters). u.num ≤ max_blocked) s.blocked_producers m w k (λ _. h)
          (λ _. v.producers_fit k);
    consumers_fit = v.consumers_fit;
  }

  pub set_consumers-IsValid : (w : Waiters) → w.num ≤ max_blocked → IsValid (set_consumers s m w)
  set_consumers-IsValid w h = record {
    free_fits = v.free_fits;
    free = v.free;
    free_distinct = v.free_distinct;
    rings = v.rings;
    held = v.held;
    held_distinct = v.held_distinct;
    open_boxes = v.open_boxes;
    producers_fit = v.producers_fit;
    consumers_fit = λ k.
        put-cases (λ (u : Waiters). u.num ≤ max_blocked) s.blocked_consumers m w k (λ _. h)
          (λ _. v.consumers_fit k);
  }

  -- A mailbox may be rewritten if its size is kept, or if it is closed.
  pub set_mailbox-IsValid :
      (b : Mbox) → (b.is_active ≡ true → IsOpen b (s.slot_queues m)) → IsValid (set_mailbox s m b)
  set_mailbox-IsValid b h = record {
    free_fits = v.free_fits;
    free = v.free;
    free_distinct = v.free_distinct;
    rings = v.rings;
    held = v.held;
    held_distinct = v.held_distinct;
    open_boxes = λ k.
        put-cases (λ (x : Mbox). x.is_active ≡ true → IsOpen x (s.slot_queues k)) s.mailboxes m b k
          (λ e. rw e h) (λ _. v.open_boxes k);
    producers_fit = v.producers_fit;
    consumers_fit = v.consumers_fit;
  }

  -- A mailbox whose pointers change, or that is closed.
  pub repointed-IsValid :
      (b : Mbox)
      → b.num_slots ≡ (s.mailboxes m).num_slots
      → b.slot_size ≡ (s.mailboxes m).slot_size
      → (b.is_active ≡ true → active s m ≡ true)
      → IsValid (set_mailbox s m b)
  repointed-IsValid b slots size opened = set_mailbox-IsValid b λ o. record {
    sized = (v.open_boxes m (opened o)).sized ∙ sym slots;
    small = rw size (v.open_boxes m (opened o)).small;
  }

-- `shadowProcesses` is not in the invariant.
pub shadow-IsValid :
    {s : State} → IsValid s → (pids : ℕ → ℤ) → IsValid (record s { shadow_pid = pids })
shadow-IsValid v pids = record {
  free_fits = v.free_fits;
  free = v.free;
  free_distinct = v.free_distinct;
  rings = v.rings;
  held = v.held;
  held_distinct = v.held_distinct;
  open_boxes = v.open_boxes;
  producers_fit = v.producers_fit;
  consumers_fit = v.consumers_fit;
}

module _ {s : State} (v : IsValid s) (m : ℕ) where
  pub set_producer-IsValid : (pid : ℕ) → IsValid (set_producer pid m s)
  unfolding set_producer
  set_producer-IsValid pid = shadow-IsValid (repointed-IsValid v m _ refl refl (λ o. o)) _

  pub set_consumer-IsValid : (pid : ℕ) → IsValid (set_consumer pid m s)
  unfolding set_consumer
  set_consumer-IsValid pid = shadow-IsValid (repointed-IsValid v m _ refl refl (λ o. o)) _

  pub clear_consumer-IsValid : IsValid (clear_consumer m s)
  unfolding clear_consumer
  clear_consumer-IsValid = repointed-IsValid v m _ refl refl (λ o. o)

  pub enqueue_producer-IsValid :
      (pid : ℕ) → IsValid (set_producers s m (enqueue pid (s.blocked_producers m)))
  enqueue_producer-IsValid pid =
      set_producers-IsValid v m _ (num-enqueue pid (s.blocked_producers m) (v.producers_fit m))

  pub enqueue_consumer-IsValid :
      (pid : ℕ) → IsValid (set_consumers s m (enqueue pid (s.blocked_consumers m)))
  enqueue_consumer-IsValid pid =
      set_consumers-IsValid v m _ (num-enqueue pid (s.blocked_consumers m) (v.consumers_fit m))

  pub queue_producer-IsValid : (pid : ℕ) → IsValid (queue_producer pid m s)
  unfolding queue_producer
  queue_producer-IsValid pid =
      elim (Bool-cases
        (already_blocked (s.blocked_producers m).num (s.blocked_producers m).pids pid)) [
          | inl e ↦ rw e v
          | inr e ↦ rw e (enqueue_producer-IsValid pid)
        ]
