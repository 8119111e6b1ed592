-- ===== src/Phase2/Safety/Releasing.antt =====
-- `MboxRelease` of phase2/phase2.c and the invariant.

use elissa_x_priscilla_colla.Base.{
  ℕ, zero, suc, ◌+◌, ◌≤◌, ◌<◌, ◌≡◌, ◌≢◌, inl, inr, refl, true, false, arith, Bool-cases,
  Option-cases, ltb, ◌==◌, ℤ, pos, put-cases, ltb→lt, lt→ltb,
}
use elissa_x_priscilla_colla.Base.Run.{Safe, Safe-and_then}
use elissa_x_priscilla_colla.Kernel.{Request}
use elissa_x_priscilla_colla.Phase2.State.{
  State, SlotQueue, Waiters, max_blocked, closed, active, set_queue, set_mailbox, set_producers,
}
use elissa_x_priscilla_colla.Phase2.Waiters.{unblock_all}
use elissa_x_priscilla_colla.Phase2.Lifecycle.{release_consumers, drop_queue, mbox_release}
use elissa_x_priscilla_colla.Phase2.Ring.{IsRing, slot_at}
use elissa_x_priscilla_colla.Phase2.Invariant.{IsValid, IsHeld, IsOpen}
use elissa_x_priscilla_colla.Phase2.Invariant.Rows.{
  repointed-IsValid, set_producers-IsValid, set_consumers-IsValid,
}
use elissa_x_priscilla_colla.Phase2.Safety.{Never}

-- The rely of a release: nobody creates a mailbox under the same number meanwhile.
abbrev pub Unclaimed : ℕ → Request → State → State → Type 0
Unclaimed m c s t = active t m ≡ false

-- A closed mailbox, in a valid state.
pub record IsClosed (m : ℕ) (s : State) : Type 0 where
  pub valid : IsValid s
  pub inactive : active s m ≡ false

abbrev pub Closed : ℕ → {A : Type 0} → A → State → Type 0
Closed m a s = IsClosed m s

module _ {s : State} (v : IsValid s) (m : ℕ) where
  -- A mailbox that gets an empty queue.
  pub emptied-IsValid :
      (q : SlotQueue)
      → q.count ≡ 0
      → IsRing q
      → (active s m ≡ true → IsOpen (s.mailboxes m) q)
      → IsValid (set_queue s m q)
  emptied-IsValid q none_held ring fit = record {
    free_fits = v.free_fits;
    free = v.free;
    free_distinct = v.free_distinct;
    rings = λ k. put-cases IsRing s.slot_queues m q k (λ _. ring) (λ _. v.rings k);
    held = λ k.
        put-cases (λ p. (i : ℕ) → i < p.count → IsHeld s.mail_slots k (slot_at p i)) s.slot_queues m
          q k (λ _ i l. absurd (omega arith)) (λ _. v.held k);
    held_distinct = λ k.
        put-cases (λ p. (i j : ℕ) → i < j → j < p.count → slot_at p i ≢ slot_at p j) s.slot_queues m
          q k (λ _ i j ij l. absurd (omega arith)) (λ _. v.held_distinct k);
    open_boxes = λ k o.
        put-cases (IsOpen (s.mailboxes k)) s.slot_queues m q k (λ e. rw e (fit (rw e at o)))
          (λ _. v.open_boxes k o);
    producers_fit = v.producers_fit;
    consumers_fit = v.consumers_fit;
  }

module _ (m : ℕ) (row : State → Waiters)
    (fits : (t : State) → IsValid t → (row t).num ≤ max_blocked) where
  -- A row of at most ten is woken within eleven rounds.
  pub unblock_all-Safe :
      (fuel i : ℕ) (s : State)
      → max_blocked < fuel + i
      → i ≤ max_blocked
      → IsClosed m s
      → Safe IsValid (Unclaimed m) Never (Closed m) (unblock_all row fuel i s)
  unfolding unblock_all
  unblock_all-Safe zero i s enough l c = absurd (omega arith)
  unblock_all-Safe (suc f) i s enough l c = elim (Bool-cases (ltb i (row s).num)) [
    | inl more ↦
        let below : i < max_blocked = omega (arith, ltb→lt i (row s).num more, fits s c.valid) in
        rw (more, unblock_all, lt→ltb i max_blocked below)
          (
            c.valid,
            λ z t w r.
                unblock_all-Safe f (i + 1) t (omega arith) (omega arith)
                  (record { valid = w; inactive = r }),
          )
    | inr no_more ↦ rw (no_more, unblock_all) c
  ]

module _ {s : State} (m : ℕ) (c : IsClosed m s) where
  release_consumers-Safe : Safe IsValid (Unclaimed m) Never (Closed m) (release_consumers m s)
  unfolding release_consumers
  release_consumers-Safe = elim (Bool-cases ((s.mailboxes m).num_slots == 0)) [
    | inl e ↦ rw e (
        Safe-and_then IsValid (Unclaimed m) Never (Closed m) (Closed m)
          (unblock_all (λ t. t.blocked_consumers m) (suc max_blocked) 0 s) _
          (unblock_all-Safe m _ (λ t w. w.consumers_fit m) (suc max_blocked) 0 s (omega arith)
            (omega arith) c)
          (λ _ t d. record {
            valid = set_consumers-IsValid d.valid m _ (omega arith);
            inactive = d.inactive;
          }))
    | inr e ↦ elim (Option-cases ((s.mailboxes m).consumers)) [
      | inl a ↦ rw (e, a, release_consumers) c
      | inr (p, a) ↦
          rw (e, a, release_consumers)
            (
              c.valid,
              λ z t w r. record {
                valid = repointed-IsValid w m _ refl refl (λ o. o);
                inactive = ground arith;
              },
            )
    ]
  ]

-- The mailbox is closed and has no queue.
pub record IsReleased (m : ℕ) (z : ℤ) (s : State) : Type 0 where
  pub valid : IsValid s
  pub inactive : active s m ≡ false
  pub no_queue : (s.slot_queues m).alloc ≡ 0
  pub answer : z ≡ pos 0

module _ {s : State} (v : IsValid s) (m : ℕ) (opened : closed s m ≡ false) where
  -- `MboxRelease` of an open mailbox, from a valid state, returns 0 and leaves it inactive, without a
  -- queue, and all mailboxes valid, whatever valid states the processes that it wakes leave, provided
  -- that none of them makes the mailbox active again. Its loops end.
  pub mbox_release-Safe : Safe IsValid (Unclaimed m) Never (IsReleased m) (mbox_release (pos m) s)
  unfolding mbox_release drop_queue
  mbox_release-Safe = rw opened (
      Safe-and_then IsValid (Unclaimed m) Never (Closed m) (IsReleased m)
        (unblock_all (λ t. t.blocked_producers m) (suc max_blocked) 0 shut) _
        (unblock_all-Safe m _ (λ t w. w.producers_fit m) (suc max_blocked) 0 shut (omega arith)
          (omega arith)
          (record { valid = repointed-IsValid v m _ refl refl (λ o. cc); inactive = ground arith }))
        λ _ t c.
          Safe-and_then IsValid (Unclaimed m) Never (Closed m) (IsReleased m)
            (release_consumers m (set_producers t m (record (t.blocked_producers m) { num = 0 }))) _
            (release_consumers-Safe m (record {
              valid = set_producers-IsValid c.valid m _ (omega arith);
              inactive = c.inactive;
            }))
            (λ _ u d. record {
              valid =
                  emptied-IsValid d.valid m _ refl
                    (record {
                      fits = omega arith;
                      whole = λ l. absurd (omega arith);
                      head_in = λ l. absurd (omega arith);
                      tail_at = λ l. absurd (omega arith);
                    })
                    (λ o. cc (d.inactive));
              inactive = d.inactive;
              no_queue = ground arith;
              answer = refl;
            }))
    where
      shut : State
      shut = set_mailbox s m (record (s.mailboxes m) { is_active = false })
