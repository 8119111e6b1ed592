-- ===== src/Phase2/Safety/Wakeups.antt =====
-- Waking blocked processes in phase2/phase2.c, under interleaving.
use elissa_x_priscilla_colla.Base.{ℕ, ◌≤◌, inl, inr, arith, Bool-cases, Option-cases, ltb, ◌==◌}
use elissa_x_priscilla_colla.Base.Run.{Safe-and_then}
use elissa_x_priscilla_colla.Phase2.State.{State, Waiters, max_blocked}
use elissa_x_priscilla_colla.Phase2.Waiters.{dequeue, wakeup, wakeup_consumer, wakeup_producer}
use elissa_x_priscilla_colla.Phase2.Transfer.{notify}
use elissa_x_priscilla_colla.Phase2.Invariant.{IsValid}
use elissa_x_priscilla_colla.Phase2.Invariant.Rows.{
  num-dequeue, set_producers-IsValid, set_consumers-IsValid,
}
use elissa_x_priscilla_colla.Phase2.Safety.{IsSafe, Anything, Never, Valid}

module _ {s : State} (v : IsValid s) (m : ℕ) where
  pub wakeup-IsSafe :
      (w : Waiters) (store : Waiters → State)
      → w.num ≤ max_blocked
      → IsValid (store (dequeue w))
      → IsSafe (wakeup w store s)
  unfolding wakeup
  wakeup-IsSafe w store fits stored = elim (Bool-cases (w.num == 0)) [
    | inl e ↦ rw e v
    | inr e ↦ elim (Bool-cases (ltb max_blocked w.num)) [
      | inl over ↦ absurd (ground arith)
      | inr fit ↦ rw (e, fit) (stored, λ z t i r. i)
    ]
  ]

  pub wakeup_producer-IsSafe : IsSafe (wakeup_producer m s)
  unfolding wakeup_producer
  wakeup_producer-IsSafe = wakeup-IsSafe (s.blocked_producers m) _ (v.producers_fit m) (
      set_producers-IsValid v m _
        (omega (arith, num-dequeue (s.blocked_producers m), v.producers_fit m)))

  pub wakeup_consumer-IsSafe : IsSafe (wakeup_consumer m s)
  unfolding wakeup_consumer
  wakeup_consumer-IsSafe = wakeup-IsSafe (s.blocked_consumers m) _ (v.consumers_fit m) (
      set_consumers-IsValid v m _
        (omega (arith, num-dequeue (s.blocked_consumers m), v.consumers_fit m)))

  pub notify-IsSafe : IsSafe (notify m s)
  unfolding notify
  notify-IsSafe = elim (Option-cases ((s.mailboxes m).consumers)) [
    | inl e ↦ rw (e, notify) v
    | inr (c, e) ↦
        rw (e, notify)
          (Safe-and_then IsValid Anything Never Valid Valid (wakeup_consumer m s) _
            wakeup_consumer-IsSafe (λ _ t i. i))
  ]
