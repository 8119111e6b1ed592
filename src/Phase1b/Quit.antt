-- ===== src/Phase1b/Quit.antt =====
-- Whom `quit` of phase1b-archive/phase1b.c wakes.
use elissa_x_priscilla_colla.Base.{
  ℕ, zero, suc, ◌+◌, ◌<◌, ◌≤◌, ◌≡◌, ◌≢◌, refl, sym, subst, ◌∙◌, pos, Bool, true, false, Bool-cases,
  inl, inr, ltb, ◌==◌, ◌&&◌, ◌-◌, ap, none, some, arith, put-cases, put_ne, put_self,
}
use mathlib.Core.Bool.{true≢false}
use elissa_x_priscilla_colla.Base.Int.{eq_ℤ}
use elissa_x_priscilla_colla.Base.Run.{Finishes, Finishes-and_then}
use elissa_x_priscilla_colla.Phase1b.State.{State, Process, proc, set_proc, set_queue, max_proc}
use elissa_x_priscilla_colla.Phase1b.Chain.{next_of}
use elissa_x_priscilla_colla.Phase1b.Woken.{Reaches, Reaches-off, zappers, zappers-below}
use elissa_x_priscilla_colla.Phase1b.Scheduler.{zaps, is_running, wake_zapper, wake_zappers}

-- A process that waits for `r` to end has a priority from 1 to 6.
abbrev pub HasQueue : ℕ → State → Type 0
HasQueue r s =
    (i : ℕ) → zaps r i s ≡ true → (ltb 0 (proc s i).priority && ltb (proc s i).priority 7) ≡ true

-- The entries below `i` have been looked at: none of them waits for `r` any more; those that did can
-- run, wait for nobody, and stand at the front of the ready queues of their priorities, the last one
-- first, before what was there; and nothing else has changed.
pub record IsWoken (r i : ℕ) (s t : State) : Type 0 where
  pub none_waits : (j : ℕ) → j < i → zaps r j t ≡ false
  pub woken :
      (j : ℕ)
      → j < i
      → zaps r j s ≡ true
      → proc t j ≡ record (proc s j) { status = pos 0; zap_target = none; next = (proc t j).next }
  pub queued : (q : ℕ) → Reaches (next_of t) (t.ready_queues q) (zappers r q i s) (s.ready_queues q)
  pub others : (j : ℕ) → zaps r j s ≡ false → proc t j ≡ proc s j
  pub rest : (j : ℕ) → i ≤ j → proc t j ≡ proc s j
  pub running : t.running_process ≡ s.running_process
  pub counter : t.next_pid ≡ s.next_pid

module _ (s : State) (r : ℕ) (fit : HasQueue r s) where
  abbrev waits : Process → Bool
  waits p = eq_ℤ p.status (pos 1) && is_running r p.zap_target

  -- The entry and the queue of a process that is woken.
  abbrev roused : ℕ → State → State
  roused i t =
      let q = (proc t i).priority - 1 in
      set_queue
        (set_proc t i
          (record (proc t i) { status = pos 0; zap_target = none; next = t.ready_queues q }))
        q (some i)

  roused-next : (i : ℕ) (t : State) (k : ℕ) → k < i → next_of (roused i t) k ≡ next_of t k
  roused-next i t k l =
      ap (λ p. p.next)
        (put_ne t.process_table i
          (record (proc t i) {
            status = pos 0;
            zap_target = none;
            next = t.ready_queues ((proc t i).priority - 1);
          })
          k (omega (arith, l)))

  queued-roused :
      (i : ℕ) (t : State)
      → IsWoken r i s t
      → zaps r i s ≡ true
      → (q : ℕ)
      → Reaches
          (next_of (roused i t))
          ((roused i t).ready_queues q)
          (zappers r q (suc i) s)
          (s.ready_queues q)
  queued-roused i t w before q =
      let p : (proc t i).priority ≡ (proc s i).priority =
        ap (λ x. x.priority) (w.rest i (omega arith)) in
      let fits = fit i before in
      elim (Bool-cases (q == ((proc t i).priority - 1))) [
        | inl here ↦
            let mine : ((proc s i).priority == suc q) ≡ true = ground (arith, p, fits, here) in
            let same : q ≡ (proc t i).priority - 1 = ground (arith, here) in
            rw (before, mine, here)
              (
                refl,
                rw
                    (ap (λ x. x.next)
                      (put_self t.process_table i (record (proc t i) {
                        status = pos 0;
                        zap_target = none;
                        next = t.ready_queues ((proc t i).priority - 1);
                      })))
                    (subst
                      (λ k.
                        Reaches (next_of (roused i t)) (t.ready_queues k) (zappers r q i s)
                          (s.ready_queues q))
                      same
                      (Reaches-off (next_of t) (next_of (roused i t)) (λ k. k < i) (roused-next i t)
                        (zappers r q i s) (t.ready_queues q) (s.ready_queues q)
                        (zappers-below r q i s) (w.queued q))),
              )
        | inr there ↦
            let other : ((proc s i).priority == suc q) ≡ false = ground (arith, p, fits, there) in
            rw (before, other, there)
              (Reaches-off (next_of t) (next_of (roused i t)) (λ k. k < i) (roused-next i t)
                (zappers r q i s) (t.ready_queues q) (s.ready_queues q) (zappers-below r q i s)
                (w.queued q))
      ]

  wake_zapper-IsWoken :
      (i : ℕ) (t : State)
      → IsWoken r i s t
      → zaps r i t ≡ true
      → Finishes (λ _ u. IsWoken r (suc i) s u) (wake_zapper i t)
  unfolding wake_zapper
  wake_zapper-IsWoken i t w z =
      let same : proc t i ≡ proc s i = w.rest i (omega arith) in
      let before : zaps r i s ≡ true = subst (λ p. waits p ≡ true) same z in
      let bound =
        subst (λ p. (ltb 0 p.priority && ltb p.priority 7) ≡ true) (sym same) (fit i before) in
      rw bound (record {
        none_waits = λ j l.
            put-cases (λ p. waits p ≡ false) t.process_table i _ j (λ _. refl)
              (λ ne. w.none_waits j (omega (arith, ne, l)));
        woken = λ j l b.
            put-cases
              (λ p. p ≡ record (proc s j) { status = pos 0; zap_target = none; next = p.next })
              t.process_table i _ j
              (λ e.
                ap {A = Process} {B = Process}
                  (λ p. record p {
                    status = pos 0;
                    zap_target = none;
                    next = t.ready_queues ((proc t i).priority - 1);
                  })
                  (same ∙ ap (λ k. proc s k) (sym e)))
              (λ ne. w.woken j (omega (arith, ne, l)) b);
        queued = queued-roused i t w before;
        others = λ j off.
            let ne : j ≢ i = λ e. true≢false (sym before ∙ subst (λ k. zaps r k s ≡ false) e off) in
            put_ne t.process_table i _ j ne ∙ w.others j off;
        rest = λ j l. put_ne t.process_table i _ j (omega (arith, l)) ∙ w.rest j (omega (arith, l));
        running = w.running;
        counter = w.counter;
      })

  passed : (i : ℕ) (t : State) → IsWoken r i s t → zaps r i t ≡ false → IsWoken r (suc i) s t
  passed i t w z =
      let before : zaps r i s ≡ false = subst (λ p. waits p ≡ false) (w.rest i (omega arith)) z in
      record {
        none_waits = λ j l. elim (Bool-cases (j == i)) [
          | inl e ↦ subst (λ k. zaps r k t ≡ false) {x = i} {y = j} (ground arith) z
          | inr ne ↦ w.none_waits j (ground arith)
        ];
        woken = λ j l b.
            let ne : j ≢ i = λ e. true≢false (sym (subst (λ k. zaps r k s ≡ true) e b) ∙ before) in
            w.woken j (omega (arith, ne, l)) b;
        queued = λ q. rw before (w.queued q);
        others = w.others;
        rest = λ j l. w.rest j (omega (arith, l));
        running = w.running;
        counter = w.counter;
      }

  wake_zappers-Finishes :
      (n i m : ℕ) (t : State)
      → n + i ≡ m
      → IsWoken r i s t
      → Finishes (λ _ u. IsWoken r m s u) (wake_zappers n i r t)
  unfolding wake_zappers
  wake_zappers-Finishes zero i m t e w = subst (λ k. IsWoken r k s t) (omega (arith, e)) w
  wake_zappers-Finishes (suc n) i m t e w = elim (Bool-cases (zaps r i t)) [
    | inl z ↦
        rw (z, wake_zappers)
          (Finishes-and_then (λ _ u. IsWoken r (suc i) s u) (λ _ u. IsWoken r m s u)
            (wake_zapper i t) _ (wake_zapper-IsWoken i t w z)
            (λ _ u w'. wake_zappers-Finishes n (suc i) m u (omega (arith, e)) w'))
    | inr z ↦
        rw (z, wake_zappers)
          (wake_zappers-Finishes n (suc i) m t (omega (arith, e)) (passed i t w z))
  ]

  -- The loop of `quit` over the table ends with no process waiting for `r`: those that did, whose
  -- priorities are from 1 to 6, can run, wait for nobody, and are at the front of the ready queues of
  -- their priorities, the last one first, before what was there; and nothing else has changed.
  pub wake_zappers-IsWoken : Finishes (λ _ t. IsWoken r max_proc s t) (wake_zappers max_proc 0 r s)
  wake_zappers-IsWoken = wake_zappers-Finishes max_proc 0 max_proc s refl (record {
    none_waits = λ j l. absurd (omega (arith, l));
    woken = λ j l. absurd (omega (arith, l));
    queued = λ q. refl;
    others = λ j off. refl;
    rest = λ j l. refl;
    running = refl;
    counter = refl;
  })
