-- ===== src/Phase1b/Dispatch.antt =====
-- Which process `dispatcher` of phase1b-archive/phase1b.c runs next.
use elissa_x_priscilla_colla.Base.{
  ℕ, zero, suc, ◌+◌, ◌≤◌, ◌<◌, ◌≡◌, refl, sym, ◌∙◌, pos, Option, none, some, true, false,
  Bool-cases, Option-cases, arith, inl, inr, ◌⊎◌, ◌==◌, subst, ap, ltb, ==_refl,
}
use mathlib.Core.Bool.{true≢false}
use mathlib.Core.Option.{some-injective}
use elissa_x_priscilla_colla.Base.Int.{eq_ℤ}
use elissa_x_priscilla_colla.Base.Run.{halt}
use elissa_x_priscilla_colla.Phase1b.State.{State, proc}
use elissa_x_priscilla_colla.Phase1b.Scheduler.{pick, switch_to, dispatcher}

-- No process, or a blocked one, is at the head of queue `q`.
abbrev pub IsIdle : State → ℕ → Type 0
IsIdle s q = (h : ℕ) → s.ready_queues q ≡ some h → eq_ℤ (proc s h).status (pos 1) ≡ true

-- Process `h` is at the head of the first queue, from `i` on, that is not idle.
pub record IsNext (s : State) (i n h : ℕ) : Type 0 where
  pub queue : ℕ
  pub from : i ≤ queue
  pub below : queue < n
  pub head : s.ready_queues queue ≡ some h
  pub not_blocked : eq_ℤ (proc s h).status (pos 1) ≡ false
  pub idle : (j : ℕ) → i ≤ j → j < queue → IsIdle s j

abbrev pub AllIdle : State → ℕ → ℕ → Type 0
AllIdle s i n = (j : ℕ) → i ≤ j → j < n → IsIdle s j

module _ (s : State) where
  one_more : (i n : ℕ) → IsIdle s i → AllIdle s (suc i) n → AllIdle s i n
  one_more i n here later j l u = elim (Bool-cases (j == i)) [
    | inl e ↦ subst (IsIdle s) (ground arith) here
    | inr e ↦ later j (ground arith) u
  ]

  widen : (i n h : ℕ) → IsIdle s i → IsNext s (suc i) n h → IsNext s i n h
  widen i n h here x = record {
    queue = x.queue;
    from = omega (arith, x.from);
    below = x.below;
    head = x.head;
    not_blocked = x.not_blocked;
    idle = one_more i x.queue here x.idle;
  }

  IsIdle-none : (i : ℕ) → s.ready_queues i ≡ none → IsIdle s i
  IsIdle-none i e h e' = absurd (cc)

  IsIdle-blocked :
      (i h : ℕ) → s.ready_queues i ≡ some h → eq_ℤ (proc s h).status (pos 1) ≡ true → IsIdle s i
  IsIdle-blocked i h e b h' e' =
      subst (λ o. (k : ℕ) → o ≡ some k → eq_ℤ (proc s k).status (pos 1) ≡ true) (sym e)
        (λ k same. subst (λ k'. eq_ℤ (proc s k').status (pos 1) ≡ true) (cc) b) h' e'

  abbrev Picked : ℕ → ℕ → Option ℕ → Type 0
  Picked i n none = AllIdle s i n
  Picked i n (some h) = IsNext s i n h

  Picked-later : (i n : ℕ) → IsIdle s i → (o : Option ℕ) → Picked (suc i) n o → Picked i n o
  Picked-later i n here none x = one_more i n here x
  Picked-later i n here (some h) x = widen i n h here x

  -- What `pick` finds in the queues from `i` on.
  pick-Picked : (r i n : ℕ) → r + i ≡ n → Picked i n (pick r i s)
  unfolding pick
  pick-Picked zero i n e = λ j l u. absurd (omega (arith, e, l, u))
  pick-Picked (suc r) i n e = elim (Option-cases (s.ready_queues i)) [
    | inl empty ↦
        rw (empty, pick)
          (Picked-later i n (IsIdle-none i empty) (pick r (suc i) s)
            (pick-Picked r (suc i) n (omega (arith, e))))
    | inr (h, head) ↦ elim (Bool-cases (eq_ℤ (proc s h).status (pos 1))) [
      | inl blocked ↦
          rw (head, pick, blocked)
            (Picked-later i n (IsIdle-blocked i h head blocked) (pick r (suc i) s)
              (pick-Picked r (suc i) n (omega (arith, e))))
      | inr fine ↦
          rw (head, pick, fine)
            (record {
              queue = i;
              from = omega arith;
              below = omega (arith, e);
              head = head;
              not_blocked = fine;
              idle = λ j l u. absurd (omega (arith, l, u));
            })
    ]
  ]

  -- `dispatcher` halts if every queue is empty or has a blocked process at its head; if not, it
  -- switches to the head of the first queue, from the most urgent on, whose head is not blocked.
  pub dispatcher-IsNext :
      (AllIdle s 0 6 × (dispatcher s ≡ halt 0 s))
      ⊎ ((h : ℕ) × IsNext s 0 6 h × (dispatcher s ≡ switch_to h s))
  unfolding dispatcher
  dispatcher-IsNext = elim (Option-cases (pick 6 0 s)) [
    | inl e ↦ inl (subst (Picked 0 6) e (pick-Picked 6 0 6 refl), rw (e, dispatcher) refl)
    | inr (h, e) ↦ inr (h, subst (Picked 0 6) e (pick-Picked 6 0 6 refl), rw (e, dispatcher) refl)
  ]

module _ (s : State) where
  -- What is next is determined.
  next_unique : (h k : ℕ) → IsNext s 0 6 h → IsNext s 0 6 k → h ≡ k
  next_unique h k x y = elim (Bool-cases (x.queue == y.queue)) [
    | inl e ↦
        let same : x.queue ≡ y.queue = ground arith in
        some-injective h k (sym (x.head) ∙ ap s.ready_queues same ∙ y.head)
    | inr e ↦ elim (Bool-cases (ltb x.queue y.queue)) [
      | inl l ↦
          let blocked = y.idle x.queue (omega arith) (ground arith) h x.head in
          let not_blocked = x.not_blocked in absurd (true≢false (sym blocked ∙ not_blocked))
      | inr l ↦
          let blocked = x.idle y.queue (omega arith) (ground arith) k y.head in
          let not_blocked = y.not_blocked in absurd (true≢false (sym blocked ∙ not_blocked))
    ]
  ]

  -- If the running process is itself the one that `dispatcher` would run next, the machine halts.
  pub dispatcher_self :
      (r : ℕ) → s.running_process ≡ some r → IsNext s 0 6 r → dispatcher s ≡ halt 0 s
  unfolding switch_to
  dispatcher_self r running x = elim (dispatcher-IsNext s) [
    | inl idle ↦ idle.1
    | inr (h, y, e) ↦
        let same : h ≡ r = next_unique h r y x in e ∙ (rw (running, same, ==_refl r) refl)
  ]
