-- ===== src/Phase1b/Table/Unblocking.antt =====
-- `unblockProc` of phase1b-archive/phase1b.c for a process that is not more urgent than its caller.
use elissa_x_priscilla_colla.Base.{
  ℕ, zero, suc, ◌+◌, ◌-◌, ◌≤◌, ◌<◌, ◌≡◌, ◌≢◌, refl, sym, ap, subst, ◌∙◌, ℤ, pos, none, some, List,
  [], ◌∷◌, Bool, true, false, Bool-cases, inl, inr, ◌==◌, ◌&&◌, ltb, arith, put_ne, put_self,
  put-cases, length,
}
use mathlib.Core.Bool.{true≢false}
use mathlib.Core.Option.{none-ne-some, some-injective}
use elissa_x_priscilla_colla.Base.Int.{eq_ℤ}
use elissa_x_priscilla_colla.Base.Run.{done, halt}
use elissa_x_priscilla_colla.Phase1b.State.{State, proc, set_proc, set_queue, set_next, max_proc}
use elissa_x_priscilla_colla.Phase1b.Queues.{append_as_is}
use elissa_x_priscilla_colla.Phase1b.Scheduler.{find_blocked, unblock_proc}
use elissa_x_priscilla_colla.Phase1b.Chain.{
  next_of, IsQueue, IsChain, last_of, last-Chain, IsChain-same,
}
use elissa_x_priscilla_colla.Phase1b.Dispatch.{IsNext, dispatcher_self}
use elissa_x_priscilla_colla.Phase1b.Table.{IsTable, is_free, queue_few}
use elissa_x_priscilla_colla.Phase1b.Table.Dispatching.{head-IsReady}

-- Whether entry `j` has this PID and is blocked.
abbrev pub is_blocked : ℤ → State → ℕ → Bool
is_blocked pid s j = eq_ℤ (proc s j).pid pid && eq_ℤ (proc s j).status (pos 1)

-- Entry `i` is the first that is blocked and has this PID.
pub record IsFirstBlocked (pid : ℤ) (s : State) (i : ℕ) : Type 0 where
  pub below : i < max_proc
  pub blocked : is_blocked pid s i ≡ true
  pub earlier : (j : ℕ) → j < i → is_blocked pid s j ≡ false

find_blocked-first :
    (pid : ℤ) (s : State) (i n k : ℕ)
    → IsFirstBlocked pid s i
    → n + k ≡ max_proc
    → k ≤ i
    → find_blocked n k pid s ≡ some i
unfolding find_blocked
find_blocked-first pid s i zero k x e l = absurd (omega (arith, e, l, x.below))
find_blocked-first pid s i (suc n) k x e l = elim (Bool-cases (k == i)) [
  | inl here ↦
      let same : k ≡ i = ground (arith, here) in
      let found : is_blocked pid s k ≡ true =
        subst (λ j. is_blocked pid s j ≡ true) (sym same) x.blocked in
      rw (found, find_blocked) (ap some same)
  | inr later ↦
      let less : k < i = ground (arith, later, l) in
      rw (x.earlier k less, find_blocked)
        (find_blocked-first pid s i n (suc k) x (omega (arith, e)) (omega (arith, less)))
]

-- A change that leaves the heads of the queues up to that of `r` as they are, and their statuses.
IsNext-kept :
    (s u : State) (r : ℕ) (x : IsNext s 0 6 r)
    → ((j : ℕ) → j ≤ x.queue → u.ready_queues j ≡ s.ready_queues j)
    → ((j h : ℕ) → j ≤ x.queue → s.ready_queues j ≡ some h → (proc u h).status ≡ (proc s h).status)
    → IsNext u 0 6 r
IsNext-kept s u r x heads statuses = record {
  queue = x.queue;
  from = x.from;
  below = x.below;
  head = heads x.queue (omega arith) ∙ x.head;
  not_blocked =
      subst (λ z. eq_ℤ z (pos 1) ≡ false) (sym (statuses x.queue r (omega arith) x.head))
        x.not_blocked;
  idle = λ j l below h e.
      let e' : s.ready_queues j ≡ some h = sym (heads j (omega (arith, below))) ∙ e in
      subst (λ z. eq_ℤ z (pos 1) ≡ true) (sym (statuses j h (omega (arith, below)) e'))
        (x.idle j l below h e');
}

module _ (qs fs : ℕ → List ℕ) (s : State) (x : IsTable qs fs s) (r i q : ℕ)
    (runs : s.running_process ≡ some r) (next : IsNext s 0 6 r)
    (priority : (proc s i).priority ≡ suc q) (bound : q < 6) (less : next.queue ≤ q)
    (waits : eq_ℤ (proc s i).status (pos 1) ≡ true) where
  -- The process can run, before it is put into its queue.
  abbrev runnable : State
  runnable = set_proc s i (record (proc s i) { status = pos 0 })

  -- It is at the head of no queue before that of `r`, nor of that one.
  head_ne : (j h : ℕ) → j ≤ next.queue → s.ready_queues j ≡ some h → h ≢ i
  head_ne j h l e same = elim (Bool-cases (j == next.queue)) [
    | inl at_r ↦
        let queue : j ≡ next.queue = ground (arith, at_r) in
        let is_r : h ≡ r = some-injective h r (sym e ∙ ap s.ready_queues queue ∙ next.head) in
        true≢false (
          sym waits
          ∙ subst (λ k. eq_ℤ (proc s k).status (pos 1) ≡ false) (sym is_r ∙ same) next.not_blocked)
    | inr before ↦
        let below = next.below in
        let ready = head-IsReady qs fs s j h x (omega (arith, l, below)) e in
        let mine : (proc s h).priority ≡ suc q =
          subst (λ k. (proc s k).priority ≡ suc q) (sym same) priority in
        let other : (proc s h).priority ≡ suc j = ready.priority in
        absurd (ground (arith, mine, other, before, l, less))
  ]

  status_kept :
      (j h : ℕ)
      → j ≤ next.queue
      → s.ready_queues j ≡ some h
      → (proc runnable h).status ≡ (proc s h).status
  status_kept j h l e =
      ap (λ p. p.status)
        (put_ne s.process_table i (record (proc s i) { status = pos 0 }) h (head_ne j h l e))

  runnable-next : (k : ℕ) → next_of runnable k ≡ next_of s k
  runnable-next k =
      put-cases (λ p. p.next ≡ next_of s k) s.process_table i _ k (λ e. ap (next_of s) (sym e))
        (λ _. refl)

  -- The state after the process has been put into its queue: `r` is next still.
  abbrev Queues : State → Type 0
  Queues u = (append_as_is q i runnable ≡ done tt u) × IsNext u 0 6 r × (u.running_process ≡ some r)

  queued_alone : s.ready_queues q ≡ none → Queues (set_queue runnable q (some i))
  unfolding append_as_is
  queued_alone empty = (
    rw (empty, append_as_is) refl,
    IsNext-kept s (set_queue runnable q (some i)) r next
        (λ j l. put_ne s.ready_queues q (some i) j (other j l)) status_kept,
    runs,
  )
    where
      other : (j : ℕ) → j ≤ next.queue → j ≢ q
      other j l e =
          let same : next.queue ≡ q = omega (arith, l, e, less) in
          none-ne-some r (sym empty ∙ ap s.ready_queues (sym same) ∙ next.head)

  queued_last :
      (y : ℕ) (ys : List ℕ)
      → IsQueue s q (y ∷ ys)
      → length ys < max_proc
      → Queues (set_next runnable (last_of y ys) (some i))
  unfolding append_as_is
  queued_last y ys c few =
      let chain : IsChain (next_of runnable) (next_of runnable y) ys =
        subst (λ h. IsChain (next_of runnable) h ys) (sym (runnable-next y))
          (IsChain-same (next_of s) (next_of runnable) runnable-next ys (next_of s y) (c.1)) in
      (
        rw (c.0, append_as_is, last-Chain max_proc (next_of runnable) y ys chain few) refl,
        IsNext-kept s (set_next runnable (last_of y ys) (some i)) r next (λ j l. refl)
            (λ j h l e.
              put-cases (λ p. p.status ≡ (proc runnable h).status) runnable.process_table
                (last_of y ys) _ h (λ same. ap (λ k. (proc runnable k).status) (sym same))
                (λ _. refl)
              ∙ status_kept j h l e),
        runs,
      )

  queued : (xs : List ℕ) → IsQueue s q xs → length xs ≤ max_proc → (u : State) × Queues u
  queued [] c few = (set_queue runnable q (some i), queued_alone c)
  queued (y ∷ ys) c few =
      (set_next runnable (last_of y ys) (some i), queued_last y ys c (omega (arith, few)))

-- If the table is in order and the process that runs is the one that `dispatcher` would choose,
-- `unblockProc` halts the machine when the first blocked entry with the PID is in use and belongs in the
-- ready queue of the running process or in a less urgent one: `dispatcher` then chooses the running
-- process itself.
pub unblock_proc-halts :
    (qs fs : ℕ → List ℕ) (s : State)
    → IsTable qs fs s
    → (r : ℕ) → s.running_process ≡ some r
    → (next : IsNext s 0 6 r) (pid : ℤ) (i : ℕ) → IsFirstBlocked pid s i
    → is_free s i ≡ false
    → next.queue < (proc s i).priority
    → (u : State) × (unblock_proc pid s ≡ halt 0 u)
unfolding unblock_proc
unblock_proc-halts qs fs s x r runs next pid i first used less =
    let fits = x.priorities i first.below used in
    let above = fits.above in
    let below = fits.below in
    let q = (proc s i).priority - 1 in
    let priority : (proc s i).priority ≡ suc q = omega (arith, above) in
    let bound : q < 6 = omega (arith, above, below) in
    let waits : eq_ℤ (proc s i).status (pos 1) ≡ true = ground (arith, first.blocked) in
    let (u, (appends, next', runs')) =
      queued qs fs s x r i q runs next priority bound (omega (arith, less)) waits (qs q)
        (x.queues q bound) (queue_few x q bound) in
    let in_range : (ltb 0 (proc s i).priority && ltb (proc s i).priority 7) ≡ true =
      ground (arith, above, below) in
    let same : (proc (set_proc s i (record (proc s i) { status = pos 0 })) i).priority
        ≡ (proc s i).priority =
      ap (λ p. p.priority) (put_self s.process_table i (record (proc s i) { status = pos 0 })) in
    let found = find_blocked-first pid s i max_proc 0 first refl (omega arith) in
    (u, rw (found, unblock_proc, same, in_range, appends, dispatcher_self u r runs' next') refl)
