-- ===== src/Phase1b/Table/Quitting.antt =====
-- `quit` of phase1b-archive/phase1b.c keeps the table in order if nobody waits for the process to end.
use elissa_x_priscilla_colla.Base.{
  ℕ, zero, suc, ◌-◌, ◌<◌, ◌≡◌, refl, sym, ap, subst, ◌∙◌, fun_ext, ℤ, pos, minus_one, Option, none,
  some, List, [], ◌∷◌, Bool, true, false, Bool-cases, Option-cases, inl, inr, put-cases, put_self,
  put_ne, arith, ◌&&◌,
}
use mathlib.Core.Option.{none-ne-some}
use elissa_x_priscilla_colla.Base.Int.{eq_ℤ}
use elissa_x_priscilla_colla.Base.Run.{Finishes-mono, halt, Safe-and_then, done, and_then}
use elissa_x_priscilla_colla.Base.Quiet.{Quiet-Safe, Safe-mono}
use elissa_x_priscilla_colla.Phase1b.State.{State, Cmd, Process, deref, proc, set_proc, max_proc}
use elissa_x_priscilla_colla.Phase1b.Queues.{remove_from_ready_queue}
use elissa_x_priscilla_colla.Phase1b.Quietness.{remove_from_ready_queue-Quiet}
use elissa_x_priscilla_colla.Phase1b.Scheduler.{
  dispatcher, is_running, zaps, wake_zappers, wake_parent, quit,
}
use elissa_x_priscilla_colla.Phase1b.Chain.{IsChain, next_of, without, IsQueue}
use elissa_x_priscilla_colla.Phase1b.Reaping.{sibling_of}
use elissa_x_priscilla_colla.Phase1b.Removal.{IsChanged, remove_from_ready_queue-IsChanged}
use elissa_x_priscilla_colla.Phase1b.Table.Same.{IsSame, status-IsSame}
use elissa_x_priscilla_colla.Phase1b.Table.Ending.{IsSameBut, IsSameBut-IsSame, ended-IsTable}
use elissa_x_priscilla_colla.Phase1b.Table.Dispatching.{IsSafe, dispatcher-IsSafe}
use elissa_x_priscilla_colla.Phase1b.Table.{
  IsTable, IsOrdered, IsValid, RunsAlive, Rely, queue_few, lives_used,
}

-- Nobody waits for `r` to end.
abbrev pub NoZapper : ℕ → State → Type 0
NoZapper r s = (i : ℕ) → zaps r i s ≡ false

abbrev waits : ℕ → Process → Bool
waits r p = eq_ℤ p.status (pos 1) && is_running r p.zap_target

-- An entry is written whose process does not wait.
NoZapper-put :
    (r i : ℕ) (p : Process) (s : State)
    → NoZapper r s
    → waits r p ≡ false
    → NoZapper r (set_proc s i p)
NoZapper-put r i p s h e k =
    put-cases (λ p'. waits r p' ≡ false) s.process_table i p k (λ _. e) (λ _. h k)

pub wake_zappers-none : (n i r : ℕ) (s : State) → NoZapper r s → wake_zappers n i r s ≡ done tt s
unfolding wake_zappers
wake_zappers-none zero i r s h = refl
wake_zappers-none (suc n) i r s h = rw (h i, wake_zappers) (wake_zappers-none n (suc i) r s h)

-- The parent that is blocked is woken.
record IsWoken (r : ℕ) (s t : State) : Type 0 where
  same : IsSame s t
  no_zapper : NoZapper r s → NoZapper r t
  running : t.running_process ≡ s.running_process

wake_parent-IsWoken : (r : ℕ) (s : State) → IsWoken r s (wake_parent r s)
unfolding wake_parent
wake_parent-IsWoken r s = elim (Option-cases ((proc s r).parent)) [
  | inl e ↦ rw (wake_parent, e) unchanged
  | inr (p, e) ↦ elim (Bool-cases (eq_ℤ (proc s p).status (pos 1))) [
    | inr e' ↦ rw (wake_parent, e, e') unchanged
    | inl e' ↦
        rw (wake_parent, e, e')
          (record {
            same =
                status-IsSame s p (record (proc s p) { status = pos 0 }) refl
                  (sym (blocked_lives (proc s p).status e'));
            no_zapper = λ h. NoZapper-put r p (record (proc s p) { status = pos 0 }) s h refl;
            running = refl;
          })
  ]
]
  where
    unchanged : IsWoken r s s
    unchanged = record {
      same = record { entries = λ k. refl; lives = λ k. refl; queues = refl };
      no_zapper = λ h. h;
      running = refl;
    }

    blocked_lives : (z : ℤ) → eq_ℤ z (pos 1) ≡ true → eq_ℤ z minus_one ≡ false
    blocked_lives z h = ground (arith, h)

-- The entry of a process that quits.
abbrev ended_entry : ℤ → Process → Process
ended_entry status p = record p { status = minus_one; exit_status = status }

ended-IsSameBut :
    (s : State) (r : ℕ) (status : ℤ) → IsSameBut r s (set_proc s r (ended_entry status (proc s r)))
ended-IsSameBut s r status =
    let p = ended_entry status (proc s r) in
    record {
      entries = λ k.
          put-cases
            (λ p'. p' ≡ record (proc s k) {
              status = p'.status;
              exit_status = p'.exit_status;
              zap_target = p'.zap_target;
            })
            s.process_table r p k
            (λ e.
              ap {A = ℕ} {B = Process}
                (λ j. record (proc s j) {
                  status = minus_one;
                  exit_status = status;
                  zap_target = (proc s r).zap_target;
                })
                (sym e))
            (λ _. refl);
      quit = ap (λ p'. eq_ℤ p'.status minus_one) (put_self s.process_table r p);
      lives = λ k ne. ap (λ p'. eq_ℤ p'.status minus_one) (put_ne s.process_table r p k ne);
      queues = refl;
    }

module _ {qs fs : ℕ → List ℕ} {s : State} (x : IsTable qs fs s) (alive : RunsAlive s) (r : ℕ)
    (runs : s.running_process ≡ some r) (alone : NoZapper r s) (status : ℤ) where
  abbrev ended : State
  ended = set_proc s r (ended_entry status (proc s r))

  abbrev u : State
  u = wake_parent r ended

  empty : (xs : List ℕ) → IsChain (sibling_of s) none xs → xs ≡ []
  empty [] c = refl
  empty (y ∷ ys) c = absurd (none-ne-some y (c.0))

  u-IsSameBut : IsSameBut r s u
  u-IsSameBut =
      IsSameBut-IsSame r s ended u (ended-IsSameBut s r status) ((wake_parent-IsWoken r ended).same)

  -- What `quit` does for a process without children, in kernel mode.
  ends-IsSafe :
      (proc s r).children ≡ none
      → IsSafe
          (λ _ _. Unit)
          (and_then
            (wake_zappers max_proc 0 r u)
            λ _ v. and_then (remove_from_ready_queue r v) λ _ w. dispatcher w)
  ends-IsSafe no_children =
      let below = (alive r runs).0 in
      let p = x.priorities r below (lives_used x r below ((alive r runs).1)) in
      let q = (proc s r).priority - 1 in
      let l : q < 6 = omega (arith, p.below, p.above) in
      let prio : (proc s r).priority ≡ suc q = omega (arith, p.above) in
      let childless : fs r ≡ [] =
        empty (fs r)
          (subst (λ h. IsChain (sibling_of s) h (fs r)) no_children (x.families r below)) in
      let woken = wake_parent-IsWoken r ended in
      let nobody =
        woken.no_zapper (NoZapper-put r r (ended_entry status (proc s r)) s alone refl) in
      let y = u-IsSameBut in
      let prio_u : (proc u r).priority ≡ suc q = ap (λ p'. p'.priority) (y.entries r) ∙ prio in
      let next_same : next_of u ≡ next_of s = fun_ext (λ k. ap (λ p'. p'.next) (y.entries k)) in
      let queue_u : IsQueue u q (qs q) = rw (next_same, y.queues) (x.queues q l) in
      rw (wake_zappers-none max_proc 0 r u nobody) (
        Safe-and_then IsValid Rely (λ _. ⊥) (λ _ w. IsOrdered w) _ (remove_from_ready_queue r u) _
          (Quiet-Safe IsValid Rely (λ _. ⊥) (λ _ w. IsOrdered w) (remove_from_ready_queue r u)
            (remove_from_ready_queue-Quiet r u)
            (Finishes-mono (λ _ w. IsChanged q (qs q) r (without r (qs q)) u w) _
              (remove_from_ready_queue r u)
              (λ _ w z. (_, _, ended-IsTable x r q u w l prio childless y z))
              (remove_from_ready_queue-IsChanged q r (qs q) u prio_u l queue_u
                (x.queues_distinct q l) (queue_few x q l))))
          (λ _ w o.
            Safe-mono IsValid Rely (λ _. ⊥) _ _ (dispatcher w) (λ _ t h. (h.0, tt))
              (dispatcher-IsSafe w o)))

  -- `quit` in kernel mode, for the process `r'` with the first child `c`.
  abbrev quit_with : ℕ → Option ℕ → Cmd (Unit {0})
  quit_with r' (some _) = halt 1 s
  quit_with r' none =
      and_then
        (wake_zappers max_proc 0 r'
          (wake_parent r' (set_proc s r' (ended_entry status (proc s r')))))
        λ _ v. and_then (remove_from_ready_queue r' v) λ _ w. dispatcher w

  quit_with-IsSafe : (c : Option ℕ) → (proc s r).children ≡ c → IsSafe (λ _ _. Unit) (quit_with r c)
  quit_with-IsSafe none e = ends-IsSafe e
  quit_with-IsSafe (some c) e = tt

  -- If the table is in order and nobody waits for the running process to end, `quit` follows no wild
  -- pointer, no walk of it is endless, and the table is in order again when it runs the next process.
  pub quit-IsSafe : IsSafe (λ _ _. Unit) (quit status s)
  unfolding quit
  quit-IsSafe mode = elim (Bool-cases (eq_ℤ mode (pos 0))) [
    | inl e ↦ rw e tt
    | inr e ↦ rw e (
        subst (λ o. IsSafe (λ _ _. Unit) (deref o λ r'. quit_with r' (proc s r').children))
          (sym runs) (quit_with-IsSafe (proc s r).children refl))
  ]
