-- ===== src/Phase1b/Keeping/Ends.antt =====
-- `join`, `quit` and `blockMe` of phase1b-archive/phase1b.c leave nobody waiting for another process to
-- end.
use elissa_x_priscilla_colla.Base.{
  ℕ, zero, suc, ◌≡◌, refl, ℤ, pos, minus_one, Bool, Option, none, some, true, false, Bool-cases,
  Option-cases, inl, inr, ◌&&◌,
}
use elissa_x_priscilla_colla.Base.Int.{eq_ℤ}
use elissa_x_priscilla_colla.Base.Run.{and_then}
use elissa_x_priscilla_colla.Base.Holds.{Holds-and_then}
use elissa_x_priscilla_colla.Phase1b.State.{State, Cmd, proc, set_proc, max_proc, deref}
use elissa_x_priscilla_colla.Phase1b.Queues.{remove_from_ready_queue}
use elissa_x_priscilla_colla.Phase1b.Scheduler.{
  dispatcher, block_me, wake_zappers, wake_parent, quit,
}
use elissa_x_priscilla_colla.Phase1b.Join.{Gone, reap, join_loop, join_as, join}
use elissa_x_priscilla_colla.Phase1b.Table.Quitting.{NoZapper, wake_zappers-none}
use elissa_x_priscilla_colla.Phase1b.Table.Joining.{next_round}
use elissa_x_priscilla_colla.Phase1b.Untargeted.{
  Untargeted, Announces, Keeps, write-Untargeted, remove_from_ready_queue-Keeps, dispatcher-Keeps,
}
use elissa_x_priscilla_colla.Phase1b.Keeping.{reap-Keeps}

and_false : (b : Bool) → (b && false) ≡ false
and_false true = refl
and_false false = refl

-- If nobody waits for anybody, nobody waits for `r`.
pub Untargeted-NoZapper : (r : ℕ) (s : State) → Untargeted s → NoZapper r s
Untargeted-NoZapper r s n i = rw (n i) (and_false (eq_ℤ (proc s i).status (pos 1)))

wake_parent-Untargeted : (r : ℕ) (s : State) → Untargeted s → Untargeted (wake_parent r s)
unfolding wake_parent
wake_parent-Untargeted r s n = elim (Option-cases ((proc s r).parent)) [
  | inl e ↦ rw (wake_parent, e) n
  | inr (p, e) ↦ elim (Bool-cases (eq_ℤ (proc s p).status (pos 1))) [
    | inl e' ↦
        rw (wake_parent, e, e')
          (write-Untargeted s p (record (proc s p) { status = pos 0 }) n (n p))
    | inr e' ↦ rw (wake_parent, e, e') n
  ]
]

-- A process without children ends.
ends-Keeps :
    (r : ℕ) (s : State)
    → Untargeted s
    → Keeps (
        and_then
          (wake_zappers max_proc 0 r s)
          λ _ u. and_then (remove_from_ready_queue r u) λ _ w. dispatcher w)
ends-Keeps r s n = rw (wake_zappers-none max_proc 0 r s (Untargeted-NoZapper r s n)) (
    Holds-and_then Untargeted Announces (remove_from_ready_queue r s) _
      (remove_from_ready_queue-Keeps r s n) (λ _ w m. dispatcher-Keeps w m))

deref-Keeps :
    {A : Type 0} (o : Option ℕ) (k : ℕ → Cmd A) → ((r : ℕ) → Keeps (k r)) → Keeps (deref o k)
deref-Keeps none k h = tt
deref-Keeps (some r) k h = h r

pub quit-Keeps : (status : ℤ) (s : State) → Untargeted s → Keeps (quit status s)
unfolding quit
quit-Keeps status s n mode = elim (Bool-cases (eq_ℤ mode (pos 0))) [
  | inl e ↦ rw e tt
  | inr e ↦ rw e (
      deref-Keeps s.running_process _ (λ r. elim (Option-cases ((proc s r).children)) [
        | inr (c, e') ↦ rw e' tt
        | inl e' ↦
            let t = set_proc s r (record (proc s r) { status = minus_one; exit_status = status }) in
            rw e' (
              ends-Keeps r (wake_parent r t)
                (wake_parent-Untargeted r t (write-Untargeted s r _ n (n r))))
      ]))
]

pub block_me-Keeps : (s : State) → Untargeted s → Keeps (block_me s)
unfolding block_me
block_me-Keeps s n =
    deref-Keeps s.running_process _ (λ r.
      dispatcher-Keeps _ (write-Untargeted s r (record (proc s r) { status = pos 1 }) n (n r)))

next_round-Keeps :
    (again : ℕ → State → Cmd Gone) (parent : ℕ)
    → ((u : State) → Untargeted u → Keeps (again parent u))
    → (found : Option Gone) (t : State) → Untargeted t
    → Keeps (next_round again parent t found)
next_round-Keeps again parent goes_on (some g) t n = n
next_round-Keeps again parent goes_on none t n =
    let u = set_proc t parent (record (proc t parent) { status = pos 1 }) in
    Holds-and_then Untargeted Announces (dispatcher u) _
      (dispatcher-Keeps u (write-Untargeted t parent _ n (n parent))) (λ _ w m. goes_on w m)

join_loop-Keeps : (fuel parent : ℕ) (s : State) → Untargeted s → Keeps (join_loop fuel parent s)
unfolding join_loop
join_loop-Keeps zero parent s n = n
join_loop-Keeps (suc f) parent s n =
    Holds-and_then Untargeted Announces (reap (suc max_proc) parent none (proc s parent).children s)
      _ (reap-Keeps (suc max_proc) parent none (proc s parent).children s n)
      (λ found t m. next_round-Keeps (join_loop f) parent (join_loop-Keeps f parent) found t m)

join_as-Keeps : (fuel parent : ℕ) (s : State) → Untargeted s → Keeps (join_as fuel parent s)
unfolding join_as
join_as-Keeps fuel parent s n = elim (Option-cases ((proc s parent).children)) [
  | inl e ↦ rw (join_as, e) n
  | inr (c, e) ↦
      rw (join_as, e)
        (Holds-and_then Untargeted Announces (join_loop fuel parent s) _
          (join_loop-Keeps fuel parent s n) (λ g t m. m))
]

pub join-Keeps : (fuel : ℕ) (s : State) → Untargeted s → Keeps (join fuel false s)
unfolding join
join-Keeps fuel s n = deref-Keeps s.running_process _ (λ parent. join_as-Keeps fuel parent s n)
