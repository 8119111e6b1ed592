-- ===== src/Phase1b/Quietness.antt =====
-- The functions of phase1b-archive/phase1b.c that change the lists let no other process run.
use elissa_x_priscilla_colla.Base.{
  ℕ, zero, suc, ◌-◌, Option, none, some, Bool-cases, Option-cases, inl, inr, ltb, ◌&&◌, ◌==◌,
}
use elissa_x_priscilla_colla.Base.Int.{eq_ℤ}
use elissa_x_priscilla_colla.Base.{minus_one}
use elissa_x_priscilla_colla.Base.Calls.{Quietly}
use elissa_x_priscilla_colla.Phase1b.Join.{reap}
use elissa_x_priscilla_colla.Base.Quiet.{Quiet, Quiet-and_then}
use elissa_x_priscilla_colla.Phase1b.State.{State, Cmd, proc, set_sibling, max_proc, at_queue}
use elissa_x_priscilla_colla.Phase1b.Queues.{last, append, unlink, remove_from_ready_queue}
use elissa_x_priscilla_colla.Phase1b.Spork.{link_last, link_child, set_parent, enter}

at_queue-Quiet :
    {A : Type 0} (n : ℕ) (k : ℕ → Cmd A) → ((q : ℕ) → Quiet (k q)) → Quiet (at_queue n k)
at_queue-Quiet n k h = elim (Bool-cases (ltb 0 n && ltb n 7)) [
  | inl e ↦ rw e (h (n - 1))
  | inr e ↦ rw e tt
]

append-Quiet : (q p : ℕ) (s : State) → Quiet (append q p s)
unfolding append
append-Quiet q p s = elim (Option-cases (s.ready_queues q)) [
  | inl e ↦ rw (e, append) tt
  | inr (h, e) ↦ elim (Option-cases (last max_proc (λ i. (proc s i).next) h)) [
    | inl e' ↦ rw (e, append, e') tt
    | inr (l, e') ↦ rw (e, append, e') tt
  ]
]

link_last-Quiet : (parent p : ℕ) (s : State) → Quiet (link_last parent p s)
unfolding link_last
link_last-Quiet parent p s = elim (Option-cases ((proc s parent).children)) [
  | inl e ↦ rw (e, link_last) tt
  | inr (h, e) ↦ elim (Option-cases (last max_proc (λ i. (proc s i).sibling) h)) [
    | inl e' ↦ rw (e, link_last, e') tt
    | inr (l, e') ↦ rw (e, link_last, e') tt
  ]
]

link_child-Quiet : (parent p : ℕ) (s : State) → Quiet (link_child parent p s)
unfolding link_child
link_child-Quiet parent p s = elim (Bool-cases (ltb (proc s parent).priority (proc s p).priority)) [
  | inl e ↦ rw e (link_last-Quiet parent p (set_sibling s p none))
  | inr e ↦ rw e tt
]

set_parent-Quiet : (p : ℕ) (s : State) → Quiet (set_parent p s)
unfolding set_parent
set_parent-Quiet p s = elim (Option-cases s.running_process) [
  | inl e ↦ rw (e, set_parent) tt
  | inr (r, e) ↦ rw (e, set_parent) (link_child-Quiet r p _)
]

pub enter-Quiet : (p : ℕ) (s : State) → Quiet (enter p s)
unfolding enter
enter-Quiet p s =
    Quiet-and_then (set_parent p s) _ (set_parent-Quiet p s)
      (λ _ v. at_queue-Quiet (proc v p).priority _ (λ q. append-Quiet q p v))

unlink-Quiet : (fuel q p : ℕ) (prev cur : Option ℕ) (s : State) → Quiet (unlink fuel q p prev cur s)
unfolding unlink
unlink-Quiet zero q p prev cur s = tt
unlink-Quiet (suc f) q p prev none s = tt
unlink-Quiet (suc f) q p prev (some c) s = elim (Bool-cases (c == p)) [
  | inl e ↦ rw (unlink, e) tt
  | inr e ↦ rw (unlink, e) (unlink-Quiet f q p (some c) (proc s c).next s)
]

pub remove_from_ready_queue-Quiet : (p : ℕ) (s : State) → Quiet (remove_from_ready_queue p s)
unfolding remove_from_ready_queue
remove_from_ready_queue-Quiet p s =
    at_queue-Quiet (proc s p).priority _
      (λ q. unlink-Quiet (suc max_proc) q p none (s.ready_queues q) s)

pub reap-Quietly :
    (fuel parent : ℕ) (prev cur : Option ℕ) (s : State)
    → Quietly (λ _ _. Unit) (reap fuel parent prev cur s)
unfolding reap
reap-Quietly zero parent prev cur s = tt
reap-Quietly (suc f) parent prev none s = tt
reap-Quietly (suc f) parent prev (some c) s = elim (Bool-cases (eq_ℤ (proc s c).status minus_one)) [
  | inl e ↦ rw (e, reap) tt
  | inr e ↦ rw (e, reap) (reap-Quietly f parent (some c) (proc s c).sibling s)
]
