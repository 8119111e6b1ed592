-- ===== src/Phase1b/Keeping.antt =====
-- `spork`, `join`, `quit` and `blockMe` of phase1b-archive/phase1b.c leave nobody waiting for another
-- process to end.
pub mod Ends
use elissa_x_priscilla_colla.Base.{
  ℕ, zero, suc, ℤ, pos, minus_one, pos_part, Option, none, some, List, Bool-cases, Option-cases,
  inl, inr, ltb, leb, ◌||◌,
}
use elissa_x_priscilla_colla.Base.Int.{eq_ℤ, ltb_ℤ}
use elissa_x_priscilla_colla.Base.Holds.{Holds-and_then}
use elissa_x_priscilla_colla.Phase1b.State.{State, proc, set_proc, set_sibling, max_proc, min_stack}
use elissa_x_priscilla_colla.Phase1b.Queues.{last}
use elissa_x_priscilla_colla.Phase1b.Spork.{
  find_slot, new_pid, link_last, link_child, set_parent, enter, start_process, yield_to, spork_in,
  spork,
}
use elissa_x_priscilla_colla.Phase1b.Join.{unlink_child, reap}
use elissa_x_priscilla_colla.Phase1b.Table.Making.{Wish}
use elissa_x_priscilla_colla.Phase1b.Untargeted.{
  Untargeted, Announces, Keeps, write-Untargeted, set_sibling-Untargeted, set_children-Untargeted,
  at_queue-Keeps, append-Keeps, dispatcher-Keeps,
}

link_last-Keeps : (parent p : ℕ) (s : State) → Untargeted s → Keeps (link_last parent p s)
unfolding link_last
link_last-Keeps parent p s n = elim (Option-cases ((proc s parent).children)) [
  | inl e ↦ rw (e, link_last) (set_children-Untargeted s parent (some p) n)
  | inr (h, e) ↦ elim (Option-cases (last max_proc (λ i. (proc s i).sibling) h)) [
    | inl e' ↦ rw (e, link_last, e') n
    | inr (l, e') ↦ rw (e, link_last, e') (set_sibling-Untargeted s l (some p) n)
  ]
]

link_child-Keeps : (parent p : ℕ) (s : State) → Untargeted s → Keeps (link_child parent p s)
unfolding link_child
link_child-Keeps parent p s n =
    elim (Bool-cases (ltb (proc s parent).priority (proc s p).priority)) [
      | inl e ↦
          rw e (link_last-Keeps parent p (set_sibling s p none) (set_sibling-Untargeted s p none n))
      | inr e ↦
          let o = (proc s parent).children in
          rw e (
            set_children-Untargeted (set_sibling s p o) parent (some p)
              (set_sibling-Untargeted s p o n))
    ]

set_parent-Keeps : (p : ℕ) (s : State) → Untargeted s → Keeps (set_parent p s)
unfolding set_parent
set_parent-Keeps p s n = elim (Option-cases s.running_process) [
  | inl e ↦ rw (e, set_parent) (write-Untargeted s p (record (proc s p) { parent = none }) n (n p))
  | inr (r, e) ↦
      rw (e, set_parent)
        (link_child-Keeps r p (set_proc s p (record (proc s p) { parent = some r }))
          (write-Untargeted s p (record (proc s p) { parent = some r }) n (n p)))
]

enter-Keeps : (p : ℕ) (s : State) → Untargeted s → Keeps (enter p s)
unfolding enter
enter-Keeps p s n =
    Holds-and_then Untargeted Announces (set_parent p s) _ (set_parent-Keeps p s n)
      (λ _ v m. at_queue-Keeps (proc v p).priority _ (λ q. append-Keeps q p v m))

yield_to-Keeps : (p : ℕ) (s : State) → Untargeted s → Keeps (yield_to p s)
unfolding yield_to
yield_to-Keeps p s n = elim (Option-cases s.running_process) [
  | inl e ↦ rw (e, yield_to) n
  | inr (r, e) ↦ elim (Bool-cases (leb (proc s p).priority (proc s r).priority)) [
    | inl e' ↦ rw (e, yield_to, e') (dispatcher-Keeps s n)
    | inr e' ↦ rw (e, yield_to, e') n
  ]
]

spork_in-Keeps :
    (i pid : ℕ) (name : List ℕ) (start_func arg : ℤ) (size prio : ℕ) (s : State)
    → Untargeted s
    → Keeps (spork_in i pid name start_func arg size prio s)
unfolding spork_in
spork_in-Keeps i pid name f a size prio s n address = elim (Bool-cases (eq_ℤ address (pos 0))) [
  | inl e ↦ rw e tt
  | inr e ↦
      let t = start_process i name pid prio s in
      let t-Untargeted : Untargeted t = write-Untargeted s i _ n (n i) in
      let p = record (proc t i) { stack = address; start_func = f; arg = a } in
      rw e (
        Holds-and_then Untargeted Announces (enter i (set_proc t i p)) _
          (enter-Keeps i (set_proc t i p) (write-Untargeted t i p t-Untargeted (t-Untargeted i)))
          (λ _ w m.
            Holds-and_then Untargeted Announces (yield_to i w) _ (yield_to-Keeps i w m)
              (λ _ x k. k)))
]

pub spork-Keeps :
    (w : Wish) (size prio : ℤ) (s : State)
    → Untargeted s
    → Keeps (spork w.name w.start_func w.arg size prio s)
unfolding spork
spork-Keeps w size prio s n mode = elim (Bool-cases (eq_ℤ mode (pos 0))) [
  | inl e ↦ rw e tt
  | inr e ↦ elim (Bool-cases (ltb_ℤ prio (pos 1) || ltb_ℤ (pos 5) prio)) [
    | inl bad ↦ rw (e, bad) n
    | inr fine ↦ elim (Bool-cases (ltb_ℤ size (pos min_stack))) [
      | inl small ↦ rw (e, fine, small) n
      | inr large ↦ elim (Option-cases (find_slot s.next_pid s.process_table)) [
        | inl full ↦ rw (e, fine, large, full) n
        | inr (i, slot) ↦ elim (Option-cases (new_pid 3 s.next_pid)) [
          | inl never ↦ rw (e, fine, large, slot, never) n
          | inr (pid, number) ↦
              rw (e, fine, large, slot, number)
                (spork_in-Keeps i pid w.name w.start_func w.arg (pos_part size) (pos_part prio) s n)
        ]
      ]
    ]
  ]
]

unlink_child-Untargeted :
    (parent : ℕ) (prev o : Option ℕ) (s : State)
    → Untargeted s
    → Untargeted (unlink_child parent prev o s)
unlink_child-Untargeted parent none o s n = set_children-Untargeted s parent o n
unlink_child-Untargeted parent (some j) o s n = set_sibling-Untargeted s j o n

pub reap-Keeps :
    (fuel parent : ℕ) (prev h : Option ℕ) (s : State)
    → Untargeted s
    → Keeps (reap fuel parent prev h s)
unfolding reap
reap-Keeps zero parent prev h s n = n
reap-Keeps (suc f) parent prev none s n = n
reap-Keeps (suc f) parent prev (some c) s n = elim (Bool-cases (eq_ℤ (proc s c).status minus_one)) [
  | inl e ↦
      let u = unlink_child parent prev (proc s c).sibling s in
      let u-Untargeted = unlink_child-Untargeted parent prev (proc s c).sibling s n in
      rw (reap, e) (write-Untargeted u c _ u-Untargeted (u-Untargeted c))
  | inr e ↦ rw (reap, e) (reap-Keeps f parent (some c) (proc s c).sibling s n)
]
