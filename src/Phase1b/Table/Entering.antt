-- ===== src/Phase1b/Table/Entering.antt =====
-- `spork` of phase1b-archive/phase1b.c puts the new process into the lists.
use elissa_x_priscilla_colla.Base.{
  ℕ, suc, ◌-◌, ◌<◌, ◌≡◌, ◌≢◌, refl, sym, ap, ap₂, subst, ◌∙◌, Option, none, some, List, [], ◌∷◌,
  ◌++◌, false, Bool-cases, inl, inr, put, put-cases, put_self, put_ne, arith, minus_one, ltb,
  lt→ltb, if◌then◌else◌,
}
use elissa_x_priscilla_colla.Base.Run.{done, Finishes, Finishes-and_then, Finishes-mono}
use elissa_x_priscilla_colla.Base.Int.{eq_ℤ}
use elissa_x_priscilla_colla.Phase1b.State.{State, Cmd, proc, set_proc, max_proc}
use elissa_x_priscilla_colla.Phase1b.Queues.{append}
use elissa_x_priscilla_colla.Phase1b.Spork.{link_child, set_parent, enter}
use elissa_x_priscilla_colla.Phase1b.Chain.{All, Absent, Distinct}
use elissa_x_priscilla_colla.Phase1b.Frames.{bare, bare-OnlyQueues, bare-OnlyFamilies}
use elissa_x_priscilla_colla.Phase1b.Members.{All-append, Distinct-append}
use elissa_x_priscilla_colla.Phase1b.Reaping.{has_quit}
use elissa_x_priscilla_colla.Phase1b.Removal.{IsChanged, append-IsChanged}
use elissa_x_priscilla_colla.Phase1b.Family.{IsLinked, joined_by, link_child-IsLinked}
use elissa_x_priscilla_colla.Phase1b.Table.{
  IsTable, IsChildOf, HasPriority, RunsAlive, is_free, queue_few, family_few,
}
use elissa_x_priscilla_colla.Phase1b.Table.Adding.{write-IsTable, linked-IsTable}
use elissa_x_priscilla_colla.Phase1b.Table.Queueing.{appended-IsTable}

-- The lists of children with the new process `i` in that of the running one.
abbrev pub with_child : State → (ℕ → List ℕ) → ℕ → Option ℕ → ℕ → List ℕ
with_child s fs i none = fs
with_child s fs i (some r) = put fs r (joined_by s r i (fs r))

-- Process `i` has the parent `r`, and nothing else has changed but the links.
pub record IsEntered (qs fs : ℕ → List ℕ) (s : State) (i : ℕ) (r : Option ℕ) (t : State)
    : Type 0 where
  pub table : IsTable qs fs t
  pub entry : bare (proc t i) ≡ bare (record (proc s i) { parent = r })
  pub others : (k : ℕ) → k ≢ i → bare (proc t k) ≡ bare (proc s k)
  pub running : t.running_process ≡ s.running_process
  pub counter : t.next_pid ≡ s.next_pid

module _ {qs fs : ℕ → List ℕ} {s : State} (x : IsTable qs fs s) (alive : RunsAlive s) (i : ℕ)
    (below : i < max_proc) (lives : has_quit s i ≡ false) (used : is_free s i ≡ false)
    (unqueued : (q : ℕ) → q < 6 → Absent i (qs q))
    (no_child : (j : ℕ) → j < max_proc → Absent i (fs j)) where
  abbrev child_of : Option ℕ → State
  child_of r = set_proc s i (record (proc s i) { parent = r })

  fit : (r : Option ℕ) → HasPriority (record (proc s i) { parent = r })
  fit r = let p = x.priorities i below used in record { above = p.above; below = p.below }

  child_of-IsEntered : (r : Option ℕ) → IsEntered qs fs s i r (child_of r)
  child_of-IsEntered r = record {
    table =
        write-IsTable x i (record (proc s i) { parent = r }) unqueued no_child refl lives (fit r)
          used;
    entry = ap bare (put_self s.process_table i (record (proc s i) { parent = r }));
    others = λ k ne. ap bare (put_ne s.process_table i (record (proc s i) { parent = r }) k ne);
    running = refl;
    counter = refl;
  }

  -- The lists of the children of `r` that `link_child` makes.
  module _ (r : ℕ) (runs : s.running_process ≡ some r) where
    abbrev u : State
    u = child_of (some r)

    child_of-IsChildOf : IsChildOf u r i
    child_of-IsChildOf = record {
      below = below;
      used =
          ap (λ p. eq_ℤ p.pid minus_one)
            (put_self s.process_table i (record (proc s i) { parent = some r }))
          ∙ used;
      parent =
          ap (λ p. p.parent) (put_self s.process_table i (record (proc s i) { parent = some r }));
    }

    same_priority : (k : ℕ) → (proc u k).priority ≡ (proc s k).priority
    same_priority k =
        put-cases (λ p. p.priority ≡ (proc s k).priority) s.process_table i _ k
          (λ e. ap (λ j. (proc s j).priority) (sym e)) (λ _. refl)

    joined_same : joined_by u r i (fs r) ≡ joined_by s r i (fs r)
    joined_same =
        ap₂ (λ m n. if ltb m n then fs r ++ (i ∷ []) else i ∷ fs r) (same_priority r)
          (same_priority i)

    joined-Distinct : Distinct (joined_by s r i (fs r))
    joined-Distinct =
        let l = (alive r runs).0 in
        elim (Bool-cases (ltb (proc s r).priority (proc s i).priority)) [
          | inl e ↦ rw e (Distinct-append i (fs r) (x.families_distinct r l) (no_child r l))
          | inr e ↦ rw e (no_child r l, x.families_distinct r l)
        ]

    joined-children : All (IsChildOf u r) (fs r) → All (IsChildOf u r) (joined_by s r i (fs r))
    joined-children a = elim (Bool-cases (ltb (proc s r).priority (proc s i).priority)) [
      | inl e ↦ rw e (All-append (IsChildOf u r) i (fs r) a child_of-IsChildOf)
      | inr e ↦ rw e (child_of-IsChildOf, a)
    ]

    link_child-IsEntered :
        Finishes
          (λ _ t. IsEntered qs (put fs r (joined_by s r i (fs r))) s i (some r) t)
          (link_child r i u)
    link_child-IsEntered =
        let e = child_of-IsEntered (some r) in
        let l = (alive r runs).0 in
        let ds = joined_by s r i (fs r) in
        let rlives : has_quit u r ≡ false =
          put-cases (λ p. eq_ℤ p.status minus_one ≡ false) s.process_table i _ r (λ _. lives)
            (λ _. (alive r runs).1) in
        Finishes-mono (λ _ t. IsLinked u r i (fs r) (joined_by u r i (fs r)) t) _ (link_child r i u)
          (λ _ t y. record {
            table =
                linked-IsTable e.table r i ds t l rlives
                  (subst (λ cs. IsLinked u r i (fs r) cs t) joined_same y) no_child joined-Distinct
                  (joined-children (e.table.families_fit r l));
            entry = bare-OnlyFamilies u t y.frame i ∙ e.entry;
            others = λ k ne. bare-OnlyFamilies u t y.frame k ∙ e.others k ne;
            running = y.frame.running;
            counter = y.frame.counter;
          })
          (link_child-IsLinked u r i (fs r) (e.table.families r l) (x.families_distinct r l)
            (no_child r l) (family_few x r l))

  -- What `set_parent` does when the running process is `o`.
  abbrev set_parent_to : Option ℕ → Cmd (Unit {0})
  set_parent_to none = done tt (child_of none)
  set_parent_to (some r) = link_child r i (child_of (some r))

  set_parent_to-IsEntered :
      (o : Option ℕ)
      → s.running_process ≡ o
      → Finishes (λ _ t. IsEntered qs (with_child s fs i o) s i o t) (set_parent_to o)
  set_parent_to-IsEntered none e = child_of-IsEntered none
  set_parent_to-IsEntered (some r) e = link_child-IsEntered r e

  set_parent-IsEntered :
      Finishes
        (λ _ t. IsEntered qs (with_child s fs i s.running_process) s i s.running_process t)
        (set_parent i s)
  unfolding set_parent
  set_parent-IsEntered = set_parent_to-IsEntered s.running_process refl

  abbrev IsQueued : ℕ → State → Type 0
  IsQueued q t =
      IsEntered (put qs q (qs q ++ (i ∷ []))) (with_child s fs i s.running_process) s i
        s.running_process t

  pub enter-IsEntered :
      (q : ℕ) → q < 6 → (proc s i).priority ≡ suc q → Finishes (λ _ t. IsQueued q t) (enter i s)
  unfolding enter
  enter-IsEntered q l prio =
      Finishes-and_then
        (λ _ t. IsEntered qs (with_child s fs i s.running_process) s i s.running_process t)
        (λ _ t. IsQueued q t) (set_parent i s) _ set_parent-IsEntered
        (λ _ v e.
          let back : suc q - 1 ≡ q = omega arith in
          let at : (proc v i).priority ≡ suc q = ap (λ p. p.priority) e.entry ∙ prio in
          rw (at, lt→ltb (suc q) 7 (omega (arith, l)), lt→ltb 0 (suc q) (omega arith), back)
            (Finishes-mono (λ _ t. IsChanged q (qs q) i (qs q ++ (i ∷ [])) v t)
              (λ _ t. IsQueued q t) (append q i v)
              (λ _ t y. record {
                table =
                    appended-IsTable e.table q i t l
                      (record {
                        below = below;
                        lives = ap (λ p. eq_ℤ p.status minus_one) e.entry ∙ lives;
                        priority = at;
                      })
                      y unqueued;
                entry = bare-OnlyQueues v t y.frame i ∙ e.entry;
                others = λ k ne. bare-OnlyQueues v t y.frame k ∙ e.others k ne;
                running = y.frame.running ∙ e.running;
                counter = y.frame.counter ∙ e.counter;
              })
              (append-IsChanged q i (qs q) v (e.table.queues q l) (x.queues_distinct q l)
                (unqueued q l) (queue_few x q l))))
