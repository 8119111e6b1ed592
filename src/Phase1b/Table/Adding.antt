-- ===== src/Phase1b/Table/Adding.antt =====
-- The steps by which `spork` of phase1b-archive/phase1b.c brings a process into a table that is in
-- order: its entry is written, and it becomes a child and a member of a ready queue.
use elissa_x_priscilla_colla.Base.{
  ℕ, ◌<◌, ◌≡◌, ◌≢◌, refl, sym, ap, subst, ◌∙◌, fun_ext, List, [], true, false, put, put-cases,
  put_ne, minus_one,
}
use mathlib.Core.Bool.{true≢false}
use elissa_x_priscilla_colla.Base.Int.{eq_ℤ}
use elissa_x_priscilla_colla.Phase1b.State.{State, Process, proc, set_proc, max_proc}
use elissa_x_priscilla_colla.Phase1b.Chain.{
  IsChain-off, next_of, All, All-map, All-both, Absent, Distinct,
}
use elissa_x_priscilla_colla.Phase1b.Reaping.{has_quit, sibling_of}
use elissa_x_priscilla_colla.Phase1b.Family.{IsLinked}
use elissa_x_priscilla_colla.Phase1b.Table.Kept.{
  OnlyFamilies-IsKept, All-IsReady-kept, All-IsChildOf-kept, ended-kept, priorities-kept,
}
use elissa_x_priscilla_colla.Phase1b.Table.Splicing.{families-put}
use elissa_x_priscilla_colla.Phase1b.Table.{IsTable, IsReady, IsChildOf, HasPriority}

module _ {qs fs : ℕ → List ℕ} {s : State} (x : IsTable qs fs s) where
  -- An entry that is in no list is written, and its links are kept.
  module _ (i : ℕ) (p : Process) (unqueued : (q : ℕ) → q < 6 → Absent i (qs q))
      (no_child : (j : ℕ) → j < max_proc → Absent i (fs j))
      (children_kept : p.children ≡ (proc s i).children) (lives : eq_ℤ p.status minus_one ≡ false)
      (fit : HasPriority p) where
    abbrev t : State
    t = set_proc s i p

    at_ne : (k : ℕ) → k ≢ i → proc t k ≡ proc s k
    at_ne k ne = put_ne s.process_table i p k ne

    IsReady-ne : (q k : ℕ) → IsReady s q k × (k ≢ i) → IsReady t q k
    IsReady-ne q k (r, ne) = record {
      below = r.below;
      lives = ap (λ p'. eq_ℤ p'.status minus_one) (at_ne k ne) ∙ r.lives;
      priority = ap (λ p'. p'.priority) (at_ne k ne) ∙ r.priority;
    }

    IsChildOf-ne : (j k : ℕ) → IsChildOf s j k × (k ≢ i) → IsChildOf t j k
    IsChildOf-ne j k (c, ne) = record {
      below = c.below;
      used = ap (λ p'. eq_ℤ p'.pid minus_one) (at_ne k ne) ∙ c.used;
      parent = ap (λ p'. p'.parent) (at_ne k ne) ∙ c.parent;
    }

    head_kept : (j : ℕ) → (proc t j).children ≡ (proc s j).children
    head_kept j =
        put-cases (λ p'. p'.children ≡ (proc s j).children) s.process_table i p j
          (λ e. children_kept ∙ ap (λ k. (proc s k).children) (sym e)) (λ _. refl)

    -- What holds of an entry that has not quit, at `i`, and of the old entries elsewhere.
    quit_before : (j : ℕ) → has_quit t j ≡ true → has_quit s j ≡ true
    quit_before j =
        put-cases (λ p'. eq_ℤ p'.status minus_one ≡ true → has_quit s j ≡ true) s.process_table i p
          j (λ _ h. absurd (true≢false (sym h ∙ lives))) (λ _ h. h)

    pub write-IsTable : eq_ℤ p.pid minus_one ≡ false → IsTable qs fs t
    write-IsTable used = record {
      queues = λ q l.
          IsChain-off (next_of s) (next_of t) (λ k. k ≢ i) (λ k ne. ap (λ p'. p'.next) (at_ne k ne))
            (qs q) (s.ready_queues q) (unqueued q l) (x.queues q l);
      queues_distinct = x.queues_distinct;
      queues_ready = λ q l.
          All-map (λ k. IsReady s q k × (k ≢ i)) (IsReady t q) (IsReady-ne q) (qs q)
            (All-both (IsReady s q) (λ k. k ≢ i) (qs q) (x.queues_ready q l) (unqueued q l));
      families = λ j l. rw (head_kept j) (
          IsChain-off (sibling_of s) (sibling_of t) (λ k. k ≢ i)
            (λ k ne. ap (λ p'. p'.sibling) (at_ne k ne)) (fs j) (proc s j).children (no_child j l)
            (x.families j l));
      families_distinct = x.families_distinct;
      families_fit = λ j l.
          All-map (λ k. IsChildOf s j k × (k ≢ i)) (IsChildOf t j) (IsChildOf-ne j) (fs j)
            (All-both (IsChildOf s j) (λ k. k ≢ i) (fs j) (x.families_fit j l) (no_child j l));
      childless = λ j l h. x.childless j l (quit_before j h);
      ended = λ j l.
          put-cases (λ p'. eq_ℤ p'.pid minus_one ≡ true → eq_ℤ p'.status minus_one ≡ true)
            s.process_table i p j (λ _ h. absurd (true≢false (sym h ∙ used))) (λ _. x.ended j l);
      priorities = λ j l.
          put-cases (λ p'. eq_ℤ p'.pid minus_one ≡ false → HasPriority p') s.process_table i p j
            (λ _ _. fit) (λ _. x.priorities j l);
    }

  -- A process that is in no list of children becomes a child of its parent.
  pub linked-IsTable :
      (parent p : ℕ) (ds : List ℕ) (t : State)
      → parent < max_proc
      → has_quit s parent ≡ false
      → IsLinked s parent p (fs parent) ds t
      → ((j : ℕ) → j < max_proc → Absent p (fs j))
      → Distinct ds
      → All (IsChildOf s parent) ds
      → IsTable qs (put fs parent ds) t
  linked-IsTable parent p ds t l lives y no_child d a =
      let kept = OnlyFamilies-IsKept s t y.frame in
      let next_same : next_of t ≡ next_of s =
        fun_ext (λ k. ap (λ p'. p'.next) (y.frame.entries k)) in
      record {
        queues = λ q lq. rw (next_same, y.frame.queues) (x.queues q lq);
        queues_distinct = x.queues_distinct;
        queues_ready = λ q lq. All-IsReady-kept kept q (qs q) (x.queues_ready q lq);
        families =
            families-put t x parent p ds l y.family y.siblings y.heads (λ j lj _. no_child j lj);
        families_distinct =
            λ j lj. put-cases Distinct fs parent ds j (λ _. d) (λ _. x.families_distinct j lj);
        families_fit = λ j lj. All-IsChildOf-kept kept j (put fs parent ds j) (
            put-cases (All (IsChildOf s j)) fs parent ds j
              (λ e. subst (λ k. All (IsChildOf s k) ds) (sym e) a) (λ _. x.families_fit j lj));
        childless = λ j lj h.
            put-cases (λ cs. cs ≡ []) fs parent ds j
              (λ e. absurd (
                true≢false
                  (sym (sym (kept.lives j) ∙ h) ∙ subst (λ k. has_quit s k ≡ false) (sym e) lives)))
              (λ _. x.childless j lj (sym (kept.lives j) ∙ h));
        ended = λ j lj. ended-kept kept j (x.ended j lj);
        priorities = λ j lj. priorities-kept kept j (x.priorities j lj);
      }
