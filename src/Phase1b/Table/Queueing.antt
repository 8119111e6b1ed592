-- ===== src/Phase1b/Table/Queueing.antt =====
-- The ready queues of phase1b-archive/phase1b.c with one process more, in a table that stays in order.
use elissa_x_priscilla_colla.Base.{
  ℕ, ◌<◌, ◌≡◌, sym, ap, subst, ◌∙◌, fun_ext, List, [], ◌∷◌, ◌++◌, put, put-cases,
}
use elissa_x_priscilla_colla.Phase1b.State.{State}
use elissa_x_priscilla_colla.Phase1b.Chain.{All, Absent, Distinct}
use elissa_x_priscilla_colla.Phase1b.Members.{All-append, Distinct-append}
use elissa_x_priscilla_colla.Phase1b.Reaping.{sibling_of}
use elissa_x_priscilla_colla.Phase1b.Removal.{IsChanged}
use elissa_x_priscilla_colla.Phase1b.Table.Kept.{
  OnlyQueues-IsKept, All-IsReady-kept, All-IsChildOf-kept, ended-kept, priorities-kept,
}
use elissa_x_priscilla_colla.Phase1b.Table.Splicing.{queues-put}
use elissa_x_priscilla_colla.Phase1b.Table.{IsTable, IsReady}

module _ {qs fs : ℕ → List ℕ} {s : State} (x : IsTable qs fs s) where
  -- A process that is in no ready queue is put at the end of one.
  pub appended-IsTable :
      (q p : ℕ) (t : State)
      → q < 6
      → IsReady s q p
      → IsChanged q (qs q) p (qs q ++ (p ∷ [])) s t
      → ((r : ℕ) → r < 6 → Absent p (qs r))
      → IsTable (put qs q (qs q ++ (p ∷ []))) fs t
  appended-IsTable q p t l ready y absent =
      let ys = qs q ++ (p ∷ []) in
      let kept = OnlyQueues-IsKept s t y.frame in
      let sibling_same : sibling_of t ≡ sibling_of s =
        fun_ext (λ k. ap (λ p'. p'.sibling) (y.frame.entries k)) in
      record {
        queues = queues-put t x q p ys l y.queue y.links y.others (λ r lr _. absent r lr);
        queues_distinct = λ r lr.
            put-cases Distinct qs q ys r
              (λ _. Distinct-append p (qs q) (x.queues_distinct q l) (absent q l))
              (λ _. x.queues_distinct r lr);
        queues_ready = λ r lr. All-IsReady-kept kept r (put qs q ys r) (
            put-cases (All (IsReady s r)) qs q ys r
              (λ e.
                subst (λ k. All (IsReady s k) ys) (sym e)
                  (All-append (IsReady s q) p (qs q) (x.queues_ready q l) ready))
              (λ _. x.queues_ready r lr));
        families =
            λ j lj. rw (sibling_same, ap (λ p'. p'.children) (y.frame.entries j)) (x.families j lj);
        families_distinct = x.families_distinct;
        families_fit = λ j lj. All-IsChildOf-kept kept j (fs j) (x.families_fit j lj);
        childless = λ j lj h. x.childless j lj (sym (kept.lives j) ∙ h);
        ended = λ j lj. ended-kept kept j (x.ended j lj);
        priorities = λ j lj. priorities-kept kept j (x.priorities j lj);
      }
