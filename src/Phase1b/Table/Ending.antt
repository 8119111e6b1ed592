-- ===== src/Phase1b/Table/Ending.antt =====
-- A process of phase1b-archive/phase1b.c that has quit leaves its ready queue.
use elissa_x_priscilla_colla.Base.{
  ℕ, suc, ◌<◌, ◌≡◌, ◌≢◌, sym, ap, subst, ◌∙◌, fun_ext, List, [], true, Bool-cases, inl, inr, put,
  put-cases, minus_one, ◌==◌, ==_iff, arith,
}
use elissa_x_priscilla_colla.Base.Int.{eq_ℤ}
use elissa_x_priscilla_colla.Phase1b.State.{State, Process, proc, max_proc}
use elissa_x_priscilla_colla.Phase1b.Chain.{
  All, All-map, All-both, Absent, Distinct, without, next_of,
}
use elissa_x_priscilla_colla.Phase1b.Members.{All-without, Absent-without, Distinct-without}
use elissa_x_priscilla_colla.Phase1b.Reaping.{has_quit, sibling_of}
use elissa_x_priscilla_colla.Phase1b.Removal.{IsChanged}
use elissa_x_priscilla_colla.Phase1b.Table.Same.{IsSame}
use elissa_x_priscilla_colla.Phase1b.Table.Splicing.{queues-put}
use elissa_x_priscilla_colla.Phase1b.Table.{IsTable, IsReady, IsChildOf, is_free, Absent-priority}

-- Process `r` has quit, and the status of others may have changed, but none of them has quit.
pub record IsSameBut (r : ℕ) (s t : State) : Type 0 where
  pub entries :
      (k : ℕ)
      → proc t k ≡ record (proc s k) {
        status = (proc t k).status;
        exit_status = (proc t k).exit_status;
        zap_target = (proc t k).zap_target;
      }
  pub quit : has_quit t r ≡ true
  pub lives : (k : ℕ) → k ≢ r → has_quit t k ≡ has_quit s k
  pub queues : t.ready_queues ≡ s.ready_queues

pub IsSameBut-IsSame : (r : ℕ) (s t u : State) → IsSameBut r s t → IsSame t u → IsSameBut r s u
IsSameBut-IsSame r s t u x y = record {
  entries = λ k.
      y.entries k
      ∙ ap {A = Process} {B = Process}
          (λ p. record p {
            status = (proc u k).status;
            exit_status = (proc u k).exit_status;
            zap_target = (proc u k).zap_target;
          })
          (x.entries k);
  quit = y.lives r ∙ x.quit;
  lives = λ k ne. y.lives k ∙ x.lives k ne;
  queues = y.queues ∙ x.queues;
}

module _ {qs fs : ℕ → List ℕ} {s : State} (x : IsTable qs fs s) (r q : ℕ) (u t : State) (l : q < 6)
    (prio : (proc s r).priority ≡ suc q) (no_children : fs r ≡ []) (y : IsSameBut r s u)
    (z : IsChanged q (qs q) r (without r (qs q)) u t) where
  abbrev ys : List ℕ
  ys = without r (qs q)

  status_of_u : (k : ℕ) → has_quit t k ≡ has_quit u k
  status_of_u k = ap (λ p. eq_ℤ p.status minus_one) (z.frame.entries k)

  free_same : (k : ℕ) → is_free t k ≡ is_free s k
  free_same k =
      ap (λ p. eq_ℤ p.pid minus_one) (z.frame.entries k)
      ∙ ap (λ p. eq_ℤ p.pid minus_one) (y.entries k)

  priority_same : (k : ℕ) → (proc t k).priority ≡ (proc s k).priority
  priority_same k = ap (λ p. p.priority) (z.frame.entries k) ∙ ap (λ p. p.priority) (y.entries k)

  next_same : (k : ℕ) → next_of u k ≡ next_of s k
  next_same k = ap (λ p. p.next) (y.entries k)

  absent : (j : ℕ) → j < 6 → j ≢ q → Absent r (qs j)
  absent j lj ne = Absent-priority x j r lj (λ e. ne (omega (arith, prio, e)))

  IsReady-other : (j k : ℕ) → IsReady s j k × (k ≢ r) → IsReady t j k
  IsReady-other j k (c, ne) = record {
    below = c.below;
    lives = status_of_u k ∙ y.lives k ne ∙ c.lives;
    priority = priority_same k ∙ c.priority;
  }

  All-IsReady-other :
      (j : ℕ) (xs : List ℕ) → All (IsReady s j) xs → Absent r xs → All (IsReady t j) xs
  All-IsReady-other j xs a b =
      All-map (λ k. IsReady s j k × (k ≢ r)) (IsReady t j) (IsReady-other j) xs
        (All-both (IsReady s j) (λ k. k ≢ r) xs a b)

  childless_after : (j : ℕ) → j < max_proc → has_quit t j ≡ true → fs j ≡ []
  childless_after j lj h = elim (Bool-cases (j == r)) [
    | inl e ↦ ap fs ((==_iff j r).0 e) ∙ no_children
    | inr e ↦ x.childless j lj (sym (status_of_u j ∙ y.lives j (ground arith)) ∙ h)
  ]

  ended_after : (j : ℕ) → j < max_proc → is_free t j ≡ true → has_quit t j ≡ true
  ended_after j lj h = elim (Bool-cases (j == r)) [
    | inl e ↦ status_of_u j ∙ ap (has_quit u) ((==_iff j r).0 e) ∙ y.quit
    | inr e ↦ status_of_u j ∙ y.lives j (ground arith) ∙ x.ended j lj (sym (free_same j) ∙ h)
  ]

  pub ended-IsTable : IsTable (put qs q ys) fs t
  ended-IsTable =
      let sibling_same : sibling_of t ≡ sibling_of s =
        fun_ext
          (λ k. ap (λ p. p.sibling) (z.frame.entries k) ∙ ap (λ p. p.sibling) (y.entries k)) in
      record {
        queues =
            queues-put t x q r ys l z.queue (λ k ne off. z.links k ne off ∙ next_same k)
              (λ j ne. z.others j ne ∙ ap (λ o. o j) y.queues) absent;
        queues_distinct = λ j lj.
            put-cases Distinct qs q ys j (λ _. Distinct-without r (qs q) (x.queues_distinct q l))
              (λ _. x.queues_distinct j lj);
        queues_ready = λ j lj.
            put-cases (All (IsReady t j)) qs q ys j
              (λ e.
                subst (λ k. All (IsReady t k) ys) (sym e)
                  (All-IsReady-other q ys (All-without (IsReady s q) r (qs q) (x.queues_ready q l))
                    (Absent-without r (qs q) (x.queues_distinct q l))))
              (λ ne. All-IsReady-other j (qs j) (x.queues_ready j lj) (absent j lj ne));
        families = λ j lj.
            rw
              (
                sibling_same,
                ap (λ p. p.children) (z.frame.entries j) ∙ ap (λ p. p.children) (y.entries j),
              )
              (x.families j lj);
        families_distinct = x.families_distinct;
        families_fit = λ j lj.
            All-map (IsChildOf s j) (IsChildOf t j)
              (λ k c. record {
                below = c.below;
                used = free_same k ∙ c.used;
                parent =
                    ap (λ p. p.parent) (z.frame.entries k)
                    ∙ ap (λ p. p.parent) (y.entries k)
                    ∙ c.parent;
              })
              (fs j) (x.families_fit j lj);
        childless = childless_after;
        ended = ended_after;
        priorities = λ j lj h.
            let f = x.priorities j lj (sym (free_same j) ∙ h) in
            record { above = rw (priority_same j) f.above; below = rw (priority_same j) f.below };
      }
