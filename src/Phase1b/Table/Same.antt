-- ===== src/Phase1b/Table/Same.antt =====
-- Changes of phase1b-archive/phase1b.c that keep the lists and end no process: who runs, who is
-- blocked, and for whom.
use elissa_x_priscilla_colla.Base.{
  ℕ, ◌≡◌, refl, sym, ap, ◌∙◌, fun_ext, Option, List, put-cases, minus_one,
}
use elissa_x_priscilla_colla.Base.Int.{eq_ℤ}
use elissa_x_priscilla_colla.Phase1b.State.{State, Process, proc, set_proc}
use elissa_x_priscilla_colla.Phase1b.Chain.{next_of}
use elissa_x_priscilla_colla.Phase1b.Reaping.{has_quit, sibling_of}
use elissa_x_priscilla_colla.Phase1b.Table.Kept.{
  IsKept, All-IsReady-kept, All-IsChildOf-kept, ended-kept, priorities-kept,
}
use elissa_x_priscilla_colla.Phase1b.Table.{IsTable}

pub record IsSame (s t : State) : Type 0 where
  pub entries :
      (k : ℕ)
      → proc t k ≡ record (proc s k) {
        status = (proc t k).status;
        exit_status = (proc t k).exit_status;
        zap_target = (proc t k).zap_target;
      }
  pub lives : (k : ℕ) → has_quit t k ≡ has_quit s k
  pub queues : t.ready_queues ≡ s.ready_queues

module _ {s t : State} (x : IsSame s t) where
  kept : IsKept s t
  kept = record {
    lives = x.lives;
    free = λ k. ap (λ p. eq_ℤ p.pid minus_one) (x.entries k);
    priority = λ k. ap (λ p. p.priority) (x.entries k);
    parent = λ k. ap (λ p. p.parent) (x.entries k);
  }

  pub IsTable-same : (qs fs : ℕ → List ℕ) → IsTable qs fs s → IsTable qs fs t
  IsTable-same qs fs y = record {
    queues = λ q l.
        let next_same : next_of t ≡ next_of s = fun_ext (λ k. ap (λ p. p.next) (x.entries k)) in
        rw (next_same, x.queues) (y.queues q l);
    queues_distinct = y.queues_distinct;
    queues_ready = λ q l. All-IsReady-kept kept q (qs q) (y.queues_ready q l);
    families = λ i l.
        let sibling_same : sibling_of t ≡ sibling_of s =
          fun_ext (λ k. ap (λ p. p.sibling) (x.entries k)) in
        rw (sibling_same, ap (λ p. p.children) (x.entries i)) (y.families i l);
    families_distinct = y.families_distinct;
    families_fit = λ i l. All-IsChildOf-kept kept i (fs i) (y.families_fit i l);
    childless = λ i l h. y.childless i l (sym (x.lives i) ∙ h);
    ended = λ i l. ended-kept kept i (y.ended i l);
    priorities = λ i l. priorities-kept kept i (y.priorities i l);
  }

pub runs-IsSame : (s : State) (r : Option ℕ) → IsSame s (record s { running_process = r })
runs-IsSame s r = record { entries = λ k. refl; lives = λ k. refl; queues = refl }

-- A process that has not quit gets another status, or waits for another process.
pub status-IsSame :
    (s : State) (i : ℕ) (p : Process)
    → p ≡ record (proc s i) {
      status = p.status;
      exit_status = p.exit_status;
      zap_target = p.zap_target;
    }
    → eq_ℤ p.status minus_one ≡ has_quit s i
    → IsSame s (set_proc s i p)
status-IsSame s i p e h = record {
  entries = λ k.
      put-cases
        (λ p'. p' ≡ record (proc s k) {
          status = p'.status;
          exit_status = p'.exit_status;
          zap_target = p'.zap_target;
        })
        s.process_table i p k
        (λ same.
          e
          ∙ ap {A = ℕ} {B = Process}
              (λ j. record (proc s j) {
                status = p.status;
                exit_status = p.exit_status;
                zap_target = p.zap_target;
              })
              (sym same))
        (λ _. refl);
  lives = λ k.
      put-cases (λ p'. eq_ℤ p'.status minus_one ≡ has_quit s k) s.process_table i p k
        (λ same. h ∙ ap (has_quit s) (sym same)) (λ _. refl);
  queues = refl;
}
