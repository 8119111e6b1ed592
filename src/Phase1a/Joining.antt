-- ===== src/Phase1a/Joining.antt =====
-- `join` of phase1a-archive/phase1a.c: which child it reports, and what it leaves.
use elissa_x_priscilla_colla.Base.{
  ℕ, ◌≤◌, ◌≡◌, ◌≢◌, ◌⊎◌, refl, sym, ap, subst, ◌∙◌, ℤ, pos, minus_one, minus_two, Option, none,
  some, List, true, false, inl, inr, length, put_self, put_ne, suc,
}
use elissa_x_priscilla_colla.Base.Run.{Finishes, Finishes-and_then, and_then}
use elissa_x_priscilla_colla.Phase1b.Chain.{IsChain-same, All, Absent, Distinct, without}
use elissa_x_priscilla_colla.Phase1b.State.{max_proc}
use elissa_x_priscilla_colla.Phase1a.State.{State, Process, Cmd, proc, set_proc, deref}
use elissa_x_priscilla_colla.Phase1a.Processes.{has_quit, choose, unlink_child, report_choice, join}
use elissa_x_priscilla_colla.Phase1a.Latest.{next_of, order, IsBest, IsChild, choose-IsBest}
use elissa_x_priscilla_colla.Phase1a.Links.{core, children_of, IsFamily, unseen}
use elissa_x_priscilla_colla.Phase1a.Unlinking.{IsCut, unlink_child-IsCut}

-- Child `c` of process `parent` has been reported and its entry given back.
pub record IsReported (s : State) (parent : ℕ) (cs : List ℕ) (c : ℕ) (u : State) : Type 0 where
  pub child : ¬ Absent c cs
  pub quit : has_quit s c ≡ true
  pub latest : All (λ d. has_quit s d ≡ true → order s d ≤ order s c) cs
  pub family : IsFamily parent (without c cs) u
  pub free : core (proc u c) ≡ core (record (proc s c) { pid = minus_one; status = pos 0 })
  pub others : (k : ℕ) → k ≢ c → core (proc u k) ≡ core (proc s k)
  pub running : u.running_process ≡ s.running_process

-- What `join` gives back, and the state that it leaves.
abbrev pub Joined : State → ℕ → List ℕ → ℤ × Option ℤ → State → Type 0
Joined s parent cs r u =
    ((r ≡ (minus_two, none)) × (u ≡ s) × All (λ c. has_quit s c ≡ false) cs)
    ⊎ ((c : ℕ) × (r ≡ ((proc s c).pid, some (proc s c).exit_status)) × IsReported s parent cs c u)

abbrev freed : ℕ → State → State
freed c t = set_proc t c (record (proc t c) { pid = minus_one; status = pos 0 })

freed-IsReported :
    (s : State) (parent c : ℕ) (cs : List ℕ) (t : State)
    → All (IsBest s (some c)) cs
    → IsChild s cs (some c)
    → IsCut s c parent cs t
    → IsReported s parent cs c (freed c t)
freed-IsReported s parent c cs t best child cut = record {
  child = child.1;
  quit = child.0;
  latest = best;
  family =
      rw
        (unseen (λ p. p.children) t c (record (proc t c) { pid = minus_one; status = pos 0 }) parent
          refl)
        (IsChain-same (next_of t) (next_of (freed c t))
          (λ k.
            unseen (λ p. p.next) t c (record (proc t c) { pid = minus_one; status = pos 0 }) k refl)
          (without c cs) (children_of t parent) cut.family);
  free =
      ap core (put_self t.process_table c _)
      ∙ ap {A = Process} {B = Process} (λ p. record p { pid = minus_one; status = pos 0 })
          (cut.frame.cores c);
  others = λ k ne. ap core (put_ne t.process_table c _ k ne) ∙ cut.frame.cores k;
  running = cut.frame.running;
}

-- The choice of `choose`, and what is done with it.
report_choice-Joined :
    (s : State) (parent : ℕ) (cs : List ℕ)
    → IsFamily parent cs s
    → Distinct cs
    → length cs ≤ max_proc
    → (r : Option ℕ) → All (IsBest s r) cs
    → IsChild s cs r
    → Finishes (Joined s parent cs) (report_choice parent r s)
unfolding report_choice
report_choice-Joined s parent cs family distinct few none best child = inl (refl, refl, best)
report_choice-Joined s parent cs family distinct few (some c) best child =
    Finishes-and_then (λ _ t. IsCut s c parent cs t) (Joined s parent cs) (unlink_child parent c s)
      _ (unlink_child-IsCut s c parent cs family distinct (child.1) few)
      (λ _ t cut. inr (c, refl, freed-IsReported s parent c cs t best child cut))

abbrev join_of : ℕ → State → Cmd (ℤ × Option ℤ)
join_of q s =
    and_then (choose (suc max_proc) (proc s q).children minus_one none s)
      (λ target t. report_choice q target t)

join_of-Joined :
    (s : State) (parent : ℕ) (cs : List ℕ)
    → IsFamily parent cs s
    → Distinct cs
    → length cs ≤ max_proc
    → Finishes (Joined s parent cs) (join_of parent s)
join_of-Joined s parent cs family distinct few =
    Finishes-and_then (λ r t. (t ≡ s) × All (IsBest s r) cs × IsChild s cs r) (Joined s parent cs)
      (choose (suc max_proc) (proc s parent).children minus_one none s) _
      (choose-IsBest s (proc s parent).children cs family few)
      (λ r t h.
        subst (λ v. Finishes (Joined s parent cs) (report_choice parent r v)) (sym (h.0))
          (report_choice-Joined s parent cs family distinct few r (h.1) (h.2)))

-- If the children of the running process are the list `cs` of at most 50 different entries, `join`
-- returns. If none of them has quit, it returns -2 and changes nothing. If some have, it returns the PID
-- and the exit status of one of them, none of which quit later; the children are then the others, in their
-- order, the entry of the one reported is not in use any more, and the other entries are as they were
-- but for the pointers to siblings and children.
pub join-Joined :
    (s : State) (parent : ℕ) (cs : List ℕ)
    → s.running_process ≡ some parent
    → IsFamily parent cs s
    → Distinct cs
    → length cs ≤ max_proc
    → Finishes (Joined s parent cs) (join false s)
unfolding join
join-Joined s parent cs running family distinct few =
    subst (λ r. Finishes (Joined s parent cs) (deref r λ q. join_of q s)) (sym running)
      (join_of-Joined s parent cs family distinct few)
