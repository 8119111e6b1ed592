-- ===== src/Phase1b/Table.antt =====
-- When the process table and the ready queues of phase1b-archive/phase1b.c are in order.
pub mod Kept
pub mod Same
pub mod Dispatching
pub mod Splicing
pub mod Adding
pub mod Queueing
pub mod Entering
pub mod Making
pub mod Sporking
pub mod Ending
pub mod Quitting
pub mod Reaping
pub mod Joining
pub mod Starting
pub mod Blocking
pub mod Unblocking
pub mod Tests
use elissa_x_priscilla_colla.Base.{
  ℕ, suc, ◌≤◌, ◌<◌, ◌≡◌, ◌≢◌, sym, ◌∙◌, Bool, true, false, some, List, [], length, minus_one, subst,
  Bool-cases, inl, inr,
}
use mathlib.Core.Bool.{true≢false}
use elissa_x_priscilla_colla.Base.Int.{eq_ℤ}
use elissa_x_priscilla_colla.Phase1b.State.{
  State, Process, proc, max_proc, Request, context_switch, process_wrapper, start, start_services,
}
use elissa_x_priscilla_colla.Phase1b.Chain.{IsQueue, Distinct, All, All-map, Absent}
use elissa_x_priscilla_colla.Phase1b.Members.{length-Distinct}
use elissa_x_priscilla_colla.Phase1b.Reaping.{has_quit}
use elissa_x_priscilla_colla.Phase1b.Family.{IsFamily}

-- Whether an entry is unused.
abbrev pub is_free : State → ℕ → Bool
is_free s i = eq_ℤ (proc s i).pid minus_one

-- What a member of ready queue `q` is: a process that has not quit, of the queue's priority.
pub record IsReady (s : State) (q x : ℕ) : Type 0 where
  pub below : x < max_proc
  pub lives : has_quit s x ≡ false
  pub priority : (proc s x).priority ≡ suc q

-- What a member of the list of children of `i` is.
pub record IsChildOf (s : State) (i x : ℕ) : Type 0 where
  pub below : x < max_proc
  pub used : is_free s x ≡ false
  pub parent : (proc s x).parent ≡ some i

pub record HasPriority (p : Process) : Type 0 where
  pub above : 0 < p.priority
  pub below : p.priority < 7

-- Ready queue `q` is the list `qs q`, and the children of process `i` are the list `fs i`.
pub record IsTable (qs fs : ℕ → List ℕ) (s : State) : Type 0 where
  pub queues : (q : ℕ) → q < 6 → IsQueue s q (qs q)
  pub queues_distinct : (q : ℕ) → q < 6 → Distinct (qs q)
  pub queues_ready : (q : ℕ) → q < 6 → All (IsReady s q) (qs q)
  pub families : (i : ℕ) → i < max_proc → IsFamily i (fs i) s
  pub families_distinct : (i : ℕ) → i < max_proc → Distinct (fs i)
  pub families_fit : (i : ℕ) → i < max_proc → All (IsChildOf s i) (fs i)
  pub childless : (i : ℕ) → i < max_proc → has_quit s i ≡ true → fs i ≡ []
  pub ended : (i : ℕ) → i < max_proc → is_free s i ≡ true → has_quit s i ≡ true
  pub priorities : (i : ℕ) → i < max_proc → is_free s i ≡ false → HasPriority (proc s i)

abbrev pub IsOrdered : State → Type 0
IsOrdered s = (qs : ℕ → List ℕ) × (fs : ℕ → List ℕ) × IsTable qs fs s

-- The process that runs, if one does, has not quit.
abbrev pub RunsAlive : State → Type 0
RunsAlive s = (r : ℕ) → s.running_process ≡ some r → (r < max_proc) × (has_quit s r ≡ false)

abbrev pub IsValid : State → Type 0
IsValid s = IsOrdered s × RunsAlive s

-- A process goes on only when it is the one that runs again.
abbrev pub Rely : Request → State → State → Type 0
Rely (context_switch old next) s t = t.running_process ≡ some old
Rely process_wrapper s t = Unit
Rely (start f a) s t = Unit
Rely start_services s t = Unit

module _ {qs fs : ℕ → List ℕ} {s : State} (x : IsTable qs fs s) where
  pub queue_few : (q : ℕ) → q < 6 → length (qs q) ≤ max_proc
  queue_few q l =
      length-Distinct max_proc (qs q) (x.queues_distinct q l)
        (All-map (IsReady s q) (λ y. y < max_proc) (λ y r. r.below) (qs q) (x.queues_ready q l))

  pub family_few : (i : ℕ) → i < max_proc → length (fs i) ≤ max_proc
  family_few i l =
      length-Distinct max_proc (fs i) (x.families_distinct i l)
        (All-map (IsChildOf s i) (λ y. y < max_proc) (λ y c. c.below) (fs i) (x.families_fit i l))

  -- A process that has not quit is not unused.
  pub lives_used : (i : ℕ) → i < max_proc → has_quit s i ≡ false → is_free s i ≡ false
  lives_used i l h = elim (Bool-cases (is_free s i)) [
    | inl e ↦ absurd (true≢false (sym (x.ended i l e) ∙ h))
    | inr e ↦ e
  ]

  -- A process that has quit is in no ready queue.
  pub Absent-quit : (q p : ℕ) → q < 6 → has_quit s p ≡ true → Absent p (qs q)
  Absent-quit q p l h =
      All-map (IsReady s q) (λ y. y ≢ p)
        (λ y r e. true≢false (sym h ∙ subst (λ z. has_quit s z ≡ false) e r.lives)) (qs q)
        (x.queues_ready q l)

  -- A process is in no queue but that of its priority.
  pub Absent-priority : (q p : ℕ) → q < 6 → (proc s p).priority ≢ suc q → Absent p (qs q)
  Absent-priority q p l h =
      All-map (IsReady s q) (λ y. y ≢ p)
        (λ y r e. h (subst (λ z. (proc s z).priority ≡ suc q) e r.priority)) (qs q)
        (x.queues_ready q l)

  -- A process is among the children of its parent only.
  pub Absent-parent : (i p : ℕ) → i < max_proc → (proc s p).parent ≢ some i → Absent p (fs i)
  Absent-parent i p l h =
      All-map (IsChildOf s i) (λ y. y ≢ p)
        (λ y c e. h (subst (λ z. (proc s z).parent ≡ some i) e c.parent)) (fs i)
        (x.families_fit i l)

  -- An unused entry is no child.
  pub Absent-free : (i p : ℕ) → i < max_proc → is_free s p ≡ true → Absent p (fs i)
  Absent-free i p l h =
      All-map (IsChildOf s i) (λ y. y ≢ p)
        (λ y c e. true≢false (sym h ∙ subst (λ z. is_free s z ≡ false) e c.used)) (fs i)
        (x.families_fit i l)
