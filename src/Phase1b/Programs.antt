-- ===== src/Phase1b/Programs.antt =====
-- Processes over the kernel calls of phase1b-archive/phase1b.c, and what every one of them keeps.
use elissa_x_priscilla_colla.Base.{ℕ, ◌≡◌, ap, ◌∙◌, ℤ, Option, some, false, inl, inr}
use elissa_x_priscilla_colla.Base.Run.{and_then, Safe, Safe-and_then, Safe-rely}
use elissa_x_priscilla_colla.Base.Quiet.{Safe-mono}
use elissa_x_priscilla_colla.Base.Holds.{Holds-and_then, Safe-Holds}
use elissa_x_priscilla_colla.Phase1b.State.{State, Cmd}
use elissa_x_priscilla_colla.Phase1b.Scheduler.{block_me, quit}
use elissa_x_priscilla_colla.Phase1b.Spork.{spork}
use elissa_x_priscilla_colla.Phase1b.Join.{join}
use elissa_x_priscilla_colla.Phase1b.Table.{IsValid, Rely}
use elissa_x_priscilla_colla.Phase1b.Table.Making.{Wish}
use elissa_x_priscilla_colla.Phase1b.Table.Sporking.{Answered, spork-IsSafe}
use elissa_x_priscilla_colla.Phase1b.Table.Quitting.{quit-IsSafe}
use elissa_x_priscilla_colla.Phase1b.Table.Joining.{Joined, join-IsPatient}
use elissa_x_priscilla_colla.Phase1b.Table.Blocking.{block_me-IsSafe}
use elissa_x_priscilla_colla.Phase1b.Untargeted.{Untargeted, Announces, Keeps}
use elissa_x_priscilla_colla.Phase1b.Keeping.{spork-Keeps}
use elissa_x_priscilla_colla.Phase1b.Keeping.Ends.{
  quit-Keeps, block_me-Keeps, join-Keeps, Untargeted-NoZapper,
}

-- What a process does: it makes children, waits for them, blocks, and ends, as it likes, and may go by
-- what the calls return. It neither zaps nor unblocks.
pub data Program : Type 0 where
  finish : ℤ → Program
  make : Wish → (size prio : ℤ) → (ℤ → Program) → Program
  wait : ℕ → (ℤ × Option ℤ → Program) → Program
  block : Program → Program

abbrev pub Task : Type 0
Task = Cmd (Unit {0})

-- The kernel calls of a process; that of `join` has a bound on the times it is woken.
abbrev pub perform : Program → State → Task
perform (finish code) s = quit code s
perform (make w size prio next) s =
    and_then (spork w.name w.start_func w.arg size prio s) λ r t. perform (next r) t
perform (wait fuel next) s = and_then (join fuel false s) λ r t. perform (next r) t
perform (block next) s = and_then (block_me s) λ _ t. perform next t

-- The table is in order and nobody waits for another process to end.
abbrev pub IsGood : State → Type 0
IsGood s = IsValid s × Untargeted s

abbrev pub IsTask : Task → Type 0
IsTask m = Safe IsGood Rely IsGood (λ _ s. IsGood s) m × Keeps m

-- A call followed by the rest of the process `r`.
module _ {A : Type 0} (r : ℕ) (P : A → State → Type 0)
    (resumes : (a : A) (t : State) → P a t → t.running_process ≡ some r) where
  followed :
      (m : Cmd A) (f : A → State → Task)
      → Safe IsValid Rely IsValid (λ a t. IsValid t × P a t) m
      → Keeps m
      → ((a : A) (t : State)
          → IsGood t
          → t.running_process ≡ some r
          → Safe IsGood Rely IsGood (λ _ u. IsGood u) (f a t))
      → Safe IsGood Rely IsGood (λ _ u. IsGood u) (and_then m f)
  followed m f safe keeps next =
      Safe-and_then IsGood Rely IsGood (λ a t. (IsValid t × P a t) × Untargeted t) _ m f
        (Safe-Holds Untargeted Announces IsValid Rely IsValid (λ a t. IsValid t × P a t) m safe
          keeps)
        (λ a t h. next a t (h.0.0, h.1) (resumes a t (h.0.1)))

-- What is safe without running out of fuel is so with any fuel.
pub patient :
    {A : Type 0} (P : A → State → Type 0) (m : Cmd A)
    → Safe IsValid Rely (λ _. ⊥) P m
    → Safe IsValid Rely IsValid P m
patient P m h =
    Safe-rely IsValid Rely Rely (λ _. ⊥) IsValid P (λ c a b r. r) (λ _ no. absurd no) m h

perform-Keeps : (p : Program) (s : State) → Untargeted s → Keeps (perform p s)
perform-Keeps (finish code) s n = quit-Keeps code s n
perform-Keeps (make w size prio next) s n =
    Holds-and_then Untargeted Announces (spork w.name w.start_func w.arg size prio s) _
      (spork-Keeps w size prio s n) (λ r t m. perform-Keeps (next r) t m)
perform-Keeps (wait fuel next) s n =
    Holds-and_then Untargeted Announces (join fuel false s) _ (join-Keeps fuel s n)
      (λ r t m. perform-Keeps (next r) t m)
perform-Keeps (block next) s n =
    Holds-and_then Untargeted Announces (block_me s) _ (block_me-Keeps s n)
      (λ _ t m. perform-Keeps next t m)

perform-Safe :
    (p : Program) (r : ℕ) (s : State)
    → IsGood s
    → s.running_process ≡ some r
    → Safe IsGood Rely IsGood (λ _ u. IsGood u) (perform p s)
perform-Safe (finish code) r s (((qs, fs, x), alive), n) runs =
    Safe-mono IsGood Rely IsGood _ (λ _ u. IsGood u) (quit code s) (λ _ t h. (h.0.0, h.1))
      (Safe-Holds Untargeted Announces IsValid Rely IsValid (λ _ t. IsValid t × Unit) (quit code s)
        (patient _ (quit code s) (quit-IsSafe x alive r runs (Untargeted-NoZapper r s n) code))
        (quit-Keeps code s n))
perform-Safe (make w size prio next) r s (((qs, fs, x), alive), n) runs =
    followed r (Answered s size prio) Answered-runs (spork w.name w.start_func w.arg size prio s) _
      (patient (λ z t. IsValid t × Answered s size prio z t)
        (spork w.name w.start_func w.arg size prio s) (spork-IsSafe x alive w size prio))
      (spork-Keeps w size prio s n) (λ z t g e. perform-Safe (next z) r t g e)
  where
    Answered-runs : (z : ℤ) (t : State) → Answered s size prio z t → t.running_process ≡ some r
    Answered-runs z t (inl same) = ap (λ u. u.running_process) same.1 ∙ runs
    Answered-runs z t (inr h) = h.3 r runs
perform-Safe (wait fuel next) r s (((qs, fs, x), alive), n) runs =
    followed r (Joined fs s r) Joined-runs (join fuel false s) _
      (join-IsPatient x alive r runs fuel) (join-Keeps fuel s n)
      (λ z t g e. perform-Safe (next z) r t g e)
  where
    Joined-runs : (z : ℤ × Option ℤ) (t : State) → Joined fs s r z t → t.running_process ≡ some r
    Joined-runs z t (inl same) = ap (λ u. u.running_process) same.2 ∙ runs
    Joined-runs z t (inr h) = h.1
perform-Safe (block next) r s (((qs, fs, x), alive), n) runs =
    followed r (λ _ t. t.running_process ≡ some r) (λ _ t e. e) (block_me s) _
      (patient (λ _ t. IsValid t × (t.running_process ≡ some r)) (block_me s)
        (block_me-IsSafe x alive r runs))
      (block_me-Keeps s n) (λ _ t g e. perform-Safe next r t g e)

pub perform-IsTask :
    (p : Program) (r : ℕ) (s : State) → IsGood s → s.running_process ≡ some r → IsTask (perform p s)
perform-IsTask p r s g runs = (perform-Safe p r s g runs, perform-Keeps p s g.1)
