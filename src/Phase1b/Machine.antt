-- ===== src/Phase1b/Machine.antt =====
-- All interleavings of processes on the kernel of phase1b-archive/phase1b.c: what runs, and where each
-- of the others goes on when it is switched to.
mod Tests
use elissa_x_priscilla_colla.Base.{ℕ, ◌≡◌, ap, subst, ◌∙◌, ℤ, Option, none, some, put, put-cases}
use mathlib.Core.Option.{some-injective, none-ne-some}
use elissa_x_priscilla_colla.Base.Run.{done, halt, fault, unfinished, ask, call}
use elissa_x_priscilla_colla.Base.Quiet.{Safe-mono}
use elissa_x_priscilla_colla.Base.Holds.{Safe-Holds}
use elissa_x_priscilla_colla.Phase1b.State.{State, Query, context_switch, process_wrapper}
use elissa_x_priscilla_colla.Phase1b.Scheduler.{dispatcher}
use elissa_x_priscilla_colla.Phase1b.Table.{IsOrdered, IsValid, Rely}
use elissa_x_priscilla_colla.Phase1b.Table.Dispatching.{Resumes, dispatcher-IsSafe}
use elissa_x_priscilla_colla.Phase1b.Untargeted.{Untargeted, Announces, dispatcher-Keeps}
use elissa_x_priscilla_colla.Phase1b.Programs.{
  Program, Task, perform, patient, IsGood, IsTask, perform-IsTask,
}

-- Where process `n` goes on, if it has been switched from.
abbrev pub Contexts : Type 0
Contexts = ℕ → Option (ℤ → State → Task)

-- One step of the machine. A question is answered in any way. At a switch, the process switched from
-- is kept, and the one switched to goes on, or begins, as entry `n` may hold a new process. `body n` is
-- what a process in entry `n` does.
pub data Step (body : ℕ → Program) : Contexts → Task → Contexts → Task → Type 0 where
  answer :
      (contexts : Contexts) (q : Query) (k : ℤ → Task) (z : ℤ)
      → Step body contexts (ask q k) contexts (k z)
  resume :
      (contexts : Contexts) (old n : ℕ) (t : State) (k k' : ℤ → State → Task) (z : ℤ)
      → contexts n ≡ some k'
      → Step body contexts (call (context_switch old n) t k) (put contexts old (some k)) (k' z t)
  begin :
      (contexts : Contexts) (old n : ℕ) (t : State) (k : ℤ → State → Task)
      → Step body contexts
          (call (context_switch old n) t k)
          (put contexts old (some k))
          (perform (body n) t)
  first :
      (contexts : Contexts) (n : ℕ) (t : State) (k : ℤ → State → Task)
      → t.running_process ≡ some n
      → Step body contexts (call process_wrapper t k) contexts (perform (body n) t)

pub data Reach (body : ℕ → Program) (contexts : Contexts) (m : Task)
    : Contexts → Task → Type 0 where
  here : Reach body contexts m contexts m
  next :
      {c c' : Contexts} {m' m'' : Task}
      → Reach body contexts m c m'
      → Step body c m' c' m''
      → Reach body contexts m c' m''

-- What is running has not gone wrong, and the table is in order where it stops or switches.
abbrev pub InOrder : Task → Type 0
InOrder (done a s) = IsValid s
InOrder (halt c s) = Unit
InOrder fault = ⊥
InOrder (unfinished s) = IsValid s
InOrder (ask q k) = Unit
InOrder (call c s k) = IsValid s

-- Each process that is kept goes on well from any good state in which it is said to run.
abbrev IsKept : Contexts → Type 0
IsKept contexts =
    (n : ℕ) (k : ℤ → State → Task) (z : ℤ) (t : State)
    → contexts n ≡ some k
    → IsGood t
    → t.running_process ≡ some n
    → IsTask (k z t)

put-IsKept :
    (contexts : Contexts) (old : ℕ) (k : ℤ → State → Task)
    → IsKept contexts
    → ((z : ℤ) (t : State) → IsGood t → t.running_process ≡ some old → IsTask (k z t))
    → IsKept (put contexts old (some k))
put-IsKept contexts old k kept goes_on n k' z t =
    put-cases (λ o. o ≡ some k' → IsGood t → t.running_process ≡ some n → IsTask (k' z t)) contexts
      old (some k) n
      (λ e same g runs.
        subst (λ f. IsTask (f z t)) (some-injective k k' same) (goes_on z t g (runs ∙ ap some e)))
      (λ _ same g runs. kept n k' z t same g runs)

Step-IsTask :
    {body : ℕ → Program} {c c' : Contexts} {m m' : Task}
    → Step body c m c' m'
    → IsKept c × IsTask m
    → IsKept c' × IsTask m'
Step-IsTask (answer contexts q k z) (kept, (safe, keeps)) = (kept, (safe z, keeps z))
Step-IsTask (resume contexts old n t k k' z e) (kept, (safe, keeps)) = (
  put-IsKept contexts old k kept (λ z' u g runs. (safe.1 z' u g runs, keeps.2 z' u g.1)),
  kept n k' z t e safe.0 keeps.1,
)
Step-IsTask {body} (begin contexts old n t k) (kept, (safe, keeps)) = (
  put-IsKept contexts old k kept (λ z' u g runs. (safe.1 z' u g runs, keeps.2 z' u g.1)),
  perform-IsTask (body n) n t safe.0 keeps.1,
)
Step-IsTask {body} (first contexts n t k runs) (kept, (safe, keeps)) =
    (kept, perform-IsTask (body n) n t safe.0 runs)

Reach-IsTask :
    {body : ℕ → Program} {c : Contexts} {m : Task} {c' : Contexts} {m' : Task}
    → IsKept c × IsTask m
    → Reach body c m c' m'
    → IsKept c' × IsTask m'
Reach-IsTask h here = h
Reach-IsTask h (next r step) = Step-IsTask step (Reach-IsTask h r)

IsTask-InOrder : (m : Task) → IsTask m → InOrder m
IsTask-InOrder (done a s) h = h.0.0
IsTask-InOrder (halt c s) h = tt
IsTask-InOrder fault h = h.0
IsTask-InOrder (unfinished s) h = h.0.0
IsTask-InOrder (ask q k) h = tt
IsTask-InOrder (call c s k) h = h.0.0.0

dispatcher-IsTask : (s : State) → IsOrdered s → Untargeted s → IsTask (dispatcher s)
dispatcher-IsTask s o n = (
  Safe-mono IsGood Rely IsGood _ (λ _ u. IsGood u) (dispatcher s) (λ _ t h. (h.0.0, h.1))
      (Safe-Holds Untargeted Announces IsValid Rely IsValid (λ _ t. IsValid t × Resumes s t)
        (dispatcher s) (patient _ (dispatcher s) (dispatcher-IsSafe s o)) (dispatcher-Keeps s n)),
  dispatcher-Keeps s n,
)

abbrev pub no_contexts : Contexts
no_contexts n = none

-- From a table in order in which nobody waits for another process to end, whatever the processes do
-- with `spork`, `join`, `blockMe` and `quit`, and in whatever way USLOSS answers and switches, no
-- pointer is ever wild, and the table is in order at every switch, at the end, and where `join` has been
-- woken more often than its fuel allows.
pub dispatcher-InOrder :
    (body : ℕ → Program) (s : State) (c : Contexts) (m : Task)
    → IsOrdered s
    → Untargeted s
    → Reach body no_contexts (dispatcher s) c m
    → InOrder m
dispatcher-InOrder body s c m o n r =
    IsTask-InOrder m
      ((Reach-IsTask ((λ k f z t e. absurd (none-ne-some f e)), dispatcher-IsTask s o n) r).1)
