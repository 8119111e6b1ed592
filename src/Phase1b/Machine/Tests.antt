-- ===== src/Phase1b/Machine/Tests.antt =====
-- The theorem on all interleavings at a concrete one: the first process begins.
use elissa_x_priscilla_colla.Base.{ℕ, refl, pos, none, arith}
use elissa_x_priscilla_colla.Phase1b.State.{State}
use elissa_x_priscilla_colla.Phase1b.Scheduler.{pick, switch_to, dispatcher, quit}
use elissa_x_priscilla_colla.Phase1b.Table.Same.{runs-IsSame, IsTable-same}
use elissa_x_priscilla_colla.Phase1b.Table.Tests.{family, queues, children, family-IsTable}
use elissa_x_priscilla_colla.Phase1b.Programs.{Program, finish}
use elissa_x_priscilla_colla.Phase1b.Machine.{
  Reach, here, next, first, no_contexts, InOrder, dispatcher-InOrder,
}

-- Nobody runs yet, and process 3 is the most urgent one.
abbrev ready : State
ready = record family { running_process = none }

-- Every process ends at once.
abbrev body : ℕ → Program
body n = finish (pos 0)

begun : Reach body no_contexts (dispatcher ready) no_contexts (quit (pos 0) family)
unfolding dispatcher switch_to pick
begun = next here (first no_contexts 3 family _ refl)

dispatcher-InOrder_example : InOrder (quit (pos 0) family)
dispatcher-InOrder_example =
    dispatcher-InOrder body ready no_contexts (quit (pos 0) family)
      (queues, children, IsTable-same (runs-IsSame family none) queues children family-IsTable)
      (λ i. ground arith) begun
