-- ===== src/Phase3/Tests.antt =====
-- The theorems on phase3/phase3.c at a concrete state.
use elissa_x_priscilla_colla.Base.{false, pos}
use elissa_x_priscilla_colla.Base.Run.{Finishes}
use elissa_x_priscilla_colla.Phase3.Semaphores.{sys_semcreate}
use elissa_x_priscilla_colla.Phase3.Counting.{Consistent}
use elissa_x_priscilla_colla.Phase2.Samples.{ready-IsBooted, ready-AllReleased}
use elissa_x_priscilla_colla.Phase3.Boot.{IsStarted, phase3_init-IsStarted}
use elissa_x_priscilla_colla.Phase3.State.{State, phase3_init}
use elissa_x_priscilla_colla.Phase3.Creation.{Created, sys_semcreate-Created}
use elissa_x_priscilla_colla.Phase3.Samples.{
  contended, ready_sems, ready_sems-Consistent, ready_sems-UnusedIdle, on_three,
}

sys_semcreate-Created_example :
    Finishes
      (λ r u. Consistent u × Created ready_sems on_three r u)
      (sys_semcreate on_three ready_sems)
sys_semcreate-Created_example =
    sys_semcreate-Created ready_sems ready_sems-Consistent ready-AllReleased ready_sems-UnusedIdle
      on_three

abbrev at_start : State
at_start = record ready_sems { sems = λ _. record contended { in_use = false; blocked = pos 0 } }

phase3_init-IsStarted_example : Finishes (λ _ u. IsStarted at_start u) (phase3_init at_start)
phase3_init-IsStarted_example = phase3_init-IsStarted at_start ready-IsBooted ready-AllReleased
