-- ===== src/Usermode/Tests.antt =====
-- The entry points at concrete inputs.
use elissa_x_priscilla_colla.Base.{pos}
use elissa_x_priscilla_colla.Kernel.{SyscallNumbers}
use elissa_x_priscilla_colla.Phase2.Samples.{ready-AllReleased}
use elissa_x_priscilla_colla.Phase3.Samples.{
  ready_sems, ready_sems-Consistent, ready_sems-UnusedIdle,
}
use elissa_x_priscilla_colla.Phase3.Counting.{Consistent}
use elissa_x_priscilla_colla.Phase3.Semaphores.{sys_semcreate}
use elissa_x_priscilla_colla.Usermode.Phase3Calls.{sem_create}
use elissa_x_priscilla_colla.Usermode.Creation.{FinishesForUser, HasCreated, sem_create-HasCreated}

abbrev numbers : SyscallNumbers
numbers = record {
  spawn = 3;
  wait = 4;
  terminate = 5;
  sem_create = 16;
  sem_p = 17;
  sem_v = 18;
  sem_free = 19;
  get_time_of_day = 20;
  get_pid = 22;
  dump_processes = 24;
  sleep = 12;
  term_read = 1;
  term_write = 2;
  disk_read = 7;
  disk_write = 8;
  disk_size = 9;
}

sem_create-HasCreated_example :
    FinishesForUser
      (λ r u. Consistent u × HasCreated ready_sems (pos 5) r u)
      ready_sems
      (sem_create numbers sys_semcreate (pos 5) ready_sems)
sem_create-HasCreated_example =
    sem_create-HasCreated numbers ready_sems ready_sems-Consistent ready-AllReleased
      ready_sems-UnusedIdle (pos 5)
