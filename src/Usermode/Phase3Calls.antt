-- ===== src/Usermode/Phase3Calls.antt =====
-- phase3/phase3_usermode.c. `syscall` is `USLOSS_Syscall`, which changes its argument.
use elissa_x_priscilla_colla.Base.{ℕ, ℤ, pos, if◌then◌else◌}
use elissa_x_priscilla_colla.Base.Int.{eq_ℤ}
use elissa_x_priscilla_colla.Base.Run.{done, halt, fault, ask, and_then}
use elissa_x_priscilla_colla.Kernel.{Cmd, psr_is_user, SyscallNumbers}
use elissa_x_priscilla_colla.Phase3.State.{Sysargs}
use elissa_x_priscilla_colla.Usermode.{to_int}

-- `memset(&args, 0, sizeof(args)); args.number = number;`
abbrev pub request : ℕ → Sysargs
request number = record {
  number = pos number;
  arg1 = pos 0;
  arg2 = pos 0;
  arg3 = pos 0;
  arg4 = pos 0;
  arg5 = pos 0;
}

module _ {S : Type 0} (n : SyscallNumbers) (syscall : Sysargs → S → Cmd S Sysargs) where
  unfoldable pub require_user_mode : {A : Type 0} → (S → Cmd S A) → S → Cmd S A
  require_user_mode k s = ask psr_is_user λ user. if eq_ℤ user (pos 0) then halt 1 s else k s

  -- A call with these arguments from user mode, and what is made of the arguments after it.
  unfoldable pub user_call : {A : Type 0} → Sysargs → (Sysargs → A) → S → Cmd S A
  user_call args result = require_user_mode λ s. and_then (syscall args s) λ r t. done (result r) t

  -- The value returned, and what `*pid` is given.
  unfoldable pub spawn : (name func arg stack_size priority : ℤ) → S → Cmd S (ℤ × ℤ)
  spawn name func arg stack_size priority =
      user_call
        (record (request n.spawn) {
          arg1 = func;
          arg2 = arg;
          arg3 = stack_size;
          arg4 = priority;
          arg5 = name;
        })
        (λ r. (to_int r.arg4, to_int r.arg1))

  -- The value returned, `*status` and `*pid`.
  unfoldable pub wait : S → Cmd S (ℤ × ℤ × ℤ)
  wait = user_call (request n.wait) (λ r. (to_int r.arg4, to_int r.arg2, to_int r.arg1))

  -- `assert(0)` after a call that must not return
  unfoldable pub terminate : ℤ → S → Cmd S (Unit {0})
  terminate status =
      require_user_mode
        λ s. and_then (syscall (record (request n.terminate) { arg1 = status }) s) (λ _ t. fault)

  unfoldable pub get_time_of_day : S → Cmd S ℤ
  get_time_of_day = user_call (request n.get_time_of_day) (λ r. to_int r.arg1)

  unfoldable pub get_pid : S → Cmd S ℤ
  get_pid = user_call (request n.get_pid) (λ r. to_int r.arg1)

  -- The value returned, and what `*semaphore` is given.
  unfoldable pub sem_create : ℤ → S → Cmd S (ℤ × ℤ)
  sem_create value =
      user_call (record (request n.sem_create) { arg1 = value })
        (λ r. (to_int r.arg4, to_int r.arg1))

  unfoldable pub sem_p : ℤ → S → Cmd S ℤ
  sem_p semaphore = user_call (record (request n.sem_p) { arg1 = semaphore }) (λ r. to_int r.arg4)

  unfoldable pub sem_v : ℤ → S → Cmd S ℤ
  sem_v semaphore = user_call (record (request n.sem_v) { arg1 = semaphore }) (λ r. to_int r.arg4)

  unfoldable pub sem_free : ℤ → S → Cmd S ℤ
  sem_free semaphore =
      user_call (record (request n.sem_free) { arg1 = semaphore }) (λ r. to_int r.arg4)

  unfoldable pub dump_processes : S → Cmd S (Unit {0})
  dump_processes = user_call (request n.dump_processes) (λ _. tt)
