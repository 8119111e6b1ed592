-- ===== src/Usermode/Pids.antt =====
-- `GetPID` of phase3/phase3_usermode.c together with `sys_getpid` of phase3/phase3.c.
use elissa_x_priscilla_colla.Base.{ℕ, ◌<◌, ◌^◌, ◌≡◌, refl, pos, arith, if◌then◌else◌}
use elissa_x_priscilla_colla.Base.Int.{eq_ℤ}
use elissa_x_priscilla_colla.Base.Run.{done, halt, ask}
use elissa_x_priscilla_colla.Kernel.{SyscallNumbers, psr_is_user}
use elissa_x_priscilla_colla.Phase3.State.{State}
use elissa_x_priscilla_colla.Phase3.Processes.{sys_getpid}
use elissa_x_priscilla_colla.Usermode.{to_int}
use elissa_x_priscilla_colla.Usermode.Phase3Calls.{require_user_mode, user_call, get_pid}

pub to_int-pos : (n : ℕ) → n < 2 ^ 31 → to_int (pos n) ≡ pos n
unfolding to_int
to_int-pos n l = ground arith

-- If system calls go to `sys_getpid`, `GetPID` gives a caller in user mode its PID, for a PID below
-- 2^31, leaves the state as it is, and halts in kernel mode.
pub get_pid-sys_getpid :
    (n : SyscallNumbers) (pid : ℕ) (t : State)
    → pid < 2 ^ 31
    → get_pid n (sys_getpid pid) t
      ≡ ask psr_is_user (λ user. if eq_ℤ user (pos 0) then halt 1 t else done (pos pid) t)
unfolding get_pid user_call require_user_mode sys_getpid
get_pid-sys_getpid n pid t l = rw (to_int-pos pid l) refl
