-- ===== src/Phase2/Syscalls.antt =====
-- What a system call of phase2/phase2.c does once `phase2_init` has run.
use elissa_x_priscilla_colla.Base.{◌≡◌, refl, ℤ, pos, negsuc, Bool-cases, inl, inr, leb, arith}
use elissa_x_priscilla_colla.Base.Run.{halt, and_then}
use elissa_x_priscilla_colla.Kernel.{Cmd}
use elissa_x_priscilla_colla.Phase2.State.{State, Handler, nullsys, max_syscalls}
use elissa_x_priscilla_colla.Phase2.Device.{syscall_handler, nullsys_run}
use elissa_x_priscilla_colla.Phase2.Safety.Boot.{IsBooted}

-- In a state that `phase2_init` may leave, whose `sys_vec` holds only `nullsys`, every system call
-- halts the machine with code 1, whatever its number and whatever the other handlers would do.
pub syscall_handler-halts :
    {s : State}
    → IsBooted s
    → (handle : Handler → State → Cmd State (Unit {0}))
    → ((t : State) → handle nullsys t ≡ nullsys_run t)
    → (n : ℤ) → and_then (syscall_handler n s) handle ≡ halt 1 s
unfolding syscall_handler nullsys_run
syscall_handler-halts {s} b handle is_nullsys (negsuc _) = refl
syscall_handler-halts {s} b handle is_nullsys (pos n) = elim (Bool-cases (leb max_syscalls n)) [
  | inl e ↦ rw (e, syscall_handler) refl
  | inr e ↦ rw (e, syscall_handler, b.all_nullsys n (ground arith)) (is_nullsys s)
]
