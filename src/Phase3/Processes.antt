-- ===== src/Phase3/Processes.antt =====
-- The system calls of phase3/phase3.c on processes, and `trampoline`.
use elissa_x_priscilla_colla.Base.{
  ℕ, zero, suc, ℤ, pos, minus_two, ◌||◌, true, false, if◌then◌else◌, negsuc,
}
use elissa_x_priscilla_colla.Base.Int.{eq_ℤ}
use elissa_x_priscilla_colla.Base.Run.{done, halt, fault, unfinished, ask, call}
use elissa_x_priscilla_colla.Kernel.{
  Cmd, malloc, psr_set_ok, current_time, exit_status, join, quit, spork, trampoline, user_function,
}
use elissa_x_priscilla_colla.Phase3.State.{State, Sysargs}

-- `while (retval != -2 && retval != -3) retval = join(status);` after a first `join`, then `quit`.
-- The fuel bounds the number of children.
unfoldable pub join_all : ℕ → (State → Cmd State (Unit {0})) → State → Cmd State (Unit {0})
join_all zero k t = unfinished t
join_all (suc f) k t =
    call join t
      λ z u. elim (eq_ℤ z minus_two || eq_ℤ z (negsuc 2)) [ true ↦ k u | false ↦ join_all f k u ]

unfoldable pub sys_terminate : ℕ → Sysargs → State → Cmd State (Unit {0})
sys_terminate fuel args t = join_all fuel (λ u. call (quit args.arg1) u (λ _ w. done tt w)) t

-- `terminate` is the call of `Terminate` at the end, through user mode.
unfoldable pub trampoline_run :
    (terminate : ℤ → State → Cmd State (Unit {0})) → ℤ → ℤ → State → Cmd State (Unit {0})
trampoline_run terminate f a t = ask psr_set_ok λ ok.
    if eq_ℤ ok (pos 0) then halt 1 t else call (user_function f a) t (λ ret u. terminate ret u)

-- The wrapper is not tested for NULL.
unfoldable pub sys_spawn : Sysargs → State → Cmd State Sysargs
sys_spawn args t = ask (malloc 16) λ wrapper.
    if eq_ℤ wrapper (pos 0)
    then fault
    else call (spork (trampoline args.arg1 args.arg2) args.arg3 args.arg4) t
        (λ retval u. done (record args { arg1 = retval; arg4 = pos 0 }) u)

unfoldable pub sys_wait : Sysargs → State → Cmd State Sysargs
sys_wait args t = call join t λ retval u. ask exit_status λ status.
    done
      (record args {
        arg2 = status;
        arg1 = retval;
        arg4 = if eq_ℤ retval minus_two then minus_two else pos 0;
      })
      u

unfoldable pub sys_gettime : Sysargs → State → Cmd State Sysargs
sys_gettime args t = ask current_time λ now. done (record args { arg1 = now }) t

unfoldable pub sys_getpid : ℕ → Sysargs → State → Cmd State Sysargs
sys_getpid pid args t = done (record args { arg1 = pos pid }) t
