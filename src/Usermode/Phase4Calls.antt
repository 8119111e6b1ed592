-- ===== src/Usermode/Phase4Calls.antt =====
-- phase4a/phase4_usermode.c. `syscall` is `USLOSS_Syscall`, which changes its argument, and
-- `sys_arg` what the local variable holds before it is filled.
use elissa_x_priscilla_colla.Base.{ℤ, pos, if◌then◌else◌}
use elissa_x_priscilla_colla.Base.Int.{eq_ℤ}
use elissa_x_priscilla_colla.Base.Run.{done, halt, ask, and_then}
use elissa_x_priscilla_colla.Kernel.{Cmd, psr_mode, SyscallNumbers}
use elissa_x_priscilla_colla.Phase3.State.{Sysargs}
use elissa_x_priscilla_colla.Usermode.{to_int}

module _ {S : Type 0} (n : SyscallNumbers) (syscall : Sysargs → S → Cmd S Sysargs)
    (sys_arg : Sysargs) where
  -- `CHECKMODE`, the call with these arguments, and what is made of them after it.
  unfoldable pub checked_call : {A : Type 0} → Sysargs → (Sysargs → A) → S → Cmd S A
  checked_call args result s = ask psr_mode λ mode.
      if eq_ℤ mode (pos 0) then and_then (syscall args s) (λ r t. done (result r) t) else halt 1 s

  unfoldable pub sleep : ℤ → S → Cmd S ℤ
  sleep seconds =
      checked_call (record sys_arg { number = pos n.sleep; arg1 = seconds }) (λ r. to_int r.arg4)

  -- The value returned, and what `*numCharsRead` is given.
  unfoldable pub term_read : (buffer buffer_size unit_id : ℤ) → S → Cmd S (ℤ × ℤ)
  term_read buffer buffer_size unit_id =
      checked_call
        (record sys_arg {
          number = pos n.term_read;
          arg1 = buffer;
          arg2 = buffer_size;
          arg3 = unit_id;
        })
        (λ r. (to_int r.arg4, to_int r.arg2))

  unfoldable pub term_write : (buffer buffer_size unit_id : ℤ) → S → Cmd S (ℤ × ℤ)
  term_write buffer buffer_size unit_id =
      checked_call
        (record sys_arg {
          number = pos n.term_write;
          arg1 = buffer;
          arg2 = buffer_size;
          arg3 = unit_id;
        })
        (λ r. (to_int r.arg4, to_int r.arg2))

  -- The value returned, and what `*status` is given.
  unfoldable pub disk_read : (disk_buffer unit track first sectors : ℤ) → S → Cmd S (ℤ × ℤ)
  disk_read disk_buffer unit track first sectors =
      checked_call
        (record sys_arg {
          number = pos n.disk_read;
          arg1 = disk_buffer;
          arg2 = sectors;
          arg3 = track;
          arg4 = first;
          arg5 = unit;
        })
        (λ r. (to_int r.arg4, to_int r.arg1))

  unfoldable pub disk_write : (disk_buffer unit track first sectors : ℤ) → S → Cmd S (ℤ × ℤ)
  disk_write disk_buffer unit track first sectors =
      checked_call
        (record sys_arg {
          number = pos n.disk_write;
          arg1 = disk_buffer;
          arg2 = sectors;
          arg3 = track;
          arg4 = first;
          arg5 = unit;
        })
        (λ r. (to_int r.arg4, to_int r.arg1))

  -- The value returned, `*sector`, `*track` and `*disk`.
  unfoldable pub disk_size : ℤ → S → Cmd S (ℤ × ℤ × ℤ × ℤ)
  disk_size unit =
      checked_call (record sys_arg { number = pos n.disk_size; arg1 = unit })
        (λ r. (to_int r.arg4, to_int r.arg1, to_int r.arg2, to_int r.arg3))
