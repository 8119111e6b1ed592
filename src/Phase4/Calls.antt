-- ===== src/Phase4/Calls.antt =====
-- The system calls of phase4a/phase4a.c. `pid` is the caller, `memory` the bytes at the user's
-- buffer. The arguments are `int`s, as the functions of phase4a/phase4_usermode.c pass them.
use elissa_x_priscilla_colla.Base.{
  ℕ, zero, suc, ◌+◌, ◌*◌, ◌^◌, pos, negsuc, minus_one, none, some, Bool, true, false, ltb, leb,
  ◌||◌, if◌then◌else◌,
}
use elissa_x_priscilla_colla.Base.Int.{eq_ℤ, ltb_ℤ, leb_ℤ, pos_part}
use elissa_x_priscilla_colla.Base.Run.{done, fault, call, and_then}
use elissa_x_priscilla_colla.Kernel.{Cmd, block_me, device_output}
use elissa_x_priscilla_colla.Phase2.State.{Buffer}
use elissa_x_priscilla_colla.Phase2.Slots.{copy}
use elissa_x_priscilla_colla.Phase2.Transfer.{mbox_send, mbox_recv}
use elissa_x_priscilla_colla.Phase2.Device.{wait_device, term_dev}
use elissa_x_priscilla_colla.Phase3.State.{Sysargs}
use elissa_x_priscilla_colla.Phase4.State.{State, max_terms, max_line, in_phase2, sleep_request}
use elissa_x_priscilla_colla.Phase4.Drivers.{strlen}

-- `ticks_per_sec` is `TICKS_PER_SEC`. A wake-up tick of 2^31 or more is an overflow.
unfoldable pub sys_sleep : (ticks_per_sec fuel pid : ℕ) → Sysargs → State → Cmd State Sysargs
sys_sleep ticks fuel pid args t = elim args.arg1 [
  | negsuc _ ↦ done (record args { arg4 = minus_one }) t
  | pos seconds ↦
      let tick = t.tick_count + seconds * ticks in
      if leb (2 ^ 31) tick
      then fault
      else and_then
          (in_phase2 (mbox_send fuel pid t.clock_mbox (some (sleep_request pid tick)) (pos 8)) t)
          (λ _ u. call block_me u (λ _ w. done (record args { arg4 = pos 0 }) w))
]

-- `unit < 0 || unit >= MAX_TERMS || userBuf == NULL || userBufSize <= 0`
abbrev pub bad_terminal : Sysargs → Bool
bad_terminal args =
    ltb_ℤ args.arg3 (pos 0)
    || leb_ℤ (pos max_terms) args.arg3
    || eq_ℤ args.arg1 (pos 0)
    || leb_ℤ args.arg2 (pos 0)

-- `line` is what the local variable holds before; the user's buffer is given as it is after.
unfoldable pub sys_term_read :
    (pid : ℕ) → (line memory : Buffer) → Sysargs → State → Cmd State (Sysargs × Buffer)
sys_term_read pid line memory args t =
    if bad_terminal args
    then done (record args { arg4 = minus_one }, memory) t
    else and_then
        (in_phase2
          (mbox_recv pid (t.term_buffers (pos_part args.arg3)).line_ready_mbox (some line)
            (pos (max_line + 1)))
          t)
        λ (rc, out) u. elim (ltb_ℤ rc (pos 0)) [
          | true ↦ done (record args { arg4 = minus_one }, memory) u
          | false ↦ elim out [
            | none ↦ fault
            | some got ↦ elim (strlen (max_line + 1) 0 got) [
              | none ↦ fault
              | some n ↦
                  let len = if ltb (pos_part args.arg2) n then pos_part args.arg2 else n in
                  done (record args { arg2 = pos len; arg4 = pos 0 }, copy len got memory) u
            ]
          ]
        ]

-- The characters from `i` on go to the terminal, each followed by a wait for the device.
unfoldable pub write_chars :
    (rounds i pid unit : ℕ) → (status memory : Buffer) → State → Cmd State (Unit {0})
write_chars zero i pid unit status memory t = done tt t
write_chars (suc r) i pid unit status memory t = call (device_output unit (memory i)) t λ _ u.
    and_then (in_phase2 (wait_device pid term_dev unit status) u)
      (λ _ w. write_chars r (suc i) pid unit status memory w)

-- One message in `mutexMbox` keeps other writers out.
unfoldable pub sys_term_write :
    (fuel pid : ℕ) → (status memory : Buffer) → Sysargs → State → Cmd State Sysargs
sys_term_write fuel pid status memory args t =
    if bad_terminal args
    then done (record args { arg4 = minus_one }) t
    else let unit = pos_part args.arg3 in
      and_then (in_phase2 (mbox_send fuel pid (t.term_buffers unit).mutex_mbox none (pos 0)) t)
        λ _ u. and_then (write_chars (pos_part args.arg2) 0 pid unit status memory u) λ _ v.
          and_then (in_phase2 (mbox_recv pid (v.term_buffers unit).mutex_mbox none (pos 0)) v)
            (λ _ w. done (record args { arg2 = args.arg2; arg4 = pos 0 }) w)
