-- ===== src/Phase2/Device.antt =====
-- The system call vector, the interrupt handlers and `waitDevice` of phase2/phase2.c.
use elissa_x_priscilla_colla.Base.{
  ℕ, zero, suc, ◌+◌, ◌/◌, ◌%◌, ◌^◌, ℤ, pos, negsuc, minus_one, Option, none, some, leb,
  if◌then◌else◌,
}
use elissa_x_priscilla_colla.Base.Run.{done, halt, fault, call, and_then}
use elissa_x_priscilla_colla.Kernel.{Cmd, dispatcher}
use elissa_x_priscilla_colla.Phase2.State.{State, Buffer, Handler, max_syscalls}
use elissa_x_priscilla_colla.Phase2.Transfer.{mbox_send, mbox_recv}

-- `syscall_handler`, up to the call of the function that the vector holds: the handler to run. A
-- number out of range or an empty entry halts.
unfoldable pub syscall_handler : ℤ → State → Cmd State Handler
syscall_handler (negsuc _) s = halt 1 s
syscall_handler (pos n) s =
    if leb max_syscalls n
    then halt 1 s
    else elim (s.sys_vec n) [ none ↦ halt 1 s | some h ↦ done h s ]

-- `nullsys`
unfoldable pub nullsys_run : {A : Type 0} → State → Cmd State A
nullsys_run s = halt 1 s

unfoldable pub interrupt_handler : State → Cmd State (Unit {0})
interrupt_handler s = call dispatcher s (λ _ t. done tt t)

-- The bytes of an `int`, least significant first.
unfoldable pub int_bytes : ℕ → Buffer
int_bytes n i = (n / 256 ^ i) % 256

-- `clockTicks` is below 2^31 for the first 21,474 interrupts; after that the addition overflows,
-- which is undefined. `pid` is the process that was interrupted.
unfoldable pub clock_interrupt_handler : (fuel pid : ℕ) → State → Cmd State (Unit {0})
clock_interrupt_handler fuel pid s =
    let ticks = s.clock_ticks + 100000 in
    if leb (2 ^ 31) ticks
    then fault
    else and_then
        (mbox_send fuel pid s.clock_mailbox (some (int_bytes ticks)) (pos 4)
          (record s { clock_ticks = ticks }))
        (λ _ t. call dispatcher t (λ _ u. done tt u))

-- The device types of `waitDevice`.
pub data DeviceType : Type 0 where
  clock_dev term_dev other_dev : DeviceType

-- `*status = v` for a status that is not a received message
pub data Status : Type 0 where
  -- the clock's: the bytes that `MboxRecv` put into `*status`
  clock_status : Option Buffer → Status
  device_status : ℤ → Status

-- 0x6101, the simulated status of terminal 1
unfoldable pub wait_device : ℕ → DeviceType → ℕ → Buffer → State → Cmd State Status
wait_device pid clock_dev zero status s =
    and_then (mbox_recv pid s.clock_mailbox (some status) (pos 4) s)
      (λ (z, out) t. done (clock_status out) t)
wait_device pid term_dev (suc zero) status s =
    done (device_status (pos 0x6101)) (record s { terminal_status = pos 0x6101 })
wait_device pid _ _ status s = done (device_status minus_one) s
