-- ===== src/Kernel.antt =====
-- What the code of phases 2 to 4 asks of code outside it: the functions that phase1.h declares
-- (phase 2 and up link a prebuilt phase 1), the C library, USLOSS and the user's functions.
use elissa_x_priscilla_colla.Base.{ℕ, ℤ}
use elissa_x_priscilla_colla.Base.Run.{Run}

-- The kernel state is as it was when these return.
pub data Query : Type 0 where
  -- `malloc(bytes)`; the answer is the address, 0 for NULL
  malloc : ℕ → Query
  -- whether `USLOSS_PsrGet() == USLOSS_PSR_CURRENT_INT`, 0 if not
  psr_is_user : Query
  -- `USLOSS_PsrGet() & USLOSS_PSR_CURRENT_MODE`
  psr_mode : Query
  -- whether `USLOSS_PsrSet(USLOSS_PSR_CURRENT_INT)` returns `USLOSS_DEV_OK`, 0 if not
  psr_set_ok : Query
  -- `currentTime()`
  current_time : Query
  -- what the `join` before has put into `*status`
  exit_status : Query
  -- `USLOSS_TERM_STAT_CHAR` of a status, and whether `USLOSS_TERM_STAT_RECV` of it is
  -- `USLOSS_DEV_BUSY`, 0 if not
  stat_char stat_recv_busy : ℤ → Query

-- The start function of a new process.
pub data Entry : Type 0 where
  -- `trampoline` over a wrapper of a user function and its argument
  trampoline : ℤ → ℤ → Entry
  -- the drivers, with the unit that they get as an argument
  clock_driver : Entry
  term_driver : ℕ → Entry

-- Other processes may run before these return.
pub data Request : Type 0 where
  block_me dispatcher join : Request
  unblock_proc : ℤ → Request
  -- entry, stack size and priority
  spork : Entry → ℤ → ℤ → Request
  -- `quit(status)`, which does not return
  quit : ℤ → Request
  -- a user function called with its argument
  user_function : ℤ → ℤ → Request
  -- `USLOSS_DeviceOutput` of a character to a terminal
  device_output : ℕ → ℕ → Request

abbrev pub Cmd : Type 0 → Type 0 → Type 0
Cmd S A = Run Query Request S A

-- The numbers of the system calls, which usyscall.h defines.
pub record SyscallNumbers : Type 0 where
  pub spawn : ℕ
  pub wait : ℕ
  pub terminate : ℕ
  pub sem_create : ℕ
  pub sem_p : ℕ
  pub sem_v : ℕ
  pub sem_free : ℕ
  pub get_time_of_day : ℕ
  pub get_pid : ℕ
  pub dump_processes : ℕ
  pub sleep : ℕ
  pub term_read : ℕ
  pub term_write : ℕ
  pub disk_read : ℕ
  pub disk_write : ℕ
  pub disk_size : ℕ
