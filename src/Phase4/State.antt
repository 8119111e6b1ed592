-- ===== src/Phase4/State.antt =====
-- The global data of phase4a/phase4a.c over that of phase 2, and `phase4_init`. The numbers of the
-- system calls and `USLOSS_CLOCK_MS` come from USLOSS's headers and are parameters.
use elissa_x_priscilla_colla.Base.{
  ℕ, zero, suc, ◌+◌, ◌-◌, ◌*◌, ℤ, pos, Option, some, put, ltb, if◌then◌else◌,
}
use elissa_x_priscilla_colla.Base.Run.{Part, done, focus, and_then}
use elissa_x_priscilla_colla.Kernel.{Cmd, SyscallNumbers}
use elissa_x_priscilla_colla.Phase2.State as Mail
use elissa_x_priscilla_colla.Phase2.State.{
  Buffer, Handler, sys_sleep, sys_term_read, sys_term_write,
}
use elissa_x_priscilla_colla.Phase2.Lifecycle.{mbox_create}
use elissa_x_priscilla_colla.Phase2.Device.{int_bytes}

abbrev pub max_terms : ℕ
max_terms = 4

abbrev pub max_line : ℕ
max_line = 80

abbrev pub max_lines_buffered : ℕ
max_lines_buffered = 10

-- `TermBuffer`, less `lines`, which nothing uses
pub record TermBuffer : Type 0 where
  pub head : ℕ
  pub tail : ℕ
  pub count : ℕ
  pub mutex_mbox : ℤ
  pub line_ready_mbox : ℤ

pub record State : Type 0 where
  pub kernel : Mail.State
  pub term_buffers : ℕ → TermBuffer
  pub clock_mbox : ℤ
  pub tick_count : ℕ

abbrev pub kernel_part : Part Mail.State State
kernel_part = record { get = λ t. t.kernel; put = λ s t. record t { kernel = s } }

-- A call of a function of phase 2.
abbrev pub in_phase2 : {A : Type 0} → (Mail.State → Cmd Mail.State A) → State → Cmd State A
in_phase2 m t = focus kernel_part t (m t.kernel)

-- The two `int`s of a `SleepReq` in memory.
unfoldable pub sleep_request : (pid wakeup_tick : ℕ) → Buffer
sleep_request pid tick i = if ltb i 4 then int_bytes pid i else int_bytes tick (i - 4)

-- The `int` at byte `i`, for one that is not negative.
unfoldable pub read_int : Buffer → ℕ → ℕ
read_int b i = b i + 256 * b (i + 1) + 65536 * b (i + 2) + 16777216 * b (i + 3)

abbrev pub set_term : State → ℕ → TermBuffer → State
set_term t i b = record t { term_buffers = put t.term_buffers i b }

-- The entries that `phase4_init` writes into `systemCallVec`.
unfoldable pub install : SyscallNumbers → (ℕ → Option Handler) → ℕ → Option Handler
install n v =
    put (put (put v n.sleep (some sys_sleep)) n.term_read (some sys_term_read)) n.term_write
      (some sys_term_write)

-- The mailboxes of the terminals from `i` on.
unfoldable pub init_terms : (rounds i : ℕ) → State → Cmd State (Unit {0})
init_terms zero i t = done tt t
init_terms (suc r) i t =
    and_then
      (in_phase2 (mbox_create (pos 1) (pos 0))
        (set_term t i (record (t.term_buffers i) { head = 0; tail = 0; count = 0 })))
      λ mutex u.
        and_then
          (in_phase2 (mbox_create (pos max_lines_buffered) (pos (max_line + 1)))
            (set_term u i (record (u.term_buffers i) { mutex_mbox = mutex })))
          (λ ready w.
            init_terms r (suc i)
              (set_term w i (record (w.term_buffers i) { line_ready_mbox = ready })))

unfoldable pub phase4_init : SyscallNumbers → State → Cmd State (Unit {0})
phase4_init n t =
    init_terms max_terms 0 (record t {
      kernel = record t.kernel { system_call_vec = install n t.kernel.system_call_vec };
    })
