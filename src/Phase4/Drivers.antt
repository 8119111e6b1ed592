-- ===== src/Phase4/Drivers.antt =====
-- The driver processes of phase4a/phase4a.c. The fuel bounds the rounds of their endless loops.
use elissa_x_priscilla_colla.Base.{
  ℕ, zero, suc, ◌+◌, ◌%◌, ◌^◌, ℤ, pos, Option, none, some, true, false, put, leb, ◌==◌, ◌||◌,
  if◌then◌else◌,
}
use elissa_x_priscilla_colla.Base.Int.{eq_ℤ, ltb_ℤ, pos_part}
use elissa_x_priscilla_colla.Base.Run.{done, fault, unfinished, ask, call, and_then}
use elissa_x_priscilla_colla.Kernel.{
  Cmd, clock_driver, term_driver, spork, unblock_proc, stat_char, stat_recv_busy,
}
use elissa_x_priscilla_colla.Phase2.State.{Buffer}
use elissa_x_priscilla_colla.Phase2.Lifecycle.{mbox_create}
use elissa_x_priscilla_colla.Phase2.Transfer.{mbox_send, mbox_cond_send, mbox_cond_recv}
use elissa_x_priscilla_colla.Phase2.Device.{
  wait_device, clock_dev, term_dev, Status, clock_status, device_status,
}
use elissa_x_priscilla_colla.Phase4.State.{State, max_terms, max_line, in_phase2, read_int}

-- `strlen` of an array of `rounds` more bytes from `i` on; none if it has no zero byte.
unfoldable pub strlen : (rounds i : ℕ) → Buffer → Option ℕ
strlen zero i b = none
strlen (suc r) i b = elim (b i == 0) [ true ↦ some i | false ↦ strlen r (suc i) b ]

-- The drivers of the terminals get NULL as their argument, so each serves unit 0.
unfoldable pub spork_terms : (rounds : ℕ) → (min_stack : ℤ) → State → Cmd State (Unit {0})
spork_terms zero stack t = done tt t
spork_terms (suc r) stack t =
    call (spork (term_driver 0) stack (pos 2)) t (λ _ u. spork_terms r stack u)

unfoldable pub phase4_start_service_processes : ℤ → State → Cmd State (Unit {0})
phase4_start_service_processes stack t =
    and_then (in_phase2 (mbox_create (pos 100) (pos 8)) t) λ id u.
      call (spork clock_driver stack (pos 2)) (record u { clock_mbox = id })
        (λ _ w. spork_terms max_terms stack w)

-- A full line is sent, or dropped if the mailbox has no room.
unfoldable pub send_line : ℕ → Buffer → State → Cmd State (Unit {0})
send_line unit line t = elim (strlen (max_line + 1) 0 line) [
  | none ↦ fault
  | some n ↦
      and_then
        (in_phase2 (mbox_cond_send (t.term_buffers unit).line_ready_mbox (some line) (pos (n + 1)))
          t)
        (λ _ u. done tt u)
]

-- The line so far.
pub record Line : Type 0 where
  pub chars : Buffer
  pub len : ℕ

-- A character has arrived. A line that is full, or ends here, is sent.
unfoldable pub receive_char : ℕ → ℕ → Line → State → Cmd State Line
receive_char unit c line t =
    let chars = put line.chars line.len c in
    let len = line.len + 1 in
    if leb (max_line + 1) line.len
    then fault
    else if c == 10 || len == max_line
    then and_then (send_line unit (put chars len 0) t)
        (λ _ u. done (record { chars = put chars len 0; len = 0 }) u)
    else done (record { chars = chars; len = len }) t

-- The number that `waitDevice` has put into `*status`.
abbrev pub status_of : Status → ℤ
status_of (device_status z) = z
status_of (clock_status none) = pos 0
status_of (clock_status (some b)) = pos (read_int b 0)

unfoldable pub term_driver_run :
    (fuel pid unit : ℕ) → (status : Buffer) → Line → State → Cmd State (Unit {0})
term_driver_run zero pid unit status line t = unfinished t
term_driver_run (suc f) pid unit status line t =
    and_then (in_phase2 (wait_device pid term_dev unit status) t) λ st u.
      ask (stat_char (status_of st)) λ c. ask (stat_recv_busy (status_of st)) λ busy.
        elim (eq_ℤ busy (pos 0)) [
          | true ↦ term_driver_run f pid unit status line u
          | false ↦
              and_then (receive_char unit (pos_part c % 256) line u)
                (λ line' w. term_driver_run f pid unit status line' w)
        ]

-- Sleepers that are due are woken, until one is not, which is put back. A received request has
-- replaced `req`.
unfoldable pub wake_sleepers : (fuel pid : ℕ) → Buffer → State → Cmd State Buffer
wake_sleepers zero pid req t = unfinished t
wake_sleepers (suc f) pid req t =
    and_then (in_phase2 (mbox_cond_recv t.clock_mbox (some req) (pos 8)) t) λ (rc, out) u.
      elim (ltb_ℤ (pos 0) rc) [
        | false ↦ done req u
        | true ↦ elim out [
          | none ↦ fault
          | some got ↦ elim (leb (read_int got 4) u.tick_count) [
            | true ↦ call (unblock_proc (pos (read_int got 0))) u (λ _ w. wake_sleepers f pid got w)
            | false ↦
                and_then (in_phase2 (mbox_send (suc f) pid u.clock_mbox (some got) (pos 8)) u)
                  (λ _ w. done got w)
          ]
        ]
      ]

-- One round of `ClockDriver`. `tickCount` overflows, which is undefined, after 2^31 - 1 rounds.
unfoldable pub clock_tick : (fuel pid : ℕ) → (status req : Buffer) → State → Cmd State Buffer
clock_tick f pid status req t = and_then (in_phase2 (wait_device pid clock_dev 0 status) t) λ _ u.
    if leb (2 ^ 31) (u.tick_count + 1)
    then fault
    else wake_sleepers f pid req (record u { tick_count = u.tick_count + 1 })

unfoldable pub clock_driver_run :
    (rounds fuel pid : ℕ) → (status req : Buffer) → State → Cmd State (Unit {0})
clock_driver_run zero f pid status req t = unfinished t
clock_driver_run (suc r) f pid status req t =
    and_then (clock_tick f pid status req t) λ req' u. clock_driver_run r f pid status req' u
