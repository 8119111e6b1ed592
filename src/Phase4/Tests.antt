-- ===== src/Phase4/Tests.antt =====
-- The theorems on phase4a/phase4a.c at concrete inputs.
use elissa_x_priscilla_colla.Base.{
  ltb, if◌then◌else◌, refl, [], ◌∷◌, ◌+◌, ◌<◌, pos, minus_one, arith,
}
use elissa_x_priscilla_colla.Base.Run.{Safe, Finishes, and_then}
use elissa_x_priscilla_colla.Phase2.Samples.{ready, ready-IsValid, letters}
use elissa_x_priscilla_colla.Phase4.State.{State, read_int, max_line}
use elissa_x_priscilla_colla.Phase4.Drivers.{Line, receive_char, strlen, send_line, wake_sleepers}
use elissa_x_priscilla_colla.Phase2.State.{Buffer}
use elissa_x_priscilla_colla.Phase3.State.{Sysargs}
use elissa_x_priscilla_colla.Phase4.Calls.{sys_term_read}
use elissa_x_priscilla_colla.Phase4.Samples
use elissa_x_priscilla_colla.Phase4.Sleepers.{IsTicking, wake_sleepers-Scans}
use elissa_x_priscilla_colla.Base.Calls.{Calls}
use elissa_x_priscilla_colla.Kernel.{unblock_proc}
use elissa_x_priscilla_colla.Phase4.RoundTrip.{HasRead, IsTerminal, sys_term_read-send_line}
use elissa_x_priscilla_colla.Phase4.Lines.{KernelValid, AnyState, receive_char-Safe}

abbrev terminals : State
terminals = record {
  kernel = ready;
  term_buffers = λ _. record {
    head = 0;
    tail = 0;
    count = 0;
    mutex_mbox = minus_one;
    line_ready_mbox = pos 0;
  };
  clock_mbox = pos 1;
  tick_count = 5;
}

abbrev almost_full : Line
almost_full = record { chars = letters; len = 79 }

receive_char-Safe_example :
    Safe KernelValid AnyState
      (λ _. ⊥)
      (λ r u. KernelValid u × (r.len < max_line))
      (receive_char 0 65 almost_full terminals)
receive_char-Safe_example = receive_char-Safe terminals ready-IsValid 0 65 almost_full (omega arith)

wake_sleepers-Scans_example :
    Calls
      (λ _ u. IsTicking 1 5 ((0 ∷ 0 ∷ 0 ∷ 0 ∷ 9 ∷ 0 ∷ 0 ∷ 0 ∷ []) ∷ []) u)
      (wake_sleepers 3 2 letters Samples.terminals)
      (unblock_proc (pos 0) ∷ [])
unfolding read_int
wake_sleepers-Scans_example =
    wake_sleepers-Scans 1 5 2 3 Samples.requests letters Samples.terminals
      Samples.terminals-IsTicking (refl, (refl, tt)) (omega arith)

-- Two letters and the end of the line.
abbrev two_letters : Buffer
two_letters i = if ltb i 2 then 65 + i else 0

abbrev reading : Sysargs
reading = record {
  number = pos 0;
  arg1 = pos 1;
  arg2 = pos 40;
  arg3 = pos 0;
  arg4 = pos 0;
  arg5 = pos 0;
}

sys_term_read-send_line_example :
    Finishes
      (λ r u. HasRead reading 2 two_letters letters r × IsTerminal 0 0 [] u)
      (and_then
        (send_line 0 two_letters Samples.terminals)
        λ _ u. sys_term_read 7 letters letters reading u)
unfolding strlen
sys_term_read-send_line_example =
    sys_term_read-send_line 0 2 two_letters letters reading refl 7 letters Samples.terminals refl
      Samples.terminals-IsTerminal (omega arith)
