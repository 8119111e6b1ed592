-- ===== src/Phase1b/Tests.antt =====
-- The theorems on phase1b-archive/phase1b.c at a concrete state.
use elissa_x_priscilla_colla.Base.{
  ℕ, ◌≡◌, refl, pos, minus_one, false, none, some, List, [], ◌∷◌, ◌==◌, if◌then◌else◌, arith, ◌⊎◌,
}
use elissa_x_priscilla_colla.Base.Run.{Finishes, halt}
use elissa_x_priscilla_colla.Phase1b.State.{State, Process, max_proc, proc}
use elissa_x_priscilla_colla.Phase1b.Queues.{last, append_as_is, remove_from_ready_queue}
use elissa_x_priscilla_colla.Phase1b.Scheduler.{switch_to, dispatcher, wake_zappers}
use elissa_x_priscilla_colla.Phase1b.Spork.{new_pid}
use elissa_x_priscilla_colla.Phase1b.Join.{Gone, reap, join}
use elissa_x_priscilla_colla.Phase1b.Chain.{next_of, IsQueue, Distinct, without}
use elissa_x_priscilla_colla.Phase1b.Dispatch.{AllIdle, IsNext, dispatcher-IsNext}
use elissa_x_priscilla_colla.Phase1b.Slots.{GivesPid, new_pid-GivesPid}
use elissa_x_priscilla_colla.Phase1b.Removal.{IsChanged, remove_from_ready_queue-IsChanged}
use elissa_x_priscilla_colla.Base.Calls.{Calls}
use elissa_x_priscilla_colla.Phase1b.Cycles.{append_as_is-Endless}
use elissa_x_priscilla_colla.Phase1b.Quit.{HasQueue, IsWoken, wake_zappers-IsWoken}
use elissa_x_priscilla_colla.Phase1b.Joining.{Reports, join-Reports}
use elissa_x_priscilla_colla.Phase1b.Reaping.{IsReaped, reap-IsReaped}

abbrev empty_entry : Process
empty_entry = record {
  pid = minus_one;
  priority = 1;
  status = minus_one;
  exit_status = pos 0;
  parent = none;
  children = none;
  sibling = none;
  next = none;
  zap_target = none;
  stack = pos 0;
  name = [];
  start_func = pos 0;
  arg = pos 0;
}

-- `init` has the children 3 and 4; 4 has quit, and 5 waits for 3 to end.
abbrev table : ℕ → Process
table i =
    if i == 1
    then record empty_entry { pid = pos 1; priority = 6; status = pos 0; children = some 3 }
    else if i == 3
    then record empty_entry {
      pid = pos 3;
      priority = 3;
      status = pos 0;
      parent = some 1;
      sibling = some 4;
      next = some 5;
    }
    else if i == 4
    then record empty_entry { pid = pos 4; priority = 2; exit_status = pos 9; parent = some 1 }
    else if i == 5
    then record empty_entry { pid = pos 5; priority = 3; status = pos 1; zap_target = some 3 }
    else empty_entry

abbrev busy : State
busy = record {
  process_table = table;
  running_process = some 3;
  next_pid = 51;
  ready_queues = λ q. if q == 2 then some 3 else if q == 5 then some 1 else none;
}

abbrev queue : List ℕ
queue = 3 ∷ 5 ∷ []

queue-IsQueue : IsQueue busy 2 queue
queue-IsQueue = (refl, (refl, refl))

queue-Distinct : Distinct queue
queue-Distinct = ((omega arith, tt), (tt, tt))

dispatcher-IsNext_example :
    (AllIdle busy 0 6 × (dispatcher busy ≡ halt 0 busy))
    ⊎ ((h : ℕ) × IsNext busy 0 6 h × (dispatcher busy ≡ switch_to h busy))
dispatcher-IsNext_example = dispatcher-IsNext busy

new_pid-GivesPid_example : GivesPid 51 (new_pid 3 51)
new_pid-GivesPid_example = new_pid-GivesPid 51

remove_from_ready_queue-IsChanged_example :
    Finishes (λ _ t. IsChanged 2 queue 5 (without 5 queue) busy t) (remove_from_ready_queue 5 busy)
remove_from_ready_queue-IsChanged_example =
    remove_from_ready_queue-IsChanged 2 5 queue busy refl (omega arith) queue-IsQueue queue-Distinct
      (omega arith)

append_as_is-Endless_example :
    Finishes
      (λ _ t. (t.ready_queues 2 ≡ some 3) × ((fuel : ℕ) → last fuel (next_of t) 3 ≡ none))
      (append_as_is 2 5 busy)
append_as_is-Endless_example = append_as_is-Endless 2 3 (5 ∷ []) busy queue-IsQueue (omega arith)

busy-HasQueue : HasQueue 3 busy
busy-HasQueue i e = ground (arith, e)

wake_zappers-IsWoken_example :
    Finishes (λ _ t. IsWoken 3 max_proc busy t) (wake_zappers max_proc 0 3 busy)
wake_zappers-IsWoken_example = wake_zappers-IsWoken busy 3 busy-HasQueue

reap-IsReaped_example :
    Finishes (IsReaped busy 1 (3 ∷ 4 ∷ [])) (reap 51 1 none (proc busy 1).children busy)
reap-IsReaped_example =
    reap-IsReaped busy 1 (3 ∷ 4 ∷ []) (refl, (refl, refl)) ((omega arith, tt), (tt, tt))
      (omega arith)

-- The same state, with `init` running.
abbrev waiting : State
waiting = record busy { running_process = some 1 }

abbrev four : Gone
four = record { pid = pos 4; exit_status = pos 9 }

join-Reports_example :
    Calls (Reports waiting 1 (3 ∷ 4 ∷ []) (pos 4, some (pos 9))) (join 1 false waiting) []
join-Reports_example =
    join-Reports waiting 1 (3 ∷ 4 ∷ []) (refl, (refl, refl)) ((omega arith, tt), (tt, tt))
      (omega arith) four refl 0 refl
