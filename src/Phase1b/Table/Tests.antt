-- ===== src/Phase1b/Table/Tests.antt =====
-- The theorems on the table of phase1b-archive/phase1b.c at a concrete one.
use elissa_x_priscilla_colla.Base.{
  ℕ, ◌<◌, ◌≡◌, refl, pos, minus_one, false, none, some, List, [], ◌∷◌, ◌==◌, if◌then◌else◌, arith,
  ◌⊎◌, subst, ap, pos_part, Bool-cases, inl, inr,
}
use mathlib.Core.Option.{some-injective}
use elissa_x_priscilla_colla.Base.Run.{Safe, halt}
use elissa_x_priscilla_colla.Phase1b.State.{State, Process, proc, set_proc}
use elissa_x_priscilla_colla.Phase1b.Scheduler.{block_me, zap, quit, unblock_proc}
use elissa_x_priscilla_colla.Phase1b.Spork.{spork}
use elissa_x_priscilla_colla.Phase1b.Join.{join}
use elissa_x_priscilla_colla.Phase1b.Startup.{phase1_init}
use elissa_x_priscilla_colla.Phase1b.Slots.{IsSlot}
use elissa_x_priscilla_colla.Phase1b.Reaping.{has_quit}
use elissa_x_priscilla_colla.Phase1b.Table.Same.{runs-IsSame, status-IsSame, IsTable-same}
use elissa_x_priscilla_colla.Phase1b.Table.Dispatching.{IsSafe, Resumes}
use elissa_x_priscilla_colla.Phase1b.Table.Making.{Wish, IsSporked}
use elissa_x_priscilla_colla.Phase1b.Table.Sporking.{
  Refused, IsChosen, InRange, spork-IsSafe, spork-IsSporked,
}
use elissa_x_priscilla_colla.Phase1b.Table.Quitting.{NoZapper, quit-IsSafe}
use elissa_x_priscilla_colla.Phase1b.Table.Joining.{IsPatient, Joined, join-IsPatient}
use elissa_x_priscilla_colla.Phase1b.Blocked.{blocked, SwitchesAway, Zaps}
use elissa_x_priscilla_colla.Phase1b.Table.Blocking.{blocking-IsSafe}
use elissa_x_priscilla_colla.Phase1b.Dispatch.{IsNext}
use elissa_x_priscilla_colla.Phase1b.Table.Unblocking.{IsFirstBlocked, unblock_proc-halts}
use elissa_x_priscilla_colla.Phase1b.Table.Starting.{phase1_init-IsTable}
use elissa_x_priscilla_colla.Phase1b.Table.{IsTable, RunsAlive, Rely}

abbrev empty_entry : Process
empty_entry = record {
  pid = minus_one;
  priority = 1;
  status = minus_one;
  exit_status = pos 0;
  parent = none;
  children = none;
  sibling = none;
  next = none;
  zap_target = none;
  stack = pos 0;
  name = [];
  start_func = pos 0;
  arg = pos 0;
}

-- `init` has the children 3 and 4; 4 has quit, and 3 runs.
abbrev entries : ℕ → Process
entries i =
    if i == 1
    then record empty_entry { pid = pos 1; priority = 6; status = pos 0; children = some 3 }
    else if i == 3
    then record empty_entry {
      pid = pos 3;
      priority = 3;
      status = pos 0;
      parent = some 1;
      sibling = some 4;
    }
    else if i == 4
    then record empty_entry { pid = pos 4; priority = 2; exit_status = pos 9; parent = some 1 }
    else empty_entry

abbrev pub family : State
family = record {
  process_table = entries;
  running_process = some 3;
  next_pid = 5;
  ready_queues = λ q. if q == 2 then some 3 else if q == 5 then some 1 else none;
}

abbrev pub queues : ℕ → List ℕ
queues q = if q == 2 then 3 ∷ [] else if q == 5 then 1 ∷ [] else []

abbrev pub children : ℕ → List ℕ
children i = if i == 1 then 3 ∷ 4 ∷ [] else []

pub family-IsTable : IsTable queues children family
family-IsTable = record {
  queues = λ q l. elim (Bool-cases (q == 2)) [
    | inl e ↦ rw e (refl, refl)
    | inr e ↦ elim (Bool-cases (q == 5)) [
      | inl e' ↦ rw (e, e') (refl, refl)
      | inr e' ↦ rw (e, e') refl
    ]
  ];
  queues_distinct = λ q l. elim (Bool-cases (q == 2)) [
    | inl e ↦ rw e (tt, tt)
    | inr e ↦ elim (Bool-cases (q == 5)) [ inl e' ↦ rw (e, e') (tt, tt) | inr e' ↦ rw (e, e') tt ]
  ];
  queues_ready = λ q l. elim (Bool-cases (q == 2)) [
    | inl e ↦ rw e (record { below = omega arith; lives = refl; priority = ground (arith, e) }, tt)
    | inr e ↦ elim (Bool-cases (q == 5)) [
      | inl e' ↦
          rw (e, e')
            (record { below = omega arith; lives = refl; priority = ground (arith, e') }, tt)
      | inr e' ↦ rw (e, e') tt
    ]
  ];
  families = λ i l. elim (Bool-cases (i == 1)) [
    | inl e ↦ rw e (refl, (refl, refl))
    | inr e ↦ rw e (ground arith)
  ];
  families_distinct = λ i l. elim (Bool-cases (i == 1)) [
    | inl e ↦ rw e ((omega arith, tt), (tt, tt))
    | inr e ↦ rw e tt
  ];
  families_fit = λ i l. elim (Bool-cases (i == 1)) [
    | inl e ↦ rw e (
      record { below = omega arith; used = refl; parent = ground arith },
      (record { below = omega arith; used = refl; parent = ground arith }, tt),
    )
    | inr e ↦ rw e tt
  ];
  childless = λ i l h. ground (arith, h);
  ended = λ i l h. ground (arith, h);
  priorities = λ i l h. record { above = ground (arith, h); below = ground (arith, h) };
}

family-RunsAlive : RunsAlive family
family-RunsAlive r e =
    let same : 3 ≡ r = some-injective 3 r e in
    (omega (arith, same), subst (λ k. has_quit family k ≡ false) same refl)

abbrev wish : Wish
wish = record { name = []; start_func = pos 7; arg = pos 0 }

spork-IsSafe_example :
    IsSafe
      (λ r t.
        (Refused family (pos 81920) (pos 3) r × (t ≡ family))
        ⊎ ((i : ℕ) × IsSlot entries 5 (some i) × (r ≡ (proc t i).pid) × Resumes family t))
      (spork [] (pos 7) (pos 0) (pos 81920) (pos 3) family)
spork-IsSafe_example = spork-IsSafe family-IsTable family-RunsAlive wish (pos 81920) (pos 3)

less_urgent :
    (r n : ℕ) → family.running_process ≡ some r → InRange (pos 5) n → (proc family r).priority < n
less_urgent r n e h =
    let runs : 3 ≡ r = some-injective 3 r e in
    let five : 5 ≡ n = ap pos_part h.number in
    subst (λ k. (proc family k).priority < n) runs (omega (arith, five))

spork-IsSporked_example :
    Safe
      (λ _. ⊥)
      Rely
      (λ _. ⊥)
      (λ r t.
        (Refused family (pos 81920) (pos 5) r × (t ≡ family))
        ⊎ ((n i pid : ℕ) × IsChosen family (pos 5) n i pid
            × (r ≡ pos pid)
            × IsSporked queues children family wish i pid n t))
      (spork [] (pos 7) (pos 0) (pos 81920) (pos 5) family)
spork-IsSporked_example =
    spork-IsSporked family-IsTable family-RunsAlive wish (pos 81920) (pos 5) less_urgent

nobody_waits : NoZapper 3 family
nobody_waits i = ground arith

quit-IsSafe_example : IsSafe (λ _ _. Unit) (quit (pos 9) family)
quit-IsSafe_example = quit-IsSafe family-IsTable family-RunsAlive 3 refl nobody_waits (pos 9)

blocking-IsSafe_example :
    IsSafe (λ _ t. t.running_process ≡ some 3) (block_me family)
    × SwitchesAway 3 (blocked 3 (proc family 3).zap_target family) (block_me family)
    × IsSafe (λ _ t. t.running_process ≡ some 3) (zap (pos 1) family)
    × Zaps 3 (pos 1) family (zap (pos 1) family)
blocking-IsSafe_example = blocking-IsSafe family-IsTable family-RunsAlive 3 refl (pos 1)

-- The same with `init` blocked.
abbrev init_blocked : State
init_blocked = set_proc family 1 (record (proc family 1) { status = pos 1 })

init_blocked-IsTable : IsTable queues children init_blocked
init_blocked-IsTable =
    IsTable-same (status-IsSame family 1 (record (proc family 1) { status = pos 1 }) refl refl)
      queues children family-IsTable

three-IsNext : IsNext init_blocked 0 6 3
three-IsNext = record {
  queue = 2;
  from = omega arith;
  below = omega arith;
  head = refl;
  not_blocked = refl;
  idle = λ j l u h e. absurd (ground (arith, e));
}

init-IsFirstBlocked : IsFirstBlocked (pos 1) init_blocked 1
init-IsFirstBlocked = record {
  below = omega arith;
  blocked = refl;
  earlier = λ j l. ground (arith, l);
}

unblock_proc-halts_example : (u : State) × (unblock_proc (pos 1) init_blocked ≡ halt 0 u)
unfolding three-IsNext
unblock_proc-halts_example =
    unblock_proc-halts queues children init_blocked init_blocked-IsTable 3 refl three-IsNext (pos 1)
      1 init-IsFirstBlocked refl (omega arith)

-- The same with `init` running.
abbrev waiting : State
waiting = record family { running_process = some 1 }

waiting-RunsAlive : RunsAlive waiting
waiting-RunsAlive r e =
    let same : 1 ≡ r = some-injective 1 r e in
    (omega (arith, same), subst (λ k. has_quit waiting k ≡ false) same refl)

join-IsPatient_example : IsPatient (Joined children waiting 1) (join 3 false waiting)
join-IsPatient_example =
    join-IsPatient (IsTable-same (runs-IsSame family (some 1)) queues children family-IsTable)
      waiting-RunsAlive 1 refl 3

abbrev blank : State
blank = record {
  process_table = λ i. empty_entry;
  running_process = none;
  next_pid = 1;
  ready_queues = λ q. none;
}

phase1_init-IsTable_example :
    Safe
      (λ _. ⊥)
      Rely
      (λ _. ⊥)
      (λ _ t. IsTable (λ q. if q == 5 then 1 ∷ [] else []) (λ i. []) t × (t.running_process ≡ none))
      (phase1_init [] (pos 7) blank)
phase1_init-IsTable_example = phase1_init-IsTable blank (λ q l. refl) refl [] (pos 7)
