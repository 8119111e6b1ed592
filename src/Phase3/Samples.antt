-- ===== src/Phase3/Samples.antt =====
-- A state of phase3/phase3.c to try its operations on.
use elissa_x_priscilla_colla.Base.{
  ◌==◌, if◌then◌else◌, pos, negsuc, true, false, refl, Bool-cases, inl, inr,
}
use elissa_x_priscilla_colla.Phase2.Samples.{ready, ready-IsValid}
use elissa_x_priscilla_colla.Phase3.State.{State, Semaphore, Sysargs}
use elissa_x_priscilla_colla.Phase3.Creation.{UnusedIdle}
use elissa_x_priscilla_colla.Phase3.Counting.{Consistent, AllCounted}

abbrev pub contended : Semaphore
contended = record { value = negsuc 1; mbox_id = pos 1; in_use = true; blocked = pos 2 }

abbrev pub unused : Semaphore
unused = record { value = negsuc 0; mbox_id = negsuc 0; in_use = false; blocked = pos 0 }

-- Semaphore 3 has two processes waiting at mailbox 1, which has no slots.
abbrev pub ready_sems : State
ready_sems = record {
  kernel = ready;
  sems = λ i. if i == 3 then contended else unused;
  queued = 0;
  mbox_lock_id = pos 0;
}

abbrev pub on_three : Sysargs
on_three = record {
  number = pos 17;
  arg1 = pos 3;
  arg2 = pos 0;
  arg3 = pos 0;
  arg4 = pos 0;
  arg5 = pos 0;
}

ready_sems-AllCounted : AllCounted ready_sems
ready_sems-AllCounted i = elim (Bool-cases (i == 3)) [
  | inl e ↦ rw e (λ _. refl)
  | inr e ↦ rw e (λ used. absurd (cc))
]

pub ready_sems-Consistent : Consistent ready_sems
ready_sems-Consistent = (ready-IsValid, ready_sems-AllCounted)

pub ready_sems-UnusedIdle : UnusedIdle ready_sems
ready_sems-UnusedIdle i = elim (Bool-cases (i == 3)) [
  | inl e ↦ rw e (λ free. absurd (cc))
  | inr e ↦ rw e (λ _. refl)
]
