-- ===== src/Phase3/State.antt =====
-- The global data of phase3/phase3.c over that of phase 2, and `phase3_init`.
use elissa_x_priscilla_colla.Base.{
  ℕ, ℤ, pos, Bool, false, Option, some, put, ltb, if◌then◌else◌, minus_one,
}
use elissa_x_priscilla_colla.Base.Run.{Part, done, focus, and_then}
use elissa_x_priscilla_colla.Kernel.{Cmd}
use elissa_x_priscilla_colla.Phase2.State as Mail
use elissa_x_priscilla_colla.Phase2.State.{
  Handler, sys_spawn, sys_wait, sys_terminate, sys_semcreate, sys_semp, sys_semv, sys_gettime,
  sys_getpid,
}
use elissa_x_priscilla_colla.Phase2.Lifecycle.{mbox_create}

abbrev pub max_sems : ℕ
max_sems = 200

-- `Semaphore`
pub record Semaphore : Type 0 where
  pub value : ℤ
  pub mbox_id : ℤ
  pub in_use : Bool
  pub blocked : ℤ

-- `USLOSS_Sysargs`: pointers and numbers alike are words.
pub record Sysargs : Type 0 where
  pub number : ℤ
  pub arg1 : ℤ
  pub arg2 : ℤ
  pub arg3 : ℤ
  pub arg4 : ℤ
  pub arg5 : ℤ

pub record State : Type 0 where
  pub kernel : Mail.State
  pub sems : ℕ → Semaphore
  pub queued : ℕ
  pub mbox_lock_id : ℤ

-- The state of phase 2 in that of phase 3.
abbrev pub kernel_part : Part Mail.State State
kernel_part = record { get = λ t. t.kernel; put = λ s t. record t { kernel = s } }

-- A call of a function of phase 2.
abbrev pub in_phase2 : {A : Type 0} → (Mail.State → Cmd Mail.State A) → State → Cmd State A
in_phase2 m t = focus kernel_part t (m t.kernel)

abbrev pub set_sem : State → ℕ → Semaphore → State
set_sem t i v = record t { sems = put t.sems i v }

-- The entries that `phase3_init` writes into `systemCallVec`.
unfoldable pub install : (ℕ → Option Handler) → ℕ → Option Handler
install v =
    let v1 = put (put v 3 (some sys_spawn)) 4 (some sys_wait) in
    let v2 = put (put v1 5 (some sys_terminate)) 16 (some sys_semcreate) in
    let v3 = put (put v2 17 (some sys_semp)) 18 (some sys_semv) in
    put (put v3 20 (some sys_gettime)) 22 (some sys_getpid)

unfoldable pub phase3_init : State → Cmd State (Unit {0})
phase3_init t =
    let t1 = record t {
      sems = λ i.
          if ltb i max_sems
          then record (t.sems i) { value = minus_one; mbox_id = minus_one; in_use = false }
          else t.sems i;
      queued = 0;
    } in
    and_then (in_phase2 (mbox_create (pos 0) (pos 0)) t1) λ id u. done tt (record u {
      mbox_lock_id = id;
      kernel = record u.kernel { system_call_vec = install u.kernel.system_call_vec };
    })
