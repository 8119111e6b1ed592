-- ===== src/Phase3/Boot.antt =====
-- What `phase3_init` of phase3/phase3.c leaves.
use elissa_x_priscilla_colla.Base.{
  ℕ, ◌<◌, ◌≡◌, ◌≢◌, ◌⊎◌, refl, ap, subst, some, true, arith, put_self, ◌∙◌, ℤ, pos, false, Option,
  ltb, if◌then◌else◌, inl, inr, minus_one,
}
use elissa_x_priscilla_colla.Base.Run.{
  Finishes, Finishes-mono, Finishes-and_then, Finishes-focus, Finishes-Safe,
}
use elissa_x_priscilla_colla.Phase2.State as Mail
use elissa_x_priscilla_colla.Phase2.State.{
  Handler, active, set_mailbox, sys_spawn, sys_wait, sys_terminate, sys_semcreate, sys_semp,
  sys_semv, sys_gettime, sys_getpid,
}
use elissa_x_priscilla_colla.Phase2.Lifecycle.{mbox_create, fresh_mailbox}
use elissa_x_priscilla_colla.Phase2.Invariant.{IsValid}
use elissa_x_priscilla_colla.Phase2.Safety.{Anything, Never}
use elissa_x_priscilla_colla.Phase2.Safety.Searching.{IsFirstClosed}
use elissa_x_priscilla_colla.Phase2.Safety.Creation.{
  AllReleased, IsCreate, IsCreated, Creates, refused, none_closed, no_memory, created,
  mbox_create-Safe,
}
use elissa_x_priscilla_colla.Phase2.Safety.Boot.{IsBooted}
use elissa_x_priscilla_colla.Phase3.State.{
  State, Semaphore, max_sems, kernel_part, in_phase2, install, phase3_init,
}
use elissa_x_priscilla_colla.Phase3.Creation.{mbox_create-Returns}

-- A number that none of the system calls of phase 3 has.
abbrev IsOther : ℕ → Type 0
IsOther n = (n ≢ 3) × (n ≢ 4) × (n ≢ 5) × (n ≢ 16) × (n ≢ 17) × (n ≢ 18) × (n ≢ 20) × (n ≢ 22)

-- The handlers of phase 3 are in `systemCallVec`, and the other entries are those of `old`.
pub record IsInstalled (old vec : ℕ → Option Handler) : Type 0 where
  pub spawn : vec 3 ≡ some sys_spawn
  pub wait : vec 4 ≡ some sys_wait
  pub terminate : vec 5 ≡ some sys_terminate
  pub semcreate : vec 16 ≡ some sys_semcreate
  pub semp : vec 17 ≡ some sys_semp
  pub semv : vec 18 ≡ some sys_semv
  pub gettime : vec 20 ≡ some sys_gettime
  pub getpid : vec 22 ≡ some sys_getpid
  pub others : (n : ℕ) → IsOther n → vec n ≡ old n

install-IsInstalled : (old : ℕ → Option Handler) → IsInstalled old (install old)
unfolding install
install-IsInstalled old = record {
  spawn = refl;
  wait = refl;
  terminate = refl;
  semcreate = refl;
  semp = refl;
  semv = refl;
  gettime = refl;
  getpid = refl;
  others = λ n o. ground (arith, o);
}

-- The lock is a new mailbox, the first that was closed, or -1 if there was none or no memory.
abbrev pub IsLock : State → State → Type 0
IsLock t u =
    (u.mbox_lock_id ≡ minus_one)
    ⊎ ((m : ℕ) × (u.mbox_lock_id ≡ pos m) × IsFirstClosed t.kernel 0 m × (active u.kernel m ≡ true))

-- Every semaphore has been reset, the handlers are installed, the lock is there, and the mailboxes are
-- as `phase2_init` may leave them.
pub record IsStarted (t u : State) : Type 0 where
  pub booted : IsBooted u.kernel
  pub reset :
      (i : ℕ)
      → i < max_sems
      → u.sems i ≡ record (t.sems i) { value = minus_one; mbox_id = minus_one; in_use = false }
  pub none_queued : u.queued ≡ 0
  pub lock : IsLock t u
  pub installed : IsInstalled t.kernel.system_call_vec u.kernel.system_call_vec

abbrev reset_sems : (ℕ → Semaphore) → ℕ → Semaphore
reset_sems sems i =
    if ltb i max_sems
    then record (sems i) { value = minus_one; mbox_id = minus_one; in_use = false }
    else sems i

vec-IsBooted :
    {s k : Mail.State} {o : Option ℤ} {z : ℤ} (v : ℕ → Option Handler)
    → IsBooted s
    → IsCreate (pos 0) (pos 0) s o z k
    → IsBooted (record k { system_call_vec = v })
vec-IsBooted v b c = record {
  valid = record {
    free_fits = c.valid.free_fits;
    free = c.valid.free;
    free_distinct = c.valid.free_distinct;
    rings = c.valid.rings;
    held = c.valid.held;
    held_distinct = c.valid.held_distinct;
    open_boxes = c.valid.open_boxes;
    producers_fit = c.valid.producers_fit;
    consumers_fit = c.valid.consumers_fit;
  };
  all_nullsys = λ n l. rw (c.same_vec) (b.all_nullsys n l);
  handles_syscalls = c.same_int ∙ b.handles_syscalls;
}

created-IsLock :
    (t u : State) (o : Option ℤ)
    → Creates (pos 0) (pos 0) t.kernel o u.mbox_lock_id u.kernel
    → IsLock t u
created-IsLock t u o (refused a e shape same) = inl e
created-IsLock t u o (none_closed a e all same) = inl e
created-IsLock t u o (no_memory m a e first same) = inl e
created-IsLock t u o (created m address a there e shape first same) =
    inr (m, e, first, rw same (put_active t.kernel m))
  where
    put_active : (k : Mail.State) (i : ℕ) → active (set_mailbox k i (fresh_mailbox i 0 0)) i ≡ true
    put_active k i = ap (λ b. b.is_active) (put_self k.mailboxes i _)

module _ (t : State) (b : IsBooted t.kernel) (released : AllReleased t.kernel) where
  started :
      (id : ℤ) (u : State)
      → IsCreated (pos 0) (pos 0) t.kernel id u.kernel
      → (u.sems ≡ reset_sems t.sems) × (u.queued ≡ 0)
      → IsStarted t (record u {
        mbox_lock_id = id;
        kernel = record u.kernel { system_call_vec = install u.kernel.system_call_vec };
      })
  started id u (o, c) e = record {
    booted = vec-IsBooted (install u.kernel.system_call_vec) b c;
    reset = λ i l. ap (λ f. f i) (e.0) ∙ reset_below i l;
    none_queued = e.1;
    lock = created-IsLock t (record u { mbox_lock_id = id }) o c.creates;
    installed =
        subst (λ v. IsInstalled v (install u.kernel.system_call_vec)) c.same_calls
          (install-IsInstalled u.kernel.system_call_vec);
  }
    where
      reset_below :
          (i : ℕ)
          → i < max_sems
          → reset_sems t.sems i
            ≡ record (t.sems i) { value = minus_one; mbox_id = minus_one; in_use = false }
      reset_below i l = let below : ltb i max_sems ≡ true = ground (arith, l) in rw below refl

  -- After `phase2_init`, with no messages in closed mailboxes, `phase3_init` returns. Each of the 200
  -- semaphores then is not in use, with -1 as its value and its mailbox; no process is queued; the lock is
  -- a new open mailbox, or -1; the eight handlers of phase 3 are in `systemCallVec`, the other entries of
  -- which are as they were; the mailboxes are valid; and `sys_vec` has `nullsys` in every entry.
  pub phase3_init-IsStarted : Finishes (λ _ u. IsStarted t u) (phase3_init t)
  unfolding phase3_init
  phase3_init-IsStarted =
      Finishes-and_then _ (λ _ u. IsStarted t u)
        (in_phase2 (mbox_create (pos 0) (pos 0))
          (record t { sems = reset_sems t.sems; queued = 0 }))
        _
        (Finishes-focus kernel_part (IsCreated (pos 0) (pos 0) t.kernel)
          (λ u. (u.sems ≡ reset_sems t.sems) × (u.queued ≡ 0)) (λ s u j. j) (λ s u. refl)
          (mbox_create (pos 0) (pos 0) t.kernel) _ (refl, refl)
          (Finishes-mono _ _ (mbox_create (pos 0) (pos 0) t.kernel) (λ id k h. h.0)
            (Finishes-Safe IsValid Anything Never _ _ (mbox_create (pos 0) (pos 0) t.kernel)
              (λ c k. tt) (mbox_create-Safe (b.valid) released (pos 0) (pos 0))
              (mbox_create-Returns (pos 0) (pos 0) t.kernel))))
        (λ id u h. started id u (h.0) (h.1))
