-- ===== src/Usermode/Creation.antt =====
-- `SemCreate` of phase3/phase3_usermode.c together with `sys_semcreate` of phase3/phase3.c.
use elissa_x_priscilla_colla.Base.{
  ℕ, ℤ, ◌<◌, ◌≡◌, ◌⊎◌, refl, ap, ap₂, ◌∙◌, pos, minus_one, inl, inr, arith, if◌then◌else◌,
}
use elissa_x_priscilla_colla.Base.Int.{eq_ℤ}
use elissa_x_priscilla_colla.Base.Run.{halt, ask, Finishes, Finishes-and_then}
use elissa_x_priscilla_colla.Kernel.{Cmd, SyscallNumbers, psr_is_user}
use elissa_x_priscilla_colla.Phase2.Safety.Creation.{AllReleased}
use elissa_x_priscilla_colla.Phase3.State.{State, Sysargs, max_sems}
use elissa_x_priscilla_colla.Phase3.Counting.{Consistent}
use elissa_x_priscilla_colla.Phase3.Semaphores.{sys_semcreate}
use elissa_x_priscilla_colla.Phase3.Creation.{UnusedIdle, IsNew, Created, sys_semcreate-Created}
use elissa_x_priscilla_colla.Usermode.{to_int}
use elissa_x_priscilla_colla.Usermode.Pids.{to_int-pos}
use elissa_x_priscilla_colla.Usermode.Phase3Calls.{
  require_user_mode, user_call, request, sem_create,
}

-- What `SemCreate` gives a caller, the value returned first, and the state that it leaves.
abbrev pub HasCreated : State → ℤ → ℤ × ℤ → State → Type 0
HasCreated t value r u =
    ((r.0 ≡ minus_one) × (u ≡ t)) ⊎ ((i : ℕ) × (r ≡ (pos 0, pos i)) × IsNew t value i u)

-- The run halts in kernel mode, and in user mode it returns with a result and a state for which `Q`
-- holds.
abbrev pub FinishesForUser : {A : Type 0} → (A → State → Type 0) → State → Cmd State A → Type 0
FinishesForUser {A} Q t c =
    (b : Cmd State A) × (c ≡ ask psr_is_user (λ user. if eq_ℤ user (pos 0) then halt 1 t else b))
    × Finishes Q b

to_int-index : (i : ℕ) → i < max_sems → to_int (pos i) ≡ pos i
to_int-index i l = to_int-pos i (omega (arith, l))

to_int-minus_one : to_int minus_one ≡ minus_one
unfolding to_int
to_int-minus_one = refl

-- What `sys_semcreate` gives back, as the caller of `SemCreate` sees it.
Created-HasCreated :
    (t : State) (args r : Sysargs) (u : State)
    → Created t args r u
    → HasCreated t args.arg1 (to_int r.arg4, to_int r.arg1) u
Created-HasCreated t args r u (inl (e, same)) = inl (ap to_int e ∙ to_int-minus_one, same)
Created-HasCreated t args r u (inr (i, index, zero, new)) = inr (
  i,
  ap₂ (λ y z. (y, z)) (ap to_int zero ∙ to_int-pos 0 (omega arith))
      (ap to_int index ∙ to_int-index i new.bound),
  new,
)

-- From a state where the mailboxes are valid and the counts of the semaphores agree, where no closed
-- mailbox has messages and no process waits for a semaphore that is not in use, if system calls go to
-- `sys_semcreate`, `SemCreate` halts a caller in kernel mode; to one in user mode it returns -1 and
-- changes nothing, or it returns 0 with the number of a semaphore that was not in use, which now has
-- the value asked for, and the mailboxes and the counts are as they should.
pub sem_create-HasCreated :
    (n : SyscallNumbers) (t : State)
    → Consistent t
    → AllReleased t.kernel
    → UnusedIdle t
    → (value : ℤ)
    → FinishesForUser
        (λ r u. Consistent u × HasCreated t value r u)
        t
        (sem_create n sys_semcreate value t)
unfolding sem_create user_call require_user_mode
sem_create-HasCreated n t c released idle value = (
  _,
  refl,
  Finishes-and_then _ (λ r u. Consistent u × HasCreated t value r u) (sys_semcreate _ t) _
      (sys_semcreate-Created t c released idle _)
      (λ r u h.
        (h.0, Created-HasCreated t (record (request n.sem_create) { arg1 = value }) r u (h.1))),
)
