-- ===== src/Phase1b/Table/Blocking.antt =====
-- The functions of phase1b-archive/phase1b.c that block the running process keep the table in order.
use elissa_x_priscilla_colla.Base.{
  ℕ, ◌≡◌, refl, sym, subst, ℤ, pos, minus_one, Option, none, some, List, Bool-cases, inl, inr,
  if◌then◌else◌,
}
use elissa_x_priscilla_colla.Base.Int.{eq_ℤ}
use elissa_x_priscilla_colla.Base.Run.{done, halt}
use elissa_x_priscilla_colla.Base.Quiet.{Safe-mono}
use elissa_x_priscilla_colla.Phase1b.State.{State, Cmd, proc, set_proc, max_proc, deref}
use elissa_x_priscilla_colla.Phase1b.Scheduler.{dispatcher, block_me, find_pid, zap}
use elissa_x_priscilla_colla.Phase1b.Blocked.{
  blocked, SwitchesAway, Zaps, block_me-SwitchesAway, zap-Zaps,
}
use elissa_x_priscilla_colla.Phase1b.Table.{IsTable, IsValid, RunsAlive, Rely}
use elissa_x_priscilla_colla.Phase1b.Table.Same.{IsTable-same, status-IsSame}
use elissa_x_priscilla_colla.Phase1b.Table.Dispatching.{IsSafe, dispatcher-IsSafe}

module _ {qs fs : ℕ → List ℕ} {s : State} (x : IsTable qs fs s) (alive : RunsAlive s) (r : ℕ)
    (runs : s.running_process ≡ some r) where
  -- The running process is blocked, for another one or for nobody in particular.
  blocked-IsSafe :
      (o : Option ℕ)
      → IsSafe
          (λ _ t. t.running_process ≡ some r)
          (dispatcher (set_proc s r (record (proc s r) { status = pos 1; zap_target = o })))
  blocked-IsSafe o =
      let p = record (proc s r) { status = pos 1; zap_target = o } in
      let u = set_proc s r p in
      let same = status-IsSame s r p refl (sym ((alive r runs).1)) in
      Safe-mono IsValid Rely (λ _. ⊥) _ _ (dispatcher u) (λ _ t h. (h.0, h.1 r runs))
        (dispatcher-IsSafe u (qs, fs, IsTable-same same qs fs x))

  pub block_me-IsSafe : IsSafe (λ _ t. t.running_process ≡ some r) (block_me s)
  unfolding block_me
  block_me-IsSafe =
      subst
        (λ o.
          IsSafe (λ _ t. t.running_process ≡ some r)
            (deref o λ r'. dispatcher (set_proc s r' (record (proc s r') { status = pos 1 }))))
        (sym runs) (blocked-IsSafe (proc s r).zap_target)

  -- What `zap` does when the search has found `o`.
  abbrev zap_with : ℕ → Option ℕ → Cmd (Unit {0})
  zap_with r' none = halt 1 s
  zap_with r' (some target) =
      if eq_ℤ (proc s target).status minus_one
      then done tt s
      else dispatcher
          (set_proc s r' (record (proc s r') { status = pos 1; zap_target = some target }))

  zap_with-IsSafe : (o : Option ℕ) → IsSafe (λ _ t. t.running_process ≡ some r) (zap_with r o)
  zap_with-IsSafe none = tt
  zap_with-IsSafe (some target) = elim (Bool-cases (eq_ℤ (proc s target).status minus_one)) [
    | inl e ↦ rw e (((qs, fs, x), alive), runs)
    | inr e ↦ rw e (blocked-IsSafe (some target))
  ]

  zap_as-IsSafe :
      (pid : ℤ)
      → IsSafe
          (λ _ t. t.running_process ≡ some r)
          (if eq_ℤ pid (proc s r).pid then halt 1 s else zap_with r (find_pid max_proc 0 pid s))
  zap_as-IsSafe pid = elim (Bool-cases (eq_ℤ pid (proc s r).pid)) [
    | inl e ↦ rw e tt
    | inr e ↦ rw e (zap_with-IsSafe (find_pid max_proc 0 pid s))
  ]

  pub zap-IsSafe : (pid : ℤ) → IsSafe (λ _ t. t.running_process ≡ some r) (zap pid s)
  unfolding zap
  zap-IsSafe pid =
      subst
        (λ o.
          IsSafe (λ _ t. t.running_process ≡ some r)
            (deref o λ r'.
              if eq_ℤ pid (proc s r').pid
              then halt 1 s
              else zap_with r' (find_pid max_proc 0 pid s)))
        (sym runs) (zap_as-IsSafe pid)

  -- If the table is in order and process `r` runs, `blockMe`, and `zap` for any PID, keep it in order
  -- wherever they let another process run, and at the end, when `r` runs again. `blockMe` marks `r` as
  -- blocked and switches to another process, the one that `dispatcher` is to choose then, or halts if
  -- there is none. `zap` halts for the PID of `r` itself and for one that no entry has; it returns at once
  -- if the first entry with the PID has quit; and if not, it notes that entry as the one that `r` waits
  -- for, and does as `blockMe`.
  pub blocking-IsSafe :
      (pid : ℤ)
      → IsSafe (λ _ t. t.running_process ≡ some r) (block_me s)
        × SwitchesAway r (blocked r (proc s r).zap_target s) (block_me s)
        × IsSafe (λ _ t. t.running_process ≡ some r) (zap pid s)
        × Zaps r pid s (zap pid s)
  blocking-IsSafe pid =
      (block_me-IsSafe, block_me-SwitchesAway s r runs, zap-IsSafe pid, zap-Zaps s r runs pid)
