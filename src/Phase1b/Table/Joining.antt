-- ===== src/Phase1b/Table/Joining.antt =====
-- `join` of phase1b-archive/phase1b.c keeps the table in order, however often its caller is woken.
use elissa_x_priscilla_colla.Base.{
  ℕ, zero, suc, ◌≡◌, refl, sym, subst, ◌∙◌, ℤ, pos, minus_two, Option, none, some, List, [], ◌∷◌,
  false, inl, inr, ◌⊎◌, arith,
}
use mathlib.Core.Option.{none-ne-some}
use elissa_x_priscilla_colla.Base.Run.{
  Finishes, Finishes-mono, Safe, Safe-and_then, Safe-rely, and_then, done,
}
use elissa_x_priscilla_colla.Base.Quiet.{Quiet-Safe, Finishes-both}
use elissa_x_priscilla_colla.Phase1b.State.{State, Cmd, proc, set_proc, max_proc, deref}
use elissa_x_priscilla_colla.Phase1b.Scheduler.{dispatcher}
use elissa_x_priscilla_colla.Phase1b.Join.{Gone, reap, join_loop, join_as, join}
use elissa_x_priscilla_colla.Phase1b.Chain.{IsChain}
use elissa_x_priscilla_colla.Phase1b.Freeing.{IsFreed, reap-IsFreed, reap-Quiet}
use elissa_x_priscilla_colla.Phase1b.Reaping.{sibling_of, IsReaped, reap-IsReaped}
use elissa_x_priscilla_colla.Phase1b.Table.{IsTable, IsValid, RunsAlive, Rely, family_few}
use elissa_x_priscilla_colla.Phase1b.Table.Same.{IsTable-same, status-IsSame}
use elissa_x_priscilla_colla.Phase1b.Table.Dispatching.{dispatcher-IsSafe, Resumes}
use elissa_x_priscilla_colla.Phase1b.Table.Reaping.{freed-IsTable, quit_same}

-- A loop that may have to wait once more than its fuel allows, with the table in order.
abbrev pub IsPatient : {A : Type 0} → (A → State → Type 0) → Cmd A → Type 0
IsPatient P m = Safe IsValid Rely IsValid (λ a t. IsValid t × P a t) m

-- The same process runs.
abbrev Runs : ℕ → State → Type 0
Runs r t = t.running_process ≡ some r

reap-IsValid :
    (s : State) (parent : ℕ)
    → IsValid s
    → Runs parent s
    → Finishes
        (λ _ t. IsValid t × Runs parent t)
        (reap (suc max_proc) parent none (proc s parent).children s)
reap-IsValid s parent ((qs, fs, x), alive) runs =
    let l = (alive parent runs).0 in
    let m = reap (suc max_proc) parent none (proc s parent).children s in
    Finishes-mono
      (λ found t.
        IsReaped s parent (fs parent) found t
        × (((found ≡ none) × (t ≡ s)) ⊎ ((c : ℕ) × IsFreed s parent (fs parent) c t)))
      (λ _ t. IsValid t × Runs parent t) m
      (λ found t h. elim (h.1) [
        | inl same ↦
            subst (λ u. IsValid u × Runs parent u) (sym (same.1)) (((qs, fs, x), alive), runs)
        | inr (c, y) ↦ (
          (
            (_, _, freed-IsTable x parent c t l y (h.0.children)),
            λ r e.
                let before = alive r (sym y.running ∙ e) in
                (before.0, quit_same x parent c t l y r ∙ before.1),
          ),
          y.running ∙ runs,
        )
      ])
      (Finishes-both _ _ m
        (reap-IsReaped s parent (fs parent) (x.families parent l) (x.families_distinct parent l)
          (family_few x parent l))
        (reap-IsFreed s parent (suc max_proc) (fs parent) (x.families_distinct parent l)
          (x.families parent l) (omega (arith, family_few x parent l))))

-- What `join` does with what the walk has found: it blocks and goes on as `again`, or returns.
abbrev pub next_round : (ℕ → State → Cmd Gone) → ℕ → State → Option Gone → Cmd Gone
next_round again parent t (some g) = done g t
next_round again parent t none =
    and_then (dispatcher (set_proc t parent (record (proc t parent) { status = pos 1 })))
      (λ _ u. again parent u)

next_round-IsPatient :
    (again : ℕ → State → Cmd Gone) (parent : ℕ)
    → ((u : State) → IsValid u → Runs parent u → IsPatient (λ _ t. Runs parent t) (again parent u))
    → (found : Option Gone) (t : State) → IsValid t × Runs parent t
    → IsPatient (λ _ t. Runs parent t) (next_round again parent t found)
next_round-IsPatient again parent goes_on (some g) t h = h
next_round-IsPatient again parent goes_on none t (((qs, fs, x), alive), runs) =
    let u = set_proc t parent (record (proc t parent) { status = pos 1 }) in
    let same =
      status-IsSame t parent (record (proc t parent) { status = pos 1 }) refl
        (sym ((alive parent runs).1)) in
    Safe-and_then IsValid Rely IsValid (λ _ w. IsValid w × Resumes u w) _ (dispatcher u) _
      (Safe-rely IsValid Rely Rely (λ _. ⊥) IsValid _ (λ c a b r. r) (λ _ no. absurd no)
        (dispatcher u) (dispatcher-IsSafe u (qs, fs, IsTable-same same qs fs x)))
      (λ _ w k. goes_on w (k.0) (k.1 parent runs))

join_loop-IsPatient :
    (fuel parent : ℕ) (s : State)
    → IsValid s
    → Runs parent s
    → IsPatient (λ _ t. Runs parent t) (join_loop fuel parent s)
unfolding join_loop
join_loop-IsPatient zero parent s v runs = v
join_loop-IsPatient (suc f) parent s v runs =
    let m = reap (suc max_proc) parent none (proc s parent).children s in
    Safe-and_then IsValid Rely IsValid (λ _ t. IsValid t × Runs parent t) _ m _
      (Quiet-Safe IsValid Rely IsValid (λ _ t. IsValid t × Runs parent t) m
        (reap-Quiet (suc max_proc) parent none (proc s parent).children s)
        (reap-IsValid s parent v runs))
      (λ found t. next_round-IsPatient (join_loop f) parent (join_loop-IsPatient f parent) found t)

-- The result and what `*status` is given: -2 for a process without children; if not, the status of
-- one that has quit, and the caller runs.
abbrev pub Joined : (ℕ → List ℕ) → State → ℕ → ℤ × Option ℤ → State → Type 0
Joined fs s parent r t =
    ((r ≡ (minus_two, none)) × (fs parent ≡ []) × (t ≡ s))
    ⊎ (((code : ℤ) × (r.1 ≡ some code)) × (t.running_process ≡ some parent))

module _ {qs fs : ℕ → List ℕ} {s : State} (x : IsTable qs fs s) (alive : RunsAlive s) (parent : ℕ)
    (runs : s.running_process ≡ some parent) where
  empty : (xs : List ℕ) → IsChain (sibling_of s) none xs → xs ≡ []
  empty [] c = refl
  empty (y ∷ ys) c = absurd (none-ne-some y (c.0))

  -- `join` for the running process, with the first child `c`.
  abbrev join_with : ℕ → Option ℕ → Cmd (ℤ × Option ℤ)
  join_with fuel none = done (minus_two, none) s
  join_with fuel (some _) =
      and_then (join_loop fuel parent s) λ g t. done (g.pid, some g.exit_status) t

  join_with-IsPatient :
      (fuel : ℕ) (c : Option ℕ)
      → (proc s parent).children ≡ c
      → IsPatient (Joined fs s parent) (join_with fuel c)
  join_with-IsPatient fuel none e = (
    ((qs, fs, x), alive),
    inl (
      refl,
      empty (fs parent) (
          subst (λ h. IsChain (sibling_of s) h (fs parent)) e
            (x.families parent ((alive parent runs).0))),
      refl,
    ),
  )
  join_with-IsPatient fuel (some c) e =
      Safe-and_then IsValid Rely IsValid (λ _ t. IsValid t × Runs parent t) _
        (join_loop fuel parent s) _ (join_loop-IsPatient fuel parent s ((qs, fs, x), alive) runs)
        (λ g t h. (h.0, inr ((g.exit_status, refl), h.1)))

  join_as-IsPatient : (fuel : ℕ) → IsPatient (Joined fs s parent) (join_as fuel parent s)
  unfolding join_as
  join_as-IsPatient fuel = join_with-IsPatient fuel (proc s parent).children refl

  -- If the table is in order and process `parent` runs, `join` follows no wild pointer, and the table
  -- is in order wherever it lets another process run, and at the end, provided that the others leave it
  -- in order and that `parent` runs again when it goes on. The result is -2, and nothing has changed,
  -- if the process has no children; if not, a status is written, and `parent` runs.
  pub join-IsPatient : (fuel : ℕ) → IsPatient (Joined fs s parent) (join fuel false s)
  unfolding join
  join-IsPatient fuel =
      subst (λ o. IsPatient (Joined fs s parent) (deref o λ r. join_as fuel r s)) (sym runs)
        (join_as-IsPatient fuel)
