-- ===== src/Phase1b/Table/Dispatching.antt =====
-- `dispatcher` and the functions of phase1b-archive/phase1b.c that block the running process keep
-- the table in order.
use elissa_x_priscilla_colla.Base.{
  ℕ, ◌<◌, ◌≡◌, sym, subst, ◌∙◌, some, List, [], ◌∷◌, Bool-cases, Option-cases, inl, inr, false,
}
use mathlib.Core.Option.{some-injective, none-ne-some}
use elissa_x_priscilla_colla.Base.Run.{Safe}
use elissa_x_priscilla_colla.Phase1b.State.{State, Cmd, max_proc}
use elissa_x_priscilla_colla.Phase1b.Scheduler.{switch_to, dispatcher, is_running}
use elissa_x_priscilla_colla.Phase1b.Chain.{All, IsQueue}
use elissa_x_priscilla_colla.Phase1b.Dispatch.{dispatcher-IsNext}
use elissa_x_priscilla_colla.Phase1b.Reaping.{has_quit}
use elissa_x_priscilla_colla.Phase1b.Table.{IsTable, IsReady, IsOrdered, IsValid, Rely}
use elissa_x_priscilla_colla.Phase1b.Table.Same.{IsTable-same, runs-IsSame}

-- The table is in order wherever other processes run and at the end, where `P` holds; no walk
-- outlives its fuel.
abbrev pub IsSafe : {A : Type 0} → (A → State → Type 0) → Cmd A → Type 0
IsSafe P m = Safe IsValid Rely (λ _. ⊥) (λ a t. IsValid t × P a t) m

-- Whoever ran before runs again.
abbrev pub Resumes : State → State → Type 0
Resumes s t = (r : ℕ) → s.running_process ≡ some r → t.running_process ≡ some r

pub head-IsReady :
    (qs fs : ℕ → List ℕ) (s : State) (q h : ℕ)
    → IsTable qs fs s
    → q < 6
    → s.ready_queues q ≡ some h
    → IsReady s q h
head-IsReady qs fs s q h x l e = of_list (qs q) (x.queues q l) (x.queues_ready q l)
  where
    of_list : (xs : List ℕ) → IsQueue s q xs → All (IsReady s q) xs → IsReady s q h
    of_list [] c a = absurd (none-ne-some h (sym c ∙ e))
    of_list (y ∷ ys) c a = subst (IsReady s q) (some-injective y h (sym (c.0) ∙ e)) (a.0)

switch_to-IsSafe :
    (s : State) (n : ℕ)
    → IsOrdered s
    → n < max_proc
    → has_quit s n ≡ false
    → IsSafe (λ _ t. Resumes s t) (switch_to n s)
unfolding switch_to
switch_to-IsSafe s n (qs, fs, x) l h = elim (Bool-cases (is_running n s.running_process)) [
  | inl e ↦ rw e tt
  | inr e ↦
      let u = record s { running_process = some n } in
      let valid : IsValid u = (
        (qs, fs, IsTable-same (runs-IsSame s (some n)) qs fs x),
        λ r e'.
            let same : n ≡ r = some-injective n r e' in
            (subst (λ k. k < max_proc) same l, subst (λ k. has_quit s k ≡ false) same h),
      ) in
      elim (Option-cases s.running_process) [
        | inl none_runs ↦
            rw (e, none_runs) (valid, λ z t i rely. (i, λ r e'. absurd (none-ne-some r e')))
        | inr (old, runs) ↦ rw (e, runs) (valid, λ z t i rely. (i, λ r e'. rely ∙ e'))
      ]
]

-- If the table is in order, it still is wherever `dispatcher` runs other processes, and afterwards,
-- when the process that called it runs again.
pub dispatcher-IsSafe : (s : State) → IsOrdered s → IsSafe (λ _ t. Resumes s t) (dispatcher s)
dispatcher-IsSafe s (qs, fs, x) = elim (dispatcher-IsNext s) [
  | inl idle ↦ rw (idle.1) tt
  | inr (h, n, e) ↦
      let r = head-IsReady qs fs s n.queue h x n.below n.head in
      rw e (switch_to-IsSafe s h (qs, fs, x) r.below r.lives)
]
