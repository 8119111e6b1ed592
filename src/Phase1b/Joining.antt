-- ===== src/Phase1b/Joining.antt =====
-- `join` of phase1b-archive/phase1b.c when a child has quit already.
use elissa_x_priscilla_colla.Base.{
  ℕ, suc, ◌≤◌, ◌≡◌, refl, sym, ap, subst, ◌∙◌, none, some, List, [], ◌∷◌, false, Option-cases, inl,
  inr, length,
}
use mathlib.Core.Option.{none-ne-some}
use elissa_x_priscilla_colla.Base.Calls.{Calls, Calls-and_then, Calls-map}
use elissa_x_priscilla_colla.Phase1b.Quietness.{reap-Quietly}
use elissa_x_priscilla_colla.Phase1b.State.{State, proc, max_proc, deref}
use elissa_x_priscilla_colla.Phase1b.Join.{Gone, reap, join_loop, join_as, join}
use elissa_x_priscilla_colla.Phase1b.Chain.{IsChain, Distinct}
use elissa_x_priscilla_colla.Phase1b.Reaping.{
  sibling_of, reported, remaining, IsReaped, reap-IsReaped,
}

-- The result that is expected, and the children without the one reported.
abbrev pub Reports : State → ℕ → List ℕ → {A : Type 0} → A → A → State → Type 0
Reports s parent cs expected r t =
    (r ≡ expected) × IsChain (sibling_of t) (proc t parent).children (remaining s cs)

module _ (s : State) (parent : ℕ) (cs : List ℕ)
    (family : IsChain (sibling_of s) (proc s parent).children cs) (distinct : Distinct cs)
    (few : length cs ≤ max_proc) (g : Gone) (quit : reported s cs ≡ some g) where
  join_loop-Reports : (fuel : ℕ) → Calls (Reports s parent cs g) (join_loop (suc fuel) parent s) []
  unfolding join_loop
  join_loop-Reports f =
      Calls-and_then (λ _ _. Unit) (IsReaped s parent cs) (Reports s parent cs g)
        (reap (suc max_proc) parent none (proc s parent).children s) _ []
        (reap-Quietly (suc max_proc) parent none (proc s parent).children s)
        (reap-IsReaped s parent cs family distinct few)
        (λ r t _ h.
          let found : r ≡ some g = h.found_first ∙ quit in rw found (refl, (refl, h.children)))

  not_empty : (xs : List ℕ) → IsChain (sibling_of s) none xs → reported s xs ≡ none
  not_empty [] c = refl
  not_empty (x ∷ xs) c = absurd (none-ne-some x (c.0))

  join_as-Reports :
      (fuel : ℕ)
      → Calls (Reports s parent cs (g.pid, some g.exit_status)) (join_as (suc fuel) parent s) []
  unfolding join_as
  join_as-Reports f = elim (Option-cases ((proc s parent).children)) [
    | inl e ↦ absurd (
        none-ne-some g
          (sym (not_empty cs (subst (λ h. IsChain (sibling_of s) h cs) e family)) ∙ quit))
    | inr (x, e) ↦
        rw (join_as, e)
          (Calls-map (Reports s parent cs g) (Reports s parent cs (g.pid, some g.exit_status))
            (join_loop (suc f) parent s) (λ g. (g.pid, some g.exit_status)) [] (join_loop-Reports f)
            (λ r t h. (ap (λ k. (k.pid, some k.exit_status)) (h.0), h.1)))
  ]

  -- If the children of the running process are the list `cs` of at most 50 different entries, and
  -- some have quit, `join` returns at once, without a switch, the PID and the exit status of the first
  -- such child, and the children are then the others, in their order.
  pub join-Reports :
      (fuel : ℕ)
      → s.running_process ≡ some parent
      → Calls (Reports s parent cs (g.pid, some g.exit_status)) (join (suc fuel) false s) []
  unfolding join
  join-Reports f running =
      subst
        (λ r.
          Calls (Reports s parent cs (g.pid, some g.exit_status)) (deref r λ q. join_as (suc f) q s)
            [])
        (sym running) (join_as-Reports f)
