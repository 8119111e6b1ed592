-- ===== src/Phase1b/Table/Splicing.antt =====
-- One list of phase1b-archive/phase1b.c is changed: the others stay as they are.
use elissa_x_priscilla_colla.Base.{
  ℕ, suc, ◌<◌, ◌≡◌, ◌≢◌, sym, ◌∙◌, List, put, put-cases, subst, arith,
}
use mathlib.Core.Option.{some-injective}
use elissa_x_priscilla_colla.Phase1b.State.{State, proc, max_proc}
use elissa_x_priscilla_colla.Phase1b.Chain.{
  IsChain-off, IsQueue, next_of, All-map, All-both, Absent,
}
use elissa_x_priscilla_colla.Phase1b.Reaping.{sibling_of}
use elissa_x_priscilla_colla.Phase1b.Family.{IsFamily}
use elissa_x_priscilla_colla.Phase1b.Table.{
  IsTable, IsReady, IsChildOf, Absent-priority, Absent-parent,
}

suc_injective : (m n : ℕ) → suc m ≡ suc n → m ≡ n
suc_injective m n e = omega (arith, e)

module _ {qs fs : ℕ → List ℕ} {s : State} (t : State) (x : IsTable qs fs s) where
  -- The children of `parent` become `ds`, of other links than those of process `p` and of the old
  -- children.
  pub families-put :
      (parent p : ℕ) (ds : List ℕ)
      → parent < max_proc
      → IsFamily parent ds t
      → ((k : ℕ) → k ≢ p → Absent k (fs parent) → sibling_of t k ≡ sibling_of s k)
      → ((k : ℕ) → k ≢ parent → (proc t k).children ≡ (proc s k).children)
      → ((j : ℕ) → j < max_proc → j ≢ parent → Absent p (fs j))
      → (j : ℕ) → j < max_proc
      → IsFamily j (put fs parent ds j) t
  families-put parent p ds l family siblings heads no_child j lj =
      put-cases (λ cs. IsFamily j cs t) fs parent ds j
        (λ e. subst (λ k. IsFamily k ds t) (sym e) family)
        (λ ne. rw (heads j ne) (
          IsChain-off (sibling_of s) (sibling_of t) (λ k. (k ≢ p) × Absent k (fs parent))
            (λ k h. siblings k (h.0) (h.1)) (fs j) (proc s j).children
            (All-both (λ k. k ≢ p) (λ k. Absent k (fs parent)) (fs j) (no_child j lj ne)
              (All-map (IsChildOf s j) (λ k. Absent k (fs parent))
                (λ k c.
                  Absent-parent x parent k l (λ e. ne (some-injective j parent (sym c.parent ∙ e))))
                (fs j) (x.families_fit j lj)))
            (x.families j lj)))

  -- Ready queue `q` becomes `ys`.
  pub queues-put :
      (q p : ℕ) (ys : List ℕ)
      → q < 6
      → IsQueue t q ys
      → ((k : ℕ) → k ≢ p → Absent k (qs q) → next_of t k ≡ next_of s k)
      → ((r : ℕ) → r ≢ q → t.ready_queues r ≡ s.ready_queues r)
      → ((r : ℕ) → r < 6 → r ≢ q → Absent p (qs r))
      → (r : ℕ) → r < 6
      → IsQueue t r (put qs q ys r)
  queues-put q p ys l queue links others absent r lr =
      put-cases (λ xs. IsQueue t r xs) qs q ys r (λ e. subst (λ k. IsQueue t k ys) (sym e) queue)
        (λ ne. rw (others r ne) (
          IsChain-off (next_of s) (next_of t) (λ k. (k ≢ p) × Absent k (qs q))
            (λ k h. links k (h.0) (h.1)) (qs r) (s.ready_queues r)
            (All-both (λ k. k ≢ p) (λ k. Absent k (qs q)) (qs r) (absent r lr ne)
              (All-map (IsReady s r) (λ k. Absent k (qs q))
                (λ k c. Absent-priority x q k l (λ e. ne (suc_injective r q (sym c.priority ∙ e))))
                (qs r) (x.queues_ready r lr)))
            (x.queues r lr)))
