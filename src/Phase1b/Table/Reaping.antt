-- ===== src/Phase1b/Table/Reaping.antt =====
-- `join` of phase1b-archive/phase1b.c takes a child out of a table that stays in order.
use elissa_x_priscilla_colla.Base.{
  ℕ, ◌<◌, ◌≡◌, ◌≢◌, refl, sym, ap, subst, ◌∙◌, fun_ext, List, [], ◌∷◌, true, Bool-cases, inl, inr,
  put, put-cases, pos, minus_one, none, ◌==◌, ==_iff, arith,
}
use mathlib.Core.Bool.{true≢false}
use mathlib.Core.Option.{some-injective}
use elissa_x_priscilla_colla.Base.Int.{eq_ℤ}
use elissa_x_priscilla_colla.Phase1b.State.{State, Process, proc, max_proc}
use elissa_x_priscilla_colla.Phase1b.Chain.{
  All, All-map, All-both, Absent, Distinct, next_of, IsChain,
}
use elissa_x_priscilla_colla.Phase1b.Freeing.{In, In-All, IsFreed}
use elissa_x_priscilla_colla.Phase1b.Reaping.{has_quit, sibling_of, remaining}
use elissa_x_priscilla_colla.Phase1b.Table.Splicing.{families-put}
use elissa_x_priscilla_colla.Phase1b.Table.{IsTable, IsReady, IsChildOf, is_free, Absent-parent}

All-remaining : (P : ℕ → Type 0) (s : State) (xs : List ℕ) → All P xs → All P (remaining s xs)
All-remaining P s [] a = tt
All-remaining P s (x ∷ xs) a = elim (Bool-cases (has_quit s x)) [
  | inl e ↦ rw e (a.1)
  | inr e ↦ rw e (a.0, All-remaining P s xs (a.1))
]

Distinct-remaining : (s : State) (xs : List ℕ) → Distinct xs → Distinct (remaining s xs)
Distinct-remaining s [] d = tt
Distinct-remaining s (x ∷ xs) d = elim (Bool-cases (has_quit s x)) [
  | inl e ↦ rw e (d.1)
  | inr e ↦ rw e (All-remaining (λ y. y ≢ x) s xs (d.0), Distinct-remaining s xs (d.1))
]

module _ {qs fs : ℕ → List ℕ} {s : State} (x : IsTable qs fs s) (parent c : ℕ) (t : State)
    (l : parent < max_proc) (y : IsFreed s parent (fs parent) c t) where
  -- What neither the links nor the entry that is given back change.
  same :
      {A : Type 0} (f : Process → A) (k : ℕ)
      → f (record (proc s c) {
        stack = pos 0;
        pid = minus_one;
        sibling = none;
        children = (proc t c).children;
      })
        ≡ f (proc s c)
      → f (record (proc s k) { children = (proc t k).children; sibling = (proc t k).sibling })
        ≡ f (proc s k)
      → f (proc t k) ≡ f (proc s k)
  same f k at_c at_k = elim (Bool-cases (k == c)) [
    | inl e ↦
        subst (λ j. f (proc t j) ≡ f (proc s j)) (sym ((==_iff k c).0 e)) (ap f y.entry ∙ at_c)
    | inr e ↦ ap f (y.entries k (ground arith)) ∙ at_k
  ]

  pub quit_same : (k : ℕ) → has_quit t k ≡ has_quit s k
  quit_same k = same (λ p. eq_ℤ p.status minus_one) k refl refl

  priority_same : (k : ℕ) → (proc t k).priority ≡ (proc s k).priority
  priority_same k = same (λ p. p.priority) k refl refl

  free_same : (k : ℕ) → k ≢ c → is_free t k ≡ is_free s k
  free_same k ne = ap (λ p. eq_ℤ p.pid minus_one) (y.entries k ne)

  -- The entry given back was a child of `parent` only.
  child : IsChildOf s parent c
  child = In-All (IsChildOf s parent) c (fs parent) y.member (x.families_fit parent l)

  absent : (j : ℕ) → j < max_proc → j ≢ parent → Absent c (fs j)
  absent j lj ne = Absent-parent x j c lj (λ e. ne (some-injective j parent (sym e ∙ child.parent)))

  All-IsChildOf-other :
      (j : ℕ) (xs : List ℕ) → All (IsChildOf s j) xs → Absent c xs → All (IsChildOf t j) xs
  All-IsChildOf-other j xs a b =
      All-map (λ k. IsChildOf s j k × (k ≢ c)) (IsChildOf t j)
        (λ k h. record {
          below = h.0.below;
          used = free_same k (h.1) ∙ h.0.used;
          parent = same (λ p. p.parent) k refl refl ∙ h.0.parent;
        })
        xs (All-both (IsChildOf s j) (λ k. k ≢ c) xs a b)

  -- A process with children has not quit.
  childless_after :
      (j : ℕ) → j < max_proc → has_quit t j ≡ true → put fs parent (remaining s (fs parent)) j ≡ []
  childless_after j lj h =
      let before = x.childless j lj (sym (quit_same j) ∙ h) in
      put-cases (λ cs. cs ≡ []) fs parent (remaining s (fs parent)) j
        (λ e. absurd (subst (In c) (ap fs (sym e) ∙ before) y.member)) (λ _. before)

  pub freed-IsTable :
      IsChain (sibling_of t) (proc t parent).children (remaining s (fs parent))
      → IsTable qs (put fs parent (remaining s (fs parent))) t
  freed-IsTable family =
      let ds = remaining s (fs parent) in
      let next_same : next_of t ≡ next_of s = fun_ext (λ k. same (λ p. p.next) k refl refl) in
      record {
        queues = λ q lq. rw (next_same, y.queues) (x.queues q lq);
        queues_distinct = x.queues_distinct;
        queues_ready = λ q lq.
            All-map (IsReady s q) (IsReady t q)
              (λ k r. record {
                below = r.below;
                lives = quit_same k ∙ r.lives;
                priority = priority_same k ∙ r.priority;
              })
              (qs q) (x.queues_ready q lq);
        families = families-put t x parent c ds l family y.siblings y.heads absent;
        families_distinct = λ j lj.
            put-cases Distinct fs parent ds j
              (λ _. Distinct-remaining s (fs parent) (x.families_distinct parent l))
              (λ _. x.families_distinct j lj);
        families_fit = λ j lj.
            put-cases (All (IsChildOf t j)) fs parent ds j
              (λ e.
                subst (λ k. All (IsChildOf t k) ds) (sym e)
                  (All-IsChildOf-other parent ds
                    (All-remaining (IsChildOf s parent) s (fs parent) (x.families_fit parent l))
                    y.gone))
              (λ ne. All-IsChildOf-other j (fs j) (x.families_fit j lj) (absent j lj ne));
        childless = childless_after;
        ended = λ k lk h. elim (Bool-cases (k == c)) [
          | inl e ↦ quit_same k ∙ ap (has_quit s) ((==_iff k c).0 e) ∙ y.quit
          | inr e ↦ quit_same k ∙ x.ended k lk (sym (free_same k (ground arith)) ∙ h)
        ];
        priorities = λ k lk h. elim (Bool-cases (k == c)) [
          | inl e ↦
              let free : is_free t k ≡ true =
                ap (is_free t) ((==_iff k c).0 e) ∙ ap (λ p. eq_ℤ p.pid minus_one) y.entry in
              absurd (true≢false (sym free ∙ h))
          | inr e ↦
              let f = x.priorities k lk (sym (free_same k (ground arith)) ∙ h) in
              record { above = rw (priority_same k) f.above; below = rw (priority_same k) f.below }
        ];
      }
