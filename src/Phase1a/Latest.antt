-- ===== src/Phase1a/Latest.antt =====
-- Which child `join` of phase1a-archive/phase1a.c reports.
use elissa_x_priscilla_colla.Base.{
  ℕ, zero, suc, ◌<◌, ◌≤◌, ◌≡◌, refl, sym, ◌∙◌, ℤ, pos, minus_one, Option, none, some, List, [], ◌∷◌,
  true, false, Bool-cases, ◌⊎◌, inl, inr, length, arith, subst,
}
use mathlib.Core.Bool.{true≢false}
use elissa_x_priscilla_colla.Base.Int.{ltb_ℤ}
use elissa_x_priscilla_colla.Base.Run.{Finishes, Finishes-mono}
use elissa_x_priscilla_colla.Phase1b.Chain.{IsChain, All, Absent}
use elissa_x_priscilla_colla.Phase1b.State.{max_proc}
use elissa_x_priscilla_colla.Phase1a.State.{State, proc}
use elissa_x_priscilla_colla.Phase1a.Processes.{has_quit, choose}

module _ (s : State) where
  abbrev pub next_of : ℕ → Option ℕ
  next_of i = (proc s i).next

  abbrev pub order : ℕ → ℕ
  order c = (proc s c).term_order

  -- With the choice `r`, child `c` has not been passed over wrongly.
  abbrev pub IsBest : Option ℕ → ℕ → Type 0
  IsBest none c = has_quit s c ≡ false
  IsBest (some b) c = has_quit s c ≡ true → order c ≤ order b

  abbrev height : Option ℕ → ℤ
  height none = minus_one
  height (some b) = pos (order b)

  -- The choice `r` is at least as late as `target`.
  abbrev IsLater : Option ℕ → Option ℕ → Type 0
  IsLater none r = Unit
  IsLater (some b) none = ⊥
  IsLater (some b) (some b') = order b ≤ order b'

  -- The choice is a child that has quit.
  abbrev pub IsChild : List ℕ → Option ℕ → Type 0
  IsChild cs none = Unit
  IsChild cs (some b) = (has_quit s b ≡ true) × ¬ Absent b cs

  record IsChoice (target : Option ℕ) (cs : List ℕ) (r : Option ℕ) : Type 0 where
    best : All (IsBest r) cs
    later : IsLater target r
    child : (r ≡ target) ⊎ IsChild cs r

  IsLater-self : (target : Option ℕ) → IsLater target target
  IsLater-self none = tt
  IsLater-self (some b) = omega arith

  IsBest-skipped : (r : Option ℕ) (x : ℕ) → has_quit s x ≡ false → IsBest r x
  IsBest-skipped none x e = e
  IsBest-skipped (some b) x e = λ q. absurd (true≢false (sym q ∙ e))

  IsBest-chosen : (r : Option ℕ) (x : ℕ) → IsLater (some x) r → IsBest r x
  IsBest-chosen none x l = absurd l
  IsBest-chosen (some b) x l = λ q. l

  IsBest-earlier :
      (target r : Option ℕ) (x : ℕ)
      → ltb_ℤ (height target) (pos (order x)) ≡ false
      → IsLater target r
      → IsBest r x
  IsBest-earlier none r x e l = absurd (ground arith)
  IsBest-earlier (some b) none x e l = absurd l
  IsBest-earlier (some b) (some b') x e l = λ q. ground (arith, l)

  IsLater-step :
      (target r : Option ℕ) (x : ℕ)
      → ltb_ℤ (height target) (pos (order x)) ≡ true
      → IsLater (some x) r
      → IsLater target r
  IsLater-step none r x e l = tt
  IsLater-step (some b) none x e l = l
  IsLater-step (some b) (some b') x e l = ground (arith, l)

  IsChild-more : (x : ℕ) (xs : List ℕ) (r : Option ℕ) → IsChild xs r → IsChild (x ∷ xs) r
  IsChild-more x xs none c = tt
  IsChild-more x xs (some b) c = (c.0, λ a. c.1 (a.1))

  kept :
      (target r : Option ℕ) (x : ℕ) (xs : List ℕ)
      → IsBest r x
      → IsChoice target xs r
      → IsChoice target (x ∷ xs) r
  kept target r x xs b c = record {
    best = (b, c.best);
    later = c.later;
    child = elim (c.child) [ inl e ↦ inl e | inr k ↦ inr (IsChild-more x xs r k) ];
  }

  taken :
      (target r : Option ℕ) (x : ℕ) (xs : List ℕ)
      → has_quit s x ≡ true
      → ltb_ℤ (height target) (pos (order x)) ≡ true
      → IsChoice (some x) xs r
      → IsChoice target (x ∷ xs) r
  taken target r x xs q e c = record {
    best = (IsBest-chosen r x c.later, c.best);
    later = IsLater-step target r x e c.later;
    child = inr (elim (c.child) [
      | inl same ↦ subst (IsChild (x ∷ xs)) (sym same) (q, λ a. a.0 refl)
      | inr k ↦ IsChild-more x xs r k
    ]);
  }

  choose-IsChoice :
      (fuel : ℕ) (cur target : Option ℕ) (cs : List ℕ)
      → IsChain next_of cur cs
      → length cs < fuel
      → Finishes (λ r t. (t ≡ s) × IsChoice target cs r) (choose fuel cur (height target) target s)
  unfolding choose
  choose-IsChoice zero cur target cs c l = absurd (omega arith)
  choose-IsChoice (suc f) cur target [] c l =
      rw (c, choose) (refl, record { best = tt; later = IsLater-self target; child = inl refl })
  choose-IsChoice (suc f) cur target (x ∷ xs) c l = elim (Bool-cases (has_quit s x)) [
    | inr alive ↦
        rw (c.0, choose, alive)
          (Finishes-mono _ _ (choose f (next_of x) (height target) target s)
            (λ r t h. (h.0, kept target r x xs (IsBest-skipped r x alive) h.1))
            (choose-IsChoice f (next_of x) target xs (c.1) (omega (arith, l))))
    | inl quit ↦ elim (Bool-cases (ltb_ℤ (height target) (pos (order x)))) [
      | inl more ↦
          rw (c.0, choose, quit, more)
            (Finishes-mono _ _ (choose f (next_of x) (pos (order x)) (some x) s)
              (λ r t h. (h.0, taken target r x xs quit more h.1))
              (choose-IsChoice f (next_of x) (some x) xs (c.1) (omega (arith, l))))
      | inr less ↦
          rw (c.0, choose, quit, less)
            (Finishes-mono _ _ (choose f (next_of x) (height target) target s)
              (λ r t h. (h.0, kept target r x xs (IsBest-earlier target r x less (h.1.later)) h.1))
              (choose-IsChoice f (next_of x) target xs (c.1) (omega (arith, l))))
    ]
  ]

  -- If the children of a process are the list `cs` of at most 50 entries, the walk of `join` changes
  -- nothing and finds one of them that has quit and none of which quit later, or none if none has
  -- quit.
  pub choose-IsBest :
      (cur : Option ℕ) (cs : List ℕ)
      → IsChain next_of cur cs
      → length cs ≤ max_proc
      → Finishes
          (λ r t. (t ≡ s) × All (IsBest r) cs × IsChild cs r)
          (choose (suc max_proc) cur minus_one none s)
  choose-IsBest cur cs c l =
      Finishes-mono _ _ (choose (suc max_proc) cur minus_one none s)
        (λ r t h.
          (h.0, h.1.best, elim (h.1.child) [ inl e ↦ subst (IsChild cs) (sym e) tt | inr k ↦ k ]))
        (choose-IsChoice (suc max_proc) cur none cs c (omega (arith, l)))
