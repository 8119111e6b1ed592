-- ===== src/Phase1b/Reaping.antt =====
-- Which child `join` of phase1b-archive/phase1b.c reports, and what it leaves of the list.
use elissa_x_priscilla_colla.Base.{
  ℕ, zero, suc, ◌<◌, ◌≤◌, ◌≡◌, ◌≢◌, refl, sym, ap, ◌∙◌, Option, none, some, List, [], ◌∷◌,
  Bool-cases, inl, inr, if◌then◌else◌, arith, put_self, put_ne, put-cases, length, Bool, minus_one,
}
use elissa_x_priscilla_colla.Base.Int.{eq_ℤ}
use elissa_x_priscilla_colla.Base.Run.{Finishes, Finishes-mono}
use elissa_x_priscilla_colla.Phase1b.State.{
  State, Process, proc, set_proc, set_children, set_sibling, max_proc,
}
use elissa_x_priscilla_colla.Phase1b.Join.{Gone, free_entry, reap}
use elissa_x_priscilla_colla.Phase1b.Chain.{IsChain, Absent, Distinct, All-both, IsChain-off}

abbrev pub sibling_of : State → ℕ → Option ℕ
sibling_of s i = (proc s i).sibling

abbrev pub has_quit : State → ℕ → Bool
has_quit s c = eq_ℤ (proc s c).status minus_one

-- The first child that has quit, and the list without it.
abbrev pub reported : State → List ℕ → Option Gone
reported s [] = none
reported s (c ∷ cs) =
    if has_quit s c
    then some (record { pid = (proc s c).pid; exit_status = (proc s c).exit_status })
    else reported s cs

abbrev pub remaining : State → List ℕ → List ℕ
remaining s [] = []
remaining s (c ∷ cs) = if has_quit s c then cs else c ∷ remaining s cs

module _ (s : State) (parent : ℕ) where
  -- After the walk past `j`, whose next siblings were `cs`.
  record IsReapedAfter (j : ℕ) (cs : List ℕ) (found : Option Gone) (t : State) : Type 0 where
    found_first : found ≡ reported s cs
    chain : IsChain (sibling_of t) (sibling_of t j) (remaining s cs)
    same : (k : ℕ) → Absent k (j ∷ cs) → sibling_of t k ≡ sibling_of s k
    children : (proc t parent).children ≡ (proc s parent).children

  freed_sibling : (u : State) (c k : ℕ) → k ≢ c → sibling_of (free_entry c u) k ≡ sibling_of u k
  freed_sibling u c k ne = ap (λ p. p.sibling) (put_ne u.process_table c _ k ne)

  pub set_sibling_self : (j : ℕ) (n : Option ℕ) → sibling_of (set_sibling s j n) j ≡ n
  set_sibling_self j n = ap (λ p. p.sibling) (put_self s.process_table j _)

  pub set_sibling_ne :
      (j k : ℕ) (n : Option ℕ) → k ≢ j → sibling_of (set_sibling s j n) k ≡ sibling_of s k
  set_sibling_ne j k n ne = ap (λ p. p.sibling) (put_ne s.process_table j _ k ne)

  pub keeps_children :
      (u : State) (i : ℕ) (p : Process)
      → p.children ≡ (proc u i).children
      → (proc (set_proc u i p) parent).children ≡ (proc u parent).children
  keeps_children u i p e =
      put-cases (λ q. q.children ≡ (proc u parent).children) u.process_table i p parent
        (λ same. e ∙ ap (λ k. (proc u k).children) (sym same)) (λ _. refl)

  reap-After :
      (fuel j : ℕ) (cs : List ℕ)
      → Distinct (j ∷ cs)
      → IsChain (sibling_of s) (sibling_of s j) cs
      → length cs < fuel
      → Finishes (IsReapedAfter j cs) (reap fuel parent (some j) (sibling_of s j) s)
  unfolding reap
  reap-After zero j cs d c l = absurd (omega arith)
  reap-After (suc f) j [] d c l =
      rw (c, reap) (record { found_first = refl; chain = c; same = λ k a. refl; children = refl })
  reap-After (suc f) j (x ∷ cs) d c l = elim (Bool-cases (has_quit s x)) [
    | inl gone ↦
        rw (c.0, reap, gone)
          (record {
            found_first = rw gone refl;
            chain =
                rw
                  (
                    gone,
                    freed_sibling (set_sibling s j (sibling_of s x)) x j (λ e. d.0.0 (sym e)),
                    set_sibling_self j (sibling_of s x),
                  )
                  (IsChain-off (sibling_of s) _ (λ k. (k ≢ j) × (k ≢ x))
                    (λ k ne.
                      freed_sibling (set_sibling s j (sibling_of s x)) x k (ne.1)
                      ∙ set_sibling_ne j k (sibling_of s x) (ne.0))
                    cs (sibling_of s x) (All-both (λ k. k ≢ j) (λ k. k ≢ x) cs (d.0.1) (d.1.0))
                    (c.1));
            same = λ k a.
                freed_sibling (set_sibling s j (sibling_of s x)) x k (λ e. a.1.0 (sym e))
                ∙ set_sibling_ne j k (sibling_of s x) (λ e. a.0 (sym e));
            children =
                keeps_children (set_sibling s j (sibling_of s x)) x _ refl
                ∙ keeps_children s j _ refl;
          })
    | inr there ↦
        rw (c.0, reap, there)
          (Finishes-mono (IsReapedAfter x cs) (IsReapedAfter j (x ∷ cs))
            (reap f parent (some x) (sibling_of s x) s)
            (λ r t u. record {
              found_first = rw there (u.found_first);
              chain = rw there (u.same j (d.0) ∙ c.0, u.chain);
              same = λ k a. u.same k (a.1);
              children = u.children;
            })
            (reap-After f x cs (d.1) (c.1) (omega (arith, l))))
  ]

  pub children_sibling :
      (n : Option ℕ) (k : ℕ) → sibling_of (set_children s parent n) k ≡ sibling_of s k
  children_sibling n k =
      put-cases (λ q. q.sibling ≡ sibling_of s k) s.process_table parent _ k
        (λ same. ap (sibling_of s) (sym same)) (λ _. refl)

  -- What `join` finds, and the children that it leaves.
  pub record IsReaped (cs : List ℕ) (found : Option Gone) (t : State) : Type 0 where
    pub found_first : found ≡ reported s cs
    pub children : IsChain (sibling_of t) (proc t parent).children (remaining s cs)

  reap_from :
      (fuel : ℕ) (cs : List ℕ)
      → IsChain (sibling_of s) (proc s parent).children cs
      → Distinct cs
      → length cs ≤ fuel
      → Finishes (IsReaped cs) (reap (suc fuel) parent none (proc s parent).children s)
  unfolding reap
  reap_from f [] c d l = rw (c, reap) (record { found_first = refl; children = c })
  reap_from f (x ∷ cs) c d l = elim (Bool-cases (has_quit s x)) [
    | inl gone ↦
        let u = set_children s parent (sibling_of s x) in
        let first_child : (proc (free_entry x u) parent).children ≡ sibling_of s x =
          keeps_children u x _ refl ∙ ap (λ p. p.children) (put_self s.process_table parent _) in
        rw (c.0, reap, gone)
          (record {
            found_first = rw gone refl;
            children =
                rw (gone, first_child)
                  (IsChain-off (sibling_of s) _ (λ k. k ≢ x)
                    (λ k ne. freed_sibling u x k ne ∙ children_sibling (sibling_of s x) k) cs
                    (sibling_of s x) (d.0) (c.1));
          })
    | inr there ↦
        rw (c.0, reap, there)
          (Finishes-mono (IsReapedAfter x cs) (IsReaped (x ∷ cs))
            (reap f parent (some x) (sibling_of s x) s)
            (λ r t u. record {
              found_first = rw there (u.found_first);
              children = rw there (u.children ∙ c.0, u.chain);
            })
            (reap-After f x cs d (c.1) (omega (arith, l))))
  ]

  -- If the children of a process are the list `cs` of at most 50 different entries, the walk of `join`
  -- ends; it reports the PID and the exit status of the first child that has quit, if there is one, and
  -- the children are then the others, in their order.
  pub reap-IsReaped :
      (cs : List ℕ)
      → IsChain (sibling_of s) (proc s parent).children cs
      → Distinct cs
      → length cs ≤ max_proc
      → Finishes (IsReaped cs) (reap (suc max_proc) parent none (proc s parent).children s)
  reap-IsReaped cs c d l = reap_from max_proc cs c d l
