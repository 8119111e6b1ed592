-- ===== src/Phase1a/Unlinking.antt =====
-- The children of a process after `join` of phase1a-archive/phase1a.c has taken one of them out.
use elissa_x_priscilla_colla.Base.{
  ℕ, zero, suc, ◌<◌, ◌≤◌, ◌≡◌, ◌≢◌, sym, subst, ◌∙◌, some, List, [], ◌∷◌, Bool-cases, inl, inr,
  ◌==◌, arith, length,
}
use elissa_x_priscilla_colla.Base.Run.{Finishes, Finishes-mono}
use elissa_x_priscilla_colla.Phase1b.Chain.{IsChain, Absent, Distinct, IsChain-off, without}
use elissa_x_priscilla_colla.Phase1b.State.{max_proc}
use elissa_x_priscilla_colla.Phase1a.State.{State, set_next, set_children}
use elissa_x_priscilla_colla.Phase1a.Processes.{unlink_after, unlink_child}
use elissa_x_priscilla_colla.Phase1a.Latest.{next_of}
use elissa_x_priscilla_colla.Phase1a.Links.{
  OnlyLinks, IsFamily, children_of, set_next-OnlyLinks, set_children-OnlyLinks, set_next_self,
  set_next_ne, set_children_self, next_of-set_children, children_of-set_next,
}

-- An entry of a list that is not its first is one of the others.
pub Absent-later : (c x : ℕ) (xs : List ℕ) → x ≢ c → ¬ Absent c (x ∷ xs) → ¬ Absent c xs
Absent-later c x xs ne in_list off = in_list (ne, off)

module _ (s : State) (c : ℕ) where
  -- Child `c` has been taken out of the list `cs` behind entry `j`.
  record IsCutAfter (j : ℕ) (cs : List ℕ) (t : State) : Type 0 where
    chain : IsChain (next_of t) (next_of t j) (without c cs)
    same : (k : ℕ) → Absent k (j ∷ cs) → next_of t k ≡ next_of s k
    heads : (k : ℕ) → children_of t k ≡ children_of s k
    frame : OnlyLinks s t

  cut_here :
      (j x : ℕ) (cs : List ℕ)
      → x ≡ c
      → Absent j cs
      → IsChain (next_of s) (next_of s x) cs
      → IsChain (next_of (set_next s j (next_of s c))) (next_of (set_next s j (next_of s c)) j) cs
  cut_here j x cs e off chain = rw (set_next_self s j (next_of s c)) (
      IsChain-off (next_of s) (next_of (set_next s j (next_of s c))) (λ k. k ≢ j)
        (λ k ne. set_next_ne s j k (next_of s c) ne) cs (next_of s c) off
        (subst (λ y. IsChain (next_of s) (next_of s y) cs) e chain))

  unlink_after-IsCutAfter :
      (fuel j : ℕ) (cs : List ℕ)
      → Distinct (j ∷ cs)
      → IsChain (next_of s) (next_of s j) cs
      → ¬ Absent c cs
      → length cs < fuel
      → Finishes (λ _ t. IsCutAfter j cs t) (unlink_after fuel c (some j) s)
  unfolding unlink_after
  unlink_after-IsCutAfter zero j cs d chain in_list l = absurd (omega arith)
  unlink_after-IsCutAfter (suc f) j [] d chain in_list l = absurd (in_list tt)
  unlink_after-IsCutAfter (suc f) j (x ∷ xs) d chain in_list l = elim (Bool-cases (x == c)) [
    | inl e ↦
        rw (chain.0, unlink_after, e)
          (record {
            chain = rw e (cut_here j x xs (ground arith) (d.0.1) (chain.1));
            same = λ k off. set_next_ne s j k (next_of s c) (λ i. off.0 (sym i));
            heads = λ k. children_of-set_next s j k (next_of s c);
            frame = set_next-OnlyLinks s j (next_of s c);
          })
    | inr ne ↦
        rw (chain.0, unlink_after, ne)
          (Finishes-mono (λ _ t. IsCutAfter x xs t) (λ _ t. IsCutAfter j (x ∷ xs) t)
            (unlink_after f c (some x) s)
            (λ _ t u. record {
              chain = rw ne (u.same j (d.0) ∙ chain.0, u.chain);
              same = λ k off. u.same k (off.1);
              heads = u.heads;
              frame = u.frame;
            })
            (unlink_after-IsCutAfter f x xs (d.1) (chain.1)
              (Absent-later c x xs (ground arith) in_list) (omega (arith, l))))
  ]

  -- Child `c` of process `parent` has been taken out of its children.
  pub record IsCut (parent : ℕ) (cs : List ℕ) (t : State) : Type 0 where
    pub family : IsFamily parent (without c cs) t
    pub frame : OnlyLinks s t

  pub unlink_child-IsCut :
      (parent : ℕ) (cs : List ℕ)
      → IsFamily parent cs s
      → Distinct cs
      → ¬ Absent c cs
      → length cs ≤ max_proc
      → Finishes (λ _ t. IsCut parent cs t) (unlink_child parent c s)
  unfolding unlink_child
  unlink_child-IsCut parent [] chain d in_list l = absurd (in_list tt)
  unlink_child-IsCut parent (x ∷ xs) chain d in_list l = elim (Bool-cases (x == c)) [
    | inl e ↦
        rw (chain.0, e)
          (record {
            family =
                rw (e, set_children_self s parent (next_of s c))
                  (IsChain-off (next_of s) (next_of (set_children s parent (next_of s c)))
                    (λ k. k ≢ x) (λ k ne. next_of-set_children s parent k (next_of s c)) xs
                    (next_of s c) (d.0)
                    (subst (λ y. IsChain (next_of s) (next_of s y) xs) (ground arith) (chain.1)));
            frame = set_children-OnlyLinks s parent (next_of s c);
          })
    | inr ne ↦
        rw (chain.0, ne)
          (Finishes-mono (λ _ t. IsCutAfter x xs t) (λ _ t. IsCut parent (x ∷ xs) t)
            (unlink_after (suc max_proc) c (some x) s)
            (λ _ t u. record {
              family = rw ne (u.heads parent ∙ chain.0, u.chain);
              frame = u.frame;
            })
            (unlink_after-IsCutAfter (suc max_proc) x xs d (chain.1)
              (Absent-later c x xs (ground arith) in_list) (omega (arith, l))))
  ]
