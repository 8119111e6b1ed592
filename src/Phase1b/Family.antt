-- ===== src/Phase1b/Family.antt =====
-- The children of a process after `spork` of phase1b-archive/phase1b.c.
use elissa_x_priscilla_colla.Base.{
  ℕ, ◌≤◌, ◌≡◌, ◌≢◌, refl, sym, ap, ◌∙◌, Option, none, some, List, [], ◌∷◌, ◌++◌, Bool-cases, inl,
  inr, ltb, if◌then◌else◌, length, arith, put_self, put_ne,
}
use elissa_x_priscilla_colla.Base.Run.{Finishes, Finishes-mono}
use elissa_x_priscilla_colla.Phase1b.State.{State, proc, set_children, set_sibling, max_proc}
use elissa_x_priscilla_colla.Phase1b.Spork.{link_last, link_child}
use elissa_x_priscilla_colla.Phase1b.Chain.{
  IsChain, Absent, Distinct, last_of, last_of-ne, last-Chain, IsChain-off, append-IsChain,
}
use elissa_x_priscilla_colla.Phase1b.Frames.{
  OnlyFamilies, OnlyFamilies-trans, set_sibling-OnlyFamilies, set_children-OnlyFamilies,
}
use elissa_x_priscilla_colla.Phase1b.Reaping.{
  sibling_of, keeps_children, children_sibling, set_sibling_self, set_sibling_ne,
}

-- The children of the process are the list `cs`.
abbrev pub IsFamily : ℕ → List ℕ → State → Type 0
IsFamily parent cs t = IsChain (sibling_of t) (proc t parent).children cs

-- The children of process `parent` are now the list `ds`, and nothing else has changed but the links
-- of `cs` and `p`.
pub record IsLinked (s : State) (parent p : ℕ) (cs ds : List ℕ) (t : State) : Type 0 where
  pub family : IsFamily parent ds t
  pub siblings : (k : ℕ) → k ≢ p → Absent k cs → sibling_of t k ≡ sibling_of s k
  pub heads : (k : ℕ) → k ≢ parent → (proc t k).children ≡ (proc s k).children
  pub frame : OnlyFamilies s t

module _ (s : State) (parent p : ℕ) where
  head_ne :
      (n : Option ℕ) (k : ℕ)
      → k ≢ parent
      → (proc (set_children s parent n) k).children ≡ (proc s k).children
  head_ne n k ne = ap (λ q. q.children) (put_ne s.process_table parent _ k ne)

  link_last-IsLinked :
      (cs : List ℕ)
      → IsFamily parent cs s
      → Distinct cs
      → Absent p cs
      → sibling_of s p ≡ none
      → length cs ≤ max_proc
      → Finishes (λ _ t. IsLinked s parent p cs (cs ++ (p ∷ [])) t) (link_last parent p s)
  unfolding link_last
  link_last-IsLinked [] c d a end l =
      rw (c, link_last)
        (record {
          family = (
            ap (λ q. q.children) (put_self s.process_table parent _),
            children_sibling s parent (some p) p ∙ end,
          );
          siblings = λ k ne off. children_sibling s parent (some p) k;
          heads = head_ne (some p);
          frame = set_children-OnlyFamilies s parent (some p);
        })
  link_last-IsLinked (x ∷ xs) c d a end l =
      let y = last_of x xs in
      rw (c.0, link_last, last-Chain max_proc (sibling_of s) x xs (c.1) (omega (arith, l)))
        (record {
          family = (
            keeps_children s parent s y _ refl ∙ c.0,
            append-IsChain (sibling_of s) (sibling_of (set_sibling s y (some p))) p x xs d (c.1)
                (set_sibling_self s parent y (some p))
                (set_sibling_ne s parent y p (some p) (λ e. last_of-ne p x xs a (sym e)) ∙ end)
                (λ k ne. set_sibling_ne s parent y k (some p) ne),
          );
          siblings =
              λ k ne off. set_sibling_ne s parent y k (some p) (λ e. last_of-ne k x xs off (sym e));
          heads = λ k ne. keeps_children s k s y _ refl;
          frame = set_sibling-OnlyFamilies s y (some p);
        })

  without_sibling :
      (n : Option ℕ) (cs : List ℕ) (h : Option ℕ)
      → Absent p cs
      → IsChain (sibling_of s) h cs
      → IsChain (sibling_of (set_sibling s p n)) h cs
  without_sibling n cs h a c =
      IsChain-off (sibling_of s) (sibling_of (set_sibling s p n)) (λ k. k ≢ p)
        (λ k ne. set_sibling_ne s parent p k n ne) cs h a c

-- The children with the new process among them.
abbrev pub joined_by : State → (parent p : ℕ) → List ℕ → List ℕ
joined_by s parent p cs =
    if ltb (proc s parent).priority (proc s p).priority then cs ++ (p ∷ []) else p ∷ cs

pub link_child-IsLinked :
    (s : State) (parent p : ℕ) (cs : List ℕ)
    → IsFamily parent cs s
    → Distinct cs
    → Absent p cs
    → length cs ≤ max_proc
    → Finishes (λ _ t. IsLinked s parent p cs (joined_by s parent p cs) t) (link_child parent p s)
unfolding link_child
link_child-IsLinked s parent p cs c d a l =
    elim (Bool-cases (ltb (proc s parent).priority (proc s p).priority)) [
      | inl less ↦
          let u = set_sibling s p none in
          rw less (
            Finishes-mono (λ _ t. IsLinked u parent p cs (cs ++ (p ∷ [])) t)
              (λ _ t. IsLinked s parent p cs (cs ++ (p ∷ [])) t) (link_last parent p u)
              (λ _ t x. record {
                family = x.family;
                siblings = λ k ne off. x.siblings k ne off ∙ set_sibling_ne s parent p k none ne;
                heads = λ k ne. x.heads k ne ∙ keeps_children s k s p _ refl;
                frame = OnlyFamilies-trans s u t (set_sibling-OnlyFamilies s p none) x.frame;
              })
              (link_last-IsLinked u parent p cs
                (rw (keeps_children s parent s p (record (proc s p) { sibling = none }) refl)
                  (without_sibling s parent p none cs (proc s parent).children a c))
                d a (set_sibling_self s parent p none) l))
      | inr more ↦
          let n = (proc s parent).children in
          let u = set_sibling s p n in
          rw more (record {
            family = (
              ap (λ q. q.children) (put_self u.process_table parent _),
              rw (children_sibling u parent (some p) p, set_sibling_self s parent p n)
                  (IsChain-off (sibling_of s) (sibling_of (set_children u parent (some p)))
                    (λ k. k ≢ p)
                    (λ k ne.
                      children_sibling u parent (some p) k ∙ set_sibling_ne s parent p k n ne)
                    cs n a c),
            );
            siblings =
                λ k ne off. children_sibling u parent (some p) k ∙ set_sibling_ne s parent p k n ne;
            heads = λ k ne. head_ne u parent p (some p) k ne ∙ keeps_children s k s p _ refl;
            frame =
                OnlyFamilies-trans s u (set_children u parent (some p))
                  (set_sibling-OnlyFamilies s p n) (set_children-OnlyFamilies u parent (some p));
          })
    ]

-- If the children of a process are the list `cs` of at most 50 different entries, `spork` makes a new
-- process, which is not one of them, the last child if its priority number is higher than the
-- parent's, and the first one if not; the others stay in their order.
pub link_child-IsFamily :
    (s : State) (parent p : ℕ) (cs : List ℕ)
    → IsFamily parent cs s
    → Distinct cs
    → Absent p cs
    → length cs ≤ max_proc
    → Finishes
        (λ _ t.
          IsFamily parent
            (if ltb (proc s parent).priority (proc s p).priority then cs ++ (p ∷ []) else p ∷ cs)
            t)
        (link_child parent p s)
link_child-IsFamily s parent p cs c d a l =
    Finishes-mono (λ _ t. IsLinked s parent p cs (joined_by s parent p cs) t)
      (λ _ t. IsFamily parent (joined_by s parent p cs) t) (link_child parent p s)
      (λ _ t x. x.family) (link_child-IsLinked s parent p cs c d a l)
