-- ===== src/Phase1a/Adding.antt =====
-- The children of a process after `spork` of phase1a-archive/phase1a.c has put one at the end.
use elissa_x_priscilla_colla.Base.{
  ℕ, ◌≤◌, ◌≡◌, ◌≢◌, refl, sym, ap, ◌∙◌, none, some, List, [], ◌∷◌, ◌++◌, length, put_ne, arith,
}
use elissa_x_priscilla_colla.Base.Run.{done}
use elissa_x_priscilla_colla.Phase1b.Chain.{
  Absent, Distinct, append-IsChain, last_of, last_of-ne, last-Chain,
}
use elissa_x_priscilla_colla.Phase1b.State.{max_proc}
use elissa_x_priscilla_colla.Phase1a.State.{State, set_next, set_children}
use elissa_x_priscilla_colla.Phase1a.Processes.{add_child}
use elissa_x_priscilla_colla.Phase1a.Latest.{next_of}
use elissa_x_priscilla_colla.Phase1a.Links.{
  children_of, IsFamily, OnlyLinks, set_next-OnlyLinks, set_children-OnlyLinks, set_next_self,
  set_next_ne, set_children_self, next_of-set_children, children_of-set_next,
}

module _ (s : State) (parent p : ℕ) (cs : List ℕ) where
  -- Process `p` is the last child of `parent`.
  pub record IsAdded (t : State) : Type 0 where
    pub family : IsFamily parent (cs ++ (p ∷ [])) t
    pub heads : (k : ℕ) → k ≢ parent → children_of t k ≡ children_of s k
    pub frame : OnlyLinks s t

abbrev pub Adds : State → (parent p : ℕ) → List ℕ → Type 0
Adds s parent p cs = (t : State) × (add_child parent p s ≡ done tt t) × IsAdded s parent p cs t

pub add_child-Adds :
    (s : State) (parent p : ℕ) (cs : List ℕ)
    → IsFamily parent cs s
    → Distinct cs
    → Absent p cs
    → next_of s p ≡ none
    → length cs ≤ max_proc
    → Adds s parent p cs
unfolding add_child
add_child-Adds s parent p [] c d off end l = (
  set_children s parent (some p),
  rw (c, add_child) refl,
  record {
    family = (set_children_self s parent (some p), next_of-set_children s parent p (some p) ∙ end);
    heads = λ k ne. ap (λ q. q.children) (put_ne s.process_table parent _ k ne);
    frame = set_children-OnlyLinks s parent (some p);
  },
)
add_child-Adds s parent p (x ∷ xs) c d off end l =
    let y = last_of x xs in
    (
      set_next s y (some p),
      rw (c.0, add_child, last-Chain max_proc (next_of s) x xs (c.1) (omega (arith, l))) refl,
      record {
        family = (
          children_of-set_next s y parent (some p) ∙ c.0,
          append-IsChain (next_of s) (next_of (set_next s y (some p))) p x xs d (c.1)
              (set_next_self s y (some p))
              (set_next_ne s y p (some p) (λ e. last_of-ne p x xs off (sym e)) ∙ end)
              (λ k ne. set_next_ne s y k (some p) ne),
        );
        heads = λ k ne. children_of-set_next s y k (some p);
        frame = set_next-OnlyLinks s y (some p);
      },
    )
