-- ===== src/Phase1b/Freeing.antt =====
-- What the walk of `join` of phase1b-archive/phase1b.c leaves alone when it takes a child out of the
-- table.
use elissa_x_priscilla_colla.Base.{
  ℕ, zero, suc, ◌<◌, ◌≡◌, ◌≢◌, refl, sym, ap, ◌∙◌, pos, minus_one, Option, none, some, List, [],
  ◌∷◌, true, false, Bool-cases, inl, inr, ◌⊎◌, length, arith, put_self, put_ne, subst,
}
use elissa_x_priscilla_colla.Base.Run.{Finishes, Finishes-mono}
use elissa_x_priscilla_colla.Base.Quiet.{Quiet}
use elissa_x_priscilla_colla.Phase1b.State.{State, Process, proc}
use elissa_x_priscilla_colla.Phase1b.Join.{Gone, unlink_child, free_entry, reap}
use elissa_x_priscilla_colla.Phase1b.Chain.{IsChain, Absent, All, Distinct}
use elissa_x_priscilla_colla.Phase1b.Frames.{
  OnlyFamilies, set_sibling-OnlyFamilies, set_children-OnlyFamilies,
}
use elissa_x_priscilla_colla.Phase1b.Reaping.{
  sibling_of, has_quit, remaining, keeps_children, set_sibling_ne, children_sibling,
}

abbrev pub In : ℕ → List ℕ → Type 0
In c [] = ⊥
In c (x ∷ xs) = (x ≡ c) ⊎ In c xs

pub In-All : (P : ℕ → Type 0) (c : ℕ) (xs : List ℕ) → In c xs → All P xs → P c
In-All P c [] m a = absurd m
In-All P c (x ∷ xs) (inl e) a = subst P e (a.0)
In-All P c (x ∷ xs) (inr m) a = In-All P c xs m (a.1)

-- The pointer before the child: that of the parent, or of a child.
abbrev Leads : List ℕ → Option ℕ → Type 0
Leads cs none = Unit
Leads cs (some j) = In j cs

abbrev emptied : Process → Process
emptied p = record p { stack = pos 0; pid = minus_one; sibling = none }

module _ (s : State) (parent : ℕ) where
  -- The first child of `cs` that has quit has been taken out, with the pointer `prev` before it, where
  -- all the children are `all`.
  record Takes (cs all : List ℕ) (t : State) : Type 0 where
    child : ℕ
    prev : Option ℕ
    inside : In child cs
    gone : Absent child (remaining s cs)
    member : In child all
    leads : Leads all prev
    quit : has_quit s child ≡ true
    result : t ≡ free_entry child (unlink_child parent prev (sibling_of s child) s)

  abbrev Outcome : (cs all : List ℕ) → Option Gone → State → Type 0
  Outcome cs all found t = ((found ≡ none) × (t ≡ s)) ⊎ Takes cs all t

  Outcome-later :
      (x : ℕ) (xs all : List ℕ)
      → Absent x xs
      → has_quit s x ≡ false
      → (found : Option Gone) (t : State) → Outcome xs all found t
      → Outcome (x ∷ xs) all found t
  Outcome-later x xs all a there found t (inl same) = inl same
  Outcome-later x xs all a there found t (inr k) = inr (record {
    child = k.child;
    prev = k.prev;
    inside = inr k.inside;
    gone = rw there ((λ e. In-All (λ y. y ≢ x) k.child xs k.inside a (sym e)), k.gone);
    member = k.member;
    leads = k.leads;
    quit = k.quit;
    result = k.result;
  })

  reap-Outcome :
      (fuel : ℕ) (cs all : List ℕ) (prev h : Option ℕ)
      → Distinct cs
      → IsChain (sibling_of s) h cs
      → length cs < fuel
      → ((c : ℕ) → In c cs → In c all)
      → Leads all prev
      → Finishes (Outcome cs all) (reap fuel parent prev h s)
  unfolding reap
  reap-Outcome zero cs all prev h d c l sub lead = absurd (omega (arith, l))
  reap-Outcome (suc f) [] all prev h d c l sub lead = rw (c, reap) (inl (refl, refl))
  reap-Outcome (suc f) (x ∷ xs) all prev h d c l sub lead = elim (Bool-cases (has_quit s x)) [
    | inl gone ↦
        rw (c.0, reap, gone)
          (inr (record {
            child = x;
            prev = prev;
            inside = inl refl;
            gone = rw gone (d.0);
            member = sub x (inl refl);
            leads = lead;
            quit = gone;
            result = refl;
          }))
    | inr there ↦
        rw (c.0, reap, there)
          (Finishes-mono (Outcome xs all) (Outcome (x ∷ xs) all)
            (reap f parent (some x) (sibling_of s x) s) (Outcome-later x xs all (d.0) there)
            (reap-Outcome f xs all (some x) (sibling_of s x) (d.1) (c.1) (omega (arith, l))
              (λ y m. sub y (inr m)) (sub x (inl refl))))
  ]

  -- Child `c` of the children `cs` has been taken out, and nothing else has changed but the links of
  -- `cs` and the first child of `parent`.
  pub record IsFreed (cs : List ℕ) (c : ℕ) (t : State) : Type 0 where
    pub member : In c cs
    pub gone : Absent c (remaining s cs)
    pub quit : has_quit s c ≡ true
    pub entry : proc t c ≡ record (proc s c) {
      stack = pos 0;
      pid = minus_one;
      sibling = none;
      children = (proc t c).children;
    }
    pub entries :
        (k : ℕ)
        → k ≢ c
        → proc t k
          ≡ record (proc s k) { children = (proc t k).children; sibling = (proc t k).sibling }
    pub siblings : (k : ℕ) → k ≢ c → Absent k cs → sibling_of t k ≡ sibling_of s k
    pub heads : (k : ℕ) → k ≢ parent → (proc t k).children ≡ (proc s k).children
    pub running : t.running_process ≡ s.running_process
    pub counter : t.next_pid ≡ s.next_pid
    pub queues : t.ready_queues ≡ s.ready_queues

  -- What `unlink_child` leaves alone.
  record IsUnlinked (cs : List ℕ) (u : State) : Type 0 where
    frame : OnlyFamilies s u
    siblings : (k : ℕ) → Absent k cs → sibling_of u k ≡ sibling_of s k
    heads : (k : ℕ) → k ≢ parent → (proc u k).children ≡ (proc s k).children

  Absent-In : (k j : ℕ) (cs : List ℕ) → Absent k cs → In j cs → k ≢ j
  Absent-In k j cs a m e = In-All (λ x. x ≢ k) j cs m a (sym e)

  unlink_child-IsUnlinked :
      (cs : List ℕ) (prev n : Option ℕ)
      → Leads cs prev
      → IsUnlinked cs (unlink_child parent prev n s)
  unlink_child-IsUnlinked cs none n lead = record {
    frame = set_children-OnlyFamilies s parent n;
    siblings = λ k a. children_sibling s parent n k;
    heads = λ k ne. ap (λ p. p.children) (put_ne s.process_table parent _ k ne);
  }
  unlink_child-IsUnlinked cs (some j) n lead = record {
    frame = set_sibling-OnlyFamilies s j n;
    siblings = λ k a. set_sibling_ne s parent j k n (Absent-In k j cs a lead);
    heads = λ k ne. keeps_children s k s j _ refl;
  }

  free_entry-IsFreed :
      (cs : List ℕ) (c : ℕ) (u : State)
      → In c cs
      → Absent c (remaining s cs)
      → has_quit s c ≡ true
      → IsUnlinked cs u
      → IsFreed cs c (free_entry c u)
  free_entry-IsFreed cs c u m g q x = record {
    member = m;
    gone = g;
    quit = q;
    entry = rw (put_self u.process_table c (emptied (proc u c))) (
        ap {A = Process} {B = Process}
          (λ p. record p {
            stack = pos 0;
            pid = minus_one;
            sibling = none;
            children = (proc u c).children;
          })
          (x.frame.entries c));
    entries = λ k ne. rw (put_ne u.process_table c (emptied (proc u c)) k ne) (x.frame.entries k);
    siblings = λ k ne a. ap (λ p. p.sibling) (put_ne u.process_table c _ k ne) ∙ x.siblings k a;
    heads = λ k ne. keeps_children s k u c _ refl ∙ x.heads k ne;
    running = x.frame.running;
    counter = x.frame.counter;
    queues = x.frame.queues;
  }

  pub reap-IsFreed :
      (fuel : ℕ) (cs : List ℕ)
      → Distinct cs
      → IsChain (sibling_of s) (proc s parent).children cs
      → length cs < fuel
      → Finishes
          (λ found t. ((found ≡ none) × (t ≡ s)) ⊎ ((c : ℕ) × IsFreed cs c t))
          (reap fuel parent none (proc s parent).children s)
  reap-IsFreed f cs d c l =
      Finishes-mono (Outcome cs cs) _ (reap f parent none (proc s parent).children s)
        (λ found t o. elim o [
          | inl same ↦ inl same
          | inr k ↦ inr (
            k.child,
            subst (IsFreed cs k.child) (sym k.result) (
                free_entry-IsFreed cs k.child _ k.member k.gone k.quit
                  (unlink_child-IsUnlinked cs k.prev (sibling_of s k.child) k.leads)),
          )
        ])
        (reap-Outcome f cs cs none (proc s parent).children d c l (λ y m. m) tt)

pub reap-Quiet :
    (fuel parent : ℕ) (prev h : Option ℕ) (s : State) → Quiet (reap fuel parent prev h s)
unfolding reap
reap-Quiet zero parent prev h s = tt
reap-Quiet (suc f) parent prev none s = tt
reap-Quiet (suc f) parent prev (some c) s = elim (Bool-cases (has_quit s c)) [
  | inl gone ↦ rw (reap, gone) tt
  | inr there ↦ rw (reap, there) (reap-Quiet f parent (some c) (sibling_of s c) s)
]
