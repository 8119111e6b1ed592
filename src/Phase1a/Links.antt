-- ===== src/Phase1a/Links.antt =====
-- The pointers of the entries of phase1a-archive/phase1a.c, and what a change of them leaves alone.
use elissa_x_priscilla_colla.Base.{
  ℕ, ◌≡◌, ◌≢◌, refl, sym, ap, ◌∙◌, Option, none, List, put_self, put_ne, put-cases,
}
use elissa_x_priscilla_colla.Phase1b.Chain.{IsChain}
use elissa_x_priscilla_colla.Phase1a.State.{State, Process, proc, set_proc, set_next, set_children}
use elissa_x_priscilla_colla.Phase1a.Latest.{next_of}

-- An entry without its pointers to children and siblings.
abbrev pub core : Process → Process
core p = record p { children = none; next = none }

abbrev pub children_of : State → ℕ → Option ℕ
children_of s i = (proc s i).children

-- The children of process `parent` are the list `cs`.
abbrev pub IsFamily : ℕ → List ℕ → State → Type 0
IsFamily parent cs t = IsChain (next_of t) (children_of t parent) cs

-- Nothing has changed but these pointers.
pub record OnlyLinks (s t : State) : Type 0 where
  pub cores : (k : ℕ) → core (proc t k) ≡ core (proc s k)
  pub running : t.running_process ≡ s.running_process
  pub pids : t.next_pid ≡ s.next_pid
  pub counter : t.termination_counter ≡ s.termination_counter

pub OnlyLinks-refl : (s : State) → OnlyLinks s s
OnlyLinks-refl s = record { cores = λ k. refl; running = refl; pids = refl; counter = refl }

-- A change of one entry, seen by a function that does not see the change.
pub unseen :
    {A : Type 0} (see : Process → A) (s : State) (i : ℕ) (p : Process) (k : ℕ)
    → see p ≡ see (proc s i)
    → see (proc (set_proc s i p) k) ≡ see (proc s k)
unseen see s i p k e =
    put-cases (λ q. see q ≡ see (proc s k)) s.process_table i p k
      (λ same. e ∙ ap (λ j. see (proc s j)) (sym same)) (λ _. refl)

pub set_next-OnlyLinks : (s : State) (i : ℕ) (n : Option ℕ) → OnlyLinks s (set_next s i n)
set_next-OnlyLinks s i n = record {
  cores = λ k. unseen core s i (record (proc s i) { next = n }) k refl;
  running = refl;
  pids = refl;
  counter = refl;
}

pub set_children-OnlyLinks : (s : State) (i : ℕ) (n : Option ℕ) → OnlyLinks s (set_children s i n)
set_children-OnlyLinks s i n = record {
  cores = λ k. unseen core s i (record (proc s i) { children = n }) k refl;
  running = refl;
  pids = refl;
  counter = refl;
}

pub set_next_self : (s : State) (i : ℕ) (n : Option ℕ) → next_of (set_next s i n) i ≡ n
set_next_self s i n = ap (λ p. p.next) (put_self s.process_table i (record (proc s i) { next = n }))

pub set_next_ne :
    (s : State) (i k : ℕ) (n : Option ℕ) → k ≢ i → next_of (set_next s i n) k ≡ next_of s k
set_next_ne s i k n ne =
    ap (λ p. p.next) (put_ne s.process_table i (record (proc s i) { next = n }) k ne)

pub set_children_self : (s : State) (i : ℕ) (n : Option ℕ) → children_of (set_children s i n) i ≡ n
set_children_self s i n =
    ap (λ p. p.children) (put_self s.process_table i (record (proc s i) { children = n }))

pub next_of-set_children :
    (s : State) (i k : ℕ) (n : Option ℕ) → next_of (set_children s i n) k ≡ next_of s k
next_of-set_children s i k n = unseen (λ p. p.next) s i (record (proc s i) { children = n }) k refl

pub children_of-set_next :
    (s : State) (i k : ℕ) (n : Option ℕ) → children_of (set_next s i n) k ≡ children_of s k
children_of-set_next s i k n = unseen (λ p. p.children) s i (record (proc s i) { next = n }) k refl
