-- ===== src/Phase1a/Sporking.antt =====
-- `spork` of phase1a-archive/phase1a.c: the entry of the new process, and its parent's children.
use elissa_x_priscilla_colla.Base.{
  ℕ, suc, ◌%◌, ◌≡◌, ◌≢◌, ◌⊎◌, ℤ, pos, minus_one, none, some, List, [], ◌∷◌, ◌++◌,
}
use elissa_x_priscilla_colla.Phase1b.State.{Request, max_proc}
use elissa_x_priscilla_colla.Phase1a.State.{State, Process, proc, set_proc}
use elissa_x_priscilla_colla.Phase1a.Processes.{new_process}
use elissa_x_priscilla_colla.Phase1a.Links.{core, children_of, IsFamily}

-- No state, and any change.
abbrev pub Nowhere : State → Type 0
Nowhere s = ⊥

abbrev pub Anyhow : Request → State → State → Type 0
Anyhow c s t = Unit

-- What `spork` is asked for.
pub record Wish : Type 0 where
  pub name : List ℕ
  pub start_func : ℤ
  pub arg : ℤ
  pub priority : ℤ

-- The entry that `spork` tries.
abbrev pub slot_of : State → ℕ
slot_of s = suc s.next_pid % max_proc

-- The entry of the new process, which had `p`, but for its pointers.
abbrev pub made : State → ℕ → Wish → (stack : ℤ) → Process → Process
made s parent w stack p = record (new_process (pos s.next_pid) w.priority w.name (some parent) p) {
  stack = stack;
  start_func = w.start_func;
  arg = w.arg;
}

module _ (s : State) (parent : ℕ) (cs : List ℕ) (w : Wish) where
  -- A process has been made as asked for, the last child of its parent.
  pub record IsMade (u : State) : Type 0 where
    pub unused : (proc s (slot_of s)).pid ≡ minus_one
    pub stack : (proc u (slot_of s)).stack ≢ pos 0
    pub entry :
        core (proc u (slot_of s))
        ≡ core (made s parent w (proc u (slot_of s)).stack (proc s (slot_of s)))
    pub childless : children_of u (slot_of s) ≡ none
    pub family : IsFamily parent (cs ++ (slot_of s ∷ [])) u
    pub others : (k : ℕ) → k ≢ slot_of s → core (proc u k) ≡ core (proc s k)
    pub running : u.running_process ≡ s.running_process
    pub pids : u.next_pid ≡ suc s.next_pid

  -- What `spork` gives back, and the state that it leaves.
  abbrev pub Sporked : ℤ → State → Type 0
  Sporked r u =
      ((r ≡ minus_one)
        × ((proc s (slot_of s)).pid ≢ minus_one)
        × (u ≡ record s { next_pid = suc s.next_pid }))
      ⊎ ((r ≡ pos s.next_pid) × IsMade u)

  -- The state with the new entry, and with its stack too.
  abbrev raised : State
  raised = record s { next_pid = suc s.next_pid }

  abbrev entered : State
  entered =
      set_proc raised (slot_of s)
        (new_process (pos s.next_pid) w.priority w.name (some parent) (proc raised (slot_of s)))

  abbrev filled : ℤ → State
  filled stack =
      set_proc entered (slot_of s) (record (proc entered (slot_of s)) {
        stack = stack;
        start_func = w.start_func;
        arg = w.arg;
      })
