-- ===== src/Phase1b/Table/Starting.antt =====
-- `phase1_init` of phase1b-archive/phase1b.c puts the table in order.
use elissa_x_priscilla_colla.Base.{
  ℕ, ◌+◌, ◌<◌, ◌≡◌, refl, sym, ap, ◌∙◌, ℤ, pos, minus_one, none, some, List, [], ◌∷◌, Bool-cases,
  inl, inr, put, put_ne, arith, ltb, lt→ltb, if◌then◌else◌,
}
use mathlib.Core.Bool.{true≢false}
use elissa_x_priscilla_colla.Base.Int.{eq_ℤ}
use elissa_x_priscilla_colla.Base.Run.{Safe}
use elissa_x_priscilla_colla.Phase1b.State.{State, Process, proc, set_proc, set_queue, max_proc}
use elissa_x_priscilla_colla.Phase1b.Startup.{unused, init_entry, phase1_init}
use elissa_x_priscilla_colla.Phase1b.Frames.{set_queue-OnlyQueues}
use elissa_x_priscilla_colla.Phase1b.Removal.{IsChanged}
use elissa_x_priscilla_colla.Phase1b.Table.{IsTable, Rely}
use elissa_x_priscilla_colla.Phase1b.Table.Same.{IsSame, IsTable-same}
use elissa_x_priscilla_colla.Phase1b.Table.Adding.{write-IsTable}
use elissa_x_priscilla_colla.Phase1b.Table.Queueing.{appended-IsTable}

-- The lists of a table without processes.
abbrev nothing : ℕ → List ℕ
nothing i = []

module _ (s : State) (empty : (q : ℕ) → q < 6 → s.ready_queues q ≡ none)
    (idle : s.running_process ≡ none) (name : List ℕ) (init_run : ℤ) where
  abbrev cleared : State
  cleared = record s {
    process_table = λ i. if ltb i max_proc then unused (s.process_table i) else s.process_table i;
  }

  unused_entry : (i : ℕ) → i < max_proc → proc cleared i ≡ unused (s.process_table i)
  unused_entry i l = rw (lt→ltb i max_proc l) refl

  cleared-IsTable : IsTable nothing nothing cleared
  cleared-IsTable = record {
    queues = empty;
    queues_distinct = λ q l. tt;
    queues_ready = λ q l. tt;
    families = λ i l. ap (λ p. p.children) (unused_entry i l);
    families_distinct = λ i l. tt;
    families_fit = λ i l. tt;
    childless = λ i l h. refl;
    ended = λ i l h. ap (λ p. eq_ℤ p.status minus_one) (unused_entry i l);
    priorities =
        λ i l h. absurd (true≢false (sym (ap (λ p. eq_ℤ p.pid minus_one) (unused_entry i l)) ∙ h));
  }

  abbrev init : Process
  init = init_entry name init_run (proc cleared 1)

  abbrev first : State
  first = set_proc cleared 1 init

  abbrev second : ℤ → State
  second address = set_proc first 1 (record (proc first 1) { stack = address })

  first-IsTable : IsTable nothing nothing first
  first-IsTable =
      write-IsTable cleared-IsTable 1 init (λ q l. tt) (λ j l. tt) refl refl
        (record { above = omega arith; below = omega arith }) refl

  second-IsTable : (address : ℤ) → IsTable nothing nothing (second address)
  second-IsTable address =
      write-IsTable first-IsTable 1 (record (proc first 1) { stack = address }) (λ q l. tt)
        (λ j l. tt) refl refl (record { above = omega arith; below = omega arith }) refl

  abbrev started : ℤ → State
  started address = set_queue (second address) 5 (some 1)

  init_queued : (address : ℤ) → IsChanged 5 [] 1 (1 ∷ []) (second address) (started address)
  init_queued address = record {
    queue = (refl, refl);
    links = λ k ne off. refl;
    others = λ r ne. put_ne (second address).ready_queues 5 (some 1) r ne;
    frame = set_queue-OnlyQueues (second address) 5 (some 1);
  }

  started-IsTable : (address : ℤ) → IsTable (put nothing 5 (1 ∷ [])) nothing (started address)
  started-IsTable address =
      appended-IsTable (second-IsTable address) 5 1 (started address) (omega arith)
        (record { below = omega arith; lives = refl; priority = refl }) (init_queued address)
        (λ r l. tt)

  -- From empty ready queues and without a running process, `phase1_init` leaves a table in order, with
  -- the process 1 alone, last in the least urgent queue, and no process running; it lets no other
  -- process run.
  pub phase1_init-IsTable :
      Safe
        (λ _. ⊥)
        Rely
        (λ _. ⊥)
        (λ _ t. IsTable (put nothing 5 (1 ∷ [])) nothing t × (t.running_process ≡ none))
        (phase1_init name init_run s)
  unfolding phase1_init
  phase1_init-IsTable address = elim (Bool-cases (eq_ℤ address (pos 0))) [
    | inl e ↦ rw e tt
    | inr e ↦
        let counted : IsSame (started address)
            (record (started address) { next_pid = s.next_pid + 2 }) =
          record { entries = λ k. refl; lives = λ k. refl; queues = refl } in
        rw e (IsTable-same counted (put nothing 5 (1 ∷ [])) nothing (started-IsTable address), idle)
  ]
