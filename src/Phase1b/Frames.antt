-- ===== src/Phase1b/Frames.antt =====
-- What the operations on the lists of phase1b-archive/phase1b.c leave alone: those on the ready
-- queues all but `next`, those on the children all but `children` and `sibling`.
use elissa_x_priscilla_colla.Base.{ℕ, ◌≡◌, refl, sym, ap, ◌∙◌, Option, none, put-cases}
use elissa_x_priscilla_colla.Phase1b.State.{
  State, Process, proc, set_proc, set_queue, set_next, set_sibling, set_children,
}

pub record OnlyQueues (s t : State) : Type 0 where
  pub entries : (k : ℕ) → proc t k ≡ record (proc s k) { next = (proc t k).next }
  pub running : t.running_process ≡ s.running_process
  pub counter : t.next_pid ≡ s.next_pid

pub record OnlyFamilies (s t : State) : Type 0 where
  pub entries :
      (k : ℕ)
      → proc t k
        ≡ record (proc s k) { children = (proc t k).children; sibling = (proc t k).sibling }
  pub running : t.running_process ≡ s.running_process
  pub counter : t.next_pid ≡ s.next_pid
  pub queues : t.ready_queues ≡ s.ready_queues

pub OnlyQueues-refl : (s : State) → OnlyQueues s s
OnlyQueues-refl s = record { entries = λ k. refl; running = refl; counter = refl }

pub OnlyQueues-trans : (s t u : State) → OnlyQueues s t → OnlyQueues t u → OnlyQueues s u
OnlyQueues-trans s t u x y = record {
  entries = λ k.
      y.entries k
      ∙ ap {A = Process} {B = Process} (λ p. record p { next = (proc u k).next }) (x.entries k);
  running = y.running ∙ x.running;
  counter = y.counter ∙ x.counter;
}

pub set_next-OnlyQueues : (s : State) (i : ℕ) (n : Option ℕ) → OnlyQueues s (set_next s i n)
set_next-OnlyQueues s i n = record {
  entries = λ k.
      put-cases (λ p. p ≡ record (proc s k) { next = p.next }) s.process_table i _ k
        (λ e. ap (λ j. record (proc s j) { next = n }) (sym e)) (λ _. refl);
  running = refl;
  counter = refl;
}

pub set_queue-OnlyQueues : (s : State) (q : ℕ) (n : Option ℕ) → OnlyQueues s (set_queue s q n)
set_queue-OnlyQueues s q n = record { entries = λ k. refl; running = refl; counter = refl }

pub OnlyFamilies-refl : (s : State) → OnlyFamilies s s
OnlyFamilies-refl s = record { entries = λ k. refl; running = refl; counter = refl; queues = refl }

pub OnlyFamilies-trans : (s t u : State) → OnlyFamilies s t → OnlyFamilies t u → OnlyFamilies s u
OnlyFamilies-trans s t u x y = record {
  entries = λ k.
      y.entries k
      ∙ ap {A = Process} {B = Process}
          (λ p. record p { children = (proc u k).children; sibling = (proc u k).sibling })
          (x.entries k);
  running = y.running ∙ x.running;
  counter = y.counter ∙ x.counter;
  queues = y.queues ∙ x.queues;
}

-- One entry written, with other links only.
written :
    (s : State) (i : ℕ) (c n : Option ℕ)
    → OnlyFamilies s (set_proc s i (record (proc s i) { children = c; sibling = n }))
written s i c n = record {
  entries = λ k.
      put-cases (λ p. p ≡ record (proc s k) { children = p.children; sibling = p.sibling })
        s.process_table i _ k
        (λ e. ap (λ j. record (proc s j) { children = c; sibling = n }) (sym e)) (λ _. refl);
  running = refl;
  counter = refl;
  queues = refl;
}

pub set_sibling-OnlyFamilies :
    (s : State) (i : ℕ) (n : Option ℕ) → OnlyFamilies s (set_sibling s i n)
set_sibling-OnlyFamilies s i n = written s i (proc s i).children n

pub set_children-OnlyFamilies :
    (s : State) (i : ℕ) (n : Option ℕ) → OnlyFamilies s (set_children s i n)
set_children-OnlyFamilies s i n = written s i n (proc s i).sibling

-- An entry without its links.
abbrev pub bare : Process → Process
bare p = record p { children = none; sibling = none; next = none }

pub bare-OnlyQueues : (s t : State) → OnlyQueues s t → (k : ℕ) → bare (proc t k) ≡ bare (proc s k)
bare-OnlyQueues s t f k = ap bare (f.entries k)

pub bare-OnlyFamilies :
    (s t : State) → OnlyFamilies s t → (k : ℕ) → bare (proc t k) ≡ bare (proc s k)
bare-OnlyFamilies s t f k = ap bare (f.entries k)
