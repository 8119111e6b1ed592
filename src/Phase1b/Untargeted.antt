-- ===== src/Phase1b/Untargeted.antt =====
-- The operations of phase1b-archive/phase1b.c other than `zap` leave nobody waiting for another process
-- to end, and they switch only to the process that they say runs.
use elissa_x_priscilla_colla.Base.{
  ℕ, zero, suc, ◌-◌, ◌≡◌, refl, Option, none, some, Bool-cases, Option-cases, inl, inr, put-cases,
  ltb, ◌&&◌, ◌==◌,
}
use elissa_x_priscilla_colla.Base.Holds.{Holds}
use elissa_x_priscilla_colla.Phase1b.State.{
  State, Cmd, Process, Request, context_switch, process_wrapper, start, start_services, proc,
  set_proc, set_next, set_queue, set_sibling, set_children, max_proc, at_queue,
}
use elissa_x_priscilla_colla.Phase1b.Queues.{last, append, relink, unlink, remove_from_ready_queue}
use elissa_x_priscilla_colla.Phase1b.Scheduler.{is_running, pick, switch_to, dispatcher}

-- Nobody waits for another process to end.
abbrev pub Untargeted : State → Type 0
Untargeted s = (i : ℕ) → (proc s i).zap_target ≡ none

-- A switch is to the process that is said to run.
abbrev pub Announces : Request → State → Type 0
Announces (context_switch old next) s = s.running_process ≡ some next
Announces process_wrapper s = (n : ℕ) × (s.running_process ≡ some n)
Announces (start f a) s = Unit
Announces start_services s = Unit

abbrev pub Keeps : {A : Type 0} → Cmd A → Type 0
Keeps m = Holds Untargeted Announces m

pub write-Untargeted :
    (s : State) (i : ℕ) (p : Process)
    → Untargeted s
    → p.zap_target ≡ none
    → Untargeted (set_proc s i p)
write-Untargeted s i p n e k =
    put-cases (λ p'. p'.zap_target ≡ none) s.process_table i p k (λ _. e) (λ _. n k)

set_next-Untargeted :
    (s : State) (i : ℕ) (o : Option ℕ) → Untargeted s → Untargeted (set_next s i o)
set_next-Untargeted s i o n = write-Untargeted s i (record (proc s i) { next = o }) n (n i)

pub set_sibling-Untargeted :
    (s : State) (i : ℕ) (o : Option ℕ) → Untargeted s → Untargeted (set_sibling s i o)
set_sibling-Untargeted s i o n = write-Untargeted s i (record (proc s i) { sibling = o }) n (n i)

pub set_children-Untargeted :
    (s : State) (i : ℕ) (o : Option ℕ) → Untargeted s → Untargeted (set_children s i o)
set_children-Untargeted s i o n = write-Untargeted s i (record (proc s i) { children = o }) n (n i)

pub at_queue-Keeps :
    {A : Type 0} (n : ℕ) (k : ℕ → Cmd A) → ((q : ℕ) → Keeps (k q)) → Keeps (at_queue n k)
at_queue-Keeps n k h = elim (Bool-cases (ltb 0 n && ltb n 7)) [
  | inl e ↦ rw e (h (n - 1))
  | inr e ↦ rw e tt
]

pub append-Keeps : (q p : ℕ) (s : State) → Untargeted s → Keeps (append q p s)
unfolding append
append-Keeps q p s n = elim (Option-cases (s.ready_queues q)) [
  | inl e ↦ rw (e, append) (set_next-Untargeted (set_queue s q (some p)) p none n)
  | inr (h, e) ↦ elim (Option-cases (last max_proc (λ i. (proc s i).next) h)) [
    | inl e' ↦ rw (e, append, e') n
    | inr (l, e') ↦
        rw (e, append, e')
          (set_next-Untargeted (set_next s l (some p)) p none (set_next-Untargeted s l (some p) n))
  ]
]

relink-Untargeted :
    (q : ℕ) (prev o : Option ℕ) (s : State) → Untargeted s → Untargeted (relink q prev o s)
relink-Untargeted q none o s n = n
relink-Untargeted q (some j) o s n = set_next-Untargeted s j o n

unlink-Keeps :
    (fuel q p : ℕ) (prev cur : Option ℕ) (s : State)
    → Untargeted s
    → Keeps (unlink fuel q p prev cur s)
unfolding unlink
unlink-Keeps zero q p prev cur s n = n
unlink-Keeps (suc f) q p prev none s n = n
unlink-Keeps (suc f) q p prev (some c) s n = elim (Bool-cases (c == p)) [
  | inl e ↦
      rw (unlink, e)
        (set_next-Untargeted (relink q prev (proc s c).next s) p none
          (relink-Untargeted q prev (proc s c).next s n))
  | inr e ↦ rw (unlink, e) (unlink-Keeps f q p (some c) (proc s c).next s n)
]

pub remove_from_ready_queue-Keeps :
    (p : ℕ) (s : State) → Untargeted s → Keeps (remove_from_ready_queue p s)
unfolding remove_from_ready_queue
remove_from_ready_queue-Keeps p s n =
    at_queue-Keeps (proc s p).priority _
      (λ q. unlink-Keeps (suc max_proc) q p none (s.ready_queues q) s n)

switch_to-Keeps : (n : ℕ) (s : State) → Untargeted s → Keeps (switch_to n s)
unfolding switch_to
switch_to-Keeps n s u = elim (Bool-cases (is_running n s.running_process)) [
  | inl e ↦ rw e tt
  | inr e ↦ elim (Option-cases s.running_process) [
    | inl e' ↦ rw (e, e') (u, (n, refl), λ z t v. v)
    | inr (old, e') ↦ rw (e, e') (u, refl, λ z t v. v)
  ]
]

pub dispatcher-Keeps : (s : State) → Untargeted s → Keeps (dispatcher s)
unfolding dispatcher
dispatcher-Keeps s u = elim (Option-cases (pick 6 0 s)) [
  | inl e ↦ rw (e, dispatcher) tt
  | inr (h, e) ↦ rw (e, dispatcher) (switch_to-Keeps h s u)
]
