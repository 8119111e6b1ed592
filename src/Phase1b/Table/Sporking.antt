-- ===== src/Phase1b/Table/Sporking.antt =====
-- `spork` of phase1b-archive/phase1b.c keeps the table in order, and what it makes.
use elissa_x_priscilla_colla.Base.{
  ℕ, ◌<◌, ◌≡◌, ◌≢◌, refl, sym, ap, subst, ◌∙◌, ℤ, pos, negsuc, minus_one, minus_two, pos_part,
  Option, none, some, List, true, false, Bool-cases, Option-cases, inl, inr, ◌⊎◌, arith, leb, ◌||◌,
  if◌then◌else◌,
}
use mathlib.Core.Bool.{true≢false}
use elissa_x_priscilla_colla.Base.Int.{eq_ℤ, ltb_ℤ}
use elissa_x_priscilla_colla.Base.Run.{Safe, done}
use elissa_x_priscilla_colla.Base.Quiet.{Safe-mono}
use elissa_x_priscilla_colla.Phase1b.State.{State, Cmd, Request, proc, max_proc, min_stack}
use elissa_x_priscilla_colla.Phase1b.Scheduler.{dispatcher}
use elissa_x_priscilla_colla.Phase1b.Spork.{find_slot, new_pid, yield_to, spork_in, spork}
use elissa_x_priscilla_colla.Phase1b.Slots.{
  AllTaken, IsSlot, find_slot-IsSlot, IsNewPid, GivesPid, new_pid-GivesPid,
}
use elissa_x_priscilla_colla.Phase1b.Reaping.{has_quit}
use elissa_x_priscilla_colla.Phase1b.Table.{IsTable, IsValid, RunsAlive, Rely, is_free}
use elissa_x_priscilla_colla.Phase1b.Table.Dispatching.{IsSafe, Resumes, dispatcher-IsSafe}
use elissa_x_priscilla_colla.Phase1b.Table.Making.{Wish, IsSporked, spork_in-Safe}

-- Priority number `n` from 1 to 5.
pub record InRange (prio : ℤ) (n : ℕ) : Type 0 where
  pub number : prio ≡ pos n
  pub above : 0 < n
  pub below : n < 6

-- The result when no process is made.
abbrev pub Refused : State → (size prio r : ℤ) → Type 0
Refused s size prio r =
    ((((n : ℕ) → InRange prio n → ⊥) × (r ≡ minus_one))
      ⊎ ((ltb_ℤ size (pos min_stack) ≡ true) × (r ≡ minus_two)))
    ⊎ (AllTaken s.process_table 0 max_proc × (r ≡ minus_one))

-- Nothing has changed, for a reason; or the result is the PID that the entry chosen has in the end.
abbrev pub Answered : State → (size prio r : ℤ) → State → Type 0
Answered s size prio r t =
    (Refused s size prio r × (t ≡ s))
    ⊎ ((i : ℕ) × IsSlot s.process_table s.next_pid (some i) × (r ≡ (proc t i).pid) × Resumes s t)

-- What is chosen for the new process.
pub record IsChosen (s : State) (prio : ℤ) (n i pid : ℕ) : Type 0 where
  pub range : InRange prio n
  pub slot : IsSlot s.process_table s.next_pid (some i)
  pub number : IsNewPid s.next_pid pid

module _ (s : State) (w : Wish) (size prio : ℤ) where
  out_of_range : (ltb_ℤ prio (pos 1) || ltb_ℤ (pos 5) prio) ≡ true → (n : ℕ) → InRange prio n → ⊥
  out_of_range e n h =
      let e' : (ltb_ℤ (pos n) (pos 1) || ltb_ℤ (pos 5) (pos n)) ≡ true =
        subst (λ z. (ltb_ℤ z (pos 1) || ltb_ℤ (pos 5) z) ≡ true) h.number e in
      let a = h.above in let b = h.below in ground (arith, e', a, b)

  in_range : (z : ℤ) → (ltb_ℤ z (pos 1) || ltb_ℤ (pos 5) z) ≡ false → InRange z (pos_part z)
  in_range (pos n) e = record {
    number = refl;
    above = ground (arith, e);
    below = ground (arith, e);
  }
  in_range (negsuc n) e = absurd (ground (arith, e))

  -- The branches of `spork`.
  pub spork-Safe :
      (I : State → Type 0) (R : Request → State → State → Type 0) (U : State → Type 0)
      (P : ℤ → State → Type 0)
      → ((r : ℤ) → Refused s size prio r → P r s)
      → ((n i pid : ℕ)
          → IsChosen s prio n i pid
          → Safe I R U P (spork_in i pid w.name w.start_func w.arg (pos_part size) n s))
      → Safe I R U P (spork w.name w.start_func w.arg size prio s)
  unfolding spork
  spork-Safe I R U P refused made mode = elim (Bool-cases (eq_ℤ mode (pos 0))) [
    | inl e ↦ rw e tt
    | inr e ↦ elim (Bool-cases (ltb_ℤ prio (pos 1) || ltb_ℤ (pos 5) prio)) [
      | inl bad ↦ rw (e, bad) (refused minus_one (inl (inl (out_of_range bad, refl))))
      | inr fine ↦ elim (Bool-cases (ltb_ℤ size (pos min_stack))) [
        | inl small ↦ rw (e, fine, small) (refused minus_two (inl (inr (small, refl))))
        | inr large ↦ elim (Option-cases (find_slot s.next_pid s.process_table)) [
          | inl full ↦
              rw (e, fine, large, full)
                (refused minus_one (
                  inr (
                    subst (IsSlot s.process_table s.next_pid) full
                        (find_slot-IsSlot s.process_table s.next_pid),
                    refl,
                  )))
          | inr (i, slot) ↦ elim (Option-cases (new_pid 3 s.next_pid)) [
            | inl never ↦ absurd (subst (GivesPid s.next_pid) never (new_pid-GivesPid s.next_pid))
            | inr (pid, number) ↦
                rw (e, fine, large, slot, number)
                  (made (pos_part prio) i pid (record {
                    range = in_range prio fine;
                    slot =
                        subst (IsSlot s.process_table s.next_pid) slot
                          (find_slot-IsSlot s.process_table s.next_pid);
                    number = subst (GivesPid s.next_pid) number (new_pid-GivesPid s.next_pid);
                  }))
          ]
        ]
      ]
    ]
  ]

-- The entry chosen is in the table and unused.
slot-free :
    (s : State) (i : ℕ)
    → IsSlot s.process_table s.next_pid (some i)
    → (i < max_proc) × (is_free s i ≡ true)
slot-free s i (inl h) = (h.below, h.free)
slot-free s i (inr (_, h)) = (omega (arith, h.below), h.free)

-- What `yield_to` does when the running process is `o`.
abbrev yield_from : State → ℕ → Option ℕ → Cmd (Unit {0})
yield_from t i none = done tt t
yield_from t i (some r) =
    if leb (proc t i).priority (proc t r).priority then dispatcher t else done tt t

yield_from-IsSafe :
    (t : State) (i : ℕ) (o : Option ℕ) → IsValid t → IsSafe (λ _ u. Resumes t u) (yield_from t i o)
yield_from-IsSafe t i none v = (v, λ r e. e)
yield_from-IsSafe t i (some r) v = elim (Bool-cases (leb (proc t i).priority (proc t r).priority)) [
  | inl e ↦ rw e (dispatcher-IsSafe t (v.0))
  | inr e ↦ rw e (v, λ r e'. e')
]

yield_to-IsSafe : (t : State) (i : ℕ) → IsValid t → IsSafe (λ _ u. Resumes t u) (yield_to i t)
unfolding yield_to
yield_to-IsSafe t i v = yield_from-IsSafe t i t.running_process v

yield_from-stays :
    (t : State) (i : ℕ) (o : Option ℕ)
    → ((r : ℕ) → o ≡ some r → (proc t r).priority < (proc t i).priority)
    → yield_from t i o ≡ done tt t
yield_from-stays t i none less = refl
yield_from-stays t i (some r) less =
    let l = less r refl in
    let no : leb (proc t i).priority (proc t r).priority ≡ false = ground (arith, l) in rw no refl

-- A less urgent process does not run at once.
yield_to-stays :
    (t : State) (i : ℕ)
    → ((r : ℕ) → t.running_process ≡ some r → (proc t r).priority < (proc t i).priority)
    → yield_to i t ≡ done tt t
unfolding yield_to
yield_to-stays t i less = yield_from-stays t i t.running_process less

module _ {qs fs : ℕ → List ℕ} {s : State} (x : IsTable qs fs s) (alive : RunsAlive s) (w : Wish)
    (size prio : ℤ) where
  -- The running process is not an unused entry.
  runs-used : (i r : ℕ) → i < max_proc → is_free s i ≡ true → s.running_process ≡ some r → r ≢ i
  runs-used i r below free runs e =
      true≢false
        (sym (subst (λ k. has_quit s k ≡ true) (sym e) (x.ended i below free)) ∙ (alive r runs).1)

  sporked-IsValid :
      (n i pid : ℕ) (t : State)
      → is_free s i ≡ true
      → i < max_proc
      → IsSporked qs fs s w i pid n t
      → IsValid t
  sporked-IsValid n i pid t free below y = (
    (_, _, y.table),
    λ r e.
        let runs : s.running_process ≡ some r = sym y.running ∙ e in
        (
          (alive r runs).0,
          ap (λ p. eq_ℤ p.status minus_one) (y.others r (runs-used i r below free runs))
              ∙ (alive r runs).1,
        ),
  )

  -- If the table is in order, `spork` follows no wild pointer, and the table is in order wherever it
  -- lets another process run, and at the end, provided that the others leave it in order and that its
  -- caller runs again when it goes on. It may halt; if not, it refuses, and changes nothing: for a priority that is
  -- not from 1 to 5, for a stack that is too small, or for a full table; or it returns the PID of the
  -- first unused entry from `next_pid % 50` on, as it is then.
  pub spork-IsSafe : IsSafe (Answered s size prio) (spork w.name w.start_func w.arg size prio s)
  spork-IsSafe =
      spork-Safe s w size prio IsValid Rely (λ _. ⊥) _
        (λ r no. (((qs, fs, x), alive), inl (no, refl)))
        (λ n i pid c.
          let (below, free) = slot-free s i c.slot in
          spork_in-Safe x alive w i pid n below free c.range.above (omega (arith, c.range.below))
            IsValid Rely (λ _. ⊥) _ (pos_part size)
            (λ t y.
              Safe-mono IsValid Rely (λ _. ⊥) _ _ (yield_to i t)
                (λ _ u h. (h.0, inr (i, c.slot, refl, λ r e. h.1 r (y.running ∙ e))))
                (yield_to-IsSafe t i (sporked-IsValid n i pid t free below y))))

  -- If the table is in order and the new process is less urgent than the running one, if one runs,
  -- `spork` runs no other process. It may halt; if not, it refuses and changes nothing, as above, or it
  -- returns the next PID
  -- that is allowed, for the first unused entry from `next_pid % 50` on: the entry holds what was asked
  -- for, with the running process as its parent; it is the last one in the ready queue of its priority
  -- and the last child of its parent; every other list is as it was, and every other entry but for its
  -- links.
  pub spork-IsSporked :
      ((r n : ℕ) → s.running_process ≡ some r → InRange prio n → (proc s r).priority < n)
      → Safe
          (λ _. ⊥)
          Rely
          (λ _. ⊥)
          (λ r t.
            (Refused s size prio r × (t ≡ s))
            ⊎ ((n i pid : ℕ) × IsChosen s prio n i pid
                × (r ≡ pos pid)
                × IsSporked qs fs s w i pid n t))
          (spork w.name w.start_func w.arg size prio s)
  spork-IsSporked later =
      spork-Safe s w size prio (λ _. ⊥) Rely (λ _. ⊥) _ (λ r no. inl (no, refl))
        (λ n i pid c.
          let (below, free) = slot-free s i c.slot in
          spork_in-Safe x alive w i pid n below free c.range.above (omega (arith, c.range.below))
            (λ _. ⊥) Rely (λ _. ⊥) _ (pos_part size)
            (λ t y.
              let stays : yield_to i t ≡ done tt t = yield_to-stays t i (λ r e.
                let runs = sym y.running ∙ e in
                let less = later r n runs c.range in
                let same : (proc t r).priority ≡ (proc s r).priority =
                  ap (λ p. p.priority) (y.others r (runs-used i r below free runs)) in
                let new : (proc t i).priority ≡ n = ap (λ p. p.priority) y.entry in
                omega (arith, less, same, new)) in
              rw stays (inr (n, i, pid, c, ap (λ p. p.pid) y.entry, y))))
