-- ===== src/Phase1a/Quitting.antt =====
-- A process that ends by `quit_phase_1a` of phase1a-archive/phase1a.c, and the `join` of its parent.
use elissa_x_priscilla_colla.Base.{
  ℕ, zero, suc, ◌+◌, ◌<◌, ◌≤◌, ◌≡◌, ◌≢◌, refl, sym, ap, subst, ◌∙◌, ℤ, minus_one, Option, some,
  List, [], ◌∷◌, true, false, Bool-cases, Option-cases, inl, inr, ◌==◌, length, put_self, put_ne,
  arith,
}
use mathlib.Core.Bool.{true≢false}
use elissa_x_priscilla_colla.Base.Int.{eq_ℤ}
use elissa_x_priscilla_colla.Base.Run.{halt, call, Finishes, Finishes-mono}
use elissa_x_priscilla_colla.Phase1b.Chain.{IsChain-same, IsChain, All, Absent, Distinct, without}
use elissa_x_priscilla_colla.Phase1b.State.{context_switch, max_proc}
use elissa_x_priscilla_colla.Phase1a.State.{State, proc, set_proc, deref}
use elissa_x_priscilla_colla.Phase1a.Processes.{
  find_pid, target_of, quit_as, quit_phase_1a, has_quit, join,
}
use elissa_x_priscilla_colla.Phase1a.Latest.{next_of, order}
use elissa_x_priscilla_colla.Phase1a.Links.{children_of, IsFamily, unseen}
use elissa_x_priscilla_colla.Phase1a.Unlinking.{Absent-later}
use elissa_x_priscilla_colla.Phase1a.Joining.{Joined, join-Joined}

-- What holds of a whole list holds of its entries.
All-at : (P : ℕ → Type 0) (c : ℕ) (cs : List ℕ) → All P cs → ¬ Absent c cs → P c
All-at P c [] all in_list = absurd (in_list tt)
All-at P c (x ∷ xs) all in_list = elim (Bool-cases (x == c)) [
  | inl e ↦ subst P (ground arith) (all.0)
  | inr ne ↦ All-at P c xs (all.1) (Absent-later c x xs (ground arith) in_list)
]

find_pid-congr :
    (s t : State)
    → ((k : ℕ) → (proc t k).pid ≡ (proc s k).pid)
    → (rounds i : ℕ) (pid : ℤ) → find_pid rounds i pid t ≡ find_pid rounds i pid s
unfolding find_pid
find_pid-congr s t same zero i pid = refl
find_pid-congr s t same (suc r) i pid = elim (Bool-cases (eq_ℤ (proc s i).pid pid)) [
  | inl e ↦ rw (same i, find_pid, e) refl
  | inr ne ↦ rw (same i, find_pid, ne) (find_pid-congr s t same r (suc i) pid)
]

target_of-congr :
    (s t : State)
    → ((k : ℕ) → (proc t k).pid ≡ (proc s k).pid)
    → (pid : ℤ) → target_of pid t ≡ target_of pid s
unfolding target_of
target_of-congr s t same pid = elim (Option-cases (find_pid max_proc 0 pid s)) [
  | inl e ↦ rw (target_of, find_pid-congr s t same max_proc 0 pid, e) refl
  | inr (i, e) ↦ rw (target_of, find_pid-congr s t same max_proc 0 pid, e, same i) refl
]

module _ (s : State) (c : ℕ) (status : ℤ) where
  -- The state after process `c` has been marked as ended.
  abbrev pub ended : State
  ended =
      set_proc (record s { termination_counter = s.termination_counter + 1 }) c
        (record (proc s c) {
          status = minus_one;
          exit_status = status;
          term_order = s.termination_counter;
        })

  ended_self : proc ended c ≡ record (proc s c) {
    status = minus_one;
    exit_status = status;
    term_order = s.termination_counter;
  }
  ended_self = put_self s.process_table c _

  ended_ne : (k : ℕ) → k ≢ c → proc ended k ≡ proc s k
  ended_ne k ne =
      put_ne s.process_table c
        (record (proc s c) {
          status = minus_one;
          exit_status = status;
          term_order = s.termination_counter;
        })
        k ne

  ended_pid : (k : ℕ) → (proc ended k).pid ≡ (proc s k).pid
  ended_pid k = unseen (λ p. p.pid) s c _ k refl

  -- The state after the switch to process `p`.
  abbrev pub switched : ℕ → State
  switched p = record ended { running_process = some p }

  -- What `join` of the parent gives back then, and the children that it leaves.
  abbrev pub JoinsIt : ℕ → List ℕ → ℤ × Option ℤ → State → Type 0
  JoinsIt p cs r u = (r ≡ ((proc s c).pid, some status)) × IsFamily p (without c cs) u

  module _ (p : ℕ) (cs : List ℕ) (child : ¬ Absent c cs)
      (earlier : All (λ d. order s d < s.termination_counter) cs) where
    ended-IsFamily : IsFamily p cs s → IsFamily p cs ended
    ended-IsFamily family =
        subst (λ h. IsChain (next_of ended) h cs) (sym (unseen (λ q. q.children) s c _ p refl))
          (IsChain-same (next_of s) (next_of ended) (λ k. unseen (λ q. q.next) s c _ k refl) cs
            (children_of s p) family)

    -- Only the process that has ended now is the latest.
    latest-ended :
        (d : ℕ)
        → ¬ Absent d cs
        → All (λ k. has_quit ended k ≡ true → order ended k ≤ order ended d) cs
        → d ≡ c
    latest-ended d in_list latest = elim (Bool-cases (d == c)) [
      | inl e ↦ ground arith
      | inr ne ↦
          let mine : order ended c ≡ s.termination_counter = ap (λ q. q.term_order) ended_self in
          let other : order ended d ≡ order s d =
            ap (λ q. q.term_order) (ended_ne d (ground arith)) in
          let before : order s d < s.termination_counter =
            All-at (λ k. order s k < s.termination_counter) d cs earlier in_list in
          let after : order ended c ≤ order ended d =
            All-at (λ k. has_quit ended k ≡ true → order ended k ≤ order ended d) c cs latest child
              (ap (λ q. eq_ℤ q.status minus_one) ended_self) in
          absurd (omega (arith, mine, other, before, after))
    ]

    Joined-JoinsIt :
        (r : ℤ × Option ℤ) (u : State) → Joined (switched p) p cs r u → JoinsIt p cs r u
    Joined-JoinsIt r u (inl (e, unchanged, none_quit)) = absurd (
        true≢false (
          sym (ap (λ q. eq_ℤ q.status minus_one) ended_self)
          ∙ All-at (λ k. has_quit ended k ≡ false) c cs none_quit child))
    Joined-JoinsIt r u (inr (d, e, reported)) =
        let same : d ≡ c = latest-ended d reported.child reported.latest in
        (
          e
              ∙ ap (λ k. ((proc ended k).pid, some (proc ended k).exit_status)) same
              ∙ ap (λ q. (q.pid, some q.exit_status)) ended_self,
          subst (λ k. IsFamily p (without k cs) u) same reported.family,
        )

    quit_as_switches :
        (pid : ℤ)
        → target_of pid s ≡ some p
        → quit_as c status pid s ≡ call (context_switch c p) (switched p) (λ _ u. halt 1 u)
    unfolding quit_as
    quit_as_switches pid target = rw (quit_as, target_of-congr s ended ended_pid pid, target) refl

    -- If process `c` runs and is one of the at most 50 different children `cs` of process `p`, the
    -- termination orders of which are below the counter, and `p` is the process with the PID that
    -- `quit_phase_1a` is given, then `quit_phase_1a` switches to `p`, and if `p` calls `join` in that
    -- state, `join` returns the PID and the status of `c`, and the children are the others, in their order.
    pub quit_phase_1a-join :
        s.running_process ≡ some c
        → IsFamily p cs s
        → Distinct cs
        → length cs ≤ max_proc
        → (pid : ℤ) → target_of pid s ≡ some p
        → (quit_phase_1a status pid s ≡ call (context_switch c p) (switched p) (λ _ u. halt 1 u))
          × Finishes (JoinsIt p cs) (join false (switched p))
    unfolding quit_phase_1a
    quit_phase_1a-join running family distinct few pid target = (
      subst
          (λ r.
            deref r (λ q. quit_as q status pid s)
            ≡ call (context_switch c p) (switched p) (λ _ u. halt 1 u))
          (sym running) (quit_as_switches pid target),
      Finishes-mono (Joined (switched p) p cs) (JoinsIt p cs) (join false (switched p))
          Joined-JoinsIt (join-Joined (switched p) p cs refl (ended-IsFamily family) distinct few),
    )
