-- ===== src/Phase4/Lines.antt =====
-- The line buffer of `TermDriver` of phase4a/phase4a.c.
use elissa_x_priscilla_colla.Base.{
  ℕ, zero, suc, ◌+◌, ◌<◌, ◌≤◌, ◌≡◌, ◌≢◌, refl, some, Bool-cases, inl, inr, leb, ◌==◌, ◌||◌, pos,
  put, arith, put_self, subst, sym,
}
use elissa_x_priscilla_colla.Base.Run.{Safe, Safe-and_then, Safe-focus}
use elissa_x_priscilla_colla.Kernel.{Request}
use elissa_x_priscilla_colla.Phase2.State.{Buffer}
use elissa_x_priscilla_colla.Phase2.Invariant.{IsValid}
use elissa_x_priscilla_colla.Phase2.Safety.{Never}
use elissa_x_priscilla_colla.Phase2.Safety.Transfers.{mbox_cond_send-IsSafe}
use elissa_x_priscilla_colla.Phase4.State.{State, max_line, kernel_part}
use elissa_x_priscilla_colla.Phase4.Drivers.{strlen, Line, send_line, receive_char}

-- `strlen` finds an end that is there.
strlen-ends :
    (r i z : ℕ) (b : Buffer)
    → i ≤ z
    → z < i + r
    → b z ≡ 0
    → (n : ℕ) × (strlen r i b ≡ some n) × (n ≤ z)
unfolding strlen
strlen-ends zero i z b l u e = absurd (omega (arith, l, u))
strlen-ends (suc r) i z b l u e = elim (Bool-cases (b i == 0)) [
  | inl here ↦ (i, rw (here, strlen) refl, l)
  | inr later ↦
      let ne : i ≢ z = λ same. absurd (ground (arith, subst (λ k. b k ≡ 0) (sym same) e)) in
      rw (later, strlen) (strlen-ends r (suc i) z b (ground arith) (omega (arith, u)) e)
]

abbrev pub KernelValid : State → Type 0
KernelValid t = IsValid t.kernel × Unit

abbrev pub AnyState : Request → State → State → Type 0
AnyState c s t = Unit

module _ (t : State) (v : IsValid t.kernel) (unit : ℕ) where
  -- A line with a zero byte among its 81 is sent or dropped.
  send_line-Safe :
      (line : Buffer) (z : ℕ)
      → z ≤ max_line
      → line z ≡ 0
      → Safe KernelValid AnyState (λ _. ⊥) (λ _. KernelValid) (send_line unit line t)
  unfolding send_line
  send_line-Safe line z l e =
      let (n, found, below) =
        strlen-ends (max_line + 1) 0 z line (omega arith) (omega (arith, l)) e in
      rw (found, send_line)
        (Safe-and_then KernelValid AnyState (λ _. ⊥) (λ _. KernelValid) (λ _. KernelValid) _ _
          (Safe-focus kernel_part IsValid Never (λ _. Unit) (λ s u j. tt) (λ s u. refl) _ t tt
            (mbox_cond_send-IsSafe v (t.term_buffers unit).line_ready_mbox (some line)
              (pos (n + 1))))
          (λ _ u k. k))

  -- From a line of fewer than 80 characters and valid mailboxes, `TermDriver` writes within its 81
  -- bytes, whatever character arrives, and is left with fewer than 80; the mailboxes stay valid.
  pub receive_char-Safe :
      (c : ℕ) (line : Line)
      → line.len < max_line
      → Safe KernelValid AnyState
          (λ _. ⊥)
          (λ r u. KernelValid u × (r.len < max_line))
          (receive_char unit c line t)
  unfolding receive_char
  receive_char-Safe c line l = elim (Bool-cases (leb (max_line + 1) line.len)) [
    | inl over ↦ absurd (ground arith)
    | inr fits ↦ elim (Bool-cases (c == 10 || (line.len + 1) == max_line)) [
      | inl full ↦
          rw (fits, full)
            (Safe-and_then KernelValid AnyState (λ _. ⊥) (λ _. KernelValid)
              (λ r u. KernelValid u × (r.len < max_line)) _ _
              (send_line-Safe (put (put line.chars line.len c) (line.len + 1) 0) (line.len + 1)
                (omega (arith, l)) (put_self (put line.chars line.len c) (line.len + 1) 0))
              (λ _ u k. (k, omega arith)))
      | inr short ↦ rw (fits, short) ((v, tt), ground arith)
    ]
  ]
