-- ===== src/Phase4/Sleepers.antt =====
-- Which sleepers `ClockDriver` of phase4a/phase4a.c wakes, and what it leaves in its mailbox.
use elissa_x_priscilla_colla.Base.{
  ℕ, zero, suc, ◌<◌, ◌≡◌, refl, sym, ap, ap₂, subst, ◌∙◌, pos, Option, none, some, List, [], ◌∷◌,
  ◌++◌, true, false, Bool-cases, inl, inr, leb, arith, length, first, length-first, ℤ,
}
use elissa_x_priscilla_colla.Base.Int.{ltb_ℤ}
use elissa_x_priscilla_colla.Base.Run.{done, fault, call, and_then, Finishes, Finishes-focus}
use elissa_x_priscilla_colla.Base.Calls.{Calls, Calls-and_then, Quietly, Quietly-focus}
use elissa_x_priscilla_colla.Phase2.Conditional.{mbox_send-mbox_cond_send}
use elissa_x_priscilla_colla.Phase2.Unattended.{
  IsQuiet, mbox_cond_recv-Quietly, mbox_cond_send-Quietly,
}
use elissa_x_priscilla_colla.Kernel.{Cmd, unblock_proc}
use elissa_x_priscilla_colla.Phase2.State.{Buffer}
use elissa_x_priscilla_colla.Phase2.Transfer.{is_full, mbox_send, mbox_cond_recv}
use elissa_x_priscilla_colla.Phase2.Refinement.{bytes_of}
use elissa_x_priscilla_colla.Phase4.Scanned.{
  tick_of, tick_of-first, pid_of, pid_of-first, scanned, wakeups, AreRequests, AreRequests-AreShort,
}
use elissa_x_priscilla_colla.Phase4.Mailbox.{IsMailbox, Taken, recv-Taken, send-IsMailbox}
use elissa_x_priscilla_colla.Phase4.State.{State, kernel_part, in_phase2, read_int}
use elissa_x_priscilla_colla.Phase4.Drivers.{wake_sleepers}

-- The mailbox `m` of the clock holds `rs` at tick `now`, and no process waits at it.
pub record IsTicking (m now : ℕ) (rs : List (List ℕ)) (t : State) : Type 0 where
  pub clock : IsMailbox m 8 rs t.kernel
  pub mailbox : t.clock_mbox ≡ pos m
  pub tick : t.tick_count ≡ now
  pub quiet : IsQuiet m t.kernel

module _ (m now pid : ℕ) where
  -- What of the state phase 2 leaves alone.
  abbrev Ticks : State → Type 0
  Ticks t = (t.clock_mbox ≡ pos m) × (t.tick_count ≡ now)

  received-Taken :
      (rs : List (List ℕ)) (req : Buffer) (t : State)
      → IsTicking m now rs t
      → AreRequests rs
      → Finishes
          (λ r u. Taken m 8 rs r u.kernel × Ticks u)
          (in_phase2 (mbox_cond_recv t.clock_mbox (some req) (pos 8)) t)
  received-Taken rs req t x a =
      subst
        (λ z.
          Finishes (λ r u. Taken m 8 rs r u.kernel × Ticks u)
            (in_phase2 (mbox_cond_recv z (some req) (pos 8)) t))
        (sym x.mailbox)
        (Finishes-focus kernel_part (Taken m 8 rs) Ticks (λ s u j. j) (λ s u. refl)
          (mbox_cond_recv (pos m) (some req) (pos 8) t.kernel) t (x.mailbox, x.tick)
          (recv-Taken m 8 req rs x.clock (AreRequests-AreShort rs a)))

  received-Quietly :
      (req : Buffer) (t : State)
      → t.clock_mbox ≡ pos m
      → IsQuiet m t.kernel
      → Quietly
          (λ _ u. IsQuiet m u.kernel)
          (in_phase2 (mbox_cond_recv t.clock_mbox (some req) (pos 8)) t)
  received-Quietly req t e q =
      subst
        (λ z.
          Quietly (λ _ u. IsQuiet m u.kernel) (in_phase2 (mbox_cond_recv z (some req) (pos 8)) t))
        (sym e)
        (Quietly-focus kernel_part (λ _ s. IsQuiet m s) (λ s u. refl)
          (mbox_cond_recv (pos m) (some req) (pos 8) t.kernel) t
          (mbox_cond_recv-Quietly m (some req) 8 t.kernel q))

  module _ (fuel : ℕ) (got : Buffer) (rs : List (List ℕ)) (t : State)
      (x : IsMailbox m 8 rs t.kernel) (ticks : Ticks t)
      (room : length rs < (t.kernel.mailboxes m).num_slots) where
    abbrev put_back : Cmd State ℤ
    put_back = in_phase2 (mbox_send (suc fuel) pid t.clock_mbox (some got) (pos 8)) t

    put_back-IsMailbox :
        0 < t.kernel.free_slot_count
        → Finishes (λ _ u. IsMailbox m 8 (rs ++ (first got 8 ∷ [])) u.kernel × Ticks u) put_back
    put_back-IsMailbox left =
        subst
          (λ z.
            Finishes (λ _ u. IsMailbox m 8 (rs ++ (first got 8 ∷ [])) u.kernel × Ticks u)
              (in_phase2 (mbox_send (suc fuel) pid z (some got) (pos 8)) t))
          (sym (ticks.0))
          (Finishes-focus kernel_part (λ _ s. IsMailbox m 8 (rs ++ (first got 8 ∷ [])) s) Ticks
            (λ s u j. j) (λ s u. refl)
            (mbox_send (suc fuel) pid (pos m) (some got) (pos 8) t.kernel) t ticks
            (send-IsMailbox m 8 8 got rs (omega arith) x left room fuel pid))

    put_back-Quietly : IsQuiet m t.kernel → Quietly (λ _ u. IsQuiet m u.kernel) put_back
    put_back-Quietly q =
        let s = t.kernel in
        let count : length rs ≡ (s.slot_queues m).count =
          ap length (sym x.contents) ∙ length-first _ (s.slot_queues m).count in
        let not_full : is_full m s ≡ false = ground (arith, count, room) in
        subst
          (λ z.
            Quietly (λ _ u. IsQuiet m u.kernel)
              (in_phase2 (mbox_send (suc fuel) pid z (some got) (pos 8)) t))
          (sym (ticks.0))
          (Quietly-focus kernel_part (λ _ s. IsQuiet m s) (λ s u. refl)
            (mbox_send (suc fuel) pid (pos m) (some got) (pos 8) s) t
            (rw (mbox_send-mbox_cond_send s m x.slots fuel pid (some got) (pos 8) not_full)
              (mbox_cond_send-Quietly m (some got) (pos 8) s q)))

  -- What `wake_sleepers` does with what it has received, when it goes on as `again`.
  abbrev wake_or_put_back :
      ℕ → (Buffer → State → Cmd State Buffer) → Buffer → State → Option Buffer → Cmd State Buffer
  wake_or_put_back f again req u none = fault
  wake_or_put_back f again req u (some got) = elim (leb (read_int got 4) u.tick_count) [
    | true ↦ call (unblock_proc (pos (read_int got 0))) u (λ _ w. again got w)
    | false ↦
        and_then (in_phase2 (mbox_send (suc f) pid u.clock_mbox (some got) (pos 8)) u)
          (λ _ w. done got w)
  ]

  -- The calls and the end of a scan that begins with the requests `rs`.
  abbrev pub Scans : List (List ℕ) → Cmd State Buffer → Type 0
  Scans rs run = Calls (λ _ v. IsTicking m now (scanned now rs) v) run (wakeups now rs)

  next-Scans :
      (f : ℕ) (again : Buffer → State → Cmd State Buffer) (q : List ℕ) (rs : List (List ℕ))
      (req : Buffer) (u : State)
      → ((got : Buffer) (w : State) → IsTicking m now rs w → Scans rs (again got w))
      → length q ≡ 8
      → IsMailbox m 8 rs u.kernel
      → Ticks u
      → IsQuiet m u.kernel
      → 0 < u.kernel.free_slot_count
      → length rs < (u.kernel.mailboxes m).num_slots
      → (out : Option Buffer) → bytes_of out (pos 8) ≡ q
      → Scans (q ∷ rs) (wake_or_put_back f again req u out)
  next-Scans f again q rs req u goes_on eight x ticks quiet left room none e =
      let h : length {A = ℕ} [] ≡ 8 = ap length e ∙ eight in absurd (omega (arith, h))
  next-Scans f again q rs req u goes_on eight x ticks quiet left room (some got) e =
      let due : leb (tick_of q) now ≡ leb (read_int got 4) u.tick_count =
        ap₂ leb (ap tick_of (sym e) ∙ tick_of-first got) (sym (ticks.1)) in
      let its_pid : pid_of q ≡ read_int got 0 = ap pid_of (sym e) ∙ pid_of-first got in
      elim (Bool-cases (leb (read_int got 4) u.tick_count)) [
        | inl woken ↦
            let scan : scanned now (q ∷ rs) ≡ scanned now rs = rw (due ∙ woken) refl in
            rw (woken, wake_or_put_back, due ∙ woken)
              (
                wakeups now rs,
                ap (λ n. unblock_proc (pos n) ∷ wakeups now rs) its_pid,
                λ z.
                    subst (λ xs. Calls (λ _ v. IsTicking m now xs v) (again got u) (wakeups now rs))
                      (sym scan)
                      (goes_on got u
                        (record { clock = x; mailbox = ticks.0; tick = ticks.1; quiet = quiet })),
              )
        | inr later ↦
            rw (later, wake_or_put_back, due ∙ later)
              (Calls-and_then (λ _ w. IsQuiet m w.kernel)
                (λ _ w. IsMailbox m 8 (rs ++ (first got 8 ∷ [])) w.kernel × Ticks w)
                (λ _ v. IsTicking m now (rs ++ (q ∷ [])) v) (put_back f got rs u x ticks room) _ []
                (put_back-Quietly f got rs u x ticks room quiet)
                (put_back-IsMailbox f got rs u x ticks room left)
                (λ _ w still h. (
                  refl,
                  record {
                    clock = subst (λ b. IsMailbox m 8 (rs ++ (b ∷ [])) w.kernel) e (h.0);
                    mailbox = h.1.0;
                    tick = h.1.1;
                    quiet = still;
                  },
                )))
      ]

  -- If the mailbox of the clock holds the requests `rs` and no process waits at it, and nobody else acts
  -- meanwhile, the scan of `ClockDriver` ends, with more fuel than requests: the requests that are due are
  -- taken off the front up to the first one that is not, which goes to the end; the others keep
  -- their order; and the processes that are woken are those of the requests taken off, in this order.
  pub wake_sleepers-Scans :
      (fuel : ℕ) (rs : List (List ℕ)) (req : Buffer) (t : State)
      → IsTicking m now rs t
      → AreRequests rs
      → length rs < fuel
      → Scans rs (wake_sleepers fuel pid req t)
  unfolding wake_sleepers
  wake_sleepers-Scans zero rs req t x a l = absurd (omega (arith, l))
  wake_sleepers-Scans (suc f) [] req t x a l =
      Calls-and_then (λ _ u. IsQuiet m u.kernel) (λ r u. Taken m 8 [] r u.kernel × Ticks u)
        (λ _ u. IsTicking m now [] u) (in_phase2 (mbox_cond_recv t.clock_mbox (some req) (pos 8)) t)
        _ [] (received-Quietly req t x.mailbox x.quiet) (received-Taken [] req t x a)
        (λ r u still h.
          rw (h.0.0) (refl, record { clock = h.0.1; mailbox = h.1.0; tick = h.1.1; quiet = still }))
  wake_sleepers-Scans (suc f) (q ∷ rs) req t x a l =
      Calls-and_then (λ _ u. IsQuiet m u.kernel) (λ r u. Taken m 8 (q ∷ rs) r u.kernel × Ticks u)
        (λ _ u. IsTicking m now (scanned now (q ∷ rs)) u)
        (in_phase2 (mbox_cond_recv t.clock_mbox (some req) (pos 8)) t) _ (wakeups now (q ∷ rs))
        (received-Quietly req t x.mailbox x.quiet) (received-Taken (q ∷ rs) req t x a)
        (λ r u still h.
          let value : ltb_ℤ (pos 0) (r.0) ≡ true = ap (ltb_ℤ (pos 0)) (h.0.0 ∙ ap pos (a.0)) in
          let bytes : bytes_of (r.1) (pos 8) ≡ q =
            subst (λ n. bytes_of (r.1) (pos n) ≡ q) (a.0) (h.0.1) in
          rw value (
            next-Scans f (wake_sleepers f pid) q rs req u
              (λ got w y. wake_sleepers-Scans f rs got w y (a.1) (omega (arith, l))) (a.0) (h.0.2)
              (h.1) still (h.0.3) (h.0.4) (r.1) bytes))
