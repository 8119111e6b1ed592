-- ===== src/Phase4/RoundTrip.antt =====
-- A line from `TermDriver` of phase4a/phase4a.c to the caller of `sys_term_read`.
use elissa_x_priscilla_colla.Base.{
  ℕ, ◌+◌, ◌<◌, ◌≤◌, ◌≡◌, refl, sym, ap, subst, ◌∙◌, pos, pos_part, Option, none, some, List, [],
  ◌∷◌, ◌++◌, false, ltb, lt→ltb, if◌then◌else◌, arith, length, first, length-first,
}
use elissa_x_priscilla_colla.Base.Int.{ltb_ℤ}
use elissa_x_priscilla_colla.Base.Run.{
  done, fault, and_then, Finishes, Finishes-and_then, Finishes-mono, Finishes-focus,
}
use elissa_x_priscilla_colla.Kernel.{Cmd}
use elissa_x_priscilla_colla.Phase2.State.{Buffer}
use elissa_x_priscilla_colla.Phase2.Slots.{copy}
use elissa_x_priscilla_colla.Phase2.Transfer.{mbox_recv, mbox_cond_send}
use elissa_x_priscilla_colla.Phase2.Refinement.{bytes_of}
use elissa_x_priscilla_colla.Phase3.State.{Sysargs}
use elissa_x_priscilla_colla.Phase4.State.{State, kernel_part, in_phase2}
use elissa_x_priscilla_colla.Phase4.Drivers.{strlen, send_line}
use elissa_x_priscilla_colla.Phase4.Calls.{bad_terminal, sys_term_read}
use elissa_x_priscilla_colla.Phase4.Strings.{strlen-below, strlen-congr, first-byte, not_negative}
use elissa_x_priscilla_colla.Phase4.Mailbox.{
  IsMailbox, AreShort, Taken, wait_recv-Taken, cond_send-IsMailbox,
}

-- The mailbox of terminal `unit` takes whole lines, and holds `rs`.
pub record IsTerminal (unit m : ℕ) (rs : List (List ℕ)) (t : State) : Type 0 where
  pub mailbox : (t.term_buffers unit).line_ready_mbox ≡ pos m
  pub lines : IsMailbox m 81 rs t.kernel

-- The shorter of the user's buffer and the line of `n` characters.
abbrev pub read_length : Sysargs → ℕ → ℕ
read_length args n = if ltb (pos_part args.arg2) n then pos_part args.arg2 else n

-- What `sys_term_read` gives: the line as far as the user's buffer goes, without its end, and the rest
-- of the buffer as it was.
pub record HasRead (args : Sysargs) (n : ℕ) (line memory : Buffer) (r : Sysargs × Buffer)
    : Type 0 where
  pub result : r.0 ≡ record args { arg2 = pos (read_length args n); arg4 = pos 0 }
  pub read : (j : ℕ) → j < read_length args n → r.1 j ≡ line j
  pub kept : (j : ℕ) → read_length args n ≤ j → r.1 j ≡ memory j

module _ (unit m : ℕ) where
  abbrev Named : State → Type 0
  Named t = (t.term_buffers unit).line_ready_mbox ≡ pos m

  -- A line of `n` characters is put at the end.
  send_line-IsTerminal :
      (line : Buffer) (n : ℕ) (rs : List (List ℕ)) (t : State)
      → strlen 81 0 line ≡ some n
      → IsTerminal unit m rs t
      → 0 < t.kernel.free_slot_count
      → length rs < (t.kernel.mailboxes m).num_slots
      → Finishes
          (λ _ u. IsTerminal unit m (rs ++ (first line (n + 1) ∷ [])) u)
          (send_line unit line t)
  unfolding send_line
  send_line-IsTerminal line n rs t e x left room =
      let rs' = rs ++ (first line (n + 1) ∷ []) in
      let (low, high) = strlen-below 81 0 n line e in
      let sent : Finishes (λ _ u. IsTerminal unit m rs' u)
          (in_phase2 (mbox_cond_send (pos m) (some line) (pos (n + 1))) t) =
        Finishes-mono _ (λ _ u. IsTerminal unit m rs' u) _
          (λ _ u h. record { mailbox = h.1; lines = h.0 })
          (Finishes-focus kernel_part (λ _ s. IsMailbox m 81 rs' s) Named (λ s u j. j) (λ s u. refl)
            (mbox_cond_send (pos m) (some line) (pos (n + 1)) t.kernel) t x.mailbox
            (cond_send-IsMailbox m 81 (n + 1) line rs (omega (arith, high)) x.lines left room)) in
      rw (e, send_line)
        (Finishes-and_then (λ _ u. IsTerminal unit m rs' u) (λ _ u. IsTerminal unit m rs' u)
          (in_phase2
            (mbox_cond_send (t.term_buffers unit).line_ready_mbox (some line) (pos (n + 1))) t)
          (λ _ u. done tt u)
          (subst
            (λ z.
              Finishes (λ _ u. IsTerminal unit m rs' u)
                (in_phase2 (mbox_cond_send z (some line) (pos (n + 1))) t))
            (sym x.mailbox) sent)
          (λ _ u h. h))

le→not_ltb : (a b : ℕ) → b ≤ a → ltb a b ≡ false
le→not_ltb a b l = ground (arith, l)

-- What `sys_term_read` does with the line that it has received.
abbrev give : Buffer → Sysargs → State → Option Buffer → Cmd State (Sysargs × Buffer)
give memory args u none = fault
give memory args u (some got) = elim (strlen 81 0 got) [
  | none ↦ fault
  | some n ↦
      let len = if ltb (pos_part args.arg2) n then pos_part args.arg2 else n in
      done (record args { arg2 = pos len; arg4 = pos 0 }, copy len got memory) u
]

module _ (m n : ℕ) (line memory : Buffer) (args : Sysargs) (rs : List (List ℕ))
    (ends : strlen 81 0 line ≡ some n) where
  abbrev unit : ℕ
  unit = pos_part args.arg3

  abbrev Given : Sysargs × Buffer → State → Type 0
  Given r u = HasRead args n line memory r × IsTerminal unit m rs u

  give-Given :
      (u : State) (out : Option Buffer)
      → IsTerminal unit m rs u
      → bytes_of out (pos (n + 1)) ≡ first line (n + 1)
      → Finishes Given (give memory args u out)
  give-Given u none x e =
      let h : length {A = ℕ} [] ≡ n + 1 = ap length e ∙ length-first line (n + 1) in
      absurd (omega (arith, h))
  give-Given u (some got) x e =
      let same = first-byte got line (n + 1) e in
      let found : strlen 81 0 got ≡ some n =
        strlen-congr 81 0 n line got ends (λ j l. same j (omega (arith, l))) in
      rw (found, give)
        (
          record {
            result = refl;
            read = λ j l. rw (lt→ltb j (read_length args n) l) (same j (ground (arith, l)));
            kept = λ j l.
                let no : ltb j (read_length args n) ≡ false = le→not_ltb j (read_length args n) l in
                rw no refl;
          },
          x,
        )

  sys_term_read-Given :
      (pid : ℕ) (buffer : Buffer) (t : State)
      → bad_terminal args ≡ false
      → IsTerminal unit m (first line (n + 1) ∷ rs) t
      → AreShort 81 rs
      → Finishes Given (sys_term_read pid buffer memory args t)
  unfolding sys_term_read
  sys_term_read-Given pid buffer t fine x short =
      let q = first line (n + 1) in
      let (low, high) = strlen-below 81 0 n line ends in
      let size : length q ≡ n + 1 = length-first line (n + 1) in
      let m_call = mbox_recv pid (t.term_buffers unit).line_ready_mbox (some buffer) (pos 81) in
      rw fine (
        Finishes-and_then (λ r u. Taken m 81 (q ∷ rs) r u.kernel × Named unit m u) Given
          (in_phase2 m_call t) _
          (subst
            (λ z.
              Finishes (λ r u. Taken m 81 (q ∷ rs) r u.kernel × Named unit m u)
                (in_phase2 (mbox_recv pid z (some buffer) (pos 81)) t))
            (sym x.mailbox)
            (Finishes-focus kernel_part (Taken m 81 (q ∷ rs)) (Named unit m) (λ s u j. j)
              (λ s u. refl) (mbox_recv pid (pos m) (some buffer) (pos 81) t.kernel) t x.mailbox
              (wait_recv-Taken m 81 pid buffer q rs x.lines (omega (arith, size, high), short))))
          (λ r u h.
            let value : ltb_ℤ (r.0) (pos 0) ≡ false =
              ap (λ z. ltb_ℤ z (pos 0)) (h.0.0) ∙ not_negative (length q) in
            rw value (
              give-Given u (r.1) (record { mailbox = h.1; lines = h.0.2 })
                (subst (λ k. bytes_of (r.1) (pos k) ≡ q) size (h.0.1)))))

module _ (m n : ℕ) (line memory : Buffer) (args : Sysargs) (ends : strlen 81 0 line ≡ some n) where
  -- A line of `n` characters that `TermDriver` sends to an empty mailbox of lines is what the next
  -- `sys_term_read` of the terminal with good arguments gives: the characters up to the size of the
  -- user's buffer, without the end of the line, with their number and 0 as results, and no other byte
  -- of the user's buffer; the mailbox is empty again. Nobody else acts meanwhile, and a mail slot is left.
  pub sys_term_read-send_line :
      (pid : ℕ) (buffer : Buffer) (t : State)
      → bad_terminal args ≡ false
      → IsTerminal (pos_part args.arg3) m [] t
      → 0 < t.kernel.free_slot_count
      → Finishes
          (λ r u. HasRead args n line memory r × IsTerminal (pos_part args.arg3) m [] u)
          (and_then
            (send_line (pos_part args.arg3) line t)
            λ _ u. sys_term_read pid buffer memory args u)
  sys_term_read-send_line pid buffer t fine x left =
      let slots = x.lines.slots in
      Finishes-and_then (λ _ u. IsTerminal (pos_part args.arg3) m (first line (n + 1) ∷ []) u)
        (λ r u. HasRead args n line memory r × IsTerminal (pos_part args.arg3) m [] u)
        (send_line (pos_part args.arg3) line t) _
        (send_line-IsTerminal (pos_part args.arg3) m line n [] t ends x left (omega (arith, slots)))
        (λ _ u y. sys_term_read-Given m n line memory args [] ends pid buffer u fine y tt)
