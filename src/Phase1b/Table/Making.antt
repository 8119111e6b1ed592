-- ===== src/Phase1b/Table/Making.antt =====
-- `spork` of phase1b-archive/phase1b.c fills an unused entry and puts the new process into the lists.
use elissa_x_priscilla_colla.Base.{
  ℕ, suc, ◌-◌, ◌<◌, ◌≡◌, ◌≢◌, refl, sym, ap, subst, ◌∙◌, fun_ext, ℤ, pos, minus_one, Option, none,
  some, List, [], ◌∷◌, ◌++◌, true, false, Bool-cases, inl, inr, put, put_self, put_ne, ltb,
  if◌then◌else◌, arith, ◌==◌,
}
use mathlib.Core.Bool.{true≢false}
use elissa_x_priscilla_colla.Base.Int.{eq_ℤ}
use elissa_x_priscilla_colla.Base.Run.{and_then, done, Finishes, Finishes-mono, Safe, Safe-and_then}
use elissa_x_priscilla_colla.Base.Quiet.{Quiet-Safe}
use elissa_x_priscilla_colla.Phase1b.State.{
  State, Process, Request, proc, set_proc, max_proc, max_name,
}
use elissa_x_priscilla_colla.Phase1b.Spork.{copy_name, start_process, enter, yield_to, spork_in}
use elissa_x_priscilla_colla.Phase1b.Quietness.{enter-Quiet}
use elissa_x_priscilla_colla.Phase1b.Frames.{bare}
use elissa_x_priscilla_colla.Phase1b.Chain.{Absent}
use elissa_x_priscilla_colla.Phase1b.Reaping.{has_quit}
use elissa_x_priscilla_colla.Phase1b.Table.{IsTable, RunsAlive, is_free, Absent-quit, Absent-free}
use elissa_x_priscilla_colla.Phase1b.Table.Same.{IsTable-same, IsSame}
use elissa_x_priscilla_colla.Phase1b.Table.Adding.{write-IsTable}
use elissa_x_priscilla_colla.Phase1b.Table.Entering.{with_child, enter-IsEntered}

-- The new process among the children of the running one: last if its priority number `prio` is
-- higher, first if not.
abbrev pub with_new : State → (ℕ → List ℕ) → (i prio : ℕ) → Option ℕ → ℕ → List ℕ
with_new s fs i prio none = fs
with_new s fs i prio (some r) =
    put fs r (if ltb (proc s r).priority prio then fs r ++ (i ∷ []) else i ∷ fs r)

-- What `spork` is asked for.
pub record Wish : Type 0 where
  pub name : List ℕ
  pub start_func : ℤ
  pub arg : ℤ

-- The entry of the new process but for its links, with its stack at `address`.
abbrev pub entry_of : Wish → (address : ℤ) → (pid prio : ℕ) → Process → Process
entry_of w address pid prio p = record p {
  pid = pos pid;
  priority = prio;
  name = copy_name max_name w.name;
  status = pos 0;
  stack = address;
  start_func = w.start_func;
  arg = w.arg;
}

-- The new process is `i`: it is ready, last in the queue of its priority, and a child of the running
-- process. Nothing else has changed but links.
pub record IsSporked (qs fs : ℕ → List ℕ) (s : State) (w : Wish) (i pid prio : ℕ) (t : State)
    : Type 0 where
  pub table :
      IsTable
        (put qs (prio - 1) (qs (prio - 1) ++ (i ∷ [])))
        (with_new s fs i prio s.running_process)
        t
  pub address : ℤ
  pub not_null : eq_ℤ address (pos 0) ≡ false
  pub entry :
      bare (proc t i)
      ≡ bare (record (entry_of w address pid prio (proc s i)) { parent = s.running_process })
  pub others : (k : ℕ) → k ≢ i → bare (proc t k) ≡ bare (proc s k)
  pub running : t.running_process ≡ s.running_process
  pub counter : t.next_pid ≡ suc pid

put_twice : {A : Type 0} (a : ℕ → A) (i : ℕ) (v w : A) → put (put a i v) i w ≡ put a i w
put_twice a i v w =
    fun_ext (λ j. elim (Bool-cases (j == i)) [ inl e ↦ rw e refl | inr e ↦ rw e refl ])

module _ {qs fs : ℕ → List ℕ} {s : State} (x : IsTable qs fs s) (alive : RunsAlive s) (w : Wish)
    (i pid prio : ℕ) (below : i < max_proc) (free : is_free s i ≡ true) (above : 0 < prio)
    (low : prio < 7) where
  abbrev made : ℤ → State
  made address =
      set_proc (record s { next_pid = suc pid }) i (entry_of w address pid prio (proc s i))

  unqueued : (q : ℕ) → q < 6 → Absent i (qs q)
  unqueued q l = Absent-quit x q i l (x.ended i below free)

  no_child : (j : ℕ) → j < max_proc → Absent i (fs j)
  no_child j l = Absent-free x j i l free

  numbered : eq_ℤ (pos pid) minus_one ≡ false
  numbered = ground arith

  made-IsTable : (address : ℤ) → IsTable qs fs (made address)
  made-IsTable address =
      let counted : IsSame s (record s { next_pid = suc pid }) = record {
        entries = λ k. refl;
        lives = λ k. refl;
        queues = refl;
      } in
      write-IsTable (IsTable-same counted qs fs x) i (entry_of w address pid prio (proc s i))
        unqueued no_child refl refl (record { above = above; below = low }) numbered

  -- The running process is not the new one.
  other : (r : ℕ) → s.running_process ≡ some r → r ≢ i
  other r runs e =
      true≢false
        (sym (subst (λ k. has_quit s k ≡ true) (sym e) (x.ended i below free)) ∙ (alive r runs).1)

  at_self : (address : ℤ) → proc (made address) i ≡ entry_of w address pid prio (proc s i)
  at_self address = put_self s.process_table i (entry_of w address pid prio (proc s i))

  at_ne : (address : ℤ) (k : ℕ) → k ≢ i → proc (made address) k ≡ proc s k
  at_ne address k ne = put_ne s.process_table i (entry_of w address pid prio (proc s i)) k ne

  children_same :
      (address : ℤ) (o : Option ℕ)
      → s.running_process ≡ o
      → with_child (made address) fs i o ≡ with_new s fs i prio o
  children_same address none e = refl
  children_same address (some r) e = rw (at_self address, at_ne address r (other r e)) refl

  enter-IsSporked :
      (address : ℤ)
      → eq_ℤ address (pos 0) ≡ false
      → Finishes (λ _ t. IsSporked qs fs s w i pid prio t) (enter i (made address))
  enter-IsSporked address not_null =
      let m = made address in
      let lives : has_quit m i ≡ false = ap (λ p. eq_ℤ p.status minus_one) (at_self address) in
      let used : is_free m i ≡ false =
        ap (λ p. eq_ℤ p.pid minus_one) (at_self address) ∙ numbered in
      let alive_made : RunsAlive m = λ r runs. (
        (alive r runs).0,
        ap (λ p. eq_ℤ p.status minus_one) (at_ne address r (other r runs)) ∙ (alive r runs).1,
      ) in
      Finishes-mono _ (λ _ t. IsSporked qs fs s w i pid prio t) (enter i m)
        (λ _ t e. record {
          table =
              subst (λ gs. IsTable (put qs (prio - 1) (qs (prio - 1) ++ (i ∷ []))) gs t)
                (children_same address s.running_process refl) e.table;
          address = address;
          not_null = not_null;
          entry =
              e.entry
              ∙ ap {A = Process} (λ p. bare (record p { parent = s.running_process }))
                  (at_self address);
          others = λ k ne. e.others k ne ∙ ap bare (at_ne address k ne);
          running = e.running;
          counter = e.counter;
        })
        (enter-IsEntered (made-IsTable address) alive_made i below lives used unqueued no_child
          (prio - 1) (omega (arith, low))
          (ap (λ p. p.priority) (at_self address) ∙ omega (arith, above)))

  -- The two times that the source writes the entry are one.
  made_same :
      (address : ℤ)
      → (let t = start_process i w.name pid prio s in
          set_proc t i
            (record (proc t i) { stack = address; start_func = w.start_func; arg = w.arg }))
        ≡ made address
  made_same address =
      let first_entry : Process = record (proc s i) {
        pid = pos pid;
        priority = prio;
        name = copy_name max_name w.name;
        status = pos 0;
      } in
      rw (put_self s.process_table i first_entry) (
        ap {B = State} (λ table. record s { process_table = table; next_pid = suc pid })
          (put_twice s.process_table i first_entry (entry_of w address pid prio (proc s i))))

  -- What `spork_in` needs when the new process is in the lists.
  pub spork_in-Safe :
      (I : State → Type 0) (R : Request → State → State → Type 0) (U : State → Type 0)
      (P : ℤ → State → Type 0) (size : ℕ)
      → ((t : State)
          → IsSporked qs fs s w i pid prio t
          → Safe I R U (λ _ u. P (proc u i).pid u) (yield_to i t))
      → Safe I R U P (spork_in i pid w.name w.start_func w.arg size prio s)
  unfolding spork_in
  spork_in-Safe I R U P size next address = elim (Bool-cases (eq_ℤ address (pos 0))) [
    | inl e ↦ rw e tt
    | inr e ↦ rw e (
        subst
          (λ m.
            Safe I R U P
              (and_then (enter i m) λ _ t. and_then (yield_to i t) λ _ u. done (proc u i).pid u))
          (sym (made_same address))
          (Safe-and_then I R U (λ _ t. IsSporked qs fs s w i pid prio t) P (enter i (made address))
            _
            (Quiet-Safe I R U _ (enter i (made address)) (enter-Quiet i (made address))
              (enter-IsSporked address e))
            (λ _ t y.
              Safe-and_then I R U (λ _ u. P (proc u i).pid u) P (yield_to i t) _ (next t y)
                (λ _ u h. h))))
  ]
