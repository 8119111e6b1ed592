-- ===== src/Phase1b/Blocked.antt =====
-- What the functions of phase1b-archive/phase1b.c that block the running process do.
use elissa_x_priscilla_colla.Base.{
  ℕ, zero, suc, ◌+◌, ◌≤◌, ◌<◌, ◌≡◌, ◌≢◌, refl, sym, ap, subst, ◌∙◌, ℤ, pos, minus_one, Option, none,
  some, true, false, Bool-cases, Option-cases, inl, inr, if◌then◌else◌, ◌==◌, arith, put_self,
}
use elissa_x_priscilla_colla.Base.Int.{eq_ℤ}
use elissa_x_priscilla_colla.Base.IntEq.{eq_ℤ-true, eq_ℤ-false}
use elissa_x_priscilla_colla.Base.Run.{done, halt, call}
use mathlib.Core.Bool.{true≢false}
use mathlib.Core.Option.{none-ne-some, some-injective}
use elissa_x_priscilla_colla.Phase1b.State.{
  State, Cmd, proc, set_proc, max_proc, deref, context_switch, process_wrapper,
}
use elissa_x_priscilla_colla.Phase1b.Scheduler.{
  dispatcher, is_running, switch_to, block_me, find_pid, zap,
}
use elissa_x_priscilla_colla.Phase1b.Dispatch.{AllIdle, IsNext, dispatcher-IsNext}
use elissa_x_priscilla_colla.Phase1b.Reaping.{has_quit}

-- The state with process `r` blocked, for `o` to end or for nobody in particular.
abbrev pub blocked : ℕ → Option ℕ → State → State
blocked r o s = set_proc s r (record (proc s r) { status = pos 1; zap_target = o })

-- From state `u`, another process than `r` goes on, the one that `dispatcher` is to choose, or the
-- machine halts with nobody to run.
abbrev pub SwitchesAway : ℕ → State → Cmd (Unit {0}) → Type 0
SwitchesAway r u (halt c t) = (c ≡ 0) × (t ≡ u) × AllIdle u 0 6
SwitchesAway r u (call c t k) =
    (h : ℕ) × IsNext u 0 6 h
    × (h ≢ r)
    × (c ≡ context_switch r h)
    × (t ≡ record u { running_process = some h })
SwitchesAway r u _ = ⊥

-- Entry `k` is the first with this PID, from `i` on.
pub record IsFirstPid (s : State) (pid : ℤ) (i k : ℕ) : Type 0 where
  pub below : k < max_proc
  pub has_pid : (proc s k).pid ≡ pid
  pub earlier : (j : ℕ) → i ≤ j → j < k → (proc s j).pid ≢ pid

-- What `zap` of `pid` by process `r` does.
pub data Zaps (r : ℕ) (pid : ℤ) (s : State) (run : Cmd (Unit {0})) : Type 0 where
  own : pid ≡ (proc s r).pid → run ≡ halt 1 s → Zaps r pid s run
  unknown :
      pid ≢ (proc s r).pid
      → ((k : ℕ) → k < max_proc → (proc s k).pid ≢ pid)
      → run ≡ halt 1 s
      → Zaps r pid s run
  ended :
      (target : ℕ)
      → pid ≢ (proc s r).pid
      → IsFirstPid s pid 0 target
      → has_quit s target ≡ true
      → run ≡ done tt s
      → Zaps r pid s run
  waits :
      (target : ℕ)
      → pid ≢ (proc s r).pid
      → IsFirstPid s pid 0 target
      → has_quit s target ≡ false
      → SwitchesAway r (blocked r (some target) s) run
      → Zaps r pid s run

module _ (s : State) (pid : ℤ) where
  at_or_later :
      (P : ℕ → Type 0) (i k : ℕ)
      → P i
      → ((j : ℕ) → suc i ≤ j → j < k → P j)
      → (j : ℕ) → i ≤ j
      → j < k
      → P j
  at_or_later P i k here later j l u = elim (Bool-cases (j == i)) [
    | inl e ↦ subst P (ground arith) here
    | inr e ↦ later j (ground arith) u
  ]

  find_pid-none :
      (n i : ℕ) → find_pid n i pid s ≡ none → (k : ℕ) → i ≤ k → k < n + i → (proc s k).pid ≢ pid
  unfolding find_pid
  find_pid-none zero i e k l u = absurd (omega (arith, l, u))
  find_pid-none (suc n) i e k l u = elim (Bool-cases (eq_ℤ (proc s i).pid pid)) [
    | inl here ↦
        let found : some i ≡ none = rw (here, find_pid) at e in absurd (none-ne-some i (sym found))
    | inr not_here ↦
        at_or_later (λ j. (proc s j).pid ≢ pid) i (suc n + i) (eq_ℤ-false _ pid not_here)
          (λ j l' u'.
            find_pid-none n (suc i) (rw (not_here, find_pid) at e) j l' (omega (arith, u')))
          k l u
  ]

  find_pid-some :
      (n i k : ℕ) → n + i ≡ max_proc → find_pid n i pid s ≡ some k → IsFirstPid s pid i k
  unfolding find_pid
  find_pid-some zero i k b e = absurd (none-ne-some k e)
  find_pid-some (suc n) i k b e = elim (Bool-cases (eq_ℤ (proc s i).pid pid)) [
    | inl here ↦
        let same : i ≡ k = some-injective i k (rw (here, find_pid) at e) in
        record {
          below = omega (arith, b, same);
          has_pid = subst (λ j. (proc s j).pid ≡ pid) same (eq_ℤ-true _ pid here);
          earlier = λ j l u. absurd (omega (arith, l, u, same));
        }
    | inr not_here ↦
        let x = find_pid-some n (suc i) k (omega (arith, b)) (rw (not_here, find_pid) at e) in
        record {
          below = x.below;
          has_pid = x.has_pid;
          earlier =
              at_or_later (λ j. (proc s j).pid ≢ pid) i k (eq_ℤ-false _ pid not_here) x.earlier;
        }
  ]

-- What `switch_to` does when `o` runs.
abbrev switch_from : Option ℕ → ℕ → State → Cmd (Unit {0})
switch_from o h u = if is_running h o then halt 0 u else elim o [
  | none ↦ call process_wrapper (record u { running_process = some h }) (λ _ v. done tt v)
  | some old ↦
      call (context_switch old h) (record u { running_process = some h }) (λ _ v. done tt v)
]

abbrev switch_call : ℕ → ℕ → State → Cmd (Unit {0})
switch_call r h u =
    call (context_switch r h) (record u { running_process = some h }) (λ _ v. done tt v)

switch_to-call :
    (u : State) (r h : ℕ) → u.running_process ≡ some r → h ≢ r → switch_to h u ≡ switch_call r h u
unfolding switch_to
switch_to-call u r h runs other =
    let not_running : (h == r) ≡ false = ground (arith, other) in
    let direct : switch_from (some r) h u ≡ switch_call r h u = rw not_running refl in
    subst (λ o. switch_from o h u ≡ switch_call r h u) (sym runs) direct

module _ (s : State) (r : ℕ) (runs : s.running_process ≡ some r) where
  dispatcher-SwitchesAway :
      (o : Option ℕ) → SwitchesAway r (blocked r o s) (dispatcher (blocked r o s))
  dispatcher-SwitchesAway o = elim (dispatcher-IsNext (blocked r o s)) [
    | inl idle ↦ rw (idle.1) (refl, refl, idle.0)
    | inr (h, next, e) ↦
        let status : (proc (blocked r o s) r).status ≡ pos 1 =
          ap (λ p. p.status) (put_self s.process_table r _) in
        let other : h ≢ r = λ same. true≢false (
          sym (ap (λ z. eq_ℤ z (pos 1)) (ap (λ k. (proc (blocked r o s) k).status) same ∙ status))
          ∙ next.not_blocked) in
        subst (SwitchesAway r (blocked r o s))
          (sym (e ∙ switch_to-call (blocked r o s) r h runs other)) (h, next, other, refl, refl)
  ]

  pub block_me-SwitchesAway : SwitchesAway r (blocked r (proc s r).zap_target s) (block_me s)
  unfolding block_me
  block_me-SwitchesAway =
      subst
        (λ o.
          SwitchesAway r (blocked r (proc s r).zap_target s)
            (deref o λ r'. dispatcher (set_proc s r' (record (proc s r') { status = pos 1 }))))
        (sym runs) (dispatcher-SwitchesAway (proc s r).zap_target)

  abbrev zap_found : ℕ → Option ℕ → Cmd (Unit {0})
  zap_found r' none = halt 1 s
  zap_found r' (some target) =
      if eq_ℤ (proc s target).status minus_one
      then done tt s
      else dispatcher (blocked r' (some target) s)

  zap_found-Zaps :
      (pid : ℤ) → pid ≢ (proc s r).pid → Zaps r pid s (zap_found r (find_pid max_proc 0 pid s))
  zap_found-Zaps pid ne = elim (Option-cases (find_pid max_proc 0 pid s)) [
    | inl e ↦ rw e (
        unknown ne (λ k l. find_pid-none s pid max_proc 0 e k (omega arith) (omega (arith, l)))
          refl)
    | inr (k, e) ↦
        let first = find_pid-some s pid max_proc 0 k refl e in
        elim (Bool-cases (has_quit s k)) [
          | inl gone ↦ rw (e, gone) (ended k ne first gone refl)
          | inr there ↦ rw (e, there) (waits k ne first there (dispatcher-SwitchesAway (some k)))
        ]
  ]

  pub zap-Zaps : (pid : ℤ) → Zaps r pid s (zap pid s)
  unfolding zap
  zap-Zaps pid =
      subst
        (λ o. Zaps r pid s (
          deref o λ r'.
            if eq_ℤ pid (proc s r').pid
            then halt 1 s
            else zap_found r' (find_pid max_proc 0 pid s)))
        (sym runs)
        (elim (Bool-cases (eq_ℤ pid (proc s r).pid)) [
          | inl e ↦ rw e (own (eq_ℤ-true pid (proc s r).pid e) refl)
          | inr e ↦ rw e (zap_found-Zaps pid (eq_ℤ-false pid (proc s r).pid e))
        ])
