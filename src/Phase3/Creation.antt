-- ===== src/Phase3/Creation.antt =====
-- `sys_semcreate` of phase3/phase3.c and the count of the semaphores.
use elissa_x_priscilla_colla.Base.{
  ℕ, zero, suc, ◌+◌, ◌<◌, ◌≡◌, ◌≢◌, refl, ◌⊎◌, ℤ, pos, negsuc, minus_one, pos_part, neg_part,
  put_ne, some, true, false, Bool-cases, Option-cases, inl, inr, put, put-cases, put_self, arith,
  ap, sym, subst, ◌∙◌,
}
use mathlib.Core.Option.{some-injective}
use elissa_x_priscilla_colla.Base.Int.{ltb_ℤ, eq_ℤ}
use elissa_x_priscilla_colla.Base.Run.{
  Finishes, Finishes-mono, Finishes-and_then, Finishes-focus, Finishes-Safe,
}
use elissa_x_priscilla_colla.Phase2.State as Mail
use elissa_x_priscilla_colla.Phase2.Lifecycle.{bad_shape, find_inactive, set_up, mbox_create}
use elissa_x_priscilla_colla.Phase2.State.{max_mbox}
use elissa_x_priscilla_colla.Phase2.Invariant.{IsValid}
use elissa_x_priscilla_colla.Phase2.Safety.{Anything, Never}
use elissa_x_priscilla_colla.Phase2.Safety.Creation.{AllReleased, mbox_create-Safe}
use elissa_x_priscilla_colla.Phase3.State.{
  State, Semaphore, Sysargs, kernel_part, set_sem, in_phase2, max_sems,
}
use elissa_x_priscilla_colla.Phase3.Semaphores as Sem
use elissa_x_priscilla_colla.Phase3.Semaphores.{find_unused, sys_semcreate}
use elissa_x_priscilla_colla.Phase3.Counting.{Counted, AllCounted, Consistent}

set_up_returns : (m n size : ℕ) (s : Mail.State) → Finishes (λ _ _. Unit) (set_up m n size s)
unfolding set_up
set_up_returns m n size s z = elim (Bool-cases (eq_ℤ z (pos 0))) [
  | inl e ↦ rw e tt
  | inr e ↦ rw e tt
]

-- `MboxCreate` returns: it calls nobody.
pub mbox_create-Returns :
    (n size : ℤ) (s : Mail.State) → Finishes (λ _ _. Unit) (mbox_create n size s)
unfolding mbox_create
mbox_create-Returns n size s = elim (Bool-cases (bad_shape n size)) [
  | inl bad ↦ rw bad tt
  | inr fine ↦ elim (Option-cases (find_inactive max_mbox 0 s.mailboxes)) [
    | inl e ↦ rw (fine, e, mbox_create) tt
    | inr (m, e) ↦ rw (fine, e, mbox_create) (set_up_returns m (pos_part n) (pos_part size) s)
  ]
]

find_unused-first :
    (r i k : ℕ) (sems : ℕ → Semaphore)
    → find_unused r i sems ≡ some k
    → ((sems k).in_use ≡ false) × (k < r + i)
unfolding find_unused
find_unused-first zero i k sems e = cc
find_unused-first (suc r) i k sems e = elim (Bool-cases ((sems i).in_use)) [
  | inl used ↦
      let later = find_unused-first r (suc i) k sems (rw (find_unused, used) at e) in
      (later.0, omega (arith, later.1))
  | inr free ↦
      let here : i ≡ k = some-injective i k (rw (find_unused, free) at e) in
      (subst (λ j. (sems j).in_use ≡ false) here free, omega (arith, here))
]

not_negative : (z : ℤ) → ltb_ℤ z (pos 0) ≡ false → neg_part z ≡ 0
not_negative (pos n) e = refl
not_negative (negsuc n) e = absurd (ground arith)

-- A semaphore that is not in use has nobody waiting.
abbrev pub UnusedIdle : State → Type 0
UnusedIdle t = (i : ℕ) → (t.sems i).in_use ≡ false → (t.sems i).blocked ≡ pos 0

-- Semaphore `i` has been set up.
pub record IsNew (t : State) (value : ℤ) (i : ℕ) (u : State) : Type 0 where
  pub bound : i < max_sems
  pub was_free : (t.sems i).in_use ≡ false
  pub used : (u.sems i).in_use ≡ true
  pub initial : (u.sems i).value ≡ value
  pub others : (j : ℕ) → j ≢ i → u.sems j ≡ t.sems j

module _ (t : State) (i : ℕ) (value : ℤ) (all : AllCounted t) (idle : (t.sems i).blocked ≡ pos 0)
    (enough : neg_part value ≡ 0) where
  -- The semaphores before the mailbox is created, and after.
  abbrev valued : ℕ → Semaphore
  valued = put t.sems i (record (t.sems i) { value = value })

  abbrev finished : State → ℤ → State
  finished u id = set_sem u i (record (u.sems i) { mbox_id = id; in_use = true })

  valued_self : valued i ≡ record (t.sems i) { value = value }
  valued_self = put_self t.sems i _

  valued_other : (u : State) → u.sems ≡ valued → (j : ℕ) → j ≢ i → u.sems j ≡ t.sems j
  valued_other u e j ne = ap (λ f. f j) e ∙ put_ne t.sems i _ j ne

  finished-AllCounted : (u : State) (id : ℤ) → u.sems ≡ valued → AllCounted (finished u id)
  finished-AllCounted u id e j =
      put-cases (λ v. v.in_use ≡ true → Counted v) u.sems i _ j
        (λ _ _. rw (e, valued_self, enough) idle)
        (λ ne used.
          let same = valued_other u e j ne in
          subst Counted (sym same) (all j (subst (λ v. v.in_use ≡ true) same used)))

  module _ (bound : i < max_sems) (free : (t.sems i).in_use ≡ false) where
    finished-IsNew : (u : State) (id : ℤ) → u.sems ≡ valued → IsNew t value i (finished u id)
    finished-IsNew u id e = record {
      bound = bound;
      was_free = free;
      used = rw (put_self u.sems i (record (u.sems i) { mbox_id = id; in_use = true })) refl;
      initial =
          rw (put_self u.sems i (record (u.sems i) { mbox_id = id; in_use = true }), e, valued_self)
            refl;
      others = λ j ne. put_ne u.sems i _ j ne ∙ valued_other u e j ne;
    }

    set_up-IsNew :
        IsValid t.kernel
        → AllReleased t.kernel
        → Finishes (λ _ u. Consistent u × IsNew t value i u) (Sem.set_up i value t)
    unfolding Sem.set_up
    set_up-IsNew v released =
        Finishes-and_then _ (λ _ u. Consistent u × IsNew t value i u)
          (in_phase2 (mbox_create (pos 0) (pos 0))
            (set_sem t i (record (t.sems i) { value = value })))
          _
          (Finishes-focus kernel_part (λ _ k. IsValid k) (λ u. u.sems ≡ valued) (λ s u j. j)
            (λ s u. refl) (mbox_create (pos 0) (pos 0) t.kernel) _ refl
            (Finishes-mono _ _ (mbox_create (pos 0) (pos 0) t.kernel) (λ z k h. (h.0.1).valid)
              (Finishes-Safe IsValid Anything Never _ _ (mbox_create (pos 0) (pos 0) t.kernel)
                (λ c k. tt) (mbox_create-Safe v released (pos 0) (pos 0))
                (mbox_create-Returns (pos 0) (pos 0) t.kernel))))
          (λ id u h. ((h.0, finished-AllCounted u id (h.1)), finished-IsNew u id (h.1)))

-- What `sys_semcreate` gives back, and the state that it leaves.
abbrev pub Created : State → Sysargs → Sysargs → State → Type 0
Created t args r u =
    ((r.arg4 ≡ minus_one) × (u ≡ t))
    ⊎ ((i : ℕ) × (r.arg1 ≡ pos i) × (r.arg4 ≡ pos 0) × IsNew t args.arg1 i u)

module _ (t : State) (c : Consistent t) (released : AllReleased t.kernel)
    (idle : UnusedIdle t) where
  -- From a state where the mailboxes are valid and the counts of the semaphores agree, where no closed
  -- mailbox has messages and no process waits for a semaphore that is not in use, `sys_semcreate`
  -- returns; it reports -1 and changes nothing, or it sets up one semaphore that was not in use with the
  -- value asked for, and the mailboxes and the counts are as they should.
  pub sys_semcreate-Created :
      (args : Sysargs) → Finishes (λ r u. Consistent u × Created t args r u) (sys_semcreate args t)
  unfolding sys_semcreate
  sys_semcreate-Created args = elim (Bool-cases (ltb_ℤ args.arg1 (pos 0))) [
    | inl negative ↦ rw negative (c, inl (refl, refl))
    | inr enough ↦ elim (Option-cases (find_unused max_sems 0 t.sems)) [
      | inl e ↦ rw (enough, e, sys_semcreate) (c, inl (refl, refl))
      | inr (i, e) ↦
          let found = find_unused-first max_sems 0 i t.sems e in
          rw (enough, e, sys_semcreate)
            (Finishes-and_then (λ _ u. Consistent u × IsNew t args.arg1 i u)
              (λ r u. Consistent u × Created t args r u) (Sem.set_up i args.arg1 t) _
              (set_up-IsNew t i args.arg1 (c.1) (idle i (found.0)) (not_negative args.arg1 enough)
                (omega (arith, found.1)) (found.0) (c.0) released)
              (λ _ u h. (h.0, inr (i, refl, refl, h.1))))
    ]
  ]
