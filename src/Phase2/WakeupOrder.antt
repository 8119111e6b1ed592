-- ===== src/Phase2/WakeupOrder.antt =====
-- The order in which blocked processes of phase2/phase2.c are recorded and woken.
use native.Mathlib.Numerals.{add-one}
use elissa_x_priscilla_colla.Base.{
  ℕ, zero, suc, ◌+◌, ◌-◌, ◌<◌, ◌≡◌, ◌∙◌, ap, ap₂, List, [], ◌∷◌, ◌++◌, arith, put, first, first-suc,
  first-congr, ltb, if◌then◌else◌, inl, inr, Bool-cases,
}
use elissa_x_priscilla_colla.Phase2.State.{Waiters, max_blocked}
use elissa_x_priscilla_colla.Phase2.Waiters.{enqueue, dequeue, shift}

-- The recorded processes, longest first.
abbrev pub waiting : Waiters → List ℕ
waiting w = first w.pids w.num

shift_lem :
    (r i : ℕ) (pids : ℕ → ℕ) (j : ℕ)
    → shift r i pids j
      ≡ (if ltb j i then pids j else if ltb j (i + r) then pids (j + 1) else pids j)
unfolding shift
shift_lem zero i pids j = ground arith
shift_lem (suc r) i pids j = ground (arith, shift_lem r (i + 1) (put pids i (pids (i + 1))) j)

-- Taking a process off a row of blocked ones that is not empty takes the one recorded first, and keeps
-- the order of the others.
pub waiting-dequeue : (w : Waiters) → 0 < w.num → waiting w ≡ w.pids 0 ∷ waiting (dequeue w)
unfolding first dequeue
waiting-dequeue w some_waiting =
    ap (first w.pids) last
    ∙ ap (◌∷◌ (w.pids 0)) (
        first-congr _ _ (w.num - 1)
          (λ i l. ground (arith, shift_lem (w.num - 1) 0 w.pids i, add-one i)))
  where
    last : w.num ≡ suc (w.num - 1)
    last = omega arith

-- A process is recorded behind the others if fewer than ten are, and not at all if ten are.
pub waiting-enqueue :
    (pid : ℕ) (w : Waiters)
    → waiting (enqueue pid w)
      ≡ (if ltb w.num max_blocked then waiting w ++ (pid ∷ []) else waiting w)
unfolding enqueue
waiting-enqueue pid w = elim (Bool-cases (ltb w.num max_blocked)) [
  | inl room ↦
      rw (room, add-one, first-suc (put w.pids w.num pid) w.num)
        (ap₂ (λ xs (x : ℕ). xs ++ (x ∷ [])) (first-congr _ _ w.num (λ i l. ground arith))
          (ground arith))
  | inr full ↦ rw full
]
