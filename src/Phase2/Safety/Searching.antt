-- ===== src/Phase2/Safety/Searching.antt =====
-- The choice of a mailbox and the test of its shape in `MboxCreate` of phase2/phase2.c.
use native.Mathlib.Decide.{ℕ_discrete}
use elissa_x_priscilla_colla.Base.{
  sym, subst, ℕ, none, zero, suc, ◌+◌, ◌≤◌, ◌<◌, ◌≡◌, inl, inr, refl, true, false, some, arith,
  Bool-cases, ℤ, pos, negsuc, pos_part,
}
use mathlib.Core.Option.{none-ne-some}
use elissa_x_priscilla_colla.Phase2.State.{State, max_mbox, max_slots, max_message, active}
use elissa_x_priscilla_colla.Phase2.Lifecycle.{bad_shape, find_inactive}

-- The number that `MboxCreate` finds is that of a closed mailbox in the table, the first such.
pub record IsFirstClosed (s : State) (i m : ℕ) : Type 0 where
  pub below : m < max_mbox
  pub inactive : active s m ≡ false
  pub others_active : (k : ℕ) → i ≤ k → k < m → active s k ≡ true

pub find_inactive-some :
    (s : State) (rounds i : ℕ) (m : ℕ)
    → rounds + i ≡ max_mbox
    → find_inactive rounds i s.mailboxes ≡ some m
    → IsFirstClosed s i m
unfolding find_inactive
find_inactive-some s zero i m bound e = cc
find_inactive-some s (suc r) i m bound e = elim (Bool-cases (active s i)) [
  | inl on ↦
      let rest = find_inactive-some s r (suc i) m (omega arith) (rw (on, find_inactive) at e) in
      record {
        below = rest.below;
        inactive = rest.inactive;
        others_active = λ k l lk. elim (ℕ_discrete k i) [
          | yes here ↦ rw here on
          | no later ↦ rest.others_active k (omega arith) lk
        ];
      }
  | inr off ↦
      let found : some i ≡ some m = rw (off, find_inactive) at e in
      let here : i ≡ m = cc in
      record {
        below = omega arith;
        inactive = rw (← here) off;
        others_active = λ k l lk. absurd (omega arith);
      }
]

pub find_inactive-none :
    (s : State) (rounds i : ℕ)
    → find_inactive rounds i s.mailboxes ≡ none
    → (k : ℕ) → i ≤ k
    → k < rounds + i
    → active s k ≡ true
unfolding find_inactive
find_inactive-none s zero i e k l u = absurd (omega (arith, l, u))
find_inactive-none s (suc r) i e k l u = elim (Bool-cases (active s i)) [
  | inl on ↦ elim (ℕ_discrete k i) [
    | yes here ↦ rw here on
    | no later ↦
        find_inactive-none s r (suc i) (rw (on, find_inactive) at e) k (omega (arith, later, l))
          (omega (arith, u))
  ]
  | inr off ↦
      let found : some i ≡ none = rw (off, find_inactive) at e in
      absurd (none-ne-some i (sym found))
]

pub shape_small : (n size : ℤ) → bad_shape n size ≡ false → pos_part size ≤ max_message
unfolding bad_shape
shape_small (pos n) (pos size) e = ground arith
shape_small (pos n) (negsuc size) e = cc
shape_small (negsuc n) size e = cc

-- The number of slots and the size of a slot are in their bounds.
abbrev pub HasShape : ℤ → ℤ → Type 0
HasShape n size =
    (i : ℕ) × (j : ℕ) × (n ≡ pos i) × (size ≡ pos j) × (i ≤ max_slots) × (j ≤ max_message)

pub bad_shape-true : (n size : ℤ) → bad_shape n size ≡ true → ¬ HasShape n size
unfolding bad_shape
bad_shape-true n size e (i, j, ni, sj, il, jl) =
    let same : bad_shape (pos i) (pos j) ≡ true =
      subst (λ z. bad_shape z (pos j) ≡ true) ni (subst (λ z. bad_shape n z ≡ true) sj e) in
    absurd (ground (arith, same, il, jl))

pub bad_shape-false : (n size : ℤ) → bad_shape n size ≡ false → HasShape n size
unfolding bad_shape
bad_shape-false (pos i) (pos j) e = (i, j, refl, refl, ground (arith, e), ground (arith, e))
bad_shape-false (pos i) (negsuc j) e = cc
bad_shape-false (negsuc i) size e = cc
