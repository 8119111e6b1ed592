-- ===== src/Phase3/Counting.antt =====
-- The count of the semaphores of phase3/phase3.c: the processes recorded as waiting against the
-- value.
use elissa_x_priscilla_colla.Base.{ℕ, ◌≡◌, ◌⊎◌, ℤ, pos, negsuc, neg_part, true, Bool, ◌&&◌}
use elissa_x_priscilla_colla.Base.Int.{inc, ltb_ℤ, leb_ℤ}
use elissa_x_priscilla_colla.Kernel.{Request}
use elissa_x_priscilla_colla.Phase2.State as Mail
use elissa_x_priscilla_colla.Phase2.State.{closed}
use elissa_x_priscilla_colla.Phase2.Invariant.{IsValid}
use elissa_x_priscilla_colla.Phase3.State.{State, Semaphore, Sysargs}

-- A receiver without a buffer, and a sender without a message, are safe at a mailbox without slots.
abbrev pub HasNoSlots : ℤ → Mail.State → Type 0
HasNoSlots (negsuc _) s = Unit
HasNoSlots (pos m) s = (closed s m ≡ true) ⊎ ((s.mailboxes m).num_slots ≡ 0)

-- The counts agree.
abbrev pub Counted : Semaphore → Type 0
Counted v = v.blocked ≡ pos (neg_part v.value)

abbrev pub AllCounted : State → Type 0
AllCounted t = (i : ℕ) → (t.sems i).in_use ≡ true → Counted (t.sems i)

abbrev pub Consistent : State → Type 0
Consistent t = IsValid t.kernel × AllCounted t

abbrev pub AnyState : Request → State → State → Type 0
AnyState c s t = Unit

abbrev wakes : ℤ → ℤ → Bool
wakes a b = leb_ℤ (inc a) (pos 0) && ltb_ℤ (pos 0) b

-- The semaphore that the arguments name has a mailbox without slots, or none.
abbrev pub IsDirect : Sysargs → State → Type 0
IsDirect args t = (i : ℕ) → args.arg1 ≡ pos i → HasNoSlots (t.sems i).mbox_id t.kernel
