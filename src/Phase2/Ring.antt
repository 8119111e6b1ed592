-- ===== src/Phase2/Ring.antt =====
-- `SlotQueue` as a ring: what a push and a pop do to the slots that it holds, oldest first.
use native.Mathlib.Nat.{mod-eq_of_lt, mod-eq-sub-mod, mod-add-mod, add-zero}
use native.Mathlib.Decide.{dec_lt}
use elissa_x_priscilla_colla.Base.{ℕ, ◌+◌, ◌-◌, ◌%◌, ◌≤◌, ◌<◌, ◌≡◌, ◌≢◌, ap, some, arith, put}
use elissa_x_priscilla_colla.Phase2.State.{SlotQueue}
use elissa_x_priscilla_colla.Phase2.Slots.{push_slot, pop_slot}

-- The slot that comes out after `k` others.
abbrev pub slot_at : SlotQueue → ℕ → ℕ
slot_at q k = q.queue ((q.head + k) % q.capacity)

pub record IsRing (q : SlotQueue) : Type 0 where
  pub fits : q.count ≤ q.alloc
  pub whole : 0 < q.alloc → q.alloc ≡ q.capacity
  pub head_in : 0 < q.alloc → q.head < q.capacity
  pub tail_at : 0 < q.alloc → q.tail ≡ (q.head + q.count) % q.capacity

-- Indices less than a turn apart differ.
pub mod_ne : (h j k c : ℕ) → h < c → j < k → k < c → (h + j) % c ≢ (h + k) % c
mod_ne h j k c hh jk kc = elim (dec_lt (h + k) c) [
  | yes p ↦ omega (arith, mod-eq_of_lt p, mod-eq_of_lt {n = h + j} {m = c} (omega arith))
  | no p ↦ elim (dec_lt (h + j) c) [
    | yes l ↦ omega (
      arith,
      mod-eq_of_lt l,
      mod-eq-sub-mod {n = h + k} {m = c} (omega arith),
      mod-eq_of_lt {n = h + k - c} {m = c} (omega arith),
    )
    | no l ↦ omega (
      arith,
      mod-eq-sub-mod {n = h + k} {m = c} (omega arith),
      mod-eq_of_lt {n = h + k - c} {m = c} (omega arith),
      mod-eq-sub-mod {n = h + j} {m = c} (omega arith),
      mod-eq_of_lt {n = h + j - c} {m = c} (omega arith),
    )
  ]
]

-- The ring after a push.
abbrev pub pushed : ℕ → SlotQueue → SlotQueue
pushed i q = record q {
  queue = put q.queue q.tail i;
  tail = (q.tail + 1) % q.capacity;
  count = q.count + 1;
}

-- The ring after a pop.
abbrev pub popped : SlotQueue → SlotQueue
popped q = record q { head = (q.head + 1) % q.capacity; count = q.count - 1 }

module _ {q : SlotQueue} (v : IsRing q) where
  module _ (i : ℕ) (room : q.count < q.alloc) where
    pub push_slot-some : push_slot i q ≡ some (pushed i q)
    unfolding push_slot
    push_slot-some = ground (arith, v.whole (omega arith), v.tail_at (omega arith))

    pub pushed-IsRing : IsRing (pushed i q)
    pushed-IsRing = record {
      fits = omega arith;
      whole = v.whole;
      head_in = v.head_in;
      tail_at = λ l. rw (v.tail_at l, mod-add-mod) (ap (λ (n : ℕ). n % q.capacity) (omega arith));
    }

    pub slot_at-pushed_old : (k : ℕ) → k < q.count → slot_at (pushed i q) k ≡ slot_at q k
    slot_at-pushed_old k l = ground (
      arith,
      v.whole (omega arith),
      v.tail_at (omega arith),
      mod_ne q.head k q.count q.capacity (v.head_in (omega arith)) l (omega arith),
    )

    pub slot_at-pushed_new : slot_at (pushed i q) q.count ≡ i
    slot_at-pushed_new = ground (arith, v.tail_at (omega arith))

  module _ (some_held : 0 < q.count) where
    pub pop_slot-some : pop_slot q ≡ some (slot_at q 0, popped q)
    unfolding pop_slot
    pop_slot-some = ground (
      arith,
      v.whole (omega arith),
      v.head_in (omega arith),
      mod-eq_of_lt (v.head_in (omega arith)),
      ap (λ (n : ℕ). n % q.capacity) (add-zero q.head),
    )

    pub popped-IsRing : IsRing (popped q)
    popped-IsRing = record {
      fits = omega arith;
      whole = v.whole;
      head_in = λ l. omega (arith, v.head_in l);
      tail_at = λ l. rw (v.tail_at l, mod-add-mod) (ap (λ (n : ℕ). n % q.capacity) (omega arith));
    }

    pub slot_at-popped : (k : ℕ) → slot_at (popped q) k ≡ slot_at q (k + 1)
    slot_at-popped k = rw mod-add-mod (ap (λ (n : ℕ). q.queue (n % q.capacity)) (omega arith))
