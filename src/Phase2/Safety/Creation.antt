-- ===== src/Phase2/Safety/Creation.antt =====
-- `MboxCreate` of phase2/phase2.c and the invariant, and what it returns.

use native.Mathlib.Nat.{mod-eq_of_lt}
use elissa_x_priscilla_colla.Base.{
  minus_one, sym, ap, ℕ, ◌*◌, ◌≢◌, none, Option, ◌≤◌, ◌<◌, ◌≡◌, inl, inr, refl, true, false, some,
  arith, Bool-cases, Option-cases, ℤ, pos, pos_part,
}
use elissa_x_priscilla_colla.Base.Int.{eq_ℤ}
use elissa_x_priscilla_colla.Base.IntEq.{eq_ℤ-true, eq_ℤ-false}
use elissa_x_priscilla_colla.Base.Run.{Safe}
use elissa_x_priscilla_colla.Base.Answers.{Answered, Answered-Safe}
use elissa_x_priscilla_colla.Kernel.{Query, malloc}
use elissa_x_priscilla_colla.Phase2.State.{
  State, SlotQueue, max_mbox, max_message, active, set_queue, set_mailbox,
}
use elissa_x_priscilla_colla.Phase2.Lifecycle.{
  fresh_mailbox, bad_shape, find_inactive, set_up, mbox_create,
}
use elissa_x_priscilla_colla.Phase2.Ring.{IsRing}
use elissa_x_priscilla_colla.Phase2.Safety.Searching.{
  IsFirstClosed, HasShape, find_inactive-some, find_inactive-none, bad_shape-true, bad_shape-false,
  shape_small,
}
use elissa_x_priscilla_colla.Phase2.Invariant.{IsValid}
use elissa_x_priscilla_colla.Phase2.Invariant.Rows.{set_mailbox-IsValid}
use elissa_x_priscilla_colla.Phase2.Safety.{Anything, Never}
use elissa_x_priscilla_colla.Phase2.Safety.Releasing.{emptied-IsValid}

-- No mailbox is in the middle of being released: a closed one has no messages.
abbrev pub AllReleased : State → Type 0
AllReleased s = (m : ℕ) → active s m ≡ false → (s.slot_queues m).count ≡ 0

abbrev empty_queue : ℕ → SlotQueue → SlotQueue
empty_queue n q = record q { alloc = n; capacity = n; head = 0; tail = 0; count = 0 }

empty_queue-IsRing : (n : ℕ) (q : SlotQueue) → IsRing (empty_queue n q)
empty_queue-IsRing n q = record {
  fits = omega arith;
  whole = λ l. refl;
  head_in = λ l. l;
  tail_at = λ l. sym (mod-eq_of_lt l);
}

-- What `MboxCreate` returns and the state that it leaves, where `answer` is that of `malloc`, if it has
-- been called.
pub data Creates (n size : ℤ) (s : State) (answer : Option ℤ) (z : ℤ) (t : State) : Type 0 where
  refused : answer ≡ none → z ≡ minus_one → ¬ HasShape n size → t ≡ s → Creates n size s answer z t
  none_closed :
      answer ≡ none
      → z ≡ minus_one
      → ((k : ℕ) → k < max_mbox → active s k ≡ true)
      → t ≡ s
      → Creates n size s answer z t
  no_memory :
      (m : ℕ)
      → answer ≡ some (pos 0)
      → z ≡ minus_one
      → IsFirstClosed s 0 m
      → t
        ≡ set_queue
            (set_mailbox s m
              (record (fresh_mailbox m (pos_part n) (pos_part size)) { is_active = false }))
            m
            (record (s.slot_queues m) { alloc = 0 })
      → Creates n size s answer z t
  created :
      (m : ℕ) (address : ℤ)
      → answer ≡ some address
      → address ≢ pos 0
      → z ≡ pos m
      → HasShape n size
      → IsFirstClosed s 0 m
      → t
        ≡ set_queue
            (set_mailbox s m (fresh_mailbox m (pos_part n) (pos_part size)))
            m
            (empty_queue (pos_part n) (s.slot_queues m))
      → Creates n size s answer z t

pub record IsCreate (n size : ℤ) (s : State) (answer : Option ℤ) (z : ℤ) (t : State) : Type 0 where
  pub valid : IsValid t
  pub creates : Creates n size s answer z t
  pub same_vec : t.sys_vec ≡ s.sys_vec
  pub same_int : t.syscall_int ≡ s.syscall_int
  pub same_calls : t.system_call_vec ≡ s.system_call_vec

-- The same with any answer.
abbrev pub IsCreated : ℤ → ℤ → State → ℤ → State → Type 0
IsCreated n size s z t = (answer : Option ℤ) × IsCreate n size s answer z t

-- The array of a queue of `n` slots is asked for.
abbrev pub ForQueue : ℤ → Query → Type 0
ForQueue n q = q ≡ malloc (pos_part n * 4)

module _ {s : State} (v : IsValid s) (released : AllReleased s) (n size : ℤ) where
  unchanged : (z : ℤ) → Creates n size s none z s → IsCreate n size s none z s
  unchanged z c = record {
    valid = v;
    creates = c;
    same_vec = refl;
    same_int = refl;
    same_calls = refl;
  }

  set_up-Answered :
      (m : ℕ)
      → IsFirstClosed s 0 m
      → HasShape n size
      → pos_part size ≤ max_message
      → Answered (ForQueue n) (IsCreate n size s) none (set_up m (pos_part n) (pos_part size) s)
  unfolding set_up
  set_up-Answered m c shape small = (
    refl,
    λ z. elim (Bool-cases (eq_ℤ z (pos 0))) [
      | inl null ↦ rw null (record {
        valid =
            set_mailbox-IsValid
              (emptied-IsValid v m (record (s.slot_queues m) { alloc = 0 }) (released m c.inactive)
                (record {
                  fits = omega (arith, released m c.inactive);
                  whole = λ l. absurd (omega arith);
                  head_in = λ l. absurd (omega arith);
                  tail_at = λ l. absurd (omega arith);
                })
                (λ o. cc (c.inactive)))
              m _ (λ o. cc);
        creates = no_memory m (ap some (eq_ℤ-true z (pos 0) null)) refl c refl;
        same_vec = refl;
        same_int = refl;
        same_calls = refl;
      })
      | inr some_memory ↦ rw some_memory (record {
        valid =
            set_mailbox-IsValid
              (emptied-IsValid v m (empty_queue (pos_part n) (s.slot_queues m)) refl
                (empty_queue-IsRing (pos_part n) (s.slot_queues m)) (λ o. cc (c.inactive)))
              m _ (λ o. record { sized = ground arith; small = small });
        creates = created m z refl (eq_ℤ-false z (pos 0) some_memory) refl shape c refl;
        same_vec = refl;
        same_int = refl;
        same_calls = refl;
      })
    ],
  )

  pub mbox_create-Answered : Answered (ForQueue n) (IsCreate n size s) none (mbox_create n size s)
  unfolding mbox_create
  mbox_create-Answered = elim (Bool-cases (bad_shape n size)) [
    | inl bad ↦ rw bad (unchanged minus_one (refused refl refl (bad_shape-true n size bad) refl))
    | inr fine ↦ elim (Option-cases (find_inactive max_mbox 0 s.mailboxes)) [
      | inl e ↦
          rw (fine, e, mbox_create)
            (unchanged minus_one (
              none_closed refl refl
                (λ k l. find_inactive-none s max_mbox 0 e k (omega arith) (omega (arith, l))) refl))
      | inr (m, e) ↦
          rw (fine, e, mbox_create)
            (set_up-Answered m (find_inactive-some s max_mbox 0 m (omega arith) e)
              (bad_shape-false n size fine) (shape_small n size fine))
    ]
  ]

  pub mbox_create-Safe : Safe IsValid Anything Never (IsCreated n size s) (mbox_create n size s)
  mbox_create-Safe =
      Answered-Safe (ForQueue n) (IsCreate n size s) IsValid Anything Never (IsCreated n size s)
        (λ o z t c. (o, c)) none (mbox_create n size s) mbox_create-Answered
