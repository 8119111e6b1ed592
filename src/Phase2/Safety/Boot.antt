-- ===== src/Phase2/Safety/Boot.antt =====
-- `phase2_init` of phase2/phase2.c and the invariant.
use elissa_x_priscilla_colla.Base.{◌∙◌, ℕ, ◌<◌, ◌≡◌, refl, true, ℤ, pos, some, arith, Bool}
use elissa_x_priscilla_colla.Base.Run.{Safe, Safe-and_then}
use elissa_x_priscilla_colla.Phase2.State.{State, nullsys, max_syscalls}
use elissa_x_priscilla_colla.Phase2.Lifecycle.{reset, init_syscall_table, mbox_create, phase2_init}
use elissa_x_priscilla_colla.Phase2.Ring.{IsRing}
use elissa_x_priscilla_colla.Phase2.Invariant.{IsValid}
use elissa_x_priscilla_colla.Phase2.Safety.{Anything, Never}
use elissa_x_priscilla_colla.Phase2.Safety.Creation.{AllReleased, IsCreated, mbox_create-Safe}

-- The data segment is zero before the kernel starts: as much of it as matters.
pub record IsZeroed (s : State) : Type 0 where
  pub no_slots : (m : ℕ) → (s.mailboxes m).num_slots ≡ 0
  pub no_size : (m : ℕ) → (s.mailboxes m).slot_size ≡ 0
  pub no_queue : (m : ℕ) → (s.slot_queues m).alloc ≡ 0
  pub no_count : (m : ℕ) → (s.slot_queues m).count ≡ 0
  pub no_producers : (m : ℕ) → (s.blocked_producers m).num ≡ 0
  pub no_consumers : (m : ℕ) → (s.blocked_consumers m).num ≡ 0

module _ {s : State} (z : IsZeroed s) where
  reset-IsRing : (m : ℕ) → IsRing (s.slot_queues m)
  reset-IsRing m = record {
    fits = omega (arith, z.no_count m);
    whole = λ l. absurd (omega (arith, z.no_queue m));
    head_in = λ l. absurd (omega (arith, z.no_queue m));
    tail_at = λ l. absurd (omega (arith, z.no_queue m));
  }

  reset-IsValid : IsValid (reset s)
  unfolding reset init_syscall_table
  reset-IsValid = record {
    free_fits = omega arith;
    free = λ i l. ground arith;
    free_distinct = λ i j ij l. ground arith;
    rings = reset-IsRing;
    held = λ m k l. absurd (omega (arith, z.no_count m));
    held_distinct = λ m j k jk l. absurd (omega (arith, z.no_count m));
    open_boxes = λ m o. record {
      sized = ground (arith, z.no_queue m, z.no_slots m);
      small = ground (arith, z.no_size m);
    };
    producers_fit = λ m. ground (arith, z.no_producers m);
    consumers_fit = λ m. omega (arith, z.no_consumers m);
  }

  reset-AllReleased : AllReleased (reset s)
  unfolding reset init_syscall_table
  reset-AllReleased m off = z.no_count m

reset_vec : (s : State) (n : ℕ) → n < max_syscalls → (reset s).sys_vec n ≡ some nullsys
unfolding reset init_syscall_table
reset_vec s n l = ground arith

reset_int : (s : State) → (reset s).syscall_int ≡ true
unfolding reset
reset_int s = refl

-- What `phase2_init` leaves: a valid state, and a vector of `nullsys`.
pub record IsBooted (s : State) : Type 0 where
  pub valid : IsValid s
  pub all_nullsys : (n : ℕ) → n < max_syscalls → s.sys_vec n ≡ some nullsys
  pub handles_syscalls : s.syscall_int ≡ true

settings-IsValid :
    {s : State}
    → IsValid s
    → (id : ℤ) (b : Bool) → IsValid (record s { clock_mailbox = id; clock_int = b })
settings-IsValid v id b = record {
  free_fits = v.free_fits;
  free = v.free;
  free_distinct = v.free_distinct;
  rings = v.rings;
  held = v.held;
  held_distinct = v.held_distinct;
  open_boxes = v.open_boxes;
  producers_fit = v.producers_fit;
  consumers_fit = v.consumers_fit;
}

-- From a data segment whose counts and sizes are zero, `phase2_init` leaves valid mailboxes, a
-- `sys_vec` that holds only `nullsys`, and the system call handler installed.
pub phase2_init-Safe :
    {s : State} → IsZeroed s → Safe IsValid Anything Never (λ _ t. IsBooted t) (phase2_init s)
unfolding phase2_init
phase2_init-Safe {s} z =
    Safe-and_then IsValid Anything Never (IsCreated (pos 1) (pos 4) (reset s)) (λ _ t. IsBooted t)
      (mbox_create (pos 1) (pos 4) (reset s)) _
      (mbox_create-Safe (reset-IsValid z) (reset-AllReleased z) (pos 1) (pos 4))
      (λ id t (_, c). record {
        valid = settings-IsValid c.valid id true;
        all_nullsys = λ n l. rw (c.same_vec) (reset_vec s n l);
        handles_syscalls = c.same_int ∙ reset_int s;
      })
