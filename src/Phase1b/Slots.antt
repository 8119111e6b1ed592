-- ===== src/Phase1b/Slots.antt =====
-- The entry and the PID that `spork` of phase1b-archive/phase1b.c chooses.
use elissa_x_priscilla_colla.Base.{
  ℕ, zero, suc, ◌+◌, ◌-◌, ◌%◌, ◌≤◌, ◌<◌, ◌≡◌, Option, none, some, true, false, Bool-cases,
  Option-cases, arith, inl, inr, minus_one, ◌==◌, subst, ltb, ◌⊎◌,
}
use elissa_x_priscilla_colla.Base.Int.{eq_ℤ}
use elissa_x_priscilla_colla.Phase1b.State.{Process, max_proc}
use elissa_x_priscilla_colla.Phase1b.Spork.{find_free, find_slot, reserved, new_pid}

module _ (table : ℕ → Process) where
  abbrev pub AllTaken : ℕ → ℕ → Type 0
  AllTaken i n = (j : ℕ) → i ≤ j → j < n → eq_ℤ (table j).pid minus_one ≡ false

  -- A free entry from `i` on, and none is free before it.
  pub record IsFirstFree (i n k : ℕ) : Type 0 where
    pub from : i ≤ k
    pub below : k < n
    pub free : eq_ℤ (table k).pid minus_one ≡ true
    pub taken : AllTaken i k

  abbrev pub Found : ℕ → ℕ → Option ℕ → Type 0
  Found i n none = AllTaken i n
  Found i n (some k) = IsFirstFree i n k

  taken_more : (i n : ℕ) → eq_ℤ (table i).pid minus_one ≡ false → AllTaken (suc i) n → AllTaken i n
  taken_more i n here later j l u = elim (Bool-cases (j == i)) [
    | inl e ↦ subst (λ k. eq_ℤ (table k).pid minus_one ≡ false) (ground arith) here
    | inr e ↦ later j (ground arith) u
  ]

  Found-later :
      (i n : ℕ)
      → eq_ℤ (table i).pid minus_one ≡ false
      → (o : Option ℕ) → Found (suc i) n o
      → Found i n o
  Found-later i n here none x = taken_more i n here x
  Found-later i n here (some k) x = record {
    from = omega (arith, x.from);
    below = x.below;
    free = x.free;
    taken = taken_more i k here x.taken;
  }

  find_free-Found : (r i n : ℕ) → r + i ≡ n → Found i n (find_free r i table)
  unfolding find_free
  find_free-Found zero i n e = λ j l u. absurd (omega (arith, e, l, u))
  find_free-Found (suc r) i n e = elim (Bool-cases (eq_ℤ (table i).pid minus_one)) [
    | inl free ↦
        rw (free, find_free)
          (record {
            from = omega arith;
            below = omega (arith, e);
            free = free;
            taken = λ j l u. absurd (omega (arith, l, u));
          })
    | inr taken ↦
        rw (taken, find_free)
          (Found-later i n taken (find_free r (suc i) table)
            (find_free-Found r (suc i) n (omega (arith, e))))
  ]

  -- The entry chosen for `next_pid`: none only if the whole table is taken.
  abbrev pub IsSlot : ℕ → Option ℕ → Type 0
  IsSlot n none = AllTaken 0 max_proc
  IsSlot n (some k) =
      IsFirstFree (n % max_proc) max_proc k
      ⊎ (AllTaken (n % max_proc) max_proc × IsFirstFree 0 (n % max_proc) k)

  IsSlot-cases :
      (n : ℕ)
      → Found (n % max_proc) max_proc (find_free (max_proc - n % max_proc) (n % max_proc) table)
      → Found 0 (n % max_proc) (find_free (n % max_proc) 0 table)
      → IsSlot n (find_slot n table)
  unfolding find_slot
  IsSlot-cases n upper lower =
      elim (Option-cases (find_free (max_proc - n % max_proc) (n % max_proc) table)) [
        | inr (k, e) ↦ rw (find_slot, e) (inl (subst (Found (n % max_proc) max_proc) e upper))
        | inl e ↦ elim (Option-cases (find_free (n % max_proc) 0 table)) [
          | inl e' ↦
              rw (find_slot, e, e')
                (λ j l u. elim (Bool-cases (ltb j (n % max_proc))) [
                  | inl low ↦ subst (Found 0 (n % max_proc)) e' lower j l (ground arith)
                  | inr high ↦ subst (Found (n % max_proc) max_proc) e upper j (ground arith) u
                ])
          | inr (k, e') ↦
              rw (find_slot, e, e')
                (inr (
                  subst (Found (n % max_proc) max_proc) e upper,
                  subst (Found 0 (n % max_proc)) e' lower,
                ))
        ]
      ]

  -- `spork` finds the first free entry from `next_pid % 50` on, going round at the end of the table,
  -- and none only if all 50 entries are taken.
  pub find_slot-IsSlot : (n : ℕ) → IsSlot n (find_slot n table)
  unfolding find_slot
  find_slot-IsSlot n =
      IsSlot-cases n
        (find_free-Found (max_proc - n % max_proc) (n % max_proc) max_proc (omega arith))
        (find_free-Found (n % max_proc) 0 (n % max_proc) (omega arith))

-- The PID `q` for a `next_pid` of `n`.
pub record IsNewPid (n q : ℕ) : Type 0 where
  pub from : n ≤ q
  pub near : q ≤ n + 2
  pub allowed : reserved q ≡ false
  pub passed : (k : ℕ) → n ≤ k → k < q → reserved k ≡ true

abbrev pub GivesPid : ℕ → Option ℕ → Type 0
GivesPid n none = ⊥
GivesPid n (some q) = IsNewPid n q

-- The loop of `spork` ends within three rounds, with the first PID from `next_pid` on that is below 3
-- or neither 1 nor 2 modulo 50.
pub new_pid-GivesPid : (n : ℕ) → GivesPid n (new_pid 3 n)
unfolding new_pid
new_pid-GivesPid n = elim (Bool-cases (reserved n)) [
  | inr e ↦
      rw (e, new_pid)
        (record {
          from = omega arith;
          near = omega arith;
          allowed = e;
          passed = λ k l u. absurd (omega (arith, l, u));
        })
  | inl e ↦ elim (Bool-cases (reserved (suc n))) [
    | inr e1 ↦
        rw (e, new_pid, e1)
          (record {
            from = omega arith;
            near = omega arith;
            allowed = e1;
            passed =
                λ k l u. subst (λ x. reserved x ≡ true) {x = n} {y = k} (omega (arith, l, u)) e;
          })
    | inl e1 ↦
        let e2 : reserved (suc (suc n)) ≡ false = ground arith in
        rw (e, new_pid, e1, e2)
          (record {
            from = omega arith;
            near = omega arith;
            allowed = e2;
            passed = λ k l u. elim (Bool-cases (k == n)) [
              | inl same ↦ subst (λ x. reserved x ≡ true) {x = n} {y = k} (ground arith) e
              | inr later ↦ subst (λ x. reserved x ≡ true) {x = suc n} {y = k} (ground arith) e1
            ];
          })
  ]
]
