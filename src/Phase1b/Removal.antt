-- ===== src/Phase1b/Removal.antt =====
-- The ready queues of phase1b-archive/phase1b.c as lists: what is added and what is removed.
use elissa_x_priscilla_colla.Base.{
  ℕ, zero, suc, ◌-◌, ◌≤◌, ◌<◌, ◌≡◌, ◌≢◌, refl, sym, ap, subst, ◌∙◌, Option, none, some, List, [],
  ◌∷◌, ◌++◌, ◌==◌, lt→ltb, Bool-cases, ==_iff, put_self, put_ne, arith, inl, inr, length,
}
use elissa_x_priscilla_colla.Base.Run.{Finishes, Finishes-mono}
use elissa_x_priscilla_colla.Phase1b.State.{State, proc, set_next, set_queue, max_proc}
use elissa_x_priscilla_colla.Phase1b.Queues.{append, unlink, remove_from_ready_queue}
use elissa_x_priscilla_colla.Phase1b.Frames.{
  OnlyQueues, OnlyQueues-refl, OnlyQueues-trans, set_next-OnlyQueues, set_queue-OnlyQueues,
}
use elissa_x_priscilla_colla.Phase1b.Chain.{
  next_of, IsChain, Absent, Distinct, IsQueue, last_of, last_of-ne, next_self, next_ne, IsChain-off,
  IsChain-off_two, last-Chain, without,
}

-- Where process `p` is put after the last entry.
module _ (s : State) (p : ℕ) where
  appended :
      (x : ℕ) (xs : List ℕ)
      → Distinct (x ∷ xs)
      → Absent p (x ∷ xs)
      → IsChain (next_of s) (next_of s x) xs
      → IsChain
          (next_of (set_next (set_next s (last_of x xs) (some p)) p none))
          (next_of (set_next (set_next s (last_of x xs) (some p)) p none) x)
          (xs ++ (p ∷ []))
  appended x [] d a c = (
    next_ne (set_next s x (some p)) p x none (a.0) ∙ next_self s x (some p),
    next_self (set_next s x (some p)) p none,
  )
  appended x (y ∷ ys) d a c = (
    next_ne (set_next s (last_of y ys) (some p)) p x none (a.0)
        ∙ next_ne s (last_of y ys) x (some p) (λ e. last_of-ne x y ys (d.0) (sym e))
        ∙ c.0,
    appended y ys (d.1) (a.1) (c.1),
  )

-- After the walk past `j`, whose next entries were `xs`.
record IsUnlinked (j : ℕ) (xs : List ℕ) (p : ℕ) (s t : State) : Type 0 where
  chain : IsChain (next_of t) (next_of t j) (without p xs)
  same : (k : ℕ) → Absent k (j ∷ xs) → next_of t k ≡ next_of s k
  queues : t.ready_queues ≡ s.ready_queues
  frame : OnlyQueues s t

set_next_two-OnlyQueues :
    (s : State) (i j : ℕ) (m n : Option ℕ) → OnlyQueues s (set_next (set_next s i m) j n)
set_next_two-OnlyQueues s i j m n =
    OnlyQueues-trans s (set_next s i m) (set_next (set_next s i m) j n) (set_next-OnlyQueues s i m)
      (set_next-OnlyQueues (set_next s i m) j n)

set_queue_next-OnlyQueues :
    (s : State) (q j : ℕ) (m n : Option ℕ) → OnlyQueues s (set_next (set_queue s q m) j n)
set_queue_next-OnlyQueues s q j m n =
    OnlyQueues-trans s (set_queue s q m) (set_next (set_queue s q m) j n)
      (set_queue-OnlyQueues s q m) (set_next-OnlyQueues (set_queue s q m) j n)

module _ (s : State) (q p : ℕ) where
  unlink-Chain :
      (fuel j : ℕ) (xs : List ℕ)
      → Distinct (j ∷ xs)
      → j ≢ p
      → IsChain (next_of s) (next_of s j) xs
      → length xs < fuel
      → Finishes (λ _ t. IsUnlinked j xs p s t) (unlink fuel q p (some j) (next_of s j) s)
  unfolding unlink
  unlink-Chain zero j xs d ne c l = absurd (omega arith)
  unlink-Chain (suc f) j [] d ne c l =
      rw (c, unlink)
        (record { chain = c; same = λ k a. refl; queues = refl; frame = OnlyQueues-refl s })
  unlink-Chain (suc f) j (x ∷ xs) d ne c l = elim (Bool-cases (x == p)) [
    | inl e ↦
        let here : x ≡ p = (==_iff x p).0 e in
        rw (c.0, unlink, e)
          (record {
            chain =
                rw
                  (e, next_ne (set_next s j (next_of s x)) p j none ne, next_self s j (next_of s x))
                  (IsChain-off_two s j p (next_of s x) none xs (next_of s x) (d.0.1)
                    (subst (λ y. Absent y xs) here (d.1.0)) (c.1));
            same = λ k a.
                next_ne (set_next s j (next_of s x)) p k none (λ o. a.1.0 (here ∙ sym o))
                ∙ next_ne s j k (next_of s x) (λ o. a.0 (sym o));
            queues = refl;
            frame = set_next_two-OnlyQueues s j p (next_of s x) none;
          })
    | inr e ↦
        rw (c.0, unlink, e)
          (Finishes-mono (λ _ t. IsUnlinked x xs p s t) (λ _ t. IsUnlinked j (x ∷ xs) p s t)
            (unlink f q p (some x) (next_of s x) s)
            (λ _ t u. record {
              chain = rw e (u.same j (d.0) ∙ c.0, u.chain);
              same = λ k a. u.same k (a.1);
              queues = u.queues;
              frame = u.frame;
            })
            (unlink-Chain f x xs (d.1) (ground arith) (c.1) (omega (arith, l))))
  ]

-- Queue `q` is now `ys`, and nothing else has changed but the links of `xs` and `p`.
pub record IsChanged (q : ℕ) (xs : List ℕ) (p : ℕ) (ys : List ℕ) (s t : State) : Type 0 where
  pub queue : IsQueue t q ys
  pub links : (k : ℕ) → k ≢ p → Absent k xs → next_of t k ≡ next_of s k
  pub others : (r : ℕ) → r ≢ q → t.ready_queues r ≡ s.ready_queues r
  pub frame : OnlyQueues s t

-- If a ready queue is the list `xs` of at most 50 different processes, `spork` puts process `p`, which
-- is not in it, at the end of it, and changes no other head and no link but those of `xs` and `p`.
pub append-IsChanged :
    (q p : ℕ) (xs : List ℕ) (s : State)
    → IsQueue s q xs
    → Distinct xs
    → Absent p xs
    → length xs ≤ max_proc
    → Finishes (λ _ t. IsChanged q xs p (xs ++ (p ∷ [])) s t) (append q p s)
unfolding append
append-IsChanged q p [] s c d a l =
    rw (c, append)
      (record {
        queue = (put_self s.ready_queues q (some p), next_self (set_queue s q (some p)) p none);
        links = λ k ne _. next_ne (set_queue s q (some p)) p k none ne;
        others = λ r ne. put_ne s.ready_queues q (some p) r ne;
        frame = set_queue_next-OnlyQueues s q p (some p) none;
      })
append-IsChanged q p (x ∷ xs) s c d a l =
    rw (c.0, append, last-Chain max_proc (next_of s) x xs (c.1) (omega (arith, l)))
      (record {
        queue = (c.0, appended s p x xs d a (c.1));
        links = λ k ne off.
            next_ne (set_next s (last_of x xs) (some p)) p k none ne
            ∙ next_ne s (last_of x xs) k (some p) (λ e. last_of-ne k x xs off (sym e));
        others = λ r ne. refl;
        frame = set_next_two-OnlyQueues s (last_of x xs) p (some p) none;
      })

unlink_head-IsChanged :
    (fuel q p : ℕ) (xs : List ℕ) (s : State)
    → IsQueue s q xs
    → Distinct xs
    → length xs < suc fuel
    → Finishes
        (λ _ t. IsChanged q xs p (without p xs) s t)
        (unlink (suc fuel) q p none (s.ready_queues q) s)
unfolding unlink
unlink_head-IsChanged f q p [] s c d l =
    rw (c, unlink)
      (record {
        queue = c;
        links = λ k ne _. refl;
        others = λ r ne. refl;
        frame = OnlyQueues-refl s;
      })
unlink_head-IsChanged f q p (x ∷ xs) s c d l = elim (Bool-cases (x == p)) [
  | inl e ↦
      let here : x ≡ p = (==_iff x p).0 e in
      rw (c.0, unlink, e)
        (record {
          queue = rw (put_self s.ready_queues q (next_of s x)) (
              IsChain-off (next_of s) (next_of (set_next (set_queue s q (next_of s x)) p none))
                (λ y. y ≢ p) (λ k ne. next_ne (set_queue s q (next_of s x)) p k none ne) xs
                (next_of s x) (subst (λ y. Absent y xs) here (d.0)) (c.1));
          links = λ k ne off. next_ne (set_queue s q (next_of s x)) p k none ne;
          others = λ r ne. put_ne s.ready_queues q (next_of s x) r ne;
          frame = set_queue_next-OnlyQueues s q p (next_of s x) none;
        })
  | inr e ↦
      rw (c.0, unlink, e)
        (Finishes-mono (λ _ t. IsUnlinked x xs p s t)
          (λ _ t. IsChanged q (x ∷ xs) p (x ∷ without p xs) s t)
          (unlink f q p (some x) (next_of s x) s)
          (λ _ t u. record {
            queue = rw (u.queues) (c.0, u.chain);
            links = λ k ne off. u.same k off;
            others = λ r ne. ap (λ o. o r) u.queues;
            frame = u.frame;
          })
          (unlink-Chain s q p f x xs d (ground arith) (c.1) (omega (arith, l))))
]

-- If the ready queue of process `p` is the list `xs` of at most 50 different processes,
-- `remove_from_ready_queue` takes `p` out of it, or does nothing to it if `p` is not in it, and
-- changes no other head and no link but those of `xs` and `p`.
pub remove_from_ready_queue-IsChanged :
    (q p : ℕ) (xs : List ℕ) (s : State)
    → (proc s p).priority ≡ suc q
    → q < 6
    → IsQueue s q xs
    → Distinct xs
    → length xs ≤ max_proc
    → Finishes (λ _ t. IsChanged q xs p (without p xs) s t) (remove_from_ready_queue p s)
unfolding remove_from_ready_queue
remove_from_ready_queue-IsChanged q p xs s at bound c d l =
    let back : suc q - 1 ≡ q = omega arith in
    rw (at, lt→ltb (suc q) 7 (omega (arith, bound)), lt→ltb 0 (suc q) (omega arith), back)
      (unlink_head-IsChanged max_proc q p xs s c d (omega (arith, l)))
