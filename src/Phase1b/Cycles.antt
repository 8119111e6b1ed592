-- ===== src/Phase1b/Cycles.antt =====
-- What becomes of a ready queue of phase1b-archive/phase1b.c when a process that is still in it is
-- put at its end again.
use elissa_x_priscilla_colla.Base.{
  ℕ, zero, suc, ◌<◌, ◌≡◌, refl, Option, none, some, List, [], ◌∷◌, length, arith, ◌≢◌, ◌∙◌, sym,
  subst, Bool-cases, inl, inr, ◌==◌, ==_iff,
}
use elissa_x_priscilla_colla.Base.Run.{Finishes}
use elissa_x_priscilla_colla.Phase1b.State.{State, set_next, max_proc}
use elissa_x_priscilla_colla.Phase1b.Queues.{last, append_as_is}
use elissa_x_priscilla_colla.Phase1b.Chain.{
  next_of, IsChain, IsQueue, last_of, next_self, next_ne, last-Chain,
}

last-loop : (fuel : ℕ) (link : ℕ → Option ℕ) (i : ℕ) → link i ≡ some i → last fuel link i ≡ none
unfolding last
last-loop zero link i e = refl
last-loop (suc f) link i e = rw (e, last) (last-loop f link i e)

last-endless :
    (link link' : ℕ → Option ℕ) (fuel x : ℕ) (xs : List ℕ)
    → IsChain link (link x) xs
    → link' (last_of x xs) ≡ some (last_of x xs)
    → ((k : ℕ) → k ≢ last_of x xs → link' k ≡ link k)
    → last fuel link' x ≡ none
unfolding last
last-endless link link' zero x xs c self same = refl
last-endless link link' (suc f) x [] c self same = last-loop (suc f) link' x self
last-endless link link' (suc f) x (y ∷ ys) c self same = elim (Bool-cases (x == last_of y ys)) [
  | inl e ↦
      let here : x ≡ last_of y ys = (==_iff x (last_of y ys)).0 e in
      last-loop (suc f) link' x (subst (λ l. link' l ≡ some l) (sym here) self)
  | inr e ↦ rw (same x (ground arith) ∙ c.0, last) (last-endless link link' f y ys (c.1) self same)
]

-- If a process that `unblockProc` wakes is still the last of at most 50 in its ready queue, as
-- `blockMe` leaves it there, then afterwards the queue still has its head, and no end: no fuel is
-- enough for a walk along it.
pub append_as_is-Endless :
    (q x : ℕ) (xs : List ℕ) (s : State)
    → IsQueue s q (x ∷ xs)
    → length xs < max_proc
    → Finishes
        (λ _ t. (t.ready_queues q ≡ some x) × ((fuel : ℕ) → last fuel (next_of t) x ≡ none))
        (append_as_is q (last_of x xs) s)
unfolding append_as_is
append_as_is-Endless q x xs s c l =
    rw (c.0, append_as_is, last-Chain max_proc (next_of s) x xs (c.1) l)
      (
        c.0,
        λ fuel.
            last-endless (next_of s) (next_of (set_next s (last_of x xs) (some (last_of x xs))))
              fuel x xs (c.1) (next_self s (last_of x xs) (some (last_of x xs)))
              (λ k ne. next_ne s (last_of x xs) k (some (last_of x xs)) ne),
      )
