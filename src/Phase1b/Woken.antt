-- ===== src/Phase1b/Woken.antt =====
-- The front of a ready queue of phase1b-archive/phase1b.c after processes have been put there.
use elissa_x_priscilla_colla.Base.{
  ℕ, zero, suc, ◌<◌, ◌≡◌, Option, some, List, [], ◌∷◌, Bool-cases, inl, inr, ◌==◌, ◌&&◌,
  if◌then◌else◌, arith,
}
use elissa_x_priscilla_colla.Phase1b.State.{State, proc}
use elissa_x_priscilla_colla.Phase1b.Scheduler.{zaps}
use elissa_x_priscilla_colla.Phase1b.Chain.{All, All-map}

-- The pointers from `h` on go through `xs` and come to `e`.
abbrev pub Reaches : (ℕ → Option ℕ) → Option ℕ → List ℕ → Option ℕ → Type 0
Reaches link h [] e = h ≡ e
Reaches link h (x ∷ xs) e = (h ≡ some x) × Reaches link (link x) xs e

pub Reaches-off :
    (link link' : ℕ → Option ℕ) (P : ℕ → Type 0)
    → ((k : ℕ) → P k → link' k ≡ link k)
    → (xs : List ℕ) (h e : Option ℕ) → All P xs
    → Reaches link h xs e
    → Reaches link' h xs e
Reaches-off link link' P same [] h e a c = c
Reaches-off link link' P same (x ∷ xs) h e a c =
    (c.0, rw (same x (a.0)) (Reaches-off link link' P same xs (link x) e (a.1) (c.1)))

-- The processes below `n` that wait for `r` to end and belong in ready queue `q`, the last one first.
abbrev pub zappers : (r q n : ℕ) → State → List ℕ
zappers r q zero s = []
zappers r q (suc n) s =
    if zaps r n s && ((proc s n).priority == suc q) then n ∷ zappers r q n s else zappers r q n s

pub zappers-below : (r q n : ℕ) (s : State) → All (λ k. k < n) (zappers r q n s)
zappers-below r q zero s = tt
zappers-below r q (suc n) s =
    let rest : All (λ k. k < suc n) (zappers r q n s) =
      All-map (λ k. k < n) (λ k. k < suc n) (λ k l. omega (arith, l)) (zappers r q n s)
        (zappers-below r q n s) in
    elim (Bool-cases (zaps r n s && ((proc s n).priority == suc q))) [
      | inl e ↦ rw e (omega arith, rest)
      | inr e ↦ rw e rest
    ]
