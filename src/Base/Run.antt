-- ===== src/Base/Run.antt =====
-- A call into the kernel as a tree: what it does up to the next point where other code runs.
-- Whoever runs in between may have changed the state, so a `call` hands its continuation a new one.
use Prim.Native.Nat.{ℕ}
use mathlib.Core.Path.{◌≡◌}
use mathlib.Core.Option.{Option, none, some}
use mathlib.Core.List.{List, [], ◌∷◌}
use elissa_x_priscilla_colla.Base.Int.{ℤ, pos}

-- `Q`: questions to code outside the model that leave the state alone (`malloc`, a status register).
-- `C`: calls during which other processes may run.
pub data Run (Q C S A : Type 0) : Type 0 where
  -- `return a`
  done : A → S → Run Q C S A
  -- `USLOSS_Halt(code)`, which does not return
  halt : ℕ → S → Run Q C S A
  -- undefined behaviour: an index out of bounds, a null pointer, a division by zero
  fault : Run Q C S A
  -- a loop that has used up its fuel
  unfinished : S → Run Q C S A
  ask : Q → (ℤ → Run Q C S A) → Run Q C S A
  call : C → S → (ℤ → S → Run Q C S A) → Run Q C S A

module _ {Q C S : Type 0} where
  abbrev pub and_then : {A B : Type 0} → Run Q C S A → (A → S → Run Q C S B) → Run Q C S B
  and_then (done a s) f = f a s
  and_then (halt c s) f = halt c s
  and_then fault f = fault
  and_then (unfinished s) f = unfinished s
  and_then (ask q k) f = ask q (λ z. and_then (k z) f)
  and_then (call c s k) f = call c s (λ z t. and_then (k z t) f)

  infixl 5 ◌>>=◌ ◌>>◌
  abbrev pub ◌>>=◌ : {A B : Type 0} → (S → Run Q C S A) → (A → S → Run Q C S B) → S → Run Q C S B
  ◌>>=◌ m f s = and_then (m s) f

  abbrev pub ◌>>◌ : {A B : Type 0} → (S → Run Q C S A) → (S → Run Q C S B) → S → Run Q C S B
  ◌>>◌ m k s = and_then (m s) (λ _. k)

  -- The other code may leave any state that satisfies the invariant and the rely. Then the run
  -- never faults, the invariant holds wherever other code runs, a loop that outlives its fuel
  -- satisfies `U`, and a result satisfies `P`.
  module _ (I : S → Type 0) (R : C → S → S → Type 0) (U : S → Type 0) where
    abbrev pub Safe : {A : Type 0} → (A → S → Type 0) → Run Q C S A → Type 0
    Safe P (done a s) = P a s
    Safe P (halt c s) = Unit
    Safe P fault = ⊥
    Safe P (unfinished s) = U s
    Safe P (ask q k) = (z : ℤ) → Safe P (k z)
    Safe P (call c s k) = I s × ((z : ℤ) (t : S) → I t → R c s t → Safe P (k z t))

  -- Nobody else does anything while a call lasts. Then the run returns, with `P`.
  abbrev pub Finishes : {A : Type 0} → (A → S → Type 0) → Run Q C S A → Type 0
  Finishes P (done a s) = P a s
  Finishes P (halt c s) = ⊥
  Finishes P fault = ⊥
  Finishes P (unfinished s) = ⊥
  Finishes P (ask q k) = (z : ℤ) → Finishes P (k z)
  Finishes P (call c s k) = (z : ℤ) → Finishes P (k z s)

  pub Finishes-and_then :
      {A B : Type 0} (P : A → S → Type 0) (P' : B → S → Type 0) (m : Run Q C S A)
      (f : A → S → Run Q C S B)
      → Finishes P m
      → ((a : A) (s : S) → P a s → Finishes P' (f a s))
      → Finishes P' (and_then m f)
  Finishes-and_then P P' (done a s) f h next = next a s h
  Finishes-and_then P P' (halt c s) f h next = absurd h
  Finishes-and_then P P' fault f h next = absurd h
  Finishes-and_then P P' (unfinished s) f h next = absurd h
  Finishes-and_then P P' (ask q k) f h next = λ z. Finishes-and_then P P' (k z) f (h z) next
  Finishes-and_then P P' (call c s k) f h next = λ z. Finishes-and_then P P' (k z s) f (h z) next

  pub Finishes-mono :
      {A : Type 0} (P P' : A → S → Type 0) (m : Run Q C S A)
      → ((a : A) (s : S) → P a s → P' a s)
      → Finishes P m
      → Finishes P' m
  Finishes-mono P P' (done a s) weaken h = weaken a s h
  Finishes-mono P P' (halt c s) weaken h = h
  Finishes-mono P P' fault weaken h = h
  Finishes-mono P P' (unfinished s) weaken h = h
  Finishes-mono P P' (ask q k) weaken h = λ z. Finishes-mono P P' (k z) weaken (h z)
  Finishes-mono P P' (call c s k) weaken h = λ z. Finishes-mono P P' (k z s) weaken (h z)

  -- What holds of every interleaving holds of the one where nobody else does anything.
  pub Finishes-Safe :
      {A : Type 0} (I : S → Type 0) (R : C → S → S → Type 0) (U : S → Type 0)
      (P P' : A → S → Type 0) (m : Run Q C S A)
      → ((c : C) (s : S) → R c s s)
      → Safe I R U P m
      → Finishes P' m
      → Finishes (λ a s. P a s × P' a s) m
  Finishes-Safe I R U P P' (done a s) same h f = (h, f)
  Finishes-Safe I R U P P' (halt c s) same h f = f
  Finishes-Safe I R U P P' fault same h f = f
  Finishes-Safe I R U P P' (unfinished s) same h f = f
  Finishes-Safe I R U P P' (ask q k) same h f = λ z. Finishes-Safe I R U P P' (k z) same (h z) (f z)
  Finishes-Safe I R U P P' (call c s k) same h f =
      λ z. Finishes-Safe I R U P P' (k z s) same (h.1 z s h.0 (same c s)) (f z)

  -- The run where nobody else does anything: each call returns at once, with the state as it was.
  -- The calls made are listed.
  unfoldable pub alone : {A : Type 0} → (Q → ℤ) → Run Q C S A → Option (A × S × List C)
  alone answer (done a s) = some (a, s, [])
  alone answer (halt c s) = none
  alone answer fault = none
  alone answer (unfinished s) = none
  alone answer (ask q k) = alone answer (k (answer q))
  alone answer (call c s k) = elim (alone answer (k (pos 0) s)) [
    | none ↦ none
    | some (a, t, cs) ↦ some (a, t, c ∷ cs)
  ]

  module _ (I : S → Type 0) (R : C → S → S → Type 0) (U : S → Type 0) {A B : Type 0}
      (P : A → S → Type 0) (P' : B → S → Type 0) where
    pub Safe-and_then :
        (m : Run Q C S A) (f : A → S → Run Q C S B)
        → Safe I R U P m
        → ((a : A) (s : S) → P a s → Safe I R U P' (f a s))
        → Safe I R U P' (and_then m f)
    Safe-and_then (done a s) f h next = next a s h
    Safe-and_then (halt c s) f h next = tt
    Safe-and_then fault f h next = h
    Safe-and_then (unfinished s) f h next = h
    Safe-and_then (ask q k) f h next = λ z. Safe-and_then (k z) f (h z) next
    Safe-and_then (call c s k) f h next =
        (h.0, λ z t i r. Safe-and_then (k z t) f (h.1 z t i r) next)

  -- More may be assumed of the other code, and less asked of the loops.
  pub Safe-rely :
      (I : S → Type 0) (R R' : C → S → S → Type 0) (U U' : S → Type 0) {A : Type 0}
      (P : A → S → Type 0)
      → ((c : C) (s t : S) → R' c s t → R c s t)
      → ((s : S) → U s → U' s)
      → (m : Run Q C S A) → Safe I R U P m
      → Safe I R' U' P m
  Safe-rely I R R' U U' P less more (done a s) h = h
  Safe-rely I R R' U U' P less more (halt c s) h = tt
  Safe-rely I R R' U U' P less more fault h = h
  Safe-rely I R R' U U' P less more (unfinished s) h = more s h
  Safe-rely I R R' U U' P less more (ask q k) h = λ z. Safe-rely I R R' U U' P less more (k z) (h z)
  Safe-rely I R R' U U' P less more (call c s k) h =
      (h.0, λ z t i r. Safe-rely I R R' U U' P less more (k z t) (h.1 z t i (less c s t r)))

-- A part of a larger state.
pub record Part (S T : Type 0) : Type 0 where
  pub get : T → S
  pub put : S → T → T

module _ {Q C S T : Type 0} (part : Part S T) where
  -- A run on the part, from the larger state `t`. Where other code runs, it has the whole state.
  abbrev pub focus : {A : Type 0} → T → Run Q C S A → Run Q C T A
  focus t (done a s) = done a (part.put s t)
  focus t (halt c s) = halt c (part.put s t)
  focus t fault = fault
  focus t (unfinished s) = unfinished (part.put s t)
  focus t (ask q k) = ask q (λ z. focus t (k z))
  focus t (call c s k) = call c (part.put s t) (λ z t'. focus t' (k z (part.get t')))

  -- The invariant of the part, and `J` of the rest.
  pub Safe-focus :
      (I U : S → Type 0) (J : T → Type 0) {A : Type 0}
      → ((s : S) (t : T) → J t → J (part.put s t))
      → ((s : S) (t : T) → part.get (part.put s t) ≡ s)
      → (m : Run Q C S A) (t : T) → J t
      → Safe I (λ _ _ _. Unit) U (λ _ s. I s) m
      → Safe
          (λ t. I (part.get t) × J t)
          (λ _ _ _. Unit)
          (λ t. U (part.get t))
          (λ _ t. I (part.get t) × J t)
          (focus t m)
  Safe-focus I U J keep got (done a s) t j h = (rw got h, keep s t j)
  Safe-focus I U J keep got (halt c s) t j h = tt
  Safe-focus I U J keep got fault t j h = h
  Safe-focus I U J keep got (unfinished s) t j h = rw got h
  Safe-focus I U J keep got (ask q k) t j h = λ z. Safe-focus I U J keep got (k z) t j (h z)
  Safe-focus I U J keep got (call c s k) t j h = (
    (rw got (h.0), keep s t j),
    λ z t' i _. Safe-focus I U J keep got (k z (part.get t')) t' i.1 (h.1 z (part.get t') i.0 tt),
  )

  -- The same where nobody else does anything, with what a result satisfies.
  pub Finishes-focus :
      {A : Type 0} (P : A → S → Type 0) (J : T → Type 0)
      → ((s : S) (t : T) → J t → J (part.put s t))
      → ((s : S) (t : T) → part.get (part.put s t) ≡ s)
      → (m : Run Q C S A) (t : T) → J t
      → Finishes P m
      → Finishes (λ a u. P a (part.get u) × J u) (focus t m)
  Finishes-focus P J keep got (done a s) t j h = (rw got h, keep s t j)
  Finishes-focus P J keep got (halt c s) t j h = h
  Finishes-focus P J keep got fault t j h = h
  Finishes-focus P J keep got (unfinished s) t j h = h
  Finishes-focus P J keep got (ask q k) t j h = λ z. Finishes-focus P J keep got (k z) t j (h z)
  Finishes-focus P J keep got (call c s k) t j h = λ z.
      Finishes-focus P J keep got (k z (part.get (part.put s t))) (part.put s t) (keep s t j)
        (rw got (h z))
