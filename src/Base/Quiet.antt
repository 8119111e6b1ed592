-- ===== src/Base/Quiet.antt =====
-- Runs during which no other code runs.

use elissa_x_priscilla_colla.Base.Int.{ℤ}
use elissa_x_priscilla_colla.Base.Run.{
  Run, done, halt, fault, unfinished, ask, call, and_then, Safe, Finishes,
}

module _ {Q C S : Type 0} where
  abbrev pub Quiet : {A : Type 0} → Run Q C S A → Type 0
  Quiet (done a s) = Unit
  Quiet (halt c s) = Unit
  Quiet fault = Unit
  Quiet (unfinished s) = Unit
  Quiet (ask q k) = (z : ℤ) → Quiet (k z)
  Quiet (call c s k) = ⊥

  pub Quiet-and_then :
      {A B : Type 0} (m : Run Q C S A) (f : A → S → Run Q C S B)
      → Quiet m
      → ((a : A) (s : S) → Quiet (f a s))
      → Quiet (and_then m f)
  Quiet-and_then (done a s) f h next = next a s
  Quiet-and_then (halt c s) f h next = tt
  Quiet-and_then fault f h next = tt
  Quiet-and_then (unfinished s) f h next = tt
  Quiet-and_then (ask q k) f h next = λ z. Quiet-and_then (k z) f (h z) next
  Quiet-and_then (call c s k) f h next = h

  -- Such a run does the same in company as alone.
  pub Quiet-Safe :
      (I : S → Type 0) (R : C → S → S → Type 0) (U : S → Type 0) {A : Type 0} (P : A → S → Type 0)
      (m : Run Q C S A)
      → Quiet m
      → Finishes P m
      → Safe I R U P m
  Quiet-Safe I R U P (done a s) q h = h
  Quiet-Safe I R U P (halt c s) q h = tt
  Quiet-Safe I R U P fault q h = h
  Quiet-Safe I R U P (unfinished s) q h = absurd h
  Quiet-Safe I R U P (ask x k) q h = λ z. Quiet-Safe I R U P (k z) (q z) (h z)
  Quiet-Safe I R U P (call c s k) q h = absurd q

  pub Finishes-both :
      {A : Type 0} (P P' : A → S → Type 0) (m : Run Q C S A)
      → Finishes P m
      → Finishes P' m
      → Finishes (λ a s. P a s × P' a s) m
  Finishes-both P P' (done a s) h h' = (h, h')
  Finishes-both P P' (halt c s) h h' = h
  Finishes-both P P' fault h h' = h
  Finishes-both P P' (unfinished s) h h' = h
  Finishes-both P P' (ask q k) h h' = λ z. Finishes-both P P' (k z) (h z) (h' z)
  Finishes-both P P' (call c s k) h h' = λ z. Finishes-both P P' (k z s) (h z) (h' z)

  -- Less may be asked of the result.
  pub Safe-mono :
      (I : S → Type 0) (R : C → S → S → Type 0) (U : S → Type 0) {A : Type 0}
      (P P' : A → S → Type 0) (m : Run Q C S A)
      → ((a : A) (s : S) → P a s → P' a s)
      → Safe I R U P m
      → Safe I R U P' m
  Safe-mono I R U P P' (done a s) weaken h = weaken a s h
  Safe-mono I R U P P' (halt c s) weaken h = h
  Safe-mono I R U P P' fault weaken h = h
  Safe-mono I R U P P' (unfinished s) weaken h = h
  Safe-mono I R U P P' (ask q k) weaken h = λ z. Safe-mono I R U P P' (k z) weaken (h z)
  Safe-mono I R U P P' (call c s k) weaken h =
      (h.0, λ z t i r. Safe-mono I R U P P' (k z t) weaken (h.1 z t i r))
