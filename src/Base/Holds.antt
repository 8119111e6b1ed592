-- ===== src/Base/Holds.antt =====
-- What a run keeps of the state by its form alone, whether or not it goes wrong, and what it promises
-- where it lets other code run.

use elissa_x_priscilla_colla.Base.Int.{ℤ}
use elissa_x_priscilla_colla.Base.Run.{
  Run, done, halt, fault, unfinished, ask, call, and_then, Safe,
}

module _ {Q C S : Type 0} (N : S → Type 0) (G : C → S → Type 0) where
  -- `N` holds wherever other code runs and at the end, if the other code keeps it; `G` holds of each
  -- call.
  abbrev pub Holds : {A : Type 0} → Run Q C S A → Type 0
  Holds (done a s) = N s
  Holds (halt c s) = Unit
  Holds fault = Unit
  Holds (unfinished s) = N s
  Holds (ask q k) = (z : ℤ) → Holds (k z)
  Holds (call c s k) = N s × G c s × ((z : ℤ) (t : S) → N t → Holds (k z t))

  pub Holds-and_then :
      {A B : Type 0} (m : Run Q C S A) (f : A → S → Run Q C S B)
      → Holds m
      → ((a : A) (s : S) → N s → Holds (f a s))
      → Holds (and_then m f)
  Holds-and_then (done a s) f h next = next a s h
  Holds-and_then (halt c s) f h next = tt
  Holds-and_then fault f h next = tt
  Holds-and_then (unfinished s) f h next = h
  Holds-and_then (ask q k) f h next = λ z. Holds-and_then (k z) f (h z) next
  Holds-and_then (call c s k) f h next =
      (h.0, h.1, λ z t n. Holds-and_then (k z t) f (h.2 z t n) next)

  -- A safe run that keeps `N` is safe with `N` in its invariant.
  pub Safe-Holds :
      (I : S → Type 0) (R : C → S → S → Type 0) (U : S → Type 0) {A : Type 0} (P : A → S → Type 0)
      (m : Run Q C S A)
      → Safe I R U P m
      → Holds m
      → Safe (λ s. I s × N s) R (λ s. U s × N s) (λ a s. P a s × N s) m
  Safe-Holds I R U P (done a s) h n = (h, n)
  Safe-Holds I R U P (halt c s) h n = tt
  Safe-Holds I R U P fault h n = h
  Safe-Holds I R U P (unfinished s) h n = (h, n)
  Safe-Holds I R U P (ask q k) h n = λ z. Safe-Holds I R U P (k z) (h z) (n z)
  Safe-Holds I R U P (call c s k) h n =
      ((h.0, n.0), λ z t i r. Safe-Holds I R U P (k z t) (h.1 z t (i.0) r) (n.2 z t (i.1)))
