-- ===== src/Base/Answers.antt =====
-- Runs that make no calls, with what they ask and what a result has to do with the last answer.
use mathlib.Core.Option.{Option, some}
use elissa_x_priscilla_colla.Base.Int.{ℤ}
use elissa_x_priscilla_colla.Base.Run.{Run, done, halt, fault, unfinished, ask, call, Safe}

module _ {Q C S : Type 0} (G : Q → Type 0) {A : Type 0} (P : Option ℤ → A → S → Type 0) where
  -- The run returns, its questions satisfy `G`, and the last answer and the result satisfy `P`.
  abbrev pub Answered : Option ℤ → Run Q C S A → Type 0
  Answered last (done a s) = P last a s
  Answered last (halt c s) = ⊥
  Answered last fault = ⊥
  Answered last (unfinished s) = ⊥
  Answered last (ask q k) = G q × ((z : ℤ) → Answered (some z) (k z))
  Answered last (call c s k) = ⊥

  pub Answered-Safe :
      (I : S → Type 0) (R : C → S → S → Type 0) (U : S → Type 0) (P' : A → S → Type 0)
      → ((o : Option ℤ) (a : A) (s : S) → P o a s → P' a s)
      → (last : Option ℤ) (m : Run Q C S A) → Answered last m
      → Safe I R U P' m
  Answered-Safe I R U P' weaken last (done a s) h = weaken last a s h
  Answered-Safe I R U P' weaken last (halt c s) h = absurd h
  Answered-Safe I R U P' weaken last fault h = h
  Answered-Safe I R U P' weaken last (unfinished s) h = absurd h
  Answered-Safe I R U P' weaken last (ask q k) h =
      λ z. Answered-Safe I R U P' weaken (some z) (k z) (h.1 z)
  Answered-Safe I R U P' weaken last (call c s k) h = absurd h
