-- ===== src/Base/Calls.antt =====
-- Runs whose calls of other code are known, when that code does nothing.
use mathlib.Core.Path.{◌≡◌}
use mathlib.Core.List.{List, [], ◌∷◌}
use mathlib.Core.Bool.{Bool, true, false}
use elissa_x_priscilla_colla.Base.Int.{ℤ}
use elissa_x_priscilla_colla.Base.Tests.{if◌then◌else◌}
use elissa_x_priscilla_colla.Base.Run.{
  Run, Part, done, halt, fault, unfinished, ask, call, and_then, focus, Finishes,
}

module _ {Q C S : Type 0} where
  -- The run returns with `P`, and its calls are those of the list, in this order.
  abbrev pub Calls : {A : Type 0} → (A → S → Type 0) → Run Q C S A → List C → Type 0
  Calls P (done a s) cs = (cs ≡ []) × P a s
  Calls P (halt c s) cs = ⊥
  Calls P fault cs = ⊥
  Calls P (unfinished s) cs = ⊥
  Calls P (ask q k) cs = (z : ℤ) → Calls P (k z) cs
  Calls P (call c s k) cs = (rest : List C) × (cs ≡ c ∷ rest) × ((z : ℤ) → Calls P (k z s) rest)

  -- The run makes no calls, and if it returns, `P` holds.
  abbrev pub Quietly : {A : Type 0} → (A → S → Type 0) → Run Q C S A → Type 0
  Quietly P (done a s) = P a s
  Quietly P (halt c s) = Unit
  Quietly P fault = Unit
  Quietly P (unfinished s) = Unit
  Quietly P (ask q k) = (z : ℤ) → Quietly P (k z)
  Quietly P (call c s k) = ⊥

  pub Quietly-and_then :
      {A B : Type 0} (P : A → S → Type 0) (P' : B → S → Type 0) (m : Run Q C S A)
      (f : A → S → Run Q C S B)
      → Quietly P m
      → ((a : A) (s : S) → P a s → Quietly P' (f a s))
      → Quietly P' (and_then m f)
  Quietly-and_then P P' (done a s) f h next = next a s h
  Quietly-and_then P P' (halt c s) f h next = tt
  Quietly-and_then P P' fault f h next = tt
  Quietly-and_then P P' (unfinished s) f h next = tt
  Quietly-and_then P P' (ask q k) f h next = λ z. Quietly-and_then P P' (k z) f (h z) next
  Quietly-and_then P P' (call c s k) f h next = h

  pub Quietly-mono :
      {A : Type 0} (P P' : A → S → Type 0) (m : Run Q C S A)
      → ((a : A) (s : S) → P a s → P' a s)
      → Quietly P m
      → Quietly P' m
  Quietly-mono P P' (done a s) weaken h = weaken a s h
  Quietly-mono P P' (halt c s) weaken h = tt
  Quietly-mono P P' fault weaken h = tt
  Quietly-mono P P' (unfinished s) weaken h = tt
  Quietly-mono P P' (ask q k) weaken h = λ z. Quietly-mono P P' (k z) weaken (h z)
  Quietly-mono P P' (call c s k) weaken h = h

  pub Quietly-if :
      {A : Type 0} (P : A → S → Type 0) (b : Bool) (m m' : Run Q C S A)
      → Quietly P m
      → Quietly P m'
      → Quietly P (if b then m else m')
  Quietly-if P true m m' h h' = h
  Quietly-if P false m m' h h' = h'

  -- A part without calls, and what follows.
  pub Calls-and_then :
      {A B : Type 0} (P P' : A → S → Type 0) (P'' : B → S → Type 0) (m : Run Q C S A)
      (f : A → S → Run Q C S B) (cs : List C)
      → Quietly P m
      → Finishes P' m
      → ((a : A) (s : S) → P a s → P' a s → Calls P'' (f a s) cs)
      → Calls P'' (and_then m f) cs
  Calls-and_then P P' P'' (done a s) f cs h h' next = next a s h h'
  Calls-and_then P P' P'' (halt c s) f cs h h' next = h'
  Calls-and_then P P' P'' fault f cs h h' next = h'
  Calls-and_then P P' P'' (unfinished s) f cs h h' next = h'
  Calls-and_then P P' P'' (ask q k) f cs h h' next =
      λ z. Calls-and_then P P' P'' (k z) f cs (h z) (h' z) next
  Calls-and_then P P' P'' (call c s k) f cs h h' next = absurd h

  pub Calls-map :
      {A B : Type 0} (P : A → S → Type 0) (P' : B → S → Type 0) (m : Run Q C S A) (f : A → B)
      (cs : List C)
      → Calls P m cs
      → ((a : A) (s : S) → P a s → P' (f a) s)
      → Calls P' (and_then m (λ a t. done (f a) t)) cs
  Calls-map P P' (done a s) f cs h next = (h.0, next a s (h.1))
  Calls-map P P' (halt c s) f cs h next = h
  Calls-map P P' fault f cs h next = h
  Calls-map P P' (unfinished s) f cs h next = h
  Calls-map P P' (ask q k) f cs h next = λ z. Calls-map P P' (k z) f cs (h z) next
  Calls-map P P' (call c s k) f cs h next =
      (h.0, h.1, λ z. Calls-map P P' (k z s) f (h.0) (h.2 z) next)

module _ {Q C S T : Type 0} (part : Part S T) where
  pub Quietly-focus :
      {A : Type 0} (P : A → S → Type 0)
      → ((s : S) (t : T) → part.get (part.put s t) ≡ s)
      → (m : Run Q C S A) (t : T) → Quietly P m
      → Quietly (λ a u. P a (part.get u)) (focus part t m)
  Quietly-focus P got (done a s) t h = rw got h
  Quietly-focus P got (halt c s) t h = tt
  Quietly-focus P got fault t h = tt
  Quietly-focus P got (unfinished s) t h = tt
  Quietly-focus P got (ask q k) t h = λ z. Quietly-focus P got (k z) t (h z)
  Quietly-focus P got (call c s k) t h = h
