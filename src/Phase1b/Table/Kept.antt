-- ===== src/Phase1b/Table/Kept.antt =====
-- Changes of phase1b-archive/phase1b.c to links only: what the entries are otherwise is kept.
use elissa_x_priscilla_colla.Base.{ℕ, ◌≡◌, sym, ap, ◌∙◌, List, true, false, minus_one}
use elissa_x_priscilla_colla.Base.Int.{eq_ℤ}
use elissa_x_priscilla_colla.Phase1b.State.{State, proc}
use elissa_x_priscilla_colla.Phase1b.Chain.{All, All-map}
use elissa_x_priscilla_colla.Phase1b.Frames.{OnlyQueues, OnlyFamilies}
use elissa_x_priscilla_colla.Phase1b.Reaping.{has_quit}
use elissa_x_priscilla_colla.Phase1b.Table.{IsReady, IsChildOf, HasPriority, is_free}

pub record IsKept (s t : State) : Type 0 where
  pub lives : (k : ℕ) → has_quit t k ≡ has_quit s k
  pub free : (k : ℕ) → is_free t k ≡ is_free s k
  pub priority : (k : ℕ) → (proc t k).priority ≡ (proc s k).priority
  pub parent : (k : ℕ) → (proc t k).parent ≡ (proc s k).parent

pub OnlyQueues-IsKept : (s t : State) → OnlyQueues s t → IsKept s t
OnlyQueues-IsKept s t f = record {
  lives = λ k. ap (λ p. eq_ℤ p.status minus_one) (f.entries k);
  free = λ k. ap (λ p. eq_ℤ p.pid minus_one) (f.entries k);
  priority = λ k. ap (λ p. p.priority) (f.entries k);
  parent = λ k. ap (λ p. p.parent) (f.entries k);
}

pub OnlyFamilies-IsKept : (s t : State) → OnlyFamilies s t → IsKept s t
OnlyFamilies-IsKept s t f = record {
  lives = λ k. ap (λ p. eq_ℤ p.status minus_one) (f.entries k);
  free = λ k. ap (λ p. eq_ℤ p.pid minus_one) (f.entries k);
  priority = λ k. ap (λ p. p.priority) (f.entries k);
  parent = λ k. ap (λ p. p.parent) (f.entries k);
}

module _ {s t : State} (y : IsKept s t) where
  pub All-IsReady-kept : (q : ℕ) (xs : List ℕ) → All (IsReady s q) xs → All (IsReady t q) xs
  All-IsReady-kept q xs a =
      All-map (IsReady s q) (IsReady t q)
        (λ k c. record {
          below = c.below;
          lives = y.lives k ∙ c.lives;
          priority = y.priority k ∙ c.priority;
        })
        xs a

  pub All-IsChildOf-kept : (j : ℕ) (xs : List ℕ) → All (IsChildOf s j) xs → All (IsChildOf t j) xs
  All-IsChildOf-kept j xs a =
      All-map (IsChildOf s j) (IsChildOf t j)
        (λ k c. record {
          below = c.below;
          used = y.free k ∙ c.used;
          parent = y.parent k ∙ c.parent;
        })
        xs a

  pub ended-kept :
      (i : ℕ)
      → (is_free s i ≡ true → has_quit s i ≡ true)
      → is_free t i ≡ true
      → has_quit t i ≡ true
  ended-kept i f h = y.lives i ∙ f (sym (y.free i) ∙ h)

  pub priorities-kept :
      (i : ℕ)
      → (is_free s i ≡ false → HasPriority (proc s i))
      → is_free t i ≡ false
      → HasPriority (proc t i)
  priorities-kept i f h =
      let p = f (sym (y.free i) ∙ h) in
      record { above = rw (y.priority i) p.above; below = rw (y.priority i) p.below }
