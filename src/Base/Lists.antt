-- ===== src/Base/Lists.antt =====
-- Lists measured by native numbers, and the first elements of an array as a list.
use Prim.Native.Nat.{ℕ, zero, suc, ◌<◌}
use mathlib.Core.Path.{◌≡◌, refl, ap, ap₂}
use mathlib.Core.List.{List, [], ◌∷◌, ◌++◌}
use native.Mathlib.Omega.{arith}

module _ {ℓ} {A : Type ℓ} where
  abbrev pub length : List A → ℕ
  length [] = 0
  length (x ∷ xs) = suc (length xs)

  -- `a[0], ..., a[n - 1]`
  unfoldable pub first : (ℕ → A) → ℕ → List A
  first a zero = []
  first a (suc n) = a 0 ∷ first (λ i. a (suc i)) n

  pub length-first : (a : ℕ → A) (n : ℕ) → length (first a n) ≡ n
  unfolding first
  length-first a zero = refl
  length-first a (suc n) = ap suc (length-first (λ i. a (suc i)) n)

  -- Arrays that agree below `n` have the same first elements.
  pub first-congr : (a b : ℕ → A) (n : ℕ) → ((i : ℕ) → i < n → a i ≡ b i) → first a n ≡ first b n
  unfolding first
  first-congr a b zero h = refl
  first-congr a b (suc n) h =
      ap₂ ◌∷◌ (h 0 (omega arith))
        (first-congr (λ i. a (suc i)) (λ i. b (suc i)) n (λ i l. h (suc i) (omega arith)))

  pub first-suc : (a : ℕ → A) (n : ℕ) → first a (suc n) ≡ first a n ++ (a n ∷ [])
  unfolding first
  first-suc a zero = refl
  first-suc a (suc n) = ap (◌∷◌ (a 0)) (first-suc (λ i. a (suc i)) n)

  pub first_of_zero : (a : ℕ → A) (n : ℕ) → n ≡ 0 → first a n ≡ []
  unfolding first
  first_of_zero a n e = rw e
