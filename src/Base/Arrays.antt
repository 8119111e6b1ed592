-- ===== src/Base/Arrays.antt =====
-- C arrays as functions of the index. Bounds are tested where the program reads or writes.
use Prim.Native.Nat.{ℕ}
use mathlib.Core.Path.{◌≡◌}
use mathlib.Core.Logic.{◌≢◌, inl, inr}
use native.Mathlib.Omega.{arith}
use elissa_x_priscilla_colla.Base.Tests.{◌==◌, if◌then◌else◌, Bool-cases}

-- `a[i] = v`
abbrev pub put {ℓ} : {A : Type ℓ} → (ℕ → A) → ℕ → A → ℕ → A
put a i v j = if j == i then v else a j

-- What holds of the value written and of the other entries holds of every entry.
pub put-cases {ℓ κ} :
    {A : Type ℓ} (P : A → Type κ) (a : ℕ → A) (i : ℕ) (v : A) (j : ℕ)
    → (j ≡ i → P v)
    → (j ≢ i → P (a j))
    → P (put a i v j)
put-cases P a i v j here there = elim (Bool-cases (j == i)) [
  | inl e ↦ rw e (here (ground arith))
  | inr ne ↦ rw ne (there (ground arith))
]

pub put_self {ℓ} : {A : Type ℓ} (a : ℕ → A) (i : ℕ) (v : A) → put a i v i ≡ v
put_self a i v = ground arith

pub put_ne {ℓ} : {A : Type ℓ} (a : ℕ → A) (i : ℕ) (v : A) (j : ℕ) → j ≢ i → put a i v j ≡ a j
put_ne a i v j ne = ground arith
