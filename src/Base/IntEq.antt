-- ===== src/Base/IntEq.antt =====
-- The comparison of `int`s for equality.
use mathlib.Core.Bool.{true, false, true≢false}
use mathlib.Core.Path.{◌≡◌, sym, ap, ◌∙◌}
use mathlib.Core.Logic.{◌≢◌}
use native.Mathlib.Omega.{arith}
use elissa_x_priscilla_colla.Base.Int.{ℤ, pos, negsuc, eq_ℤ}

pub eq_ℤ-true : (a b : ℤ) → eq_ℤ a b ≡ true → a ≡ b
eq_ℤ-true (pos m) (pos n) e = ap pos (ground arith)
eq_ℤ-true (pos m) (negsuc n) e = absurd (ground arith)
eq_ℤ-true (negsuc m) (pos n) e = absurd (ground arith)
eq_ℤ-true (negsuc m) (negsuc n) e = ap negsuc (ground arith)

eq_ℤ_self : (a : ℤ) → eq_ℤ a a ≡ true
eq_ℤ_self (pos m) = ground arith
eq_ℤ_self (negsuc m) = ground arith

pub eq_ℤ-false : (a b : ℤ) → eq_ℤ a b ≡ false → a ≢ b
eq_ℤ-false a b h e = true≢false (sym (eq_ℤ_self a) ∙ ap (λ z. eq_ℤ a z) e ∙ h)
