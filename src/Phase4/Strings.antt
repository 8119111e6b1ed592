-- ===== src/Phase4/Strings.antt =====
-- The strings of phase4a/phase4a.c: `strlen`, and the bytes of a message.
use elissa_x_priscilla_colla.Base.{
  ℕ, zero, suc, ◌+◌, ◌<◌, ◌≤◌, ◌≡◌, refl, sym, ap, ◌∙◌, pos, some, true, false, Bool-cases, inl,
  inr, ◌==◌, arith, first,
}
use mathlib.Core.Option.{none-ne-some, some-injective}
use elissa_x_priscilla_colla.Base.Int.{ltb_ℤ}
use elissa_x_priscilla_colla.Phase2.State.{Buffer}
use elissa_x_priscilla_colla.Phase4.Drivers.{strlen}
use elissa_x_priscilla_colla.Phase4.Mailbox.{byte, byte-first}

strlen-here : (r i : ℕ) (a : Buffer) → (a i == 0) ≡ true → strlen (suc r) i a ≡ some i
unfolding strlen
strlen-here r i a h = rw (h, strlen) refl

strlen-later : (r i : ℕ) (a : Buffer) → (a i == 0) ≡ false → strlen (suc r) i a ≡ strlen r (suc i) a
unfolding strlen
strlen-later r i a h = rw (h, strlen) refl

-- `strlen` finds an end within its bound.
pub strlen-below : (r i n : ℕ) (a : Buffer) → strlen r i a ≡ some n → (i ≤ n) × (n < i + r)
unfolding strlen
strlen-below zero i n a e = absurd (none-ne-some n e)
strlen-below (suc r) i n a e = elim (Bool-cases (a i == 0)) [
  | inl here ↦
      let same : i ≡ n = some-injective i n (sym (strlen-here r i a here) ∙ e) in
      (omega (arith, same), omega (arith, same))
  | inr later ↦
      let (low, high) = strlen-below r (suc i) n a (sym (strlen-later r i a later) ∙ e) in
      (omega (arith, low), omega (arith, high))
]

-- `strlen` looks at the bytes up to the end only.
pub strlen-congr :
    (r i n : ℕ) (a b : Buffer)
    → strlen r i a ≡ some n
    → ((j : ℕ) → j < suc n → b j ≡ a j)
    → strlen r i b ≡ some n
unfolding strlen
strlen-congr zero i n a b e same = absurd (none-ne-some n e)
strlen-congr (suc r) i n a b e same =
    let (low, high) = strlen-below (suc r) i n a e in
    let agree : b i ≡ a i = same i (omega (arith, low)) in
    elim (Bool-cases (a i == 0)) [
      | inl here ↦
          strlen-here r i b (ap (λ c. c == 0) agree ∙ here) ∙ sym (strlen-here r i a here) ∙ e
      | inr later ↦
          strlen-later r i b (ap (λ c. c == 0) agree ∙ later)
          ∙ strlen-congr r (suc i) n a b (sym (strlen-later r i a later) ∙ e) same
    ]

pub not_negative : (k : ℕ) → ltb_ℤ (pos k) (pos 0) ≡ false
not_negative k = ground arith

-- Equal messages have the same bytes.
pub first-byte : (a b : Buffer) (n : ℕ) → first a n ≡ first b n → (j : ℕ) → j < n → a j ≡ b j
first-byte a b n e j l = sym (byte-first a n j l) ∙ ap (λ bs. byte bs j) e ∙ byte-first b n j l
