-- ===== src/Phase1b/Members.antt =====
-- Lists of different entries of the process table of phase1b-archive/phase1b.c, with one entry
-- more or less.
use elissa_x_priscilla_colla.Base.{
  ℕ, zero, suc, ◌≤◌, ◌<◌, ◌≢◌, sym, List, [], ◌∷◌, ◌++◌, Bool-cases, inl, inr, ◌==◌, length, arith,
  ==_iff, subst,
}
use elissa_x_priscilla_colla.Phase1b.Chain.{All, All-map, All-both, Absent, Distinct, without}

pub All-without : (P : ℕ → Type 0) (p : ℕ) (xs : List ℕ) → All P xs → All P (without p xs)
All-without P p [] a = tt
All-without P p (x ∷ xs) a = elim (Bool-cases (x == p)) [
  | inl e ↦ rw e (a.1)
  | inr e ↦ rw e (a.0, All-without P p xs (a.1))
]

pub Absent-without : (p : ℕ) (xs : List ℕ) → Distinct xs → Absent p (without p xs)
Absent-without p [] d = tt
Absent-without p (x ∷ xs) d = elim (Bool-cases (x == p)) [
  | inl e ↦ rw e (subst (λ y. Absent y xs) ((==_iff x p).0 e) (d.0))
  | inr e ↦ rw e (ground arith, Absent-without p xs (d.1))
]

pub Distinct-without : (p : ℕ) (xs : List ℕ) → Distinct xs → Distinct (without p xs)
Distinct-without p [] d = tt
Distinct-without p (x ∷ xs) d = elim (Bool-cases (x == p)) [
  | inl e ↦ rw e (d.1)
  | inr e ↦ rw e (All-without (λ y. y ≢ x) p xs (d.0), Distinct-without p xs (d.1))
]

length-without : (p : ℕ) (xs : List ℕ) → length xs ≤ suc (length (without p xs))
length-without p [] = omega arith
length-without p (x ∷ xs) = elim (Bool-cases (x == p)) [
  | inl e ↦ rw e (omega arith)
  | inr e ↦ rw e (omega (arith, length-without p xs))
]

-- Different numbers below `n` are at most `n`.
pub length-Distinct : (n : ℕ) (xs : List ℕ) → Distinct xs → All (λ x. x < n) xs → length xs ≤ n
length-Distinct n [] d a = omega arith
length-Distinct zero (x ∷ xs) d a = absurd (omega (arith, a.0))
length-Distinct (suc n) (x ∷ xs) d a =
    let ys = without n (x ∷ xs) in
    let below =
      All-map (λ y. (y < suc n) × (y ≢ n)) (λ y. y < n) (λ y h. omega (arith, h.0, h.1)) ys
        (All-both (λ y. y < suc n) (λ y. y ≢ n) ys (All-without (λ y. y < suc n) n (x ∷ xs) a)
          (Absent-without n (x ∷ xs) d)) in
    omega
      (arith, length-without n (x ∷ xs), length-Distinct n ys (Distinct-without n (x ∷ xs) d) below)

pub All-append : (P : ℕ → Type 0) (p : ℕ) (xs : List ℕ) → All P xs → P p → All P (xs ++ (p ∷ []))
All-append P p [] a h = (h, tt)
All-append P p (x ∷ xs) a h = (a.0, All-append P p xs (a.1) h)

pub Distinct-append : (p : ℕ) (xs : List ℕ) → Distinct xs → Absent p xs → Distinct (xs ++ (p ∷ []))
Distinct-append p [] d a = (tt, tt)
Distinct-append p (x ∷ xs) d a =
    (All-append (λ y. y ≢ x) p xs (d.0) (λ e. a.0 (sym e)), Distinct-append p xs (d.1) (a.1))
