-- ===== src/Phase2/Invariant/Pigeonhole.antt =====
-- Arrays with distinct entries, for the free list of phase2/phase2.c.
use elissa_x_priscilla_colla.Base.{ℕ, zero, suc, ◌≤◌, ◌<◌, ◌≢◌, arith, ◌==◌, if◌then◌else◌}

pub length_of_distinct :
    (n k : ℕ) (a : ℕ → ℕ)
    → ((i : ℕ) → i < k → a i < n)
    → ((i j : ℕ) → i < j → j < k → a i ≢ a j)
    → k ≤ n
length_of_distinct n zero a below distinct = omega arith
length_of_distinct zero (suc k) a below distinct = absurd (omega (arith, below 0 (omega arith)))
length_of_distinct (suc n) (suc k) a below distinct =
    omega (arith, length_of_distinct n k b b_below b_distinct)
  where
    b : ℕ → ℕ
    b i = if a i == n then a k else a i

    b_below : (i : ℕ) → i < k → b i < n
    b_below i l =
        ground (arith, below i (omega arith), below k (omega arith), distinct i k l (omega arith))

    b_distinct : (i j : ℕ) → i < j → j < k → b i ≢ b j
    b_distinct i j l lk = ground (
      arith,
      distinct i j l (omega arith),
      distinct i k (omega arith) (omega arith),
      distinct j k lk (omega arith),
    )
