-- ===== src/Phase1b/Chain.antt =====
-- The lists that the pointers of phase1b-archive/phase1b.c stand for, and the walks over them.
use elissa_x_priscilla_colla.Base.{
  ℕ, zero, suc, ◌<◌, ◌≡◌, ◌≢◌, refl, sym, ◌∙◌, Option, none, some, List, [], ◌∷◌, ◌++◌, ◌==◌,
  if◌then◌else◌, put_self, ap, put_ne, arith, length,
}
use elissa_x_priscilla_colla.Phase1b.State.{State, proc, set_next}
use elissa_x_priscilla_colla.Phase1b.Queues.{last}

abbrev pub next_of : State → ℕ → Option ℕ
next_of s i = (proc s i).next

-- The pointers from `h` on go through `xs` and end in NULL.
abbrev pub IsChain : (ℕ → Option ℕ) → Option ℕ → List ℕ → Type 0
IsChain link h [] = h ≡ none
IsChain link h (x ∷ xs) = (h ≡ some x) × IsChain link (link x) xs

abbrev pub All : (ℕ → Type 0) → List ℕ → Type 0
All P [] = Unit
All P (x ∷ xs) = P x × All P xs

abbrev pub Absent : ℕ → List ℕ → Type 0
Absent p = All (λ x. x ≢ p)

pub All-map : (P P' : ℕ → Type 0) → ((x : ℕ) → P x → P' x) → (xs : List ℕ) → All P xs → All P' xs
All-map P P' f [] a = tt
All-map P P' f (x ∷ xs) a = (f x (a.0), All-map P P' f xs (a.1))

pub All-both : (P P' : ℕ → Type 0) (xs : List ℕ) → All P xs → All P' xs → All (λ x. P x × P' x) xs
All-both P P' [] a b = tt
All-both P P' (x ∷ xs) a b = ((a.0, b.0), All-both P P' xs (a.1) (b.1))

abbrev pub Distinct : List ℕ → Type 0
Distinct [] = Unit
Distinct (x ∷ xs) = Absent x xs × Distinct xs

-- Ready queue `q` is the list `xs`.
abbrev pub IsQueue : State → ℕ → List ℕ → Type 0
IsQueue s q xs = IsChain (next_of s) (s.ready_queues q) xs

abbrev pub last_of : ℕ → List ℕ → ℕ
last_of x [] = x
last_of x (y ∷ ys) = last_of y ys

pub last_of-ne : (k y : ℕ) (ys : List ℕ) → Absent k (y ∷ ys) → last_of y ys ≢ k
last_of-ne k y [] a = a.0
last_of-ne k y (z ∷ zs) a = last_of-ne k z zs (a.1)

pub next_self : (s : State) (i : ℕ) (n : Option ℕ) → next_of (set_next s i n) i ≡ n
next_self s i n = ap (λ x. x.next) (put_self s.process_table i (record (proc s i) { next = n }))

pub next_ne :
    (s : State) (i k : ℕ) (n : Option ℕ) → k ≢ i → next_of (set_next s i n) k ≡ next_of s k
next_ne s i k n ne =
    ap (λ x. x.next) (put_ne s.process_table i (record (proc s i) { next = n }) k ne)

-- A change of the link of an entry that is not in the list.
pub IsChain-off :
    (link link' : ℕ → Option ℕ) (P : ℕ → Type 0)
    → ((k : ℕ) → P k → link' k ≡ link k)
    → (xs : List ℕ) (h : Option ℕ) → All P xs
    → IsChain link h xs
    → IsChain link' h xs
IsChain-off link link' P same [] h a c = c
IsChain-off link link' P same (x ∷ xs) h a c =
    (c.0, rw (same x (a.0)) (IsChain-off link link' P same xs (link x) (a.1) (c.1)))

-- A list when all links are as they were.
pub IsChain-same :
    (link link' : ℕ → Option ℕ)
    → ((k : ℕ) → link' k ≡ link k)
    → (xs : List ℕ) (h : Option ℕ) → IsChain link h xs
    → IsChain link' h xs
IsChain-same link link' same [] h c = c
IsChain-same link link' same (x ∷ xs) h c =
    (c.0, rw (same x) (IsChain-same link link' same xs (link x) (c.1)))

-- Twice as much: two links changed.
pub IsChain-off_two :
    (s : State) (i j : ℕ) (m n : Option ℕ) (xs : List ℕ) (h : Option ℕ)
    → Absent i xs
    → Absent j xs
    → IsChain (next_of s) h xs
    → IsChain (next_of (set_next (set_next s i m) j n)) h xs
IsChain-off_two s i j m n xs h a b c =
    IsChain-off (next_of s) (next_of (set_next (set_next s i m) j n)) (λ x. (x ≢ i) × (x ≢ j))
      (λ k d. next_ne (set_next s i m) j k n (d.1) ∙ next_ne s i k m (d.0)) xs h
      (All-both (λ x. x ≢ i) (λ x. x ≢ j) xs a b) c

-- The walk to the end of a list of fewer entries than the fuel ends there.
pub last-Chain :
    (fuel : ℕ) (link : ℕ → Option ℕ) (x : ℕ) (xs : List ℕ)
    → IsChain link (link x) xs
    → length xs < fuel
    → last fuel link x ≡ some (last_of x xs)
unfolding last
last-Chain zero link x xs c l = absurd (omega arith)
last-Chain (suc f) link x [] c l = rw (c, last) refl
last-Chain (suc f) link x (y ∷ ys) c l =
    rw (c.0, last) (last-Chain f link y ys (c.1) (omega (arith, l)))

-- One more entry at the end of a list.
pub append-IsChain :
    (link link' : ℕ → Option ℕ) (p x : ℕ) (xs : List ℕ)
    → Distinct (x ∷ xs)
    → IsChain link (link x) xs
    → link' (last_of x xs) ≡ some p
    → link' p ≡ none
    → ((k : ℕ) → k ≢ last_of x xs → link' k ≡ link k)
    → IsChain link' (link' x) (xs ++ (p ∷ []))
append-IsChain link link' p x [] d c at_last at_p same = (at_last, at_p)
append-IsChain link link' p x (y ∷ ys) d c at_last at_p same = (
  same x (λ e. last_of-ne x y ys (d.0) (sym e)) ∙ c.0,
  append-IsChain link link' p y ys (d.1) (c.1) at_last at_p same,
)

-- The walk of `remove_from_ready_queue` past entry `j`.
abbrev pub without : ℕ → List ℕ → List ℕ
without p [] = []
without p (x ∷ xs) = if x == p then xs else x ∷ without p xs
