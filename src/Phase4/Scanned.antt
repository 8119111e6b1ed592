-- ===== src/Phase4/Scanned.antt =====
-- The requests in the mailbox of `ClockDriver` of phase4a/phase4a.c, as lists.
use elissa_x_priscilla_colla.Base.{
  ℕ, ◌≡◌, refl, pos, List, [], ◌∷◌, ◌++◌, leb, if◌then◌else◌, arith, length, first,
}
use elissa_x_priscilla_colla.Kernel.{Request, unblock_proc}
use elissa_x_priscilla_colla.Phase2.State.{Buffer}
use elissa_x_priscilla_colla.Phase4.Mailbox.{byte, byte-first, AreShort}
use elissa_x_priscilla_colla.Phase4.State.{read_int}

-- The wake-up tick in a request.
abbrev pub tick_of : List ℕ → ℕ
tick_of r = read_int (byte r) 4

pub tick_of-first : (b : Buffer) → tick_of (first b 8) ≡ read_int b 4
unfolding read_int
tick_of-first b =
    rw
      (
        byte-first b 8 4 (omega arith),
        byte-first b 8 5 (omega arith),
        byte-first b 8 6 (omega arith),
        byte-first b 8 7 (omega arith),
      )
      refl

-- The PID in a request.
abbrev pub pid_of : List ℕ → ℕ
pid_of r = read_int (byte r) 0

pub pid_of-first : (b : Buffer) → pid_of (first b 8) ≡ read_int b 0
unfolding read_int
pid_of-first b =
    rw
      (
        byte-first b 8 0 (omega arith),
        byte-first b 8 1 (omega arith),
        byte-first b 8 2 (omega arith),
        byte-first b 8 3 (omega arith),
      )
      refl

-- The requests that are left at tick `now`: those that are due are taken off the front, up to the first
-- one that is not, which goes to the end.
abbrev pub scanned : ℕ → List (List ℕ) → List (List ℕ)
scanned now [] = []
scanned now (r ∷ rs) = if leb (tick_of r) now then scanned now rs else rs ++ (r ∷ [])

-- The calls that wake the processes of those that are taken off.
abbrev pub wakeups : ℕ → List (List ℕ) → List Request
wakeups now [] = []
wakeups now (r ∷ rs) =
    if leb (tick_of r) now then unblock_proc (pos (pid_of r)) ∷ wakeups now rs else []

-- Each message is a request of eight bytes.
abbrev pub AreRequests : List (List ℕ) → Type 0
AreRequests [] = Unit
AreRequests (r ∷ rs) = (length r ≡ 8) × AreRequests rs

pub AreRequests-AreShort : (rs : List (List ℕ)) → AreRequests rs → AreShort 8 rs
AreRequests-AreShort [] a = tt
AreRequests-AreShort (r ∷ rs) a = (omega (arith, a.0), AreRequests-AreShort rs (a.1))
