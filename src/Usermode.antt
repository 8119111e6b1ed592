-- ===== src/Usermode.antt =====
-- The entry points of the system calls for user processes: phase3/phase3_usermode.c and
-- phase4a/phase4_usermode.c.
pub mod Phase3Calls
pub mod Phase4Calls
pub mod Pids
pub mod Creation
mod Tests
use elissa_x_priscilla_colla.Base.{ℕ, ◌-◌, ◌%◌, ◌^◌, ℤ, pos, negsuc, ltb, if◌then◌else◌}

-- The `int` whose 32 bits are `r`.
abbrev pub signed : ℕ → ℤ
signed r = if ltb r (2 ^ 31) then pos r else negsuc (2 ^ 32 - 1 - r)

-- `(int)(long) z`: the low 32 bits
unfoldable pub to_int : ℤ → ℤ
to_int (pos n) = signed (n % 2 ^ 32)
to_int (negsuc n) = signed (2 ^ 32 - 1 - n % 2 ^ 32)
