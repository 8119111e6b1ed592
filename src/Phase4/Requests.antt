-- ===== src/Phase4/Requests.antt =====
-- `SleepReq` of phase4a/phase4a.c, which goes through a mailbox as eight bytes.
use elissa_x_priscilla_colla.Base.{ℕ, ◌<◌, ◌^◌, ◌≡◌, arith}
use elissa_x_priscilla_colla.Phase2.Device.{int_bytes}
use elissa_x_priscilla_colla.Phase4.State.{sleep_request, read_int}

-- `ClockDriver` reads the PID and the tick that `sys_sleep` has written, if both are below 2^31.
pub read_int-sleep_request :
    (pid tick : ℕ)
    → pid < 2 ^ 31
    → tick < 2 ^ 31
    → (read_int (sleep_request pid tick) 0 ≡ pid) × (read_int (sleep_request pid tick) 4 ≡ tick)
unfolding read_int sleep_request int_bytes
read_int-sleep_request pid tick p t = (omega arith, ground arith)
