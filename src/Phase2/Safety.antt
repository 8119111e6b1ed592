-- ===== src/Phase2/Safety.antt =====
-- What it means for an operation of phase2/phase2.c to be safe under every interleaving.
pub mod Wakeups
pub mod Releasing
pub mod Searching
pub mod Creation
pub mod Transfers
pub mod Sends
pub mod Boot
pub mod Hazards
use elissa_x_priscilla_colla.Base.Run.{Safe}
use elissa_x_priscilla_colla.Kernel.{Cmd, Request}
use elissa_x_priscilla_colla.Phase2.State.{State}
use elissa_x_priscilla_colla.Phase2.Invariant.{IsValid}

-- What other processes do before a call returns is any valid state.
abbrev pub Anything : Request → State → State → Type 0
Anything c s t = Unit

-- No loop runs out of fuel.
abbrev pub Never : State → Type 0
Never s = ⊥

abbrev pub Valid : {A : Type 0} → A → State → Type 0
Valid a s = IsValid s

-- No undefined behaviour, no endless loop, and the invariant at every switch and at the return.
abbrev pub IsSafe : {A : Type 0} → Cmd State A → Type 0
IsSafe = Safe IsValid Anything Never Valid
