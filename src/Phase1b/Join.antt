-- ===== src/Phase1b/Join.antt =====
-- `join` of phase1b-archive/phase1b.c.
use elissa_x_priscilla_colla.Base.{
  ℕ, zero, suc, ℤ, pos, negsuc, minus_one, minus_two, Option, none, some, Bool, true, false,
}
use elissa_x_priscilla_colla.Base.Int.{eq_ℤ}
use elissa_x_priscilla_colla.Base.Run.{done, unfinished, and_then}
use elissa_x_priscilla_colla.Phase1b.State.{
  State, Cmd, max_proc, proc, set_proc, set_children, set_sibling, deref,
}
use elissa_x_priscilla_colla.Phase1b.Scheduler.{dispatcher}

-- The PID and the exit status of a child that is gone.
pub record Gone : Type 0 where
  pub pid : ℤ
  pub exit_status : ℤ

-- The link that leads to the child after `prev`, or to the first child of `parent`.
abbrev pub unlink_child : ℕ → Option ℕ → Option ℕ → State → State
unlink_child parent none n s = set_children s parent n
unlink_child parent (some j) n s = set_sibling s j n

-- The entry of a child is given back.
abbrev pub free_entry : ℕ → State → State
free_entry c s = set_proc s c (record (proc s c) { stack = pos 0; pid = minus_one; sibling = none })

-- The walk over the children for one that has quit, at the child `cur`.
unfoldable pub reap : (fuel parent : ℕ) → (prev cur : Option ℕ) → State → Cmd (Option Gone)
reap zero parent prev cur s = unfinished s
reap (suc f) parent prev none s = done none s
reap (suc f) parent prev (some c) s = elim (eq_ℤ (proc s c).status minus_one) [
  | true ↦
      done (some (record { pid = (proc s c).pid; exit_status = (proc s c).exit_status }))
        (free_entry c (unlink_child parent prev (proc s c).sibling s))
  | false ↦ reap f parent (some c) (proc s c).sibling s
]

-- `while (1)`: look for a child that has quit, else block. The fuel bounds the times that the
-- parent is woken.
unfoldable pub join_loop : (fuel parent : ℕ) → State → Cmd Gone
join_loop zero parent s = unfinished s
join_loop (suc f) parent s =
    and_then (reap (suc max_proc) parent none (proc s parent).children s) λ found t. elim found [
      | some g ↦ done g t
      | none ↦
          and_then (dispatcher (set_proc t parent (record (proc t parent) { status = pos 1 })))
            (λ _ u. join_loop f parent u)
    ]

-- What `join` does for the running process, `parent`.
unfoldable pub join_as : (fuel parent : ℕ) → State → Cmd (ℤ × Option ℤ)
join_as fuel parent s = elim ((proc s parent).children) [
  | none ↦ done (minus_two, none) s
  | some _ ↦ and_then (join_loop fuel parent s) λ g t. done (g.pid, some g.exit_status) t
]

-- The value returned, and what `*status` is given.
unfoldable pub join : ℕ → (status_null : Bool) → State → Cmd (ℤ × Option ℤ)
join fuel true s = done (negsuc 2, none) s
join fuel false s = deref s.running_process λ parent. join_as fuel parent s
