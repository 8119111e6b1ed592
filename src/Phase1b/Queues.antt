-- ===== src/Phase1b/Queues.antt =====
-- The linked lists of phase1b-archive/phase1b.c: the ready queues through `next`, the children of
-- a process through `sibling`. Fuel bounds the walks; a list of distinct entries of the table has
-- at most 50.
use elissa_x_priscilla_colla.Base.{ℕ, zero, suc, Option, none, some, true, false, ◌==◌}
use elissa_x_priscilla_colla.Base.Run.{done, unfinished}
use elissa_x_priscilla_colla.Phase1b.State.{
  State, Cmd, max_proc, proc, set_next, set_queue, at_queue,
}

-- `while (temp->link != NULL) temp = temp->link;`
unfoldable pub last : ℕ → (ℕ → Option ℕ) → ℕ → Option ℕ
last zero link i = none
last (suc f) link i = elim (link i) [ none ↦ some i | some j ↦ last f link j ]

-- Process `p` is put at the end of queue `q`, as `spork` does it: its `next` is cleared.
unfoldable pub append : (q p : ℕ) → State → Cmd (Unit {0})
append q p s = elim (s.ready_queues q) [
  | none ↦ done tt (set_next (set_queue s q (some p)) p none)
  | some h ↦ elim (last max_proc (λ i. (proc s i).next) h) [
    | none ↦ unfinished s
    | some l ↦ done tt (set_next (set_next s l (some p)) p none)
  ]
]

-- The same as `unblockProc` does it: its `next` stays as it was.
unfoldable pub append_as_is : (q p : ℕ) → State → Cmd (Unit {0})
append_as_is q p s = elim (s.ready_queues q) [
  | none ↦ done tt (set_queue s q (some p))
  | some h ↦ elim (last max_proc (λ i. (proc s i).next) h) [
    | none ↦ unfinished s
    | some l ↦ done tt (set_next s l (some p))
  ]
]

-- `*cur = n` for the pointer that leads to the entry after `prev`, or to the head.
abbrev pub relink : ℕ → Option ℕ → Option ℕ → State → State
relink q none n s = set_queue s q n
relink q (some j) n s = set_next s j n

-- The walk of `remove_from_ready_queue`, at the entry `cur`.
unfoldable pub unlink : (fuel q p : ℕ) → (prev cur : Option ℕ) → State → Cmd (Unit {0})
unlink zero q p prev cur s = unfinished s
unlink (suc f) q p prev none s = done tt s
unlink (suc f) q p prev (some c) s = elim (c == p) [
  | true ↦ done tt (set_next (relink q prev (proc s c).next s) p none)
  | false ↦ unlink f q p (some c) (proc s c).next s
]

unfoldable pub remove_from_ready_queue : ℕ → State → Cmd (Unit {0})
remove_from_ready_queue p s =
    at_queue (proc s p).priority λ q. unlink (suc max_proc) q p none (s.ready_queues q) s
