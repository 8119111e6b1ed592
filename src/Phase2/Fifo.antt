-- ===== src/Phase2/Fifo.antt =====
-- What a mailbox promises: a bounded queue of messages, oldest first, over a shared stock of slots.
use elissa_x_priscilla_colla.Base.{
  ℕ, ◌+◌, ◌-◌, ◌||◌, ℤ, pos, negsuc, minus_one, minus_two, Option, none, some, List, [], ◌∷◌, ◌++◌,
  ltb, leb, ◌==◌, if◌then◌else◌, length, first,
}
use elissa_x_priscilla_colla.Phase2.State.{Buffer}

-- The size of a mailbox and of its messages.
pub record Shape : Type 0 where
  pub num_slots : ℕ
  pub slot_size : ℕ

-- The messages in the mailbox, and the number of mail slots that are left for all mailboxes.
pub record Fifo : Type 0 where
  pub items : List (List ℕ)
  pub left : ℕ

-- What a caller sees: the value returned, and the bytes received.
pub record Reply : Type 0 where
  pub value : ℤ
  pub bytes : List ℕ

abbrev pub reply : ℤ → Reply
reply z = record { value = z; bytes = [] }

-- A call: a message of some size, which may be a null pointer, or room for a number of bytes.
pub data Op : Type 0 where
  cond_send : Option Buffer → ℤ → Op
  cond_recv : ℤ → Op

module _ (shape : Shape) where
  open shape use {num_slots, slot_size}

  put_message : List ℕ → Fifo → Reply × Fifo
  put_message bytes q =
      if (q.left == 0) || leb num_slots (length q.items)
      then (reply minus_two, q)
      else (reply (pos 0), record { items = q.items ++ (bytes ∷ []); left = q.left - 1 })

  unfoldable pub send : Option Buffer → ℤ → Fifo → Reply × Fifo
  unfolding put_message
  send msg (negsuc n) q = (reply minus_one, q)
  send none (pos n) q =
      if ltb slot_size n || ltb 0 n then (reply minus_one, q) else put_message [] q
  send (some from) (pos n) q =
      if ltb slot_size n then (reply minus_one, q) else put_message (first from n) q

-- A message that does not fit is lost, and its slot with it.
unfoldable pub recv_items : ℕ → List (List ℕ) → ℕ → Reply × Fifo
recv_items max [] left = (reply minus_two, record { items = []; left = left })
recv_items max (bytes ∷ rest) left =
    if ltb max (length bytes) then (reply minus_one, record { items = rest; left = left }) else (
      record { value = pos (length bytes); bytes = bytes },
      record { items = rest; left = left + 1 },
    )

unfoldable pub recv : ℤ → Fifo → Reply × Fifo
unfolding recv_items
recv (negsuc n) q = (reply minus_one, q)
recv (pos max) q = recv_items max q.items q.left

unfoldable pub step : Shape → Op → Fifo → Reply × Fifo
unfolding send recv
step shape (cond_send msg size) q = send shape msg size q
step shape (cond_recv size) q = recv size q

-- What a sequence of calls returns.
unfoldable pub run : Shape → List Op → Fifo → List Reply
unfolding step
run shape [] q = []
run shape (op ∷ ops) q = let (r, q') = step shape op q in r ∷ run shape ops q'
