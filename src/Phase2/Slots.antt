-- ===== src/Phase2/Slots.antt =====
-- Putting a message into a mail slot and taking one out: the code that `MboxSend` and
-- `MboxCondSend` share, and that `MboxRecv` and `MboxCondRecv` share. `none` is undefined
-- behaviour: an index out of bounds, a null pointer, a division by zero.
use elissa_x_priscilla_colla.Base.{
  ℕ, ◌+◌, ◌-◌, ◌%◌, ◌||◌, true, false, Option, none, some, put, ltb, leb, ◌==◌, if◌then◌else◌,
}
use elissa_x_priscilla_colla.Phase2.State.{
  State, MailSlot, SlotQueue, Buffer, max_slots, max_message,
}

-- `memcpy(to, from, n)`
abbrev pub copy : ℕ → Buffer → Buffer → Buffer
copy n from to i = if ltb i n then from i else to i

-- `memcpy(message, msg_ptr, n)`, where the slot has room for MAX_MESSAGE bytes
unfoldable pub fill : Option Buffer → ℕ → Buffer → Option Buffer
fill none n to = if n == 0 then some to else none
fill (some from) n to = if ltb max_message n then none else some (copy n from to)

-- `sq->queue[sq->tail] = i; sq->tail = (sq->tail + 1) % sq->capacity; sq->count++;`
unfoldable pub push_slot : ℕ → SlotQueue → Option SlotQueue
push_slot i q =
    if leb q.alloc q.tail || (q.capacity == 0)
    then none
    else some (record q {
      queue = put q.queue q.tail i;
      tail = (q.tail + 1) % q.capacity;
      count = q.count + 1;
    })

-- `i = sq->queue[sq->head]; sq->head = (sq->head + 1) % sq->capacity; sq->count--;`
-- Both callers have tested that the count is not 0.
unfoldable pub pop_slot : SlotQueue → Option (ℕ × SlotQueue)
pop_slot q =
    if leb q.alloc q.head || (q.capacity == 0)
    then none
    else some (q.queue q.head, record q { head = (q.head + 1) % q.capacity; count = q.count - 1 })

-- The message in a slot that is taken from the free list.
unfoldable pub filled : ℕ → ℕ → Buffer → MailSlot
filled m n bytes = record { mailbox_id = m; message_length = n; in_use = true; message = bytes }

-- Lines 302 to 310, which are lines 419 to 427.
unfoldable pub deposit : ℕ → Option Buffer → ℕ → State → Option State
deposit m msg n s =
    let i = s.free_slot_queue (s.free_slot_count - 1) in
    if (s.free_slot_count == 0) || leb max_slots i
    then none
    else elim (fill msg n (s.mail_slots i).message) [
      | none ↦ none
      | some bytes ↦ elim (push_slot i (s.slot_queues m)) [
        | none ↦ none
        | some q ↦ some (record s {
          free_slot_count = s.free_slot_count - 1;
          mail_slots = put s.mail_slots i (filled m n bytes);
          slot_queues = put s.slot_queues m q;
        })
      ]
    ]

-- `mailSlots[i].inUse = 0; freeSlotQueue[freeSlotCount++] = i;`
unfoldable pub free_slot : ℕ → State → Option State
free_slot i s =
    if leb max_slots s.free_slot_count
    then none
    else some (record s {
      mail_slots = put s.mail_slots i (record (s.mail_slots i) { in_use = false });
      free_slot_queue = put s.free_slot_queue s.free_slot_count i;
      free_slot_count = s.free_slot_count + 1;
    })

-- `memcpy(msg_ptr, message, length)`: no size is tested here, and no null pointer.
unfoldable pub read_out : Option Buffer → ℕ → Buffer → Option (Option Buffer)
read_out none n from = if n == 0 then some none else none
read_out (some to) n from = some (some (copy n from to))
