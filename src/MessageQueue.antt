-- ===== src/MessageQueue.antt =====
-- middleware/components/queue/mblue_queue.c: the bounded queue of pointers that every task reads
-- its messages from. A pointer is its address, 0 is NULL; the critical sections make each
-- operation one step.
pub mod Fifo
pub mod Refines
pub mod Alloc
use mblue.Common.{
  ℕ, ◌+◌, ◌-◌, ◌*◌, ◌%◌, ◌/◌, ◌^◌, Bool, true, false, Option, none, some, List, [], ◌∷◌, ltb, leb,
  ◌==◌, if◌then◌else◌, get_or, set, replicate,
}
use mblue.Common.Int.{ℤ, pos, negsuc}

-- `struct mblue_queue` without its function pointers
pub record MblueQueue : Type 0 where
  pub size : ℕ
  pub next : ℕ
  pub capacity : ℕ
  pub slots : List ℕ

abbrev pub max_message_queue_items : ℕ
max_message_queue_items = 128

abbrev pub queue_at_capacity : MblueQueue → Bool
queue_at_capacity q = leb q.capacity q.size

-- `none` is the return value -1.
unfoldable pub queue_init : List ℕ → ℕ → Option MblueQueue
queue_init buffer size =
    if ltb max_message_queue_items size
    then none
    else some (record { size = 0; next = 0; capacity = size; slots = buffer })

-- `pos` of `queue_add`
abbrev pub wrap : ℕ → ℕ → ℕ
wrap capacity p = if leb capacity p then p - capacity else p

unfoldable pub queue_add : MblueQueue → ℕ → ℤ × MblueQueue
queue_add q value = if queue_at_capacity q then (negsuc 0, q) else (
  pos 0,
  record q { slots = set q.slots (wrap q.capacity (q.next + q.size)) value; size = q.size + 1 },
)

unfoldable pub queue_remove : MblueQueue → ℕ × MblueQueue
queue_remove q =
    if ltb 0 q.size
    then (
      get_or q.slots q.next 0,
      record q { next = wrap q.capacity (q.next + 1); size = q.size - 1 },
    )
    else (0, q)

unfoldable pub queue_peek : MblueQueue → ℕ
queue_peek q = if q.size == 0 then 0 else get_or q.slots q.next 0

unfoldable pub queue_size : MblueQueue → ℕ
queue_size q = q.size
