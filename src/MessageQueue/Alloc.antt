-- ===== src/MessageQueue/Alloc.antt =====
-- `mblue_queue_alloc` and `mblue_queue_release`: what they take from the heap and give back. The
-- heap is the list of live blocks; the two `mblue_malloc` calls answer with an address or NULL.
use mblue.Common.{
  ℕ, ◌*◌, ◌%◌, ◌/◌, ◌^◌, ◌≤◌, ◌<◌, ◌≡◌, refl, Option, none, some, List, [], ◌∷◌, arith,
  length-replicate, replicate, ◌⊎◌, ◌==◌, if◌then◌else◌,
}
use mblue.MessageQueue.{MblueQueue, max_message_queue_items, queue_init}
use mblue.MessageQueue.Refines.{IsQueue, contents}

abbrev pub Blocks : Type 0
Blocks = List ℕ

-- `mblue_free(p)`
unfoldable pub free : ℕ → Blocks → Blocks
free p [] = []
free p (b ∷ bs) = if b == p then bs else b ∷ free p bs

-- The block of `size * sizeof(void *)` zero bytes, as pointers; the product is a `uint32_t`.
unfoldable pub zero_slots : ℕ → List ℕ
zero_slots size = replicate (size * 4 % 2 ^ 32 / 4) 0

-- `wrapper` and `buffer` are the answers of the two `mblue_malloc` calls. The result is the queue
-- with the addresses of its two blocks.
unfoldable pub mblue_queue_alloc :
    ℕ → Option ℕ → Option ℕ → Blocks → Option (MblueQueue × ℕ × ℕ) × Blocks
mblue_queue_alloc size none buffer heap = (none, heap)
mblue_queue_alloc size (some wrapper) none heap = (none, free wrapper (wrapper ∷ heap))
mblue_queue_alloc size (some wrapper) (some buffer) heap =
    elim (queue_init (zero_slots size) size) [
      | none ↦ (none, free wrapper (free buffer (buffer ∷ wrapper ∷ heap)))
      | some q ↦ (some (q, wrapper, buffer), buffer ∷ wrapper ∷ heap)
    ]

-- `queue_uninit` frees the slots, then the wrapper.
unfoldable pub queue_uninit : ℕ → ℕ → Blocks → Blocks
queue_uninit wrapper buffer heap = free wrapper (free buffer heap)

pub free-cons : (p : ℕ) (bs : Blocks) → free p (p ∷ bs) ≡ bs
unfolding free
free-cons p bs = ground arith

-- A queue that `mblue_queue_alloc` hands out is well formed and empty and has the capacity asked
-- for, which is at least 1 by the hypothesis and at most 128; releasing it gives both blocks back.
pub mblue_queue_alloc-IsQueue :
    (size wrapper buffer : ℕ) (heap : Blocks)
    → 0 < size
    → size ≤ max_message_queue_items
    → (q : MblueQueue) × (mblue_queue_alloc size (some wrapper) (some buffer) heap
        ≡ (some (q, wrapper, buffer), buffer ∷ wrapper ∷ heap))
      × IsQueue q
      × (contents q ≡ [])
      × (q.capacity ≡ size)
      × (queue_uninit wrapper buffer (buffer ∷ wrapper ∷ heap) ≡ heap)
unfolding mblue_queue_alloc queue_init queue_uninit zero_slots
mblue_queue_alloc-IsQueue size wrapper buffer heap lo hi = (
  record { size = 0; next = 0; capacity = size; slots = zero_slots size },
  ground arith,
  ground (arith, length-replicate {A = ℕ} (size * 4 % 2 ^ 32 / 4) 0),
  refl,
  refl,
  ground (arith, free-cons buffer (wrapper ∷ heap), free-cons wrapper heap),
)

-- When an allocation fails, or more than 128 slots are asked for, there is no queue and the heap
-- is left as it was.
pub mblue_queue_alloc-none :
    (size : ℕ) (wrapper buffer : Option ℕ) (heap : Blocks)
    → (wrapper ≡ none) ⊎ ((buffer ≡ none) ⊎ (max_message_queue_items < size))
    → mblue_queue_alloc size wrapper buffer heap ≡ (none, heap)
unfolding mblue_queue_alloc queue_init
mblue_queue_alloc-none size none buffer heap h = refl
mblue_queue_alloc-none size (some w) none heap h = rw (free-cons w heap)
mblue_queue_alloc-none size (some w) (some b) heap h =
    ground (arith, free-cons b (w ∷ heap), free-cons w heap)
