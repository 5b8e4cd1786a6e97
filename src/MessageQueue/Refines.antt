-- ===== src/MessageQueue/Refines.antt =====
-- A well-formed queue behaves as the bounded list of the pointers that it holds.
use mathlib.Core.Path.{ap₂}
use mblue.Common.{
  ◌∙◌, ℕ, zero, suc, ◌+◌, ◌-◌, ◌≤◌, ◌<◌, ◌≡◌, ◌≢◌, refl, ap, List, [], ◌∷◌, ◌++◌, arith, length,
  get_or, set, length-set, get_or-set_self, get_or-set_ne, if◌then◌else◌, ◌==◌,
}
use mblue.Common.Int.{pos}
use mblue.MessageQueue.{MblueQueue, wrap, queue_add, queue_remove, queue_peek, queue_size}
use mblue.MessageQueue.Fifo.{
  Call, add, remove, peek, get_size, Reply, status, pointer, number, first, rest, fifo_step,
  fifo_run,
}

pub record IsQueue (q : MblueQueue) : Type 0 where
  pub stored : q.capacity ≤ length q.slots
  pub bounded : q.size ≤ q.capacity
  pub in_range : q.next < q.capacity

-- The `n` slots from `i` on, going round at the end of the array.
abbrev pub window : List ℕ → ℕ → ℕ → ℕ → List ℕ
window slots capacity i zero = []
window slots capacity i (suc n) = get_or slots i 0 ∷ window slots capacity (wrap capacity (i + 1)) n

abbrev pub contents : MblueQueue → List ℕ
contents q = window q.slots q.capacity q.next q.size

length-window : (s : List ℕ) (c i n : ℕ) → length (window s c i n) ≡ n
length-window s c i zero = refl
length-window s c i (suc n) = ap suc (length-window s c (wrap c (i + 1)) n)

pub length-contents : (q : MblueQueue) → length (contents q) ≡ q.size
length-contents q = length-window q.slots q.capacity q.next q.size

-- A pointer written behind the last slot of a window extends the window by it.
window-set :
    (s : List ℕ) (c v n i p : ℕ)
    → c ≤ length s
    → i < c
    → n < c
    → p ≡ wrap c (i + n)
    → window (set s p v) c i (suc n) ≡ window s c i n ++ (v ∷ [])
window-set s c v zero i p hs hi hn e =
    let at : p ≡ i = ground arith in rw (at, get_or-set_self s i v 0 (omega arith))
window-set s c v (suc n) i p hs hi hn e =
    let apart : p ≢ i = ground arith in
    rw (get_or-set_ne s p i v 0 apart) (
      ap (λ (w : List ℕ). get_or s i 0 ∷ w)
        (window-set s c v n (wrap c (i + 1)) p hs (ground arith) (omega arith) (ground arith)))

-- A window is read at its front by the code's test of the size.
first-window :
    (s : List ℕ) (c i n : ℕ) → first (window s c i n) ≡ (if n == 0 then 0 else get_or s i 0)
unfolding first
first-window s c i zero = refl
first-window s c i (suc n) = ground arith

rest-window_empty : (s : List ℕ) (c i n : ℕ) → n ≡ 0 → rest (window s c i n) ≡ window s c i n
unfolding rest
rest-window_empty s c i zero h = refl
rest-window_empty s c i (suc n) h = absurd (omega arith)

rest-window :
    (s : List ℕ) (c i n : ℕ) → 0 < n → rest (window s c i n) ≡ window s c (wrap c (i + 1)) (n - 1)
unfolding rest
rest-window s c i zero h = absurd (omega arith)
rest-window s c i (suc n) h = ap (window s c (wrap c (i + 1))) (omega arith)

unfoldable pub queue_step : MblueQueue → Call → Reply × MblueQueue
queue_step q (add v) = let (r, q') = queue_add q v in (status r, q')
queue_step q remove = let (p, q') = queue_remove q in (pointer p, q')
queue_step q peek = (pointer (queue_peek q), q)
queue_step q get_size = (number (queue_size q), q)

unfoldable pub queue_run : MblueQueue → List Call → List Reply
queue_run q [] = []
queue_run q (c ∷ cs) = let (r, q') = queue_step q c in r ∷ queue_run q' cs

-- Every call keeps the queue well formed and its capacity as it is, and no slot outside the array
-- is read or written.
pub queue_step-IsQueue :
    (q : MblueQueue) (c : Call)
    → IsQueue q
    → IsQueue (queue_step q c).1 × ((queue_step q c).1.capacity ≡ q.capacity)
unfolding queue_step queue_add queue_remove
queue_step-IsQueue q (add v) w =
    ground (arith, length-set q.slots (wrap q.capacity (q.next + q.size)) v)
queue_step-IsQueue q remove w = ground arith
queue_step-IsQueue q peek w = ground arith
queue_step-IsQueue q get_size w = ground arith

add_step :
    (q : MblueQueue) (v : ℕ)
    → IsQueue q
    → let (r, q') = queue_step q (add v) in
      (r, contents q') ≡ fifo_step q.capacity (contents q) (add v)
unfolding queue_step queue_add fifo_step
add_step q v w = ground (
  arith,
  length-window q.slots q.capacity q.next q.size,
  window-set q.slots q.capacity v q.size q.next (wrap q.capacity (q.next + q.size)),
)

remove_step :
    (q : MblueQueue)
    → IsQueue q
    → let (r, q') = queue_step q remove in
      (r, contents q') ≡ fifo_step q.capacity (contents q) remove
unfolding queue_step queue_remove fifo_step
remove_step q w = ground (
  arith,
  first-window q.slots q.capacity q.next q.size,
  rest-window_empty q.slots q.capacity q.next q.size,
  rest-window q.slots q.capacity q.next q.size,
)

-- One call on a well-formed queue replies as the bounded list does, and leaves the list's contents.
pub queue_step_refines :
    (q : MblueQueue) (c : Call)
    → IsQueue q
    → let (r, q') = queue_step q c in (r, contents q') ≡ fifo_step q.capacity (contents q) c
unfolding queue_step queue_peek queue_size fifo_step
queue_step_refines q (add v) w = add_step q v w
queue_step_refines q remove w = remove_step q w
queue_step_refines q peek w = ground (arith, first-window q.slots q.capacity q.next q.size)
queue_step_refines q get_size w = ground (arith, length-window q.slots q.capacity q.next q.size)

run_as :
    (cs : List Call) (q : MblueQueue) (capacity : ℕ) (xs : List ℕ)
    → IsQueue q
    → q.capacity ≡ capacity
    → contents q ≡ xs
    → queue_run q cs ≡ fifo_run capacity xs cs
unfolding queue_run fifo_run
run_as [] q capacity xs w e f = refl
run_as (c ∷ cs) q capacity xs w e f =
    let (kept, same) = queue_step-IsQueue q c w in
    let step = queue_step_refines q c w ∙ ap₂ (λ (k : ℕ) (ys : List ℕ). fifo_step k ys c) e f in
    ap₂ ◌∷◌ (ap (λ (t : Reply × List ℕ). t.0) step) (
      run_as cs (queue_step q c).1 capacity (fifo_step capacity xs c).1 kept (same ∙ e)
        (ap (λ (t : Reply × List ℕ). t.1) step))

-- No sequence of calls tells a well-formed queue from the bounded list of its contents.
pub queue_run_refines :
    (cs : List Call) (q : MblueQueue)
    → IsQueue q
    → queue_run q cs ≡ fifo_run q.capacity (contents q) cs
queue_run_refines cs q w = run_as cs q q.capacity (contents q) w refl refl

-- The two calls on the branches where they move a pointer, as their callers use them.
pub queue_add_room :
    (q : MblueQueue) (v : ℕ)
    → IsQueue q
    → q.size < q.capacity
    → ((queue_add q v).0 ≡ pos 0)
      × (contents (queue_add q v).1 ≡ contents q ++ (v ∷ []))
      × IsQueue (queue_add q v).1
      × ((queue_add q v).1.size ≡ q.size + 1)
      × ((queue_add q v).1.capacity ≡ q.capacity)
unfolding queue_add
queue_add_room q v w room = ground (
  arith,
  length-set q.slots (wrap q.capacity (q.next + q.size)) v,
  window-set q.slots q.capacity v q.size q.next (wrap q.capacity (q.next + q.size)),
)

pub queue_remove_some :
    (q : MblueQueue)
    → IsQueue q
    → 0 < q.size
    → ((queue_remove q).0 ≡ first (contents q))
      × (contents (queue_remove q).1 ≡ rest (contents q))
      × IsQueue (queue_remove q).1
      × ((queue_remove q).1.size ≡ q.size - 1)
unfolding queue_remove
queue_remove_some q w some_left = ground (
  arith,
  first-window q.slots q.capacity q.next q.size,
  rest-window q.slots q.capacity q.next q.size,
)
