-- ===== src/Task/Start.antt =====
-- `task_start` and `get_current_context` of pal/task/mblue_stdtask.c and the table of tasks in
-- middleware/components/task_manager/task_manager.c. Tasks are addresses, 0 is NULL; the platform's
-- `_task_construct` starts the thread.
use mblue.Common.{
  ℕ, zero, suc, ◌+◌, ◌≤◌, ◌<◌, ◌≡◌, ◌≢◌, refl, sym, ap, ◌∙◌, Bool, true, false, not, ◌&&◌, Option,
  none, some, List, [], ◌∷◌, arith, ltb, ◌==◌, if◌then◌else◌, update, ◌⊎◌, inl, inr, Bool-cases,
}
use mblue.Common.Words.{u8}
use mblue.MessageQueue.{MblueQueue, max_message_queue_items}
use mblue.MessageQueue.Alloc.{
  Blocks, free, free-cons, mblue_queue_alloc, mblue_queue_alloc-none, mblue_queue_alloc-IsQueue,
}
use mblue.MessageQueue.Refines.{IsQueue, contents}
use native.Mathlib.Decide.{dec_lt}

abbrev pub max_tasks_in_system : ℕ
max_tasks_in_system = 16

-- `struct task_manager` with the counter `task_id` of its file
pub record TaskManager : Type 0 where
  pub task_id : ℕ
  pub task : ℕ → ℕ

-- The task gets the next place of the table; `none` is a write past it.
unfoldable pub task_create : TaskManager → ℕ → Option TaskManager
task_create tm task =
    if ltb tm.task_id max_tasks_in_system
    then some (record tm { task = update tm.task tm.task_id task; task_id = u8 (tm.task_id + 1) })
    else none

-- What `task_start` leaves: its result, the table, the queue of the task, and the heap.
pub record Started : Type 0 where
  pub result : ℕ
  pub manager : TaskManager
  pub mq : Option MblueQueue
  pub heap : Blocks

-- From the allocation of the queue on. `create_task` returns the task that it is given, so the
-- release of the queue behind it is never reached.
unfoldable pub with_queue :
    TaskManager → ℕ → Bool → Option (MblueQueue × ℕ × ℕ) → Blocks → Option Started
unfolding task_create
with_queue tm task in_heap none heap = some (record {
  result = 0;
  manager = tm;
  mq = none;
  heap = if in_heap then free task heap else heap;
})
with_queue tm task in_heap (some (q, wrapper, buffer)) heap = elim (task_create tm task) [
  | none ↦ none
  | some tm' ↦ some (record { result = task; manager = tm'; mq = some q; heap = heap })
]

-- `fresh`, `wrapper` and `buffer` are the answers of `mblue_malloc` for the task and its queue.
unfoldable pub task_start : TaskManager → ℕ → ℕ → ℕ → Option ℕ → Option ℕ → Blocks → Option Started
unfolding with_queue
task_start tm task_instance fresh elements wrapper buffer heap =
    if (task_instance == 0) && (fresh == 0)
    then some (record { result = 0; manager = tm; mq = none; heap = heap })
    else (let in_heap = task_instance == 0 in
        let task = if in_heap then fresh else task_instance in
        let (mq, heap') =
          mblue_queue_alloc elements wrapper buffer (if in_heap then fresh ∷ heap else heap) in
        with_queue tm task in_heap mq heap')

abbrev task_max_msg_in_queue : ℕ
task_max_msg_in_queue = 16

-- `task_prepare`: the preloaded tasks, which are no blocks of the heap, are started in order; each
-- comes with the answers of `mblue_malloc` for its queue.
unfoldable pub task_prepare :
    TaskManager → List (ℕ × Option ℕ × Option ℕ) → Blocks → Option (TaskManager × Blocks)
unfolding task_start
task_prepare tm [] heap = some (tm, heap)
task_prepare tm ((task, wrapper, buffer) ∷ rest) heap =
    elim (task_start tm task 0 task_max_msg_in_queue wrapper buffer heap) [
      | none ↦ none
      | some started ↦ task_prepare started.manager rest started.heap
    ]

-- A task whose memory or queue cannot be had, or whose queue is to have more than 128 slots, is not
-- started: the result is NULL, the table of tasks is as it was, and everything that was allocated for
-- the task is given back.
pub task_start_fails :
    (tm : TaskManager) (task_instance fresh elements : ℕ) (wrapper buffer : Option ℕ)
    (heap : Blocks)
    → ((task_instance ≡ 0) × (fresh ≡ 0))
      ⊎ ((wrapper ≡ none) ⊎ ((buffer ≡ none) ⊎ (max_message_queue_items < elements)))
    → task_start tm task_instance fresh elements wrapper buffer heap
      ≡ some (record { result = 0; manager = tm; mq = none; heap = heap })
unfolding task_start with_queue
task_start_fails tm task_instance fresh elements wrapper buffer heap (inl h) =
    ground (h.0, h.1, arith)
task_start_fails tm task_instance fresh elements wrapper buffer heap (inr h) =
    elim (Bool-cases (task_instance == 0)) [
      | inl in_heap ↦
          let failed = mblue_queue_alloc-none elements wrapper buffer (fresh ∷ heap) h in
          rw in_heap (ground (failed, free-cons fresh heap, arith))
      | inr outside ↦
          let failed = mblue_queue_alloc-none elements wrapper buffer heap h in
          rw outside (ground (failed, arith))
    ]

-- The loop of `get_current_context`, at place `i` with `n` to go; `current` is
-- `custom_current_task_equal` of the task.
unfoldable pub find_current : (ℕ → Bool) → (ℕ → ℕ) → ℕ → ℕ → ℕ
find_current current task zero i = 0
find_current current task (suc n) i =
    let later = find_current current task n (i + 1) in
    if not (task i == 0) && current (task i) then task i else later

unfoldable pub get_current_context : (ℕ → Bool) → TaskManager → ℕ
unfolding find_current
get_current_context current tm = find_current current tm.task max_tasks_in_system 0

find_current_first :
    (current : ℕ → Bool) (task : ℕ → ℕ) (n i k : ℕ)
    → i ≤ k
    → k < i + n
    → task k ≢ 0
    → current (task k) ≡ true
    → ((j : ℕ) → i ≤ j → j < k → current (task j) ≡ false)
    → find_current current task n i ≡ task k
unfolding find_current
find_current_first current task zero i k lo hi there is_current others = absurd (omega arith)
find_current_first current task (suc n) i k lo hi there is_current others = elim (dec_lt i k) [
  | yes before ↦
      let ih =
        find_current_first current task n (i + 1) k (omega arith) (omega arith) there is_current
          (λ j h. others j (omega arith)) in
      let skipped = others i (omega arith) before in ground (ih, skipped, arith)
  | no at ↦ let same : i ≡ k = omega arith in rw same (ground (there, is_current, arith))
]

-- The table with one task more.
abbrev registered : TaskManager → ℕ → TaskManager
registered tm t = record tm { task = update tm.task tm.task_id t; task_id = u8 (tm.task_id + 1) }

abbrev heap_with : ℕ → ℕ → Blocks → Blocks
heap_with task_instance fresh heap = if task_instance == 0 then fresh ∷ heap else heap

with_queue-started :
    (tm : TaskManager) (t : ℕ) (in_heap : Bool) (q : MblueQueue) (wrapper buffer : ℕ)
    (heap : Blocks)
    → tm.task_id < max_tasks_in_system
    → with_queue tm t in_heap (some (q, wrapper, buffer)) heap
      ≡ some (record { result = t; manager = registered tm t; mq = some q; heap = heap })
unfolding with_queue task_create
with_queue-started tm t in_heap q wrapper buffer heap room = ground (room, arith)

task_start-with_queue :
    (tm : TaskManager) (task_instance fresh elements wrapper buffer : ℕ) (heap : Blocks)
    (q : MblueQueue)
    → (if task_instance == 0 then fresh else task_instance) ≢ 0
    → mblue_queue_alloc elements (some wrapper) (some buffer) (heap_with task_instance fresh heap)
      ≡ (some (q, wrapper, buffer), buffer ∷ wrapper ∷ heap_with task_instance fresh heap)
    → task_start tm task_instance fresh elements (some wrapper) (some buffer) heap
      ≡ with_queue tm
          (if task_instance == 0 then fresh else task_instance)
          (task_instance == 0)
          (some (q, wrapper, buffer))
          (buffer ∷ wrapper ∷ heap_with task_instance fresh heap)
unfolding task_start
task_start-with_queue tm task_instance fresh elements wrapper buffer heap q there alloc =
    let allowed : ((task_instance == 0) && (fresh == 0)) ≡ false = ground (there, arith) in
    let got = ap (λ (x : Option (MblueQueue × ℕ × ℕ) × Blocks). x.0) alloc in
    let left = ap (λ (x : Option (MblueQueue × ℕ × ℕ) × Blocks). x.1) alloc in
    rw (allowed, got, left, task_start) refl

registered-current :
    (tm : TaskManager) (t : ℕ) (current : ℕ → Bool)
    → t ≢ 0
    → tm.task_id < max_tasks_in_system
    → current t ≡ true
    → ((j : ℕ) → j < tm.task_id → current (tm.task j) ≡ false)
    → get_current_context current (registered tm t) ≡ t
unfolding get_current_context
registered-current tm t current there room is_current others =
    let here : (registered tm t).task tm.task_id ≡ t = ground arith in
    find_current_first current (registered tm t).task max_tasks_in_system 0 tm.task_id (omega arith)
      (omega arith) (λ e. there (sym here ∙ e)) (ap current here ∙ is_current)
      (λ j lo hi. ap current (kept j hi) ∙ others j hi)
    ∙ here
  where
    kept : (j : ℕ) → j < tm.task_id → (registered tm t).task j ≡ tm.task j
    kept j lt = ground (lt, arith)

-- With room in the table of tasks, memory for the task or a task of the caller's, and memory for a
-- queue of 1 to 128 slots, the task is started: it is returned, stands in the next place of the table,
-- and has an empty well-formed queue with the capacity asked for; the tasks before it keep their
-- places. While none of those runs and the new task does, `get_current_context` finds the new task.
pub task_start_lem :
    (tm : TaskManager) (task_instance fresh elements wrapper buffer : ℕ) (heap : Blocks) (t : ℕ)
    → t ≡ (if task_instance == 0 then fresh else task_instance)
    → t ≢ 0
    → tm.task_id < max_tasks_in_system
    → 0 < elements
    → elements ≤ max_message_queue_items
    → (s : Started) × (q : MblueQueue) × (task_start tm task_instance fresh elements
          (some wrapper)
          (some buffer)
          heap
        ≡ some s)
      × (s.result ≡ t)
      × (s.mq ≡ some q)
      × IsQueue q
      × (contents q ≡ [])
      × (q.capacity ≡ elements)
      × (s.manager.task tm.task_id ≡ t)
      × (s.manager.task_id ≡ tm.task_id + 1)
      × ((j : ℕ) → j < tm.task_id → s.manager.task j ≡ tm.task j)
      × ((current : ℕ → Bool)
          → current t ≡ true
          → ((j : ℕ) → j < tm.task_id → current (tm.task j) ≡ false)
          → get_current_context current s.manager ≡ t)
task_start_lem tm task_instance fresh elements wrapper buffer heap t named there room lo hi =
    let (q, alloc, valid, empty, capacity, _) =
      mblue_queue_alloc-IsQueue elements wrapper buffer (heap_with task_instance fresh heap) lo
        hi in
    let same : (if task_instance == 0 then fresh else task_instance) ≡ t = sym named in
    let s : Started = record {
      result = t;
      manager = registered tm t;
      mq = some q;
      heap = buffer ∷ wrapper ∷ heap_with task_instance fresh heap;
    } in
    (
      s,
      q,
      task_start-with_queue tm task_instance fresh elements wrapper buffer heap q
            (λ e. there (named ∙ e)) alloc
          ∙ ap (λ (x : ℕ). with_queue tm x (task_instance == 0) (some (q, wrapper, buffer)) s.heap)
              same
          ∙ with_queue-started tm t (task_instance == 0) q wrapper buffer s.heap room,
      refl,
      refl,
      valid,
      empty,
      capacity,
      ground arith,
      omega arith,
      λ j lt. ground (lt, arith),
      λ current is_current others. registered-current tm t current there room is_current others,
    )
