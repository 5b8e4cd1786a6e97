-- ===== src/Tests/Start.antt =====
-- Runs of the start of a task: two tasks stand in the table.
use mblue.Common.{
  ℕ, ◌≡◌, ◌<◌, refl, true, false, Bool, some, none, [], ◌∷◌, ◌==◌, arith, if◌then◌else◌, inl, inr,
}
use mblue.MessageQueue.{MblueQueue}
use mblue.MessageQueue.Refines.{IsQueue, contents}
use mblue.Task.Start.{
  TaskManager, Started, task_start, get_current_context, task_start_fails, task_start_lem,
}

abbrev two_tasks : TaskManager
two_tasks = record { task_id = 2; task = λ j. if j == 0 then 10 else if j == 1 then 40 else 0 }

task_start_fails_example :
    task_start two_tasks 0 600 8 (some 700) none (30 ∷ [])
    ≡ some (record { result = 0; manager = two_tasks; mq = none; heap = 30 ∷ [] })
task_start_fails_example =
    task_start_fails two_tasks 0 600 8 (some 700) none (30 ∷ []) (inr (inr (inl refl)))

task_start_lem_example :
    (s : Started) × (q : MblueQueue) × (task_start two_tasks 0 600 8 (some 700) (some 800) (30 ∷ [])
      ≡ some s)
    × (s.result ≡ 600)
    × (s.mq ≡ some q)
    × IsQueue q
    × (contents q ≡ [])
    × (q.capacity ≡ 8)
    × (s.manager.task 2 ≡ 600)
    × (s.manager.task_id ≡ 3)
    × ((j : ℕ) → j < 2 → s.manager.task j ≡ two_tasks.task j)
    × ((current : ℕ → Bool)
        → current 600 ≡ true
        → ((j : ℕ) → j < 2 → current (two_tasks.task j) ≡ false)
        → get_current_context current s.manager ≡ 600)
task_start_lem_example =
    task_start_lem two_tasks 0 600 8 700 800 (30 ∷ []) 600 refl (λ e. omega arith) (omega arith)
      (omega arith) (omega arith)
