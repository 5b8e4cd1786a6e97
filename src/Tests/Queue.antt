-- ===== src/Tests/Queue.antt =====
-- Runs of the message queue and of the task that reads it.
use mblue.Task.Served.{Event, post, round, run, posted-Takes}
use mblue.Common.{ℕ, ◌≡◌, ◌≢◌, refl, ◌⊎◌, true, some, none, List, [], ◌∷◌, arith}
use mblue.Common.Int.{negsuc}
use mblue.Errcode.{ok}
use mblue.MessageQueue.{MblueQueue}
use mblue.MessageQueue.Fifo.{
  Call, add, remove, peek, get_size, fifo_run, fifo_step, first, rest, status, pointer, number,
}
use mblue.MessageQueue.Refines.{IsQueue, contents, queue_run, queue_run_refines}
use mblue.Task.{Task, template_msg_post, template_proc_round}
use mblue.Task.Loop.{IsTask, template_msg_post_lem, template_proc_round_lem}

-- Two pointers in three slots, the second past the end of the array.
abbrev wrapped : MblueQueue
wrapped = record { size = 2; next = 2; capacity = 3; slots = 20 ∷ 0 ∷ 10 ∷ [] }

wrapped-IsQueue : IsQueue wrapped
wrapped-IsQueue = record { stored = omega arith; bounded = omega arith; in_range = omega arith }

abbrev session : List Call
session = add 30 ∷ add 40 ∷ remove ∷ peek ∷ remove ∷ remove ∷ remove ∷ get_size ∷ []

session_replies :
    fifo_run 3 (10 ∷ 20 ∷ []) session
    ≡ status ok
      ∷ status (negsuc 0)
      ∷ pointer 10
      ∷ pointer 20
      ∷ pointer 20
      ∷ pointer 30
      ∷ pointer 0
      ∷ number 0
      ∷ []
unfolding fifo_run fifo_step first rest
session_replies = refl

queue_run_refines_example : queue_run wrapped session ≡ fifo_run 3 (10 ∷ 20 ∷ []) session
queue_run_refines_example = queue_run_refines session wrapped wrapped-IsQueue

abbrev reader : Task
reader = record { nproc = true; tpost = true; mq = wrapped; msg_sem = 2; call_sem = 0 }

reader-IsTask : IsTask reader
reader-IsTask = record {
  well_formed = wrapped-IsQueue;
  counted = refl;
  pointers = (λ e. omega arith, (λ e. omega arith, tt));
}

template_msg_post_lem_example :
    ((template_msg_post reader 29).0 ≡ ok)
    × (contents (template_msg_post reader 29).1.mq ≡ 10 ∷ 20 ∷ 30 ∷ [])
    × IsTask (template_msg_post reader 29).1
template_msg_post_lem_example = template_msg_post_lem reader 29 reader-IsTask

template_proc_round_lem_example :
    ((template_proc_round reader ≡ none) × (contents reader.mq ≡ []))
    ⊎ ((m : ℕ) × (t' : Task) × (template_proc_round reader ≡ some (m, t'))
        × (m ≢ 0)
        × (contents reader.mq ≡ m ∷ contents t'.mq)
        × IsTask t')
template_proc_round_lem_example = template_proc_round_lem reader reader-IsTask

-- The message is posted behind two others and taken in the third round.
abbrev schedule : List Event
schedule = round ∷ post 7 ∷ round ∷ post 8 ∷ round ∷ []

posted-Takes_example : (rest : List ℕ) × (run (post 29 ∷ schedule) reader ≡ 10 ∷ 20 ∷ 30 ∷ rest)
posted-Takes_example = posted-Takes schedule reader 29 reader-IsTask (omega arith) (omega arith)
