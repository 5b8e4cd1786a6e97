-- ===== src/Task.antt =====
-- pal/task/mblue_stdtask.c: the message loop of a task. `msg_sem` counts the messages in the queue
-- and `call_sem` the returns of remote calls; a semaphore is its count, and a `pend` on 0 blocks.
-- A message pointer is the place in the pool plus 1, so that 0 is NULL.
pub mod Loop
pub mod Served
pub mod Start
use mblue.Common.{ℕ, suc, ◌+◌, ◌-◌, Bool, Option, none, some, ◌==◌, if◌then◌else◌}
use mblue.Common.Int.{int_eq, pos}
use mblue.Errcode.{Errcode, ok}
use mblue.MessageQueue.{MblueQueue, queue_add, queue_remove}

-- `nproc` and `tpost` are whether the task has these functions: they are `template_msg_post` and
-- `template_post` then.
pub record Task : Type 0 where
  pub nproc : Bool
  pub tpost : Bool
  pub mq : MblueQueue
  pub msg_sem : ℕ
  pub call_sem : ℕ

abbrev pub pointer : ℕ → ℕ
pointer msg = suc msg

unfoldable pub template_msg_post : Task → ℕ → Errcode × Task
template_msg_post task msg =
    let (rc, mq) = queue_add task.mq (pointer msg) in
    if int_eq rc (pos 0)
    then (ok, record task { mq = mq; msg_sem = task.msg_sem + 1 })
    else (ok, record task { mq = mq })

unfoldable pub template_post : Task → Task
template_post task = record task { call_sem = task.call_sem + 1 }

-- `none` is a task that stays blocked.
unfoldable pub template_pend : Task → Option Task
template_pend task =
    if task.call_sem == 0 then none else some (record task { call_sem = task.call_sem - 1 })

-- One round of the loop of `template_proc` up to the message pointer that it takes.
unfoldable pub template_proc_round : Task → Option (ℕ × Task)
template_proc_round task =
    if task.msg_sem == 0
    then none
    else (let (msg, mq) = queue_remove task.mq in
        some (msg, record task { mq = mq; msg_sem = task.msg_sem - 1 }))
