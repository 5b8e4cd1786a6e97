-- ===== src/Ipc.antt =====
-- ipc/ipc.c and ipc/ipc_helper.c: how a task sends a message. The pool and the tasks are those of the
-- system bus; tasks and segments are addresses, 0 is NULL. A result is `none` where `nproc` is called
-- through NULL or a task that has none.
pub mod Deliver
use mblue.Common.{
  ℕ, ◌+◌, Bool, true, false, not, ◌&&◌, ◌||◌, Option, none, some, List, [], ◌∷◌, zero, suc, ◌==◌,
  if◌then◌else◌, update,
}
use mblue.Common.Int.{pos, int_eq}
use mblue.Errcode.{Errcode, ok, err_corrupt_mem, err_nomem, err_sysbus}
use mblue.Message.Code.{make_code, get_type}
use mblue.Message.Pool.{Message, MessageList, write, mblue_message_alloc}
use mblue.SystemBus.{Bus, message, mblue_bus, signal, sync_call, async_call, subscribe, call_return}
use mblue.Task.{Task, template_msg_post, template_pend}

-- `struct mblue_ipc` and what `ipc_invoke` reads of the tasks: `segments` is the segments bound to a
-- task, `major` the major number of a segment.
pub record Ipc : Type 0 where
  pub main_task : ℕ
  pub bus : Bus
  pub segments : ℕ → List ℕ
  pub major : ℕ → ℕ

unfoldable pub ipc_init : Ipc → ℕ → Errcode × Ipc
ipc_init ipc task = if task == 0 then (err_sysbus, ipc) else (ok, record ipc { main_task = task })

-- What a sender sees: a code, or it waits in `tpend` for the return of its call.
pub data Sent : Type 0 where
  code : Errcode → Sent
  waits : Sent

-- The union of `extra`, `ipc_return` and `pn`: the last assignment of `init_message` counts.
abbrev pub union_of : ℕ → ℕ → ℕ → ℕ → ℕ
union_of type out extra pn =
    if type == sync_call then out else if type == async_call then pn else extra

unfoldable pub init_message :
    MessageList → ℕ → ℕ → ℕ → ℕ → ℕ → ℕ → ℕ → ℕ → ℕ → ℕ → Option ℕ × MessageList
unfolding mblue_message_alloc make_code
init_message pool task seq type major minor dst input out extra pn =
    let (got, pool') = mblue_message_alloc pool in
    elim got [
      | none ↦ (none, pool')
      | some i ↦ (
        some i,
        write pool' i (record {
          seq = seq;
          ref = if (type == sync_call) || (type == async_call) then 1 else 0;
          code = make_code type major minor;
          src = task;
          dst = dst;
          smart_payload = input;
          extra = union_of type out extra pn;
        }),
      )
    ]

-- The loop over the segments of the main task: the first that is the bus, `none` for a NULL entry.
unfoldable pub find_bus : (ℕ → ℕ) → List ℕ → Option ℕ
find_bus major [] = some 0
find_bus major (zero ∷ rest) = none
find_bus major (suc ms ∷ rest) =
    let later = find_bus major rest in if major (suc ms) == mblue_bus then some (suc ms) else later

abbrev pub set_dst : Bus → ℕ → ℕ → Bus
set_dst bus i ms = record bus { pool = write bus.pool i (record (message bus i) { dst = ms }) }

-- `(src->tpend)(src)` of a synchronous call.
unfoldable pub wait_return : Bus → ℕ → Sent × Bus
unfolding template_pend
wait_return bus src =
    if src == 0 then (code err_sysbus, bus) else elim (template_pend (bus.tasks src)) [
      | none ↦ (waits, bus)
      | some t ↦ (code ok, record bus { tasks = update bus.tasks src t })
    ]

-- `ipc_invoke` from the call of `nproc` on.
unfoldable pub post_message : Bus → ℕ → ℕ → Option (Sent × Bus)
unfolding template_msg_post wait_return get_type
post_message bus dst i =
    if (dst == 0) || not (bus.tasks dst).nproc
    then none
    else (let (rc, t) = template_msg_post (bus.tasks dst) i in
        let posted = record bus { tasks = update bus.tasks dst t } in
        some (
          if not (int_eq rc ok)
          then (code err_sysbus, posted)
          else if get_type (message posted i).code == sync_call
          then wait_return posted (message posted i).src
          else (code ok, posted)))

unfoldable pub ipc_invoke : Ipc → ℕ → Option (Sent × Bus)
unfolding find_bus post_message
ipc_invoke ipc i =
    let ms = (message ipc.bus i).dst in
    if (ms == 0) && (ipc.main_task == 0)
    then none
    else if ms == 0
    then elim (find_bus ipc.major (ipc.segments ipc.main_task)) [
      | none ↦ some (code err_corrupt_mem, ipc.bus)
      | some found ↦
          post_message (if found == 0 then ipc.bus else set_dst ipc.bus i found) ipc.main_task i
    ]
    else post_message ipc.bus (ipc.bus.get_context ms) i

unfoldable pub send_message : Ipc → ℕ → ℕ → ℕ → ℕ → ℕ → ℕ → ℕ → ℕ → ℕ → ℕ → Option (Sent × Bus)
send_message ipc src seq type major minor dst input out extra pn =
    let (got, pool) = init_message ipc.bus.pool src seq type major minor dst input out extra pn in
    let ipc' = record ipc { bus = record ipc.bus { pool = pool } } in
    elim got [ none ↦ some (code err_nomem, ipc'.bus) | some i ↦ ipc_invoke ipc' i ]

-- The calls of ipc_helper.h and ipc_helper.c; `seq` is the answer of `mblue_message_get_sequence`
-- and `context` that of `get_current_context`.
unfoldable pub mblue_subscribe : Ipc → ℕ → ℕ → ℕ → Option (Sent × Bus)
mblue_subscribe ipc seq ms major =
    send_message ipc (ipc.bus.get_context ms) seq subscribe major 0 0 0 0 ms 0

-- The call up to the wait; `out` is the address of the variable that is returned.
unfoldable pub mblue_remote_call : Ipc → ℕ → ℕ → ℕ → ℕ → ℕ → ℕ → Option (Sent × Bus)
mblue_remote_call ipc context seq major minor input out =
    send_message ipc context seq sync_call major minor 0 input out 0 0

-- `pn` is the answer of `mblue_malloc` for the notifier.
unfoldable pub mblue_remote_call_async : Ipc → ℕ → ℕ → ℕ → ℕ → ℕ → ℕ → Option (Sent × Bus)
mblue_remote_call_async ipc context seq major minor input pn =
    if pn == 0
    then some (code err_nomem, ipc.bus)
    else send_message ipc context seq async_call major minor 0 input 0 0 pn

unfoldable pub target_signal : Ipc → ℕ → ℕ → ℕ → ℕ → ℕ → ℕ → ℕ → Option (Sent × Bus)
target_signal ipc source seq major minor dest input extra =
    send_message ipc source seq signal major minor dest input 0 extra 0

unfoldable pub ipc_return : Ipc → ℕ → ℕ → ℕ → ℕ → Option (Sent × Bus)
ipc_return ipc context major seq input =
    send_message ipc context seq call_return major 0 0 input 0 0 0
