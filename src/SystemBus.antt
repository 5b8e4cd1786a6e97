-- ===== src/SystemBus.antt =====
-- middleware/components/system_bus/system_bus.c and service/system_bus/system_bus_service.c: the bus
-- that distributes signals, forwards remote calls and takes back their returns. Segments, tasks,
-- blocks and the callers' `out` variables are addresses, 0 is NULL. An operation's result `none` is a
-- read or write through NULL or an uninitialised pointer. `block` is what `mblue_malloc` returns.
-- `_ASSERT` is empty in the release build.
pub mod Service
pub mod Return
pub mod Call
pub mod Signal
pub mod References
use mblue.Common.{
  ℕ, zero, suc, ◌+◌, ◌-◌, Bool, not, ◌&&◌, ◌||◌, Option, none, some, List, [], ◌∷◌, ◌++◌, ◌==◌,
  if◌then◌else◌, ltb, update,
}
use mblue.Errcode.{Errcode, ok, err_unknown, err_corrupt_mem}
use mblue.Message.Code.{get_type, get_major}
use mblue.Message.Pool.{
  Message, MessageList, write, get_ref, get_mblue_message, mblue_message_alloc,
  mblue_message_release,
}
use mblue.Task.{Task, pointer, template_msg_post, template_post}

-- enum MESSAGE_TYPE
abbrev pub subscribe : ℕ
subscribe = 0

abbrev pub signal : ℕ
signal = 1

abbrev pub sync_call : ℕ
sync_call = 2

abbrev pub async_call : ℕ
async_call = 3

abbrev pub call_return : ℕ
call_return = 4

-- enum MESSAGE_MAJOR
abbrev pub mblue_bus : ℕ
mblue_bus = 0

abbrev pub segment_major_max : ℕ
segment_major_max = 7

-- An entry of `_segment_node`; `none` is an access behind the end of the array.
unfoldable pub at_node {ℓ} : {A : Type ℓ} → ℕ → Option A → Option A
at_node major entry = if ltb major segment_major_max then entry else none

-- `block` is the address of the struct itself, `msg` a message pointer.
pub record PendingCall : Type 0 where
  pub block : ℕ
  pub msg : ℕ
  pub call_type : ℕ
  pub notifier : ℕ

-- `ms`, `publish_list` and `call_list` are the fields of `_segment_node`, by the major number; the
-- operations reach them through `at_node`, which has SEGMENT_MAJOR_MAX entries.
-- `get_context` is the task of a segment, `slots` the memory that `ipc_return` points to,
-- `notified` the calls of notifiers with their payloads, `freed` the blocks given back.
pub record Bus : Type 0 where
  pub pool : MessageList
  pub ms : ℕ → ℕ
  pub publish_list : ℕ → List ℕ
  pub call_list : ℕ → List PendingCall
  pub init_lock : ℕ
  pub get_context : ℕ → ℕ
  pub tasks : ℕ → Task
  pub slots : ℕ → ℕ
  pub notified : List (ℕ × ℕ)
  pub freed : List ℕ

abbrev pub message : Bus → ℕ → Message
message bus i = bus.pool.mblue_message_pool i

-- the loop of `bus_init`: the lists of the majors below `n`
unfoldable pub init_nodes : ℕ → Bus → Bus
init_nodes zero bus = bus
init_nodes (suc i) bus = init_nodes i (record bus {
  publish_list = update bus.publish_list i [];
  call_list = update bus.call_list i [];
})

unfoldable pub bus_init : Bus → Errcode × Bus
unfolding init_nodes
bus_init bus = (ok, record (init_nodes segment_major_max bus) { init_lock = 0 })

-- `none` is a caller that waits for the bus to come up, or a major number behind the array.
unfoldable pub bus_register : Bus → ℕ → ℕ → Option Bus
unfolding at_node
bus_register bus ms major =
    if major == mblue_bus
    then some (record bus { ms = update bus.ms major ms })
    else if bus.init_lock == 0
    then none
    else at_node major
        (some (record bus { init_lock = bus.init_lock - 1; ms = update bus.ms major ms }))

-- What is returned comes from a variable that the source does not initialise.
unfoldable pub bus_contex_notify : Bus → Bus
bus_contex_notify bus = record bus { init_lock = bus.init_lock + segment_major_max }

unfoldable pub bus_get_segment : Bus → ℕ → Option ℕ
unfolding at_node
bus_get_segment bus major = at_node major (some (bus.ms major))

unfoldable pub bus_subscribe : Bus → ℕ → ℕ → ℕ → Option (Errcode × Bus)
unfolding at_node
bus_subscribe bus block ms major =
    if block == 0
    then none
    else at_node major (
        some (
          ok,
          record bus {
            publish_list = update bus.publish_list major (bus.publish_list major ++ (ms ∷ []));
          },
        ))

-- `(dst->nproc)(dst, msg)`, whose result the bus does not read
unfoldable pub post_to : Bus → ℕ → ℕ → Bus
unfolding template_msg_post
post_to bus dst i = record bus {
  tasks = update bus.tasks dst (template_msg_post (bus.tasks dst) i).1;
}

unfoldable pub send_replica : Bus → ℕ → ℕ → Option Bus
unfolding mblue_message_alloc get_ref post_to
send_replica bus i ms =
    let (got, pool) = mblue_message_alloc bus.pool in
    elim got [
      | none ↦ none
      | some r ↦
          let replica = record (get_ref (pool.mblue_message_pool i)) { dst = ms } in
          some (post_to (record bus { pool = write pool r replica }) (bus.get_context ms) r)
    ]

-- One subscriber: what the loop of `bus_signal` does with it.
unfoldable pub signal_one : Bus → ℕ → ℕ → Option Bus
unfolding send_replica
signal_one bus i ms =
    let dst = bus.get_context ms in
    if (dst == 0) || not (bus.tasks dst).nproc then some bus else send_replica bus i ms

unfoldable pub signal_loop : ℕ → List ℕ → Errcode → Bus → Option (Errcode × Bus)
unfolding signal_one
signal_loop i [] rc bus = some (rc, bus)
signal_loop i (zero ∷ rest) rc bus = some (err_corrupt_mem, bus)
signal_loop i (suc ms ∷ rest) rc bus = elim (signal_one bus i (suc ms)) [
  | none ↦ none
  | some bus' ↦ signal_loop i rest ok bus'
]

unfoldable pub release : Bus → ℕ → Bus
unfolding mblue_message_release
release bus i = record bus { pool = mblue_message_release bus.pool i }

unfoldable pub bus_signal : Bus → ℕ → Option (Errcode × Bus)
unfolding signal_loop release at_node
bus_signal bus i =
    let major = get_major (message bus i).code in
    at_node major (elim (signal_loop i (bus.publish_list major) err_unknown bus) [
      | none ↦ none
      | some (rc, bus') ↦ some (rc, release bus' i)
    ])

-- The second half of `bus_call`; `call` is `none` where the source leaves it uninitialised.
unfoldable pub forward_call : Bus → ℕ → ℕ → Option ℕ → Option (Errcode × Bus)
unfolding post_to get_ref
forward_call bus i ms call =
    let dst = bus.get_context ms in
    if (bus.tasks dst).nproc
    then (let sent = write bus.pool i (record (get_ref (message bus i)) { dst = ms }) in
        some (ok, post_to (record bus { pool = sent }) dst i))
    else elim call [
      | none ↦ none
      | some block ↦ some (err_unknown, record bus { freed = bus.freed ++ (block ∷ []) })
    ]

-- `malloc`ed and linked; a field that the source does not set for its type is 0 here.
unfoldable pub link_call : Bus → ℕ → ℕ → ℕ → Bus
link_call bus block i union_info =
    let m = message bus i in
    let type = get_type m.code in
    let major = get_major m.code in
    let call : PendingCall = record {
      block = block;
      msg = pointer i;
      call_type = type;
      notifier = if type == async_call then union_info else 0;
    } in
    record bus {
      pool =
          if type == sync_call
          then write bus.pool i (record m { extra = union_info })
          else bus.pool;
      call_list = update bus.call_list major (bus.call_list major ++ (call ∷ []));
    }

-- `bus_call` with the segment at the node of the message's major number.
unfoldable pub call_segment : Bus → ℕ → ℕ → ℕ → ℕ → Option (Errcode × Bus)
unfolding forward_call link_call
call_segment bus block i union_info ms =
    let m = message bus i in
    if (ms == 0) || (bus.get_context ms == 0)
    then some (err_unknown, bus)
    else if (get_type m.code == async_call) && (union_info == 0)
    then forward_call bus i ms none
    else if block == 0
    then some (err_unknown, bus)
    else forward_call (link_call bus block i union_info) i ms (some block)

unfoldable pub bus_call : Bus → ℕ → ℕ → ℕ → Option (Errcode × Bus)
unfolding call_segment at_node
bus_call bus block i union_info =
    let major = get_major (message bus i).code in
    at_node major (call_segment bus block i union_info (bus.ms major))

-- How the loop of `bus_call_return` ends: `found` has the call and the list without it.
pub data Search : Type 0 where
  not_found : Search
  corrupt : Search
  found : PendingCall → List PendingCall → Search

unfoldable pub keep : PendingCall → Search → Search
keep call not_found = not_found
keep call corrupt = corrupt
keep call (found c left) = found c (call ∷ left)

unfoldable pub find_call : (ℕ → Message) → ℕ → List PendingCall → Search
unfolding keep
find_call pool seq [] = not_found
find_call pool seq (call ∷ rest) =
    let later = keep call (find_call pool seq rest) in
    if call.msg == 0
    then corrupt
    else if seq == (pool (call.msg - 1)).seq
    then found call rest
    else later

unfoldable pub post_return : Bus → ℕ → Bus
unfolding template_post
post_return bus task =
    if (bus.tasks task).tpost
    then record bus { tasks = update bus.tasks task (template_post (bus.tasks task)) }
    else bus

-- the `switch` of `bus_call_return`; `none` is a write through NULL or a call of it
unfoldable pub answer : Bus → PendingCall → Message → Option Bus
unfolding post_return
answer bus call dmsg =
    let smsg = message bus (call.msg - 1) in
    if call.call_type == sync_call
    then (if smsg.src == 0
        then some bus
        else if smsg.extra == 0
        then none
        else some (
            post_return (record bus { slots = update bus.slots smsg.extra dmsg.smart_payload })
              smsg.src))
    else if call.call_type == async_call
    then (if call.notifier == 0
        then none
        else some (record bus {
          notified = bus.notified ++ ((call.notifier, dmsg.smart_payload) ∷ []);
          freed = bus.freed ++ (call.notifier ∷ []);
        }))
    else some bus

unfoldable pub finish : Bus → ℕ → PendingCall → List PendingCall → Bus
unfolding release
finish bus major call left =
    let released = release bus (call.msg - 1) in
    record released {
      call_list = update released.call_list major left;
      freed = released.freed ++ (call.block ∷ []);
    }

-- The call that is found has been answered.
unfoldable pub finish_answered :
    ℕ → ℕ → PendingCall → List PendingCall → Option Bus → Option (Errcode × Bus)
unfolding finish release
finish_answered i major call left none = none
finish_answered i major call left (some answered) =
    some (ok, release (finish answered major call left) i)

unfoldable pub bus_call_return : Bus → ℕ → Option (Errcode × Bus)
unfolding find_call answer finish_answered release at_node
bus_call_return bus i =
    let dmsg = message bus i in
    let major = get_major dmsg.code in
    at_node major (elim (find_call bus.pool.mblue_message_pool dmsg.seq (bus.call_list major)) [
      | not_found ↦ some (err_unknown, release bus i)
      | corrupt ↦ some (err_corrupt_mem, release bus i)
      | found call left ↦ finish_answered i major call left (answer bus call dmsg)
    ])
