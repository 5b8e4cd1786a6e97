-- ===== src/Tests/Bus.antt =====
-- A run of the system bus: a synchronous call of segment 3 by the task at address 40, its return,
-- and an asynchronous call.
use mblue.Common.{map, ℕ, ◌+◌, ◌≡◌, refl, true, some, [], ◌∷◌, ◌==◌, arith, if◌then◌else◌}
use mblue.Errcode.{ok}
use mblue.Message.Code.{make_code, get_type, get_major}
use mblue.Message.Pool.{Message, zero_message, mblue_message_release}
use mblue.MessageQueue.{MblueQueue}
use mblue.MessageQueue.Refines.{contents}
use mblue.SystemBus.{
  Bus, PendingCall, message, bus_call, bus_call_return, bus_signal, sync_call, async_call,
}
use mblue.SystemBus.Call.{sync_pending, bus_call-bus_call_return}
use mblue.SystemBus.Signal.{bus_signal_lem, Delivered, posts}
use mblue.SystemBus.References.{bus_call-mblue_message_release}
use mblue.SystemBus.Return.{bus_call_return_sync, bus_call_return_async}
use mblue.Task.{Task, pointer}
use mblue.Task.Loop.{IsTask}

abbrev empty_queue : MblueQueue
empty_queue = record { size = 0; next = 0; capacity = 3; slots = 0 ∷ 0 ∷ 0 ∷ [] }

abbrev idle : Task
idle = record { nproc = true; tpost = true; mq = empty_queue; msg_sem = 0; call_sem = 0 }

-- Message 0 calls segment 3 with sequence number 9, message 1 is its return; 0x20030101 is the code of
-- the call and 0x40030101 that of the return.
abbrev messages : ℕ → Message
messages i =
    if i == 0
    then record zero_message { seq = 9; ref = 1; code = 0x20030101; src = 40; smart_payload = 81 }
    else record zero_message { seq = 9; code = 0x40030101; smart_payload = 113 }

abbrev bus : Bus
bus = record {
  pool = record { ready = true; count = 0; msg_list = []; mblue_message_pool = messages };
  ms = λ major. 300 + major;
  publish_list = λ major. [];
  call_list = λ major. [];
  init_lock = 0;
  get_context = λ ms. 50;
  tasks = λ t. idle;
  slots = λ a. 0;
  notified = [];
  freed = [];
}

call_code : make_code 2 3 0x101 ≡ 0x20030101
unfolding make_code
call_code = refl

idle-IsTask : IsTask idle
idle-IsTask = record {
  well_formed = record { stored = omega arith; bounded = omega arith; in_range = omega arith };
  counted = refl;
  pointers = tt;
}

bus_call-bus_call_return_example :
    (bus' done : Bus) × (bus_call bus 8000 0 7000 ≡ some (ok, bus'))
    × (contents (bus'.tasks 50).mq ≡ 1 ∷ [])
    × (message bus' 0 ≡ record (message bus 0) { extra = 7000; ref = 2; dst = 303 })
    × (bus'.call_list (get_major (message bus 0).code) ≡ sync_pending 8000 0 ∷ [])
    × (bus_call_return bus' 1 ≡ some (ok, done))
    × (done.call_list (get_major (message bus 0).code) ≡ [])
    × (done.slots 7000 ≡ 113)
    × ((done.tasks 40).call_sem ≡ 1)
    × (done.freed ≡ 8000 ∷ [])
unfolding get_type get_major
bus_call-bus_call_return_example =
    bus_call-bus_call_return bus 8000 0 7000 1 refl (omega arith) (λ e. omega arith)
      (λ e. omega arith) (λ e. omega arith) (λ e. omega arith) refl idle-IsTask (omega arith)
      (λ e. omega arith) refl refl (λ e. omega arith) refl tt

-- The call of message 0 is pending, synchronous or asynchronous with the notifier at 9000.
abbrev pending : ℕ → PendingCall
pending type = record { block = 8000; msg = 1; call_type = type; notifier = 9000 }

abbrev waiting : ℕ → Bus
waiting type = record bus { call_list = λ major. pending type ∷ [] }

-- The caller's out variable stands at 7000.
abbrev answered_at : Bus
answered_at = record (waiting sync_call) {
  pool = record bus.pool { mblue_message_pool = λ i. record (messages i) { extra = 7000 } };
}

bus_call_return_sync_example :
    (bus' : Bus) × (bus_call_return answered_at 1 ≡ some (ok, bus'))
    × (bus'.call_list (get_major (messages 1).code) ≡ [])
    × (bus'.slots 7000 ≡ 113)
    × ((bus'.tasks 40).call_sem ≡ 1)
    × (bus'.freed ≡ 8000 ∷ [])
    × (bus'.pool ≡ mblue_message_release (mblue_message_release answered_at.pool 0) 1)
unfolding get_major
bus_call_return_sync_example =
    bus_call_return_sync answered_at 1 [] (pending sync_call) [] (omega arith) refl tt
      (λ e. omega arith) refl refl (λ e. omega arith) (λ e. omega arith) refl

bus_call_return_async_example :
    (bus' : Bus) × (bus_call_return (waiting async_call) 1 ≡ some (ok, bus'))
    × (bus'.call_list (get_major (messages 1).code) ≡ [])
    × (bus'.notified ≡ (9000, 113) ∷ [])
    × (bus'.freed ≡ 9000 ∷ 8000 ∷ [])
    × (bus'.tasks ≡ bus.tasks)
    × (bus'.pool ≡ mblue_message_release (mblue_message_release bus.pool 0) 1)
unfolding get_major
bus_call_return_async_example =
    bus_call_return_async (waiting async_call) 1 [] (pending async_call) [] (omega arith) refl tt
      (λ e. omega arith) refl refl (λ e. omega arith)

-- Segments 301 and 302 subscribe to segment 3; messages 1 and 2 are free.
abbrev signalled : Bus
signalled = record bus {
  pool = record {
    ready = true;
    count = 3;
    msg_list = 1 ∷ 2 ∷ 5 ∷ [];
    mblue_message_pool = messages;
  };
  publish_list = λ major. 301 ∷ 302 ∷ [];
}

bus_signal_lem_example :
    (bus' : Bus) × (bus_signal signalled 0
      ≡ some (ok, record bus' { pool = mblue_message_release bus'.pool 0 }))
    × Delivered signalled bus' (messages 0) (301 ∷ 302 ∷ []) (1 ∷ 2 ∷ []) (5 ∷ [])
    × ((t : ℕ)
        → contents (bus'.tasks t).mq
          ≡ map pointer (posts (λ ms. 50) t (301 ∷ 302 ∷ []) (1 ∷ 2 ∷ [])))
unfolding get_major
bus_signal_lem_example =
    bus_signal_lem signalled 0 (1 ∷ 2 ∷ []) (5 ∷ []) (λ e. omega arith) (λ e. omega arith)
      (omega arith) refl refl refl refl
      (λ e. omega arith, (λ e. omega arith, tt), (λ e. omega arith, tt, tt))
      (λ e. omega arith, λ e. omega arith, refl, (λ e. omega arith, λ e. omega arith, refl, tt))
      (λ t. idle-IsTask) (λ t. ground arith)

bus_call-mblue_message_release_example :
    (bus' : Bus) × (bus_call signalled 8000 0 7000 ≡ some (ok, bus'))
    × ((mblue_message_release bus'.pool 0).msg_list ≡ 1 ∷ 2 ∷ 5 ∷ [])
    × (((mblue_message_release bus'.pool 0).mblue_message_pool 0).ref ≡ 1)
    × ((mblue_message_release (mblue_message_release bus'.pool 0) 0).msg_list ≡ 1 ∷ 2 ∷ 5 ∷ 0 ∷ [])
    × ((mblue_message_release (mblue_message_release bus'.pool 0) 0).count ≡ 4)
unfolding get_type get_major
bus_call-mblue_message_release_example =
    bus_call-mblue_message_release signalled 8000 0 7000 refl refl refl (omega arith)
      (λ e. omega arith) (λ e. omega arith) (λ e. omega arith) refl
