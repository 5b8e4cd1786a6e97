-- ===== src/Tests/Messages.antt =====
-- Runs of the sending of messages and of the handlers of a segment.
use mblue.Common.{
  ◌≡◌, refl, true, false, some, none, inl, [], ◌∷◌, ◌++◌, ◌==◌, map, arith, if◌then◌else◌,
}
use mblue.Errcode.{Errcode, ok}
use mblue.Message.Code.{get_type, get_major, get_minor}
use mblue.Message.Pool.{
  MessageList, zero_message, mblue_message_release, get_mblue_message_list_instance,
  mblue_message_init, link_from,
}
use mblue.Message.Pool.Conservation.{IsPool, Reach, Reach-IsPool}
use mblue.MessageQueue.Refines.{contents}
use mblue.SystemBus.{Bus, message, sync_call, signal}
use mblue.Task.{Task}
use mblue.Task.Loop.{IsTask}
use mblue.Ipc.{Ipc, Sent, waits, find_bus, send_message}
use mblue.Ipc.Deliver.{send_message_lem}
use mblue.SmartData.{pb_payload}
use mblue.Segment.{
  Segment, Service, MessageHandler, end_item_id, default_signal_handler, default_ipc_handler,
  read_header,
}
use mblue.Segment.Dispatch.{
  received, payload_blocks, serving, first_of, methods, answer_of, default_ipc_handler_lem,
  default_signal_handler_lem,
}

abbrev pool : MessageList
pool =
    get_mblue_message_list_instance
      (record { ready = false; count = 0; msg_list = []; mblue_message_pool = λ i. zero_message })

pool-IsPool : IsPool pool []
pool-IsPool = Reach-IsPool (Reach.start _ refl)

abbrev idle : Task
idle = record {
  nproc = true;
  tpost = true;
  mq = record { size = 0; next = 0; capacity = 3; slots = 0 ∷ 0 ∷ 0 ∷ [] };
  msg_sem = 0;
  call_sem = 0;
}

idle-IsTask : IsTask idle
idle-IsTask = record {
  well_formed = record { stored = omega arith; bounded = omega arith; in_range = omega arith };
  counted = refl;
  pointers = tt;
}

-- The task at 10 has the segments at 300, which is not the bus, and at 301, which is.
abbrev ipc : Ipc
ipc = record {
  main_task = 10;
  bus = record {
    pool = pool;
    ms = λ major. 0;
    publish_list = λ major. [];
    call_list = λ major. [];
    init_lock = 0;
    get_context = λ ms. 10;
    tasks = λ t. idle;
    slots = λ a. 0;
    notified = [];
    freed = [];
  };
  segments = λ t. 300 ∷ 301 ∷ [];
  major = λ ms. if ms == 301 then 0 else 4;
}

-- A synchronous call of method 0x101 of the log service by the task at 40.
send_message_lem_example :
    (bus' : Bus) × (sent : Sent) × (send_message ipc 40 9 sync_call 2 0x101 0 0x8040 7000 0 0
      ≡ some (sent, bus'))
    × (sent ≡ waits)
    × (contents (bus'.tasks 10).mq ≡ 1 ∷ [])
    × (get_type (message bus' 0).code ≡ 2)
    × (get_major (message bus' 0).code ≡ 2)
    × (get_minor (message bus' 0).code ≡ 0x101)
    × ((message bus' 0).seq ≡ 9)
    × ((message bus' 0).dst ≡ 301)
    × ((message bus' 0).smart_payload ≡ 0x8040)
    × ((message bus' 0).ref ≡ 1)
    × (bus'.pool.msg_list ≡ link_from 31 1 [])
unfolding get_mblue_message_list_instance mblue_message_init link_from find_bus
send_message_lem_example =
    send_message_lem ipc 40 9 sync_call 2 0x101 0x8040 7000 0 0 0 301 pool-IsPool refl
      (λ e. omega arith) refl refl (λ e. omega arith) (omega arith) (omega arith) (omega arith)
      idle-IsTask (omega arith) (λ e. (λ h. omega arith, refl))

abbrev service : Service
service = record {
  signal_handler = λ f payload. ok;
  layout_index = λ payload. some 4;
  data_parser = λ index payload f. (true, 0xFFFFFF01);
  ipc_return = λ major seq ret. ok;
}

-- Message 0 is a call of method 0x101 of segment 2 with a payload at 0x8040.
abbrev segment : Segment
segment = record {
  major = 2;
  context = 10;
  processing_msg = none;
  items_array =
      λ type. record { id = 0x101; handler = 900 } ∷ record { id = end_item_id; handler = 0 } ∷ [];
  handler_array = λ type. MessageHandler.unset;
  pool = record pool {
    mblue_message_pool =
        λ i. record zero_message { seq = 9; ref = 2; code = 0x20020101; smart_payload = 0x8040 };
  };
  freed = [];
  calls = [];
  returned = [];
}

-- The method answers with the integer word of MBLUE_REMOTE_CALL_PENDING, and is answered all the same.
default_ipc_handler_lem_example :
    (rc : Errcode) × (ms' : Segment) × (default_ipc_handler service segment 0 ≡ some (rc, ms'))
    × (ms'.calls
        ≡ []
          ++ map
              (λ f. (f, (received segment 0).smart_payload))
              (methods segment (received segment 0)))
    × (ms'.returned
        ≡ []
          ++ map (answer_of service (received segment 0) 4) (methods segment (received segment 0)))
    × (ms'.freed ≡ [] ++ payload_blocks (received segment 0))
    × (ms'.pool ≡ mblue_message_release segment.pool 0)
unfolding read_header pb_payload get_minor
default_ipc_handler_lem_example =
    default_ipc_handler_lem service segment 0 4 refl (inl (omega arith)) (λ f. omega arith)

default_signal_handler_lem_example :
    let (rc, ms') = default_signal_handler service segment 0 in
    (ms'.calls
      ≡ []
        ++ map
            (λ f. (f, (received segment 0).smart_payload))
            (first_of (serving (get_minor (received segment 0).code) (segment.items_array signal))))
    × (ms'.freed ≡ [] ++ payload_blocks (received segment 0))
    × (ms'.pool ≡ mblue_message_release segment.pool 0)
    × (ms'.returned ≡ [])
default_signal_handler_lem_example = default_signal_handler_lem service segment 0
