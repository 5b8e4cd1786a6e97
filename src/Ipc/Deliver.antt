-- ===== src/Ipc/Deliver.antt =====
-- A message that is sent without a destination arrives at the task of the system bus.
use mblue.Common.{
  ℕ, ◌^◌, ◌<◌, ◌≡◌, ◌≢◌, refl, sym, ap, ◌∙◌, Bool, true, ◌||◌, Option, some, List, [], ◌∷◌, ◌++◌,
  arith, ◌==◌, ==_iff, if◌then◌else◌, update, ltb, inl, inr, Bool-cases,
}
use mblue.Errcode.{ok}
use mblue.Message.Code.{make_code, get_type, get_major, get_minor, get-make_code}
use mblue.Message.Pool.{
  Message, MessageList, write, mblue_message_alloc, mblue_message_get,
  get_mblue_message_list_instance, take_first,
}
use mblue.Message.Pool.Conservation.{IsPool, without_first}
use mblue.MessageQueue.Refines.{contents}
use mblue.SystemBus.{Bus, message, sync_call, async_call}
use mblue.Task.{Task, pointer, template_msg_post, template_pend}
use mblue.Task.Loop.{IsTask, template_msg_post_lem}
use mblue.Ipc.{
  Ipc, Sent, code, waits, init_message, find_bus, post_message, wait_return, ipc_invoke,
  send_message, union_of, set_dst,
}

-- The message as it is filled in, for the bus segment `b`.
abbrev pub filled : ℕ → ℕ → ℕ → ℕ → ℕ → ℕ → ℕ → ℕ → ℕ → ℕ → Message
filled src seq type major minor b input out extra pn = record {
  seq = seq;
  ref = if (type == sync_call) || (type == async_call) then 1 else 0;
  code = make_code type major minor;
  src = src;
  dst = b;
  smart_payload = input;
  extra = union_of type out extra pn;
}

module _ (bus : Bus) (dst i : ℕ) where
  abbrev posted : Bus
  posted = record bus { tasks = update bus.tasks dst (template_msg_post (bus.tasks dst) i).1 }

  post_message-sent :
      dst ≢ 0
      → (bus.tasks dst).nproc ≡ true
      → get_type (message bus i).code ≢ sync_call
      → post_message bus dst i ≡ some (code ok, posted)
  unfolding post_message template_msg_post
  post_message-sent there nproc type = ground (arith, there, nproc, type)

  post_message-waits :
      dst ≢ 0
      → (bus.tasks dst).nproc ≡ true
      → get_type (message bus i).code ≡ sync_call
      → (message bus i).src ≢ 0
      → (bus.tasks (message bus i).src).call_sem ≡ 0
      → post_message bus dst i ≡ some (waits, posted)
  unfolding post_message template_msg_post wait_return template_pend
  post_message-waits there nproc type caller idle = ground (arith, there, nproc, type, caller, idle)

alloc_first :
    (l : MessageList) {used : List ℕ} (i : ℕ) (rest : List ℕ)
    → IsPool l used
    → l.msg_list ≡ i ∷ rest
    → mblue_message_alloc l ≡ (some i, without_first l i rest)
unfolding mblue_message_alloc mblue_message_get get_mblue_message_list_instance take_first
alloc_first l i rest v free = ground (arith, v.is_ready, v.counted, free)

module _ (ipc : Ipc) (src seq type major minor input out extra pn i b : ℕ) {used rest : List ℕ}
    (v : IsPool ipc.bus.pool used) (free : ipc.bus.pool.msg_list ≡ i ∷ rest)
    (present : ipc.main_task ≢ 0) (nproc : (ipc.bus.tasks ipc.main_task).nproc ≡ true)
    (routed : find_bus ipc.major (ipc.segments ipc.main_task) ≡ some b) (bound : b ≢ 0) where
  -- The bus with the message that `init_message` fills in.
  abbrev initialised : Bus
  initialised = record ipc.bus {
    pool =
        write (without_first ipc.bus.pool i rest) i
          (filled src seq type major minor 0 input out extra pn);
  }

  abbrev addressed : Bus
  addressed = set_dst initialised i b

  init_message_first :
      init_message ipc.bus.pool src seq type major minor 0 input out extra pn
      ≡ (some i, initialised.pool)
  unfolding init_message
  init_message_first =
      let taken = alloc_first ipc.bus.pool i rest v free in
      let got = ap (λ (t : Option ℕ × MessageList). t.0) taken in
      let left = ap (λ (t : Option ℕ × MessageList). t.1) taken in rw (got, left, init_message) refl

  invoke_unaddressed :
      ipc_invoke (record ipc { bus = initialised }) i ≡ post_message addressed ipc.main_task i
  unfolding ipc_invoke
  invoke_unaddressed = ground (routed, present, bound, arith)

  sends :
      send_message ipc src seq type major minor 0 input out extra pn
      ≡ post_message addressed ipc.main_task i
  unfolding send_message
  sends =
      let got = ap (λ (t : Option ℕ × MessageList). t.0) init_message_first in
      let left = ap (λ (t : Option ℕ × MessageList). t.1) init_message_first in
      rw (got, left, send_message) invoke_unaddressed

  arrived : message addressed i ≡ filled src seq type major minor b input out extra pn
  arrived = ground arith

  abbrev told : Bool → Option (Sent × Bus)
  told sync = some (if sync then waits else code ok, posted addressed ipc.main_task i)

  outcome :
      get_type (message addressed i).code ≡ type
      → (type ≡ sync_call → (src ≢ 0) × ((ipc.bus.tasks src).call_sem ≡ 0))
      → send_message ipc src seq type major minor 0 input out extra pn
        ≡ some (if type == sync_call then waits else code ok, posted addressed ipc.main_task i)
  outcome same_type idle = elim (Bool-cases (type == sync_call)) [
    | inl hit ↦
        let sync = (==_iff type sync_call).0 hit in
        let from : (message addressed i).src ≡ src = ap (λ (m : Message). m.src) arrived in
        let caller : (message addressed i).src ≢ 0 = λ e. (idle sync).0 (sym from ∙ e) in
        let no_return : (ipc.bus.tasks (message addressed i).src).call_sem ≡ 0 =
          ap (λ (t : ℕ). (ipc.bus.tasks t).call_sem) from ∙ (idle sync).1 in
        sends
        ∙ post_message-waits addressed ipc.main_task i present nproc (same_type ∙ sync) caller
            no_return
        ∙ ap told (sym hit)
    | inr miss ↦
        let other : type ≢ sync_call = ground (miss, arith) in
        sends
        ∙ post_message-sent addressed ipc.main_task i present nproc (λ e. other (sym same_type ∙ e))
        ∙ ap told (sym miss)
  ]

  waiting :
      IsTask (ipc.bus.tasks ipc.main_task)
      → (ipc.bus.tasks ipc.main_task).mq.size < (ipc.bus.tasks ipc.main_task).mq.capacity
      → contents ((posted addressed ipc.main_task i).tasks ipc.main_task).mq
        ≡ contents (ipc.bus.tasks ipc.main_task).mq ++ (pointer i ∷ [])
  waiting well room =
      let (status, holds, valid) = template_msg_post_lem (ipc.bus.tasks ipc.main_task) i well in
      let fits : ltb (ipc.bus.tasks ipc.main_task).mq.size (ipc.bus.tasks ipc.main_task).mq.capacity
          ≡ true =
        ground (room, arith) in
      let here : (posted addressed ipc.main_task i).tasks ipc.main_task
          ≡ (template_msg_post (ipc.bus.tasks ipc.main_task) i).1 =
        ground arith in
      ap (λ (t : Task). contents t.mq) here ∙ rw fits at holds

  -- A message without a destination, of a type below 16, a major number below 2 ^ 12 and a minor
  -- number below 2 ^ 16, when the pool has a free message, the task of the bus has room, and the
  -- caller of a synchronous call is a task without a return left to take. It is the first free message of the pool; it is
  -- posted behind those that wait in the queue of the bus, holds the type, the numbers, the payload
  -- and the segment of the bus, and has one reference if it is a call and none otherwise. The sender
  -- of a synchronous call waits, every other sender is told MBLUE_OK.
  pub send_message_lem :
      type < 16
      → major < 2 ^ 12
      → minor < 2 ^ 16
      → IsTask (ipc.bus.tasks ipc.main_task)
      → (ipc.bus.tasks ipc.main_task).mq.size < (ipc.bus.tasks ipc.main_task).mq.capacity
      → (type ≡ sync_call → (src ≢ 0) × ((ipc.bus.tasks src).call_sem ≡ 0))
      → (bus' : Bus) × (sent : Sent) × (send_message ipc src seq type major minor 0 input out extra
            pn
          ≡ some (sent, bus'))
        × (sent ≡ (if type == sync_call then waits else code ok))
        × (contents (bus'.tasks ipc.main_task).mq
            ≡ contents (ipc.bus.tasks ipc.main_task).mq ++ (pointer i ∷ []))
        × (get_type (message bus' i).code ≡ type)
        × (get_major (message bus' i).code ≡ major)
        × (get_minor (message bus' i).code ≡ minor)
        × ((message bus' i).seq ≡ seq)
        × ((message bus' i).dst ≡ b)
        × ((message bus' i).smart_payload ≡ input)
        × ((message bus' i).ref ≡ (if (type == sync_call) || (type == async_call) then 1 else 0))
        × (bus'.pool.msg_list ≡ rest)
  send_message_lem ht hm hn well room idle =
      let (type_of, major_of, minor_of) = get-make_code type major minor ht hm hn in
      let bus' = posted addressed ipc.main_task i in
      let same_type : get_type (message addressed i).code ≡ type =
        ap (λ (m : Message). get_type m.code) arrived ∙ type_of in
      (
        bus',
        if type == sync_call then waits else code ok,
        outcome same_type idle,
        refl,
        waiting well room,
        same_type,
        ap (λ (m : Message). get_major m.code) arrived ∙ major_of,
        ap (λ (m : Message). get_minor m.code) arrived ∙ minor_of,
        ap (λ (m : Message). m.seq) arrived,
        ap (λ (m : Message). m.dst) arrived,
        ap (λ (m : Message). m.smart_payload) arrived,
        ap (λ (m : Message). m.ref) arrived,
        refl,
      )
