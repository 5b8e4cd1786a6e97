-- ===== src/Tests/Events.antt =====
-- A run of the event queue: two events are added, one delayed, and woken, deleted and rescheduled.
use mblue.Common.{
  ◌≡◌, refl, true, false, Option, some, none, [], ◌∷◌, ◌++◌, ◌==◌, arith, if◌then◌else◌,
}
use mblue.Message.Pool.{link_from}
use mblue.SmartData.{pb_payload}
use mblue.Errcode.{Errcode, ok, element_exit}
use mblue.Timer.{
  TimerList, zero_timer, get_timer_list_instance, mblue_timer_get, take_first, platform_timer_init,
  platform_timer_start,
}
use mblue.EventQueue.{
  Element, EventQueue, Client, find_type, event_queue_init, event_queue_add, event_queue_delete,
  delete_loop, event_queue_get_element, event_queue_wakeup, arm, link, start, wake_first, run_chain,
  after_wakeup, free_event_element, blocks_of, release_tick, start_timer,
}
use mblue.EventQueue.Delete.{IsEventQueue, other_types}
use mblue.EventQueue.Helper.{reschedule_delayed_event_with_type}
use mblue.EventQueue.Reschedule.{reschedule_lem}
use mblue.EventQueue.Wakeup.{Reach, Reach-IsEventQueue}

-- The handler at address 900 ends its element, the others keep it; every timer is created.
abbrev client : Client
client = record {
  handle = λ f e param. if f == 900 then element_exit else ok;
  timer_create = λ t. true;
  timer_block = λ t. 96;
}

abbrev no_timers : TimerList
no_timers = record { ready = false; timer_lists = []; timer_pool = λ i. zero_timer }

abbrev raw : EventQueue
raw = record {
  self = 500;
  event_bm = 7;
  queue = [];
  context = 0;
  timer_function = 0;
  timers = no_timers;
  freed = [];
  calls = [];
}

-- An event of type 1 that waits, and a delayed one of type 2.
abbrev waiting : Element
waiting = record {
  address = 0;
  type = 1;
  mode = 1;
  period = 0;
  tick = none;
  src = 0;
  smart_data = 0x8040;
  call_chain = 0 ∷ 900 ∷ 0 ∷ 0 ∷ [];
}

abbrev delayed : Element
delayed = record waiting {
  type = 2;
  period = 100;
  smart_data = 0;
  call_chain = 0 ∷ 700 ∷ 0 ∷ 0 ∷ [];
}

abbrev queue_of : Option (Errcode × EventQueue) → EventQueue
queue_of none = raw
queue_of (some (ret, q)) = q

abbrev one_event : EventQueue
one_event = queue_of (event_queue_add client (event_queue_init raw 3) waiting (some 600))

abbrev two_events : EventQueue
two_events = queue_of (event_queue_add client one_event delayed (some 700))

one_event-Reach : Reach client one_event
unfolding event_queue_add event_queue_init arm link start
one_event-Reach = Reach.added waiting (some 600) (Reach.init raw 3) (omega arith) refl

two_events-Reach : Reach client two_events
unfolding event_queue_add event_queue_init arm link start mblue_timer_get get_timer_list_instance
    take_first link_from start_timer platform_timer_init platform_timer_start
two_events-Reach = Reach.added delayed (some 700) one_event-Reach (omega arith) refl

-- The element of type 2 is deleted: the block of its timer and itself are freed.
deleted_timed : (event_queue_delete two_events 2).1.freed ≡ 96 ∷ 700 ∷ []
unfolding event_queue_delete delete_loop free_event_element blocks_of release_tick event_queue_add
    event_queue_init arm link start mblue_timer_get get_timer_list_instance take_first link_from
    start_timer platform_timer_init platform_timer_start pb_payload
deleted_timed = refl

-- The element of type 1 ends: its payload and itself are freed.
woken_once : (event_queue_wakeup client two_events 1 55).1.freed ≡ 0x8040 ∷ 600 ∷ []
unfolding event_queue_wakeup wake_first run_chain after_wakeup free_event_element blocks_of
    release_tick event_queue_add event_queue_init arm link start mblue_timer_get
    get_timer_list_instance take_first link_from start_timer platform_timer_init
    platform_timer_start pb_payload
woken_once = refl

Reach-IsEventQueue_example : IsEventQueue (event_queue_wakeup client two_events 1 55).1
Reach-IsEventQueue_example =
    Reach-IsEventQueue client (Reach.woken 1 55 two_events-Reach (omega arith))

abbrev waiting_here : Element
waiting_here = record waiting { address = 600 }

abbrev delayed_here : Element
delayed_here = record delayed { address = 700; tick = some 0 }

reschedule_lem_example :
    (one : Element) × (q' : EventQueue) × (reschedule_delayed_event_with_type client two_events 250
        2 710
        (some 800)
      ≡ some (ok, q'))
    × (q'.queue ≡ other_types 2 two_events.queue ++ (one ∷ []))
    × (one.type ≡ 2)
    × (one.period ≡ 250)
    × (one.call_chain ≡ 0 ∷ 710 ∷ 0 ∷ 0 ∷ [])
    × (one.address ≡ 800)
unfolding event_queue_get_element find_type event_queue_add event_queue_init arm link start
    mblue_timer_get get_timer_list_instance take_first link_from start_timer platform_timer_init
    platform_timer_start
reschedule_lem_example =
    reschedule_lem client two_events 250 2 710 800 (omega arith)
      (Reach-IsEventQueue client two_events-Reach) (refl) refl (λ e. omega arith)
      (λ i e. omega arith)
