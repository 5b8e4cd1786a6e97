-- ===== src/Scenario.antt =====
-- app/scenario/simple_scenario.c: a segment that schedules delayed work in an event queue, and the
-- signal of the timer that wakes it. The functions are known by their addresses.
pub mod Wakeups
use mblue.Common.{ℕ, ◌+◌, Bool, List, [], ◌∷◌, Option, none, some, ◌==◌, if◌then◌else◌, update}
use mblue.Common.Words.{word}
use mblue.Errcode.{Errcode, ok, err_timeout}
use mblue.SmartData.{pointer_s, get_pointer, make_pointer_s, make_integer}
use mblue.EventQueue.{Element, EventQueue, Client, event_queue_init, event_queue_wakeup}
use mblue.EventQueue.Helper.{schedule_default_event}
use mblue.Message.Numbers.{timer_signal_base}
use mblue.Segment.{HandlerItem, Segment, init_segment, end_item_id}
use mblue.Ipc.{Ipc, Sent, target_signal}
use mblue.SystemBus.{signal, Bus}

-- Where the functions of the file and `default_timer_event` stand.
pub record Code : Type 0 where
  pub delayed_work_at : ℕ
  pub timer_wakeup_at : ℕ
  pub default_timer_event_at : ℕ

unfoldable pub delayed_work : Element → ℕ → Errcode
delayed_work e param = ok

-- The handlers that the elements of this queue have are `delayed_work` alone.
abbrev pub handlers : (ℕ → Bool) → (ℕ → ℕ) → Client
handlers timer_create timer_block = record {
  handle = λ f e param. delayed_work e param;
  timer_create = timer_create;
  timer_block = timer_block;
}

-- The element at an address; `none` when it is not linked any more.
unfoldable pub element_at : ℕ → List Element → Option Element
element_at p [] = none
element_at p (e ∷ es) = let later = element_at p es in if e.address == p then some e else later

abbrev pub timed_out : ℕ
timed_out = make_integer (word err_timeout)

-- The body of `timer_wakeup` at the element of the payload.
unfoldable pub wake_element : Client → EventQueue → Option Element → Option (Errcode × EventQueue)
unfolding event_queue_wakeup
wake_element c q none = none
wake_element c q (some e) = some (ok, (event_queue_wakeup c q e.type timed_out).1)

-- `timer_wakeup`; `none` where it reads an element that is gone.
unfoldable pub timer_wakeup : Client → EventQueue → ℕ → Option (Errcode × EventQueue)
unfolding pointer_s get_pointer element_at wake_element
timer_wakeup c q data_word =
    if pointer_s data_word
    then wake_element c q (element_at (get_pointer data_word) q.queue)
    else some (ok, q)

unfoldable pub scenario_launch :
    Code → Client → EventQueue → ℕ → Option ℕ → Option (Errcode × EventQueue)
unfolding event_queue_init schedule_default_event
scenario_launch code c q ms fresh =
    schedule_default_event c
      (record (event_queue_init q ms) { timer_function = code.default_timer_event_at }) 1000
      code.delayed_work_at fresh

abbrev pub simple_scenario : ℕ
simple_scenario = 3

abbrev pub timer_wakeup_minor : ℕ
timer_wakeup_minor = timer_signal_base + 1

abbrev pub message_source_timer : ℕ
message_source_timer = 0xEEF0

abbrev pub mblue_system : ℕ
mblue_system = 1

-- `default_timer_event` of event_helper.c for the element at `param`, whose queue has the segment
-- `context`: the signal of the timer. `seq` is the number of the message.
unfoldable pub default_timer_event : Ipc → ℕ → ℕ → ℕ → Option (Sent × Bus)
unfolding target_signal make_pointer_s
default_timer_event ipc seq param context =
    target_signal ipc message_source_timer seq mblue_system timer_wakeup_minor context
      (make_pointer_s param) 0

abbrev pub signal_items : Code → List HandlerItem
signal_items code =
    record { id = timer_wakeup_minor; handler = code.timer_wakeup_at }
    ∷ record { id = end_item_id; handler = 0 }
    ∷ []

unfoldable pub scenario_init : Code → Segment → Segment
unfolding init_segment
scenario_init code ms = record (init_segment ms) {
  major = simple_scenario;
  items_array = update (init_segment ms).items_array signal (signal_items code);
}
