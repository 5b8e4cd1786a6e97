-- ===== src/EventQueue/Helper.antt =====
-- middleware/components/event_queue/event_helper.c: the calls by which tasks wait for events and
-- schedule delayed ones. Each fills an element and adds it, `fresh` being the answer of
-- `mblue_malloc`; `none` is the call through NULL of `event_queue_add`.
use mblue.Common.{ℕ, Option, none, some, List, [], ◌∷◌, ◌==◌, if◌then◌else◌, bit_and}
use mblue.Errcode.{Errcode, ok, err_invalid_parameter}
use mblue.EventQueue.{
  Element, EventQueue, Client, event_queue_add, event_queue_delete, event_queue_get_pending_event,
}

abbrev pub event_mode_pending_event : ℕ
event_mode_pending_event = 0

abbrev pub event_mode_periodical : ℕ
event_mode_periodical = 1

abbrev pub event_delayed_event : ℕ
event_delayed_event = 0x80000000

-- `INIT_EVENT_ELEMENT_WITH`, the address and the timer to be filled in
unfoldable pub init_event_element : ℕ → ℕ → ℕ → ℕ → ℕ → List ℕ → Element
init_event_element type mode period src smart_data call_chain = record {
  address = 0;
  type = type;
  mode = mode;
  period = period;
  tick = none;
  src = src;
  smart_data = smart_data;
  call_chain = call_chain;
}

-- the element of the delayed events
unfoldable pub delayed_element : ℕ → ℕ → ℕ → Element
unfolding init_event_element
delayed_element timeout type delayed_event =
    init_event_element type event_mode_periodical timeout 0 0 (0 ∷ delayed_event ∷ 0 ∷ 0 ∷ [])

module _ (c : Client) (q : EventQueue) where
  unfoldable pub add_pending_event :
      ℕ → ℕ → ℕ → ℕ → ℕ → ℕ → ℕ → ℕ → Option ℕ → Option (Errcode × EventQueue)
  unfolding init_event_element
  add_pending_event type timeout msg smart_data start_cb awaken_cb cancel_cb finish_cb =
      event_queue_add c q (
        init_event_element type event_mode_pending_event timeout msg smart_data
          (start_cb ∷ awaken_cb ∷ cancel_cb ∷ finish_cb ∷ []))

  unfoldable pub add_simple_pending_event : ℕ → ℕ → ℕ → Option ℕ → Option (Errcode × EventQueue)
  unfolding init_event_element
  add_simple_pending_event type msg finish_cb =
      event_queue_add c q
        (init_event_element type event_mode_pending_event 0 msg 0 (0 ∷ 0 ∷ 0 ∷ finish_cb ∷ []))

  unfoldable pub schedule_event : ℕ → ℕ → ℕ → ℕ → Option ℕ → Option (Errcode × EventQueue)
  unfolding init_event_element
  schedule_event type timeout smart_data delayed_event = event_queue_add c q (
      init_event_element type event_mode_periodical timeout 0 smart_data
        (0 ∷ delayed_event ∷ 0 ∷ 0 ∷ []))

  unfoldable pub schedule_delayed_event_with_type :
      ℕ → ℕ → ℕ → Option ℕ → Option (Errcode × EventQueue)
  unfolding event_queue_get_pending_event delayed_element
  schedule_delayed_event_with_type timeout type delayed_event fresh =
      if bit_and (event_queue_get_pending_event q) type == 0
      then event_queue_add c q (delayed_element timeout type delayed_event) fresh
      else some (ok, q)

  unfoldable pub cancel_delayed_event : ℕ → Errcode × EventQueue
  unfolding event_queue_get_pending_event
  cancel_delayed_event event =
      if bit_and (event_queue_get_pending_event q) event == 0
      then (err_invalid_parameter, q)
      else event_queue_delete q event

unfoldable pub schedule_default_event :
    Client → EventQueue → ℕ → ℕ → Option ℕ → Option (Errcode × EventQueue)
unfolding schedule_delayed_event_with_type
schedule_default_event c q timeout delayed_event =
    schedule_delayed_event_with_type c q timeout event_delayed_event delayed_event

unfoldable pub reschedule_delayed_event_with_type :
    Client → EventQueue → ℕ → ℕ → ℕ → Option ℕ → Option (Errcode × EventQueue)
unfolding event_queue_get_pending_event
reschedule_delayed_event_with_type c q timeout type delayed_event =
    schedule_delayed_event_with_type c
      (if bit_and (event_queue_get_pending_event q) type == 0
        then q
        else (event_queue_delete q type).1)
      timeout type delayed_event
