-- ===== src/Tests/Scenario.antt =====
-- A run of the simple scenario: it is launched and woken twice.
use mblue.Common.{◌≡◌, refl, true, false, some, [], arith}
use mblue.Errcode.{ok}
use mblue.SmartData.{make_pointer_s}
use mblue.Message.Pool.{link_from}
use mblue.Timer.{TimerList, zero_timer, mblue_timer_get, get_timer_list_instance, take_first}
use mblue.EventQueue.{EventQueue}
use mblue.Segment.{Segment, init_segment, find_handler}
use mblue.Scenario.{Code, handlers, scenario_launch, scenario_init, timer_wakeup_minor}
use mblue.Scenario.Wakeups.{wakeups, works, launched, scenario_launch-wakeups}
use mblue.SystemBus.{signal}

abbrev code : Code
code = record { delayed_work_at = 0x100; timer_wakeup_at = 0x200; default_timer_event_at = 0x300 }

abbrev no_timers : TimerList
no_timers = record { ready = false; timer_lists = []; timer_pool = λ i. zero_timer }

abbrev queue : EventQueue
queue = record {
  self = 500;
  event_bm = 7;
  queue = [];
  context = 0;
  timer_function = 0;
  timers = no_timers;
  freed = [];
  calls = [];
}

handled :
    (ms : Segment)
    → find_handler timer_wakeup_minor ((scenario_init code ms).items_array signal) ≡ some 0x200
unfolding find_handler scenario_init init_segment
handled ms = refl

scenario_launch-wakeups_example :
    (scenario_launch code (handlers (λ t. true) (λ t. 96)) queue 40 (some 64)
      ≡ some (ok, launched code queue 40 64 0 (mblue_timer_get no_timers).1 96))
    × (wakeups 2
          (handlers (λ t. true) (λ t. 96))
          (launched code queue 40 64 0 (mblue_timer_get no_timers).1 96)
          (make_pointer_s 64)
        ≡ some (works code 64 2 (launched code queue 40 64 0 (mblue_timer_get no_timers).1 96)))
unfolding mblue_timer_get get_timer_list_instance take_first link_from
scenario_launch-wakeups_example =
    scenario_launch-wakeups 2 code (λ t. true) (λ t. 96) 64 0 40 queue (mblue_timer_get no_timers).1
      refl refl (λ e. omega arith) (λ e. omega arith) (omega arith) refl (λ e. omega arith)
