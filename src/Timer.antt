-- ===== src/Timer.antt =====
-- pal/timer: the pool of timers of mblue_timer.c and the POSIX timers of custom_timer.h. A timer is
-- named by its place in `timer_pool`, `timer_lists` is the free ones in link order. What
-- `timer_create` of the kernel and `mblue_malloc` answer is a parameter.
use mblue.Common.{
  ℕ, ◌*◌, ◌/◌, ◌%◌, Bool, true, false, not, ◌||◌, ◌==◌, Option, none, some, List, [], ◌∷◌, ◌++◌,
  if◌then◌else◌, update,
}
use mblue.Message.Pool.{link_from}

-- `struct posix_timer` with its `itimerspec` in seconds and nanoseconds; `armed` is whether the
-- kernel runs it, `block` the address of the struct.
pub record PosixTimer : Type 0 where
  pub block : ℕ
  pub value_sec : ℕ
  pub value_nsec : ℕ
  pub interval_sec : ℕ
  pub interval_nsec : ℕ
  pub notify : ℕ
  pub param : ℕ
  pub armed : Bool

-- `struct mblue_timer`: `_obj` and `name`
pub record MblueTimer : Type 0 where
  pub name : ℕ
  pub obj : Option PosixTimer

pub record TimerList : Type 0 where
  pub ready : Bool
  pub timer_lists : List ℕ
  pub timer_pool : ℕ → MblueTimer

abbrev pub max_timer_num : ℕ
max_timer_num = 12

unfoldable pub get_timer_list_instance : TimerList → TimerList
get_timer_list_instance l =
    if l.ready then l else record l { ready = true; timer_lists = link_from max_timer_num 0 [] }

-- what `memset` leaves of a timer that is handed out
abbrev pub zero_timer : MblueTimer
zero_timer = record { name = 0; obj = none }

unfoldable pub take_first : TimerList → List ℕ → Option ℕ × TimerList
take_first l [] = (none, l)
take_first l (i ∷ rest) =
    (some i, record l { timer_lists = rest; timer_pool = update l.timer_pool i zero_timer })

-- `none` is NULL.
unfoldable pub mblue_timer_get : TimerList → Option ℕ × TimerList
unfolding get_timer_list_instance take_first
mblue_timer_get l = let ready = get_timer_list_instance l in take_first ready ready.timer_lists

unfoldable pub mblue_timer_release : TimerList → ℕ → TimerList
unfolding get_timer_list_instance
mblue_timer_release l i =
    let ready = get_timer_list_instance l in
    record ready { timer_lists = ready.timer_lists ++ (i ∷ []) }

-- `platform_timer_init`; the period is in milliseconds, `block` is the answer of `mblue_malloc`, and
-- `none` is a write through NULL.
unfoldable pub platform_timer_init : Bool → ℕ → ℕ → Bool → ℕ → ℕ → MblueTimer → Option MblueTimer
platform_timer_init created block period auto_reload notify data' timer =
    if not created
    then some timer
    else if block == 0
    then none
    else some (record timer {
      obj = some (record {
        block = block;
        value_sec = period / 1000;
        value_nsec = period % 1000 * 1000000;
        interval_sec = if auto_reload then period / 1000 else 0;
        interval_nsec = if auto_reload then period % 1000 * 1000000 else 0;
        notify = notify;
        param = data';
        armed = false;
      });
    })

unfoldable pub platform_timer_start : MblueTimer → MblueTimer
platform_timer_start timer = elim timer.obj [
  | none ↦ timer
  | some pt ↦ record timer { obj = some (record pt { armed = true }) }
]

-- The timer is disarmed and its block is freed: the blocks that are given back, and the timer.
unfoldable pub platform_timer_stop : MblueTimer → List ℕ × MblueTimer
platform_timer_stop timer =
    (elim timer.obj [ none ↦ [] | some pt ↦ pt.block ∷ [] ], record timer { obj = none })

-- `platform_timer_uninit`
unfoldable pub platform_timer_uninit : MblueTimer → List ℕ × MblueTimer
unfolding platform_timer_stop
platform_timer_uninit timer = platform_timer_stop timer

-- `remaining` is what `timer_gettime` answers, in seconds and nanoseconds, `none` when it fails.
unfoldable pub platform_timer_alive : Option (ℕ × ℕ) → MblueTimer → Bool
platform_timer_alive remaining timer = elim timer.obj [
  | none ↦ false
  | some pt ↦ elim remaining [ none ↦ false | some (sec, nsec) ↦ not (sec == 0) || not (nsec == 0) ]
]

-- The call of the handler in `__timer_notify`, with its argument.
unfoldable pub timer_notify : MblueTimer → Option (ℕ × ℕ)
timer_notify timer = elim timer.obj [ none ↦ none | some pt ↦ some (pt.notify, pt.param) ]

unfoldable pub mblue_timer_set_name : MblueTimer → ℕ → MblueTimer
mblue_timer_set_name timer name = record timer { name = name }

unfoldable pub timer_list_uninit : TimerList → TimerList
timer_list_uninit l = record l { timer_lists = [] }
