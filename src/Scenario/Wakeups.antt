-- ===== src/Scenario/Wakeups.antt =====
-- The delayed work is done at every wakeup of its timer.
use mblue.Common.{
  ℕ, zero, suc, ◌%◌, ◌^◌, ◌<◌, ◌≡◌, ◌≢◌, refl, sym, ap, ◌∙◌, Bool, true, false, List, [], ◌∷◌, ◌++◌,
  append_assoc, append-nil, replicate, Option, none, some, update, ◌==◌, if◌then◌else◌, arith,
}
use mblue.Errcode.{Errcode, ok}
use mblue.SmartData.{get_pointer, make_pointer_s, get_pointer-make_pointer}
use mblue.Timer.{
  PosixTimer, MblueTimer, TimerList, mblue_timer_get, platform_timer_init, platform_timer_start,
}
use mblue.EventQueue.{
  Element, EventQueue, Client, event_queue_init, event_queue_wakeup, event_queue_add, arm, link,
  start_timer, start, wake_first, run_chain, after_wakeup, event_queue_get_pending_event,
}
use mblue.EventQueue.Helper.{
  schedule_default_event, schedule_delayed_event_with_type, delayed_element, init_event_element,
  event_delayed_event,
}
use mblue.Scenario.{
  Code, handlers, delayed_work, element_at, timed_out, wake_element, timer_wakeup, scenario_launch,
}

-- The element that the launch links, at address `a` with the timer `t`.
abbrev pub work : Code → ℕ → ℕ → Element
work code a t = record (delayed_element 1000 event_delayed_event code.delayed_work_at) {
  address = a;
  tick = some t;
}

-- The queue with that element alone.
abbrev pub waiting : Code → ℕ → ℕ → EventQueue → EventQueue
waiting code a t q = record q { queue = work code a t ∷ []; event_bm = event_delayed_event }

abbrev pub worked : Code → ℕ → EventQueue → EventQueue
worked code a q = record q { calls = q.calls ++ ((code.delayed_work_at, a, timed_out) ∷ []) }

itself : (p : ℕ) → (p == p) ≡ true
itself p = ground arith

not_null : (p : ℕ) → p ≢ 0 → (p == 0) ≡ false
not_null p ne = ground (arith, ne)

run_work :
    (code : Code) (timer_create : ℕ → Bool) (timer_block : ℕ → ℕ) (a t : ℕ)
    → code.delayed_work_at ≢ 0
    → run_chain (handlers timer_create timer_block) (work code a t) timed_out
      ≡ (ok, code.delayed_work_at ∷ [])
unfolding run_chain after_wakeup delayed_element init_event_element delayed_work
run_work code timer_create timer_block a t there = rw (not_null code.delayed_work_at there) refl

wake_work :
    (code : Code) (timer_create : ℕ → Bool) (timer_block : ℕ → ℕ) (a t : ℕ) (q : EventQueue)
    → code.delayed_work_at ≢ 0
    → event_queue_wakeup
        (handlers timer_create timer_block)
        (waiting code a t q)
        event_delayed_event
        timed_out
      ≡ (ok, worked code a (waiting code a t q))
unfolding event_queue_wakeup wake_first delayed_element init_event_element
wake_work code timer_create timer_block a t q there =
    rw (run_work code timer_create timer_block a t there) refl

found : (code : Code) (a t : ℕ) → element_at a (work code a t ∷ []) ≡ some (work code a t)
unfolding element_at
found code a t = rw (itself a) refl

wakeup_step :
    (code : Code) (timer_create : ℕ → Bool) (timer_block : ℕ → ℕ) (a t : ℕ) (q : EventQueue)
    → code.delayed_work_at ≢ 0
    → a < 2 ^ 32
    → a % 4 ≡ 0
    → a ≢ 0
    → timer_wakeup (handlers timer_create timer_block) (waiting code a t q) (make_pointer_s a)
      ≡ some (ok, waiting code a t (worked code a q))
unfolding timer_wakeup wake_element delayed_element
wakeup_step code timer_create timer_block a t q there small aligned ne =
    let tagged = get_pointer-make_pointer a small aligned ne in
    let c = handlers timer_create timer_block in
    ap
      (λ (b : Bool).
        if b
        then wake_element c (waiting code a t q)
            (element_at (get_pointer (make_pointer_s a)) (work code a t ∷ []))
        else some (ok, waiting code a t q))
      tagged.3
    ∙ ap (λ (p : ℕ). wake_element c (waiting code a t q) (element_at p (work code a t ∷ [])))
        tagged.1
    ∙ ap (λ (o : Option Element). wake_element c (waiting code a t q) o) (found code a t)
    ∙ ap (λ (r : Errcode × EventQueue). some (ok, r.1))
        (wake_work code timer_create timer_block a t q there)

-- The signals of the timer one after the other.
abbrev pub wakeups : ℕ → Client → EventQueue → ℕ → Option EventQueue
wakeups zero c q data_word = some q
wakeups (suc n) c q data_word = elim (timer_wakeup c q data_word) [
  | none ↦ none
  | some (rc, q') ↦ wakeups n c q' data_word
]

abbrev pub works : Code → ℕ → ℕ → EventQueue → EventQueue
works code a n q = record q { calls = q.calls ++ replicate n (code.delayed_work_at, a, timed_out) }

wakeups_lem :
    (n : ℕ) (code : Code) (timer_create : ℕ → Bool) (timer_block : ℕ → ℕ) (a t : ℕ) (q : EventQueue)
    → code.delayed_work_at ≢ 0
    → a < 2 ^ 32
    → a % 4 ≡ 0
    → a ≢ 0
    → wakeups n (handlers timer_create timer_block) (waiting code a t q) (make_pointer_s a)
      ≡ some (waiting code a t (works code a n q))
wakeups_lem zero code timer_create timer_block a t q there small aligned ne =
    ap (λ (calls : List (ℕ × ℕ × ℕ)). some (waiting code a t (record q { calls = calls })))
      (sym (append-nil q.calls))
wakeups_lem (suc n) code timer_create timer_block a t q there small aligned ne =
    let call : ℕ × ℕ × ℕ = (code.delayed_work_at, a, timed_out) in
    ap
      (λ (o : Option (Errcode × EventQueue)). elim o [
        | none ↦ none
        | some (rc, q') ↦ wakeups n (handlers timer_create timer_block) q' (make_pointer_s a)
      ])
      (wakeup_step code timer_create timer_block a t q there small aligned ne)
    ∙ wakeups_lem n code timer_create timer_block a t (worked code a q) there small aligned ne
    ∙ ap (λ (calls : List (ℕ × ℕ × ℕ)). some (waiting code a t (record q { calls = calls })))
        (append_assoc q.calls (call ∷ []) (replicate n call))

-- The timer of the work in the block at `block`: it runs, with 1 second to the first signal and 1
-- second from each to the next, and its handler gets the element at `a`.
abbrev pub running : Code → ℕ → ℕ → PosixTimer
running code a block = record {
  block = block;
  value_sec = 1;
  value_nsec = 0;
  interval_sec = 1;
  interval_nsec = 0;
  notify = code.default_timer_event_at;
  param = a;
  armed = true;
}

-- The queue after the launch, its timer running.
abbrev pub launched : Code → EventQueue → ℕ → ℕ → ℕ → TimerList → ℕ → EventQueue
launched code q ms a t l block = waiting code a t (record q {
  context = ms;
  timer_function = code.default_timer_event_at;
  timers = record l {
    timer_pool =
        update l.timer_pool t (record (l.timer_pool t) { obj = some (running code a block) });
  };
})

-- The end of the launch, from the answer of `init`.
abbrev linked :
    Code
    → Client
    → EventQueue
    → ℕ
    → ℕ
    → TimerList
    → ℕ
    → Option MblueTimer
    → Option (Errcode × EventQueue)
linked code c q ms a l t timer =
    link c (record (event_queue_init q ms) { timer_function = code.default_timer_event_at })
      (delayed_element 1000 event_delayed_event code.delayed_work_at) a (start_timer l t timer)

-- The end of the launch, from the timer that the pool hands out.
abbrev armed :
    Code
    → (ℕ → Bool)
    → (ℕ → ℕ)
    → EventQueue
    → ℕ
    → ℕ
    → Option ℕ × TimerList
    → Option (Errcode × EventQueue)
armed code timer_create timer_block q ms a x =
    link (handlers timer_create timer_block)
      (record (event_queue_init q ms) { timer_function = code.default_timer_event_at })
      (delayed_element 1000 event_delayed_event code.delayed_work_at) a
      (elim x.0 [
        | none ↦ none
        | some t ↦ start_timer x.1 t (
            platform_timer_init (timer_create t) (timer_block t) 1000 true
              code.default_timer_event_at a (x.1.timer_pool t))
      ])

-- The timer that is set up and not yet started.
init_lem :
    (code : Code) (created : Bool) (block a : ℕ) (timer : MblueTimer)
    → created ≡ true
    → block ≢ 0
    → platform_timer_init created block 1000 true code.default_timer_event_at a timer
      ≡ some (record timer { obj = some (record (running code a block) { armed = false }) })
unfolding platform_timer_init
init_lem code created block a timer creates room = rw (creates, not_null block room) refl

launch_lem :
    (code : Code) (timer_create : ℕ → Bool) (timer_block : ℕ → ℕ) (a t ms : ℕ) (q : EventQueue)
    (l : TimerList)
    → mblue_timer_get q.timers ≡ (some t, l)
    → timer_create t ≡ true
    → timer_block t ≢ 0
    → scenario_launch code (handlers timer_create timer_block) q ms (some a)
      ≡ some (ok, launched code q ms a t l (timer_block t))
unfolding scenario_launch event_queue_init schedule_default_event schedule_delayed_event_with_type
    event_queue_get_pending_event event_queue_add arm link start delayed_element init_event_element
    start_timer platform_timer_start
launch_lem code timer_create timer_block a t ms q l got creates room =
    ap (λ (x : Option ℕ × TimerList). armed code timer_create timer_block q ms a x) got
    ∙ ap (λ (o : Option MblueTimer). linked code (handlers timer_create timer_block) q ms a l t o)
        (init_lem code (timer_create t) (timer_block t) a (l.timer_pool t) creates room)

-- The delayed work of the simple scenario never ends: when the heap, the kernel and the pool of timers
-- answer the launch, one element is linked and its timer runs, with 1 second to the first signal and
-- from each to the next, for the element; after any number of signals of that timer `delayed_work`
-- has been called as often, with MBLUE_ERR_TIMEOUT as an integer, while the element is still linked
-- and nothing is freed. The element's address is aligned and no function stands at NULL.
pub scenario_launch-wakeups :
    (n : ℕ) (code : Code) (timer_create : ℕ → Bool) (timer_block : ℕ → ℕ) (a t ms : ℕ)
    (q : EventQueue) (l : TimerList)
    → mblue_timer_get q.timers ≡ (some t, l)
    → timer_create t ≡ true
    → timer_block t ≢ 0
    → code.delayed_work_at ≢ 0
    → a < 2 ^ 32
    → a % 4 ≡ 0
    → a ≢ 0
    → (scenario_launch code (handlers timer_create timer_block) q ms (some a)
        ≡ some (ok, launched code q ms a t l (timer_block t)))
      × (wakeups n
            (handlers timer_create timer_block)
            (launched code q ms a t l (timer_block t))
            (make_pointer_s a)
          ≡ some (works code a n (launched code q ms a t l (timer_block t))))
scenario_launch-wakeups n code timer_create timer_block a t ms q l got creates room there small
      aligned ne =
    (
      launch_lem code timer_create timer_block a t ms q l got creates room,
      wakeups_lem n code timer_create timer_block a t (launched code q ms a t l (timer_block t))
          there small aligned ne,
    )
