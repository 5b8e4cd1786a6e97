-- ===== src/EventQueue.antt =====
-- middleware/components/event_queue/event_queue.c: the queue of pending events of a task, with its
-- bit map of pending types.
--
-- The queue is the list of its elements in link order: `list_add_tail` appends, `list_del` of the
-- node that a loop stands at drops it from between the nodes before and behind it. The heap shows
-- as the blocks freed so far, in order. The handlers of a call chain and the kernel's
-- `timer_create` are the client's, a parameter, like the answers of the heap for the timers: a handler is called with the element and the
-- parameter, its call is logged, and it answers with a code; handlers that change the queue
-- themselves are outside of this model.
pub mod Bitmap
pub mod Delete
pub mod Handlers
pub mod Wakeup
pub mod Helper
pub mod Reschedule
use mblue.Common.{
  ℕ, zero, suc, ◌+◌, ◌-◌, Bool, true, false, not, ◌&&◌, ◌||◌, map, Option, none, some, List, [],
  ◌∷◌, ◌++◌, ◌==◌, if◌then◌else◌, update, get_or, bit_and, bit_or,
}
use mblue.Common.Int.{ℤ, pos, negsuc, int_eq}
use mblue.Common.Words.{not32}
use mblue.Errcode.{Errcode, ok, err_unknown, err_nomem, element_exit}
use mblue.SmartData.{pb_payload}
use mblue.Timer.{
  MblueTimer, TimerList, mblue_timer_get, mblue_timer_release, platform_timer_init,
  platform_timer_start, platform_timer_stop, platform_timer_uninit,
}

-- `struct event_queue_element` with its address; function pointers are addresses, and a place of
-- the call chain past its end reads as NULL.
pub record Element : Type 0 where
  pub address : ℕ
  pub type : ℕ
  pub mode : ℕ
  pub period : ℕ
  pub tick : Option ℕ
  pub src : ℕ
  pub smart_data : ℕ
  pub call_chain : List ℕ

-- `struct event_queue_head` at address `self`, the timers, the freed blocks, and the handler calls made: handler,
-- element and parameter.
pub record EventQueue : Type 0 where
  pub self : ℕ
  pub event_bm : ℕ
  pub queue : List Element
  pub context : ℕ
  pub timer_function : ℕ
  pub timers : TimerList
  pub freed : List ℕ
  pub calls : List (ℕ × ℕ × ℕ)

-- The code that the queue calls and that is not its own.
pub record Client : Type 0 where
  pub handle : ℕ → Element → ℕ → Errcode
  pub timer_create : ℕ → Bool
  pub timer_block : ℕ → ℕ

abbrev pub event_timeout_forever : ℕ
event_timeout_forever = 0xFFFFFFFF

abbrev pub call_start : ℕ
call_start = 0

abbrev pub call_wakeup : ℕ
call_wakeup = 1

abbrev pub call_cancel : ℕ
call_cancel = 2

abbrev pub call_finish : ℕ
call_finish = 3

abbrev pub chain : Element → ℕ → ℕ
chain e i = get_or e.call_chain i 0

unfoldable pub event_queue_init : EventQueue → ℕ → EventQueue
event_queue_init q context = record q { event_bm = 0; queue = []; context = context }

unfoldable pub event_queue_get_pending_event : EventQueue → ℕ
event_queue_get_pending_event q = q.event_bm

unfoldable pub find_type : ℕ → List Element → Option Element
find_type type [] = none
find_type type (e ∷ es) = if e.type == type then some e else find_type type es

unfoldable pub event_queue_get_element : EventQueue → ℕ → Option Element
unfolding find_type
event_queue_get_element q type = find_type type q.queue

-- The timer of an element is stopped, torn down and given back; the list is the blocks freed.
unfoldable pub release_tick : TimerList → Option ℕ → List ℕ × TimerList
unfolding platform_timer_stop platform_timer_uninit
release_tick l none = ([], l)
release_tick l (some t) =
    let (stopped, timer) = platform_timer_stop (l.timer_pool t) in
    let (torn_down, timer') = platform_timer_uninit timer in
    (
      stopped ++ torn_down,
      mblue_timer_release (record l { timer_pool = update l.timer_pool t timer' }) t,
    )

-- The blocks that `__free_event_element` frees behind the timer.
unfoldable pub blocks_of : Element → List ℕ
blocks_of e =
    if not (e.smart_data == 0) && pb_payload e.smart_data
    then e.smart_data ∷ e.address ∷ []
    else e.address ∷ []

-- `__free_event_element` of the node between `before` and `behind`.
unfoldable pub free_event_element : EventQueue → List Element → Element → List Element → EventQueue
unfolding release_tick blocks_of
free_event_element q before e behind =
    let (ticked, l) = release_tick q.timers e.tick in
    record q { queue = before ++ behind; timers = l; freed = q.freed ++ (ticked ++ blocks_of e) }

-- The loop of `event_queue_delete`, at the nodes `ahead`.
unfoldable pub delete_loop :
    ℕ → List Element → List Element → Errcode → EventQueue → Errcode × EventQueue
unfolding free_event_element
delete_loop type before [] ret q = (ret, q)
delete_loop type before (e ∷ ahead) ret q = elim (e.type == type) [
  | true ↦
      delete_loop type before ahead ok (
        free_event_element (record q { event_bm = bit_and q.event_bm (not32 type) }) before e ahead)
  | false ↦ delete_loop type (before ++ (e ∷ [])) ahead ret q
]

unfoldable pub event_queue_delete : EventQueue → ℕ → Errcode × EventQueue
event_queue_delete q type = delete_loop type [] q.queue err_unknown q

-- A timer of the pool is started behind its `init`.
unfoldable pub start_timer : TimerList → ℕ → Option MblueTimer → Option (Option ℕ × TimerList)
unfolding platform_timer_start
start_timer l t none = none
start_timer l t (some timer) =
    some (some t, record l { timer_pool = update l.timer_pool t (platform_timer_start timer) })

-- The timer that `event_queue_add` starts for the element at `address`: `none` is a call through
-- NULL, when the pool has no timer left, or a write through NULL, when the heap has no room for it.
unfoldable pub arm : Client → EventQueue → Element → ℕ → Option (Option ℕ × TimerList)
unfolding start_timer platform_timer_init
arm c q e address =
    if e.period == 0 || e.period == event_timeout_forever
    then some (e.tick, q.timers)
    else (let (got, l) = mblue_timer_get q.timers in
        elim got [
          | none ↦ none
          | some t ↦ start_timer l t (
              platform_timer_init (c.timer_create t) (c.timer_block t) e.period (not (e.mode == 0))
                q.timer_function address (l.timer_pool t))
        ])

-- The element linked at the tail and its CALL_START handler called.
unfoldable pub start : Client → EventQueue → Element → Errcode × EventQueue
start c q e = if chain e call_start == 0 then (ok, q) else (
  c.handle (chain e call_start) e q.self,
  record q { calls = q.calls ++ ((chain e call_start, e.address, q.self) ∷ []) },
)

-- The rest of `event_queue_add` once the element stands at `address`, with the answer of `arm`.
unfoldable pub link :
    Client
    → EventQueue
    → Element
    → ℕ
    → Option (Option ℕ × TimerList)
    → Option (Errcode × EventQueue)
unfolding start
link c q element address none = none
link c q element address (some (tick, l)) =
    let e = record element { address = address; tick = tick } in
    some (
      start c
        (record q {
          event_bm = bit_or q.event_bm element.type;
          queue = q.queue ++ (e ∷ []);
          timers = l;
        })
        e)

-- `fresh` is the answer of `mblue_malloc`.
unfoldable pub event_queue_add :
    Client → EventQueue → Element → Option ℕ → Option (Errcode × EventQueue)
unfolding arm link
event_queue_add c q element fresh =
    if not (bit_and q.event_bm element.type == 0)
    then some (err_unknown, q)
    else elim fresh [ none ↦ some (err_nomem, q) | some a ↦ link c q element a (arm c q element a) ]

-- The handlers that `event_queue_wakeup` calls on an element, and the code that decides.
unfoldable pub after_wakeup : Client → Element → ℕ → Errcode → Errcode × List ℕ
after_wakeup c e param (pos zero) = (pos zero, chain e call_wakeup ∷ [])
after_wakeup c e param (pos (suc n)) =
    if chain e (suc n) == 0
    then (pos (suc n), chain e call_wakeup ∷ [])
    else (c.handle (chain e (suc n)) e param, chain e call_wakeup ∷ chain e (suc n) ∷ [])
after_wakeup c e param (negsuc n) = (negsuc n, chain e call_wakeup ∷ [])

unfoldable pub run_chain : Client → Element → ℕ → Errcode × List ℕ
unfolding after_wakeup
run_chain c e param =
    if not (chain e call_wakeup == 0)
    then after_wakeup c e param (c.handle (chain e call_wakeup) e param)
    else if not (chain e call_finish == 0)
    then (c.handle (chain e call_finish) e param, chain e call_finish ∷ [])
    else if not (chain e call_cancel == 0)
    then (c.handle (chain e call_cancel) e param, chain e call_cancel ∷ [])
    else (element_exit, [])

abbrev pub log_calls : EventQueue → Element → ℕ → List ℕ → EventQueue
log_calls q e param fs = record q { calls = q.calls ++ map (λ f. (f, e.address, param)) fs }

-- The first element of the type is woken, between the nodes `before` and those behind it.
unfoldable pub wake_first : Client → ℕ → ℕ → List Element → List Element → EventQueue → EventQueue
unfolding run_chain free_event_element
wake_first c type param before [] q = q
wake_first c type param before (e ∷ behind) q = elim (e.type == type) [
  | true ↦
      let (ret, fs) = run_chain c e param in
      let q' = log_calls q e param fs in
      if int_eq ret element_exit
      then free_event_element (record q' { event_bm = bit_and q'.event_bm (not32 e.type) }) before e
          behind
      else q'
  | false ↦ wake_first c type param (before ++ (e ∷ [])) behind q
]

unfoldable pub event_queue_wakeup : Client → EventQueue → ℕ → ℕ → Errcode × EventQueue
unfolding wake_first
event_queue_wakeup c q type param =
    if bit_and q.event_bm type == 0
    then (err_unknown, q)
    else (ok, wake_first c type param [] q.queue q)
