-- ===== src/EventQueue/Delete.antt =====
-- `event_queue_delete` and `event_queue_add`: what is linked, marked and freed afterwards.
use mathlib.Core.List.{append_assoc, append-nil}
use mathlib.Core.Path.{subst, subst₂}
use mathlib.Core.Option.{some-injective}
use mblue.Common.{
  ℕ, ◌^◌, ◌<◌, ◌≡◌, ◌≢◌, refl, sym, ap, ◌∙◌, Bool, false, ◌||◌, Option, none, some, List, [], ◌∷◌,
  ◌++◌, ◌==◌, update, ==_iff, if◌then◌else◌, bit_and, bit_or, arith, Bool-cases, inl, inr,
}
use mblue.Common.Words.{not32}
use mblue.Errcode.{Errcode, ok, err_unknown, err_nomem}
use mblue.EventQueue.{
  Element, EventQueue, Client, find_type, event_queue_get_element, blocks_of, delete_loop,
  event_queue_delete, event_queue_add, free_event_element, start, link, arm, release_tick,
}
use mblue.Timer.{TimerList, MblueTimer, mblue_timer_release, get_timer_list_instance}
use mblue.EventQueue.Bitmap.{Tracks, unlink-Tracks, link-Tracks}

abbrev pub has_type : ℕ → List Element → Bool
has_type type [] = false
has_type type (e ∷ es) = e.type == type || has_type type es

abbrev pub other_types : ℕ → List Element → List Element
other_types type [] = []
other_types type (e ∷ es) = if e.type == type then other_types type es else e ∷ other_types type es

-- The block of an element's timer, and the timers behind its stop.
abbrev pub timer_blocks : (ℕ → MblueTimer) → Option ℕ → List ℕ
timer_blocks pool none = []
timer_blocks pool (some t) = elim (pool t).obj [ none ↦ [] | some pt ↦ pt.block ∷ [] ]

abbrev pub stopped : (ℕ → MblueTimer) → Option ℕ → ℕ → MblueTimer
stopped pool none = pool
stopped pool (some t) = update pool t (record (pool t) { obj = none })

-- The blocks of the elements of a type: the one of its timer, the payload on the heap, and the
-- element.
abbrev pub blocks_of_type : ℕ → (ℕ → MblueTimer) → List Element → List ℕ
blocks_of_type type pool [] = []
blocks_of_type type pool (e ∷ es) =
    if e.type == type
    then (timer_blocks pool e.tick ++ blocks_of e) ++ blocks_of_type type (stopped pool e.tick) es
    else blocks_of_type type pool es

-- What `release_tick` frees, and the timers behind it.
pub release_tick_lem :
    (l : TimerList) (tick : Option ℕ)
    → ((release_tick l tick).0 ≡ timer_blocks l.timer_pool tick)
      × ((release_tick l tick).1.timer_pool ≡ stopped l.timer_pool tick)
unfolding release_tick mblue_timer_release get_timer_list_instance
release_tick_lem l none = (refl, refl)
release_tick_lem l (some t) = (append-nil _, ground arith)

record Deleted (type : ℕ) (before ahead : List Element) (ret : Errcode) (q : EventQueue)
    (out : Errcode × EventQueue) : Type 0 where
  linked : out.1.queue ≡ before ++ other_types type ahead
  freed : out.1.freed ≡ q.freed ++ blocks_of_type type q.timers.timer_pool ahead
  status : out.0 ≡ (if has_type type ahead then ok else ret)
  calls : out.1.calls ≡ q.calls

delete_loop-Deleted :
    (type : ℕ) (before ahead : List Element) (ret : Errcode) (q : EventQueue)
    → q.queue ≡ before ++ ahead
    → Deleted type before ahead ret q (delete_loop type before ahead ret q)
unfolding delete_loop free_event_element
delete_loop-Deleted type before [] ret q e = record {
  linked = e;
  freed = sym (append-nil q.freed);
  status = refl;
  calls = refl;
}
delete_loop-Deleted type before (x ∷ ahead) ret q e = elim (Bool-cases (x.type == type)) [
  | inl hit ↦
      let q' =
        free_event_element (record q { event_bm = bit_and q.event_bm (not32 type) }) before x
          ahead in
      let d = delete_loop-Deleted type before ahead ok q' refl in
      rw (hit, delete_loop)
        (record {
          linked = ground (arith, d.linked, hit);
          freed = rw hit (
              d.freed
              ∙ append_assoc q.freed ((release_tick q.timers x.tick).0 ++ blocks_of x)
                  (blocks_of_type type (release_tick q.timers x.tick).1.timer_pool ahead)
              ∙ ap
                  (λ (b : List ℕ).
                    q.freed
                    ++ ((b ++ blocks_of x)
                        ++ blocks_of_type type (release_tick q.timers x.tick).1.timer_pool ahead))
                  (release_tick_lem q.timers x.tick).0
              ∙ ap
                  (λ (pool : ℕ → MblueTimer).
                    q.freed
                    ++ ((timer_blocks q.timers.timer_pool x.tick ++ blocks_of x)
                        ++ blocks_of_type type pool ahead))
                  (release_tick_lem q.timers x.tick).1);
          status = ground (arith, d.status, hit);
          calls = d.calls;
        })
  | inr miss ↦
      let split = append_assoc before (x ∷ []) ahead in
      let d = delete_loop-Deleted type (before ++ (x ∷ [])) ahead ret q (e ∙ sym split) in
      rw (miss, delete_loop)
        (record {
          linked = rw miss (d.linked ∙ append_assoc before (x ∷ []) (other_types type ahead));
          freed = rw miss d.freed;
          status = rw miss d.status;
          calls = d.calls;
        })
]

find_type-other_types : (type : ℕ) (es : List Element) → find_type type (other_types type es) ≡ none
unfolding find_type
find_type-other_types type [] = refl
find_type-other_types type (e ∷ es) = ground (arith, find_type-other_types type es)

pub event_queue_delete_lem :
    (q : EventQueue) (type : ℕ)
    → let (ret, q') = event_queue_delete q type in
      (q'.queue ≡ other_types type q.queue)
      × (q'.freed ≡ q.freed ++ blocks_of_type type q.timers.timer_pool q.queue)
      × (ret ≡ (if has_type type q.queue then ok else err_unknown))
      × (q'.calls ≡ q.calls)
      × (event_queue_get_element q' type ≡ none)
unfolding event_queue_delete event_queue_get_element
event_queue_delete_lem q type =
    let d = delete_loop-Deleted type [] q.queue err_unknown q refl in
    (
      d.linked,
      d.freed,
      d.status,
      d.calls,
      ap (find_type type) d.linked ∙ find_type-other_types type q.queue,
    )

abbrev pub IsEventQueue : EventQueue → Type 0
IsEventQueue q = Tracks q.event_bm q.queue

delete_loop-IsEventQueue :
    (type : ℕ) (before ahead : List Element) (ret : Errcode) (q : EventQueue)
    → type < 2 ^ 32
    → q.queue ≡ before ++ ahead
    → IsEventQueue q
    → IsEventQueue (delete_loop type before ahead ret q).1
unfolding delete_loop free_event_element
delete_loop-IsEventQueue type before [] ret q ht e t = t
delete_loop-IsEventQueue type before (x ∷ ahead) ret q ht e t = elim (Bool-cases (x.type == type)) [
  | inl hit ↦
      let q' =
        free_event_element (record q { event_bm = bit_and q.event_bm (not32 type) }) before x
          ahead in
      let same = (==_iff x.type type).0 hit in
      rw (hit, delete_loop)
        (delete_loop-IsEventQueue type before ahead ok q' ht refl (
          subst (λ (m : ℕ). Tracks (bit_and q.event_bm (not32 m)) (before ++ ahead)) same
            (unlink-Tracks q.event_bm before x ahead (omega (arith, same))
              (subst (Tracks q.event_bm) e t))))
  | inr miss ↦
      rw (miss, delete_loop)
        (delete_loop-IsEventQueue type (before ++ (x ∷ [])) ahead ret q ht
          (e ∙ sym (append_assoc before (x ∷ []) ahead)) t)
]

-- `event_queue_delete` keeps the bit map in step with the queue.
pub event_queue_delete-IsEventQueue :
    (q : EventQueue) (type : ℕ)
    → type < 2 ^ 32
    → IsEventQueue q
    → IsEventQueue (event_queue_delete q type).1
unfolding event_queue_delete
event_queue_delete-IsEventQueue q type ht t =
    delete_loop-IsEventQueue type [] q.queue err_unknown q ht refl t

-- What a call of `event_queue_add` that returns has done.
data Outcome (c : Client) (q : EventQueue) (e : Element) (ret : Errcode) (q' : EventQueue)
    : Type 0 where
  pending_twice : bit_and q.event_bm e.type ≢ 0 → ret ≡ err_unknown → q' ≡ q → Outcome c q e ret q'
  no_memory : bit_and q.event_bm e.type ≡ 0 → ret ≡ err_nomem → q' ≡ q → Outcome c q e ret q'
  linked :
      (linked_one : Element) (l : TimerList)
      → bit_and q.event_bm e.type ≡ 0
      → linked_one.type ≡ e.type
      → start c
          (record q {
            event_bm = bit_or q.event_bm e.type;
            queue = q.queue ++ (linked_one ∷ []);
            timers = l;
          })
          linked_one
        ≡ (ret, q')
      → Outcome c q e ret q'

link-Outcome :
    (c : Client) (q : EventQueue) (e : Element) (a : ℕ) (armed : Option (Option ℕ × TimerList))
    {ret : Errcode} {q' : EventQueue}
    → bit_and q.event_bm e.type ≡ 0
    → link c q e a armed ≡ some (ret, q')
    → Outcome c q e ret q'
unfolding link
link-Outcome c q e a none apart h = cc
link-Outcome c q e a (some (tick, l)) apart h =
    linked (record e { address = a; tick = tick }) l apart refl (some-injective _ _ h)

add-Outcome :
    (c : Client) (q : EventQueue) (e : Element) (fresh : Option ℕ) {ret : Errcode} {q' : EventQueue}
    → event_queue_add c q e fresh ≡ some (ret, q')
    → Outcome c q e ret q'
unfolding event_queue_add
add-Outcome c q e none h = elim (Bool-cases (bit_and q.event_bm e.type == 0)) [
  | inr twice ↦ pending_twice (ground arith) (ground arith) (ground arith)
  | inl apart ↦ no_memory (ground arith) (ground arith) (ground arith)
]
add-Outcome c q e (some a) h = elim (Bool-cases (bit_and q.event_bm e.type == 0)) [
  | inr twice ↦ pending_twice (ground arith) (ground arith) (ground arith)
  | inl apart ↦ link-Outcome c q e a (arm c q e a) (ground arith) (rw (apart, event_queue_add) at h)
]

start-queue :
    (c : Client) (q : EventQueue) (e : Element)
    → ((start c q e).1.queue ≡ q.queue) × ((start c q e).1.event_bm ≡ q.event_bm)
unfolding start
start-queue c q e = ground arith

-- `event_queue_add` keeps the bit map in step with the queue, whatever the heap, the timers and
-- the CALL_START handler answer.
pub event_queue_add-IsEventQueue :
    (c : Client) (q : EventQueue) (e : Element) (fresh : Option ℕ) {ret : Errcode} {q' : EventQueue}
    → e.type < 2 ^ 32
    → IsEventQueue q
    → event_queue_add c q e fresh ≡ some (ret, q')
    → IsEventQueue q'
event_queue_add-IsEventQueue c q e fresh {ret} {q'} ht t h = elim (add-Outcome c q e fresh h) [
  | pending_twice apart status same ↦ rw same t
  | no_memory apart status same ↦ rw same t
  | linked one l apart same done ↦
      let p = record q {
        event_bm = bit_or q.event_bm e.type;
        queue = q.queue ++ (one ∷ []);
        timers = l;
      } in
      let (links, bits) = start-queue c p one in
      let tracked = link-Tracks q.event_bm q.queue one (omega (arith, same)) (rw same apart) t in
      subst₂ Tracks (ap (bit_or q.event_bm) same ∙ sym bits ∙ ap (λ r. r.1.event_bm) done)
        (sym links ∙ ap (λ r. r.1.queue) done) tracked
]
