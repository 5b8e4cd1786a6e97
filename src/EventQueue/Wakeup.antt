-- ===== src/EventQueue/Wakeup.antt =====
-- `event_queue_wakeup`: which handlers run, when the element is freed, and the bit map.
use mathlib.Core.List.{append_assoc}
use mathlib.Core.Path.{subst, subst₂}
use mblue.Common.{
  ℕ, ◌^◌, ◌<◌, ◌≡◌, refl, sym, ◌∙◌, Option, some, List, [], ◌∷◌, ◌++◌, ◌==◌, ==_iff, if◌then◌else◌,
  bit_and, arith, Bool-cases, inl, inr, map,
}
use mblue.Common.Bits.{bit-zero}
use mblue.Common.Int.{int_eq}
use mblue.Common.Words.{not32}
use mblue.Errcode.{Errcode, err_unknown, element_exit}
use mblue.EventQueue.{
  Element, EventQueue, Client, blocks_of, run_chain, free_event_element, wake_first,
  event_queue_wakeup, event_queue_init, event_queue_add, event_queue_delete,
}
use mblue.EventQueue.Bitmap.{Tracks, unlink-Tracks}
use mblue.EventQueue.Delete.{
  timer_blocks, release_tick_lem, IsEventQueue, event_queue_add-IsEventQueue,
  event_queue_delete-IsEventQueue,
}

-- The list without its first element of the type.
abbrev pub without_first : ℕ → List Element → List Element
without_first type [] = []
without_first type (e ∷ es) = if e.type == type then es else e ∷ without_first type es

-- What the first element of the type, `e`, sees of a wakeup whose handlers are `fs` with the code
-- `ret`: they run in order, and it is unlinked, unmarked and freed with its timer and its payload
-- exactly when the code is MBLUE_ELEMENT_EXIT.
pub record Woken (param : ℕ) (e : Element) (ret : Errcode) (fs : List ℕ) (kept : List Element)
    (q q' : EventQueue) : Type 0 where
  pub calls : q'.calls ≡ q.calls ++ map (λ f. (f, e.address, param)) fs
  pub linked : q'.queue ≡ (if int_eq ret element_exit then kept else q.queue)
  pub freed : q'.freed ≡ (
      if int_eq ret element_exit
      then q.freed ++ (timer_blocks q.timers.timer_pool e.tick ++ blocks_of e)
      else q.freed)
  pub bits :
      q'.event_bm
      ≡ (if int_eq ret element_exit then bit_and q.event_bm (not32 e.type) else q.event_bm)

module _ (c : Client) (type param : ℕ) where
  wake_here-Woken :
      (before ahead : List Element) (q : EventQueue) (e : Element)
      → e.type ≡ type
      → Woken param e
          (run_chain c e param).0
          (run_chain c e param).1
          (before ++ ahead)
          q
          (wake_first c type param before (e ∷ ahead) q)
  unfolding wake_first free_event_element
  wake_here-Woken before ahead q e h = record {
    calls = ground arith;
    linked = ground arith;
    freed = ground (arith, (release_tick_lem q.timers e.tick).0);
    bits = ground arith;
  }

  -- Where no bit of the type is pending a wakeup changes nothing and reports MBLUE_ERR_UNKNOWN.
  pub event_queue_wakeup_unknown :
      (q : EventQueue)
      → bit_and q.event_bm type ≡ 0
      → event_queue_wakeup c q type param ≡ (err_unknown, q)
  unfolding event_queue_wakeup
  event_queue_wakeup_unknown q h = ground arith

  Woken-Tracks :
      {e : Element} {kept : List Element} {q q' : EventQueue}
      → Woken param e (run_chain c e param).0 (run_chain c e param).1 kept q q'
      → Tracks q.event_bm q.queue
      → Tracks (bit_and q.event_bm (not32 e.type)) kept
      → Tracks q'.event_bm q'.queue
  Woken-Tracks {e} w t t' = elim (Bool-cases (int_eq (run_chain c e param).0 element_exit)) [
    | inl x ↦ subst₂ Tracks (sym (rw x at w.bits)) (sym (rw x at w.linked)) t'
    | inr x ↦ subst₂ Tracks (sym (rw x at w.bits)) (sym (rw x at w.linked)) t
  ]

  wake_first-IsEventQueue :
      (before ahead : List Element) (q : EventQueue)
      → type < 2 ^ 32
      → q.queue ≡ before ++ ahead
      → IsEventQueue q
      → IsEventQueue (wake_first c type param before ahead q)
  unfolding wake_first
  wake_first-IsEventQueue before [] q ht e t = t
  wake_first-IsEventQueue before (x ∷ ahead) q ht e t = elim (Bool-cases (x.type == type)) [
    | inl hit ↦
        let same = (==_iff x.type type).0 hit in
        Woken-Tracks (wake_here-Woken before ahead q x same) t (
          unlink-Tracks q.event_bm before x ahead (omega (arith, same))
            (subst (Tracks q.event_bm) e t))
    | inr miss ↦
        rw (miss, wake_first)
          (wake_first-IsEventQueue (before ++ (x ∷ [])) ahead q ht
            (e ∙ sym (append_assoc before (x ∷ []) ahead)) t)
  ]

  -- `event_queue_wakeup` keeps the bit map in step with the queue, whatever the handlers answer.
  pub event_queue_wakeup-IsEventQueue :
      (q : EventQueue)
      → type < 2 ^ 32
      → IsEventQueue q
      → IsEventQueue (event_queue_wakeup c q type param).1
  unfolding event_queue_wakeup
  event_queue_wakeup-IsEventQueue q ht t = elim (Bool-cases (bit_and q.event_bm type == 0)) [
    | inl x ↦ rw (x, event_queue_wakeup) t
    | inr x ↦ rw (x, event_queue_wakeup) (wake_first-IsEventQueue [] q.queue q ht refl t)
  ]

-- The states of an event queue: initialised, then added to, deleted from and woken in any order.
pub data Reach (c : Client) : EventQueue → Type 0 where
  init : (q : EventQueue) (context : ℕ) → Reach c (event_queue_init q context)
  added :
      {q q' : EventQueue} {ret : Errcode} (e : Element) (fresh : Option ℕ)
      → Reach c q
      → e.type < 2 ^ 32
      → event_queue_add c q e fresh ≡ some (ret, q')
      → Reach c q'
  deleted :
      {q : EventQueue} (type : ℕ)
      → Reach c q
      → type < 2 ^ 32
      → Reach c (event_queue_delete q type).1
  woken :
      {q : EventQueue} (type param : ℕ)
      → Reach c q
      → type < 2 ^ 32
      → Reach c (event_queue_wakeup c q type param).1

init-IsEventQueue : (q : EventQueue) (context : ℕ) → IsEventQueue (event_queue_init q context)
unfolding event_queue_init
init-IsEventQueue q context = record { width = omega arith; bits = λ k. bit-zero k }

-- In every state that calls reach, a bit of the bit map is set exactly when one linked element
-- has it in its type, and no bit is in the types of two linked elements.
pub Reach-IsEventQueue : (c : Client) {q : EventQueue} → Reach c q → IsEventQueue q
Reach-IsEventQueue c (init q context) = init-IsEventQueue q context
Reach-IsEventQueue c (added {q} e fresh r h done) =
    event_queue_add-IsEventQueue c q e fresh h (Reach-IsEventQueue c r) done
Reach-IsEventQueue c (deleted {q} type r h) =
    event_queue_delete-IsEventQueue q type h (Reach-IsEventQueue c r)
Reach-IsEventQueue c (woken {q} type param r h) =
    event_queue_wakeup-IsEventQueue c type param q h (Reach-IsEventQueue c r)
