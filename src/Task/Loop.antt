-- ===== src/Task/Loop.antt =====
-- The semaphore of a task's queue counts its messages, so the loop never takes NULL.
use mathlib.Core.Path.{subst}
use mblue.Common.{
  ℕ, suc, ◌-◌, ◌≤◌, ◌<◌, ◌≡◌, ◌≢◌, refl, sym, ◌⊎◌, inl, inr, Bool-cases, some, none, List, [], ◌∷◌,
  ◌++◌, arith, length, ◌==◌, ltb, if◌then◌else◌,
}
use mblue.Errcode.{ok}
use mblue.MessageQueue.{queue_add, queue_remove}
use mblue.MessageQueue.Fifo.{first, rest}
use mblue.MessageQueue.Refines.{
  IsQueue, contents, queue_add_room, queue_remove_some, length-contents,
}
use mblue.Task.{Task, pointer, template_msg_post, template_proc_round}

abbrev AllPointers : List ℕ → Type 0
AllPointers [] = Unit {0}
AllPointers (x ∷ xs) = (x ≢ 0) × AllPointers xs

-- The queue is well formed, holds no NULL, and `msg_sem` counts what it holds.
pub record IsTask (t : Task) : Type 0 where
  pub well_formed : IsQueue t.mq
  pub counted : t.msg_sem ≡ t.mq.size
  pub pointers : AllPointers (contents t.mq)

append-AllPointers : (xs : List ℕ) (m : ℕ) → AllPointers xs → AllPointers (xs ++ (suc m ∷ []))
append-AllPointers [] m h = (λ e. omega arith, tt)
append-AllPointers (x ∷ xs) m h = (h.0, append-AllPointers xs m h.1)

rest-AllPointers : (xs : List ℕ) → AllPointers xs → AllPointers (rest xs)
unfolding rest
rest-AllPointers [] h = tt
rest-AllPointers (x ∷ xs) h = h.1

-- With room in the queue the message waits behind the others.
pub post_room :
    (t : Task) (msg : ℕ)
    → IsTask t
    → t.mq.size < t.mq.capacity
    → ((template_msg_post t msg).0 ≡ ok)
      × (contents (template_msg_post t msg).1.mq ≡ contents t.mq ++ (pointer msg ∷ []))
      × IsTask (template_msg_post t msg).1
unfolding template_msg_post
post_room t msg w room =
    let (replies, holds, valid, size, capacity) =
      queue_add_room t.mq (pointer msg) w.well_formed room in
    rw (replies, template_msg_post)
      (
        refl,
        holds,
        record {
          well_formed = valid;
          counted = omega (arith, w.counted, size);
          pointers =
              subst AllPointers (sym holds) (append-AllPointers (contents t.mq) msg w.pointers);
        },
      )

post_full : (t : Task) (msg : ℕ) → t.mq.capacity ≤ t.mq.size → template_msg_post t msg ≡ (ok, t)
unfolding template_msg_post queue_add
post_full t msg full = ground arith

-- The sender of a message is always told MBLUE_OK. With room in the queue of the task the message
-- waits behind the others and is counted; in a full queue it is dropped. The task stays well formed.
pub template_msg_post_lem :
    (t : Task) (msg : ℕ)
    → IsTask t
    → ((template_msg_post t msg).0 ≡ ok)
      × (contents (template_msg_post t msg).1.mq ≡ (
          if ltb t.mq.size t.mq.capacity
          then contents t.mq ++ (pointer msg ∷ [])
          else contents t.mq))
      × IsTask (template_msg_post t msg).1
template_msg_post_lem t msg w = elim (Bool-cases (ltb t.mq.size t.mq.capacity)) [
  | inl room ↦ rw room (post_room t msg w (ground (arith, room)))
  | inr full ↦ let same = post_full t msg (ground (arith, full)) in rw (full, same) (refl, refl, w)
]

head_pointer : (xs : List ℕ) → AllPointers xs → 0 < length xs → first xs ≢ 0
unfolding first
head_pointer [] h lt = absurd (omega arith)
head_pointer (x ∷ xs) h lt = h.0

first-rest : (xs : List ℕ) → 0 < length xs → xs ≡ first xs ∷ rest xs
unfolding first rest
first-rest [] h = absurd (omega arith)
first-rest (x ∷ xs) h = refl

nil_of_length : (xs : List ℕ) → length xs ≡ 0 → xs ≡ []
nil_of_length [] h = refl
nil_of_length (x ∷ xs) h = absurd (omega arith)

-- A round of the loop blocks exactly on an empty queue; otherwise it takes the message that has
-- waited longest, which is not NULL, and leaves the others in order.
pub template_proc_round_lem :
    (t : Task)
    → IsTask t
    → ((template_proc_round t ≡ none) × (contents t.mq ≡ []))
      ⊎ ((m : ℕ) × (t' : Task) × (template_proc_round t ≡ some (m, t'))
          × (m ≢ 0)
          × (contents t.mq ≡ m ∷ contents t'.mq)
          × IsTask t')
unfolding template_proc_round
template_proc_round_lem t w = elim (Bool-cases (t.msg_sem == 0)) [
  | inl empty ↦
      inl
        (rw empty, nil_of_length (contents t.mq) (ground (arith, length-contents t.mq, w.counted)))
  | inr waiting ↦
      let some_left : 0 < t.mq.size = ground (arith, w.counted) in
      let (taken, left, valid, size) = queue_remove_some t.mq w.well_formed some_left in
      let filled : 0 < length (contents t.mq) = omega (arith, length-contents t.mq) in
      inr (
        (queue_remove t.mq).0,
        record t { mq = (queue_remove t.mq).1; msg_sem = t.msg_sem - 1 },
        rw waiting,
        rw taken (head_pointer (contents t.mq) w.pointers filled),
        rw (taken, left) (first-rest (contents t.mq) filled),
        record {
          well_formed = valid;
          counted = omega (arith, size, w.counted);
          pointers = subst AllPointers (sym left) (rest-AllPointers (contents t.mq) w.pointers);
        },
      )
]
