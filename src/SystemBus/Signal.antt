-- ===== src/SystemBus/Signal.antt =====
-- `bus_signal`: what the bus delivers to the subscribers of a segment.
use mblue.Common.{
  map, ◌+◌, ◌<◌, ◌≤◌, append-nil, append_assoc, ℕ, zero, suc, ◌≡◌, ◌≢◌, refl, sym, ap, ◌∙◌, true,
  some, List, [], ◌∷◌, ◌++◌, arith, ◌==◌, if◌then◌else◌, length, Bool-cases, ==_iff, inl, inr,
}
use mblue.Errcode.{Errcode, ok, err_unknown}
use mblue.Message.Code.{get_major}
use mblue.Message.Pool.{
  Message, write, get_ref, mblue_message_alloc, mblue_message_get, get_mblue_message_list_instance,
  take_first, mblue_message_release,
}
use mblue.Message.Pool.Conservation.{without_first}
use mblue.SystemBus.{
  Bus, message, post_to, send_replica, signal_one, signal_loop, release, bus_signal, mblue_bus,
  segment_major_max,
}
use mblue.SystemBus.Return.{at_node_lem}
use mblue.MessageQueue.{queue_add}
use mblue.MessageQueue.Refines.{contents}
use mblue.Task.{Task, pointer, template_msg_post}
use mblue.Task.Loop.{IsTask, post_room}

-- The subscribers are segments with tasks that take messages.
abbrev pub AllLive : Bus → List ℕ → Type 0
AllLive bus [] = Unit {0}
AllLive bus (ms ∷ rest) =
    (ms ≢ 0)
    × (bus.get_context ms ≢ 0)
    × ((bus.tasks (bus.get_context ms)).nproc ≡ true)
    × AllLive bus rest

abbrev pub Fresh : ℕ → List ℕ → Type 0
Fresh j [] = Unit {0}
Fresh j (r ∷ rs) = (j ≢ r) × Fresh j rs

abbrev pub Distinct : ℕ → List ℕ → Type 0
Distinct i [] = Unit {0}
Distinct i (r ∷ rs) = (i ≢ r) × Fresh r rs × Distinct i rs

-- The replica of the message `m` for the subscriber `ms`.
abbrev pub replica_of : Message → ℕ → Message
replica_of m ms = record (get_ref m) { dst = ms }

abbrev pub Copies : Message → List ℕ → List ℕ → (ℕ → Message) → Type 0
Copies m [] rs pool = Unit {0}
Copies m (ms ∷ subs) [] pool = Unit {0}
Copies m (ms ∷ subs) (r ∷ rs) pool = (pool r ≡ replica_of m ms) × Copies m subs rs pool

-- The replicas among `rs` for the subscribers that run in the task `t`, in order.
abbrev pub posts : (ℕ → ℕ) → ℕ → List ℕ → List ℕ → List ℕ
posts get_context t [] rs = []
posts get_context t (ms ∷ subs) [] = []
posts get_context t (ms ∷ subs) (r ∷ rs) =
    let later = posts get_context t subs rs in if t == get_context ms then r ∷ later else later

post-size :
    (task : Task) (r : ℕ)
    → task.mq.size < task.mq.capacity
    → ((template_msg_post task r).1.mq.size ≡ task.mq.size + 1)
      × ((template_msg_post task r).1.mq.capacity ≡ task.mq.capacity)
unfolding template_msg_post queue_add
post-size task r room = ground (arith, room)

abbrev pub post_all : Task → List ℕ → Task
post_all task [] = task
post_all task (r ∷ rs) = post_all (template_msg_post task r).1 rs

-- With room for all of them the posted messages wait behind the others, in order.
post_all-contents :
    (task : Task) (rs : List ℕ)
    → IsTask task
    → task.mq.size + length rs ≤ task.mq.capacity
    → contents (post_all task rs).mq ≡ contents task.mq ++ map pointer rs
post_all-contents task [] valid room = sym (append-nil (contents task.mq))
post_all-contents task (r ∷ rs) valid room =
    let (told, holds, valid') = post_room task r valid (omega arith) in
    let (size, capacity) = post-size task r (omega arith) in
    post_all-contents (template_msg_post task r).1 rs valid' (omega (arith, size, capacity))
    ∙ ap (λ (l : List ℕ). l ++ map pointer rs) holds
    ∙ append_assoc (contents task.mq) (pointer r ∷ []) (map pointer rs)

-- Each subscriber has its replica in the queue of its task, and the pool has the other messages.
pub record Delivered (bus bus' : Bus) (m : Message) (subs rs free : List ℕ) : Type 0 where
  pub copies : Copies m subs rs bus'.pool.mblue_message_pool
  pub left : bus'.pool.msg_list ≡ free
  pub counted : bus'.pool.count ≡ length free
  pub is_ready : bus'.pool.ready ≡ true
  pub queues : (t : ℕ) → bus'.tasks t ≡ post_all (bus.tasks t) (posts bus.get_context t subs rs)
  pub kept : (j : ℕ) → Fresh j rs → message bus' j ≡ message bus j

abbrev pub status_of : Errcode → List ℕ → Errcode
status_of rc [] = rc
status_of rc (ms ∷ subs) = ok

-- One subscriber served with the free message `r`.
abbrev served : Bus → Message → ℕ → ℕ → List ℕ → Bus
served bus m ms r rest =
    post_to (record bus { pool = write (without_first bus.pool r rest) r (replica_of m ms) })
      (bus.get_context ms) r

module _ (i : ℕ) where
  signal_one-served :
      (bus : Bus) (ms r : ℕ) (rest : List ℕ)
      → bus.pool.ready ≡ true
      → bus.pool.count ≡ length bus.pool.msg_list
      → bus.pool.msg_list ≡ r ∷ rest
      → bus.get_context ms ≢ 0
      → (bus.tasks (bus.get_context ms)).nproc ≡ true
      → i ≢ r
      → signal_one bus i ms ≡ some (served bus (message bus i) ms r rest)
  unfolding signal_one send_replica mblue_message_alloc mblue_message_get
      get_mblue_message_list_instance take_first post_to get_ref
  signal_one-served bus ms r rest is_ready counted free context nproc apart =
      ground (arith, is_ready, counted, free, context, nproc, apart)

  module _ (bus : Bus) (m : Message) (ms r : ℕ) (rest : List ℕ) where
    abbrev next : Bus
    next = served bus m ms r rest

    served-kept : (j : ℕ) → j ≢ r → message next j ≡ message bus j
    unfolding post_to
    served-kept j apart = ground (apart, arith)

    served-copy : message next r ≡ replica_of m ms
    unfolding post_to
    served-copy = ground arith

    served-nproc : (t : ℕ) → (next.tasks t).nproc ≡ (bus.tasks t).nproc
    unfolding post_to template_msg_post
    served-nproc t = ground arith

    served-AllLive : (subs : List ℕ) → AllLive bus subs → AllLive next subs
    unfolding post_to
    served-AllLive [] h = tt
    served-AllLive (s ∷ subs) h =
        (h.0, h.1, served-nproc (bus.get_context s) ∙ h.2, served-AllLive subs h.3)

    served-queue :
        (t : ℕ) (subs rs : List ℕ)
        → post_all (next.tasks t) (posts bus.get_context t subs rs)
          ≡ post_all (bus.tasks t) (posts bus.get_context t (ms ∷ subs) (r ∷ rs))
    unfolding post_to
    served-queue t subs rs = elim (Bool-cases (t == bus.get_context ms)) [
      | inl here ↦
          let same = (==_iff t (bus.get_context ms)).0 here in
          rw here (
            ap
              (λ (c : ℕ).
                post_all (template_msg_post (bus.tasks c) r).1 (posts bus.get_context t subs rs))
              (sym same))
      | inr there ↦ rw there refl
    ]

  status_of-ok : (subs : List ℕ) → status_of ok subs ≡ ok
  status_of-ok [] = refl
  status_of-ok (s ∷ subs) = refl

  signal_loop-Delivered :
      (subs rs free : List ℕ) (rc : Errcode) (bus : Bus) (m : Message)
      → message bus i ≡ m
      → bus.pool.ready ≡ true
      → bus.pool.count ≡ length bus.pool.msg_list
      → bus.pool.msg_list ≡ rs ++ free
      → length rs ≡ length subs
      → Distinct i rs
      → AllLive bus subs
      → (bus' : Bus) × (signal_loop i subs rc bus ≡ some (status_of rc subs, bus'))
        × Delivered bus bus' m subs rs free
  unfolding signal_loop post_to
  signal_loop-Delivered [] [] free rc bus m e is_ready counted listed same distinct live = (
    bus,
    refl,
    record {
      copies = tt;
      left = listed;
      counted = counted ∙ ap length listed;
      is_ready = is_ready;
      queues = λ t. refl;
      kept = λ j h. refl;
    },
  )
  signal_loop-Delivered [] (r ∷ rs) free rc bus m e is_ready counted listed same distinct live =
      absurd (omega arith)
  signal_loop-Delivered (ms ∷ subs) [] free rc bus m e is_ready counted listed same distinct live =
      absurd (omega arith)
  signal_loop-Delivered (zero ∷ subs) (r ∷ rs) free rc bus m e is_ready counted listed same distinct
        live =
      absurd (live.0 refl)
  signal_loop-Delivered (suc ms ∷ subs) (r ∷ rs) free rc bus m e is_ready counted listed same
        distinct live =
      let one =
        signal_one-served bus (suc ms) r (rs ++ free) is_ready counted listed live.1 live.2
          distinct.0 in
      let next' = next bus (message bus i) (suc ms) r (rs ++ free) in
      let (bus', runs, d) =
        signal_loop-Delivered subs rs free ok next' m
          (served-kept bus (message bus i) (suc ms) r (rs ++ free) i distinct.0 ∙ e) is_ready
          (omega (arith, counted, ap length listed)) refl (omega (arith, same)) distinct.2
          (served-AllLive bus (message bus i) (suc ms) r (rs ++ free) subs live.3) in
      (
        bus',
        rw (one, signal_loop) (runs ∙ ap (λ (c : Errcode). some (c, bus')) (status_of-ok subs)),
        record {
          copies = (
            d.kept r distinct.1
                ∙ served-copy bus (message bus i) (suc ms) r (rs ++ free)
                ∙ ap (λ (x : Message). replica_of x (suc ms)) e,
            d.copies,
          );
          left = d.left;
          counted = d.counted;
          is_ready = d.is_ready;
          queues =
              λ t. d.queues t ∙ served-queue bus (message bus i) (suc ms) r (rs ++ free) t subs rs;
          kept =
              λ j h. d.kept j h.1 ∙ served-kept bus (message bus i) (suc ms) r (rs ++ free) j h.0;
        },
      )

-- A signal with message `i` from a task, of a segment of the bus other than the bus itself, whose
-- subscribers are segments with tasks that take messages and have room for what is posted to them,
-- when the pool has a free message `r` for each of them, none of them `i` and all distinct. Every subscriber gets one replica of the message, addressed to it and with one reference
-- more, in the queue of its task behind what waits there, in the order of subscription; the replicas
-- are the free messages, the others stay free, and the original is released once. The result is
-- MBLUE_OK with a subscriber and MBLUE_ERR_UNKNOWN without one.
pub bus_signal_lem :
    (bus : Bus) (i : ℕ) (rs free : List ℕ)
    → (message bus i).src ≢ 0
    → get_major (message bus i).code ≢ mblue_bus
    → get_major (message bus i).code < segment_major_max
    → bus.pool.ready ≡ true
    → bus.pool.count ≡ length bus.pool.msg_list
    → bus.pool.msg_list ≡ rs ++ free
    → length rs ≡ length (bus.publish_list (get_major (message bus i).code))
    → Distinct i rs
    → AllLive bus (bus.publish_list (get_major (message bus i).code))
    → ((t : ℕ) → IsTask (bus.tasks t))
    → ((t : ℕ)
        → (bus.tasks t).mq.size
            + length
                (posts bus.get_context t (bus.publish_list (get_major (message bus i).code)) rs)
          ≤ (bus.tasks t).mq.capacity)
    → (bus' : Bus) × (bus_signal bus i
        ≡ some (
          status_of err_unknown (bus.publish_list (get_major (message bus i).code)),
          record bus' { pool = mblue_message_release bus'.pool i },
        ))
      × Delivered bus bus'
          (message bus i)
          (bus.publish_list (get_major (message bus i).code))
          rs
          free
      × ((t : ℕ)
          → contents (bus'.tasks t).mq
            ≡ contents (bus.tasks t).mq
              ++ map pointer
                  (posts bus.get_context t (bus.publish_list (get_major (message bus i).code)) rs))
unfolding release bus_signal
bus_signal_lem bus i rs free src_there bus_apart low is_ready counted listed same distinct live
      tasks room =
    let subs = bus.publish_list (get_major (message bus i).code) in
    let (bus', runs, d) =
      signal_loop-Delivered i subs rs free err_unknown bus (message bus i) refl is_ready counted
        listed same distinct live in
    (
      bus',
      at_node_lem (get_major (message bus i).code) _ low ∙ rw runs refl,
      d,
      λ t.
          ap (λ (task : Task). contents task.mq) (d.queues t)
          ∙ post_all-contents (bus.tasks t) (posts bus.get_context t subs rs) (tasks t) (room t),
    )
