-- ===== src/SystemBus/Call.antt =====
-- `bus_call`: a remote call is remembered until its return.
use mathlib.Core.Path.{subst, fun_ext}
use mblue.Common.{
  ℕ, suc, ◌+◌, ◌-◌, ◌≡◌, ◌≢◌, refl, sym, ap, ◌∙◌, true, some, List, [], ◌∷◌, ◌++◌, ◌<◌, arith,
  update, update_self,
}
use mblue.Common.Words.{u16}
use mblue.Errcode.{ok}
use mblue.Message.Code.{get_type, get_major}
use mblue.Message.Pool.{Message, write, get_ref}
use mblue.SystemBus.{
  Bus, PendingCall, message, sync_call, bus_call, link_call, forward_call, post_to, bus_call_return,
  call_segment, segment_major_max,
}
use mblue.SystemBus.Return.{Others, bus_call_return_sync, at_node_lem}
use mblue.MessageQueue.Refines.{contents}
use mblue.Task.{Task, pointer, template_msg_post}
use mblue.Task.Loop.{IsTask, post_room}

-- The pending call of a synchronous call.
abbrev pub sync_pending : ℕ → ℕ → PendingCall
sync_pending block i = record {
  block = block;
  msg = pointer i;
  call_type = sync_call;
  notifier = 0;
}

-- The bus that a synchronous call leaves: the call is linked, and the message, with one reference
-- more, is posted to the task of its segment.
abbrev pub called : Bus → ℕ → ℕ → ℕ → Bus
called bus block i out =
    let m = message bus i in
    let major = get_major m.code in
    let sent = record m { extra = out; ref = u16 (m.ref + 1); dst = bus.ms major } in
    record bus {
      pool = write bus.pool i sent;
      call_list = update bus.call_list major (bus.call_list major ++ (sync_pending block i ∷ []));
      tasks =
          update bus.tasks (bus.get_context (bus.ms major))
            (template_msg_post (bus.tasks (bus.get_context (bus.ms major))) i).1;
    }

append-nil {ℓ} : {A : Type ℓ} → (xs : List A) → xs ++ [] ≡ xs
append-nil [] = refl
append-nil (x ∷ xs) = ap (λ l. x ∷ l) (append-nil xs)

update-update {ℓ} :
    {A : Type ℓ} → (f : ℕ → A) → (i : ℕ) → (x y : A) → update (update f i x) i y ≡ update f i y
update-update f i x y = fun_ext (λ j. ground arith)

linked_pool :
    (bus : Bus)
    → (block i out : ℕ) → get_type (message bus i).code ≡ sync_call
    → link_call bus block i out ≡ record bus {
      pool = write bus.pool i (record (message bus i) { extra = out });
      call_list =
          update bus.call_list
            (get_major (message bus i).code)
            (bus.call_list (get_major (message bus i).code) ++ (sync_pending block i ∷ []));
    }
unfolding link_call
linked_pool bus block i out type = rw type refl

forwarded :
    (bus : Bus)
    → (block i out : ℕ) → get_type (message bus i).code ≡ sync_call
    → (bus.tasks (bus.get_context (bus.ms (get_major (message bus i).code)))).nproc ≡ true
    → forward_call
        (link_call bus block i out)
        i
        (bus.ms (get_major (message bus i).code))
        (some block)
      ≡ some (ok, called bus block i out)
unfolding forward_call post_to get_ref
forwarded bus block i out type nproc =
    let m = message bus i in
    let written : Message = record m { extra = out } in
    rw (linked_pool bus block i out type) (
      rw nproc (
        rw (update_self bus.pool.mblue_message_pool i written) (
          rw
            (update-update bus.pool.mblue_message_pool i written
              (record (get_ref written) { dst = bus.ms (get_major m.code) }))
            refl)))

-- A synchronous call to a segment with a task that takes messages succeeds and links the call at
-- the tail, for the returns to find.
pub bus_call_sync :
    (bus : Bus)
    → (block i out : ℕ) → get_type (message bus i).code ≡ sync_call
    → get_major (message bus i).code < segment_major_max
    → block ≢ 0
    → bus.ms (get_major (message bus i).code) ≢ 0
    → bus.get_context (bus.ms (get_major (message bus i).code)) ≢ 0
    → (bus.tasks (bus.get_context (bus.ms (get_major (message bus i).code)))).nproc ≡ true
    → bus_call bus block i out ≡ some (ok, called bus block i out)
unfolding bus_call call_segment
bus_call_sync bus block i out type low allocated present context nproc =
    let linked : call_segment bus block i out (bus.ms (get_major (message bus i).code))
        ≡ forward_call (link_call bus block i out) i (bus.ms (get_major (message bus i).code))
            (some block) =
      ground (arith, type, allocated, present, context) in
    at_node_lem (get_major (message bus i).code) _ low
    ∙ linked
    ∙ forwarded bus block i out type nproc

Others-cong :
    (p q : ℕ → Message)
    → ((j : ℕ) → (q j).seq ≡ (p j).seq)
    → (seq : ℕ) → (calls : List PendingCall) → Others p seq calls
    → Others q seq calls
Others-cong p q same seq [] h = tt
Others-cong p q same seq (call ∷ rest) h =
    (h.0, λ e. h.1 (e ∙ same (call.msg - 1)), Others-cong p q same seq rest h.2)

module _ (bus : Bus) (block i out d : ℕ) (type : get_type (message bus i).code ≡ sync_call)
    (low : get_major (message bus i).code < segment_major_max) (slot_there : out ≢ 0)
    (distinct : d ≢ i) (major : get_major (message bus d).code ≡ get_major (message bus i).code)
    (seq : (message bus d).seq ≡ (message bus i).seq) (caller : (message bus i).src ≢ 0)
    (tpost : (bus.tasks (message bus i).src).tpost ≡ true)
    (fresh : Others bus.pool.mblue_message_pool
      (message bus i).seq
      (bus.call_list (get_major (message bus i).code))) where
  abbrev after_call : Bus
  after_call = called bus block i out

  kept_seq : (j : ℕ) → (message after_call j).seq ≡ (bus.pool.mblue_message_pool j).seq
  kept_seq j = ground arith

  return_message : message after_call d ≡ message bus d
  return_message = ground (distinct, arith)

  code_major : get_major (message after_call d).code ≡ get_major (message bus i).code
  code_major = ap (λ (m : Message). get_major m.code) return_message ∙ major

  linked :
      after_call.call_list (get_major (message bus i).code)
      ≡ bus.call_list (get_major (message bus i).code) ++ (sync_pending block i ∷ [])
  linked = update_self bus.call_list (get_major (message bus i).code) _

  others :
      Others after_call.pool.mblue_message_pool
        (message after_call d).seq
        (bus.call_list (get_major (message bus i).code))
  others =
      subst
        (λ (n : ℕ).
          Others after_call.pool.mblue_message_pool n
            (bus.call_list (get_major (message bus i).code)))
        (sym seq ∙ sym (kept_seq d))
        (Others-cong bus.pool.mblue_message_pool after_call.pool.mblue_message_pool kept_seq
          (message bus i).seq (bus.call_list (get_major (message bus i).code)) fresh)

  back : suc i - 1 ≡ i
  back = omega arith

  same : (message after_call d).seq ≡ (message after_call (suc i - 1)).seq
  same = kept_seq d ∙ seq ∙ sym (kept_seq i) ∙ ap (λ (j : ℕ). (message after_call j).seq) (sym back)

  kept_src : (message after_call (suc i - 1)).src ≡ (message bus i).src
  kept_src = ground (back, arith)

  out_slot : (message after_call (suc i - 1)).extra ≡ out
  out_slot = ground (back, arith)

  kept_task :
      (t : ℕ)
      → ((after_call.tasks t).tpost ≡ (bus.tasks t).tpost)
        × ((after_call.tasks t).call_sem ≡ (bus.tasks t).call_sem)
  unfolding template_msg_post
  kept_task t = ground arith

  -- The return `d` of the synchronous call `i`, when no other call with its sequence number is
  -- pending: the list of pending calls is again what it was before the call, the payload is what the
  -- caller reads at `out`, the caller is woken once, and the call's block is freed.
  called-bus_call_return :
      (done : Bus) × (bus_call_return after_call d ≡ some (ok, done))
      × (done.call_list (get_major (message bus i).code)
          ≡ bus.call_list (get_major (message bus i).code))
      × (done.slots out ≡ (message bus d).smart_payload)
      × ((done.tasks (message bus i).src).call_sem ≡ (bus.tasks (message bus i).src).call_sem + 1)
      × (done.freed ≡ bus.freed ++ (block ∷ []))
  called-bus_call_return =
      let (done, returns, calls, slot, woken, freed, pool) =
        bus_call_return_sync after_call d (bus.call_list (get_major (message bus i).code))
          (sync_pending block i) [] (omega (arith, low, code_major))
          (ap after_call.call_list code_major ∙ linked) others (λ e. omega arith) same refl
          (rw kept_src caller) (rw out_slot slot_there)
          (rw kept_src ((kept_task (message bus i).src).0 ∙ tpost)) in
      (
        done,
        returns,
        subst (λ (n : ℕ). done.call_list n ≡ bus.call_list (get_major (message bus i).code))
            code_major (calls ∙ append-nil _),
        subst (λ (n : ℕ). done.slots n ≡ (message bus d).smart_payload) out_slot
            (slot ∙ ap (λ (m : Message). m.smart_payload) return_message),
        subst (λ (n : ℕ). (done.tasks n).call_sem ≡ (bus.tasks n).call_sem + 1) kept_src
            (woken ∙ ap (λ (n : ℕ). n + 1) (kept_task _).1),
        freed,
      )

-- What the call itself leaves: the message in the queue of the task that serves the call, and the call
-- behind the pending ones.
called_there :
    (bus : Bus) (block i out : ℕ)
    → let dst = bus.get_context (bus.ms (get_major (message bus i).code)) in
      IsTask (bus.tasks dst)
      → (bus.tasks dst).mq.size < (bus.tasks dst).mq.capacity
      → (contents ((called bus block i out).tasks dst).mq
          ≡ contents (bus.tasks dst).mq ++ (pointer i ∷ []))
        × (message (called bus block i out) i ≡ record (message bus i) {
          extra = out;
          ref = u16 ((message bus i).ref + 1);
          dst = bus.ms (get_major (message bus i).code);
        })
called_there bus block i out task room =
    let dst = bus.get_context (bus.ms (get_major (message bus i).code)) in
    (
      ap (λ (t : Task). contents t.mq)
            (update_self bus.tasks dst (template_msg_post (bus.tasks dst) i).1)
          ∙ (post_room (bus.tasks dst) i task room).1,
      update_self bus.pool.mblue_message_pool i _,
    )

-- A synchronous remote call, from the call to its return. The call is of a segment of the bus whose
-- task takes messages and has room in its queue, its caller has a task with `tpost` and an out
-- variable, and no other call with its sequence number is pending; `d` is another message with the
-- segment and the sequence number of the call. The bus puts the message, addressed to the segment and
-- with one reference more, behind the others in the queue of the segment's task, and the call behind
-- the pending ones. When it takes `d` as the return the list of pending calls is again what it was
-- before the call, `out` holds the payload of `d`, the caller is woken once, and the block of the call
-- is freed.
pub bus_call-bus_call_return :
    (bus : Bus)
    → (block i out d : ℕ) → get_type (message bus i).code ≡ sync_call
    → get_major (message bus i).code < segment_major_max
    → block ≢ 0
    → out ≢ 0
    → bus.ms (get_major (message bus i).code) ≢ 0
    → bus.get_context (bus.ms (get_major (message bus i).code)) ≢ 0
    → (bus.tasks (bus.get_context (bus.ms (get_major (message bus i).code)))).nproc ≡ true
    → IsTask (bus.tasks (bus.get_context (bus.ms (get_major (message bus i).code))))
    → (bus.tasks (bus.get_context (bus.ms (get_major (message bus i).code)))).mq.size
      < (bus.tasks (bus.get_context (bus.ms (get_major (message bus i).code)))).mq.capacity
    → d ≢ i
    → get_major (message bus d).code ≡ get_major (message bus i).code
    → (message bus d).seq ≡ (message bus i).seq
    → (message bus i).src ≢ 0
    → (bus.tasks (message bus i).src).tpost ≡ true
    → Others bus.pool.mblue_message_pool
        (message bus i).seq
        (bus.call_list (get_major (message bus i).code))
    → (bus' done : Bus) × (bus_call bus block i out ≡ some (ok, bus'))
      × (contents (bus'.tasks (bus.get_context (bus.ms (get_major (message bus i).code)))).mq
          ≡ contents (bus.tasks (bus.get_context (bus.ms (get_major (message bus i).code)))).mq
            ++ (pointer i ∷ []))
      × (message bus' i ≡ record (message bus i) {
        extra = out;
        ref = u16 ((message bus i).ref + 1);
        dst = bus.ms (get_major (message bus i).code);
      })
      × (bus'.call_list (get_major (message bus i).code)
          ≡ bus.call_list (get_major (message bus i).code) ++ (sync_pending block i ∷ []))
      × (bus_call_return bus' d ≡ some (ok, done))
      × (done.call_list (get_major (message bus i).code)
          ≡ bus.call_list (get_major (message bus i).code))
      × (done.slots out ≡ (message bus d).smart_payload)
      × ((done.tasks (message bus i).src).call_sem ≡ (bus.tasks (message bus i).src).call_sem + 1)
      × (done.freed ≡ bus.freed ++ (block ∷ []))
bus_call-bus_call_return bus block i out d type low allocated slot_there present context nproc task
      room distinct major seq caller tpost fresh =
    let (done, returns, calls, slot, woken, freed) =
      called-bus_call_return bus block i out d type low slot_there distinct major seq caller tpost
        fresh in
    let (posted, sent) = called_there bus block i out task room in
    (
      called bus block i out,
      done,
      bus_call_sync bus block i out type low allocated present context nproc,
      posted,
      sent,
      update_self bus.call_list (get_major (message bus i).code) _,
      returns,
      calls,
      slot,
      woken,
      freed,
    )
