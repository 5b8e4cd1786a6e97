-- ===== src/SystemBus/Return.antt =====
-- `bus_call_return`: the return of a remote call finds the pending call with its sequence number.
use mblue.Common.{
  Option, some, update, ◌<◌, ℕ, ◌+◌, ◌-◌, ◌≡◌, ◌≢◌, refl, ap, ◌∙◌, true, List, [], ◌∷◌, ◌++◌, arith,
}
use mblue.Errcode.{ok, err_unknown}
use mblue.Message.Code.{get_major}
use mblue.Message.Pool.{Message, mblue_message_release}
use mblue.SystemBus.{
  Bus, PendingCall, message, sync_call, async_call, find_call, found, not_found, keep, answer,
  post_return, finish, finish_answered, release, bus_call_return, at_node, segment_major_max,
}
use mblue.Task.{template_post}

-- No call of the list waits for a message with this sequence number.
abbrev pub Others : (ℕ → Message) → ℕ → List PendingCall → Type 0
Others pool seq [] = Unit {0}
Others pool seq (call ∷ rest) =
    (call.msg ≢ 0) × (seq ≢ (pool (call.msg - 1)).seq) × Others pool seq rest

pub find_call-Others :
    (pool : ℕ → Message)
    → (seq : ℕ) → (calls : List PendingCall) → Others pool seq calls
    → find_call pool seq calls ≡ not_found
unfolding find_call keep
find_call-Others pool seq [] h = refl
find_call-Others pool seq (call ∷ rest) h =
    let ih = find_call-Others pool seq rest h.2 in ground (ih, h.0, h.1, arith)

pub find_call-append :
    (pool : ℕ → Message)
    → (seq : ℕ) → (before : List PendingCall) → (call : PendingCall) → (after : List PendingCall)
    → Others pool seq before
    → call.msg ≢ 0
    → seq ≡ (pool (call.msg - 1)).seq
    → find_call pool seq (before ++ (call ∷ after)) ≡ found call (before ++ after)
unfolding find_call keep
find_call-append pool seq [] call after h valid same = ground (valid, same, arith)
find_call-append pool seq (c ∷ rest) call after h valid same =
    let ih = find_call-append pool seq rest call after h.2 valid same in
    ground (ih, h.0, h.1, arith)

-- An access to an entry of the array.
pub at_node_lem {ℓ} :
    {A : Type ℓ} (major : ℕ) (entry : Option A)
    → major < segment_major_max
    → at_node major entry ≡ entry
unfolding at_node
at_node_lem major entry low = ground (arith, low)

-- A return that no pending call of its segment waits for is refused with MBLUE_ERR_UNKNOWN; the
-- message is released and nothing else changes.
pub bus_call_return_unmatched :
    (bus : Bus)
    → (i : ℕ) → get_major (message bus i).code < segment_major_max
    → Others bus.pool.mblue_message_pool
        (message bus i).seq
        (bus.call_list (get_major (message bus i).code))
    → bus_call_return bus i
      ≡ some (err_unknown, record bus { pool = mblue_message_release bus.pool i })
unfolding bus_call_return release
bus_call_return_unmatched bus i low h =
    let missed =
      find_call-Others bus.pool.mblue_message_pool (message bus i).seq
        (bus.call_list (get_major (message bus i).code)) h in
    at_node_lem (get_major (message bus i).code) _ low ∙ rw missed refl

-- What `bus_call_return` comes to when the calls before `call` wait for other messages.
module _ (bus : Bus) (i : ℕ) (before : List PendingCall) (call : PendingCall)
    (after : List PendingCall) (low : get_major (message bus i).code < segment_major_max)
    (linked : bus.call_list (get_major (message bus i).code) ≡ before ++ (call ∷ after))
    (others : Others bus.pool.mblue_message_pool (message bus i).seq before) (valid : call.msg ≢ 0)
    (same : (message bus i).seq ≡ (message bus (call.msg - 1)).seq) where
  hit :
      find_call bus.pool.mblue_message_pool
        (message bus i).seq
        (bus.call_list (get_major (message bus i).code))
      ≡ found call (before ++ after)
  hit =
      ap (find_call bus.pool.mblue_message_pool (message bus i).seq) linked
      ∙ find_call-append bus.pool.mblue_message_pool (message bus i).seq before call after others
          valid same

  abbrev ended : Bus → Bus
  ended answered =
      release (finish answered (get_major (message bus i).code) call (before ++ after)) i

  returned :
      (answered : Bus)
      → answer bus call (message bus i) ≡ some answered
      → bus_call_return bus i ≡ some (ok, ended answered)
  unfolding bus_call_return finish_answered
  returned answered done = at_node_lem (get_major (message bus i).code) _ low ∙ rw (hit, done) refl

  -- The return of a synchronous call whose caller has a task with `tpost` and waits with an out
  -- variable: the first call with the sequence number of the message is unlinked and freed, the others
  -- stay in order, the payload is written where the caller reads it, the caller is woken once, and
  -- both messages are released.
  pub bus_call_return_sync :
      call.call_type ≡ sync_call
      → (message bus (call.msg - 1)).src ≢ 0
      → (message bus (call.msg - 1)).extra ≢ 0
      → (bus.tasks (message bus (call.msg - 1)).src).tpost ≡ true
      → (bus' : Bus) × (bus_call_return bus i ≡ some (ok, bus'))
        × (bus'.call_list (get_major (message bus i).code) ≡ before ++ after)
        × (bus'.slots (message bus (call.msg - 1)).extra ≡ (message bus i).smart_payload)
        × ((bus'.tasks (message bus (call.msg - 1)).src).call_sem
            ≡ (bus.tasks (message bus (call.msg - 1)).src).call_sem + 1)
        × (bus'.freed ≡ bus.freed ++ (call.block ∷ []))
        × (bus'.pool ≡ mblue_message_release (mblue_message_release bus.pool (call.msg - 1)) i)
  unfolding answer finish release post_return template_post
  bus_call_return_sync type caller slot tpost =
      let smsg = message bus (call.msg - 1) in
      let answered =
        post_return
          (record bus { slots = update bus.slots smsg.extra (message bus i).smart_payload })
          smsg.src in
      (
        ended answered,
        returned answered (ground (type, caller, slot, arith)),
        ground (tpost, arith),
        ground (tpost, arith),
        ground (tpost, arith),
        ground (tpost, arith),
        ground (tpost, arith),
      )

  -- The return of an asynchronous call with a notifier: the notifier is called with the payload once,
  -- and freed; the call is unlinked and freed, no task is woken, and both messages are released.
  pub bus_call_return_async :
      call.call_type ≡ async_call
      → call.notifier ≢ 0
      → (bus' : Bus) × (bus_call_return bus i ≡ some (ok, bus'))
        × (bus'.call_list (get_major (message bus i).code) ≡ before ++ after)
        × (bus'.notified ≡ bus.notified ++ ((call.notifier, (message bus i).smart_payload) ∷ []))
        × (bus'.freed ≡ (bus.freed ++ (call.notifier ∷ [])) ++ (call.block ∷ []))
        × (bus'.tasks ≡ bus.tasks)
        × (bus'.pool ≡ mblue_message_release (mblue_message_release bus.pool (call.msg - 1)) i)
  unfolding answer finish release
  bus_call_return_async type notifier =
      let answered = record bus {
        notified = bus.notified ++ ((call.notifier, (message bus i).smart_payload) ∷ []);
        freed = bus.freed ++ (call.notifier ∷ []);
      } in
      (
        ended answered,
        returned answered (ground (type, notifier, arith)),
        ground arith,
        refl,
        refl,
        refl,
        refl,
      )
