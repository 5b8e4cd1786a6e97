-- ===== src/SystemBus/References.antt =====
-- The references of a remote call's message: the sender has one, the bus adds one for the segment
-- that serves the call, the segment releases it, and the bus releases the sender's at the return.
use mblue.Common.{ℕ, ◌+◌, ◌≡◌, ◌≢◌, ap, ◌∙◌, true, some, List, [], ◌∷◌, ◌++◌, ◌<◌, arith}
use mblue.Errcode.{ok}
use mblue.Message.Code.{get_type, get_major}
use mblue.Message.Pool.{
  MessageList, mblue_message_release, mblue_message_put, put_ref, get_mblue_message_list_instance,
}
use mblue.SystemBus.{Bus, message, sync_call, bus_call, segment_major_max}
use mblue.SystemBus.Call.{called, bus_call_sync}

module _ (bus : Bus) (block i out : ℕ) (is_ready : bus.pool.ready ≡ true)
    (sent : (message bus i).ref ≡ 1) where
  still_held :
      ((mblue_message_release (called bus block i out).pool i).msg_list ≡ bus.pool.msg_list)
      × ((mblue_message_release (called bus block i out).pool i).count ≡ bus.pool.count)
      × ((mblue_message_release (called bus block i out).pool i).ready ≡ true)
      × (((mblue_message_release (called bus block i out).pool i).mblue_message_pool i).ref ≡ 1)
  unfolding mblue_message_release put_ref get_mblue_message_list_instance
  still_held = ground (is_ready, sent, arith)

put_back :
    (l : MessageList) (i : ℕ)
    → l.ready ≡ true
    → (l.mblue_message_pool i).ref ≡ 1
    → ((mblue_message_release l i).msg_list ≡ l.msg_list ++ (i ∷ []))
      × ((mblue_message_release l i).count ≡ l.count + 1)
unfolding mblue_message_release put_ref get_mblue_message_list_instance mblue_message_put
put_back l i is_ready one = ground (is_ready, one, arith)

-- The message of a synchronous call, sent with one reference to a segment of the bus whose task takes
-- messages:
-- the bus forwards it; when the segment releases it, it is not free, with one reference left; when it
-- is released at the return of the call, it is the last free message of the pool, and the other free
-- messages are those from before the call.
pub bus_call-mblue_message_release :
    (bus : Bus) (block i out : ℕ)
    → bus.pool.ready ≡ true
    → (message bus i).ref ≡ 1
    → get_type (message bus i).code ≡ sync_call
    → get_major (message bus i).code < segment_major_max
    → block ≢ 0
    → bus.ms (get_major (message bus i).code) ≢ 0
    → bus.get_context (bus.ms (get_major (message bus i).code)) ≢ 0
    → (bus.tasks (bus.get_context (bus.ms (get_major (message bus i).code)))).nproc ≡ true
    → (bus' : Bus) × (bus_call bus block i out ≡ some (ok, bus'))
      × ((mblue_message_release bus'.pool i).msg_list ≡ bus.pool.msg_list)
      × (((mblue_message_release bus'.pool i).mblue_message_pool i).ref ≡ 1)
      × ((mblue_message_release (mblue_message_release bus'.pool i) i).msg_list
          ≡ bus.pool.msg_list ++ (i ∷ []))
      × ((mblue_message_release (mblue_message_release bus'.pool i) i).count ≡ bus.pool.count + 1)
bus_call-mblue_message_release bus block i out is_ready sent type low allocated present context
      nproc =
    let (listed, count, ready', one) = still_held bus block i out is_ready sent in
    let (back, counted) =
      put_back (mblue_message_release (called bus block i out).pool i) i ready' one in
    (
      called bus block i out,
      bus_call_sync bus block i out type low allocated present context nproc,
      listed,
      one,
      back ∙ ap (λ (xs : List ℕ). xs ++ (i ∷ [])) listed,
      counted ∙ ap (λ (n : ℕ). n + 1) count,
    )
