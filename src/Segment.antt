-- ===== src/Segment.antt =====
-- middleware/components/segment/mblue_segment.c: how a segment runs its handlers on the messages that
-- its task takes. Handlers, payloads and segments are addresses, 0 is NULL; an array of handlers is
-- the list of its items, a NULL array the empty list. `_ASSERT` is empty in the release build.
pub mod Dispatch
use mblue.Common.{
  ℕ, ◌+◌, Bool, true, false, not, ◌&&◌, Option, none, some, List, [], ◌∷◌, ◌++◌, ◌==◌,
  if◌then◌else◌, leb, update,
}
use mblue.Common.Int.{ℤ, int_eq}
use mblue.Common.Words.{signed}
use mblue.Errcode.{Errcode, err_pb_decode, remote_call_pending}
use mblue.Message.Code.{get_major, get_minor}
use mblue.Message.Pool.{Message, MessageList, mblue_message_release}
use mblue.SmartData.{pb_payload, integer_p, get_integer}
use mblue.SystemBus.{signal, sync_call, async_call}

pub record HandlerItem : Type 0 where
  pub id : ℕ
  pub handler : ℕ

-- The entries of the table of parsers.
abbrev pub pb_max : ℕ
pb_max = 9

abbrev pub end_item_id : ℕ
end_item_id = 0xEEFFEEFF

-- The handlers of `handler_array`.
pub data MessageHandler : Type 0 where
  unset : MessageHandler
  default_signal : MessageHandler
  default_ipc : MessageHandler
  custom : ℕ → MessageHandler

-- `struct mblue_segment` with the memory that its handlers work on: the pool of messages, the blocks
-- freed, the calls of handlers with their arguments, and the returns sent, as segment number,
-- sequence number and data.
pub record Segment : Type 0 where
  pub major : ℕ
  pub context : ℕ
  pub processing_msg : Option ℕ
  pub items_array : ℕ → List HandlerItem
  pub handler_array : ℕ → MessageHandler
  pub pool : MessageList
  pub freed : List ℕ
  pub calls : List (ℕ × ℕ)
  pub returned : List (ℕ × ℕ × ℕ)

-- The code that a segment calls and that is not its own: a signal handler, the decoder of the header
-- of a remote call (`none` when it fails), the parser of a layout, which decodes the arguments and
-- runs the method if they decode, as it says, and the code of `ipc_return`.
pub record Service : Type 0 where
  pub signal_handler : ℕ → ℕ → Errcode
  pub layout_index : ℕ → Option ℕ
  pub data_parser : ℕ → ℕ → ℕ → Bool × ℕ
  pub ipc_return : ℕ → ℕ → ℕ → Errcode

unfoldable pub init_segment : Segment → Segment
init_segment ms = record ms {
  major = 0;
  context = 0;
  processing_msg = none;
  items_array = λ type. [];
  handler_array =
      update (update (update (λ type. unset) signal default_signal) sync_call default_ipc)
        async_call default_ipc;
}

unfoldable pub mblue_segment_set_handler : Segment → ℕ → MessageHandler → Segment
mblue_segment_set_handler ms type h = record ms { handler_array = update ms.handler_array type h }

unfoldable pub mblue_segment_get_handler : Segment → ℕ → MessageHandler
mblue_segment_get_handler ms type = ms.handler_array type

-- The loops over an array of handlers, up to the end marker.
unfoldable pub find_handler : ℕ → List HandlerItem → Option ℕ
find_handler minor [] = none
find_handler minor (item ∷ rest) =
    let later = find_handler minor rest in
    if item.id == end_item_id then none else if item.id == minor then some item.handler else later

unfoldable pub free_payload : Segment → ℕ → Segment
free_payload ms payload =
    if pb_payload payload then record ms { freed = ms.freed ++ (payload ∷ []) } else ms

abbrev pub release_message : Segment → ℕ → Segment
release_message ms i = record ms { pool = mblue_message_release ms.pool i }

-- The result is `none` where the source returns a variable that it has not set.
unfoldable pub run_signal : Service → Segment → Message → Option ℕ → Option Errcode × Segment
run_signal service ms m none = (none, ms)
run_signal service ms m (some f) = (
  some (service.signal_handler f m.smart_payload),
  record ms { calls = ms.calls ++ ((f, m.smart_payload) ∷ []) },
)

unfoldable pub default_signal_handler : Service → Segment → ℕ → Option Errcode × Segment
unfolding find_handler run_signal free_payload
default_signal_handler service ms i =
    let m = ms.pool.mblue_message_pool i in
    let linked = record ms { processing_msg = some i } in
    let (rc, called) =
      run_signal service linked m (find_handler (get_minor m.code) (ms.items_array signal)) in
    (rc, release_message (free_payload called m.smart_payload) i)

unfoldable pub find_ipc_handler_from_service : Segment → Message → Option ℕ
unfolding find_handler
find_ipc_handler_from_service ms m =
    elim (find_handler (get_minor m.code) (ms.items_array sync_call)) [
      | none ↦ none
      | some f ↦ if f == 0 then none else some f
    ]

-- A pending call is recognised by the test of the source.
unfoldable pub is_pending : ℕ → Bool
is_pending ret = integer_p ret && int_eq (signed (get_integer ret)) remote_call_pending

-- The call of the method `f`, if the parser has run it.
abbrev pub log_method : Segment → ℕ → ℕ → Bool → Segment
log_method ms f payload ran =
    if ran then record ms { calls = ms.calls ++ ((f, payload) ∷ []) } else ms

-- The parser of the layout gets the method `f`; `none` is a parser read behind the end of the table.
unfoldable pub run_method : Service → Segment → Message → ℕ → ℕ → Option (Errcode × Segment)
unfolding is_pending
run_method service ms m index f =
    let (ran, ret) = service.data_parser index m.smart_payload f in
    let called = log_method ms f m.smart_payload ran in
    if leb pb_max index
    then none
    else if is_pending ret
    then some (err_pb_decode, called)
    else some (
      service.ipc_return (get_major m.code) m.seq ret,
      record called { returned = ms.returned ++ ((get_major m.code, m.seq, ret) ∷ []) },
    )

unfoldable pub run_found : Service → Segment → Message → ℕ → Option ℕ → Option (Errcode × Segment)
unfolding run_method
run_found service ms m index none = some (err_pb_decode, ms)
run_found service ms m index (some f) = run_method service ms m index f

-- The end of `default_ipc_handler`.
unfoldable pub leave_ipc : ℕ → ℕ → Option (Errcode × Segment) → Option (Errcode × Segment)
unfolding free_payload
leave_ipc i payload none = none
leave_ipc i payload (some (rc, served)) = some (rc, release_message (free_payload served payload) i)

-- The rest of `default_ipc_handler` once the header is read.
unfoldable pub serve : Service → Segment → ℕ → Message → ℕ → Option (Errcode × Segment)
unfolding find_ipc_handler_from_service run_found leave_ipc
serve service ms i m index =
    leave_ipc i m.smart_payload (run_found service ms m index (find_ipc_handler_from_service ms m))

-- `index` behind the header of the message, `none` when that does not decode; a message without a
-- payload has no header, and `index` stays PB_MAX.
unfoldable pub read_header : Service → Message → Option ℕ
read_header service m =
    if pb_payload m.smart_payload then service.layout_index m.smart_payload else some pb_max

-- When the header does not decode the source leaves without giving the payload and the message back.
unfoldable pub default_ipc_handler : Service → Segment → ℕ → Option (Errcode × Segment)
unfolding read_header serve
default_ipc_handler service ms i =
    let m = ms.pool.mblue_message_pool i in
    let linked = record ms { processing_msg = some i } in
    elim (read_header service m) [
      | none ↦ some (err_pb_decode, linked)
      | some index ↦ serve service linked i m index
    ]
