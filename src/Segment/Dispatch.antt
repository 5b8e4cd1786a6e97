-- ===== src/Segment/Dispatch.antt =====
-- What the default handlers of a segment do with a message.
use mblue.Common.{
  ◌⊎◌, inl, inr, ◌≢◌, leb, ℕ, ◌^◌, ◌<◌, ◌≡◌, refl, sym, ap, ◌∙◌, false, Option, none, some, List,
  [], ◌∷◌, ◌++◌, map, arith, ◌==◌, if◌then◌else◌,
}
use mblue.Common.Int.{int_eq_iff}
use mblue.Common.Words.{signed}
use mblue.Errcode.{Errcode, err_pb_decode, remote_call_pending}
use mblue.Message.Code.{get_major, get_minor}
use mblue.Message.Pool.{Message, mblue_message_release}
use mblue.SmartData.{pb_payload, get_integer, get_integer_nonneg}
use mblue.SystemBus.{signal, sync_call}
use mblue.Segment.{
  HandlerItem, end_item_id, Segment, Service, find_handler, free_payload, release_message,
  run_signal, default_signal_handler, run_found, find_ipc_handler_from_service, is_pending,
  run_method, read_header, serve, default_ipc_handler, leave_ipc, log_method, pb_max,
}

abbrev pub received : Segment → ℕ → Message
received ms i = ms.pool.mblue_message_pool i

abbrev pub payload_blocks : Message → List ℕ
payload_blocks m = if pb_payload m.smart_payload then m.smart_payload ∷ [] else []

-- The items before the end marker that serve the number.
abbrev pub serving : ℕ → List HandlerItem → List ℕ
serving minor [] = []
serving minor (item ∷ rest) =
    if item.id == end_item_id
    then []
    else if item.id == minor
    then item.handler ∷ serving minor rest
    else serving minor rest

abbrev pub first_of : List ℕ → List ℕ
first_of [] = []
first_of (f ∷ fs) = f ∷ []

abbrev pub listed : Option ℕ → List ℕ
listed none = []
listed (some f) = f ∷ []

find_handler-serving :
    (minor : ℕ) (items : List HandlerItem)
    → listed (find_handler minor items) ≡ first_of (serving minor items)
unfolding find_handler
find_handler-serving minor [] = refl
find_handler-serving minor (item ∷ rest) = ground (arith, find_handler-serving minor rest)

append_nil {ℓ} : {A : Type ℓ} → (xs : List A) → xs ≡ xs ++ []
append_nil [] = refl
append_nil (x ∷ xs) = ap (λ l. x ∷ l) (append_nil xs)

-- What the handlers leave in the memory of the segment.
record Left (ms ms' : Segment) (payload : ℕ) (fs : List ℕ) (answers : List (ℕ × ℕ × ℕ))
    : Type 0 where
  calls : ms'.calls ≡ ms.calls ++ map (λ f. (f, payload)) fs
  returned : ms'.returned ≡ ms.returned ++ answers
  freed : ms'.freed ≡ ms.freed
  pool : ms'.pool ≡ ms.pool

run_signal-Left :
    (service : Service) (ms : Segment) (m : Message) (o : Option ℕ)
    → Left ms (run_signal service ms m o).1 m.smart_payload (listed o) []
unfolding run_signal
run_signal-Left service ms m none = record {
  calls = append_nil ms.calls;
  returned = append_nil ms.returned;
  freed = refl;
  pool = refl;
}
run_signal-Left service ms m (some f) = record {
  calls = refl;
  returned = append_nil ms.returned;
  freed = refl;
  pool = refl;
}

released-freed :
    (ms ms' : Segment) (payload i : ℕ)
    → ms'.freed ≡ ms.freed
    → (release_message (free_payload ms' payload) i).freed
      ≡ ms.freed ++ (if pb_payload payload then payload ∷ [] else [])
unfolding free_payload
released-freed ms ms' payload i same = ground (arith, same, append_nil ms.freed)

released-pool :
    (ms ms' : Segment) (payload i : ℕ)
    → ms'.pool ≡ ms.pool
    → (release_message (free_payload ms' payload) i).pool ≡ mblue_message_release ms.pool i
unfolding free_payload
released-pool ms ms' payload i same = ground (arith, same)

released-kept :
    (ms : Segment) (payload i : ℕ)
    → ((release_message (free_payload ms payload) i).calls ≡ ms.calls)
      × ((release_message (free_payload ms payload) i).returned ≡ ms.returned)
unfolding free_payload
released-kept ms payload i = ground arith

-- `default_signal_handler` calls the first handler of the number that stands before the end marker,
-- once, with the payload, and no handler when there is none; it frees the payload once if there is
-- one on the heap, releases the message once, and sends no return.
pub default_signal_handler_lem :
    (service : Service) (ms : Segment) (i : ℕ)
    → let (rc, ms') = default_signal_handler service ms i in
      (ms'.calls
        ≡ ms.calls
          ++ map
              (λ f. (f, (received ms i).smart_payload))
              (first_of (serving (get_minor (received ms i).code) (ms.items_array signal))))
      × (ms'.freed ≡ ms.freed ++ payload_blocks (received ms i))
      × (ms'.pool ≡ mblue_message_release ms.pool i)
      × (ms'.returned ≡ ms.returned)
unfolding default_signal_handler
default_signal_handler_lem service ms i =
    let m = received ms i in
    let linked = record ms { processing_msg = some i } in
    let o = find_handler (get_minor m.code) (ms.items_array signal) in
    let left = run_signal-Left service linked m o in
    let run = (run_signal service linked m o).1 in
    let kept = released-kept run m.smart_payload i in
    (
      kept.0
          ∙ left.calls
          ∙ ap (λ (fs : List ℕ). ms.calls ++ map (λ f. (f, m.smart_payload)) fs)
              (find_handler-serving (get_minor m.code) (ms.items_array signal)),
      released-freed ms run m.smart_payload i left.freed,
      released-pool ms run m.smart_payload i left.pool,
      kept.1 ∙ left.returned ∙ sym (append_nil ms.returned),
    )

-- No word of 32 bits passes for a pending call.
is_pending-false : (w : ℕ) → w < 2 ^ 32 → is_pending w ≡ false
unfolding is_pending
is_pending-false w h =
    ground
      (arith, get_integer_nonneg w 63 h, int_eq_iff (signed (get_integer w)) remote_call_pending)

-- The first method of a list, unless it is NULL.
abbrev pub callable : List ℕ → List ℕ
callable [] = []
callable (f ∷ fs) = if f == 0 then [] else f ∷ []

-- The methods that the segment runs for the message: at most one.
abbrev pub methods : Segment → Message → List ℕ
methods ms m = callable (serving (get_minor m.code) (ms.items_array sync_call))

find_ipc_handler-methods :
    (ms : Segment) (m : Message) → listed (find_ipc_handler_from_service ms m) ≡ methods ms m
unfolding find_ipc_handler_from_service
find_ipc_handler-methods ms m =
    ground (arith, find_handler-serving (get_minor m.code) (ms.items_array sync_call))

-- The methods that the parser of the layout runs: those whose arguments decode.
abbrev pub decoding : Service → Message → ℕ → List ℕ → List ℕ
decoding service m index [] = []
decoding service m index (f ∷ fs) =
    if (service.data_parser index m.smart_payload f).0
    then f ∷ decoding service m index fs
    else decoding service m index fs

-- The return of the method `f` for the message `m`: what the parser answers.
abbrev pub answer_of : Service → Message → ℕ → ℕ → ℕ × ℕ × ℕ
answer_of service m index f =
    (get_major m.code, m.seq, (service.data_parser index m.smart_payload f).1)

run_found-Left :
    (service : Service) (ms : Segment) (m : Message) (index : ℕ) (o : Option ℕ)
    → ((f : ℕ) → o ≡ some f → index < pb_max)
    → ((f : ℕ) → (service.data_parser index m.smart_payload f).1 < 2 ^ 32)
    → (rc : Errcode) × (ms' : Segment) × (run_found service ms m index o ≡ some (rc, ms'))
      × Left ms ms' m.smart_payload
          (decoding service m index (listed o))
          (map (answer_of service m index) (listed o))
unfolding run_found run_method
run_found-Left service ms m index none low words = (
  err_pb_decode,
  ms,
  refl,
  record {
    calls = append_nil ms.calls;
    returned = append_nil ms.returned;
    freed = refl;
    pool = refl;
  },
)
run_found-Left service ms m index (some f) low words =
    let (ran, ret) = service.data_parser index m.smart_payload f in
    let answered = is_pending-false ret (words f) in
    let called = log_method ms f m.smart_payload ran in
    let in_table : leb pb_max index ≡ false = ground (low f refl, arith) in
    (
      service.ipc_return (get_major m.code) m.seq ret,
      record called { returned = ms.returned ++ ((get_major m.code, m.seq, ret) ∷ []) },
      rw (in_table, answered) refl,
      record {
        calls = ground (append_nil ms.calls, arith);
        returned = refl;
        freed = ground arith;
        pool = ground arith;
      },
    )

no_method : (o : Option ℕ) (fs : List ℕ) → listed o ≡ fs → fs ≡ [] → (f : ℕ) → o ≢ some f
no_method none fs e empty f found = cc
no_method (some g) fs e empty f found = cc

-- A remote call whose header decodes or that has no payload, with a layout of the table or without a
-- method for its number, and with a parser that yields 32-bit words: the first method of its number gets to the parser of the
-- layout, which runs it once if the arguments decode and not at all if they do not, and what the
-- parser answers is returned to the caller once and at once, whatever it is; the payload is freed once
-- if there is one on the heap, and the message is released once. Without a method for the number
-- nothing runs and nothing is returned.
pub default_ipc_handler_lem :
    (service : Service) (ms : Segment) (i index : ℕ)
    → read_header service (received ms i) ≡ some index
    → (index < pb_max) ⊎ (methods ms (received ms i) ≡ [])
    → ((f : ℕ) → (service.data_parser index (received ms i).smart_payload f).1 < 2 ^ 32)
    → (rc : Errcode) × (ms' : Segment) × (default_ipc_handler service ms i ≡ some (rc, ms'))
      × (ms'.calls
          ≡ ms.calls
            ++ map
                (λ f. (f, (received ms i).smart_payload))
                (decoding service (received ms i) index (methods ms (received ms i))))
      × (ms'.returned
          ≡ ms.returned
            ++ map (answer_of service (received ms i) index) (methods ms (received ms i)))
      × (ms'.freed ≡ ms.freed ++ payload_blocks (received ms i))
      × (ms'.pool ≡ mblue_message_release ms.pool i)
unfolding serve leave_ipc default_ipc_handler
default_ipc_handler_lem service ms i index reads placed words =
    let m = received ms i in
    let linked = record ms { processing_msg = some i } in
    let serves : default_ipc_handler service ms i ≡ serve service linked i m index =
      rw (reads, default_ipc_handler) refl in
    let o = find_ipc_handler_from_service linked m in
    let low : (f : ℕ) → o ≡ some f → index < pb_max = elim placed [
      | inl low ↦ λ f found. low
      | inr empty ↦ λ f found.
          absurd (no_method o (methods linked m) (find_ipc_handler-methods linked m) empty f found)
    ] in
    let (rc, run, runs, left) = run_found-Left service linked m index o low words in
    let kept = released-kept run m.smart_payload i in
    (
      rc,
      release_message (free_payload run m.smart_payload) i,
      serves ∙ ap (λ (r : Option (Errcode × Segment)). leave_ipc i m.smart_payload r) runs,
      kept.0
          ∙ left.calls
          ∙ ap
              (λ (fs : List ℕ).
                ms.calls ++ map (λ f. (f, m.smart_payload)) (decoding service m index fs))
              (find_ipc_handler-methods linked m),
      kept.1
          ∙ left.returned
          ∙ ap (λ (fs : List ℕ). ms.returned ++ map (answer_of service m index) fs)
              (find_ipc_handler-methods linked m),
      released-freed ms run m.smart_payload i left.freed,
      released-pool ms run m.smart_payload i left.pool,
    )
