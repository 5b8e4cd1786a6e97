-- ===== src/Log/Client.antt =====
-- ipc/mblue_global_ipc_method.c: the calls of the log service.
use mblue.Common.{
  ℕ, zero, suc, ◌+◌, ◌-◌, ◌*◌, ◌/◌, ◌%◌, ◌||◌, List, [], ◌∷◌, ◌++◌, ltb, leb, ◌==◌, if◌then◌else◌,
  Option, none, some, drop, get_or, length, replicate,
}
use mblue.Common.Words.{sub32, u32, signed}
use mblue.Errcode.{Errcode, err_unknown, err_pb_encode, err_nomem, err_log_level}
use mblue.SmartData.{get_integer}
use mblue.Schema.{Heap, mblue_free, taken}
use mblue.Message.Numbers.{log_service_rpc_base}
use mblue.Log.{max_log_cache_len, log_level_max}
use mblue.Log.Text.{write, snprintf, strlen, string, decimal}

-- What the calls use of the other components: `mblue_malloc`, `mblue_serialize_ipc` of a `dl_1` and of
-- a `dl_12` (NULL is 0), `mblue_remote_call` and `mblue_remote_call_async` to MBLUE_LOG_SERVICE with a
-- minor number and a payload.
pub record Ipc : Type 0 where
  pub malloc : ℕ → Heap → ℕ
  pub serialize_dl_1 : ℕ → Heap → ℕ × Heap
  pub serialize_dl_12 : ℕ → List ℕ → Heap → ℕ × Heap
  pub remote_call : ℕ → ℕ → Heap → ℕ × Heap
  pub remote_call_async : ℕ → ℕ → Heap → Errcode × Heap

-- The members of `enum LOG_SERVICE_MESSAGE` behind its base.
abbrev pub log_service_log : ℕ
log_service_log = log_service_rpc_base + 1

abbrev pub log_service_set_type_minor : ℕ
log_service_set_type_minor = log_service_rpc_base + 2

abbrev pub log_service_set_level_minor : ℕ
log_service_set_level_minor = log_service_rpc_base + 3

abbrev pub log_service_hex_minor : ℕ
log_service_hex_minor = log_service_rpc_base + 4

-- The synchronous call of a `dl_1`, which the next two functions share.
abbrev pub call_dl_1 : Ipc → ℕ → ℕ → Heap → Errcode × Heap
call_dl_1 ipc minor value heap =
    let (payload, sent) = ipc.serialize_dl_1 value heap in
    let (return_data, heap') = ipc.remote_call minor payload sent in
    if payload == 0 then (err_unknown, sent) else (signed (get_integer return_data), heap')

unfoldable pub log_service_set_type : Ipc → ℕ → Heap → Errcode × Heap
unfolding get_integer
log_service_set_type ipc type heap = call_dl_1 ipc log_service_set_type_minor type heap

unfoldable pub log_service_set_level : Ipc → ℕ → Heap → Errcode × Heap
unfolding get_integer
log_service_set_level ipc level heap = call_dl_1 ipc log_service_set_level_minor level heap

-- The loop of `__log_get_file_name_pointer`: what stands behind the last separator before `pos`.
unfoldable pub file_name_loop : List ℕ → ℕ → Option (List ℕ)
file_name_loop full_path zero = none
file_name_loop full_path (suc pos) =
    let rest = file_name_loop full_path pos in
    let c = get_or full_path pos 0 in
    if (c == b'\\') || (c == b'/') then some (drop (suc pos) full_path) else rest

unfoldable pub log_get_file_name_pointer : List ℕ → Option (List ℕ)
unfolding file_name_loop
log_get_file_name_pointer full_path = file_name_loop full_path (length full_path)

-- `mblue_serialize_ipc` of a bundle of bytes in a block, which is freed, and the call.
unfoldable pub send : Ipc → ℕ → ℕ → List ℕ → ℕ → Heap → Errcode × Heap
unfolding mblue_free
send ipc minor level bytes block heap =
    let (payload, serialized) = ipc.serialize_dl_12 level bytes heap in
    let freed = mblue_free block serialized in
    if payload == 0 then (err_pb_encode, freed) else ipc.remote_call_async minor payload freed

-- "%s[%d] " of a file name and a level.
abbrev pub prefix : List ℕ → ℕ → List ℕ
prefix name level = name ++ ((b'[' ∷ decimal 10 level) ++ (b']' ∷ b' ' ∷ []))

-- The second `vsnprintf` of `log_service_write`, at what the first one returned.
unfoldable pub append_message : ℕ → List ℕ → Option (List ℕ) → Option (List ℕ)
unfolding snprintf
append_message log_len message none = none
append_message log_len message (some headed) =
    snprintf headed log_len (sub32 max_log_cache_len log_len) message

-- The block that `log_service_write` fills, for what `__log_get_file_name_pointer` returns; `none`
-- where it writes behind the end.
unfoldable pub entry : ℕ → List ℕ → Option (List ℕ) → Option (List ℕ)
unfolding snprintf append_message
entry level message none = snprintf (replicate max_log_cache_len 0) 0 max_log_cache_len message
entry level message (some p) =
    append_message (length (prefix p level)) message
      (snprintf (replicate max_log_cache_len 0) 0 (max_log_cache_len - 1) (prefix p level))

-- `log_service_write`; `message` is what `fmt` and its arguments print.
unfoldable pub log_service_write : Ipc → ℕ → List ℕ → List ℕ → Heap → Option (Errcode × Heap)
unfolding log_get_file_name_pointer entry string send
log_service_write ipc level source message heap =
    let tmp = ipc.malloc max_log_cache_len heap in
    if leb log_level_max level
    then some (err_log_level, heap)
    else if tmp == 0
    then some (err_nomem, heap)
    else elim (entry level message (log_get_file_name_pointer source)) [
      | none ↦ none
      | some text ↦ some (send ipc log_service_log level (string text) tmp (taken tmp heap))
    ]

-- `%x` of a byte.
unfoldable pub hex_digit : ℕ → ℕ
hex_digit d = if ltb d 10 then b'0' + d else b'a' + (d - 10)

unfoldable pub hexadecimal : ℕ → List ℕ
unfolding hex_digit
hexadecimal c = if ltb c 16 then hex_digit c ∷ [] else hex_digit (c / 16) ∷ hex_digit (c % 16) ∷ []

-- The loop of `log_service_hex` over its block.
unfoldable pub hex_loop : List ℕ → List ℕ → Option (List ℕ)
unfolding snprintf strlen hexadecimal
hex_loop [] block = some block
hex_loop (c ∷ buffer) block =
    let text = if ltb c 16 then b'0' ∷ hexadecimal c else hexadecimal c in
    elim (snprintf block (strlen block) 3 text) [
      | none ↦ none
      | some block' ↦ hex_loop buffer block'
    ]

-- `log_service_hex` behind its loop: the digits go behind the prefix, `filled` is the second block.
unfoldable pub send_hex : Ipc → ℕ → ℕ → Heap → Option (List ℕ) → Option (Errcode × Heap)
unfolding string send
send_hex ipc data_array temp heap none = none
send_hex ipc data_array temp heap (some filled) =
    if temp == 0
    then none
    else some (
        send ipc log_service_hex_minor 0 (string filled) temp
          (mblue_free data_array (taken temp (taken data_array heap))))

unfoldable pub print_hex : Ipc → List ℕ → ℕ → Heap → Option (List ℕ) → Option (Errcode × Heap)
unfolding string strlen write send_hex
print_hex ipc name data_array heap none = none
print_hex ipc name data_array heap (some block) =
    let size = u32 (length name + strlen block + 16) in
    let temp = ipc.malloc size (taken data_array heap) in
    let text = name ++ ((b':' ∷ string block) ++ (b'\n' ∷ [])) in
    if data_array == 0
    then none
    else send_hex ipc data_array temp heap (write (replicate size 0) 0 (text ++ (0 ∷ [])))

-- `log_service_hex`; `none` where it writes through NULL or behind the end of a block.
unfoldable pub log_service_hex : Ipc → List ℕ → List ℕ → Heap → Option (Errcode × Heap)
unfolding hex_loop print_hex
log_service_hex ipc name buffer heap =
    let size = u32 (length buffer * 3 + 8) in
    print_hex ipc name (ipc.malloc size heap) heap (hex_loop buffer (replicate size 0))
