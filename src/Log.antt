-- ===== src/Log.antt =====
-- middleware/components/log/log.c and service/log/log_service.c: the log manager and the handlers of
-- the log service. A string argument is the text up to its 0; the answer of the system's clock is an
-- argument, and what the stream is called with is part of the result.
pub mod Text
pub mod Terminal
pub mod Client
pub mod Name
pub mod Entry
pub mod Hex
pub mod Dump
use mblue.Common.{
  ℕ, ◌+◌, ◌-◌, Bool, List, [], ◌∷◌, ◌++◌, ltb, leb, if◌then◌else◌, Option, none, some, replicate,
  length,
}
use mblue.Common.Int.{ℤ, pos, negsuc}
use mblue.Common.Words.{sub32, word}
use mblue.Errcode.{ok}
use mblue.SmartData.{make_integer}
use mblue.Clock.{Calendar}
use mblue.Log.Text.{snprintf, strlen, string, decimal}

abbrev pub max_log_cache_len : ℕ
max_log_cache_len = 128

abbrev pub max_calendar_string_len : ℕ
max_calendar_string_len = 20

-- `enum log_level`
abbrev pub log_disable : ℕ
log_disable = 0

abbrev pub log_info : ℕ
log_info = 3

abbrev pub log_debug : ℕ
log_debug = 4

abbrev pub log_level_max : ℕ
log_level_max = 5

-- `enum log_type` and `LOG_STREAM`
abbrev pub log_type_print : ℕ
log_type_print = 1

abbrev pub log_type_max : ℕ
log_type_max = 7

abbrev pub log_stream : ℕ
log_stream = 2

-- The functions that `stream_write` may point to: `custom_print`, and others by their number.
pub data Stream : Type 0 where
  custom_print : Stream
  other : ℕ → Stream

-- `struct log_manager`, less its methods; no stream is NULL.
pub record LogManager : Type 0 where
  pub stream_write : Option Stream
  pub cache : List ℕ
  pub log_level : ℕ
  pub log_type : ℕ

-- A stream is called with the string that the cache holds.
abbrev pub Written : Type 0
Written = List (Stream × List ℕ)

unfoldable pub log_set_stream : LogManager → Option Stream → ℤ × LogManager
log_set_stream lm none = (negsuc 0, lm)
log_set_stream lm (some flush) = (pos 0, record lm { stream_write = some flush })

unfoldable pub log_init : LogManager → LogManager
unfolding log_set_stream
log_init lm =
    (log_set_stream (record lm { log_level = log_debug; log_type = log_type_print })
      (some custom_print)).1

unfoldable pub log_uninit : LogManager → ℤ × LogManager
log_uninit lm = (pos 0, lm)

-- The initial value of `log_manage`
abbrev pub log_manage : LogManager
log_manage = record {
  stream_write = none;
  cache = replicate max_log_cache_len 0;
  log_level = log_disable;
  log_type = 0;
}

-- `logger_get_instance`: the argument is the manager at `lm`, `none` for NULL.
unfoldable pub logger_get_instance : Option LogManager → LogManager
unfolding log_init
logger_get_instance none = log_init log_manage
logger_get_instance (some lm) = lm

unfoldable pub log_set_level : LogManager → ℕ → LogManager
log_set_level lm level = if ltb level log_level_max then record lm { log_level = level } else lm

unfoldable pub log_set_type : LogManager → ℕ → LogManager
log_set_type lm type = if ltb type log_type_max then record lm { log_type = type } else lm

-- The text of `_get_date`; `%d` of an `int` has ten digits at most.
unfoldable pub date_text : Calendar → List ℕ
date_text c =
    decimal 10 c.year
    ++ ((b'-' ∷ decimal 10 c.month)
        ++ ((b'-' ∷ decimal 10 c.day)
            ++ ((b' ' ∷ decimal 10 c.hour)
                ++ ((b':' ∷ decimal 10 c.minute) ++ (b':' ∷ decimal 10 c.second)))))

-- `_get_date` into the cache, and what it returns, the length of the whole text. Without a calendar
-- it reads through NULL: `none`.
unfoldable pub get_date : Option Calendar → List ℕ → Option (List ℕ × ℕ)
unfolding snprintf
get_date none buffer = none
get_date (some c) buffer = elim (snprintf buffer 0 max_calendar_string_len (date_text c)) [
  | none ↦ none
  | some written ↦ some (written, length (date_text c))
]

-- The line that `_write_to_terminal` puts behind the date.
abbrev pub line : List ℕ → List ℕ
line data_text = b' ' ∷ (data_text ++ (b'\n' ∷ []))

-- The stream is called with the cache; `none` when the cache was overrun.
unfoldable pub flush_cache : LogManager → Stream → Option (List ℕ) → Option (LogManager × Written)
unfolding string
flush_cache lm flush none = none
flush_cache lm flush (some cache) = some (record lm { cache = cache }, (flush, string cache) ∷ [])

unfoldable pub append_line :
    LogManager → Stream → List ℕ → Option (List ℕ × ℕ) → Option (LogManager × Written)
unfolding flush_cache snprintf
append_line lm flush data_text none = none
append_line lm flush data_text (some (dated, date_len)) =
    flush_cache lm flush
      (snprintf dated date_len (sub32 max_log_cache_len date_len) (line data_text))

unfoldable pub write_to_terminal :
    Option Calendar → LogManager → List ℕ → Option (LogManager × Written)
unfolding append_line get_date
write_to_terminal calendar lm data_text = elim lm.stream_write [
  | none ↦ some (lm, [])
  | some flush ↦ append_line lm flush data_text (get_date calendar (replicate max_log_cache_len 0))
]

-- `log_write` of log.c; it returns 0.
unfoldable pub log_write : Option Calendar → LogManager → ℕ → List ℕ → Option (LogManager × Written)
unfolding write_to_terminal
log_write calendar lm level buffer =
    if leb level lm.log_level then write_to_terminal calendar lm buffer else some (lm, [])

-- `service_launch` of log_service.c
unfoldable pub service_launch : LogManager → LogManager
unfolding log_set_type
service_launch lm = log_set_type lm log_stream

-- The handlers of the log service and what they answer.
unfoldable pub write_log :
    Option Calendar → LogManager → ℕ → List ℕ → Option (ℕ × LogManager × Written)
unfolding log_write
write_log calendar lm level buffer = elim (log_write calendar lm level buffer) [
  | none ↦ none
  | some (lm', written) ↦ some (make_integer (word ok), lm', written)
]

unfoldable pub set_log_type : LogManager → ℕ → ℕ × LogManager
unfolding log_set_type
set_log_type lm type = (make_integer (word ok), log_set_type lm type)

unfoldable pub set_log_level : LogManager → ℕ → ℕ × LogManager
unfolding log_set_level
set_log_level lm level = (make_integer (word ok), log_set_level lm level)

unfoldable pub hex_print :
    Option Calendar → LogManager → ℕ → List ℕ → Option (ℕ × LogManager × Written)
unfolding write_log
hex_print calendar lm tag buffer = write_log calendar lm log_info buffer
