-- ===== src/Tests/Log.antt =====
-- Runs of the log.
use mblue.Common.{ℕ, ◌≡◌, ◌+◌, ◌*◌, refl, List, [], ◌∷◌, none, some, replicate, arith}
use mblue.Errcode.{ok}
use mblue.Clock.{Calendar}
use mblue.Log.{
  LogManager, custom_print, log_init, logger_get_instance, log_set_stream, service_launch,
  log_set_type,
}
use mblue.Log.Text.{decimal, IsText, replicate-IsText}
use mblue.Log.Client.{
  Ipc, log_get_file_name_pointer, file_name_loop, log_service_write, log_service_hex, send,
  log_service_log, log_service_hex_minor,
}
use mblue.Log.Entry.{text, log_service_write_lem, log_service_write-overrun}
use mblue.Log.Hex.{hex, unhex}
use mblue.Log.Dump.{dump, log_service_hex_lem}

abbrev noon : Calendar
noon = record { year = 2018; month = 9; day = 11; hour = 12; minute = 0; second = 5 }

abbrev manager : LogManager
manager = record {
  stream_write = some custom_print;
  cache = replicate 128 0;
  log_level = 4;
  log_type = 2;
}

launched : service_launch (logger_get_instance none) ≡ manager
unfolding service_launch log_set_type logger_get_instance log_init log_set_stream
launched = refl

-- "hi"
abbrev hi : List ℕ
hi = 0x68 ∷ 0x69 ∷ []

-- "a/b.c"
abbrev path : List ℕ
path = 0x61 ∷ 0x2F ∷ 0x62 ∷ 0x2E ∷ 0x63 ∷ []

name_of_path : log_get_file_name_pointer path ≡ some (0x62 ∷ 0x2E ∷ 0x63 ∷ [])
unfolding log_get_file_name_pointer file_name_loop
name_of_path = refl

-- A block's address tells how much was asked for.
abbrev plain : Ipc
plain = record {
  malloc = λ size heap. 1024 + 8 * size;
  serialize_dl_1 = λ value heap. (64, heap);
  serialize_dl_12 = λ level bytes heap. (64, heap);
  remote_call = λ minor payload heap. (1, heap);
  remote_call_async = λ minor payload heap. (ok, heap);
}

log_service_write_lem_example :
    log_service_write plain 3 path hi (some [])
    ≡ some (send plain log_service_log 3 (text 3 path hi) 2048 (some (2048 ∷ [])))
unfolding log_get_file_name_pointer file_name_loop decimal
log_service_write_lem_example =
    log_service_write_lem plain 3 2048 path hi []
      (omega arith, (omega arith, (omega arith, (omega arith, (omega arith, tt)))))
      (omega arith, (omega arith, tt)) (omega arith) (omega arith) refl (λ e. omega arith)

-- The text that is sent: "b.c[3] hi"
sent : text 3 path hi ≡ 0x62 ∷ 0x2E ∷ 0x63 ∷ 0x5B ∷ 0x33 ∷ 0x5D ∷ 0x20 ∷ 0x68 ∷ 0x69 ∷ []
unfolding log_get_file_name_pointer file_name_loop decimal
sent = refl

-- A slash and a name of 125 characters.
abbrev long_name : List ℕ
long_name = replicate 125 0x61

long_path-IsText : IsText (0x2F ∷ long_name)
long_path-IsText = (omega arith, replicate-IsText 125 0x61 (omega arith))

log_service_write-overrun_example : log_service_write plain 3 (0x2F ∷ long_name) hi (some []) ≡ none
unfolding log_get_file_name_pointer file_name_loop decimal
log_service_write-overrun_example =
    log_service_write-overrun plain 3 2048 (0x2F ∷ long_name) hi long_name [] long_path-IsText refl
      (omega arith) (omega arith) (omega arith) refl (λ e. omega arith)

log_service_hex_lem_example :
    (log_service_hex plain hi (10 ∷ 255 ∷ []) (some [])
      ≡ some (send plain log_service_hex_minor 0 (dump hi (10 ∷ 255 ∷ [])) 1200 (some (1200 ∷ []))))
    × (unhex (hex (10 ∷ 255 ∷ [])) ≡ 10 ∷ 255 ∷ [])
log_service_hex_lem_example =
    log_service_hex_lem plain hi (10 ∷ 255 ∷ []) [] 1136 1200 (omega arith, (omega arith, tt))
      (omega arith, (omega arith, tt)) (omega arith) refl (λ e. omega arith) refl (λ e. omega arith)
