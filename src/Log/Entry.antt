-- ===== src/Log/Entry.antt =====
-- The text that `log_service_write` sends.
use mathlib.Core.Path.{subst}
use mblue.Common.{
  ℕ, zero, suc, ◌-◌, ◌^◌, ◌≤◌, ◌<◌, ◌≡◌, ◌≢◌, refl, ap, ◌∙◌, List, [], ◌∷◌, ◌++◌, leb, ◌==◌,
  if_intro, Option, none, some, take, length, replicate, length-take, arith,
}
use mblue.Common.Words.{sub32}
use mblue.Errcode.{Errcode}
use mblue.Schema.{Heap}
use mblue.Log.{max_log_cache_len, log_level_max}
use mblue.Log.Client.{
  Ipc, log_get_file_name_pointer, prefix, append_message, entry, send, log_service_write,
  log_service_log,
}
use mblue.Log.Name.{IsNameOf, log_get_file_name_pointer-IsNameOf}
use mblue.Log.Text.{
  IsText, append-IsText, decimal, decimal-IsText, snprintf, snprintf-append, write, take-all,
  string, string-replicate,
}

-- The text of an entry: the file name and the level in brackets where the source has a directory, and the
-- message, cut at 127 characters.
abbrev pub heading : Option (List ℕ) → ℕ → List ℕ
heading none level = []
heading (some name) level = prefix name level

abbrev pub text : ℕ → List ℕ → List ℕ → List ℕ
text level source message =
    let head = heading (log_get_file_name_pointer source) level in
    head ++ take (127 - length head) message

prefix-IsText : (name : List ℕ) (level : ℕ) → IsText name → IsText (prefix name level)
prefix-IsText name level is_text =
    append-IsText name ((b'[' ∷ decimal 10 level) ++ (b']' ∷ b' ' ∷ [])) is_text (
      append-IsText (b'[' ∷ decimal 10 level) (b']' ∷ b' ' ∷ [])
        (omega arith, decimal-IsText 10 level) (omega arith, (omega arith, tt)))

-- The first `snprintf` holds the heading.
headed_lem :
    (head : List ℕ)
    → IsText head
    → length head ≤ 126
    → (block : List ℕ) × (snprintf (replicate 128 0) 0 127 head ≡ some block)
      × (string block ≡ head)
      × (length block ≡ 128)
headed_lem head is_head short =
    let (block, done, holds, long) =
      snprintf-append (replicate 128 0) [] 128 127 126 head (string-replicate 128) refl refl is_head
        (omega (arith, length-take 126 head)) in
    (block, done, holds ∙ take-all 126 head short, long)

-- The second one puts the message behind it.
message_lem :
    (head block message : List ℕ)
    → string block ≡ head
    → length block ≡ 128
    → length head ≤ 127
    → IsText message
    → (result : List ℕ) × (snprintf block (length head) (sub32 128 (length head)) message
        ≡ some result)
      × (string result ≡ head ++ take (127 - length head) message)
message_lem head block message holds long short is_text =
    let (result, done, full, long') =
      snprintf-append block head 128 (sub32 128 (length head)) (127 - length head) message holds
        long (omega (arith, short)) is_text
        (omega (arith, short, length-take (127 - length head) message)) in
    (result, done, full)

entry_lem :
    (level : ℕ) (message : List ℕ) (name : Option (List ℕ))
    → IsText (heading name level)
    → length (heading name level) ≤ 126
    → IsText message
    → (block : List ℕ) × (entry level message name ≡ some block)
      × (string block ≡ heading name level ++ take (127 - length (heading name level)) message)
unfolding entry append_message
entry_lem level message none is_head short is_text =
    let (result, done, full, long) =
      snprintf-append (replicate 128 0) [] 128 128 127 message (string-replicate 128) refl refl
        is_text (omega (arith, length-take 127 message)) in
    (result, done, full)
entry_lem level message (some name) is_head short is_text =
    let head = prefix name level in
    let (block, first, holds, long) = headed_lem head is_head short in
    let (result, second, full) =
      message_lem head block message holds long (omega (arith, short)) is_text in
    (
      result,
      ap (λ (o : Option (List ℕ)). append_message (length head) message o) first ∙ second,
      full,
    )

suffix-IsText : (s t : List ℕ) → IsText (s ++ t) → IsText t
suffix-IsText [] t is_text = is_text
suffix-IsText (c ∷ s) t (ne, is_text) = suffix-IsText s t is_text

heading-IsText :
    (level : ℕ) (source : List ℕ) (name : Option (List ℕ))
    → IsText source
    → IsNameOf source name
    → IsText (heading name level)
heading-IsText level source none is_text is_name = tt
heading-IsText level source (some name) is_text (directory, c, e, found, plain) =
    let (ne, is_rest) = suffix-IsText directory (c ∷ name) (subst IsText e is_text) in
    prefix-IsText name level is_rest

-- A text at an offset behind the end of the block does not fit.
write-behind :
    (block bytes : List ℕ) (offset : ℕ) → length block < offset → write block offset bytes ≡ none
unfolding write
write-behind block bytes offset behind = ground arith

snprintf-behind :
    (block message : List ℕ) (offset size : ℕ)
    → 0 < size
    → length block < offset
    → snprintf block offset size message ≡ none
unfolding snprintf
snprintf-behind block message offset zero positive behind = absurd (omega arith)
snprintf-behind block message offset (suc size) positive behind =
    write-behind block (take size message ++ (0 ∷ [])) offset behind

-- The first `snprintf` cuts the heading, and returns the length it would have had.
cut_lem :
    (head : List ℕ)
    → IsText head
    → (block : List ℕ) × (snprintf (replicate 128 0) 0 127 head ≡ some block) × (length block ≡ 128)
cut_lem head is_head =
    let (block, done, holds, long) =
      snprintf-append (replicate 128 0) [] 128 127 126 head (string-replicate 128) refl refl is_head
        (omega (arith, length-take 126 head)) in
    (block, done, long)

entry-overrun :
    (level : ℕ) (message name : List ℕ)
    → IsText (prefix name level)
    → 128 < length (prefix name level)
    → length (prefix name level) < 2 ^ 31
    → entry level message (some name) ≡ none
unfolding entry append_message
entry-overrun level message name is_head long small =
    let head = prefix name level in
    let (block, first, whole) = cut_lem head is_head in
    ap (λ (o : Option (List ℕ)). append_message (length head) message o) first
    ∙ snprintf-behind block message (length head) (sub32 128 (length head))
        (omega (arith, long, small)) (omega (arith, whole, long))

-- The end of `log_service_write`, from its block's address and contents.
abbrev finish : Ipc → ℕ → List ℕ → ℕ → Option (List ℕ) → Option (Errcode × Heap)
finish ipc level blocks tmp none = none
finish ipc level blocks tmp (some filled) =
    some (send ipc log_service_log level (string filled) tmp (some (tmp ∷ blocks)))

write_step :
    (ipc : Ipc) (level tmp : ℕ) (source message blocks : List ℕ) (block : Option (List ℕ))
    → level < log_level_max
    → ipc.malloc max_log_cache_len (some blocks) ≡ tmp
    → tmp ≢ 0
    → entry level message (log_get_file_name_pointer source) ≡ block
    → log_service_write ipc level source message (some blocks) ≡ finish ipc level blocks tmp block
unfolding log_service_write
write_step ipc level tmp source message blocks block low answer ne e =
    let goal = finish ipc level blocks tmp block in
    if_intro (λ result. result ≡ goal) (leb log_level_max level)
      (λ high. absurd (ground (arith, high)))
      (λ valid.
        if_intro (λ result. result ≡ goal) (ipc.malloc max_log_cache_len (some blocks) == 0)
          (λ null. absurd (ne (ground (arith, null, answer))))
          (λ there.
            ap
              (λ (p : ℕ).
                finish ipc level blocks p (entry level message (log_get_file_name_pointer source)))
              answer
            ∙ ap (λ (o : Option (List ℕ)). finish ipc level blocks tmp o) e))

-- With a level below LOG_LEVEL_MAX and a block from `mblue_malloc`, `log_service_write` sends the file
-- name behind the last separator of the source with the level in brackets, where the source has one,
-- and behind them the message, cut at 127 characters in all, from the block, the only one it holds;
-- nothing is written behind the block. The source and the message have no 0, and the heading has 126
-- characters at most.
pub log_service_write_lem :
    (ipc : Ipc) (level tmp : ℕ) (source message blocks : List ℕ)
    → IsText source
    → IsText message
    → length (heading (log_get_file_name_pointer source) level) ≤ 126
    → level < log_level_max
    → ipc.malloc max_log_cache_len (some blocks) ≡ tmp
    → tmp ≢ 0
    → log_service_write ipc level source message (some blocks)
      ≡ some (send ipc log_service_log level (text level source message) tmp (some (tmp ∷ blocks)))
log_service_write_lem ipc level tmp source message blocks is_source is_text short low answer ne =
    let name = log_get_file_name_pointer source in
    let is_head =
      heading-IsText level source name is_source (log_get_file_name_pointer-IsNameOf source) in
    let (block, done, full) = entry_lem level message name is_head short is_text in
    write_step ipc level tmp source message blocks (some block) low answer ne done
    ∙ ap (λ (t : List ℕ). some (send ipc log_service_log level t tmp (some (tmp ∷ blocks)))) full

-- When the heading is longer than the 128 bytes of the block, `log_service_write` writes behind it,
-- whatever the message is: for a valid level, a block from `mblue_malloc` and a source without a 0.
pub log_service_write-overrun :
    (ipc : Ipc) (level tmp : ℕ) (source message name blocks : List ℕ)
    → IsText source
    → log_get_file_name_pointer source ≡ some name
    → 128 < length (prefix name level)
    → length (prefix name level) < 2 ^ 31
    → level < log_level_max
    → ipc.malloc max_log_cache_len (some blocks) ≡ tmp
    → tmp ≢ 0
    → log_service_write ipc level source message (some blocks) ≡ none
log_service_write-overrun ipc level tmp source message name blocks is_source found long small low
      answer ne =
    let is_head =
      heading-IsText level source (some name) is_source
        (subst (IsNameOf source) found (log_get_file_name_pointer-IsNameOf source)) in
    write_step ipc level tmp source message blocks none low answer ne (
      ap (λ (o : Option (List ℕ)). entry level message o) found
      ∙ entry-overrun level message name is_head long small)
