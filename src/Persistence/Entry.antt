-- ===== src/Persistence/Entry.antt =====
-- An entry of the log in flash: `_log_write` and the reads of mb_persistence.c. The calendar and the
-- heap's answer are arguments; `filled` is the length of the string that the reads so far have left in
-- the caller's buffer.
use mblue.Common.{
  ℕ, ◌+◌, ◌-◌, ◌≤◌, ◌<◌, ◌^◌, ◌≡◌, ◌≢◌, ap, ◌∙◌, Bool, List, [], ◌∷◌, ◌++◌, ltb, ◌==◌,
  if◌then◌else◌, if_intro, Option, none, some, length, replicate, length-append, arith,
}
use mblue.Common.Words.{u32}
use mblue.Clock.{Calendar}
use mblue.Log.{date_text}
use mblue.Log.Terminal.{IsShort, length-date_text, date_text-IsText}
use mblue.Log.Text.{sprintf_lem, IsText, append-IsText, write, string, strlen}
use mblue.Persistence.{
  Device, DeviceCall, erase, Persistence, persistence_write, persistence_read, set_section,
}
use mblue.Persistence.Logger.{Flash, FlashCall, MbLogger, erase_function, flush_head_index}

-- `_prinf_timer` into a cleared block of 32 bytes.
unfoldable pub printf_timer : Option Calendar → Option (List ℕ)
unfolding write
printf_timer none = none
printf_timer (some c) = write (replicate 32 0) 0 (date_text c ++ (0 ∷ []))

-- What the erasures of a write do to the logger.
unfoldable pub after_erasures : Flash → MbLogger → List DeviceCall → MbLogger
unfolding erase_function
after_erasures fl lg [] = lg
after_erasures fl lg (erase addr len ∷ calls) =
    after_erasures fl (erase_function fl lg addr len).1 calls
after_erasures fl lg (call ∷ calls) = after_erasures fl lg calls

-- The text of an entry behind its time.
abbrev pub entry_of : List ℕ → List ℕ → List ℕ
entry_of timer buffer = timer ++ (b' ' ∷ (buffer ++ (b' ' ∷ b'\r' ∷ b'\n' ∷ [])))

-- `_log_write` from the block that it has filled: what the ring answers, the logger, and the calls of
-- the callbacks and of the flash.
unfoldable pub write_entry :
    Device
    → Flash
    → MbLogger
    → Option (List ℕ)
    → Option (ℕ × MbLogger × List DeviceCall × List FlashCall)
unfolding string persistence_write after_erasures flush_head_index
write_entry d fl lg none = none
write_entry d fl lg (some temp) =
    let (ret, ring) =
      persistence_write d (record { section = lg.config; calls = [] }) (string temp) in
    let (flushed, flashed) =
      flush_head_index (after_erasures fl (record lg { config = ring.section }) ring.calls) in
    some (ret, flushed, ring.calls, flashed)

-- `_log_write`; `buffer` is the string that the caller's buffer holds, `p` the answer of
-- `mblue_malloc`. `none` is a write through NULL or behind a block.
unfoldable pub logger_write :
    Device
    → Flash
    → Option Calendar
    → ℕ
    → MbLogger
    → List ℕ
    → ℕ
    → Option (ℕ × MbLogger × List DeviceCall × List FlashCall)
unfolding printf_timer string strlen write write_entry
logger_write d fl calendar p lg buffer len = elim (printf_timer calendar) [
  | none ↦ none
  | some timer ↦
      (if p == 0
        then none
        else write_entry d fl lg (
            write (replicate (u32 (strlen timer + len + 8)) 0) 0
              (entry_of (string timer) buffer ++ (0 ∷ []))))
]

-- `_log_read_next`
unfoldable pub logger_read_next : Device → (Persistence → ℕ) → Persistence → ℕ → Bool × Persistence
unfolding persistence_read
logger_read_next d filled lg len =
    let (ret, lg') = persistence_read d lg len in
    if ret
    then if ltb (filled lg') len then persistence_read d lg' (len - filled lg') else (ret, lg')
    else (ret, lg')

-- `_log_read`: from the beginning of the data.
unfoldable pub logger_read : Device → (Persistence → ℕ) → Persistence → ℕ → Bool × Persistence
unfolding logger_read_next
logger_read d filled lg len =
    logger_read_next d filled
      (set_section lg (record lg.section { cur_read_addr = lg.section.data_start_addr })) len

-- The entry of a text at a time.
abbrev pub entry_at : Calendar → List ℕ → List ℕ
entry_at c buffer = entry_of (date_text c) buffer

entry_at-IsText : (c : Calendar) (buffer : List ℕ) → IsText buffer → IsText (entry_at c buffer)
entry_at-IsText c buffer is_text =
    append-IsText (date_text c) (b' ' ∷ (buffer ++ (b' ' ∷ b'\r' ∷ b'\n' ∷ [])))
      (date_text-IsText c)
      (
        omega arith,
        append-IsText buffer (b' ' ∷ b'\r' ∷ b'\n' ∷ []) is_text
            (omega arith, (omega arith, (omega arith, tt))),
      )

length-entry_at :
    (c : Calendar) (buffer : List ℕ)
    → length (entry_at c buffer) ≡ length (date_text c) + length buffer + 4
length-entry_at c buffer = omega (
  arith,
  length-append (date_text c) (b' ' ∷ (buffer ++ (b' ' ∷ b'\r' ∷ b'\n' ∷ []))),
  length-append buffer (b' ' ∷ b'\r' ∷ b'\n' ∷ []),
)

-- What `_log_write` does with the text of its block.
abbrev pub entered :
    Device → Flash → MbLogger → List ℕ → ℕ × MbLogger × List DeviceCall × List FlashCall
entered d fl lg text =
    let (ret, ring) = persistence_write d (record { section = lg.config; calls = [] }) text in
    let (flushed, flashed) =
      flush_head_index (after_erasures fl (record lg { config = ring.section }) ring.calls) in
    (ret, flushed, ring.calls, flashed)

abbrev with_timer :
    Device
    → Flash
    → ℕ
    → MbLogger
    → List ℕ
    → ℕ
    → Option (List ℕ)
    → Option (ℕ × MbLogger × List DeviceCall × List FlashCall)
with_timer d fl p lg buffer len none = none
with_timer d fl p lg buffer len (some timer) =
    if p == 0
    then none
    else write_entry d fl lg (
        write (replicate (u32 (strlen timer + len + 8)) 0) 0
          (entry_of (string timer) buffer ++ (0 ∷ [])))

-- `_log_write` writes the date, a space, the text of the buffer and " \r\n" to the ring, as one buffer,
-- and then a new head; it writes behind neither of its two blocks. The numbers of the date have the
-- digits of yyyy-mm-dd hh:mm:ss at most, `mblue_malloc` returns a block, and the text has no 0 and at
-- most three characters more than the length that is given.
pub logger_write_lem :
    (d : Device) (fl : Flash) (c : Calendar) (p : ℕ) (lg : MbLogger) (buffer : List ℕ) (len : ℕ)
    → IsShort c
    → IsText buffer
    → length buffer ≤ len + 3
    → len < 2 ^ 31
    → p ≢ 0
    → logger_write d fl (some c) p lg buffer len ≡ some (entered d fl lg (entry_at c buffer))
unfolding logger_write printf_timer write_entry strlen
logger_write_lem d fl c p lg buffer len short is_text fits small ne =
    let bound = length-date_text c short in
    let (timer, first, holds) =
      sprintf_lem 32 (date_text c) (date_text-IsText c) (omega (arith, bound)) in
    let n = u32 (length (date_text c) + len + 8) in
    let (temp, second, full) =
      sprintf_lem n (entry_at c buffer) (entry_at-IsText c buffer is_text)
        (omega (arith, bound, length-entry_at c buffer)) in
    let goal = some (entered d fl lg (entry_at c buffer)) in
    ap (λ (o : Option (List ℕ)). with_timer d fl p lg buffer len o) first
    ∙ if_intro (λ r. r ≡ goal) (p == 0) (λ null. absurd (ne (ground (arith, null))))
        (λ there.
          ap
            (λ (t : List ℕ).
              write_entry d fl lg
                (write (replicate (u32 (length t + len + 8)) 0) 0 (entry_of t buffer ++ (0 ∷ []))))
            holds
          ∙ ap (λ (o : Option (List ℕ)). write_entry d fl lg o) second
          ∙ ap (λ (t : List ℕ). some (entered d fl lg t)) full)
