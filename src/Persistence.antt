-- ===== src/Persistence.antt =====
-- middleware/components/persistence_manager/mb_persistence.c: the ring of log data in a section of the
-- flash. The flash driver mb_flash.h is not part of the repository: its callbacks are the parameter
-- `Device`, and every call of them is recorded in `calls`, in order. Addresses and lengths are 32-bit
-- words; an `int` that the source tests is true when it is not 0.
pub mod Write
pub mod Unread
pub mod Progress
pub mod Read
pub mod Drain
pub mod Logger
pub mod Head
pub mod Start
pub mod Entry
use mblue.Common.{
  ℕ, ◌+◌, ◌-◌, ◌%◌, ◌^◌, Bool, true, false, not, ◌&&◌, List, [], ◌∷◌, ◌++◌, ltb, leb, ◌==◌,
  if◌then◌else◌, length, take, drop,
}
use mblue.Common.Words.{u32, sub32}

-- `struct data_section_info`
pub record Section : Type 0 where
  pub start_addr : ℕ
  pub end_addr : ℕ
  pub cur_write_addr : ℕ
  pub cur_read_addr : ℕ
  pub data_start_addr : ℕ
  pub data_end_addr : ℕ
  pub erase_addr : ℕ
  pub magic : ℕ
  pub valid : ℕ

pub data DeviceCall : Type 0 where
  write : ℕ → List ℕ → DeviceCall
  read : ℕ → ℕ → DeviceCall
  erase : ℕ → ℕ → DeviceCall

-- The answers of the callbacks, and `_get_flash_sector_size`.
pub record Device : Type 0 where
  pub write_cb : ℕ → List ℕ → ℕ
  pub read_cb : ℕ → ℕ → ℕ
  pub erase_cb : ℕ → ℕ → ℕ
  pub sector_size : ℕ → ℕ

-- `struct mb_persistence` and the calls made so far
pub record Persistence : Type 0 where
  pub section : Section
  pub calls : List DeviceCall

abbrev pub log_call : Persistence → DeviceCall → Persistence
log_call lg c = record lg { calls = lg.calls ++ (c ∷ []) }

abbrev pub set_section : Persistence → Section → Persistence
set_section lg s = record lg { section = s }

-- The erasure at the head of a write that reaches beyond `erase_addr`.
unfoldable pub erase_ahead : Device → Persistence → Persistence
erase_ahead d lg =
    let s = lg.section in
    let from = if s.end_addr == s.erase_addr then s.start_addr else s.erase_addr in
    let size = d.sector_size from in
    let to = u32 (from + size) in
    log_call
      (set_section lg (record s {
        erase_addr = to;
        data_start_addr = if to == s.end_addr then s.start_addr else to;
      }))
      (erase from size)

-- The buffer is written at `cur_write_addr`.
unfoldable pub write_here : Device → Persistence → List ℕ → ℕ × Persistence
write_here d lg buffer =
    let s = lg.section in
    let ret = d.write_cb s.cur_write_addr buffer in
    let to = if ret == 0 then s.cur_write_addr else u32 (s.cur_write_addr + length buffer) in
    (
      ret,
      set_section (log_call lg (write s.cur_write_addr buffer))
          (record s { cur_write_addr = to; data_end_addr = to }),
    )

-- The buffer fills what is left of the section and goes on at its start.
unfoldable pub write_around : Device → Persistence → List ℕ → ℕ × Persistence
write_around d lg buffer =
    let s = lg.section in
    let write_size = sub32 s.end_addr s.cur_write_addr in
    let size = d.sector_size s.start_addr in
    let more = drop write_size buffer in
    let ret = d.write_cb s.start_addr more in
    let to = if ret == 0 then s.start_addr else u32 (s.start_addr + length more) in
    (
      length buffer,
      record {
        section = record s {
          cur_write_addr = to;
          data_end_addr = to;
          erase_addr = u32 (s.start_addr + size);
          data_start_addr = u32 (s.start_addr + size);
        };
        calls =
            lg.calls
            ++ (write s.cur_write_addr (take write_size buffer)
                ∷ erase s.start_addr size
                ∷ write s.start_addr more
                ∷ []);
      },
    )

unfoldable pub persistence_write : Device → Persistence → List ℕ → ℕ × Persistence
unfolding erase_ahead write_here write_around
persistence_write d lg buffer =
    let s = lg.section in
    let to = u32 (s.cur_write_addr + length buffer) in
    if leb to s.end_addr
    then write_here d (if ltb s.erase_addr to then erase_ahead d lg else lg) buffer
    else write_around d lg buffer

-- A read of `len` bytes, after which the reader stands at `to` if it succeeds.
unfoldable pub read_to : Device → Persistence → ℕ → ℕ → Bool × Persistence
read_to d lg len to =
    let s = lg.section in
    let ret = not (d.read_cb s.cur_read_addr len == 0) in
    let lg' = log_call lg (read s.cur_read_addr len) in
    (ret, if ret then set_section lg' (record s { cur_read_addr = to }) else lg')

-- At most `len` bytes of those before `limit`; behind them the reader stands at `next`.
unfoldable pub read_until : Device → Persistence → ℕ → ℕ → ℕ → Bool × Persistence
unfolding read_to
read_until d lg len limit next =
    let s = lg.section in
    let to = u32 (s.cur_read_addr + len) in
    if leb to limit then read_to d lg len to else read_to d lg (sub32 limit s.cur_read_addr) next

-- The part of the ring from `data_start_addr` to the end of the section.
unfoldable pub read_upper : Device → Persistence → ℕ → Bool × Persistence
unfolding read_until
read_upper d lg len =
    let s = lg.section in
    if not (leb (u32 (s.cur_read_addr + len)) s.end_addr) && (s.end_addr == s.cur_read_addr)
    then (true, set_section lg (record s { cur_read_addr = s.start_addr }))
    else read_until d lg len s.end_addr s.start_addr

unfoldable pub persistence_read : Device → Persistence → ℕ → Bool × Persistence
unfolding read_until read_upper
persistence_read d lg len =
    let s = lg.section in
    if s.cur_read_addr == s.data_end_addr
    then (false, lg)
    else if ltb s.data_start_addr s.data_end_addr
    then read_until d lg len s.data_end_addr s.data_end_addr
    else if leb s.data_start_addr s.cur_read_addr
    then read_upper d lg len
    else read_until d lg len s.data_end_addr s.data_end_addr

unfoldable pub persistence_clear : Device → Persistence → Bool × Persistence
persistence_clear d lg =
    (not (d.erase_cb lg.section.start_addr 0 == 0), log_call lg (erase lg.section.start_addr 0))
