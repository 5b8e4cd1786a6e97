-- ===== src/Persistence/Logger.antt =====
-- middleware/components/persistence_manager/mb_persistence.c: the heads of the log, a table of
-- `struct data_section_info` below the log of which at most one is valid. The flash driver mb_flash.h
-- is the parameter `Flash`; the calls of it that change the flash are recorded in order. A head is 9
-- words, 36 bytes, on the 32-bit targets.
use mblue.Common.{
  ℕ, zero, suc, ◌+◌, ◌*◌, ◌-◌, Bool, true, false, not, ◌&&◌, List, [], ◌∷◌, ◌++◌, ltb, leb, ◌==◌,
  if◌then◌else◌, Option, none, some,
}
use mblue.Common.Words.{u32}
use mblue.Persistence.{Section}

-- `struct mb_logger`
pub record MbLogger : Type 0 where
  pub config : Section
  pub head_index : ℕ

pub data FlashCall : Type 0 where
  write_word : ℕ → ℕ → FlashCall
  write_head : ℕ → Section → FlashCall
  erase_flash : ℕ → ℕ → FlashCall

-- What `mb_flash_read` leaves in a head or in a buffer of bytes, whether `mb_flash_erase` answers
-- FLASH_COMPLETE, whether an address is in FLASH_Sector_5, and FLASH_ADDR_HEAD, _SECTOR1, _SECTOR2.
pub record Flash : Type 0 where
  pub read_head : ℕ → Section
  pub read_bytes : ℕ → ℕ → List ℕ
  pub erase_complete : ℕ → ℕ → Bool
  pub in_sector_5 : ℕ → Bool
  pub addr_head : ℕ
  pub addr_sector1 : ℕ
  pub addr_sector2 : ℕ

abbrev pub log_head_space_size : ℕ
log_head_space_size = 0x4000

abbrev pub flash_start_addr : ℕ
flash_start_addr = 0x0800C000

abbrev pub log_start_addr : ℕ
log_start_addr = 0x08010000

abbrev pub log_end_addr : ℕ
log_end_addr = 0x0803FFFF

abbrev pub magic_number : ℕ
magic_number = 12345678

abbrev pub head_valid_flag : ℕ
head_valid_flag = 0xFFFFFFFF

abbrev pub head_size : ℕ
head_size = 36

-- `_erase_function`: an erasure in the first sector of 128k begins the heads again.
unfoldable pub erase_function : Flash → MbLogger → ℕ → ℕ → Bool × MbLogger × List FlashCall
erase_function fl lg addr len = (
  fl.erase_complete addr len,
  if fl.in_sector_5 addr then record lg { head_index = 0 } else lg,
  erase_flash addr len ∷ [],
)

-- `_set_head_index_invalid`: the last word of the head is set to 0.
unfoldable pub set_head_index_invalid : ℕ → List FlashCall
set_head_index_invalid index =
    write_word (u32 (flash_start_addr + index * head_size + head_size - 4)) 0 ∷ []

unfoldable pub is_valid_head_index : ℕ → Bool
is_valid_head_index index = not (ltb log_head_space_size (u32 (u32 (index + 1) * head_size)))

-- `_flush_head_index`
unfoldable pub flush_head_index : MbLogger → MbLogger × List FlashCall
unfolding set_head_index_invalid is_valid_head_index
flush_head_index lg =
    let old = if ltb 0 lg.head_index then set_head_index_invalid (lg.head_index - 1) else [] in
    if is_valid_head_index lg.head_index
    then (
      record lg { head_index = u32 (lg.head_index + 1) },
      old ++ (write_head (u32 (flash_start_addr + lg.head_index * head_size)) lg.config ∷ []),
    )
    else (
      record lg { head_index = 0 },
      old ++ (erase_flash flash_start_addr log_head_space_size ∷ []),
    )

-- `_log_clear`; it does not touch the logger.
unfoldable pub log_clear : Flash → List FlashCall
log_clear fl =
    erase_flash fl.addr_head 0 ∷ erase_flash fl.addr_sector1 0 ∷ erase_flash fl.addr_sector2 0 ∷ []

-- The test of a head that is read: it was written, and it was not replaced.
unfoldable pub is_head : Section → Bool
is_head head = head.magic == magic_number && (head.valid == head_valid_flag)

-- The loop of `__find_valid_head_index`; `none` when the fuel is used up.
unfoldable pub find_loop : ℕ → Flash → MbLogger → Option (Bool × MbLogger)
unfolding is_valid_head_index is_head
find_loop zero fl lg = none
find_loop (suc fuel) fl lg =
    let head = fl.read_head (u32 (flash_start_addr + lg.head_index * head_size)) in
    let next = u32 (lg.head_index + 1) in
    let rest = find_loop fuel fl (record lg { head_index = next }) in
    if is_valid_head_index lg.head_index
    then if is_head head then some (true, record { config = head; head_index = next }) else rest
    else some (false, lg)

unfoldable pub find_valid_head_index : ℕ → Flash → MbLogger → Option (Bool × MbLogger)
unfolding is_valid_head_index find_loop
find_valid_head_index fuel fl lg =
    if is_valid_head_index lg.head_index then find_loop fuel fl lg else some (false, lg)

-- `__is_valid_flash_space`: all the bytes are erased.
unfoldable pub is_valid_flash_space : Bool → List ℕ → Bool
is_valid_flash_space valid [] = valid
is_valid_flash_space valid (c ∷ p) = is_valid_flash_space (valid && (c == 0xFF)) p

-- What follows an erasure of all the data in `_init_check` and
-- `__confirm_head_and_data_section_valid`.
unfoldable pub start_again : Flash → MbLogger → MbLogger × List FlashCall
unfolding log_clear flush_head_index
start_again fl lg = let flushed = flush_head_index lg in (flushed.0, log_clear fl ++ flushed.1)

-- `__confirm_head_and_data_section_valid`
unfoldable pub confirm_head_and_data_section_valid : Flash → MbLogger → MbLogger × List FlashCall
unfolding is_valid_flash_space start_again
confirm_head_and_data_section_valid fl lg =
    let start = lg.config.cur_write_addr in
    if leb lg.config.start_addr start && ltb start lg.config.end_addr
    then if leb (u32 (start + 8)) lg.config.end_addr
      then if not (is_valid_flash_space true (fl.read_bytes start 8))
        then start_again fl lg
        else (lg, [])
      else (lg, [])
    else (lg, [])

-- What `_init_check` does with the answer of the search.
unfoldable pub check_found : Flash → Option (Bool × MbLogger) → Option (MbLogger × List FlashCall)
unfolding start_again confirm_head_and_data_section_valid
check_found fl none = none
check_found fl (some (false, lg)) = some (start_again fl lg)
check_found fl (some (true, lg)) = some (confirm_head_and_data_section_valid fl lg)

unfoldable pub init_check : ℕ → Flash → MbLogger → Option (MbLogger × List FlashCall)
unfolding start_again find_valid_head_index check_found
init_check fuel fl lg =
    if (fl.read_head flash_start_addr).magic == magic_number
    then check_found fl (find_valid_head_index fuel fl lg)
    else some (start_again fl lg)

-- The initial value of `logger_handler`
abbrev pub logger_handler : MbLogger
logger_handler = record {
  config = record {
    start_addr = log_start_addr;
    end_addr = log_end_addr;
    cur_write_addr = log_start_addr;
    cur_read_addr = log_start_addr;
    data_start_addr = log_start_addr;
    data_end_addr = log_start_addr;
    erase_addr = log_end_addr;
    magic = magic_number;
    valid = head_valid_flag;
  };
  head_index = 0;
}

-- `get_log_instance`: the argument is `instance`, `none` for NULL.
unfoldable pub get_log_instance : ℕ → Flash → Option MbLogger → Option (MbLogger × List FlashCall)
unfolding init_check
get_log_instance fuel fl none = init_check fuel fl logger_handler
get_log_instance fuel fl (some lg) = some (lg, [])
