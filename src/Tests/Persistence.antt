-- ===== src/Tests/Persistence.antt =====
-- Runs of the log in flash.
use mblue.Common.{ℕ, ◌≡◌, ◌≤◌, refl, if◌then◌else◌, ◌==◌, inr, [], ◌∷◌, some, true, false, arith}
use mblue.Persistence.{
  read, persistence_read, read_until, read_to, erase_ahead, write_here, Section, Device,
  Persistence, persistence_write,
}
use mblue.Persistence.Write.{IsWritten, persistence_write-IsWritten}
use mblue.Persistence.Unread.{IsReadable, unread, steps}
use mblue.Persistence.Drain.{drain, IsDrained, drain_lem}
use mblue.Persistence.Logger.{
  Flash, logger_handler, find_loop, is_valid_head_index, is_head, find_valid_head_index,
  magic_number, head_valid_flag,
}
use mblue.Persistence.Head.{IsSearch, find_valid_head_index_lem}

-- A driver that does what it is asked, with sectors of 8 bytes.
abbrev ready : Device
ready = record {
  write_cb = λ addr buffer. 1;
  read_cb = λ addr len. 1;
  erase_cb = λ addr len. 1;
  sector_size = λ addr. 8;
}

-- A section of 24 bytes that has been filled and begun again: the log goes from 116 around its end to
-- 110.
abbrev ring : Section
ring = record {
  start_addr = 100;
  end_addr = 124;
  cur_write_addr = 110;
  cur_read_addr = 120;
  data_start_addr = 116;
  data_end_addr = 110;
  erase_addr = 116;
  magic = magic_number;
  valid = head_valid_flag;
}

abbrev ring_log : Persistence
ring_log = record { section = ring; calls = [] }

ring-IsReadable : IsReadable ring
ring-IsReadable = record {
  read_low = omega arith;
  read_high = omega arith;
  data_low = omega arith;
  end_low = omega arith;
  end_high = omega arith;
  small = omega arith;
  place = inr (omega arith, omega arith);
}

unread-ring :
    unread ring
    ≡ 120 ∷ 121 ∷ 122 ∷ 123 ∷ 100 ∷ 101 ∷ 102 ∷ 103 ∷ 104 ∷ 105 ∷ 106 ∷ 107 ∷ 108 ∷ 109 ∷ []
unfolding unread
unread-ring = refl

steps-ring : steps ring ≤ 20
unfolding steps
steps-ring = omega arith

drain_lem_example : IsDrained ring_log (drain 20 ready 3 ring_log)
drain_lem_example =
    drain_lem 20 ready 3 ring_log (λ addr n (e : 1 ≡ 0). absurd (omega arith)) (omega arith)
      (omega arith) ring-IsReadable steps-ring

-- The write position is 4 bytes before the end of the section.
abbrev near_end : Section
near_end = record ring {
  cur_write_addr = 120;
  data_end_addr = 120;
  data_start_addr = 100;
  cur_read_addr = 100;
}

abbrev near_end_log : Persistence
near_end_log = record { section = near_end; calls = [] }

persistence_write-IsWritten_example :
    IsWritten ready near_end_log
      (1 ∷ 2 ∷ 3 ∷ 4 ∷ 5 ∷ 6 ∷ [])
      ((persistence_write ready near_end_log (1 ∷ 2 ∷ 3 ∷ 4 ∷ 5 ∷ 6 ∷ [])).1)
persistence_write-IsWritten_example =
    persistence_write-IsWritten ready near_end_log (1 ∷ 2 ∷ 3 ∷ 4 ∷ 5 ∷ 6 ∷ [])
      (omega arith, omega arith, omega arith) tt (omega arith)

-- A flash whose third head is the valid one.
abbrev head_of : ℕ → Section
head_of valid = record ring { valid = valid }

abbrev third : Flash
third = record {
  read_head = λ addr. head_of (if addr == 0x0800C048 then head_valid_flag else 0);
  read_bytes = λ addr len. [];
  erase_complete = λ addr len. true;
  in_sector_5 = λ addr. false;
  addr_head = 0x0800C000;
  addr_sector1 = 0x08010000;
  addr_sector2 = 0x08020000;
}

find_third :
    find_valid_head_index 456 third logger_handler
    ≡ some (true, record { config = head_of head_valid_flag; head_index = 3 })
unfolding find_valid_head_index find_loop is_valid_head_index is_head
find_third = refl

find_valid_head_index_lem_example :
    IsSearch third logger_handler (find_valid_head_index 456 third logger_handler)
find_valid_head_index_lem_example =
    find_valid_head_index_lem 456 third logger_handler (omega arith) (omega arith)

-- A writer has gone past the reader: the driver is asked for 2 bytes less than 2 ^ 32.
abbrev overtaken : Persistence
overtaken = record { section = record ring { cur_read_addr = 112 }; calls = [] }

overtaken_reads : (persistence_read ready overtaken 3).1.calls ≡ read 112 0xFFFFFFFE ∷ []
unfolding persistence_read read_until read_to
overtaken_reads = refl

-- The last sector ends at 124, behind the last byte 123 of the section: the log begins behind it.
abbrev last_sector : Persistence
last_sector = record {
  section = record ring {
    end_addr = 123;
    cur_write_addr = 114;
    cur_read_addr = 124;
    data_start_addr = 116;
  };
  calls = [];
}

data_start_behind :
    (persistence_write ready last_sector (1 ∷ 2 ∷ 3 ∷ [])).1.section.data_start_addr ≡ 124
unfolding persistence_write erase_ahead write_here
data_start_behind = refl
