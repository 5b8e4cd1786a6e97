-- ===== src/Tests/Codes.antt =====
-- Runs of the message codes, the sequence counter and the smart data words.
use mblue.Log.Client.{log_service_log}
use mblue.Message.Numbers.{
  log_service_rpc_base, gap_minors, timer_message, async_message, gpio_module_message,
  uart_module_message, uart_service_message, at_service_message, modem_service_message,
  i2c_service_message, gps_service_message, iot_service_message, locator_scenario_message,
  log_service_message, led_service_message,
}
use mblue.Message.Numbers.Ranges.{make_code-injective}
use mblue.SystemBus.{sync_call}
use mblue.Common.{ℕ, ◌+◌, ◌≡◌, refl, true, false, arith}
use mblue.Message.Code.{make_code}
use mblue.SmartData.{
  pb_payload, integer_p, get_pointer, pointer_s, pointer_h, make_pointer_s, make_pointer_h,
  get_pointer-make_pointer,
}

-- SYNC_CALL, MBLUE_LOG_SERVICE, 0x101
packed : make_code 2 2 0x101 ≡ 0x20020101
unfolding make_code
packed = refl

get_pointer-make_pointer_example :
    (pb_payload 0x8040 ≡ true)
    × (get_pointer (make_pointer_s 0x8040) ≡ 0x8040)
    × (get_pointer (make_pointer_h 0x8040) ≡ 0x8040)
    × (pointer_s (make_pointer_s 0x8040) ≡ true)
    × (pointer_h (make_pointer_h 0x8040) ≡ true)
    × (pointer_h (make_pointer_s 0x8040) ≡ false)
    × (pointer_s (make_pointer_h 0x8040) ≡ false)
    × (integer_p (make_pointer_s 0x8040) ≡ false)
    × (pb_payload (make_pointer_s 0x8040) ≡ false)
    × (integer_p (make_pointer_h 0x8040) ≡ false)
    × (pb_payload (make_pointer_h 0x8040) ≡ false)
get_pointer-make_pointer_example =
    get_pointer-make_pointer 0x8040 (omega arith) (omega arith) (λ e. omega arith)

abbrev log_major : ℕ
log_major = 2

abbrev position : ℕ
position = 21

make_code-injective_example :
    (sync_call ≡ sync_call)
    × (log_major ≡ log_major)
    × (log_service_log ≡ log_service_rpc_base + 1)
    × (position ≡ position)
unfolding gap_minors timer_message async_message gpio_module_message uart_module_message
    uart_service_message at_service_message modem_service_message i2c_service_message
    gps_service_message iot_service_message locator_scenario_message log_service_message
    led_service_message
make_code-injective_example =
    make_code-injective sync_call sync_call log_major log_major log_service_log
      (log_service_rpc_base + 1) position position (record { base = 0x1500; count = 5 })
      (record { base = 0x1500; count = 5 }) (omega arith) (omega arith) (omega arith) (omega arith)
      refl (record { low = omega arith; high = omega arith }) refl
      (record { low = omega arith; high = omega arith }) refl
