-- ===== src/Message/Numbers.antt =====
-- middleware/components/message/message_def.h: the numbers of the messages. An enumeration counts up
-- from a base for the signals and from one for the calls of a service; only the bases have names here.
pub mod Ranges
use mblue.Common.{
  ℕ, zero, suc, ◌+◌, ◌*◌, ◌^◌, ◌≤◌, ◌<◌, ◌≡◌, refl, ap, ◌∙◌, Bool, true, ◌&&◌, List, [], ◌∷◌, ◌++◌,
  leb, ◌==◌, Option, some, get_elem?, length, arith,
}

-- The members from `base` on, `base` itself among them.
pub record Members : Type 0 where
  pub base : ℕ
  pub count : ℕ

abbrev members : ℕ → ℕ → Members
members base count = record { base = base; count = count }

abbrev pub minor_default_gap : ℕ
minor_default_gap = 0x100

abbrev pub timer_signal_base : ℕ
timer_signal_base = 0

abbrev pub timer_rpc_base : ℕ
timer_rpc_base = timer_signal_base + minor_default_gap

-- MBLUE_SYS_TURN_ON to MBLUE_SYS_POWER_PLUGOUT, which are no enumeration.
unfoldable pub system_message : Members
system_message = members 1 9

unfoldable pub timer_message : List Members
timer_message = members timer_signal_base 2 ∷ members timer_rpc_base 7 ∷ []

abbrev pub async_signal_base : ℕ
async_signal_base = timer_rpc_base + minor_default_gap

abbrev pub async_rpc_base : ℕ
async_rpc_base = async_signal_base + minor_default_gap

unfoldable pub async_message : List Members
async_message = members async_signal_base 1 ∷ members async_rpc_base 3 ∷ []

abbrev pub gpio_module_signal_base : ℕ
gpio_module_signal_base = async_rpc_base + minor_default_gap

unfoldable pub gpio_module_message : List Members
gpio_module_message = members gpio_module_signal_base 4 ∷ []

abbrev pub uart_module_signal_base : ℕ
uart_module_signal_base = gpio_module_signal_base + minor_default_gap

unfoldable pub uart_module_message : List Members
uart_module_message = members uart_module_signal_base 10 ∷ []

abbrev pub uart_service_signal_base : ℕ
uart_service_signal_base = uart_module_signal_base + minor_default_gap

abbrev pub uart_service_rpc_base : ℕ
uart_service_rpc_base = uart_service_signal_base + minor_default_gap

unfoldable pub uart_service_message : List Members
uart_service_message = members uart_service_signal_base 3 ∷ members uart_service_rpc_base 2 ∷ []

abbrev pub at_service_signal_base : ℕ
at_service_signal_base = uart_service_rpc_base + minor_default_gap

abbrev pub at_service_rpc_base : ℕ
at_service_rpc_base = at_service_signal_base + minor_default_gap

unfoldable pub at_service_message : List Members
at_service_message = members at_service_signal_base 2 ∷ members at_service_rpc_base 2 ∷ []

abbrev pub modem_service_signal_base : ℕ
modem_service_signal_base = at_service_rpc_base + minor_default_gap

abbrev pub modem_service_rpc_base : ℕ
modem_service_rpc_base = modem_service_signal_base + minor_default_gap

unfoldable pub modem_service_message : List Members
modem_service_message = members modem_service_signal_base 1 ∷ members modem_service_rpc_base 15 ∷ []

abbrev pub i2c_service_signal_base : ℕ
i2c_service_signal_base = modem_service_rpc_base + minor_default_gap

abbrev pub i2c_service_rpc_base : ℕ
i2c_service_rpc_base = i2c_service_signal_base + minor_default_gap

unfoldable pub i2c_service_message : List Members
i2c_service_message = members i2c_service_signal_base 1 ∷ members i2c_service_rpc_base 3 ∷ []

abbrev pub gps_service_signal_base : ℕ
gps_service_signal_base = i2c_service_rpc_base + minor_default_gap

abbrev pub gps_service_rpc_base : ℕ
gps_service_rpc_base = gps_service_signal_base + minor_default_gap

unfoldable pub gps_service_message : List Members
gps_service_message = members gps_service_signal_base 2 ∷ members gps_service_rpc_base 4 ∷ []

abbrev pub iot_service_signal_base : ℕ
iot_service_signal_base = gps_service_rpc_base + minor_default_gap

abbrev pub iot_service_rpc_base : ℕ
iot_service_rpc_base = iot_service_signal_base + minor_default_gap

unfoldable pub iot_service_message : List Members
iot_service_message = members iot_service_signal_base 7 ∷ members iot_service_rpc_base 4 ∷ []

abbrev pub locator_scenario_signal_base : ℕ
locator_scenario_signal_base = iot_service_rpc_base + minor_default_gap

abbrev pub locator_scenario_rpc_base : ℕ
locator_scenario_rpc_base = locator_scenario_signal_base + minor_default_gap

unfoldable pub locator_scenario_message : List Members
locator_scenario_message =
    members locator_scenario_signal_base 3 ∷ members locator_scenario_rpc_base 1 ∷ []

abbrev pub log_service_signal_base : ℕ
log_service_signal_base = locator_scenario_rpc_base + minor_default_gap

abbrev pub log_service_rpc_base : ℕ
log_service_rpc_base = log_service_signal_base + minor_default_gap

unfoldable pub log_service_message : List Members
log_service_message = members log_service_signal_base 1 ∷ members log_service_rpc_base 5 ∷ []

abbrev pub led_service_signal_base : ℕ
led_service_signal_base = log_service_rpc_base + minor_default_gap

abbrev pub led_service_rpc_base : ℕ
led_service_rpc_base = led_service_signal_base + minor_default_gap

unfoldable pub led_service_message : List Members
led_service_message = members led_service_signal_base 1 ∷ members led_service_rpc_base 2 ∷ []

-- The enumerations, in the file's order; they are laid out by the gap, the system messages are not.
unfoldable pub gap_minors : List Members
unfolding timer_message async_message gpio_module_message uart_module_message uart_service_message
    at_service_message modem_service_message i2c_service_message gps_service_message
    iot_service_message locator_scenario_message log_service_message led_service_message
gap_minors =
    timer_message ++ async_message ++ gpio_module_message ++ uart_module_message
    ++ uart_service_message ++ at_service_message ++ modem_service_message ++ i2c_service_message
    ++ gps_service_message ++ iot_service_message ++ locator_scenario_message ++ log_service_message
    ++ led_service_message
