-- ===== src/SystemBus/Service.antt =====
-- service/system_bus/system_bus_service.c: the handlers that the task of the bus runs on a message,
-- by its type.
use mblue.Common.{ℕ, Option, none, ◌==◌, if◌then◌else◌}
use mblue.Errcode.{Errcode}
use mblue.Message.Code.{get_type, get_major}
use mblue.SystemBus.{
  Bus, message, release, bus_subscribe, bus_signal, bus_call, bus_call_return, subscribe, signal,
  sync_call, async_call, call_return,
}

unfoldable pub handle_subscribe : Bus → ℕ → ℕ → Option (Errcode × Bus)
handle_subscribe bus block i =
    let m = message bus i in bus_subscribe (release bus i) block m.extra (get_major m.code)

unfoldable pub handle_signal : Bus → ℕ → Option (Errcode × Bus)
handle_signal bus i = bus_signal bus i

unfoldable pub handle_call : Bus → ℕ → ℕ → Option (Errcode × Bus)
handle_call bus block i = bus_call bus block i (message bus i).extra

unfoldable pub handle_call_return : Bus → ℕ → Option (Errcode × Bus)
handle_call_return bus i = bus_call_return bus i

-- `get_handler` of the segment that `system_bus_service_init` sets up; a type without a handler is
-- a call through NULL.
unfoldable pub handle : Bus → ℕ → ℕ → Option (Errcode × Bus)
unfolding handle_subscribe handle_signal handle_call handle_call_return
handle bus block i =
    let type = get_type (message bus i).code in
    if type == subscribe
    then handle_subscribe bus block i
    else if type == signal
    then handle_signal bus i
    else if (type == sync_call)
    then handle_call bus block i
    else if (type == async_call)
    then handle_call bus block i
    else if type == call_return
    then handle_call_return bus i
    else none
