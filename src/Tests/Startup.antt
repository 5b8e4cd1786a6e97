-- ===== src/Tests/Startup.antt =====
-- The start of a system with the bus at 301 and a service at 300, both of the task at 10.
use mblue.Common.{◌≡◌, refl, true, none, some, arith, [], ◌∷◌, ◌==◌, if◌then◌else◌}
use mblue.Message.Pool.{zero_message}
use mblue.Task.{Task}
use mblue.SystemBus.{bus_contex_notify, bus_register, bus_init, init_nodes}
use mblue.Ipc.{Ipc}
use mblue.Startup.{
  attach, regist, segment_bind, Startup, attaches, launches, notifies, blank, Reach, starts, steps,
}
use mblue.Startup.Order.{IsStarting, Reach-IsStarting}

abbrev quiet : Task
quiet = record {
  nproc = true;
  tpost = true;
  mq = record { size = 0; next = 0; capacity = 3; slots = 0 ∷ 0 ∷ 0 ∷ [] };
  msg_sem = 0;
  call_sem = 0;
}

abbrev off : Ipc
off = record {
  main_task = 10;
  bus = record {
    pool = record {
      ready = true;
      count = 0;
      msg_list = [];
      mblue_message_pool = λ i. zero_message;
    };
    ms = λ major. 0;
    publish_list = λ major. [];
    call_list = λ major. [];
    init_lock = 0;
    get_context = λ ms. 0;
    tasks = λ t. quiet;
    slots = λ a. 0;
    notified = [];
    freed = [];
  };
  segments = λ t. [];
  major = λ ms. if ms == 301 then 0 else 4;
}

service_waits : segment_bind (blank off).ipc 10 300 ≡ none
unfolding segment_bind attach regist bus_register bus_init init_nodes
service_waits = refl

abbrev first_attached : Startup
first_attached = record (blank off) {
  ipc = attach (blank off).ipc 10 301;
  attached = (10, 301) ∷ [];
}

first_launched : (ipc : Ipc) × (regist first_attached.ipc 301 ≡ some ipc)
unfolding attach regist bus_register bus_init init_nodes
first_launched = (_, refl)

abbrev bus_launched : Startup
bus_launched = record first_attached { ipc = first_launched.0; launched = 301 ∷ [] }

abbrev bus_notified : Startup
bus_notified = record bus_launched {
  ipc = record bus_launched.ipc { bus = bus_contex_notify bus_launched.ipc.bus };
  notified = 1;
}

bus_notified-Reach : Reach off bus_notified
bus_notified-Reach =
    steps bus_launched _
      (steps first_attached _
        (steps (blank off) _ starts (attaches (blank off) 10 301 (λ e. omega arith)))
        (launches first_attached 301 (first_launched.0) (λ e. omega arith) (first_launched.1)))
      (notifies bus_launched)

Reach-IsStarting_example : IsStarting bus_notified
Reach-IsStarting_example = Reach-IsStarting off bus_notified bus_notified-Reach
