-- ===== src/Startup.antt =====
-- How the system comes up: `segment_bind` of pal/task/mblue_stdtask.c with `bus_register` and
-- `bus_contex_notify` of the system bus. `segment_bind` of a segment other than the bus waits for the
-- bus in the middle, so that its two halves are two steps; tasks take them in any order.
pub mod Order
use mblue.Common.{
  ℕ, suc, ◌+◌, ◌*◌, ◌≡◌, ◌≢◌, Bool, not, Option, none, some, List, [], ◌∷◌, ◌++◌, ◌==◌,
  if◌then◌else◌, update,
}
use mblue.SystemBus.{Bus, mblue_bus, bus_init, bus_register, bus_contex_notify}
use mblue.Ipc.{Ipc}

-- `segment_bind` up to the call of `regist`.
unfoldable pub attach : Ipc → ℕ → ℕ → Ipc
attach ipc task ms = record ipc {
  bus = record ipc.bus { get_context = update ipc.bus.get_context ms task };
  segments = update ipc.segments task (ipc.segments task ++ (ms ∷ []));
}

-- The call of `regist`, `none` while it waits for the bus or for a major number behind the nodes; the segment is launched behind it.
unfoldable pub regist : Ipc → ℕ → Option Ipc
unfolding bus_register
regist ipc ms = elim (bus_register ipc.bus ms (ipc.major ms)) [
  | none ↦ none
  | some bus ↦ some (record ipc { bus = bus })
]

-- Without another task in between; `none` as for `regist`.
unfoldable pub segment_bind : Ipc → ℕ → ℕ → Option Ipc
unfolding attach regist
segment_bind ipc task ms = regist (attach ipc task ms) ms

-- What has happened so far: the segments attached with their tasks and the segments launched, the
-- latest first, and how often the bus has said that it is up.
pub record Startup : Type 0 where
  pub ipc : Ipc
  pub attached : List (ℕ × ℕ)
  pub launched : List ℕ
  pub notified : ℕ

pub data Step : Startup → Startup → Type 0 where
  attaches :
      (s : Startup) (task ms : ℕ)
      → ms ≢ 0
      → Step s (record s { ipc = attach s.ipc task ms; attached = (task, ms) ∷ s.attached })
  launches :
      (s : Startup) (ms : ℕ) (ipc : Ipc)
      → ms ≢ 0
      → regist s.ipc ms ≡ some ipc
      → Step s (record s { ipc = ipc; launched = ms ∷ s.launched })
  notifies :
      (s : Startup)
      → Step s (record s {
        ipc = record s.ipc { bus = bus_contex_notify s.ipc.bus };
        notified = suc s.notified;
      })

-- The system before any task runs.
abbrev pub blank : Ipc → Startup
blank ipc = record {
  ipc = record ipc {
    bus = (bus_init (record ipc.bus { ms = λ major. 0; get_context = λ ms. 0 })).1;
    segments = λ task. [];
  };
  attached = [];
  launched = [];
  notified = 0;
}

pub data Reach (ipc : Ipc) : Startup → Type 0 where
  starts : Reach ipc (blank ipc)
  steps : (s s' : Startup) → Reach ipc s → Step s s' → Reach ipc s'
