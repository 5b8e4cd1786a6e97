-- ===== src/Startup/Order.antt =====
-- What holds at every moment of the start, in any order of the tasks.
use mathlib.Core.Path.{subst}
use mblue.Common.{
  ltb, ◌⊎◌, ◌<◌, ℕ, suc, ◌+◌, ◌*◌, ◌-◌, ◌≡◌, refl, sym, ap, ◌∙◌, true, false, inl, inr, Option,
  none, some, List, [], ◌∷◌, ◌++◌, ◌==◌, if◌then◌else◌, update, arith, Bool-cases,
}
use mblue.SystemBus.{
  mblue_bus, segment_major_max, init_nodes, bus_init, bus_register, bus_contex_notify, at_node,
}
use mblue.Ipc.{Ipc}
use mblue.Startup.{
  attach, regist, Startup, attaches, launches, notifies, blank, Reach, starts, steps,
}

-- The launched segments that are not the bus.
abbrev pub others : (ℕ → ℕ) → List ℕ → ℕ
others major [] = 0
others major (ms ∷ launched) =
    let rest = others major launched in if major ms == mblue_bus then rest else suc rest

-- The latest launched segment of a major number, 0 if there is none.
abbrev pub latest : (ℕ → ℕ) → ℕ → List ℕ → ℕ
latest major m [] = 0
latest major m (ms ∷ launched) =
    let rest = latest major m launched in if m == major ms then ms else rest

-- The segments attached to a task, the first of them first, and the last task of a segment.
abbrev pub attached_to : ℕ → List (ℕ × ℕ) → List ℕ
attached_to task [] = []
attached_to task ((t, ms) ∷ attached) =
    let rest = attached_to task attached in if task == t then rest ++ (ms ∷ []) else rest

abbrev pub task_of : ℕ → List (ℕ × ℕ) → ℕ
task_of ms [] = 0
task_of ms ((t, m) ∷ attached) = let rest = task_of ms attached in if ms == m then t else rest

-- The bus has let as many other segments through as its lock has lost, the bus has the latest segment
-- of each major number, and tasks and segments know each other as they were attached.
pub record IsStarting (s : Startup) : Type 0 where
  pub lock : others s.ipc.major s.launched + s.ipc.bus.init_lock ≡ s.notified * segment_major_max
  pub registered : (m : ℕ) → s.ipc.bus.ms m ≡ latest s.ipc.major m s.launched
  pub bound : (task : ℕ) → s.ipc.segments task ≡ attached_to task s.attached
  pub context : (ms : ℕ) → s.ipc.bus.get_context ms ≡ task_of ms s.attached

attach-IsStarting :
    (s : Startup) (task ms : ℕ)
    → IsStarting s
    → IsStarting (record s { ipc = attach s.ipc task ms; attached = (task, ms) ∷ s.attached })
unfolding attach
attach-IsStarting s task ms i = record {
  lock = i.lock;
  registered = i.registered;
  bound = λ t. ground (i.bound t, i.bound task, arith);
  context = λ m. ground (i.context m, arith);
}

notify-IsStarting :
    (s : Startup)
    → IsStarting s
    → IsStarting (record s {
      ipc = record s.ipc { bus = bus_contex_notify s.ipc.bus };
      notified = suc s.notified;
    })
unfolding bus_contex_notify
notify-IsStarting s i = record {
  lock = omega (arith, i.lock);
  registered = i.registered;
  bound = i.bound;
  context = i.context;
}

blank-IsStarting : (ipc : Ipc) → IsStarting (blank ipc)
unfolding bus_init init_nodes
blank-IsStarting ipc = record {
  lock = omega arith;
  registered = λ m. refl;
  bound = λ task. refl;
  context = λ ms. refl;
}

-- The system behind a registration.
abbrev passed : Ipc → ℕ → ℕ → Ipc
passed ipc ms lock = record ipc {
  bus = record ipc.bus { init_lock = lock; ms = update ipc.bus.ms (ipc.major ms) ms };
}

some_injective : (default a b : Ipc) → some a ≡ some b → a ≡ b
some_injective default a b e = ap (λ (o : Option Ipc). elim o [ none ↦ default | some x ↦ x ]) e

regist_bus :
    (ipc : Ipc) (ms : ℕ)
    → (ipc.major ms == mblue_bus) ≡ true
    → regist ipc ms ≡ some (passed ipc ms ipc.bus.init_lock)
unfolding regist bus_register
regist_bus ipc ms is_bus = rw (regist, bus_register, is_bus) refl

regist_waits :
    (ipc : Ipc) (ms : ℕ)
    → (ipc.major ms == mblue_bus) ≡ false
    → (ipc.bus.init_lock == 0) ≡ true
    → regist ipc ms ≡ none
unfolding regist bus_register
regist_waits ipc ms other locked = rw (regist, bus_register, other, locked) refl

regist_passes :
    (ipc : Ipc) (ms : ℕ)
    → (ipc.major ms == mblue_bus) ≡ false
    → (ipc.bus.init_lock == 0) ≡ false
    → ltb (ipc.major ms) segment_major_max ≡ true
    → regist ipc ms ≡ some (passed ipc ms (ipc.bus.init_lock - 1))
unfolding regist bus_register at_node
regist_passes ipc ms other free low = rw (regist, bus_register, other, free, low) refl

regist_beyond :
    (ipc : Ipc) (ms : ℕ)
    → (ipc.major ms == mblue_bus) ≡ false
    → (ipc.bus.init_lock == 0) ≡ false
    → ltb (ipc.major ms) segment_major_max ≡ false
    → regist ipc ms ≡ none
unfolding regist bus_register at_node
regist_beyond ipc ms other free beyond = rw (regist, bus_register, other, free, beyond) refl

regist_cases :
    (ipc ipc' : Ipc) (ms : ℕ)
    → regist ipc ms ≡ some ipc'
    → (((ipc.major ms == mblue_bus) ≡ true) × (passed ipc ms ipc.bus.init_lock ≡ ipc'))
      ⊎ (((ipc.major ms == mblue_bus) ≡ false)
          × (0 < ipc.bus.init_lock)
          × (passed ipc ms (ipc.bus.init_lock - 1) ≡ ipc'))
regist_cases ipc ipc' ms e = elim (Bool-cases (ipc.major ms == mblue_bus)) [
  | inl is_bus ↦ inl (is_bus, some_injective ipc _ _ (sym (regist_bus ipc ms is_bus) ∙ e))
  | inr other ↦ elim (Bool-cases (ipc.bus.init_lock == 0)) [
    | inl locked ↦ absurd (cc (regist_waits ipc ms other locked, e))
    | inr free ↦ elim (Bool-cases (ltb (ipc.major ms) segment_major_max)) [
      | inr beyond ↦ absurd (cc (regist_beyond ipc ms other free beyond, e))
      | inl low ↦ inr (
        other,
        ground (arith, free),
        some_injective ipc _ _ (sym (regist_passes ipc ms other free low) ∙ e),
      )
    ]
  ]
]

launch-IsStarting :
    (s : Startup) (ms lock : ℕ)
    → IsStarting s
    → others s.ipc.major (ms ∷ s.launched) + lock ≡ s.notified * segment_major_max
    → IsStarting (record s { ipc = passed s.ipc ms lock; launched = ms ∷ s.launched })
launch-IsStarting s ms lock i locked = record {
  lock = locked;
  registered = λ m. ground (i.registered m, arith);
  bound = i.bound;
  context = i.context;
}

-- In every order in which tasks attach and launch their segments, which are not NULL and of the major
-- numbers that the bus has a node for, and the bus says that it is up, the
-- lock of the bus and the other segments launched so far make up 7 for every time that the bus was up;
-- the bus knows the latest segment launched of each major number, and the lists of the tasks and the
-- tasks of the segments are as they were attached.
pub Reach-IsStarting : (ipc : Ipc) (s : Startup) → Reach ipc s → IsStarting s
Reach-IsStarting ipc _ starts = blank-IsStarting ipc
Reach-IsStarting ipc _ (steps s _ before (attaches _ task ms there)) =
    attach-IsStarting s task ms (Reach-IsStarting ipc s before)
Reach-IsStarting ipc _ (steps s _ before (notifies _)) =
    notify-IsStarting s (Reach-IsStarting ipc s before)
Reach-IsStarting ipc _ (steps s _ before (launches _ ms ipc' there done)) =
    let i = Reach-IsStarting ipc s before in
    elim (regist_cases s.ipc ipc' ms done) [
      | inl (is_bus, e) ↦
          subst (λ x. IsStarting (record s { ipc = x; launched = ms ∷ s.launched })) e
            (launch-IsStarting s ms s.ipc.bus.init_lock i (ground (arith, is_bus, i.lock)))
      | inr (other, free, e) ↦
          subst (λ x. IsStarting (record s { ipc = x; launched = ms ∷ s.launched })) e
            (launch-IsStarting s ms (s.ipc.bus.init_lock - 1) i (ground (arith, other, i.lock)))
    ]
