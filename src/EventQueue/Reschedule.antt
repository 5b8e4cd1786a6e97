-- ===== src/EventQueue/Reschedule.antt =====
-- Rescheduling a delayed event: the old element makes room for the new one.
use mathlib.Core.Option.{some-injective}
use mathlib.Core.Path.{subst}
use mblue.Common.{
  update, ℕ, ◌+◌, ◌^◌, ◌≤◌, ◌<◌, ◌≡◌, ◌≢◌, refl, sym, ap, ◌∙◌, true, false, ◌||◌, Option, none,
  some, List, [], ◌∷◌, ◌++◌, ◌==◌, ==_iff, bit_and, bit_or, arith, Bool-cases, inl, inr,
}
use mblue.Common.Bits.{bit, bit-bit_and, bit-lt, eq_zero_of_bits}
use mblue.Common.Words.{not32}
use mblue.Errcode.{Errcode, ok, err_unknown}
use mblue.Timer.{TimerList, mblue_timer_get, mblue_timer_release, get_timer_list_instance}
use mblue.EventQueue.{
  Element, EventQueue, Client, find_type, delete_loop, event_queue_delete, event_queue_add,
  release_tick, free_event_element, arm, link, start, chain, event_timeout_forever,
}
use mblue.EventQueue.Bitmap.{total}
use mblue.EventQueue.Delete.{
  IsEventQueue, has_type, other_types, event_queue_delete_lem, event_queue_delete-IsEventQueue,
}
use mblue.EventQueue.Helper.{
  reschedule_delayed_event_with_type, schedule_delayed_event_with_type, delayed_element,
}

total-other_types-le : (k type : ℕ) (es : List Element) → total k (other_types type es) ≤ total k es
total-other_types-le k type [] = omega arith
total-other_types-le k type (e ∷ es) = ground (arith, total-other_types-le k type es)

-- The linked elements of the type account for its bits.
total-other_types :
    (k type : ℕ) (es : List Element)
    → has_type type es ≡ true
    → bit k type + total k (other_types type es) ≤ total k es
total-other_types k type [] h = cc
total-other_types k type (e ∷ es) h = elim (Bool-cases (e.type == type)) [
  | inl hit ↦
      let same = (==_iff e.type type).0 hit in
      rw hit (omega (arith, ap (bit k) same, total-other_types-le k type es))
  | inr miss ↦ rw miss (omega (arith, total-other_types k type es (rw miss at h)))
]

-- After `event_queue_delete` of a linked type none of its bits is marked.
pub delete-unmarks :
    (q : EventQueue) (type : ℕ)
    → type < 2 ^ 32
    → IsEventQueue q
    → has_type type q.queue ≡ true
    → bit_and (event_queue_delete q type).1.event_bm type ≡ 0
delete-unmarks q type ht t h = eq_zero_of_bits _ λ k.
    let t' = event_queue_delete-IsEventQueue q type ht t in
    omega (
      arith,
      bit-bit_and k (event_queue_delete q type).1.event_bm type,
      t'.bits k,
      ap (total k) (event_queue_delete_lem q type).0,
      total-other_types k type q.queue h,
      t.bits k,
      bit-lt k q.event_bm,
      bit-lt k type,
    )

-- The pool is set up and has a timer to hand out.
abbrev HasTimer : TimerList → Type 0
HasTimer l = (i : ℕ) × (rest : List ℕ) × (l.ready ≡ true) × (l.timer_lists ≡ i ∷ rest)

append_nonempty : (xs : List ℕ) (t : ℕ) → (i : ℕ) × (rest : List ℕ) × (xs ++ (t ∷ []) ≡ i ∷ rest)
append_nonempty [] t = (t, [], refl)
append_nonempty (x ∷ xs) t = (x, xs ++ (t ∷ []), refl)

mblue_timer_release-HasTimer : (l : TimerList) (t : ℕ) → HasTimer (mblue_timer_release l t)
unfolding mblue_timer_release get_timer_list_instance
mblue_timer_release-HasTimer l t =
    let (i, rest, e) = append_nonempty (get_timer_list_instance l).timer_lists t in
    (i, rest, ground arith, e)

release_tick-HasTimer :
    (l : TimerList) (tick : Option ℕ) → HasTimer l → HasTimer (release_tick l tick).1
unfolding release_tick
release_tick-HasTimer l none h = h
release_tick-HasTimer l (some t) h =
    mblue_timer_release-HasTimer
      (record l { timer_pool = update l.timer_pool t (record (l.timer_pool t) { obj = none }) }) t

module _ (type : ℕ) where
  delete_loop-HasTimer :
      (before ahead : List Element) (ret : Errcode) (q : EventQueue)
      → HasTimer q.timers
      → HasTimer (delete_loop type before ahead ret q).1.timers
  unfolding delete_loop free_event_element
  delete_loop-HasTimer before [] ret q h = h
  delete_loop-HasTimer before (x ∷ ahead) ret q h = elim (Bool-cases (x.type == type)) [
    | inl hit ↦
        rw (hit, delete_loop)
          (delete_loop-HasTimer before ahead ok
            (free_event_element (record q { event_bm = bit_and q.event_bm (not32 type) }) before x
              ahead)
            (release_tick-HasTimer q.timers x.tick h))
    | inr miss ↦ rw (miss, delete_loop) (delete_loop-HasTimer (before ++ (x ∷ [])) ahead ret q h)
  ]

  -- Deleting an element with a timer leaves a timer in the pool.
  delete_loop-gives_timer :
      (before ahead : List Element) (ret : Errcode) (q : EventQueue) {e : Element} {t : ℕ}
      → find_type type ahead ≡ some e
      → e.tick ≡ some t
      → HasTimer (delete_loop type before ahead ret q).1.timers
  unfolding delete_loop free_event_element find_type
  delete_loop-gives_timer before [] ret q found timed = cc
  delete_loop-gives_timer before (x ∷ ahead) ret q {e} {t} found timed =
      elim (Bool-cases (x.type == type)) [
        | inl hit ↦
            let same : x ≡ e = some-injective _ _ (rw hit at found) in
            let tick : x.tick ≡ some t = ap (λ y. y.tick) same ∙ timed in
            rw (hit, delete_loop)
              (delete_loop-HasTimer before ahead ok
                (free_event_element (record q { event_bm = bit_and q.event_bm (not32 type) }) before
                  x ahead)
                (subst (λ (o : Option ℕ). HasTimer (release_tick q.timers o).1) (sym tick)
                  (mblue_timer_release-HasTimer
                    (record q.timers {
                      timer_pool =
                          update q.timers.timer_pool t
                            (record (q.timers.timer_pool t) { obj = none });
                    })
                    t)))
        | inr miss ↦
            rw (miss, delete_loop)
              (delete_loop-gives_timer (before ++ (x ∷ [])) ahead ret q (rw miss at found) timed)
      ]

mblue_timer_get-some : (l : TimerList) → HasTimer l → (i : ℕ) × ((mblue_timer_get l).0 ≡ some i)
unfolding mblue_timer_get
mblue_timer_get-some l (i, rest, set_up, e) = (i, ground (arith, set_up, e))

arm-ne-none :
    (c : Client) (q : EventQueue) (e : Element) (a : ℕ)
    → HasTimer q.timers
    → ((i : ℕ) → c.timer_block i ≢ 0)
    → arm c q e a ≢ none
unfolding arm
arm-ne-none c q e a h room =
    let (i, got) = mblue_timer_get-some q.timers h in
    elim (Bool-cases (e.period == 0 || e.period == event_timeout_forever)) [
      | inl untimed ↦ rw untimed (λ x. cc)
      | inr timed ↦ rw timed (ground (arith, got, room i))
    ]

link-some :
    (c : Client) (q : EventQueue) (e : Element) (a : ℕ) (armed : Option (Option ℕ × TimerList))
    → chain e 0 ≡ 0
    → armed ≢ none
    → (one : Element) × (q' : EventQueue) × (link c q e a armed ≡ some (ok, q'))
      × (q'.queue ≡ q.queue ++ (one ∷ []))
      × (one.type ≡ e.type)
      × (one.period ≡ e.period)
      × (one.call_chain ≡ e.call_chain)
      × (one.address ≡ a)
unfolding link start
link-some c q e a none no_start h = absurd (h refl)
link-some c q e a (some (tick, l)) no_start h = (
  record e { address = a; tick = tick },
  record q {
    event_bm = bit_or q.event_bm e.type;
    queue = q.queue ++ (record e { address = a; tick = tick } ∷ []);
    timers = l;
  },
  ground arith,
  refl,
  refl,
  refl,
  refl,
  refl,
)

has_type_of_find_type :
    (type : ℕ) (es : List Element) {e : Element}
    → find_type type es ≡ some e
    → has_type type es ≡ true
unfolding find_type
has_type_of_find_type type [] h = cc
has_type_of_find_type type (x ∷ es) {e} h = ground (arith, has_type_of_find_type type es {e = e})

test_true : {x : ℕ} → x ≡ 0 → (x == 0) ≡ true
test_true h = ground arith

test_false : {x : ℕ} → x ≢ 0 → (x == 0) ≡ false
test_false h = ground arith

reschedule_pending :
    (c : Client) (q : EventQueue) (timeout type delayed_event : ℕ) (fresh : Option ℕ)
    → bit_and q.event_bm type ≢ 0
    → reschedule_delayed_event_with_type c q timeout type delayed_event fresh
      ≡ schedule_delayed_event_with_type c
          (event_queue_delete q type).1
          timeout
          type
          delayed_event
          fresh
unfolding reschedule_delayed_event_with_type
reschedule_pending c q timeout type delayed_event fresh h =
    rw (test_false h, reschedule_delayed_event_with_type) refl

schedule_clear :
    (c : Client) (q : EventQueue) (timeout type delayed_event : ℕ) (fresh : Option ℕ)
    → bit_and q.event_bm type ≡ 0
    → schedule_delayed_event_with_type c q timeout type delayed_event fresh
      ≡ event_queue_add c q (delayed_element timeout type delayed_event) fresh
unfolding schedule_delayed_event_with_type
schedule_clear c q timeout type delayed_event fresh h =
    rw (test_true h, schedule_delayed_event_with_type) refl

add_clear :
    (c : Client) (q : EventQueue) (e : Element) (a : ℕ)
    → bit_and q.event_bm e.type ≡ 0
    → event_queue_add c q e (some a) ≡ link c q e a (arm c q e a)
unfolding event_queue_add
add_clear c q e a h = rw (test_true h, event_queue_add) refl

-- Rescheduling a linked event that has a timer, when the heap has room for the new element and timer,
-- always succeeds: the old elements of the type are gone and one new element of the type, with the
-- new timeout and handler, is linked behind the others.
pub reschedule_lem :
    (c : Client) (q : EventQueue) (timeout type delayed_event a : ℕ) {e : Element} {t : ℕ}
    → type < 2 ^ 32
    → IsEventQueue q
    → find_type type q.queue ≡ some e
    → e.tick ≡ some t
    → bit_and q.event_bm type ≢ 0
    → ((i : ℕ) → c.timer_block i ≢ 0)
    → (one : Element) × (q' : EventQueue) × (reschedule_delayed_event_with_type c q timeout type
          delayed_event
          (some a)
        ≡ some (ok, q'))
      × (q'.queue ≡ other_types type q.queue ++ (one ∷ []))
      × (one.type ≡ type)
      × (one.period ≡ timeout)
      × (one.call_chain ≡ 0 ∷ delayed_event ∷ 0 ∷ 0 ∷ [])
      × (one.address ≡ a)
unfolding event_queue_delete delayed_element
reschedule_lem c q timeout type delayed_event a {e} {t} ht tracked found timed pending room =
    let mid = (event_queue_delete q type).1 in
    let new = delayed_element timeout type delayed_event in
    let timers = delete_loop-gives_timer type [] q.queue err_unknown q found timed in
    let (one, q', done, linked, type_of, period_of, chain_of, place) =
      link-some c mid new a (arm c mid new a) refl (arm-ne-none c mid new a timers room) in
    let clear = delete-unmarks q type ht tracked (has_type_of_find_type type q.queue found) in
    (
      one,
      q',
      reschedule_pending c q timeout type delayed_event (some a) pending
          ∙ schedule_clear c mid timeout type delayed_event (some a) clear
          ∙ add_clear c mid new a clear
          ∙ done,
      linked ∙ ap (λ (es : List Element). es ++ (one ∷ [])) (event_queue_delete_lem q type).0,
      type_of,
      period_of,
      chain_of,
      place,
    )
