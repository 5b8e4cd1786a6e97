-- ===== src/Message/Numbers/Ranges.antt =====
-- The ranges of message numbers: each lies in the gap of its own position.
use mblue.Common.{
  ℕ, zero, suc, ◌+◌, ◌*◌, ◌/◌, ◌^◌, ◌≤◌, ◌<◌, ◌≡◌, refl, ap, sym, ◌∙◌, Bool, true, ◌&&◌, List, [],
  ◌∷◌, leb, ◌==◌, some, get_elem?, length, arith,
}
use mathlib.Core.Option.{some-injective}
use mblue.Message.Code.{make_code, get-make_code, get_minor, get_type, get_major}
use mblue.Message.Numbers.{
  Members, minor_default_gap, gap_minors, timer_message, async_message, gpio_module_message,
  uart_module_message, uart_service_message, at_service_message, modem_service_message,
  i2c_service_message, gps_service_message, iot_service_message, locator_scenario_message,
  log_service_message, led_service_message,
}

-- The ranges from position `k` on start at the multiples of the gap and stay inside.
abbrev in_order : ℕ → List Members → Bool
in_order k [] = true
in_order k (m ∷ ms) =
    (m.base == minor_default_gap * k) && leb m.count minor_default_gap && in_order (suc k) ms

order_of :
    (m : Members) (ms : List Members) (k : ℕ)
    → in_order k (m ∷ ms) ≡ true
    → (m.base ≡ minor_default_gap * k)
      × (m.count ≤ minor_default_gap)
      × (in_order (suc k) ms ≡ true)
order_of m ms k order = ground arith

in_order-get_elem :
    (ms : List Members) (k i : ℕ) (m : Members)
    → in_order k ms ≡ true
    → get_elem? ms i ≡ some m
    → (m.base ≡ minor_default_gap * (k + i)) × (m.count ≤ minor_default_gap) × (i < length ms)
in_order-get_elem [] k i m order found = grind arith
in_order-get_elem (m ∷ ms) k zero n order found =
    let e : m ≡ n = some-injective m n found in
    (
      omega (arith, ap (λ (m : Members). m.base) (sym e), (order_of m ms k order).0),
      omega (arith, ap (λ (m : Members). m.count) (sym e), (order_of m ms k order).1),
      omega arith,
    )
in_order-get_elem (m ∷ ms) k (suc i) n order found =
    let (base, count, low) = in_order-get_elem ms (suc k) i n ((order_of m ms k order).2) found in
    (omega (arith, base), count, omega (arith, low))

pub record IsMember (minor : ℕ) (m : Members) : Type 0 where
  pub low : m.base ≤ minor
  pub high : minor < m.base + m.count

gap_minors-in_order : in_order 0 gap_minors ≡ true
unfolding gap_minors timer_message async_message gpio_module_message uart_module_message
    uart_service_message at_service_message modem_service_message i2c_service_message
    gps_service_message iot_service_message locator_scenario_message log_service_message
    led_service_message
gap_minors-in_order = refl

member_of :
    (i : ℕ) (m : Members) (minor : ℕ)
    → get_elem? gap_minors i ≡ some m
    → IsMember minor m
    → (minor / minor_default_gap ≡ i) × (minor < 2 ^ 16)
unfolding gap_minors
member_of i m minor found member =
    let (base, count, low) = in_order-get_elem gap_minors 0 i m gap_minors-in_order found in
    let quotient : minor / minor_default_gap ≡ i =
      omega (arith, base, count, member.low, member.high) in
    (quotient, omega (arith, base, count, low, member.high))

-- Two messages with the same code are of the same type, go to the same segment and have the same
-- minor number, and the minor numbers of two positions, the signals or the calls of an enumeration of
-- message_def.h, are the same only if the positions are: for types below 16 and major numbers below
-- 2 ^ 12. The MBLUE_SYS numbers are in no enumeration and at no position.
pub make_code-injective :
    (type type' major major' minor minor' i j : ℕ) (m n : Members)
    → type < 16
    → type' < 16
    → major < 2 ^ 12
    → major' < 2 ^ 12
    → get_elem? gap_minors i ≡ some m
    → IsMember minor m
    → get_elem? gap_minors j ≡ some n
    → IsMember minor' n
    → make_code type major minor ≡ make_code type' major' minor'
    → (type ≡ type') × (major ≡ major') × (minor ≡ minor') × (i ≡ j)
make_code-injective type type' major major' minor minor' i j m n t t' a a' at_i member at_j member'
      e =
    let (place, bound) = member_of i m minor at_i member in
    let (place', bound') = member_of j n minor' at_j member' in
    let (type_eq, major_eq, minor_eq) = get-make_code type major minor t a bound in
    let (type_eq', major_eq', minor_eq') = get-make_code type' major' minor' t' a' bound' in
    let same : minor ≡ minor' = sym minor_eq ∙ ap get_minor e ∙ minor_eq' in
    (
      sym type_eq ∙ ap get_type e ∙ type_eq',
      sym major_eq ∙ ap get_major e ∙ major_eq',
      same,
      sym place ∙ ap (λ (k : ℕ). k / minor_default_gap) same ∙ place',
    )
