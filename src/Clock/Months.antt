-- ===== src/Clock/Months.antt =====
-- The loop for the month of convert_utc_to_calendar, and the day that it leaves.
use mathlib.Core.Path.{subst}
use mblue.Common.{
  ℕ, zero, suc, ◌+◌, ◌-◌, ◌*◌, ◌/◌, ◌≤◌, ◌<◌, ◌≡◌, sym, ap, ◌∙◌, ◌⊎◌, inl, inr, ltb, ◌==◌,
  if◌then◌else◌, arith, Bool-cases,
}
use mblue.Common.Words.{u8, u16, u32}
use mblue.Clock.{month_loop}
use mblue.Clock.Reference.{leap, month_length, days_of_months, days_of_years, ordinal, IsDate}
use mblue.Clock.Years.{year_days, year_days-suc, year_length, days_of_years_lem}

pub month_loop_lem :
    (left month seconds : ℕ)
    → month + left ≡ 12
    → 367 * month / 12 < seconds
    → let r = month_loop left month seconds in
      (month ≤ r)
      × (r ≤ 12)
      × (367 * r / 12 < seconds)
      × ((r ≡ 12) ⊎ (seconds ≤ 367 * (r + 1) / 12))
unfolding month_loop
month_loop_lem zero month seconds e low = (omega arith, omega arith, low, inl (omega arith))
month_loop_lem (suc left) month seconds e low =
    elim (Bool-cases (ltb (367 * (month + 1) / 12) seconds)) [
      | inl more ↦
          let (from, to, behind, upto) =
            month_loop_lem left (month + 1) seconds (omega arith) (ground (arith, more)) in
          rw (month_loop, more) (omega arith, to, behind, upto)
      | inr done ↦ rw (month_loop, done) (omega arith, omega arith, low, inr (ground (arith, done)))
    ]

-- The months from March to December in the year of that March.
months_lem :
    (y r : ℕ)
    → 1 ≤ r
    → r ≤ 10
    → (days_of_months y (suc r) + 30 ≡ 59 + leap y + 367 * r / 12)
      × (month_length y (suc (suc r)) + 367 * r / 12 ≡ 367 * (r + 1) / 12)
months_lem y zero low high = absurd (omega arith)
months_lem y (suc zero) low high = (omega arith, omega arith)
months_lem y (suc (suc zero)) low high = (omega arith, omega arith)
months_lem y (suc (suc (suc zero))) low high = (omega arith, omega arith)
months_lem y (suc (suc (suc (suc zero)))) low high = (omega arith, omega arith)
months_lem y (suc (suc (suc (suc (suc zero))))) low high = (omega arith, omega arith)
months_lem y (suc (suc (suc (suc (suc (suc zero)))))) low high = (omega arith, omega arith)
months_lem y (suc (suc (suc (suc (suc (suc (suc zero))))))) low high = (omega arith, omega arith)
months_lem y (suc (suc (suc (suc (suc (suc (suc (suc zero)))))))) low high =
    (omega arith, omega arith)
months_lem y (suc (suc (suc (suc (suc (suc (suc (suc (suc zero))))))))) low high =
    (omega arith, omega arith)
months_lem y (suc (suc (suc (suc (suc (suc (suc (suc (suc (suc zero)))))))))) low high =
    (omega arith, omega arith)
months_lem y (suc (suc (suc (suc (suc (suc (suc (suc (suc (suc (suc r))))))))))) low high =
    absurd (omega arith)

-- A date and the day in seconds that it is to be.
abbrev pub IsDay : ℕ → ℕ → ℕ → ℕ → Type 0
IsDay y m d days = IsDate y m d × (ordinal y m d + 336 ≡ days)

pred_suc : (n : ℕ) → suc n - 1 ≡ n
pred_suc n = omega arith

ordinal-suc :
    (k n d : ℕ) → ordinal (suc k) (suc n) d ≡ days_of_years k + days_of_months (suc k) n + d
ordinal-suc k n d =
    ap (λ (y : ℕ). days_of_years y + days_of_months (suc k) (suc n - 1) + d) (pred_suc k)
    ∙ ap (λ (m : ℕ). days_of_years k + days_of_months (suc k) m + d) (pred_suc n)

from_march_to_december :
    (k r s : ℕ)
    → 1 ≤ r
    → r ≤ 10
    → 367 * r / 12 < s
    → s ≤ 367 * (r + 1) / 12
    → IsDay (suc k) (suc (suc r)) (s - 367 * r / 12) (year_days (suc k) + s)
from_march_to_december k r s low high behind upto =
    let (sum, size) = months_lem (suc k) r low high in
    let years = days_of_years_lem k in
    let last = year_days-suc k in
    (
      record {
        year_low = omega arith;
        month_low = omega arith;
        month_high = omega arith;
        day_low = omega arith;
        day_high = omega arith;
      },
      (omega (arith, ordinal-suc k (suc r) (s - 367 * r / 12))),
    )

january : (y s : ℕ) → 336 < s → s ≤ 367 → IsDay (suc y) 1 (s - 336) (year_days y + s)
january y s behind upto = (
  record {
    year_low = omega arith;
    month_low = omega arith;
    month_high = omega arith;
    day_low = omega arith;
    day_high = omega arith;
  },
  omega (arith, days_of_years_lem y, ordinal-suc y 0 (s - 336)),
)

february :
    (y s : ℕ)
    → 367 < s
    → year_days y + s ≤ year_days (suc y) + 30
    → IsDay (suc y) 2 (s - 367) (year_days y + s)
february y s behind upto = (
  record {
    year_low = omega arith;
    month_low = omega arith;
    month_high = omega arith;
    day_low = omega arith;
    day_high = omega (arith, year_days-suc y);
  },
  omega (arith, days_of_years_lem y, ordinal-suc y 1 (s - 367)),
)

IsDay-of :
    {y y' m m' d d' days : ℕ} → y' ≡ y → m' ≡ m → d' ≡ d → IsDay y m d days → IsDay y' m' d' days
IsDay-of {y} {y'} {m} {m'} {d} {d'} {days} e f g day =
    subst (λ (x : ℕ). IsDay x m' d' days) (sym e)
      (subst (λ (x : ℕ). IsDay y x d' days) (sym f)
        (subst (λ (x : ℕ). IsDay y m x days) (sym g) day))

-- The date of month `r` from March on.
pub month-IsDay :
    (k r s : ℕ)
    → suc k < 65535
    → 1 ≤ r
    → r ≤ 12
    → 367 * r / 12 < s
    → (r ≡ 12) ⊎ (s ≤ 367 * (r + 1) / 12)
    → year_days (suc k) + s ≤ year_days (suc (suc k)) + 30
    → IsDay
        (u16 (if ltb 12 (r + 2) then u32 (suc k + 1) else suc k))
        (u8 (if ltb 12 (r + 2) then r + 2 - 12 else r + 2))
        (u8 (s - 367 * r / 12))
        (year_days (suc k) + s)
month-IsDay k r s small low high behind upto in_year =
    let short = year_length (suc k) in
    elim (Bool-cases (ltb 12 (r + 2))) [
      | inr early ↦
          IsDay-of (ground (arith, early)) (ground (arith, early)) (ground (arith, early, upto)) (
            from_march_to_december k r s low (ground (arith, early)) behind
              (ground (arith, early, upto)))
      | inl late ↦ elim (Bool-cases (r == 12)) [
        | inl last ↦
            IsDay-of (ground (arith, late)) (ground (arith, last)) (ground (arith, last))
              (february (suc k) s (ground (arith, last)) in_year)
        | inr before ↦
            IsDay-of (ground (arith, late)) (ground (arith, late, before))
              (ground (arith, late, before, upto))
              (january (suc k) s (ground (arith, late, before))
                (ground (arith, late, before, upto)))
      ]
    ]
