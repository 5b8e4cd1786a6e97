-- ===== src/Clock/Years.antt =====
-- The loop for the year of convert_utc_to_calendar.
use mblue.Common.{
  ℕ, zero, suc, ◌+◌, ◌-◌, ◌*◌, ◌/◌, ◌≤◌, ◌<◌, ◌≡◌, refl, ap, ◌∙◌, inl, inr, Bool, true, false, ltb,
  if◌then◌else◌, some, arith, Bool-cases,
}
use mblue.Common.Words.{u32}
use mblue.Clock.{year_to_days, year_loop}
use mblue.Clock.Reference.{leap, days_of_years}

-- The days of `n` years in closed form.
abbrev pub year_days : ℕ → ℕ
year_days y = y * 365 + y / 4 - y / 100 + y / 400

pub year_days-suc : (y : ℕ) → year_days (suc y) ≡ year_days y + 365 + leap (suc y)
year_days-suc y = ground arith

pub year_length : (y : ℕ) → year_days (suc y) ≤ year_days y + 366
year_length y = ground (arith, year_days-suc y)

pub days_of_years_lem : (y : ℕ) → days_of_years y ≡ year_days y
days_of_years_lem zero = refl
days_of_years_lem (suc y) = omega (arith, days_of_years_lem y, year_days-suc y)

-- Far below the end of `uint32_t` the macro and the test of the loop are those of the closed form.
abbrev pub year_max : ℕ
year_max = 11000000

pub year_to_days_lem : (y : ℕ) → y < year_max → year_to_days y ≡ year_days y
unfolding year_to_days
year_to_days_lem y low = omega arith

-- Where the loop for the year ends: `seconds` is behind the last of February of `year` and not behind
-- that of the next year.
abbrev pub IsYear : ℕ → ℕ → Type 0
IsYear year seconds = (year_days year + 30 < seconds) × (seconds ≤ year_days (suc year) + 30)

next_year : (year : ℕ) → suc year < year_max → u32 (year + 1) ≡ suc year
next_year year low = omega arith

loop_bound :
    (year : ℕ)
    → suc year < year_max
    → u32 (year_to_days (u32 (year + 1)) + 30) ≡ year_days (suc year) + 30
loop_bound year low =
    ap (λ (y : ℕ). u32 (year_to_days y + 30)) (next_year year low)
    ∙ ap (λ (d : ℕ). u32 (d + 30)) (year_to_days_lem (suc year) low)
    ∙ omega arith

year_loop_more :
    (fuel year seconds : ℕ)
    → suc year < year_max
    → ltb (year_days (suc year) + 30) seconds ≡ true
    → year_loop (suc fuel) year seconds ≡ year_loop fuel (suc year) seconds
unfolding year_loop
year_loop_more fuel year seconds low more =
    ap (λ (b : ℕ). if ltb b seconds then year_loop fuel (u32 (year + 1)) seconds else some year)
      (loop_bound year low)
    ∙ ap (λ (b : Bool). if b then year_loop fuel (u32 (year + 1)) seconds else some year) more
    ∙ ap (λ (y : ℕ). year_loop fuel y seconds) (next_year year low)

year_loop_done :
    (fuel year seconds : ℕ)
    → suc year < year_max
    → ltb (year_days (suc year) + 30) seconds ≡ false
    → year_loop (suc fuel) year seconds ≡ some year
unfolding year_loop
year_loop_done fuel year seconds low done =
    ap (λ (b : ℕ). if ltb b seconds then year_loop fuel (u32 (year + 1)) seconds else some year)
      (loop_bound year low)
    ∙ ap (λ (b : Bool). if b then year_loop fuel (u32 (year + 1)) seconds else some year) done

pub year_loop_lem :
    (fuel year seconds : ℕ)
    → seconds ≤ 365 * (year + fuel)
    → year + fuel < year_max
    → year_days year + 30 < seconds
    → (r : ℕ) × (year_loop fuel year seconds ≡ some r)
      × (year ≤ r)
      × (r ≤ year + fuel)
      × IsYear r seconds
year_loop_lem zero year seconds enough low behind = absurd (omega arith)
year_loop_lem (suc fuel) year seconds enough low behind =
    elim (Bool-cases (ltb (year_days (suc year) + 30) seconds)) [
      | inl more ↦
          let (r, e, after, high, found) =
            year_loop_lem fuel (suc year) seconds (omega arith) (omega arith)
              (ground (arith, more)) in
          (
            r,
            year_loop_more fuel year seconds (omega arith) more ∙ e,
            omega arith,
            omega arith,
            found,
          )
      | inr done ↦ (
        year,
        year_loop_done fuel year seconds (omega arith) done,
        omega arith,
        omega arith,
        (behind, ground (arith, done)),
      )
    ]
