-- ===== src/Power.antt =====
-- middleware/components/power/mblue_power_guard.c: who keeps the system awake. `power_holder` is a
-- `uint32_t`.
use mblue.Common.{
  ℕ, suc, ◌+◌, ◌-◌, ◌^◌, ◌<◌, ◌≡◌, refl, ap, ◌∙◌, Bool, List, [], ◌∷◌, ◌==◌, if◌then◌else◌, length,
  arith,
}
use mblue.Common.Words.{u32}

pub record PowerGuard : Type 0 where
  pub power_holder : ℕ

unfoldable pub power_init : PowerGuard → PowerGuard
power_init guard = record guard { power_holder = 0 }

unfoldable pub power_inc : PowerGuard → PowerGuard
power_inc guard = record guard { power_holder = u32 (guard.power_holder + 1) }

unfoldable pub power_dec : PowerGuard → PowerGuard
power_dec guard =
    if guard.power_holder == 0
    then guard
    else record guard { power_holder = guard.power_holder - 1 }

unfoldable pub should_sleep : PowerGuard → Bool
should_sleep guard = guard.power_holder == 0

pub data PowerCall : Type 0 where
  inc : PowerCall
  dec : PowerCall

unfoldable pub power_run : PowerGuard → List PowerCall → PowerGuard
unfolding power_inc power_dec
power_run guard [] = guard
power_run guard (inc ∷ calls) = power_run (power_inc guard) calls
power_run guard (dec ∷ calls) = power_run (power_dec guard) calls

-- The holders that are left of `n` when each `dec` gives one back, without a bound.
abbrev pub holders : ℕ → List PowerCall → ℕ
holders n [] = n
holders n (inc ∷ calls) = holders (suc n) calls
holders n (dec ∷ calls) = holders (n - 1) calls

power_inc_lem :
    (guard : PowerGuard)
    → guard.power_holder + 1 < 2 ^ 32
    → (power_inc guard).power_holder ≡ suc guard.power_holder
unfolding power_inc
power_inc_lem guard low = omega arith

power_dec_lem : (guard : PowerGuard) → (power_dec guard).power_holder ≡ guard.power_holder - 1
unfolding power_dec
power_dec_lem guard = ground arith

-- With fewer than 2 ^ 32 calls and holders the guard counts the holders that are left.
pub power_run-holders :
    (guard : PowerGuard) (calls : List PowerCall)
    → guard.power_holder + length calls < 2 ^ 32
    → (power_run guard calls).power_holder ≡ holders guard.power_holder calls
unfolding power_run
power_run-holders guard [] low = refl
power_run-holders guard (inc ∷ calls) low =
    let e = power_inc_lem guard (omega arith) in
    power_run-holders (power_inc guard) calls (omega arith) ∙ ap (λ n. holders n calls) e
power_run-holders guard (dec ∷ calls) low =
    let e = power_dec_lem guard in
    power_run-holders (power_dec guard) calls (omega arith) ∙ ap (λ n. holders n calls) e
