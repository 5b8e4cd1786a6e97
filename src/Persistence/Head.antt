-- ===== src/Persistence/Head.antt =====
-- The heads of the log stay in their table, and the search for the valid one ends.
use mathlib.Core.Path.{subst}
use mblue.Common.{
  ℕ, zero, suc, ◌+◌, ◌*◌, ◌%◌, ◌^◌, ◌≤◌, ◌<◌, ◌≡◌, refl, sym, inl, inr, Bool, true, false, ltb,
  Option, some, arith, Bool-cases, lt→ltb,
}
use mblue.Persistence.{Section}
use mblue.Persistence.Logger.{
  MbLogger, Flash, flash_start_addr, head_size, is_valid_head_index, is_head, find_loop,
  find_valid_head_index,
}

-- How many heads the table holds.
abbrev pub places : ℕ
places = 455

small_mod : (n : ℕ) → n < 2 ^ 32 → n % 2 ^ 32 ≡ n
small_mod n low = omega arith

small_succ : (n : ℕ) → suc n < 2 ^ 32 → (n + 1) % 2 ^ 32 ≡ suc n
small_succ n low = omega arith

-- The test of `_init_check` and its callees is a plain bound on a place of the table.
pub is_valid_head_index_iff :
    (index : ℕ) → index ≤ places → is_valid_head_index index ≡ ltb index places
unfolding is_valid_head_index
is_valid_head_index_iff index low = ground arith

-- The head at a place of the table.
abbrev pub head_at : Flash → ℕ → Section
head_at fl index = fl.read_head (flash_start_addr + index * head_size)

-- None of the `n` heads from `index` on is valid.
abbrev pub HasNoHead : Flash → ℕ → ℕ → Type 0
HasNoHead fl index zero = Unit {0}
HasNoHead fl index (suc n) = (is_head (head_at fl index) ≡ false) × HasNoHead fl (suc index) n

-- The first valid head at or after `head_index` is `skipped` places on and becomes the configuration,
-- or there is none up to the end of the table.
pub data IsSearch (fl : Flash) (lg : MbLogger) : Option (Bool × MbLogger) → Type 0 where
  found :
      (skipped k : ℕ)
      → lg.head_index + skipped ≡ k
      → k < places
      → HasNoHead fl lg.head_index skipped
      → is_head (head_at fl k) ≡ true
      → IsSearch fl lg (some (true, record { config = head_at fl k; head_index = suc k }))
  missing :
      (skipped : ℕ)
      → lg.head_index + skipped ≡ places
      → HasNoHead fl lg.head_index skipped
      → IsSearch fl lg (some (false, record { config = lg.config; head_index = places }))

find_loop_hit :
    (fuel : ℕ) (fl : Flash) (lg : MbLogger)
    → lg.head_index < places
    → is_head (head_at fl lg.head_index) ≡ true
    → find_loop (suc fuel) fl lg
      ≡ some (true, record { config = head_at fl lg.head_index; head_index = suc lg.head_index })
unfolding find_loop
find_loop_hit fuel fl lg low hit =
    rw
      (
        find_loop,
        is_valid_head_index_iff lg.head_index (omega arith),
        small_mod (flash_start_addr + lg.head_index * head_size) (omega arith),
        small_succ lg.head_index (omega arith),
        lt→ltb _ _ low,
        hit,
      )
      refl

find_loop_miss :
    (fuel : ℕ) (fl : Flash) (lg : MbLogger)
    → lg.head_index < places
    → is_head (head_at fl lg.head_index) ≡ false
    → find_loop (suc fuel) fl lg ≡ find_loop fuel fl (record lg { head_index = suc lg.head_index })
unfolding find_loop
find_loop_miss fuel fl lg low miss =
    rw
      (
        find_loop,
        is_valid_head_index_iff lg.head_index (omega arith),
        small_mod (flash_start_addr + lg.head_index * head_size) (omega arith),
        small_succ lg.head_index (omega arith),
        lt→ltb _ _ low,
        miss,
      )
      refl

find_loop_end :
    (fuel : ℕ) (fl : Flash) (lg : MbLogger)
    → lg.head_index ≡ places
    → find_loop (suc fuel) fl lg ≡ some (false, record { config = lg.config; head_index = places })
unfolding find_loop
find_loop_end fuel fl lg e =
    rw (find_loop, is_valid_head_index_iff lg.head_index (omega arith), e) refl

IsSearch-end :
    (fl : Flash) (lg : MbLogger) → lg.head_index ≡ places → IsSearch fl lg (some (false, lg))
IsSearch-end fl lg e =
    subst (λ n. IsSearch fl lg (some (false, record { config = lg.config; head_index = n })))
      (sym e) (missing 0 (omega arith) tt)

IsSearch-suc :
    (fl : Flash) (lg : MbLogger) (result : Option (Bool × MbLogger))
    → is_head (head_at fl lg.head_index) ≡ false
    → IsSearch fl (record lg { head_index = suc lg.head_index }) result
    → IsSearch fl lg result
IsSearch-suc fl lg _ miss (found skipped k e low none_before hit) =
    found (suc skipped) k (omega (arith, e)) low (miss, none_before) hit
IsSearch-suc fl lg _ miss (missing skipped e none_before) =
    missing (suc skipped) (omega (arith, e)) (miss, none_before)

find_loop_lem :
    (fuel : ℕ) (fl : Flash) (lg : MbLogger)
    → lg.head_index ≤ places
    → places < fuel + lg.head_index
    → IsSearch fl lg (find_loop fuel fl lg)
find_loop_lem zero fl lg low enough = absurd (omega arith)
find_loop_lem (suc fuel) fl lg low enough = elim (Bool-cases (ltb lg.head_index places)) [
  | inl inside ↦ elim (Bool-cases (is_head (head_at fl lg.head_index))) [
    | inl hit ↦
        rw (find_loop_hit fuel fl lg (ground (arith, inside)) hit)
          (found 0 lg.head_index (omega arith) (ground (arith, inside)) tt hit)
    | inr miss ↦ rw (find_loop_miss fuel fl lg (ground (arith, inside)) miss) (
        IsSearch-suc fl lg _ miss (
          find_loop_lem fuel fl (record lg { head_index = suc lg.head_index })
            (ground (arith, inside)) (omega arith)))
  ]
  | inr outside ↦
      rw (find_loop_end fuel fl lg (ground (arith, outside)))
        (missing 0 (ground (arith, outside)) tt)
]

-- With more fuel than the table has places left, the search for the valid head ends: it takes over
-- the first valid head at or after `head_index`, or it reports that there is none up to the end of
-- the table.
pub find_valid_head_index_lem :
    (fuel : ℕ) (fl : Flash) (lg : MbLogger)
    → lg.head_index ≤ places
    → places < fuel + lg.head_index
    → IsSearch fl lg (find_valid_head_index fuel fl lg)
unfolding find_valid_head_index
find_valid_head_index_lem fuel fl lg low enough = elim (Bool-cases (ltb lg.head_index places)) [
  | inl inside ↦
      rw (is_valid_head_index_iff lg.head_index low, inside) (find_loop_lem fuel fl lg low enough)
  | inr outside ↦
      rw (is_valid_head_index_iff lg.head_index low, outside)
        (IsSearch-end fl lg (ground (arith, outside)))
]
