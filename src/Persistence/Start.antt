-- ===== src/Persistence/Start.antt =====
-- The check of the heads when the log is first used: it returns, and it writes to the table of heads
-- only, apart from the erasure of all the data.
use mblue.Common.{
  ℕ, ◌+◌, ◌-◌, ◌≤◌, inl, inr, List, [], ◌∷◌, ◌++◌, ltb, if◌then◌else◌, Option, some, arith,
  Bool-cases,
}
use mblue.Persistence.Logger.{
  MbLogger, FlashCall, write_word, write_head, erase_flash, Flash, log_head_space_size,
  flash_start_addr, log_start_addr, head_size, set_head_index_invalid, flush_head_index, log_clear,
}
use mblue.Persistence.Head.{places, is_valid_head_index_iff}

-- Every call writes or erases in the table of heads.
abbrev pub AreInTable : List FlashCall → Type 0
AreInTable [] = Unit {0}
AreInTable (write_word addr value ∷ calls) =
    (flash_start_addr ≤ addr) × (addr + 4 ≤ log_start_addr) × AreInTable calls
AreInTable (write_head addr head ∷ calls) =
    (flash_start_addr ≤ addr) × (addr + head_size ≤ log_start_addr) × AreInTable calls
AreInTable (erase_flash addr len ∷ calls) =
    (flash_start_addr ≤ addr) × (addr + len ≤ log_start_addr) × AreInTable calls

AreInTable-append : (xs ys : List FlashCall) → AreInTable xs → AreInTable ys → AreInTable (xs ++ ys)
AreInTable-append [] ys in_xs in_ys = in_ys
AreInTable-append (write_word addr value ∷ xs) ys in_xs in_ys =
    (in_xs.0, in_xs.1, AreInTable-append xs ys in_xs.2 in_ys)
AreInTable-append (write_head addr head ∷ xs) ys in_xs in_ys =
    (in_xs.0, in_xs.1, AreInTable-append xs ys in_xs.2 in_ys)
AreInTable-append (erase_flash addr len ∷ xs) ys in_xs in_ys =
    (in_xs.0, in_xs.1, AreInTable-append xs ys in_xs.2 in_ys)

invalidate-AreInTable :
    (index : ℕ)
    → index ≤ places
    → AreInTable (if ltb 0 index then set_head_index_invalid (index - 1) else [])
unfolding set_head_index_invalid
invalidate-AreInTable index low = elim (Bool-cases (ltb 0 index)) [
  | inl some_old ↦ rw some_old (ground (arith, some_old), ground (arith, some_old), tt)
  | inr first ↦ rw first tt
]

-- A head is written to the table and never behind it; a full table is erased.
pub flush_head_index-AreInTable :
    (lg : MbLogger)
    → lg.head_index ≤ places
    → ((flush_head_index lg).0.head_index ≤ places) × AreInTable ((flush_head_index lg).1)
unfolding flush_head_index
flush_head_index-AreInTable lg low =
    let old = if ltb 0 lg.head_index then set_head_index_invalid (lg.head_index - 1) else [] in
    elim (Bool-cases (ltb lg.head_index places)) [
      | inl inside ↦
          rw (is_valid_head_index_iff lg.head_index low, inside)
            (
              ground (arith, inside),
              AreInTable-append old (write_head _ lg.config ∷ [])
                  (invalidate-AreInTable lg.head_index low)
                  (ground (arith, inside), ground (arith, inside), tt),
            )
      | inr full ↦
          rw (is_valid_head_index_iff lg.head_index low, full)
            (
              omega arith,
              AreInTable-append old (erase_flash flash_start_addr log_head_space_size ∷ [])
                  (invalidate-AreInTable lg.head_index low) (omega arith, omega arith, tt),
            )
    ]

-- What the check at the first use of the log returns: the next head goes into the table or erases it,
-- and the flash is left alone, or all the data is erased and then the table is written to.
pub data IsChecked (fl : Flash) : Option (MbLogger × List FlashCall) → Type 0 where
  untouched : (lg : MbLogger) → lg.head_index ≤ places → IsChecked fl (some (lg, []))
  cleared :
      (lg : MbLogger) (calls : List FlashCall)
      → lg.head_index ≤ places
      → AreInTable calls
      → IsChecked fl (some (lg, log_clear fl ++ calls))
