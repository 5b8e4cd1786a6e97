-- ===== src/Message/Sequence.antt =====
-- `mblue_message_get_sequence` of mblue_message.c: a 16-bit counter that is reset when it reaches
-- 0x8000. The static `sequence` is the state; the function returns the new value.
use mblue.Common.{
  ℕ, zero, suc, ◌+◌, ◌-◌, ◌%◌, ◌^◌, ◌<◌, ◌≡◌, ◌≢◌, arith, bit_and, if◌then◌else◌, ◌==◌,
}
use mblue.Common.Bits.{bit_and_digit}
use mblue.Common.Words.{u16}

-- `++sequence & 0x8000` tests the counter after the increment.
unfoldable pub next_sequence : ℕ → ℕ
next_sequence sequence = let s = u16 (sequence + 1) in if bit_and s 0x8000 == 0 then s else 0

-- The counter after `n` calls.
unfoldable pub sequence_after : ℕ → ℕ → ℕ
sequence_after zero sequence = sequence
sequence_after (suc n) sequence = sequence_after n (next_sequence sequence)

next_sequence_lem : (s : ℕ) → s < 2 ^ 15 → next_sequence s ≡ (s + 1) % 2 ^ 15
unfolding next_sequence
next_sequence_lem s h = ground (arith, bit_and_digit 15 (u16 (s + 1)))

-- From a counter below 2 ^ 15 the value after `n` calls is `n` more, modulo 2 ^ 15.
pub sequence_after_lem : (n s : ℕ) → s < 2 ^ 15 → sequence_after n s ≡ (s + n) % 2 ^ 15
unfolding sequence_after
sequence_after_lem zero s h = omega arith
sequence_after_lem (suc n) s h = omega (
  arith,
  next_sequence_lem s h,
  sequence_after_lem n (next_sequence s) (omega (arith, next_sequence_lem s h)),
)

-- Two calls that are fewer than 2 ^ 15 calls apart return different sequence numbers, and both
-- are below 2 ^ 15.
pub sequence_after_distinct :
    (m n s : ℕ)
    → s < 2 ^ 15
    → m < n
    → n - m < 2 ^ 15
    → (sequence_after m s ≢ sequence_after n s)
      × (sequence_after m s < 2 ^ 15)
      × (sequence_after n s < 2 ^ 15)
sequence_after_distinct m n s h lt near = (
  omega (arith, sequence_after_lem m s h, sequence_after_lem n s h),
  omega (arith, sequence_after_lem m s h),
  omega (arith, sequence_after_lem n s h),
)
