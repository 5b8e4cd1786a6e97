-- ===== src/Heap/Align.antt =====
-- The block that is asked for has room for the bytes that are cleared.
use mblue.Common.{
  ℕ, zero, suc, ◌+◌, ◌-◌, ◌*◌, ◌/◌, ◌%◌, ◌^◌, ◌≤◌, ◌<◌, ◌≡◌, ◌≢◌, ◌⊎◌, inl, inr, refl, ap, ◌∙◌,
  bit_and, ◌==◌, update_self, update_other, if_intro, arith,
}
use native.Mathlib.Decide.{dec_lt}
use mblue.Common.Bits.{bit_and_step, bit_and_mask}
use mblue.Common.Words.{u32}
use mblue.Heap.{alignment_up, mblue_align, clear, mblue_malloc}

clear_low_bits : (x : ℕ) → bit_and x 0xFFFFFFF0 ≡ 16 * (x / 16 % 2 ^ 28)
clear_low_bits x =
    let a : bit_and x 0xFFFFFFF0 ≡ 2 * bit_and (x / 2) 0x7FFFFFF8 =
      omega (arith, bit_and_step x 0xFFFFFFF0) in
    let b : bit_and (x / 2) 0x7FFFFFF8 ≡ 2 * bit_and (x / 2 / 2) 0x3FFFFFFC =
      omega (arith, bit_and_step (x / 2) 0x7FFFFFF8) in
    let c : bit_and (x / 2 / 2) 0x3FFFFFFC ≡ 2 * bit_and (x / 2 / 2 / 2) 0x1FFFFFFE =
      omega (arith, bit_and_step (x / 2 / 2) 0x3FFFFFFC) in
    let d : bit_and (x / 2 / 2 / 2) 0x1FFFFFFE ≡ 2 * bit_and (x / 2 / 2 / 2 / 2) 0x0FFFFFFF =
      omega (arith, bit_and_step (x / 2 / 2 / 2) 0x1FFFFFFE) in
    let e : bit_and (x / 2 / 2 / 2 / 2) 0x0FFFFFFF ≡ (x / 2 / 2 / 2 / 2) % 2 ^ 28 =
      bit_and_mask 28 (x / 2 / 2 / 2 / 2) in
    omega arith

-- Up to 2 ^ 32 - 16 bytes the size that is asked for is the next multiple of 16.
pub mblue_align_lem :
    (size : ℕ)
    → size ≤ 2 ^ 32 - 16
    → (mblue_align size % 16 ≡ 0) × (size ≤ mblue_align size) × (mblue_align size < size + 16)
unfolding mblue_align alignment_up
mblue_align_lem size low =
    let e = clear_low_bits (u32 (size + 16 - 1)) in (omega arith, omega arith, omega arith)

clear-zero : (memory : ℕ → ℕ) (p n i : ℕ) → i < n → clear memory p n (p + i) ≡ 0
unfolding clear
clear-zero memory p zero i lt = absurd (omega arith)
clear-zero memory p (suc n) i lt = elim (dec_lt i n) [
  | yes before ↦
      update_other (clear memory p n) (p + n) 0 (p + i) (λ e. absurd (omega arith))
      ∙ clear-zero memory p n i before
  | no last ↦
      let same : p + i ≡ p + n = omega arith in
      ap (λ (a : ℕ). clear memory p (suc n) a) same ∙ update_self (clear memory p n) (p + n) 0
]

clear-outside : (memory : ℕ → ℕ) (p n a : ℕ) → (a < p) ⊎ (p + n ≤ a) → clear memory p n a ≡ memory a
unfolding clear
clear-outside memory p zero a apart = refl
clear-outside memory p (suc n) a (inl lo) =
    update_other (clear memory p n) (p + n) 0 a (λ e. absurd (omega arith))
    ∙ clear-outside memory p n a (inl lo)
clear-outside memory p (suc n) a (inr hi) =
    update_other (clear memory p n) (p + n) 0 a (λ e. absurd (omega arith))
    ∙ clear-outside memory p n a (inr (omega arith))

-- The block at `p` begins with `size` bytes 0, and what is not in the block of `room` bytes is as it
-- was.
pub record IsZeroed (memory : ℕ → ℕ) (p size room : ℕ) (result : ℕ × (ℕ → ℕ)) : Type 0 where
  pub pointer : result.0 ≡ p
  pub zeroed : (i : ℕ) → i < size → result.1 (p + i) ≡ 0
  pub outside : (a : ℕ) → (a < p) ⊎ (p + room ≤ a) → result.1 a ≡ memory a

-- When the allocator has a block for at most 2 ^ 32 - 16 bytes, rounded up to 16, mblue_malloc hands
-- it out with all the bytes asked for cleared, and no byte outside of the block is written.
pub mblue_malloc-IsZeroed :
    (imalloc memory : ℕ → ℕ) (size : ℕ)
    → size ≤ 2 ^ 32 - 16
    → imalloc (mblue_align size) ≢ 0
    → IsZeroed memory
        (imalloc (mblue_align size))
        size
        (mblue_align size)
        (mblue_malloc imalloc memory size)
unfolding mblue_malloc
mblue_malloc-IsZeroed imalloc memory size low real =
    let p = imalloc (mblue_align size) in
    let fits = mblue_align_lem size low in
    if_intro (λ result. IsZeroed memory p size (mblue_align size) result) (p == 0)
      (λ null. absurd (real (ground (arith, null))))
      (λ there. record {
        pointer = refl;
        zeroed = clear-zero memory p size;
        outside = λ a apart. clear-outside memory p size a (within a apart fits);
      })
  where
    within :
        {p room : ℕ} (a : ℕ)
        → (a < p) ⊎ (p + room ≤ a)
        → (room % 16 ≡ 0) × (size ≤ room) × (room < size + 16)
        → (a < p) ⊎ (p + size ≤ a)
    within a (inl lo) fits = inl lo
    within a (inr hi) fits = inr (omega arith)
